-- ===== src/Net/Ipaddr/Next.antt =====
-- neb_netinet_addr_next of src/net/ipaddr.c.
use nebase.Base.{ℕ, suc, ◌+◌, ◌*◌, ◌^◌, ◌<◌, ◌==◌, ◌≡◌, ◌≢◌, refl, arith, u32, false}
use nebase.Net.Ipaddr.{SockaddrIn6, carry_on, ipv6_addr_next}

-- The 128-bit address.
abbrev pub address : SockaddrIn6 → ℕ
address a = ((a.addr0 * 2 ^ 32 + a.addr1) * 2 ^ 32 + a.addr2) * 2 ^ 32 + a.addr3

-- Where the second word of the address is no full one, ipv6_addr_next adds 2^64 to the address,
-- not 1, and leaves the rest of the struct alone.
pub ipv6_addr_next_strides :
    (a : SockaddrIn6)
    → a.addr1 < 2 ^ 32
    → a.addr1 ≢ 4294967295
    → (address (ipv6_addr_next a) ≡ address a + 2 ^ 64)
      × ((ipv6_addr_next a).family_port ≡ a.family_port)
      × ((ipv6_addr_next a).flowinfo ≡ a.flowinfo)
unfolding ipv6_addr_next carry_on
ipv6_addr_next_strides a lt ne =
    let partial : (a.addr1 == 4294967295) ≡ false = ground arith in
    let up : u32 (a.addr1 + 1) ≡ a.addr1 + 1 = omega arith in
    rw (partial, up) (omega arith, refl, refl)

-- And where the first two words of the address are full, the carry goes on into the flow label.
pub ipv6_addr_next_carries :
    (a : SockaddrIn6)
    → a.addr1 ≡ 4294967295
    → a.addr0 ≡ 4294967295
    → a.flowinfo < 4294967295
    → (ipv6_addr_next a).flowinfo ≡ suc a.flowinfo
unfolding ipv6_addr_next carry_on
ipv6_addr_next_carries a full full0 lt =
    let partial : (a.flowinfo == 4294967295) ≡ false = ground arith in
    let up : u32 (a.flowinfo + 1) ≡ suc a.flowinfo = omega arith in ground (arith, up)
