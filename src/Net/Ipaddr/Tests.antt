-- ===== src/Net/Ipaddr/Tests.antt =====
-- Addresses and masks of src/net/ipaddr.c.
use nebase.Base.{ℕ, ◌+◌, ◌-◌, ◌*◌, ◌^◌, ◌≡◌, refl, arith, [], ◌∷◌, ◌++◌, some, drop, replicate}
use nebase.Net.Ipaddr.{SockaddrIn6, ipv4_addr_next, ipv6_addr_next, fill_mask}
use nebase.Net.Ipaddr.Next.{address, ipv6_addr_next_strides}
use nebase.Net.Ipaddr.Mask.{fill_mask_lem}

-- The last IPv4 address is followed by the first.
ipv4_wraps : ipv4_addr_next 4294967295 ≡ 0
unfolding ipv4_addr_next
ipv4_wraps = refl

abbrev host : ℕ → ℕ → SockaddrIn6
host w0 w1 = record {
  family_port = 0x000a0050;
  flowinfo = 0;
  addr0 = w0;
  addr1 = w1;
  addr2 = 0;
  addr3 = 1;
  scope_id = 0;
}

ipv6_addr_next_strides_example :
    (address (ipv6_addr_next (host 0x20010db8 7)) ≡ address (host 0x20010db8 7) + 2 ^ 64)
    × ((ipv6_addr_next (host 0x20010db8 7)).family_port ≡ (host 0x20010db8 7).family_port)
    × ((ipv6_addr_next (host 0x20010db8 7)).flowinfo ≡ (host 0x20010db8 7).flowinfo)
ipv6_addr_next_strides_example =
    ipv6_addr_next_strides (host 0x20010db8 7) (omega arith) (λ e. ground arith)

fill_mask_lem_example :
    fill_mask (1 ∷ 2 ∷ 3 ∷ 4 ∷ []) (8 * 2 + 4)
    ≡ some (replicate 2 255 ++ ((256 - 2 ^ (8 - 4)) ∷ drop 3 (1 ∷ 2 ∷ 3 ∷ 4 ∷ [])))
fill_mask_lem_example =
    fill_mask_lem 2 4 (1 ∷ 2 ∷ 3 ∷ 4 ∷ []) (omega arith) (omega arith) (omega arith)
