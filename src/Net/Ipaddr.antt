-- ===== src/Net/Ipaddr.antt =====
-- src/net/ipaddr.c: the next address and netmasks. Bytes and words are numbers, words in the
-- host's order after ntohl.
pub mod Next
pub mod Mask
pub mod Tests
use nebase.Base.{
  ℕ, zero, suc, ◌+◌, ◌-◌, ◌*◌, ◌%◌, ◌^◌, ◌==◌, ltb, ◌<<<◌, low_bits, u32, Bool, List, [], ◌∷◌,
  Option, none, some, if◌then◌else◌,
}

-- The 32-bit words of a struct sockaddr_in6: family and port, flow label, address, scope.
pub record SockaddrIn6 : Type 0 where
  pub family_port : ℕ
  pub flowinfo : ℕ
  pub addr0 : ℕ
  pub addr1 : ℕ
  pub addr2 : ℕ
  pub addr3 : ℕ
  pub scope_id : ℕ

-- ipv4_addr_next on sin_addr.
pub ipv4_addr_next : ℕ → ℕ
ipv4_addr_next t = u32 (t + 1)

-- The loop of ipv6_addr_next over the words p[i] to p[0], the word p[i] first.
pub carry_on : List ℕ → List ℕ
carry_on [] = []
carry_on (t ∷ rest) =
    let further = carry_on rest in if t == 4294967295 then 0 ∷ further else u32 (t + 1) ∷ rest

-- The words that p[3] to p[0] are, since p points to the start of the struct.
abbrev pub store_words : SockaddrIn6 → List ℕ → SockaddrIn6
store_words a (w3 ∷ w2 ∷ w1 ∷ w0 ∷ []) = record a {
  addr1 = w3;
  addr0 = w2;
  flowinfo = w1;
  family_port = w0;
}
store_words a _ = a

pub ipv6_addr_next : SockaddrIn6 → SockaddrIn6
unfolding carry_on
ipv6_addr_next a = store_words a (carry_on (a.addr1 ∷ a.addr0 ∷ a.flowinfo ∷ a.family_port ∷ []))

-- neb_netinet_fill_mask on the bytes from `addr` on; none is a write behind them.
pub fill_mask : List ℕ → ℕ → Option (List ℕ)
fill_mask [] prefix = none
fill_mask (b ∷ addr) prefix =
    let further = fill_mask addr (prefix - 8) in
    if ltb 8 prefix
    then elim further [ none ↦ none | some rest ↦ some (255 ∷ rest) ]
    else some (low_bits (255 <<< (8 - prefix)) 8 ∷ addr)
