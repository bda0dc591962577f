-- ===== src/Sock/Csum/Fill.antt =====
-- src/sock/csum.c: the folds, the pseudo headers and the functions that fill a header's checksum
-- field. A packet is the list of its bytes from the header on.
pub mod Folds
pub mod Receiver
pub mod Ipv6
pub mod Tests
use nebase.Base.{
  ℕ, zero, suc, ◌+◌, ◌-◌, ◌*◌, ◌/◌, ◌%◌, ◌^◌, List, [], ◌∷◌, Option, none, some, ◌>>=◌, ltb,
  if◌then◌else◌, u16, u32, u64, low_bits, ◌<<<◌, ◌>>>◌,
}
use nebase.Sock.Csum.{ByteOrder, little, big, word32, do_csum}

pub csum_partial : ByteOrder → ℕ → List ℕ → ℕ → ℕ → Option ℕ
csum_partial o addr buff len sum = do
  csum ← do_csum o addr buff len
  let result = u32 (csum + sum)
  some (if ltb result sum then u32 (result + 1) else result)

pub from64to32 : ℕ → ℕ
from64to32 x = let y = u64 (low_bits x 32 + (x >>> 32)) in u32 (u64 (low_bits y 32 + (y >>> 32)))

-- (proto + len), or (proto + len) << 8 where BYTE_ORDER is LITTLE_ENDIAN.
abbrev pub proto_len : ByteOrder → ℕ → ℕ → ℕ
proto_len little len proto = (proto + len) <<< 8
proto_len big len proto = proto + len

pub csum_tcpudp_nofold : ByteOrder → ℕ → ℕ → ℕ → ℕ → ℕ → ℕ
csum_tcpudp_nofold o saddr daddr len proto sum =
    from64to32 (u64 (u64 (u64 (sum + saddr) + daddr) + proto_len o len proto))

pub csum_fold : ℕ → ℕ
csum_fold csum =
    let sum = u32 (low_bits csum 16 + (csum >>> 16)) in
    let sum' = u32 (low_bits sum 16 + (sum >>> 16)) in u16 (2 ^ 32 - 1 - sum')

pub ip_fast_csum : ByteOrder → ℕ → List ℕ → ℕ → Option ℕ
ip_fast_csum o addr iph ihl = do sum ← do_csum o addr iph (ihl <<< 2); some (u16 (2 ^ 32 - 1 - sum))

pub csum_tcpudp_magic : ByteOrder → ℕ → ℕ → ℕ → ℕ → ℕ → ℕ
unfolding csum_tcpudp_nofold csum_fold
csum_tcpudp_magic o saddr daddr len proto sum =
    csum_fold (csum_tcpudp_nofold o saddr daddr len proto sum)

-- Four bytes in memory: struct in_addr, or a quarter of struct in6_addr.
pub record Quad : Type 0 where
  pub b0 : ℕ
  pub b1 : ℕ
  pub b2 : ℕ
  pub b3 : ℕ

pub record In6Addr : Type 0 where
  pub q0 : Quad
  pub q1 : Quad
  pub q2 : Quad
  pub q3 : Quad

abbrev pub quad_word : ByteOrder → Quad → ℕ
quad_word o q = word32 o q.b0 q.b1 q.b2 q.b3

-- htobe32
abbrev pub htobe32 : ByteOrder → ℕ → ℕ
htobe32 little x =
    x % 2 ^ 8 * 2 ^ 24 + x / 2 ^ 8 % 2 ^ 8 * 2 ^ 16 + x / 2 ^ 16 % 2 ^ 8 * 2 ^ 8 + x / 2 ^ 24
htobe32 big x = x

-- sum += w; carry = (sum < w); sum += carry;
pub add_carry : ℕ → ℕ → ℕ
add_carry sum w = let sum' = u32 (sum + w) in u32 (sum' + (if ltb sum' w then 1 else 0))

pub add_in6 : ByteOrder → ℕ → In6Addr → ℕ
add_in6 o sum a =
    add_carry
      (add_carry (add_carry (add_carry sum (quad_word o a.q0)) (quad_word o a.q1))
        (quad_word o a.q2))
      (quad_word o a.q3)

pub csum_ipv6_magic : ByteOrder → In6Addr → In6Addr → ℕ → ℕ → ℕ → ℕ
csum_ipv6_magic o saddr daddr len proto csum =
    let sum = add_in6 o (add_in6 o csum saddr) daddr in
    csum_fold (add_carry (add_carry sum (htobe32 o len)) (htobe32 o proto))

-- A 16-bit store: the bytes of the value in memory order.
abbrev pub store16 : ByteOrder → ℕ → List ℕ → List ℕ
store16 little v rest = v % 2 ^ 8 ∷ v / 2 ^ 8 ∷ rest
store16 big v rest = v / 2 ^ 8 ∷ v % 2 ^ 8 ∷ rest

abbrev keep_two : ℕ → ℕ → Option (List ℕ) → Option (List ℕ)
keep_two a b none = none
keep_two a b (some rest) = some (a ∷ b ∷ rest)

-- The store into the 16-bit field `k` of a header; no result where the field is not in memory.
pub put_field : ByteOrder → ℕ → ℕ → List ℕ → Option (List ℕ)
put_field o k v [] = none
put_field o k v (a ∷ []) = none
put_field o zero v (a ∷ b ∷ rest) = some (store16 o v rest)
put_field o (suc k) v (a ∷ b ∷ rest) = keep_two a b (put_field o k v rest)

-- The fields: th_sum at byte 16 of struct tcphdr, icmp_cksum at byte 2 of struct icmp, ip_sum at
-- byte 10 of struct ip.
abbrev pub th_sum : ℕ
th_sum = 8

abbrev pub icmp_cksum : ℕ
icmp_cksum = 1

abbrev pub ip_sum : ℕ
ip_sum = 5

abbrev pub ipproto_tcp : ℕ
ipproto_tcp = 6

pub tcp4_fill : ByteOrder → ℕ → Quad → Quad → List ℕ → ℕ → Option (List ℕ)
tcp4_fill o addr ip_src ip_dst tcpheader l4len = do
  cleared ← put_field o th_sum 0 tcpheader
  partial ← csum_partial o addr cleared l4len 0
  put_field o th_sum
      (csum_tcpudp_magic o (quad_word o ip_src) (quad_word o ip_dst) (u16 l4len) ipproto_tcp
        partial)
      cleared

pub tcp6_fill : ByteOrder → ℕ → In6Addr → In6Addr → List ℕ → ℕ → Option (List ℕ)
tcp6_fill o addr ip6_src ip6_dst tcpheader l4len = do
  cleared ← put_field o th_sum 0 tcpheader
  partial ← csum_partial o addr cleared l4len 0
  put_field o th_sum (csum_ipv6_magic o ip6_src ip6_dst (u32 l4len) ipproto_tcp partial) cleared

pub icmp4_fill : ByteOrder → ℕ → List ℕ → ℕ → Option (List ℕ)
icmp4_fill o addr icmpheader l4len = do
  cleared ← put_field o icmp_cksum 0 icmpheader
  partial ← csum_partial o addr cleared l4len 0
  put_field o icmp_cksum (csum_fold partial) cleared

pub ip4_fill : ByteOrder → ℕ → List ℕ → ℕ → Option (List ℕ)
ip4_fill o addr ipheader ip_hl = do
  cleared ← put_field o ip_sum 0 ipheader
  sum ← ip_fast_csum o addr cleared ip_hl
  put_field o ip_sum sum cleared
