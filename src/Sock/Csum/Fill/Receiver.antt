-- ===== src/Sock/Csum/Fill/Receiver.antt =====
-- What a receiver computes over a packet that src/sock/csum.c has filled.
use nebase.Base.{
  ℕ, suc, ◌+◌, ◌-◌, ◌*◌, ◌/◌, ◌%◌, ◌^◌, ◌≤◌, ◌<◌, ◌≡◌, refl, arith, List, ◌∷◌, some, All, length,
  u16, u64,
}
use nebase.Sock.Csum.{ByteOrder, little, big, word16}
use nebase.Sock.Csum.Words.{sum_words, ones_sum, SameSum, IsByte}
use nebase.Sock.Csum.Sum.{do_csum-eq-ones_sum}
use nebase.Sock.Csum.Fill.Folds.{
  csum_fold-eq, csum_partial-SameSum, from64to32_same, put_field-IsFilled, stored,
}
use nebase.Sock.Csum.Fill.{
  csum_tcpudp_nofold, csum_fold, ip_fast_csum, csum_tcpudp_magic, Quad, quad_word, put_field,
  tcp4_fill, icmp4_fill, ip4_fill, proto_len, th_sum, icmp_cksum, ip_sum, ipproto_tcp,
}

-- The bytes of the pseudo headers, in network order.
abbrev pub quad_bytes : Quad → List ℕ → List ℕ
quad_bytes q rest = q.b0 ∷ q.b1 ∷ q.b2 ∷ q.b3 ∷ rest

-- RFC 793: the addresses, a zero, the protocol and the length, 12 bytes.
abbrev pub pseudo4 : Quad → Quad → ℕ → List ℕ → List ℕ
pseudo4 src dst len rest =
    quad_bytes src (quad_bytes dst (0 ∷ ipproto_tcp ∷ len / 2 ^ 8 ∷ len % 2 ^ 8 ∷ rest))

abbrev pub IsQuad : Quad → Type 0
IsQuad q = IsByte q.b0 × IsByte q.b1 × IsByte q.b2 × IsByte q.b3

-- The complement of a sum fills the sum up to all ones.
pub complement_fills : (s : ℕ) → ones_sum (s + (65535 - ones_sum s)) ≡ 65535
complement_fills s = ground arith

pub complement-lt : (s : ℕ) → 65535 - ones_sum s < 2 ^ 16
complement-lt s = omega arith

-- For every message of at least 4 bytes, whatever its alignment and the byte order,
-- `icmp4_fill` succeeds, changes nothing but the checksum field, and leaves a message whose
-- words sum up to 0xffff, which is what a receiver checks.
pub icmp4_fill-IsAccepted :
    (o : ByteOrder) (addr n : ℕ) (icmp : List ℕ)
    → 4 ≤ n
    → n ≤ length icmp
    → All IsByte icmp
    → (out : List ℕ) × (icmp4_fill o addr icmp n ≡ some out)
      × (ones_sum (sum_words o n out) ≡ 65535)
      × (put_field o icmp_cksum 0 out ≡ put_field o icmp_cksum 0 icmp)
unfolding icmp4_fill
icmp4_fill-IsAccepted o addr n icmp h l b =
    let cleared : List ℕ = stored o icmp_cksum 0 icmp in
    let v : ℕ = 65535 - ones_sum (sum_words o n cleared) in
    let f =
      put_field-IsFilled o icmp_cksum n v icmp h l b (complement-lt (sum_words o n cleared)) in
    let (r, partial, fits, same) =
      csum_partial-SameSum o addr n 0 cleared (omega (arith, f.same_length)) f.bytes
        (omega arith) in
    let folded : csum_fold r ≡ v = csum_fold-eq r (sum_words o n cleared) fits (omega arith) in
    (
      stored o icmp_cksum v icmp,
      rw (f.clears, partial, folded) f.fills,
      rw f.counted (complement_fills (sum_words o n cleared)),
      rw (f.clears_back, f.clears) refl,
    )

-- The same of an IPv4 header, whose length the code takes from its own field: `ip4_fill` leaves a
-- header of `ip_hl` words that sums up to 0xffff, with nothing but ip_sum changed.
pub ip4_fill-IsAccepted :
    (o : ByteOrder) (addr ip_hl : ℕ) (header : List ℕ)
    → 3 ≤ ip_hl
    → ip_hl * 4 ≤ length header
    → All IsByte header
    → (out : List ℕ) × (ip4_fill o addr header ip_hl ≡ some out)
      × (ones_sum (sum_words o (ip_hl * 4) out) ≡ 65535)
      × (put_field o ip_sum 0 out ≡ put_field o ip_sum 0 header)
unfolding ip4_fill ip_fast_csum
ip4_fill-IsAccepted o addr ip_hl header h l b =
    let cleared : List ℕ = stored o ip_sum 0 header in
    let s : ℕ = sum_words o (ip_hl * 4) cleared in
    let v : ℕ = 65535 - ones_sum s in
    let f = put_field-IsFilled o ip_sum (ip_hl * 4) v header (omega arith) l b (complement-lt s) in
    let summed =
      do_csum-eq-ones_sum o addr (ip_hl * 4) cleared (omega (arith, f.same_length)) f.bytes in
    let e : u16 (2 ^ 32 - 1 - ones_sum s) ≡ v = ground arith in
    (
      stored o ip_sum v header,
      rw (f.clears, summed, e) f.fills,
      rw f.counted (complement_fills s),
      rw (f.clears_back, f.clears) refl,
    )

module _ (o : ByteOrder) where
  pseudo4_words :
      (src dst : Quad) (len n : ℕ) (rest : List ℕ)
      → sum_words o (n + 12) (pseudo4 src dst len rest)
        ≡ word16 o src.b0 src.b1
          + (word16 o src.b2 src.b3
              + (word16 o dst.b0 dst.b1
                  + (word16 o dst.b2 dst.b3
                      + (word16 o 0 ipproto_tcp
                          + (word16 o (len / 2 ^ 8) (len % 2 ^ 8) + sum_words o n rest)))))
  pseudo4_words src dst len n rest =
      let twelve : n + 12
          ≡ suc (suc (suc (suc (suc (suc (suc (suc (suc (suc (suc (suc n))))))))))) =
        omega arith in
      rw twelve refl

nofold_same :
    (o : ByteOrder) (src dst : Quad) (len n sum : ℕ) (rest : List ℕ)
    → IsQuad src
    → IsQuad dst
    → len < 2 ^ 16
    → sum < 2 ^ 32
    → SameSum sum (sum_words o n rest + 0)
    → let t = csum_tcpudp_nofold o (quad_word o src) (quad_word o dst) len ipproto_tcp sum in
      SameSum t (sum_words o (n + 12) (pseudo4 src dst len rest)) × (t < 2 ^ 32)
unfolding csum_tcpudp_nofold
nofold_same little src dst len n sum rest hs hd hl fit same =
    let s : ℕ = u64 (
      u64 (u64 (sum + quad_word little src) + quad_word little dst)
      + proto_len little len ipproto_tcp) in
    let folded = from64to32_same s (omega arith) in
    rw (pseudo4_words little src dst len n rest) (omega arith)
nofold_same big src dst len n sum rest hs hd hl fit same =
    let s : ℕ =
      u64
        (u64 (u64 (sum + quad_word big src) + quad_word big dst) + proto_len big len ipproto_tcp) in
    let folded = from64to32_same s (omega arith) in
    rw (pseudo4_words big src dst len n rest) (omega arith)

-- TCP over IPv4, for every segment of at least 18 and at most 65535 bytes: after `tcp4_fill` the
-- segment behind its pseudo header sums up to 0xffff, and nothing but th_sum has changed.
pub tcp4_fill-IsAccepted :
    (o : ByteOrder) (addr n : ℕ) (src dst : Quad) (segment : List ℕ)
    → 18 ≤ n
    → n < 2 ^ 16
    → n ≤ length segment
    → All IsByte segment
    → IsQuad src
    → IsQuad dst
    → (out : List ℕ) × (tcp4_fill o addr src dst segment n ≡ some out)
      × (ones_sum (sum_words o (n + 12) (pseudo4 src dst n out)) ≡ 65535)
      × (put_field o th_sum 0 out ≡ put_field o th_sum 0 segment)
unfolding tcp4_fill csum_tcpudp_magic
tcp4_fill-IsAccepted o addr n src dst segment h small l b hs hd =
    let cleared : List ℕ = stored o th_sum 0 segment in
    let s : ℕ = sum_words o (n + 12) (pseudo4 src dst n cleared) in
    let v : ℕ = 65535 - ones_sum s in
    let f = put_field-IsFilled o th_sum n v segment h l b (complement-lt s) in
    let out : List ℕ = stored o th_sum v segment in
    let (r, partial, fits, same) =
      csum_partial-SameSum o addr n 0 cleared (omega (arith, f.same_length)) f.bytes
        (omega arith) in
    let total = nofold_same o src dst n n r cleared hs hd small fits same in
    let cut : u16 n ≡ n = omega arith in
    let folded = csum_fold-eq _ s total.1 total.0 in
    let sum : sum_words o (n + 12) (pseudo4 src dst n out) ≡ s + v =
      omega
        (arith, pseudo4_words o src dst n n out, pseudo4_words o src dst n n cleared, f.counted) in
    (
      out,
      rw (f.clears, partial, cut, folded) f.fills,
      rw sum (complement_fills s),
      rw (f.clears_back, f.clears) refl,
    )
