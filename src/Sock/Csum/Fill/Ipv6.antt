-- ===== src/Sock/Csum/Fill/Ipv6.antt =====
-- The receiver's sum over TCP behind the IPv6 pseudo header (csum_ipv6_magic of src/sock/csum.c).
use nebase.Base.{
  ℕ, suc, ◌+◌, ◌-◌, ◌/◌, ◌%◌, ◌^◌, ◌≤◌, ◌<◌, ◌≡◌, refl, arith, List, some, All, length, u32,
}
use nebase.Sock.Csum.{ByteOrder, little, big, word16}
use nebase.Sock.Csum.Words.{sum_words, ones_sum, SameSum, IsByte, word32_same}
use nebase.Sock.Csum.Fill.Folds.{
  csum_fold-eq, add_carry_same, csum_partial-SameSum, put_field-IsFilled, stored,
}
use nebase.Sock.Csum.Fill.Receiver.{quad_bytes, IsQuad, complement_fills, complement-lt}
use nebase.Sock.Csum.Fill.{
  Quad, In6Addr, quad_word, htobe32, add_carry, add_in6, csum_ipv6_magic, put_field, tcp6_fill,
  th_sum, ipproto_tcp,
}

abbrev pub in6_bytes : In6Addr → List ℕ → List ℕ
in6_bytes a rest = quad_bytes a.q0 (quad_bytes a.q1 (quad_bytes a.q2 (quad_bytes a.q3 rest)))

abbrev pub IsIn6 : In6Addr → Type 0
IsIn6 a = IsQuad a.q0 × IsQuad a.q1 × IsQuad a.q2 × IsQuad a.q3

-- A 32-bit number in network order.
abbrev be_quad : ℕ → Quad
be_quad x = record {
  b0 = x / 2 ^ 24;
  b1 = x / 2 ^ 16 % 2 ^ 8;
  b2 = x / 2 ^ 8 % 2 ^ 8;
  b3 = x % 2 ^ 8;
}

-- RFC 8200: the addresses, the length in 32 bits, three zeros and the next header, 40 bytes.
abbrev pub pseudo6 : In6Addr → In6Addr → ℕ → List ℕ → List ℕ
pseudo6 src dst len rest =
    in6_bytes src (in6_bytes dst (quad_bytes (be_quad len) (quad_bytes (be_quad ipproto_tcp) rest)))

abbrev quad_half : ByteOrder → Quad → ℕ
quad_half o q = word16 o q.b0 q.b1 + word16 o q.b2 q.b3

abbrev in6_half : ByteOrder → In6Addr → ℕ
in6_half o a = quad_half o a.q0 + quad_half o a.q1 + quad_half o a.q2 + quad_half o a.q3

htobe32-eq : (o : ByteOrder) (x : ℕ) → x < 2 ^ 32 → htobe32 o x ≡ quad_word o (be_quad x)
htobe32-eq little x h = omega arith
htobe32-eq big x h = omega arith

module _ (o : ByteOrder) where
  quad_sum :
      (m : ℕ) (q : Quad) (rest : List ℕ)
      → sum_words o (m + 4) (quad_bytes q rest) ≡ quad_half o q + sum_words o m rest
  quad_sum m q rest = let e : m + 4 ≡ suc (suc (suc (suc m))) = omega arith in rw e (omega arith)

  in6_sum :
      (m : ℕ) (a : In6Addr) (rest : List ℕ)
      → sum_words o (m + 16) (in6_bytes a rest) ≡ in6_half o a + sum_words o m rest
  in6_sum m a rest =
      let e : m + 16 ≡ m + 4 + 4 + 4 + 4 = omega arith in
      rw e (
        omega (
          arith,
          quad_sum (m + 4 + 4 + 4) a.q0 (quad_bytes a.q1 (quad_bytes a.q2 (quad_bytes a.q3 rest))),
          quad_sum (m + 4 + 4) a.q1 (quad_bytes a.q2 (quad_bytes a.q3 rest)),
          quad_sum (m + 4) a.q2 (quad_bytes a.q3 rest),
          quad_sum m a.q3 rest,
        ))

  pseudo6_sum :
      (src dst : In6Addr) (len n : ℕ) (rest : List ℕ)
      → sum_words o (n + 40) (pseudo6 src dst len rest)
        ≡ in6_half o src
          + in6_half o dst
          + quad_half o (be_quad len)
          + quad_half o (be_quad ipproto_tcp)
          + sum_words o n rest
  pseudo6_sum src dst len n rest =
      let e : n + 40 ≡ n + 4 + 4 + 16 + 16 = omega arith in
      let protocol = quad_bytes (be_quad ipproto_tcp) rest in
      rw e (
        omega (
          arith,
          in6_sum (n + 4 + 4 + 16) src (in6_bytes dst (quad_bytes (be_quad len) protocol)),
          in6_sum (n + 4 + 4) dst (quad_bytes (be_quad len) protocol),
          quad_sum (n + 4) (be_quad len) protocol,
          quad_sum n (be_quad ipproto_tcp) rest,
        ))

  add_quad_same :
      (s t : ℕ) (q : Quad)
      → s < 2 ^ 32
      → IsQuad q
      → SameSum s t
      → SameSum (add_carry s (quad_word o q)) (t + quad_half o q)
        × (add_carry s (quad_word o q) < 2 ^ 32)
  add_quad_same s t q h b same =
      let word = word32_same o q.b0 q.b1 q.b2 q.b3 b.0 b.1 b.2 b.3 in
      let added = add_carry_same s (quad_word o q) h word.1 in (omega arith, added.1)

  add_in6_same :
      (s t : ℕ) (a : In6Addr)
      → s < 2 ^ 32
      → IsIn6 a
      → SameSum s t
      → SameSum (add_in6 o s a) (t + in6_half o a) × (add_in6 o s a < 2 ^ 32)
  unfolding add_in6
  add_in6_same s t a h b same =
      let p0 = add_quad_same s t a.q0 h b.0 same in
      let p1 = add_quad_same _ _ a.q1 p0.1 b.1 p0.0 in
      let p2 = add_quad_same _ _ a.q2 p1.1 b.2 p1.0 in
      let p3 = add_quad_same _ _ a.q3 p2.1 b.3 p2.0 in (omega (arith, p3.0), p3.1)

  ipv6_magic-eq :
      (src dst : In6Addr) (len n sum : ℕ) (rest : List ℕ)
      → IsIn6 src
      → IsIn6 dst
      → len < 2 ^ 32
      → sum < 2 ^ 32
      → SameSum sum (sum_words o n rest + 0)
      → csum_ipv6_magic o src dst len ipproto_tcp sum
        ≡ 65535 - ones_sum (sum_words o (n + 40) (pseudo6 src dst len rest))
  unfolding csum_ipv6_magic
  ipv6_magic-eq src dst len n sum rest hs hd hl fit same =
      let p0 = add_in6_same sum _ src fit hs same in
      let p1 = add_in6_same _ _ dst p0.1 hd p0.0 in
      let p2 =
        add_quad_same _ _ (be_quad len) p1.1 (omega arith, omega arith, omega arith, omega arith)
          p1.0 in
      let p3 =
        add_quad_same _ _ (be_quad ipproto_tcp) p2.1
          (omega arith, omega arith, omega arith, omega arith) p2.0 in
      rw (htobe32-eq o len hl, htobe32-eq o ipproto_tcp (omega arith))
        (csum_fold-eq _ _ p3.1 (omega (arith, p3.0, pseudo6_sum src dst len n rest)))

-- TCP over IPv6, for every segment of at least 18 bytes and less than 2 ^ 32: after `tcp6_fill`
-- the segment behind its pseudo header sums up to 0xffff, and nothing but th_sum has changed.
pub tcp6_fill-IsAccepted :
    (o : ByteOrder) (addr n : ℕ) (src dst : In6Addr) (segment : List ℕ)
    → 18 ≤ n
    → n < 2 ^ 32
    → n ≤ length segment
    → All IsByte segment
    → IsIn6 src
    → IsIn6 dst
    → (out : List ℕ) × (tcp6_fill o addr src dst segment n ≡ some out)
      × (ones_sum (sum_words o (n + 40) (pseudo6 src dst n out)) ≡ 65535)
      × (put_field o th_sum 0 out ≡ put_field o th_sum 0 segment)
unfolding tcp6_fill
tcp6_fill-IsAccepted o addr n src dst segment h small l b hs hd =
    let cleared : List ℕ = stored o th_sum 0 segment in
    let s : ℕ = sum_words o (n + 40) (pseudo6 src dst n cleared) in
    let v : ℕ = 65535 - ones_sum s in
    let f = put_field-IsFilled o th_sum n v segment h l b (complement-lt s) in
    let out : List ℕ = stored o th_sum v segment in
    let (r, partial, fits, same) =
      csum_partial-SameSum o addr n 0 cleared (omega (arith, f.same_length)) f.bytes
        (omega arith) in
    let magic = ipv6_magic-eq o src dst n n r cleared hs hd small fits same in
    let cut : u32 n ≡ n = omega arith in
    let sum : sum_words o (n + 40) (pseudo6 src dst n out) ≡ s + v =
      omega (arith, pseudo6_sum o src dst n n out, pseudo6_sum o src dst n n cleared, f.counted) in
    (
      out,
      rw (f.clears, partial, cut, magic) f.fills,
      rw sum (complement_fills s),
      rw (f.clears_back, f.clears) refl,
    )
