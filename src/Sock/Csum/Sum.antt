-- ===== src/Sock/Csum/Sum.antt =====
-- do_csum against the sum of 16-bit words modulo 65535, as RFC 1071 defines it.
use native.Mathlib.Nat.{zero-add}
use nebase.Base.{
  ℕ, zero, suc, ◌+◌, ◌-◌, ◌*◌, ◌/◌, ◌%◌, ◌^◌, ◌≤◌, ◌<◌, ◌≡◌, refl, arith, List, [], ◌∷◌, some, ◌==◌,
  All, length, Bool-cases, false, ap, inl, inr, or_disjoint, u32,
}
use nebase.Sock.Csum.{ByteOrder, little, big, word16, swap_bytes, do_csum}
use nebase.Sock.Csum.Words.{sum_words, ones_sum, SameSum, IsByte, ones_sum_unique, word16-lt}
use nebase.Sock.Csum.Steps.{sum_body-eq}

module _ (o : ByteOrder) where
  -- The same bytes one place further on count 256 times as much.
  sum_words_shifted :
      (n x : ℕ) (xs : List ℕ)
      → n ≤ length xs
      → SameSum (256 * (word16 o 0 x + sum_words o n xs)) (sum_words o (suc n) (x ∷ xs))
  sum_words_shifted zero x xs l = byte_shifted o x
    where
      byte_shifted : (p : ByteOrder) (x : ℕ) → SameSum (256 * (word16 p 0 x + 0)) (word16 p x 0)
      byte_shifted little x = omega arith
      byte_shifted big x = omega arith
  sum_words_shifted (suc n) x [] l = absurd (omega arith)
  sum_words_shifted (suc zero) x (y ∷ ys) l = pair_shifted o x y
    where
      pair_shifted :
          (p : ByteOrder) (x y : ℕ)
          → SameSum (256 * (word16 p 0 x + word16 p y 0)) (word16 p x y + 0)
      pair_shifted little x y = omega arith
      pair_shifted big x y = omega arith
  sum_words_shifted (suc (suc n)) x (y ∷ []) l = absurd (omega arith)
  sum_words_shifted (suc (suc n)) x (y ∷ z ∷ zs) l =
      triple_shifted o x y z (sum_words o n zs) (sum_words o (suc n) (z ∷ zs))
        (sum_words_shifted n z zs (omega arith))
    where
      triple_shifted :
          (p : ByteOrder) (x y z s t : ℕ)
          → SameSum (256 * (word16 p 0 z + s)) t
          → SameSum (256 * (word16 p 0 x + (word16 p y z + s))) (word16 p x y + t)
      triple_shifted little x y z s t h = omega arith
      triple_shifted big x y z s t h = omega arith

  pub ones_sum_same : (s : ℕ) → SameSum (ones_sum s) s × (ones_sum s < 2 ^ 16)
  ones_sum_same s = ground arith

  swap_bytes_same :
      (r : ℕ) → r < 2 ^ 16 → SameSum (swap_bytes r) (256 * r) × (swap_bytes r < 2 ^ 16)
  unfolding swap_bytes
  swap_bytes_same r h = omega (arith, or_disjoint 8 (r / 2 ^ 8 % 2 ^ 8) (r % 2 ^ 8) (omega arith))

  -- Whatever the alignment of the buffer and in either byte order, `do_csum` reads the first
  -- `n` bytes of a buffer of at least `n` bytes and nothing else, and returns the ones'
  -- complement sum of their 16-bit words, an odd last byte padded with zero.
  pub do_csum-eq-ones_sum :
      (addr n : ℕ) (buff : List ℕ)
      → n ≤ length buff
      → All IsByte buff
      → do_csum o addr buff n ≡ some (ones_sum (sum_words o n buff))
  unfolding do_csum
  do_csum-eq-ones_sum addr zero buff l b = refl
  do_csum-eq-ones_sum addr (suc n) [] l b = absurd (omega arith)
  do_csum-eq-ones_sum addr (suc n) (x ∷ xs) l b =
      let full : suc n == 0 ≡ false = ground arith in
      elim (Bool-cases (addr % 2 ^ 1 == 1)) [
        | inl odd ↦
            let lt = word16-lt o 0 x (omega arith) b.0 in
            let e : suc n - 1 ≡ n = omega arith in
            let f : u32 (word16 o 0 x) ≡ word16 o 0 x = omega arith in
            let body = sum_body-eq o (addr + 1) n xs (word16 o 0 x) (omega arith) b.1 lt in
            let folded = ones_sum_same (word16 o 0 x + sum_words o n xs) in
            let swapped = swap_bytes_same (ones_sum (word16 o 0 x + sum_words o n xs)) folded.1 in
            let shifted = sum_words_shifted n x xs (omega arith) in
            rw (full, odd, e, f, body) (ap some (ones_sum_unique _ _ swapped.1 (omega arith)))
        | inr even ↦
            rw (full, even, ← zero-add (sum_words o (suc n) (x ∷ xs)))
              (sum_body-eq o addr (suc n) (x ∷ xs) 0 l b (omega arith))
      ]
