-- ===== src/Sock/Csum/Steps.antt =====
-- The statements of do_csum, each against the sum of the words that it reads.
use nebase.Base.{
  ℕ, zero, suc, ◌+◌, ◌-◌, ◌*◌, ◌/◌, ◌%◌, ◌^◌, ◌≤◌, ◌<◌, ◌≡◌, refl, arith, List, [], ◌∷◌, some, ◌==◌,
  ltb, if◌then◌else◌, All, length, Bool-cases, false, ap, inl, inr, u32, leb,
}
use nebase.Sock.Csum.{
  ByteOrder, word16, word32, from32to16, sum_quads, sum_half, sum_blocks, sum_pair, sum_byte,
  sum_long, sum_body,
}
use nebase.Sock.Csum.Words.{
  sum_words, ones_sum, SameSum, IsByte, ones_sum_unique, IsSummed, sum_words_two, word16-lt,
  word32_same, carry_kept,
}

module _ (o : ByteOrder) where
  -- Four bytes: from the whole to the rest, where `k` rounds are left.
  quads_step :
      (k n a b c d : ℕ) (xs : List ℕ)
      → 4 * suc k ≤ n
      → sum_words o n (a ∷ b ∷ c ∷ d ∷ xs) ≡ word16 o a b + (word16 o c d + sum_words o (n - 4) xs)
  quads_step k n a b c d xs h =
      let e : n - 2 - 2 ≡ n - 4 = omega arith in
      rw (
        sum_words_two o n a b (c ∷ d ∷ xs) (omega arith),
        sum_words_two o (n - 2) c d xs (omega arith),
        e,
      )

  sum_quads-IsSummed :
      (k n : ℕ) (xs : List ℕ) (result carry : ℕ)
      → 4 * k ≤ n
      → n ≤ length xs
      → All IsByte xs
      → result + carry < 2 ^ 32
      → IsSummed o
          (n - 4 * k)
          (result + carry + sum_words o n xs)
          131070
          (sum_quads o k xs result carry)
  unfolding sum_quads
  sum_quads-IsSummed zero n xs result carry h l b fit = record {
    value = _;
    rest = xs;
    returns = refl;
    small = omega arith;
    folds = let e : n - 4 * 0 ≡ n = omega arith in rw e (omega arith);
    bytes = b;
    enough = omega arith;
  }
  sum_quads-IsSummed (suc k) n [] result carry h l b fit = absurd (omega arith)
  sum_quads-IsSummed (suc k) n (x ∷ []) result carry h l b fit = absurd (omega arith)
  sum_quads-IsSummed (suc k) n (x ∷ y ∷ []) result carry h l b fit = absurd (omega arith)
  sum_quads-IsSummed (suc k) n (x ∷ y ∷ z ∷ []) result carry h l b fit = absurd (omega arith)
  sum_quads-IsSummed (suc k) n (x ∷ y ∷ z ∷ t ∷ xs) result carry h l b fit =
      let w : ℕ = word32 o x y z t in
      let r : ℕ = u32 (u32 (result + carry) + w) in
      let c : ℕ = if ltb r w then 1 else 0 in
      let same = word32_same o x y z t b.0 b.1.0 b.1.1.0 b.1.1.1.0 in
      let kept = carry_kept (u32 (result + carry)) w (omega arith) same.1 in
      let later =
        sum_quads-IsSummed k (n - 4) xs r c (omega arith) (omega arith) b.1.1.1.1 kept.0 in
      let e : n - 4 * suc k ≡ n - 4 - 4 * k = omega arith in
      record {
        value = later.value;
        rest = later.rest;
        returns = later.returns;
        small = later.small;
        folds = rw e (omega (arith, later.folds, kept.1, same.0, quads_step k n x y z t xs h));
        bytes = later.bytes;
        enough = omega (arith, later.enough);
      }

  sum_half-IsSummed :
      (addr n : ℕ) (xs : List ℕ) (result : ℕ)
      → 2 ≤ n
      → n ≤ length xs
      → All IsByte xs
      → result < 2 ^ 16
      → (rest : List ℕ) × (left : ℕ) × (r : ℕ) × (sum_half o addr xs n result
          ≡ some (rest, left, r))
        × (r < 2 ^ 17)
        × (r + sum_words o left rest ≡ result + sum_words o n xs)
        × All IsByte rest
        × (left ≤ length rest)
  unfolding sum_half
  sum_half-IsSummed addr n [] result h l b fit = absurd (omega arith)
  sum_half-IsSummed addr n (x ∷ []) result h l b fit = absurd (omega arith)
  sum_half-IsSummed addr n (x ∷ y ∷ xs) result h l b fit =
      elim (Bool-cases (addr / 2 ^ 1 % 2 ^ 1 == 1)) [
        | inl odd ↦
            let lt = word16-lt o x y b.0 b.1.0 in
            (
              xs,
              n - 2,
              u32 (result + word16 o x y),
              rw odd refl,
              omega arith,
              omega (arith, sum_words_two o n x y xs h),
              b.1.1,
              omega arith,
            )
        | inr even ↦ (x ∷ y ∷ xs, n, result, rw even refl, omega arith, refl, b, l)
      ]

  sum_blocks-IsSummed :
      (n : ℕ) (xs : List ℕ) (result : ℕ)
      → n ≤ length xs
      → All IsByte xs
      → result < 2 ^ 17
      → IsSummed o (n % 4) (result + sum_words o n xs) (2 ^ 17) (sum_blocks o xs n result)
  unfolding sum_blocks
  sum_blocks-IsSummed n xs result l b fit = elim (Bool-cases (leb 4 n)) [
    | inl long ↦
        let e : n % 4 ≡ n - 4 * (n / 2 ^ 2) = omega arith in
        let s = sum_quads-IsSummed (n / 2 ^ 2) n xs result 0 (omega arith) l b (omega arith) in
        rw (long, e)
          (record {
            value = s.value;
            rest = s.rest;
            returns = s.returns;
            small = omega (arith, s.small);
            folds = omega (arith, s.folds);
            bytes = s.bytes;
            enough = s.enough;
          })
    | inr short ↦
        let e : n % 4 ≡ n = ground arith in
        rw (short, e)
          (record {
            value = result;
            rest = xs;
            returns = refl;
            small = omega arith;
            folds = (refl, refl);
            bytes = b;
            enough = l;
          })
  ]

  sum_pair-IsSummed :
      (n left : ℕ) (xs : List ℕ) (result total : ℕ)
      → left ≡ n % 4
      → left ≤ length xs
      → All IsByte xs
      → result ≤ 2 ^ 17
      → SameSum (result + sum_words o left xs) total
      → IsSummed o (n % 2) total (2 ^ 18) (sum_pair o xs n result)
  unfolding sum_pair
  sum_pair-IsSummed n left [] result total e l b fit same =
      let none_left : n / 2 ^ 1 % 2 ^ 1 == 1 ≡ false = ground arith in
      let even : n % 2 ≡ left = omega arith in
      rw (none_left, even)
        (record {
          value = result;
          rest = [];
          returns = refl;
          small = omega arith;
          folds = same;
          bytes = b;
          enough = l;
        })
  sum_pair-IsSummed n left (x ∷ []) result total e l b fit same =
      let none_left : n / 2 ^ 1 % 2 ^ 1 == 1 ≡ false = ground arith in
      let even : n % 2 ≡ left = omega arith in
      rw (none_left, even)
        (record {
          value = result;
          rest = x ∷ [];
          returns = refl;
          small = omega arith;
          folds = same;
          bytes = b;
          enough = l;
        })
  sum_pair-IsSummed n left (x ∷ y ∷ xs) result total e l b fit same =
      elim (Bool-cases (n / 2 ^ 1 % 2 ^ 1 == 1)) [
        | inl two ↦
            let some_left : 2 ≤ left = ground arith in
            let even : n % 2 ≡ left - 2 = omega arith in
            let lt = word16-lt o x y b.0 b.1.0 in
            rw (two, even)
              (record {
                value = u32 (result + word16 o x y);
                rest = xs;
                returns = refl;
                small = omega arith;
                folds = omega (arith, same, sum_words_two o left x y xs some_left);
                bytes = b.1.1;
                enough = omega arith;
              })
        | inr few ↦
            let even : n % 2 ≡ left = ground arith in
            rw (few, even)
              (record {
                value = result;
                rest = x ∷ y ∷ xs;
                returns = refl;
                small = omega arith;
                folds = same;
                bytes = b;
                enough = l;
              })
      ]

  pub sum_byte-SameSum :
      (n : ℕ) (xs : List ℕ) (result total : ℕ)
      → n % 2 ≤ length xs
      → All IsByte xs
      → result ≤ 2 ^ 18
      → SameSum (result + sum_words o (n % 2) xs) total
      → (r : ℕ) × (sum_byte o xs n result ≡ some r) × (r < 2 ^ 19) × SameSum r total
  unfolding sum_byte
  sum_byte-SameSum n [] result total l b fit same =
      let even : n % 2 ≡ 0 = omega arith in
      let none_left : n % 2 ^ 1 == 1 ≡ false = ground arith in
      let known : SameSum (result + 0) total = rw even at same in
      (result, rw none_left refl, omega arith, omega arith)
  sum_byte-SameSum n (x ∷ xs) result total l b fit same = elim (Bool-cases (n % 2 ^ 1 == 1)) [
    | inl one ↦
        let odd : n % 2 ≡ 1 = ground arith in
        let known : SameSum (result + word16 o x 0) total = rw odd at same in
        let lt = word16-lt o x 0 b.0 (omega arith) in
        (u32 (result + word16 o x 0), rw one refl, omega arith, omega arith)
    | inr zero_left ↦
        let even : n % 2 ≡ 0 = ground arith in
        let known : SameSum (result + 0) total = rw even at same in
        (result, rw zero_left refl, omega arith, omega arith)
  ]

  pub sum_long-SameSum :
      (addr n : ℕ) (xs : List ℕ) (result : ℕ)
      → n ≤ length xs
      → All IsByte xs
      → result < 2 ^ 16
      → (rest : List ℕ) × (left : ℕ) × (r : ℕ) × (sum_long o addr xs n result
          ≡ some (rest, left, r))
        × (r ≤ 2 ^ 18)
        × SameSum (r + sum_words o (left % 2) rest) (result + sum_words o n xs)
        × All IsByte rest
        × (left % 2 ≤ length rest)
  unfolding sum_long
  sum_long-SameSum addr n xs result l b fit = elim (Bool-cases (leb 2 n)) [
    | inl long ↦
        let (rest, left, r, half, small, sum, bytes, enough) =
          sum_half-IsSummed addr n xs result (ground arith) l b fit in
        let blocks = sum_blocks-IsSummed left rest r enough bytes small in
        let pair =
          sum_pair-IsSummed left (left % 4) blocks.rest blocks.value (r + sum_words o left rest)
            refl blocks.enough blocks.bytes blocks.small blocks.folds in
        (
          pair.rest,
          left,
          pair.value,
          rw (long, half, blocks.returns, pair.returns) refl,
          pair.small,
          rw (← sum) pair.folds,
          pair.bytes,
          pair.enough,
        )
    | inr short ↦
        let e : n % 2 ≡ n = ground arith in
        (xs, n, result, rw short refl, omega arith, rw e (refl, refl), b, omega arith)
  ]

  pub sum_body-eq :
      (addr n : ℕ) (xs : List ℕ) (result : ℕ)
      → n ≤ length xs
      → All IsByte xs
      → result < 2 ^ 16
      → sum_body o addr xs n result ≡ some (ones_sum (result + sum_words o n xs))
  unfolding sum_body from32to16
  sum_body-eq addr n xs result l b fit =
      let (rest, left, r, long, small, same, bytes, enough) =
        sum_long-SameSum addr n xs result l b fit in
      let (t, byte, t_small, t_same) =
        sum_byte-SameSum left rest r (result + sum_words o n xs) enough bytes small same in
      rw (long, byte) (ap some (ones_sum_unique _ _ (omega arith) (omega arith)))
