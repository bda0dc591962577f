-- ===== src/Sock/Csum/Words.antt =====
-- The sum of 16-bit words modulo 65535 (RFC 1071), which src/sock/csum.c computes.
use Prim.Native.Nat.{min}
use nebase.Base.{
  ℕ, zero, suc, ◌+◌, ◌-◌, ◌%◌, ◌^◌, ◌≤◌, ◌<◌, ◌≡◌, refl, arith, List, [], ◌∷◌, Option, some, ◌==◌,
  ltb, if◌then◌else◌, All, length, u32,
}
use nebase.Sock.Csum.{ByteOrder, little, big, word16, word32}

-- The sum of the 16-bit words of the first `n` bytes, the last byte padded where `n` is odd.
abbrev pub sum_words : ByteOrder → ℕ → List ℕ → ℕ
sum_words o zero xs = 0
sum_words o (suc zero) [] = 0
sum_words o (suc zero) (x ∷ xs) = word16 o x 0
sum_words o (suc (suc n)) [] = 0
sum_words o (suc (suc n)) (x ∷ []) = word16 o x 0
sum_words o (suc (suc n)) (x ∷ y ∷ xs) = word16 o x y + sum_words o n xs

-- The sum in ones' complement: 0 for 0 only, and otherwise from 1 to 65535.
abbrev pub ones_sum : ℕ → ℕ
ones_sum s = if s == 0 then 0 else (s - 1) % 65535 + 1

-- Two totals that fold to the same 16 bits.
abbrev pub SameSum : ℕ → ℕ → Type 0
SameSum a b = (a % 65535 ≡ b % 65535) × (min a 1 ≡ min b 1)

abbrev pub IsByte : ℕ → Type 0
IsByte b = b < 256

pub ones_sum_unique : (r s : ℕ) → r < 2 ^ 16 → SameSum r s → r ≡ ones_sum s
ones_sum_unique r s h e = ground arith

-- A step has summed a part: the value and what is left fold to the total.
pub record IsSummed (o : ByteOrder) (left total bound : ℕ) (step : Option (ℕ × List ℕ))
    : Type 0 where
  pub value : ℕ
  pub rest : List ℕ
  pub returns : step ≡ some (value, rest)
  pub small : value ≤ bound
  pub folds : SameSum (value + sum_words o left rest) total
  pub bytes : All IsByte rest
  pub enough : left ≤ length rest

pub sum_words_two :
    (o : ByteOrder) (n x y : ℕ) (xs : List ℕ)
    → 2 ≤ n
    → sum_words o n (x ∷ y ∷ xs) ≡ word16 o x y + sum_words o (n - 2) xs
sum_words_two o zero x y xs h = absurd (omega arith)
sum_words_two o (suc zero) x y xs h = absurd (omega arith)
sum_words_two o (suc (suc n)) x y xs h = let e : suc (suc n) - 2 ≡ n = omega arith in rw e refl

pub word16-lt : (o : ByteOrder) (x y : ℕ) → x < 256 → y < 256 → word16 o x y < 2 ^ 16
word16-lt little x y h k = omega arith
word16-lt big x y h k = omega arith

pub word32_same :
    (o : ByteOrder) (a b c d : ℕ)
    → a < 256
    → b < 256
    → c < 256
    → d < 256
    → SameSum (word32 o a b c d) (word16 o a b + word16 o c d) × (word32 o a b c d < 2 ^ 32)
word32_same little a b c d ha hb hc hd = omega arith
word32_same big a b c d ha hb hc hd = omega arith

-- The carry is added in at the next round, and never lost.
pub carry_kept :
    (total w : ℕ)
    → total < 2 ^ 32
    → w < 2 ^ 32
    → let r = u32 (total + w) in
      let c : ℕ = if ltb r w then 1 else 0 in (r + c < 2 ^ 32) × SameSum (r + c) (total + w)
carry_kept total w ht hw = ground arith
