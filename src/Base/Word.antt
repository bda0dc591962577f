-- ===== src/Base/Word.antt =====
-- Machine words as native numbers: casts to a width, shifts and masks of C's unsigned types.
use Prim.Native.Nat.{
  ℕ, zero, suc, ◌+◌, ◌*◌, ◌/◌, ◌%◌, ◌^◌, ◌≤◌, ◌<◌, max, digits, bit_or, bit_or-bitwise,
}
use mathlib.Core.Path.{◌≡◌, refl, ap}
use native.Mathlib.Nat.{pow-suc}
use native.Mathlib.Omega.{arith}

abbrev pub u8 : ℕ → ℕ
u8 n = n % 2 ^ 8

abbrev pub u16 : ℕ → ℕ
u16 n = n % 2 ^ 16

abbrev pub u64 : ℕ → ℕ
u64 n = n % 2 ^ 64

abbrev pub u32 : ℕ → ℕ
u32 n = n % 2 ^ 32

-- x & (2 ^ k - 1)
abbrev pub low_bits : ℕ → ℕ → ℕ
low_bits x k = x % 2 ^ k

infixl 75 ◌<<<◌ ◌>>>◌
abbrev pub ◌<<<◌ : ℕ → ℕ → ℕ
x <<< k = x * 2 ^ k

abbrev pub ◌>>>◌ : ℕ → ℕ → ℕ
x >>> k = x / 2 ^ k

-- The native `|` is a recursion on binary digits whose count does not matter once it is enough.
abbrev or_digits : ℕ → ℕ → ℕ → ℕ
or_digits n a b = digits (λ d. d) max n a b

or_digits_enough : (a n m b : ℕ) → a ≤ n → a ≤ m → or_digits n a b ≡ or_digits m a b
or_digits_enough a zero zero b p q = refl
or_digits_enough zero zero (suc m) b p q = refl
or_digits_enough (suc a) zero (suc m) b p q = absurd (omega arith)
or_digits_enough zero (suc n) zero b p q = refl
or_digits_enough (suc a) (suc n) zero b p q = absurd (omega arith)
or_digits_enough zero (suc n) (suc m) b p q = refl
or_digits_enough (suc a) (suc n) (suc m) b p q =
    omega (arith, or_digits_enough (suc a / 2) n m (b / 2) (omega arith) (omega arith))

zero-bit_or : (b : ℕ) → bit_or 0 b ≡ b
zero-bit_or b = bit_or-bitwise 0 b

-- One binary digit of `|`.
bit_or_digit : (a b : ℕ) → bit_or a b ≡ bit_or (a / 2) (b / 2) * 2 + max (a % 2) (b % 2)
bit_or_digit zero b = omega (arith, zero-bit_or b, zero-bit_or (b / 2))
bit_or_digit (suc a) b = omega (
  arith,
  bit_or-bitwise (suc a) b,
  bit_or-bitwise (suc a / 2) (b / 2),
  or_digits_enough (suc a / 2) a (suc a / 2) (b / 2) (omega arith) (omega arith),
)

twice-shift : (b k : ℕ) → b <<< suc k ≡ 2 * (b <<< k)
twice-shift b k = omega (arith, ap (λ (t : ℕ). b * t) (pow-suc 2 k))

-- `a | (b << k)` is a sum where `a` has `k` bits at most.
pub or_disjoint : (k a b : ℕ) → a < 2 ^ k → bit_or a (b <<< k) ≡ (b <<< k) + a
or_disjoint zero a b h = ground (arith, zero-bit_or b)
or_disjoint (suc k) a b h = ground (
  arith,
  twice-shift b k,
  pow-suc 2 k,
  bit_or_digit a (b <<< suc k),
  or_disjoint k (a / 2) b (omega (arith, pow-suc 2 k)),
)
