-- ===== src/Sock/Csum/Fill/Folds.antt =====
-- The folds, the partial sums and the store of src/sock/csum.c, as sums modulo 65535.
use nebase.Base.{
  ℕ, zero, suc, ◌+◌, ◌-◌, ◌*◌, ◌/◌, ◌%◌, ◌^◌, ◌≤◌, ◌<◌, ◌≡◌, refl, arith, List, [], ◌∷◌, some, All,
  length, u32, ltb, if◌then◌else◌,
}
use nebase.Sock.Csum.{ByteOrder, little, big}
use nebase.Sock.Csum.Words.{sum_words, ones_sum, SameSum, IsByte, ones_sum_unique}
use nebase.Sock.Csum.Sum.{do_csum-eq-ones_sum, ones_sum_same}
use nebase.Sock.Csum.Fill.{csum_partial, from64to32, csum_fold, add_carry, store16, put_field}

pub csum_fold-eq : (x s : ℕ) → x < 2 ^ 32 → SameSum x s → csum_fold x ≡ 65535 - ones_sum s
unfolding csum_fold
csum_fold-eq x s h e =
    let folded =
      ones_sum_unique ((x % 2 ^ 16 + x / 2 ^ 16) % 2 ^ 16 + (x % 2 ^ 16 + x / 2 ^ 16) / 2 ^ 16) s
        (omega arith) (omega arith) in
    omega arith

pub add_carry_same :
    (s w : ℕ) → s < 2 ^ 32 → w < 2 ^ 32 → SameSum (add_carry s w) (s + w) × (add_carry s w < 2 ^ 32)
unfolding add_carry
add_carry_same s w hs hw = ground arith

pub csum_partial-SameSum :
    (o : ByteOrder) (addr n sum : ℕ) (xs : List ℕ)
    → n ≤ length xs
    → All IsByte xs
    → sum < 2 ^ 32
    → (r : ℕ) × (csum_partial o addr xs n sum ≡ some r)
      × (r < 2 ^ 32)
      × SameSum r (sum_words o n xs + sum)
unfolding csum_partial
csum_partial-SameSum o addr n sum xs l b h =
    let c = ones_sum_same o (sum_words o n xs) in
    let total : ℕ = ones_sum (sum_words o n xs) in
    let r : ℕ = u32 (total + sum) in
    (
      (if ltb r sum then u32 (r + 1) else r),
      rw (do_csum-eq-ones_sum o addr n xs l b) refl,
      ground arith,
      ground arith,
    )

pub from64to32_same : (x : ℕ) → x < 2 ^ 64 → SameSum (from64to32 x) x × (from64to32 x < 2 ^ 32)
unfolding from64to32
from64to32_same x h = omega arith

-- A header with its field `k` zeroed and filled: the sum grows by what is stored, and nothing
-- but the field changes.
pub record IsFilled (o : ByteOrder) (k n v : ℕ) (xs cleared filled : List ℕ) : Type 0 where
  pub clears : put_field o k 0 xs ≡ some cleared
  pub fills : put_field o k v cleared ≡ some filled
  pub clears_back : put_field o k 0 filled ≡ some cleared
  pub counted : sum_words o n filled ≡ sum_words o n cleared + v
  pub bytes : All IsByte cleared
  pub same_length : length cleared ≡ length xs

-- The store into a field, as a function.
pub stored : ByteOrder → ℕ → ℕ → List ℕ → List ℕ
stored o k v [] = []
stored o k v (a ∷ []) = a ∷ []
stored o zero v (a ∷ b ∷ xs) = store16 o v xs
stored o (suc k) v (a ∷ b ∷ xs) = a ∷ b ∷ stored o k v xs

pub put_field-IsFilled :
    (o : ByteOrder) (k n v : ℕ) (xs : List ℕ)
    → 2 * k + 2 ≤ n
    → n ≤ length xs
    → All IsByte xs
    → v < 2 ^ 16
    → IsFilled o k n v xs (stored o k 0 xs) (stored o k v xs)
unfolding put_field stored
put_field-IsFilled o k n v [] h l b lt = absurd (omega arith)
put_field-IsFilled o k n v (a ∷ []) h l b lt = absurd (omega arith)
put_field-IsFilled o zero zero v (a ∷ c ∷ xs) h l b lt = absurd (omega arith)
put_field-IsFilled o zero (suc zero) v (a ∷ c ∷ xs) h l b lt = absurd (omega arith)
put_field-IsFilled little zero (suc (suc n)) v (a ∷ c ∷ xs) h l b lt = record {
  clears = refl;
  fills = refl;
  clears_back = refl;
  counted = omega arith;
  bytes = (omega arith, (omega arith, b.1.1));
  same_length = refl;
}
put_field-IsFilled big zero (suc (suc n)) v (a ∷ c ∷ xs) h l b lt = record {
  clears = refl;
  fills = refl;
  clears_back = refl;
  counted = omega arith;
  bytes = (omega arith, (omega arith, b.1.1));
  same_length = refl;
}
put_field-IsFilled o (suc k) zero v (a ∷ c ∷ xs) h l b lt = absurd (omega arith)
put_field-IsFilled o (suc k) (suc zero) v (a ∷ c ∷ xs) h l b lt = absurd (omega arith)
put_field-IsFilled o (suc k) (suc (suc n)) v (a ∷ c ∷ xs) h l b lt =
    let later = put_field-IsFilled o k n v xs (omega arith) (omega arith) b.1.1 lt in
    record {
      clears = rw later.clears;
      fills = rw later.fills;
      clears_back = rw later.clears_back;
      counted = omega (arith, later.counted);
      bytes = (b.0, (b.1.0, later.bytes));
      same_length = omega (arith, later.same_length);
    }
