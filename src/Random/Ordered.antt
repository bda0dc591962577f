-- ===== src/Random/Ordered.antt =====
-- The slices of a bucket of src/random.c in the order of their counts.
use nebase.Base.{
  ℕ, zero, suc, ◌+◌, ◌==◌, ◌≤◌, ◌<◌, ◌^◌, ◌≡◌, refl, arith, ltb, u32, List, [], ◌∷◌, ◌++◌, some,
  if◌then◌else◌, length, Bool-cases, inl, inr,
}
use nebase.Random.{Slice, bubble, append_node, put_at}

-- Every slice of the list has at least this count.
abbrev pub AtLeast : ℕ → List Slice → Type 0
AtLeast c [] = Unit
AtLeast c (s ∷ rest) = (c ≤ s.count) × AtLeast c rest

abbrev pub Sorted : List Slice → Type 0
Sorted [] = Unit
Sorted (s ∷ rest) = AtLeast s.count rest × Sorted rest

-- The counts count the nodes, and do not wrap.
abbrev pub Counted : List Slice → Type 0
Counted [] = Unit
Counted (s ∷ rest) = (s.count ≡ length s.nlist) × (s.count < 2 ^ 32) × Counted rest

abbrev pub total : List Slice → ℕ
total [] = 0
total (s ∷ rest) = s.count + total rest

abbrev pub occurs : ℕ → List ℕ → ℕ
occurs x [] = 0
occurs x (n ∷ ns) = (if x == n then 1 else 0) + occurs x ns

-- How often a node is in the slices.
abbrev pub tally : ℕ → List Slice → ℕ
tally x [] = 0
tally x (s ∷ rest) = occurs x s.nlist + tally x rest

pub AtLeast-le : (c d : ℕ) (xs : List Slice) → d ≤ c → AtLeast c xs → AtLeast d xs
AtLeast-le c d [] le a = tt
AtLeast-le c d (x ∷ xs) le a = (omega (arith, a.0), AtLeast-le c d xs le a.1)

-- Insertion in the order, within the slices that take part.
bubble-append :
    (s : Slice) (xs tail : List Slice)
    → bubble s (xs ++ tail) (length xs) ≡ bubble s xs (length xs) ++ tail
unfolding bubble
bubble-append s [] tail = refl
bubble-append s (x ∷ xs) tail = elim (Bool-cases (ltb x.count s.count)) [
  | inl lt ↦ rw (lt, bubble-append s xs tail) refl
  | inr ge ↦ rw ge refl
]

bubble-AtLeast :
    (c : ℕ) (s : Slice) (xs : List Slice) (k : ℕ)
    → c ≤ s.count
    → AtLeast c xs
    → AtLeast c (bubble s xs k)
unfolding bubble
bubble-AtLeast c s xs zero le a = (le, a)
bubble-AtLeast c s [] (suc k) le a = (le, tt)
bubble-AtLeast c s (x ∷ xs) (suc k) le a = elim (Bool-cases (ltb x.count s.count)) [
  | inl lt ↦ rw lt (a.0, bubble-AtLeast c s xs k le a.1)
  | inr ge ↦ rw ge (le, a)
]

bubble-Sorted : (s : Slice) (xs : List Slice) → Sorted xs → Sorted (bubble s xs (length xs))
unfolding bubble
bubble-Sorted s [] d = (tt, tt)
bubble-Sorted s (x ∷ xs) d = elim (Bool-cases (ltb x.count s.count)) [
  | inl lt ↦
      rw lt (bubble-AtLeast x.count s xs (length xs) (ground arith) d.0, bubble-Sorted s xs d.1)
  | inr ge ↦
      let up : s.count ≤ x.count = ground arith in
      rw ge ((up, AtLeast-le x.count s.count xs up d.0), d)
]

bubble_sums :
    (s : Slice) (xs : List Slice) (k : ℕ)
    → (total (bubble s xs k) ≡ s.count + total xs)
      × (length (bubble s xs k) ≡ suc (length xs))
      × ((x : ℕ) → tally x (bubble s xs k) ≡ occurs x s.nlist + tally x xs)
unfolding bubble
bubble_sums s xs zero = (refl, refl, λ x. refl)
bubble_sums s [] (suc k) = (refl, refl, λ x. refl)
bubble_sums s (y ∷ xs) (suc k) = elim (Bool-cases (ltb y.count s.count)) [
  | inl lt ↦
      let (t, l, o) = bubble_sums s xs k in
      rw lt (omega (arith, t), omega (arith, l), λ x. omega (arith, o x))
  | inr ge ↦ rw ge (refl, refl, λ x. refl)
]

bubble-Counted : (s : Slice) (xs : List Slice) (k : ℕ) → Counted (s ∷ xs) → Counted (bubble s xs k)
unfolding bubble
bubble-Counted s xs zero c = c
bubble-Counted s [] (suc k) c = c
bubble-Counted s (y ∷ xs) (suc k) (c, b, (d, e, r)) = elim (Bool-cases (ltb y.count s.count)) [
  | inl lt ↦ rw lt (d, e, bubble-Counted s xs k (c, b, r))
  | inr ge ↦ rw ge (c, b, (d, e, r))
]

length-append_one : (n : ℕ) (xs : List ℕ) → length (xs ++ (n ∷ [])) ≡ suc (length xs)
length-append_one n [] = refl
length-append_one n (x ∷ xs) = omega (arith, length-append_one n xs)

occurs-append_one :
    (x n : ℕ) (xs : List ℕ) → occurs x (xs ++ (n ∷ [])) ≡ occurs x xs + (if x == n then 1 else 0)
occurs-append_one x n [] = omega arith
occurs-append_one x n (y ∷ xs) = omega (arith, occurs-append_one x n xs)

pub total-append : (xs ys : List Slice) → total (xs ++ ys) ≡ total xs + total ys
total-append [] ys = omega arith
total-append (x ∷ xs) ys = omega (arith, total-append xs ys)

pub tally-append : (x : ℕ) (xs ys : List Slice) → tally x (xs ++ ys) ≡ tally x xs + tally x ys
tally-append x [] ys = omega arith
tally-append x (s ∷ xs) ys = omega (arith, tally-append x xs ys)

-- The slices `ys` are those of `xs` with one more node `n`, in order again.
pub record IsPut (n : ℕ) (xs ys : List Slice) : Type 0 where
  pub sorted : Sorted ys
  pub counted : Counted ys
  pub size : length ys ≡ length xs
  pub grown : total ys ≡ suc (total xs)
  pub low : (c : ℕ) → AtLeast c xs → AtLeast c ys
  pub tallied : (x : ℕ) → tally x ys ≡ tally x xs + (if x == n then 1 else 0)

pub put_at-IsPut :
    (n rn rounds : ℕ) (xs tail : List Slice)
    → length xs ≡ suc rn + rounds
    → Sorted xs
    → Counted xs
    → suc (total xs) < 2 ^ 32
    → (ys : List Slice) × (put_at n rn rounds (xs ++ tail) ≡ some (ys ++ tail)) × IsPut n xs ys
unfolding put_at
put_at-IsPut n rn rounds [] tail l d c lt = absurd (omega arith)
put_at-IsPut n zero rounds (s ∷ xs) tail l d (c, b, r) lt =
    let k : rounds ≡ length xs = omega (arith, l) in
    let up : u32 (s.count + 1) ≡ s.count + 1 = omega arith in
    let t = append_node n s in
    let (grown, size, tallied) = bubble_sums t xs (length xs) in
    (
      bubble t xs (length xs),
      rw (k, bubble-append t xs tail) refl,
      record {
        sorted = bubble-Sorted t xs d.1;
        counted =
            bubble-Counted t xs (length xs)
              (omega (arith, length-append_one n s.nlist), omega (arith, up), r);
        size = size;
        grown = omega (arith, grown);
        low = λ m a. bubble-AtLeast m t xs (length xs) (omega (arith, up, a.0)) a.1;
        tallied = λ x. omega (arith, tallied x, occurs-append_one x n s.nlist);
      },
    )
put_at-IsPut n (suc rn) rounds (s ∷ xs) tail l d (c, b, r) lt =
    let (ys, e, h) = put_at-IsPut n rn rounds xs tail (omega (arith, l)) d.1 r (omega arith) in
    (
      s ∷ ys,
      rw e refl,
      record {
        sorted = (h.low s.count d.0, h.sorted);
        counted = (c, b, h.counted);
        size = omega (arith, h.size);
        grown = omega (arith, h.grown);
        low = λ m a. (a.0, h.low m a.1);
        tallied = λ x. omega (arith, h.tallied x);
      },
    )
