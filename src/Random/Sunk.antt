-- ===== src/Random/Sunk.antt =====
-- The search for a node in neb_random_bucket_pick of src/random.c and the reordering behind it.
use nebase.Base.{
  ℕ, zero, suc, ◌+◌, ◌==◌, ◌≤◌, ◌<◌, ◌≡◌, refl, arith, ltb, u32, List, [], ◌∷◌, ◌++◌, Option, some,
  if◌then◌else◌, length, ◌∙◌, Bool-cases, ◌⊎◌, inl, inr,
}
use nebase.Random.{Slice, rev_append, sink, search, search_from}
use nebase.Random.Ordered.{AtLeast, Sorted, Counted, total, occurs, tally, AtLeast-le}

rev_append-append :
    (xs ys tail : List Slice) → rev_append xs (ys ++ tail) ≡ rev_append xs ys ++ tail
rev_append-append [] ys tail = refl
rev_append-append (x ∷ xs) ys tail = rev_append-append xs (x ∷ ys) tail

suffix-Sorted : (xs ys : List Slice) → Sorted (rev_append xs ys) → Sorted ys
suffix-Sorted [] ys d = d
suffix-Sorted (x ∷ xs) ys d = (suffix-Sorted xs (x ∷ ys) d).1

-- Another list behind the same slices, bounded by them as well.
rev_append-Sorted :
    (xs ys zs : List Slice)
    → Sorted (rev_append xs ys)
    → Sorted zs
    → ((c : ℕ) → AtLeast c ys → AtLeast c zs)
    → Sorted (rev_append xs zs)
rev_append-Sorted [] ys zs d e low = e
rev_append-Sorted (x ∷ xs) ys zs d e low =
    let (least, _) = suffix-Sorted xs (x ∷ ys) d in
    rev_append-Sorted xs (x ∷ ys) (x ∷ zs) d (low x.count least, e) (λ c a. (a.0, low c a.1))

rev_append_sums :
    (xs ys : List Slice)
    → (total (rev_append xs ys) ≡ total xs + total ys)
      × (length (rev_append xs ys) ≡ length xs + length ys)
      × ((x : ℕ) → tally x (rev_append xs ys) ≡ tally x xs + tally x ys)
rev_append_sums [] ys = (omega arith, omega arith, λ x. omega arith)
rev_append_sums (z ∷ xs) ys =
    let (t, l, o) = rev_append_sums xs (z ∷ ys) in
    (omega (arith, t), omega (arith, l), λ x. omega (arith, o x))

rev_append-Counted : (xs ys : List Slice) → Counted xs → Counted ys → Counted (rev_append xs ys)
rev_append-Counted [] ys c d = d
rev_append-Counted (x ∷ xs) ys (c, b, r) d = rev_append-Counted xs (x ∷ ys) r (c, b, d)

sink-append :
    (s : Slice) (before after tail : List Slice)
    → sink s before (after ++ tail) ≡ sink s before after ++ tail
unfolding sink
sink-append s [] after tail = refl
sink-append s (p ∷ before) after tail = elim (Bool-cases (ltb s.count p.count)) [
  | inl lt ↦ rw (lt, sink-append s before (p ∷ after) tail) refl
  | inr ge ↦ rw (ge, rev_append-append before (p ∷ s ∷ after) tail) refl
]

sink-Sorted :
    (s : Slice) (before after : List Slice)
    → Sorted (rev_append before after)
    → AtLeast s.count after
    → Sorted (sink s before after)
unfolding sink
sink-Sorted s [] after d a = (a, d)
sink-Sorted s (p ∷ before) after d a = elim (Bool-cases (ltb s.count p.count)) [
  | inl lt ↦ rw lt (sink-Sorted s before (p ∷ after) d (ground arith, a))
  | inr ge ↦
      let up : p.count ≤ s.count = ground arith in
      let (least, sorted) = suffix-Sorted before (p ∷ after) d in
      rw ge (
        rev_append-Sorted before (p ∷ after) (p ∷ s ∷ after) d ((up, least), (a, sorted))
          (λ c b. (b.0, (omega (arith, b.0, up), b.1))))
]

sink_sums :
    (s : Slice) (before after : List Slice)
    → (total (sink s before after) ≡ s.count + total before + total after)
      × (length (sink s before after) ≡ suc (length before + length after))
      × ((x : ℕ)
          → tally x (sink s before after) ≡ occurs x s.nlist + tally x before + tally x after)
unfolding sink
sink_sums s [] after = (omega arith, omega arith, λ x. omega arith)
sink_sums s (p ∷ before) after = elim (Bool-cases (ltb s.count p.count)) [
  | inl lt ↦
      let (t, l, o) = sink_sums s before (p ∷ after) in
      rw lt (omega (arith, t), omega (arith, l), λ x. omega (arith, o x))
  | inr ge ↦
      let (t, l, o) = rev_append_sums before (p ∷ s ∷ after) in
      rw ge (omega (arith, t), omega (arith, l), λ x. omega (arith, o x))
]

sink-Counted :
    (s : Slice) (before after : List Slice)
    → Counted before
    → Counted (s ∷ after)
    → Counted (sink s before after)
unfolding sink
sink-Counted s [] after c d = d
sink-Counted s (p ∷ before) after (c, b, r) (d, e, f) = elim (Bool-cases (ltb s.count p.count)) [
  | inl lt ↦ rw lt (sink-Counted s before (p ∷ after) r (d, e, (c, b, f)))
  | inr ge ↦ rw ge (rev_append-Counted before (p ∷ s ∷ after) r (c, b, (d, e, f)))
]

-- The slices `ys` are those of `xs` with a node `n` fewer, in order again.
pub record IsTaken (n : ℕ) (before xs ys : List Slice) : Type 0 where
  pub sorted : Sorted ys
  pub counted : Counted ys
  pub size : length ys ≡ length before + length xs
  pub shrunk : total before + total xs ≡ suc (total ys)
  pub tallied : (x : ℕ) → tally x before + tally x xs ≡ tally x ys + (if x == n then 1 else 0)

Found : List Slice → List Slice → List Slice → Option (ℕ × List Slice) → Type 0
Found before xs tail r =
    (n : ℕ) × (ys : List Slice) × (r ≡ some (n, ys ++ tail)) × IsTaken n before xs ys

nlist-cases : (s : Slice) → (s.nlist ≡ []) ⊎ ((n : ℕ) × (ns : List ℕ) × (s.nlist ≡ n ∷ ns))
nlist-cases s = go s.nlist
  where
    go : (xs : List ℕ) → (xs ≡ []) ⊎ ((n : ℕ) × (ns : List ℕ) × (xs ≡ n ∷ ns))
    go [] = inl refl
    go (n ∷ ns) = inr (n, ns, refl)

abbrev taken : Slice → List ℕ → Slice
taken s ns = record { nlist = ns; count = u32 (s.count + 4294967295) }

search_skips :
    (before after : List Slice) (s : Slice)
    → s.nlist ≡ []
    → search before (s ∷ after) ≡ search (s ∷ before) after
unfolding search
search_skips before after s empty = simp (search, empty) refl

search-Found :
    (before xs tail : List Slice)
    → Sorted (rev_append before xs)
    → Counted before
    → Counted xs
    → 1 ≤ total xs
    → Found before xs tail (search before (xs ++ tail))
unfolding search Found
search-Found before [] tail d c e le = absurd (omega arith)
search-Found before (s ∷ xs) tail d c (e, b, r) le = elim (nlist-cases s) [
  | inl empty ↦
      let none_here : s.count ≡ 0 = rw empty at e in
      let (n, ys, runs, t) =
        search-Found (s ∷ before) xs tail d (e, b, c) r (omega (arith, none_here)) in
      (
        n,
        ys,
        search_skips before (xs ++ tail) s empty ∙ runs,
        record {
          sorted = t.sorted;
          counted = t.counted;
          size = omega (arith, t.size);
          shrunk = omega (arith, t.shrunk);
          tallied = λ x. omega (arith, t.tallied x);
        },
      )
  | inr (n, ns, holds) ↦
      let full : s.count ≡ suc (length ns) = rw holds at e in
      let less : u32 (s.count + 4294967295) ≡ length ns = omega (arith, full, b) in
      let p = taken s ns in
      let (least, sorted) = suffix-Sorted before (s ∷ xs) d in
      let rest = rev_append-Sorted before (s ∷ xs) xs d sorted (λ k a. a.1) in
      let (t, l, o) = sink_sums p before xs in
      (
        n,
        sink p before xs,
        simp (search, holds, sink-append p before xs tail) refl,
        record {
          sorted =
              sink-Sorted p before xs rest
                (AtLeast-le s.count p.count xs (omega (arith, less, full)) least);
          counted = sink-Counted p before xs c (less, omega (arith, less, full, b), r);
          size = omega (arith, l);
          shrunk = omega (arith, t, less, full);
          tallied = λ x. rw holds (omega (arith, o x));
        },
      )
]

-- Where there is a node at all, there is one in the slices behind any that are in order.
total_ahead :
    (before : List Slice) (s : Slice) (xs : List Slice)
    → Sorted (rev_append before (s ∷ xs))
    → 1 ≤ total before + total (s ∷ xs)
    → 1 ≤ total (s ∷ xs)
total_ahead [] s xs d le = omega arith
total_ahead (p ∷ before) s xs d le =
    let (least, _) = suffix-Sorted before (p ∷ s ∷ xs) d in
    let ahead = total_ahead before p (s ∷ xs) d (omega arith) in omega (arith, least.0, ahead)

pub search_from-Found :
    (rn : ℕ) (before xs tail : List Slice)
    → rn < length xs
    → Sorted (rev_append before xs)
    → Counted before
    → Counted xs
    → 1 ≤ total before + total xs
    → (n : ℕ) × (ys : List Slice) × (search_from rn before (xs ++ tail) ≡ some (n, ys ++ tail))
      × IsTaken n before xs ys
unfolding search_from Found
search_from-Found rn before [] tail lt d c e le = absurd (omega arith)
search_from-Found zero before (s ∷ xs) tail lt d c e le =
    search-Found before (s ∷ xs) tail d c e (total_ahead before s xs d le)
search_from-Found (suc rn) before (s ∷ xs) tail lt d c (e, b, r) le =
    let (n, ys, runs, t) =
      search_from-Found rn (s ∷ before) xs tail (omega arith) d (e, b, c) r (omega arith) in
    (
      n,
      ys,
      runs,
      record {
        sorted = t.sorted;
        counted = t.counted;
        size = omega (arith, t.size);
        shrunk = omega (arith, t.shrunk);
        tallied = λ x. omega (arith, t.tallied x);
      },
    )
