-- ===== src/Random/Draws.antt =====
-- neb_random_bucket_put and neb_random_bucket_pick of src/random.c on well-formed buckets.
use nebase.Base.{
  ℕ, zero, suc, ◌+◌, ◌-◌, ◌==◌, ◌≤◌, ◌<◌, ◌^◌, ◌≡◌, refl, arith, ltb, u32, ◌>>>◌, false, List, [],
  ◌∷◌, ◌++◌, none, some, if◌then◌else◌, length, replicate, get_elem?, Bool-cases, inl, inr, ◌∙◌,
}
use nebase.Random.{
  Slice, Bucket, no_slice, bucket_create, rev_append, random_number, put_slice, bucket_put,
  pick_slice, search, search_from, node, out_of_bounds, bucket_pick,
}
use nebase.Random.Ordered.{Sorted, Counted, total, tally, tally-append, put_at-IsPut}
use nebase.Random.Sunk.{search_from-Found}

-- The two slices that no put reaches.
abbrev pub idle : List Slice
idle = no_slice ∷ no_slice ∷ []

-- Eight slices ordered by their counts, and two empty ones behind them.
pub record IsBucket (b : Bucket) : Type 0 where
  pub front : List Slice
  pub whole : b.slices ≡ front ++ idle
  pub eight : length front ≡ 8
  pub sorted : Sorted front
  pub counted : Counted front
  pub sum : b.count ≡ total front
  pub room : b.count < 2 ^ 32

-- How often a node is in the bucket.
abbrev pub held : ℕ → Bucket → ℕ
held x b = tally x b.slices

pub bucket_create-IsBucket : IsBucket bucket_create
bucket_create-IsBucket = record {
  front = replicate 8 no_slice;
  whole = refl;
  eight = refl;
  sorted = ground arith;
  counted = ground arith;
  sum = refl;
  room = omega arith;
}

first_slice :
    (xs tail : List Slice) → length xs ≡ 8 → (s : Slice) × (get_elem? (xs ++ tail) 0 ≡ some s)
first_slice [] tail l = absurd (omega arith)
first_slice (x ∷ xs) tail l = (x, refl)

chosen_slice :
    (b : Bucket) (draw : ℕ)
    → IsBucket b
    → draw < 8
    → (rn : ℕ) × (put_slice b draw ≡ some rn) × (rn < 8)
unfolding put_slice
chosen_slice b draw w lt =
    let (s, there) = first_slice w.front idle w.eight in
    elim (Bool-cases (ltb s.count (b.count >>> 3))) [
      | inl small ↦ (0, rw (put_slice, w.whole, there, small) refl, omega arith)
      | inr fair ↦ (draw, rw (put_slice, w.whole, there, fair) refl, lt)
    ]

-- Putting a node into a well-formed bucket whose count does not wrap, with any draw that
-- arc4random_uniform(8) returns, reads and writes inside the array, keeps the bucket well-formed,
-- and adds this node once and nothing else.
pub bucket_put-IsBucket :
    (b : Bucket) (n draw : ℕ)
    → IsBucket b
    → draw < random_number
    → suc b.count < 2 ^ 32
    → (r : Bucket) × (bucket_put b n draw ≡ some r)
      × IsBucket r
      × (r.count ≡ suc b.count)
      × ((x : ℕ) → held x r ≡ held x b + (if x == n then 1 else 0))
unfolding bucket_put
bucket_put-IsBucket b n draw w lt room =
    let (rn, chosen, inside) = chosen_slice b draw w lt in
    let (ys, runs, p) =
      put_at-IsPut n rn (8 - suc rn) w.front idle (omega (arith, w.eight)) w.sorted w.counted
        (omega (arith, w.sum)) in
    let up : u32 (b.count + 1) ≡ suc b.count = omega arith in
    (
      record { slices = ys ++ idle; count = u32 (b.count + 1) },
      rw (bucket_put, chosen, w.whole, runs) refl,
      record {
        front = ys;
        whole = refl;
        eight = p.size ∙ w.eight;
        sorted = p.sorted;
        counted = p.counted;
        sum = omega (arith, up, p.grown, w.sum);
        room = omega (arith, up);
      },
      up,
      λ x.
          rw w.whole
            (omega (arith, p.tallied x, tally-append x ys idle, tally-append x w.front idle)),
    )

last_slice : (xs : List Slice) → length xs ≡ 8 → get_elem? (xs ++ idle) 9 ≡ some no_slice
last_slice xs l = from_length 8 xs l
  where
    from_length :
        (n : ℕ) (xs : List Slice) → length xs ≡ n → get_elem? (xs ++ idle) (suc n) ≡ some no_slice
    from_length zero [] l = refl
    from_length zero (x ∷ xs) l = absurd (omega arith)
    from_length (suc n) [] l = absurd (omega arith)
    from_length (suc n) (x ∷ xs) l = from_length n xs (omega arith)

tried_slice : (b : Bucket) (draw : ℕ) → IsBucket b → pick_slice b draw ≡ some (draw + 2)
unfolding pick_slice
tried_slice b draw w =
    let last = last_slice w.front w.eight in
    let none_more : ltb (b.count >>> 1) 0 ≡ false = ground arith in
    rw (pick_slice, w.whole, last, none_more) refl

-- Picking from a well-formed bucket that is not empty, with a draw below 6: a node is found, it
-- leaves the bucket once and nothing else does, and the bucket stays well-formed.
pub bucket_pick-IsBucket :
    (b : Bucket) (draw : ℕ)
    → IsBucket b
    → draw < 6
    → 0 < b.count
    → (n : ℕ) × (r : Bucket) × (bucket_pick b draw ≡ node n r)
      × IsBucket r
      × (b.count ≡ suc r.count)
      × ((x : ℕ) → held x b ≡ held x r + (if x == n then 1 else 0))
unfolding bucket_pick
bucket_pick-IsBucket b draw w lt some_node =
    let (n, ys, runs, t) =
      search_from-Found (draw + 2) [] w.front idle (omega (arith, w.eight)) w.sorted tt w.counted
        (omega (arith, w.sum)) in
    let full : (b.count == 0) ≡ false = ground arith in
    let down : u32 (b.count + 4294967295) ≡ total ys = omega (arith, t.shrunk, w.sum, w.room) in
    (
      n,
      record { slices = ys ++ idle; count = u32 (b.count + 4294967295) },
      rw (full, tried_slice b draw w, w.whole, runs) refl,
      record {
        front = ys;
        whole = refl;
        eight = omega (arith, t.size, w.eight);
        sorted = t.sorted;
        counted = t.counted;
        sum = down;
        room = omega (arith, down, t.shrunk, w.sum, w.room);
      },
      omega (arith, down, t.shrunk, w.sum),
      λ x.
          rw w.whole
            (omega (arith, t.tallied x, tally-append x ys idle, tally-append x w.front idle)),
    )

search_past :
    (j : ℕ) (before xs tail : List Slice)
    → search_from (length xs + j) before (xs ++ tail) ≡ search_from j (rev_append xs before) tail
unfolding search_from
search_past j before [] tail = let e : 0 + j ≡ j = omega arith in rw e refl
search_past j before (x ∷ xs) tail =
    let e : suc (length xs) + j ≡ suc (length xs + j) = omega arith in
    rw e (search_past j (x ∷ before) xs tail)

idle_search : (j : ℕ) (before : List Slice) → j < 2 → search_from j before idle ≡ none
unfolding search_from search
idle_search zero before lt = refl
idle_search (suc zero) before lt = refl
idle_search (suc (suc j)) before lt = absurd (omega arith)

-- But with a draw of 6 or 7, which arc4random_uniform(8) returns too, every well-formed bucket
-- that is not empty is searched from a slice that no put reaches on: none has a node, and the
-- reordering reads behind the array.
pub bucket_pick_overreads :
    (b : Bucket) (draw : ℕ)
    → IsBucket b
    → 6 ≤ draw
    → draw < random_number
    → 0 < b.count
    → bucket_pick b draw ≡ out_of_bounds
unfolding bucket_pick
bucket_pick_overreads b draw w low high some_node =
    let full : (b.count == 0) ≡ false = ground arith in
    let at : draw + 2 ≡ length w.front + (draw - 6) = omega (arith, w.eight) in
    let past = search_past (draw - 6) [] w.front idle in
    let nothing = idle_search (draw - 6) (rev_append w.front []) (omega arith) in
    rw (full, tried_slice b draw w, w.whole, at, past, nothing) refl
