-- ===== src/Random.antt =====
-- src/random.c: the pool and the ring of nodes that are put and picked at random. A node is a
-- number, and what arc4random_uniform returns is an argument, `draw`.
pub mod Ordered
pub mod Sunk
pub mod Draws
pub mod Pools
use nebase.Base.{
  ℕ, zero, suc, ◌+◌, ◌-◌, ◌==◌, ltb, ◌>>>◌, u32, Bool, true, false, not, List, [], ◌∷◌, ◌++◌,
  Option, none, some, ◌>>=◌, if◌then◌else◌, get_elem?, replicate,
}
use nebase.Evdp.Ids.{erase}

pub record Slice : Type 0 where
  pub nlist : List ℕ
  pub count : ℕ

-- `slices` are the structs that the array of pointers `slices` points to, in its order.
pub record Bucket : Type 0 where
  pub slices : List Slice
  pub count : ℕ

abbrev pub no_slice : Slice
no_slice = record { nlist = []; count = 0 }

-- RANDOM_POOL_SLICE_TOTAL_NUMBER and RANDOM_POOL_SLICE_RANDOM_NUMBER
abbrev pub total_number : ℕ
total_number = 10

abbrev pub random_number : ℕ
random_number = 8

abbrev pub bucket_create : Bucket
bucket_create = record { slices = replicate total_number no_slice; count = 0 }

-- The loop of neb_random_bucket_put that reorders: the slice in front is exchanged with the next
-- one while that has a lower count, `rounds` times at most.
pub bubble : Slice → List Slice → ℕ → List Slice
bubble s rest zero = s ∷ rest
bubble s [] (suc rounds) = s ∷ []
bubble s (next ∷ rest) (suc rounds) =
    let later = bubble s rest rounds in
    if ltb next.count s.count then next ∷ later else s ∷ next ∷ rest

abbrev pub append_node : ℕ → Slice → Slice
append_node n s = record { nlist = s.nlist ++ (n ∷ []); count = u32 (s.count + 1) }

-- The insertion at `slices[rn]`, `rounds` slices before the last one that takes part; no slices
-- are a read behind the array.
pub put_at : ℕ → ℕ → ℕ → List Slice → Option (List Slice)
unfolding bubble
put_at n rn rounds [] = none
put_at n zero rounds (s ∷ rest) = some (bubble (append_node n s) rest rounds)
put_at n (suc rn) rounds (s ∷ rest) = do rest' ← put_at n rn rounds rest; some (s ∷ rest')

pub put_slice : Bucket → ℕ → Option ℕ
put_slice b draw = do
  s ← get_elem? b.slices 0
  some (if ltb s.count (b.count >>> 3) then 0 else draw)

pub bucket_put : Bucket → ℕ → ℕ → Option Bucket
unfolding put_at put_slice
bucket_put b n draw = do
  rn ← put_slice b draw
  slices ← put_at n rn (random_number - suc rn) b.slices
  some (record { slices = slices; count = u32 (b.count + 1) })

-- The first list turned round in front of the second.
abbrev pub rev_append : List Slice → List Slice → List Slice
rev_append [] ys = ys
rev_append (x ∷ xs) ys = rev_append xs (x ∷ ys)

-- The loop of neb_random_bucket_pick that reorders: `before` are the slices in front of `s`, the
-- nearest first, and `s` is exchanged with the nearest while that has a higher count.
pub sink : Slice → List Slice → List Slice → List Slice
sink s [] after = s ∷ after
sink s (p ∷ before) after =
    let further = sink s before (p ∷ after) in
    if ltb s.count p.count then further else rev_append (p ∷ before) (s ∷ after)

-- The search from `slices[rn]` on, then the reordering; no result is the read of slices[10].
pub search : List Slice → List Slice → Option (ℕ × List Slice)
unfolding sink
search before [] = none
search before (s ∷ after) = elim s.nlist [
  | [] ↦ search (s ∷ before) after
  | n ∷ ns ↦ some (n, sink (record { nlist = ns; count = u32 (s.count + 4294967295) }) before after)
]

-- The search from `slices[rn]` on, with the slices in front of it turned round.
pub search_from : ℕ → List Slice → List Slice → Option (ℕ × List Slice)
unfolding search
search_from zero before slices = search before slices
search_from (suc rn) before [] = none
search_from (suc rn) before (s ∷ slices) = search_from rn (s ∷ before) slices

pub pick_slice : Bucket → ℕ → Option ℕ
pick_slice b draw = do
  s ← get_elem? b.slices (total_number - 1)
  some (
      if ltb (b.count >>> 1) s.count
      then total_number - 1
      else draw + (total_number - random_number))

-- What neb_random_bucket_pick returns: NULL, a node, or nothing after a read behind the array.
pub data Picked : Type 0 where
  null : Picked
  node : ℕ → Bucket → Picked
  out_of_bounds : Picked

abbrev pub picked : ℕ → Option (ℕ × List Slice) → Picked
picked count none = out_of_bounds
picked count (some (n, slices)) =
    node n (record { slices = slices; count = u32 (count + 4294967295) })

pub bucket_pick : Bucket → ℕ → Picked
unfolding search_from pick_slice
bucket_pick b draw =
    if b.count == 0
    then null
    else picked b.count (do rn ← pick_slice b draw; search_from rn [] b.slices)
