-- ===== src/Random/Pools/Kept.antt =====
-- The pool and the ring of src/random.c neither lose nor double a node.
use nebase.Base.{
  ℕ, suc, ◌+◌, ◌==◌, ◌<◌, ◌^◌, ◌≡◌, refl, arith, true, false, List, [], ◌∷◌, some, if◌then◌else◌,
  ◌∙◌, Bool-cases, inl, inr,
}
use nebase.Evdp.Ids.{mem, erase}
use nebase.Random.{bucket_pick, random_number}
use nebase.Random.Ordered.{occurs}
use nebase.Random.Draws.{IsBucket, held, bucket_put-IsBucket, bucket_pick-IsBucket}
use nebase.Random.Pools.{Pool, Ring, taken, pool_pick, pool_put, ring_use, swap_buckets, ring_pick}

-- How often a node is in the pool or the ring, in use or not.
abbrev pub pool_owns : ℕ → Pool → ℕ
pool_owns x p = held x p.bucket + occurs x p.in_use

abbrev pub ring_owns : ℕ → Ring → ℕ
ring_owns x r = held x r.pick_bucket + held x r.put_bucket + occurs x r.in_use

pub record IsRing (r : Ring) : Type 0 where
  pub pick_side : IsBucket r.pick_bucket
  pub put_side : IsBucket r.put_bucket

occurs-erase :
    (x n : ℕ) (xs : List ℕ)
    → mem n xs ≡ true
    → occurs x xs ≡ occurs x (erase n xs) + (if x == n then 1 else 0)
occurs-erase x n [] m = ground arith
occurs-erase x n (y ∷ xs) m = ground (arith, occurs-erase x n xs)

-- A pick with a draw below 6 from a pool that has nodes left.
pool_pick_lem :
    (p : Pool) (draw : ℕ)
    → IsBucket p.bucket
    → draw < 6
    → 0 < p.bucket.count
    → (n : ℕ) × (q : Pool) × (pool_pick p draw ≡ taken n q)
      × IsBucket q.bucket
      × (q.in_use ≡ n ∷ p.in_use)
      × (suc q.bucket.count ≡ p.bucket.count)
      × ((x : ℕ) → pool_owns x q ≡ pool_owns x p)
unfolding pool_pick
pool_pick_lem p draw w lt some_node =
    let (n, b, runs, v, count, same) = bucket_pick-IsBucket p.bucket draw w lt some_node in
    (
      n,
      record { bucket = b; in_use = n ∷ p.in_use },
      rw runs refl,
      v,
      refl,
      omega (arith, count),
      λ x. omega (arith, same x),
    )

-- A node in use that is put back.
pool_put_lem :
    (p : Pool) (n draw : ℕ)
    → IsBucket p.bucket
    → mem n p.in_use ≡ true
    → draw < random_number
    → suc p.bucket.count < 2 ^ 32
    → (q : Pool) × (pool_put p n draw ≡ some q)
      × IsBucket q.bucket
      × (q.in_use ≡ erase n p.in_use)
      × ((x : ℕ) → pool_owns x q ≡ pool_owns x p)
unfolding pool_put
pool_put_lem p n draw w m lt room =
    let (b, runs, v, count, more) = bucket_put-IsBucket p.bucket n draw w lt room in
    (
      record { bucket = b; in_use = erase n p.in_use },
      rw runs refl,
      v,
      refl,
      λ x. omega (arith, more x, occurs-erase x n p.in_use m),
    )

-- A pick from a pool that has nodes left, with a draw below 6, returns a node, which is then in
-- use; put back, with a draw that is in range, it is in use no more. The pool owns the same nodes
-- all the while, and its bucket stays well formed.
pub pool_put-pool_pick :
    (p : Pool) (draw draw2 : ℕ)
    → IsBucket p.bucket
    → draw < 6
    → 0 < p.bucket.count
    → p.bucket.count < 2 ^ 32
    → draw2 < random_number
    → (n : ℕ) × (q : Pool) × (r : Pool) × (pool_pick p draw ≡ taken n q)
      × (q.in_use ≡ n ∷ p.in_use)
      × (pool_put q n draw2 ≡ some r)
      × IsBucket r.bucket
      × (r.in_use ≡ p.in_use)
      × ((x : ℕ) → (pool_owns x q ≡ pool_owns x p) × (pool_owns x r ≡ pool_owns x p))
pool_put-pool_pick p draw draw2 w lt some_node room lt2 =
    let (n, q, runs, v, used, count, same) = pool_pick_lem p draw w lt some_node in
    let here : mem n q.in_use ≡ true = ground (arith, used) in
    let (r, puts, v2, ended, same2) = pool_put_lem q n draw2 v here lt2 (omega (arith, count)) in
    (n, q, r, runs, used, puts, v2, ended ∙ ground (arith, used), λ x. (same x, same2 x ∙ same x))

use_bucket :
    (r : Ring) (draw : ℕ)
    → IsRing r
    → draw < 6
    → 0 < r.pick_bucket.count
    → (n : ℕ) × (q : Ring) × (ring_use r (bucket_pick r.pick_bucket draw) ≡ taken n q)
      × IsRing q
      × (q.put_bucket ≡ r.put_bucket)
      × ((x : ℕ) → ring_owns x q ≡ ring_owns x r)
use_bucket r draw w lt some_node =
    let (n, b, runs, v, count, same) =
      bucket_pick-IsBucket r.pick_bucket draw w.pick_side lt some_node in
    (
      n,
      record r { pick_bucket = b; in_use = n ∷ r.in_use },
      rw runs refl,
      record { pick_side = v; put_side = w.put_side },
      refl,
      λ x. omega (arith, same x),
    )

-- A pick from a ring that has nodes left, with a draw below 6, returns a node and the ring owns
-- the same nodes as before. Nodes that were put back stay where they are until the bucket that
-- is picked from is empty, and then they are the ones that are picked from.
pub ring_pick_lem :
    (r : Ring) (draw : ℕ)
    → IsRing r
    → draw < 6
    → 0 < r.pick_bucket.count + r.put_bucket.count
    → (n : ℕ) × (q : Ring) × (ring_pick r draw ≡ taken n q)
      × IsRing q
      × (q.put_bucket ≡ (if r.pick_bucket.count == 0 then r.pick_bucket else r.put_bucket))
      × ((x : ℕ) → ring_owns x q ≡ ring_owns x r)
unfolding ring_pick
ring_pick_lem r draw w lt some_node = elim (Bool-cases (r.pick_bucket.count == 0)) [
  | inl over ↦
      let left : (r.put_bucket.count == 0) ≡ false = ground arith in
      let (n, q, runs, v, same, owns) =
        use_bucket (swap_buckets r) draw (record { pick_side = w.put_side; put_side = w.pick_side })
          lt (ground arith) in
      (n, q, simp (over, left) runs, v, simp over same, λ x. omega (arith, owns x))
  | inr on ↦
      let (n, q, runs, v, same, owns) = use_bucket r draw w lt (ground arith) in
      (n, q, simp on runs, v, simp on same, owns)
]
