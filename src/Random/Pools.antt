-- ===== src/Random/Pools.antt =====
-- The pool and the ring of src/random.c, over their buckets. The nodes come from an obstack whose
-- allocations succeed.
pub mod Kept
pub mod Tests
use nebase.Base.{ℕ, suc, ◌+◌, ◌==◌, Bool, List, [], ◌∷◌, Option, none, some, ◌>>=◌, if◌then◌else◌}
use nebase.Evdp.Ids.{erase}
use nebase.Random.{
  Bucket, bucket_create, bucket_put, bucket_pick, Picked, null, node, out_of_bounds,
}

pub record Pool : Type 0 where
  pub bucket : Bucket
  pub in_use : List ℕ

pub record Ring : Type 0 where
  pub pick_bucket : Bucket
  pub put_bucket : Bucket
  pub in_use : List ℕ

abbrev pub pool_create : Pool
pool_create = record { bucket = bucket_create; in_use = [] }

abbrev pub ring_create : Ring
ring_create = record { pick_bucket = bucket_create; put_bucket = bucket_create; in_use = [] }

pub pool_add : Pool → ℕ → ℕ → Option Pool
pool_add p n draw = do b ← bucket_put p.bucket n draw; some (record p { bucket = b })

-- What a pick returns: NULL, a node, or nothing after a read behind the array.
pub data Taken (A : Type 0) : Type 0 where
  empty : Taken A
  taken : ℕ → A → Taken A
  fault : Taken A

abbrev pub pool_use : Pool → Picked → Taken Pool
pool_use p null = empty
pool_use p (node n b) = taken n (record { bucket = b; in_use = n ∷ p.in_use })
pool_use p out_of_bounds = fault

pub pool_pick : Pool → ℕ → Taken Pool
pool_pick p draw = pool_use p (bucket_pick p.bucket draw)

pub pool_put : Pool → ℕ → ℕ → Option Pool
pool_put p n draw = do
  b ← bucket_put p.bucket n draw
  some (record { bucket = b; in_use = erase n p.in_use })

pub ring_add : Ring → ℕ → ℕ → Option Ring
ring_add r n draw = do b ← bucket_put r.pick_bucket n draw; some (record r { pick_bucket = b })

abbrev pub ring_use : Ring → Picked → Taken Ring
ring_use r null = empty
ring_use r (node n b) = taken n (record r { pick_bucket = b; in_use = n ∷ r.in_use })
ring_use r out_of_bounds = fault

abbrev pub swap_buckets : Ring → Ring
swap_buckets r = record r { pick_bucket = r.put_bucket; put_bucket = r.pick_bucket }

pub ring_pick : Ring → ℕ → Taken Ring
ring_pick r draw =
    if r.pick_bucket.count == 0
    then if r.put_bucket.count == 0
      then empty
      else ring_use (swap_buckets r) (bucket_pick r.put_bucket draw)
    else ring_use r (bucket_pick r.pick_bucket draw)

pub ring_put : Ring → ℕ → ℕ → Option Ring
ring_put r n draw = do
  b ← bucket_put r.put_bucket n draw
  some (record r { put_bucket = b; in_use = erase n r.in_use })
