-- ===== src/Random/Pools/Tests.antt =====
-- Buckets, a pool and a ring of src/random.c with one or two nodes, and the theorems there.
use nebase.Base.{ℕ, suc, ◌+◌, ◌==◌, ◌≡◌, refl, arith, [], ◌∷◌, ◌++◌, some, if◌then◌else◌, replicate}
use nebase.Random.{Bucket, no_slice, bucket_create, bucket_put, bucket_pick, node, out_of_bounds}
use nebase.Random.Draws.{
  IsBucket, held, bucket_put-IsBucket, bucket_pick-IsBucket, bucket_pick_overreads,
}
use nebase.Random.Pools.{Pool, Ring, taken, pool_pick, pool_put}
use nebase.Random.Pools.Kept.{pool_owns, pool_put-pool_pick}

-- The node 7 in the last slice that a put reaches.
abbrev one_node : Bucket
one_node = record {
  slices =
      replicate 7 no_slice ++ (record { nlist = 7 ∷ []; count = 1 } ∷ no_slice ∷ no_slice ∷ []);
  count = 1;
}

one_node-IsBucket : IsBucket one_node
one_node-IsBucket = record {
  front = replicate 7 no_slice ++ (record { nlist = 7 ∷ []; count = 1 } ∷ []);
  whole = refl;
  eight = refl;
  sorted = ground arith;
  counted = ground arith;
  sum = refl;
  room = omega arith;
}

abbrev pool : Pool
pool = record { bucket = one_node; in_use = 5 ∷ [] }

abbrev ring : Ring
ring = record { pick_bucket = bucket_create; put_bucket = one_node; in_use = 5 ∷ [] }

bucket_put-IsBucket_example :
    (r : Bucket) × (bucket_put one_node 5 2 ≡ some r)
    × IsBucket r
    × (r.count ≡ suc one_node.count)
    × ((x : ℕ) → held x r ≡ held x one_node + (if x == 5 then 1 else 0))
bucket_put-IsBucket_example =
    bucket_put-IsBucket one_node 5 2 one_node-IsBucket (omega arith) (omega arith)

bucket_pick-IsBucket_example :
    (n : ℕ) × (r : Bucket) × (bucket_pick one_node 4 ≡ node n r)
    × IsBucket r
    × (one_node.count ≡ suc r.count)
    × ((x : ℕ) → held x one_node ≡ held x r + (if x == n then 1 else 0))
bucket_pick-IsBucket_example =
    bucket_pick-IsBucket one_node 4 one_node-IsBucket (omega arith) (omega arith)

bucket_pick_overreads_example : bucket_pick one_node 7 ≡ out_of_bounds
bucket_pick_overreads_example =
    bucket_pick_overreads one_node 7 one_node-IsBucket (omega arith) (omega arith) (omega arith)

pool_put-pool_pick_example :
    (n : ℕ) × (q : Pool) × (r : Pool) × (pool_pick pool 0 ≡ taken n q)
    × (q.in_use ≡ n ∷ pool.in_use)
    × (pool_put q n 1 ≡ some r)
    × IsBucket r.bucket
    × (r.in_use ≡ pool.in_use)
    × ((x : ℕ) → (pool_owns x q ≡ pool_owns x pool) × (pool_owns x r ≡ pool_owns x pool))
pool_put-pool_pick_example =
    pool_put-pool_pick pool 0 1 one_node-IsBucket (omega arith) (omega arith) (omega arith)
      (omega arith)
