-- ===== src/Evdp/Timer/Destroy.antt =====
-- neb_evdp_timer_destroy of src/evdp/timer.c.
pub mod Once
use nebase.Base.{
  ℕ, zero, suc, ◌+◌, ◌<◌, ltb, ◌≡◌, refl, arith, List, [], ◌∷◌, ◌++◌, Option, none, some,
  if◌then◌else◌, length,
}
use nebase.Evdp.Timer.{Timer, node_del}
use nebase.Evdp.Timer.Tree.{RbTree}

-- What free was called for, by kind.
pub record Freed : Type 0 where
  pub nodes : List ℕ
  pub points : List ℕ

module _ {T : Type 0} (rb : RbTree T) where
  -- evdp_timer_rbtree_node_del without a timer: nothing goes to a cache.
  abbrev pub free_node : (ℕ → List ℕ) → ℕ → Freed → Freed
  free_node cblist n f = record { nodes = n ∷ f.nodes; points = cblist n ++ f.points }

  -- RB_TREE_FOREACH_SAFE, with `fuel` rounds at most, none where they do not suffice.
  pub free_nodes : ℕ → Timer T → Option ℕ → Freed → Option Freed
  free_nodes zero t next f = none
  free_nodes (suc fuel) t none f = some f
  free_nodes (suc fuel) t (some n) f =
      free_nodes fuel (record t { tree = rb.remove_node t.tree n }) (rb.tree_next t.tree n)
        (free_node t.cblist n f)

  -- The kept points, which go to the cache while it has room.
  pub free_kept : List ℕ → List ℕ → ℕ → Freed → List ℕ × Freed
  free_kept [] lcache size f = (lcache, f)
  free_kept (p ∷ ps) lcache size f =
      let stored = free_kept ps (p ∷ lcache) size f in
      let freed = free_kept ps lcache size (record f { points = p ∷ f.points }) in
      if ltb (length lcache) size then stored else freed

  abbrev pub free_caches : Timer T → List ℕ × Freed → Freed
  free_caches t (lcache, f) = record { nodes = t.tcache ++ f.nodes; points = lcache ++ f.points }

  pub timer_destroy : ℕ → Timer T → Option Freed
  unfolding free_nodes free_kept
  timer_destroy fuel t =
      elim (free_nodes fuel t (rb.tree_min t.tree) (record { nodes = []; points = [] })) [
        | none ↦ none
        | some f ↦ some (free_caches t (free_kept t.keeplist t.lcache t.lcache_size f))
      ]
