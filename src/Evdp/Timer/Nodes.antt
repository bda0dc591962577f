-- ===== src/Evdp/Timer/Nodes.antt =====
-- Getting nodes for a time and giving them back: evdp_timer_rbtree_node_new and _node_del of
-- src/evdp/timer.c, and the insertion into the tree.
use nebase.Base.{
  ℕ, ltb, ◌≡◌, refl, arith, true, false, ◌⊎◌, inl, inr, List, [], subst, ◌∷◌, some, Bool-cases,
  List-cases, length,
}
use nebase.Evdp.Ids.{mem, IsDistinct}
use nebase.Evdp.Source.{update}
use nebase.Evdp.Timespec.{Timespec}
use nebase.Evdp.Timer.{Timer, clear_node, node_new, free_points, node_del}
use nebase.Evdp.Timer.Tree.{RbTree}
use nebase.Evdp.Timer.Tree.Order.{InOrder-update}
use nebase.Evdp.Timer.Invariant.{IsTimer, IsFreshNode}

-- The nodes that were in the tree are still there, with their times, lists and points.
pub record Extends {T : Type 0} (rb : RbTree T) (t r : Timer T) : Type 0 where
  pub still : (n : ℕ) → mem n (rb.nodes t.tree) ≡ true → mem n (rb.nodes r.tree) ≡ true
  pub same_ts : (n : ℕ) → mem n (rb.nodes t.tree) ≡ true → r.ts n ≡ t.ts n
  pub same_lists : (n : ℕ) → mem n (rb.nodes t.tree) ≡ true → r.cblist n ≡ t.cblist n
  pub no_more : (n p : ℕ) → mem p (r.cblist n) ≡ true → mem p (t.cblist n) ≡ true
  pub same_refs : r.ref_tnode ≡ t.ref_tnode
  pub same_running : r.running ≡ t.running
  pub same_keeplist : r.keeplist ≡ t.keeplist
  pub same_lcache : r.lcache ≡ t.lcache

-- A node got for a time is in neither the tree nor the cache, its list is empty, and the timer is
-- well formed.
pub record IsNodeGot {T : Type 0} (rb : RbTree T) (t r : Timer T) (n : ℕ) (at : Timespec)
    : Type 0 where
  pub well_formed : IsTimer rb r
  pub extends : Extends rb t r
  pub absent : mem n (rb.nodes r.tree) ≡ false
  pub not_spare : mem n r.tcache ≡ false
  pub no_points : r.cblist n ≡ []
  pub at_time : r.ts n ≡ at

module _ {T : Type 0} (rb : RbTree T) where
  clear_node_lem :
      (t : Timer T) (n : ℕ) (at : Timespec)
      → IsTimer rb t
      → mem n (rb.nodes t.tree) ≡ false
      → mem n t.tcache ≡ false
      → IsNodeGot rb t (clear_node t n at) n at
  clear_node_lem t n at w absent spare = record {
    well_formed = record {
      ordered = InOrder-update t.ts at n (rb.nodes t.tree) absent w.ordered;
      listed = λ m p. ground (arith, w.listed m p);
      distinct = λ m. ground (arith, w.distinct m);
      kept = w.kept;
      kept_distinct = w.kept_distinct;
      spare_nodes = w.spare_nodes;
      spare_nodes_distinct = w.spare_nodes_distinct;
      spare_points = λ p m. ((w.spare_points p m).0, λ k. ground (arith, (w.spare_points p m).1 k));
      spare_points_distinct = w.spare_points_distinct;
    };
    extends = record {
      still = λ m h. h;
      same_ts = λ m h. ground arith;
      same_lists = λ m h. ground arith;
      no_more = λ m p h. ground arith;
      same_refs = refl;
      same_running = refl;
      same_keeplist = refl;
      same_lcache = refl;
    };
    absent = absent;
    not_spare = spare;
    no_points = ground arith;
    at_time = ground arith;
  }

  -- The node is the cache's last one, or the new one.
  pub node_new_lem :
      (t : Timer T) (at : Timespec) (block : ℕ)
      → IsTimer rb t
      → IsFreshNode rb t block
      → (r : Timer T) × (n : ℕ) × (node_new t at (some block) ≡ some (r, n)) × IsNodeGot rb t r n at
  unfolding node_new
  node_new_lem t at block w f = elim (List-cases t.tcache) [
    | inl empty ↦ (
      clear_node t block at,
      block,
      rw empty refl,
      clear_node_lem t block at w f.not_in_tree f.not_in_cache,
    )
    | inr (n, rest, e) ↦
        let t0 = record t { tcache = rest } in
        let d : IsDistinct (n ∷ rest) = subst IsDistinct e w.spare_nodes_distinct in
        let w0 : IsTimer rb t0 = record {
          ordered = w.ordered;
          listed = w.listed;
          distinct = w.distinct;
          kept = w.kept;
          kept_distinct = w.kept_distinct;
          spare_nodes = λ m h. ground (arith, w.spare_nodes m);
          spare_nodes_distinct = d.1;
          spare_points = w.spare_points;
          spare_points_distinct = w.spare_points_distinct;
        } in
        let out : mem n (rb.nodes t.tree) ≡ false = w.spare_nodes n (ground (arith, e)) in
        let g = clear_node_lem t0 n at w0 out d.0 in
        (
          clear_node t0 n at,
          n,
          rw e refl,
          record {
            well_formed = g.well_formed;
            extends = record {
              still = g.extends.still;
              same_ts = g.extends.same_ts;
              same_lists = g.extends.same_lists;
              no_more = g.extends.no_more;
              same_refs = refl;
              same_running = refl;
              same_keeplist = refl;
              same_lcache = refl;
            };
            absent = g.absent;
            not_spare = g.not_spare;
            no_points = g.no_points;
            at_time = g.at_time;
          },
        )
  ]

-- A node with no points that is given back: it may be in the cache then, and all else is as before.
pub record IsGivenBack {T : Type 0} (t r : Timer T) (n : ℕ) : Type 0 where
  pub tree : r.tree ≡ t.tree
  pub ts : r.ts ≡ t.ts
  pub lists : (m : ℕ) → r.cblist m ≡ t.cblist m
  pub refs : r.ref_tnode ≡ t.ref_tnode
  pub running : r.running ≡ t.running
  pub keeplist : r.keeplist ≡ t.keeplist
  pub lcache : r.lcache ≡ t.lcache
  pub spare : (r.tcache ≡ t.tcache) ⊎ (r.tcache ≡ n ∷ t.tcache)
  pub calls : r.calls ≡ t.calls
  pub flags : r.no_auto_del ≡ t.no_auto_del

module _ {T : Type 0} where
  given_back :
      (t : Timer T) (n : ℕ) (tcache : List ℕ)
      → t.cblist n ≡ []
      → (tcache ≡ t.tcache) ⊎ (tcache ≡ n ∷ t.tcache)
      → IsGivenBack t (record t { cblist = update t.cblist n []; tcache = tcache }) n
  given_back t n tcache e s = record {
    tree = refl;
    ts = refl;
    lists = λ m. ground (arith, e);
    refs = refl;
    running = refl;
    keeplist = refl;
    lcache = refl;
    spare = s;
    calls = refl;
    flags = refl;
  }

  pub node_del_lem : (t : Timer T) (n : ℕ) → t.cblist n ≡ [] → IsGivenBack t (node_del t n) n
  unfolding node_del free_points
  node_del_lem t n e = elim (Bool-cases (ltb (length t.tcache) t.tcache_size)) [
    | inl room ↦ rw (e, room) (given_back t n (n ∷ t.tcache) e (inr refl))
    | inr full ↦ rw (e, full) (given_back t n t.tcache e (inl refl))
  ]

module _ {T : Type 0} (rb : RbTree T) where
  pub IsGivenBack-IsTimer :
      {t r : Timer T} (n : ℕ)
      → IsGivenBack t r n
      → mem n (rb.nodes t.tree) ≡ false
      → mem n t.tcache ≡ false
      → IsTimer rb t
      → IsTimer rb r
  IsGivenBack-IsTimer {t} {r} n g absent spare w = record {
    ordered = rw (g.ts, g.tree) w.ordered;
    listed = λ m p. rw (g.lists m, g.refs, g.tree) (w.listed m p);
    distinct = λ m. rw (g.lists m) (w.distinct m);
    kept = λ p. rw (g.keeplist, g.refs) (w.kept p);
    kept_distinct = rw g.keeplist w.kept_distinct;
    spare_nodes = λ m h. rw g.tree (ground (arith, w.spare_nodes m, g.spare));
    spare_nodes_distinct = elim g.spare [
      | inl same ↦ rw same w.spare_nodes_distinct
      | inr more ↦ rw more (spare, w.spare_nodes_distinct)
    ];
    spare_points = λ p h.
        let (k, l) = w.spare_points p (ground (arith, g.lcache)) in
        (rw g.keeplist k, λ m. rw (g.lists m) (l m));
    spare_points_distinct = rw g.lcache w.spare_points_distinct;
  }
