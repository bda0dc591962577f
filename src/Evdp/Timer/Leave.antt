-- ===== src/Evdp/Timer/Leave.antt =====
-- Nodes that lose their last point: evdp_timer_rbtree_node_check_del of src/evdp/timer.c.
use nebase.Base.{
  ℕ, ◌==◌, ◌≡◌, refl, arith, true, false, not, ◌&&◌, inl, inr, [], Option, none, some, Bool-cases,
  List-cases,
}
use nebase.Evdp.Ids.{mem, mem-erase}
use nebase.Evdp.Timer.{Timer, check_del, leave_node, is_node}
use nebase.Evdp.Timer.Tree.{RbTree}
use nebase.Evdp.Timer.Tree.Order.{InOrder-erase, InOrder-IsDistinct}
use nebase.Evdp.Timer.Invariant.{IsTimer, IsFreshPoint}
use nebase.Evdp.Timer.Nodes.{node_del_lem, IsGivenBack-IsTimer}
use nebase.Evdp.Timer.Links.{OthersStay}

-- The points are where they were, and every node has the time it had.
pub record SamePoints {T : Type 0} (t r : Timer T) : Type 0 where
  pub ts : r.ts ≡ t.ts
  pub lists : (m : ℕ) → r.cblist m ≡ t.cblist m
  pub refs : r.ref_tnode ≡ t.ref_tnode
  pub running : r.running ≡ t.running
  pub keeplist : r.keeplist ≡ t.keeplist
  pub lcache : r.lcache ≡ t.lcache

module _ {T : Type 0} where
  same_points : (t : Timer T) → SamePoints t t
  same_points t = record {
    ts = refl;
    lists = λ m. refl;
    refs = refl;
    running = refl;
    keeplist = refl;
    lcache = refl;
  }

  pub SamePoints-IsFreshPoint :
      {t r : Timer T} (p : ℕ) → SamePoints t r → IsFreshPoint t p → IsFreshPoint r p
  SamePoints-IsFreshPoint p s f = record {
    not_kept = rw s.keeplist f.not_kept;
    not_listed = λ m. rw (s.lists m) (f.not_listed m);
    not_in_cache = rw s.lcache f.not_in_cache;
  }

  pub SamePoints-OthersStay : {t r : Timer T} (p : ℕ) → SamePoints t r → OthersStay t r p
  SamePoints-OthersStay p s = record {
    pending = λ q m apart e h. (rw s.refs e, rw (s.lists m) h, rw s.ts refl);
    kept = λ q apart. rw s.keeplist refl;
  }

module _ {T : Type 0} (rb : RbTree T) where
  -- A node of the tree leaves it only where it has no points and is not being run.
  pub check_del_lem :
      (t : Timer T) (n : ℕ)
      → IsTimer rb t
      → mem n (rb.nodes t.tree) ≡ true
      → let r = check_del rb t n in
        IsTimer rb r
        × SamePoints t r
        × ((m : ℕ)
            → (m == n) ≡ false
            → mem m (rb.nodes t.tree) ≡ true
            → mem m (rb.nodes r.tree) ≡ true)
  unfolding check_del
  check_del_lem t n w in_tree = elim (Bool-cases (t.no_auto_del n)) [
    | inl busy ↦ rw busy (w, same_points t, λ m apart h. h)
    | inr idle ↦ elim (List-cases (t.cblist n)) [
      | inr (q, qs, e) ↦ rw (idle, e) (w, same_points t, λ m apart h. h)
      | inl e ↦
          let ns = rb.nodes t.tree in
          let ds = InOrder-IsDistinct t.ts ns w.ordered in
          let t1 = record t { tree = rb.remove_node t.tree n } in
          let gone = rb.nodes-remove_node t.tree n in
          let w1 : IsTimer rb t1 = record {
            ordered = rw gone (InOrder-erase t.ts n ns w.ordered);
            listed = λ m q h. (
              (w.listed m q h).0,
              rw gone (rw (mem-erase n m ns ds) (other_node m q e h (w.listed m q h).1)),
            );
            distinct = w.distinct;
            kept = w.kept;
            kept_distinct = w.kept_distinct;
            spare_nodes = λ m h. rw gone (ground (arith, mem-erase n m ns ds, w.spare_nodes m));
            spare_nodes_distinct = w.spare_nodes_distinct;
            spare_points = w.spare_points;
            spare_points_distinct = w.spare_points_distinct;
          } in
          let b = node_del_lem t1 n e in
          let absent : mem n (rb.nodes t1.tree) ≡ false =
            rw gone (ground (arith, mem-erase n n ns ds)) in
          let not_spare : mem n t.tcache ≡ false = ground (arith, w.spare_nodes n) in
          rw (idle, e)
            (
              IsGivenBack-IsTimer rb n b absent not_spare w1,
              record {
                ts = b.ts;
                lists = b.lists;
                refs = b.refs;
                running = b.running;
                keeplist = b.keeplist;
                lcache = b.lcache;
              },
              λ m apart h. rw (b.tree, gone) (ground (arith, mem-erase n m ns ds)),
            )
    ]
  ]
    where
      other_node :
          (m q : ℕ)
          → t.cblist n ≡ []
          → mem q (t.cblist m) ≡ true
          → mem m (rb.nodes t.tree) ≡ true
          → (mem m (rb.nodes t.tree) && not (m == n)) ≡ true
      other_node m q e h k = ground arith

  pub leave_node_lem :
      (t : Timer T) (o : Option ℕ)
      → IsTimer rb t
      → ((n : ℕ) → o ≡ some n → mem n (rb.nodes t.tree) ≡ true)
      → let r = leave_node rb t o in
        IsTimer rb r
        × SamePoints t r
        × ((m : ℕ)
            → is_node o m ≡ false
            → mem m (rb.nodes t.tree) ≡ true
            → mem m (rb.nodes r.tree) ≡ true)
  leave_node_lem t none w k = (w, same_points t, λ m apart h. h)
  leave_node_lem t (some n) w k =
      let (v, s, more) = check_del_lem t n w (k n refl) in
      (v, s, λ m apart h. more m (ground arith) h)
