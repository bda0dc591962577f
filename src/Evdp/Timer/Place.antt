-- ===== src/Evdp/Timer/Place.antt =====
-- A node for a time in the tree: evdp_timer_rbtree_node_new and rb_tree_insert_node as
-- neb_evdp_timer_new_point and neb_evdp_timer_point_reset of src/evdp/timer.c call them.
use nebase.Base.{ℕ, ◌==◌, ◌≡◌, refl, arith, true, false, ◌||◌, inl, inr, some, subst, ◌∙◌}
use nebase.Evdp.Ids.{mem}
use nebase.Evdp.Timespec.{Timespec}
use nebase.Evdp.Timer.{Timer, node_new, insert_node, node_del}
use nebase.Evdp.Timer.Tree.{RbTree, InOrder, holder}
use nebase.Evdp.Timer.Tree.Order.{place-InOrder, place_lem}
use nebase.Evdp.Timer.Invariant.{IsTimer, IsFreshNode}
use nebase.Evdp.Timer.Nodes.{Extends, IsNodeGot, node_new_lem, node_del_lem, IsGivenBack-IsTimer}

-- A node of the time is in the tree.
pub record IsPlaced {T : Type 0} (rb : RbTree T) (t r : Timer T) (tn : ℕ) (at : Timespec)
    : Type 0 where
  pub well_formed : IsTimer rb r
  pub extends : Extends rb t r
  pub in_tree : mem tn (rb.nodes r.tree) ≡ true
  pub at_time : r.ts tn ≡ at

module _ {T : Type 0} (rb : RbTree T) where
  -- The same timer with a tree of the same nodes and perhaps one more.
  more_nodes :
      (t : Timer T) (tree : T)
      → IsTimer rb t
      → InOrder t.ts (rb.nodes tree)
      → ((m : ℕ) → mem m (rb.nodes t.tree) ≡ true → mem m (rb.nodes tree) ≡ true)
      → ((m : ℕ) → mem m t.tcache ≡ true → mem m (rb.nodes tree) ≡ false)
      → IsTimer rb (record t { tree = tree })
  more_nodes t tree w o more spare = record {
    ordered = o;
    listed = λ n p h. ((w.listed n p h).0, more n (w.listed n p h).1);
    distinct = w.distinct;
    kept = w.kept;
    kept_distinct = w.kept_distinct;
    spare_nodes = spare;
    spare_nodes_distinct = w.spare_nodes_distinct;
    spare_points = w.spare_points;
    spare_points_distinct = w.spare_points_distinct;
  }

  Extends-more :
      {t r s : Timer T}
      → Extends rb t r
      → ((m : ℕ) → mem m (rb.nodes r.tree) ≡ true → mem m (rb.nodes s.tree) ≡ true)
      → s.ts ≡ r.ts
      → ((m : ℕ) → s.cblist m ≡ r.cblist m)
      → (s.ref_tnode ≡ r.ref_tnode) × (s.running ≡ r.running)
      → (s.keeplist ≡ r.keeplist) × (s.lcache ≡ r.lcache)
      → Extends rb t s
  Extends-more e more ts lists (refs, running) (keeplist, lcache) = record {
    still = λ m h. more m (e.still m h);
    same_ts = λ m h. rw ts (e.same_ts m h);
    same_lists = λ m h. lists m ∙ e.same_lists m h;
    no_more = λ m p h. e.no_more m p (subst (λ l. mem p l ≡ true) (lists m) h);
    same_refs = refs ∙ e.same_refs;
    same_running = running ∙ e.same_running;
    same_keeplist = keeplist ∙ e.same_keeplist;
    same_lcache = lcache ∙ e.same_lcache;
  }

  insert_node_own :
      (t : Timer T) (n : ℕ)
      → (rb.insert_node t.ts t.tree n).1 ≡ n
      → insert_node rb t n ≡ (record t { tree = (rb.insert_node t.ts t.tree n).0 }, n)
  unfolding insert_node
  insert_node_own t n e = ground arith

  insert_node_other :
      (t : Timer T) (n : ℕ)
      → ((rb.insert_node t.ts t.tree n).1 == n) ≡ false
      → insert_node rb t n ≡ (
        node_del (record t { tree = (rb.insert_node t.ts t.tree n).0 }) n,
        (rb.insert_node t.ts t.tree n).1,
      )
  unfolding insert_node
  insert_node_other t n e = rw e refl

  pub insert_node_lem :
      (t t1 : Timer T) (n : ℕ) (at : Timespec)
      → IsNodeGot rb t t1 n at
      → let r = insert_node rb t1 n in IsPlaced rb t r.0 r.1 at
  insert_node_lem t t1 n at g =
      let w = g.well_formed in
      let ns = rb.nodes t1.tree in
      let tree = (rb.insert_node t1.ts t1.tree n).0 in
      let placed = rb.nodes-insert_node t1.ts t1.tree n w.ordered in
      let held = rb.insert_node-holder t1.ts t1.tree n w.ordered in
      let o : InOrder t1.ts (rb.nodes tree) = rw placed (place-InOrder t1.ts n ns w.ordered) in
      elim (place_lem t1.ts n ns g.absent) [
        | inl (own, more) ↦
            let more_mem : (m : ℕ) → mem m (rb.nodes tree) ≡ (n == m || mem m ns) =
              λ m. rw placed (more m) in
            let grown : (m : ℕ) → mem m ns ≡ true → mem m (rb.nodes tree) ≡ true =
              λ m h. ground (arith, more_mem m) in
            let spare : (m : ℕ) → mem m t1.tcache ≡ true → mem m (rb.nodes tree) ≡ false =
              λ m h. ground (arith, more_mem m, w.spare_nodes m, g.not_spare) in
            rw (insert_node_own t1 n (held ∙ own)) (record {
              well_formed = more_nodes t1 tree w o grown spare;
              extends = Extends-more g.extends grown refl (λ m. refl) (refl, refl) (refl, refl);
              in_tree = ground (arith, more_mem n);
              at_time = g.at_time;
            })
        | inr (other, same, at_holder, due) ↦
            let t2 = record t1 { tree = tree } in
            let same_nodes : rb.nodes tree ≡ ns = placed ∙ same in
            let grown : (m : ℕ) → mem m ns ≡ true → mem m (rb.nodes tree) ≡ true =
              λ m h. rw same_nodes h in
            let w2 = more_nodes t1 tree w o grown (λ m h. rw same_nodes (w.spare_nodes m h)) in
            let b = node_del_lem t2 n g.no_points in
            let still : (m : ℕ) → mem m ns ≡ true → mem m (rb.nodes (node_del t2 n).tree) ≡ true =
              λ m h. rw b.tree (grown m h) in
            rw (insert_node_other t1 n (rw held other), held)
              (record {
                well_formed = IsGivenBack-IsTimer rb n b (rw same_nodes g.absent) g.not_spare w2;
                extends =
                    Extends-more g.extends still b.ts b.lists (b.refs, b.running)
                      (b.keeplist, b.lcache);
                in_tree = still (holder t1.ts n ns) at_holder;
                at_time = rw b.ts (due ∙ g.at_time);
              })
      ]

  -- Both steps: a node of the time is in the tree afterwards, got from the cache, from calloc, or
  -- there before.
  pub place_node_lem :
      (t : Timer T) (at : Timespec) (block : ℕ)
      → IsTimer rb t
      → IsFreshNode rb t block
      → (t1 : Timer T) × (n : ℕ) × (node_new t at (some block) ≡ some (t1, n))
        × (mem n (rb.nodes t.tree) ≡ false)
        × (let r = insert_node rb t1 n in IsPlaced rb t r.0 r.1 at)
  place_node_lem t at block w f =
      let (t1, n, runs, g) = node_new_lem rb t at block w f in
      (t1, n, runs, ground (arith, g.extends.still n, g.absent), insert_node_lem t t1 n at g)
