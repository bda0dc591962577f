-- ===== src/Evdp/Timer/Reset.antt =====
-- What neb_evdp_timer_point_reset of src/evdp/timer.c promises.
use nebase.Base.{
  ℕ, ◌==◌, ◌≡◌, refl, arith, true, false, not, ◌&&◌, inl, inr, Option, none, some, subst,
  Bool-cases, Option-cases,
}
use nebase.Evdp.Ids.{mem}
use nebase.Evdp.Timespec.{Timespec}
use nebase.Evdp.Timer.{
  Timer, insert_node, leave_node, is_node, move_point, reset_to, point_reset, list_remove,
}
use nebase.Evdp.Timer.Tree.{RbTree}
use nebase.Evdp.Timer.Invariant.{IsTimer, IsFreshNode, due, IsPending}
use nebase.Evdp.Timer.Nodes.{Extends}
use nebase.Evdp.Timer.Place.{place_node_lem}
use nebase.Evdp.Timer.Links.{
  OthersStay, OthersStay-trans, Extends-OthersStay, link_lem, list_remove_lem,
}
use nebase.Evdp.Timer.Leave.{leave_node_lem, SamePoints-IsFreshPoint, SamePoints-OthersStay}
use nebase.Evdp.Timer.Points.{IsPoint, refers_in, linked_due}

-- A point moved to a time: it refers to a node of the tree that is due then, and it is in the list
-- of that node, unless its callback runs. Points in the list of their nodes stay there.
pub record IsMoved {T : Type 0} (rb : RbTree T) (t r : Timer T) (p : ℕ) (at : Timespec)
    : Type 0 where
  pub well_formed : IsTimer rb r
  pub others : OthersStay t r p
  pub now_refers :
      (n : ℕ) × (r.ref_tnode p ≡ some n) × (r.ts n ≡ at) × (mem n (rb.nodes r.tree) ≡ true)
  pub now_due : due r p ≡ some at
  pub now_pending : t.running p ≡ false → IsPending r p

module _ {T : Type 0} (rb : RbTree T) where
  Extends-IsPoint :
      {t r : Timer T} (p : ℕ) → IsTimer rb t → Extends rb t r → IsPoint t p → IsPoint r p
  Extends-IsPoint {t} {r} p w x v = record {
    not_spare = rw x.same_lcache v.not_spare;
    while_running = λ h.
        let (k, l) = v.while_running (subst (λ f. f p ≡ true) x.same_running h) in
        (rw x.same_keeplist k, λ n. ground (arith, x.no_more n p, l n));
    otherwise = λ h. elim (v.otherwise (subst (λ f. f p ≡ false) x.same_running h)) [
      | inl (n, e, m) ↦ inl (n, rw x.same_refs e, rw (x.same_lists n (w.listed n p m).1) m)
      | inr k ↦ inr (rw x.same_keeplist k)
    ];
  }

  move_point_lem :
      (t : Timer T) (p tn : ℕ) (at : Timespec)
      → IsTimer rb t
      → IsPoint t p
      → mem tn (rb.nodes t.tree) ≡ true
      → t.ts tn ≡ at
      → (t.running p ≡ false → is_node (t.ref_tnode p) tn ≡ false)
      → IsMoved rb t (move_point rb t p tn) p at
  unfolding move_point
  move_point_lem t p tn at w v in_tree at_time apart = elim (Bool-cases (t.running p)) [
    | inl busy ↦
        let (not_kept, not_listed) = v.while_running busy in
        rw busy (record {
          well_formed = record {
            ordered = w.ordered;
            listed = λ n q. ground (arith, w.listed n q, not_listed n);
            distinct = w.distinct;
            kept = λ q. ground (arith, w.kept q);
            kept_distinct = w.kept_distinct;
            spare_nodes = w.spare_nodes;
            spare_nodes_distinct = w.spare_nodes_distinct;
            spare_points = w.spare_points;
            spare_points_distinct = w.spare_points_distinct;
          };
          others = record {
            pending = λ q n out e m. (ground arith, m, refl);
            kept = λ q out. refl;
          };
          now_refers = (tn, ground arith, at_time, in_tree);
          now_due = ground (arith, at_time);
          now_pending = λ h. cc;
        })
    | inr idle ↦
        let t1 = list_remove t p in
        let (w1, f1, o1) = list_remove_lem rb t p w v.not_spare in
        let t2 = leave_node rb t1 (t.ref_tnode p) in
        let (w2, s2, more) =
          leave_node_lem rb t1 (t.ref_tnode p) w1 (refers_in rb t p w (v.otherwise idle)) in
        let f2 = SamePoints-IsFreshPoint p s2 f1 in
        let (w3, o3) = link_lem rb t2 tn p w2 f2 (more tn (apart idle) in_tree) in
        let o2 = SamePoints-OthersStay p s2 in
        rw idle (record {
          well_formed = w3;
          others = OthersStay-trans p o1 (OthersStay-trans p o2 o3);
          now_refers = (tn, ground arith, rw s2.ts at_time, more tn (apart idle) in_tree);
          now_due = linked_due rb t2 tn p at (rw s2.ts at_time);
          now_pending = λ h. (tn, ground arith, ground arith);
        })
  ]

  -- The node is the point's own: nothing is left to do.
  own_node_lem :
      (t : Timer T) (p tn : ℕ) (at : Timespec)
      → IsTimer rb t
      → IsPoint t p
      → mem tn (rb.nodes t.tree) ≡ true
      → t.ts tn ≡ at
      → is_node (t.ref_tnode p) tn ≡ true
      → IsMoved rb t t p at
  own_node_lem t p tn at w v in_tree at_time own = elim (Option-cases (t.ref_tnode p)) [
    | inl unset ↦ ground arith
    | inr (m, e) ↦ record {
      well_formed = w;
      others = record { pending = λ q n out r h. (r, h, refl); kept = λ q out. refl };
      now_refers = (tn, ground arith, at_time, in_tree);
      now_due = rw (due, e) (ground (arith, at_time));
      now_pending = λ h. elim (v.otherwise h) [
        | inl pending ↦ pending
        | inr kept ↦ absurd (ground (arith, w.kept p))
      ];
    }
  ]

  reset_to_lem :
      (t : Timer T) (tn n p : ℕ) (at : Timespec)
      → IsTimer rb t
      → IsPoint t p
      → mem tn (rb.nodes t.tree) ≡ true
      → t.ts tn ≡ at
      → (t.running p ≡ false → tn ≡ n → is_node (t.ref_tnode p) tn ≡ false)
      → (r : Timer T) × (reset_to rb (t, tn) n p ≡ (r, true)) × IsMoved rb t r p at
  reset_to_lem t tn n p at w v in_tree at_time new =
      elim (Bool-cases (not (tn == n) && is_node (t.ref_tnode p) tn)) [
        | inl same ↦
            (t, rw (reset_to, same) refl, own_node_lem t p tn at w v in_tree at_time (ground arith))
        | inr other ↦ (
          move_point rb t p tn,
          rw (reset_to, other) refl,
          move_point_lem t p tn at w v in_tree at_time (λ idle. ground (arith, new idle)),
        )
      ]

no_fresh_node :
    (o : Option ℕ) (n : ℕ) → ((m : ℕ) → o ≡ some m → (m == n) ≡ false) → is_node o n ≡ false
no_fresh_node none n h = refl
no_fresh_node (some m) n h = h m refl

-- Resetting a point of a well-formed timer, where the allocation succeeds if it is called, makes
-- the point refer to a node of the tree that is due at the new time, and puts it into the list of
-- that node at once, unless its callback runs. The timer is well formed, every other point in the
-- list of its node is still there and due when it was, and every other kept point is still kept.
pub point_reset_lem :
    {T : Type 0} (rb : RbTree T) (t : Timer T) (p : ℕ) (at : Timespec) (block : ℕ)
    → IsTimer rb t
    → IsFreshNode rb t block
    → IsPoint t p
    → (r : Timer T) × (point_reset rb t p at (some block) ≡ (r, true)) × IsMoved rb t r p at
unfolding point_reset
point_reset_lem rb t p at block w f v =
    let (t1, n, got, absent, s) = place_node_lem rb t at block w f in
    let (t2, tn) = insert_node rb t1 n in
    let x = s.extends in
    let new : t2.running p ≡ false → tn ≡ n → is_node (t2.ref_tnode p) tn ≡ false = λ idle same.
      rw x.same_refs (
        no_fresh_node (t.ref_tnode p) tn (λ m e. ground (
          arith,
          refers_in rb t p w (v.otherwise (subst (λ f. f p ≡ false) x.same_running idle)) m e,
        ))) in
    let (r, runs, moved) =
      reset_to_lem rb t2 tn n p at s.well_formed (Extends-IsPoint rb p w x v) s.in_tree s.at_time
        new in
    (
      r,
      rw (point_reset, got) runs,
      record {
        well_formed = moved.well_formed;
        others = OthersStay-trans p (Extends-OthersStay rb p w x) moved.others;
        now_refers = moved.now_refers;
        now_due = moved.now_due;
        now_pending = λ h. moved.now_pending (rw x.same_running h);
      },
    )
