-- ===== src/Evdp/Timer/Points.antt =====
-- What neb_evdp_timer_new_point, _del_point and _point_reset of src/evdp/timer.c promise.
use nebase.Base.{ℕ, ◌≡◌, refl, arith, true, false, ◌⊎◌, inl, inr, Option, none, some, Bool-cases}
use nebase.Evdp.Ids.{mem}
use nebase.Evdp.Timespec.{Timespec}
use nebase.Evdp.Timer.{
  Timer, insert_node, put_point, new_point, del_point, point_new, point_free, list_remove,
}
use nebase.Evdp.Timer.Tree.{RbTree}
use nebase.Evdp.Timer.Invariant.{IsTimer, IsFreshNode, IsFreshPoint, due, IsPending}
use nebase.Evdp.Timer.Place.{place_node_lem}
use nebase.Evdp.Timer.Links.{
  OthersStay, OthersStay-trans, Extends-OthersStay, Extends-IsFreshPoint, link, link_lem,
  list_remove_lem,
}
use nebase.Evdp.Timer.Spare.{point_free_lem, point_free_same, point_new_lem}
use nebase.Evdp.Timer.Leave.{leave_node_lem, SamePoints-OthersStay}

-- A point whose callback is running is in no list; any other is in its node's list or is kept.
pub record IsPoint {T : Type 0} (t : Timer T) (p : ℕ) : Type 0 where
  pub not_spare : mem p t.lcache ≡ false
  pub while_running :
      t.running p ≡ true → (mem p t.keeplist ≡ false) × ((n : ℕ) → mem p (t.cblist n) ≡ false)
  pub otherwise : t.running p ≡ false → IsPending t p ⊎ (mem p t.keeplist ≡ true)

pub linked_due :
    {T : Type 0} (rb : RbTree T) (t : Timer T) (n p : ℕ) (at : Timespec)
    → t.ts n ≡ at
    → due (link rb t n p) p ≡ some at
linked_due rb t n p at e = ground (arith, e)

put_point-some :
    {T : Type 0} (rb : RbTree T) (s : Timer T × ℕ) (block : Option ℕ) (r : Timer T) (p : ℕ)
    → point_new s.0 block ≡ some (r, p)
    → put_point rb s block ≡ (link rb r s.1 p, some p)
put_point-some rb (t, tn) block r p e = rw (put_point, e) refl

-- Adding a point to a well-formed timer, where both allocations succeed if they are called, gives a
-- point that is in the list of its node and due at the time asked for; the timer is well formed,
-- every other point in the list of its node is still there and due when it was, and every other
-- kept point is still kept.
pub new_point_lem :
    {T : Type 0} (rb : RbTree T) (t : Timer T) (at : Timespec) (tblock lblock : ℕ)
    → IsTimer rb t
    → IsFreshNode rb t tblock
    → IsFreshPoint t lblock
    → (r : Timer T) × (p : ℕ) × (new_point rb t at (some tblock) (some lblock) ≡ (r, some p))
      × IsTimer rb r
      × IsPending r p
      × (due r p ≡ some at)
      × OthersStay t r p
unfolding new_point
new_point_lem rb t at tblock lblock w f g =
    let (t1, n, got, absent, v) = place_node_lem rb t at tblock w f in
    let (t2, tn) = insert_node rb t1 n in
    let g2 = Extends-IsFreshPoint rb lblock v.extends g in
    let (t3, p, runs, v3, g3, o3, idle, same_tree, same_ts) =
      point_new_lem rb t2 lblock v.well_formed g2 in
    let (v4, o4) = link_lem rb t3 tn p v3 g3 (rw same_tree v.in_tree) in
    let o2 = Extends-OthersStay rb p w v.extends in
    (
      link rb t3 tn p,
      p,
      rw (new_point, got) (put_point-some rb (insert_node rb t1 n) (some lblock) t3 p runs),
      v4,
      (tn, ground arith, ground arith),
      linked_due rb t3 tn p at (rw same_ts v.at_time),
      OthersStay-trans p o2 (OthersStay-trans p o3 o4),
    )

-- A point refers to no node outside the tree.
pub refers_in :
    {T : Type 0} (rb : RbTree T) (t : Timer T) (p : ℕ)
    → IsTimer rb t
    → IsPending t p ⊎ (mem p t.keeplist ≡ true)
    → (n : ℕ) → t.ref_tnode p ≡ some n
    → mem n (rb.nodes t.tree) ≡ true
refers_in rb t p w (inl (m, e, h)) n k = ground (arith, w.listed m p h)
refers_in rb t p w (inr h) n k = ground (arith, w.kept p h)

-- Deleting a point leaves it in no list, or, where its callback runs, with no node and so to be
-- freed when that returns. The timer is well formed, every other point in the list of its node is
-- still there and due when it was, and every other kept point is still kept.
pub del_point_lem :
    {T : Type 0} (rb : RbTree T) (t : Timer T) (p : ℕ)
    → IsTimer rb t
    → IsPoint t p
    → let r = del_point rb t p in
      IsTimer rb r
      × OthersStay t r p
      × (mem p r.keeplist ≡ false)
      × ((n : ℕ) → mem p (r.cblist n) ≡ false)
      × (t.running p ≡ true → due r p ≡ none)
unfolding del_point
del_point_lem rb t p w v = elim (Bool-cases (t.running p)) [
  | inl busy ↦
      let (not_kept, not_listed) = v.while_running busy in
      rw busy (
        record {
          ordered = w.ordered;
          listed = λ n q. ground (arith, w.listed n q, not_listed n);
          distinct = w.distinct;
          kept = λ q. ground (arith, w.kept q);
          kept_distinct = w.kept_distinct;
          spare_nodes = w.spare_nodes;
          spare_nodes_distinct = w.spare_nodes_distinct;
          spare_points = w.spare_points;
          spare_points_distinct = w.spare_points_distinct;
        },
        record { pending = λ q n apart e m. (ground arith, m, refl); kept = λ q apart. refl },
        not_kept,
        not_listed,
        λ h. ground arith,
      )
  | inr idle ↦
      let (w1, f1, o1) = list_remove_lem rb t p w v.not_spare in
      let (w2, o2) = point_free_lem rb (list_remove t p) p w1 f1 in
      let u = point_free_same (list_remove t p) p in
      let (w3, s3, _) =
        leave_node_lem rb (point_free (list_remove t p) p) (t.ref_tnode p) w2
          (λ n e. rw u.tree (refers_in rb t p w (v.otherwise idle) n e)) in
      let o3 = SamePoints-OthersStay p s3 in
      rw idle (
        w3,
        OthersStay-trans p o1 (OthersStay-trans p o2 o3),
        rw (s3.keeplist, u.keeplist) f1.not_kept,
        λ n. rw (s3.lists n, u.cblist) (f1.not_listed n),
        λ h. cc,
      )
]
