-- ===== src/Evdp/Timer/Run/Due.antt =====
-- The outer loop of evdp_timer_run_until of src/evdp/timer.c, where the callbacks only answer.
use nebase.Base.{
  ℕ, ◌==◌, ◌≡◌, refl, arith, Bool, true, false, ◌||◌, inl, inr, List, [], ◌∷◌, ◌++◌, subst, ap,
  if◌then◌else◌, ◌∙◌, Bool-cases,
}
use nebase.Evdp.Ids.{mem, head?, IsDistinct}
use nebase.Evdp.Timespec.{Timespec, is_after}
use nebase.Evdp.Timer.{Timer}
use nebase.Evdp.Timer.Tree.{RbTree, InOrder, AllAfter}
use nebase.Evdp.Timer.Tree.Order.{is_after_trans, InOrder-IsDistinct}
use nebase.Evdp.Timer.Invariant.{IsTimer}
use nebase.Evdp.Timer.Nodes.{node_del_lem, IsGivenBack-IsTimer}
use nebase.Evdp.Timer.Run.{set_auto_del, leave_run}
use nebase.Evdp.Timer.Run.Calls.{onto}

-- The points of the nodes that are not after a time, by time; and the nodes that are after it.
abbrev pub due_points : (ℕ → Timespec) → (ℕ → List ℕ) → Timespec → List ℕ → List ℕ
due_points ts lists abs [] = []
due_points ts lists abs (n ∷ ns) =
    if is_after (ts n) abs
    then due_points ts lists abs ns
    else lists n ++ due_points ts lists abs ns

abbrev pub later_nodes : (ℕ → Timespec) → Timespec → List ℕ → List ℕ
later_nodes ts abs [] = []
later_nodes ts abs (n ∷ ns) =
    if is_after (ts n) abs then n ∷ later_nodes ts abs ns else later_nodes ts abs ns

pub none_due :
    (ts : ℕ → Timespec) (lists : ℕ → List ℕ) (a abs : Timespec) (ns : List ℕ)
    → AllAfter ts a ns
    → is_after a abs ≡ true
    → (due_points ts lists abs ns ≡ []) × (later_nodes ts abs ns ≡ ns)
none_due ts lists a abs [] w h = (refl, refl)
none_due ts lists a abs (n ∷ ns) w h =
    let later = is_after_trans (ts n) a abs w.0 h in
    let (no_points, all) = none_due ts lists a abs ns w.1 h in
    (rw later no_points, rw later (ap (λ l. n ∷ l) all))

pub due_points_same :
    (ts : ℕ → Timespec) (l k : ℕ → List ℕ) (abs : Timespec) (ns : List ℕ)
    → ((m : ℕ) → mem m ns ≡ true → l m ≡ k m)
    → due_points ts l abs ns ≡ due_points ts k abs ns
due_points_same ts l k abs [] h = refl
due_points_same ts l k abs (n ∷ ns) h =
    let rest = due_points_same ts l k abs ns (λ m at. h m (ground arith)) in
    let own : l n ≡ k n = h n (ground arith) in
    elim (Bool-cases (is_after (ts n) abs)) [
      | inl later ↦ rw later rest
      | inr now ↦ rw (now, own, rest) refl
    ]

pub onto-append : (xs ys zs : List ℕ) → onto (xs ++ ys) zs ≡ onto ys (onto xs zs)
onto-append [] ys zs = refl
onto-append (x ∷ xs) ys zs = onto-append xs ys (x ∷ zs)

pub mem-append : (q : ℕ) (xs ys : List ℕ) → mem q (xs ++ ys) ≡ (mem q xs || mem q ys)
mem-append q [] ys = refl
mem-append q (x ∷ xs) ys = ground (arith, mem-append q xs ys)

module _ {T : Type 0} (rb : RbTree T) where
  pub set_auto_del-IsTimer :
      (t : Timer T) (n : ℕ) (b : Bool) → IsTimer rb t → IsTimer rb (set_auto_del t n b)
  set_auto_del-IsTimer t n b w = record {
    ordered = w.ordered;
    listed = w.listed;
    distinct = w.distinct;
    kept = w.kept;
    kept_distinct = w.kept_distinct;
    spare_nodes = w.spare_nodes;
    spare_nodes_distinct = w.spare_nodes_distinct;
    spare_points = w.spare_points;
    spare_points_distinct = w.spare_points_distinct;
  }

  -- A node with no points that goes from the tree.
  pub leave_run_lem :
      (t : Timer T) (n : ℕ) (ns : List ℕ)
      → IsTimer rb t
      → rb.nodes t.tree ≡ n ∷ ns
      → t.cblist n ≡ []
      → let r = leave_run rb t n in
        (r.1 ≡ head? ns)
        × IsTimer rb r.0
        × (rb.nodes r.0.tree ≡ ns)
        × (r.0.ts ≡ t.ts)
        × ((m : ℕ) → r.0.cblist m ≡ t.cblist m)
        × (r.0.calls ≡ t.calls)
        × (r.0.keeplist ≡ t.keeplist)
  leave_run_lem t n ns w e empty =
      let t1 = set_auto_del t n false in
      let w1 = set_auto_del-IsTimer t n false w in
      let t2 = record t1 { tree = rb.remove_node t1.tree n } in
      let same : (n == n) ≡ true = ground arith in
      let gone : rb.nodes t2.tree ≡ ns = rb.nodes-remove_node t.tree n ∙ rw (e, same) refl in
      let ds : IsDistinct (n ∷ ns) =
        subst IsDistinct e (InOrder-IsDistinct t.ts (rb.nodes t.tree) w.ordered) in
      let o : InOrder t.ts (n ∷ ns) = subst (InOrder t.ts) e w.ordered in
      let w2 : IsTimer rb t2 = record {
        ordered = rw gone o.1;
        listed = λ m q h. ((w.listed m q h).0, rw gone (ground (arith, w.listed m q h, e)));
        distinct = w.distinct;
        kept = w.kept;
        kept_distinct = w.kept_distinct;
        spare_nodes = λ m h. rw gone (ground (arith, w.spare_nodes m h, e));
        spare_nodes_distinct = w.spare_nodes_distinct;
        spare_points = w.spare_points;
        spare_points_distinct = w.spare_points_distinct;
      } in
      let b = node_del_lem t2 n empty in
      let spare : mem n t.tcache ≡ false = ground (arith, w.spare_nodes n, e) in
      (
        rb.tree_next-nodes t.tree n ∙ rw (e, same) refl,
        IsGivenBack-IsTimer rb n b (rw gone ds.0) spare w2,
        rw b.tree gone,
        b.ts,
        b.lists,
        b.calls,
        b.keeplist,
      )
