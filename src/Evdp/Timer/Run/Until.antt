-- ===== src/Evdp/Timer/Run/Until.antt =====
-- What evdp_timer_run_until of src/evdp/timer.c calls and leaves, where the callbacks only answer.
use nebase.Base.{
  ℕ, zero, suc, ◌+◌, ◌<◌, ◌==◌, ◌≡◌, refl, arith, true, false, ◌&&◌, ◌||◌, inl, inr, List, [], ◌∷◌,
  some, subst, sym, ap, ◌∙◌, Bool-cases, length, length-append,
}
use nebase.Evdp.Ids.{mem, mem_ne, head?, IsDistinct}
use nebase.Evdp.Timespec.{Timespec, is_after}
use nebase.Evdp.Timer.{Timer, TimeoutRet}
use nebase.Evdp.Timer.Tree.{RbTree, InOrder}
use nebase.Evdp.Timer.Tree.Order.{InOrder-IsDistinct}
use nebase.Evdp.Timer.Invariant.{IsTimer}
use nebase.Evdp.Timer.Run.{set_auto_del, leave_run, run_points, run_nodes, run_until}
use nebase.Evdp.Timer.Run.Calls.{answers, is_keep, onto, run_points_lem}
use nebase.Evdp.Timer.Run.Due.{
  due_points, later_nodes, none_due, due_points_same, onto-append, mem-append, set_auto_del-IsTimer,
  leave_run_lem,
}

-- What a run leaves of a timer: the nodes after the time with their points, and the kept points;
-- the due points were called.
pub record IsRun {T : Type 0} (rb : RbTree T) (a : ℕ → TimeoutRet) (t r : Timer T) (abs : Timespec)
    (ns : List ℕ) : Type 0 where
  pub well_formed : IsTimer rb r
  pub nodes : rb.nodes r.tree ≡ later_nodes t.ts abs ns
  pub ts : r.ts ≡ t.ts
  pub lists : (m : ℕ) → is_after (t.ts m) abs ≡ true → r.cblist m ≡ t.cblist m
  pub calls : r.calls ≡ onto (due_points t.ts t.cblist abs ns) t.calls
  pub keeplist :
      (q : ℕ)
      → mem q r.keeplist
        ≡ (mem q t.keeplist || mem q (due_points t.ts t.cblist abs ns) && is_keep (a q))

module _ {T : Type 0} (rb : RbTree T) (a : ℕ → TimeoutRet) (abs : Timespec) where
  nothing_due :
      (t : Timer T) (ns : List ℕ)
      → IsTimer rb t
      → rb.nodes t.tree ≡ ns
      → due_points t.ts t.cblist abs ns ≡ []
      → later_nodes t.ts abs ns ≡ ns
      → IsRun rb a t t abs ns
  nothing_due t ns w e no_points all = record {
    well_formed = w;
    nodes = e ∙ sym all;
    ts = refl;
    lists = λ m h. refl;
    calls = rw no_points refl;
    keeplist = λ q. rw no_points (ground arith);
  }

  -- What a node that has been run leaves.
  record IsNodeRun (t r : Timer T) (n : ℕ) (ns : List ℕ) : Type 0 where
    well_formed : IsTimer rb r
    nodes : rb.nodes r.tree ≡ ns
    ts : r.ts ≡ t.ts
    lists : (m : ℕ) → (m == n) ≡ false → r.cblist m ≡ t.cblist m
    calls : r.calls ≡ onto (t.cblist n) t.calls
    keeplist :
        (q : ℕ) → mem q r.keeplist ≡ (mem q t.keeplist || mem q (t.cblist n) && is_keep (a q))

  node_run_lem :
      (inner : ℕ) (t : Timer T) (n : ℕ) (ns : List ℕ) (count : ℕ)
      → IsTimer rb t
      → rb.nodes t.tree ≡ n ∷ ns
      → length (t.cblist n) < inner
      → (t1 : Timer T) × (run_points inner (answers a) (set_auto_del t n true) n count
          ≡ some (t1, count + length (t.cblist n)))
        × ((leave_run rb t1 n).1 ≡ head? ns)
        × IsNodeRun t (leave_run rb t1 n).0 n ns
  node_run_lem inner t n ns count w e bound =
      let t0 = set_auto_del t n true in
      let (t1, runs, c) =
        run_points_lem rb a inner t0 n count (t.cblist n) (set_auto_del-IsTimer rb t n true w) refl
          bound in
      let (next, w2, nodes2, ts2, lists2, calls2, keeplist2) =
        leave_run_lem rb t1 n ns c.well_formed (rw c.tree e) c.own_list in
      (
        t1,
        runs,
        next,
        record {
          well_formed = w2;
          nodes = nodes2;
          ts = ts2 ∙ c.ts;
          lists = λ m apart. lists2 m ∙ c.other_lists m apart;
          calls = calls2 ∙ c.calls;
          keeplist = λ q. rw keeplist2 (c.keeplist q);
        },
      )

  -- A run of a due node and then of the rest.
  add_node :
      {t s r : Timer T} (n : ℕ) (ns : List ℕ)
      → is_after (t.ts n) abs ≡ false
      → mem n ns ≡ false
      → IsNodeRun t s n ns
      → IsRun rb a s r abs ns
      → IsRun rb a t r abs (n ∷ ns)
  add_node {t} {s} {r} n ns now out h k =
      let lists : (m : ℕ) → mem m ns ≡ true → s.cblist m ≡ t.cblist m =
        λ m at. h.lists m (mem_ne m n ns at out) in
      let rest : due_points s.ts s.cblist abs ns ≡ due_points t.ts t.cblist abs ns =
        rw h.ts (due_points_same t.ts s.cblist t.cblist abs ns lists) in
      record {
        well_formed = k.well_formed;
        nodes = rw now (k.nodes ∙ ap (λ f. later_nodes f abs ns) h.ts);
        ts = k.ts ∙ h.ts;
        lists = λ m later. k.lists m (rw h.ts later) ∙ h.lists m (ground (arith, later, now));
        calls = rw now (
            k.calls
            ∙ rw (rest, h.calls)
                (sym (onto-append (t.cblist n) (due_points t.ts t.cblist abs ns) t.calls)));
        keeplist = λ q.
            let points = due_points t.ts t.cblist abs ns in
            let own : mem q r.keeplist ≡ (mem q s.keeplist || mem q points && is_keep (a q)) =
              subst (λ l. mem q r.keeplist ≡ (mem q s.keeplist || mem q l && is_keep (a q))) rest
                (k.keeplist q) in
            rw (now, mem-append) (ground (arith, own, h.keeplist q));
      }

  run_nodes_now :
      (fuel inner : ℕ) (t t1 : Timer T) (n count count1 : ℕ)
      → is_after (t.ts n) abs ≡ false
      → run_points inner (answers a) (set_auto_del t n true) n count ≡ some (t1, count1)
      → let s = leave_run rb t1 n in
        run_nodes rb (suc fuel) inner (answers a) t (some n) abs count
        ≡ run_nodes rb fuel inner (answers a) s.0 s.1 abs count1
  unfolding run_nodes
  run_nodes_now fuel inner t t1 n count count1 now runs = rw (run_nodes, now, runs) refl

  counts :
      (t s : Timer T) (n : ℕ) (ns : List ℕ) (count : ℕ)
      → is_after (t.ts n) abs ≡ false
      → s.ts ≡ t.ts
      → ((m : ℕ) → mem m ns ≡ true → s.cblist m ≡ t.cblist m)
      → count + length (t.cblist n) + length (due_points s.ts s.cblist abs ns)
        ≡ count + length (due_points t.ts t.cblist abs (n ∷ ns))
  counts t s n ns count now same lists =
      rw (same, now, due_points_same t.ts s.cblist t.cblist abs ns lists)
        (omega (arith, length-append (t.cblist n) (due_points t.ts t.cblist abs ns)))

  run_nodes_lem :
      (fuel inner : ℕ) (t : Timer T) (ns : List ℕ) (count : ℕ)
      → IsTimer rb t
      → rb.nodes t.tree ≡ ns
      → length ns < fuel
      → ((n : ℕ) → mem n ns ≡ true → length (t.cblist n) < inner)
      → (r : Timer T) × (run_nodes rb fuel inner (answers a) t (head? ns) abs count
          ≡ some (r, count + length (due_points t.ts t.cblist abs ns)))
        × IsRun rb a t r abs ns
  unfolding run_nodes
  run_nodes_lem zero inner t ns count w e lt bound = absurd (omega arith)
  run_nodes_lem (suc fuel) inner t [] count w e lt bound =
      (t, ap (λ c. some (t, c)) (omega arith), nothing_due t [] w e refl refl)
  run_nodes_lem (suc fuel) inner t (n ∷ ns) count w e lt bound =
      let o : InOrder t.ts (n ∷ ns) = subst (InOrder t.ts) e w.ordered in
      elim (Bool-cases (is_after (t.ts n) abs)) [
        | inl later ↦
            let (no_points, all) = none_due t.ts t.cblist (t.ts n) abs ns o.0 later in
            let no_points1 : due_points t.ts t.cblist abs (n ∷ ns) ≡ [] = rw later no_points in
            let all1 : later_nodes t.ts abs (n ∷ ns) ≡ n ∷ ns = rw later (ap (λ l. n ∷ l) all) in
            (
              t,
              rw (later, no_points) (ap (λ c. some (t, c)) (omega arith)),
              nothing_due t (n ∷ ns) w e no_points1 all1,
            )
        | inr now ↦
            let out =
              (subst IsDistinct e (InOrder-IsDistinct t.ts (rb.nodes t.tree) w.ordered)).0 in
            let (t1, runs, next, h) =
              node_run_lem inner t n ns count w e (bound n (ground arith)) in
            let t2 = (leave_run rb t1 n).0 in
            let lists : (m : ℕ) → mem m ns ≡ true → t2.cblist m ≡ t.cblist m =
              λ m at. h.lists m (mem_ne m n ns at out) in
            let (r, runs2, k) =
              run_nodes_lem fuel inner t2 ns (count + length (t.cblist n)) h.well_formed h.nodes
                (omega arith) (λ m at. rw (lists m at) (bound m (ground arith))) in
            (
              r,
              run_nodes_now fuel inner t t1 n count (count + length (t.cblist n)) now runs
                  ∙ (rw next runs2 ∙ ap (λ c. some (r, c)) (counts t t2 n ns count now h.ts lists)),
              add_node n ns now out h k,
            )
      ]

-- Where the callbacks only answer, a run of a well-formed timer with a round for each node and for
-- each point and one more returns the number of the points due by the time, having called each of
-- them once, in the order of their times. The nodes of later times are left with their points, and
-- the kept points are those that were and those called that answered to be kept.
pub run_until_lem :
    {T : Type 0} (rb : RbTree T) (a : ℕ → TimeoutRet) (fuel inner : ℕ) (t : Timer T)
    (abs : Timespec)
    → IsTimer rb t
    → length (rb.nodes t.tree) < fuel
    → ((n : ℕ) → mem n (rb.nodes t.tree) ≡ true → length (t.cblist n) < inner)
    → (r : Timer T) × (run_until rb fuel inner (answers a) t abs
        ≡ some (r, length (due_points t.ts t.cblist abs (rb.nodes t.tree))))
      × IsRun rb a t r abs (rb.nodes t.tree)
unfolding run_until
run_until_lem rb a fuel inner t abs w lt bound =
    let ns = rb.nodes t.tree in
    let (r, runs, k) = run_nodes_lem rb a abs fuel inner t ns 0 w refl lt bound in
    (r, rw (rb.tree_min-nodes t.tree) (runs ∙ ap (λ c. some (r, c)) (omega arith)), k)
