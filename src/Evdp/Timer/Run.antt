-- ===== src/Evdp/Timer/Run.antt =====
-- evdp_timer_run_until of src/evdp/timer.c.
pub mod Calls
pub mod Due
pub mod Until
use nebase.Base.{
  ℕ, zero, suc, ◌+◌, ◌==◌, Bool, true, false, List, [], ◌∷◌, Option, none, some, if◌then◌else◌,
}
use nebase.Evdp.Source.{update}
use nebase.Evdp.Timespec.{Timespec, is_after}
use nebase.Evdp.Timer.{
  Timer, TimeoutRet, keep, free, point_free, list_remove, list_insert, node_del,
}
use nebase.Evdp.Timer.Tree.{RbTree}

-- What a callback does to the timer it is called from, and its result.
abbrev pub Callback : Type 0 → Type 0
Callback T = ℕ → Timer T → Timer T × TimeoutRet

module _ {T : Type 0} where
  -- LIST_REMOVE, `running` set, and the call.
  abbrev pub start_point : Timer T → ℕ → Timer T
  start_point t p =
      let t1 = list_remove t p in
      record t1 { running = update t1.running p true; calls = p ∷ t1.calls }

  abbrev pub keep_point : Timer T → ℕ → ℕ → ℕ → Timer T
  keep_point t tn p m =
      if m == tn
      then record t { ref_tnode = update t.ref_tnode p none; keeplist = p ∷ t.keeplist }
      else list_insert t m p

  -- What follows the call; `running` is cleared.
  pub settle_point : Timer T → ℕ → ℕ → TimeoutRet → Timer T
  unfolding point_free
  settle_point t0 tn p ret =
      let t = record t0 { running = update t0.running p false } in
      elim (t.ref_tnode p) [
        | none ↦ point_free t p
        | some m ↦ elim ret [
          | free ↦ point_free (record t { ref_tnode = update t.ref_tnode p none }) p
          | keep ↦ keep_point t tn p m
        ]
      ]

  abbrev pub call_point : Callback T → Timer T → ℕ → ℕ → Timer T
  call_point on_timeout t tn p =
      let (t1, ret) = on_timeout p (start_point t p) in settle_point t1 tn p ret

  -- The inner loop, with `fuel` rounds at most, none where they do not suffice; and `count`.
  pub run_points : ℕ → Callback T → Timer T → ℕ → ℕ → Option (Timer T × ℕ)
  unfolding settle_point
  run_points zero on_timeout t tn count = none
  run_points (suc fuel) on_timeout t tn count = elim (t.cblist tn) [
    | [] ↦ some (t, count)
    | p ∷ ps ↦ run_points fuel on_timeout (call_point on_timeout t tn p) tn (count + 1)
  ]

  abbrev pub set_auto_del : Timer T → ℕ → Bool → Timer T
  set_auto_del t tn b = record t { no_auto_del = update t.no_auto_del tn b }

  module _ (rb : RbTree T) where
    -- The node that has been run goes, once the next one is known.
    abbrev pub leave_run : Timer T → ℕ → Timer T × Option ℕ
    leave_run t tn =
        let t1 = set_auto_del t tn false in
        (node_del (record t1 { tree = rb.remove_node t1.tree tn }) tn, rb.tree_next t1.tree tn)

    pub run_nodes : ℕ → ℕ → Callback T → Timer T → Option ℕ → Timespec → ℕ → Option (Timer T × ℕ)
    unfolding run_points node_del
    run_nodes zero inner on_timeout t next abs_ts count = none
    run_nodes (suc fuel) inner on_timeout t none abs_ts count = some (t, count)
    run_nodes (suc fuel) inner on_timeout t (some tn) abs_ts count =
        if is_after (t.ts tn) abs_ts
        then some (t, count)
        else elim (run_points inner on_timeout (set_auto_del t tn true) tn count) [
          | none ↦ none
          | some (t1, count1) ↦
              let (t2, next) = leave_run t1 tn in
              run_nodes fuel inner on_timeout t2 next abs_ts count1
        ]

    -- `fuel` bounds the nodes and `inner` the points of a node.
    unfoldable pub run_until : ℕ → ℕ → Callback T → Timer T → Timespec → Option (Timer T × ℕ)
    unfolding run_nodes
    run_until fuel inner on_timeout t abs_ts =
        run_nodes fuel inner on_timeout t (rb.tree_min t.tree) abs_ts 0
