-- ===== src/Evdp/Queue/Destroy.antt =====
-- neb_evdp_queue_destroy of src/evdp/core.c.
pub mod Called
pub mod Drained
pub mod Tests
use nebase.Base.{
  ℕ, zero, suc, ◌==◌, Bool, true, false, not, List, [], ◌∷◌, Option, none, some, if◌then◌else◌,
  length,
}
use nebase.Evdp.Source.{Source}
use nebase.Evdp.Queue.{Queue, Kernel, set_source, do_detach_from_queue, is_attached}

-- The guard of neb_evdp_source_del, which returns -1 for an attached source.
pub is_refused : Source → Bool
is_refused v = is_attached v.q_in_use

-- The loops over pending_qs and running_qs, which take the first source each time, for at most
-- the given number of rounds.
pub drain_pending : Kernel → ℕ → Queue → Queue
drain_pending k zero q = q
drain_pending k (suc rounds) q = elim q.pending [
  | [] ↦ q
  | s ∷ rest ↦ drain_pending k rounds (do_detach_from_queue k q s false)
]

pub drain_running : Kernel → ℕ → Queue → Queue
drain_running k zero q = q
drain_running k (suc rounds) q = elim q.running [
  | [] ↦ q
  | s ∷ rest ↦ drain_running k rounds (do_detach_from_queue k q s false)
]

-- Whether the head of neb_evdp_queue_destroy frees the sentinel where there is one.
pub frees_sentinel : Queue → Bool
unfolding is_refused
frees_sentinel q = elim q.foreach_s [ none ↦ true | some f ↦ not (is_refused (q.source f)) ]

-- The sources of a list whose on_remove is called when they are detached one after the other, the
-- last one first, in front of `before`.
pub called : (ℕ → Source) → List ℕ → List ℕ → List ℕ
called source [] before = before
called source (s ∷ rest) before =
    called source rest (if (source s).on_remove then s ∷ before else before)

-- The queue when all its sources are detached, before it is freed itself.
pub queue_destroy : Kernel → Queue → Queue
unfolding drain_pending drain_running
queue_destroy k q =
    let q1 = record q { destroying = true; foreach_s = none } in
    let q2 = if q1.stat_pending == 0 then q1 else drain_pending k (length q1.pending) q1 in
    if q2.stat_running == 0 then q2 else drain_running k (length q2.running) q2
