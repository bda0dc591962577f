-- ===== src/Evdp/Uring/Detach.antt =====
-- do_detach_from_queue of src/evdp/core.c over the io_uring driver, and what the flush before it
-- leaves in the ring.
use nebase.Base.{
  ℕ, ◌≡◌, ◌≢◌, refl, arith, Bool, true, false, ◌||◌, List, [], ◌∷◌, none, some, Bool-cases, inl,
  inr, ◌∙◌, sym, subst,
}
use nebase.Evdp.Ids.{mem}
use nebase.Evdp.Source.{
  SourceType, source_none, itimer_sec, itimer_msec, abstimer, ro_fd, os_fd, other,
}
use nebase.Evdp.Queue.{rm_pending_events, unlink}
use nebase.Evdp.Queue.Invariant.{IsQueue}
use nebase.Evdp.Queue.Detach.{IsDetached, unlink-IsDetached}
use nebase.Evdp.Queue.Flush.{onto}
use nebase.Evdp.Uring.{
  Uring, Ring, cancel_fd, timer_detach, ro_fd_detach, os_fd_detach, do_cancel_os_fd, mark_submitted,
  detach_by_type, do_detach_from_queue, flush_pending_sources,
}
use nebase.Evdp.Uring.Flush.{uring_flush_lem}

-- What the driver's detach leaves: the queue as it was, and the polls as they were where the
-- source is not marked as submitted.
abbrev LeavesPolls : Uring → Uring → ℕ → Type 0
LeavesPolls u v s = (v.queue ≡ u.queue) × ((u.context s).submitted ≡ false → v.polls ≡ u.polls)

pub cancel_queue : (r : Ring) (u : Uring) (s : ℕ) → (cancel_fd r u s).0.queue ≡ u.queue
unfolding cancel_fd
cancel_queue r u s = elim (Bool-cases (r.has_sqe s)) [
  | inl can ↦ rw can refl
  | inr full ↦ rw full refl
]

pub mark_queue : (x : Uring × Bool) (s : ℕ) (b : Bool) → (mark_submitted x s b).0.queue ≡ x.0.queue
mark_queue (u, true) s b = refl
mark_queue (u, false) s b = refl

timer_detach_lem : (r : Ring) (u : Uring) (s : ℕ) → LeavesPolls u (timer_detach r u s) s
unfolding timer_detach
timer_detach_lem r u s = elim (Bool-cases (u.context s).submitted) [
  | inl on ↦ (rw (timer_detach, on) (cancel_queue r _ s), λ off. cc)
  | inr off ↦ (rw (timer_detach, off) refl, λ h. rw (timer_detach, off) refl)
]

ro_fd_detach_lem :
    (r : Ring) (u : Uring) (s : ℕ) (to_close : Bool) → LeavesPolls u (ro_fd_detach r u s to_close) s
unfolding ro_fd_detach
ro_fd_detach_lem r u s true = (refl, λ h. refl)
ro_fd_detach_lem r u s false = elim (Bool-cases (u.context s).submitted) [
  | inl on ↦ (rw (ro_fd_detach, on) (cancel_queue r u s), λ off. cc)
  | inr off ↦ (rw (ro_fd_detach, off) refl, λ h. rw (ro_fd_detach, off) refl)
]

os_fd_detach_lem :
    (r : Ring) (u : Uring) (s : ℕ) (to_close : Bool) → LeavesPolls u (os_fd_detach r u s to_close) s
unfolding os_fd_detach do_cancel_os_fd
os_fd_detach_lem r u s true = (refl, λ h. refl)
os_fd_detach_lem r u s false = elim (Bool-cases (u.context s).submitted) [
  | inl on ↦
      (rw (os_fd_detach, on) (mark_queue (cancel_fd r u s) s false ∙ cancel_queue r u s), λ off. cc)
  | inr off ↦ (rw (os_fd_detach, off) refl, λ h. rw (os_fd_detach, off) refl)
]

detach_by_type_lem :
    (r : Ring) (t : SourceType) (u : Uring) (s : ℕ) (c : Bool)
    → LeavesPolls u (detach_by_type r t u s c) s
unfolding detach_by_type
detach_by_type_lem r source_none u s c = (refl, λ h. refl)
detach_by_type_lem r itimer_sec u s c = timer_detach_lem r u s
detach_by_type_lem r itimer_msec u s c = timer_detach_lem r u s
detach_by_type_lem r abstimer u s c = timer_detach_lem r u s
detach_by_type_lem r ro_fd u s c = ro_fd_detach_lem r u s c
detach_by_type_lem r os_fd u s c = os_fd_detach_lem r u s c
detach_by_type_lem r other u s c = (refl, λ h. refl)

pub do_detach_lem :
    (r : Ring) (u : Uring) (s : ℕ) (c : Bool)
    → IsQueue u.queue
    → (mem s u.queue.running || mem s u.queue.pending) ≡ true
    → u.queue.foreach_s ≢ some s
    → let v = do_detach_from_queue r u s c in
      IsDetached u.queue v.queue s × ((u.context s).submitted ≡ false → v.polls ≡ u.polls)
unfolding do_detach_from_queue
do_detach_lem r u s c w m apart =
    let u1 = record u { queue = rm_pending_events u.queue s } in
    let (same, polls) = detach_by_type_lem r (u1.queue.source s).type u1 s c in
    (
      subst (λ q. IsDetached u.queue (unlink q s) s) (sym same)
          (unlink-IsDetached u.queue s w m apart),
      polls,
    )

mem-onto : (s : ℕ) (xs ys : List ℕ) → mem s (onto xs ys) ≡ (mem s xs || mem s ys)
mem-onto s [] ys = refl
mem-onto s (x ∷ xs) ys = ground (arith, mem-onto s xs (x ∷ ys))

-- A pending source that is not marked as submitted, as every new one, and that is flushed and then
-- detached, leaves its poll in the ring: the flush does not mark it, and so the detach, by any
-- type and for any answer of the ring, does not cancel the poll. The source itself is free.
pub flushed_poll_stays :
    (r1 r2 : Ring) (u : Uring) (s : ℕ) (c : Bool)
    → IsQueue u.queue
    → ((t : ℕ) → mem t u.queue.pending ≡ true → r1.has_sqe t ≡ true)
    → r1.submits ≡ true
    → mem s u.queue.pending ≡ true
    → (u.context s).submitted ≡ false
    → u.queue.foreach_s ≢ some s
    → let v = do_detach_from_queue r2 (flush_pending_sources r1 u).0 s c in
      ((v.queue.source s).q_in_use ≡ none) × (mem s v.polls ≡ true)
flushed_poll_stays r1 r2 u s c w all submits waits fresh apart =
    let (f, runs, w2, none_pending, moved, polls, same, cursor) =
      uring_flush_lem r1 u w all submits in
    let runs_now : (mem s f.queue.running || mem s f.queue.pending) ≡ true =
      rw moved (ground (arith, mem-onto s u.queue.pending u.queue.running)) in
    let (d, kept) = do_detach_lem r2 f s c w2 runs_now (λ h. apart (sym cursor ∙ h)) in
    rw runs (
      d.free,
      rw (kept (rw same fresh), polls) (ground (arith, mem-onto s u.queue.pending u.polls)),
    )
