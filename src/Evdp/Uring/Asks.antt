-- ===== src/Evdp/Uring/Asks.antt =====
-- Asking for events of an os_fd source over the io_uring driver: source_os_fd.c.
use nebase.Base.{
  ℕ, suc, length, ◌≡◌, ◌≢◌, refl, arith, true, false, ◌||◌, ◌&&◌, not, some, Bool-cases, inl, inr,
  ◌∙◌,
}
use nebase.Evdp.Ids.{mem, length-erase}
use nebase.Evdp.Queue.Invariant.{IsQueue}
use nebase.Evdp.Queue.OsFd.{IoEvent, other_event}
use nebase.Evdp.Queue.OsFd.Moves.{to_pending-IsQueue, to_running-IsQueue}
use nebase.Evdp.Uring.Detach.{mark_queue, cancel_queue}
use nebase.Evdp.Uring.{
  Uring, Ring, submit_fd, cancel_fd, do_submit_os_fd, do_cancel_os_fd, polls_for, reset_event,
  unset_event, rearm,
}

do_submit_same : (r : Ring) (u : Uring) (s : ℕ) → (do_submit_os_fd r u s).0.queue ≡ u.queue
unfolding do_submit_os_fd submit_fd
do_submit_same r u s = elim (Bool-cases (r.has_sqe s)) [
  | inl can ↦ mark_queue (submit_fd r u s) s true ∙ rw can refl
  | inr full ↦ mark_queue (submit_fd r u s) s true ∙ rw full refl
]

do_cancel_same : (r : Ring) (u : Uring) (s : ℕ) → (do_cancel_os_fd r u s).0.queue ≡ u.queue
unfolding do_cancel_os_fd cancel_fd
do_cancel_same r u s = mark_queue (cancel_fd r u s) s false ∙ cancel_queue r u s

-- Asking for an event, or no longer, keeps a well-formed queue that holds the source well-formed,
-- whatever the source waits for and the ring answers.
pub reset_event-IsQueue :
    (e : IoEvent) (r : Ring) (u : Uring) (s : ℕ)
    → IsQueue u.queue
    → (mem s u.queue.running || mem s u.queue.pending) ≡ true
    → u.queue.foreach_s ≢ some s
    → IsQueue (reset_event e r u s).0.queue × IsQueue (unset_event e r u s).0.queue
unfolding reset_event unset_event
reset_event-IsQueue e r u s w m apart = (reset, unset)
  where
    reset : IsQueue (reset_event e r u s).0.queue
    reset = elim (Bool-cases (u.context s).submitted) [
      | inl on ↦ elim (Bool-cases (polls_for e (u.context s))) [
        | inl set ↦ simp (reset_event, on, set) w
        | inr clear ↦ simp (reset_event, on, clear) (rw (do_submit_same r _ s) w)
      ]
      | inr off ↦
          elim (Bool-cases (not (u.context s).in_callback && not (u.queue.source s).pending)) [
            | inl move ↦
                simp (reset_event, off, move)
                  (to_pending-IsQueue u.queue s w (ground (arith, w.pending_flag s)) apart)
            | inr stay ↦ simp (reset_event, off, stay) w
          ]
    ]

    unset : IsQueue (unset_event e r u s).0.queue
    unset = elim (Bool-cases (u.context s).submitted) [
      | inl on ↦ elim (Bool-cases (polls_for e (u.context s))) [
        | inr clear ↦ simp (unset_event, on, clear) w
        | inl set ↦ elim (Bool-cases (polls_for (other_event e) (u.context s))) [
          | inl more ↦ simp (unset_event, on, set, more) w
          | inr last ↦ simp (unset_event, on, set, last) (rw (do_cancel_same r _ s) w)
        ]
      ]
      | inr off ↦ elim (Bool-cases (u.queue.source s).pending) [
        | inr runs ↦ simp (unset_event, off, runs) w
        | inl waits ↦ elim (Bool-cases (polls_for (other_event e) (u.context s))) [
          | inl more ↦ simp (unset_event, off, waits, more) w
          | inr last ↦
              simp (unset_event, off, waits, last)
                (to_running-IsQueue u.queue s w (ground (arith, w.running_flag s)))
        ]
      ]
    ]

-- A source that still asks for an event at the end of its handler while it is pending, as after two
-- completions in a batch, is counted a second time as pending, although it is once in the pending
-- list, as before, and the count of the running sources stays: the queue is not well-formed then.
pub rearm_miscounts :
    (u : Uring) (s : ℕ)
    → IsQueue u.queue
    → mem s u.queue.pending ≡ true
    → ((u.context s).pollin || (u.context s).pollout) ≡ true
    → ((rearm u s).queue.stat_pending ≡ suc u.queue.stat_pending)
      × ((rearm u s).queue.stat_running ≡ u.queue.stat_running)
      × (mem s (rearm u s).queue.pending ≡ true)
      × (length (rearm u s).queue.pending ≡ length u.queue.pending)
      × ¬ IsQueue (rearm u s).queue
unfolding rearm
rearm_miscounts u s w waits asks =
    let q = u.queue in
    let flag : (q.source s).pending ≡ true = (w.pending_flag s waits).0 in
    let same : (rearm u s).queue.stat_pending ≡ suc q.stat_pending =
      rw (rearm, asks, flag) (omega arith) in
    let shorter = length-erase s q.pending in
    let long : length (rearm u s).queue.pending ≡ length q.pending =
      ground (arith, asks, flag, waits, shorter) in
    (
      same,
      ground (arith, asks, flag),
      ground (arith, asks, flag),
      long,
      λ bad. ground (arith, same, long, w.pending_count, bad.pending_count),
    )
