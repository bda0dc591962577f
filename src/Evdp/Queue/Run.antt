-- ===== src/Evdp/Queue/Run.antt =====
-- neb_evdp_queue_run of src/evdp/core.c: the rounds of a queue. What a round meets outside the
-- queue, the thread's event mask, the clock, the kernel and the user's callbacks, is its argument.
pub mod Rounds
pub mod Tests
use nebase.Base.{
  ℕ, zero, suc, ◌+◌, Bool, true, false, not, ◌||◌, ◌&&◌, List, [], ◌∷◌, Option, none, some,
  if◌then◌else◌, length, ltb,
}
use nebase.Evdp.Source.{CbRet, continue, remove, close, break_exp, break_err, end_foreach, invalid}
use nebase.Evdp.Queue.{Queue, Kernel, Event}
use nebase.Evdp.Queue.Flush.{flush_pending_sources}
use nebase.Evdp.Queue.Handle.{
  Callbacks, LoopEnd, finished, exit_ok, exit_err, overread, out_of_rounds, handle_events,
}

-- A handler of the queue: event_call or batch_call.
abbrev pub QueueCall : Type 0
QueueCall = Queue → Queue × CbRet

-- T_E_ABRT and T_E_QUIT in thread_events, and whether it is not zero.
pub record ThreadEvents : Type 0 where
  pub any : Bool
  pub abort : Bool
  pub quit : Bool

-- `wait` is what evdp_queue_wait_events makes of the queue: the events that the kernel reports,
-- none of them where it was interrupted, or -1. `timer` is evdp_timer_run_until where a timer is
-- set, with the result of the clock read before evdp_timer_fetch_neareast_ts.
pub record Round : Type 0 where
  pub kernel : Kernel
  pub callbacks : Callbacks
  pub thread_events : ThreadEvents
  pub event_call : Option QueueCall
  pub clock_before : Bool
  pub clock_after : Bool
  pub wait : Queue → Option (List Event)
  pub timer : Option (Bool × (Queue → Queue))
  pub batch_call : Option QueueCall

-- What the handling of thread_events at the head of a round decides.
pub data Decision : Type 0 where
  go_on again leave_ok leave_err : Decision

abbrev pub decide : CbRet → Decision
decide break_err = leave_err
decide break_exp = leave_ok
decide continue = again
decide remove = go_on
decide close = go_on
decide end_foreach = go_on
decide invalid = go_on

abbrev pub decided : Queue × CbRet → Queue × Decision
decided (q, ret) = (q, decide ret)

pub check_events : Round → Queue → Queue × Decision
check_events r q =
    let te = r.thread_events in
    if not te.any then (q, go_on) else elim r.event_call [
      | some call ↦ decided (call q)
      | none ↦ if te.abort then (q, leave_err) else if te.quit then (q, leave_ok) else (q, go_on)
    ]

-- After the handling of the events: the timer, and the batch handler where there were events.
abbrev pub run_timer : Round → Queue → Queue
run_timer r q = elim r.timer [ none ↦ q | some (ok, run) ↦ run q ]

abbrev pub batch_end : Queue × CbRet → LoopEnd
batch_end (q, break_err) = exit_err q
batch_end (q, break_exp) = exit_ok q
batch_end (q, continue) = finished q
batch_end (q, remove) = finished q
batch_end (q, close) = finished q
batch_end (q, end_foreach) = finished q
batch_end (q, invalid) = finished q

pub run_batch : Round → Bool → Queue → LoopEnd
run_batch r had_events q = elim r.batch_call [
  | none ↦ finished q
  | some call ↦ if had_events then batch_end (call q) else finished q
]

pub after_events : Round → Bool → LoopEnd → LoopEnd
unfolding run_batch
after_events r had_events (finished q) = run_batch r had_events (run_timer r q)
after_events r had_events (exit_ok q) = exit_ok q
after_events r had_events (exit_err q) = exit_err q
after_events r had_events overread = overread
after_events r had_events out_of_rounds = out_of_rounds

-- From evdp_queue_wait_events on.
pub serve : Round → Queue → LoopEnd
unfolding after_events
serve r q = elim (r.wait q) [
  | none ↦ exit_err (record q { events = [] })
  | some es ↦
      let q1 = record q { events = es } in
      if not r.clock_after
      then exit_err q1
      else after_events r (ltb 0 (length es)) (handle_events r.kernel r.callbacks q1)
]

abbrev pub clock_ok : Round → Bool
clock_ok r = r.clock_before && (elim r.timer [ none ↦ true | some (ok, run) ↦ ok ])

pub flushed : Round → Queue × Bool → LoopEnd
unfolding serve
flushed r (q, ok) =
    if not ok then exit_err q else if not (clock_ok r) then exit_err q else serve r q

-- One round of the for loop; `finished` goes on to the next.
pub decided_round : Round → Queue × Decision → LoopEnd
unfolding flushed
decided_round r (q, again) = finished q
decided_round r (q, leave_ok) = exit_ok q
decided_round r (q, leave_err) = exit_err q
decided_round r (q, go_on) = flushed r (flush_pending_sources r.kernel q)

pub run_round : Round → Queue → LoopEnd
unfolding check_events decided_round
run_round r q = decided_round r (check_events r q)

abbrev pub and_then : LoopEnd → (Queue → LoopEnd) → LoopEnd
and_then (finished q) next = next q
and_then (exit_ok q) next = exit_ok q
and_then (exit_err q) next = exit_err q
and_then overread next = overread
and_then out_of_rounds next = out_of_rounds

-- neb_evdp_queue_run for as many rounds as are listed, less those after it has returned.
pub queue_run : List Round → Queue → LoopEnd
unfolding run_round
queue_run [] q = finished q
queue_run (r ∷ rs) q = and_then (run_round r q) (λ p. queue_run rs p)
