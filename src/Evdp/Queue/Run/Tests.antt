-- ===== src/Evdp/Queue/Run/Tests.antt =====
-- A round of neb_evdp_queue_run of src/evdp/core.c on a queue with two running sources.
use nebase.Base.{
  ℕ, ◌≡◌, arith, true, false, List, [], ◌∷◌, Option, none, some, if◌then◌else◌, length, subst, ap,
}
use nebase.Evdp.Source.{CbRet, continue}
use nebase.Evdp.Queue.{Queue, Event, queue_create, is_queue}
use nebase.Evdp.Queue.Invariant.{IsQueue}
use nebase.Evdp.Queue.Foreach.Tests.{kernel, two_running, two_running-IsQueue, removing}
use nebase.Evdp.Queue.Handle.{Callbacks, handle_event, handle_events}
use nebase.Evdp.Queue.Handle.Ready.{Served, IsHandled}
use nebase.Evdp.Queue.Handle.Branches.{AreCareful}
use nebase.Evdp.Queue.Handle.Loop.{EndsRound, handle_event-IsHandled, handle_events_lem}
use nebase.Evdp.Queue.Run.{QueueCall, Round, queue_run}
use nebase.Evdp.Queue.Run.Rounds.{IsCarefulRound, FlushFails, StaysWell, queue_run-StaysWell}

-- Every callback asks to remove its source.
abbrev callbacks : Callbacks
callbacks = record {
  timer_read = λ s. true;
  do_wakeup = removing;
  past_conf = λ s. none;
  do_read = removing;
  do_hup = removing;
  do_write = removing;
}

callbacks-AreCareful : AreCareful callbacks
callbacks-AreCareful = record {
  do_wakeup = λ q i n s w. w;
  past_conf = λ s call h. absurd (ground arith);
  do_read = λ q i n s w. w;
  do_hup = λ q i n s w. w;
  do_write = λ q i n s w. w;
}

abbrev hup : ℕ → Event
hup s = record { ptr = some s; epollin = false; epollhup = true; epollout = false }

-- The kernel reports that the first running source was hung up.
abbrev report : List ℕ → Option ℕ → Option (List Event)
report [] f = some []
report (s ∷ rest) f = some (if is_queue s f then [] else hup s ∷ [])

abbrev ignoring : QueueCall
ignoring q = (q, continue)

abbrev call_of : QueueCall → Option QueueCall → QueueCall
call_of call none = call
call_of call (some set) = set

abbrev one_round : Round
one_round = record {
  kernel = kernel;
  callbacks = callbacks;
  thread_events = record { any = false; abort = false; quit = false };
  event_call = none;
  clock_before = true;
  clock_after = true;
  wait = λ q. report q.running q.foreach_s;
  timer = none;
  batch_call = some ignoring;
}

report-Served :
    (running : List ℕ) (f : Option ℕ) (es : List Event)
    → report running f ≡ some es
    → Served running f es
report-Served [] f [] h = tt
report-Served [] f (e ∷ es) h = ground arith
report-Served (s ∷ rest) f [] h = tt
report-Served (s ∷ rest) f (e ∷ []) h = (λ t k. ground arith, tt)
report-Served (s ∷ rest) f (e ∷ d ∷ es) h = ground arith

one_round-IsCarefulRound : IsCarefulRound one_round
one_round-IsCarefulRound = record {
  callbacks = callbacks-AreCareful;
  wait = λ q es w h. report-Served q.running q.foreach_s es h;
  event_call = λ call q h w. ground arith;
  batch_call = λ call q h w. subst (λ c. IsQueue (c q).0) (ap (call_of ignoring) h) w;
  timer = λ q w. w;
}

handle_event-IsHandled_example :
    (r : Queue) × (ret : CbRet) × (handle_event kernel callbacks two_running ≡ some (r, ret))
    × IsHandled r two_running.current_event (length two_running.events)
unfolding queue_create
handle_event-IsHandled_example =
    handle_event-IsHandled kernel callbacks two_running callbacks-AreCareful two_running-IsQueue
      (omega arith) (λ s h. ground arith, tt)

handle_events_lem_example : EndsRound (handle_events kernel callbacks two_running)
unfolding queue_create
handle_events_lem_example =
    handle_events_lem kernel callbacks two_running callbacks-AreCareful two_running-IsQueue
      (λ s h. ground arith, tt)

queue_run-StaysWell_example :
    StaysWell
      (λ p. FlushFails (one_round ∷ one_round ∷ []) two_running p)
      (queue_run (one_round ∷ one_round ∷ []) two_running)
queue_run-StaysWell_example =
    queue_run-StaysWell (one_round ∷ one_round ∷ []) two_running
      (one_round-IsCarefulRound, (one_round-IsCarefulRound, tt)) two_running-IsQueue
