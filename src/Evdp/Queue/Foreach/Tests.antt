-- ===== src/Evdp/Queue/Foreach/Tests.antt =====
-- Queues of src/evdp/core.c with two sources, and the theorems on attach, detach and foreach there.
use nebase.Base.{ℕ, ◌≡◌, refl, arith, true, false, [], ◌∷◌, none, some, inl, inr}
use nebase.Evdp.Ids.{mem}
use nebase.Evdp.Source.{os_fd, itimer_sec, remove, Source, new_source, update}
use nebase.Evdp.Queue.{
  Queue, Kernel, success, queue_create, queue_attach, queue_detach, skip_foreach,
}
use nebase.Evdp.Queue.Invariant.{IsQueue}
use nebase.Evdp.Queue.Attach.{IsAttached, queue_attach_lem}
use nebase.Evdp.Queue.Detach.{IsDetached, queue_detach_lem}
use nebase.Evdp.Queue.Foreach.{EachCall, next_all, find_next, foreach_step, new_empty}
use nebase.Evdp.Queue.Foreach.Ends.{HasReturned, next_all_returns}
use nebase.Evdp.Queue.Foreach.Step.{foreach_step_removes_other}

abbrev pub kernel : Kernel
kernel = record { settime = λ s. true; ctl = λ s. success }

abbrev attached : ℕ → ℕ → Source
attached q utype = record (new_source os_fd) { q_in_use = some q; utype = utype }

-- Sources 3 and 5 run in queue 1, 4 is a timer that no queue holds; 3 has the given utype.
abbrev sources : ℕ → ℕ → Source
sources utype = update (update (λ s. new_source itimer_sec) 5 (attached 1 7)) 3 (attached 1 utype)

abbrev pub two_running : Queue
two_running = record (queue_create 1 (sources 7)) {
  running = 3 ∷ 5 ∷ [];
  stat_running = 3;
  events = record { ptr = some 3; epollin = true; epollhup = false; epollout = false } ∷ [];
}

pub two_running-IsQueue : IsQueue two_running
unfolding queue_create
two_running-IsQueue = record {
  running_distinct = ground arith;
  pending_distinct = tt;
  running_flag = λ s h. ground arith;
  pending_flag = λ s h. ground arith;
  listed = λ s h. ground arith;
  pending_count = refl;
  running_count = refl;
  cursor = λ f h. ground arith;
  started = inl refl;
}

-- The same in a foreach whose sentinel, 9, stands in front.
abbrev pub in_turn : ℕ → Queue
in_turn utype = record (queue_create 1 (update (sources utype) 9 (new_empty 1))) {
  running = 9 ∷ 3 ∷ 5 ∷ [];
  stat_running = 3;
  foreach_s = some 9;
  foreach_id = 1;
  in_foreach = true;
}

pub in_turn-IsQueue : (utype : ℕ) → IsQueue (in_turn utype)
unfolding queue_create
in_turn-IsQueue utype = record {
  running_distinct = ground arith;
  pending_distinct = tt;
  running_flag = λ s h. ground arith;
  pending_flag = λ s h. ground arith;
  listed = λ s h. ground arith;
  pending_count = refl;
  running_count = refl;
  cursor = λ f h. ground arith;
  started = inr (9, refl);
}

abbrev pub removing : EachCall
removing q s = (q, remove)

queue_attach_lem_example :
    IsAttached
      (skip_foreach two_running 4)
      (queue_attach kernel two_running 4).0
      4
      (queue_attach kernel two_running 4).1
unfolding queue_create
queue_attach_lem_example = queue_attach_lem kernel two_running 4 two_running-IsQueue refl refl

queue_detach_lem_example :
    ((queue_detach kernel two_running 3 false).1 ≡ true)
    × IsDetached two_running (queue_detach kernel two_running 3 false).0 3
unfolding queue_create
queue_detach_lem_example =
    queue_detach_lem kernel two_running 3 false two_running-IsQueue refl refl (λ e. ground arith)

foreach_step_removes_other_example :
    let r = (foreach_step kernel removing (in_turn 0) 9 3).0 in
    ((r.source 3).q_in_use ≡ none)
    × (mem 3 r.running ≡ false)
    × ((r.source 5).q_in_use ≡ some (in_turn 0).self)
    × (mem 5 r.running ≡ true)
unfolding queue_create find_next
foreach_step_removes_other_example =
    foreach_step_removes_other kernel removing (in_turn 0) 9 3 5 (5 ∷ []) (in_turn-IsQueue 0) refl
      refl refl refl refl refl

next_all_returns_example : HasReturned (next_all kernel removing (in_turn 7))
next_all_returns_example =
    next_all_returns kernel removing (in_turn 7) (in_turn-IsQueue 7) (λ q s f w. (w, omega arith))
