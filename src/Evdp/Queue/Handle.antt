-- ===== src/Evdp/Queue/Handle.antt =====
-- The handling of events: handle_event of src/evdp/core.c, its loop in neb_evdp_queue_run, and the
-- handlers of src/evdp/driver/epoll. The user's callbacks are arguments that may change the queue.
pub mod Ready
pub mod Branches
pub mod Loop
use nebase.Base.{
  ℕ, zero, suc, ◌+◌, ◌-◌, Bool, true, false, not, ◌||◌, ◌&&◌, List, [], ◌∷◌, Option, none, some,
  if◌then◌else◌, length, get_elem?, ltb,
}
use nebase.Evdp.Source.{
  SourceType, source_none, itimer_sec, itimer_msec, abstimer, ro_fd, os_fd, other, CbRet, continue,
  remove, close, break_exp, break_err, end_foreach, invalid, ctl_mod, Source, Context,
}
use nebase.Evdp.Queue.{
  Queue, Kernel, Event, set_source, set_context, slist_remove, pending_insert, do_detach_from_queue,
}
use nebase.Evdp.Queue.Foreach.{EachCall, set_no_detach}

-- The callbacks of the sources, and whether the read of a timer's descriptor succeeds. `past_conf`
-- is what stands behind the conf of an abstimer, where evdp_source_abstimer_handle looks for
-- do_wakeup: it reads struct evdp_conf_abstimer as the longer struct evdp_conf_itimer.
pub record Callbacks : Type 0 where
  pub timer_read : ℕ → Bool
  pub do_wakeup : EachCall
  pub past_conf : ℕ → Option EachCall
  pub do_read : EachCall
  pub do_hup : EachCall
  pub do_write : EachCall

abbrev pub is_continue : CbRet → Bool
is_continue continue = true
is_continue remove = false
is_continue close = false
is_continue break_exp = false
is_continue break_err = false
is_continue end_foreach = false
is_continue invalid = false

-- evdp_source_itimer_handle
pub timer_handle : Callbacks → EachCall
timer_handle cs q s =
    if not (cs.timer_read s)
    then (q, break_err)
    else if (q.source s).wakes
    then cs.do_wakeup q s
    else (q, continue)

pub abstimer_handle : Callbacks → EachCall
abstimer_handle cs q s =
    if not (cs.timer_read s)
    then (q, break_err)
    else elim (cs.past_conf s) [ none ↦ (q, continue) | some call ↦ call q s ]

-- The switch on what do_hup returned.
abbrev pub hup_ret : CbRet → CbRet
hup_ret break_err = break_err
hup_ret break_exp = break_exp
hup_ret close = close
hup_ret continue = remove
hup_ret remove = remove
hup_ret end_foreach = remove
hup_ret invalid = remove

abbrev pub with_hup_ret : Queue × CbRet → Queue × CbRet
with_hup_ret (q, ret) = (q, hup_ret ret)

pub ro_fd_hup : Callbacks → Event → ℕ → Queue × CbRet → Queue × CbRet
ro_fd_hup cs e s (q, ret) =
    if not (is_continue ret)
    then (q, ret)
    else if e.epollhup
    then with_hup_ret (cs.do_hup q s)
    else (q, ret)

pub ro_fd_handle : Callbacks → Event → EachCall
unfolding ro_fd_hup
ro_fd_handle cs e q s = ro_fd_hup cs e s (if e.epollin then cs.do_read q s else (q, continue))

abbrev pub set_in_callback : Queue → ℕ → Bool → Queue
set_in_callback q s b = set_context q s (record (q.source s).context { in_callback = b })

abbrev pub left_callback : ℕ → Queue × CbRet → Queue × CbRet
left_callback s (q, ret) = (set_in_callback q s false, ret)

-- A callback of an os_fd source, with in_callback set around it.
pub guarded : EachCall → EachCall
guarded call q s = left_callback s (call (set_in_callback q s true) s)

pub os_fd_read : Callbacks → Event → EachCall
unfolding guarded
os_fd_read cs e q s =
    if e.epollin && (q.source s).reads
    then guarded cs.do_read (set_context q s (record (q.source s).context { epollin = false })) s
    else (q, continue)

pub os_fd_write : Callbacks → Event → EachCall
unfolding guarded
os_fd_write cs e q s =
    if e.epollout && (q.source s).writes
    then guarded cs.do_write (set_context q s (record (q.source s).context { epollout = false })) s
    else (q, continue)

-- The source goes back to the pending list if it still waits for an event.
pub os_fd_rearm : ℕ → Queue × CbRet → Queue × CbRet
os_fd_rearm s (q, ret) =
    let c = (q.source s).context in
    let q1 = slist_remove q s in
    if not (is_continue ret)
    then (q, ret)
    else if c.epollin || c.epollout
    then (pending_insert (record q1 { stat_running = q1.stat_running - 1 }) s, ret)
    else (q, ret)

pub os_fd_after_read : Callbacks → Event → ℕ → Queue × CbRet → Queue × CbRet
unfolding guarded os_fd_write os_fd_rearm
os_fd_after_read cs e s (q, ret) =
    if not (is_continue ret)
    then (q, ret)
    else if e.epollhup
    then with_hup_ret (guarded cs.do_hup q s)
    else os_fd_rearm s (os_fd_write cs e q s)

pub os_fd_handle : Callbacks → Event → EachCall
unfolding os_fd_read os_fd_after_read
os_fd_handle cs e q s =
    let q1 = set_context q s (record (q.source s).context { added = false; ctl_op = ctl_mod }) in
    os_fd_after_read cs e s (os_fd_read cs e q1 s)

-- The switch of handle_event on the type.
pub handle_by_type : Callbacks → Event → SourceType → EachCall
unfolding timer_handle abstimer_handle ro_fd_handle os_fd_handle
handle_by_type cs e source_none q s = (q, continue)
handle_by_type cs e itimer_sec q s = timer_handle cs q s
handle_by_type cs e itimer_msec q s = timer_handle cs q s
handle_by_type cs e abstimer q s = abstimer_handle cs q s
handle_by_type cs e ro_fd q s = ro_fd_handle cs e q s
handle_by_type cs e os_fd q s = os_fd_handle cs e q s
handle_by_type cs e other q s = (q, continue)

-- The switch of handle_event on what the handler returned.
pub finish_handle : Kernel → ℕ → Queue × CbRet → Queue × CbRet
finish_handle k s (q, remove) = (do_detach_from_queue k q s false, continue)
finish_handle k s (q, close) = (do_detach_from_queue k q s true, continue)
finish_handle k s (q, continue) = (q, continue)
finish_handle k s (q, break_exp) = (q, break_exp)
finish_handle k s (q, break_err) = (q, break_err)
finish_handle k s (q, end_foreach) = (q, end_foreach)
finish_handle k s (q, invalid) = (q, invalid)

abbrev pub unprotect : ℕ → Queue × CbRet → Queue × CbRet
unprotect s (q, ret) = (set_no_detach q s false, ret)

pub handle_source : Kernel → Callbacks → Event → EachCall
unfolding handle_by_type finish_handle
handle_source k cs e q s =
    finish_handle k s
      (unprotect s (handle_by_type cs e (q.source s).type (set_no_detach q s true) s))

-- handle_event; no result is a read behind the events that the kernel reported.
pub handle_event : Kernel → Callbacks → Queue → Option (Queue × CbRet)
unfolding handle_source
handle_event k cs q = elim (get_elem? q.events q.current_event) [
  | none ↦ none
  | some e ↦ elim e.ptr [ none ↦ some (q, continue) | some s ↦ some (handle_source k cs e q s) ]
]

-- How the loop over the events ends: at its end, by a break of either kind, by a read behind the
-- events, or with the rounds allowed used up.
pub data LoopEnd : Type 0 where
  finished : Queue → LoopEnd
  exit_ok : Queue → LoopEnd
  exit_err : Queue → LoopEnd
  overread : LoopEnd
  out_of_rounds : LoopEnd

abbrev pub after_event : Option (Queue × CbRet) → (Queue → LoopEnd) → LoopEnd
after_event none next = overread
after_event (some (q, break_err)) next = exit_err q
after_event (some (q, break_exp)) next = exit_ok q
after_event (some (q, continue)) next = next q
after_event (some (q, remove)) next = next q
after_event (some (q, close)) next = next q
after_event (some (q, end_foreach)) next = next q
after_event (some (q, invalid)) next = next q

-- The loop of neb_evdp_queue_run over the events, from the number `i` on, for `rounds` at most.
pub events_loop : Kernel → Callbacks → ℕ → ℕ → Queue → LoopEnd
unfolding handle_event
events_loop k cs zero i q = if ltb i (length q.events) then out_of_rounds else finished q
events_loop k cs (suc rounds) i q =
    let next : Queue → LoopEnd = λ r. events_loop k cs rounds (i + 1) r in
    if ltb i (length q.events)
    then after_event (handle_event k cs (record q { current_event = i })) next
    else finished q

abbrev pub clear_events : LoopEnd → LoopEnd
clear_events (finished q) = finished (record q { events = []; current_event = 0 })
clear_events (exit_ok q) = exit_ok q
clear_events (exit_err q) = exit_err q
clear_events overread = overread
clear_events out_of_rounds = out_of_rounds

-- The part of neb_evdp_queue_run that handles the events of a round.
pub handle_events : Kernel → Callbacks → Queue → LoopEnd
unfolding events_loop
handle_events k cs q =
    if ltb 0 (length q.events)
    then clear_events (events_loop k cs (length q.events) 0 q)
    else finished q
