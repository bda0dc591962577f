-- ===== src/Evdp/Queue/OsFd.antt =====
-- Asking for events of an os_fd source: neb_evdp_source_os_fd_next_read and _next_write of
-- src/evdp/io_base.c, over src/evdp/driver/epoll/source_os_fd.c.
pub mod Moves
pub mod Asks
pub mod Reset
pub mod Tests
use nebase.Base.{ℕ, ◌+◌, ◌-◌, Bool, true, false, not, ◌||◌, ◌&&◌, if◌then◌else◌}
use nebase.Evdp.Source.{
  SourceType, source_none, itimer_sec, itimer_msec, abstimer, ro_fd, os_fd, other, Source, Context,
}
use nebase.Evdp.Queue.{
  Queue, Kernel, CtlResult, success, enoent, failure, set_source, set_context, slist_remove,
  pending_insert, running_insert, do_del_os_fd, is_attached,
}

-- EPOLLIN and EPOLLOUT
pub data IoEvent : Type 0 where
  input output : IoEvent

abbrev pub wants : IoEvent → Context → Bool
wants input c = c.epollin
wants output c = c.epollout

abbrev pub set_wants : IoEvent → Bool → Context → Context
set_wants input b c = record c { epollin = b }
set_wants output b c = record c { epollout = b }

abbrev pub other_event : IoEvent → IoEvent
other_event input = output
other_event output = input

-- From EVDP_SLIST_REMOVE on, to the pending list and to the running list.
abbrev pub to_pending : Queue → ℕ → Queue
to_pending q s =
    let q1 = slist_remove q s in pending_insert (record q1 { stat_running = q1.stat_running - 1 }) s

abbrev pub to_running : Queue → ℕ → Queue
to_running q s =
    let q1 = slist_remove q s in running_insert (record q1 { stat_pending = q1.stat_pending - 1 }) s

do_ctl_by : CtlResult → Queue → ℕ → Queue × Bool
do_ctl_by success q s = (set_context q s (record (q.source s).context { added = true }), true)
do_ctl_by enoent q s = (q, false)
do_ctl_by failure q s = (q, false)

pub do_ctl_os_fd : Kernel → Queue → ℕ → Queue × Bool
unfolding do_ctl_by
do_ctl_os_fd k q s = do_ctl_by (k.ctl s) q s

-- evdp_source_os_fd_init_read and evdp_source_os_fd_init_write
pub init_event : IoEvent → Queue → ℕ → Bool → Queue
init_event e q s set = set_context q s (set_wants e set (q.source s).context)

-- evdp_source_os_fd_reset_read and evdp_source_os_fd_reset_write
pub reset_event : IoEvent → Kernel → Queue → ℕ → Queue × Bool
unfolding do_ctl_os_fd
reset_event e k q s =
    let c = (q.source s).context in
    let q1 = set_context q s (set_wants e true c) in
    if c.added
    then if wants e c then (q, true) else do_ctl_os_fd k q1 s
    else if not c.in_callback && not (q.source s).pending
    then (to_pending q1 s, true)
    else (q1, true)

-- evdp_source_os_fd_unset_read and evdp_source_os_fd_unset_write
pub unset_event : IoEvent → Kernel → Queue → ℕ → Queue × Bool
unset_event e k q s =
    let c = (q.source s).context in
    let q1 = set_context q s (set_wants e false c) in
    if c.added
    then if not (wants e c)
      then (q, true)
      else if wants (other_event e) c
      then (q1, true)
      else do_del_os_fd k q1 s
    else if (q.source s).pending
    then if wants (other_event e) c then (q1, true) else (to_running q1 s, true)
    else (q1, true)

-- The conf's handler for the event is set or cleared.
abbrev pub set_handler : IoEvent → Bool → Source → Source
set_handler input b v = record v { reads = b }
set_handler output b v = record v { writes = b }

pub next_event : IoEvent → Kernel → Queue → ℕ → Bool → Queue × Bool
unfolding init_event reset_event unset_event
next_event e k q s set =
    let q1 = set_source q s (set_handler e set (q.source s)) in
    if not (is_attached (q.source s).q_in_use)
    then (init_event e q1 s set, true)
    else if set
    then reset_event e k q1 s
    else unset_event e k q1 s

-- neb_evdp_source_os_fd_next_read and neb_evdp_source_os_fd_next_write
pub next_read : Kernel → Queue → ℕ → Bool → Queue × Bool
unfolding next_event
next_read k q s set = next_event input k q s set

pub next_write : Kernel → Queue → ℕ → Bool → Queue × Bool
unfolding next_event
next_write k q s set = next_event output k q s set

-- evdp_reset_source_os_fd_context
abbrev pub reset_context : Source → Source
reset_context v = record v {
  pending = false;
  context = record v.context { added = false; epollin = false; epollout = false };
}

abbrev pub is_os_fd : SourceType → Bool
is_os_fd source_none = false
is_os_fd itimer_sec = false
is_os_fd itimer_msec = false
is_os_fd abstimer = false
is_os_fd ro_fd = false
is_os_fd os_fd = true
is_os_fd other = false

-- neb_evdp_source_os_fd_reset of a source with a conf and a context.
pub os_fd_reset : Queue → ℕ → Queue × Bool
os_fd_reset q s =
    let v = q.source s in
    if is_attached v.q_in_use
    then (q, false)
    else if not (is_os_fd v.type)
    then (q, false)
    else (set_source q s (reset_context v), true)
