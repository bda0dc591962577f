-- ===== src/Evdp/Uring.antt =====
-- The io_uring driver, src/evdp/driver/io_uring, over the queue of src/evdp/core.c.
pub mod Flush
pub mod Detach
pub mod Asks
mod Tests
use nebase.Base.{
  ℕ, suc, ◌+◌, ◌-◌, ◌==◌, Bool, true, false, ◌||◌, ◌&&◌, not, List, [], ◌∷◌, Option, none, some,
  if◌then◌else◌,
}
use nebase.Evdp.Ids.{erase}
use nebase.Evdp.Source.{
  SourceType, source_none, itimer_sec, itimer_msec, abstimer, ro_fd, os_fd, other, update,
}
use nebase.Evdp.Queue.{
  Queue, slist_remove, pending_insert, running_insert, running_insert_no_stats, rm_pending_events,
  unlink,
}
use nebase.Evdp.Queue.Flush.{adjust}
use nebase.Evdp.Queue.OsFd.{IoEvent, input, output, other_event, to_pending, to_running}

-- The fields of the driver's context structs for sources. `timer_set` is whether its.it_value is
-- not zero, `pollin` and `pollout` are bits of ctl_event.
pub record UringContext : Type 0 where
  pub pollin : Bool
  pub pollout : Bool
  pub submitted : Bool
  pub multishot : Bool
  pub in_action : Bool
  pub in_callback : Bool
  pub timer_set : Bool

-- The queue, the contexts of the sources, and the source of every poll that was put into the ring
-- and not removed.
pub record Uring : Type 0 where
  pub queue : Queue
  pub context : ℕ → UringContext
  pub polls : List ℕ

-- What the kernel answers while one operation runs: timerfd_settime and io_uring_get_sqe for a
-- source, and io_uring_submit.
pub record Ring : Type 0 where
  pub settime : ℕ → Bool
  pub has_sqe : ℕ → Bool
  pub submits : Bool

abbrev pub set_uring : Uring → ℕ → UringContext → Uring
set_uring u s c = record u { context = update u.context s c }

-- evdp_create_source_itimer_context and evdp_create_source_abstimer_context, where they succeed.
abbrev pub timer_context : UringContext
timer_context = record {
  pollin = false;
  pollout = false;
  submitted = false;
  multishot = true;
  in_action = false;
  in_callback = false;
  timer_set = true;
}

-- evdp_create_source_ro_fd_context and evdp_create_source_os_fd_context
abbrev pub ro_fd_context : UringContext
ro_fd_context = record timer_context { timer_set = false }

abbrev pub os_fd_context : UringContext
os_fd_context = record ro_fd_context { multishot = false }

-- neb_io_uring_submit_fd and neb_io_uring_cancel_fd; false is -1. What is prepared goes to the
-- ring with the next submit, should this one fail.
pub submit_fd : Ring → Uring → ℕ → Uring × Bool
submit_fd r u s =
    if not (r.has_sqe s) then (u, false) else (record u { polls = s ∷ u.polls }, r.submits)

pub cancel_fd : Ring → Uring → ℕ → Uring × Bool
cancel_fd r u s =
    if not (r.has_sqe s) then (u, false) else (record u { polls = erase s u.polls }, r.submits)

-- evdp_source_itimer_attach and evdp_source_abstimer_attach
pub timer_attach : Ring → Uring → ℕ → Uring × Bool
timer_attach r u s =
    let c = u.context s in
    if not c.in_action && not (r.settime s) then (u, false) else (
      record (set_uring u s (record c { in_action = true; pollin = true; pollout = false })) {
        queue = pending_insert u.queue s;
      },
      true,
    )

-- evdp_source_ro_fd_attach
pub ro_fd_attach : Uring → ℕ → Uring × Bool
ro_fd_attach u s = (
  record (set_uring u s (record (u.context s) { pollin = true; pollout = false })) {
    queue = pending_insert u.queue s;
  },
  true,
)

-- evdp_source_os_fd_attach
pub os_fd_attach : Uring → ℕ → Uring × Bool
os_fd_attach u s =
    let c = u.context s in
    let q = if c.pollin || c.pollout then pending_insert u.queue s else running_insert u.queue s in
    (record u { queue = q }, true)

-- evdp_source_itimer_detach and evdp_source_abstimer_detach
pub timer_detach : Ring → Uring → ℕ → Uring
unfolding cancel_fd
timer_detach r u s =
    let c = u.context s in
    let c1 = if c.in_action then record c { timer_set = false; in_action = false } else c in
    let u1 = set_uring u s c1 in
    if c.submitted then set_uring (cancel_fd r u1 s).0 s (record c1 { submitted = false }) else u1

-- evdp_source_ro_fd_detach
pub ro_fd_detach : Ring → Uring → ℕ → Bool → Uring
unfolding cancel_fd
ro_fd_detach r u s to_close =
    let c = u.context s in
    let off = record c { submitted = false } in
    if to_close
    then set_uring u s off
    else if c.submitted
    then set_uring (cancel_fd r u s).0 s off
    else u

-- do_submit_os_fd and do_cancel_os_fd
abbrev pub mark_submitted : Uring × Bool → ℕ → Bool → Uring × Bool
mark_submitted (u, true) s b = (set_uring u s (record (u.context s) { submitted = b }), true)
mark_submitted (u, false) s b = (u, false)

pub do_submit_os_fd : Ring → Uring → ℕ → Uring × Bool
unfolding submit_fd
do_submit_os_fd r u s = mark_submitted (submit_fd r u s) s true

pub do_cancel_os_fd : Ring → Uring → ℕ → Uring × Bool
unfolding cancel_fd
do_cancel_os_fd r u s = mark_submitted (cancel_fd r u s) s false

-- evdp_source_os_fd_detach
pub os_fd_detach : Ring → Uring → ℕ → Bool → Uring
unfolding do_cancel_os_fd
os_fd_detach r u s to_close =
    let c = u.context s in
    if to_close
    then set_uring u s (record c { submitted = false })
    else if c.submitted
    then (do_cancel_os_fd r u s).0
    else u

-- The switches of do_detach_from_queue and neb_evdp_queue_attach of src/evdp/core.c.
pub attach_by_type : Ring → SourceType → Uring → ℕ → Uring × Bool
unfolding timer_attach ro_fd_attach os_fd_attach
attach_by_type r source_none u s = (u, false)
attach_by_type r itimer_sec u s = timer_attach r u s
attach_by_type r itimer_msec u s = timer_attach r u s
attach_by_type r abstimer u s = timer_attach r u s
attach_by_type r ro_fd u s = ro_fd_attach u s
attach_by_type r os_fd u s = os_fd_attach u s
attach_by_type r other u s = (u, false)

pub detach_by_type : Ring → SourceType → Uring → ℕ → Bool → Uring
unfolding timer_detach ro_fd_detach os_fd_detach
detach_by_type r source_none u s to_close = u
detach_by_type r itimer_sec u s to_close = timer_detach r u s
detach_by_type r itimer_msec u s to_close = timer_detach r u s
detach_by_type r abstimer u s to_close = timer_detach r u s
detach_by_type r ro_fd u s to_close = ro_fd_detach r u s to_close
detach_by_type r os_fd u s to_close = os_fd_detach r u s to_close
detach_by_type r other u s to_close = u

-- do_detach_from_queue of src/evdp/core.c over this driver, whose evdp_queue_rm_pending_events
-- forgets the events of the source as that of epoll does.
pub do_detach_from_queue : Ring → Uring → ℕ → Bool → Uring
unfolding detach_by_type
do_detach_from_queue r u s to_close =
    let u1 = record u { queue = rm_pending_events u.queue s } in
    let u2 = detach_by_type r (u1.queue.source s).type u1 s to_close in
    record u2 { queue = unlink u2.queue s }

-- evdp_queue_flush_pending_sources: one round, the loop over the pending list, whose head each
-- round removes, and the end. No number is the return of -1 in the loop.
abbrev pub submit_poll : Uring → ℕ → Uring
submit_poll u s = record u {
  queue = running_insert_no_stats (slist_remove u.queue s) s;
  polls = s ∷ u.polls;
}

pub flush_loop : Ring → List ℕ → Uring → ℕ → Uring × Option ℕ
flush_loop r [] u count = (u, some count)
flush_loop r (s ∷ rest) u count =
    let next = flush_loop r rest (submit_poll u s) (count + 1) in
    if r.has_sqe s then next else (u, none)

abbrev pub flush_end : Ring → Uring × Option ℕ → Uring × Bool
flush_end r (u, none) = (u, false)
flush_end r (u, some count) =
    if count == 0
    then (u, true)
    else if not r.submits
    then (u, false)
    else (record u { queue = adjust u.queue count }, true)

pub flush_pending_sources : Ring → Uring → Uring × Bool
unfolding flush_loop
flush_pending_sources r u = flush_end r (flush_loop r u.queue.pending u 0)

abbrev pub polls_for : IoEvent → UringContext → Bool
polls_for input c = c.pollin
polls_for output c = c.pollout

abbrev pub set_polls : IoEvent → Bool → UringContext → UringContext
set_polls input b c = record c { pollin = b }
set_polls output b c = record c { pollout = b }

-- evdp_source_os_fd_reset_read and evdp_source_os_fd_reset_write
pub reset_event : IoEvent → Ring → Uring → ℕ → Uring × Bool
unfolding do_submit_os_fd
reset_event e r u s =
    let c = u.context s in
    let u1 = set_uring u s (set_polls e true c) in
    if c.submitted
    then if polls_for e c then (u, true) else do_submit_os_fd r u1 s
    else if not c.in_callback && not (u.queue.source s).pending
    then (record u1 { queue = to_pending u1.queue s }, true)
    else (u1, true)

-- evdp_source_os_fd_unset_read and evdp_source_os_fd_unset_write
pub unset_event : IoEvent → Ring → Uring → ℕ → Uring × Bool
unfolding do_cancel_os_fd
unset_event e r u s =
    let c = u.context s in
    let u1 = set_uring u s (set_polls e false c) in
    if c.submitted
    then if not (polls_for e c)
      then (u, true)
      else if polls_for (other_event e) c
      then (u1, true)
      else do_cancel_os_fd r u1 s
    else if (u.queue.source s).pending
    then if polls_for (other_event e) c
      then (u1, true)
      else (record u1 { queue = to_running u1.queue s }, true)
    else (u1, true)

-- The end of evdp_source_os_fd_handle, for a source that asks for more.
pub rearm : Uring → ℕ → Uring
rearm u s =
    let c = u.context s in
    let q1 = slist_remove u.queue s in
    let q2 =
      if not (q1.source s).pending then record q1 { stat_running = q1.stat_running - 1 } else q1 in
    if c.pollin || c.pollout then record u { queue = pending_insert q2 s } else u
