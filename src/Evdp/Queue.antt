-- ===== src/Evdp/Queue.antt =====
-- src/evdp/core.c over the epoll driver: the queue, attach and detach, and the operations of the
-- driver that they call. A linked list is the list of the ids of its sources, the sentinel at its
-- head left out.
pub mod Invariant
pub mod Unlink
pub mod Detach
pub mod Attach
pub mod Flush
pub mod Foreach
pub mod Handle
pub mod Run
pub mod OsFd
pub mod Destroy
use nebase.Base.{
  ℕ, zero, suc, ◌+◌, ◌-◌, ◌==◌, ltb, Bool, true, false, ◌||◌, ◌&&◌, not, List, [], ◌∷◌, Option,
  none, some, if◌then◌else◌, u32, length, drop,
}
use nebase.Evdp.Ids.{erase, insert_after, behind, head?}
use nebase.Evdp.Source.{
  SourceType, source_none, itimer_sec, itimer_msec, abstimer, ro_fd, os_fd, other, CbRet, continue,
  remove, close, break_exp, break_err, end_foreach, invalid, CtlOp, ctl_add, ctl_mod, Context,
  Source, new_source, update,
}

-- One entry of the driver's array `ee`: data.ptr and the events that the kernel reports.
pub record Event : Type 0 where
  pub ptr : Option ℕ
  pub epollin : Bool
  pub epollhup : Bool
  pub epollout : Bool

-- struct neb_evdp_queue with its driver's context; `events` are ee[0] to ee[nevents - 1], and
-- `removed` lists the sources whose on_remove was called, the last one first.
pub record Queue : Type 0 where
  pub self : ℕ
  pub source : ℕ → Source
  pub running : List ℕ
  pub pending : List ℕ
  pub foreach_s : Option ℕ
  pub in_foreach : Bool
  pub destroying : Bool
  pub foreach_id : ℕ
  pub stat_pending : ℕ
  pub stat_running : ℕ
  pub current_event : ℕ
  pub events : List Event
  pub removed : List ℕ

-- neb_evdp_queue_create, where every allocation and the driver's context succeed.
pub queue_create : ℕ → (ℕ → Source) → Queue
queue_create self source = record {
  self = self;
  source = source;
  running = [];
  pending = [];
  foreach_s = none;
  in_foreach = false;
  destroying = false;
  foreach_id = 0;
  stat_pending = 1;
  stat_running = 1;
  current_event = 0;
  events = [];
  removed = [];
}

-- What the kernel answers for a source while one operation runs.
pub data CtlResult : Type 0 where
  success enoent failure : CtlResult

pub record Kernel : Type 0 where
  pub settime : ℕ → Bool
  pub ctl : ℕ → CtlResult

abbrev pub set_source : Queue → ℕ → Source → Queue
set_source q s v = record q { source = update q.source s v }

abbrev pub set_context : Queue → ℕ → Context → Queue
set_context q s c = set_source q s (record (q.source s) { context = c })

-- EVDP_SLIST_REMOVE, on whichever list the source is.
abbrev pub slist_remove : Queue → ℕ → Queue
slist_remove q s = record q { running = erase s q.running; pending = erase s q.pending }

-- EVDP_SLIST_PENDING_INSERT
abbrev pub pending_insert : Queue → ℕ → Queue
pending_insert q s = record q {
  pending = s ∷ q.pending;
  source = update q.source s (record (q.source s) { pending = true });
  stat_pending = q.stat_pending + 1;
}

-- EVDP_SLIST_RUNNING_INSERT_NO_STATS and EVDP_SLIST_RUNNING_INSERT
abbrev pub running_insert_no_stats : Queue → ℕ → Queue
running_insert_no_stats q s = record q {
  running = s ∷ q.running;
  source = update q.source s (record (q.source s) { pending = false });
}

abbrev pub running_insert : Queue → ℕ → Queue
running_insert q s =
    let q' = running_insert_no_stats q s in record q' { stat_running = q'.stat_running + 1 }

-- The loop of evdp_queue_rm_pending_events, from `current_event` on.
pub forget : ℕ → ℕ → List Event → List Event
forget s i [] = []
forget s zero (e ∷ es) =
    (if (elim e.ptr [ none ↦ false | some p ↦ p == s ]) then record e { ptr = none } else e)
    ∷ forget s zero es
forget s (suc i) (e ∷ es) = e ∷ forget s i es

pub rm_pending_events : Queue → ℕ → Queue
unfolding forget
rm_pending_events q s = record q { events = forget s q.current_event q.events }

-- evdp_source_itimer_attach; false is -1.
pub timer_attach : Kernel → Queue → ℕ → Queue × Bool
timer_attach k q s =
    let c = (q.source s).context in
    if not c.in_action && not (k.settime s) then (q, false) else (
      pending_insert
          (set_context q s
            (record c { in_action = true; ctl_op = ctl_add; epollin = true; epollout = false }))
          s,
      true,
    )

pub timer_detach : Queue → ℕ → Queue
timer_detach q s =
    let c = (q.source s).context in
    set_context q s (
      if c.in_action
      then record c { timer_set = false; in_action = false; added = false }
      else record c { added = false })

-- The same steps, with TFD_TIMER_ABSTIME.
abbrev pub abstimer_attach : Kernel → Queue → ℕ → Queue × Bool
abstimer_attach k q s = timer_attach k q s

abbrev pub abstimer_detach : Queue → ℕ → Queue
abstimer_detach q s = timer_detach q s

pub ro_fd_attach : Queue → ℕ → Queue × Bool
ro_fd_attach q s =
    let c = (q.source s).context in
    (
      pending_insert
          (set_context q s (record c { ctl_op = ctl_add; epollin = true; epollout = false })) s,
      true,
    )

pub ro_fd_detach : Queue → ℕ → Bool → Queue
ro_fd_detach q s to_close = set_context q s (record (q.source s).context { added = false })

pub os_fd_attach : Queue → ℕ → Queue × Bool
os_fd_attach q s =
    let c = (q.source s).context in
    let q' = set_context q s (record c { ctl_op = ctl_add }) in
    ((if c.epollin || c.epollout then pending_insert q' s else running_insert q' s), true)

del_os_fd_by : CtlResult → Queue → ℕ → Queue × Bool
del_os_fd_by success q s =
    (set_context q s (record (q.source s).context { added = false; ctl_op = ctl_add }), true)
del_os_fd_by enoent q s = (set_context q s (record (q.source s).context { added = false }), false)
del_os_fd_by failure q s = (q, false)

pub do_del_os_fd : Kernel → Queue → ℕ → Queue × Bool
unfolding del_os_fd_by
do_del_os_fd k q s = del_os_fd_by (k.ctl s) q s

pub os_fd_detach : Kernel → Queue → ℕ → Bool → Queue
unfolding do_del_os_fd
os_fd_detach k q s to_close =
    let c = (q.source s).context in
    if to_close
    then set_context q s (record c { added = false })
    else if c.added
    then (do_del_os_fd k q s).0
    else q

-- The switch of do_detach_from_queue and that of neb_evdp_queue_attach.
pub detach_by_type : Kernel → SourceType → Queue → ℕ → Bool → Queue
unfolding timer_detach ro_fd_detach os_fd_detach
detach_by_type k source_none q s to_close = q
detach_by_type k itimer_sec q s to_close = timer_detach q s
detach_by_type k itimer_msec q s to_close = timer_detach q s
detach_by_type k abstimer q s to_close = abstimer_detach q s
detach_by_type k ro_fd q s to_close = ro_fd_detach q s to_close
detach_by_type k os_fd q s to_close = os_fd_detach k q s to_close
detach_by_type k other q s to_close = q

pub attach_by_type : Kernel → SourceType → Queue → ℕ → Queue × Bool
unfolding timer_attach ro_fd_attach os_fd_attach
attach_by_type k source_none q s = (q, false)
attach_by_type k itimer_sec q s = timer_attach k q s
attach_by_type k itimer_msec q s = timer_attach k q s
attach_by_type k abstimer q s = abstimer_attach k q s
attach_by_type k ro_fd q s = ro_fd_attach q s
attach_by_type k os_fd q s = os_fd_attach q s
attach_by_type k other q s = (q, false)

-- From EVDP_SLIST_REMOVE on, and the on_remove callback noted.
pub unlink : Queue → ℕ → Queue
unlink q s =
    let q1 = slist_remove q s in
    let v = q1.source s in
    let q2 =
      if v.pending
      then record q1 {
        stat_pending = q1.stat_pending - 1;
        source = update q1.source s (record v { pending = false; q_in_use = none });
      }
      else record q1 {
        stat_running = q1.stat_running - 1;
        source = update q1.source s (record v { q_in_use = none });
      } in
    if v.on_remove then record q2 { removed = s ∷ q2.removed } else q2

pub do_detach_from_queue : Kernel → Queue → ℕ → Bool → Queue
unfolding rm_pending_events detach_by_type unlink
do_detach_from_queue k q s to_close =
    unlink (detach_by_type k (q.source s).type (rm_pending_events q s) s to_close) s

abbrev pub is_attached : Option ℕ → Bool
is_attached none = false
is_attached (some q) = true

-- s->q_in_use = q, after an attach that succeeded.
abbrev pub adopt : Queue → ℕ → ℕ → Queue
adopt q s self = set_source q s (record (q.source s) { q_in_use = some self })

abbrev pub finish_attach : ℕ → Queue × Bool → ℕ → Queue × Bool
finish_attach self (r, true) s = (adopt r s self, true)
finish_attach self (r, false) s = (r, false)

-- s->foreach_id = q->foreach_id, which skips an ongoing foreach.
abbrev pub skip_foreach : Queue → ℕ → Queue
skip_foreach q s = set_source q s (record (q.source s) { foreach_id = q.foreach_id })

pub queue_attach : Kernel → Queue → ℕ → Queue × Bool
unfolding attach_by_type
queue_attach k q s =
    if is_attached (q.source s).q_in_use
    then (q, false)
    else if q.destroying
    then (q, false)
    else finish_attach q.self (attach_by_type k (q.source s).type (skip_foreach q s) s) s

abbrev pub is_queue : ℕ → Option ℕ → Bool
is_queue q none = false
is_queue q (some p) = p == q

pub queue_detach : Kernel → Queue → ℕ → Bool → Queue × Bool
unfolding do_detach_from_queue
queue_detach k q s to_close =
    if not (is_queue q.self (q.source s).q_in_use)
    then (q, false)
    else if (q.source s).no_detach
    then (q, false)
    else (do_detach_from_queue k q s to_close, true)
