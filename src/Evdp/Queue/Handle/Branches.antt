-- ===== src/Evdp/Queue/Handle/Branches.antt =====
-- What handle_event of src/evdp/core.c and its loop make of a well-formed queue.
use nebase.Base.{
  Option-cases, some, ℕ, ◌≡◌, refl, true, false, ◌||◌, ◌&&◌, ◌⊎◌, inl, inr, Bool-cases,
}
use nebase.Evdp.Source.{
  SourceType, source_none, itimer_sec, itimer_msec, abstimer, ro_fd, os_fd, other, CbRet, continue,
  remove, close, break_exp, break_err, end_foreach, invalid, ctl_mod,
}
use nebase.Evdp.Queue.{Queue, Event, set_context}
use nebase.Evdp.Queue.Foreach.{EachCall}
use nebase.Evdp.Queue.Handle.{
  Callbacks, is_continue, timer_handle, abstimer_handle, ro_fd_hup, ro_fd_handle, guarded,
  set_in_callback, os_fd_read, os_fd_write, os_fd_rearm, os_fd_after_read, os_fd_handle,
  handle_by_type,
}
use nebase.Evdp.Queue.Handle.Ready.{IsReady, IsHandled, set_context-IsReady, rearmed-IsHandled}

-- A callback that leaves the queue well-formed, and its source and the sources of the events
-- still to be handled in the running list: it may attach sources, detach others, and ask for
-- events.
abbrev pub IsCareful : EachCall → Type 0
IsCareful call = (q : Queue) (i n s : ℕ) → IsReady q i n s → IsReady (call q s).0 i n s

pub record AreCareful (cs : Callbacks) : Type 0 where
  pub do_wakeup : IsCareful cs.do_wakeup
  pub past_conf : (s : ℕ) (call : EachCall) → cs.past_conf s ≡ some call → IsCareful call
  pub do_read : IsCareful cs.do_read
  pub do_hup : IsCareful cs.do_hup
  pub do_write : IsCareful cs.do_write

-- The source still runs, or it waits again and the handler goes on.
abbrev pub Leaves : ℕ → ℕ → ℕ → Queue × CbRet → Type 0
Leaves i n s (q, ret) = IsReady q i n s ⊎ (IsHandled q i n × (ret ≡ continue))

is_continue_eq : (ret : CbRet) → is_continue ret ≡ true → ret ≡ continue
is_continue_eq continue h = refl
is_continue_eq remove h = cc
is_continue_eq close h = cc
is_continue_eq break_exp h = cc
is_continue_eq break_err h = cc
is_continue_eq end_foreach h = cc
is_continue_eq invalid h = cc

module _ (cs : Callbacks) (careful : AreCareful cs) (e : Event) where
  timer-IsCareful : IsCareful (timer_handle cs)
  unfolding timer_handle
  timer-IsCareful q i n s w = elim (Bool-cases (cs.timer_read s)) [
    | inl ok ↦ elim (Bool-cases (q.source s).wakes) [
      | inl on ↦ rw (ok, on) (careful.do_wakeup q i n s w)
      | inr off ↦ rw (ok, off) w
    ]
    | inr bad ↦ rw bad w
  ]

  abstimer-IsCareful : IsCareful (abstimer_handle cs)
  unfolding abstimer_handle
  abstimer-IsCareful q i n s w = elim (Bool-cases (cs.timer_read s)) [
    | inl ok ↦ elim (Option-cases (cs.past_conf s)) [
      | inl unset ↦ rw (ok, unset) w
      | inr (call, set) ↦ rw (ok, set) (careful.past_conf s call set q i n s w)
    ]
    | inr bad ↦ rw bad w
  ]

  ro_fd_hup-IsReady :
      (q : Queue) (i n s : ℕ) (ret : CbRet)
      → IsReady q i n s
      → IsReady (ro_fd_hup cs e s (q, ret)).0 i n s
  unfolding ro_fd_hup
  ro_fd_hup-IsReady q i n s ret w = elim (Bool-cases (is_continue ret)) [
    | inl goes ↦ elim (Bool-cases e.epollhup) [
      | inl hup ↦ rw (goes, hup) (careful.do_hup q i n s w)
      | inr no_hup ↦ rw (goes, no_hup) w
    ]
    | inr stops ↦ rw stops w
  ]

  ro_fd-IsCareful : IsCareful (ro_fd_handle cs e)
  unfolding ro_fd_handle
  ro_fd-IsCareful q i n s w = elim (Bool-cases e.epollin) [
    | inl on ↦
        let r = cs.do_read q s in
        rw on (ro_fd_hup-IsReady r.0 i n s r.1 (careful.do_read q i n s w))
    | inr off ↦ rw off (ro_fd_hup-IsReady q i n s continue w)
  ]

  guarded-IsCareful : (call : EachCall) → IsCareful call → IsCareful (guarded call)
  unfolding guarded
  guarded-IsCareful call h q i n s w =
      let p = set_in_callback q s true in
      let w1 = h p i n s (set_context-IsReady q i n s _ w) in
      set_context-IsReady (call p s).0 i n s _ w1

  os_fd_read-IsCareful : IsCareful (os_fd_read cs e)
  unfolding os_fd_read
  os_fd_read-IsCareful q i n s w = elim (Bool-cases (e.epollin && (q.source s).reads)) [
    | inl on ↦
        rw on
          (guarded-IsCareful cs.do_read careful.do_read _ i n s (set_context-IsReady q i n s _ w))
    | inr off ↦ rw off w
  ]

  os_fd_write-IsCareful : IsCareful (os_fd_write cs e)
  unfolding os_fd_write
  os_fd_write-IsCareful q i n s w = elim (Bool-cases (e.epollout && (q.source s).writes)) [
    | inl on ↦
        rw on
          (guarded-IsCareful cs.do_write careful.do_write _ i n s (set_context-IsReady q i n s _ w))
    | inr off ↦ rw off w
  ]

  rearm-Leaves :
      (q : Queue) (i n s : ℕ) (ret : CbRet)
      → IsReady q i n s
      → Leaves i n s (os_fd_rearm s (q, ret))
  unfolding os_fd_rearm
  rearm-Leaves q i n s ret w = elim (Bool-cases (is_continue ret)) [
    | inl goes ↦
        let c = (q.source s).context in
        elim (Bool-cases (c.epollin || c.epollout)) [
          | inl waits ↦
              rw (goes, waits) (inr (rearmed-IsHandled q i n s w, is_continue_eq ret goes))
          | inr idle ↦ rw (goes, idle) (inl w)
        ]
    | inr stops ↦ rw stops (inl w)
  ]

  after_read-Leaves :
      (q : Queue) (i n s : ℕ) (ret : CbRet)
      → IsReady q i n s
      → Leaves i n s (os_fd_after_read cs e s (q, ret))
  unfolding os_fd_after_read
  after_read-Leaves q i n s ret w = elim (Bool-cases (is_continue ret)) [
    | inl goes ↦ elim (Bool-cases e.epollhup) [
      | inl hup ↦ rw (goes, hup) (inl (guarded-IsCareful cs.do_hup careful.do_hup q i n s w))
      | inr no_hup ↦
          let r = os_fd_write cs e q s in
          rw (goes, no_hup) (rearm-Leaves r.0 i n s r.1 (os_fd_write-IsCareful q i n s w))
    ]
    | inr stops ↦ rw stops (inl w)
  ]

  os_fd-Leaves : (q : Queue) (i n s : ℕ) → IsReady q i n s → Leaves i n s (os_fd_handle cs e q s)
  unfolding os_fd_handle
  os_fd-Leaves q i n s w =
      let p = set_context q s (record (q.source s).context { added = false; ctl_op = ctl_mod }) in
      let r = os_fd_read cs e p s in
      after_read-Leaves r.0 i n s r.1
        (os_fd_read-IsCareful p i n s (set_context-IsReady q i n s _ w))

  pub by_type-Leaves :
      (t : SourceType) (q : Queue) (i n s : ℕ)
      → IsReady q i n s
      → Leaves i n s (handle_by_type cs e t q s)
  unfolding handle_by_type
  by_type-Leaves source_none q i n s w = inl w
  by_type-Leaves itimer_sec q i n s w = inl (timer-IsCareful q i n s w)
  by_type-Leaves itimer_msec q i n s w = inl (timer-IsCareful q i n s w)
  by_type-Leaves abstimer q i n s w = inl (abstimer-IsCareful q i n s w)
  by_type-Leaves ro_fd q i n s w = inl (ro_fd-IsCareful q i n s w)
  by_type-Leaves os_fd q i n s w = os_fd-Leaves q i n s w
  by_type-Leaves other q i n s w = inl w
