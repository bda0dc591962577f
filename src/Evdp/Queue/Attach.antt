-- ===== src/Evdp/Queue/Attach.antt =====
-- Attaching a source: neb_evdp_queue_attach of src/evdp/core.c.
use nebase.Base.{
  ℕ, ◌≡◌, refl, arith, Bool, true, false, ◌||◌, inl, inr, none, some, not, ◌&&◌, Bool-cases,
}
use nebase.Evdp.Ids.{mem}
use nebase.Evdp.Source.{
  SourceType, source_none, itimer_sec, itimer_msec, abstimer, ro_fd, os_fd, other, Context,
}
use nebase.Evdp.Queue.{
  Queue, Kernel, set_context, pending_insert, running_insert, timer_attach, ro_fd_attach,
  os_fd_attach, attach_by_type, queue_attach, adopt, finish_attach, skip_foreach,
}
use nebase.Evdp.Queue.Invariant.{IsQueue, SameLists, SameLists-IsQueue, set_context-SameLists}

module _ (q : Queue) (s : ℕ) (w : IsQueue q) (free : (q.source s).q_in_use ≡ none) where
  pending_insert-IsQueue : IsQueue (adopt (pending_insert q s) s q.self)
  pending_insert-IsQueue = record {
    running_distinct = w.running_distinct;
    pending_distinct = ground (arith, w.pending_distinct, w.pending_flag s);
    running_flag = λ t m. ground (arith, w.running_flag t);
    pending_flag = λ t m. ground (arith, w.pending_flag t);
    listed = λ t m. ground (arith, w.listed t);
    pending_count = ground (arith, w.pending_count);
    running_count = w.running_count;
    cursor = λ f m. ground (arith, w.cursor f);
    started = w.started;
  }

  running_insert-IsQueue : IsQueue (adopt (running_insert q s) s q.self)
  running_insert-IsQueue = record {
    running_distinct = ground (arith, w.running_distinct, w.running_flag s);
    pending_distinct = w.pending_distinct;
    running_flag = λ t m. ground (arith, w.running_flag t);
    pending_flag = λ t m. ground (arith, w.pending_flag t);
    listed = λ t m. ground (arith, w.listed t);
    pending_count = w.pending_count;
    running_count = ground (arith, w.running_count);
    cursor = λ f m. ground (arith, w.cursor f);
    started = w.started;
  }

-- What a driver's attach makes of a free source: it is in a list and marked, or the attach
-- failed and the lists and marks are as before.
pub record IsAttached (q r : Queue) (s : ℕ) (done : Bool) : Type 0 where
  pub well_formed : IsQueue r
  pub listed_now : done ≡ true → (mem s r.running || mem s r.pending) ≡ true
  pub adopted_now : done ≡ true → (r.source s).q_in_use ≡ some q.self
  pub skipped : done ≡ true → (r.source s).foreach_id ≡ (q.source s).foreach_id
  pub as_before :
      done ≡ false
      → (r.running ≡ q.running) × (r.pending ≡ q.pending) × ((r.source s).q_in_use ≡ none)

module _ (q : Queue) (s : ℕ) (w : IsQueue q) (free : (q.source s).q_in_use ≡ none) where
  refused : IsAttached q q s false
  refused = record {
    well_formed = w;
    listed_now = λ h. cc;
    adopted_now = λ h. cc;
    skipped = λ h. cc;
    as_before = λ h. (refl, refl, free);
  }

  marked :
      (c : Context) → IsQueue (set_context q s c) × (((set_context q s c).source s).q_in_use ≡ none)
  marked c = (SameLists-IsQueue (set_context-SameLists q s c) w, ground arith)

  put_pending :
      (c : Context) → IsAttached q (adopt (pending_insert (set_context q s c) s) s q.self) s true
  put_pending c = record {
    well_formed = pending_insert-IsQueue (set_context q s c) s (marked c).0 (marked c).1;
    listed_now = λ h. ground arith;
    adopted_now = λ h. ground arith;
    skipped = λ h. ground arith;
    as_before = λ h. cc;
  }

  put_running :
      (c : Context) → IsAttached q (adopt (running_insert (set_context q s c) s) s q.self) s true
  put_running c = record {
    well_formed = running_insert-IsQueue (set_context q s c) s (marked c).0 (marked c).1;
    listed_now = λ h. ground arith;
    adopted_now = λ h. ground arith;
    skipped = λ h. ground arith;
    as_before = λ h. cc;
  }

  timer_attach_lem :
      (k : Kernel) → let r = finish_attach q.self (timer_attach k q s) s in IsAttached q r.0 s r.1
  unfolding timer_attach
  timer_attach_lem k = elim (Bool-cases (not (q.source s).context.in_action && not (k.settime s))) [
    | inl e ↦ rw e refused
    | inr e ↦ rw e (put_pending _)
  ]

  os_fd_attach_lem : let r = finish_attach q.self (os_fd_attach q s) s in IsAttached q r.0 s r.1
  unfolding os_fd_attach
  os_fd_attach_lem =
      elim (Bool-cases ((q.source s).context.epollin || (q.source s).context.epollout)) [
        | inl e ↦ rw e (put_pending _)
        | inr e ↦ rw e (put_running _)
      ]

  attach_by_type_lem :
      (k : Kernel) (t : SourceType)
      → let r = finish_attach q.self (attach_by_type k t q s) s in IsAttached q r.0 s r.1
  unfolding attach_by_type ro_fd_attach
  attach_by_type_lem k source_none = refused
  attach_by_type_lem k itimer_sec = timer_attach_lem k
  attach_by_type_lem k itimer_msec = timer_attach_lem k
  attach_by_type_lem k abstimer = timer_attach_lem k
  attach_by_type_lem k ro_fd = put_pending _
  attach_by_type_lem k os_fd = os_fd_attach_lem
  attach_by_type_lem k other = refused

pub queue_attach_open :
    (k : Kernel) (q : Queue) (s : ℕ)
    → (q.source s).q_in_use ≡ none
    → q.destroying ≡ false
    → queue_attach k q s
      ≡ finish_attach q.self (attach_by_type k (q.source s).type (skip_foreach q s) s) s
unfolding queue_attach
queue_attach_open k q s free alive = ground arith

-- Attaching a source that no queue holds to a well-formed queue keeps the queue well-formed.
-- Where it succeeds the source is in one of the lists, marked as the queue's, and skips an
-- ongoing foreach; where it fails the lists are as they were and the source is still free.
pub queue_attach_lem :
    (k : Kernel) (q : Queue) (s : ℕ)
    → IsQueue q
    → (q.source s).q_in_use ≡ none
    → q.destroying ≡ false
    → IsAttached (skip_foreach q s) (queue_attach k q s).0 s (queue_attach k q s).1
queue_attach_lem k q s w free alive =
    let same : SameLists q (skip_foreach q s) = record {
      self = refl;
      running = refl;
      pending = refl;
      foreach_s = refl;
      in_foreach = refl;
      stat_pending = refl;
      stat_running = refl;
      flags = λ t. ground arith;
    } in
    rw (queue_attach_open k q s free alive) (
      attach_by_type_lem (skip_foreach q s) s (SameLists-IsQueue same w) (ground arith) k
        (q.source s).type)
