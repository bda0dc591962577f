-- ===== src/Evdp/Queue/Detach.antt =====
-- Detaching a source: do_detach_from_queue and neb_evdp_queue_detach of src/evdp/core.c.
use nebase.Base.{
  ℕ, suc, ◌≡◌, refl, arith, Bool, true, false, ◌||◌, List, [], ◌∷◌, none, some, ◌==◌, if◌then◌else◌,
  ◌&&◌, ◌∙◌, not, ◌≢◌, zero,
}
use nebase.Evdp.Ids.{mem, erase, mem-erase}
use nebase.Evdp.Source.{
  SourceType, source_none, itimer_sec, itimer_msec, abstimer, ro_fd, os_fd, other,
}
use nebase.Evdp.Queue.{
  Queue, Kernel, Event, forget, rm_pending_events, do_del_os_fd, del_os_fd_by, detach_by_type,
  unlink, do_detach_from_queue, queue_detach, is_queue,
}
use nebase.Evdp.Queue.Invariant.{IsQueue, SameLists, SameLists-IsQueue, SameLists-trans}
use nebase.Evdp.Queue.Unlink.{unlink-IsQueue, detach_by_type-SameLists, rm_pending_events-SameLists}

-- No event from `i` on is for `s`.
abbrev pub Forgotten : ℕ → ℕ → List Event → Type 0
Forgotten s i [] = Unit
Forgotten s zero (e ∷ es) = (e.ptr ≢ some s) × Forgotten s zero es
Forgotten s (suc i) (e ∷ es) = Forgotten s i es

forget-Forgotten : (s i : ℕ) (es : List Event) → Forgotten s i (forget s i es)
unfolding forget
forget-Forgotten s i [] = tt
forget-Forgotten s zero (e ∷ es) = (λ h. ground arith, forget-Forgotten s zero es)
forget-Forgotten s (suc i) (e ∷ es) = forget-Forgotten s i es

-- do_detach_from_queue on a source that is in one of the lists.
module _ (k : Kernel) (q : Queue) (s : ℕ) (c : Bool) (w : IsQueue q) where
  before_unlink : Queue
  before_unlink = detach_by_type k (q.source s).type (rm_pending_events q s) s c

  before_unlink-SameLists : SameLists q before_unlink
  unfolding before_unlink
  before_unlink-SameLists =
      SameLists-trans (rm_pending_events-SameLists q s) (detach_by_type-SameLists k _ _ s c)

  pub do_detach-IsQueue :
      (mem s q.running || mem s q.pending) ≡ true
      → q.foreach_s ≢ some s
      → IsQueue (do_detach_from_queue k q s c)
  unfolding do_detach_from_queue before_unlink
  do_detach-IsQueue m ne =
      let e = before_unlink-SameLists in
      unlink-IsQueue before_unlink s (SameLists-IsQueue e w) (λ h. ne (ground arith))
        (rw (e.running, e.pending) m)

pub do_detach_lists :
    (k : Kernel) (q : Queue) (s : ℕ) (c : Bool)
    → let r = do_detach_from_queue k q s c in
      (r.running ≡ erase s q.running) × (r.foreach_s ≡ q.foreach_s) × (r.in_foreach ≡ q.in_foreach)
unfolding do_detach_from_queue unlink
do_detach_lists k q s c =
    let p = rm_pending_events q s in
    let e =
      SameLists-trans (rm_pending_events-SameLists q s)
        (detach_by_type-SameLists k (q.source s).type p s c) in
    ground (arith, e.running, e.foreach_s, e.in_foreach)

pub do_detach_owner :
    (k : Kernel) (q : Queue) (s : ℕ) (c : Bool) (t : ℕ)
    → let r = do_detach_from_queue k q s c in
      (r.pending ≡ erase s q.pending)
      × ((r.source t).q_in_use ≡ (if t == s then none else (q.source t).q_in_use))
unfolding do_detach_from_queue unlink
do_detach_owner k q s c t =
    let p = rm_pending_events q s in
    let e =
      SameLists-trans (rm_pending_events-SameLists q s)
        (detach_by_type-SameLists k (q.source s).type p s c) in
    ground (arith, e.pending, e.flags t)

-- Detaching a pending source leaves the count of running ones and the other flags alone.
pub do_detach_flags :
    (k : Kernel) (q : Queue) (s : ℕ) (c : Bool)
    → (q.source s).pending ≡ true
    → let r = do_detach_from_queue k q s c in
      (r.stat_running ≡ q.stat_running)
      × ((t : ℕ) → (t == s) ≡ false → (r.source t).pending ≡ (q.source t).pending)
unfolding do_detach_from_queue unlink
do_detach_flags k q s c waits =
    let p = rm_pending_events q s in
    let e =
      SameLists-trans (rm_pending_events-SameLists q s)
        (detach_by_type-SameLists k (q.source s).type p s c) in
    (ground (arith, e.stat_running, e.flags s), λ t h. ground (arith, e.flags t, e.flags s))

unlink_forgets :
    (p : Queue) (s : ℕ)
    → ((unlink p s).events ≡ p.events) × ((unlink p s).current_event ≡ p.current_event)
unfolding unlink
unlink_forgets p s = ground arith

detach_by_type_events :
    (k : Kernel) (t : SourceType) (q : Queue) (s : ℕ) (c : Bool)
    → ((detach_by_type k t q s c).events ≡ q.events)
      × ((detach_by_type k t q s c).current_event ≡ q.current_event)
unfolding detach_by_type do_del_os_fd del_os_fd_by
detach_by_type_events k source_none q s c = (refl, refl)
detach_by_type_events k itimer_sec q s c = (refl, refl)
detach_by_type_events k itimer_msec q s c = (refl, refl)
detach_by_type_events k abstimer q s c = (refl, refl)
detach_by_type_events k ro_fd q s c = (refl, refl)
detach_by_type_events k os_fd q s c = ground arith
detach_by_type_events k other q s c = (refl, refl)

-- What a detached source leaves behind: it is in no list and no queue, no later event of the
-- round is for it, and the other sources stay where they were.
pub record IsDetached (q r : Queue) (s : ℕ) : Type 0 where
  pub well_formed : IsQueue r
  pub free : (r.source s).q_in_use ≡ none
  pub not_running : mem s r.running ≡ false
  pub not_pending : mem s r.pending ≡ false
  pub forgotten : Forgotten s r.current_event r.events
  pub others :
      (t : ℕ)
      → (t == s) ≡ false
      → (mem t r.running ≡ mem t q.running)
        × (mem t r.pending ≡ mem t q.pending)
        × ((r.source t).q_in_use ≡ (q.source t).q_in_use)

module _ (k : Kernel) (q : Queue) (s : ℕ) (c : Bool) (w : IsQueue q) where
  abbrev detached : Queue
  detached = do_detach_from_queue k q s c

  do_detach-others :
      (t : ℕ)
      → (mem t detached.running ≡ (mem t q.running && not (t == s)))
        × (mem t detached.pending ≡ (mem t q.pending && not (t == s)))
        × ((detached.source t).q_in_use ≡ (if t == s then none else (q.source t).q_in_use))
  unfolding do_detach_from_queue unlink before_unlink
  do_detach-others t =
      let e = before_unlink-SameLists k q s c w in
      ground (
        arith,
        e.flags t,
        mem-erase s t q.running w.running_distinct,
        mem-erase s t q.pending w.pending_distinct,
      )

  pub do_detach_events :
      (detached.events ≡ forget s q.current_event q.events)
      × (detached.current_event ≡ q.current_event)
  unfolding do_detach_from_queue rm_pending_events
  do_detach_events =
      let p = rm_pending_events q s in
      let u = unlink_forgets (detach_by_type k (q.source s).type p s c) s in
      let d = detach_by_type_events k (q.source s).type p s c in (u.0 ∙ d.0, u.1 ∙ d.1)

  pub do_detach-IsDetached :
      (mem s q.running || mem s q.pending) ≡ true → q.foreach_s ≢ some s → IsDetached q detached s
  do_detach-IsDetached m ne = record {
    well_formed = do_detach-IsQueue k q s c w m ne;
    free = ground (arith, do_detach-others s);
    not_running = ground (arith, do_detach-others s);
    not_pending = ground (arith, do_detach-others s);
    forgotten =
        rw (do_detach_events.0, do_detach_events.1) (forget-Forgotten s q.current_event q.events);
    others = λ t h. ground (arith, do_detach-others t);
  }

-- The same without a step of the driver, whose own state another driver keeps elsewhere.
pub unlink-IsDetached :
    (q : Queue) (s : ℕ)
    → IsQueue q
    → (mem s q.running || mem s q.pending) ≡ true
    → q.foreach_s ≢ some s
    → IsDetached q (unlink (rm_pending_events q s) s) s
unfolding unlink
unlink-IsDetached q s w m ne =
    let p = rm_pending_events q s in
    let e = rm_pending_events-SameLists q s in
    let others : (t : ℕ)
        → (mem t (unlink p s).running ≡ (mem t q.running && not (t == s)))
          × (mem t (unlink p s).pending ≡ (mem t q.pending && not (t == s)))
          × (((unlink p s).source t).q_in_use ≡ (if t == s then none else (q.source t).q_in_use)) =
      λ t. ground (
        arith,
        e.flags t,
        e.running,
        e.pending,
        mem-erase s t q.running w.running_distinct,
        mem-erase s t q.pending w.pending_distinct,
      ) in
    let forgets = unlink_forgets p s in
    record {
      well_formed =
          unlink-IsQueue p s (SameLists-IsQueue e w) (λ h. ne (ground arith))
            (rw (e.running, e.pending) m);
      free = ground (arith, others s);
      not_running = ground (arith, others s);
      not_pending = ground (arith, others s);
      forgotten =
          rw (forgets.0, forgets.1)
            (unfold rm_pending_events in forget-Forgotten s q.current_event q.events);
      others = λ t h. ground (arith, others t);
    }

-- A source that the queue holds, that no callback protects and that is no foreach sentinel is
-- detached, whatever its type and the kernel's answers.
pub queue_detach_lem :
    (k : Kernel) (q : Queue) (s : ℕ) (c : Bool)
    → IsQueue q
    → (q.source s).q_in_use ≡ some q.self
    → (q.source s).no_detach ≡ false
    → q.foreach_s ≢ some s
    → ((queue_detach k q s c).1 ≡ true) × IsDetached q (queue_detach k q s c).0 s
unfolding queue_detach
queue_detach_lem k q s c w held open_ ne =
    let ours : is_queue q.self (q.source s).q_in_use ≡ true = ground arith in
    let done = do_detach-IsDetached k q s c w (ground (arith, w.listed s)) ne in
    rw (ours, open_) (refl, done)
