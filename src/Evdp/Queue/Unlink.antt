-- ===== src/Evdp/Queue/Unlink.antt =====
-- The unlinking of a source and what comes before it, in do_detach_from_queue of src/evdp/core.c.
use nebase.Base.{
  ℕ, suc, ◌+◌, ◌≡◌, refl, arith, Bool, true, false, ◌||◌, ◌⊎◌, inl, inr, some, if◌then◌else◌,
  length, Bool-cases, ◌≢◌,
}
use nebase.Evdp.Ids.{mem, IsDistinct, erase_absent, mem-erase, erase-IsDistinct, length-erase}
use nebase.Evdp.Source.{
  SourceType, source_none, itimer_sec, itimer_msec, abstimer, ro_fd, os_fd, other,
}
use nebase.Evdp.Queue.{
  Queue, Kernel, CtlResult, success, enoent, failure, rm_pending_events, do_del_os_fd, del_os_fd_by,
  detach_by_type, unlink,
}
use nebase.Evdp.Queue.Invariant.{IsQueue, SameLists, set_context-SameLists, SameLists-refl}

module _ (q : Queue) (s : ℕ) (w : IsQueue q) (ne : q.foreach_s ≢ some s) where
  unlink_lists :
      IsDistinct (unlink q s).running
      × IsDistinct (unlink q s).pending
      × ((unlink q s).self ≡ q.self)
      × ((unlink q s).foreach_s ≡ q.foreach_s)
      × ((unlink q s).in_foreach ≡ q.in_foreach)
  unfolding unlink
  unlink_lists = (
    ground (arith, erase-IsDistinct s q.running w.running_distinct),
    ground (arith, erase-IsDistinct s q.pending w.pending_distinct),
    ground arith,
    ground arith,
    ground arith,
  )

  unlink-running_flag :
      (t : ℕ)
      → mem t (unlink q s).running ≡ true
      → (((unlink q s).source t).pending ≡ false) × (((unlink q s).source t).q_in_use ≡ some q.self)
  unfolding unlink
  unlink-running_flag t m =
      ground (arith, w.running_flag t, mem-erase s t q.running w.running_distinct)

  unlink-pending_flag :
      (t : ℕ)
      → mem t (unlink q s).pending ≡ true
      → (((unlink q s).source t).pending ≡ true) × (((unlink q s).source t).q_in_use ≡ some q.self)
  unfolding unlink
  unlink-pending_flag t m =
      ground (arith, w.pending_flag t, mem-erase s t q.pending w.pending_distinct)

  unlink-listed :
      (t : ℕ)
      → ((unlink q s).source t).q_in_use ≡ some q.self
      → ((mem t (unlink q s).running || mem t (unlink q s).pending) ≡ true)
        ⊎ ((unlink q s).foreach_s ≡ some t)
  unfolding unlink
  unlink-listed t m = ground (
    arith,
    w.listed t,
    mem-erase s t q.running w.running_distinct,
    mem-erase s t q.pending w.pending_distinct,
  )

  unlink-counts :
      (mem s q.running || mem s q.pending) ≡ true
      → ((unlink q s).stat_pending ≡ suc (length (unlink q s).pending))
        × ((unlink q s).stat_running + (if q.in_foreach then 1 else 0)
            ≡ suc (length (unlink q s).running))
  unfolding unlink
  unlink-counts m = ground (
    arith,
    w.pending_count,
    w.running_count,
    w.running_flag s,
    w.pending_flag s,
    length-erase s q.running,
    length-erase s q.pending,
    erase_absent s q.running,
    erase_absent s q.pending,
  )

  unlink-cursor :
      (f : ℕ)
      → q.foreach_s ≡ some f
      → (mem f (unlink q s).running ≡ q.in_foreach)
        × (mem f (unlink q s).pending ≡ false)
        × (((unlink q s).source f).q_in_use ≡ some q.self)
  unfolding unlink
  unlink-cursor f e = ground (
    arith,
    w.cursor f,
    mem-erase s f q.running w.running_distinct,
    mem-erase s f q.pending w.pending_distinct,
  )

  pub unlink-IsQueue : (mem s q.running || mem s q.pending) ≡ true → IsQueue (unlink q s)
  unlink-IsQueue m =
      let same = unlink_lists in
      record {
        running_distinct = same.0;
        pending_distinct = same.1;
        running_flag = λ t h. rw same.2 (unlink-running_flag t h);
        pending_flag = λ t h. rw same.2 (unlink-pending_flag t h);
        listed = λ t h. unlink-listed t (rw same.2 at h);
        pending_count = (unlink-counts m).0;
        running_count = rw same.4 (unlink-counts m).1;
        cursor = λ f h. rw (same.2, same.4) (unlink-cursor f (rw same.3 at h));
        started = rw (same.4, same.3) w.started;
      }

del_os_fd_by-SameLists : (r : CtlResult) (q : Queue) (s : ℕ) → SameLists q (del_os_fd_by r q s).0
unfolding del_os_fd_by
del_os_fd_by-SameLists success q s = set_context-SameLists q s _
del_os_fd_by-SameLists enoent q s = set_context-SameLists q s _
del_os_fd_by-SameLists failure q s = SameLists-refl q

pub detach_by_type-SameLists :
    (k : Kernel) (t : SourceType) (q : Queue) (s : ℕ) (c : Bool)
    → SameLists q (detach_by_type k t q s c)
unfolding detach_by_type
detach_by_type-SameLists k source_none q s c = SameLists-refl q
detach_by_type-SameLists k itimer_sec q s c = set_context-SameLists q s _
detach_by_type-SameLists k itimer_msec q s c = set_context-SameLists q s _
detach_by_type-SameLists k abstimer q s c = set_context-SameLists q s _
detach_by_type-SameLists k ro_fd q s c = set_context-SameLists q s _
detach_by_type-SameLists k os_fd q s true = set_context-SameLists q s _
detach_by_type-SameLists k os_fd q s false = elim (Bool-cases (q.source s).context.added) [
  | inl e ↦ rw e (unfold do_del_os_fd in del_os_fd_by-SameLists (k.ctl s) q s)
  | inr e ↦ rw e (SameLists-refl q)
]
detach_by_type-SameLists k other q s c = SameLists-refl q

pub rm_pending_events-SameLists : (q : Queue) (s : ℕ) → SameLists q (rm_pending_events q s)
unfolding rm_pending_events
rm_pending_events-SameLists q s = record {
  self = refl;
  running = refl;
  pending = refl;
  foreach_s = refl;
  in_foreach = refl;
  stat_pending = refl;
  stat_running = refl;
  flags = λ t. (refl, refl);
}
