-- ===== src/Evdp/Queue/Destroy/Called.antt =====
-- The callbacks of the sources that neb_evdp_queue_destroy of src/evdp/core.c detaches.
use nebase.Base.{
  ℕ, suc, ◌≡◌, refl, arith, Bool, true, false, List, [], ◌∷◌, length, if◌then◌else◌, ◌∙◌, ap,
}
use nebase.Evdp.Ids.{mem, erase_absent}
use nebase.Evdp.Source.{
  Source, SourceType, source_none, itimer_sec, itimer_msec, abstimer, ro_fd, os_fd, other,
}
use nebase.Evdp.Queue.{
  Queue, Kernel, rm_pending_events, do_del_os_fd, del_os_fd_by, detach_by_type, unlink,
  do_detach_from_queue,
}
use nebase.Evdp.Queue.Detach.{do_detach_lists, do_detach_owner}
use nebase.Evdp.Queue.Destroy.{drain_pending, drain_running, called}

-- The callbacks are set as before, and those called are the same.
record SameCalls (q r : Queue) : Type 0 where
  removed : r.removed ≡ q.removed
  on_remove : (t : ℕ) → (r.source t).on_remove ≡ (q.source t).on_remove

by_type-SameCalls :
    (k : Kernel) (type : SourceType) (q : Queue) (s : ℕ) (c : Bool)
    → SameCalls q (detach_by_type k type q s c)
unfolding detach_by_type do_del_os_fd del_os_fd_by
by_type-SameCalls k source_none q s c = record { removed = refl; on_remove = λ t. refl }
by_type-SameCalls k itimer_sec q s c = record { removed = refl; on_remove = λ t. ground arith }
by_type-SameCalls k itimer_msec q s c = record { removed = refl; on_remove = λ t. ground arith }
by_type-SameCalls k abstimer q s c = record { removed = refl; on_remove = λ t. ground arith }
by_type-SameCalls k ro_fd q s c = record { removed = refl; on_remove = λ t. ground arith }
by_type-SameCalls k os_fd q s c = record { removed = ground arith; on_remove = λ t. ground arith }
by_type-SameCalls k other q s c = record { removed = refl; on_remove = λ t. refl }

-- A detached source's on_remove is called, where it is set.
detach_calls :
    (k : Kernel) (q : Queue) (s : ℕ)
    → let r = do_detach_from_queue k q s false in
      (r.removed ≡ (if (q.source s).on_remove then s ∷ q.removed else q.removed))
      × ((t : ℕ) → (r.source t).on_remove ≡ (q.source t).on_remove)
unfolding do_detach_from_queue unlink rm_pending_events
detach_calls k q s =
    let e = by_type-SameCalls k (q.source s).type (rm_pending_events q s) s false in
    (ground (arith, e.removed, e.on_remove s), λ t. ground (arith, e.on_remove t, e.on_remove s))

pub drain_pending_more :
    (k : Kernel) (rounds : ℕ) (q : Queue) (s : ℕ) (rest : List ℕ)
    → q.pending ≡ s ∷ rest
    → drain_pending k (suc rounds) q ≡ drain_pending k rounds (do_detach_from_queue k q s false)
unfolding drain_pending
drain_pending_more k rounds q s rest e = ground arith

pub drain_running_more :
    (k : Kernel) (rounds : ℕ) (q : Queue) (s : ℕ) (rest : List ℕ)
    → q.running ≡ s ∷ rest
    → drain_running k (suc rounds) q ≡ drain_running k rounds (do_detach_from_queue k q s false)
unfolding drain_running
drain_running_more k rounds q s rest e = ground arith

pub called_same :
    (f g : ℕ → Source) (xs before : List ℕ)
    → ((t : ℕ) → (f t).on_remove ≡ (g t).on_remove)
    → called f xs before ≡ called g xs before
unfolding called
called_same f g [] before same = refl
called_same f g (s ∷ rest) before same =
    called_same f g rest (if (f s).on_remove then s ∷ before else before) same
    ∙ ap (λ b. called g rest (if b then s ∷ before else before)) (same s)

pub drain_pending_calls :
    (k : Kernel) (xs : List ℕ) (q : Queue)
    → q.pending ≡ xs
    → ((t : ℕ) → mem t xs ≡ true → mem t q.running ≡ false)
    → let r = drain_pending k (length xs) q in
      (r.removed ≡ called q.source xs q.removed)
      × (r.running ≡ q.running)
      × ((t : ℕ) → (r.source t).on_remove ≡ (q.source t).on_remove)
unfolding called drain_pending
drain_pending_calls k [] q at apart = (refl, refl, λ t. refl)
drain_pending_calls k (s ∷ rest) q at apart =
    let p = do_detach_from_queue k q s false in
    let lists = do_detach_lists k q s false in
    let (pend, _) = do_detach_owner k q s false s in
    let (calls, same) = detach_calls k q s in
    let at2 : p.pending ≡ rest = ground (arith, pend) in
    let runs : p.running ≡ q.running =
      lists.0 ∙ erase_absent s q.running (apart s (ground arith)) in
    let (removed, running, on_remove) =
      drain_pending_calls k rest p at2 (λ t h. rw runs (apart t (ground (arith, h)))) in
    rw (drain_pending_more k (length rest) q s rest at) (
      removed
          ∙ called_same p.source q.source rest p.removed same
          ∙ ap (λ b. called q.source rest b) calls,
      running ∙ runs,
      λ t. on_remove t ∙ same t,
    )

pub drain_running_calls :
    (k : Kernel) (xs : List ℕ) (q : Queue)
    → q.running ≡ xs
    → (drain_running k (length xs) q).removed ≡ called q.source xs q.removed
unfolding called drain_running
drain_running_calls k [] q at = refl
drain_running_calls k (s ∷ rest) q at =
    let p = do_detach_from_queue k q s false in
    let lists = do_detach_lists k q s false in
    let (calls, same) = detach_calls k q s in
    let at2 : p.running ≡ rest = ground (arith, lists) in
    rw (drain_running_more k (length rest) q s rest at) (
      drain_running_calls k rest p at2
      ∙ called_same p.source q.source rest p.removed same
      ∙ ap (λ b. called q.source rest b) calls)
