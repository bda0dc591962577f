-- ===== src/Evdp/Queue/Flush/Tests.antt =====
-- Queues with pending sources, and the theorems on evdp_queue_flush_pending_sources there.
use nebase.Base.{ℕ, ◌==◌, ◌≡◌, refl, arith, true, false, [], ◌∷◌, some, inl, if◌then◌else◌}
use nebase.Evdp.Source.{os_fd, ro_fd, Source, new_source, update}
use nebase.Evdp.Queue.{Queue, Kernel, success, failure, queue_create}
use nebase.Evdp.Queue.Invariant.{IsQueue}
use nebase.Evdp.Queue.Flush.{flush_pending_sources, onto, flush_pending_sources_lem}

abbrev kernel : Kernel
kernel = record { settime = λ s. true; ctl = λ s. if s == 5 then failure else success }

abbrev waiting : Source
waiting = record (new_source ro_fd) { q_in_use = some 1; pending = true }

-- Two sources pend, and the kernel refuses the one that is 5.
abbrev pending_with : ℕ → Queue
pending_with s =
    record (queue_create 1 (update (update (λ t. new_source os_fd) 3 waiting) s waiting)) {
      pending = 3 ∷ s ∷ [];
      stat_pending = 3;
    }

pending_with-IsQueue : (s : ℕ) → (3 == s) ≡ false → IsQueue (pending_with s)
unfolding queue_create
pending_with-IsQueue s ne = record {
  running_distinct = tt;
  pending_distinct = ground arith;
  running_flag = λ t h. ground arith;
  pending_flag = λ t h. ground arith;
  listed = λ t h. ground arith;
  pending_count = refl;
  running_count = refl;
  cursor = λ f h. ground arith;
  started = inl refl;
}

flush_pending_sources_lem_example :
    let r = (flush_pending_sources kernel (pending_with 4)).0 in
    ((flush_pending_sources kernel (pending_with 4)).1 ≡ true)
    × IsQueue r
    × (r.pending ≡ [])
    × (r.running ≡ onto (pending_with 4).pending (pending_with 4).running)
unfolding queue_create
flush_pending_sources_lem_example =
    flush_pending_sources_lem kernel (pending_with 4) (pending_with-IsQueue 4 refl)
      (λ s h. ground arith)
