-- ===== src/Evdp/Queue/OsFd/Reset.antt =====
-- neb_evdp_source_os_fd_reset of src/evdp/io_base.c before a source is attached again.
use nebase.Base.{ℕ, ◌==◌, ◌≡◌, refl, arith, true, false, ◌∷◌, none, some}
use nebase.Evdp.Source.{os_fd}
use nebase.Evdp.Queue.{Queue, Kernel, set_source, os_fd_attach, attach_by_type, queue_attach}
use nebase.Evdp.Queue.Attach.{queue_attach_open}
use nebase.Evdp.Queue.OsFd.{os_fd_reset, reset_context}

-- A free os_fd source that is reset, whatever events it waited for before, and then attached to a
-- queue that is not being destroyed goes to the running list, not to the pending one: it waits for
-- no event until it asks for one.
pub queue_attach-os_fd_reset :
    (k : Kernel) (q : Queue) (s : ℕ)
    → (q.source s).q_in_use ≡ none
    → (q.source s).type ≡ os_fd
    → q.destroying ≡ false
    → let r = queue_attach k (os_fd_reset q s).0 s in
      (r.1 ≡ true)
      × (r.0.running ≡ s ∷ q.running)
      × (r.0.pending ≡ q.pending)
      × ((r.0.source s).q_in_use ≡ some q.self)
      × ((r.0.source s).pending ≡ false)
unfolding os_fd_reset queue_attach attach_by_type os_fd_attach
queue_attach-os_fd_reset k q s free type alive =
    let p = set_source q s (reset_context (q.source s)) in
    let resets : (os_fd_reset q s).0 ≡ p = ground arith in
    let open_ = queue_attach_open k p s (ground arith) alive in
    let typed : (p.source s).type ≡ os_fd = ground arith in
    let self : (s == s) ≡ true = ground arith in
    rw (resets, open_, typed)
      (simp (attach_by_type, os_fd_attach, self) (refl, refl, refl, refl, refl))
