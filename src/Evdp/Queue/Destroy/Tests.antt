-- ===== src/Evdp/Queue/Destroy/Tests.antt =====
-- Destroying queues of src/evdp/core.c with two running sources.
use nebase.Base.{◌≡◌, true, ◌||◌, [], ℕ, none, not}
use nebase.Evdp.Ids.{mem}
use nebase.Evdp.Queue.{is_attached}
use nebase.Evdp.Queue.Foreach.Tests.{kernel, two_running, two_running-IsQueue}
use nebase.Evdp.Queue.Destroy.{called, frees_sentinel, queue_destroy}
use nebase.Evdp.Queue.Destroy.Drained.{queue_destroy_lem}

queue_destroy_lem_example :
    let r = queue_destroy kernel two_running in
    (r.running ≡ [])
    × (r.pending ≡ [])
    × ((t : ℕ)
        → (mem t two_running.running || mem t two_running.pending) ≡ true
        → (r.source t).q_in_use ≡ none)
    × (r.removed
        ≡ called two_running.source two_running.running
            (called two_running.source two_running.pending two_running.removed))
    × (frees_sentinel two_running ≡ not (is_attached two_running.foreach_s))
queue_destroy_lem_example = queue_destroy_lem kernel two_running two_running-IsQueue
