-- ===== src/Evdp/Uring/Tests.antt =====
-- The io_uring driver on a queue with two pending sources.
use nebase.Base.{
  length, ◌==◌, ◌≡◌, refl, arith, true, false, [], ◌∷◌, some, none, inl, if◌then◌else◌,
}
use nebase.Evdp.Ids.{mem}
use nebase.Evdp.Source.{os_fd, ro_fd, Source, new_source}
use nebase.Evdp.Queue.Invariant.{IsQueue}
use nebase.Evdp.Uring.{
  Uring, Ring, ro_fd_context, os_fd_context, flush_pending_sources, do_detach_from_queue, rearm,
}
use nebase.Evdp.Uring.Flush.{uring_flush_lem}
use nebase.Evdp.Uring.Detach.{flushed_poll_stays}
use nebase.Evdp.Uring.Asks.{rearm_miscounts}

abbrev ring : Ring
ring = record { settime = λ s. true; has_sqe = λ s. true; submits = true }

abbrev held : Source
held = record (new_source os_fd) { q_in_use = some 1; pending = true }

-- The source 3 is a ro_fd and 4 an os_fd that asks for input.
abbrev waiting : Uring
waiting = record {
  queue = record {
    self = 1;
    source = λ s.
        if s == 3 then record held { type = ro_fd } else if s == 4 then held else new_source os_fd;
    running = [];
    pending = 3 ∷ 4 ∷ [];
    foreach_s = none;
    in_foreach = false;
    destroying = false;
    foreach_id = 0;
    stat_pending = 3;
    stat_running = 1;
    current_event = 0;
    events = [];
    removed = [];
  };
  context = λ s.
      if s == 3
      then record ro_fd_context { pollin = true }
      else record os_fd_context { pollin = true };
  polls = [];
}

waiting-IsQueue : IsQueue waiting.queue
waiting-IsQueue = record {
  running_distinct = tt;
  pending_distinct = ground arith;
  running_flag = λ t h. ground arith;
  pending_flag = λ t h. ground arith;
  listed = λ t h. ground arith;
  pending_count = refl;
  running_count = refl;
  cursor = λ f h. ground arith;
  started = inl refl;
}

uring_flush_lem_example :
    (w : Uring) × (flush_pending_sources ring waiting ≡ (w, true))
    × IsQueue w.queue
    × (w.queue.pending ≡ [])
    × (w.queue.running ≡ 4 ∷ 3 ∷ [])
    × (w.polls ≡ 4 ∷ 3 ∷ [])
    × (w.context ≡ waiting.context)
    × (w.queue.foreach_s ≡ none)
uring_flush_lem_example = uring_flush_lem ring waiting waiting-IsQueue (λ s h. refl) refl

flushed_poll_stays_example :
    let v = do_detach_from_queue ring (flush_pending_sources ring waiting).0 3 false in
    ((v.queue.source 3).q_in_use ≡ none) × (mem 3 v.polls ≡ true)
flushed_poll_stays_example =
    flushed_poll_stays ring ring waiting 3 false waiting-IsQueue (λ s h. refl) refl refl refl
      (λ e. ground arith)

rearm_miscounts_example :
    ((rearm waiting 4).queue.stat_pending ≡ 4)
    × ((rearm waiting 4).queue.stat_running ≡ 1)
    × (mem 4 (rearm waiting 4).queue.pending ≡ true)
    × (length (rearm waiting 4).queue.pending ≡ 2)
    × ¬ IsQueue (rearm waiting 4).queue
rearm_miscounts_example = rearm_miscounts waiting 4 waiting-IsQueue refl refl
