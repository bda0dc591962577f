-- ===== src/Evdp/Uring/Flush.antt =====
-- evdp_queue_flush_pending_sources of src/evdp/driver/io_uring/queue.c.
use nebase.Base.{
  ℕ, suc, ◌-◌, ◌+◌, ◌==◌, ◌≡◌, refl, arith, true, false, List, [], ◌∷◌, some, length, ◌∙◌, ap,
}
use nebase.Evdp.Ids.{mem}
use nebase.Evdp.Queue.Invariant.{IsQueue, SameLists, SameLists-IsQueue}
use nebase.Evdp.Queue.Flush.{adjust, onto, move_running, move_lists, move-IsQueue, unadjusted}
use nebase.Evdp.Uring.{Uring, Ring, submit_poll, flush_loop, flush_end, flush_pending_sources}

-- A round does to the lists what a round of the epoll driver does.
submit_poll-SameLists :
    (u : Uring) (s count : ℕ)
    → SameLists (adjust (move_running u.queue s) count) (adjust (submit_poll u s).queue count)
unfolding move_running
submit_poll-SameLists u s count = record {
  self = refl;
  running = refl;
  pending = refl;
  foreach_s = refl;
  in_foreach = refl;
  stat_pending = refl;
  stat_running = refl;
  flags = λ t. ground arith;
}

-- What the loop leaves: the sources run, in front of those that ran, each with a poll.
pub record IsSubmitted (pend : List ℕ) (u v : Uring) (count : ℕ) : Type 0 where
  pub well_formed : IsQueue (adjust v.queue (count + length pend))
  pub none_pending : v.queue.pending ≡ []
  pub moved : v.queue.running ≡ onto pend u.queue.running
  pub polls : v.polls ≡ onto pend u.polls
  pub context : v.context ≡ u.context
  pub cursor : v.queue.foreach_s ≡ u.queue.foreach_s

flush_loop_lem :
    (r : Ring) (pend : List ℕ) (u : Uring) (count : ℕ)
    → u.queue.pending ≡ pend
    → IsQueue (adjust u.queue count)
    → ((s : ℕ) → mem s pend ≡ true → r.has_sqe s ≡ true)
    → (v : Uring) × (flush_loop r pend u count ≡ (v, some (count + length pend)))
      × IsSubmitted pend u v count
unfolding flush_loop
flush_loop_lem r [] u count at w all =
    let e : count + 0 ≡ count = omega arith in
    (
      u,
      rw e refl,
      record {
        well_formed = rw e w;
        none_pending = at;
        moved = refl;
        polls = refl;
        context = refl;
        cursor = refl;
      },
    )
flush_loop_lem r (s ∷ rest) u count at w all =
    let e : count + suc (length rest) ≡ count + 1 + length rest = omega arith in
    let lists = move_lists u.queue s count rest at w in
    let same = submit_poll-SameLists u s (count + 1) in
    let can : r.has_sqe s ≡ true = all s (ground arith) in
    let (v, runs, f) =
      flush_loop_lem r rest (submit_poll u s) (count + 1) (same.pending ∙ lists.0)
        (SameLists-IsQueue same (move-IsQueue u.queue s count rest at w))
        (λ t h. all t (ground arith)) in
    (
      v,
      rw (can, e) runs,
      record {
        well_formed = rw e f.well_formed;
        none_pending = f.none_pending;
        moved = f.moved ∙ ap (onto rest) (same.running ∙ lists.1);
        polls = f.polls;
        context = f.context;
        cursor = f.cursor;
      },
    )

flush_end_lem :
    (r : Ring) (pend : List ℕ) (u v : Uring)
    → r.submits ≡ true
    → IsSubmitted pend u v 0
    → (w : Uring) × (flush_end r (v, some (length pend)) ≡ (w, true))
      × IsQueue w.queue
      × (w.queue.pending ≡ [])
      × (w.queue.running ≡ onto pend u.queue.running)
      × (w.polls ≡ onto pend u.polls)
      × (w.context ≡ u.context)
      × (w.queue.foreach_s ≡ u.queue.foreach_s)
flush_end_lem r [] u v submits f =
    let e : v.queue.stat_pending - 0 ≡ v.queue.stat_pending = omega arith in
    let g : v.queue.stat_running + 0 ≡ v.queue.stat_running = omega arith in
    let zero_sum : 0 + 0 ≡ 0 = omega arith in
    (
      v,
      refl,
      rw (zero_sum, e, g) at f.well_formed,
      f.none_pending,
      f.moved,
      f.polls,
      f.context,
      f.cursor,
    )
flush_end_lem r (s ∷ rest) u v submits f =
    let count = suc (length rest) in
    let some_moved : (count == 0) ≡ false = ground arith in
    let sum : 0 + count ≡ count = omega arith in
    (
      record v { queue = adjust v.queue count },
      rw (some_moved, submits) refl,
      rw sum at f.well_formed,
      f.none_pending,
      f.moved,
      f.polls,
      f.context,
      f.cursor,
    )

-- Where the ring has room for every pending source and takes what is submitted, the flush
-- succeeds: no source is pending any more, all run, each has a poll in the ring, the queue is
-- well-formed, and the contexts, with their marks of what is submitted, are as they were.
pub uring_flush_lem :
    (r : Ring) (u : Uring)
    → IsQueue u.queue
    → ((s : ℕ) → mem s u.queue.pending ≡ true → r.has_sqe s ≡ true)
    → r.submits ≡ true
    → (w : Uring) × (flush_pending_sources r u ≡ (w, true))
      × IsQueue w.queue
      × (w.queue.pending ≡ [])
      × (w.queue.running ≡ onto u.queue.pending u.queue.running)
      × (w.polls ≡ onto u.queue.pending u.polls)
      × (w.context ≡ u.context)
      × (w.queue.foreach_s ≡ u.queue.foreach_s)
unfolding flush_pending_sources
uring_flush_lem r u w all submits =
    let pend = u.queue.pending in
    let (v, runs, f) = flush_loop_lem r pend u 0 refl (unadjusted u.queue w) all in
    let sum : 0 + length pend ≡ length pend = omega arith in
    rw (flush_pending_sources, runs, sum) (flush_end_lem r pend u v submits f)
