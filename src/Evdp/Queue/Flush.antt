-- ===== src/Evdp/Queue/Flush.antt =====
-- evdp_queue_flush_pending_sources of src/evdp/driver/epoll/queue.c: the pending sources are handed
-- to the kernel and moved to the running list.
pub mod Tests
use nebase.Base.{
  ℕ, zero, suc, ◌+◌, ◌-◌, ◌==◌, ◌≡◌, ◌≢◌, refl, arith, Bool, true, false, not, ◌||◌, ◌&&◌, inl, inr,
  List, [], ◌∷◌, ◌++◌, Option, none, some, if◌then◌else◌, length, Bool-cases, All,
}
use nebase.Evdp.Ids.{
  mem, erase, IsDistinct, mem_ne, mem-erase, erase-IsDistinct, length-erase, erase_absent,
}
use nebase.Evdp.Source.{
  SourceType, source_none, itimer_sec, itimer_msec, abstimer, ro_fd, os_fd, other, Source, update,
}
use nebase.Evdp.Queue.{
  Queue, Kernel, CtlResult, success, enoent, failure, set_source, set_context, slist_remove,
  running_insert_no_stats,
}
use nebase.Evdp.Queue.Invariant.{IsQueue}

-- The switch on the type, which finds the descriptor.
abbrev pub has_fd : SourceType → Bool
has_fd source_none = false
has_fd itimer_sec = true
has_fd itimer_msec = true
has_fd abstimer = true
has_fd ro_fd = true
has_fd os_fd = true
has_fd other = false

abbrev pub succeeds : CtlResult → Bool
succeeds success = true
succeeds enoent = false
succeeds failure = false

abbrev pub can_add : Kernel → Queue → ℕ → Bool
can_add k q s = has_fd (q.source s).type && succeeds (k.ctl s)

-- One round after epoll_ctl has succeeded.
unfoldable pub move_running : Queue → ℕ → Queue
move_running q s =
    running_insert_no_stats
      (slist_remove (set_context q s (record (q.source s).context { added = true })) s) s

-- The loop over the pending list, whose head each round removes; no number is the return of -1.
pub flush_loop : Kernel → List ℕ → Queue → ℕ → Queue × Option ℕ
unfolding move_running
flush_loop k [] q count = (q, some count)
flush_loop k (s ∷ rest) q count =
    let next = flush_loop k rest (move_running q s) (count + 1) in
    if can_add k q s then next else (q, none)

-- The counters, adjusted when the loop has come to its end.
abbrev pub adjust : Queue → ℕ → Queue
adjust q count = record q {
  stat_pending = q.stat_pending - count;
  stat_running = q.stat_running + count;
}

abbrev pub flush_end : Queue × Option ℕ → Queue × Bool
flush_end (q, some count) = (adjust q count, true)
flush_end (q, none) = (q, false)

pub flush_pending_sources : Kernel → Queue → Queue × Bool
unfolding flush_loop
flush_pending_sources k q = flush_end (flush_loop k q.pending q 0)

module _ (q : Queue) (s : ℕ) (count : ℕ) (rest : List ℕ) (at : q.pending ≡ s ∷ rest)
    (w : IsQueue (adjust q count)) where
  pub move_lists :
      ((move_running q s).pending ≡ rest)
      × ((move_running q s).running ≡ s ∷ q.running)
      × (mem s q.running ≡ false)
      × (mem s rest ≡ false)
      × (q.stat_pending ≡ suc (suc (length rest)) + count)
  unfolding move_running
  move_lists = ground (
    arith,
    w.pending_flag s,
    w.running_flag s,
    w.pending_distinct,
    w.pending_count,
    Bool-cases (mem s q.running),
    erase_absent s q.running,
  )

  move-source :
      (t : ℕ)
      → ((((move_running q s).source t).pending ≡ (if t == s then false else (q.source t).pending)))
        × (((move_running q s).source t).q_in_use ≡ (q.source t).q_in_use)
        × (((move_running q s).source t).type ≡ (q.source t).type)
  unfolding move_running
  move-source t = ground arith

  move_rest :
      ((move_running q s).self ≡ q.self)
      × ((move_running q s).foreach_s ≡ q.foreach_s)
      × ((move_running q s).in_foreach ≡ q.in_foreach)
      × ((move_running q s).stat_pending ≡ q.stat_pending)
      × ((move_running q s).stat_running ≡ q.stat_running)
  unfolding move_running
  move_rest = (refl, refl, refl, refl, refl)

  pub move-IsQueue : IsQueue (adjust (move_running q s) (count + 1))
  move-IsQueue = record {
    running_distinct = ground (arith, w.running_distinct, move_lists);
    pending_distinct = ground (arith, w.pending_distinct, move_lists);
    running_flag = λ t h.
        ground (arith, w.running_flag t, w.pending_flag s, move_lists, move-source t, move_rest);
    pending_flag = λ t h.
        ground (arith, w.pending_flag t, move_lists, move-source t, move_rest, mem_ne t s rest);
    listed = λ t h. ground (arith, w.listed t, move_lists, move-source t, move_rest);
    pending_count = ground (arith, move_lists, move_rest);
    running_count = ground (arith, w.running_count, move_lists, move_rest);
    cursor = λ g h. ground (arith, w.cursor g, move_lists, move-source g, move_rest);
    started = ground (arith, w.started, move_rest);
  }

pub unadjusted : (q : Queue) → IsQueue q → IsQueue (adjust q 0)
unadjusted q w =
    let e : q.stat_pending - 0 ≡ q.stat_pending = omega arith in
    let f : q.stat_running + 0 ≡ q.stat_running = omega arith in rw (e, f) w

-- The sources of the first list in front of the second, in turn.
abbrev pub onto : List ℕ → List ℕ → List ℕ
onto [] ys = ys
onto (x ∷ xs) ys = onto xs (x ∷ ys)

record IsFlushed (pend : List ℕ) (q r : Queue) (count : ℕ) : Type 0 where
  well_formed : IsQueue (adjust r (count + length pend))
  none_pending : r.pending ≡ []
  moved : r.running ≡ onto pend q.running

flush_loop_lem :
    (k : Kernel) (pend : List ℕ) (q : Queue) (count : ℕ)
    → q.pending ≡ pend
    → IsQueue (adjust q count)
    → ((s : ℕ) → mem s pend ≡ true → can_add k q s ≡ true)
    → (r : Queue) × (flush_loop k pend q count ≡ (r, some (count + length pend)))
      × IsFlushed pend q r count
unfolding flush_loop
flush_loop_lem k [] q count at w all =
    let e : count + 0 ≡ count = omega arith in
    (q, rw e refl, record { well_formed = rw e w; none_pending = at; moved = refl })
flush_loop_lem k (s ∷ rest) q count at w all =
    let e : count + suc (length rest) ≡ count + 1 + length rest = omega arith in
    let lists = move_lists q s count rest at w in
    let can : can_add k q s ≡ true = all s (ground arith) in
    let (r, runs, f) =
      flush_loop_lem k rest (move_running q s) (count + 1) lists.0
        (move-IsQueue q s count rest at w)
        (λ t h. rw (move-source q s count rest at w t).2 (all t (ground arith))) in
    (
      r,
      rw (can, e) runs,
      record {
        well_formed = rw e f.well_formed;
        none_pending = f.none_pending;
        moved = rw lists.1 at f.moved;
      },
    )

-- Where every pending source can be added, the flush succeeds: no source is pending any more,
-- all run, the counters agree with the lists, and the queue is well-formed.
pub flush_pending_sources_lem :
    (k : Kernel) (q : Queue)
    → IsQueue q
    → ((s : ℕ) → mem s q.pending ≡ true → can_add k q s ≡ true)
    → let r = (flush_pending_sources k q).0 in
      ((flush_pending_sources k q).1 ≡ true)
      × IsQueue r
      × (r.pending ≡ [])
      × (r.running ≡ onto q.pending q.running)
unfolding flush_pending_sources
flush_pending_sources_lem k q w all =
    let same = unadjusted q w in
    let (r, runs, f) = flush_loop_lem k q.pending q 0 refl same all in
    let e : 0 + length q.pending ≡ length q.pending = omega arith in
    rw (runs, e) (refl, rw e at f.well_formed, f.none_pending, f.moved)

flush_loop_succeeds :
    (k : Kernel) (pend : List ℕ) (q : Queue) (count total : ℕ)
    → q.pending ≡ pend
    → IsQueue (adjust q count)
    → (flush_loop k pend q count).1 ≡ some total
    → IsQueue (adjust (flush_loop k pend q count).0 total)
unfolding flush_loop
flush_loop_succeeds k [] q count total at w h = let e : count ≡ total = ground arith in rw e at w
flush_loop_succeeds k (s ∷ rest) q count total at w h = elim (Bool-cases (can_add k q s)) [
  | inl can ↦ rw can (
      flush_loop_succeeds k rest (move_running q s) (count + 1) total
        (move_lists q s count rest at w).0 (move-IsQueue q s count rest at w) (rw can at h))
  | inr cannot ↦ ground arith
]

flush_end_succeeds :
    (x : Queue × Option ℕ)
    → (flush_end x).1 ≡ true
    → (total : ℕ) × (x.1 ≡ some total) × ((flush_end x).0 ≡ adjust x.0 total)
flush_end_succeeds (q, some count) h = (count, refl, refl)
flush_end_succeeds (q, none) h = cc

-- Whenever the flush of a well-formed queue returns 0, the queue is well-formed again.
pub flush_succeeds-IsQueue :
    (k : Kernel) (q : Queue)
    → IsQueue q
    → (flush_pending_sources k q).1 ≡ true
    → IsQueue (flush_pending_sources k q).0
unfolding flush_pending_sources
flush_succeeds-IsQueue k q w h =
    let (total, found, ends) = flush_end_succeeds (flush_loop k q.pending q 0) h in
    rw ends (flush_loop_succeeds k q.pending q 0 total refl (unadjusted q w) found)
