-- ===== src/Evdp/Queue/Foreach/Bounds.antt =====
-- Where a foreach of src/evdp/core.c starts and ends.
use nebase.Base.{
  ℕ, suc, ◌==◌, ◌≡◌, ◌≢◌, refl, arith, true, false, not, ◌&&◌, inl, inr, Option, none, some, length,
  Bool-cases, Option-cases,
}
use nebase.Evdp.Ids.{mem, behind, mem-erase, erase-IsDistinct, length-erase, erase_absent}
use nebase.Evdp.Queue.{Queue, set_source, slist_remove}
use nebase.Evdp.Queue.Invariant.{IsQueue}
use nebase.Evdp.Queue.Foreach.{
  foreach_sentinel, foreach_begin, foreach_start, foreach_set_end, new_empty,
}

-- A foreach that has begun: the queue is well-formed, every source that was running is ahead of
-- the sentinel, and the number returned is one more than there were running sources.
pub record IsBegun (q r : Queue) (returned : Option ℕ) : Type 0 where
  pub well_formed : IsQueue r
  pub begun : r.in_foreach ≡ true
  pub sentinel : ℕ
  pub placed : r.foreach_s ≡ some sentinel
  pub ahead : behind sentinel r.running ≡ q.running
  pub counted : returned ≡ some (suc (length q.running))

begin_lem :
    (q : Queue) (f : ℕ)
    → IsQueue q
    → q.in_foreach ≡ false
    → q.foreach_s ≡ some f
    → let r = foreach_begin (some (q, f)) q in IsBegun q r.0 r.1
unfolding foreach_begin
begin_lem q f w off at = record {
  well_formed = record {
    running_distinct = ground (arith, w.running_distinct, w.cursor f);
    pending_distinct = w.pending_distinct;
    running_flag = λ t h. ground (arith, w.running_flag t, w.cursor f);
    pending_flag = λ t h. ground (arith, w.pending_flag t, w.cursor f);
    listed = λ t h. ground (arith, w.listed t);
    pending_count = w.pending_count;
    running_count = ground (arith, w.running_count);
    cursor = λ g h. ground (arith, w.cursor g, w.cursor f);
    started = inr (f, at);
  };
  begun = refl;
  sentinel = f;
  placed = at;
  ahead = ground arith;
  counted = ground (arith, w.running_count);
}

fresh_sentinel-IsQueue :
    (q : Queue) (f : ℕ)
    → IsQueue q
    → q.in_foreach ≡ false
    → q.foreach_s ≡ none
    → (q.source f).q_in_use ≡ none
    → IsQueue (record (set_source q f (new_empty q.self)) { foreach_s = some f })
fresh_sentinel-IsQueue q f w off empty free = record {
  running_distinct = w.running_distinct;
  pending_distinct = w.pending_distinct;
  running_flag = λ t h. ground (arith, w.running_flag t);
  pending_flag = λ t h. ground (arith, w.pending_flag t);
  listed = λ t h. ground (arith, w.listed t);
  pending_count = w.pending_count;
  running_count = w.running_count;
  cursor = λ g h. ground (
    arith,
    w.running_flag f,
    w.pending_flag f,
    Bool-cases (mem f q.running),
    Bool-cases (mem f q.pending),
  );
  started = inl off;
}

with_sentinel : Queue → ℕ → Queue
with_sentinel q f = record (set_source q f (new_empty q.self)) { foreach_s = some f }

start_empty :
    (q : Queue) (block : ℕ)
    → q.in_foreach ≡ false
    → q.foreach_s ≡ none
    → foreach_start q (some block)
      ≡ foreach_begin (some (with_sentinel q block, block)) (with_sentinel q block)
unfolding foreach_start foreach_sentinel with_sentinel foreach_begin
start_empty q block off empty = ground arith

start_again :
    (q : Queue) (block f : ℕ)
    → q.in_foreach ≡ false
    → q.foreach_s ≡ some f
    → foreach_start q (some block) ≡ foreach_begin (some (q, f)) q
unfolding foreach_start foreach_sentinel foreach_begin
start_again q block f off at = ground arith

-- Starting a foreach on a well-formed queue that is in none, where calloc returns a free block
-- if it is called: the queue stays well-formed, every running source is ahead of the sentinel,
-- and the number returned is one more than the number of running sources.
pub foreach_start_lem :
    (q : Queue) (block : ℕ)
    → IsQueue q
    → q.in_foreach ≡ false
    → (q.source block).q_in_use ≡ none
    → IsBegun q (foreach_start q (some block)).0 (foreach_start q (some block)).1
foreach_start_lem q block w off free = elim (Option-cases q.foreach_s) [
  | inl empty ↦ rw (start_empty q block off empty) (
      unfold with_sentinel in
      let fresh = fresh_sentinel-IsQueue q block w off empty free in
      let begun = begin_lem (with_sentinel q block) block fresh off refl in
      record {
        well_formed = begun.well_formed;
        begun = begun.begun;
        sentinel = begun.sentinel;
        placed = begun.placed;
        ahead = begun.ahead;
        counted = begun.counted;
      })
  | inr (f, at) ↦ rw (start_again q block f off at) (begin_lem q f w off at)
]

module _ (q : Queue) (f : ℕ) (w : IsQueue q) (on : q.in_foreach ≡ true)
    (at : q.foreach_s ≡ some f) where
  abbrev closed : Queue
  closed = record (slist_remove q f) { in_foreach = false }

  set_end-closed : foreach_set_end q ≡ closed
  unfolding foreach_set_end
  set_end-closed = ground arith

  closed-mem :
      (t : ℕ)
      → (mem t closed.running ≡ (mem t q.running && not (t == f))) × (closed.pending ≡ q.pending)
  closed-mem t =
      ground
        (arith, w.cursor f, mem-erase f t q.running w.running_distinct, erase_absent f q.pending)

  closed-IsQueue : IsQueue closed
  closed-IsQueue =
      let same = (closed-mem f).1 in
      record {
        running_distinct = erase-IsDistinct f q.running w.running_distinct;
        pending_distinct = rw same w.pending_distinct;
        running_flag = λ t h. ground (arith, w.running_flag t, closed-mem t);
        pending_flag = λ t h. ground (arith, w.pending_flag t, closed-mem t);
        listed = λ t h. ground (arith, w.listed t, closed-mem t);
        pending_count = rw same w.pending_count;
        running_count = ground (arith, w.running_count, length-erase f q.running, w.cursor f);
        cursor = λ g h. ground (arith, w.cursor g, closed-mem g);
        started = inl refl;
      }

-- Ending a foreach takes the sentinel out, leaves the other sources where they are, and keeps
-- the queue well-formed; outside a foreach it does nothing.
pub foreach_set_end_lem :
    (q : Queue)
    → IsQueue q
    → IsQueue (foreach_set_end q)
      × ((foreach_set_end q).in_foreach ≡ false)
      × ((t : ℕ) → q.foreach_s ≢ some t → mem t (foreach_set_end q).running ≡ mem t q.running)
      × ((foreach_set_end q).pending ≡ q.pending)
foreach_set_end_lem q w = elim (Bool-cases q.in_foreach) [
  | inl on ↦ elim w.started [
    | inl off ↦ cc
    | inr (f, at) ↦ rw (set_end-closed q f w on at) (
      closed-IsQueue q f w on at,
      refl,
      λ t ne. ground (arith, closed-mem q f w on at t),
      (closed-mem q f w on at f).1,
    )
  ]
  | inr off ↦
      let same : foreach_set_end q ≡ q = unfold foreach_set_end in ground arith in
      rw same (w, off, λ t ne. refl, refl)
]
