-- ===== src/Evdp/Queue/Invariant.antt =====
-- The well-formed queue of src/evdp/core.c.
use nebase.Base.{ℕ, suc, ◌+◌, ◌≡◌, refl, arith, true, false, ◌||◌, ◌⊎◌, some, if◌then◌else◌, length}
use nebase.Evdp.Ids.{mem, IsDistinct}
use nebase.Evdp.Source.{Context}
use nebase.Evdp.Queue.{Queue, set_context}

-- The lists hold distinct sources that are attached to this queue, and only those but for the
-- foreach sentinel; `pending` tells which list; the counters count the sources and one sentinel
-- each, the foreach sentinel not counted.
pub record IsQueue (q : Queue) : Type 0 where
  pub running_distinct : IsDistinct q.running
  pub pending_distinct : IsDistinct q.pending
  pub running_flag :
      (s : ℕ)
      → mem s q.running ≡ true
      → ((q.source s).pending ≡ false) × ((q.source s).q_in_use ≡ some q.self)
  pub pending_flag :
      (s : ℕ)
      → mem s q.pending ≡ true
      → ((q.source s).pending ≡ true) × ((q.source s).q_in_use ≡ some q.self)
  pub listed :
      (s : ℕ)
      → (q.source s).q_in_use ≡ some q.self
      → ((mem s q.running || mem s q.pending) ≡ true) ⊎ (q.foreach_s ≡ some s)
  pub pending_count : q.stat_pending ≡ suc (length q.pending)
  pub running_count : q.stat_running + (if q.in_foreach then 1 else 0) ≡ suc (length q.running)
  pub cursor :
      (f : ℕ)
      → q.foreach_s ≡ some f
      → (mem f q.running ≡ q.in_foreach)
        × (mem f q.pending ≡ false)
        × ((q.source f).q_in_use ≡ some q.self)
  pub started : (q.in_foreach ≡ false) ⊎ ((f : ℕ) × (q.foreach_s ≡ some f))

-- Everything that IsQueue speaks of is the same but for the contexts of sources.
pub record SameLists (q r : Queue) : Type 0 where
  pub self : r.self ≡ q.self
  pub running : r.running ≡ q.running
  pub pending : r.pending ≡ q.pending
  pub foreach_s : r.foreach_s ≡ q.foreach_s
  pub in_foreach : r.in_foreach ≡ q.in_foreach
  pub stat_pending : r.stat_pending ≡ q.stat_pending
  pub stat_running : r.stat_running ≡ q.stat_running
  pub flags :
      (t : ℕ)
      → ((r.source t).pending ≡ (q.source t).pending)
        × ((r.source t).q_in_use ≡ (q.source t).q_in_use)

pub SameLists-IsQueue : {q r : Queue} → SameLists q r → IsQueue q → IsQueue r
SameLists-IsQueue e w = record {
  running_distinct = ground (arith, w.running_distinct, e.running);
  pending_distinct = ground (arith, w.pending_distinct, e.pending);
  running_flag = λ t m. ground (arith, w.running_flag t, e.flags t);
  pending_flag = λ t m. ground (arith, w.pending_flag t, e.flags t);
  listed = λ t m. ground (arith, w.listed t, e.flags t);
  pending_count = ground arith;
  running_count = ground arith;
  cursor = λ f m. ground (arith, w.cursor f, e.flags f);
  started = ground arith;
}

pub SameLists-trans : {p q r : Queue} → SameLists p q → SameLists q r → SameLists p r
SameLists-trans e f = record {
  self = ground arith;
  running = ground arith;
  pending = ground arith;
  foreach_s = ground arith;
  in_foreach = ground arith;
  stat_pending = ground arith;
  stat_running = ground arith;
  flags = λ t. ground (arith, e.flags t, f.flags t);
}

pub set_context-SameLists : (q : Queue) (s : ℕ) (c : Context) → SameLists q (set_context q s c)
set_context-SameLists q s c = record {
  self = refl;
  running = refl;
  pending = refl;
  foreach_s = refl;
  in_foreach = refl;
  stat_pending = refl;
  stat_running = refl;
  flags = λ t. ground arith;
}

pub SameLists-refl : (q : Queue) → SameLists q q
SameLists-refl q = record {
  self = refl;
  running = refl;
  pending = refl;
  foreach_s = refl;
  in_foreach = refl;
  stat_pending = refl;
  stat_running = refl;
  flags = λ t. (refl, refl);
}
