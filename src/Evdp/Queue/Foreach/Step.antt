-- ===== src/Evdp/Queue/Foreach/Step.antt =====
-- One step of the foreach of src/evdp/core.c on a well-formed queue.
use nebase.Base.{ℕ, ◌==◌, ◌≡◌, refl, arith, true, false, List, [], ◌∷◌, none, some, length}
use nebase.Evdp.Ids.{
  mem, erase, behind, IsDistinct, mem-erase, erase-IsDistinct, length-erase, mem-insert_after,
  insert_after-IsDistinct, length-insert_after, mem-behind, mem-behind_ne, erase_absent,
}
use nebase.Evdp.Source.{remove}
use nebase.Evdp.Queue.{Queue, Kernel, do_detach_from_queue}
use nebase.Evdp.Queue.Invariant.{IsQueue, SameLists, SameLists-IsQueue}
use nebase.Evdp.Queue.Detach.{IsDetached, do_detach-IsDetached}
use nebase.Evdp.Queue.Foreach.{
  EachCall, set_no_detach, find_next, visit, next_one, apply_ret, foreach_step,
}

pub find_next-mem : (q : Queue) (b : ℕ) (xs : List ℕ) → find_next q xs ≡ some b → mem b xs ≡ true
unfolding find_next
find_next-mem q b [] h = cc
find_next-mem q b (x ∷ xs) h = ground (arith, find_next-mem q b xs)

-- A well-formed queue in a foreach, with the sentinel `f`.
module _ (q : Queue) (f : ℕ) (w : IsQueue q) (at : q.foreach_s ≡ some f)
    (on : q.in_foreach ≡ true) where
  sentinel_listed : mem f q.running ≡ true
  sentinel_listed = ground (arith, w.cursor f)

  module _ (b : ℕ) (m : mem b (behind f q.running) ≡ true) where
    facts :
        (mem b q.running ≡ true)
        × ((b == f) ≡ false)
        × (mem b (erase f q.running) ≡ true)
        × (mem f (erase f q.running) ≡ false)
    facts = ground (
      arith,
      mem-behind f b q.running,
      mem-behind_ne f b q.running w.running_distinct,
      mem-erase f b q.running w.running_distinct,
      mem-erase f f q.running w.running_distinct,
    )

    visit-mem : (t : ℕ) → mem t (visit q f b).running ≡ mem t q.running
    unfolding visit
    visit-mem t = ground (
      arith,
      facts,
      sentinel_listed,
      mem-insert_after b f t (erase f q.running),
      mem-erase f t q.running w.running_distinct,
    )

    visit-lists :
        IsDistinct (visit q f b).running
        × (length (visit q f b).running ≡ length q.running)
        × ((visit q f b).pending ≡ q.pending)
    unfolding visit
    visit-lists = ground (
      arith,
      facts,
      sentinel_listed,
      w.cursor f,
      insert_after-IsDistinct b f (erase f q.running),
      erase-IsDistinct f q.running w.running_distinct,
      length-insert_after b f (erase f q.running),
      length-erase f q.running,
      erase_absent f q.pending,
    )

    visit-source :
        (t : ℕ)
        → (((visit q f b).source t).pending ≡ (q.source t).pending)
          × (((visit q f b).source t).q_in_use ≡ (q.source t).q_in_use)
    unfolding visit
    visit-source t = ground arith

    visit_rest :
        ((visit q f b).self ≡ q.self)
        × ((visit q f b).foreach_s ≡ q.foreach_s)
        × ((visit q f b).in_foreach ≡ q.in_foreach)
        × ((visit q f b).stat_pending ≡ q.stat_pending)
        × ((visit q f b).stat_running ≡ q.stat_running)
    unfolding visit
    visit_rest = (refl, refl, refl, refl, refl)

    visit-IsQueue : IsQueue (visit q f b)
    visit-IsQueue =
        let r = visit_rest in
        record {
          running_distinct = visit-lists.0;
          pending_distinct = rw visit-lists.2 w.pending_distinct;
          running_flag = λ t h. ground (arith, w.running_flag t, visit-source t, visit-mem t);
          pending_flag = λ t h. ground (arith, w.pending_flag t, visit-source t, visit-lists.2);
          listed = λ t h. ground (arith, w.listed t, visit-source t, visit-mem t, visit-lists.2);
          pending_count = rw (r.3, visit-lists.2) w.pending_count;
          running_count = rw (r.4, r.2, visit-lists.1) w.running_count;
          cursor = λ g h. ground (arith, w.cursor g, visit-source g, visit-mem g, visit-lists.2);
          started = rw (r.2, r.1) w.started;
        }

    released-IsQueue : IsQueue (set_no_detach (visit q f b) b false)
    released-IsQueue = SameLists-IsQueue same visit-IsQueue
      where
        same : SameLists (visit q f b) (set_no_detach (visit q f b) b false)
        same = record {
          self = refl;
          running = refl;
          pending = refl;
          foreach_s = refl;
          in_foreach = refl;
          stat_pending = refl;
          stat_running = refl;
          flags = λ t. ground arith;
        }

  -- `b` is the source that the loop finds behind the sentinel, `a` the one right behind it.
  module _ (k : Kernel) (each : EachCall) (a b : ℕ) (rest : List ℕ)
      (first : behind f q.running ≡ a ∷ rest) (found : find_next q (a ∷ rest) ≡ some b)
      (asked : each (visit q f b) b ≡ (visit q f b, remove)) where
    asks : next_one each q f ≡ (set_no_detach (visit q f b) b false, remove)
    unfolding next_one
    asks = rw (first, found, asked, next_one) refl

    step_removes :
        foreach_step k each q f a
        ≡ (do_detach_from_queue k (set_no_detach (visit q f b) b false) a false, true)
    unfolding foreach_step apply_ret
    step_removes = rw asks refl

    found_behind : mem b (behind f q.running) ≡ true
    found_behind = rw first (find_next-mem q b (a ∷ rest) found)

    first_behind : mem a (behind f q.running) ≡ true
    first_behind = rw first (ground arith)

    step_removes-IsDetached :
        IsDetached (set_no_detach (visit q f b) b false) (foreach_step k each q f a).0 a
    step_removes-IsDetached = rw step_removes (
        do_detach-IsDetached k (set_no_detach (visit q f b) b false) a false
          (released-IsQueue b found_behind)
          (ground (arith, facts a first_behind, visit-mem b found_behind a))
          (λ e. ground (arith, facts a first_behind, visit_rest b found_behind)))

    others_kept :
        (b == a) ≡ false
        → (((foreach_step k each q f a).0.source b).q_in_use ≡ some q.self)
          × (mem b (foreach_step k each q f a).0.running ≡ true)
    others_kept ne = ground (
      arith,
      step_removes-IsDetached.others b ne,
      facts b found_behind,
      visit-mem b found_behind b,
      visit-source b found_behind b,
      w.running_flag b,
    )

-- One step of a foreach on a well-formed queue whose sentinel is `f`, where the source `a` right
-- behind the sentinel is the next one that has a utype and is not yet visited, and the callback,
-- asked about it, answers NEB_EVDP_CB_REMOVE and changes nothing: `a` is detached, and all other
-- sources stay in their lists.
pub foreach_step-IsDetached :
    (k : Kernel) (each : EachCall) (q : Queue) (f a : ℕ) (rest : List ℕ)
    → IsQueue q
    → q.foreach_s ≡ some f
    → q.in_foreach ≡ true
    → behind f q.running ≡ a ∷ rest
    → find_next q (a ∷ rest) ≡ some a
    → each (visit q f a) a ≡ (visit q f a, remove)
    → IsDetached (set_no_detach (visit q f a) a false) (foreach_step k each q f a).0 a
foreach_step-IsDetached k each q f a rest w at on first found asked =
    step_removes-IsDetached q f w at on k each a a rest first found asked

-- But where the source `a` right behind the sentinel is passed over, because it has no utype or
-- was visited, and the callback is asked about a later source `b`, the answer NEB_EVDP_CB_REMOVE
-- for `b` detaches `a`, about which nobody was asked, and `b` stays attached and in the list.
pub foreach_step_removes_other :
    (k : Kernel) (each : EachCall) (q : Queue) (f a b : ℕ) (rest : List ℕ)
    → IsQueue q
    → q.foreach_s ≡ some f
    → q.in_foreach ≡ true
    → behind f q.running ≡ a ∷ rest
    → find_next q (a ∷ rest) ≡ some b
    → (b == a) ≡ false
    → each (visit q f b) b ≡ (visit q f b, remove)
    → let r = (foreach_step k each q f a).0 in
      ((r.source a).q_in_use ≡ none)
      × (mem a r.running ≡ false)
      × ((r.source b).q_in_use ≡ some q.self)
      × (mem b r.running ≡ true)
foreach_step_removes_other k each q f a b rest w at on first found ne asked =
    let gone = step_removes-IsDetached q f w at on k each a b rest first found asked in
    let kept = others_kept q f w at on k each a b rest first found asked ne in
    (gone.free, gone.not_running, kept.0, kept.1)
