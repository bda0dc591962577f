-- ===== src/Evdp/Queue/Destroy/Drained.antt =====
-- What neb_evdp_queue_destroy of src/evdp/core.c leaves.
use nebase.Base.{
  List-cases, some, ℕ, zero, suc, ◌==◌, ◌≤◌, ◌≡◌, refl, arith, true, false, not, ◌||◌, ◌⊎◌, inl,
  inr, List, [], ◌∷◌, none, length, Bool-cases, Option-cases, ◌∙◌, ap,
}
use nebase.Evdp.Ids.{mem, erase, IsDistinct, mem-erase, erase-IsDistinct, length-erase}
use nebase.Evdp.Queue.{Queue, Kernel, do_detach_from_queue, is_attached}
use nebase.Evdp.Queue.Invariant.{IsQueue}
use nebase.Evdp.Queue.Detach.{do_detach_lists, do_detach_owner, do_detach_flags}
use nebase.Evdp.Queue.Destroy.Called.{
  called_same, drain_pending_more, drain_running_more, drain_pending_calls, drain_running_calls,
}
use nebase.Evdp.Queue.Destroy.{
  called, drain_pending, drain_running, queue_destroy, frees_sentinel, is_refused,
}

mem-erase_ne : (s t : ℕ) (xs : List ℕ) → (t == s) ≡ false → mem t (erase s xs) ≡ mem t xs
mem-erase_ne s t [] h = refl
mem-erase_ne s t (x ∷ xs) h = ground (arith, mem-erase_ne s t xs)

-- A source that is free or still in one of the lists.
abbrev IsLeft : ℕ → Queue → Type 0
IsLeft t q = ((q.source t).q_in_use ≡ none) ⊎ ((mem t q.running || mem t q.pending) ≡ true)

detach-IsLeft :
    (k : Kernel) (q : Queue) (s t : ℕ) → IsLeft t q → IsLeft t (do_detach_from_queue k q s false)
detach-IsLeft k q s t left =
    let lists = do_detach_lists k q s false in
    let (pend, owner) = do_detach_owner k q s false t in
    elim (Bool-cases (t == s)) [
      | inl same ↦ inl (rw same at owner)
      | inr apart ↦ elim left [
        | inl free ↦ inl (rw (apart, free) at owner)
        | inr listed ↦ inr (
            rw (lists.0, pend, mem-erase_ne s t q.running apart, mem-erase_ne s t q.pending apart)
              listed)
      ]
    ]

no_length : (xs : List ℕ) → length xs ≤ 0 → xs ≡ []
no_length [] h = refl
no_length (x ∷ xs) h = absurd (omega arith)

drain_pending_done :
    (k : Kernel) (rounds : ℕ) (q : Queue) → q.pending ≡ [] → drain_pending k rounds q ≡ q
unfolding drain_pending
drain_pending_done k zero q e = refl
drain_pending_done k (suc rounds) q e = ground arith

drain_running_done :
    (k : Kernel) (rounds : ℕ) (q : Queue) → q.running ≡ [] → drain_running k rounds q ≡ q
unfolding drain_running
drain_running_done k zero q e = refl
drain_running_done k (suc rounds) q e = ground arith

-- A drain of the pending list empties it and loses no source.
drain_pending_lem :
    (k : Kernel) (rounds : ℕ) (q : Queue)
    → length q.pending ≤ rounds
    → ((drain_pending k rounds q).pending ≡ [])
      × ((t : ℕ) → IsLeft t q → IsLeft t (drain_pending k rounds q))
drain_pending_lem k zero q le =
    let e = no_length q.pending le in rw (drain_pending_done k zero q e) (e, λ t h. h)
drain_pending_lem k (suc rounds) q le = elim (List-cases q.pending) [
  | inl e ↦ rw (drain_pending_done k (suc rounds) q e) (e, λ t h. h)
  | inr (s, rest, e) ↦
      let p = do_detach_from_queue k q s false in
      let (pend, _) = do_detach_owner k q s false s in
      let shorter : length p.pending ≤ rounds = ground (arith, pend) in
      let (empty, left) = drain_pending_lem k rounds p shorter in
      rw (drain_pending_more k rounds q s rest e) (empty, λ t h. left t (detach-IsLeft k q s t h))
]

-- A pending list of distinct sources that are flagged as pending.
record IsFlagged (q : Queue) : Type 0 where
  distinct : IsDistinct q.pending
  flag : (t : ℕ) → mem t q.pending ≡ true → (q.source t).pending ≡ true

drain_pending_counts :
    (k : Kernel) (rounds : ℕ) (q : Queue)
    → IsFlagged q
    → (drain_pending k rounds q).stat_running ≡ q.stat_running
unfolding drain_pending
drain_pending_counts k zero q w = refl
drain_pending_counts k (suc rounds) q w = elim (List-cases q.pending) [
  | inl e ↦ ap (λ r. r.stat_running) (drain_pending_done k (suc rounds) q e)
  | inr (s, rest, e) ↦
      let p = do_detach_from_queue k q s false in
      let (count, flags) = do_detach_flags k q s false (w.flag s (ground (arith, e))) in
      let v : IsFlagged p = record {
        distinct = rw (do_detach_owner k q s false s).0 (erase-IsDistinct s q.pending w.distinct);
        flag = λ t h. ground (
          arith,
          do_detach_owner k q s false s,
          mem-erase s t q.pending w.distinct,
          flags t,
          w.flag t,
        );
      } in
      rw (drain_pending_more k rounds q s rest e) (drain_pending_counts k rounds p v ∙ count)
]

drain_running_lem :
    (k : Kernel) (rounds : ℕ) (q : Queue)
    → length q.running ≤ rounds
    → q.pending ≡ []
    → ((drain_running k rounds q).running ≡ [])
      × ((drain_running k rounds q).pending ≡ [])
      × ((t : ℕ) → IsLeft t q → IsLeft t (drain_running k rounds q))
drain_running_lem k zero q le idle =
    let e = no_length q.running le in rw (drain_running_done k zero q e) (e, idle, λ t h. h)
drain_running_lem k (suc rounds) q le idle = elim (List-cases q.running) [
  | inl e ↦ rw (drain_running_done k (suc rounds) q e) (e, idle, λ t h. h)
  | inr (s, rest, e) ↦
      let p = do_detach_from_queue k q s false in
      let lists = do_detach_lists k q s false in
      let (pend, _) = do_detach_owner k q s false s in
      let shorter : length p.running ≤ rounds = ground (arith, lists) in
      let still : p.pending ≡ [] = ground (arith, pend) in
      let (empty, none_pending, left) = drain_running_lem k rounds p shorter still in
      rw (drain_running_more k rounds q s rest e)
        (empty, none_pending, λ t h. left t (detach-IsLeft k q s t h))
]

-- The count of running sources counts the list's own sentinel.
never_zero : (q : Queue) → IsQueue q → (q.stat_running == 0) ≡ false
never_zero q w = elim w.started [
  | inl off ↦ ground (arith, w.running_count)
  | inr (f, at) ↦ ground (arith, w.running_count, w.cursor f at, length-erase f q.running)
]

-- neb_evdp_queue_destroy of a well-formed queue empties both lists, every source that was in one of
-- them, the sentinel of an ongoing foreach too, is in no queue afterwards, and its on_remove is
-- called, where it is set: once for each, the pending sources first, in the order of the lists.
-- The call of neb_evdp_source_del at its head frees no sentinel where there is one.
pub queue_destroy_lem :
    (k : Kernel) (q : Queue)
    → IsQueue q
    → let r = queue_destroy k q in
      (r.running ≡ [])
      × (r.pending ≡ [])
      × ((t : ℕ) → (mem t q.running || mem t q.pending) ≡ true → (r.source t).q_in_use ≡ none)
      × (r.removed ≡ called q.source q.running (called q.source q.pending q.removed))
      × (frees_sentinel q ≡ not (is_attached q.foreach_s))
unfolding queue_destroy frees_sentinel is_refused
queue_destroy_lem k q w =
    let q1 = record q { destroying = true; foreach_s = none } in
    let q2 = drain_pending k (length q.pending) q1 in
    let flagged : IsFlagged q1 = record {
      distinct = w.pending_distinct;
      flag = λ t h. (w.pending_flag t h).0;
    } in
    let (idle, left) = drain_pending_lem k (length q.pending) q1 (omega arith) in
    let counts = drain_pending_counts k (length q.pending) q1 flagged in
    let some_pending : (q.stat_pending == 0) ≡ false = ground (arith, w.pending_count) in
    let some_running : (q2.stat_running == 0) ≡ false = rw counts (never_zero q w) in
    let (empty, none_pending, left2) =
      drain_running_lem k (length q2.running) q2 (omega arith) idle in
    let runs : queue_destroy k q ≡ drain_running k (length q2.running) q2 =
      simp (queue_destroy, some_pending, some_running) refl in
    let (first, same_running, same_calls) =
      drain_pending_calls k q.pending q1 refl
        (λ t h. ground (arith, w.pending_flag t h, w.running_flag t)) in
    let second = drain_running_calls k q2.running q2 refl in
    rw runs (
      empty,
      none_pending,
      λ t h.
          freed (drain_running k (length q2.running) q2) t empty none_pending
            (left2 t (left t (inr h))),
      second
          ∙ called_same q2.source q.source q2.running q2.removed same_calls
          ∙ ap (λ xs. called q.source xs q2.removed) same_running
          ∙ ap (λ b. called q.source q.running b) first,
      sentinel (Option-cases q.foreach_s),
    )
  where
    freed :
        (r : Queue) (t : ℕ)
        → r.running ≡ []
        → r.pending ≡ []
        → IsLeft t r
        → (r.source t).q_in_use ≡ none
    freed r t e f h = ground (arith, h)

    sentinel :
        ((q.foreach_s ≡ none) ⊎ ((f : ℕ) × (q.foreach_s ≡ some f)))
        → frees_sentinel q ≡ not (is_attached q.foreach_s)
    sentinel (inl none_made) = ground arith
    sentinel (inr (f, at)) = ground (arith, w.cursor f at)
