-- ===== src/Evdp/Queue/Handle/Loop.antt =====
-- The events of one round of neb_evdp_queue_run of src/evdp/core.c, one after another.
use nebase.Base.{
  ℕ, zero, suc, ◌+◌, ◌≤◌, ◌<◌, ◌≡◌, refl, arith, true, false, inl, inr, List, [], ◌∷◌, some, length,
  drop, ltb, Bool-cases, Option-cases,
}
use nebase.Evdp.Source.{CbRet, continue, remove, close, break_exp, break_err, end_foreach, invalid}
use nebase.Evdp.Queue.{Queue, Kernel, Event}
use nebase.Evdp.Queue.Invariant.{IsQueue, SameLists, SameLists-IsQueue}
use nebase.Evdp.Queue.Foreach.{set_no_detach}
use nebase.Evdp.Queue.Handle.{
  Callbacks, handle_by_type, finish_handle, unprotect, handle_source, handle_event, LoopEnd,
  finished, exit_ok, exit_err, overread, out_of_rounds, after_event, events_loop, clear_events,
  handle_events,
}
use nebase.Evdp.Queue.Handle.Ready.{
  Served, IsReady, IsHandled, set_no_detach-IsReady, set_no_detach-IsHandled, detach-IsHandled,
  Served-drop, get_elem?_lt,
}
use nebase.Evdp.Queue.Handle.Branches.{AreCareful, Leaves, by_type-Leaves}

-- The loop ends with a well-formed queue, by its end or by a break; `n` events are dealt with.
abbrev EndsWell : ℕ → LoopEnd → Type 0
EndsWell n (finished r) = IsQueue r × (length r.events ≡ n)
EndsWell n (exit_ok r) = IsQueue r × (length r.events ≡ n)
EndsWell n (exit_err r) = IsQueue r × (length r.events ≡ n)
EndsWell n overread = ⊥
EndsWell n out_of_rounds = ⊥

-- The events of a round are dealt with and cleared, or a break ended the round.
abbrev pub EndsRound : LoopEnd → Type 0
EndsRound (finished r) = IsQueue r × (r.events ≡ [])
EndsRound (exit_ok r) = IsQueue r
EndsRound (exit_err r) = IsQueue r
EndsRound overread = ⊥
EndsRound out_of_rounds = ⊥

module _ (k : Kernel) (cs : Callbacks) (careful : AreCareful cs) where
  finish-IsHandled :
      (q : Queue) (i n s : ℕ) (ret : CbRet)
      → Leaves i n s (q, ret)
      → IsHandled (finish_handle k s (q, ret)).0 i n
  unfolding finish_handle
  finish-IsHandled q i n s remove (inl w) = detach-IsHandled q i n s w k false
  finish-IsHandled q i n s close (inl w) = detach-IsHandled q i n s w k true
  finish-IsHandled q i n s continue (inl w) = w.handled
  finish-IsHandled q i n s break_exp (inl w) = w.handled
  finish-IsHandled q i n s break_err (inl w) = w.handled
  finish-IsHandled q i n s end_foreach (inl w) = w.handled
  finish-IsHandled q i n s invalid (inl w) = w.handled
  finish-IsHandled q i n s ret (inr (w, goes)) = rw goes w

  unprotect-Leaves :
      (q : Queue) (i n s : ℕ) (ret : CbRet)
      → Leaves i n s (q, ret)
      → Leaves i n s (unprotect s (q, ret))
  unprotect-Leaves q i n s ret (inl w) = inl (set_no_detach-IsReady q i n s false w)
  unprotect-Leaves q i n s ret (inr (w, goes)) = inr (set_no_detach-IsHandled q i n s false w, goes)

  handle_source-IsHandled :
      (e : Event) (q : Queue) (i n s : ℕ)
      → IsReady q i n s
      → IsHandled (handle_source k cs e q s).0 i n
  unfolding handle_source
  handle_source-IsHandled e q i n s w =
      let p = set_no_detach q s true in
      let t = (q.source s).type in
      let r = handle_by_type cs e t p s in
      let leaves = by_type-Leaves cs careful e t p i n s (set_no_detach-IsReady q i n s true w) in
      finish-IsHandled (set_no_detach r.0 s false) i n s r.1 (unprotect-Leaves r.0 i n s r.1 leaves)

  event_in_hand :
      (q : Queue)
      → IsQueue q
      → q.current_event < length q.events
      → Served q.running q.foreach_s (drop q.current_event q.events)
      → (r : Queue) × (ret : CbRet) × (handle_event k cs q ≡ some (r, ret))
        × IsHandled r q.current_event (length q.events)
  unfolding handle_event
  event_in_hand q w lt served =
      let i = q.current_event in
      let (e, there) = get_elem?_lt i q.events lt in
      let (for_ptr, later) = Served-drop q.running q.foreach_s i q.events e there served in
      let rest : IsHandled q i (length q.events) = record {
        well_formed = w;
        at = refl;
        served = later;
        count = refl;
      } in
      elim (Option-cases e.ptr) [
        | inl gone ↦ (q, continue, rw (handle_event, there, gone) refl, rest)
        | inr (s, found) ↦
            let (runs, apart, untold) = for_ptr s found in
            let ready : IsReady q i (length q.events) s = record {
              handled = rest;
              runs = runs;
              apart = apart;
              untold = untold;
            } in
            let r = handle_source k cs e q s in
            (
              r.0,
              r.1,
              rw (handle_event, there, found) refl,
              handle_source-IsHandled e q i (length q.events) s ready,
            )
      ]

  after_event-EndsWell :
      (next : Queue → LoopEnd) (r : Queue) (i n : ℕ) (ret : CbRet)
      → IsHandled r i n
      → EndsWell n (next r)
      → EndsWell n (after_event (some (r, ret)) next)
  after_event-EndsWell next r i n continue h e = e
  after_event-EndsWell next r i n remove h e = e
  after_event-EndsWell next r i n close h e = e
  after_event-EndsWell next r i n break_exp h e = (h.well_formed, h.count)
  after_event-EndsWell next r i n break_err h e = (h.well_formed, h.count)
  after_event-EndsWell next r i n end_foreach h e = e
  after_event-EndsWell next r i n invalid h e = e

  set_current-IsQueue : (q : Queue) (i : ℕ) → IsQueue q → IsQueue (record q { current_event = i })
  set_current-IsQueue q i w = SameLists-IsQueue (same_lists q i) w
    where
      same_lists : (q : Queue) (i : ℕ) → SameLists q (record q { current_event = i })
      same_lists q i = record {
        self = refl;
        running = refl;
        pending = refl;
        foreach_s = refl;
        in_foreach = refl;
        stat_pending = refl;
        stat_running = refl;
        flags = λ t. (refl, refl);
      }

  events_loop-EndsWell :
      (rounds i : ℕ) (q : Queue)
      → IsQueue q
      → length q.events ≤ i + rounds
      → Served q.running q.foreach_s (drop i q.events)
      → EndsWell (length q.events) (events_loop k cs rounds i q)
  unfolding events_loop
  events_loop-EndsWell zero i q w enough served =
      let over : ltb i (length q.events) ≡ false = ground (arith) in rw over (w, refl)
  events_loop-EndsWell (suc rounds) i q w enough served =
      elim (Bool-cases (ltb i (length q.events))) [
        | inl more ↦
            let p = record q { current_event = i } in
            let next : Queue → LoopEnd = λ r. events_loop k cs rounds (i + 1) r in
            let (r, ret, runs, h) =
              event_in_hand p (set_current-IsQueue q i w) (ground arith) served in
            let e : i + 1 ≡ suc i = omega arith in
            let later =
              events_loop-EndsWell rounds (i + 1) r h.well_formed (omega (arith, h.count))
                (rw e h.served) in
            rw (more, runs)
              (after_event-EndsWell next r i (length q.events) ret h (rw h.count at later))
        | inr done ↦ rw done (w, refl)
      ]

  cleared-EndsRound : (n : ℕ) (l : LoopEnd) → EndsWell n l → EndsRound (clear_events l)
  cleared-EndsRound n (finished r) h = (cleared-IsQueue r h.0, refl)
    where
      cleared-IsQueue :
          (r : Queue) → IsQueue r → IsQueue (record r { events = []; current_event = 0 })
      cleared-IsQueue r w = SameLists-IsQueue (same_lists r) w
        where
          same_lists : (r : Queue) → SameLists r (record r { events = []; current_event = 0 })
          same_lists r = record {
            self = refl;
            running = refl;
            pending = refl;
            foreach_s = refl;
            in_foreach = refl;
            stat_pending = refl;
            stat_running = refl;
            flags = λ t. (refl, refl);
          }
  cleared-EndsRound n (exit_ok r) h = h.0
  cleared-EndsRound n (exit_err r) h = h.0
  cleared-EndsRound n overread h = h
  cleared-EndsRound n out_of_rounds h = h

  whole_round :
      (q : Queue)
      → IsQueue q
      → Served q.running q.foreach_s q.events
      → EndsRound (handle_events k cs q)
  unfolding handle_events
  whole_round q w served = elim (Bool-cases (ltb 0 (length q.events))) [
    | inl some_events ↦ rw some_events (
        cleared-EndsRound (length q.events) (events_loop k cs (length q.events) 0 q)
          (events_loop-EndsWell (length q.events) 0 q w (omega arith) served))
    | inr no_events ↦ rw no_events (w, empty_list q.events no_events)
  ]
    where
      empty_list : (es : List Event) → ltb 0 (length es) ≡ false → es ≡ []
      empty_list [] h = refl
      empty_list (e ∷ es) h = ground arith

-- handle_event on a well-formed queue whose current event is one of its events, where every
-- event from it on is for a running source and no two are for the same, and every callback keeps
-- the queue well-formed and its own source and the sources of the later events in the running
-- list: there is an event to read, and the queue is left well-formed with the later events for
-- running sources, whatever the source's type, the values that the callbacks return and the
-- kernel's answers.
pub handle_event-IsHandled :
    (k : Kernel) (cs : Callbacks) (q : Queue)
    → AreCareful cs
    → IsQueue q
    → q.current_event < length q.events
    → Served q.running q.foreach_s (drop q.current_event q.events)
    → (r : Queue) × (ret : CbRet) × (handle_event k cs q ≡ some (r, ret))
      × IsHandled r q.current_event (length q.events)
handle_event-IsHandled k cs q careful w lt served = event_in_hand k cs careful q w lt served

-- The events of a round on a well-formed queue, where every event is for a running source, no two
-- are for the same, and every callback keeps the queue well-formed and its own source and the
-- sources of the later events in the running list: every read is inside the reported events, the
-- loop ends, the queue is left well-formed, and where no break ended the round no event is left.
pub handle_events_lem :
    (k : Kernel) (cs : Callbacks) (q : Queue)
    → AreCareful cs
    → IsQueue q
    → Served q.running q.foreach_s q.events
    → EndsRound (handle_events k cs q)
handle_events_lem k cs q careful w served = whole_round k cs careful q w served
