-- ===== src/Evdp/Queue/Handle/Ready.antt =====
-- A queue while an event of a source is handled (handle_event of src/evdp/core.c).
use nebase.Base.{
  ℕ, zero, suc, ◌<◌, ◌≡◌, ◌≢◌, refl, arith, Bool, true, List, [], ◌∷◌, Option, some, length, drop,
  get_elem?,
}
use nebase.Evdp.Ids.{mem, erase, IsDistinct, mem-erase}
use nebase.Evdp.Source.{Context}
use nebase.Evdp.Queue.{Queue, Kernel, Event, forget, set_context, do_detach_from_queue}
use nebase.Evdp.Queue.Invariant.{IsQueue, SameLists, SameLists-IsQueue, set_context-SameLists}
use nebase.Evdp.Queue.Detach.{do_detach-IsDetached, do_detach_events, do_detach_lists}
use nebase.Evdp.Queue.Foreach.{set_no_detach}
use nebase.Evdp.Queue.OsFd.{to_pending}
use nebase.Evdp.Queue.OsFd.Moves.{to_pending-IsQueue}

-- No event of the list is for `s`.
abbrev pub Untold : ℕ → List Event → Type 0
Untold s [] = Unit
Untold s (e ∷ es) = (e.ptr ≢ some s) × Untold s es

-- Every event is for a running source that is not the sentinel, and no two for the same one.
abbrev pub Served : List ℕ → Option ℕ → List Event → Type 0
Served running f [] = Unit
Served running f (e ∷ es) =
    ((s : ℕ) → e.ptr ≡ some s → (mem s running ≡ true) × (f ≢ some s) × Untold s es)
    × Served running f es

-- A queue whose event `i` of `n` is in hand: every source that a later event is for runs.
pub record IsHandled (q : Queue) (i n : ℕ) : Type 0 where
  pub well_formed : IsQueue q
  pub at : q.current_event ≡ i
  pub served : Served q.running q.foreach_s (drop (suc i) q.events)
  pub count : length q.events ≡ n

-- The same while the event's source `s` is called.
pub record IsReady (q : Queue) (i n s : ℕ) : Type 0 where
  pub handled : IsHandled q i n
  pub runs : mem s q.running ≡ true
  pub apart : q.foreach_s ≢ some s
  pub untold : Untold s (drop (suc i) q.events)

forget-length : (s i : ℕ) (es : List Event) → length (forget s i es) ≡ length es
unfolding forget
forget-length s i [] = refl
forget-length s zero (e ∷ es) = ground (arith, forget-length s zero es)
forget-length s (suc i) (e ∷ es) = ground (arith, forget-length s i es)

forget-Untold : (s t : ℕ) (es : List Event) → Untold t es → Untold t (forget s zero es)
unfolding forget
forget-Untold s t [] u = tt
forget-Untold s t (e ∷ es) u = (λ h. u.0 (ground arith), forget-Untold s t es u.1)

-- What is served once the events of `s` are forgotten and `s` has left the list.
forget-Served :
    (s : ℕ) (running : List ℕ) (f : Option ℕ) (es : List Event)
    → IsDistinct running
    → Served running f es
    → Served (erase s running) f (forget s zero es)
unfolding forget
forget-Served s running f [] d v = tt
forget-Served s running f (e ∷ es) d v = (
  λ t h. (
    ground (arith, v.0 t, mem-erase s t running d),
    (v.0 t (ground arith)).1,
    forget-Untold s t es (v.0 t (ground arith)).2,
  ),
  forget-Served s running f es d v.1,
)

forget-drop :
    (s i : ℕ) (es : List Event) → drop (suc i) (forget s i es) ≡ forget s zero (drop (suc i) es)
unfolding forget
forget-drop s i [] = refl
forget-drop s zero (e ∷ es) = refl
forget-drop s (suc i) (e ∷ es) = forget-drop s i es

Served-erase :
    (s : ℕ) (running : List ℕ) (f : Option ℕ) (es : List Event)
    → IsDistinct running
    → Untold s es
    → Served running f es
    → Served (erase s running) f es
Served-erase s running f [] d u v = tt
Served-erase s running f (e ∷ es) d u v = (
  λ t h. (ground (arith, v.0 t, u.0, mem-erase s t running d), (v.0 t h).1, (v.0 t h).2),
  Served-erase s running f es d u.1 v.1,
)

-- A change of the sources' contexts only.
pub SameLists-IsHandled :
    {q r : Queue} {i n : ℕ}
    → SameLists q r
    → r.events ≡ q.events
    → r.current_event ≡ q.current_event
    → IsHandled q i n
    → IsHandled r i n
SameLists-IsHandled same es at h = record {
  well_formed = SameLists-IsQueue same h.well_formed;
  at = rw at h.at;
  served = rw (same.running, same.foreach_s, es) h.served;
  count = rw es h.count;
}

pub SameLists-IsReady :
    {q r : Queue} {i n s : ℕ}
    → SameLists q r
    → r.events ≡ q.events
    → r.current_event ≡ q.current_event
    → IsReady q i n s
    → IsReady r i n s
SameLists-IsReady same es at w = record {
  handled = SameLists-IsHandled same es at w.handled;
  runs = rw same.running w.runs;
  apart = rw same.foreach_s w.apart;
  untold = rw es w.untold;
}

pub set_context-IsReady :
    (q : Queue) (i n s : ℕ) (c : Context) → IsReady q i n s → IsReady (set_context q s c) i n s
set_context-IsReady q i n s c w = SameLists-IsReady (set_context-SameLists q s c) refl refl w

set_no_detach-SameLists : (q : Queue) (s : ℕ) (b : Bool) → SameLists q (set_no_detach q s b)
set_no_detach-SameLists q s b = record {
  self = refl;
  running = refl;
  pending = refl;
  foreach_s = refl;
  in_foreach = refl;
  stat_pending = refl;
  stat_running = refl;
  flags = λ t. ground arith;
}

pub set_no_detach-IsReady :
    (q : Queue) (i n s : ℕ) (b : Bool) → IsReady q i n s → IsReady (set_no_detach q s b) i n s
set_no_detach-IsReady q i n s b w = SameLists-IsReady (set_no_detach-SameLists q s b) refl refl w

pub set_no_detach-IsHandled :
    (q : Queue) (i n s : ℕ) (b : Bool) → IsHandled q i n → IsHandled (set_no_detach q s b) i n
set_no_detach-IsHandled q i n s b w =
    SameLists-IsHandled (set_no_detach-SameLists q s b) refl refl w

module _ (q : Queue) (i n s : ℕ) (w : IsReady q i n s) where
  abbrev wq : IsQueue q
  wq = w.handled.well_formed

  pub detach-IsHandled : (k : Kernel) (c : Bool) → IsHandled (do_detach_from_queue k q s c) i n
  detach-IsHandled k c =
      let d = do_detach-IsDetached k q s c wq (ground (arith, w.runs)) w.apart in
      let es = do_detach_events k q s c wq in
      let same = do_detach_lists k q s c in
      let e : (do_detach_from_queue k q s c).events ≡ forget s i q.events =
        rw⁻¹ w.handled.at es.0 in
      record {
        well_formed = d.well_formed;
        at = rw es.1 w.handled.at;
        served =
            rw (e, same.0, same.1, forget-drop s i q.events)
              (forget-Served s q.running q.foreach_s (drop (suc i) q.events) wq.running_distinct
                w.handled.served);
        count = rw (e, forget-length s i q.events) w.handled.count;
      }

  pub rearmed-IsHandled : IsHandled (to_pending q s) i n
  rearmed-IsHandled = record {
    well_formed = to_pending-IsQueue q s wq w.runs w.apart;
    at = w.handled.at;
    served =
        Served-erase s q.running q.foreach_s (drop (suc i) q.events) wq.running_distinct w.untold
          w.handled.served;
    count = w.handled.count;
  }

-- The event that the queue comes to, and what is then left.
pub Served-drop :
    (running : List ℕ) (f : Option ℕ) (i : ℕ) (es : List Event) (e : Event)
    → get_elem? es i ≡ some e
    → Served running f (drop i es)
    → ((s : ℕ)
        → e.ptr ≡ some s
        → (mem s running ≡ true) × (f ≢ some s) × Untold s (drop (suc i) es))
      × Served running f (drop (suc i) es)
Served-drop running f i [] e h v = cc
Served-drop running f zero (x ∷ es) e h v = (λ s k. v.0 s (ground arith), v.1)
Served-drop running f (suc i) (x ∷ es) e h v = Served-drop running f i es e h v

pub get_elem?_lt :
    (i : ℕ) (es : List Event) → i < length es → (e : Event) × (get_elem? es i ≡ some e)
get_elem?_lt i [] h = elim h [ ]
get_elem?_lt zero (x ∷ es) h = (x, refl)
get_elem?_lt (suc i) (x ∷ es) h = get_elem?_lt i es (omega arith)
