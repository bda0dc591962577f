-- ===== src/Evdp/Timer/Nearest.antt =====
-- Times added and taken away, and the time until a timer's first point:
-- include/nebase/time.h, and evdp_timer_fetch_neareast_ts of src/evdp/timer.c.
use nebase.Base.{
  ℕ, ◌<◌, ◌==◌, ◌≡◌, refl, arith, true, false, inl, inr, List, [], ◌∷◌, Option, none, some, ap₂,
  Bool-cases, List-cases, subst, sym,
}
use nebase.Evdp.Ids.{mem}
use nebase.Evdp.Timespec.{Timespec, is_after, timespecadd, timespecsub}
use nebase.Evdp.Timer.{Timer, fetch_nearest_ts}
use nebase.Evdp.Timer.Tree.{RbTree, InOrder}
use nebase.Evdp.Timer.Tree.Order.{AllAfter-mem}
use nebase.Evdp.Timer.Invariant.{IsTimer}

abbrev pub IsNormal : Timespec → Type 0
IsNormal t = t.tv_nsec < 1000000000

same_time : {a b : Timespec} → a.tv_sec ≡ b.tv_sec → a.tv_nsec ≡ b.tv_nsec → a ≡ b
same_time e f = ap₂ (λ s n. record { tv_sec = s; tv_nsec = n }) e f

-- Of two normal times where the second is not after the first: added and taken away again, the
-- second leaves the first; their difference is normal, and added to the second gives the first.
pub timespecsub-timespecadd :
    (a b : Timespec)
    → IsNormal a
    → IsNormal b
    → is_after b a ≡ false
    → (timespecsub (timespecadd a b) b ≡ a)
      × (timespecadd (timespecsub a b) b ≡ a)
      × IsNormal (timespecsub a b)
unfolding timespecadd timespecsub
timespecsub-timespecadd a b v w h =
    (same_time (ground arith) (ground arith), same_time (ground arith) (ground arith), ground arith)

abbrev no_time : Timespec
no_time = record { tv_sec = 0; tv_nsec = 0 }

-- Where the timer has no nodes there is no timeout. Otherwise it is a normal time: none where a
-- node is due already, and else the time to the first node, which passes no node.
pub data IsNearest (ts : ℕ → Timespec) (ns : List ℕ) (cur : Timespec)
    : Option Timespec → Type 0 where
  for_ever : ns ≡ [] → IsNearest ts ns cur none
  due_now :
      (n : ℕ) → mem n ns ≡ true → is_after (ts n) cur ≡ false → IsNearest ts ns cur (some no_time)
  due_then :
      (n : ℕ) (wait : Timespec)
      → mem n ns ≡ true
      → IsNormal wait
      → timespecadd wait cur ≡ ts n
      → ((m : ℕ) → mem m ns ≡ true → is_after (timespecadd wait cur) (ts m) ≡ false)
      → IsNearest ts ns cur (some wait)

asymmetric : (a b : Timespec) → is_after a b ≡ true → is_after b a ≡ false
asymmetric a b h = ground arith

not_before_first :
    (ts : ℕ → Timespec) (n m : ℕ) (ns : List ℕ)
    → InOrder ts (n ∷ ns)
    → mem m (n ∷ ns) ≡ true
    → is_after (ts n) (ts m) ≡ false
not_before_first ts n m ns o h = elim (Bool-cases (n == m)) [
  | inl same ↦
      let e : n ≡ m = ground arith in
      subst (λ k. is_after (ts n) (ts k) ≡ false) e (irreflexive (ts n))
  | inr apart ↦ asymmetric (ts m) (ts n) (AllAfter-mem ts (ts n) m ns o.0 (ground arith))
]
  where
    irreflexive : (a : Timespec) → is_after a a ≡ false
    irreflexive a = ground arith

-- The timeout for a well-formed timer whose times are normal, at a normal time: none at all without
-- nodes, 0 where the first node is due, and else the time until it, which passes no node.
pub fetch_nearest_ts_lem :
    {T : Type 0} (rb : RbTree T) (t : Timer T) (cur : Timespec)
    → IsTimer rb t
    → IsNormal cur
    → ((n : ℕ) → mem n (rb.nodes t.tree) ≡ true → IsNormal (t.ts n))
    → IsNearest t.ts (rb.nodes t.tree) cur (fetch_nearest_ts rb t cur)
unfolding fetch_nearest_ts
fetch_nearest_ts_lem rb t cur w v normal = elim (List-cases (rb.nodes t.tree)) [
  | inl e ↦
      let runs : fetch_nearest_ts rb t cur ≡ none =
        rw (fetch_nearest_ts, rb.tree_min-nodes t.tree, e) refl in
      rw runs (for_ever e)
  | inr (n, ns, e) ↦
      let at : mem n (rb.nodes t.tree) ≡ true = ground (arith, e) in
      elim (Bool-cases (is_after (t.ts n) cur)) [
        | inr now ↦
            let runs : fetch_nearest_ts rb t cur ≡ some no_time =
              rw (fetch_nearest_ts, rb.tree_min-nodes t.tree, e, now) refl in
            rw runs (due_now n at now)
        | inl later ↦
            let wait = timespecsub (t.ts n) cur in
            let runs : fetch_nearest_ts rb t cur ≡ some wait =
              rw (fetch_nearest_ts, rb.tree_min-nodes t.tree, e, later) refl in
            let (_, sum, fits) =
              timespecsub-timespecadd (t.ts n) cur (normal n at) v
                (asymmetric (t.ts n) cur later) in
            let o : InOrder t.ts (n ∷ ns) = subst (InOrder t.ts) e w.ordered in
            rw runs (
              due_then n wait at fits sum (λ m h.
                subst (λ a. is_after a (t.ts m) ≡ false) (sym sum)
                  (not_before_first t.ts n m ns o (subst (λ l. mem m l ≡ true) e h))))
      ]
]
