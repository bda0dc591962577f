-- ===== src/Evdp/Queue/Foreach/Ends.antt =====
-- The foreach of src/evdp/core.c with no batch size comes to its end.
use nebase.Base.{
  List-cases, ℕ, zero, suc, ◌+◌, ◌==◌, ◌≤◌, ◌≡◌, refl, arith, Bool, true, false, inl, inr, List, [],
  ◌∷◌, some, length, Bool-cases, Option-cases,
}
use nebase.Evdp.Ids.{
  mem, erase, behind, IsDistinct, mem-erase, erase-IsDistinct, insert_after-IsDistinct,
  mem-insert_after, mem-behind, mem-behind_ne,
}
use nebase.Evdp.Source.{CbRet, continue, remove, close, break_exp, break_err, end_foreach, invalid}
use nebase.Evdp.Queue.{Queue, Kernel, slist_remove, do_detach_from_queue}
use nebase.Evdp.Queue.Invariant.{IsQueue}
use nebase.Evdp.Queue.Detach.{do_detach_lists}
use nebase.Evdp.Queue.Foreach.{
  EachCall, find_next, set_no_detach, visit, next_one, apply_ret, foreach_step, foreach_set_end,
  Outcome, ended, failed, stopped, foreach_loop, next_all,
}
use nebase.Evdp.Queue.Foreach.Step.{find_next-mem}
use nebase.Evdp.Queue.Foreach.Behind.{
  behind_le, behind-erase, listed_if_behind, behind_absent, behind-move,
}

-- A queue with the sentinel `f`, which is in the running list during a foreach and only then.
pub record IsWalked (q : Queue) (f : ℕ) : Type 0 where
  pub sentinel : q.foreach_s ≡ some f
  pub distinct : IsDistinct q.running
  pub placed : mem f q.running ≡ q.in_foreach

-- A callback that leaves the foreach no more sources to visit than it found: it may attach
-- sources, which come in front of the sentinel, detach others, or end the foreach.
abbrev pub IsSteady : EachCall → Type 0
IsSteady each =
    (q : Queue) (s f : ℕ)
    → IsWalked q f
    → IsWalked (each q s).0 f
      × (length (behind f (each q s).0.running) ≤ length (behind f q.running))

module _ (q : Queue) (f : ℕ) (w : IsWalked q f) where
  visit-IsWalked : (b : ℕ) → mem b (behind f q.running) ≡ true → IsWalked (visit q f b) f
  unfolding visit
  visit-IsWalked b m =
      let e = erase-IsDistinct f q.running w.distinct in
      let there : mem b (erase f q.running) ≡ true = ground (
        arith,
        mem-behind f b q.running m,
        mem-behind_ne f b q.running w.distinct m,
        mem-erase f b q.running w.distinct,
      ) in
      record {
        sentinel = w.sentinel;
        distinct =
            insert_after-IsDistinct b f (erase f q.running) there
              (ground (arith, mem-erase f f q.running w.distinct)) e;
        placed = ground (
          arith,
          w.placed,
          mem-insert_after b f f (erase f q.running),
          listed_if_behind f b q.running,
        );
      }

  set_end-IsWalked : IsWalked (foreach_set_end q) f × (behind f (foreach_set_end q).running ≡ [])
  unfolding foreach_set_end
  set_end-IsWalked = elim (Bool-cases q.in_foreach) [
    | inl on ↦
        let closes : foreach_set_end q ≡ record (slist_remove q f) { in_foreach = false } =
          ground (arith, w.sentinel) in
        rw closes (
          record {
            sentinel = w.sentinel;
            distinct = erase-IsDistinct f q.running w.distinct;
            placed = ground (arith, mem-erase f f q.running w.distinct);
          },
          behind_absent f (erase f q.running) (ground (arith, mem-erase f f q.running w.distinct)),
        )
    | inr off ↦
        let same : foreach_set_end q ≡ q = ground arith in
        rw same (w, behind_absent f q.running (ground (arith, w.placed)))
  ]

  detach-IsWalked :
      (k : Kernel) (a : ℕ) (c : Bool)
      → (a == f) ≡ false
      → let r = do_detach_from_queue k q a c in
        IsWalked r f × (length (behind f r.running) ≤ length (behind f q.running))
  detach-IsWalked k a c ne =
      let e = do_detach_lists k q a c in
      (
        record {
          sentinel = rw e.1 w.sentinel;
          distinct = rw e.0 (erase-IsDistinct a q.running w.distinct);
          placed = ground (arith, e, w.placed, mem-erase a f q.running w.distinct);
        },
        rw e.0 (behind-erase f a q.running w.distinct),
      )

-- What a step has made of the queue, unless it failed.
abbrev Moves : ℕ → ℕ → Queue × Bool → Type 0
Moves f n (r, more) = more ≡ true → IsWalked r f × (suc (length (behind f r.running)) ≤ n)

set_end-Moves :
    (f n : ℕ) (p : Queue) → IsWalked p f → suc zero ≤ n → Moves f n (foreach_set_end p, true)
set_end-Moves f n p v le h = let (e, none_left) = set_end-IsWalked p f v in (e, rw none_left le)

apply_ret-Moves :
    (k : Kernel) (f n a : ℕ) (ret : CbRet) (p : Queue)
    → (a == f) ≡ false
    → IsWalked p f
    → suc (length (behind f p.running)) ≤ n
    → Moves f n (apply_ret k a (p, ret))
unfolding apply_ret
apply_ret-Moves k f n a continue p ne v le h = (v, le)
apply_ret-Moves k f n a remove p ne v le h =
    let d = detach-IsWalked p f v k a false ne in (d.0, omega (arith, d.1))
apply_ret-Moves k f n a close p ne v le h =
    let d = detach-IsWalked p f v k a true ne in (d.0, omega (arith, d.1))
apply_ret-Moves k f n a break_exp p ne v le h = cc
apply_ret-Moves k f n a break_err p ne v le h = cc
apply_ret-Moves k f n a end_foreach p ne v le h = set_end-Moves f n p v (omega arith) h
apply_ret-Moves k f n a invalid p ne v le h = cc

step-Moves :
    (k : Kernel) (each : EachCall) (q : Queue) (f a : ℕ) (rest : List ℕ)
    → IsSteady each
    → IsWalked q f
    → behind f q.running ≡ a ∷ rest
    → Moves f (length (behind f q.running)) (foreach_step k each q f a)
unfolding foreach_step
step-Moves k each q f a rest steady w first =
    elim (Option-cases (find_next q (behind f q.running))) [
      | inl nothing ↦
          let ends : next_one each q f ≡ (q, end_foreach) = rw (next_one, nothing) refl in
          rw ends (
            unfold apply_ret in
            set_end-Moves f (length (behind f q.running)) q w (rw first (omega arith)))
      | inr (b, found) ↦
          let there = find_next-mem q b (behind f q.running) found in
          let (v, le) = steady (visit q f b) b f (visit-IsWalked q f w b there) in
          let p = (each (visit q f b) b).0 in
          let calls : next_one each q f ≡ (set_no_detach p b false, (each (visit q f b) b).1) =
            rw (next_one, found) refl in
          let shorter : suc (length (behind f (visit q f b).running))
              ≤ length (behind f q.running) =
            unfold visit in behind-move f b q.running w.distinct there in
          let apart : (a == f) ≡ false =
            mem-behind_ne f a q.running w.distinct (rw first (ground arith)) in
          rw calls (
            apply_ret-Moves k f (length (behind f q.running)) a (each (visit q f b) b).1
              (set_no_detach p b false) apart
              (record { sentinel = v.sentinel; distinct = v.distinct; placed = v.placed })
              (omega (arith, le, shorter)))
    ]

-- The loop has returned a number of steps, or -1.
abbrev pub HasReturned : Outcome → Type 0
HasReturned (ended q count) = Unit
HasReturned (failed q) = Unit
HasReturned (stopped q count) = ⊥

loop_returns :
    (k : Kernel) (each : EachCall) (size : ℕ) (q : Queue) (f count : ℕ)
    → IsSteady each
    → IsWalked q f
    → suc (length (behind f q.running)) ≤ size
    → HasReturned (foreach_loop k each size q count)
unfolding foreach_loop
loop_returns k each zero q f count steady w le = ground arith
loop_returns k each (suc size) q f count steady w le = elim (List-cases (behind f q.running)) [
  | inl done ↦ simp (w.sentinel, done, foreach_loop) tt
  | inr (a, rest, first) ↦
      let moves = step-Moves k each q f a rest steady w first in
      elim (Bool-cases (foreach_step k each q f a).1) [
        | inl more ↦
            let (v, shorter) = moves more in
            let later =
              loop_returns k each size (foreach_step k each q f a).0 f (count + 1) steady v
                (omega (arith, shorter)) in
            simp (w.sentinel, first, more, foreach_loop) later
        | inr over ↦ simp (w.sentinel, first, over, foreach_loop) tt
      ]
]

-- With a callback that leaves the foreach no more sources to visit than it found, a foreach with
-- no batch size on a well-formed queue returns: the steps that are allowed suffice.
pub next_all_returns :
    (k : Kernel) (each : EachCall) (q : Queue)
    → IsQueue q
    → IsSteady each
    → HasReturned (next_all k each q)
unfolding next_all
next_all_returns k each q w steady = elim (Bool-cases q.in_foreach) [
  | inl on ↦ elim w.started [
    | inl off ↦ cc
    | inr (f, at) ↦
        simp (on, next_all)
          (loop_returns k each (suc (length q.running)) q f 0 steady
            (record { sentinel = at; distinct = w.running_distinct; placed = (w.cursor f at).0 })
            (omega (arith, behind_le f q.running)))
  ]
  | inr off ↦ rw off tt
]
