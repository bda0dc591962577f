-- ===== src/Evdp/Queue/Foreach.antt =====
-- The foreach of src/evdp/core.c: a sentinel in the running list marks how far it has come.
pub mod Step
pub mod Bounds
pub mod Behind
pub mod Ends
pub mod Tests
use nebase.Base.{
  ℕ, zero, suc, ◌+◌, ◌==◌, Bool, true, false, not, List, [], ◌∷◌, Option, none, some, if◌then◌else◌,
  u32, length,
}
use nebase.Evdp.Ids.{erase, insert_after, behind, head?}
use nebase.Evdp.Source.{
  SourceType, source_none, CbRet, continue, remove, close, break_exp, break_err, end_foreach,
  invalid, Source, new_source, update,
}
use nebase.Evdp.Queue.{
  Queue, Kernel, set_source, slist_remove, running_insert_no_stats, do_detach_from_queue,
}

-- evdp_source_new_empty, for a block that calloc returned.
abbrev pub new_empty : ℕ → Source
new_empty q = record (new_source source_none) { q_in_use = some q; on_remove = true }

-- The sentinel, made on the first use; `block` is what calloc returns where it is called.
pub foreach_sentinel : Queue → Option ℕ → Option (Queue × ℕ)
foreach_sentinel q block = elim q.foreach_s [
  | some f ↦ some (q, f)
  | none ↦ elim block [
    | none ↦ none
    | some f ↦ some (record (set_source q f (new_empty q.self)) { foreach_s = some f }, f)
  ]
]

foreach_begin : Option (Queue × ℕ) → Queue → Queue × Option ℕ
foreach_begin none q = (q, none)
foreach_begin (some (q1, f)) q =
    let q2 = running_insert_no_stats q1 f in
    let q3 = record q2 { foreach_id = u32 (q2.foreach_id + 1); in_foreach = true } in
    (q3, some q3.stat_running)

-- neb_evdp_queue_foreach_start; no number is -1. The callback is an argument of the steps below.
pub foreach_start : Queue → Option ℕ → Queue × Option ℕ
unfolding foreach_sentinel foreach_begin
foreach_start q block =
    if q.in_foreach then (q, none) else foreach_begin (foreach_sentinel q block) q

pub foreach_set_end : Queue → Queue
foreach_set_end q =
    if not q.in_foreach
    then q
    else elim q.foreach_s [ none ↦ q | some f ↦ record (slist_remove q f) { in_foreach = false } ]

-- q->foreach_s->next
abbrev pub foreach_next_source : Queue → Option ℕ
foreach_next_source q = elim q.foreach_s [ none ↦ none | some f ↦ head? (behind f q.running) ]

pub foreach_has_ended : Queue → Bool
foreach_has_ended q =
    if q.in_foreach then elim (foreach_next_source q) [ none ↦ true | some s ↦ false ] else true

-- The for loop of evdp_queue_foreach_next_one.
pub find_next : Queue → List ℕ → Option ℕ
find_next q [] = none
find_next q (s ∷ rest) =
    let later = find_next q rest in
    if (q.source s).foreach_id == q.foreach_id
    then later
    else if not ((q.source s).utype == 0)
    then some s
    else later

-- each_call(s, s->utype, s->udata), which may change the queue.
abbrev pub EachCall : Type 0
EachCall = Queue → ℕ → Queue × CbRet

abbrev pub set_no_detach : Queue → ℕ → Bool → Queue
set_no_detach q s b = set_source q s (record (q.source s) { no_detach = b })

-- The queue as the callback for `s` finds it: `s` is marked as visited and protected, and the
-- sentinel stands right behind it.
pub visit : Queue → ℕ → ℕ → Queue
visit q f s =
    let q1 = set_source q s (record (q.source s) { foreach_id = q.foreach_id }) in
    let q2 = slist_remove q1 f in
    let q3 = record q2 { running = insert_after s f q2.running } in set_no_detach q3 s true

-- evdp_queue_foreach_next_one with the sentinel `f`.
pub next_one : EachCall → Queue → ℕ → Queue × CbRet
unfolding find_next visit
next_one each q f = elim (find_next q (behind f q.running)) [
  | none ↦ (q, end_foreach)
  | some s ↦ let (q', ret) = each (visit q f s) s in (set_no_detach q' s false, ret)
]

-- The switch of EVDP_QUEUE_FOREACH_NEXT_ONE, where `s` is the source that stood behind the
-- sentinel before evdp_queue_foreach_next_one ran; false is the return of -1.
pub apply_ret : Kernel → ℕ → Queue × CbRet → Queue × Bool
unfolding foreach_set_end
apply_ret k s (q, continue) = (q, true)
apply_ret k s (q, remove) = (do_detach_from_queue k q s false, true)
apply_ret k s (q, close) = (do_detach_from_queue k q s true, true)
apply_ret k s (q, end_foreach) = (foreach_set_end q, true)
apply_ret k s (q, break_exp) = (q, false)
apply_ret k s (q, break_err) = (q, false)
apply_ret k s (q, invalid) = (q, false)

pub foreach_step : Kernel → EachCall → Queue → ℕ → ℕ → Queue × Bool
unfolding next_one apply_ret
foreach_step k each q f s = apply_ret k s (next_one each q f)

-- What a run of foreach steps returns: the number of steps, -1, or that the steps allowed are
-- used up.
pub data Outcome : Type 0 where
  ended : Queue → ℕ → Outcome
  failed : Queue → Outcome
  stopped : Queue → ℕ → Outcome

-- The while loops of evdp_queue_foreach_next_all and evdp_queue_foreach_next_batched, for at
-- most the given number of steps.
pub foreach_loop : Kernel → EachCall → ℕ → Queue → ℕ → Outcome
foreach_loop k each zero q count = stopped q count
foreach_loop k each (suc size) q count = elim q.foreach_s [
  | none ↦ failed q
  | some f ↦ elim (head? (behind f q.running)) [
    | none ↦ ended q count
    | some s ↦
        let (q', more) = foreach_step k each q f s in
        let rest = foreach_loop k each size q' (count + 1) in if more then rest else failed q'
  ]
]

-- evdp_queue_foreach_next_batched in a foreach: `size` steps at most.
pub next_batched : Kernel → EachCall → Queue → ℕ → Outcome
unfolding foreach_loop foreach_step
next_batched k each q size = if q.in_foreach then foreach_loop k each size q 0 else ended q 0

-- The same with no batch size. A step moves the sentinel on, so as many steps are allowed as
-- there are sources in the list, and one more.
pub next_all : Kernel → EachCall → Queue → Outcome
unfolding foreach_loop foreach_step
next_all k each q =
    if q.in_foreach then foreach_loop k each (suc (length q.running)) q 0 else ended q 0

-- neb_evdp_queue_foreach_next
abbrev pub foreach_next : Kernel → EachCall → Queue → ℕ → Outcome
foreach_next k each q batch_size =
    if batch_size == 0 then next_all k each q else next_batched k each q batch_size
