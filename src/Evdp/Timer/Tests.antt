-- ===== src/Evdp/Timer/Tests.antt =====
-- The timer of src/evdp/timer.c on small timers.
use nebase.Base.{
  ℕ, ◌==◌, ◌≡◌, refl, arith, true, false, ◌||◌, inl, List, [], ◌∷◌, Option, none, some,
  if◌then◌else◌,
}
use nebase.Evdp.Ids.{mem}
use nebase.Random.Ordered.{occurs}
use nebase.Evdp.Timespec.{Timespec}
use nebase.Evdp.Timer.{
  Timer, TimeoutRet, keep, free, new_point, del_point, point_reset, fetch_nearest_ts,
}
use nebase.Evdp.Timer.Tree.{list_tree}
use nebase.Evdp.Timer.Invariant.{IsTimer, IsFreshNode, IsFreshPoint, due, IsPending}
use nebase.Evdp.Timer.Links.{OthersStay}
use nebase.Evdp.Timer.Points.{IsPoint, new_point_lem, del_point_lem}
use nebase.Evdp.Timer.Reset.{IsMoved, point_reset_lem}
use nebase.Evdp.Timer.Run.{Callback, run_until}
use nebase.Evdp.Timer.Run.Calls.{answers}
use nebase.Evdp.Timer.Run.Until.{IsRun, run_until_lem}
use nebase.Evdp.Timer.Nearest.{IsNearest, fetch_nearest_ts_lem}
use nebase.Evdp.Timer.Destroy.{Freed, timer_destroy}
use nebase.Evdp.Timer.Destroy.Once.{IsOwnedPoint, timer_destroy_lem}

abbrev at_time : ℕ → ℕ → Timespec
at_time s n = record { tv_sec = s; tv_nsec = n }

-- The points 1 and 2 at 5 s, 3 at 7 s and 5 ns, and 4 kept; the node 12 and the point 6 are cached.
abbrev two_nodes : Timer (List ℕ)
two_nodes = record {
  tree = 10 ∷ 11 ∷ [];
  ts = λ n. if n == 10 then at_time 5 0 else at_time 7 5;
  cblist = λ n. if n == 10 then 1 ∷ 2 ∷ [] else if n == 11 then 3 ∷ [] else [];
  no_auto_del = λ n. false;
  ref_tnode = λ p. if p == 1 || p == 2 then some 10 else if p == 3 then some 11 else none;
  running = λ p. false;
  keeplist = 4 ∷ [];
  tcache = 12 ∷ [];
  tcache_size = 2;
  lcache = 6 ∷ [];
  lcache_size = 2;
  calls = [];
}

two_nodes-IsTimer : IsTimer list_tree two_nodes
two_nodes-IsTimer = record {
  ordered = ground arith;
  listed = λ n p h. ground arith;
  distinct = λ n. ground arith;
  kept = λ p h. ground arith;
  kept_distinct = ground arith;
  spare_nodes = λ n h. ground arith;
  spare_nodes_distinct = ground arith;
  spare_points = λ p h. (ground arith, λ n. ground arith);
  spare_points_distinct = ground arith;
}

fresh_node : IsFreshNode list_tree two_nodes 13
fresh_node = record { not_in_tree = refl; not_in_cache = refl }

fresh_point : IsFreshPoint two_nodes 7
fresh_point = record { not_kept = refl; not_listed = λ n. ground arith; not_in_cache = refl }

two_nodes-IsPoint : IsPoint two_nodes 3
two_nodes-IsPoint = record {
  not_spare = refl;
  while_running = λ h. ground arith;
  otherwise = λ h. inl (11, refl, refl);
}

abbrev odd_kept : ℕ → TimeoutRet
odd_kept p = if p == 1 then keep else free

abbrev wait_2 : Timespec
wait_2 = at_time 2 5

-- A point at a time whose node exists takes no node.
same_time_test :
    let r = (new_point list_tree two_nodes (at_time 5 0) none none).0 in
    (r.tree ≡ 10 ∷ 11 ∷ []) × (r.cblist 10 ≡ 6 ∷ 1 ∷ 2 ∷ []) × (r.tcache ≡ 12 ∷ [])
unfolding new_point
same_time_test = (refl, refl, refl)

-- A point that cannot be allocated leaves its new node in the tree with no points.
empty_node_test :
    let t = record two_nodes { lcache = [] } in
    let r = (new_point list_tree t (at_time 6 0) none none).0 in
    (r.tree ≡ 10 ∷ 12 ∷ 11 ∷ []) × (r.cblist 12 ≡ [])
unfolding new_point
empty_node_test = (refl, refl)

-- The last point of a node takes the node with it, back into the cache.
last_point_test :
    let r = del_point list_tree two_nodes 3 in
    (r.tree ≡ 10 ∷ []) × (r.tcache ≡ 11 ∷ 12 ∷ []) × (r.lcache ≡ 3 ∷ 6 ∷ [])
unfolding del_point
last_point_test = (refl, refl, refl)

-- A point that its callback resets to the time of the node being run is kept, with no time.
abbrev reset_same : Callback (List ℕ)
reset_same p t = ((point_reset list_tree t p (at_time 5 0) none).0, keep)

abbrev timer_of : Option (Timer (List ℕ) × ℕ) → Timer (List ℕ)
timer_of none = two_nodes
timer_of (some (t, count)) = t

reset_in_callback_test :
    let r = timer_of (run_until list_tree 3 3 reset_same two_nodes (at_time 6 0)) in
    (r.tree ≡ 11 ∷ []) × (r.keeplist ≡ 2 ∷ 1 ∷ 4 ∷ []) × (due r 1 ≡ none)
unfolding run_until point_reset
reset_in_callback_test = (refl, refl, refl)

-- A callback that resets its point to a new time, and adds and deletes another point at that time:
-- the node goes, and the point is put in the list of a node that is in the cache and not in the
-- tree. The same for the second point of the node.
abbrev add_and_delete : Timer (List ℕ) × Option ℕ → Timer (List ℕ)
add_and_delete (t, none) = t
add_and_delete (t, some q) = del_point list_tree t q

abbrev reset_and_delete : Callback (List ℕ)
reset_and_delete p t =
    let t1 = (point_reset list_tree t p (at_time 9 0) none).0 in
    (add_and_delete (new_point list_tree t1 (at_time 9 0) (some 13) none), keep)

freed_node_test :
    let r = timer_of (run_until list_tree 3 3 reset_and_delete two_nodes (at_time 6 0)) in
    (r.tree ≡ 11 ∷ []) × (mem 2 (r.cblist 12) ≡ true) × (mem 12 r.tcache ≡ true)
unfolding run_until point_reset new_point del_point
freed_node_test = (refl, refl, refl)

new_point_lem_example :
    (r : Timer (List ℕ)) × (p : ℕ) × (new_point list_tree two_nodes (at_time 6 0) (some 13) (some 7)
      ≡ (r, some p))
    × IsTimer list_tree r
    × IsPending r p
    × (due r p ≡ some (at_time 6 0))
    × OthersStay two_nodes r p
new_point_lem_example =
    new_point_lem list_tree two_nodes (at_time 6 0) 13 7 two_nodes-IsTimer fresh_node fresh_point

del_point_lem_example :
    let r = del_point list_tree two_nodes 3 in
    IsTimer list_tree r
    × OthersStay two_nodes r 3
    × (mem 3 r.keeplist ≡ false)
    × ((n : ℕ) → mem 3 (r.cblist n) ≡ false)
    × (false ≡ true → due r 3 ≡ none)
del_point_lem_example = del_point_lem list_tree two_nodes 3 two_nodes-IsTimer two_nodes-IsPoint

point_reset_lem_example :
    (r : Timer (List ℕ)) × (point_reset list_tree two_nodes 3 (at_time 4 0) (some 13) ≡ (r, true))
    × IsMoved list_tree two_nodes r 3 (at_time 4 0)
point_reset_lem_example =
    point_reset_lem list_tree two_nodes 3 (at_time 4 0) 13 two_nodes-IsTimer fresh_node
      two_nodes-IsPoint

run_until_lem_example :
    (r : Timer (List ℕ)) × (run_until list_tree 3 3 (answers odd_kept) two_nodes (at_time 6 0)
      ≡ some (r, 2))
    × IsRun list_tree odd_kept two_nodes r (at_time 6 0) (10 ∷ 11 ∷ [])
run_until_lem_example =
    run_until_lem list_tree odd_kept 3 3 two_nodes (at_time 6 0) two_nodes-IsTimer (omega arith)
      (λ n h. ground arith)

fetch_nearest_ts_lem_example :
    IsNearest two_nodes.ts
      (10 ∷ 11 ∷ [])
      (at_time 4 1)
      (fetch_nearest_ts list_tree two_nodes (at_time 4 1))
fetch_nearest_ts_lem_example =
    fetch_nearest_ts_lem list_tree two_nodes (at_time 4 1) two_nodes-IsTimer (omega arith)
      (λ n h. ground arith)

timer_destroy_lem_example :
    (f : Freed) × (timer_destroy list_tree 3 two_nodes ≡ some f)
    × ((n : ℕ) → (mem n (10 ∷ 11 ∷ []) || mem n (12 ∷ [])) ≡ true → occurs n f.nodes ≡ 1)
    × ((p : ℕ) → IsOwnedPoint two_nodes p → occurs p f.points ≡ 1)
timer_destroy_lem_example = timer_destroy_lem list_tree 3 two_nodes two_nodes-IsTimer (omega arith)
