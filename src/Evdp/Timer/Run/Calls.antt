-- ===== src/Evdp/Timer/Run/Calls.antt =====
-- One call of a callback that only answers, and the inner loop of evdp_timer_run_until of
-- src/evdp/timer.c over such calls.
use nebase.Base.{
  ℕ, zero, suc, ◌+◌, ◌<◌, ◌==◌, ◌≡◌, refl, arith, Bool, true, false, ◌&&◌, ◌||◌, inl, inr, List, [],
  ◌∷◌, none, some, subst, ap, if◌then◌else◌, ◌∙◌, Bool-cases, length,
}
use nebase.Evdp.Ids.{mem, erase, erase_absent}
use nebase.Evdp.Source.{update}
use nebase.Evdp.Timer.{Timer, TimeoutRet, keep, free, point_free}
use nebase.Evdp.Timer.Tree.{RbTree}
use nebase.Evdp.Timer.Invariant.{IsTimer, IsFreshPoint}
use nebase.Evdp.Timer.Links.{list_remove_lem}
use nebase.Evdp.Timer.Spare.{point_free_lem, point_free_same}
use nebase.Evdp.Timer.Run.{Callback, start_point, settle_point, call_point, run_points}

-- Callbacks that answer and leave the timer alone.
abbrev pub answers : {T : Type 0} → (ℕ → TimeoutRet) → Callback T
answers a p t = (t, a p)

abbrev pub is_keep : TimeoutRet → Bool
is_keep keep = true
is_keep free = false

-- A list put in front, its first element last.
abbrev pub onto : List ℕ → List ℕ → List ℕ
onto [] ys = ys
onto (x ∷ xs) ys = onto xs (x ∷ ys)

-- What calls for the points of a node leave: its list is empty of them, and only the kept ones are
-- in the keeplist.
pub record IsCalled {T : Type 0} (rb : RbTree T) (a : ℕ → TimeoutRet) (t r : Timer T) (tn : ℕ)
    (done rest : List ℕ) : Type 0 where
  pub well_formed : IsTimer rb r
  pub tree : r.tree ≡ t.tree
  pub ts : r.ts ≡ t.ts
  pub own_list : r.cblist tn ≡ rest
  pub other_lists : (m : ℕ) → (m == tn) ≡ false → r.cblist m ≡ t.cblist m
  pub calls : r.calls ≡ onto done t.calls
  pub keeplist : (q : ℕ) → mem q r.keeplist ≡ (mem q t.keeplist || mem q done && is_keep (a q))

module _ {T : Type 0} (rb : RbTree T) (a : ℕ → TimeoutRet) where
  -- A point in no list, after its call and with no node.
  called : Timer T → ℕ → Timer T
  called t p =
      let t1 = start_point t p in
      record t1 { running = update t1.running p false; ref_tnode = update t1.ref_tnode p none }

  called_lem :
      (t : Timer T) (p : ℕ)
      → IsTimer rb t
      → mem p t.lcache ≡ false
      → IsTimer rb (called t p) × IsFreshPoint (called t p) p
  unfolding called
  called_lem t p w cached =
      let (v, f, _) = list_remove_lem rb t p w cached in
      (
        record {
          ordered = v.ordered;
          listed = λ m q. ground (arith, v.listed m q, f.not_listed m);
          distinct = v.distinct;
          kept = λ q. ground (arith, v.kept q);
          kept_distinct = v.kept_distinct;
          spare_nodes = v.spare_nodes;
          spare_nodes_distinct = v.spare_nodes_distinct;
          spare_points = v.spare_points;
          spare_points_distinct = v.spare_points_distinct;
        },
        record { not_kept = f.not_kept; not_listed = f.not_listed; not_in_cache = f.not_in_cache },
      )

  keep_lem :
      (t : Timer T) (p : ℕ)
      → IsTimer rb t
      → IsFreshPoint t p
      → t.ref_tnode p ≡ none
      → IsTimer rb (record t { keeplist = p ∷ t.keeplist })
  keep_lem t p w f e = record {
    ordered = w.ordered;
    listed = w.listed;
    distinct = w.distinct;
    kept = λ q. ground (arith, w.kept q);
    kept_distinct = (f.not_kept, w.kept_distinct);
    spare_nodes = w.spare_nodes;
    spare_nodes_distinct = w.spare_nodes_distinct;
    spare_points =
        λ q h. (ground (arith, w.spare_points q, f.not_in_cache), (w.spare_points q h).1);
    spare_points_distinct = w.spare_points_distinct;
  }

  settle_free :
      (t : Timer T) (p m : ℕ)
      → t.ref_tnode p ≡ some m
      → (tn : ℕ) → settle_point (start_point t p) tn p free ≡ point_free (called t p) p
  unfolding settle_point called
  settle_free t p m e tn = rw (settle_point, e) refl

  settle_keep :
      (t : Timer T) (p tn : ℕ)
      → t.ref_tnode p ≡ some tn
      → settle_point (start_point t p) tn p keep
        ≡ record (called t p) { keeplist = p ∷ erase p t.keeplist }
  unfolding settle_point called
  settle_keep t p tn e =
      let same : (tn == tn) ≡ true = ground arith in rw (settle_point, e, same) refl

  keeps_call :
      (t : Timer T) (p q : ℕ) (ret : TimeoutRet)
      → mem p t.keeplist ≡ false
      → a p ≡ ret
      → mem q (if is_keep ret then p ∷ erase p t.keeplist else erase p t.keeplist)
        ≡ (mem q t.keeplist || mem q (p ∷ []) && is_keep (a q))
  keeps_call t p q ret out h =
      let same = erase_absent p t.keeplist out in
      elim (Bool-cases (p == q)) [
        | inl own ↦
            let at : p ≡ q = ground arith in
            let answer : a q ≡ ret = subst (λ x. a x ≡ ret) at h in rw (same, answer) (ground arith)
        | inr other ↦ rw same (ground (arith, other))
      ]

  call_lists :
      (t : Timer T) (tn p : ℕ) (rest : List ℕ) (m : ℕ)
      → IsTimer rb t
      → t.cblist tn ≡ p ∷ rest
      → (erase p (t.cblist tn) ≡ rest) × ((m == tn) ≡ false → erase p (t.cblist m) ≡ t.cblist m)
  call_lists t tn p rest m w e = (
    ground (arith, e),
    λ apart. erase_absent p (t.cblist m) (ground (arith, w.listed tn p, w.listed m p, e)),
  )

  call_with :
      (t : Timer T) (tn p : ℕ) (rest : List ℕ) (ret : TimeoutRet)
      → IsTimer rb t
      → t.cblist tn ≡ p ∷ rest
      → a p ≡ ret
      → IsCalled rb a t (settle_point (start_point t p) tn p ret) tn (p ∷ []) rest
  unfolding called
  call_with t tn p rest ret w e h =
      let listed : mem p (t.cblist tn) ≡ true = ground (arith, e) in
      let own : t.ref_tnode p ≡ some tn = (w.listed tn p listed).0 in
      let cached : mem p t.lcache ≡ false = elim (Bool-cases (mem p t.lcache)) [
        | inl spare ↦ absurd (ground (arith, (w.spare_points p spare).1 tn))
        | inr out ↦ out
      ] in
      let out : mem p t.keeplist ≡ false = ground (arith, w.kept p) in
      let (v, f) = called_lem t p w cached in
      elim ret
          as (λ ret.
            a p ≡ ret
            → IsCalled rb a t (settle_point (start_point t p) tn p ret) tn (p ∷ []) rest) [
              | keep ↦ λ h. rw (settle_keep t p tn own) (record {
                well_formed = keep_lem (called t p) p v f (ground arith);
                tree = refl;
                ts = refl;
                own_list = (call_lists t tn p rest tn w e).0;
                other_lists = λ m. (call_lists t tn p rest m w e).1;
                calls = refl;
                keeplist = λ q. keeps_call t p q keep out h;
              })
              | free ↦ λ h.
                  let (v2, _) = point_free_lem rb (called t p) p v f in
                  let u = point_free_same (called t p) p in
                  rw (settle_free t p tn own tn) (record {
                    well_formed = v2;
                    tree = u.tree;
                    ts = u.ts;
                    own_list = rw u.cblist (call_lists t tn p rest tn w e).0;
                    other_lists = λ m apart. rw u.cblist ((call_lists t tn p rest m w e).1 apart);
                    calls = u.calls;
                    keeplist = λ q. rw u.keeplist (keeps_call t p q free out h);
                  })
            ]
        h

  call_point_lem :
      (t : Timer T) (tn p : ℕ) (rest : List ℕ)
      → IsTimer rb t
      → t.cblist tn ≡ p ∷ rest
      → IsCalled rb a t (call_point (answers a) t tn p) tn (p ∷ []) rest
  call_point_lem t tn p rest w e = call_with t tn p rest (a p) w e refl

  IsCalled-trans :
      {t r s : Timer T} (tn p : ℕ) (done rest1 rest2 : List ℕ)
      → IsCalled rb a t r tn (p ∷ []) rest1
      → IsCalled rb a r s tn done rest2
      → IsCalled rb a t s tn (p ∷ done) rest2
  IsCalled-trans tn p done rest1 rest2 c d = record {
    well_formed = d.well_formed;
    tree = d.tree ∙ c.tree;
    ts = d.ts ∙ c.ts;
    own_list = d.own_list;
    other_lists = λ m apart. d.other_lists m apart ∙ c.other_lists m apart;
    calls = rw (d.calls, c.calls) refl;
    keeplist = λ q. ground (arith, c.keeplist q, d.keeplist q);
  }

  -- With more rounds than points, the loop calls each point of the node once, in order.
  pub run_points_lem :
      (fuel : ℕ) (t : Timer T) (tn count : ℕ) (points : List ℕ)
      → IsTimer rb t
      → t.cblist tn ≡ points
      → length points < fuel
      → (r : Timer T) × (run_points fuel (answers a) t tn count ≡ some (r, count + length points))
        × IsCalled rb a t r tn points []
  unfolding run_points
  run_points_lem zero t tn count points w e lt = absurd (omega arith)
  run_points_lem (suc fuel) t tn count [] w e lt = (
    t,
    rw (run_points, e) (ap (λ c. some (t, c)) (omega arith)),
    record {
      well_formed = w;
      tree = refl;
      ts = refl;
      own_list = e;
      other_lists = λ m apart. refl;
      calls = refl;
      keeplist = λ q. ground arith;
    },
  )
  run_points_lem (suc fuel) t tn count (p ∷ ps) w e lt =
      let t1 = call_point (answers a) t tn p in
      let c = call_point_lem t tn p ps w e in
      let (r, runs, d) =
        run_points_lem fuel t1 tn (count + 1) ps c.well_formed c.own_list (omega arith) in
      (
        r,
        rw (run_points, e) (runs ∙ ap (λ c. some (r, c)) (omega arith)),
        IsCalled-trans tn p ps ps [] c d,
      )
