-- ===== src/Evdp/Timer/Spare.antt =====
-- Points got and given back: evdp_timer_cblist_node_new and _free of src/evdp/timer.c.
use nebase.Base.{
  ℕ, ◌==◌, ltb, ◌≡◌, refl, arith, true, false, ◌||◌, inl, inr, List, ◌∷◌, some, subst, Bool-cases,
  List-cases, length,
}
use nebase.Evdp.Ids.{mem, IsDistinct}
use nebase.Evdp.Timer.{Timer, clear_point, point_new, point_free}
use nebase.Evdp.Timer.Tree.{RbTree}
use nebase.Evdp.Timer.Invariant.{IsTimer, IsFreshPoint}
use nebase.Evdp.Timer.Links.{OthersStay}

-- All is as before but for the points' cache.
pub record OnlyCache {T : Type 0} (t r : Timer T) : Type 0 where
  pub tree : r.tree ≡ t.tree
  pub ts : r.ts ≡ t.ts
  pub cblist : r.cblist ≡ t.cblist
  pub no_auto_del : r.no_auto_del ≡ t.no_auto_del
  pub refs : r.ref_tnode ≡ t.ref_tnode
  pub running : r.running ≡ t.running
  pub keeplist : r.keeplist ≡ t.keeplist
  pub tcache : r.tcache ≡ t.tcache
  pub calls : r.calls ≡ t.calls

module _ {T : Type 0} where
  only_cache : (t : Timer T) (l : List ℕ) → OnlyCache t (record t { lcache = l })
  only_cache t l = record {
    tree = refl;
    ts = refl;
    cblist = refl;
    no_auto_del = refl;
    refs = refl;
    running = refl;
    keeplist = refl;
    tcache = refl;
    calls = refl;
  }

  pub point_free_same : (t : Timer T) (p : ℕ) → OnlyCache t (point_free t p)
  unfolding point_free
  point_free_same t p = elim (Bool-cases (ltb (length t.lcache) t.lcache_size)) [
    | inl room ↦ rw room (only_cache t (p ∷ t.lcache))
    | inr full ↦ rw full (only_cache t t.lcache)
  ]

module _ {T : Type 0} (rb : RbTree T) where
  pub point_free_lem :
      (t : Timer T) (p : ℕ)
      → IsTimer rb t
      → IsFreshPoint t p
      → IsTimer rb (point_free t p) × OthersStay t (point_free t p) p
  unfolding point_free
  point_free_lem t p w f = elim (Bool-cases (ltb (length t.lcache) t.lcache_size)) [
    | inl room ↦ rw room (
      record {
        ordered = w.ordered;
        listed = w.listed;
        distinct = w.distinct;
        kept = w.kept;
        kept_distinct = w.kept_distinct;
        spare_nodes = w.spare_nodes;
        spare_nodes_distinct = w.spare_nodes_distinct;
        spare_points = λ q h. (ground (arith, w.spare_points q, f.not_kept), λ m. spare_one q m h);
        spare_points_distinct = (f.not_in_cache, w.spare_points_distinct);
      },
      record { pending = λ q n apart e m. (e, m, refl); kept = λ q apart. refl },
    )
    | inr full ↦
        rw full (w, record { pending = λ q n apart e m. (e, m, refl); kept = λ q apart. refl })
  ]
    where
      spare_one : (q m : ℕ) → (p == q || mem q t.lcache) ≡ true → mem q (t.cblist m) ≡ false
      spare_one q m h = elim (Bool-cases (p == q)) [
        | inl same ↦ ground (arith, f.not_listed m)
        | inr apart ↦ (w.spare_points q (ground arith)).1 m
      ]

  clear_point_lem :
      (t : Timer T) (p : ℕ)
      → IsTimer rb t
      → IsFreshPoint t p
      → IsTimer rb (clear_point t p)
        × IsFreshPoint (clear_point t p) p
        × OthersStay t (clear_point t p) p
        × ((clear_point t p).running p ≡ false)
  clear_point_lem t p w f = (
    record {
      ordered = w.ordered;
      listed = λ m q. ground (arith, w.listed m q, f.not_listed m);
      distinct = w.distinct;
      kept = λ q. ground (arith, w.kept q);
      kept_distinct = w.kept_distinct;
      spare_nodes = w.spare_nodes;
      spare_nodes_distinct = w.spare_nodes_distinct;
      spare_points = w.spare_points;
      spare_points_distinct = w.spare_points_distinct;
    },
    record { not_kept = f.not_kept; not_listed = f.not_listed; not_in_cache = f.not_in_cache },
    record { pending = λ q n apart e m. (ground arith, m, refl); kept = λ q apart. refl },
    ground arith,
  )

  -- The point is the cache's last one, or the new one, and is in no list.
  pub point_new_lem :
      (t : Timer T) (block : ℕ)
      → IsTimer rb t
      → IsFreshPoint t block
      → (r : Timer T) × (p : ℕ) × (point_new t (some block) ≡ some (r, p))
        × IsTimer rb r
        × IsFreshPoint r p
        × OthersStay t r p
        × (r.running p ≡ false)
        × (r.tree ≡ t.tree)
        × (r.ts ≡ t.ts)
  unfolding point_new
  point_new_lem t block w f = elim (List-cases t.lcache) [
    | inl empty ↦
        let (v, g, o, i) = clear_point_lem t block w f in
        (clear_point t block, block, rw empty refl, v, g, o, i, refl, refl)
    | inr (p, rest, e) ↦
        let t0 = record t { lcache = rest } in
        let d : IsDistinct (p ∷ rest) = subst IsDistinct e w.spare_points_distinct in
        let (not_kept, not_listed) = w.spare_points p (ground (arith, e)) in
        let w0 : IsTimer rb t0 = record {
          ordered = w.ordered;
          listed = w.listed;
          distinct = w.distinct;
          kept = w.kept;
          kept_distinct = w.kept_distinct;
          spare_nodes = w.spare_nodes;
          spare_nodes_distinct = w.spare_nodes_distinct;
          spare_points = λ q h. w.spare_points q (ground (arith, e));
          spare_points_distinct = d.1;
        } in
        let f0 : IsFreshPoint t0 p = record {
          not_kept = not_kept;
          not_listed = not_listed;
          not_in_cache = d.0;
        } in
        let (v, g, o, i) = clear_point_lem t0 p w0 f0 in
        (
          clear_point t0 p,
          p,
          rw e refl,
          v,
          g,
          record { pending = o.pending; kept = o.kept },
          i,
          refl,
          refl,
        )
  ]
