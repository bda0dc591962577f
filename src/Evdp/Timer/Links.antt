-- ===== src/Evdp/Timer/Links.antt =====
-- Points taken out of and put into the lists of src/evdp/timer.c: what each step keeps.
use nebase.Base.{ℕ, ◌==◌, ◌≡◌, refl, arith, true, false, some}
use nebase.Evdp.Ids.{mem, mem-erase, erase-IsDistinct}
use nebase.Evdp.Source.{update}
use nebase.Evdp.Timer.{Timer, list_remove, list_insert}
use nebase.Evdp.Timer.Tree.{RbTree}
use nebase.Evdp.Timer.Invariant.{IsTimer, IsFreshPoint}
use nebase.Evdp.Timer.Nodes.{Extends}

-- Every other point that is in its node's list is still there, due at the same time, and every
-- other kept point is still kept.
pub record OthersStay {T : Type 0} (t r : Timer T) (p : ℕ) : Type 0 where
  pub pending :
      (q n : ℕ)
      → (q == p) ≡ false
      → t.ref_tnode q ≡ some n
      → mem q (t.cblist n) ≡ true
      → (r.ref_tnode q ≡ some n) × (mem q (r.cblist n) ≡ true) × (r.ts n ≡ t.ts n)
  pub kept : (q : ℕ) → (q == p) ≡ false → mem q r.keeplist ≡ mem q t.keeplist

pub OthersStay-trans :
    {T : Type 0} {t r s : Timer T} (p : ℕ) → OthersStay t r p → OthersStay r s p → OthersStay t s p
OthersStay-trans p a b = record {
  pending = λ q n apart e m.
      let (e1, m1, at1) = a.pending q n apart e m in
      let (e2, m2, at2) = b.pending q n apart e1 m1 in (e2, m2, ground arith);
  kept = λ q apart. ground (arith, a.kept q apart, b.kept q apart);
}

module _ {T : Type 0} (rb : RbTree T) where
  pub Extends-OthersStay :
      {t r : Timer T} (p : ℕ) → IsTimer rb t → Extends rb t r → OthersStay t r p
  Extends-OthersStay p w x = record {
    pending = λ q n apart e m.
        let (_, in_tree) = w.listed n q m in
        (rw x.same_refs e, rw (x.same_lists n in_tree) m, x.same_ts n in_tree);
    kept = λ q apart. rw x.same_keeplist refl;
  }

  pub Extends-IsFreshPoint :
      {t r : Timer T} (p : ℕ) → Extends rb t r → IsFreshPoint t p → IsFreshPoint r p
  Extends-IsFreshPoint p x f = record {
    not_kept = rw x.same_keeplist f.not_kept;
    not_listed = λ n. ground (arith, x.no_more n p, f.not_listed n);
    not_in_cache = rw x.same_lcache f.not_in_cache;
  }

  -- A point in no list is put in the list of a node of the tree.
  abbrev pub link : Timer T → ℕ → ℕ → Timer T
  link t n p = list_insert (record t { ref_tnode = update t.ref_tnode p (some n) }) n p

  pub link_lem :
      (t : Timer T) (n p : ℕ)
      → IsTimer rb t
      → IsFreshPoint t p
      → mem n (rb.nodes t.tree) ≡ true
      → IsTimer rb (link t n p) × OthersStay t (link t n p) p
  link_lem t n p w f in_tree = (
    record {
      ordered = w.ordered;
      listed = λ m q. ground (arith, w.listed m q, f.not_listed m);
      distinct = λ m. ground (arith, w.distinct m, f.not_listed m);
      kept = λ q. ground (arith, w.kept q, f.not_kept);
      kept_distinct = w.kept_distinct;
      spare_nodes = w.spare_nodes;
      spare_nodes_distinct = w.spare_nodes_distinct;
      spare_points = λ q h.
          ((w.spare_points q h).0, λ m. ground (arith, (w.spare_points q h).1 m, f.not_in_cache));
      spare_points_distinct = w.spare_points_distinct;
    },
    record {
      pending = λ q m apart e h. (ground arith, ground arith, refl);
      kept = λ q apart. refl;
    },
  )

  pub list_remove_lem :
      (t : Timer T) (p : ℕ)
      → IsTimer rb t
      → mem p t.lcache ≡ false
      → let r = list_remove t p in IsTimer rb r × IsFreshPoint r p × OthersStay t r p
  list_remove_lem t p w cached = (
    record {
      ordered = w.ordered;
      listed = λ m q h. w.listed m q (ground (arith, mem-erase p q (t.cblist m) (w.distinct m)));
      distinct = λ m. erase-IsDistinct p (t.cblist m) (w.distinct m);
      kept = λ q h. w.kept q (ground (arith, mem-erase p q t.keeplist w.kept_distinct));
      kept_distinct = erase-IsDistinct p t.keeplist w.kept_distinct;
      spare_nodes = w.spare_nodes;
      spare_nodes_distinct = w.spare_nodes_distinct;
      spare_points = λ q h. (
        ground (arith, mem-erase p q t.keeplist w.kept_distinct, (w.spare_points q h).0),
        λ m. ground (arith, mem-erase p q (t.cblist m) (w.distinct m), (w.spare_points q h).1 m),
      );
      spare_points_distinct = w.spare_points_distinct;
    },
    record {
      not_kept = ground (arith, mem-erase p p t.keeplist w.kept_distinct);
      not_listed = λ n. ground (arith, mem-erase p p (t.cblist n) (w.distinct n));
      not_in_cache = cached;
    },
    record {
      pending =
          λ q m apart e h. (e, ground (arith, mem-erase p q (t.cblist m) (w.distinct m)), refl);
      kept = λ q apart. ground (arith, mem-erase p q t.keeplist w.kept_distinct);
    },
  )
