-- ===== src/Evdp/Timer/Invariant.antt =====
-- The well-formed timer of src/evdp/timer.c.
use nebase.Base.{ℕ, ◌≡◌, true, false, none, some, Option}
use nebase.Evdp.Ids.{mem, IsDistinct}
use nebase.Evdp.Timespec.{Timespec}
use nebase.Evdp.Timer.{Timer}
use nebase.Evdp.Timer.Tree.{RbTree, InOrder}

-- The tree is in order of time; a point in a node's list refers to the node, which is in the tree;
-- a kept point refers to none; and the caches hold no node of the tree and no point of a list.
pub record IsTimer {T : Type 0} (rb : RbTree T) (t : Timer T) : Type 0 where
  pub ordered : InOrder t.ts (rb.nodes t.tree)
  pub listed :
      (n p : ℕ)
      → mem p (t.cblist n) ≡ true
      → (t.ref_tnode p ≡ some n) × (mem n (rb.nodes t.tree) ≡ true)
  pub distinct : (n : ℕ) → IsDistinct (t.cblist n)
  pub kept : (p : ℕ) → mem p t.keeplist ≡ true → t.ref_tnode p ≡ none
  pub kept_distinct : IsDistinct t.keeplist
  pub spare_nodes : (n : ℕ) → mem n t.tcache ≡ true → mem n (rb.nodes t.tree) ≡ false
  pub spare_nodes_distinct : IsDistinct t.tcache
  pub spare_points :
      (p : ℕ)
      → mem p t.lcache ≡ true
      → (mem p t.keeplist ≡ false) × ((n : ℕ) → mem p (t.cblist n) ≡ false)
  pub spare_points_distinct : IsDistinct t.lcache

-- What calloc returns is neither in use nor in a cache.
pub record IsFreshNode {T : Type 0} (rb : RbTree T) (t : Timer T) (n : ℕ) : Type 0 where
  pub not_in_tree : mem n (rb.nodes t.tree) ≡ false
  pub not_in_cache : mem n t.tcache ≡ false

pub record IsFreshPoint {T : Type 0} (t : Timer T) (p : ℕ) : Type 0 where
  pub not_kept : mem p t.keeplist ≡ false
  pub not_listed : (n : ℕ) → mem p (t.cblist n) ≡ false
  pub not_in_cache : mem p t.lcache ≡ false

-- The time at which a point is due.
abbrev pub due : {T : Type 0} → Timer T → ℕ → Option Timespec
due t p = elim (t.ref_tnode p) [ none ↦ none | some n ↦ some (t.ts n) ]

-- Whether a point is in the list of the node it refers to.
abbrev pub IsPending : {T : Type 0} → Timer T → ℕ → Type 0
IsPending t p = (n : ℕ) × (t.ref_tnode p ≡ some n) × (mem p (t.cblist n) ≡ true)
