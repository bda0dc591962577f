-- ===== src/Evdp/Timer/Destroy/Once.antt =====
-- neb_evdp_timer_destroy of src/evdp/timer.c frees every block once.
use nebase.Base.{
  ℕ, zero, suc, ◌+◌, ◌<◌, ◌==◌, ltb, ◌≡◌, refl, arith, true, false, ◌⊎◌, ◌||◌, ◌&&◌, inl, inr, List,
  [], ◌∷◌, ◌++◌, some, if◌then◌else◌, length, ◌∙◌, subst, Bool-cases,
}
use nebase.Evdp.Ids.{mem, mem_ne, head?, IsDistinct}
use nebase.Random.Ordered.{occurs}
use nebase.Evdp.Timer.{Timer}
use nebase.Evdp.Timer.Tree.{RbTree}
use nebase.Evdp.Timer.Tree.Order.{InOrder-IsDistinct}
use nebase.Evdp.Timer.Invariant.{IsTimer, IsPending}
use nebase.Evdp.Timer.Destroy.{Freed, free_node, free_nodes, free_kept, free_caches, timer_destroy}

-- How often a point is in the lists of the nodes.
abbrev pub occurs_listed : ℕ → (ℕ → List ℕ) → List ℕ → ℕ
occurs_listed p lists [] = 0
occurs_listed p lists (n ∷ ns) = occurs p (lists n) + occurs_listed p lists ns

occurs-append : (x : ℕ) (xs ys : List ℕ) → occurs x (xs ++ ys) ≡ occurs x xs + occurs x ys
occurs-append x [] ys = omega arith
occurs-append x (y ∷ xs) ys = ground (arith, occurs-append x xs ys)

occurs_lem : (x : ℕ) (xs : List ℕ) → IsDistinct xs → occurs x xs ≡ (if mem x xs then 1 else 0)
occurs_lem x [] d = refl
occurs_lem x (y ∷ xs) d = ground (arith, occurs_lem x xs d.1, mem_ne y x xs)

listed_none :
    (p : ℕ) (lists : ℕ → List ℕ) (ns : List ℕ)
    → ((m : ℕ) → mem m ns ≡ true → occurs p (lists m) ≡ 0)
    → occurs_listed p lists ns ≡ 0
listed_none p lists [] h = refl
listed_none p lists (n ∷ ns) h =
    let own : occurs p (lists n) ≡ 0 = h n (ground arith) in
    let rest = listed_none p lists ns (λ m at. h m (ground arith)) in omega (arith, own, rest)

listed_once :
    (p n : ℕ) (lists : ℕ → List ℕ) (ns : List ℕ)
    → IsDistinct ns
    → mem n ns ≡ true
    → occurs p (lists n) ≡ 1
    → ((m : ℕ) → (m == n) ≡ false → occurs p (lists m) ≡ 0)
    → occurs_listed p lists ns ≡ 1
listed_once p n lists [] d at one others = ground arith
listed_once p n lists (k ∷ ns) d at one others = elim (Bool-cases (k == n)) [
  | inl same ↦
      let e : n ≡ k = ground arith in
      let own : occurs p (lists k) ≡ 1 = subst (λ m. occurs p (lists m) ≡ 1) e one in
      let rest =
        listed_none p lists ns (λ m in_rest. others m (ground (arith, mem_ne m k ns, d.0))) in
      omega (arith, own, rest)
  | inr apart ↦
      let own = others k apart in
      let rest = listed_once p n lists ns d.1 (ground arith) one others in omega (arith, own, rest)
]

module _ {T : Type 0} (rb : RbTree T) where
  free_nodes_lem :
      (fuel : ℕ) (t : Timer T) (ns : List ℕ) (f : Freed)
      → rb.nodes t.tree ≡ ns
      → length ns < fuel
      → (g : Freed) × (free_nodes rb fuel t (head? ns) f ≡ some g)
        × ((n : ℕ) → occurs n g.nodes ≡ occurs n ns + occurs n f.nodes)
        × ((p : ℕ) → occurs p g.points ≡ occurs_listed p t.cblist ns + occurs p f.points)
  unfolding free_nodes
  free_nodes_lem zero t ns f e lt = absurd (omega arith)
  free_nodes_lem (suc fuel) t [] f e lt = (f, refl, λ n. omega arith, λ p. omega arith)
  free_nodes_lem (suc fuel) t (n ∷ ns) f e lt =
      let same : (n == n) ≡ true = ground arith in
      let t1 = record t { tree = rb.remove_node t.tree n } in
      let gone : rb.nodes t1.tree ≡ ns = rb.nodes-remove_node t.tree n ∙ rw (e, same) refl in
      let next : rb.tree_next t.tree n ≡ head? ns =
        rb.tree_next-nodes t.tree n ∙ rw (e, same) refl in
      let (g, runs, nodes, points) =
        free_nodes_lem fuel t1 ns (free_node rb t.cblist n f) gone (omega arith) in
      (
        g,
        rw (free_nodes, next) runs,
        λ m. ground (arith, nodes m),
        λ p. omega (arith, points p, occurs-append p (t.cblist n) f.points),
      )

  free_kept_lem :
      (p : ℕ) (ps lcache : List ℕ) (size : ℕ) (f : Freed)
      → let r = free_kept rb ps lcache size f in
        (occurs p r.0 + occurs p r.1.points ≡ occurs p ps + occurs p lcache + occurs p f.points)
        × (r.1.nodes ≡ f.nodes)
  unfolding free_kept
  free_kept_lem p [] lcache size f = (omega arith, refl)
  free_kept_lem p (q ∷ ps) lcache size f =
      let (a, b) = free_kept_lem p ps (q ∷ lcache) size f in
      let (c, d) = free_kept_lem p ps lcache size (record f { points = q ∷ f.points }) in
      elim (Bool-cases (ltb (length lcache) size)) [
        | inl room ↦ rw room (omega (arith, a), b)
        | inr full ↦ rw full (omega (arith, c), d)
      ]

abbrev pub IsOwnedPoint : {T : Type 0} → Timer T → ℕ → Type 0
IsOwnedPoint t p = IsPending t p ⊎ ((mem p t.keeplist || mem p t.lcache) ≡ true)

-- A point in a list, kept or cached is counted once over all lists.
owned_once :
    {T : Type 0} (rb : RbTree T) (t : Timer T) (p : ℕ)
    → IsTimer rb t
    → IsOwnedPoint t p
    → occurs p t.keeplist + occurs p t.lcache + occurs_listed p t.cblist (rb.nodes t.tree) ≡ 1
owned_once rb t p w at =
    let ds = InOrder-IsDistinct t.ts (rb.nodes t.tree) w.ordered in
    let kept = occurs_lem p t.keeplist w.kept_distinct in
    let spare = occurs_lem p t.lcache w.spare_points_distinct in
    elim at [
      | inl (n, e, m) ↦
          let out : mem p t.keeplist ≡ false = ground (arith, w.kept p) in
          let cached : mem p t.lcache ≡ false = elim (Bool-cases (mem p t.lcache)) [
            | inl h ↦ absurd (ground (arith, (w.spare_points p h).1 n))
            | inr h ↦ h
          ] in
          let listed =
            listed_once p n t.cblist (rb.nodes t.tree) ds (w.listed n p m).1
              (ground (arith, occurs_lem p (t.cblist n) (w.distinct n)))
              (λ k apart. ground (arith, occurs_lem p (t.cblist k) (w.distinct k), w.listed k p)) in
          ground (arith, kept, spare, out, cached, listed)
      | inr h ↦
          let unlisted : (k : ℕ) → mem p (t.cblist k) ≡ false = λ k.
            elim (Bool-cases (mem p t.lcache)) [
              | inl s ↦ (w.spare_points p s).1 k
              | inr s ↦ ground (arith, w.listed k p, w.kept p)
            ] in
          let listed =
            listed_none p t.cblist (rb.nodes t.tree)
              (λ k in_tree. ground (arith, occurs_lem p (t.cblist k) (w.distinct k), unlisted k)) in
          let apart : (mem p t.keeplist && mem p t.lcache) ≡ false =
            ground (arith, w.spare_points p) in
          ground (arith, kept, spare, listed, apart)
    ]

-- Destroying a well-formed timer, with a round for each node of its tree and one more, frees each
-- of its nodes, in the tree or cached, once, and each of its points, in a list, kept or cached, once.
pub timer_destroy_lem :
    {T : Type 0} (rb : RbTree T) (fuel : ℕ) (t : Timer T)
    → IsTimer rb t
    → length (rb.nodes t.tree) < fuel
    → (f : Freed) × (timer_destroy rb fuel t ≡ some f)
      × ((n : ℕ) → (mem n (rb.nodes t.tree) || mem n t.tcache) ≡ true → occurs n f.nodes ≡ 1)
      × ((p : ℕ) → IsOwnedPoint t p → occurs p f.points ≡ 1)
unfolding timer_destroy
timer_destroy_lem rb fuel t w lt =
    let none_yet : Freed = record { nodes = []; points = [] } in
    let ns = rb.nodes t.tree in
    let ds = InOrder-IsDistinct t.ts ns w.ordered in
    let (g, runs, nodes, points) = free_nodes_lem rb fuel t ns none_yet refl lt in
    let k = free_kept rb t.keeplist t.lcache t.lcache_size g in
    let kept = λ (p : ℕ). free_kept_lem rb p t.keeplist t.lcache t.lcache_size g in
    (
      free_caches rb t k,
      rw (timer_destroy, rb.tree_min-nodes t.tree, runs) refl,
      λ n h. ground (
        arith,
        occurs-append n t.tcache k.1.nodes,
        kept n,
        nodes n,
        occurs_lem n ns ds,
        occurs_lem n t.tcache w.spare_nodes_distinct,
        w.spare_nodes n,
      ),
      λ p at.
          omega (arith, occurs-append p k.0 k.1.points, kept p, points p, owned_once rb t p w at),
    )
