-- ===== src/Evdp/Timer/Tree.antt =====
-- What src/evdp/timer.c relies on of the red-black tree of src/compat/rbtree: a set of nodes in the
-- order of their times, with no two of the same time.
pub mod Order
use nebase.Base.{ℕ, ◌==◌, ◌≡◌, refl, Bool, true, false, List, [], ◌∷◌, Option, if◌then◌else◌}
use nebase.Evdp.Ids.{erase, behind, head?}
use nebase.Evdp.Timespec.{Timespec, is_after, is_same}

-- Every node of the list is due after the given time, and the list is in order.
abbrev pub AllAfter : (ℕ → Timespec) → Timespec → List ℕ → Type 0
AllAfter ts b [] = Unit
AllAfter ts b (n ∷ ns) = (is_after (ts n) b ≡ true) × AllAfter ts b ns

abbrev pub InOrder : (ℕ → Timespec) → List ℕ → Type 0
InOrder ts [] = Unit
InOrder ts (n ∷ ns) = AllAfter ts (ts n) ns × InOrder ts ns

-- A node put in its place, unless one of its time is there; and the node of its time then.
abbrev pub place : (ℕ → Timespec) → ℕ → List ℕ → List ℕ
place ts n [] = n ∷ []
place ts n (x ∷ xs) =
    if is_after (ts x) (ts n)
    then n ∷ x ∷ xs
    else if is_same (ts x) (ts n)
    then x ∷ xs
    else x ∷ place ts n xs

abbrev pub holder : (ℕ → Timespec) → ℕ → List ℕ → ℕ
holder ts n [] = n
holder ts n (x ∷ xs) =
    if is_after (ts x) (ts n) then n else if is_same (ts x) (ts n) then x else holder ts n xs

pub record RbTree (T : Type 0) : Type 0 where
  pub empty : T
  pub insert_node : (ℕ → Timespec) → T → ℕ → T × ℕ
  pub remove_node : T → ℕ → T
  pub tree_min : T → Option ℕ
  pub tree_next : T → ℕ → Option ℕ
  pub nodes : T → List ℕ
  pub nodes-empty : nodes empty ≡ []
  pub nodes-insert_node :
      (ts : ℕ → Timespec) (t : T) (n : ℕ)
      → InOrder ts (nodes t)
      → nodes (insert_node ts t n).0 ≡ place ts n (nodes t)
  pub insert_node-holder :
      (ts : ℕ → Timespec) (t : T) (n : ℕ)
      → InOrder ts (nodes t)
      → (insert_node ts t n).1 ≡ holder ts n (nodes t)
  pub nodes-remove_node : (t : T) (n : ℕ) → nodes (remove_node t n) ≡ erase n (nodes t)
  pub tree_min-nodes : (t : T) → tree_min t ≡ head? (nodes t)
  pub tree_next-nodes : (t : T) (n : ℕ) → tree_next t n ≡ head? (behind n (nodes t))

-- The nodes in order, in a list.
abbrev pub list_tree : RbTree (List ℕ)
list_tree = record {
  empty = [];
  insert_node = λ ts t n. (place ts n t, holder ts n t);
  remove_node = λ t n. erase n t;
  tree_min = head?;
  tree_next = λ t n. head? (behind n t);
  nodes = λ t. t;
  nodes-empty = refl;
  nodes-insert_node = λ ts t n w. refl;
  insert_node-holder = λ ts t n w. refl;
  nodes-remove_node = λ t n. refl;
  tree_min-nodes = λ t. refl;
  tree_next-nodes = λ t n. refl;
}
