-- ===== src/Evdp/Queue/Foreach/Behind.antt =====
-- What stands behind an element of a list of ids when others are moved or taken out, for the foreach
-- of src/evdp/core.c.
use nebase.Base.{ℕ, suc, ◌≤◌, ◌≡◌, refl, arith, true, false, List, [], ◌∷◌, length}
use nebase.Evdp.Ids.{mem, erase, insert_after, behind, IsDistinct, mem-erase, mem-behind}

pub behind_le : (f : ℕ) (xs : List ℕ) → length (behind f xs) ≤ length xs
behind_le f [] = omega arith
behind_le f (x ∷ xs) = ground (arith, behind_le f xs)

pub length-erase_shrinks : (a : ℕ) (xs : List ℕ) → length (erase a xs) ≤ length xs
length-erase_shrinks a [] = omega arith
length-erase_shrinks a (x ∷ xs) = ground (arith, length-erase_shrinks a xs)

pub behind-erase :
    (f a : ℕ) (xs : List ℕ) → IsDistinct xs → length (behind f (erase a xs)) ≤ length (behind f xs)
behind-erase f a [] d = omega arith
behind-erase f a (x ∷ xs) d =
    ground (arith, behind-erase f a xs d.1, length-erase_shrinks a xs, behind_le f xs)

pub listed_if_behind : (f s : ℕ) (xs : List ℕ) → mem s (behind f xs) ≡ true → mem f xs ≡ true
listed_if_behind f s [] m = ground arith
listed_if_behind f s (x ∷ xs) m = ground (arith, listed_if_behind f s xs)

pub behind_absent : (f : ℕ) (xs : List ℕ) → mem f xs ≡ false → behind f xs ≡ []
behind_absent f [] h = refl
behind_absent f (x ∷ xs) h = ground (arith, behind_absent f xs)

behind-insert :
    (f s : ℕ) (xs : List ℕ) → mem f xs ≡ false → behind f (insert_after s f xs) ≡ behind s xs
behind-insert f s [] h = refl
behind-insert f s (x ∷ xs) h = ground (arith, behind-insert f s xs)

behind-behind :
    (f s : ℕ) (xs : List ℕ)
    → IsDistinct xs
    → mem s (behind f xs) ≡ true
    → behind s (erase f xs) ≡ behind s (behind f xs)
behind-behind f s [] d m = ground arith
behind-behind f s (x ∷ xs) d m = ground (arith, behind-behind f s xs d.1, mem-behind f s xs)

behind_lt : (s : ℕ) (xs : List ℕ) → mem s xs ≡ true → suc (length (behind s xs)) ≤ length xs
behind_lt s [] m = ground arith
behind_lt s (x ∷ xs) m = ground (arith, behind_lt s xs)

pub behind-move :
    (f s : ℕ) (xs : List ℕ)
    → IsDistinct xs
    → mem s (behind f xs) ≡ true
    → suc (length (behind f (insert_after s f (erase f xs)))) ≤ length (behind f xs)
behind-move f s xs d m =
    rw
      (
        behind-insert f s (erase f xs) (ground (arith, mem-erase f f xs d)),
        behind-behind f s xs d m,
      )
      (behind_lt s (behind f xs) m)
