-- ===== src/Evdp/Ids.antt =====
-- Lists of distinct source ids, which stand for the linked lists of the dispatcher.
use nebase.Base.{
  ℕ, suc, ◌≤◌, ◌≡◌, refl, arith, Bool, true, false, ◌&&◌, ◌||◌, not, List, [], ◌∷◌, ◌==◌,
  if◌then◌else◌, length, Option, none, some,
}

abbrev pub mem : ℕ → List ℕ → Bool
mem s [] = false
mem s (x ∷ xs) = x == s || mem s xs

abbrev pub erase : ℕ → List ℕ → List ℕ
erase s [] = []
erase s (x ∷ xs) = if x == s then xs else x ∷ erase s xs

abbrev pub insert_after : ℕ → ℕ → List ℕ → List ℕ
insert_after s m [] = []
insert_after s m (x ∷ xs) = if x == s then x ∷ m ∷ xs else x ∷ insert_after s m xs

-- What stands behind an element.
abbrev pub behind : ℕ → List ℕ → List ℕ
behind s [] = []
behind s (x ∷ xs) = if x == s then xs else behind s xs

abbrev pub head? : List ℕ → Option ℕ
head? [] = none
head? (x ∷ xs) = some x

abbrev pub IsDistinct : List ℕ → Type 0
IsDistinct [] = Unit
IsDistinct (x ∷ xs) = (mem x xs ≡ false) × IsDistinct xs

pub mem_ne : (s t : ℕ) (xs : List ℕ) → mem s xs ≡ true → mem t xs ≡ false → (s == t) ≡ false
mem_ne s t [] h k = ground arith
mem_ne s t (x ∷ xs) h k = ground (arith, mem_ne s t xs)

pub erase_absent : (s : ℕ) (xs : List ℕ) → mem s xs ≡ false → erase s xs ≡ xs
erase_absent s [] h = refl
erase_absent s (x ∷ xs) h = ground (arith, erase_absent s xs)

pub mem-erase :
    (s t : ℕ) (xs : List ℕ) → IsDistinct xs → mem t (erase s xs) ≡ (mem t xs && not (t == s))
mem-erase s t [] d = refl
mem-erase s t (x ∷ xs) d = ground (arith, mem-erase s t xs d.1, mem_ne t x xs)

pub erase-IsDistinct : (s : ℕ) (xs : List ℕ) → IsDistinct xs → IsDistinct (erase s xs)
erase-IsDistinct s [] d = tt
erase-IsDistinct s (x ∷ xs) d = ground (arith, erase-IsDistinct s xs d.1, mem-erase s x xs d.1)

pub length-erase : (s : ℕ) (xs : List ℕ) → mem s xs ≡ true → length xs ≡ suc (length (erase s xs))
length-erase s [] h = ground arith
length-erase s (x ∷ xs) h = ground (arith, length-erase s xs)

pub mem-insert_after :
    (s m t : ℕ) (xs : List ℕ) → mem s xs ≡ true → mem t (insert_after s m xs) ≡ (m == t || mem t xs)
mem-insert_after s m t [] h = ground arith
mem-insert_after s m t (x ∷ xs) h = ground (arith, mem-insert_after s m t xs)

pub insert_after-IsDistinct :
    (s m : ℕ) (xs : List ℕ)
    → mem s xs ≡ true
    → mem m xs ≡ false
    → IsDistinct xs
    → IsDistinct (insert_after s m xs)
insert_after-IsDistinct s m [] h k d = tt
insert_after-IsDistinct s m (x ∷ xs) h k d =
    ground (arith, insert_after-IsDistinct s m xs, mem-insert_after s m x xs)

pub length-insert_after :
    (s m : ℕ) (xs : List ℕ) → mem s xs ≡ true → length (insert_after s m xs) ≡ suc (length xs)
length-insert_after s m [] h = ground arith
length-insert_after s m (x ∷ xs) h = ground (arith, length-insert_after s m xs)

pub mem-behind : (s t : ℕ) (xs : List ℕ) → mem t (behind s xs) ≡ true → mem t xs ≡ true
mem-behind s t [] h = h
mem-behind s t (x ∷ xs) h = ground (arith, mem-behind s t xs)

pub mem-behind_ne :
    (s t : ℕ) (xs : List ℕ) → IsDistinct xs → mem t (behind s xs) ≡ true → (t == s) ≡ false
mem-behind_ne s t [] d h = ground arith
mem-behind_ne s t (x ∷ xs) d h = ground (arith, mem-behind_ne s t xs d.1, mem_ne t x xs)

pub length-erase_le : (s : ℕ) (xs : List ℕ) → length xs ≤ suc (length (erase s xs))
length-erase_le s [] = omega arith
length-erase_le s (x ∷ xs) = ground (arith, length-erase_le s xs)
