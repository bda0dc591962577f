-- ===== src/Evdp/Timer/Tree/Order.antt =====
-- The order of the nodes of a timer's tree: what putting one in its place does to it.
use nebase.Base.{
  ℕ, ◌==◌, ◌≡◌, refl, arith, true, false, ◌||◌, ◌⊎◌, inl, inr, List, [], ◌∷◌, Bool-cases, ap₂, sym,
  subst,
}
use nebase.Evdp.Ids.{mem, erase, IsDistinct}
use nebase.Evdp.Source.{update}
use nebase.Evdp.Timespec.{Timespec, is_after, is_same}
use nebase.Evdp.Timer.Tree.{AllAfter, InOrder, place, holder}

pub is_after_trans :
    (a b c : Timespec) → is_after a b ≡ true → is_after b c ≡ true → is_after a c ≡ true
is_after_trans a b c h k = ground arith

pub is_after_total :
    (a b : Timespec) → is_after a b ≡ false → is_same a b ≡ false → is_after b a ≡ true
is_after_total a b h k = ground arith

same_fields : (a b : Timespec) → a.tv_sec ≡ b.tv_sec → a.tv_nsec ≡ b.tv_nsec → a ≡ b
same_fields a b e f = ap₂ (λ s n. record { tv_sec = s; tv_nsec = n }) e f

pub is_same_lem : (a b : Timespec) → is_same a b ≡ true → a ≡ b
is_same_lem a b h = same_fields a b (ground arith) (ground arith)

pub AllAfter-later :
    (ts : ℕ → Timespec) (a b : Timespec) (ns : List ℕ)
    → is_after a b ≡ true
    → AllAfter ts a ns
    → AllAfter ts b ns
AllAfter-later ts a b [] h w = tt
AllAfter-later ts a b (n ∷ ns) h w =
    (is_after_trans (ts n) a b w.0 h, AllAfter-later ts a b ns h w.1)

pub AllAfter-mem :
    (ts : ℕ → Timespec) (b : Timespec) (n : ℕ) (ns : List ℕ)
    → AllAfter ts b ns
    → mem n ns ≡ true
    → is_after (ts n) b ≡ true
AllAfter-mem ts b n [] w m = ground arith
AllAfter-mem ts b n (x ∷ xs) w m = elim (Bool-cases (x == n)) [
  | inl same ↦ ground (arith, w.0)
  | inr apart ↦ AllAfter-mem ts b n xs w.1 (ground arith)
]

-- A change of the time of a node that is not in the list.
pub AllAfter-update :
    (ts : ℕ → Timespec) (a b : Timespec) (n : ℕ) (ns : List ℕ)
    → mem n ns ≡ false
    → AllAfter ts b ns
    → AllAfter (update ts n a) b ns
AllAfter-update ts a b n [] m w = tt
AllAfter-update ts a b n (x ∷ xs) m w =
    (ground (arith, w.0), AllAfter-update ts a b n xs (ground arith) w.1)

pub InOrder-update :
    (ts : ℕ → Timespec) (a : Timespec) (n : ℕ) (ns : List ℕ)
    → mem n ns ≡ false
    → InOrder ts ns
    → InOrder (update ts n a) ns
InOrder-update ts a n [] m w = tt
InOrder-update ts a n (x ∷ xs) m w =
    let apart : (x == n) ≡ false = ground arith in
    let head : update ts n a x ≡ ts x = ground arith in
    (
      rw head (AllAfter-update ts a (ts x) n xs (ground arith) w.0),
      InOrder-update ts a n xs (ground arith) w.1,
    )

pub AllAfter-erase :
    (ts : ℕ → Timespec) (b : Timespec) (n : ℕ) (ns : List ℕ)
    → AllAfter ts b ns
    → AllAfter ts b (erase n ns)
AllAfter-erase ts b n [] w = tt
AllAfter-erase ts b n (x ∷ xs) w = elim (Bool-cases (x == n)) [
  | inl same ↦ rw same w.1
  | inr apart ↦ rw apart (w.0, AllAfter-erase ts b n xs w.1)
]

pub InOrder-erase :
    (ts : ℕ → Timespec) (n : ℕ) (ns : List ℕ) → InOrder ts ns → InOrder ts (erase n ns)
InOrder-erase ts n [] w = tt
InOrder-erase ts n (x ∷ xs) w = elim (Bool-cases (x == n)) [
  | inl same ↦ rw same w.1
  | inr apart ↦ rw apart (AllAfter-erase ts (ts x) n xs w.0, InOrder-erase ts n xs w.1)
]

AllAfter-place :
    (ts : ℕ → Timespec) (b : Timespec) (n : ℕ) (ns : List ℕ)
    → is_after (ts n) b ≡ true
    → AllAfter ts b ns
    → AllAfter ts b (place ts n ns)
AllAfter-place ts b n [] h w = (h, tt)
AllAfter-place ts b n (x ∷ xs) h w = elim (Bool-cases (is_after (ts x) (ts n))) [
  | inl later ↦ rw later (h, w)
  | inr sooner ↦ elim (Bool-cases (is_same (ts x) (ts n))) [
    | inl same ↦ rw (sooner, same) w
    | inr apart ↦ rw (sooner, apart) (w.0, AllAfter-place ts b n xs h w.1)
  ]
]

pub place-InOrder :
    (ts : ℕ → Timespec) (n : ℕ) (ns : List ℕ) → InOrder ts ns → InOrder ts (place ts n ns)
place-InOrder ts n [] w = (tt, tt)
place-InOrder ts n (x ∷ xs) w = elim (Bool-cases (is_after (ts x) (ts n))) [
  | inl later ↦ rw later ((later, AllAfter-later ts (ts x) (ts n) xs later w.0), w)
  | inr sooner ↦ elim (Bool-cases (is_same (ts x) (ts n))) [
    | inl same ↦ rw (sooner, same) w
    | inr apart ↦
        rw (sooner, apart)
          (
            AllAfter-place ts (ts x) n xs (is_after_total (ts x) (ts n) sooner apart) w.0,
            place-InOrder ts n xs w.1,
          )
  ]
]

-- The node is new in the list, or a node of its time holds its place and the list is as before.
pub place_lem :
    (ts : ℕ → Timespec) (n : ℕ) (ns : List ℕ)
    → mem n ns ≡ false
    → ((holder ts n ns ≡ n) × ((m : ℕ) → mem m (place ts n ns) ≡ (n == m || mem m ns)))
      ⊎ (((holder ts n ns == n) ≡ false)
          × (place ts n ns ≡ ns)
          × (mem (holder ts n ns) ns ≡ true)
          × (ts (holder ts n ns) ≡ ts n))
place_lem ts n [] m = inl (refl, λ k. refl)
place_lem ts n (x ∷ xs) m = elim (Bool-cases (is_after (ts x) (ts n))) [
  | inl later ↦ rw later (inl (refl, λ k. refl))
  | inr sooner ↦ elim (Bool-cases (is_same (ts x) (ts n))) [
    | inl same ↦
        rw (sooner, same) (inr (ground arith, refl, ground arith, is_same_lem (ts x) (ts n) same))
    | inr apart ↦ elim (place_lem ts n xs (ground arith)) [
      | inl (own, more) ↦ rw (sooner, apart) (inl (own, λ k. ground (arith, more k)))
      | inr (other, same_list, at, due) ↦
          let step : holder ts n (x ∷ xs) ≡ holder ts n xs = rw (sooner, apart) refl in
          let still : mem (holder ts n xs) (x ∷ xs) ≡ true = ground arith in
          let tail : place ts n (x ∷ xs) ≡ x ∷ place ts n xs = rw (sooner, apart) refl in
          inr (
            rw step other,
            rw (tail, same_list) refl,
            subst (λ h. mem h (x ∷ xs) ≡ true) (sym step) still,
            rw step due,
          )
    ]
  ]
]

pub InOrder-IsDistinct : (ts : ℕ → Timespec) (ns : List ℕ) → InOrder ts ns → IsDistinct ns
InOrder-IsDistinct ts [] w = tt
InOrder-IsDistinct ts (n ∷ ns) w =
    (ground (arith, AllAfter-mem ts (ts n) n ns w.0), InOrder-IsDistinct ts ns w.1)
