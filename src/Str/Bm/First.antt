-- ===== src/Str/Bm/First.antt =====
-- The search of src/str/bm.c against the search that tries every offset.
use nebase.Base.{
  ℕ, zero, suc, ◌+◌, ◌-◌, ◌≤◌, ◌<◌, ◌==◌, ltb, leb, ◌≡◌, refl, arith, Bool, true, false, ◌&&◌, ◌⊎◌,
  inl, inr, if◌then◌else◌, Option, none, some, ap, ap₂, sym, subst, ◌∙◌, Bool-cases,
}
use nebase.Str.Bm.{
  Bytes, BmCtx, max_shift, pre_bm_gs, pre_bm_bc, scan, search_loop, ctx_create, ctx_search,
  bm_search,
}
use nebase.Str.Bm.Shifts.{IsGood}
use nebase.Str.Bm.GoodSuffix.{pre_bm_gs_lem}
use nebase.Str.Bm.BadChar.{pre_bm_bc_lem}

-- Whether the first `k` bytes of the pattern are those of the text at an offset.
abbrev pub matches_at : Bytes → Bytes → ℕ → ℕ → Bool
matches_at p t j zero = true
matches_at p t j (suc k) = p k == t (k + j) && matches_at p t j k

-- The first of `n` offsets from `j` at which the pattern is in the text.
abbrev pub first_match : Bytes → ℕ → Bytes → ℕ → ℕ → Option ℕ
first_match p pl t zero j = none
first_match p pl t (suc n) j =
    let rest = first_match p pl t n (j + 1) in if matches_at p t j pl then some j else rest

matches_lem : (p t : Bytes) (j k n : ℕ) → matches_at p t j k ≡ true → n < k → p n ≡ t (n + j)
matches_lem p t j zero n h lt = absurd (omega arith)
matches_lem p t j (suc k) n h lt = elim (Bool-cases (n == k)) [
  | inl same ↦ let e : k ≡ n = ground arith in subst (λ n. p n ≡ t (n + j)) e (ground arith)
  | inr apart ↦ matches_lem p t j k n (ground arith) (ground arith)
]

-- Where the bytes differ at `i` and are the same behind it.
record IsMismatch (p t : Bytes) (j k i : ℕ) : Type 0 where
  inside : i < k
  differs : (p i == t (i + j)) ≡ false
  same : (n : ℕ) → i < n → n < k → p n ≡ t (n + j)

scan_lem :
    (p t : Bytes) (j k : ℕ)
    → ((scan p t j k ≡ 0) × (matches_at p t j k ≡ true))
      ⊎ ((i : ℕ) × (scan p t j k ≡ suc i) × IsMismatch p t j k i)
unfolding scan
scan_lem p t j zero = inl (refl, refl)
scan_lem p t j (suc k) = elim (Bool-cases (p k == t (k + j))) [
  | inr gone ↦ inr (
    k,
    rw gone refl,
    record { inside = omega arith; differs = gone; same = λ n above below. absurd (omega arith) },
  )
  | inl here ↦ elim (scan_lem p t j k) [
    | inl (e, all) ↦ inl (rw here e, rw here all)
    | inr (i, e, w) ↦ inr (
      i,
      rw here e,
      record {
        inside = omega (arith, w.inside);
        differs = w.differs;
        same = λ n above below. elim (Bool-cases (n == k)) [
          | inl last ↦
              let at : k ≡ n = ground arith in subst (λ n. p n ≡ t (n + j)) at (ground arith)
          | inr other ↦ w.same n above (ground arith)
        ];
      },
    )
  ]
]

-- A match behind a mismatch is a good shift away.
match-IsGood :
    (p t : Bytes) (pl j i d : ℕ)
    → IsMismatch p t j pl i
    → matches_at p t (j + d) pl ≡ true
    → IsGood p pl i d
match-IsGood p t pl j i d w m =
    let meets : (k : ℕ) → d ≤ k → k < pl → p (k - d) ≡ t (k + j) =
      λ k le lt. matches_lem p t (j + d) pl (k - d) m (omega arith) ∙ ap t (omega arith) in
    record {
      same = λ k above below le. meets k le below ∙ sym (w.same k above below);
      differs = λ le. ground (arith, meets i le w.inside, w.differs);
    }

char_shift :
    (p t : Bytes) (pl j i d : ℕ)
    → IsMismatch p t j pl i
    → 0 < d
    → matches_at p t (j + d) pl ≡ true
    → pre_bm_bc p pl (t (i + j)) + 1 + i - pl ≤ d
char_shift p t pl j i d w some_shift m =
    let (bound, seen) = pre_bm_bc_lem p pl (t (i + j)) in
    elim (Bool-cases (ltb i d)) [
      | inl out ↦ ground (arith, bound)
      | inr within ↦
          let le : d ≤ i = ground arith in
          let meets : p (i - d) ≡ t (i + j) =
            matches_lem p t (j + d) pl (i - d) m (omega (arith, w.inside)) ∙ ap t (omega arith) in
          let small = seen (i - d) (omega (arith, w.inside)) meets in omega (arith, small, w.inside)
    ]

skip_lem :
    (p : Bytes) (pl : ℕ) (t : Bytes) (n j s : ℕ)
    → ((d : ℕ) → d < s → matches_at p t (j + d) pl ≡ false)
    → first_match p pl t n j ≡ first_match p pl t (n - s) (j + s)
skip_lem p pl t n j zero h = ap₂ (first_match p pl t) (omega arith) (omega arith)
skip_lem p pl t zero j (suc s) h = let empty : 0 - suc s ≡ 0 = omega arith in rw empty refl
skip_lem p pl t (suc n) j (suc s) h =
    let here : matches_at p t j pl ≡ false =
      subst (λ k. matches_at p t k pl ≡ false) (omega arith) (h 0 (omega arith)) in
    let rest =
      skip_lem p pl t n (j + 1) s (λ d lt.
        subst (λ k. matches_at p t k pl ≡ false) (omega arith) (h (suc d) (omega arith))) in
    rw here (rest ∙ ap₂ (first_match p pl t) (omega arith) (omega arith))

-- The shift after a mismatch is positive and passes no match.
shift_lem :
    (p t : Bytes) (pl j i : ℕ)
    → IsMismatch p t j pl i
    → let s = max_shift (pre_bm_gs p pl i) (pre_bm_bc p pl (t (i + j)) + 1 + i - pl) in
      (0 < s) × ((d : ℕ) → d < s → matches_at p t (j + d) pl ≡ false)
shift_lem p t pl j i w =
    let gs = pre_bm_gs p pl i in
    let bc = pre_bm_bc p pl (t (i + j)) + 1 + i - pl in
    let (positive, _, good) = pre_bm_gs_lem p pl i w.inside in
    (
      max_positive gs bc positive,
      λ d lt. elim (Bool-cases (matches_at p t (j + d) pl)) [
        | inr none_here ↦ none_here
        | inl m ↦ elim (Bool-cases (d == 0)) [
          | inl same ↦
              let e : j + d ≡ j = ground arith in
              let at =
                matches_lem p t j pl i (subst (λ k. matches_at p t k pl ≡ true) e m) w.inside in
              absurd (ground (arith, at, w.differs))
          | inr away ↦
              let some_shift : 0 < d = ground arith in
              let a = good d some_shift (match-IsGood p t pl j i d w m) in
              let b = char_shift p t pl j i d w some_shift m in absurd (too_far gs bc d a b lt)
        ]
      ],
    )
  where
    max_positive : (a b : ℕ) → 0 < a → 0 < max_shift a b
    max_positive a b h = ground arith

    too_far : (a b d : ℕ) → a ≤ d → b ≤ d → d < max_shift a b → ⊥
    too_far a b d h k lt = ground arith

search_loop_more :
    (fuel : ℕ) (c : BmCtx) (t : Bytes) (tl j i : ℕ)
    → leb (j + c.pattern_len) tl ≡ true
    → scan c.pattern t j c.pattern_len ≡ suc i
    → search_loop (suc fuel) c t tl j
      ≡ search_loop fuel c t tl
          (j + max_shift (c.bm_gs i) (c.bm_bc (t (i + j)) + 1 + i - c.pattern_len))
unfolding search_loop
search_loop_more fuel c t tl j i fits e = rw (search_loop, fits, e) refl

search_loop_hit :
    (fuel : ℕ) (c : BmCtx) (t : Bytes) (tl j : ℕ)
    → leb (j + c.pattern_len) tl ≡ true
    → scan c.pattern t j c.pattern_len ≡ 0
    → search_loop (suc fuel) c t tl j ≡ some (some j)
unfolding search_loop
search_loop_hit fuel c t tl j fits e = rw (search_loop, fits, e) refl

search_loop_lem :
    (fuel : ℕ) (p : Bytes) (pl : ℕ) (t : Bytes) (tl j n : ℕ)
    → n ≡ tl + 1 - pl - j
    → n < fuel
    → search_loop fuel (ctx_create p pl) t tl j ≡ some (first_match p pl t n j)
unfolding search_loop ctx_create
search_loop_lem zero p pl t tl j n e lt = absurd (omega arith)
search_loop_lem (suc fuel) p pl t tl j zero e lt =
    let past : leb (j + pl) tl ≡ false = ground arith in rw (search_loop, past) refl
search_loop_lem (suc fuel) p pl t tl j (suc n) e lt =
    let c = ctx_create p pl in
    let fits : leb (j + pl) tl ≡ true = ground arith in
    elim (scan_lem p t j pl) [
      | inl (hit, all) ↦ search_loop_hit fuel c t tl j fits hit ∙ rw all refl
      | inr (i, miss, w) ↦
          let s = max_shift (pre_bm_gs p pl i) (pre_bm_bc p pl (t (i + j)) + 1 + i - pl) in
          let (positive, passes) = shift_lem p t pl j i w in
          search_loop_more fuel c t tl j i fits miss
          ∙ (search_loop_lem fuel p pl t tl (j + s) (suc n - s) (omega arith) (omega arith)
              ∙ ap some (sym (skip_lem p pl t (suc n) j s passes)))
    ]

bm_search_ctx :
    (fuel : ℕ) (p : Bytes) (pl : ℕ) (t : Bytes) (tl : ℕ)
    → bm_search fuel p pl t tl ≡ ctx_search fuel (ctx_create p pl) t tl
unfolding bm_search ctx_search ctx_create
bm_search_ctx fuel p pl t tl = refl

ctx_search_lem :
    (fuel : ℕ) (p : Bytes) (pl : ℕ) (t : Bytes) (tl : ℕ)
    → tl + 1 < fuel
    → ctx_search fuel (ctx_create p pl) t tl ≡ some (first_match p pl t (tl + 1 - pl) 0)
unfolding ctx_search ctx_create
ctx_search_lem fuel p pl t tl enough = elim (Bool-cases (ltb tl pl)) [
  | inl short ↦ let empty : tl + 1 - pl ≡ 0 = ground arith in rw (ctx_search, short, empty) refl
  | inr long ↦
      rw (ctx_search, long)
        (search_loop_lem fuel p pl t tl 0 (tl + 1 - pl) (omega arith) (omega arith))
]

-- For a pattern that is not empty, and with a round for each offset and one more, the search that
-- prepares its tables and the search with a prepared context both return the first offset at which
-- the text has the pattern, or NULL where it has none, as a search of every offset does.
pub bm_search-first_match :
    (fuel : ℕ) (p : Bytes) (pl : ℕ) (t : Bytes) (tl : ℕ)
    → 0 < pl
    → tl + 1 < fuel
    → (bm_search fuel p pl t tl ≡ some (first_match p pl t (tl + 1 - pl) 0))
      × (ctx_search fuel (ctx_create p pl) t tl ≡ some (first_match p pl t (tl + 1 - pl) 0))
bm_search-first_match fuel p pl t tl some_byte enough =
    let found = ctx_search_lem fuel p pl t tl enough in
    (bm_search_ctx fuel p pl t tl ∙ found, found)
