-- ===== src/Str/Bm/GoodSuffix.antt =====
-- The table of good suffixes: preBmGs of src/str/bm.c.
use nebase.Base.{
  ℕ, zero, suc, ◌+◌, ◌-◌, ◌≤◌, ◌<◌, ◌==◌, ltb, ◌≡◌, refl, arith, true, false, inl, inr,
  if◌then◌else◌, subst, ◌∙◌, Bool-cases,
}
use nebase.Evdp.Source.{update}
use nebase.Str.Bm.{Bytes, suffixes, fill_to, border_loop, suffix_loop, pre_bm_gs}
use nebase.Str.Bm.Suffixes.{IsSuffix, suffixes_lem}
use nebase.Str.Bm.Shifts.{IsGood, good_inside, good_beyond}

-- Every shift is positive and at most the pattern.
abbrev pub IsTable : ℕ → (ℕ → ℕ) → Type 0
IsTable m gs = (q : ℕ) → q < m → (0 < gs q) × (gs q ≤ m)

fill_to_lem :
    (m d n j : ℕ) (gs : ℕ → ℕ) (q : ℕ)
    → (q < j → fill_to m d n j gs q ≡ gs q)
      × (j ≤ q → q < j + n → gs q ≡ m → fill_to m d n j gs q ≡ d)
      × (j + n ≤ q → fill_to m d n j gs q ≡ gs q)
unfolding fill_to
fill_to_lem m d zero j gs q = (λ h. refl, λ h k. absurd (omega arith), λ h. refl)
fill_to_lem m d (suc n) j gs q =
    let gs1 = if gs j == m then update gs j d else gs in
    let (before, inside, behind) = fill_to_lem m d n (j + 1) gs1 q in
    let other : (q == j) ≡ false → gs1 q ≡ gs q = λ apart. ground arith in
    (
      λ h. before (omega arith) ∙ other (ground arith),
      λ h k e. elim (Bool-cases (q == j)) [
        | inl same ↦ before (ground arith) ∙ own_lem gs j q d m (ground arith) e
        | inr apart ↦ inside (ground arith) (omega arith) (other apart ∙ e)
      ],
      λ h. behind (omega arith) ∙ other (ground arith),
    )
  where
    own_lem :
        (gs : ℕ → ℕ) (j q d m : ℕ)
        → q ≡ j
        → gs q ≡ m
        → (if gs j == m then update gs j d else gs) q ≡ d
    own_lem gs j q d m same e =
        let at : gs j ≡ m = subst (λ q. gs q ≡ m) same e in
        let hit : (gs j == m) ≡ true = ground (arith, at) in rw hit (ground arith)

-- The table while the second loop runs, `k` bytes left: up to `j` it is filled, and where the
-- pattern ends with a start of it, what is before the shift to that is at most that shift.
record IsFilled (suff : ℕ → ℕ) (m k j : ℕ) (gs : ℕ → ℕ) : Type 0 where
  table : IsTable m gs
  rest : (q : ℕ) → j ≤ q → q < m → gs q ≡ m
  front : (q : ℕ) → q < j → gs q ≤ j
  place : j + k ≤ m
  borders : (i q : ℕ) → k ≤ i → i < m → suff i ≡ suc i → q < m - 1 - i → gs q ≤ m - 1 - i

fill_step :
    (suff : ℕ → ℕ) (m i j : ℕ) (gs : ℕ → ℕ)
    → IsFilled suff m (suc i) j gs
    → let d = m - 1 - i in IsFilled suff m i (j + (d - j)) (fill_to m d (d - j) j gs)
fill_step suff m i j gs w =
    let d = m - 1 - i in
    let gs1 = fill_to m d (d - j) j gs in
    let before : (q : ℕ) → q < j → gs1 q ≡ gs q = λ q. (fill_to_lem m d (d - j) j gs q).0 in
    let inside : (q : ℕ) → j ≤ q → q < d → gs1 q ≡ d =
      λ q le lt. (fill_to_lem m d (d - j) j gs q).1 le (omega arith) (w.rest q le (omega arith)) in
    let behind : (q : ℕ) → j + (d - j) ≤ q → gs1 q ≡ gs q =
      λ q. (fill_to_lem m d (d - j) j gs q).2 in
    let at_end : j + (d - j) ≡ d = omega (arith, w.place) in
    let less : (q : ℕ) → q < m → gs1 q ≤ gs q = λ q lt. elim (Bool-cases (ltb q j)) [
      | inl b ↦ ground (arith, before q)
      | inr c ↦ elim (Bool-cases (ltb q d)) [
        | inl b ↦ ground (arith, inside q, w.rest q)
        | inr e ↦ ground (arith, behind q)
      ]
    ] in
    record {
      table = λ q lt. elim (Bool-cases (ltb q j)) [
        | inl b ↦ ground (arith, before q, w.table q)
        | inr c ↦ elim (Bool-cases (ltb q d)) [
          | inl b ↦ ground (arith, inside q)
          | inr e ↦ ground (arith, behind q, w.table q)
        ]
      ];
      rest = λ q le lt. behind q le ∙ w.rest q (omega arith) lt;
      front = λ q lt. elim (Bool-cases (ltb q j)) [
        | inl b ↦ ground (arith, before q, w.front q, w.place)
        | inr c ↦ ground (arith, inside q)
      ];
      place = omega (arith, w.place);
      borders = λ n q le lt e inner. elim (Bool-cases (n == i)) [
        | inl same ↦ elim (Bool-cases (ltb q j)) [
          | inl b ↦ ground (arith, before q, w.front q, w.place)
          | inr c ↦ ground (arith, inside q)
        ]
        | inr apart ↦
            let old = w.borders n q (ground arith) lt e inner in
            omega (arith, old, less q (omega arith))
      ];
    }

border_loop_lem :
    (suff : ℕ → ℕ) (m k j : ℕ) (gs : ℕ → ℕ)
    → IsFilled suff m k j gs
    → (r : ℕ) × IsFilled suff m 0 r (border_loop suff m k j gs)
unfolding border_loop
border_loop_lem suff m zero j gs w = (j, w)
border_loop_lem suff m (suc i) j gs w = elim (Bool-cases (suff i == suc i)) [
  | inl border ↦
      let d = m - 1 - i in
      rw border (
        border_loop_lem suff m i (j + (d - j)) (fill_to m d (d - j) j gs)
          (fill_step suff m i j gs w))
  | inr other ↦ rw other (
      border_loop_lem suff m i j gs (record {
        table = w.table;
        rest = w.rest;
        front = w.front;
        place = omega (arith, w.place);
        borders = λ n q le lt e inner. w.borders n q (ground (arith, e)) lt e inner;
      }))
]

-- The table while the third loop runs, before the byte `i`, over the table `old` of the second.
record IsSunk (suff old : ℕ → ℕ) (m i : ℕ) (gs : ℕ → ℕ) : Type 0 where
  table : IsTable m gs
  beyond : (q d : ℕ) → q < m → q < d → old q ≤ d → gs q ≤ d
  inside : (n q : ℕ) → n < i → q < m → suff n ≡ m - 1 - q → gs q ≤ m - 1 - n

sink_step :
    (suff old : ℕ → ℕ) (m i : ℕ) (gs : ℕ → ℕ)
    → i < m - 1
    → suff i ≤ suc i
    → IsSunk suff old m i gs
    → IsSunk suff old m (i + 1) (update gs (m - 1 - suff i) (m - 1 - i))
sink_step suff old m i gs lt le w = record {
  table = λ q fits. ground (arith, w.table q);
  beyond = λ q d fits out small. ground (arith, w.beyond q d);
  inside = λ n q before fits e. elim (Bool-cases (n == i)) [
    | inl same ↦
        let at : n ≡ i = ground arith in
        let e1 : suff i ≡ m - 1 - q = subst (λ n. suff n ≡ m - 1 - q) at e in
        let hit : (q == m - 1 - suff i) ≡ true = ground (arith, e1) in rw (hit, at) (omega arith)
    | inr apart ↦
        let kept = w.inside n q (ground arith) fits e in
        elim (Bool-cases (q == m - 1 - suff i)) [
          | inl hit ↦ rw hit (ground (arith, apart))
          | inr miss ↦ rw miss kept
        ]
  ];
}

suffix_loop_lem :
    (suff old : ℕ → ℕ) (m n i : ℕ) (gs : ℕ → ℕ)
    → n + i ≡ m - 1
    → ((k : ℕ) → k < m → suff k ≤ suc k)
    → IsSunk suff old m i gs
    → IsSunk suff old m (m - 1) (suffix_loop suff m n i gs)
unfolding suffix_loop
suffix_loop_lem suff old m zero i gs e le w =
    let at : i ≡ m - 1 = omega arith in subst (λ i. IsSunk suff old m i gs) at w
suffix_loop_lem suff old m (suc n) i gs e le w =
    suffix_loop_lem suff old m n (i + 1) (update gs (m - 1 - suff i) (m - 1 - i)) (omega arith) le
      (sink_step suff old m i gs (omega arith) (le i (omega arith)) w)

-- The shift that preBmGs gives for a mismatch at a byte of a pattern is positive, at most the
-- pattern, and at most every shift that may give a match.
pub pre_bm_gs_lem :
    (x : Bytes) (m j : ℕ)
    → j < m
    → (0 < pre_bm_gs x m j)
      × (pre_bm_gs x m j ≤ m)
      × ((d : ℕ) → 0 < d → IsGood x m j d → pre_bm_gs x m j ≤ d)
unfolding pre_bm_gs
pre_bm_gs_lem x m j lt =
    let suff = suffixes x m in
    let v : (i : ℕ) → i < m → IsSuffix x m i (suff i) = suffixes_lem x m (omega arith) in
    let start : IsFilled suff m m 0 (λ q. m) = record {
      table = λ q fits. (omega arith, omega arith);
      rest = λ q le fits. refl;
      front = λ q before. absurd (omega arith);
      place = omega arith;
      borders = λ i q le fits e inner. absurd (omega arith);
    } in
    let old = border_loop suff m m 0 (λ q. m) in
    let (r, filled) = border_loop_lem suff m m 0 (λ q. m) start in
    let begun : IsSunk suff old m 0 old = record {
      table = filled.table;
      beyond = λ q d fits out small. small;
      inside = λ n q before fits e. absurd (omega arith);
    } in
    let w =
      suffix_loop_lem suff old m (m - 1) 0 old (omega arith) (λ k fits. (v k fits).le) begun in
    (
      (w.table j lt).0,
      (w.table j lt).1,
      λ d some_shift good. elim (Bool-cases (ltb j d)) [
        | inr within ↦
            let e =
              good_inside x m j d lt some_shift (ground arith) good (v (m - 1 - d) (omega arith)) in
            let found = w.inside (m - 1 - d) j (ground arith) lt e in ground (arith, found, within)
        | inl out ↦ elim (Bool-cases (ltb d m)) [
          | inr whole ↦ ground (arith, (w.table j lt).1)
          | inl part ↦
              let beyond : j < d = ground arith in
              let e =
                good_beyond x m j d (ground arith) some_shift beyond good
                  (v (m - 1 - d) (omega arith)) in
              let found =
                filled.borders (m - 1 - d) j (omega arith) (omega arith) e (ground (arith, part)) in
              w.beyond j d lt beyond (ground (arith, found, part))
        ]
      ],
    )
