-- ===== src/Str/Bm/Suffixes.antt =====
-- The suffixes of a pattern: suffixes of src/str/bm.c.
use nebase.Base.{
  ℕ, zero, suc, ◌+◌, ◌-◌, ◌≤◌, ◌<◌, ◌==◌, ltb, leb, ◌≡◌, refl, arith, true, false, ◌&&◌, ◌⊎◌, inl,
  inr, if◌then◌else◌, ap, ap₂, sym, subst, ◌∙◌, Bool-cases,
}
use nebase.Evdp.Source.{update}
use nebase.Str.Bm.{Bytes, extend, suffixes_loop, suffixes}

-- The longest common suffix of the bytes up to `i` and of the pattern has `k` bytes.
pub record IsSuffix (x : Bytes) (m i k : ℕ) : Type 0 where
  pub le : k ≤ suc i
  pub same : (t : ℕ) → t < k → x (i - t) ≡ x (m - 1 - t)
  pub differs : k < suc i → (x (i - k) == x (m - 1 - k)) ≡ false

extend_lem :
    (x : Bytes) (m f g : ℕ)
    → let r = extend x m f g in
      (r ≤ g)
      × ((s : ℕ) → r ≤ s → s < g → x s ≡ x (s + (m - 1) - f))
      × ((s : ℕ) → r ≡ suc s → (x s == x (s + (m - 1) - f)) ≡ false)
unfolding extend
extend_lem x m f zero = (omega arith, λ s le lt. absurd (omega arith), λ s e. absurd (omega arith))
extend_lem x m f (suc g) =
    let (below, same, differs) = extend_lem x m f g in
    elim (Bool-cases (x g == x (g + (m - 1) - f))) [
      | inl here ↦ rw here (
        omega (arith, below),
        λ s le lt. elim (Bool-cases (s == g)) [
          | inl at ↦
              let e : g ≡ s = ground arith in
              subst (λ k. x k ≡ x (k + (m - 1) - f)) e (ground arith)
          | inr apart ↦ same s le (ground arith)
        ],
        differs,
      )
      | inr gone ↦ rw gone (
        omega arith,
        λ s le lt. absurd (omega arith),
        λ s e.
            let at : g ≡ s = omega arith in
            subst (λ k. (x k == x (k + (m - 1) - f)) ≡ false) at gone,
      )
    ]

-- What the code knows of the bytes from `g1` to `f`.
abbrev IsWindow : Bytes → ℕ → ℕ → ℕ → ℕ → Type 0
IsWindow x m k f g1 =
    (g1 ≡ m) ⊎ ((k ≤ f) × (f < m - 1) × (g1 ≤ suc f) × IsSuffix x m f (suc f - g1))

-- Inside the window, the bytes are those of the end of the pattern.
in_window :
    (x : Bytes) (m i f g1 t : ℕ)
    → i < f
    → f < m - 1
    → g1 ≤ i
    → IsSuffix x m f (suc f - g1)
    → t < suc i - g1
    → x (i - t) ≡ x (i + (m - 1) - f - t)
in_window x m i f g1 t lt fits le w inside =
    ap x (omega arith) ∙ (w.same (f - i + t) (omega arith) ∙ ap x (omega arith))

copied_lem :
    (x : Bytes) (m i f g1 c : ℕ)
    → i < f
    → f < m - 1
    → g1 ≤ i
    → IsSuffix x m f (suc f - g1)
    → IsSuffix x m (i + (m - 1) - f) c
    → c < suc i - g1
    → IsSuffix x m i c
copied_lem x m i f g1 c lt fits le w v inside = record {
  le = omega arith;
  same = λ t below. in_window x m i f g1 t lt fits le w (omega arith) ∙ v.same t below;
  differs = λ below.
      subst (λ b. (b == x (m - 1 - c)) ≡ false) (sym (in_window x m i f g1 c lt fits le w inside))
        (v.differs (omega arith));
}

extended_lem :
    (x : Bytes) (m i h : ℕ)
    → i < m - 1
    → h ≤ suc i
    → ((t : ℕ) → t < suc i - h → x (i - t) ≡ x (m - 1 - t))
    → IsSuffix x m i (suc i - extend x m i h) × (extend x m i h ≤ h)
extended_lem x m i h fits le known =
    let (below, same, differs) = extend_lem x m i h in
    let r = extend x m i h in
    (
      record {
        le = omega arith;
        same = λ t inside. elim (Bool-cases (ltb t (suc i - h))) [
          | inl old ↦ known t (ground arith)
          | inr new ↦ same (i - t) (omega arith) (ground arith) ∙ ap x (ground arith)
        ];
        differs = λ inside.
            ap₂ (λ a b. x a == x b) (omega (arith, below)) (omega (arith, below))
            ∙ differs (r - 1) (omega arith);
      },
      below,
    )

-- From `k` on the suffixes are right.
abbrev AreSuffixes : Bytes → ℕ → ℕ → (ℕ → ℕ) → Type 0
AreSuffixes x m k suff = (i : ℕ) → k ≤ i → i < m → IsSuffix x m i (suff i)

add_suffix :
    (x : Bytes) (m i c : ℕ) (suff : ℕ → ℕ)
    → IsSuffix x m i c
    → AreSuffixes x m (suc i) suff
    → AreSuffixes x m i (update suff i c)
add_suffix x m i c suff v w n le lt = elim (Bool-cases (n == i)) [
  | inl same ↦ let e : i ≡ n = ground arith in rw same (subst (λ n. IsSuffix x m n c) e v)
  | inr apart ↦ rw apart (w n (ground arith) lt)
]

-- The bytes that the while loop need not compare.
already_known :
    (x : Bytes) (m i f g1 : ℕ) (suff : ℕ → ℕ)
    → i < m - 1
    → AreSuffixes x m (suc i) suff
    → IsWindow x m (suc i) f g1
    → (leb g1 i && ltb (suff (i + (m - 1) - f)) (suc i - g1)) ≡ false
    → (t : ℕ) → t < suc i - (if leb g1 i then g1 else suc i)
    → x (i - t) ≡ x (m - 1 - t)
already_known x m i f g1 suff fits v w long t inside = elim (Bool-cases (leb g1 i)) [
  | inr above ↦ absurd (ground arith)
  | inl within ↦ elim w [
    | inl start ↦ absurd (ground arith)
    | inr (lt, bound, le, u) ↦
        let here : t < suc i - g1 = ground (arith, inside) in
        let far : t < suff (i + (m - 1) - f) = ground (arith, long, within) in
        in_window x m i f g1 t (omega arith) bound (ground arith) u here
        ∙ (v (i + (m - 1) - f) (omega arith) (omega arith)).same t far
  ]
]

suffixes_loop_lem :
    (x : Bytes) (m k f g1 : ℕ) (suff : ℕ → ℕ)
    → k < m
    → AreSuffixes x m k suff
    → IsWindow x m k f g1
    → AreSuffixes x m 0 (suffixes_loop x m k f g1 suff)
unfolding suffixes_loop
suffixes_loop_lem x m zero f g1 suff fits v w = v
suffixes_loop_lem x m (suc i) f g1 suff fits v w =
    let c = suff (i + (m - 1) - f) in
    let h = if leb g1 i then g1 else suc i in
    let g2 = extend x m i h in
    elim (Bool-cases (leb g1 i && ltb c (suc i - g1))) [
      | inl short ↦ elim w [
        | inl start ↦ absurd (ground arith)
        | inr (lt, bound, le, u) ↦
            let d =
              copied_lem x m i f g1 c (omega arith) bound (ground arith) u
                (v (i + (m - 1) - f) (omega arith) (omega arith)) (ground arith) in
            rw short (
              suffixes_loop_lem x m i f g1 (update suff i c) (omega arith)
                (add_suffix x m i c suff d v) (inr (omega arith, bound, le, u)))
      ]
      | inr long ↦
          let below : h ≤ suc i = ground arith in
          let (d, shrinks) =
            extended_lem x m i h (omega arith) below
              (already_known x m i f g1 suff (omega arith) v w long) in
          rw long (
            suffixes_loop_lem x m i i g2 (update suff i (suc i - g2)) (omega arith)
              (add_suffix x m i (suc i - g2) suff d v)
              (inr (omega arith, omega arith, omega (arith, shrinks, below), d)))
    ]

-- suffixes gives, for every byte of a pattern that is not empty, the length of the longest common
-- suffix of what ends there and of the pattern.
pub suffixes_lem : (x : Bytes) (m : ℕ) → 0 < m → (i : ℕ) → i < m → IsSuffix x m i (suffixes x m i)
unfolding suffixes
suffixes_lem x m some_byte i lt =
    suffixes_loop_lem x m (m - 1) 0 m (update (λ i. 0) (m - 1) m) (omega arith)
      (λ n le below.
        let e : m - 1 ≡ n = omega arith in
        subst (λ n. IsSuffix x m n (update (λ i. 0) (m - 1) m n)) e whole)
      (inl refl) i (omega arith) lt
  where
    same : ((m - 1) == (m - 1)) ≡ true
    same = ground arith

    whole : IsSuffix x m (m - 1) (update (λ i. 0) (m - 1) m (m - 1))
    whole = rw same (record {
      le = omega arith;
      same = λ t below. refl;
      differs = λ below. absurd (omega arith);
    })
