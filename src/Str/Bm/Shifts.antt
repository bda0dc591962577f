-- ===== src/Str/Bm/Shifts.antt =====
-- The shifts of src/str/bm.c that may give a match, in terms of the suffixes of the pattern.
use nebase.Base.{
  ℕ, suc, ◌-◌, ◌≤◌, ◌<◌, ◌==◌, ltb, ◌≡◌, arith, false, inl, inr, ap, ap₂, ◌∙◌, Bool-cases,
}
use nebase.Str.Bm.{Bytes, suffixes}
use nebase.Str.Bm.Suffixes.{IsSuffix}

-- A shift by `d` after a mismatch at `j`: the bytes behind `j` meet equal ones, or the start of
-- the pattern has passed them, and the byte at `j` meets another one, or none.
pub record IsGood (x : Bytes) (m j d : ℕ) : Type 0 where
  pub same : (k : ℕ) → j < k → k < m → d ≤ k → x (k - d) ≡ x k
  pub differs : d ≤ j → (x (j - d) == x j) ≡ false

-- A suffix whose length is that of another is that one.
IsSuffix-unique :
    (x : Bytes) (m i k l : ℕ)
    → i < m
    → IsSuffix x m i k
    → l ≤ suc i
    → ((t : ℕ) → t < l → x (i - t) ≡ x (m - 1 - t))
    → (l < suc i → (x (i - l) == x (m - 1 - l)) ≡ false)
    → k ≡ l
IsSuffix-unique x m i k l lt v le same differs = elim (Bool-cases (ltb k l)) [
  | inl short ↦
      let e = same k (ground arith) in
      let d = v.differs (ground arith) in absurd (ground (arith, e, d))
  | inr other ↦ elim (Bool-cases (ltb l k)) [
    | inl long ↦
        let e = v.same l (ground arith) in
        let d = differs (ground (arith, v.le)) in absurd (ground (arith, e, d))
    | inr even ↦ ground arith
  ]
]

-- A good shift within the pattern that leaves the byte at `j` in it shows in the suffixes, at the
-- byte that the last one meets.
pub good_inside :
    (x : Bytes) (m j d : ℕ)
    → j < m
    → 0 < d
    → d ≤ j
    → IsGood x m j d
    → IsSuffix x m (m - 1 - d) (suffixes x m (m - 1 - d))
    → suffixes x m (m - 1 - d) ≡ m - 1 - j
good_inside x m j d lt some_shift le g v =
    IsSuffix-unique x m (m - 1 - d) (suffixes x m (m - 1 - d)) (m - 1 - j) (omega arith) v
      (omega arith)
      (λ t inside.
        ap x (omega arith) ∙ g.same (m - 1 - t) (omega arith) (omega arith) (omega arith))
      (λ inside. ap₂ (λ a b. x a == x b) (omega arith) (omega arith) ∙ g.differs le)

-- A good shift beyond the byte at `j` leaves a start of the pattern that is also its end.
pub good_beyond :
    (x : Bytes) (m j d : ℕ)
    → d < m
    → 0 < d
    → j < d
    → IsGood x m j d
    → IsSuffix x m (m - 1 - d) (suffixes x m (m - 1 - d))
    → suffixes x m (m - 1 - d) ≡ suc (m - 1 - d)
good_beyond x m j d lt some_shift beyond g v =
    IsSuffix-unique x m (m - 1 - d) (suffixes x m (m - 1 - d)) (suc (m - 1 - d)) (omega arith) v
      (omega arith)
      (λ t inside.
        ap x (omega arith) ∙ g.same (m - 1 - t) (omega arith) (omega arith) (omega arith))
      (λ inside. absurd (omega arith))
