-- ===== src/Str/Bm/BadChar.antt =====
-- The table of bad characters: preBmBc of src/str/bm.c.
use nebase.Base.{
  ℕ, zero, suc, ◌+◌, ◌-◌, ◌≤◌, ◌<◌, ◌==◌, ◌≡◌, arith, false, inl, inr, subst, Bool-cases,
}
use nebase.Evdp.Source.{update}
use nebase.Str.Bm.{Bytes, bc_loop, pre_bm_bc}

-- The table after the bytes before `i`.
record IsCharTable (x : Bytes) (m i : ℕ) (bc : ℕ → ℕ) : Type 0 where
  bound : (c : ℕ) → bc c ≤ m
  seen : (n : ℕ) → n < i → bc (x n) ≤ m - 1 - n

bc_step :
    (x : Bytes) (m i : ℕ) (bc : ℕ → ℕ)
    → IsCharTable x m i bc
    → IsCharTable x m (i + 1) (update bc (x i) (m - i - 1))
bc_step x m i bc w = record {
  bound = λ c. ground (arith, w.bound c);
  seen = λ n before. elim (Bool-cases (x n == x i)) [
    | inl same ↦ rw same (omega arith)
    | inr apart ↦ elim (Bool-cases (n == i)) [
      | inl at ↦
          let e : n ≡ i = ground arith in
          absurd (ground (arith, subst (λ n. (x n == x i) ≡ false) e apart))
      | inr old ↦ rw apart (w.seen n (ground arith))
    ]
  ];
}

bc_loop_lem :
    (x : Bytes) (m n i : ℕ) (bc : ℕ → ℕ)
    → n + i ≡ m - 1
    → IsCharTable x m i bc
    → IsCharTable x m (m - 1) (bc_loop x m n i bc)
unfolding bc_loop
bc_loop_lem x m zero i bc e w =
    let at : i ≡ m - 1 = omega arith in subst (λ i. IsCharTable x m i bc) at w
bc_loop_lem x m (suc n) i bc e w =
    bc_loop_lem x m n (i + 1) (update bc (x i) (m - i - 1)) (omega arith) (bc_step x m i bc w)

-- The entry of preBmBc for a byte is at most the pattern, and at most the distance to the end from
-- every place of the byte in the pattern before the last.
pub pre_bm_bc_lem :
    (x : Bytes) (m c : ℕ)
    → (pre_bm_bc x m c ≤ m) × ((n : ℕ) → n < m - 1 → x n ≡ c → pre_bm_bc x m c ≤ m - 1 - n)
unfolding pre_bm_bc
pre_bm_bc_lem x m c =
    let start : IsCharTable x m 0 (λ c. m) = record {
      bound = λ c. omega arith;
      seen = λ n before. absurd (omega arith);
    } in
    let w = bc_loop_lem x m (m - 1) 0 (λ c. m) (omega arith) start in
    (w.bound c, λ n lt e. subst (λ c. bc_loop x m (m - 1) 0 (λ c. m) c ≤ m - 1 - n) e (w.seen n lt))
