-- ===== src/Pidfile/Digits.antt =====
-- The digits that set_pid of src/pidfile.c writes are read back by get_pid.
use nebase.Base.{
  ℕ, zero, suc, ◌+◌, ◌-◌, ◌*◌, ◌/◌, ◌%◌, ◌^◌, ◌≤◌, ◌<◌, ◌≡◌, refl, ap, ◌∙◌, arith, ltb, true, List,
  ◌∷◌, length, Bool-cases, inl, inr, lt→ltb, ltb→lt,
}
use native.Mathlib.Nat.{pow-suc}
use nebase.Pidfile.{digits, scan, is_digit}

digit_lem : (d : ℕ) → d < 10 → is_digit (48 + d) ≡ true
digit_lem d lt = ground arith

scan_digit :
    (value d : ℕ) (rest : List ℕ)
    → d < 10
    → scan value ((48 + d) ∷ rest) ≡ scan (value * 10 + d) rest
unfolding scan
scan_digit value d rest lt =
    let e : (48 + d) - 48 ≡ d = omega arith in simp (digit_lem d lt, e) refl

first_digit : (n : ℕ) (rest : List ℕ) → n < 10 → scan 0 ((48 + n) ∷ rest) ≡ scan n rest
first_digit n rest lt =
    let e : 0 * 10 + n ≡ n = omega arith in scan_digit 0 n rest lt ∙ ap (λ k. scan k rest) e

pub scan-digits :
    (fuel n : ℕ) (rest : List ℕ)
    → n < 10 ^ suc fuel
    → scan 0 (digits (suc fuel) n rest) ≡ scan n rest
unfolding digits
scan-digits zero n rest lt = simp (lt→ltb n 10 lt) (first_digit n rest lt)
scan-digits (suc fuel) n rest lt = elim (Bool-cases (ltb n 10)) [
  | inl y ↦ simp (y) (first_digit n rest (ltb→lt n 10 y))
  | inr no_more ↦
      let power = pow-suc 10 (suc fuel) in
      let less : n / 10 < 10 ^ suc fuel = omega arith in
      let back : n / 10 * 10 + n % 10 ≡ n = omega arith in
      simp (digits, no_more)
        (scan-digits fuel (n / 10) ((48 + n % 10) ∷ rest) less
          ∙ scan_digit (n / 10) (n % 10) rest (omega arith)
          ∙ ap (λ k. scan k rest) back)
]

pub length-digits : (fuel n : ℕ) (rest : List ℕ) → length (digits fuel n rest) ≤ fuel + length rest
unfolding digits
length-digits zero n rest = omega arith
length-digits (suc fuel) n rest = elim (Bool-cases (ltb n 10)) [
  | inl y ↦ simp (y) (omega arith)
  | inr no_more ↦
      let shorter = length-digits fuel (n / 10) ((48 + n % 10) ∷ rest) in
      simp (digits, no_more) (omega arith)
]
