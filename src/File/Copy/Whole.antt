-- ===== src/File/Copy/Whole.antt =====
-- What neb_file_buffered_copy of src/file/copy.c has copied when it returns.
use nebase.Base.{
  ℕ, zero, suc, ◌+◌, ◌-◌, ◌≤◌, ◌<◌, ◌≡◌, refl, arith, List, ◌∷◌, ◌++◌, Option, none, some, length,
  take, drop, ap, sym, ◌∙◌, ◌⊎◌, inl, inr, Option-cases, List-cases, Bool-cases, subst, append_nil,
  append_assoc, take_add, drop_add, take-length, length-take, take-take,
}
use nebase.File.Copy.{Files, Answers, min_of, read_bytes, write_all, buffer_size, buffered_copy}
use nebase.File.Copy.Chunks.{IsWritten, write_all_lem, min_of_le}

-- From `f` to `g`, `n` bytes were read from the offset on, and the first `m` of them written.
pub record IsCopied (f g : Files) (n m : ℕ) : Type 0 where
  pub content : g.content ≡ f.content
  pub position : g.position ≡ f.position + n
  pub written : g.written ≡ f.written ++ take m (drop f.position f.content)

read_bytes_lem :
    (k : Answers) (f : Files) (size : ℕ)
    → let r = read_bytes k f size in
      ((r.1 ≡ none) × IsCopied f r.0 0 0)
      ⊎ ((bytes : List ℕ) × (r.1 ≡ some bytes)
          × (length bytes ≤ size)
          × (take (length bytes) (drop f.position f.content) ≡ bytes)
          × IsCopied f r.0 (length bytes) 0)
unfolding read_bytes
read_bytes_lem k f size = elim (Option-cases (k f.clock)) [
  | inl failed ↦
      rw (read_bytes, failed)
        (inl (
          refl,
          record { content = refl; position = omega arith; written = sym (append_nil f.written) },
        ))
  | inr (n, e) ↦
      let left = drop f.position f.content in
      let j = min_of n size in
      rw (read_bytes, e)
        (inr (
          take j left,
          refl,
          omega (arith, length-take j left, min_of_le n size),
          take-length j left,
          record { content = refl; position = refl; written = sym (append_nil f.written) },
        ))
]

-- The outcome of a copy of `left` bytes at most, `done` having been copied before.
abbrev pub IsOutcome : Option ℕ → ℕ → ℕ → ℕ → Type 0
IsOutcome r done n m = ((r ≡ some (done + n)) × (m ≡ n)) ⊎ ((r ≡ none) × (m ≤ n))

-- A piece that was read and of which `m` bytes were written, in terms of what is left.
piece_lem :
    {f g h : Files} (bytes : List ℕ) (m : ℕ)
    → take (length bytes) (drop f.position f.content) ≡ bytes
    → IsCopied f g (length bytes) 0
    → IsWritten g h bytes m
    → m ≤ length bytes
    → IsCopied f h (length bytes) m
piece_lem {f} {g} {h} bytes m e a w le = record {
  content = w.content ∙ a.content;
  position = w.position ∙ a.position;
  written =
      w.written
      ∙ (ap (λ l. l ++ take m bytes) (a.written ∙ append_nil f.written)
          ∙ ap (λ l. f.written ++ l)
              (ap (take m) (sym e) ∙ take-take m (length bytes) (drop f.position f.content) le));
}

copy_more :
    {f g h : Files} (n n2 m2 : ℕ)
    → IsCopied f g n n
    → IsCopied g h n2 m2
    → IsCopied f h (n + n2) (n + m2)
copy_more {f} {g} {h} n n2 m2 a b =
    let left = drop f.position f.content in
    let there : drop g.position g.content ≡ drop n left =
      rw (a.position, a.content) (sym (drop_plus f.position n f.content)) in
    record {
      content = b.content ∙ a.content;
      position = omega (arith, a.position, b.position);
      written =
          b.written
          ∙ (ap (λ l. g.written ++ take m2 l) there
              ∙ (ap (λ l. l ++ take m2 (drop n left)) a.written
                  ∙ (append_assoc f.written (take n left) (take m2 (drop n left))
                      ∙ ap (λ l. f.written ++ l) (sym (take_add n m2 left)))));
    }
  where
    drop_plus : (p n : ℕ) (xs : List ℕ) → drop n (drop p xs) ≡ drop (p + n) xs
    drop_plus p n xs = drop_add p n xs

min_of_first : (a b : ℕ) → min_of a b ≤ a
min_of_first a b = ground arith

more-IsOutcome :
    (r : Option ℕ) (done done2 n n2 m2 : ℕ)
    → done2 ≡ done + n
    → IsOutcome r done2 n2 m2
    → IsOutcome r done (n + n2) (n + m2)
more-IsOutcome r done done2 n n2 m2 e (inl (gives, same)) =
    inl (gives ∙ ap some (omega arith), omega arith)
more-IsOutcome r done done2 n n2 m2 e (inr (failed, le)) = inr (failed, omega arith)

-- However the kernel cuts the reads and writes, and whether or not they fail, a copy ends within
-- as many rounds as there are bytes to copy, and one more. It returns how many bytes were copied,
-- which are those from the offset on and were all written, in order; or -1, and what was written
-- is a start of what was read.
pub buffered_copy_lem :
    (fuel : ℕ) (k : Answers) (f : Files) (count left : ℕ)
    → left ≤ count
    → left < fuel
    → (g : Files) × (r : Option ℕ) × (n : ℕ) × (m : ℕ) × (buffered_copy fuel k f count left
        ≡ some (g, r))
      × (n ≤ left)
      × IsCopied f g n m
      × IsOutcome r (count - left) n m
unfolding buffered_copy
buffered_copy_lem zero k f count left le lt = absurd (omega arith)
buffered_copy_lem (suc fuel) k f count zero le lt = (
  f,
  some count,
  0,
  0,
  refl,
  omega arith,
  record { content = refl; position = omega arith; written = sym (append_nil f.written) },
  inl (ap some (omega arith), refl),
)
buffered_copy_lem (suc fuel) k f count (suc left) le lt =
    let size = min_of (suc left) buffer_size in
    let g = (read_bytes k f size).0 in
    elim (read_bytes_lem k f size) [
      | inl (failed, c) ↦ (
        g,
        some (count - suc left),
        0,
        0,
        rw (buffered_copy, failed) refl,
        omega arith,
        c,
        inl (ap some (omega arith), refl),
      )
      | inr (bytes, got, small, e, c) ↦ elim (List-cases bytes) [
        | inl empty ↦ (
          g,
          some (count - suc left),
          0,
          0,
          rw (buffered_copy, got, empty) refl,
          omega arith,
          subst (λ l. IsCopied f g (length l) 0) empty c,
          inl (ap some (omega arith), refl),
        )
        | inr (b, rest, full) ↦
            let n = suc (length rest) in
            let got2 : (read_bytes k f size).1 ≡ some (b ∷ rest) = got ∙ ap some full in
            let fits : n ≤ suc left =
              let here : n ≤ size = subst (λ l. length l ≤ size) full small in
              omega (arith, here, min_of_first (suc left) buffer_size) in
            let e2 = subst (λ l. take (length l) (drop f.position f.content) ≡ l) full e in
            let c2 = subst (λ l. IsCopied f g (length l) 0) full c in
            let (h, ok, m, runs, w, some_left, all) =
              write_all_lem (suc n) k g (b ∷ rest) (omega arith) in
            let piece = piece_lem (b ∷ rest) m e2 c2 w some_left in
            elim (Bool-cases ok) [
              | inr failed ↦
                  let runs2 =
                    subst (λ o. write_all (suc n) k g (b ∷ rest) ≡ some (h, o)) failed runs in
                  (
                    h,
                    none,
                    n,
                    m,
                    rw (buffered_copy, got2, runs2) refl,
                    fits,
                    piece,
                    inr (refl, some_left),
                  )
              | inl done ↦
                  let runs2 =
                    subst (λ o. write_all (suc n) k g (b ∷ rest) ≡ some (h, o)) done runs in
                  let whole = subst (λ m. IsCopied f h n m) (all done) piece in
                  let (g2, r, n2, m2, runs3, le2, c3, out) =
                    buffered_copy_lem fuel k h count (suc left - n) (omega arith)
                      (omega (arith, fits)) in
                  (
                    g2,
                    r,
                    n + n2,
                    n + m2,
                    rw (buffered_copy, got2, runs2) runs3,
                    omega (arith, fits, le2),
                    copy_more n n2 m2 whole c3,
                    more-IsOutcome r (count - suc left) (count - (suc left - n)) n n2 m2
                        (omega (arith, fits)) out,
                  )
            ]
      ]
    ]
