-- ===== src/File/Copy/Chunks.antt =====
-- The copy of src/file/copy.c, however the kernel cuts the reads and writes into pieces.
use nebase.Base.{
  ℕ, zero, suc, ◌+◌, ◌≤◌, ◌<◌, ◌≡◌, refl, arith, Bool, true, false, List, [], ◌∷◌, ◌++◌, none, some,
  length, take, drop, ap, sym, ◌∙◌, ◌⊎◌, inl, inr, Option-cases, length-drop, append_nil,
  append_assoc, take_add,
}
use nebase.File.Copy.{Files, Answers, min_of, write_bytes, write_all}

-- The first `m` of some bytes were written, and nothing else is changed but the clock.
pub record IsWritten (f g : Files) (bytes : List ℕ) (m : ℕ) : Type 0 where
  pub content : g.content ≡ f.content
  pub position : g.position ≡ f.position
  pub written : g.written ≡ f.written ++ take m bytes

pub min_of_le : (a b : ℕ) → min_of a b ≤ b
min_of_le a b = ground arith

write_bytes_lem :
    (k : Answers) (f : Files) (bytes : List ℕ)
    → let r = write_bytes k f bytes in
      ((r.1 ≡ none) × IsWritten f r.0 bytes 0)
      ⊎ ((n : ℕ) × (r.1 ≡ some n) × (n ≤ length bytes) × IsWritten f r.0 bytes n)
unfolding write_bytes
write_bytes_lem k f bytes = elim (Option-cases (k f.clock)) [
  | inl failed ↦
      rw (write_bytes, failed)
        (inl
          (refl, record { content = refl; position = refl; written = sym (append_nil f.written) }))
  | inr (n, e) ↦
      rw (write_bytes, e)
        (inr (
          min_of n (length bytes),
          refl,
          min_of_le n (length bytes),
          record { content = refl; position = refl; written = refl },
        ))
]

write_more :
    {f g h : Files} (bytes : List ℕ) (n m : ℕ)
    → IsWritten f g bytes n
    → IsWritten g h (drop n bytes) m
    → IsWritten f h bytes (n + m)
write_more {f} {g} {h} bytes n m a b = record {
  content = b.content ∙ a.content;
  position = b.position ∙ a.position;
  written =
      b.written
      ∙ (ap (λ l. l ++ take m (drop n bytes)) a.written
          ∙ (append_assoc f.written (take n bytes) (take m (drop n bytes))
              ∙ ap (λ l. f.written ++ l) (sym (take_add n m bytes))));
}

pub write_all_lem :
    (fuel : ℕ) (k : Answers) (f : Files) (bytes : List ℕ)
    → length bytes < fuel
    → (g : Files) × (ok : Bool) × (m : ℕ) × (write_all fuel k f bytes ≡ some (g, ok))
      × IsWritten f g bytes m
      × (m ≤ length bytes)
      × (ok ≡ true → m ≡ length bytes)
unfolding write_all
write_all_lem zero k f bytes lt = absurd (omega arith)
write_all_lem (suc fuel) k f [] lt = (
  f,
  true,
  0,
  refl,
  record { content = refl; position = refl; written = sym (append_nil f.written) },
  omega arith,
  λ h. refl,
)
write_all_lem (suc fuel) k f (b ∷ rest) lt =
    let bytes = b ∷ rest in
    let g = (write_bytes k f bytes).0 in
    elim (write_bytes_lem k f bytes) [
      | inl (failed, w) ↦ (g, false, 0, rw (write_all, failed) refl, w, omega arith, λ h. cc)
      | inr (n, wrote, le, w) ↦
          elim n
              as (λ n.
                (write_bytes k f bytes).1 ≡ some n
                → n ≤ length bytes
                → IsWritten f g bytes n
                → (h : Files) × (ok : Bool) × (m : ℕ) × (write_all (suc fuel) k f bytes
                    ≡ some (h, ok))
                  × IsWritten f h bytes m
                  × (m ≤ length bytes)
                  × (ok ≡ true → m ≡ length bytes)) [
                    | zero ↦ λ wrote le w.
                        (g, false, 0, rw (write_all, wrote) refl, w, omega arith, λ h. cc)
                    | suc n ↦ λ wrote le w.
                        let shorter : length (drop (suc n) bytes) < fuel =
                          omega (arith, length-drop (suc n) bytes) in
                        let (h, ok, m, runs, v, some_left, all) =
                          write_all_lem fuel k g (drop (suc n) bytes) shorter in
                        (
                          h,
                          ok,
                          suc n + m,
                          rw (write_all, wrote) runs,
                          write_more bytes (suc n) m w v,
                          omega (arith, length-drop (suc n) bytes, some_left),
                          λ done. omega (arith, length-drop (suc n) bytes, all done),
                        )
                  ]
            wrote le w
    ]
