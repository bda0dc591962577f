-- ===== src/File/Copy/Transfer.antt =====
-- What neb_file_fs_copy of src/file/copy.c promises, whichever way it copies.
use nebase.Base.{
  ℕ, ◌<◌, ◌≡◌, refl, arith, true, false, ◌++◌, Option, none, some, length, take, drop, ap, sym,
  Bool-cases, ◌∙◌, ◌⊎◌, inl, inr, append_nil, take-length,
}
use nebase.File.Copy.{
  Files, Answers, Seeks, is_restored, min_of, start_of, advance, Copied, add_result, as_copied,
  restored, buffered_copy_with_offset, SysAnswer, moved, enosys, einval, exdev, other_errno,
  kernel_copy, sys_copy, fs_copy,
}
use nebase.File.Copy.Whole.{buffered_copy_lem}

-- The bytes from the start on were appended to what was written: `n` of them, which is the result
-- and by which *offset is advanced; or some of them, and the result is -1 and *offset as it was; or
-- `n` of them, by which *offset is advanced, and the result is -1, since the descriptor's offset
-- could not be restored. The content is not changed, nor is the descriptor's own offset where one
-- is given and it could be restored.
pub record IsTransfer (seeks : Seeks) (f : Files) (offset : Option ℕ) (c : Copied) : Type 0 where
  pub content : c.files.content ≡ f.content
  pub outcome :
      ((n : ℕ) × (c.result ≡ some n)
        × (c.offset ≡ advance offset n)
        × (c.files.written ≡ f.written ++ take n (drop (start_of f offset) f.content)))
      ⊎ (((m : ℕ) × (c.result ≡ none)
            × (c.offset ≡ offset)
            × (c.files.written ≡ f.written ++ take m (drop (start_of f offset) f.content)))
          ⊎ ((n : ℕ) × (is_restored seeks ≡ false)
              × (c.result ≡ none)
              × (c.offset ≡ advance offset n)
              × (c.files.written ≡ f.written ++ take n (drop (start_of f offset) f.content))))
  pub own_offset :
      (o : ℕ) → offset ≡ some o → is_restored seeks ≡ true → c.files.position ≡ f.position

refused_lem :
    (seeks : Seeks) (f : Files) (offset : Option ℕ)
    → IsTransfer seeks f offset (record { files = f; offset = offset; result = none })
refused_lem seeks f offset = record {
  content = refl;
  outcome = inr (inl (0, refl, refl, sym (append_nil f.written)));
  own_offset = λ o e b. refl;
}

kernel_copy_lem :
    (seeks : Seeks) (f : Files) (offset : Option ℕ) (n : ℕ)
    → IsTransfer seeks f offset (kernel_copy f offset n)
unfolding kernel_copy
kernel_copy_lem seeks f none n = record {
  content = refl;
  outcome = inl (
    length (take n (drop f.position f.content)),
    refl,
    refl,
    ap (λ l. f.written ++ l) (sym (take-length n (drop f.position f.content))),
  );
  own_offset = λ o e b. cc;
}
kernel_copy_lem seeks f (some o) n = record {
  content = refl;
  outcome = inl (
    length (take n (drop o f.content)),
    refl,
    refl,
    ap (λ l. f.written ++ l) (sym (take-length n (drop o f.content))),
  );
  own_offset = λ o e b. refl;
}

-- From `f` to `g`, a copy from `o` ended with `r`.
abbrev Copies : Files → Files → ℕ → Option ℕ → Type 0
Copies f g o r =
    ((n : ℕ) × (r ≡ some n)
      × (g.content ≡ f.content)
      × (g.written ≡ f.written ++ take n (drop o f.content)))
    ⊎ ((m : ℕ) × (r ≡ none)
        × (g.content ≡ f.content)
        × (g.written ≡ f.written ++ take m (drop o f.content)))

restored_lem :
    (seeks : Seeks) (f g : Files) (o : ℕ) (r : Option ℕ)
    → Copies f g o r
    → IsTransfer seeks f (some o) (restored (is_restored seeks) f.position o (g, r))
unfolding restored
restored_lem seeks f g o r out = elim (Bool-cases (is_restored seeks)) [
  | inl back ↦ elim out [
    | inl (n, gives, content, written) ↦
        simp (restored, back)
          (record {
            content = content;
            outcome = inl (n, gives, ap (λ r. some (add_result o r)) gives, written);
            own_offset = λ p e b. refl;
          })
    | inr (m, failed, content, written) ↦
        simp (restored, back)
          (record {
            content = content;
            outcome = inr (inl (m, failed, ap (λ r. some (add_result o r)) failed, written));
            own_offset = λ p e b. refl;
          })
  ]
  | inr lost ↦ elim out [
    | inl (n, gives, content, written) ↦
        simp (restored, lost)
          (record {
            content = content;
            outcome = inr (inr (n, lost, refl, ap (λ r. some (add_result o r)) gives, written));
            own_offset = λ p e b. cc;
          })
    | inr (m, failed, content, written) ↦
        simp (restored, lost)
          (record {
            content = content;
            outcome = inr (inl (m, refl, ap (λ r. some (add_result o r)) failed, written));
            own_offset = λ p e b. cc;
          })
  ]
]

buffered_copy_with_offset_lem :
    (fuel : ℕ) (seeks : Seeks) (k : Answers) (f : Files) (offset : Option ℕ) (count : ℕ)
    → count < fuel
    → (c : Copied) × (buffered_copy_with_offset fuel seeks k f offset count ≡ some c)
      × IsTransfer seeks f offset c
unfolding buffered_copy_with_offset
buffered_copy_with_offset_lem fuel seeks k f none count enough =
    let (g, r, n, m, runs, le, c, out) =
      buffered_copy_lem fuel k f count count (omega arith) enough in
    (
      as_copied none (g, r),
      rw (buffered_copy_with_offset, runs) refl,
      record {
        content = c.content;
        outcome = elim out [
          | inl (gives, same) ↦ inl (
            n,
            gives ∙ ap some (omega arith),
            refl,
            c.written ∙ ap (λ m. f.written ++ take m (drop f.position f.content)) same,
          )
          | inr (failed, some_left) ↦ inr (inl (m, failed, refl, c.written))
        ];
        own_offset = λ o e b. cc;
      },
    )
buffered_copy_with_offset_lem fuel seeks k f (some o) count enough =
    let p = record f { position = o } in
    let (g, r, n, m, runs, le, c, out) =
      buffered_copy_lem fuel k p count count (omega arith) enough in
    elim (Bool-cases seeks.sets) [
      | inl sets ↦ (
        restored (is_restored seeks) f.position o (g, r),
        simp (buffered_copy_with_offset, sets, runs) refl,
        restored_lem seeks f g o r (elim out [
          | inl (gives, same) ↦
              let all : r ≡ some n = gives ∙ ap some (omega arith) in
              inl (
                n,
                all,
                c.content,
                c.written ∙ ap (λ m. f.written ++ take m (drop o f.content)) same,
              )
          | inr (failed, some_left) ↦ inr (m, failed, c.content, c.written)
        ]),
      )
      | inr not_set ↦ (
        record { files = f; offset = some o; result = none },
        simp (buffered_copy_with_offset, not_set) refl,
        refused_lem seeks f (some o),
      )
    ]

sys_copy_lem :
    (fuel : ℕ) (send : SysAnswer) (seeks : Seeks) (k : Answers) (f : Files) (offset : Option ℕ)
    (count : ℕ)
    → count < fuel
    → (c : Copied) × (sys_copy fuel send seeks k f offset count ≡ some c)
      × IsTransfer seeks f offset c
unfolding sys_copy
sys_copy_lem fuel (moved n) seeks k f offset count enough =
    (kernel_copy f offset (min_of n count), refl, kernel_copy_lem seeks f offset (min_of n count))
sys_copy_lem fuel enosys seeks k f offset count enough =
    buffered_copy_with_offset_lem fuel seeks k f offset count enough
sys_copy_lem fuel einval seeks k f offset count enough =
    buffered_copy_with_offset_lem fuel seeks k f offset count enough
sys_copy_lem fuel exdev seeks k f offset count enough =
    (record { files = f; offset = offset; result = none }, refl, refused_lem seeks f offset)
sys_copy_lem fuel other_errno seeks k f offset count enough =
    (record { files = f; offset = offset; result = none }, refl, refused_lem seeks f offset)

-- Whatever the kernel answers to copy_file_range, sendfile, read, write and lseek, a copy ends,
-- with a round for each byte and one more. Where it returns a number, that many bytes from the
-- start on were appended to what was written, in order, and *offset, where given, is advanced by
-- it. Where it returns -1, some of the first of them were, and *offset is as it was, unless the
-- descriptor's own offset could not be restored: then *offset may be advanced by the number of
-- bytes that were appended.
pub fs_copy-IsTransfer :
    (fuel : ℕ) (range send : SysAnswer) (seeks : Seeks) (k : Answers) (f : Files)
    (offset : Option ℕ) (count : ℕ)
    → count < fuel
    → (c : Copied) × (fs_copy fuel range send seeks k f offset count ≡ some c)
      × IsTransfer seeks f offset c
unfolding fs_copy
fs_copy-IsTransfer fuel (moved n) send seeks k f offset count enough =
    (kernel_copy f offset (min_of n count), refl, kernel_copy_lem seeks f offset (min_of n count))
fs_copy-IsTransfer fuel enosys send seeks k f offset count enough =
    sys_copy_lem fuel send seeks k f offset count enough
fs_copy-IsTransfer fuel einval send seeks k f offset count enough =
    sys_copy_lem fuel send seeks k f offset count enough
fs_copy-IsTransfer fuel exdev send seeks k f offset count enough =
    sys_copy_lem fuel send seeks k f offset count enough
fs_copy-IsTransfer fuel other_errno send seeks k f offset count enough =
    (record { files = f; offset = offset; result = none }, refl, refused_lem seeks f offset)
