-- ===== src/Pidfile/Locked.antt =====
-- A process that finds the lock of src/pidfile.c taken learns the pid of its holder.
use nebase.Base.{
  ◌∙◌, subst, sym, ◌+◌, if◌then◌else◌, ℕ, zero, suc, ◌^◌, ◌≤◌, ◌<◌, ◌==◌, ◌≡◌, ◌≢◌, refl, ap, arith,
  Bool, true, false, List, [], ◌∷◌, Option, none, some, length, take, take_all, take_nil, ==_iff,
}
use nebase.Pidfile.{
  digits, scan, PidFile, pidbuf_size, pid, get_pid, set_pid, pidlock, pidfile_open, pidfile_write,
  no_locker, invalid, placed, read_end,
}
use nebase.Pidfile.Digits.{scan-digits, length-digits}

test_ne : (a b : ℕ) → a ≢ b → (a == b) ≡ false
test_ne a b h = ground arith

-- The file that a process of pid `me` has locked.
abbrev pub locked_by : ℕ → PidFile
locked_by me = record { content = digits 10 me []; holder = some me }

take_short : (n : ℕ) (xs : List ℕ) → length xs ≤ n → take n xs ≡ xs
take_short n [] le = take_nil n
take_short zero (x ∷ xs) le = ground arith
take_short (suc n) (x ∷ xs) le = ap (λ ys. x ∷ ys) (take_short n xs (omega arith))

placed_first : (xs : List ℕ) → placed 0 xs ≡ xs
placed_first [] = refl
placed_first (x ∷ xs) = refl

get_locked : (me : ℕ) → me ≢ 0 → me < 10 ^ 10 → get_pid true 0 (locked_by me) ≡ pid me
unfolding get_pid scan
get_locked me nonzero lt =
    let few = length-digits 10 me [] in
    let whole : take pidbuf_size (digits 10 me []) ≡ digits 10 me [] =
      take_short pidbuf_size (digits 10 me []) (omega arith) in
    let short : (length (digits 10 me []) == pidbuf_size) ≡ false =
      test_ne (length (digits 10 me [])) pidbuf_size (λ e. omega arith) in
    let value : scan 0 (digits 10 me []) ≡ me = scan-digits 9 me [] lt in
    simp (get_pid, whole, short, value, test_ne me 0 nonzero) refl

set_locked :
    (me : ℕ) (f : PidFile)
    → set_pid true (some (length (digits 10 me []))) 0 me (record f { holder = some me })
      ≡ (locked_by me, length (digits 10 me []), true)
unfolding set_pid
set_locked me f =
    let same = ==_iff (length (digits 10 me [])) (length (digits 10 me [])) in
    let whole = take_all (digits 10 me []) in
    let at : 0 + length (digits 10 me []) ≡ length (digits 10 me []) = omega arith in
    simp (set_pid, whole, same.1 refl, placed_first (digits 10 me []))
      (ap (λ e. (locked_by me, e, true)) at)

read_locked : (me : ℕ) → read_end true 0 (locked_by me) ≡ length (digits 10 me [])
read_locked me =
    let few = length-digits 10 me [] in
    ap (λ xs. 0 + length xs) (take_short pidbuf_size (digits 10 me []) (omega arith)) ∙ omega arith

-- neb_pidlock on a file that no process has locked, by a process of a pid below 10^10, locks it
-- and writes the pid, as neb_pidfile_write does through a descriptor at offset 0. Another process
-- that then calls neb_pidlock or neb_pidfile_open, whatever writing would answer, gets -1 with that
-- pid in *locker, or the pid from neb_pidfile_write through a descriptor at offset 0, which is
-- behind the pid afterwards, and the file stays as it is.
pub pidlock_lem :
    (me other : ℕ) (f : PidFile) (asks truncates : Bool) (nw : Option ℕ)
    → me ≢ 0
    → me < 10 ^ 10
    → me ≢ other
    → f.holder ≡ none
    → (pidlock true true true true (some (length (digits 10 me []))) me f
        ≡ record { file = locked_by me; opened = true; locker = pid 0 })
      × (pidlock true asks true truncates nw other (locked_by me)
          ≡ record { file = locked_by me; opened = false; locker = pid me })
      × (pidfile_open true true true other (locked_by me)
          ≡ record { file = locked_by me; opened = false; locker = pid me })
      × (pidfile_write true true true (some (length (digits 10 me []))) 0 me f
          ≡ (locked_by me, length (digits 10 me []), pid 0))
      × (pidfile_write asks true truncates nw 0 other (locked_by me)
          ≡ (locked_by me, length (digits 10 me []), pid me))
unfolding pidlock pidfile_open pidfile_write
pidlock_lem me other f asks truncates nw nonzero lt differ unlocked =
    let held : (me == other) ≡ false = test_ne me other differ in
    let got = get_locked me nonzero lt in
    let written = set_locked me f in
    (
      subst
          (λ h.
            pidlock true true true true (some (length (digits 10 me []))) me
              (record { content = f.content; holder = h })
            ≡ record { file = locked_by me; opened = true; locker = pid 0 })
          (sym unlocked)
          (ap
            (λ x.
              if x.2 then no_locker x.0 true else no_locker (record x.0 { holder = none }) false)
            written),
      simp (pidlock, held, got) refl,
      simp (pidfile_open, held, got) refl,
      subst
          (λ h.
            pidfile_write true true true (some (length (digits 10 me []))) 0 me
              (record { content = f.content; holder = h })
            ≡ (locked_by me, length (digits 10 me []), pid 0))
          (sym unlocked) (ap (λ x. (x.0, x.1, if x.2 then pid 0 else invalid)) written),
      simp (pidfile_write, held, got) (ap (λ e. (locked_by me, e, pid me)) (read_locked me)),
    )
