-- ===== src/Pidfile/Tests.antt =====
-- Pid files of src/pidfile.c.
use nebase.Base.{ℕ, ◌≡◌, refl, arith, true, false, List, [], ◌∷◌, ◌++◌, none, some}
use nebase.Pidfile.{
  digits, PidFile, pid, invalid, overrun, get_pid, pidlock, pidfile_open, pidfile_write,
}
use nebase.Pidfile.Locked.{locked_by, pidlock_lem}

abbrev unlocked : PidFile
unlocked = record { content = 49 ∷ []; holder = none }

abbrev ones : List ℕ
ones = 49 ∷ 49 ∷ 49 ∷ 49 ∷ 49 ∷ 49 ∷ 49 ∷ 49 ∷ 49 ∷ 49 ∷ []

-- A file of 31 digits and a zero byte makes get_pid write behind its buffer.
long_file :
    get_pid true 0 (record { content = ones ++ ones ++ ones ++ 49 ∷ 0 ∷ []; holder = none })
    ≡ overrun
unfolding get_pid
long_file = refl

no_number : get_pid true 0 (record { content = 97 ∷ []; holder = none }) ≡ invalid
unfolding get_pid
no_number = refl

-- A process that has read the pid and writes its own once the lock is free writes it behind as
-- many zero bytes, and nobody reads it.
written_behind :
    (pidfile_write true true true (some 1) 3 9 (record (locked_by 417) { holder = none })
      ≡ (record { content = 0 ∷ 0 ∷ 0 ∷ 57 ∷ []; holder = some 9 }, 4, pid 0))
    × (pidlock true true true true none 5
          (record { content = 0 ∷ 0 ∷ 0 ∷ 57 ∷ []; holder = some 9 })
        ≡ record {
          file = record { content = 0 ∷ 0 ∷ 0 ∷ 57 ∷ []; holder = some 9 };
          opened = false;
          locker = invalid;
        })
unfolding pidfile_write pidlock
written_behind = (refl, refl)

pidlock_lem_example :
    (pidlock true true true true (some 3) 417 unlocked
      ≡ record { file = locked_by 417; opened = true; locker = pid 0 })
    × (pidlock true true true true none 9 (locked_by 417)
        ≡ record { file = locked_by 417; opened = false; locker = pid 417 })
    × (pidfile_open true true true 9 (locked_by 417)
        ≡ record { file = locked_by 417; opened = false; locker = pid 417 })
    × (pidfile_write true true true (some 3) 0 417 unlocked ≡ (locked_by 417, 3, pid 0))
    × (pidfile_write true true true none 0 9 (locked_by 417) ≡ (locked_by 417, 3, pid 417))
unfolding digits
pidlock_lem_example =
    pidlock_lem 417 9 unlocked true true none (λ e. omega arith) (omega arith) (λ e. omega arith)
      refl
