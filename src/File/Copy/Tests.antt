-- ===== src/File/Copy/Tests.antt =====
-- Copies of src/file/copy.c with short reads and writes.
use nebase.Base.{zero, suc, ◌≡◌, refl, arith, true, false, [], ◌∷◌, none, some}
use nebase.File.Copy.{Files, Answers, Seeks, buffered_copy, Copied, enosys, exdev, fs_copy}
use nebase.File.Copy.Transfer.{IsTransfer, fs_copy-IsTransfer}

abbrev files : Files
files = record { content = 1 ∷ 2 ∷ 3 ∷ 4 ∷ 5 ∷ 6 ∷ []; position = 1; written = 9 ∷ []; clock = 0 }

-- Three bytes at most, and one at most in every call of write.
abbrev short : Answers
short zero = some 3
short (suc zero) = some 1
short (suc (suc zero)) = some 2
short (suc (suc (suc n))) = some 2

abbrev failing : Answers
failing zero = some 3
failing (suc zero) = some 1
failing (suc (suc n)) = none

short_copy :
    buffered_copy 5 short files 4 4
    ≡ some (
      record {
        content = 1 ∷ 2 ∷ 3 ∷ 4 ∷ 5 ∷ 6 ∷ [];
        position = 5;
        written = 9 ∷ 2 ∷ 3 ∷ 4 ∷ 5 ∷ [];
        clock = 5;
      },
      some 4,
    )
unfolding buffered_copy
short_copy = refl

-- A write that fails loses what was read.
failed_copy :
    buffered_copy 5 failing files 4 4
    ≡ some (
      record {
        content = 1 ∷ 2 ∷ 3 ∷ 4 ∷ 5 ∷ 6 ∷ [];
        position = 4;
        written = 9 ∷ 2 ∷ [];
        clock = 3;
      },
      none,
    )
unfolding buffered_copy
failed_copy = refl

abbrev stuck : Seeks
stuck = record { tells = true; sets = true; goes_back = false }

abbrev regular : Seeks
regular = record { tells = true; sets = true; goes_back = true }

-- The offset is advanced, and -1 returned, where the descriptor's own cannot be restored.
lost_offset :
    fs_copy 5 exdev enosys stuck short files (some 2) 4
    ≡ some (record {
      files = record {
        content = 1 ∷ 2 ∷ 3 ∷ 4 ∷ 5 ∷ 6 ∷ [];
        position = 6;
        written = 9 ∷ 3 ∷ 4 ∷ 5 ∷ 6 ∷ [];
        clock = 5;
      };
      offset = some 6;
      result = none;
    })
unfolding fs_copy
lost_offset = refl

fs_copy-IsTransfer_example :
    (c : Copied) × (fs_copy 5 exdev enosys regular short files (some 2) 4 ≡ some c)
    × IsTransfer regular files (some 2) c
fs_copy-IsTransfer_example =
    fs_copy-IsTransfer 5 exdev enosys regular short files (some 2) 4 (omega arith)
