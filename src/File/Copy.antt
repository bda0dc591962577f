-- ===== src/File/Copy.antt =====
-- src/file/copy.c: copying from one descriptor to another, by the kernel or through a buffer.
pub mod Chunks
pub mod Whole
pub mod Transfer
mod Tests
use nebase.Base.{
  ℕ, zero, suc, ◌+◌, ◌-◌, ltb, Bool, true, false, not, ◌&&◌, List, [], ◌∷◌, ◌++◌, Option, none,
  some, if◌then◌else◌, length, take, drop,
}

-- The file that is read, with its offset, and what was written to the other; `clock` counts the
-- calls of read and write.
pub record Files : Type 0 where
  pub content : List ℕ
  pub position : ℕ
  pub written : List ℕ
  pub clock : ℕ

-- How many bytes the kernel moves at most in the n-th call; none is -1.
abbrev pub Answers : Type 0
Answers = ℕ → Option ℕ

abbrev pub min_of : ℕ → ℕ → ℕ
min_of a b = if ltb a b then a else b

-- read: bytes that are left from the offset on, and the offset behind them.
pub read_bytes : Answers → Files → ℕ → Files × Option (List ℕ)
read_bytes k f size = elim (k f.clock) [
  | none ↦ (record f { clock = f.clock + 1 }, none)
  | some n ↦
      let bytes = take (min_of n size) (drop f.position f.content) in
      (record f { position = f.position + length bytes; clock = f.clock + 1 }, some bytes)
]

-- write: none is -1.
pub write_bytes : Answers → Files → List ℕ → Files × Option ℕ
write_bytes k f bytes = elim (k f.clock) [
  | none ↦ (record f { clock = f.clock + 1 }, none)
  | some n ↦ (
    record f { written = f.written ++ take (min_of n (length bytes)) bytes; clock = f.clock + 1 },
    some (min_of n (length bytes)),
  )
]

-- The inner loop of neb_file_buffered_copy; false is the return of -1, and none means that the
-- rounds did not suffice.
pub write_all : ℕ → Answers → Files → List ℕ → Option (Files × Bool)
unfolding write_bytes
write_all zero k f bytes = none
write_all (suc fuel) k f [] = some (f, true)
write_all (suc fuel) k f (b ∷ rest) =
    let (g, nw) = write_bytes k f (b ∷ rest) in
    elim nw [
      | none ↦ some (g, false)
      | some zero ↦ some (g, false)
      | some (suc n) ↦ write_all fuel k g (drop (suc n) (b ∷ rest))
    ]

abbrev pub buffer_size : ℕ
buffer_size = 262144

-- neb_file_buffered_copy with `left` bytes to go; no number is -1.
unfoldable pub buffered_copy : ℕ → Answers → Files → ℕ → ℕ → Option (Files × Option ℕ)
unfolding read_bytes write_all
buffered_copy zero k f count left = none
buffered_copy (suc fuel) k f count zero = some (f, some count)
buffered_copy (suc fuel) k f count (suc left) =
    let (g, got) = read_bytes k f (min_of (suc left) buffer_size) in
    elim got [
      | none ↦ some (g, some (count - suc left))
      | some [] ↦ some (g, some (count - suc left))
      | some (b ∷ bytes) ↦ elim (write_all (suc (suc (length bytes))) k g (b ∷ bytes)) [
        | none ↦ none
        | some (h, false) ↦ some (h, none)
        | some (h, true) ↦ buffered_copy fuel k h count (suc left - suc (length bytes))
      ]
    ]

-- Where a copy starts, and the offset after `n` bytes, where one was given.
abbrev pub start_of : Files → Option ℕ → ℕ
start_of f none = f.position
start_of f (some o) = o

abbrev pub advance : Option ℕ → ℕ → Option ℕ
advance none n = none
advance (some o) n = some (o + n)

-- What a copy leaves: the files, *offset and the result; no number is -1.
pub record Copied : Type 0 where
  pub files : Files
  pub offset : Option ℕ
  pub result : Option ℕ

abbrev pub add_result : ℕ → Option ℕ → ℕ
add_result o none = o
add_result o (some n) = o + n

-- Whether the three calls of lseek succeed: the one that reads the old offset, the one to *offset,
-- and the one back, which cannot go to an old offset that was not read.
pub record Seeks : Type 0 where
  pub tells : Bool
  pub sets : Bool
  pub goes_back : Bool

abbrev pub is_restored : Seeks → Bool
is_restored s = s.tells && s.goes_back

-- The end of a copy from *offset, with the descriptor's offset restored or not.
pub restored : Bool → ℕ → ℕ → Files × Option ℕ → Copied
restored back old o (g, r) =
    if back
    then record { files = record g { position = old }; offset = some (add_result o r); result = r }
    else record { files = g; offset = some (add_result o r); result = none }

abbrev pub as_copied : Option ℕ → Files × Option ℕ → Copied
as_copied offset (g, r) = record { files = g; offset = offset; result = r }

-- neb_file_buffered_copy_with_offset
pub buffered_copy_with_offset : ℕ → Seeks → Answers → Files → Option ℕ → ℕ → Option Copied
unfolding buffered_copy restored
buffered_copy_with_offset fuel seeks k f none count = elim (buffered_copy fuel k f count count) [
  | none ↦ none
  | some x ↦ some (as_copied none x)
]
buffered_copy_with_offset fuel seeks k f (some o) count =
    if not seeks.sets
    then some (record { files = f; offset = some o; result = none })
    else elim (buffered_copy fuel k (record f { position = o }) count count) [
      | none ↦ none
      | some x ↦ some (restored (is_restored seeks) f.position o x)
    ]

-- What sendfile and copy_file_range answer: a number of bytes at most, or an errno.
pub data SysAnswer : Type 0 where
  moved : ℕ → SysAnswer
  enosys einval exdev other_errno : SysAnswer

-- The copy by the kernel: from *offset, which it advances, or from the descriptor's own.
pub kernel_copy : Files → Option ℕ → ℕ → Copied
kernel_copy f offset n =
    let bytes = take n (drop (start_of f offset) f.content) in
    let after : ℕ = elim offset [ none ↦ f.position + length bytes | some o ↦ f.position ] in
    record {
      files = record f { position = after; written = f.written ++ bytes };
      offset = advance offset (length bytes);
      result = some (length bytes);
    }

abbrev pub refused : Files → Option ℕ → Option Copied
refused f offset = some (record { files = f; offset = offset; result = none })

-- neb_file_sys_copy
pub sys_copy : ℕ → SysAnswer → Seeks → Answers → Files → Option ℕ → ℕ → Option Copied
unfolding buffered_copy_with_offset kernel_copy
sys_copy fuel (moved n) seeks k f offset count = some (kernel_copy f offset (min_of n count))
sys_copy fuel enosys seeks k f offset count = buffered_copy_with_offset fuel seeks k f offset count
sys_copy fuel einval seeks k f offset count = buffered_copy_with_offset fuel seeks k f offset count
sys_copy fuel exdev seeks k f offset count = refused f offset
sys_copy fuel other_errno seeks k f offset count = refused f offset

-- neb_file_fs_copy, with the answers of copy_file_range and of sendfile.
pub fs_copy : ℕ → SysAnswer → SysAnswer → Seeks → Answers → Files → Option ℕ → ℕ → Option Copied
unfolding sys_copy kernel_copy
fs_copy fuel (moved n) send seeks k f offset count = some (kernel_copy f offset (min_of n count))
fs_copy fuel enosys send seeks k f offset count = sys_copy fuel send seeks k f offset count
fs_copy fuel einval send seeks k f offset count = sys_copy fuel send seeks k f offset count
fs_copy fuel exdev send seeks k f offset count = sys_copy fuel send seeks k f offset count
fs_copy fuel other_errno send seeks k f offset count = refused f offset
