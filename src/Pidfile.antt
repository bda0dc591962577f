-- ===== src/Pidfile.antt =====
-- src/pidfile.c: a file with the pid of the process that holds its lock.
pub mod Digits
pub mod Locked
mod Tests
use nebase.Base.{
  ℕ, zero, suc, ◌+◌, ◌-◌, ◌*◌, ◌/◌, ◌%◌, ltb, leb, ◌==◌, Bool, true, false, not, ◌&&◌, List, [],
  ◌∷◌, ◌++◌, Option, none, some, if◌then◌else◌, length, take, drop, get_elem?,
}

-- snprintf with "%d" of a number that is not negative: its digits in front of `rest`, at most as
-- many as the fuel.
pub digits : ℕ → ℕ → List ℕ → List ℕ
digits zero n rest = rest
digits (suc fuel) n rest =
    if ltb n 10 then (48 + n) ∷ rest else digits fuel (n / 10) ((48 + n % 10) ∷ rest)

abbrev pub is_digit : ℕ → Bool
is_digit c = leb 48 c && ltb c 58

-- atoi, from its first digit on.
pub scan : ℕ → List ℕ → ℕ
scan value [] = value
scan value (c ∷ rest) = if is_digit c then scan (value * 10 + (c - 48)) rest else value

-- The file's bytes and the process that holds the write lock on it.
pub record PidFile : Type 0 where
  pub content : List ℕ
  pub holder : Option ℕ

abbrev pub pidbuf_size : ℕ
pidbuf_size = 32

-- What get_pid ends with: a pid, -1, or a write of pidbuf[nr] behind the buffer.
pub data Got : Type 0 where
  pid : ℕ → Got
  invalid overrun : Got

abbrev pub as_pid : ℕ → Got
as_pid n = if n == 0 then invalid else pid n

-- get_pid through a descriptor whose offset is `at`, of a text that has no sign and no space in front.
unfoldable pub get_pid : Bool → ℕ → PidFile → Got
unfolding scan
get_pid reads at f =
    let left = drop at f.content in
    let nr = length (take pidbuf_size left) in
    let last = get_elem? left (nr - 1) in
    let ends : Bool = elim last [ none ↦ false | some c ↦ c == 0 ] in
    if not reads
    then invalid
    else if (nr == pidbuf_size) && not ends
    then invalid
    else if nr == pidbuf_size
    then overrun
    else as_pid (scan 0 (take pidbuf_size left))

-- The offset after get_pid.
abbrev pub read_end : Bool → ℕ → PidFile → ℕ
read_end reads at f = if reads then at + length (take pidbuf_size (drop at f.content)) else at

abbrev pub zeros : ℕ → List ℕ
zeros zero = []
zeros (suc n) = 0 ∷ zeros n

-- An empty file after a write at the offset `at`: the bytes in front are zero.
abbrev pub placed : ℕ → List ℕ → List ℕ
placed at [] = []
placed at (c ∷ rest) = zeros at ++ c ∷ rest

-- set_pid through a descriptor whose offset is `at`: `truncates` is whether ftruncate succeeds, which
-- leaves the offset, and `nw` what write answers. The new offset is the second component.
unfoldable pub set_pid : Bool → Option ℕ → ℕ → ℕ → PidFile → PidFile × ℕ × Bool
unfolding digits
set_pid truncates nw at me f =
    let text = digits 10 me [] in
    if not truncates then (f, at, false) else elim nw [
      | none ↦ (record f { content = [] }, at, false)
      | some n ↦ (record f { content = placed at (take n text) }, at + n, n == length text)
    ]

-- Whether another process holds the lock.
abbrev pub is_held : ℕ → Option ℕ → Bool
is_held me none = false
is_held me (some p) = not (p == me)

-- What an opening returns: whether a descriptor, and *locker.
pub record Opening : Type 0 where
  pub file : PidFile
  pub opened : Bool
  pub locker : Got

abbrev pub no_locker : PidFile → Bool → Opening
no_locker f opened = record { file = f; opened = opened; locker = pid 0 }

-- neb_pidlock; the answers are those of openat, fcntl apart from a held lock, read, ftruncate and
-- write.
pub pidlock : Bool → Bool → Bool → Bool → Option ℕ → ℕ → PidFile → Opening
unfolding get_pid set_pid
pidlock opens locks reads truncates nw me f =
    let (written, end, done) = set_pid truncates nw 0 me (record f { holder = some me }) in
    if not opens
    then no_locker f false
    else if is_held me f.holder
    then record { file = f; opened = false; locker = get_pid reads 0 f }
    else if not locks
    then no_locker f false
    else if done
    then no_locker written true
    else no_locker (record written { holder = none }) false

-- neb_pidfile_open; the answers are those of open, fcntl and read.
pub pidfile_open : Bool → Bool → Bool → ℕ → PidFile → Opening
unfolding get_pid
pidfile_open opens asks reads me f =
    if not opens
    then no_locker f false
    else if not asks
    then no_locker f false
    else if is_held me f.holder
    then record { file = f; opened = false; locker = get_pid reads 0 f }
    else no_locker f true

-- neb_pidfile_write through a descriptor whose offset is `at`, with the new offset and the pid that
-- it returns, pid 0 being its 0.
pub pidfile_write : Bool → Bool → Bool → Option ℕ → ℕ → ℕ → PidFile → PidFile × ℕ × Got
unfolding get_pid set_pid
pidfile_write locks reads truncates nw at me f =
    let (written, end, done) = set_pid truncates nw at me (record f { holder = some me }) in
    if is_held me f.holder
    then (f, read_end reads at f, get_pid reads at f)
    else if not locks
    then (f, at, invalid)
    else (written, end, if done then pid 0 else invalid)
