-- ===== src/Sock/Descriptors.antt =====
-- The open descriptors of a process, as the functions of src/sock that open sockets change them.
use nebase.Base.{ℕ, ◌==◌, ◌≡◌, Bool, true, List, [], ◌∷◌, Option, none, some, if◌then◌else◌}

-- An open descriptor with O_NONBLOCK and FD_CLOEXEC.
pub record Descriptor : Type 0 where
  pub fd : ℕ
  pub nonblock : Bool
  pub cloexec : Bool

-- The kernel's list of open descriptors, the newest first.
abbrev pub Table : Type 0
Table = List Descriptor

-- close
unfoldable pub close : ℕ → Table → Table
close fd [] = []
close fd (d ∷ rest) = if d.fd == fd then rest else d ∷ close fd rest

-- neb_sock_inet_new and neb_sock_unix_new, where SOCK_NONBLOCK and SOCK_CLOEXEC exist; `number` is
-- what socket answers, and none is -1.
unfoldable pub sock_new : Option ℕ → Table → Table × Option ℕ
sock_new none t = (t, none)
sock_new (some fd) t = (record { fd = fd; nonblock = true; cloexec = true } ∷ t, some fd)

-- A function that opens: it returns a new descriptor, with both flags, or -1 and opens nothing.
unfoldable pub Opens : Table → Table × Option ℕ → Type 0
Opens t (after, none) = after ≡ t
Opens t (after, some fd) = after ≡ record { fd = fd; nonblock = true; cloexec = true } ∷ t
