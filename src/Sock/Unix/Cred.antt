-- ===== src/Sock/Unix/Cred.antt =====
-- Credentials with the data of a Unix socket, in src/sock/unix.c, on Linux.
pub mod Once
use nebase.Base.{ℕ, Bool, true, false, not, List, [], ◌∷◌, Option, none, some, if◌then◌else◌, take}

-- struct neb_ucred
pub record Ucred : Type 0 where
  pub uid : ℕ
  pub gid : ℕ
  pub pid : ℕ

-- The first control message, with the credentials that it holds where it has SOL_SOCKET and
-- SCM_CREDENTIALS.
pub data Control : Type 0 where
  no_control other_control : Control
  credentials : Ucred → Control

-- A message that recvmsg handed over, with MSG_CTRUNC.
pub record CredMessage : Type 0 where
  pub content : List ℕ
  pub control : Control
  pub ctrunc : Bool

-- The receiving socket: SO_PASSCRED and what is in its queue.
pub record CredSocket : Type 0 where
  pub passcred : Bool
  pub queue : List CredMessage

-- neb_sock_unix_set_recv_cred; the flag is whether setsockopt succeeds, and false is -1.
unfoldable pub set_recv_cred : Bool → Bool → CredSocket → CredSocket × Bool
set_recv_cred set enabled s = if set then (record s { passcred = enabled }, true) else (s, false)

-- neb_sock_unix_enable_recv_cred and neb_sock_unix_disable_recv_cred
unfoldable pub enable_recv_cred : Bool → CredSocket → CredSocket × Bool
unfolding set_recv_cred
enable_recv_cred set s = set_recv_cred set true s

unfoldable pub disable_recv_cred : Bool → CredSocket → CredSocket × Bool
unfolding set_recv_cred
disable_recv_cred set s = set_recv_cred set false s

-- What neb_sock_unix_recv_with_cred leaves: the socket, *pu and the data; none is -1.
pub record CredReceipt : Type 0 where
  pub socket : CredSocket
  pub peer : Ucred
  pub bytes : Option (List ℕ)

-- The switch-off of SO_PASSCRED, whose failure is only logged.
unfoldable pub passcred_off : Bool → CredSocket → CredSocket
passcred_off set s = if set then record s { passcred = false } else s

-- The part of neb_sock_unix_recv_with_cred behind recvmsg, for a socket that the message has left.
unfoldable pub take_credentials : Bool → CredSocket → Ucred → CredMessage → CredReceipt
unfolding passcred_off
take_credentials set s pu m = elim m.content [
  | [] ↦ record { socket = s; peer = pu; bytes = some [] }
  | (b ∷ rest) ↦
      if m.ctrunc then record { socket = s; peer = pu; bytes = none } else elim m.control [
        | no_control ↦ record { socket = s; peer = pu; bytes = none }
        | other_control ↦ record { socket = s; peer = pu; bytes = none }
        | credentials u ↦ record { socket = passcred_off set s; peer = u; bytes = some (b ∷ rest) }
      ]
]

-- neb_sock_unix_recv_with_cred; `recvmsg` is how the kernel hands over a message for a buffer of
-- `len` bytes, with credentials where the socket has SO_PASSCRED.
pub recv_with_cred :
    (Bool → ℕ → CredMessage → CredMessage) → Bool → ℕ → Ucred → CredSocket → CredReceipt
unfolding take_credentials
recv_with_cred recvmsg set len pu s = elim s.queue [
  | [] ↦ record { socket = s; peer = pu; bytes = none }
  | (m ∷ rest) ↦ take_credentials set (record s { queue = rest }) pu (recvmsg s.passcred len m)
]
