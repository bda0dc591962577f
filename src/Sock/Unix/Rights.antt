-- ===== src/Sock/Unix/Rights.antt =====
-- neb_sock_unix_send_with_fds and neb_sock_unix_recv_with_fds of src/sock/unix.c: data with
-- descriptors in a control message. Sizes are in bytes, and an int has four.
pub mod Received
pub mod Bounds
mod Tests
use nebase.Base.{
  ℕ, zero, suc, ◌+◌, ◌-◌, ◌*◌, ◌/◌, leb, Bool, true, false, not, List, [], ◌∷◌, ◌++◌, Option, none,
  some, if◌then◌else◌, take, drop,
}

-- The macros of <sys/socket.h>: CMSG_LEN n is `header` + n, CMSG_SPACE n is `header` + `align` n.
pub record Layout : Type 0 where
  pub header : ℕ
  pub align : ℕ → ℕ

abbrev pub int_size : ℕ
int_size = 4

abbrev pub cmsg_len : Layout → ℕ → ℕ
cmsg_len l n = l.header + n

abbrev pub cmsg_space : Layout → ℕ → ℕ
cmsg_space l n = l.header + l.align n

abbrev pub max_cmsg_fd : ℕ
max_cmsg_fd = 16

pub data CmsgLevel : Type 0 where
  sol_socket other_level : CmsgLevel

pub data CmsgType : Type 0 where
  scm_rights other_type : CmsgType

-- A control message with the ints of its payload.
pub record Cmsg : Type 0 where
  pub level : CmsgLevel
  pub type : CmsgType
  pub len : ℕ
  pub payload : List ℕ

-- A message: its data, the first control message, the size of the control buffer and MSG_CTRUNC.
pub record Message : Type 0 where
  pub content : List ℕ
  pub control : Option Cmsg
  pub controllen : ℕ
  pub ctrunc : Bool

-- What neb_sock_unix_send_with_fds gives to sendmsg.
pub rights_message : Layout → List ℕ → ℕ → List ℕ → ℕ → Message
rights_message l bytes len fds fd_num = record {
  content = take len bytes;
  control = some (record {
    level = sol_socket;
    type = scm_rights;
    len = cmsg_len l (int_size * fd_num);
    payload = take fd_num fds;
  });
  controllen = cmsg_space l (int_size * fd_num);
  ctrunc = false;
}

-- neb_sock_unix_send_with_fds; none is -1.
pub send_with_fds : Layout → (Message → Option ℕ) → List ℕ → ℕ → List ℕ → ℕ → Option ℕ
unfolding rights_message
send_with_fds l sendmsg bytes len fds fd_num =
    if leb max_cmsg_fd fd_num
    then none
    else elim (sendmsg (rights_message l bytes len fds fd_num)) [ none ↦ none | some nw ↦ some nw ]

-- How neb_sock_unix_recv_with_fds ends: it returns a length, or -1, or reads through the null
-- pointer that CMSG_FIRSTHDR gives where there is no control message.
pub data Result : Type 0 where
  received : List ℕ → Result
  failed null_read : Result

-- The result, *fd_num, and the memory from `fds` on.
pub record Receipt : Type 0 where
  pub result : Result
  pub fd_num : ℕ
  pub memory : List ℕ

-- Whether a control message carries descriptors.
abbrev pub is_rights : CmsgLevel → CmsgType → Bool
is_rights sol_socket scm_rights = true
is_rights sol_socket other_type = false
is_rights other_level t = false

-- The part of neb_sock_unix_recv_with_fds behind the test of MSG_CTRUNC.
unfoldable pub store_rights : Layout → List ℕ → Option Cmsg → List ℕ → Receipt
store_rights l bytes none memory = record { result = null_read; fd_num = 0; memory = memory }
store_rights l bytes (some c) memory =
    let n = (c.len - cmsg_len l 0) / int_size in
    if not (is_rights c.level c.type)
    then record { result = failed; fd_num = 0; memory = memory }
    else record { result = received bytes; fd_num = n; memory = take n c.payload ++ drop n memory }

-- What is done with a message that recvmsg handed over.
unfoldable pub store_message : Layout → ℕ → Message → List ℕ → Receipt
unfolding store_rights
store_message l fd_num m memory = elim m.content [
  | [] ↦ record { result = received []; fd_num = fd_num; memory = memory }
  | (b ∷ bytes) ↦
      if m.ctrunc
      then record { result = failed; fd_num = fd_num; memory = memory }
      else store_rights l m.content m.control memory
]

-- neb_sock_unix_recv_with_fds; recvmsg is given the lengths of both buffers.
pub recv_with_fds : Layout → (ℕ → ℕ → Option Message) → ℕ → ℕ → List ℕ → Receipt
unfolding store_message
recv_with_fds l recvmsg len fd_num memory =
    if leb max_cmsg_fd fd_num
    then record { result = failed; fd_num = fd_num; memory = memory }
    else elim (recvmsg len (cmsg_space l (int_size * (fd_num + 1)))) [
      | none ↦ record { result = failed; fd_num = fd_num; memory = memory }
      | some m ↦ store_message l fd_num m memory
    ]
