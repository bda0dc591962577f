-- ===== src/Sock/Unix/Open.antt =====
-- neb_sock_unix_new_binded and neb_sock_unix_new_connected of src/sock/unix.c.
use nebase.Base.{ℕ, ◌==◌, ltb, not, Bool, true, false, Option, none, some, if◌then◌else◌}
use nebase.Sock.Common.{PollAnswer, interrupted, poll_error, timed_out, ready, poll_loop}
use nebase.Sock.Descriptors.{Table, close, sock_new}

-- What neb_file_get_type answers.
pub data FileType : Type 0 where
  noent sock unknown other_file : FileType

abbrev pub is_noent : FileType → Bool
is_noent noent = true
is_noent sock = false
is_noent unknown = false
is_noent other_file = false

-- neb_sock_unix_new_binded, where sun_path holds addr_max bytes beside its end, for an address of
-- `len` bytes; `number` is what socket answers, `bound` whether bind succeeds.
unfoldable pub new_binded : ℕ → ℕ → FileType → Option ℕ → Bool → Table → Table × Option ℕ
unfolding close sock_new
new_binded addr_max len file number bound t =
    if ltb addr_max len
    then (t, none)
    else if not (is_noent file)
    then (t, none)
    else let (after, opened) = sock_new number t in
      elim opened [
        | none ↦ (after, none)
        | some fd ↦ if bound then (after, some fd) else (close fd after, none)
      ]

-- What connect answers, and getsockopt for SO_ERROR: none is -1, else the error or 0.
pub data ConnectAnswer : Type 0 where
  connected in_progress connect_error : ConnectAnswer

-- The part of neb_sock_unix_new_connected behind poll.
unfoldable pub finish_connect : ℕ → Table → PollAnswer → Option ℕ → Table × Option ℕ
unfolding close
finish_connect fd t interrupted so_error = (close fd t, none)
finish_connect fd t poll_error so_error = (close fd t, none)
finish_connect fd t timed_out so_error = (close fd t, none)
finish_connect fd t (ready r) none = (close fd t, none)
finish_connect fd t (ready r) (some e) = if e == 0 then (t, some fd) else (close fd t, none)

-- neb_sock_unix_new_connected; no result means that the rounds of poll did not suffice.
unfoldable pub new_connected :
    ℕ
    → ℕ
    → ℕ
    → Option ℕ
    → ConnectAnswer
    → (ℕ → PollAnswer)
    → Option ℕ
    → Table
    → Option (Table × Option ℕ)
unfolding close sock_new poll_loop finish_connect
new_connected fuel addr_max len number answer k so_error t =
    if ltb addr_max len
    then some (t, none)
    else let (after, opened) = sock_new number t in
      elim opened [
        | none ↦ some (after, none)
        | some fd ↦
            let waited = poll_loop fuel k in
            let result : Option (Table × Option ℕ) = elim waited [
              | none ↦ none
              | some a ↦ some (finish_connect fd after a so_error)
            ] in
            elim answer [
              | connected ↦ result
              | in_progress ↦ result
              | connect_error ↦ some (close fd after, none)
            ]
      ]
