-- ===== src/Sock/Tests.antt =====
-- Sockets that are opened and waited for, and credentials over a socket.
use nebase.Base.{
  ℕ, zero, suc, ◌<◌, ◌≡◌, refl, ap, arith, Bool, true, false, [], ◌∷◌, Option, none, some, take,
  ◌⊎◌, ◌↔◌,
}
use nebase.Sock.Common.{PollAnswer, interrupted, poll_error, timed_out, ready, IsAnswer}
use nebase.Sock.Descriptors.{Table, Opens}
use nebase.Sock.Raw.{raw4_new, raw_icmp_new}
use nebase.Sock.Unix.Open.{noent, new_binded, in_progress, new_connected}
use nebase.Sock.Opened.{opened, new_connected-Opens, raw4_new-Opens}
use nebase.Sock.Unix.Cred.{
  Ucred, no_control, credentials, CredMessage, CredReceipt, recv_with_cred, enable_recv_cred,
}
use nebase.Sock.Unix.Cred.Once.{Passes, recv_with_cred_once}

-- One call of poll that is interrupted before the socket is ready.
abbrev answers : ℕ → PollAnswer
answers zero = interrupted
answers (suc n) = ready (record { pollin = true; pollhup = false })

abbrev was_interrupted : PollAnswer → Bool
was_interrupted interrupted = true
was_interrupted poll_error = false
was_interrupted timed_out = false
was_interrupted (ready r) = false

first : (i : ℕ) → i < 1 → answers i ≡ interrupted
first zero lt = refl
first (suc i) lt = ground arith

answers-IsAnswer : IsAnswer answers 1 (ready (record { pollin = true; pollhup = false }))
answers-IsAnswer = record {
  before = λ i lt. first i lt;
  answer = refl;
  stays = λ e. let same : false ≡ true = ap was_interrupted e in ground arith;
}

abbrev table : Table
table = record { fd = 4; nonblock = false; cloexec = true } ∷ []

abbrev number : Option ℕ
number = some 5

new_connected-Opens_example :
    Opens table (new_binded 107 9 noent (some 5) false table)
    × (r : Table × Option ℕ) × (new_connected 3 107 9 (some 5) in_progress answers (some 0) table
        ≡ some r)
    × Opens table r
new_connected-Opens_example =
    new_connected-Opens 3 1 107 9 noent (some 5) false in_progress answers (answers 1) (some 0)
      table (omega arith) answers-IsAnswer

raw4_new-Opens_example :
    (Opens table (raw4_new number false table) ↔ ((number ≡ none) ⊎ (false ≡ true)))
    × ((fd : ℕ)
        → number ≡ some fd
        → false ≡ false
        → raw4_new number false table ≡ (opened fd ∷ table, none))
    × Opens table (raw_icmp_new number false table)
raw4_new-Opens_example = raw4_new-Opens number false table

abbrev root : Ucred
root = record { uid = 0; gid = 0; pid = 1 }

abbrev user : Ucred
user = record { uid = 1000; gid = 100; pid = 77 }

abbrev message : CredMessage
message = record { content = 1 ∷ 2 ∷ []; control = no_control; ctrunc = false }

-- Every message comes from the same user.
abbrev kernel : Bool → ℕ → CredMessage → CredMessage
kernel true len m = record {
  content = take len m.content;
  control = credentials user;
  ctrunc = false;
}
kernel false len m = record { content = take len m.content; control = no_control; ctrunc = false }

kernel-Passes : Passes kernel (λ m. user)
unfolding Passes
kernel-Passes true len m = (refl, refl, refl, refl)
kernel-Passes false len m = (refl, refl, refl, refl)

abbrev receipt : CredReceipt
receipt =
    recv_with_cred kernel true 3 root
      ((enable_recv_cred true (record { passcred = false; queue = message ∷ message ∷ [] })).0)

recv_with_cred_once_example :
    (receipt.bytes ≡ some (1 ∷ 2 ∷ []))
    × (receipt.peer ≡ user)
    × (receipt.socket.passcred ≡ false)
    × (recv_with_cred kernel true 3 root receipt.socket
        ≡ record { socket = record { passcred = false; queue = [] }; peer = root; bytes = none })
recv_with_cred_once_example =
    recv_with_cred_once kernel (λ m. user) 2 1 1 (2 ∷ []) (2 ∷ []) message message root root []
      false true receipt kernel-Passes refl refl refl
