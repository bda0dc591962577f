-- ===== src/Sock/Common.antt =====
-- src/sock/common.c: waiting for a socket with poll, and messages of an exact size.
pub mod Waits
use nebase.Base.{
  ℕ, zero, suc, ◌<◌, ◌==◌, ◌≡◌, ◌≢◌, refl, arith, Bool, true, false, Option, none, some,
  if◌then◌else◌,
}

-- The bits of revents that are tested.
pub record Revents : Type 0 where
  pub pollin : Bool
  pub pollhup : Bool

-- What a call of poll answers: EINTR, another error, a timeout, or events.
pub data PollAnswer : Type 0 where
  interrupted poll_error timed_out : PollAnswer
  ready : Revents → PollAnswer

-- The loops around poll, `k n` being the answer of the n-th call from now: a call that was
-- interrupted is made again. None means that the rounds did not suffice.
unfoldable pub poll_loop : ℕ → (ℕ → PollAnswer) → Option PollAnswer
poll_loop zero k = none
poll_loop (suc fuel) k = elim (k 0) [
  | interrupted ↦ poll_loop fuel (λ (n : ℕ). k (suc n))
  | poll_error ↦ some poll_error
  | timed_out ↦ some timed_out
  | ready r ↦ some (ready r)
]

-- The answer of a call that was not interrupted.
pub record IsAnswer (k : ℕ → PollAnswer) (n : ℕ) (a : PollAnswer) : Type 0 where
  pub before : (i : ℕ) → i < n → k i ≡ interrupted
  pub answer : k n ≡ a
  pub stays : a ≢ interrupted

pub poll_loop_lem :
    (fuel n : ℕ) (k : ℕ → PollAnswer) (a : PollAnswer)
    → n < fuel
    → IsAnswer k n a
    → poll_loop fuel k ≡ some a
unfolding poll_loop
poll_loop_lem zero n k a lt is = ground arith
poll_loop_lem (suc fuel) zero k interrupted lt is = elim (is.stays refl) [ ]
poll_loop_lem (suc fuel) zero k poll_error lt is = simp (poll_loop, is.answer) refl
poll_loop_lem (suc fuel) zero k timed_out lt is = simp (poll_loop, is.answer) refl
poll_loop_lem (suc fuel) zero k (ready r) lt is = simp (poll_loop, is.answer) refl
poll_loop_lem (suc fuel) (suc n) k a lt is =
    simp (poll_loop, is.before 0 (omega arith))
      (poll_loop_lem fuel n (λ i. k (suc i)) a (omega arith)
        (record {
          before = λ i le. is.before (suc i) (omega arith);
          answer = is.answer;
          stays = is.stays;
        }))

-- What the functions that wait return: the value, errno where they set it, and *hup.
pub data Errno : Type 0 where
  cleared etimedout unchanged : Errno

pub record Waited : Type 0 where
  pub value : Bool
  pub errno : Errno
  pub hup : Option Bool

-- neb_sock_timed_read_ready behind its loop.
unfoldable pub read_ready : PollAnswer → Waited
read_ready interrupted = record { value = false; errno = cleared; hup = none }
read_ready poll_error = record { value = false; errno = cleared; hup = none }
read_ready timed_out = record { value = false; errno = etimedout; hup = none }
read_ready (ready r) = record { value = r.pollin; errno = unchanged; hup = some r.pollhup }

-- neb_sock_timed_read_ready
pub timed_read_ready : ℕ → (ℕ → PollAnswer) → Option Waited
unfolding poll_loop read_ready
timed_read_ready fuel k = elim (poll_loop fuel k) [ none ↦ none | some a ↦ some (read_ready a) ]

-- Whether events mean that the peer closed, is_eof being the callback where there is one.
abbrev pub closed_by : Option Bool → Revents → Bool
closed_by is_eof r =
    if r.pollhup
    then true
    else if r.pollin
    then elim is_eof [ none ↦ true | some eof ↦ eof ]
    else false

-- neb_sock_check_peer_closed behind its loop.
unfoldable pub peer_closed : Option Bool → PollAnswer → Waited
peer_closed is_eof interrupted = record { value = false; errno = cleared; hup = none }
peer_closed is_eof poll_error = record { value = false; errno = cleared; hup = none }
peer_closed is_eof timed_out = record { value = false; errno = etimedout; hup = none }
peer_closed is_eof (ready r) = record { value = closed_by is_eof r; errno = unchanged; hup = none }

-- neb_sock_check_peer_closed
pub check_peer_closed : ℕ → Option Bool → (ℕ → PollAnswer) → Option Waited
unfolding poll_loop peer_closed
check_peer_closed fuel is_eof k = elim (poll_loop fuel k) [
  | none ↦ none
  | some a ↦ some (peer_closed is_eof a)
]

-- neb_sock_dgram_recv_exact and neb_sock_dgram_send_exact; the call answers a length or fails.
pub dgram_exact : Option ℕ → ℕ → Bool
dgram_exact none len = false
dgram_exact (some n) len = n == len
