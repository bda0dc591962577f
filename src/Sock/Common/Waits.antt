-- ===== src/Sock/Common/Waits.antt =====
-- The functions of src/sock/common.c that wait, where calls of poll are interrupted.
use nebase.Base.{ℕ, ◌<◌, ◌≡◌, ap, Bool, Option, none, some}
use nebase.Sock.Common.{
  PollAnswer, IsAnswer, poll_loop_lem, Waited, read_ready, timed_read_ready, peer_closed,
  check_peer_closed,
}

-- However often poll is interrupted first, neb_sock_timed_read_ready and
-- neb_sock_check_peer_closed end, with what the first other answer of poll gives.
pub waits_lem :
    (fuel n : ℕ) (is_eof : Option Bool) (k : ℕ → PollAnswer) (a : PollAnswer)
    → n < fuel
    → IsAnswer k n a
    → (timed_read_ready fuel k ≡ some (read_ready a))
      × (check_peer_closed fuel is_eof k ≡ some (peer_closed is_eof a))
unfolding timed_read_ready check_peer_closed
waits_lem fuel n is_eof k a lt is =
    let e = poll_loop_lem fuel n k a lt is in
    (
      ap (λ o. elim o as (λ x. Option Waited) [ none ↦ none | some a ↦ some (read_ready a) ]) e,
      ap
          (λ o. elim o as (λ x. Option Waited) [
            | none ↦ none
            | some a ↦ some (peer_closed is_eof a)
          ])
          e,
    )
