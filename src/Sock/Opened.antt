-- ===== src/Sock/Opened.antt =====
-- What the functions of src/sock that open sockets leave open.
use nebase.Base.{
  ℕ, ◌<◌, ◌==◌, ◌≡◌, ◌≢◌, refl, ap, arith, ltb, not, Bool, true, false, ◌∷◌, Option, none, some,
  ◌⊎◌, inl, inr, ◌↔◌, if◌then◌else◌, Bool-cases, length,
}
use mathlib.Core.Option.{some-injective}
use nebase.Sock.Common.{
  PollAnswer, interrupted, poll_error, timed_out, ready, IsAnswer, poll_loop_lem,
}
use nebase.Sock.Descriptors.{Descriptor, Table, close, sock_new, Opens}
use nebase.Sock.Raw.{raw_icmp_new, raw4_new}
use nebase.Sock.Unix.Open.{
  FileType, noent, is_noent, new_binded, ConnectAnswer, connected, in_progress, connect_error,
  finish_connect, new_connected,
}

abbrev pub opened : ℕ → Descriptor
opened fd = record { fd = fd; nonblock = true; cloexec = true }

==-refl : (n : ℕ) → (n == n) ≡ true
==-refl n = ground arith

close_newest : (fd : ℕ) (t : Table) → close fd (opened fd ∷ t) ≡ t
unfolding close
close_newest fd t = simp (==-refl fd) refl

raw_icmp_new-Opens :
    (number : Option ℕ) (set : Bool) (t : Table) → Opens t (raw_icmp_new number set t)
unfolding Opens raw_icmp_new sock_new
raw_icmp_new-Opens none set t = refl
raw_icmp_new-Opens (some fd) true t = refl
raw_icmp_new-Opens (some fd) false t = close_newest fd t

-- An early return of -1, and what is done otherwise.
guarded :
    (b : Bool) (t : Table) (r : Table × Option ℕ) → Opens t r → Opens t (if b then (t, none) else r)
unfolding Opens
guarded true t r opens = refl
guarded false t r opens = opens

bind_lem :
    (number : Option ℕ) (bound : Bool) (t : Table) → Opens t (new_binded 1 0 noent number bound t)
unfolding Opens new_binded sock_new
bind_lem none bound t = refl
bind_lem (some fd) true t = refl
bind_lem (some fd) false t = close_newest fd t

new_binded-Opens :
    (addr_max len : ℕ) (file : FileType) (number : Option ℕ) (bound : Bool) (t : Table)
    → Opens t (new_binded addr_max len file number bound t)
unfolding new_binded
new_binded-Opens addr_max len file number bound t =
    guarded (ltb addr_max len) t _ (guarded (not (is_noent file)) t _ (bind_lem number bound t))

finish_connect-Opens :
    (fd : ℕ) (t : Table) (a : PollAnswer) (so_error : Option ℕ)
    → Opens t (finish_connect fd (opened fd ∷ t) a so_error)
unfolding Opens finish_connect
finish_connect-Opens fd t interrupted so_error = close_newest fd t
finish_connect-Opens fd t poll_error so_error = close_newest fd t
finish_connect-Opens fd t timed_out so_error = close_newest fd t
finish_connect-Opens fd t (ready r) none = close_newest fd t
finish_connect-Opens fd t (ready r) (some e) = elim (Bool-cases (e == 0)) [
  | inl y ↦ simp (y) refl
  | inr n ↦ simp (n) (close_newest fd t)
]

-- What new_connected makes of the answer of poll.
waited_result : ℕ → Table → Option ℕ → Option PollAnswer → Option (Table × Option ℕ)
waited_result fd t so_error none = none
waited_result fd t so_error (some a) = some (finish_connect fd (opened fd ∷ t) a so_error)

connect_lem :
    (fuel n : ℕ) (number : Option ℕ) (answer : ConnectAnswer) (k : ℕ → PollAnswer) (a : PollAnswer)
    (so_error : Option ℕ) (t : Table)
    → n < fuel
    → IsAnswer k n a
    → (r : Table × Option ℕ) × (new_connected fuel 1 0 number answer k so_error t ≡ some r)
      × Opens t r
unfolding Opens new_connected sock_new waited_result
connect_lem fuel n none answer k a so_error t lt is = ((t, none), refl, refl)
connect_lem fuel n (some fd) connect_error k a so_error t lt is =
    ((close fd (opened fd ∷ t), none), refl, close_newest fd t)
connect_lem fuel n (some fd) connected k a so_error t lt is = (
  finish_connect fd (opened fd ∷ t) a so_error,
  ap (λ w. waited_result fd t so_error w) (poll_loop_lem fuel n k a lt is),
  finish_connect-Opens fd t a so_error,
)
connect_lem fuel n (some fd) in_progress k a so_error t lt is = (
  finish_connect fd (opened fd ∷ t) a so_error,
  ap (λ w. waited_result fd t so_error w) (poll_loop_lem fuel n k a lt is),
  finish_connect-Opens fd t a so_error,
)

-- neb_sock_unix_new_binded, and neb_sock_unix_new_connected, which ends once poll is not
-- interrupted, give a new descriptor, not blocking and closed on exec, or -1 and the open
-- descriptors as they were, for every address, file and answer of the kernel.
pub new_connected-Opens :
    (fuel n addr_max len : ℕ) (file : FileType) (number : Option ℕ) (bound : Bool)
    (answer : ConnectAnswer) (k : ℕ → PollAnswer) (a : PollAnswer) (so_error : Option ℕ) (t : Table)
    → n < fuel
    → IsAnswer k n a
    → Opens t (new_binded addr_max len file number bound t)
      × (r : Table × Option ℕ) × (new_connected fuel addr_max len number answer k so_error t
          ≡ some r)
      × Opens t r
unfolding new_connected Opens
new_connected-Opens fuel n addr_max len file number bound answer k a so_error t lt is =
    let binded = new_binded-Opens addr_max len file number bound t in
    elim (Bool-cases (ltb addr_max len)) [
      | inl y ↦ (binded, (t, none), simp (new_connected, y) refl, refl)
      | inr n2 ↦
          let (r, e, opens) = connect_lem fuel n number answer k a so_error t lt is in
          (binded, r, simp (new_connected, n2) e, opens)
    ]

longer_ne : (d : Descriptor) (t : Table) → d ∷ t ≢ t
longer_ne d t e = let same = ap (λ xs. length xs) e in ground arith

-- neb_sock_raw4_new returns a new descriptor or -1 with nothing opened, unless setsockopt fails:
-- then it returns -1 and leaves the new socket open. neb_sock_raw_icmp4_new and
-- neb_sock_raw_icmp6_new open a socket or nothing in every case.
pub raw4_new-Opens :
    (number : Option ℕ) (set : Bool) (t : Table)
    → (Opens t (raw4_new number set t) ↔ ((number ≡ none) ⊎ (set ≡ true)))
      × ((fd : ℕ) → number ≡ some fd → set ≡ false → raw4_new number set t ≡ (opened fd ∷ t, none))
      × Opens t (raw_icmp_new number set t)
unfolding Opens raw4_new sock_new raw_icmp_new
raw4_new-Opens none set t = ((λ o. inl refl, λ h. refl), λ fd e f. ground arith, refl)
raw4_new-Opens (some fd) true t = ((λ o. inr refl, λ h. refl), λ n e f. ground arith, refl)
raw4_new-Opens (some fd) false t = (
  (
    λ longer. elim (longer_ne (opened fd) t longer) [ ],
    λ h. elim h [ inl e ↦ ground arith | inr e ↦ ground arith ],
  ),
  λ n e f. ap (λ m. (opened m ∷ t, none)) (some-injective fd n e),
  raw_icmp_new-Opens (some fd) false t,
)
