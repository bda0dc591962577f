-- ===== src/Sock/Raw.antt =====
-- src/sock/raw.c: opening raw sockets.
use nebase.Base.{ℕ, Bool, Option, none, some, if◌then◌else◌}
use nebase.Sock.Descriptors.{Table, close, sock_new}

-- neb_sock_raw_icmp4_new and neb_sock_raw_icmp6_new; the flag is whether setsockopt succeeds.
unfoldable pub raw_icmp_new : Option ℕ → Bool → Table → Table × Option ℕ
unfolding close sock_new
raw_icmp_new number set t =
    let (after, opened) = sock_new number t in
    elim opened [
      | none ↦ (after, none)
      | some fd ↦ if set then (after, some fd) else (close fd after, none)
    ]

-- neb_sock_raw4_new
unfoldable pub raw4_new : Option ℕ → Bool → Table → Table × Option ℕ
unfolding sock_new
raw4_new number set t =
    let (after, opened) = sock_new number t in
    elim opened [ none ↦ (after, none) | some fd ↦ if set then (after, some fd) else (after, none) ]
