-- ===== src/Sock/Unix/Rights/Tests.antt =====
-- Messages with descriptors of src/sock/unix.c, over a socket that delivers what fits.
use nebase.Base.{
  subst, ℕ, ◌+◌, ◌*◌, ◌≡◌, refl, arith, leb, false, List, [], ◌∷◌, Option, none, some,
  if◌then◌else◌, map, take, length, ◌≤◌,
}
use mathlib.Core.Option.{some-injective}
use nebase.Sock.Unix.Rights.{
  Layout, cmsg_len, int_size, Cmsg, Message, sol_socket, scm_rights, rights_message, send_with_fds,
  received, null_read, recv_with_fds,
}
use nebase.Sock.Unix.Rights.Received.{
  Delivers, Carries, recv_with_fds-send_with_fds, recv_with_fds_overruns,
}
use nebase.Sock.Unix.Rights.Bounds.{IsBounded, recv_with_fds-IsBounded}

abbrev layout : Layout
layout = record { header = 16; align = λ n. n + 7 }

abbrev install : ℕ → ℕ
install n = n + 100

abbrev rights : List ℕ → ℕ → Cmsg
rights fds n = record {
  level = sol_socket;
  type = scm_rights;
  len = cmsg_len layout (int_size * n);
  payload = fds;
}

-- A socket with one message in it.
abbrev socket : List ℕ → Cmsg → ℕ → ℕ → Option Message
socket bytes c len room = some (record {
  content = take len bytes;
  control =
      some
        (record { level = c.level; type = c.type; len = c.len; payload = map install c.payload });
  controllen = room;
  ctrunc = false;
})

abbrev pair : Cmsg
pair = rights (3 ∷ 4 ∷ []) 2

abbrev taken : Message → Option ℕ
taken m = some 2

delivers : (bytes : List ℕ) (c : Cmsg) → Delivers (socket bytes c) install bytes c
unfolding Delivers
delivers bytes c len room le = refl

-- Data without a control message makes the receiver read through a null pointer.
plain_message :
    recv_with_fds layout
      (λ len room.
        some
          (record { content = take len (1 ∷ []); control = none; controllen = 0; ctrunc = false }))
      8
      1
      (0 ∷ [])
    ≡ record { result = null_read; fd_num = 0; memory = 0 ∷ [] }
unfolding recv_with_fds
plain_message = refl

-- The message that is sent is the one in the socket.
pair-Carries :
    Carries (socket (7 ∷ 8 ∷ []) pair) install (rights_message layout (7 ∷ 8 ∷ []) 2 (3 ∷ 4 ∷ []) 2)
unfolding rights_message Carries Delivers
pair-Carries c is len room le =
    let same = some-injective pair c is in
    subst (λ x. socket (7 ∷ 8 ∷ []) pair len room ≡ socket (7 ∷ 8 ∷ []) x len room) same refl

recv_with_fds-send_with_fds_example :
    (send_with_fds layout taken (7 ∷ 8 ∷ []) 2 (3 ∷ 4 ∷ []) 2 ≡ some 2)
    × (recv_with_fds layout (socket (7 ∷ 8 ∷ []) pair) 8 2 (0 ∷ 0 ∷ 9 ∷ [])
        ≡ record { result = received (7 ∷ 8 ∷ []); fd_num = 2; memory = 103 ∷ 104 ∷ 9 ∷ [] })
recv_with_fds-send_with_fds_example =
    recv_with_fds-send_with_fds layout (λ k. omega arith) taken (socket (7 ∷ 8 ∷ []) pair) install 7
      (8 ∷ []) (3 ∷ 4 ∷ []) 1 2 7 2 (0 ∷ 0 ∷ 9 ∷ []) refl pair-Carries (omega arith) (omega arith)

recv_with_fds_overruns_example :
    recv_with_fds layout (socket (7 ∷ []) pair) 8 1 (0 ∷ 9 ∷ [])
    ≡ record { result = received (7 ∷ []); fd_num = 2; memory = 103 ∷ 104 ∷ [] }
recv_with_fds_overruns_example =
    recv_with_fds_overruns layout (λ k. omega arith) (socket (7 ∷ []) pair) install 7 [] (3 ∷ []) 4
      7 1 (0 ∷ []) 9 [] refl refl (delivers (7 ∷ []) pair) (omega arith)

-- A socket whose message is cut where it does not fit.
abbrev cut_socket : ℕ → ℕ → Option Message
cut_socket len room = some (record {
  content = take len (7 ∷ []);
  control = if leb (cmsg_len layout 8) room then some pair else none;
  controllen = room;
  ctrunc = false;
})

cut_socket_fits :
    (len room : ℕ) (m : Message) (c : Cmsg)
    → cut_socket len room ≡ some m
    → m.control ≡ some c
    → (c.len ≡ cmsg_len layout (int_size * length c.payload)) × (c.len ≤ room)
cut_socket_fits len room m c e f = ground arith

recv_with_fds-IsBounded_example :
    IsBounded 1 (0 ∷ 0 ∷ 0 ∷ 9 ∷ []) (recv_with_fds layout cut_socket 8 1 (0 ∷ 0 ∷ 0 ∷ 9 ∷ []))
recv_with_fds-IsBounded_example =
    recv_with_fds-IsBounded layout (λ k. omega arith) cut_socket cut_socket_fits 8 1
      (0 ∷ 0 ∷ 0 ∷ 9 ∷ [])
