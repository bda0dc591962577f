-- ===== src/Sock/Unix/Rights/Received.antt =====
-- What a receiver finds of a message that neb_sock_unix_send_with_fds of src/sock/unix.c sent.
use nebase.Base.{
  ℕ, suc, ◌+◌, ◌-◌, ◌*◌, ◌/◌, ◌≤◌, ◌<◌, ◌≡◌, refl, ap, sym, ◌∙◌, arith, leb, false, List, [], ◌∷◌,
  ◌++◌, Option, some, map, length, take, drop, take_all, subst,
}
use nebase.Sock.Unix.Rights.{
  Layout, max_cmsg_fd, Message, rights_message, send_with_fds, received, store_rights,
  store_message, recv_with_fds, scm_rights, sol_socket, cmsg_len, cmsg_space, int_size, Cmsg,
}

-- recvmsg hands over a message whose control part has room: its data up to what is asked for, and
-- its control message with the descriptors under the numbers that they get in the receiver.
unfoldable pub Delivers : (ℕ → ℕ → Option Message) → (ℕ → ℕ) → List ℕ → Cmsg → Type 0
Delivers recvmsg install bytes c =
    (len room : ℕ)
    → c.len ≤ room
    → recvmsg len room
      ≡ some (record {
        content = take len bytes;
        control = some (record {
          level = c.level;
          type = c.type;
          len = c.len;
          payload = map install c.payload;
        });
        controllen = room;
        ctrunc = false;
      })

-- recvmsg hands over the message that was sent, with its control message as it is in it.
unfoldable pub Carries : (ℕ → ℕ → Option Message) → (ℕ → ℕ) → Message → Type 0
unfolding Delivers
Carries recvmsg install m = (c : Cmsg) → m.control ≡ some c → Delivers recvmsg install m.content c

payload_count : (l : Layout) (n : ℕ) → (cmsg_len l (int_size * n) - cmsg_len l 0) / int_size ≡ n
payload_count l n = omega arith

length-map : (f : ℕ → ℕ) (xs : List ℕ) → length (map f xs) ≡ length xs
length-map f [] = refl
length-map f (x ∷ xs) = ap suc (length-map f xs)

take-map : (f : ℕ → ℕ) (n : ℕ) (xs : List ℕ) → length xs ≡ n → take n (map f xs) ≡ map f xs
take-map f n xs e =
    ap (λ k. take k (map f xs)) (sym e ∙ sym (length-map f xs)) ∙ take_all (map f xs)

length_snoc : (xs : List ℕ) (y : ℕ) → length (xs ++ y ∷ []) ≡ suc (length xs)
length_snoc [] y = refl
length_snoc (x ∷ xs) y = ap suc (length_snoc xs y)

map_snoc :
    (f : ℕ → ℕ) (xs : List ℕ) (y : ℕ) (zs : List ℕ)
    → map f (xs ++ y ∷ []) ++ zs ≡ map f xs ++ f y ∷ zs
map_snoc f [] y zs = refl
map_snoc f (x ∷ xs) y zs = ap (λ ys. f x ∷ ys) (map_snoc f xs y zs)

drop_past : (xs : List ℕ) (y : ℕ) (zs : List ℕ) → drop (suc (length xs)) (xs ++ y ∷ zs) ≡ zs
drop_past [] y zs = refl
drop_past (x ∷ xs) y zs = drop_past xs y zs

-- A message with up to one descriptor more than the receiver asks for.
delivered_lem :
    (l : Layout) (fits : (k : ℕ) → k ≤ l.align k) (recvmsg : ℕ → ℕ → Option Message)
    (install : ℕ → ℕ) (b : ℕ) (bytes fds : List ℕ) (n len size : ℕ) (memory : List ℕ)
    → length fds ≡ n
    → Delivers recvmsg install (b ∷ bytes) (record {
      level = sol_socket;
      type = scm_rights;
      len = cmsg_len l (int_size * n);
      payload = fds;
    })
    → n ≤ suc size
    → size < max_cmsg_fd
    → recv_with_fds l recvmsg (suc len) size memory ≡ record {
      result = received (take (suc len) (b ∷ bytes));
      fd_num = n;
      memory = map install fds ++ drop n memory;
    }
unfolding recv_with_fds Delivers
delivered_lem l fits recvmsg install b bytes fds n len size memory e delivers le lt =
    let small : leb max_cmsg_fd size ≡ false = ground arith in
    let aligned : int_size * (size + 1) ≤ l.align (int_size * (size + 1)) =
      fits (int_size * (size + 1)) in
    let room : cmsg_len l (int_size * n) ≤ cmsg_space l (int_size * (size + 1)) = omega arith in
    let d = delivers (suc len) (cmsg_space l (int_size * (size + 1))) room in
    simp (small, d, store_message, store_rights, payload_count l n, take-map install n fds e) refl

-- The message that neb_sock_unix_send_with_fds gives to sendmsg for fewer than 16 descriptors,
-- where the kernel takes it and hands over just that, reaches a receiver that has room for them:
-- with the data up to what it asks for, their count, and the descriptors in order at the start of
-- its array, under their numbers there.
pub recv_with_fds-send_with_fds :
    (l : Layout) (fits : (k : ℕ) → k ≤ l.align k) (sendmsg : Message → Option ℕ)
    (recvmsg : ℕ → ℕ → Option Message) (install : ℕ → ℕ) (b : ℕ) (bytes fds : List ℕ)
    (sent nw len size : ℕ) (memory : List ℕ)
    → sendmsg (rights_message l (b ∷ bytes) (suc sent) fds (length fds)) ≡ some nw
    → Carries recvmsg install (rights_message l (b ∷ bytes) (suc sent) fds (length fds))
    → length fds ≤ size
    → size < max_cmsg_fd
    → (send_with_fds l sendmsg (b ∷ bytes) (suc sent) fds (length fds) ≡ some nw)
      × (recv_with_fds l recvmsg (suc len) size memory ≡ record {
        result = received (take (suc len) (b ∷ take sent bytes));
        fd_num = length fds;
        memory = map install fds ++ drop (length fds) memory;
      })
unfolding send_with_fds rights_message Carries
recv_with_fds-send_with_fds l fits sendmsg recvmsg install b bytes fds sent nw len size memory e
      carries le lt =
    let small : leb max_cmsg_fd (length fds) ≡ false = ground arith in
    let delivers =
      subst
        (λ xs. Delivers recvmsg install (b ∷ take sent bytes) (record {
          level = sol_socket;
          type = scm_rights;
          len = cmsg_len l (int_size * length fds);
          payload = xs;
        }))
        (take_all fds) (carries _ refl) in
    (
      simp (small, e) refl,
      delivered_lem l fits recvmsg install b (take sent bytes) fds (length fds) len size memory refl
          delivers (omega arith) lt,
    )

-- Where the sender puts one descriptor more into the message than the receiver asks for, the array
-- of neb_sock_unix_recv_with_fds is overrun: *fd_num is set to one more than asked for, and the
-- int behind the array is overwritten with the last descriptor.
pub recv_with_fds_overruns :
    (l : Layout) (fits : (k : ℕ) → k ≤ l.align k) (recvmsg : ℕ → ℕ → Option Message)
    (install : ℕ → ℕ) (b : ℕ) (bytes fds : List ℕ) (last len size : ℕ) (array : List ℕ) (x : ℕ)
    (behind : List ℕ)
    → length fds ≡ size
    → length array ≡ size
    → Delivers recvmsg install (b ∷ bytes) (record {
      level = sol_socket;
      type = scm_rights;
      len = cmsg_len l (int_size * suc size);
      payload = fds ++ last ∷ [];
    })
    → size < max_cmsg_fd
    → recv_with_fds l recvmsg (suc len) size (array ++ x ∷ behind) ≡ record {
      result = received (take (suc len) (b ∷ bytes));
      fd_num = suc size;
      memory = map install fds ++ install last ∷ behind;
    }
recv_with_fds_overruns l fits recvmsg install b bytes fds last len size array x behind e a delivers
      lt =
    delivered_lem l fits recvmsg install b bytes (fds ++ last ∷ []) (suc size) len size
      (array ++ x ∷ behind) (length_snoc fds last ∙ ap suc e) delivers (omega arith) lt
    ∙ ap
        (λ mem. record {
          result = received (take (suc len) (b ∷ bytes));
          fd_num = suc size;
          memory = mem;
        })
        (ap (λ k. map install (fds ++ last ∷ []) ++ drop (suc k) (array ++ x ∷ behind)) (sym a)
          ∙ ap (λ ys. map install (fds ++ last ∷ []) ++ ys) (drop_past array x behind)
          ∙ map_snoc install fds last behind)
