-- ===== src/Sock/Unix/Rights/Bounds.antt =====
-- What neb_sock_unix_recv_with_fds of src/sock/unix.c writes at most.
use nebase.Base.{
  ℕ, ◌+◌, ◌-◌, ◌*◌, ◌/◌, ◌≤◌, ◌≡◌, refl, ap, ◌∙◌, arith, leb, List, [], ◌∷◌, ◌++◌, Option, some,
  length, drop, take_all, drop_add, Bool-cases, Option-cases, List-cases, inl, inr, zero, suc,
}
use nebase.Sock.Unix.Rights.{
  Layout, max_cmsg_fd, Message, Receipt, store_rights, recv_with_fds, cmsg_len, cmsg_space,
  int_size, Cmsg, is_rights, Result, failed, received, null_read, store_message,
}

-- No more than two descriptors above what was asked for are counted and written, and nothing
-- behind them.
pub record IsBounded (size : ℕ) (memory : List ℕ) (r : Receipt) : Type 0 where
  pub counted : r.fd_num ≤ size + 2
  pub kept : drop (size + 2) r.memory ≡ drop (size + 2) memory

drop_behind : (xs ys : List ℕ) (k : ℕ) → length xs ≤ k → drop k (xs ++ ys) ≡ drop (k - length xs) ys
drop_behind [] ys k le = ap (λ j. drop j ys) (omega arith)
drop_behind (x ∷ xs) ys zero le = ground arith
drop_behind (x ∷ xs) ys (suc k) le =
    drop_behind xs ys k (omega arith) ∙ ap (λ j. drop j ys) (omega arith)

-- Descriptors written over the start of the memory leave what is behind them.
drop_written :
    (xs memory : List ℕ) (k : ℕ)
    → length xs ≤ k
    → drop k (xs ++ drop (length xs) memory) ≡ drop k memory
drop_written xs memory k le =
    let e : length xs + (k - length xs) ≡ k = omega arith in
    drop_behind xs (drop (length xs) memory) k le
    ∙ drop_add (length xs) (k - length xs) memory
    ∙ ap (λ j. drop j memory) e

store_rights-IsBounded :
    (l : Layout) (small : (k : ℕ) → l.align k ≤ k + 7) (size : ℕ) (bytes : List ℕ) (c : Cmsg)
    (memory : List ℕ)
    → c.len ≡ cmsg_len l (int_size * length c.payload)
    → c.len ≤ cmsg_space l (int_size * (size + 1))
    → IsBounded size memory (store_rights l bytes (some c) memory)
unfolding store_rights
store_rights-IsBounded l small size bytes c memory e le =
    let aligned : l.align (int_size * (size + 1)) ≤ int_size * (size + 1) + 7 =
      small (int_size * (size + 1)) in
    let count : (c.len - cmsg_len l 0) / int_size ≡ length c.payload = omega arith in
    let few : length c.payload ≤ size + 2 = omega arith in
    elim (Bool-cases (is_rights c.level c.type)) [
      | inl y ↦
          simp (y, count, take_all c.payload)
            (record { counted = few; kept = drop_written c.payload memory (size + 2) few })
      | inr n ↦ simp (n) (record { counted = omega arith; kept = refl })
    ]

unwritten :
    (size n : ℕ) (memory : List ℕ)
    → n ≤ size + 2
    → (r : Result) → IsBounded size memory (record { result = r; fd_num = n; memory = memory })
unwritten size n memory le r = record { counted = le; kept = refl }

message_lem :
    (l : Layout) (small : (k : ℕ) → l.align k ≤ k + 7) (size : ℕ) (m : Message) (memory : List ℕ)
    → ((c : Cmsg)
        → m.control ≡ some c
        → (c.len ≡ cmsg_len l (int_size * length c.payload))
          × (c.len ≤ cmsg_space l (int_size * (size + 1))))
    → IsBounded size memory (store_message l size m memory)
unfolding store_message
message_lem l small size m memory fitting = elim (List-cases m.content) [
  | inl e ↦ simp (store_message, e) (unwritten size size memory (omega arith) (received []))
  | inr (b, bytes, e) ↦ elim (Bool-cases m.ctrunc) [
    | inl y ↦ simp (store_message, e, y) (unwritten size size memory (omega arith) failed)
    | inr n ↦ elim (Option-cases m.control) [
      | inl none_left ↦
          simp (store_message, e, n, none_left, store_rights)
            (unwritten size 0 memory (omega arith) null_read)
      | inr (c, some_left) ↦
          let (exact, le) = fitting c some_left in
          simp (store_message, e, n, some_left)
            (store_rights-IsBounded l small size (b ∷ bytes) c memory exact le)
    ]
  ]
]

-- Whatever recvmsg answers, with a control message of descriptors that fits into the buffer it was
-- given, and where CMSG_SPACE pads by less than 8 bytes, neb_sock_unix_recv_with_fds never
-- leaves *fd_num more than two above what was asked for, and keeps the memory behind.
pub recv_with_fds-IsBounded :
    (l : Layout) (small : (k : ℕ) → l.align k ≤ k + 7) (recvmsg : ℕ → ℕ → Option Message)
    (fitting : (len room : ℕ) (m : Message) (c : Cmsg)
      → recvmsg len room ≡ some m
      → m.control ≡ some c
      → (c.len ≡ cmsg_len l (int_size * length c.payload)) × (c.len ≤ room))
    (len size : ℕ) (memory : List ℕ)
    → IsBounded size memory (recv_with_fds l recvmsg len size memory)
unfolding recv_with_fds
recv_with_fds-IsBounded l small recvmsg fitting len size memory =
    let room = cmsg_space l (int_size * (size + 1)) in
    elim (Bool-cases (leb max_cmsg_fd size)) [
      | inl y ↦ simp (y) (unwritten size size memory (omega arith) failed)
      | inr n ↦ elim (Option-cases (recvmsg len room)) [
        | inl e ↦ simp (n, e) (unwritten size size memory (omega arith) failed)
        | inr (m, e) ↦ simp (n, e) (message_lem l small size m memory (λ c. fitting len room m c e))
      ]
    ]
