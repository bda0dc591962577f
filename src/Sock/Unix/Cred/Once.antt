-- ===== src/Sock/Unix/Cred/Once.antt =====
-- Credentials are received once: neb_sock_unix_recv_with_cred of src/sock/unix.c.
use nebase.Base.{
  ℕ, suc, ◌≡◌, refl, ap, ◌∙◌, Bool, true, false, not, if◌then◌else◌, List, ◌∷◌, none, some, take,
}
use nebase.Sock.Unix.Cred.{
  Ucred, no_control, credentials, CredMessage, CredReceipt, passcred_off, take_credentials,
  recv_with_cred, enable_recv_cred,
}

-- Linux adds the sender's credentials exactly where SO_PASSCRED is set.
unfoldable pub Passes : (Bool → ℕ → CredMessage → CredMessage) → (CredMessage → Ucred) → Type 0
Passes recvmsg sender =
    (on : Bool) (len : ℕ) (m : CredMessage)
    → (recvmsg on len m).content ≡ take len m.content
      × (recvmsg on len m).ctrunc ≡ false
      × (recvmsg true len m).control ≡ credentials (sender m)
      × (recvmsg false len m).control ≡ no_control

passcred_off_lem :
    (set : Bool) (rest : List CredMessage)
    → passcred_off set (record { passcred = true; queue = rest })
      ≡ record { passcred = not set; queue = rest }
unfolding passcred_off
passcred_off_lem true rest = refl
passcred_off_lem false rest = refl

with_credentials :
    (recvmsg : Bool → ℕ → CredMessage → CredMessage) (sender : CredMessage → Ucred) (set : Bool)
    (len b : ℕ) (bytes : List ℕ) (m : CredMessage) (pu : Ucred) (rest : List CredMessage)
    → Passes recvmsg sender
    → m.content ≡ b ∷ bytes
    → recv_with_cred recvmsg set (suc len) pu (record { passcred = true; queue = m ∷ rest })
      ≡ record {
        socket = record { passcred = not set; queue = rest };
        peer = sender m;
        bytes = some (b ∷ take len bytes);
      }
unfolding recv_with_cred Passes take_credentials passcred_off
with_credentials recvmsg sender set len b bytes m pu rest passes e =
    let (content, whole, passed, dropped) = passes true (suc len) m in
    let c : (recvmsg true (suc len) m).content ≡ b ∷ take len bytes =
      content ∙ ap (λ xs. take (suc len) xs) e in
    simp (take_credentials, c, whole, passed)
      (ap (λ s. record { socket = s; peer = sender m; bytes = some (b ∷ take len bytes) })
        (passcred_off_lem set rest))

without_credentials :
    (recvmsg : Bool → ℕ → CredMessage → CredMessage) (sender : CredMessage → Ucred) (set : Bool)
    (len b : ℕ) (bytes : List ℕ) (m : CredMessage) (pu : Ucred) (rest : List CredMessage)
    → Passes recvmsg sender
    → m.content ≡ b ∷ bytes
    → recv_with_cred recvmsg set (suc len) pu (record { passcred = false; queue = m ∷ rest })
      ≡ record { socket = record { passcred = false; queue = rest }; peer = pu; bytes = none }
unfolding recv_with_cred Passes take_credentials
without_credentials recvmsg sender set len b bytes m pu rest passes e =
    let (content, whole, passed, dropped) = passes false (suc len) m in
    let c : (recvmsg false (suc len) m).content ≡ b ∷ take len bytes =
      content ∙ ap (λ xs. take (suc len) xs) e in
    simp (take_credentials, c, whole, dropped) refl

-- Behind neb_sock_unix_enable_recv_cred the first message, which is not empty, gives its data and
-- its sender's credentials. Where switching SO_PASSCRED off succeeds, the next message, which is
-- not empty and is received without another enabling, is consumed with -1 and leaves *pu as it was;
-- where it fails, the option stays on, and the next message gives its sender's credentials too.
pub recv_with_cred_once :
    (recvmsg : Bool → ℕ → CredMessage → CredMessage) (sender : CredMessage → Ucred) (len b d : ℕ)
    (bytes more : List ℕ) (m next : CredMessage) (pu later : Ucred) (rest : List CredMessage)
    (on off : Bool) (first : CredReceipt)
    → Passes recvmsg sender
    → m.content ≡ b ∷ bytes
    → next.content ≡ d ∷ more
    → first
      ≡ recv_with_cred recvmsg off
          (suc len)
          pu
          ((enable_recv_cred true (record { passcred = on; queue = m ∷ next ∷ rest })).0)
    → (first.bytes ≡ some (b ∷ take len bytes))
      × (first.peer ≡ sender m)
      × (first.socket.passcred ≡ not off)
      × (recv_with_cred recvmsg true (suc len) later first.socket ≡ record {
        socket = record { passcred = false; queue = rest };
        peer = if off then later else sender next;
        bytes = if off then none else some (d ∷ take len more);
      })
unfolding enable_recv_cred
recv_with_cred_once recvmsg sender len b d bytes more m next pu later rest on off first passes e f
      is =
    let one = is ∙ with_credentials recvmsg sender off len b bytes m pu (next ∷ rest) passes e in
    (
      ap (λ r. r.bytes) one,
      ap (λ r. r.peer) one,
      ap (λ r. r.socket.passcred) one,
      ap (λ r. recv_with_cred recvmsg true (suc len) later r.socket) one ∙ next_lem off,
    )
  where
    next_lem :
        (off : Bool)
        → recv_with_cred recvmsg true
            (suc len)
            later
            (record { passcred = not off; queue = next ∷ rest })
          ≡ record {
            socket = record { passcred = false; queue = rest };
            peer = if off then later else sender next;
            bytes = if off then none else some (d ∷ take len more);
          }
    next_lem true = without_credentials recvmsg sender true len d more next later rest passes f
    next_lem false = with_credentials recvmsg sender true len d more next later rest passes f
