-- ===== src/Thread/Registered.antt =====
-- The registry of src/thread.c holds the threads that registered and have not ended.
use nebase.Base.{
  ℕ, ◌==◌, ◌≡◌, refl, ap, sym, ◌∙◌, arith, Bool, true, false, not, ◌&&◌, ◌||◌, none, some,
  if◌then◌else◌, Bool-cases, inl, inr, ==_iff, subst,
}
use mathlib.Core.Option.{some-injective}
use nebase.Thread.{
  IdTree, Registry, put, thread_rbt_add, thread_rbt_del, thread_is_running, thread_register,
  thread_exit, Event, registers, exits, event, Reachable, inits, then_event,
}

-- The running threads behind an event, of those before it.
unfoldable pub running_after : Event → (ℕ → Bool) → ℕ → Bool
running_after (registers set p) running q = if set then (p == q) || running q else running q
running_after (exits p) running q = not (p == q) && running q

-- The value of the key is set exactly for the threads in the tree.
pub IsAgreed : {T : Type 0} → IdTree T → Registry T → Type 0
IsAgreed rb r = (q : ℕ) → rb.find_node r.thread_rbt q ≡ r.exit_key q

-- An event that succeeds, with what it makes of the running threads.
pub record IsServed {T : Type 0} (rb : IdTree T) (e : Event) (r : Registry T) (after : Registry T)
    : Type 0 where
  pub serves : event rb true e r ≡ some after
  pub agreed : IsAgreed rb after
  pub running :
      (q : ℕ) → thread_is_running rb q after ≡ running_after e (λ p. thread_is_running rb p r) q

same_or : (f : ℕ → Bool) (p q : ℕ) → f p ≡ true → f q ≡ (p == q) || f q
same_or f p q h = elim (Bool-cases (p == q)) [
  | inl y ↦ simp (y) (ap f (sym ((==_iff p q).0 y)) ∙ h)
  | inr n ↦ simp (n) refl
]

same_and : (f : ℕ → Bool) (p q : ℕ) → f p ≡ false → f q ≡ not (p == q) && f q
same_and f p q h = elim (Bool-cases (p == q)) [
  | inl y ↦ simp (y) (ap f (sym ((==_iff p q).0 y)) ∙ h)
  | inr n ↦ simp (n) refl
]

or_put : (f : ℕ → Bool) (p q : ℕ) → (p == q) || f q ≡ put f p true q
or_put f p q = elim (Bool-cases (p == q)) [ inl y ↦ simp (y) refl | inr n ↦ simp (n) refl ]

and_put : (f : ℕ → Bool) (p q : ℕ) → not (p == q) && f q ≡ put f p false q
and_put f p q = elim (Bool-cases (p == q)) [ inl y ↦ simp (y) refl | inr n ↦ simp (n) refl ]

serve_lem :
    {T : Type 0} (rb : IdTree T) (e : Event) (r : Registry T)
    → IsAgreed rb r
    → (after : Registry T) × IsServed rb e r after
unfolding event thread_register thread_exit thread_rbt_add thread_rbt_del thread_is_running
    running_after IsAgreed
serve_lem rb (registers false p) r agreed =
    (r, record { serves = refl; agreed = agreed; running = λ q. refl })
serve_lem rb (registers true p) r agreed =
    let find : ℕ → Bool = rb.find_node r.thread_rbt in
    elim (Bool-cases (rb.find_node r.thread_rbt p)) [
      | inl y ↦ (
        record r { exit_key = put r.exit_key p true },
        record {
          serves = simp (y) refl;
          agreed =
              λ q. same_or find p q y ∙ ap (λ b. (p == q) || b) (agreed q) ∙ or_put r.exit_key p q;
          running = λ q. same_or find p q y;
        },
      )
      | inr n ↦ (
        record { thread_rbt = rb.insert_node r.thread_rbt p; exit_key = put r.exit_key p true },
        record {
          serves = simp (n) refl;
          agreed = λ q.
              rb.find_insert r.thread_rbt p q
              ∙ ap (λ b. (p == q) || b) (agreed q)
              ∙ or_put r.exit_key p q;
          running = λ q. rb.find_insert r.thread_rbt p q;
        },
      )
    ]
serve_lem rb (exits p) r agreed =
    let find : ℕ → Bool = rb.find_node r.thread_rbt in
    elim (Bool-cases (r.exit_key p)) [
      | inl y ↦
          let found : rb.find_node r.thread_rbt p ≡ true = agreed p ∙ y in
          (
            record {
              thread_rbt = rb.remove_node r.thread_rbt p;
              exit_key = put r.exit_key p false;
            },
            record {
              serves = simp (y, found) refl;
              agreed = λ q.
                  rb.find_remove r.thread_rbt p q
                  ∙ ap (λ b. not (p == q) && b) (agreed q)
                  ∙ and_put r.exit_key p q;
              running = λ q. rb.find_remove r.thread_rbt p q;
            },
          )
      | inr n ↦ (
        r,
        record {
          serves = simp (n) refl;
          agreed = agreed;
          running = λ q. same_and find p q (agreed p ∙ n);
        },
      )
    ]

Reachable-IsAgreed : {T : Type 0} (rb : IdTree T) (r : Registry T) → Reachable rb r → IsAgreed rb r
unfolding IsAgreed
Reachable-IsAgreed rb r inits = rb.find_init
Reachable-IsAgreed rb r (then_event earlier e after before served) =
    let (left, serves) = serve_lem rb e earlier (Reachable-IsAgreed rb earlier before) in
    subst (λ x. IsAgreed rb x) (some-injective left after (sym (serves.serves) ∙ served))
      serves.agreed

-- Where every allocation of the registrations so far has succeeded, and the next one does, a thread
-- that registers or ends never removes a null node, and the running threads are then those of the
-- set of threads that this leaves.
pub Reachable-IsServed :
    {T : Type 0} (rb : IdTree T) (r : Registry T) (e : Event)
    → Reachable rb r
    → (after : Registry T) × IsServed rb e r after
Reachable-IsServed rb r e reached = serve_lem rb e r (Reachable-IsAgreed rb r reached)

-- A thread not yet registered whose node cannot be allocated has its key set nevertheless, and its
-- end removes a null node from the tree.
pub failed_registration :
    {T : Type 0} (rb : IdTree T) (r : Registry T) (p : ℕ)
    → thread_is_running rb p r ≡ false
    → ((thread_register rb true false p r).1 ≡ false)
      × (thread_exit rb p (thread_register rb true false p r).0 ≡ none)
unfolding thread_register thread_exit thread_rbt_add thread_rbt_del thread_is_running
failed_registration rb r p absent =
    let same : (p == p) ≡ true = ground arith in (refl, simp (same, absent) refl)
