-- ===== src/Thread/Tests.antt =====
-- Threads of src/thread.c over a tree that is its set of ids.
use nebase.Base.{ℕ, ◌==◌, ◌≡◌, refl, Bool, true, false, not, ◌&&◌, ◌||◌, none}
use nebase.Thread.{
  IdTree, Registry, put, thread_is_running, thread_register, thread_exit, thread_destroy, registers,
  exits, event, Reachable, inits, then_event,
}
use nebase.Thread.Registered.{IsServed, Reachable-IsServed, failed_registration}

abbrev set_tree : IdTree (ℕ → Bool)
set_tree = record {
  init = λ q. false;
  find_node = λ t q. t q;
  insert_node = λ t p q. (p == q) || t q;
  remove_node = λ t p q. not (p == q) && t q;
  find_init = λ p. refl;
  find_insert = λ t p q. refl;
  find_remove = λ t p q. refl;
}

abbrev fresh : Registry (ℕ → Bool)
fresh = record { thread_rbt = λ q. false; exit_key = λ q. false }

abbrev with_seven : Registry (ℕ → Bool)
with_seven = record { thread_rbt = λ q. (7 == q) || false; exit_key = put (λ q. false) 7 true }

with_seven-Reachable : Reachable set_tree with_seven
unfolding event thread_register
with_seven-Reachable = then_event fresh (registers true 7) with_seven inits refl

-- A thread that is in the tree is joined only once its end was asked for.
running_destroy :
    (thread_destroy set_tree false true true 7 with_seven ≡ false)
    × (thread_destroy set_tree true true true 7 with_seven ≡ true)
    × (thread_destroy set_tree false true true 8 with_seven ≡ true)
unfolding thread_destroy
running_destroy = (refl, refl, refl)

Reachable-IsServed_example :
    (after : Registry (ℕ → Bool)) × IsServed set_tree (exits 7) with_seven after
Reachable-IsServed_example = Reachable-IsServed set_tree with_seven (exits 7) with_seven-Reachable

fresh_absent : thread_is_running set_tree 7 fresh ≡ false
unfolding thread_is_running
fresh_absent = refl

failed_registration_example :
    ((thread_register set_tree true false 7 fresh).1 ≡ false)
    × (thread_exit set_tree 7 (thread_register set_tree true false 7 fresh).0 ≡ none)
failed_registration_example = failed_registration set_tree fresh 7 fresh_absent
