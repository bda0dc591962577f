-- ===== src/Thread.antt =====
-- src/thread.c: the registry of running threads, in a red-black tree of their ids.
pub mod Registered
mod Tests
use nebase.Base.{
  ℕ, ◌==◌, ◌≡◌, Bool, true, false, not, ◌&&◌, ◌||◌, Option, none, some, if◌then◌else◌,
}

-- What the registry uses of the tree of ids: rb_tree_find_node, rb_tree_insert_node of an id that is
-- not in it, and rb_tree_remove_node of one that is.
pub record IdTree (T : Type 0) : Type 0 where
  pub init : T
  pub find_node : T → ℕ → Bool
  pub insert_node : T → ℕ → T
  pub remove_node : T → ℕ → T
  pub find_init : (p : ℕ) → find_node init p ≡ false
  pub find_insert : (t : T) (p q : ℕ) → find_node (insert_node t p) q ≡ (p == q) || find_node t q
  pub find_remove :
      (t : T) (p q : ℕ) → find_node (remove_node t p) q ≡ not (p == q) && find_node t q

-- thread_rbt, and for each thread whether its value of thread_exit_key is set.
pub record Registry (T : Type 0) : Type 0 where
  pub thread_rbt : T
  pub exit_key : ℕ → Bool

abbrev pub put : (ℕ → Bool) → ℕ → Bool → ℕ → Bool
put f p b q = if p == q then b else f q

-- thread_rbt_add; `memory` is whether calloc succeeds, and false is -1.
unfoldable pub thread_rbt_add : {T : Type 0} → IdTree T → Bool → ℕ → Registry T → Registry T × Bool
thread_rbt_add rb memory p r =
    if not memory
    then (r, false)
    else if rb.find_node r.thread_rbt p
    then (r, false)
    else (record r { thread_rbt = rb.insert_node r.thread_rbt p }, true)

-- thread_rbt_del; none is the removal of a null node.
unfoldable pub thread_rbt_del : {T : Type 0} → IdTree T → ℕ → Registry T → Option (Registry T)
thread_rbt_del rb p r =
    if rb.find_node r.thread_rbt p
    then some (record r { thread_rbt = rb.remove_node r.thread_rbt p })
    else none

-- neb_thread_is_running, which is thread_rbt_exist
unfoldable pub thread_is_running : {T : Type 0} → IdTree T → ℕ → Registry T → Bool
thread_is_running rb p r = rb.find_node r.thread_rbt p

-- neb_thread_register; `set` is whether pthread_setspecific succeeds.
unfoldable pub thread_register :
    {T : Type 0} → IdTree T → Bool → Bool → ℕ → Registry T → Registry T × Bool
unfolding thread_rbt_add
thread_register rb set memory p r =
    if not set
    then (r, false)
    else thread_rbt_add rb memory p (record r { exit_key = put r.exit_key p true })

-- The end of a thread: the destructor of thread_exit_key is called where its value is set.
unfoldable pub thread_exit : {T : Type 0} → IdTree T → ℕ → Registry T → Option (Registry T)
unfolding thread_rbt_del
thread_exit rb p r =
    if r.exit_key p
    then thread_rbt_del rb p (record r { exit_key = put r.exit_key p false })
    else some r

-- neb_thread_destroy: `kill`, `clock` and `join` are whether the calls succeed.
unfoldable pub thread_destroy : {T : Type 0} → IdTree T → Bool → Bool → Bool → ℕ → Registry T → Bool
unfolding thread_is_running
thread_destroy rb kill clock join p r =
    if not (thread_is_running rb p r) then join else if not kill then false else clock && join

-- What threads do to the registry, one after the other under thread_rbt_lock.
pub data Event : Type 0 where
  registers : Bool → ℕ → Event
  exits : ℕ → Event

-- An event where calloc answers `memory`.
unfoldable pub event : {T : Type 0} → IdTree T → Bool → Event → Registry T → Option (Registry T)
unfolding thread_register thread_exit
event rb memory (registers set p) r = some (thread_register rb set memory p r).0
event rb memory (exits p) r = thread_exit rb p r

-- The registries that threads reach from neb_thread_init, where calloc succeeds.
pub data Reachable {T : Type 0} (rb : IdTree T) : Registry T → Type 0 where
  inits : Reachable rb (record { thread_rbt = rb.init; exit_key = λ p. false })
  then_event :
      (r : Registry T) (e : Event) (after : Registry T)
      → Reachable rb r
      → event rb true e r ≡ some after
      → Reachable rb after
