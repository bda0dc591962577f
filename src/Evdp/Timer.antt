-- ===== src/Evdp/Timer.antt =====
-- src/evdp/timer.c: points that are due at a time, in a tree of nodes by time. Nodes and points
-- are numbers; the red-black tree of src/compat/rbtree is the interface RbTree.
pub mod Tree
pub mod Invariant
pub mod Nodes
pub mod Place
pub mod Links
pub mod Spare
pub mod Leave
pub mod Points
pub mod Reset
pub mod Run
pub mod Destroy
pub mod Nearest
mod Tests
use nebase.Base.{
  ℕ, zero, suc, ◌+◌, ◌-◌, ◌==◌, ltb, Bool, true, false, not, ◌&&◌, List, [], ◌∷◌, Option, none,
  some, if◌then◌else◌, length,
}
use nebase.Evdp.Ids.{erase}
use nebase.Evdp.Source.{update}
use nebase.Evdp.Timespec.{Timespec, is_after, timespecsub}
use nebase.Evdp.Timer.Tree.{RbTree}

-- struct neb_evdp_timer with the fields of its nodes (`ts`, `cblist`, `no_auto_del`) and of its
-- points (`ref_tnode`, `running`). A cache lists its nodes, the last one first. `calls` lists the
-- points whose on_timeout was called, the last one first.
pub record Timer (T : Type 0) : Type 0 where
  pub tree : T
  pub ts : ℕ → Timespec
  pub cblist : ℕ → List ℕ
  pub no_auto_del : ℕ → Bool
  pub ref_tnode : ℕ → Option ℕ
  pub running : ℕ → Bool
  pub keeplist : List ℕ
  pub tcache : List ℕ
  pub tcache_size : ℕ
  pub lcache : List ℕ
  pub lcache_size : ℕ
  pub calls : List ℕ

-- NEB_EVDP_TIMEOUT_KEEP and NEB_EVDP_TIMEOUT_FREE
pub data TimeoutRet : Type 0 where
  keep free : TimeoutRet

abbrev pub is_node : Option ℕ → ℕ → Bool
is_node none n = false
is_node (some m) n = m == n

module _ {T : Type 0} where
  -- evdp_timer_cblist_node_new: memset, and on_timeout and udata set.
  abbrev pub clear_point : Timer T → ℕ → Timer T
  clear_point t p = record t {
    ref_tnode = update t.ref_tnode p none;
    running = update t.running p false;
  }

  -- `block` is what calloc returns where it is called.
  pub point_new : Timer T → Option ℕ → Option (Timer T × ℕ)
  point_new t block = elim t.lcache [
    | p ∷ rest ↦ some (clear_point (record t { lcache = rest }) p, p)
    | [] ↦ elim block [ none ↦ none | some p ↦ some (clear_point t p, p) ]
  ]

  -- evdp_timer_cblist_node_free
  pub point_free : Timer T → ℕ → Timer T
  point_free t p =
      if ltb (length t.lcache) t.lcache_size then record t { lcache = p ∷ t.lcache } else t

  abbrev pub clear_node : Timer T → ℕ → Timespec → Timer T
  clear_node t n abs_ts = record t {
    ts = update t.ts n abs_ts;
    cblist = update t.cblist n [];
    no_auto_del = update t.no_auto_del n false;
  }

  -- evdp_timer_rbtree_node_new
  pub node_new : Timer T → Timespec → Option ℕ → Option (Timer T × ℕ)
  node_new t abs_ts block = elim t.tcache [
    | n ∷ rest ↦ some (clear_node (record t { tcache = rest }) n abs_ts, n)
    | [] ↦ elim block [ none ↦ none | some n ↦ some (clear_node t n abs_ts, n) ]
  ]

  pub free_points : Timer T → List ℕ → Timer T
  unfolding point_free
  free_points t [] = t
  free_points t (p ∷ ps) = free_points (point_free t p) ps

  -- evdp_timer_rbtree_node_del
  pub node_del : Timer T → ℕ → Timer T
  unfolding free_points
  node_del t n =
      let t1 = free_points t (t.cblist n) in
      let t2 = record t1 { cblist = update t1.cblist n [] } in
      if ltb (length t2.tcache) t2.tcache_size then record t2 { tcache = n ∷ t2.tcache } else t2

  -- LIST_REMOVE, on whichever list the point is.
  abbrev pub list_remove : Timer T → ℕ → Timer T
  list_remove t p = record t { cblist = λ n. erase p (t.cblist n); keeplist = erase p t.keeplist }

  -- LIST_INSERT_HEAD on a node's list.
  abbrev pub list_insert : Timer T → ℕ → ℕ → Timer T
  list_insert t n p = record t { cblist = update t.cblist n (p ∷ t.cblist n) }

  module _ (rb : RbTree T) where
    abbrev pub empty_timer : ℕ → ℕ → Timer T
    empty_timer tcache_size lcache_size = record {
      tree = rb.empty;
      ts = λ n. record { tv_sec = 0; tv_nsec = 0 };
      cblist = λ n. [];
      no_auto_del = λ n. false;
      ref_tnode = λ p. none;
      running = λ p. false;
      keeplist = [];
      tcache = [];
      tcache_size = tcache_size;
      lcache = [];
      lcache_size = lcache_size;
      calls = [];
    }

    -- neb_evdp_timer_create; whether the calls of calloc and malloc succeed.
    abbrev pub timer_create : ℕ → ℕ → Bool → Bool → Bool → Option (Timer T)
    timer_create tcache_size lcache_size timer_block tcache_block lcache_block =
        if not timer_block
        then none
        else if not tcache_block
        then none
        else if not lcache_block
        then none
        else some (empty_timer tcache_size lcache_size)

    -- evdp_timer_rbtree_node_check_del
    pub check_del : Timer T → ℕ → Timer T
    unfolding node_del
    check_del t n = if t.no_auto_del n then t else elim (t.cblist n) [
      | [] ↦ node_del (record t { tree = rb.remove_node t.tree n }) n
      | p ∷ ps ↦ t
    ]

    -- rb_tree_insert_node, and the new node given back where one with its time was there.
    pub insert_node : Timer T → ℕ → Timer T × ℕ
    unfolding node_del
    insert_node t n =
        let (tree, tmp) = rb.insert_node t.ts t.tree n in
        let t1 = record t { tree = tree } in if tmp == n then (t1, n) else (node_del t1 n, tmp)

    abbrev pub put_point : Timer T × ℕ → Option ℕ → Timer T × Option ℕ
    put_point (t, tn) lblock = elim (point_new t lblock) [
      | none ↦ (t, none)
      | some (t1, ln) ↦
          (list_insert (record t1 { ref_tnode = update t1.ref_tnode ln (some tn) }) tn ln, some ln)
    ]

    -- neb_evdp_timer_new_point; no point is NULL.
    pub new_point : Timer T → Timespec → Option ℕ → Option ℕ → Timer T × Option ℕ
    unfolding node_new insert_node point_new
    new_point t abs_ts tblock lblock = elim (node_new t abs_ts tblock) [
      | none ↦ (t, none)
      | some (t1, n) ↦ put_point (insert_node t1 n) lblock
    ]

    abbrev pub leave_node : Timer T → Option ℕ → Timer T
    leave_node t none = t
    leave_node t (some n) = check_del t n

    -- neb_evdp_timer_del_point
    pub del_point : Timer T → ℕ → Timer T
    unfolding check_del point_free
    del_point t p =
        if t.running p
        then record t { ref_tnode = update t.ref_tnode p none }
        else leave_node (point_free (list_remove t p) p) (t.ref_tnode p)

    -- The end of neb_evdp_timer_point_reset, for a node other than the point's own.
    pub move_point : Timer T → ℕ → ℕ → Timer T
    unfolding check_del
    move_point t p tn =
        if t.running p
        then record t { ref_tnode = update t.ref_tnode p (some tn) }
        else let t1 = leave_node (list_remove t p) (t.ref_tnode p) in
          list_insert (record t1 { ref_tnode = update t1.ref_tnode p (some tn) }) tn p

    abbrev pub reset_to : Timer T × ℕ → ℕ → ℕ → Timer T × Bool
    reset_to (t, tn) n p =
        if not (tn == n) && is_node (t.ref_tnode p) tn then (t, true) else (move_point t p tn, true)

    -- neb_evdp_timer_point_reset; false is -1.
    pub point_reset : Timer T → ℕ → Timespec → Option ℕ → Timer T × Bool
    unfolding node_new insert_node move_point
    point_reset t p abs_ts tblock = elim (node_new t abs_ts tblock) [
      | none ↦ (t, false)
      | some (t1, n) ↦ reset_to (insert_node t1 n) n p
    ]

    -- evdp_timer_fetch_neareast_ts; no timeout blocks for ever.
    pub fetch_nearest_ts : Timer T → Timespec → Option Timespec
    fetch_nearest_ts t cur_ts = elim (rb.tree_min t.tree) [
      | none ↦ none
      | some n ↦ some (
          if not (is_after (t.ts n) cur_ts)
          then record { tv_sec = 0; tv_nsec = 0 }
          else timespecsub (t.ts n) cur_ts)
    ]
