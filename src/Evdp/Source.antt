-- ===== src/Evdp/Source.antt =====
-- Event sources: src/evdp/core.h, the context of src/evdp/driver/epoll/types.h, and the results of
-- callbacks of include/nebase/evdp/types.h.
use nebase.Base.{ℕ, ◌==◌, Bool, false, Option, none, if◌then◌else◌}

-- EVDP_SOURCE_*; `other` is a value that no case names.
pub data SourceType : Type 0 where
  source_none itimer_sec itimer_msec abstimer ro_fd os_fd other : SourceType

-- NEB_EVDP_CB_*; `invalid` is a value that no case names.
pub data CbRet : Type 0 where
  continue remove close break_exp break_err end_foreach invalid : CbRet

pub data CtlOp : Type 0 where
  ctl_add ctl_mod : CtlOp

-- What the driver keeps for a source: the union of the context structs' fields. `timer_set` is
-- whether its.it_value is not zero, `epollin` and `epollout` are bits of ctl_event.events.
pub record Context : Type 0 where
  pub ctl_op : CtlOp
  pub added : Bool
  pub epollin : Bool
  pub epollout : Bool
  pub in_action : Bool
  pub in_callback : Bool
  pub timer_set : Bool

-- struct neb_evdp_source, less its links and what only the user's callbacks read. `wakes`, `reads`
-- and `writes` are whether the conf's do_wakeup, do_read and do_write are set.
pub record Source : Type 0 where
  pub type : SourceType
  pub q_in_use : Option ℕ
  pub foreach_id : ℕ
  pub pending : Bool
  pub no_detach : Bool
  pub utype : ℕ
  pub on_remove : Bool
  pub wakes : Bool
  pub reads : Bool
  pub writes : Bool
  pub context : Context

-- calloc
abbrev pub no_context : Context
no_context = record {
  ctl_op = ctl_add;
  added = false;
  epollin = false;
  epollout = false;
  in_action = false;
  in_callback = false;
  timer_set = false;
}

abbrev pub new_source : SourceType → Source
new_source t = record {
  type = t;
  q_in_use = none;
  foreach_id = 0;
  pending = false;
  no_detach = false;
  utype = 0;
  on_remove = false;
  wakes = false;
  reads = false;
  writes = false;
  context = no_context;
}

abbrev pub update {ℓ} : {A : Type ℓ} → (ℕ → A) → ℕ → A → ℕ → A
update f k v j = if j == k then v else f j
