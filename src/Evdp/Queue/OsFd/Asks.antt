-- ===== src/Evdp/Queue/OsFd/Asks.antt =====
-- What neb_evdp_source_os_fd_next_read and _next_write of src/evdp/io_base.c make of the queue.
use nebase.Base.{
  ℕ, ◌≡◌, ◌≢◌, refl, arith, Bool, true, false, not, ◌&&◌, some, if◌then◌else◌, Bool-cases,
}
use nebase.Evdp.Ids.{mem}
use nebase.Evdp.Source.{Source, Context}
use nebase.Evdp.Queue.{
  Queue, Kernel, CtlResult, success, enoent, failure, set_source, set_context, do_del_os_fd,
  del_os_fd_by, is_attached,
}
use nebase.Evdp.Queue.Invariant.{
  IsQueue, SameLists, SameLists-IsQueue, SameLists-trans, SameLists-refl, set_context-SameLists,
}
use nebase.Evdp.Queue.Handle.Ready.{IsReady, SameLists-IsReady}
use nebase.Evdp.Queue.OsFd.{
  IoEvent, input, output, wants, set_wants, other_event, to_pending, to_running, do_ctl_by,
  do_ctl_os_fd, init_event, reset_event, unset_event, set_handler, next_event,
}
use nebase.Evdp.Queue.OsFd.Moves.{to_pending-IsQueue, to_running-IsQueue}

-- Only contexts and handlers differ.
record IsSame (q r : Queue) (s : ℕ) : Type 0 where
  lists : SameLists q r
  events : r.events ≡ q.events
  current : r.current_event ≡ q.current_event
  called : (r.source s).context.in_callback ≡ (q.source s).context.in_callback

IsSame-trans : {p q r : Queue} {s : ℕ} → IsSame p q s → IsSame q r s → IsSame p r s
IsSame-trans a b = record {
  lists = SameLists-trans a.lists b.lists;
  events = cc;
  current = cc;
  called = cc;
}

set_source-IsSame :
    (q : Queue) (s : ℕ) (v : Source)
    → v.pending ≡ (q.source s).pending
    → v.q_in_use ≡ (q.source s).q_in_use
    → v.context.in_callback ≡ (q.source s).context.in_callback
    → IsSame q (set_source q s v) s
set_source-IsSame q s v flag owner call = record {
  lists = record {
    self = refl;
    running = refl;
    pending = refl;
    foreach_s = refl;
    in_foreach = refl;
    stat_pending = refl;
    stat_running = refl;
    flags = λ t. ground arith;
  };
  events = refl;
  current = refl;
  called = ground arith;
}

set_context-IsSame :
    (q : Queue) (s : ℕ) (c : Context)
    → c.in_callback ≡ (q.source s).context.in_callback
    → IsSame q (set_context q s c) s
set_context-IsSame q s c h = record {
  lists = set_context-SameLists q s c;
  events = refl;
  current = refl;
  called = ground arith;
}

-- The queue is the same but for contexts, or the source moved: to the pending list, where it was
-- in the running list and in no callback, or from the pending list.
data Asked (q : Queue) (s : ℕ) : Queue → Type 0 where
  stays : (r : Queue) → IsSame q r s → Asked q s r
  goes_pending :
      (p : Queue)
      → IsSame q p s
      → (p.source s).pending ≡ false
      → (p.source s).context.in_callback ≡ false
      → Asked q s (to_pending p s)
  goes_running :
      (p : Queue) → IsSame q p s → (p.source s).pending ≡ true → Asked q s (to_running p s)

set_wants-IsSame :
    (e : IoEvent) (b : Bool) (q : Queue) (s : ℕ)
    → IsSame q (set_context q s (set_wants e b (q.source s).context)) s
set_wants-IsSame input b q s = set_context-IsSame q s _ refl
set_wants-IsSame output b q s = set_context-IsSame q s _ refl

do_ctl-IsSame : (r : CtlResult) (q : Queue) (s : ℕ) → IsSame q (do_ctl_by r q s).0 s
unfolding do_ctl_by
do_ctl-IsSame success q s = set_context-IsSame q s _ refl
do_ctl-IsSame enoent q s = record {
  lists = SameLists-refl q;
  events = refl;
  current = refl;
  called = refl;
}
do_ctl-IsSame failure q s = record {
  lists = SameLists-refl q;
  events = refl;
  current = refl;
  called = refl;
}

del_os_fd-IsSame : (r : CtlResult) (q : Queue) (s : ℕ) → IsSame q (del_os_fd_by r q s).0 s
unfolding del_os_fd_by
del_os_fd-IsSame success q s = set_context-IsSame q s _ refl
del_os_fd-IsSame enoent q s = set_context-IsSame q s _ refl
del_os_fd-IsSame failure q s = record {
  lists = SameLists-refl q;
  events = refl;
  current = refl;
  called = refl;
}

-- The two branches of a test.
Asked-if :
    {q : Queue} {s : ℕ} (b : Bool) (x y : Queue × Bool)
    → (b ≡ true → Asked q s x.0)
    → (b ≡ false → Asked q s y.0)
    → Asked q s (if b then x else y).0
Asked-if true x y holds fails = holds refl
Asked-if false x y holds fails = fails refl

all-IsSame : (q : Queue) (s : ℕ) → IsSame q q s
all-IsSame q s = record { lists = SameLists-refl q; events = refl; current = refl; called = refl }

pending_flag_lem :
    {q p : Queue} (s : ℕ) → IsSame q p s → (p.source s).pending ≡ (q.source s).pending
pending_flag_lem s h = (h.lists.flags s).0

module _ (e : IoEvent) (k : Kernel) (q : Queue) (s : ℕ) where
  reset-Asked : Asked q s (reset_event e k q s).0
  unfolding reset_event do_ctl_os_fd
  reset-Asked =
      let h = set_wants-IsSame e true q s in
      let p = set_context q s (set_wants e true (q.source s).context) in
      Asked-if (q.source s).context.added _ _
        (λ on.
          Asked-if (wants e (q.source s).context) _ _ (λ set. stays q (all-IsSame q s))
            (λ unset. stays _ (IsSame-trans h (do_ctl-IsSame (k.ctl s) p s))))
        (λ off.
          Asked-if (not (q.source s).context.in_callback && not (q.source s).pending) _ _
            (λ free.
              goes_pending p h (ground (arith, pending_flag_lem s h)) (ground (arith, h.called)))
            (λ held. stays p h))

  unset-Asked : Asked q s (unset_event e k q s).0
  unfolding unset_event do_del_os_fd
  unset-Asked =
      let h = set_wants-IsSame e false q s in
      let p = set_context q s (set_wants e false (q.source s).context) in
      Asked-if (q.source s).context.added _ _
        (λ on.
          Asked-if (not (wants e (q.source s).context)) _ _ (λ unset. stays q (all-IsSame q s))
            (λ set.
              Asked-if (wants (other_event e) (q.source s).context) _ _ (λ more. stays p h)
                (λ last. stays _ (IsSame-trans h (del_os_fd-IsSame (k.ctl s) p s)))))
        (λ off.
          Asked-if (q.source s).pending _ _
            (λ waits.
              Asked-if (wants (other_event e) (q.source s).context) _ _ (λ more. stays p h)
                (λ last. goes_running p h (ground (arith, pending_flag_lem s h))))
            (λ runs. stays p h))

set_handler-IsSame :
    (e : IoEvent) (b : Bool) (q : Queue) (s : ℕ)
    → IsSame q (set_source q s (set_handler e b (q.source s))) s
set_handler-IsSame input b q s = set_source-IsSame q s _ refl refl refl
set_handler-IsSame output b q s = set_source-IsSame q s _ refl refl refl

Asked-IsSame : {s : ℕ} {q p r : Queue} → IsSame q p s → Asked p s r → Asked q s r
Asked-IsSame h (stays r d) = stays r (IsSame-trans h d)
Asked-IsSame h (goes_pending r d f c) = goes_pending r (IsSame-trans h d) f c
Asked-IsSame h (goes_running r d f) = goes_running r (IsSame-trans h d) f

next-Asked :
    (e : IoEvent) (k : Kernel) (q : Queue) (s : ℕ) (set : Bool)
    → Asked q s (next_event e k q s set).0
unfolding next_event init_event
next-Asked e k q s set =
    let p = set_source q s (set_handler e set (q.source s)) in
    let h = set_handler-IsSame e set q s in
    Asked-IsSame h (
      Asked-if (not (is_attached (q.source s).q_in_use)) _ _
        (λ free. stays _ (set_wants-IsSame e set p s))
        (λ held. Asked-if set _ _ (λ on. reset-Asked e k p s) (λ off. unset-Asked e k p s)))

Asked-IsQueue :
    {s : ℕ} {q r : Queue}
    → IsQueue q
    → (q.source s).q_in_use ≡ some q.self
    → q.foreach_s ≢ some s
    → Asked q s r
    → IsQueue r
Asked-IsQueue w held apart (stays r h) = SameLists-IsQueue h.lists w
Asked-IsQueue {s = s} w held apart (goes_pending p h f c) =
    let v = SameLists-IsQueue h.lists w in
    let flags = h.lists.flags s in
    let runs : mem s p.running ≡ true =
      ground (arith, v.listed s, v.pending_flag s, Bool-cases (mem s p.running)) in
    to_pending-IsQueue p s v runs (λ e. apart (ground arith))
Asked-IsQueue {s = s} w held apart (goes_running p h f) =
    let v = SameLists-IsQueue h.lists w in
    let flags = h.lists.flags s in
    let waits : mem s p.pending ≡ true =
      ground (arith, v.listed s, v.running_flag s, Bool-cases (mem s p.pending)) in
    to_running-IsQueue p s v waits

-- Asking for a source's read or write events, or asking no more, keeps a well-formed queue that
-- holds the source well-formed, whatever the source waits for so far and the kernel answers.
pub next_event-IsQueue :
    (e : IoEvent) (k : Kernel) (q : Queue) (s : ℕ) (set : Bool)
    → IsQueue q
    → (q.source s).q_in_use ≡ some q.self
    → q.foreach_s ≢ some s
    → IsQueue (next_event e k q s set).0
next_event-IsQueue e k q s set w held apart = Asked-IsQueue w held apart (next-Asked e k q s set)

-- A source that asks for events, or asks no more, in its own callback stays in the running list,
-- and the queue stays ready for the rest of the events: the callback is careful in this.
pub next_event-IsReady :
    (e : IoEvent) (k : Kernel) (q : Queue) (i n s : ℕ) (set : Bool)
    → IsReady q i n s
    → (q.source s).context.in_callback ≡ true
    → IsReady (next_event e k q s set).0 i n s
next_event-IsReady e k q i n s set w called = keeps (next-Asked e k q s set)
  where
    keeps : {r : Queue} → Asked q s r → IsReady r i n s
    keeps (stays r h) = SameLists-IsReady h.lists h.events h.current w
    keeps (goes_pending p h f c) = absurd (ground (arith, h.called))
    keeps (goes_running p h f) =
        absurd (ground (arith, h.lists.flags s, w.handled.well_formed.running_flag s w.runs))
