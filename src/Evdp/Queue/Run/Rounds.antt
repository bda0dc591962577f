-- ===== src/Evdp/Queue/Run/Rounds.antt =====
-- What the rounds of neb_evdp_queue_run of src/evdp/core.c make of a well-formed queue.
use nebase.Base.{
  ◌≡◌, refl, arith, Bool, false, ◌⊎◌, inl, inr, List, [], ◌∷◌, some, length, ltb, Bool-cases,
  Option-cases, All,
}
use nebase.Evdp.Source.{CbRet, continue, remove, close, break_exp, break_err, end_foreach, invalid}
use nebase.Evdp.Queue.{Queue, Event}
use nebase.Evdp.Queue.Invariant.{IsQueue, SameLists, SameLists-IsQueue}
use nebase.Evdp.Queue.Flush.{flush_pending_sources, flush_succeeds-IsQueue}
use nebase.Evdp.Queue.Handle.{
  LoopEnd, finished, exit_ok, exit_err, overread, out_of_rounds, handle_events,
}
use nebase.Evdp.Queue.Handle.Ready.{Served}
use nebase.Evdp.Queue.Handle.Branches.{AreCareful}
use nebase.Evdp.Queue.Handle.Loop.{EndsRound, handle_events_lem}
use nebase.Evdp.Queue.Run.{
  QueueCall, Round, Decision, go_on, again, leave_ok, leave_err, check_events, run_timer, batch_end,
  run_batch, after_events, serve, clock_ok, flushed, decided_round, run_round, and_then, queue_run,
}

-- The kernel reports events for running sources only, at most one for each, and the callbacks
-- use the queue by operations that keep it well-formed.
pub record IsCarefulRound (r : Round) : Type 0 where
  pub callbacks : AreCareful r.callbacks
  pub wait :
      (q : Queue) (es : List Event)
      → IsQueue q
      → r.wait q ≡ some es
      → Served q.running q.foreach_s es
  pub event_call :
      (call : QueueCall) (q : Queue) → r.event_call ≡ some call → IsQueue q → IsQueue (call q).0
  pub batch_call :
      (call : QueueCall) (q : Queue) → r.batch_call ≡ some call → IsQueue q → IsQueue (call q).0
  pub timer : (q : Queue) → IsQueue q → IsQueue (run_timer r q)

-- A run on the queue `q` comes to a round whose flush of the pending sources returns -1, and `p` is
-- the queue that this flush leaves.
pub data FlushFails : List Round → Queue → Queue → Type 0 where
  this_round :
      (r : Round) (rs : List Round) (q : Queue)
      → (check_events r q).1 ≡ go_on
      → (flush_pending_sources r.kernel (check_events r q).0).1 ≡ false
      → FlushFails (r ∷ rs) q (flush_pending_sources r.kernel (check_events r q).0).0
  later_round :
      (r : Round) (rs : List Round) (q next p : Queue)
      → run_round r q ≡ finished next
      → FlushFails rs next p
      → FlushFails (r ∷ rs) q p

-- The queue is well-formed, but where -1 is returned and the exception holds of the queue.
abbrev pub StaysWell : (Queue → Type 0) → LoopEnd → Type 0
StaysWell Failed (finished r) = IsQueue r
StaysWell Failed (exit_ok r) = IsQueue r
StaysWell Failed (exit_err r) = IsQueue r ⊎ Failed r
StaysWell Failed overread = ⊥
StaysWell Failed out_of_rounds = ⊥

set_events-IsQueue : (q : Queue) (es : List Event) → IsQueue q → IsQueue (record q { events = es })
set_events-IsQueue q es w = SameLists-IsQueue (same_lists q es) w
  where
    same_lists : (q : Queue) (es : List Event) → SameLists q (record q { events = es })
    same_lists q es = record {
      self = refl;
      running = refl;
      pending = refl;
      foreach_s = refl;
      in_foreach = refl;
      stat_pending = refl;
      stat_running = refl;
      flags = λ t. (refl, refl);
    }

batch_end-StaysWell :
    (F : Queue → Type 0) (q : Queue) (ret : CbRet) → IsQueue q → StaysWell F (batch_end (q, ret))
batch_end-StaysWell F q continue w = w
batch_end-StaysWell F q remove w = w
batch_end-StaysWell F q close w = w
batch_end-StaysWell F q break_exp w = w
batch_end-StaysWell F q break_err w = inl w
batch_end-StaysWell F q end_foreach w = w
batch_end-StaysWell F q invalid w = w

module _ (F : Queue → Type 0) (r : Round) (careful : IsCarefulRound r) where
  run_batch-StaysWell : (had : Bool) (q : Queue) → IsQueue q → StaysWell F (run_batch r had q)
  unfolding run_batch
  run_batch-StaysWell had q w = elim (Option-cases r.batch_call) [
    | inl unset ↦ rw unset w
    | inr (call, set) ↦ elim (Bool-cases had) [
      | inl on ↦
          rw (set, on)
            (batch_end-StaysWell F (call q).0 (call q).1 (careful.batch_call call q set w))
      | inr off ↦ rw (set, off) w
    ]
  ]

  after_events-StaysWell :
      (had : Bool) (l : LoopEnd) → EndsRound l → StaysWell F (after_events r had l)
  unfolding after_events
  after_events-StaysWell had (finished q) h =
      run_batch-StaysWell had (run_timer r q) (careful.timer q h.0)
  after_events-StaysWell had (exit_ok q) h = h
  after_events-StaysWell had (exit_err q) h = inl h
  after_events-StaysWell had overread h = h
  after_events-StaysWell had out_of_rounds h = h

  serve-StaysWell : (q : Queue) → IsQueue q → StaysWell F (serve r q)
  unfolding serve
  serve-StaysWell q w = elim (Option-cases (r.wait q)) [
    | inl fails ↦ rw (serve, fails) (inl (set_events-IsQueue q [] w))
    | inr (es, reported) ↦
        let q1 = record q { events = es } in
        let w1 = set_events-IsQueue q es w in
        elim (Bool-cases r.clock_after) [
          | inl ok ↦
              rw (serve, reported, ok)
                (after_events-StaysWell (ltb 0 (length es)) (handle_events r.kernel r.callbacks q1)
                  (handle_events_lem r.kernel r.callbacks q1 careful.callbacks w1
                    (careful.wait q es w reported)))
          | inr bad ↦ rw (serve, reported, bad) (inl w1)
        ]
  ]

  flushed-StaysWell :
      (q : Queue)
      → ((flush_pending_sources r.kernel q).1 ≡ false → F (flush_pending_sources r.kernel q).0)
      → IsQueue q
      → StaysWell F (flushed r (flush_pending_sources r.kernel q))
  unfolding flushed
  flushed-StaysWell q excepts w = elim (Bool-cases (flush_pending_sources r.kernel q).1) [
    | inl ok ↦
        let w1 = flush_succeeds-IsQueue r.kernel q w ok in
        elim (Bool-cases (clock_ok r)) [
          | inl runs ↦ rw (ok, runs) (serve-StaysWell (flush_pending_sources r.kernel q).0 w1)
          | inr stops ↦ rw (ok, stops) (inl w1)
        ]
    | inr fails ↦ rw fails (inr (excepts fails))
  ]

  decided-StaysWell :
      (q : Queue) (d : Decision)
      → (d ≡ go_on
          → (flush_pending_sources r.kernel q).1 ≡ false
          → F (flush_pending_sources r.kernel q).0)
      → IsQueue q
      → StaysWell F (decided_round r (q, d))
  unfolding decided_round
  decided-StaysWell q again excepts w = w
  decided-StaysWell q leave_ok excepts w = w
  decided-StaysWell q leave_err excepts w = inl w
  decided-StaysWell q go_on excepts w = flushed-StaysWell q (excepts refl) w

  check_events-IsQueue : (q : Queue) → IsQueue q → IsQueue (check_events r q).0
  unfolding check_events
  check_events-IsQueue q w = elim (Bool-cases r.thread_events.any) [
    | inl any ↦ elim (Option-cases r.event_call) [
      | inl unset ↦ ground arith
      | inr (call, set) ↦ rw (any, set) (careful.event_call call q set w)
    ]
    | inr quiet ↦ rw quiet w
  ]

  run_round-StaysWell :
      (q : Queue)
      → ((check_events r q).1 ≡ go_on
          → (flush_pending_sources r.kernel (check_events r q).0).1 ≡ false
          → F (flush_pending_sources r.kernel (check_events r q).0).0)
      → IsQueue q
      → StaysWell F (run_round r q)
  unfolding run_round
  run_round-StaysWell q excepts w =
      decided-StaysWell (check_events r q).0 (check_events r q).1 excepts (check_events-IsQueue q w)

and_then-StaysWell :
    (F : Queue → Type 0) (l : LoopEnd) (next : Queue → LoopEnd)
    → StaysWell F l
    → ((p : Queue) → l ≡ finished p → IsQueue p → StaysWell F (next p))
    → StaysWell F (and_then l next)
and_then-StaysWell F (finished p) next h later = later p refl h
and_then-StaysWell F (exit_ok p) next h later = h
and_then-StaysWell F (exit_err p) next h later = h
and_then-StaysWell F overread next h later = h
and_then-StaysWell F out_of_rounds next h later = h

-- What holds of a failed flush holds of the same one as part of a longer run.
weaken-StaysWell :
    (F G : Queue → Type 0)
    → ((p : Queue) → F p → G p)
    → (l : LoopEnd) → StaysWell F l
    → StaysWell G l
weaken-StaysWell F G more (finished p) h = h
weaken-StaysWell F G more (exit_ok p) h = h
weaken-StaysWell F G more (exit_err p) (inl w) = inl w
weaken-StaysWell F G more (exit_err p) (inr f) = inr (more p f)
weaken-StaysWell F G more overread h = h
weaken-StaysWell F G more out_of_rounds h = h

-- However many rounds neb_evdp_queue_run makes on a well-formed queue, with callbacks that keep
-- it well-formed and the sources of the later events of a round in the running list, and a kernel
-- that reports each running source at most once and no other: every event read is one that was
-- reported, every round's loop over the events ends, and the queue is well-formed, in the end and
-- where the run returns, but where the run comes to a round whose flush of the pending sources
-- fails, and returns -1 with the queue that this flush leaves.
pub queue_run-StaysWell :
    (rs : List Round) (q : Queue)
    → All IsCarefulRound rs
    → IsQueue q
    → StaysWell (λ p. FlushFails rs q p) (queue_run rs q)
unfolding queue_run
queue_run-StaysWell [] q careful w = w
queue_run-StaysWell (r ∷ rs) q careful w =
    let F : Queue → Type 0 = λ p. FlushFails (r ∷ rs) q p in
    and_then-StaysWell F (run_round r q) (λ p. queue_run rs p)
      (run_round-StaysWell F r careful.0 q (λ on fails. this_round r rs q on fails) w)
      (λ p ends h.
        weaken-StaysWell (λ x. FlushFails rs p x) F (λ x f. later_round r rs q p x ends f)
          (queue_run rs p) (queue_run-StaysWell rs p careful.1 h))
