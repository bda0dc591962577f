-- ===== src/Evdp/Queue/OsFd/Moves.antt =====
-- A source that goes from one list of its queue to the other, in src/evdp/driver/epoll/source_os_fd.c.
use nebase.Base.{ℕ, ◌≡◌, ◌≢◌, arith, true, some, Bool-cases}
use nebase.Evdp.Ids.{mem, mem-erase, erase-IsDistinct, length-erase, erase_absent}
use nebase.Evdp.Queue.{Queue}
use nebase.Evdp.Queue.Invariant.{IsQueue}
use nebase.Evdp.Queue.OsFd.{to_pending, to_running}

module _ (q : Queue) (s : ℕ) (w : IsQueue q) where
  pub to_pending-IsQueue : mem s q.running ≡ true → q.foreach_s ≢ some s → IsQueue (to_pending q s)
  to_pending-IsQueue runs apart =
      let run = w.running_flag s runs in
      record {
        running_distinct = erase-IsDistinct s q.running w.running_distinct;
        pending_distinct = ground (
          arith,
          run,
          w.pending_flag s,
          w.pending_distinct,
          erase_absent s q.pending,
          Bool-cases (mem s q.pending),
        );
        running_flag =
            λ t h. ground (arith, w.running_flag t, mem-erase s t q.running w.running_distinct);
        pending_flag = λ t h.
            ground (arith, run, w.pending_flag t, mem-erase s t q.pending w.pending_distinct);
        listed = λ t h. ground (
          arith,
          w.listed t,
          mem-erase s t q.running w.running_distinct,
          mem-erase s t q.pending w.pending_distinct,
        );
        pending_count = ground (
          arith,
          run,
          w.pending_flag s,
          w.pending_count,
          erase_absent s q.pending,
          Bool-cases (mem s q.pending),
        );
        running_count = ground (arith, runs, w.running_count, length-erase s q.running);
        cursor = λ g h. ground (
          arith,
          apart,
          w.cursor g,
          mem-erase s g q.running w.running_distinct,
          mem-erase s g q.pending w.pending_distinct,
        );
        started = w.started;
      }

  pub to_running-IsQueue : mem s q.pending ≡ true → IsQueue (to_running q s)
  to_running-IsQueue waits =
      let run = w.pending_flag s waits in
      record {
        running_distinct = ground (
          arith,
          run,
          w.running_flag s,
          w.running_distinct,
          erase_absent s q.running,
          Bool-cases (mem s q.running),
        );
        pending_distinct = erase-IsDistinct s q.pending w.pending_distinct;
        running_flag = λ t h.
            ground (arith, run, w.running_flag t, mem-erase s t q.running w.running_distinct);
        pending_flag =
            λ t h. ground (arith, w.pending_flag t, mem-erase s t q.pending w.pending_distinct);
        listed = λ t h. ground (
          arith,
          w.listed t,
          mem-erase s t q.running w.running_distinct,
          mem-erase s t q.pending w.pending_distinct,
        );
        pending_count = ground (arith, waits, w.pending_count, length-erase s q.pending);
        running_count = ground (
          arith,
          run,
          w.running_flag s,
          w.running_count,
          erase_absent s q.running,
          Bool-cases (mem s q.running),
        );
        cursor = λ g h. ground (
          arith,
          waits,
          w.cursor g,
          mem-erase s g q.running w.running_distinct,
          mem-erase s g q.pending w.pending_distinct,
        );
        started = w.started;
      }
