-- ===== src/Evdp/Queue/OsFd/Tests.antt =====
-- An os_fd source of src/evdp/driver/epoll/source_os_fd.c that asks for events, in its callback
-- and outside.
use nebase.Base.{refl, arith, true}
use nebase.Evdp.Source.{os_fd, new_source, no_context}
use nebase.Evdp.Queue.{Queue, queue_create, set_context, set_source}
use nebase.Evdp.Queue.Invariant.{IsQueue}
use nebase.Evdp.Queue.Foreach.Tests.{kernel, two_running, two_running-IsQueue}
use nebase.Evdp.Queue.Handle.Ready.{IsReady, set_context-IsReady}
use nebase.Evdp.Queue.OsFd.{input, next_event}
use nebase.Evdp.Queue.OsFd.Asks.{next_event-IsQueue}

next_event-IsQueue_example : IsQueue (next_event input kernel two_running 3 true).0
unfolding queue_create
next_event-IsQueue_example =
    next_event-IsQueue input kernel two_running 3 true two_running-IsQueue refl (λ e. ground arith)

-- The same queue while the source 3 is called.
abbrev called : Queue
called = set_context two_running 3 (record (two_running.source 3).context { in_callback = true })

called-IsReady : IsReady called 0 1 3
unfolding queue_create
called-IsReady =
    set_context-IsReady two_running 0 1 3
      (record (two_running.source 3).context { in_callback = true })
      (record {
        handled = record {
          well_formed = two_running-IsQueue;
          at = refl;
          served = tt;
          count = refl;
        };
        runs = refl;
        apart = λ e. ground arith;
        untold = tt;
      })

-- Beside the two running sources a free one, 6, that waited for input before.
abbrev with_free : Queue
with_free =
    set_source two_running 6
      (record (new_source os_fd) { context = record no_context { epollin = true } })
