-- ===== src/Lib.antt =====
-- Verification of nebase, a C library of an event dispatcher (evdp), socket helpers (sock) and
-- system services around them, among these addresses, pools of nodes that are picked at random, the
-- timers of an event loop, a string search, copies of files, a registry of threads and pid files.
--
-- An application creates an event queue (neb_evdp_queue_create), attaches sources to it and runs
-- it. A source is in one of two linked lists of its queue: pending, until the driver hands it to
-- the kernel (evdp_queue_flush_pending_sources), and then running. A foreach walks the running
-- list in batches, a sentinel source in the list marking how far it has come. Apart from that,
-- src/sock/csum.c fills the checksums of packets that raw sockets send, src/sock/unix.c passes
-- descriptors and credentials between processes, and src/thread.c keeps the running threads.
--
-- Files:
--   Base.antt, Base/        native lists, options, machine words (u8 to u64 as remainders).
--   Sock/Csum.antt          src/sock/csum.c: do_csum and its loops, function by function;
--                           Sock/Csum/Fill.antt has the four exported fill functions. A buffer is
--                           a list of bytes with the address it starts at, for the alignment, and
--                           a read past its end is `none`. Words, Steps and Sum have the proofs
--                           on the sum, Fill/Folds, Receiver and Ipv6 those on filled packets.
--                           The byte order is an argument.
--   Sock/Unix/Rights.antt   neb_sock_unix_send_with_fds and neb_sock_unix_recv_with_fds of
--                           src/sock/unix.c, with the memory behind the caller's array; Received has
--                           what a receiver finds, Bounds what is written at most. The macros of
--                           control messages are the record `Layout`.
--   Sock/Unix/Cred.antt     credentials with messages; Once has the proofs. The queue is that of a
--                           socket that keeps the bounds of messages.
--   Sock/Unix/Open.antt     neb_sock_unix_new_binded and neb_sock_unix_new_connected; Sock/Raw.antt
--                           has the opening of src/sock/raw.c, Sock/Descriptors.antt the list of
--                           open descriptors and the plain opening, Sock/Opened.antt the proofs.
--   Sock/Common.antt        src/sock/common.c; Waits has the proofs on the loops around poll.
--   Evdp/Ids.antt           lists of distinct ids, for linked lists.
--   Evdp/Source.antt        struct neb_evdp_source of src/evdp/core.h and the driver's context.
--   Evdp/Queue.antt         struct neb_evdp_queue, create, attach and detach of src/evdp/core.c, and
--                           what they call of src/evdp/driver/epoll. The kernel's answers are the
--                           argument `Kernel`. Callbacks that free a source are noted in `removed`.
--   Evdp/Queue/Invariant    the well-formed queue; Attach, Unlink and Detach: these operations keep it.
--   Evdp/Queue/Flush        evdp_queue_flush_pending_sources of src/evdp/driver/epoll/queue.c.
--   Evdp/Queue/Foreach      foreach of src/evdp/core.c: Bounds on its start and end, Step on one
--                           step. The user's callback is an argument that may change the queue.
--                           Behind and Ends on the end of a foreach with no batch size.
--   Evdp/Queue/Handle       handle_event of src/evdp/core.c and the handlers of the driver, with the
--                           loop over the events; Ready has the queue during one event, Branches
--                           the handlers, Loop the loop.
--   Evdp/Queue/Run          the rounds of neb_evdp_queue_run; Rounds has the proofs. The clock, the
--                           kernel, the timer and the handlers are the record `Round`.
--   Evdp/Queue/OsFd         next_read and next_write of src/evdp/io_base.c over the epoll driver, for
--                           both events by one definition, and os_fd_reset; Moves, Asks and Reset
--                           have the proofs.
--   Evdp/Queue/Destroy      neb_evdp_queue_destroy; Called has the proofs on the on_remove callbacks,
--                           Drained those on the lists.
--   Evdp/Timespec.antt      the macros of include/nebase/time.h on struct timespec.
--   Evdp/Timer.antt         struct neb_evdp_timer and the points of src/evdp/timer.c; the red-black
--                           tree is the interface RbTree of Timer/Tree, which a list in order fills.
--                           Invariant has the well-formed timer; Nodes, Place, Links, Spare and Leave the
--                           steps of adding and moving points, Points and Reset the operations.
--   Evdp/Timer/Run          evdp_timer_run_until; Calls, Due and Until have the proofs on callbacks
--                           that only answer. Nearest is about the timeout, Destroy on the end.
--   Evdp/Uring.antt         src/evdp/driver/io_uring over the same queue, with the polls in the
--                           ring. Flush, Detach and Asks have the proofs.
--   Random.antt             src/random.c: a bucket of ten slices, with bucket_put and bucket_pick;
--                           Ordered and Sunk have the proofs on the two reorderings, Draws those
--                           on whole operations. Random/Pools has the pool and the ring.
--   File/Copy.antt          src/file/copy.c; Chunks has the writing of one buffer, Whole the copy
--                           through the buffer, Transfer the choice between the ways to copy.
--   Str/Bm.antt             src/str/bm.c: the tables and both searches. Suffixes, Shifts, GoodSuffix
--                           and BadChar have the proofs on the tables, First the search against
--                           a search of every offset.
--   Net/Ipaddr.antt         src/net/ipaddr.c: the next address (Next) and netmasks (Mask).
--   Thread.antt             the registry of src/thread.c, over the interface IdTree of its tree, and the
--                           registries that threads reach; Registered has the proofs.
--   Pidfile.antt            src/pidfile.c with the file's text and the holder of its lock; Digits has
--                           the proofs on the printed pid, Locked those on two processes.
--
-- Bounds: the counters of a queue are natural numbers; a queue would need 2^31 sources before they
-- wrap. The loops of do_csum run once per unit of their input, by recursion on the number of units
-- left. A foreach is allowed as many steps as there are sources in the list, and one more. A run
-- of a timer has fuel for its nodes and for the points of each, and one round more suffices where
-- callbacks only answer; a callback that adds points to the node being run may keep the loop going
-- for ever. A search is given a round for each offset of the text. The loops of src/random.c run
-- along the ten slices. The loops around poll have a round for each interrupted call and one more. A
-- pid is printed with at most ten digits, enough below 10^10. The draws of arc4random_uniform, the answers of the kernel and the
-- callbacks of the user are arguments.
--
-- Not modelled: calls of the system and their errors beyond one answer per source, allocation
-- failures of neb_evdp_queue_create, log messages, the libraries under compat, which are copies
-- of other projects' code, the drivers for other systems than Linux, the handlers of the io_uring
-- driver, the reads of kernel tables in src/sock and src/stats, the control messages of
-- src/sock/inet.c, and neb_thread_create with its semaphore. The on_remove callbacks are noted, not
-- run, and of neb_evdp_source_del only the guard is modelled. A pid file's text has no sign.
pub mod Base
pub mod Sock
pub mod Evdp
pub mod File
pub mod Net
pub mod Pidfile
pub mod Random
pub mod Str
pub mod Thread
