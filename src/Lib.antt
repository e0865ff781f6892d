-- ===== src/Lib.antt =====
-- lthread: coroutines ("lthreads") that several schedulers, one to an operating system thread, run
-- and steal from one another.
--
-- Parts, and where they are modelled:
-- State: src/lthread_int.h and src/lthread_poller.h, the structures. Pointers to lthreads and
--   schedulers are numbers; all that the threads share is a `World`.
-- Intrusive: the calls of TAILQ and RB, copies of the BSD headers in src/queue.h and src/tree.h,
--   as a parameter: an interface with the documented behaviour, and lists as an instance. The
--   insertion at the end of a queue is documented for elements that are in no queue; its law does
--   not ask for that, so that a result on a run says nothing of the program after an element has been
--   inserted where it is already. Orderly runs, below, have no such insertion.
-- Sched: src/lthread.c. Sched.Ready: _lthread_sched_push_ready, _lthread_sched_pop_ready,
--   _lthread_pop_ready, _lthread_sched_wake. Sched.Sleep: _lthread_sched_sleep,
--   _lthread_schedule_expired, _lthread_wakeup, _lthread_min_timeout. Sched.Switch: lthread_create,
--   _lthread_resume, lthread_yield, _lthread_exit. Sched.Loop: the critical section of
--   _lthread_run_sched and the deep sleep of the pool. Sched.Pool: lthread_run up to the start of
--   its threads, and the choice of a scheduler. Sched.Calls: the calls of lthread.h, with the
--   assertions of _lthread_yield. Sched.Stack: _lthread_allocate, _lthread_free and
--   _lthread_madvise as compiled with USE_MINICORO 0. Sched.System: the threads of the schedulers
--   and the poller together, each of its steps one critical section, and what lthreads may do
--   meanwhile; Sched.System.Exclusive: where each lthread is, queue, tree or thread, on the way.
-- Poller: src/lthread_poller.c, the lthreads that wait for a descriptor; _lthread_wait_fd.
-- Backend: the interface of src/lthread_poller.h that src/lthread_epoll.c (Backend.Epoll) and
--   src/lthread_kqueue.c (Backend.Kqueue) fill, and the loop of the poller's thread over it
--   (Backend.Rounds), where what other threads do between its critical sections is a parameter.
-- Cond: src/lthread_cond.c; Cond.Protocol has its interleavings as a step relation, and
--   Cond.Protocol.Monitor the lock with a queue, a function of the calls, that Cond.Protocol.Refinement
--   compares with them. The mark is_blocked is one for all condition variables: in Cond.Protocol the
--   others may change it, but not in lthreads that are blocked in the one at hand.
-- Socket: src/lthread_socket.c. Socket.Transfer: receiving and sending; Socket.Open: descriptors
--   that are opened, accepted and connected; Socket.Waiting: the waits of both, by way of Poller.
-- Pthread: src/lthread_mutex.h and src/lthread_os_thread.h; Pthread.Shutdown: the threads of
--   lthread_run, and what it releases at its end.
-- Trace: _lthread_trace_event of src/lthread.c, and read_event of scripts/analyze_trace.py;
--   Trace.File: the file of a trace, as _lthread_sched_create makes it.
-- Heap: src/lthread_heap.h, a binary heap; no file includes it.
-- Prelude: shared names and lemmas. Tests: the theorems applied to small worlds.
--
-- A function of the model is one critical section under the mutexes of the source, from a world to
-- a world; a function that switches to another lthread is cut in two at the switch. `none` stands
-- for a failed assertion, or for fuel that has run out. The poller and the condition variables call
-- the push and the wake-up of Sched, the loop asks the poller for pending events, and the socket
-- calls wait by way of the poller.
--
-- Calls of the operating system (sockets, pthreads, epoll, kqueue, memory) are records of functions
-- on a state of the system, and a theorem that needs what their manual pages say takes it as a
-- record of laws. What other lthreads do while one waits for a descriptor is a parameter too.
--
-- Fuel: the search for a free wake-up time and the loop over expired sleepers take one unit for
-- each sleeper and one more, the heap's loops one for each level or item, and the loops of the
-- socket calls one for each system call; the theorems on them ask for that much, and give the
-- result. Numbers are unbounded, but times wrap at 2 ^ 64 and descriptors at 2 ^ 16 as in the
-- source.
--
-- Sched.System takes the section in which a scheduler waits as one step, with those of the poller's
-- mutex and the pool's inside it, and lets lthreads do, in any order, what Act lists: create, wake,
-- yield, exit, sleep, wait for a descriptor, and block. Sched.System.Exclusive asks the lthreads to be
-- orderly: one wakes another only if nobody holds that one, or if it is in its tree under its wake-up
-- time; it yields, sleeps, waits and ends only while nobody holds it; and memory that calloc gives to
-- a new one is not in use.
--
-- Not modelled: minicoro, which is not in the repository, src/libcontext.c, the macros of
-- src/queue.h and src/tree.h, the rest of scripts/analyze_trace.py, and the examples and tests.
pub mod Prelude
pub mod Intrusive
pub mod State
pub mod Sched
pub mod Poller
pub mod Cond
pub mod Heap
pub mod Socket
pub mod Pthread
pub mod Trace
pub mod Backend
pub mod Tests
