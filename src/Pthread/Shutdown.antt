-- ===== src/Pthread/Shutdown.antt =====
-- The threads of src/lthread.c's lthread_run, from their start to the release of what it has
-- allocated, with lthread_poller_start and lthread_poller_close of src/lthread_poller.c and
-- lthread_cond_free of src/lthread_cond.c. Functions and structures that are handed to threads are
-- numbers. `none` is a failed assertion.
use lthread_concurrent.Prelude.{ℕ, Bool, Option, none, some, List, [], ◌∷◌, ◌==◌, if◌then◌else◌}
use lthread_concurrent.Pthread.{
  Pthreads, lthread_mutex_destroy, lthread_create_os_thread, lthread_join_os_thread,
}

module _ (p : Pthreads) where
  open p use {State}

  -- The other calls of the system
  pub record Process : Type 0 where
    pub close : State → (fd : ℕ) → State
    pub munmap : State → (address size : ℕ) → State
    pub free : State → (address : ℕ) → State

  -- What lthread_poller_t keeps of the system: 0 where memset has left it
  pub record PollerHandles : Type 0 where
    pub poller_fd : ℕ
    pub eventfd : ℕ
    pub thread : ℕ

  -- A struct lthread_sched: its address, and what is mapped for its trace
  pub record SchedHandles : Type 0 where
    pub address : ℕ
    pub trace_fd : ℕ
    pub trace_ptr : ℕ
    pub trace_size : ℕ

  module _ (o : Process) where
    -- lthread_poller_start
    unfoldable pub poller_start :
        State → (threadfun poller : ℕ) → PollerHandles → State × PollerHandles
    poller_start s threadfun poller h =
        let (s', thread, err) = lthread_create_os_thread p s threadfun poller in
        (s', record h { thread = thread })

    -- lthread_poller_close, where there is an eventfd
    unfoldable pub poller_close : State → PollerHandles → State
    poller_close s h =
        (lthread_join_os_thread p (o.close (o.close s h.poller_fd) h.eventfd) h.thread).0

    -- _lthread_sched_free; the trace is unmapped with LTHREAD_TRACE only.
    unfoldable pub sched_free : (tracing : Bool) → State → SchedHandles → State
    sched_free tracing s h =
        let s' =
          (if tracing
            then (if h.trace_fd == 0
                then s
                else o.close (o.munmap s h.trace_ptr h.trace_size) h.trace_fd)
            else s) in
        o.free s' h.address

    -- lthread_cond_free
    unfoldable pub cond_free : State → (mutex address : ℕ) → Option State
    cond_free s mutex address = elim (lthread_mutex_destroy p s mutex) [
      | none ↦ none
      | some s' ↦ some (o.free s' address)
    ]

    -- The loop of lthread_run that starts a thread for each scheduler but the first one
    unfoldable pub start_threads : State → (run_sched : ℕ) → List SchedHandles → State × List ℕ
    start_threads s run_sched [] = (s, [])
    start_threads s run_sched (h ∷ hs) =
        let (s', thread, err) = lthread_create_os_thread p s run_sched h.address in
        let (s'', threads) = start_threads s' run_sched hs in (s'', thread ∷ threads)

    -- The two loops at its end
    unfoldable pub join_threads : State → List ℕ → State
    join_threads s [] = s
    join_threads s (t ∷ ts) = join_threads (lthread_join_os_thread p s t).0 ts

    unfoldable pub free_scheds : (tracing : Bool) → State → List SchedHandles → State
    unfolding sched_free
    free_scheds tracing s [] = s
    free_scheds tracing s (h ∷ hs) = free_scheds tracing (sched_free tracing s h) hs

    -- lthread_run from the start of the threads on. `main_loop` is _lthread_run_sched of the first
    -- scheduler, `first`, whose state the other threads change meanwhile.
    unfoldable pub run_threads :
        (tracing : Bool)
        → State
        → (run_sched threadfun poller : ℕ) → (main_loop : State → State)
        → (first : SchedHandles) (others : List SchedHandles) → PollerHandles
        → State
    unfolding start_threads poller_start join_threads free_scheds poller_close
    run_threads tracing s run_sched threadfun poller main_loop first others h =
        let (s1, threads) = start_threads s run_sched others in
        let (s2, h') = poller_start s1 threadfun poller h in
        let s3 = join_threads (main_loop s2) threads in
        poller_close (free_scheds tracing s3 (first ∷ others)) h'
