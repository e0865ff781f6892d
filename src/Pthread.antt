-- ===== src/Pthread.antt =====
-- src/lthread_mutex.h and src/lthread_os_thread.h: the wrappers of pthread calls. Pthreads are a
-- parameter; a call answers with an error number, 0 for none. `none` is a failed assertion.
pub mod Timeouts
pub mod Shutdown
use lthread_concurrent.Prelude.{
  ℕ, ◌*◌, ◌/◌, ◌%◌, Bool, true, false, Option, none, some, ◌==◌, if◌then◌else◌,
}

-- struct timespec
pub record Timespec : Type 0 where
  pub tv_sec : ℕ
  pub tv_nsec : ℕ

pub record Pthreads : Type 1 where
  pub State : Type 0
  pub ebusy : ℕ
  pub etimedout : ℕ
  -- Mutexes, condition variables and threads are numbers; these calls answer with a new one too.
  pub mutex_init : State → State × ℕ × ℕ
  pub mutex_destroy : State → (mutex : ℕ) → State × ℕ
  pub mutex_lock : State → (mutex : ℕ) → State × ℕ
  pub mutex_unlock : State → (mutex : ℕ) → State × ℕ
  pub mutex_trylock : State → (mutex : ℕ) → State × ℕ
  pub cond_init : State → State × ℕ × ℕ
  pub cond_wait : State → (cond mutex : ℕ) → State × ℕ
  pub cond_timedwait : State → (cond mutex : ℕ) → Timespec → State × ℕ
  pub cond_signal : State → (cond : ℕ) → State × ℕ
  pub thread_create : State → (func arg : ℕ) → State × ℕ × ℕ
  pub thread_join : State → (thread : ℕ) → State × ℕ

module _ (p : Pthreads) where
  open p use {State}

  -- assert(err == 0)
  abbrev pub checked : State × ℕ → Option State
  checked (s, err) = if err == 0 then some s else none

  -- lthread_mutex_create
  unfoldable pub lthread_mutex_create : State → Option (State × ℕ)
  lthread_mutex_create s =
      let (s', mutex, err) = p.mutex_init s in if err == 0 then some (s', mutex) else none

  -- lthread_mutex_destroy
  unfoldable pub lthread_mutex_destroy : State → (mutex : ℕ) → Option State
  lthread_mutex_destroy s mutex = checked (p.mutex_destroy s mutex)

  -- lthread_mutex_lock
  unfoldable pub lthread_mutex_lock : State → (mutex : ℕ) → Option State
  lthread_mutex_lock s mutex = checked (p.mutex_lock s mutex)

  -- lthread_mutex_unlock
  unfoldable pub lthread_mutex_unlock : State → (mutex : ℕ) → Option State
  lthread_mutex_unlock s mutex = checked (p.mutex_unlock s mutex)

  -- lthread_mutex_trylock, with its result
  unfoldable pub lthread_mutex_trylock : State → (mutex : ℕ) → Option (State × Bool)
  lthread_mutex_trylock s mutex =
      let (s', result) = p.mutex_trylock s mutex in
      if result == 0
      then some (s', true)
      else (if result == p.ebusy then some (s', false) else none)

  -- lthread_os_cond_create
  unfoldable pub lthread_os_cond_create : State → Option (State × ℕ)
  lthread_os_cond_create s =
      let (s', cond, err) = p.cond_init s in if err == 0 then some (s', cond) else none

  -- The point in time of lthread_os_cond_wait
  unfoldable pub timespec_of : (timeout_usec : ℕ) → Timespec
  timespec_of timeout_usec = record {
    tv_sec = timeout_usec / 1000000;
    tv_nsec = (timeout_usec % 1000000) * 1000;
  }

  -- lthread_os_cond_wait
  unfoldable pub lthread_os_cond_wait : State → (cond mutex timeout_usec : ℕ) → Option State
  unfolding timespec_of
  lthread_os_cond_wait s cond mutex timeout_usec =
      let (timed, err) = p.cond_timedwait s cond mutex (timespec_of timeout_usec) in
      let forever = checked (p.cond_wait s cond mutex) in
      if timeout_usec == 0
      then forever
      else (if err == p.etimedout then some timed else (if err == 0 then some timed else none))

  -- lthread_os_cond_signal
  unfoldable pub lthread_os_cond_signal : State → (cond : ℕ) → Option State
  lthread_os_cond_signal s cond = checked (p.cond_signal s cond)

  -- lthread_create_os_thread, with the thread and its result
  unfoldable pub lthread_create_os_thread : State → (func arg : ℕ) → State × ℕ × ℕ
  lthread_create_os_thread s func arg = p.thread_create s func arg

  -- lthread_join_os_thread
  unfoldable pub lthread_join_os_thread : State → (thread : ℕ) → State × ℕ
  lthread_join_os_thread s thread = p.thread_join s thread
