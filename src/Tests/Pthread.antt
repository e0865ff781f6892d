-- ===== src/Tests/Pthread.antt =====
-- The theorem on the time limits of waits, applied: pthreads whose waits run into their time limit.
use lthread_concurrent.Prelude.{ℕ, suc, ◌≡◌, ◌<◌, refl, some, inr}
use lthread_concurrent.Intrusive.Lists.{lists}
use lthread_concurrent.Sched.Sleep.{min_timeout}
use lthread_concurrent.Pthread.{Pthreads, timespec_of, lthread_os_cond_wait}
use lthread_concurrent.Pthread.Timeouts.{Waits, AwaitsFirst, usecs_of, sched_wait_ends}
use lthread_concurrent.Tests.Worlds.{quiet}

-- The state counts the calls.
abbrev timing_out : Pthreads
timing_out = record {
  State = ℕ;
  ebusy = 16;
  etimedout = 110;
  mutex_init = λ s. (suc s, s, 0);
  mutex_destroy = λ s m. (suc s, 0);
  mutex_lock = λ s m. (suc s, 0);
  mutex_unlock = λ s m. (suc s, 0);
  mutex_trylock = λ s m. (suc s, 0);
  cond_init = λ s. (suc s, s, 0);
  cond_wait = λ s c m. (suc s, 0);
  cond_timedwait = λ s c m t. (suc s, 110);
  cond_signal = λ s c. (suc s, 0);
  thread_create = λ s f a. (suc s, s, 0);
  thread_join = λ s t. (suc s, 0);
}

timing_out-Waits : Waits timing_out
timing_out-Waits = record { cond_timedwait = λ s c m t l. inr refl; cond_wait = λ s c m. refl }

sched_wait_ends_example :
    let timeout = min_timeout quiet 0 50 in
    (0 < timeout)
    × ((timespec_of timing_out timeout).tv_nsec < 1000000000)
    × (usecs_of (timespec_of timing_out timeout) ≡ timeout)
    × (lthread_os_cond_wait timing_out 3 1 2 timeout ≡ some 4)
    × AwaitsFirst quiet 0 50 timeout
    × (lthread_os_cond_wait timing_out 3 1 2 0 ≡ some 4)
sched_wait_ends_example = sched_wait_ends timing_out timing_out-Waits quiet 0 50 3 1 2
