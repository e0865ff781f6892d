-- ===== src/Pthread/Timeouts.antt =====
-- src/lthread_mutex.h, lthread_os_cond_wait, as _lthread_run_sched calls it in src/lthread.c.
use lthread_concurrent.Prelude.{
  Option-cases, Bool-cases, ltb, inl, inr, ℕ, ◌+◌, ◌*◌, ◌/◌, ◌≤◌, ◌<◌, ◌≡◌, ◌⊎◌, arith, none, some,
}
use lthread_concurrent.Intrusive.{Intrusive, first_id}
use lthread_concurrent.State.{World}
use lthread_concurrent.Sched.Sleep.{min_timeout}
use lthread_concurrent.Pthread.{Timespec, Pthreads, timespec_of, lthread_os_cond_wait}

-- What pthread_cond_wait(3) says: a wait with a proper point in time ends by a signal or at that time.
pub record Waits (p : Pthreads) : Type 0 where
  pub cond_timedwait :
      (s : p.State) (cond mutex : ℕ) (t : Timespec)
      → t.tv_nsec < 1000000000
      → ((p.cond_timedwait s cond mutex t).1 ≡ 0)
        ⊎ ((p.cond_timedwait s cond mutex t).1 ≡ p.etimedout)
  pub cond_wait : (s : p.State) (cond mutex : ℕ) → (p.cond_wait s cond mutex).1 ≡ 0

-- The time in microseconds
abbrev pub usecs_of : Timespec → ℕ
usecs_of t = t.tv_sec * 1000000 + t.tv_nsec / 1000

timespec_proper :
    (p : Pthreads) (usecs : ℕ)
    → ((timespec_of p usecs).tv_nsec < 1000000000) × (usecs_of (timespec_of p usecs) ≡ usecs)
unfolding timespec_of
timespec_proper p usecs = (omega arith, omega arith)

-- A wait with a time limit
timed_wait_ends :
    (p : Pthreads) (c : Waits p) (s : p.State) (cond mutex usecs : ℕ)
    → 0 < usecs
    → lthread_os_cond_wait p s cond mutex usecs
      ≡ some (p.cond_timedwait s cond mutex (timespec_of p usecs)).0
unfolding lthread_os_cond_wait
timed_wait_ends p c s cond mutex usecs l =
    ground (arith, c.cond_timedwait s cond mutex (timespec_of p usecs), timespec_proper p usecs)

-- A wait without one
endless_wait_ends :
    (p : Pthreads) (c : Waits p) (s : p.State) (cond mutex : ℕ)
    → lthread_os_cond_wait p s cond mutex 0 ≡ some (p.cond_wait s cond mutex).0
unfolding lthread_os_cond_wait
endless_wait_ends p c s cond mutex = ground (arith, c.cond_wait s cond mutex)

module _ ⦃i : Intrusive⦄ where
  open i use {entries, rb_min, rb_min_lem}

  -- What a scheduler waits for: the wake-up time of its first sleeper, if that is still to come; or
  -- nothing, if it has come or if nobody sleeps, for 1 is long past.
  abbrev pub AwaitsFirst : World → (s now timeout : ℕ) → Type 0
  AwaitsFirst w s now timeout =
      ((lt : ℕ) × (first_id (entries (w.scheds s).sleeping) ≡ some lt)
        × (now < (w.lts lt).sleep_usecs)
        × (timeout ≡ (w.lts lt).sleep_usecs))
      ⊎ (((first_id (entries (w.scheds s).sleeping) ≡ none)
            ⊎ ((lt : ℕ) × (first_id (entries (w.scheds s).sleeping) ≡ some lt)
                × ((w.lts lt).sleep_usecs ≤ now)))
          × (timeout ≡ 1))

  min_timeout-AwaitsFirst : (w : World) (s now : ℕ) → AwaitsFirst w s now (min_timeout w s now)
  unfolding min_timeout
  min_timeout-AwaitsFirst w s now = elim (Option-cases (first_id (entries (w.scheds s).sleeping))) [
    | inl e ↦ inr (inl e, ground (arith, rb_min_lem (w.scheds s).sleeping))
    | inr (lt, e) ↦ elim (Bool-cases (ltb now (w.lts lt).sleep_usecs)) [
      | inl l ↦ inl (lt, e, ground arith, ground (arith, rb_min_lem (w.scheds s).sleeping))
      | inr g ↦ inr (inr (lt, e, ground arith), ground (arith, rb_min_lem (w.scheds s).sleeping))
    ]
  ]

module _ ⦃i : Intrusive⦄ (p : Pthreads) (c : Waits p) where
  -- Let pthreads behave as their manual page says. Outside deep sleep the time limit that a
  -- scheduler computes is never 0, which would mean none; it is handed to pthread_cond_timedwait as a
  -- proper point in time, exact to the microsecond, and no assertion fails. It is the wake-up time of
  -- the first sleeper if that is still to come; if it has come, or if nobody sleeps, it is 1, which
  -- is long past. With the limit 0 of deep sleep the wait is one by pthread_cond_wait, and no
  -- assertion fails.
  pub sched_wait_ends :
      (w : World) (s now : ℕ) (x : p.State) (cond mutex : ℕ)
      → let timeout = min_timeout w s now in
        (0 < timeout)
        × ((timespec_of p timeout).tv_nsec < 1000000000)
        × (usecs_of (timespec_of p timeout) ≡ timeout)
        × (lthread_os_cond_wait p x cond mutex timeout
            ≡ some (p.cond_timedwait x cond mutex (timespec_of p timeout)).0)
        × AwaitsFirst w s now timeout
        × (lthread_os_cond_wait p x cond mutex 0 ≡ some (p.cond_wait x cond mutex).0)
  unfolding min_timeout
  sched_wait_ends w s now x cond mutex =
      let t = min_timeout w s now in
      let pos : 0 < t = ground arith in
      (
        pos,
        (timespec_proper p t).0,
        (timespec_proper p t).1,
        timed_wait_ends p c x cond mutex t pos,
        min_timeout-AwaitsFirst w s now,
        endless_wait_ends p c x cond mutex,
      )
