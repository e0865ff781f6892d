-- ===== src/Sched/Sleep.antt =====
-- src/lthread.c: the tree of sleeping lthreads, and wake-ups. `now` is the answer of gettimeofday
-- in microseconds, and words of 64 bits wrap.
pub mod Insert
pub mod Expired
pub mod Due
pub mod Invariant
pub mod Wakeup
use lthread_concurrent.Prelude.{
  ℕ, zero, suc, ◌+◌, ◌*◌, ◌%◌, ◌^◌, true, Option, none, some, ◌==◌, leb, ltb, if◌then◌else◌,
}
use lthread_concurrent.Intrusive.{Intrusive}
use lthread_concurrent.State.{World, with_lt, with_sched}
use lthread_concurrent.Sched.Ready.{sched_push_ready_unsafe}

-- uint64_t
abbrev pub u64 : ℕ → ℕ
u64 n = n % 2 ^ 64

module _ ⦃i : Intrusive⦄ where
  open i use {Tree, rb_insert, rb_remove, rb_min}

  -- `while (RB_INSERT(lthread_rb_sleep, &sched->sleeping, lt)) ++lt->sleep_usecs;` with the tree
  -- and `sleep_usecs` that it leaves; `none` means that the fuel ran out.
  unfoldable pub insert_sleeping : ℕ → Tree → (k lt : ℕ) → Option (Tree × ℕ)
  insert_sleeping zero t k lt = none
  insert_sleeping (suc f) t k lt =
      let rest = insert_sleeping f t (u64 (k + 1)) lt in
      let (t', taken) = rb_insert t k lt in elim taken [ none ↦ some (t', k) | some y ↦ rest ]

  -- What the insertion leaves: the tree `t`, with `lt` in it under its wake-up time `k`.
  unfoldable pub fall_asleep : World → (lt k : ℕ) → Tree → World
  fall_asleep w lt k t =
      let l = w.lts lt in
      with_sched
        (with_lt w lt (record l { state = record (l.state) { sleeping = true }; sleep_usecs = k }))
        l.sched (record (w.scheds l.sched) { sleeping = t })

  -- _lthread_sched_sleep up to the call of _lthread_yield
  unfoldable pub sched_sleep : ℕ → World → (lt msecs now : ℕ) → Option World
  unfolding insert_sleeping fall_asleep
  sched_sleep f w lt msecs now =
      let l = w.lts lt in
      let usecs = u64 (msecs * 1000) in
      if msecs == 0
      then some (
          with_lt w lt (record l { state = record (l.state) { sleeping = true }; sleep_usecs = 0 }))
      else elim (insert_sleeping f (w.scheds l.sched).sleeping (u64 (now + usecs)) lt) [
        | none ↦ none
        | some (t, k) ↦ some (fall_asleep w lt k t)
      ]

  -- RB_REMOVE(lthread_rb_sleep, &lt->sched->sleeping, lt)
  unfoldable pub remove_sleeping : World → ℕ → World
  remove_sleeping w lt =
      let s = (w.lts lt).sched in
      with_sched w s (record (w.scheds s) { sleeping = rb_remove (w.scheds s).sleeping lt })

  -- _lthread_desched_sleep_unsafe
  unfoldable pub desched_sleep_unsafe : World → ℕ → World
  unfolding remove_sleeping
  desched_sleep_unsafe w lt = sched_push_ready_unsafe (remove_sleeping w lt) (w.lts lt).sched lt

  -- One round of _lthread_wakeup, with the scheduler that it read before it took the mutex; `none`
  -- means that the lthread has moved meanwhile, and that it must try again.
  unfoldable pub wakeup_round : World → (s lt : ℕ) → Option World
  unfolding desched_sleep_unsafe
  wakeup_round w s lt =
      if (w.lts lt).sched == s
      then some (
          if (w.lts lt).sleep_usecs == 0
          then sched_push_ready_unsafe w s lt
          else desched_sleep_unsafe w lt)
      else none

  -- The loop of _lthread_schedule_expired; `none` means that the fuel ran out.
  unfoldable pub schedule_expired : ℕ → World → (s now : ℕ) → Option World
  unfolding desched_sleep_unsafe
  schedule_expired zero w s now = none
  schedule_expired (suc f) w s now = elim (rb_min (w.scheds s).sleeping) [
    | none ↦ some w
    | some lt ↦
        let rest = schedule_expired f (desched_sleep_unsafe w lt) s now in
        if leb (w.lts lt).sleep_usecs now then rest else some w
  ]

  -- _lthread_min_timeout: the time at which to end the wait at the latest
  unfoldable pub min_timeout : World → (s now : ℕ) → ℕ
  min_timeout w s now = elim (rb_min (w.scheds s).sleeping) [
    | none ↦ 1
    | some lt ↦ if ltb now (w.lts lt).sleep_usecs then (w.lts lt).sleep_usecs else 1
  ]
