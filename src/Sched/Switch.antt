-- ===== src/Sched/Switch.antt =====
-- src/lthread.c: an lthread's life: it is created, switched to, yields and ends. What it does
-- between two switches is its own, and is left open. The build switches by minicoro.
pub mod Resumed
pub mod Sleepers
use lthread_concurrent.Prelude.{
  ℕ, Bool, true, false, ◌&&◌, not, Option, none, some, ◌==◌, if◌then◌else◌,
}
use lthread_concurrent.Intrusive.{Intrusive}
use lthread_concurrent.State.{Lthread, Flags, World, with_lt, with_sched}
use lthread_concurrent.Sched.Ready.{sched_push_ready_unsafe, insert_ready}

-- calloc's zero bytes
abbrev pub no_flags : Flags
no_flags = record {
  wait_read = false;
  wait_write = false;
  exited = false;
  sleeping = false;
  fdeof = false;
}

-- _lthread_allocate: a zeroed structure that belongs to scheduler `s`. The cache of structures is
-- empty in this build, for _lthread_free puts none there.
unfoldable pub allocate : ℕ → Lthread
allocate s = record {
  fun = 0;
  arg = 0;
  state = no_flags;
  sched = s;
  fd_wait = 0;
  sleep_usecs = 0;
  is_blocked = false;
  is_running = false;
  needs_resched = false;
  allocated = true;
}

module _ ⦃i : Intrusive⦄ where
  -- lthread_create by the thread of scheduler `cur`, if it has one; `mem` is the address that calloc
  -- answers, if any. The result is `*new_lt`, and `none` for a failure.
  unfoldable pub create : World → (cur mem : Option ℕ) → (fun arg : ℕ) → World × Option ℕ
  unfolding allocate
  create w none mem fun arg = (w, none)
  create w (some s) none fun arg = (w, none)
  create w (some s) (some lt) fun arg =
      let l = record (allocate s) {
        is_running = false;
        is_blocked = false;
        fun = fun;
        arg = arg;
      } in
      (sched_push_ready_unsafe (with_lt w lt l) s lt, some lt)

  -- lthread_yield up to the switch
  unfoldable pub yield_resched : World → ℕ → World
  yield_resched w lt = with_lt w lt (record (w.lts lt) { needs_resched = true })

  -- _lthread_exit up to the switch
  unfoldable pub exit : World → ℕ → World
  exit w lt =
      with_lt w lt (record (w.lts lt) { state = record ((w.lts lt).state) { exited = true } })

  -- _lthread_resume up to the switch, by the thread of scheduler `s`; `none` is a failed assertion.
  unfoldable pub resume : World → (s lt : ℕ) → Option World
  resume w s lt =
      if (w.lts lt).sched == s && not (w.lts lt).is_running
      then some (
          with_lt (with_sched w s (record (w.scheds s) { current_lthread = some lt })) lt
            (record (w.lts lt) { is_running = true }))
      else none

  -- The bookkeeping of _lthread_resume after the switch: it runs no more, and does not sleep.
  unfoldable pub switched_out : World → (s lt : ℕ) → World
  switched_out w s lt =
      let l = w.lts lt in
      with_lt (with_sched w s (record (w.scheds s) { current_lthread = none })) lt (record l {
        is_running = false;
        state = record (l.state) { sleeping = false };
        sleep_usecs = 0;
      })

  -- Then it is queued again if it asked for that
  unfoldable pub requeue : World → ℕ → World
  unfolding insert_ready
  requeue w lt =
      if (w.lts lt).needs_resched
      then (let w' = insert_ready w lt in
          with_lt w' lt (record (w'.lts lt) { needs_resched = false }))
      else w

  -- and freed if it has exited, as _lthread_free does with minicoro; without, it gives the structure to
  -- the scheduler's cache instead, which is Sched.Stack.
  unfoldable pub reap : World → ℕ → World
  reap w lt =
      if (w.lts lt).state.exited then with_lt w lt (record (w.lts lt) { allocated = false }) else w

  -- _lthread_resume after the switch
  unfoldable pub resumed : World → (s lt : ℕ) → World
  unfolding switched_out requeue reap
  resumed w s lt = reap (requeue (switched_out w s lt) lt) lt
