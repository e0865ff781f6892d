-- ===== src/Sched/Loop.antt =====
-- src/lthread.c, _lthread_run_sched: how a scheduler waits when it has nothing to run, and how the
-- schedulers agree that all work is done.
use lthread_concurrent.Prelude.{
  ℕ, zero, suc, ◌+◌, Bool, true, false, not, ◌&&◌, ◌==◌, if◌then◌else◌,
}
use lthread_concurrent.Intrusive.{Intrusive}
use lthread_concurrent.State.{
  World, BlockState, will_block, wont_block, is_blocking, update, with_sched, with_pool,
}
use lthread_concurrent.Sched.Ready.{pool_end_deep_sleep, sched_wake_unsafe}
use lthread_concurrent.Sched.Sleep.{min_timeout}

-- How the critical section of the loop ends: the loop goes on, the thread waits (in deep sleep
-- with no time limit, otherwise until `timeout`), or the loop is left.
pub data Outcome : Type 0 where
  again : Outcome
  waits : (deep : Bool) (timeout : ℕ) → Outcome
  finished : Outcome

-- `for (i = 0; all_done && i < num_schedulers; ++i) if (asleep[i] == false) all_done = false;`
-- with the number of rounds left.
unfoldable pub all_asleep : (ℕ → Bool) → (rounds i : ℕ) → Bool
all_asleep asleep zero i = true
all_asleep asleep (suc n) i =
    let rest = all_asleep asleep n (i + 1) in if asleep i then rest else false

module _ ⦃i : Intrusive⦄ where
  open i use {rb_empty, tailq_empty}

  -- _lthread_sched_isdone
  unfoldable pub sched_isdone : World → ℕ → Bool
  sched_isdone w s = rb_empty (w.scheds s).sleeping && tailq_empty (w.scheds s).ready

  -- lthread_poller_has_pending_events
  unfoldable pub has_pending_events : World → Bool
  has_pending_events w = not (w.pool.poller.num_pending_events == 0)

  -- _lthread_pool_begin_deep_sleep: the flag set, and whether it was the last.
  unfoldable pub pool_begin_deep_sleep : World → ℕ → World × Bool
  unfolding all_asleep
  pool_begin_deep_sleep w s =
      let asleep = update w.pool.asleep (w.scheds s).id true in
      (with_pool w (record (w.pool) { asleep = asleep }), all_asleep asleep w.pool.num_schedulers 0)

  -- sched->block_state = b
  unfoldable pub set_block_state : World → ℕ → BlockState → World
  set_block_state w s b = with_sched w s (record (w.scheds s) { block_state = b })

  -- The branch of the critical section that is taken when the scheduler has not been told of work.
  unfoldable pub begin_wait : World → (s now : ℕ) → World × Outcome
  unfolding sched_isdone has_pending_events pool_begin_deep_sleep set_block_state
  begin_wait w s now =
      let w' = set_block_state w s is_blocking in
      if sched_isdone w' s && not (has_pending_events w')
      then (let (v, all_done) = pool_begin_deep_sleep w' s in
          if all_done then (set_block_state v s will_block, finished) else (v, waits true 0))
      else (w', waits false (min_timeout w' s now))

  -- The critical section of _lthread_run_sched, up to the wait
  unfoldable pub try_wait : World → (s now : ℕ) → World × Outcome
  unfolding begin_wait set_block_state
  try_wait w s now = elim ((w.scheds s).block_state) [
    | wont_block ↦ (set_block_state w s will_block, again)
    | _ ↦ begin_wait w s now
  ]

  -- and from the return of lthread_os_cond_wait, which takes the signal, to its end.
  unfoldable pub end_wait : World → (s : ℕ) → (deep : Bool) → World
  unfolding pool_end_deep_sleep
  end_wait w s deep =
      let w' = if deep then pool_end_deep_sleep w s else w in
      with_sched w' s (record (w'.scheds s) { block_state = will_block; signalled = false })

  -- What _lthread_run_sched does after its loop
  unfoldable pub leave : World → ℕ → World
  unfolding sched_wake_unsafe
  leave w s = let n = (w.scheds s).sched_neighbor in if n == s then w else sched_wake_unsafe w n
