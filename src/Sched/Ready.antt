-- ===== src/Sched/Ready.antt =====
-- src/lthread.c: the ready queues, and how a scheduler is told that one has changed.
pub mod Push
pub mod Pop
use lthread_concurrent.Prelude.{
  ℕ, zero, suc, Bool, true, false, ◌||◌, Option, none, some, ◌==◌, if◌then◌else◌,
}
use lthread_concurrent.Intrusive.{Intrusive}
use lthread_concurrent.State.{
  World, will_block, wont_block, is_blocking, update, with_lt, with_sched, with_pool,
}

-- The test `current_lthread == lt`.
abbrev pub is_lt : Option ℕ → ℕ → Bool
is_lt none lt = false
is_lt (some c) lt = c == lt

module _ ⦃i : Intrusive⦄ where
  open i use {tailq_first, tailq_remove, tailq_insert_tail}

  -- _lthread_pool_end_deep_sleep
  unfoldable pub pool_end_deep_sleep : World → ℕ → World
  pool_end_deep_sleep w s =
      with_pool w (record (w.pool) { asleep = update w.pool.asleep (w.scheds s).id false })

  -- lthread_os_cond_signal on the condition variable of a scheduler
  unfoldable pub os_cond_signal : World → ℕ → World
  os_cond_signal w s = with_sched w s (record (w.scheds s) { signalled = true })

  -- _lthread_sched_wake_unsafe; _lthread_sched_wake is the same under the mutex.
  unfoldable pub sched_wake_unsafe : World → ℕ → World
  unfolding pool_end_deep_sleep os_cond_signal
  sched_wake_unsafe w s = elim ((w.scheds s).block_state) [
    | will_block ↦ with_sched w s (record (w.scheds s) { block_state = wont_block })
    | wont_block ↦ w
    | is_blocking ↦ os_cond_signal (pool_end_deep_sleep w s) s
  ]

  -- TAILQ_INSERT_TAIL(&lt->sched->ready, lt, ready_next)
  unfoldable pub insert_ready : World → ℕ → World
  insert_ready w lt =
      let s = (w.lts lt).sched in
      with_sched w s (record (w.scheds s) { ready = tailq_insert_tail (w.scheds s).ready lt })

  -- _lthread_sched_push_ready_unsafe; _lthread_sched_push_ready is the same under the mutex.
  unfoldable pub sched_push_ready_unsafe : World → ℕ → ℕ → World
  unfolding sched_wake_unsafe insert_ready
  sched_push_ready_unsafe w s lt =
      sched_wake_unsafe
        (if is_lt (w.scheds (w.lts lt).sched).current_lthread lt
          then with_lt w lt (record (w.lts lt) { needs_resched = true })
          else insert_ready w lt)
        s

  -- _lthread_desched_event
  unfoldable pub desched_event : World → ℕ → World
  desched_event w lt = sched_push_ready_unsafe w (w.lts lt).sched lt

  -- _lthread_sched_pop_ready: `free` is the answer of trylock, asked for without `block` only.
  unfoldable pub sched_pop_ready : World → ℕ → (block free : Bool) → World × Option ℕ
  sched_pop_ready w s block free =
      if block || free
      then elim (tailq_first (w.scheds s).ready) [
        | none ↦ (w, none)
        | some lt ↦ (
          with_sched w s (record (w.scheds s) { ready = tailq_remove (w.scheds s).ready lt }),
          some lt,
        )
      ]
      else (w, none)

  -- The loop of _lthread_pop_ready over the ring, from scheduler `j`; `free` says whose mutex
  -- trylock gets. `none` means that the fuel ran out.
  unfoldable pub pop_neighbors : ℕ → World → (ℕ → Bool) → (s j : ℕ) → Option (World × Option ℕ)
  unfolding sched_pop_ready
  pop_neighbors zero w free s j = none
  pop_neighbors (suc f) w free s j =
      let rest = pop_neighbors f w free s (w.scheds j).sched_neighbor in
      if j == s
      then some (w, none)
      else (let (w', found) = sched_pop_ready w j false (free j) in
          elim found [ none ↦ rest | some lt ↦ some (w', some lt) ])

  -- What _lthread_pop_ready does with its find.
  unfoldable pub adopt : World → ℕ → Option ℕ → World × Option ℕ
  unfolding sched_wake_unsafe
  adopt w s none = (w, none)
  adopt w s (some lt) =
      let n = (w.scheds s).sched_neighbor in
      let w' = if n == s then w else sched_wake_unsafe w n in
      (with_lt w' lt (record (w'.lts lt) { sched = s }), some lt)

  -- The second half: the own queue once more, now waiting for the mutex, if nothing is found.
  unfoldable pub pop_own_last : ℕ → World × Option ℕ → World × Option ℕ
  unfolding sched_pop_ready adopt
  pop_own_last s (w, some lt) = adopt w s (some lt)
  pop_own_last s (w, none) = let r = sched_pop_ready w s true true in adopt r.0 s r.1

  -- _lthread_pop_ready by the thread of scheduler `s`
  unfoldable pub pop_ready : ℕ → World → (ℕ → Bool) → ℕ → Option (World × Option ℕ)
  unfolding sched_pop_ready pop_neighbors pop_own_last
  pop_ready f w free s =
      let (w', found) = sched_pop_ready w s false (free s) in
      elim found [
        | some lt ↦ some (pop_own_last s (w', some lt))
        | none ↦ elim (pop_neighbors f w' free s (w'.scheds s).sched_neighbor) [
          | none ↦ none
          | some r ↦ some (pop_own_last s r)
        ]
      ]
