-- ===== src/Sched/Ready/Push.antt =====
-- src/lthread.c, _lthread_sched_push_ready_unsafe and _lthread_sched_wake_unsafe: what becomes of
-- the lthread, and of the scheduler that is told.
use lthread_concurrent.Prelude.{
  ◌≡◌, ◌≢◌, true, false, [], ◌∷◌, ◌++◌, arith, ◌⊎◌, inl, inr, Bool-cases, ℕ, count, count-append,
}
use lthread_concurrent.Intrusive.{Intrusive}
use lthread_concurrent.State.{World, Sched, wont_block, is_blocking}
use lthread_concurrent.Sched.Ready.{sched_push_ready_unsafe, sched_wake_unsafe, is_lt}

module _ ⦃i : Intrusive⦄ where
  open i use {elems, elems-tailq_insert_tail}

  -- The scheduler will not wait without another look at its queues: it has been told before it
  -- waits, or its wait is over.
  abbrev pub IsAlert : Sched → Type 0
  IsAlert x = (x.block_state ≡ wont_block) ⊎ ((x.block_state ≡ is_blocking) × (x.signalled ≡ true))

  -- What a wake-up and a push leave alone.
  pub record Keeps (w w' : World) : Type 0 where
    pub sleep_usecs : (x : ℕ) → (w'.lts x).sleep_usecs ≡ (w.lts x).sleep_usecs
    pub state : (x : ℕ) → (w'.lts x).state ≡ (w.lts x).state
    pub is_blocked : (x : ℕ) → (w'.lts x).is_blocked ≡ (w.lts x).is_blocked
    pub fd_wait : (x : ℕ) → (w'.lts x).fd_wait ≡ (w.lts x).fd_wait
    pub poller : w'.pool.poller ≡ w.pool.poller
    pub sched : (x : ℕ) → (w'.lts x).sched ≡ (w.lts x).sched
    pub sleeping : (j : ℕ) → (w'.scheds j).sleeping ≡ (w.scheds j).sleeping
    pub current_lthread : (j : ℕ) → (w'.scheds j).current_lthread ≡ (w.scheds j).current_lthread
    pub sched_neighbor : (j : ℕ) → (w'.scheds j).sched_neighbor ≡ (w.scheds j).sched_neighbor

  pub push_ready-Keeps : (w : World) (s lt : ℕ) → Keeps w (sched_push_ready_unsafe w s lt)
  unfolding sched_push_ready_unsafe
  push_ready-Keeps w s lt = record {
    sleep_usecs = λ x. ground arith;
    state = λ x. ground arith;
    is_blocked = λ x. ground arith;
    fd_wait = λ x. ground arith;
    poller = ground arith;
    sched = λ x. ground arith;
    sleeping = λ j. ground arith;
    current_lthread = λ j. ground arith;
    sched_neighbor = λ j. ground arith;
  }

  pub wake-IsAlert : (w : World) (s : ℕ) → IsAlert ((sched_wake_unsafe w s).scheds s)
  unfolding sched_wake_unsafe
  wake-IsAlert w s = ground arith

  -- An lthread that is not the current one of its scheduler goes to the end of its queue.
  pub push_ready_queues :
      (w : World) (s lt : ℕ)
      → is_lt (w.scheds (w.lts lt).sched).current_lthread lt ≡ false
      → let w' = sched_push_ready_unsafe w s lt in
        (elems (w'.scheds (w.lts lt).sched).ready
          ≡ elems (w.scheds (w.lts lt).sched).ready ++ lt ∷ [])
        × (w'.lts ≡ w.lts)
        × ((j : ℕ) → (w.lts lt).sched ≢ j → (w'.scheds j).ready ≡ (w.scheds j).ready)
        × IsAlert (w'.scheds s)
  unfolding sched_push_ready_unsafe
  push_ready_queues w s lt h = (
    ground (arith, elems-tailq_insert_tail (w.scheds (w.lts lt).sched).ready lt),
    ground arith,
    (λ j n. ground arith),
    ground arith,
  )

  -- The current one is marked instead, and no queue changes.
  pub push_ready_marks :
      (w : World) (s lt : ℕ)
      → is_lt (w.scheds (w.lts lt).sched).current_lthread lt ≡ true
      → let w' = sched_push_ready_unsafe w s lt in
        ((w'.lts lt).needs_resched ≡ true)
        × ((j : ℕ) → (w'.scheds j).ready ≡ (w.scheds j).ready)
        × IsAlert (w'.scheds s)
  unfolding sched_push_ready_unsafe
  push_ready_marks w s lt h = (ground arith, (λ j. ground arith), ground arith)

  -- Either way the lthread will run again.
  abbrev pub IsWoken : World → World → ℕ → Type 0
  IsWoken w w' lt =
      let s = (w.lts lt).sched in
      ((is_lt (w.scheds s).current_lthread lt ≡ false)
        × (elems (w'.scheds s).ready ≡ elems (w.scheds s).ready ++ lt ∷ []))
      ⊎ ((is_lt (w.scheds s).current_lthread lt ≡ true) × ((w'.lts lt).needs_resched ≡ true))

  -- A pushed lthread goes to the end of its scheduler's queue if it is not the current lthread there,
  -- and is marked to be queued again if it is.
  pub push_ready-IsWoken : (w : World) (s lt : ℕ) → IsWoken w (sched_push_ready_unsafe w s lt) lt
  push_ready-IsWoken w s lt =
      elim (Bool-cases (is_lt (w.scheds (w.lts lt).sched).current_lthread lt)) [
        | inl cur ↦ inr (cur, (push_ready_marks w s lt cur).0)
        | inr other ↦ inl (other, (push_ready_queues w s lt other).0)
      ]

  pub push_ready-IsAlert :
      (w : World) (s lt : ℕ) → IsAlert ((sched_push_ready_unsafe w s lt).scheds s)
  unfolding sched_push_ready_unsafe
  push_ready-IsAlert w s lt = ground arith

  -- An lthread that is not woken: it is as often in each queue as before, and is not asked to be queued
  -- again if it was not.
  pub record IsLeft (w w' : World) (x : ℕ) : Type 0 where
    pub queues : (j : ℕ) → count x (elems (w'.scheds j).ready) ≡ count x (elems (w.scheds j).ready)
    pub needs_resched : (w'.lts x).needs_resched ≡ (w.lts x).needs_resched

  pub push_ready-IsLeft :
      (w : World) (s lt x : ℕ) → lt ≢ x → IsLeft w (sched_push_ready_unsafe w s lt) x
  unfolding sched_push_ready_unsafe
  push_ready-IsLeft w s lt x d =
      let ready = (w.scheds (w.lts lt).sched).ready in
      record {
        queues = λ j.
            ground
              (arith, elems-tailq_insert_tail ready lt, count-append x (elems ready) (lt ∷ []));
        needs_resched = ground arith;
      }
