-- ===== src/Sched/Switch/Resumed.antt =====
-- src/lthread.c, the end of _lthread_resume: what becomes of an lthread that has switched back.
use lthread_concurrent.Prelude.{ℕ, ◌≡◌, refl, false, none, some, [], ◌∷◌, ◌++◌, arith}
use lthread_concurrent.Intrusive.{Intrusive}
use lthread_concurrent.State.{World}
use lthread_concurrent.Sched.Sleep.{sched_sleep}
use lthread_concurrent.Sched.Switch.{resumed, yield_resched, exit}

module _ ⦃i : Intrusive⦄ where
  open i use {elems, elems-tailq_insert_tail}

  -- The scheduler runs nothing, and the lthread is at rest.
  pub record Rests (w' : World) (s lt : ℕ) : Type 0 where
    pub current : (w'.scheds s).current_lthread ≡ none
    pub stopped : (w'.lts lt).is_running ≡ false
    pub unmarked : (w'.lts lt).needs_resched ≡ false
    pub awake : (w'.lts lt).state.sleeping ≡ false
    pub unstamped : (w'.lts lt).sleep_usecs ≡ 0

  -- An lthread of this scheduler that has not exited and yields is, when it has switched back, at
  -- rest, at the end of the scheduler's queue, and not freed.
  pub resumed-yield :
      (w : World) (s lt : ℕ)
      → (w.lts lt).sched ≡ s
      → (w.lts lt).state.exited ≡ false
      → let w' = resumed (yield_resched w lt) s lt in
        Rests w' s lt
        × (elems (w'.scheds s).ready ≡ elems (w.scheds s).ready ++ lt ∷ [])
        × ((w'.lts lt).allocated ≡ (w.lts lt).allocated)
  unfolding resumed yield_resched
  resumed-yield w s lt own alive = (
    record {
      current = ground arith;
      stopped = ground arith;
      unmarked = ground arith;
      awake = ground arith;
      unstamped = ground arith;
    },
    ground (arith, elems-tailq_insert_tail (w.scheds s).ready lt),
    ground arith,
  )

  -- An lthread that exits, and has not asked to run again, is at rest and freed when it has
  -- switched back, and no queue has changed.
  pub resumed-exit :
      (w : World) (s lt : ℕ)
      → (w.lts lt).needs_resched ≡ false
      → let w' = resumed (exit w lt) s lt in
        Rests w' s lt
        × ((w'.lts lt).allocated ≡ false)
        × ((j : ℕ) → (w'.scheds j).ready ≡ (w.scheds j).ready)
  unfolding resumed exit
  resumed-exit w s lt quiet = (
    record {
      current = ground arith;
      stopped = ground arith;
      unmarked = ground arith;
      awake = ground arith;
      unstamped = ground arith;
    },
    ground arith,
    λ j. ground arith,
  )

  -- If an lthread has not asked to run again and has not exited, its switch back changes no queue
  -- and no tree, and does not free it: so it is when its function has returned.
  pub resumed_leaks :
      (w : World) (s lt : ℕ)
      → (w.lts lt).needs_resched ≡ false
      → (w.lts lt).state.exited ≡ false
      → let w' = resumed w s lt in
        ((w'.lts lt).allocated ≡ (w.lts lt).allocated)
        × ((j : ℕ) → (w'.scheds j).ready ≡ (w.scheds j).ready)
        × ((j : ℕ) → (w'.scheds j).sleeping ≡ (w.scheds j).sleeping)
  unfolding resumed
  resumed_leaks w s lt quiet alive = (ground arith, λ j. ground arith, λ j. ground arith)

  -- If an lthread has not asked to run again and has not exited, a sleep of 0 and the switch
  -- change no queue and no tree.
  pub sleep_zero_parks :
      (f : ℕ) (w : World) (s lt now : ℕ)
      → (w.lts lt).needs_resched ≡ false
      → (w.lts lt).state.exited ≡ false
      → (w' : World) × (sched_sleep f w lt 0 now ≡ some w')
        × ((j : ℕ) → ((resumed w' s lt).scheds j).ready ≡ (w.scheds j).ready)
        × ((j : ℕ) → ((resumed w' s lt).scheds j).sleeping ≡ (w.scheds j).sleeping)
  unfolding resumed sched_sleep
  sleep_zero_parks f w s lt now quiet alive = (_, refl, λ j. ground arith, λ j. ground arith)
