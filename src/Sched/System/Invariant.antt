-- ===== src/Sched/System/Invariant.antt =====
-- What holds of each scheduler, whatever the others do.
use lthread_concurrent.Prelude.{ℕ, ◌+◌, ◌<◌, ◌≡◌, ◌≢◌, Bool, true, false, ◌⊎◌, [], length}
use lthread_concurrent.Intrusive.{Intrusive}
use lthread_concurrent.State.{World, wont_block, is_blocking}
use lthread_concurrent.Sched.System.{
  Pc, found, chosen, running, checked, waiting, leaving, gone, Hand, idle, handing, settling,
  System,
}

abbrev pub is_waiting : Pc → Bool
is_waiting (waiting deep) = true
is_waiting _ = false

abbrev pub is_checked : Pc → Bool
is_checked checked = true
is_checked _ = false

-- In deep sleep, or past the loop.
abbrev pub is_resting : Pc → Bool
is_resting (waiting deep) = deep
is_resting leaving = true
is_resting gone = true
is_resting _ = false

abbrev pub is_gone : Pc → Bool
is_gone leaving = true
is_gone gone = true
is_gone _ = false

-- It has no lthread in hand.
abbrev pub is_free : Pc → Bool
is_free (found lt) = false
is_free (chosen lt) = false
is_free (running lt) = false
is_free _ = true

module _ ⦃i : Intrusive⦄ where
  open i use {elems, entries}

  pub record At (w : World) (p : Pc) (j : ℕ) : Type 0 where
    pub id : (w.scheds j).id ≡ j
    pub awake : is_waiting p ≡ false → (w.scheds j).block_state ≢ is_blocking
    pub told :
        is_checked p ≡ true
        → (elems (w.scheds j).ready ≡ []) ⊎ ((w.scheds j).block_state ≡ wont_block)
    pub blocked : is_waiting p ≡ true → (w.scheds j).block_state ≡ is_blocking
    pub signalled :
        is_waiting p ≡ true → (elems (w.scheds j).ready ≡ []) ⊎ ((w.scheds j).signalled ≡ true)
    pub resting : w.pool.asleep j ≡ true → is_resting p ≡ true
    pub empty : w.pool.asleep j ≡ true → elems (w.scheds j).ready ≡ []
    pub tree : w.pool.asleep j ≡ true → entries (w.scheds j).sleeping ≡ []

  -- Nothing is left to do.
  pub record Quiet (n : ℕ) (x : System) : Type 0 where
    pub queues : (j : ℕ) → j < n → elems (x.world.scheds j).ready ≡ []
    pub trees : (j : ℕ) → j < n → entries (x.world.scheds j).sleeping ≡ []
    pub free : (j : ℕ) → j < n → is_free (x.pc j) ≡ true
    pub pending : x.world.pool.poller.num_pending_events ≡ 0

  -- An event is pending while its lthread is in the tree or in the poller's hand.
  abbrev pub in_hand : Hand → ℕ
  in_hand idle = 0
  in_hand (handing lt is_eof) = 1
  in_hand settling = 1

  pub record Inv (n : ℕ) (x : System) : Type 0 where
    pub each : (j : ℕ) → At x.world (x.pc j) j
    pub quiet : (j : ℕ) → is_gone (x.pc j) ≡ true → Quiet n x
    pub counted :
        x.world.pool.poller.num_pending_events
        ≡ length (entries x.world.pool.poller.waiting) + in_hand x.hand
    pub size : x.world.pool.num_schedulers ≡ n
