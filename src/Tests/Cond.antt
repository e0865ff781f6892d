-- ===== src/Tests/Cond.antt =====
-- The theorems on condition variables, applied: lthread 1 holds the lock, and 2 waits for it.
use lthread_concurrent.Prelude.{
  ℕ, ◌⊎◌, false, ◌≡◌, refl, true, Bool, none, some, [], ◌∷◌, if◌then◌else◌,
}
use lthread_concurrent.Intrusive.Lists.{lists}
use lthread_concurrent.State.{update}
use lthread_concurrent.Sched.Ready.{is_lt}
use lthread_concurrent.Cond.{
  State, is_none, cond_signal, cond_create, cond_wait, cond_lock, cond_waited, set_blocked,
}
use lthread_concurrent.Cond.Protocol.{
  outside, locking, holding, waiting, System, Inv, Reach, here, next, lock_taken, lock_blocked,
  wait,
}
use lthread_concurrent.Cond.Protocol.Moves.{moved}
use lthread_concurrent.Cond.Protocol.Steps.{lock_ok, wait_ok, waited_ok}
use lthread_concurrent.Cond.Protocol.Safety.{
  start, Reach-Inv, mutual_exclusion, locker_not_stranded,
}
use lthread_concurrent.Cond.Protocol.Monitor.{locks, unused, act_all}
use lthread_concurrent.Cond.Protocol.Refinement.{act_all-history}
use lthread_concurrent.Cond.Protocol.Wakes.{WakesBlocked, signal_wakes_once}
use lthread_concurrent.Cond.Handover.{blocked}
use lthread_concurrent.Tests.Worlds.{quiet}

abbrev held : System
held = record {
  state = record { cond = record { blocked_lthreads = []; owner = some 1 }; world = quiet };
  phase = update (λ lt. outside) 1 holding;
}

abbrev contended : System
contended = record {
  state = record {
    cond = record { blocked_lthreads = 2 ∷ []; owner = some 1 };
    world = set_blocked quiet 2 true;
  };
  phase = update (update (λ lt. outside) 1 holding) 2 locking;
}

held-Reach : Reach (start quiet) held
unfolding cond_create cond_lock
held-Reach = next here (lock_taken 1 refl refl refl)

contended-Reach : Reach (start quiet) contended
unfolding cond_lock
contended-Reach = next held-Reach (lock_blocked 2 refl refl refl)

contended-Inv : Inv contended
contended-Inv = Reach-Inv quiet contended-Reach

Reach-Inv_example : Inv held
Reach-Inv_example = Reach-Inv quiet held-Reach

mutual_exclusion_example : ◌≡◌ {A = ℕ} 1 1
mutual_exclusion_example = mutual_exclusion quiet contended-Reach 1 1 refl refl

locker_not_stranded_example : (o : ℕ) × (some 1 ≡ some o)
locker_not_stranded_example = locker_not_stranded quiet contended-Reach 2 refl

lock_ok_example :
    (y : State) × (b : Bool) × (cond_lock contended.state 3 ≡ some (y, b))
    × (b ≡ is_none contended.state.cond.owner)
    × Inv (moved y contended.phase 3 (if b then holding else locking))
unfolding set_blocked
lock_ok_example = lock_ok contended 3 refl refl contended-Inv

wait_ok_example :
    (y : State) × (cond_wait contended.state 1 ≡ some y) × Inv (moved y contended.phase 1 waiting)
unfolding set_blocked
wait_ok_example = wait_ok contended 1 refl refl contended-Inv

abbrev parked : System
parked = record {
  state = record {
    cond = record { blocked_lthreads = 1 ∷ []; owner = none };
    world = set_blocked quiet 1 true;
  };
  phase = update (update (λ lt. outside) 1 holding) 1 waiting;
}

parked-Reach : Reach (start quiet) parked
unfolding cond_wait
parked-Reach = next held-Reach (wait 1 refl refl refl)

waited_ok_example :
    (y : State) × (b : Bool) × (cond_waited parked.state 1 ≡ some (y, b))
    × (b ≡ is_lt parked.state.cond.owner 1)
    × Inv (moved y parked.phase 1 (if b then holding else outside))
waited_ok_example = waited_ok parked 1 refl (Reach-Inv quiet parked-Reach)

act_all-history_example :
    act_all (some unused) (locks 1 ∷ locks 2 ∷ [])
    ≡ some (record { owner = some 1; queue = 2 ∷ [] })
unfolding contended-Reach held-Reach
act_all-history_example = act_all-history quiet contended-Reach

signal_wakes_once_example :
    ((blocked contended.state ≡ [])
      × (cond_signal contended.state 1
          ≡ some (
            record (contended.state) { cond = record (contended.state.cond) { owner = none } },
            false,
          )))
    ⊎ ((y : State) × (lt : ℕ) × (cond_signal contended.state 1 ≡ some (y, true))
        × WakesBlocked contended y lt)
signal_wakes_once_example = signal_wakes_once quiet contended-Reach 1 refl
