-- ===== src/Tests/Sched.antt =====
-- The theorems on sleepers, wake-ups and switches, applied.
use lthread_concurrent.Sched.Ready.Pop.{pop_ready_ends}
use lthread_concurrent.Prelude.{
  true, false, ℕ, ◌≡◌, refl, arith, Option, none, some, List, [], ◌∷◌, ◌-◌, ◌^◌, elem,
}
use lthread_concurrent.Intrusive.Lists.{lists}
use lthread_concurrent.State.{World, update}
use lthread_concurrent.Sched.Ready.{is_lt, pop_ready}
use lthread_concurrent.Sched.Sleep.{
  sched_sleep, schedule_expired, wakeup_round, desched_sleep_unsafe,
}
use lthread_concurrent.Sched.Sleep.Due.{WakesFirst, schedule_expired-WakesFirst}
use lthread_concurrent.Sched.Switch.{resumed}
use lthread_concurrent.Sched.Switch.Resumed.{sleep_zero_parks}
use lthread_concurrent.Sched.Switch.Sleepers.{sleep_ends_at_once, woken_sleeper_inserted_again}
use lthread_concurrent.Tests.Worlds.{sleepers, expired, quiet}

-- Lthread 5 finds the wake-up time 50 taken, and takes 51.
sched_sleep_collision :
    (w' : World) × (sched_sleep 3 sleepers 5 1 (2 ^ 64 - 950) ≡ some w')
    × ((w'.lts 5).sleep_usecs ≡ 51)
unfolding sched_sleep
sched_sleep_collision = (_, refl, refl)

-- Lthread 3 carries the time 0, which the switch has left to it, under its key 50.
abbrev parked : World
parked = record sleepers {
  lts = update sleepers.lts 3 (record (sleepers.lts 3) { sleep_usecs = 0 });
}

schedule_expired-WakesFirst_example :
    WakesFirst parked 0 10 ((50, 3) ∷ (90, 4) ∷ []) (schedule_expired 3 parked 0 10)
schedule_expired-WakesFirst_example =
    schedule_expired-WakesFirst 3 parked 0 10 ((50, 3) ∷ (90, 4) ∷ []) refl (omega arith)
      (refl, (refl, tt)) refl

woken_sleeper_inserted_again_example :
    (v : World) × (sched_sleep 1 quiet 5 2 1000 ≡ some v)
    × (elem 5 ((resumed v 0 5).scheds 0).ready ≡ false)
    × (u : World) × (wakeup_round (resumed v 0 5) 0 5 ≡ some u)
    × (elem 5 (u.scheds 0).ready ≡ true)
    × (is_lt (u.scheds 0).current_lthread 5 ≡ false)
    × ((later : ℕ)
        → schedule_expired 2 u 0 later ≡ schedule_expired 1 (desched_sleep_unsafe u 5) 0 later)
woken_sleeper_inserted_again_example =
    woken_sleeper_inserted_again 0 1 quiet 0 5 2 1000 (omega arith) refl refl refl refl refl

sleep_ends_at_once_example :
    (v : World) × (sched_sleep 1 quiet 5 2 1000 ≡ some v)
    × ((later : ℕ)
        → (u : World) × (schedule_expired 2 (resumed v 0 5) 0 later ≡ some u)
          × ((u.scheds 0).ready ≡ 5 ∷ [])
          × (◌≡◌ {A = List (ℕ × ℕ)} (u.scheds 0).sleeping []))
sleep_ends_at_once_example =
    sleep_ends_at_once 0 0 quiet 0 5 2 1000 (omega arith) refl refl refl refl

sleep_zero_parks_example :
    (w' : World) × (sched_sleep 1 expired 9 0 100 ≡ some w')
    × ((j : ℕ) → ((resumed w' 0 9).scheds j).ready ≡ (expired.scheds j).ready)
    × ((j : ℕ) → ((resumed w' 0 9).scheds j).sleeping ≡ (expired.scheds j).sleeping)
sleep_zero_parks_example = sleep_zero_parks 1 expired 0 9 100 refl refl

pop_ready_ends_example :
    (r : World × Option ℕ) × (pop_ready 2 quiet (λ j. true) 0 ≡ some r)
    × ((r.1 ≡ none) → (◌≡◌ {A = List ℕ} [] []) × (r.0 ≡ quiet))
pop_ready_ends_example =
    pop_ready_ends 2 2 quiet (λ j. true) 0 (λ j l. ground arith) (omega arith) (omega arith)
