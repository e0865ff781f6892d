-- ===== src/Tests/System.antt =====
-- The theorems on all the schedulers, applied: two of them, and one alone.
use lthread_concurrent.Prelude.{
  ℕ, ◌==◌, arith, if◌then◌else◌, ◌≡◌, ◌≢◌, refl, Bool, true, false, none, some, Option, [], inl,
  elem,
}
use mathlib.Core.Path.{subst}
use lthread_concurrent.Intrusive.Lists.{lists}
use lthread_concurrent.State.{World, Lthread}
use lthread_concurrent.Sched.Ready.{sched_pop_ready, adopt, sched_push_ready_unsafe}
use lthread_concurrent.Sched.Sleep.{wakeup_round}
use lthread_concurrent.Sched.Switch.{resume, resumed, exit}
use lthread_concurrent.Sched.Loop.{try_wait}
use lthread_concurrent.Sched.Pool.{run_start, run_init}
use lthread_concurrent.Sched.System.{
  System, go, Reach, here, next, found, chosen, running, looping, checked, waiting, leaving, checks,
  blocks, pop, adopts, resumes, acts, wakes, exits, switches, retries, finishes,
}
use lthread_concurrent.Sched.System.Invariant.{Inv, Quiet}
use lthread_concurrent.Sched.System.Safety.{
  started, Reach-Inv, no_lost_wakeup, all_done-Quiet, asleep_idle,
}
use lthread_concurrent.Tests.Worlds.{idle_lthread}

-- Lthread 7 belongs to scheduler 1.
abbrev lts : ℕ → Lthread
lts z = if z == 7 then record idle_lthread { sched = 1 } else idle_lthread

abbrev bytes : ℕ → Bool
bytes k = true

abbrev two : System
two = started (run_start lts bytes 0 4096 1 5 0 0)

abbrev or_same : World → Option World → World
or_same w none = w
or_same w (some v) = v

abbrev two_checked : System
two_checked = go two (sched_pop_ready two.world 1 true true).0 1 checked

abbrev two_asleep : System
two_asleep = go two_checked (try_wait two_checked.world 1 0).0 1 (waiting true)

abbrev two_found : System
two_found = go two_asleep (sched_pop_ready two_asleep.world 0 true true).0 0 (found 5)

abbrev two_chosen : System
two_chosen = go two_found (adopt two_found.world 0 (some 5)).0 0 (chosen 5)

abbrev two_running : System
two_running = go two_chosen (or_same two_chosen.world (resume two_chosen.world 0 5)) 0 (running 5)

-- Lthread 5 wakes lthread 7.
abbrev two_told : System
two_told = record two_running {
  world = or_same two_running.world (wakeup_round two_running.world 1 7);
}

asleep-Reach : Reach 2 two two_asleep
unfolding run_start run_init sched_pop_ready try_wait sched_push_ready_unsafe
asleep-Reach =
    next (next here (checks {s = 1} (omega arith) refl refl))
      (blocks {s = 1} 0 (omega arith) refl refl)

running-Reach : Reach 2 two two_running
unfolding run_start run_init sched_pop_ready try_wait sched_push_ready_unsafe resume adopt
running-Reach =
    next
      (next
        (next asleep-Reach (pop {s = 0} 0 {lt = 5} true true (omega arith) (omega arith) refl refl))
        (adopts {s = 0} {lt = 5} (omega arith) refl))
      (resumes {s = 0} {lt = 5} (omega arith) refl refl)

told-Reach : Reach 2 two two_told
unfolding run_start run_init sched_pop_ready try_wait sched_push_ready_unsafe resume adopt
    wakeup_round
told-Reach = next running-Reach (acts {s = 0} {lt = 5} (omega arith) refl (wakes 7 (inl refl) refl))

-- One scheduler, and a first lthread that ends
abbrev one : System
one = started (run_start lts bytes 0 4096 0 5 0 0)

abbrev one_found : System
one_found = go one (sched_pop_ready one.world 0 true true).0 0 (found 5)

abbrev one_chosen : System
one_chosen = go one_found (adopt one_found.world 0 (some 5)).0 0 (chosen 5)

abbrev one_running : System
one_running = go one_chosen (or_same one_chosen.world (resume one_chosen.world 0 5)) 0 (running 5)

abbrev one_exited : System
one_exited = record one_running { world = exit one_running.world 5 }

abbrev one_switched : System
one_switched = go one_exited (resumed one_exited.world 0 5) 0 looping

abbrev one_checked : System
one_checked = go one_switched (sched_pop_ready one_switched.world 0 true true).0 0 checked

abbrev one_again : System
one_again = go one_checked (try_wait one_checked.world 0 0).0 0 looping

abbrev one_rechecked : System
one_rechecked = go one_again (sched_pop_ready one_again.world 0 true true).0 0 checked

abbrev one_done : System
one_done = go one_rechecked (try_wait one_rechecked.world 0 0).0 0 leaving

ran-Reach : Reach 1 one one_switched
unfolding run_start run_init sched_pop_ready sched_push_ready_unsafe resume adopt exit resumed
ran-Reach =
    next
      (next
        (next
          (next (next here (pop {s = 0} 0 {lt = 5} true true (omega arith) (omega arith) refl refl))
            (adopts {s = 0} {lt = 5} (omega arith) refl))
          (resumes {s = 0} {lt = 5} (omega arith) refl refl))
        (acts {s = 0} {lt = 5} (omega arith) refl exits))
      (switches {s = 0} {lt = 5} (omega arith) refl refl)

done-Reach : Reach 1 one one_done
unfolding run_start run_init sched_pop_ready sched_push_ready_unsafe resume adopt exit resumed
    try_wait
done-Reach =
    next
      (next
        (next (next ran-Reach (checks {s = 0} (omega arith) refl refl))
          (retries {s = 0} 0 (omega arith) refl refl))
        (checks {s = 0} (omega arith) refl refl))
      (finishes {s = 0} 0 (omega arith) refl refl)

Reach-Inv_example : Inv 2 two_told
Reach-Inv_example = Reach-Inv lts bytes 0 4096 1 5 0 0 told-Reach

no_lost_wakeup_example : (two_told.world.scheds 1).signalled ≡ true
unfolding run_start run_init sched_pop_ready try_wait sched_push_ready_unsafe resume adopt
    wakeup_round
no_lost_wakeup_example = no_lost_wakeup lts bytes 0 4096 1 5 0 0 told-Reach 1 true refl seven_ready
  where
    no_member : false ≡ true → ⊥
    no_member e = cc

    seven_ready : (two_told.world.scheds 1).ready ≢ []
    seven_ready e = no_member (subst (λ q. elem 7 q ≡ true) e refl)

all_done-Quiet_example : Quiet 1 one_done
all_done-Quiet_example = all_done-Quiet lts bytes 0 4096 0 5 0 0 done-Reach 0 refl

asleep_idle_example :
    (true ≡ true)
    × ((two_asleep.world.scheds 1).ready ≡ [])
    × ((two_asleep.world.scheds 1).sleeping ≡ [])
unfolding run_start run_init sched_pop_ready try_wait sched_push_ready_unsafe
asleep_idle_example = asleep_idle lts bytes 0 4096 1 5 0 0 asleep-Reach 1 refl
