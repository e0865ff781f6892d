-- ===== src/Tests/Fifo.antt =====
-- The theorems on the order of a ready queue, applied: scheduler 1 steals lthread 3 from scheduler
-- 0, which then takes lthread 4.
use lthread_concurrent.Prelude.{
  ℕ, ◌==◌, arith, if◌then◌else◌, ◌≡◌, refl, true, false, List, [], ◌∷◌, ◌++◌,
}
use lthread_concurrent.Intrusive.Lists.{lists}
use lthread_concurrent.Sched.Ready.{sched_pop_ready}
use lthread_concurrent.Sched.System.{System, go, looping, found, idle, here, next, pop}
use lthread_concurrent.Sched.System.Fifo.{IsQueueOf, Reach-IsQueueOf, nobody_overtakes}
use lthread_concurrent.Tests.Worlds.{quiet, idle_sched}

abbrev two_ready : System
two_ready = record {
  world = record quiet {
    scheds = λ s. if s == 0 then record (idle_sched 0) { ready = 3 ∷ 4 ∷ [] } else idle_sched s;
  };
  pc = λ s. looping;
  hand = idle;
}

abbrev stolen : System
stolen = go two_ready (sched_pop_ready two_ready.world 0 false true).0 1 (found 3)

abbrev emptied : System
emptied = go stolen (sched_pop_ready stolen.world 0 false true).0 0 (found 4)

both_taken : IsQueueOf two_ready.world emptied.world 0 (3 ∷ 4 ∷ [])
unfolding sched_pop_ready
both_taken = Reach-IsQueueOf {n = 2} {x = two_ready} {z = emptied} 0 (
    next (next here (pop {s = 1} 0 {lt = 3} false true (omega arith) (omega arith) refl refl))
      (pop {s = 0} 0 {lt = 4} false true (omega arith) (omega arith) refl refl))

nobody_overtakes_example : (rest : List ℕ) × (3 ∷ 4 ∷ [] ≡ (3 ∷ []) ++ 4 ∷ rest)
unfolding sched_pop_ready
nobody_overtakes_example =
    nobody_overtakes {n = 2} {x = two_ready} {z = emptied} 0 4 (3 ∷ []) []
      (next (next here (pop {s = 1} 0 {lt = 3} false true (omega arith) (omega arith) refl refl))
        (pop {s = 0} 0 {lt = 4} false true (omega arith) (omega arith) refl refl))
      refl (omega arith)
