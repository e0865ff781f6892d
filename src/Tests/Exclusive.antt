-- ===== src/Tests/Exclusive.antt =====
-- The theorems on the exclusion of the schedulers, applied: one scheduler, whose first lthread
-- creates another and exits.
use lthread_concurrent.Prelude.{
  ℕ, ◌==◌, arith, if◌then◌else◌, ◌≡◌, refl, Bool, true, false, none, some, Option, elem, count,
}
use lthread_concurrent.Intrusive.{ids, has_id}
use lthread_concurrent.Intrusive.Lists.{lists}
use lthread_concurrent.State.{World, Lthread}
use lthread_concurrent.Sched.Ready.{sched_pop_ready, adopt, sched_push_ready_unsafe, is_lt}
use lthread_concurrent.Sched.Switch.{create, resume, resumed, exit}
use lthread_concurrent.Sched.Pool.{run_start, run_init}
use lthread_concurrent.Sched.System.{
  System, go, found, chosen, running, looping, pop, adopts, resumes, acts, creates, exits, switches,
}
use lthread_concurrent.Sched.System.Safety.{started}
use lthread_concurrent.Sched.System.Exclusive.{OrderlyReach, start, step, IsParked, hands_over}
use lthread_concurrent.Sched.System.Exclusive.Start.{IsBlank}
use lthread_concurrent.Sched.System.Exclusive.Safety.{
  has, one_scheduler, queued_once, chosen_resumes, running_is_current, freed_nowhere,
}
use lthread_concurrent.Tests.Worlds.{idle_lthread}

abbrev lts : ℕ → Lthread
lts z = record idle_lthread { allocated = false }

abbrev bytes : ℕ → Bool
bytes k = true

lts-IsBlank : IsBlank lts
lts-IsBlank y = (refl, refl, refl)

abbrev first : System
first = started (run_start lts bytes 0 4096 0 5 0 0)

abbrev or_same : World → Option World → World
or_same w none = w
or_same w (some v) = v

abbrev first_found : System
first_found = go first (sched_pop_ready first.world 0 true true).0 0 (found 5)

abbrev first_chosen : System
first_chosen = go first_found (adopt first_found.world 0 (some 5)).0 0 (chosen 5)

abbrev first_running : System
first_running =
    go first_chosen (or_same first_chosen.world (resume first_chosen.world 0 5)) 0 (running 5)

abbrev second_made : System
second_made = record first_running { world = (create first_running.world (some 0) (some 7) 0 0).0 }

abbrev first_exited : System
first_exited = record second_made { world = exit second_made.world 5 }

abbrev first_switched : System
first_switched = go first_exited (resumed first_exited.world 0 5) 0 looping

chosen-OrderlyReach : OrderlyReach 1 first first_chosen
unfolding run_start run_init sched_pop_ready sched_push_ready_unsafe resume adopt create
chosen-OrderlyReach =
    step (step start (pop {s = 0} 0 {lt = 5} true true (omega arith) (omega arith) refl refl) tt)
      (adopts {s = 0} {lt = 5} (omega arith) refl) tt

made-OrderlyReach : OrderlyReach 1 first second_made
unfolding run_start run_init sched_pop_ready sched_push_ready_unsafe resume adopt create
made-OrderlyReach =
    step (step chosen-OrderlyReach (resumes {s = 0} {lt = 5} (omega arith) refl refl) tt)
      (acts {s = 0} {lt = 5} (omega arith) refl (creates 7 0 0 refl)) refl

five-IsParked : IsParked second_made 5
unfolding run_start run_init sched_pop_ready sched_push_ready_unsafe resume adopt create
five-IsParked = record {
  queue = λ j. ground arith;
  tree = λ j. ground arith;
  poller = refl;
  hand = refl;
  thread = λ s. ground arith;
  unmarked = refl;
  alive = refl;
  allocated = refl;
}

switched-OrderlyReach : OrderlyReach 1 first first_switched
unfolding run_start run_init sched_pop_ready sched_push_ready_unsafe resume adopt create exit
    resumed
switched-OrderlyReach =
    step (step made-OrderlyReach (acts {s = 0} {lt = 5} (omega arith) refl exits) five-IsParked)
      (switches {s = 0} {lt = 5} (omega arith) refl refl) tt

one_scheduler_example : ◌≡◌ {A = ℕ} 0 0
one_scheduler_example =
    one_scheduler lts bytes 0 4096 0 5 0 0 lts-IsBlank made-OrderlyReach 0 0 5 refl refl

queued_once_example :
    ((k : ℕ) → count 7 (second_made.world.scheds k).ready ≡ (if 0 == k then 1 else 0))
    × ((k : ℕ) → count 7 (ids (second_made.world.scheds k).sleeping) ≡ 0)
    × (count 7 (ids second_made.world.pool.poller.waiting) ≡ 0)
    × ((s : ℕ) → has (second_made.pc s) 7 ≡ false)
    × ((second_made.world.lts 7).allocated ≡ true)
    × ((second_made.world.lts 7).state.exited ≡ false)
unfolding run_start run_init sched_pop_ready sched_push_ready_unsafe resume adopt create
queued_once_example = queued_once lts bytes 0 4096 0 5 0 0 lts-IsBlank made-OrderlyReach 0 7 refl

chosen_resumes_example : (w : World) × (resume first_chosen.world 0 5 ≡ some w)
chosen_resumes_example =
    chosen_resumes lts bytes 0 4096 0 5 0 0 lts-IsBlank chosen-OrderlyReach 0 5 refl

running_is_current_example :
    ((second_made.world.scheds 0).current_lthread ≡ some 5)
    × ((second_made.world.lts 5).sched ≡ 0)
    × ((second_made.world.lts 5).allocated ≡ true)
running_is_current_example =
    running_is_current lts bytes 0 4096 0 5 0 0 lts-IsBlank made-OrderlyReach 0 5 refl

freed_nowhere_example :
    ((k : ℕ) → elem 5 (first_switched.world.scheds k).ready ≡ false)
    × ((k : ℕ) → has_id 5 (first_switched.world.scheds k).sleeping ≡ false)
    × (has_id 5 first_switched.world.pool.poller.waiting ≡ false)
    × (hands_over first_switched.hand 5 ≡ 0)
    × ((s : ℕ) → has (first_switched.pc s) 5 ≡ false)
    × ((s : ℕ) → is_lt (first_switched.world.scheds s).current_lthread 5 ≡ false)
unfolding run_start run_init sched_pop_ready sched_push_ready_unsafe resume adopt create exit
    resumed
freed_nowhere_example =
    freed_nowhere lts bytes 0 4096 0 5 0 0 lts-IsBlank switched-OrderlyReach 5 refl
