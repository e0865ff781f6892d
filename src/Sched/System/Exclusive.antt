-- ===== src/Sched/System/Exclusive.antt =====
-- src/lthread.c, _lthread_pop_ready, _lthread_resume and _lthread_sched_push_ready_unsafe: where the
-- schedulers, which steal lthreads from each other, have an lthread: in a queue, a tree or a
-- thread. What the running lthreads must observe is a condition on the steps.
pub mod Counts
pub mod Places
pub mod Apart
pub mod Away
pub mod Moves
pub mod Returns
pub mod Idle
pub mod Changes
pub mod Blocking
pub mod Polling
pub mod Acts
pub mod Steps
pub mod Start
pub mod Safety
use lthread_concurrent.Prelude.{
  ℕ, ◌≤◌, ◌≡◌, ◌≢◌, Bool, true, false, ◌⊎◌, ◌==◌, if◌then◌else◌, count,
}
use lthread_concurrent.Intrusive.{Intrusive, ids, has_id}
use lthread_concurrent.State.{World}
use lthread_concurrent.Sched.Ready.{is_lt}
use lthread_concurrent.Sched.System.{
  Pc, found, chosen, running, Hand, handing, Act, creates, wakes, yields, exits, sleeps, registers,
  blocks, System, Step, acts,
}

-- Where the containers and threads have an lthread.
pub data Place : Type 0 where
  nowhere : Place
  -- in the ready queue of scheduler `s`, taken by its thread, or in its tree of sleepers
  queued held asleep : (s : ℕ) → Place
  -- in the tree of the poller, or in the hand of its thread
  waits handed : Place
  -- marked to be queued when it switches back
  marked : Place

abbrev pub in_queue : Place → ℕ → ℕ
in_queue (queued s) j = if s == j then 1 else 0
in_queue _ j = 0

abbrev pub in_thread : Place → ℕ → ℕ
in_thread (held s) j = if s == j then 1 else 0
in_thread _ j = 0

abbrev pub in_tree : Place → ℕ → ℕ
in_tree (asleep s) j = if s == j then 1 else 0
in_tree _ j = 0

abbrev pub in_poller : Place → ℕ
in_poller waits = 1
in_poller _ = 0

abbrev pub in_hand : Place → ℕ
in_hand handed = 1
in_hand _ = 0

-- It may run: it is neither queued nor taken.
abbrev pub may_run : Place → Bool
may_run (queued s) = false
may_run (held s) = false
may_run _ = true

-- The thread of a scheduler has taken the lthread, and does not run it yet.
abbrev pub takes : Pc → ℕ → ℕ
takes (found z) y = if z == y then 1 else 0
takes (chosen z) y = if z == y then 1 else 0
takes _ y = 0

abbrev pub runs : Pc → ℕ → Bool
runs (running z) y = z == y
runs _ y = false

-- It has made the lthread its own.
abbrev pub owns : Pc → ℕ → Bool
owns (chosen z) y = z == y
owns (running z) y = z == y
owns _ y = false

abbrev pub hands_over : Hand → ℕ → ℕ
hands_over (handing z is_eof) y = if z == y then 1 else 0
hands_over _ y = 0

module _ ⦃i : Intrusive⦄ where
  open i use {elems, entries}

  -- Lthread `y` is at place `q`, and nowhere else.
  pub record Spot (x : System) (q : Place) (y : ℕ) : Type 0 where
    pub queue : (j : ℕ) → count y (elems (x.world.scheds j).ready) ≤ in_queue q j
    pub tree : (j : ℕ) → count y (ids (entries (x.world.scheds j).sleeping)) ≤ in_tree q j
    pub poller : count y (ids (entries x.world.pool.poller.waiting)) ≤ in_poller q
    pub hand : hands_over x.hand y ≤ in_hand q
    pub thread : (s : ℕ) → takes (x.pc s) y ≤ in_thread q s
    pub mark : (x.world.lts y).needs_resched ≡ true → q ≡ marked
    pub exited : (x.world.lts y).state.exited ≡ true → q ≡ nowhere
    pub freed : (x.world.lts y).allocated ≡ false → q ≡ nowhere
    pub freed_rests : (s : ℕ) → (x.world.lts y).allocated ≡ false → runs (x.pc s) y ≡ false
    pub sched : (s : ℕ) → owns (x.pc s) y ≡ true → (x.world.lts y).sched ≡ s
    pub current : (s : ℕ) → is_lt (x.world.scheds s).current_lthread y ≡ runs (x.pc s) y
    pub calm : (s : ℕ) → runs (x.pc s) y ≡ true → may_run q ≡ true
    pub flag : (x.world.lts y).is_running ≡ true → (s : ℕ) × (runs (x.pc s) y ≡ true)

  -- An lthread that nobody holds, and that has asked for nothing
  pub record IsParked (x : System) (y : ℕ) : Type 0 where
    pub queue : (j : ℕ) → count y (elems (x.world.scheds j).ready) ≡ 0
    pub tree : (j : ℕ) → count y (ids (entries (x.world.scheds j).sleeping)) ≡ 0
    pub poller : count y (ids (entries x.world.pool.poller.waiting)) ≡ 0
    pub hand : hands_over x.hand y ≡ 0
    pub thread : (s : ℕ) → takes (x.pc s) y ≡ 0
    pub unmarked : (x.world.lts y).needs_resched ≡ false
    pub alive : (x.world.lts y).state.exited ≡ false
    pub allocated : (x.world.lts y).allocated ≡ true

  -- What the running lthread `lt` must observe: memory that calloc gives is not in use; it wakes
  -- only those that nobody holds, or that are in their tree under their wake-up time; and it
  -- yields, sleeps, waits or ends only while nobody holds it.
  abbrev pub IsOrderlyAct : (x : System) {s lt : ℕ} {w w' : World} → Act s lt w w' → Type 0
  IsOrderlyAct x (creates new fun arg e) = (x.world.lts new).allocated ≡ false
  IsOrderlyAct x (wakes z can e) =
      IsParked x z
      ⊎ (((x.world.lts z).sleep_usecs ≢ 0)
          × (has_id z (entries (x.world.scheds (x.world.lts z).sched).sleeping) ≡ true))
  IsOrderlyAct x {s} {lt} yields = IsParked x lt
  IsOrderlyAct x {s} {lt} exits = IsParked x lt
  IsOrderlyAct x {s} {lt} (sleeps f msecs now own e) = IsParked x lt
  IsOrderlyAct x {s} {lt} (registers fd ev e) = IsParked x lt
  IsOrderlyAct x (blocks z b) = Unit {0}

  abbrev pub IsOrderly : {n : ℕ} {x y : System} → Step n x y → Type 0
  IsOrderly {n} {x} (acts l c a) = IsOrderlyAct x a
  IsOrderly _ = Unit {0}

  -- What is reached by steps that are orderly.
  pub data OrderlyReach (n : ℕ) (x : System) : System → Type 0 where
    start : OrderlyReach n x x
    step :
        {y z : System} → OrderlyReach n x y → (st : Step n y z) → IsOrderly st → OrderlyReach n x z
