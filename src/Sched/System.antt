-- ===== src/Sched/System.antt =====
-- src/lthread.c, _lthread_run_sched, _lthread_pop_ready and _lthread_resume, and
-- src/lthread_poller.c, lthread_poller_poll: the threads of `n` schedulers and of the poller, which
-- take critical sections in any order, and the lthreads that the schedulers run.
pub mod Invariant
pub mod Local
pub mod Waits
pub mod Frame
pub mod Acts
pub mod Quiet
pub mod Handing
pub mod Steps
pub mod Safety
pub mod Exclusive
pub mod Fifo
use lthread_concurrent.Prelude.{ℕ, ◌≤◌, ◌<◌, ◌≡◌, Bool, true, false, ◌⊎◌, Option, none, some}
use lthread_concurrent.Intrusive.{Intrusive, has_id}
use lthread_concurrent.State.{World, update, with_lt}
use lthread_concurrent.Sched.Ready.{sched_pop_ready, adopt, desched_event}
use lthread_concurrent.Sched.Sleep.{sched_sleep, wakeup_round, desched_sleep_unsafe}
use lthread_concurrent.Sched.Switch.{create, yield_resched, exit, resume, resumed}
use lthread_concurrent.Sched.Loop.{Outcome, again, waits, finished, try_wait, end_wait, leave}
use lthread_concurrent.Poller.{Event, poller_desched_event, mark_eof, settle_event, begin_wait_fd}

-- Where the thread of a scheduler stands: in the loops of _lthread_run_sched and _lthread_pop_ready;
-- with an lthread that it has taken out of a queue, or made its own, or runs; after it has found
-- its own queue empty; in the wait, which may be a deep sleep; past the loop; and at its end.
pub data Pc : Type 0 where
  looping : Pc
  found chosen running : (lt : ℕ) → Pc
  checked : Pc
  waiting : (deep : Bool) → Pc
  leaving gone : Pc

-- Where the poller stands in _lthread_poller_handle_event.
pub data Hand : Type 0 where
  idle : Hand
  handing : (lt : ℕ) (is_eof : Bool) → Hand
  settling : Hand

module _ ⦃i : Intrusive⦄ where
  open i use {entries, rb_min}

  -- What lthread `lt` may do while scheduler `s` runs it. It wakes a sleeper that is in its tree, or
  -- an lthread that carries no wake-up time. `blocks` is the flag of a condition variable.
  pub data Act (s lt : ℕ) (w : World) : World → Type 0 where
    creates :
        (new fun arg : ℕ) {w' : World} {r : Option ℕ}
        → create w (some s) (some new) fun arg ≡ (w', r)
        → Act s lt w w'
    wakes :
        (z : ℕ) {w' : World}
        → ((w.lts z).sleep_usecs ≡ 0)
          ⊎ (has_id z (entries (w.scheds (w.lts z).sched).sleeping) ≡ true)
        → wakeup_round w (w.lts z).sched z ≡ some w'
        → Act s lt w w'
    yields : Act s lt w (yield_resched w lt)
    exits : Act s lt w (exit w lt)
    sleeps :
        (f msecs now : ℕ) {w' : World}
        → (w.lts lt).sched ≡ s
        → sched_sleep f w lt msecs now ≡ some w'
        → Act s lt w w'
    registers :
        (fd : ℕ) (ev : Event) {w' : World} → begin_wait_fd w lt fd ev ≡ some w' → Act s lt w w'
    blocks : (z : ℕ) (b : Bool) → Act s lt w (with_lt w z (record (w.lts z) { is_blocked = b }))

  pub record System : Type 0 where
    pub world : World
    pub pc : ℕ → Pc
    pub hand : Hand

  -- Scheduler `s` moves on to `p`, and leaves the world `w`.
  abbrev pub go : System → World → ℕ → Pc → System
  go x w s p = record x { world = w; pc = update x.pc s p }

  -- One critical section of a scheduler below `n`, or of the poller.
  pub data Step (n : ℕ) (x : System) : System → Type 0 where
    -- a round of the loop of _lthread_schedule_expired
    expire :
        {s lt : ℕ} (now : ℕ)
        → s < n
        → x.pc s ≡ looping
        → rb_min (x.world.scheds s).sleeping ≡ some lt
        → (x.world.lts lt).sched ≡ s
        → (x.world.lts lt).sleep_usecs ≤ now
        → Step n x (record x { world = desched_sleep_unsafe x.world lt })
    pop :
        {s : ℕ} (j : ℕ) {lt : ℕ} (block free : Bool) {w : World}
        → s < n
        → j < n
        → x.pc s ≡ looping
        → sched_pop_ready x.world j block free ≡ (w, some lt)
        → Step n x (go x w s (found lt))
    adopts :
        {s lt : ℕ}
        → s < n
        → x.pc s ≡ found lt
        → Step n x (go x (adopt x.world s (some lt)).0 s (chosen lt))
    resumes :
        {s lt : ℕ} {w : World}
        → s < n
        → x.pc s ≡ chosen lt
        → resume x.world s lt ≡ some w
        → Step n x (go x w s (running lt))
    acts :
        {s lt : ℕ} {w : World}
        → s < n
        → x.pc s ≡ running lt
        → Act s lt x.world w
        → Step n x (record x { world = w })
    -- with the assertion of _lthread_yield
    switches :
        {s lt : ℕ}
        → s < n
        → x.pc s ≡ running lt
        → (x.world.lts lt).sched ≡ s
        → Step n x (go x (resumed x.world s lt) s looping)
    checks :
        {s : ℕ} {w : World}
        → s < n
        → x.pc s ≡ looping
        → sched_pop_ready x.world s true true ≡ (w, none)
        → Step n x (go x w s checked)
    retries :
        {s : ℕ} (now : ℕ) {w : World}
        → s < n
        → x.pc s ≡ checked
        → try_wait x.world s now ≡ (w, again)
        → Step n x (go x w s looping)
    blocks :
        {s : ℕ} (now : ℕ) {timeout : ℕ} {deep : Bool} {w : World}
        → s < n
        → x.pc s ≡ checked
        → try_wait x.world s now ≡ (w, waits deep timeout)
        → Step n x (go x w s (waiting deep))
    finishes :
        {s : ℕ} (now : ℕ) {w : World}
        → s < n
        → x.pc s ≡ checked
        → try_wait x.world s now ≡ (w, finished)
        → Step n x (go x w s leaving)
    -- by a signal, at the time limit, or for no reason
    wakes :
        {s : ℕ} {deep : Bool}
        → s < n
        → x.pc s ≡ waiting deep
        → Step n x (go x (end_wait x.world s deep) s looping)
    leaves : {s : ℕ} → s < n → x.pc s ≡ leaving → Step n x (go x (leave x.world s) s gone)
    finds :
        (fd : ℕ) {lt : ℕ} (ev : Event) (is_eof : Bool) {w : World}
        → x.hand ≡ idle
        → poller_desched_event x.world fd ev ≡ (w, some lt)
        → Step n x (record x { world = w; hand = handing lt is_eof })
    hands :
        {lt : ℕ} {is_eof : Bool}
        → x.hand ≡ handing lt is_eof
        → Step n x
            (record x { world = desched_event (mark_eof x.world lt is_eof) lt; hand = settling })
    settles : x.hand ≡ settling → Step n x (record x { world = settle_event x.world; hand = idle })

  pub data Reach (n : ℕ) (x : System) : System → Type 0 where
    here : Reach n x x
    next : {y z : System} → Reach n x y → Step n y z → Reach n x z
