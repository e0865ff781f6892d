-- ===== src/Tests/Worlds.antt =====
-- Two schedulers in a ring, and lthreads that belong to the first.
use lthread_concurrent.Prelude.{ℕ, ◌==◌, if◌then◌else◌, true, false, none, some, [], ◌∷◌}
use lthread_concurrent.Intrusive.Lists.{lists}
use lthread_concurrent.State.{Lthread, Sched, World, will_block}
use lthread_concurrent.Sched.Switch.{no_flags}

abbrev pub idle_lthread : Lthread
idle_lthread = record {
  fun = 0;
  arg = 0;
  state = no_flags;
  sched = 0;
  fd_wait = 0;
  sleep_usecs = 0;
  is_blocked = false;
  is_running = false;
  needs_resched = false;
  allocated = true;
}

abbrev pub idle_sched : ℕ → Sched
idle_sched s = record {
  id = s;
  stack_size = 4096;
  page_size = 4096;
  default_timeout = 3000000;
  current_lthread = none;
  sched_neighbor = if s == 0 then 1 else 0;
  block_state = will_block;
  sleeping = [];
  ready = [];
  signalled = false;
}

abbrev pub quiet : World
quiet = record {
  lts = λ lt. idle_lthread;
  scheds = idle_sched;
  pool = record {
    asleep = λ s. false;
    num_schedulers = 2;
    next = 0;
    poller = record { waiting = []; num_pending_events = 0 };
  };
}

-- Lthread 3 sleeps until 50, and lthread 4 until 90, on scheduler 0.
abbrev pub sleepers : World
sleepers = record quiet {
  lts = λ lt.
      if lt == 3
      then record idle_lthread { sleep_usecs = 50 }
      else if lt == 4
      then record idle_lthread { sleep_usecs = 90 }
      else idle_lthread;
  scheds = λ s.
      if s == 0 then record (idle_sched 0) { sleeping = (50, 3) ∷ (90, 4) ∷ [] } else idle_sched s;
}

-- What schedule_expired makes of it at time 60, but for `block_state`; lthread 9 runs.
abbrev pub expired : World
expired = record sleepers {
  scheds = λ s.
      if s == 0
      then record (idle_sched 0) {
        sleeping = (90, 4) ∷ [];
        ready = 3 ∷ [];
        current_lthread = some 9;
      }
      else idle_sched s;
}
