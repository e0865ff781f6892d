-- ===== src/Sched/System/Frame.antt =====
-- What the critical sections of the schedulers leave alone.
use lthread_concurrent.Prelude.{
  Option-cases, ℕ, ◌+◌, ◌≡◌, ◌≢◌, Bool, true, inl, inr, Option, none, some, arith, length,
}
use lthread_concurrent.Intrusive.{
  Intrusive, find_key, find_key-has_id, length-remove_id, length-insert_key,
}
use lthread_concurrent.State.{World}
use lthread_concurrent.Sched.Ready.{sched_pop_ready, adopt, desched_event, sched_push_ready_unsafe}
use lthread_concurrent.Sched.Sleep.{sched_sleep, wakeup_round, desched_sleep_unsafe}
use lthread_concurrent.Sched.Switch.{create, resume, resumed}
use lthread_concurrent.Sched.Loop.{Outcome, try_wait, end_wait, leave}
use lthread_concurrent.Poller.{
  Event, begin_wait_fd, poller_desched_event, event_key, fd_key, set_wait, u16,
}

module _ ⦃i : Intrusive⦄ where
  open i use {
    elems, entries, rb_find_lem, entries-rb_remove, rb_insert, rb_insert_free, rb_insert_taken,
  }

  pub record Frame (w w' : World) : Type 0 where
    pub poller : w'.pool.poller ≡ w.pool.poller
    pub num_schedulers : w'.pool.num_schedulers ≡ w.pool.num_schedulers

  pub record Still (w w' : World) : Type 0 where
    pub frame : Frame w w'
    pub queues : (j : ℕ) → (w'.scheds j).ready ≡ (w.scheds j).ready
    pub trees : (j : ℕ) → (w'.scheds j).sleeping ≡ (w.scheds j).sleeping

  pub desched-Frame : (w : World) (lt : ℕ) → Frame w (desched_sleep_unsafe w lt)
  unfolding desched_sleep_unsafe sched_push_ready_unsafe
  desched-Frame w lt = record { poller = ground arith; num_schedulers = ground arith }

  pub push-Frame : (w : World) (s lt : ℕ) → Frame w (sched_push_ready_unsafe w s lt)
  unfolding sched_push_ready_unsafe
  push-Frame w s lt = record { poller = ground arith; num_schedulers = ground arith }

  pub desched_event-Frame : (w : World) (lt : ℕ) → Frame w (desched_event w lt)
  unfolding desched_event
  desched_event-Frame w lt = push-Frame w (w.lts lt).sched lt

  pub pop-Frame :
      (w : World) (j : ℕ) (block free : Bool) (w' : World) (r : Option ℕ)
      → sched_pop_ready w j block free ≡ (w', r)
      → Frame w w'
  unfolding sched_pop_ready
  pop-Frame w j block free w' r e = record { poller = ground arith; num_schedulers = ground arith }

  pub adopt-Frame : (w : World) (s lt : ℕ) → Frame w (adopt w s (some lt)).0
  unfolding adopt
  adopt-Frame w s lt = record { poller = ground arith; num_schedulers = ground arith }

  pub resume-Frame : (w : World) (s lt : ℕ) (w' : World) → resume w s lt ≡ some w' → Frame w w'
  unfolding resume
  resume-Frame w s lt w' e = record { poller = ground arith; num_schedulers = ground arith }

  pub resumed-Frame : (w : World) (s lt : ℕ) → Frame w (resumed w s lt)
  unfolding resumed
  resumed-Frame w s lt = record { poller = ground arith; num_schedulers = ground arith }

  pub create-Frame :
      (w : World) (s new fun arg : ℕ) (w' : World) (r : Option ℕ)
      → create w (some s) (some new) fun arg ≡ (w', r)
      → Frame w w'
  unfolding create sched_push_ready_unsafe
  create-Frame w s new fun arg w' r e = record {
    poller = ground arith;
    num_schedulers = ground arith;
  }

  pub wakeup-Frame : (w : World) (s z : ℕ) (w' : World) → wakeup_round w s z ≡ some w' → Frame w w'
  unfolding wakeup_round sched_push_ready_unsafe
  wakeup-Frame w s z w' e = record { poller = ground arith; num_schedulers = ground arith }

  pub sleep-Frame :
      (f : ℕ) (w : World) (lt msecs now : ℕ) (w' : World)
      → sched_sleep f w lt msecs now ≡ some w'
      → Frame w w'
  unfolding sched_sleep
  sleep-Frame f w lt msecs now w' e = record {
    poller = ground arith;
    num_schedulers = ground arith;
  }

  pub pop-Still :
      (w : World) (s : ℕ) (block free : Bool) (w' : World)
      → sched_pop_ready w s block free ≡ (w', none)
      → Still w w'
  unfolding sched_pop_ready
  pop-Still w s block free w' e = record {
    frame = record { poller = ground arith; num_schedulers = ground arith };
    queues = λ j. ground arith;
    trees = λ j. ground arith;
  }

  pub try_wait-Still :
      (w : World) (s now : ℕ) (w' : World) (o : Outcome) → try_wait w s now ≡ (w', o) → Still w w'
  unfolding try_wait
  try_wait-Still w s now w' o e = record {
    frame = record { poller = ground arith; num_schedulers = ground arith };
    queues = λ j. ground arith;
    trees = λ j. ground arith;
  }

  pub end_wait-Still : (w : World) (s : ℕ) (deep : Bool) → Still w (end_wait w s deep)
  unfolding end_wait
  end_wait-Still w s deep = record {
    frame = record { poller = ground arith; num_schedulers = ground arith };
    queues = λ j. ground arith;
    trees = λ j. ground arith;
  }

  pub leave-Still : (w : World) (s : ℕ) → Still w (leave w s)
  unfolding leave
  leave-Still w s = record {
    frame = record { poller = ground arith; num_schedulers = ground arith };
    queues = λ j. ground arith;
    trees = λ j. ground arith;
  }

  -- The number of pending events is the size of the tree, and of the poller's hand.
  abbrev pub Counted : World → ℕ → Type 0
  Counted w n = w.pool.poller.num_pending_events ≡ length (entries w.pool.poller.waiting) + n

  pub registers-Counted :
      (w : World) (lt fd : ℕ) (ev : Event) (w' : World) (n : ℕ)
      → begin_wait_fd w lt fd ev ≡ some w'
      → Counted w n
      → Counted w' n
  unfolding begin_wait_fd
  registers-Counted w lt fd ev w' n e c =
      let t = w.pool.poller.waiting in
      let l = w.lts lt in
      let k = fd_key (record l { state = set_wait ev true l.state; fd_wait = u16 fd }) in
      elim (Option-cases (find_key k (entries t))) [
        | inl q ↦
            let h = rb_insert_free t k lt q in ground (arith, length-insert_key k lt (entries t))
        | inr (y, q) ↦ let h = rb_insert_taken t k lt y q in ground arith
      ]

  pub registers_same :
      (w : World) (lt fd : ℕ) (ev : Event) (w' : World)
      → begin_wait_fd w lt fd ev ≡ some w'
      → (w.scheds ≡ w'.scheds)
        × (w.pool.asleep ≡ w'.pool.asleep)
        × (w'.pool.num_schedulers ≡ w.pool.num_schedulers)
  unfolding begin_wait_fd
  registers_same w lt fd ev w' e = (ground arith, ground arith, ground arith)

  pub finds-Counted :
      (w : World) (lt fd : ℕ) (ev : Event) (w' : World)
      → poller_desched_event w fd ev ≡ (w', some lt)
      → Counted w 0
      → Counted w' 1
        × (w'.scheds ≡ w.scheds)
        × (w'.pool.asleep ≡ w.pool.asleep)
        × (w'.pool.num_schedulers ≡ w.pool.num_schedulers)
        × (w.pool.poller.num_pending_events ≢ 0)
  unfolding poller_desched_event
  finds-Counted w lt fd ev w' e c =
      let t = w.pool.poller.waiting in
      let k = event_key fd ev in
      ground (
        arith,
        rb_find_lem t k,
        find_key-has_id k lt (entries t),
        entries-rb_remove t lt,
        length-remove_id lt (entries t),
      )
