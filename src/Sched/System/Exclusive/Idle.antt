-- ===== src/Sched/System/Exclusive/Idle.antt =====
-- src/lthread.c, _lthread_run_sched: the critical sections that move no lthread.
use lthread_concurrent.Prelude.{
  ℕ, zero, suc, ◌+◌, ◌*◌, ℕ_discrete, ◌≡◌, Bool, none, some, inl, inr, ◌⊎◌, Option-cases, arith,
}
use lthread_concurrent.Intrusive.{Intrusive, insert_key, find_key}
use lthread_concurrent.State.{World, with_lt}
use lthread_concurrent.Sched.Ready.{sched_pop_ready}
use lthread_concurrent.Sched.Sleep.{sched_sleep, insert_sleeping, fall_asleep, u64}
use lthread_concurrent.Sched.Loop.{Outcome, try_wait, end_wait, leave}
use lthread_concurrent.Poller.{settle_event}
use lthread_concurrent.Sched.System.Exclusive.Apart.{Apart}

module _ ⦃i : Intrusive⦄ where
  open i use {Tree, entries, rb_insert_free, rb_insert_taken}

  pub checks-Apart :
      (w : World) (s : ℕ) (block free : Bool) (w' : World) (y : ℕ)
      → sched_pop_ready w s block free ≡ (w', none)
      → Apart w w' y
  unfolding sched_pop_ready
  checks-Apart w s block free w' y e = record {
    queue = λ j. ground arith;
    tree = λ j. ground arith;
    poller = ground arith;
    mark = ground arith;
    exited = ground arith;
    allocated = ground arith;
    sched = ground arith;
    is_running = ground arith;
    current = λ j. ground arith;
  }

  pub try_wait-Apart :
      (w : World) (s now : ℕ) (w' : World) (o : Outcome) (y : ℕ)
      → try_wait w s now ≡ (w', o)
      → Apart w w' y
  unfolding try_wait
  try_wait-Apart w s now w' o y e = record {
    queue = λ j. ground arith;
    tree = λ j. ground arith;
    poller = ground arith;
    mark = ground arith;
    exited = ground arith;
    allocated = ground arith;
    sched = ground arith;
    is_running = ground arith;
    current = λ j. ground arith;
  }

  pub end_wait-Apart : (w : World) (s : ℕ) (deep : Bool) (y : ℕ) → Apart w (end_wait w s deep) y
  unfolding end_wait
  end_wait-Apart w s deep y = record {
    queue = λ j. ground arith;
    tree = λ j. ground arith;
    poller = ground arith;
    mark = ground arith;
    exited = ground arith;
    allocated = ground arith;
    sched = ground arith;
    is_running = ground arith;
    current = λ j. ground arith;
  }

  pub leave-Apart : (w : World) (s y : ℕ) → Apart w (leave w s) y
  unfolding leave
  leave-Apart w s y = record {
    queue = λ j. ground arith;
    tree = λ j. ground arith;
    poller = ground arith;
    mark = ground arith;
    exited = ground arith;
    allocated = ground arith;
    sched = ground arith;
    is_running = ground arith;
    current = λ j. ground arith;
  }

  pub settle-Apart : (w : World) (y : ℕ) → Apart w (settle_event w) y
  unfolding settle_event
  settle-Apart w y = record {
    queue = λ j. ground arith;
    tree = λ j. ground arith;
    poller = ground arith;
    mark = ground arith;
    exited = ground arith;
    allocated = ground arith;
    sched = ground arith;
    is_running = ground arith;
    current = λ j. ground arith;
  }

  pub blocks-Apart :
      (w : World) (z y : ℕ) (b : Bool)
      → Apart w (with_lt w z (record (w.lts z) { is_blocked = b })) y
  blocks-Apart w z y b = record {
    queue = λ j. ground arith;
    tree = λ j. ground arith;
    poller = ground arith;
    mark = ground arith;
    exited = ground arith;
    allocated = ground arith;
    sched = ground arith;
    is_running = ground arith;
    current = λ j. ground arith;
  }

  insert_sleeping_lem :
      (f : ℕ) (t : Tree) (k lt : ℕ) (t' : Tree) (k' : ℕ)
      → insert_sleeping f t k lt ≡ some (t', k')
      → entries t' ≡ insert_key k' lt (entries t)
  unfolding insert_sleeping
  insert_sleeping_lem zero t k lt t' k' e = cc
  insert_sleeping_lem (suc f) t k lt t' k' e = elim (Option-cases (find_key k (entries t))) [
    | inl q ↦ let h = rb_insert_free t k lt q in ground arith
    | inr (z, q) ↦
        let h = rb_insert_taken t k lt z q in
        insert_sleeping_lem f t (u64 (k + 1)) lt t' k' (ground arith)
  ]

  parks-Apart :
      (f : ℕ) (w : World) (lt msecs now : ℕ) (w' : World) (y : ℕ)
      → msecs ≡ 0
      → sched_sleep f w lt msecs now ≡ some w'
      → Apart w w' y
  unfolding sched_sleep
  parks-Apart f w lt msecs now w' y z e = record {
    queue = λ j. ground arith;
    tree = λ j. ground arith;
    poller = ground arith;
    mark = ground arith;
    exited = ground arith;
    allocated = ground arith;
    sched = ground arith;
    is_running = ground arith;
    current = λ j. ground arith;
  }

  -- A call of lthread_sleep that returns has parked the lthread, or put it into its tree.
  pub sched_sleep-cases :
      (f : ℕ) (w : World) (lt msecs now : ℕ) (w' : World)
      → sched_sleep f w lt msecs now ≡ some w'
      → ((y : ℕ) → Apart w w' y)
        ⊎ ((k : ℕ) × (t : Tree) × (w' ≡ fall_asleep w lt k t)
            × (entries t ≡ insert_key k lt (entries (w.scheds (w.lts lt).sched).sleeping)))
  unfolding sched_sleep
  sched_sleep-cases f w lt msecs now w' e = elim (ℕ_discrete msecs 0) [
    | yes z ↦ inl (λ y. parks-Apart f w lt msecs now w' y z e)
    | no n ↦
        let s = (w.lts lt).sched in
        let start = u64 (now + u64 (msecs * 1000)) in
        elim (Option-cases (insert_sleeping f (w.scheds s).sleeping start lt)) [
          | inl q ↦ absurd (ground arith)
          | inr ((t, k), q) ↦
              inr (k, t, ground arith, insert_sleeping_lem f (w.scheds s).sleeping start lt t k q)
        ]
  ]
