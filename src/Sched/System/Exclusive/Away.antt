-- ===== src/Sched/System/Exclusive/Away.antt =====
-- src/lthread.c, src/lthread_poller.c: the containers of lthreads that sleep or wait, seen by another
-- lthread than the one that moves.
use lthread_concurrent.Prelude.{
  ℕ, ◌≤◌, ◌≡◌, ◌≢◌, Bool, true, some, arith, count, inl, inr, Option-cases,
}
use lthread_concurrent.Intrusive.{Intrusive, ids, has_id, insert_key, find_key, find_key-has_id}
use lthread_concurrent.State.{World}
use lthread_concurrent.Sched.Sleep.{remove_sleeping, desched_sleep_unsafe, fall_asleep}
use lthread_concurrent.Poller.{
  Event, poller_desched_event, event_key, fd_key, set_wait, u16, begin_wait_fd, mark_eof,
}
use lthread_concurrent.Sched.System.Exclusive.Counts.{count-insert_key, count-remove_id-le}
use lthread_concurrent.Sched.System.Exclusive.Apart.{Apart, Apart-trans, push-Apart}

module _ ⦃i : Intrusive⦄ where
  open i use {
    Tree, elems, entries, elems-tailq_insert_tail, elems-tailq_remove, tailq_first_lem,
    entries-rb_remove, rb_find_lem, rb_insert_free, rb_insert_taken,
  }

  pub remove_sleeping-Apart :
      (w : World) (lt y : ℕ)
      → has_id lt (entries (w.scheds (w.lts lt).sched).sleeping) ≡ true
      → Apart w (remove_sleeping w lt) y
  unfolding remove_sleeping
  remove_sleeping-Apart w lt y h =
      let t = (w.scheds (w.lts lt).sched).sleeping in
      let removed = entries-rb_remove t lt h in
      let less = count-remove_id-le y lt (entries t) in
      record {
        queue = λ j. ground arith;
        tree = λ j. ground (arith, removed, less);
        poller = ground arith;
        mark = ground arith;
        exited = ground arith;
        allocated = ground arith;
        sched = ground arith;
        is_running = ground arith;
        current = λ j. ground arith;
      }

  pub desched_sleep-Apart :
      (w : World) (lt y : ℕ)
      → lt ≢ y
      → has_id lt (entries (w.scheds (w.lts lt).sched).sleeping) ≡ true
      → Apart w (desched_sleep_unsafe w lt) y
  unfolding desched_sleep_unsafe
  desched_sleep-Apart w lt y d h =
      let v = remove_sleeping w lt in
      Apart-trans w v _ y (remove_sleeping-Apart w lt y h) (push-Apart v (w.lts lt).sched lt y d)

  pub fall_asleep-Apart :
      (w : World) (lt k : ℕ) (t : Tree) (y : ℕ)
      → lt ≢ y
      → entries t ≡ insert_key k lt (entries (w.scheds (w.lts lt).sched).sleeping)
      → Apart w (fall_asleep w lt k t) y
  unfolding fall_asleep
  fall_asleep-Apart w lt k t y d e =
      let c = count-insert_key y k lt (entries (w.scheds (w.lts lt).sched).sleeping) in
      record {
        queue = λ j. ground arith;
        tree = λ j. ground (arith, e, c);
        poller = ground arith;
        mark = ground arith;
        exited = ground arith;
        allocated = ground arith;
        sched = ground arith;
        is_running = ground arith;
        current = λ j. ground arith;
      }

  pub registers_lem :
      (w : World) (lt fd : ℕ) (ev : Event) (w' : World)
      → begin_wait_fd w lt fd ev ≡ some w'
      → (k : ℕ) × (entries w'.pool.poller.waiting ≡ insert_key k lt (entries w.pool.poller.waiting))
  unfolding begin_wait_fd
  registers_lem w lt fd ev w' e =
      let t = w.pool.poller.waiting in
      let l = w.lts lt in
      let k = fd_key (record l { state = set_wait ev true l.state; fd_wait = u16 fd }) in
      elim (Option-cases (find_key k (entries t))) [
        | inl q ↦ let h = rb_insert_free t k lt q in (k, ground arith)
        | inr (z, q) ↦ let h = rb_insert_taken t k lt z q in absurd (ground arith)
      ]

  registered :
      (w : World) (lt fd : ℕ) (ev : Event) (w' : World) (y : ℕ)
      → lt ≢ y
      → begin_wait_fd w lt fd ev ≡ some w'
      → count y (ids (entries w'.pool.poller.waiting))
        ≤ count y (ids (entries w.pool.poller.waiting))
      → Apart w w' y
  unfolding begin_wait_fd
  registered w lt fd ev w' y d e le = record {
    queue = λ j. ground arith;
    tree = λ j. ground arith;
    poller = le;
    mark = ground arith;
    exited = ground arith;
    allocated = ground arith;
    sched = ground arith;
    is_running = ground arith;
    current = λ j. ground arith;
  }

  pub registers-Apart :
      (w : World) (lt fd : ℕ) (ev : Event) (w' : World) (y : ℕ)
      → lt ≢ y
      → begin_wait_fd w lt fd ev ≡ some w'
      → Apart w w' y
  registers-Apart w lt fd ev w' y d e =
      let (k, inserted) = registers_lem w lt fd ev w' e in
      let c = count-insert_key y k lt (entries w.pool.poller.waiting) in
      registered w lt fd ev w' y d e (ground (arith, inserted, c))

  pub finds-Apart :
      (w : World) (lt fd : ℕ) (ev : Event) (w' : World) (y : ℕ)
      → lt ≢ y
      → poller_desched_event w fd ev ≡ (w', some lt)
      → Apart w w' y
  unfolding poller_desched_event
  finds-Apart w lt fd ev w' y d e =
      let t = w.pool.poller.waiting in
      let k = event_key fd ev in
      let found = rb_find_lem t k in
      let member = find_key-has_id k lt (entries t) in
      let removed = entries-rb_remove t lt in
      let less = count-remove_id-le y lt (entries t) in
      record {
        queue = λ j. ground arith;
        tree = λ j. ground arith;
        poller = ground (arith, found, member, removed, less);
        mark = ground arith;
        exited = ground arith;
        allocated = ground arith;
        sched = ground arith;
        is_running = ground arith;
        current = λ j. ground arith;
      }

  pub mark_eof-Apart :
      (w : World) (lt : ℕ) (is_eof : Bool) (y : ℕ) → Apart w (mark_eof w lt is_eof) y
  unfolding mark_eof
  mark_eof-Apart w lt is_eof y = record {
    queue = λ j. ground arith;
    tree = λ j. ground arith;
    poller = ground arith;
    mark = ground arith;
    exited = ground arith;
    allocated = ground arith;
    sched = ground arith;
    is_running = ground arith;
    current = λ j. ground arith;
  }
