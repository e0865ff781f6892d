-- ===== src/Sched/System/Exclusive/Apart.antt =====
-- src/lthread.c: the critical sections that move one lthread, seen by another.
use lthread_concurrent.Prelude.{
  ℕ, ◌≤◌, ◌≡◌, ◌≢◌, Bool, false, some, [], ◌∷◌, arith, count, count-append, count-erase-le, ◌∙◌,
}
use lthread_concurrent.Intrusive.{Intrusive, ids}
use lthread_concurrent.State.{World, Lthread, with_lt}
use lthread_concurrent.Sched.Ready.{sched_pop_ready, adopt, sched_push_ready_unsafe, is_lt}
use lthread_concurrent.Sched.Switch.{resume, resumed}
use lthread_concurrent.Sched.System.Exclusive.Counts.{head?-elem}

module _ ⦃i : Intrusive⦄ where
  open i use {
    Tree, elems, entries, elems-tailq_insert_tail, elems-tailq_remove, tailq_first_lem,
    entries-rb_remove, rb_find_lem, rb_insert_free, rb_insert_taken,
  }

  -- What lthread `y` can be told by is the same, and it is no more often in a container.
  pub record Apart (w w' : World) (y : ℕ) : Type 0 where
    pub queue : (j : ℕ) → count y (elems (w'.scheds j).ready) ≤ count y (elems (w.scheds j).ready)
    pub tree :
        (j : ℕ)
        → count y (ids (entries (w'.scheds j).sleeping))
          ≤ count y (ids (entries (w.scheds j).sleeping))
    pub poller :
        count y (ids (entries w'.pool.poller.waiting))
        ≤ count y (ids (entries w.pool.poller.waiting))
    pub mark : (w'.lts y).needs_resched ≡ (w.lts y).needs_resched
    pub exited : (w'.lts y).state.exited ≡ (w.lts y).state.exited
    pub allocated : (w'.lts y).allocated ≡ (w.lts y).allocated
    pub sched : (w'.lts y).sched ≡ (w.lts y).sched
    pub is_running : (w'.lts y).is_running ≡ (w.lts y).is_running
    pub current :
        (j : ℕ) → is_lt (w'.scheds j).current_lthread y ≡ is_lt (w.scheds j).current_lthread y

  pub push-Apart : (w : World) (s lt y : ℕ) → lt ≢ y → Apart w (sched_push_ready_unsafe w s lt) y
  unfolding sched_push_ready_unsafe
  push-Apart w s lt y d =
      let q = elems-tailq_insert_tail (w.scheds (w.lts lt).sched).ready lt in
      let c = count-append y (elems (w.scheds (w.lts lt).sched).ready) (lt ∷ []) in
      record {
        queue = λ j. ground (arith, q, c);
        tree = λ j. ground arith;
        poller = ground arith;
        mark = ground arith;
        exited = ground arith;
        allocated = ground arith;
        sched = ground arith;
        is_running = ground arith;
        current = λ j. ground arith;
      }

  pub Apart-trans : (w v u : World) (y : ℕ) → Apart w v y → Apart v u y → Apart w u y
  Apart-trans w v u y a b = record {
    queue = λ j. omega (arith, a.queue j, b.queue j);
    tree = λ j. omega (arith, a.tree j, b.tree j);
    poller = omega (arith, a.poller, b.poller);
    mark = b.mark ∙ a.mark;
    exited = b.exited ∙ a.exited;
    allocated = b.allocated ∙ a.allocated;
    sched = b.sched ∙ a.sched;
    is_running = b.is_running ∙ a.is_running;
    current = λ j. b.current j ∙ a.current j;
  }

  pub with_lt-Apart : (w : World) (lt y : ℕ) (l : Lthread) → lt ≢ y → Apart w (with_lt w lt l) y
  with_lt-Apart w lt y l d = record {
    queue = λ j. omega arith;
    tree = λ j. omega arith;
    poller = omega arith;
    mark = ground arith;
    exited = ground arith;
    allocated = ground arith;
    sched = ground arith;
    is_running = ground arith;
    current = λ j. ground arith;
  }

  pub pop-Apart :
      (w : World) (j lt : ℕ) (block free : Bool) (w' : World) (y : ℕ)
      → sched_pop_ready w j block free ≡ (w', some lt)
      → Apart w w' y
  unfolding sched_pop_ready
  pop-Apart w j lt block free w' y e =
      let q = (w.scheds j).ready in
      let first = tailq_first_lem q in
      let member = head?-elem lt (elems q) in
      let removed = elems-tailq_remove q lt in
      let less = count-erase-le lt y (elems q) in
      record {
        queue = λ j. ground (arith, first, member, removed, less);
        tree = λ j. ground arith;
        poller = ground arith;
        mark = ground arith;
        exited = ground arith;
        allocated = ground arith;
        sched = ground arith;
        is_running = ground arith;
        current = λ j. ground arith;
      }

  pub adopt-Apart : (w : World) (s lt y : ℕ) → lt ≢ y → Apart w (adopt w s (some lt)).0 y
  unfolding adopt
  adopt-Apart w s lt y d = record {
    queue = λ j. ground arith;
    tree = λ j. ground arith;
    poller = ground arith;
    mark = ground arith;
    exited = ground arith;
    allocated = ground arith;
    sched = ground arith;
    is_running = ground arith;
    current = λ j. ground arith;
  }

  pub resume-Apart :
      (w : World) (s lt : ℕ) (w' : World) (y : ℕ)
      → lt ≢ y
      → is_lt (w.scheds s).current_lthread y ≡ false
      → resume w s lt ≡ some w'
      → Apart w w' y
  unfolding resume
  resume-Apart w s lt w' y d c e = record {
    queue = λ j. ground arith;
    tree = λ j. ground arith;
    poller = ground arith;
    mark = ground arith;
    exited = ground arith;
    allocated = ground arith;
    sched = ground arith;
    is_running = ground arith;
    current = λ j. ground arith;
  }

  pub resumed-Apart :
      (w : World) (s lt y : ℕ)
      → lt ≢ y
      → is_lt (w.scheds s).current_lthread y ≡ false
      → Apart w (resumed w s lt) y
  unfolding resumed
  resumed-Apart w s lt y d o =
      let q = elems-tailq_insert_tail (w.scheds (w.lts lt).sched).ready lt in
      let c = count-append y (elems (w.scheds (w.lts lt).sched).ready) (lt ∷ []) in
      record {
        queue = λ j. ground (arith, q, c);
        tree = λ j. ground arith;
        poller = ground arith;
        mark = ground arith;
        exited = ground arith;
        allocated = ground arith;
        sched = ground arith;
        is_running = ground arith;
        current = λ j. ground arith;
      }
