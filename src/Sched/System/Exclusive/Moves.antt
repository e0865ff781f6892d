-- ===== src/Sched/System/Exclusive/Moves.antt =====
-- src/lthread.c: a step of the system, for the lthread that it moves.
use lthread_concurrent.Prelude.{
  ℕ, suc, ◌≤◌, ◌≡◌, ◌≢◌, refl, Bool, true, false, Bool-cases, inl, inr, arith, ℕ_discrete, count,
  [], ◌∷◌, count-append, some,
}
use mathlib.Core.Path.{subst}
use lthread_concurrent.Intrusive.{Intrusive}
use lthread_concurrent.State.{World}
use lthread_concurrent.Sched.Ready.{is_lt, sched_push_ready_unsafe, sched_pop_ready, adopt}
use lthread_concurrent.Sched.Switch.{resume}
use lthread_concurrent.Sched.System.{System, go, looping, found, chosen, running}
use lthread_concurrent.Sched.System.Exclusive.{Place, nowhere, queued, held, marked, Spot}
use lthread_concurrent.Sched.System.Exclusive.Counts.{count-erase-head}
use lthread_concurrent.Sched.System.Exclusive.Places.{queued_at, rests, flag_off, owner}

module _ ⦃i : Intrusive⦄ where
  open i use {elems, entries, elems-tailq_insert_tail, elems-tailq_remove, tailq_first_lem}

  push_queues-Spot :
      (x : System) (s lt : ℕ)
      → Spot x nowhere lt
      → (x.world.lts lt).allocated ≡ true
      → (x.world.lts lt).state.exited ≡ false
      → is_lt (x.world.scheds (x.world.lts lt).sched).current_lthread lt ≡ false
      → Spot
          (record x { world = sched_push_ready_unsafe x.world s lt })
          (queued (x.world.lts lt).sched)
          lt
  unfolding sched_push_ready_unsafe
  push_queues-Spot x s lt sp a e c =
      let k = (x.world.lts lt).sched in
      let q = elems-tailq_insert_tail (x.world.scheds k).ready lt in
      let n = count-append lt (elems (x.world.scheds k).ready) (lt ∷ []) in
      record {
        queue = λ j. ground (arith, q, n, sp.queue j);
        tree = λ j. ground (arith, sp.tree j);
        poller = ground (arith, sp.poller);
        hand = sp.hand;
        thread = sp.thread;
        mark = λ m. ground (arith, sp.mark);
        exited = λ m. ground arith;
        freed = λ m. ground arith;
        freed_rests = λ j m. ground arith;
        sched = λ j m. ground (arith, sp.sched j);
        current = λ j. ground (arith, sp.current j);
        calm = λ j m. ground (arith, sp.current j, sp.sched j);
        flag = λ m. sp.flag (ground arith);
      }

  push_marks-Spot :
      (x : System) (s lt : ℕ)
      → Spot x nowhere lt
      → (x.world.lts lt).allocated ≡ true
      → (x.world.lts lt).state.exited ≡ false
      → is_lt (x.world.scheds (x.world.lts lt).sched).current_lthread lt ≡ true
      → Spot (record x { world = sched_push_ready_unsafe x.world s lt }) marked lt
  unfolding sched_push_ready_unsafe
  push_marks-Spot x s lt sp a e c = record {
    queue = λ j. ground (arith, sp.queue j);
    tree = λ j. ground (arith, sp.tree j);
    poller = ground (arith, sp.poller);
    hand = sp.hand;
    thread = sp.thread;
    mark = λ m. refl;
    exited = λ m. ground arith;
    freed = λ m. ground arith;
    freed_rests = λ j m. ground arith;
    sched = λ j m. ground (arith, sp.sched j);
    current = λ j. ground (arith, sp.current j);
    calm = λ j m. refl;
    flag = λ m. sp.flag (ground arith);
  }

  -- An lthread that is nowhere is queued by a push, or marked if it runs.
  pub push-Spot :
      (x : System) (s lt : ℕ)
      → Spot x nowhere lt
      → (x.world.lts lt).allocated ≡ true
      → (x.world.lts lt).state.exited ≡ false
      → (q : Place) × Spot (record x { world = sched_push_ready_unsafe x.world s lt }) q lt
  push-Spot x s lt sp a e =
      let k = (x.world.lts lt).sched in
      elim (Bool-cases (is_lt (x.world.scheds k).current_lthread lt)) [
        | inl c ↦ (marked, push_marks-Spot x s lt sp a e c)
        | inr c ↦ (queued k, push_queues-Spot x s lt sp a e c)
      ]

  popped :
      (w : World) (j lt : ℕ) (block free : Bool) (w' : World)
      → sched_pop_ready w j block free ≡ (w', some lt)
      → suc (count lt (elems (w'.scheds j).ready)) ≡ count lt (elems (w.scheds j).ready)
  unfolding sched_pop_ready
  popped w j lt block free w' e =
      let q = (w.scheds j).ready in
      let first = tailq_first_lem q in
      let one_less = count-erase-head lt (elems q) in
      let removed = elems-tailq_remove q lt in ground (arith, first, one_less, removed)

  popped_same :
      (w : World) (j lt : ℕ) (block free : Bool) (w' : World)
      → sched_pop_ready w j block free ≡ (w', some lt)
      → (w'.lts ≡ w.lts)
        × ((k : ℕ) → j ≢ k → (w'.scheds k).ready ≡ (w.scheds k).ready)
        × ((k : ℕ) → (w'.scheds k).sleeping ≡ (w.scheds k).sleeping)
        × ((k : ℕ) → (w'.scheds k).current_lthread ≡ (w.scheds k).current_lthread)
        × (w'.pool ≡ w.pool)
  unfolding sched_pop_ready
  popped_same w j lt block free w' e =
      (ground arith, (λ k n. ground arith), (λ k. ground arith), (λ k. ground arith), ground arith)

  popped_queue :
      (x : System) (j lt : ℕ) (block free : Bool) (w' : World)
      → sched_pop_ready x.world j block free ≡ (w', some lt)
      → Spot x (queued j) lt
      → (k : ℕ) → count lt (elems (w'.scheds k).ready) ≤ 0
  popped_queue x j lt block free w' e sp k = elim (ℕ_discrete j k) [
    | yes d ↦
        subst (λ k. count lt (elems (w'.scheds k).ready) ≤ 0) d
          (ground (arith, popped x.world j lt block free w' e, sp.queue j))
    | no d ↦ ground (arith, (popped_same x.world j lt block free w' e).1 k d, sp.queue k)
  ]

  found-Spot :
      (x : System) (s j lt : ℕ) (block free : Bool) (w' : World)
      → x.pc s ≡ looping
      → sched_pop_ready x.world j block free ≡ (w', some lt)
      → Spot x (queued j) lt
      → Spot (go x w' s (found lt)) (held s) lt
  found-Spot x s j lt block free w' c e sp =
      let (lts, queues, trees, currents, pool) = popped_same x.world j lt block free w' e in
      let none_left = popped_queue x j lt block free w' e sp in
      record {
        queue = λ k. omega (arith, none_left k);
        tree = λ k. ground (arith, trees k, sp.tree k);
        poller = ground (arith, pool, sp.poller);
        hand = sp.hand;
        thread = λ k. ground (arith, sp.thread k);
        mark = λ m. absurd (ground (arith, lts, sp.mark));
        exited = λ m. absurd (ground (arith, lts, sp.exited));
        freed = λ m. absurd (ground (arith, lts, sp.freed));
        freed_rests = λ k m. ground (arith, lts, sp.freed_rests k);
        sched = λ k m. ground (arith, lts, sp.sched k);
        current = λ k. ground (arith, currents k, sp.current k);
        calm = λ k m. absurd (ground (arith, sp.calm k));
        flag = λ m. absurd (ground (arith, lts, flag_off x (queued j) lt sp refl));
      }

  -- A scheduler takes an lthread out of a queue,
  pub pop-Spot :
      (x : System) (s j lt : ℕ) (block free : Bool) (w' : World) (q : Place)
      → x.pc s ≡ looping
      → sched_pop_ready x.world j block free ≡ (w', some lt)
      → Spot x q lt
      → Spot (go x w' s (found lt)) (held s) lt
  pop-Spot x s j lt block free w' q c e sp =
      let at = queued_at q j (omega (arith, popped x.world j lt block free w' e, sp.queue j)) in
      found-Spot x s j lt block free w' c e (subst (λ q. Spot x q lt) at sp)

  -- makes it its own,
  pub adopted-Spot :
      (x : System) (s lt : ℕ)
      → x.pc s ≡ found lt
      → Spot x (held s) lt
      → Spot (go x (adopt x.world s (some lt)).0 s (chosen lt)) (held s) lt
  unfolding adopt
  adopted-Spot x s lt c sp = record {
    queue = λ k. ground (arith, sp.queue k);
    tree = λ k. ground (arith, sp.tree k);
    poller = ground (arith, sp.poller);
    hand = sp.hand;
    thread = λ k. ground (arith, sp.thread k);
    mark = λ m. absurd (ground (arith, sp.mark));
    exited = λ m. absurd (ground (arith, sp.exited));
    freed = λ m. absurd (ground (arith, sp.freed));
    freed_rests = λ k m. ground (arith, rests x (held s) lt k sp refl);
    sched = λ k m. ground (arith, owner x s k lt sp);
    current = λ k. ground (arith, sp.current k);
    calm = λ k m. absurd (ground (arith, rests x (held s) lt k sp refl));
    flag = λ m. absurd (ground (arith, flag_off x (held s) lt sp refl));
  }

  -- and resumes it.
  pub resumed_once-Spot :
      (x : System) (s lt : ℕ) (w' : World)
      → x.pc s ≡ chosen lt
      → resume x.world s lt ≡ some w'
      → Spot x (held s) lt
      → Spot (go x w' s (running lt)) nowhere lt
  unfolding resume
  resumed_once-Spot x s lt w' c e sp = record {
    queue = λ k. ground (arith, sp.queue k);
    tree = λ k. ground (arith, sp.tree k);
    poller = ground (arith, sp.poller);
    hand = sp.hand;
    thread = λ k. ground (arith, sp.thread k);
    mark = λ m. absurd (ground (arith, sp.mark));
    exited = λ m. refl;
    freed = λ m. refl;
    freed_rests = λ k m. absurd (ground (arith, sp.freed));
    sched = λ k m. ground (arith, owner x s k lt sp);
    current = λ k. ground (arith, sp.current k);
    calm = λ k m. refl;
    flag = λ m. (s, ground arith);
  }
