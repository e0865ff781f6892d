-- ===== src/Sched/System/Exclusive/Polling.antt =====
-- src/lthread_poller.c: registration and delivery, for the lthread that waits.
use lthread_concurrent.Prelude.{
  ℕ, suc, ◌≤◌, ◌≡◌, refl, Bool, true, false, arith, ◌∙◌, sym, count, some,
}
use mathlib.Core.Path.{subst}
use lthread_concurrent.Intrusive.{Intrusive, ids, find_key-has_id}
use lthread_concurrent.State.{World}
use lthread_concurrent.Sched.Ready.{desched_event}
use lthread_concurrent.Poller.{Event, event_key, poller_desched_event, begin_wait_fd, mark_eof}
use lthread_concurrent.Sched.System.{System, idle, handing, settling}
use lthread_concurrent.Sched.System.Exclusive.{
  Place, nowhere, waits, handed, Spot, in_queue, in_tree, in_thread, in_poller, in_hand, hands_over,
  may_run,
}
use lthread_concurrent.Sched.System.Exclusive.Away.{registers_lem}
use lthread_concurrent.Sched.System.Exclusive.Counts.{count-insert_key, count-remove_id}
use lthread_concurrent.Sched.System.Exclusive.Moves.{push-Spot}
use lthread_concurrent.Sched.System.Exclusive.Places.{waits_at, handed_at}

module _ ⦃i : Intrusive⦄ where
  open i use {Tree, elems, entries, entries-rb_remove, rb_find_lem}

  -- What registration and delivery leave alone.
  record Kept (w w' : World) (y : ℕ) : Type 0 where
    scheds : w'.scheds ≡ w.scheds
    mark : (w'.lts y).needs_resched ≡ (w.lts y).needs_resched
    exited : (w'.lts y).state.exited ≡ (w.lts y).state.exited
    allocated : (w'.lts y).allocated ≡ (w.lts y).allocated
    sched : (w'.lts y).sched ≡ (w.lts y).sched
    is_running : (w'.lts y).is_running ≡ (w.lts y).is_running

  -- The lthread is now with the poller, and was nowhere or with it before.
  moved-Spot :
      (x x' : System) (q r : Place) (y : ℕ)
      → Kept x.world x'.world y
      → x'.pc ≡ x.pc
      → count y (ids (entries x'.world.pool.poller.waiting)) ≤ in_poller r
      → hands_over x'.hand y ≤ in_hand r
      → may_run r ≡ true
      → ((j : ℕ) → in_queue q j ≤ 0)
      → ((j : ℕ) → in_tree q j ≤ 0)
      → ((j : ℕ) → in_thread q j ≤ 0)
      → (x.world.lts y).allocated ≡ true
      → (x.world.lts y).state.exited ≡ false
      → (x.world.lts y).needs_resched ≡ false
      → Spot x q y
      → Spot x' r y
  moved-Spot x x' q r y k pc w h m q0 t0 s0 a e n sp = record {
    queue = λ j. ground (arith, k.scheds, q0 j, sp.queue j);
    tree = λ j. ground (arith, k.scheds, t0 j, sp.tree j);
    poller = w;
    hand = h;
    thread = λ j. ground (arith, pc, s0 j, sp.thread j);
    mark = λ d. absurd (ground (arith, k.mark));
    exited = λ d. absurd (ground (arith, k.exited));
    freed = λ d. absurd (ground (arith, k.allocated));
    freed_rests = λ j d. absurd (ground (arith, k.allocated));
    sched = λ j d. ground (arith, pc, k.sched, sp.sched j);
    current = λ j. ground (arith, pc, k.scheds, sp.current j);
    calm = λ j d. m;
    flag = λ d. let (j, c) = sp.flag (sym k.is_running ∙ d) in (j, ground (arith, pc, c));
  }

  registers-Kept :
      (w : World) (lt fd : ℕ) (ev : Event) (w' : World)
      → begin_wait_fd w lt fd ev ≡ some w'
      → Kept w w' lt
  unfolding begin_wait_fd
  registers-Kept w lt fd ev w' e = record {
    scheds = ground arith;
    mark = ground arith;
    exited = ground arith;
    allocated = ground arith;
    sched = ground arith;
    is_running = ground arith;
  }

  finds-Kept :
      (w : World) (lt fd : ℕ) (ev : Event) (w' : World)
      → poller_desched_event w fd ev ≡ (w', some lt)
      → Kept w w' lt
  unfolding poller_desched_event
  finds-Kept w lt fd ev w' e = record {
    scheds = ground arith;
    mark = ground arith;
    exited = ground arith;
    allocated = ground arith;
    sched = ground arith;
    is_running = ground arith;
  }

  found_less :
      (w : World) (lt fd : ℕ) (ev : Event) (w' : World)
      → poller_desched_event w fd ev ≡ (w', some lt)
      → suc (count lt (ids (entries w'.pool.poller.waiting)))
        ≡ count lt (ids (entries w.pool.poller.waiting))
  unfolding poller_desched_event
  found_less w lt fd ev w' e =
      let t = w.pool.poller.waiting in
      let k = event_key fd ev in
      let found = rb_find_lem t k in
      let member = find_key-has_id k lt (entries t) in
      let removed = entries-rb_remove t lt in
      let less = count-remove_id lt (entries t) in ground (arith, found, member, removed, less)

  pub registers-Spot :
      (x : System) (lt fd : ℕ) (ev : Event) (w' : World)
      → (x.world.lts lt).allocated ≡ true
      → (x.world.lts lt).state.exited ≡ false
      → (x.world.lts lt).needs_resched ≡ false
      → begin_wait_fd x.world lt fd ev ≡ some w'
      → Spot x nowhere lt
      → Spot (record x { world = w' }) waits lt
  registers-Spot x lt fd ev w' a e n r sp =
      let (k, inserted) = registers_lem x.world lt fd ev w' r in
      let c = count-insert_key lt k lt (entries x.world.pool.poller.waiting) in
      moved-Spot x (record x { world = w' }) nowhere waits lt (registers-Kept x.world lt fd ev w' r)
        refl (ground (arith, inserted, c, sp.poller)) sp.hand refl (λ j. omega arith)
        (λ j. omega arith) (λ j. omega arith) a e n sp

  pub finds-Spot :
      (x : System) (q : Place) (lt fd : ℕ) (ev : Event) (is_eof : Bool) (w' : World)
      → x.hand ≡ idle
      → poller_desched_event x.world fd ev ≡ (w', some lt)
      → Spot x q lt
      → Spot (record x { world = w'; hand = handing lt is_eof }) handed lt
  finds-Spot x q lt fd ev is_eof w' h e sp =
      let less = found_less x.world lt fd ev w' e in
      let at = waits_at q (omega (arith, less, sp.poller)) in
      let there = subst (λ q. Spot x q lt) at sp in
      moved-Spot x (record x { world = w'; hand = handing lt is_eof }) waits handed lt
        (finds-Kept x.world lt fd ev w' e) refl (ground (arith, less, there.poller)) (ground arith)
        refl (λ j. omega arith) (λ j. omega arith) (λ j. omega arith) (ground (arith, there.freed))
        (ground (arith, there.exited)) (ground (arith, there.mark)) there

  hands_free-Spot :
      (x : System) (lt : ℕ) (is_eof : Bool)
      → x.hand ≡ handing lt is_eof
      → Spot x handed lt
      → Spot (record x { world = mark_eof x.world lt is_eof; hand = settling }) nowhere lt
  unfolding mark_eof
  hands_free-Spot x lt is_eof h sp = record {
    queue = λ j. ground (arith, sp.queue j);
    tree = λ j. ground (arith, sp.tree j);
    poller = ground (arith, sp.poller);
    hand = omega arith;
    thread = sp.thread;
    mark = λ m. absurd (ground (arith, sp.mark));
    exited = λ m. refl;
    freed = λ m. refl;
    freed_rests = λ k m. sp.freed_rests k (ground arith);
    sched = λ k m. ground (arith, sp.sched k);
    current = λ k. ground (arith, sp.current k);
    calm = λ k m. refl;
    flag = λ m. sp.flag (ground arith);
  }

  pub hands-Spot :
      (x : System) (q : Place) (lt : ℕ) (is_eof : Bool)
      → x.hand ≡ handing lt is_eof
      → Spot x q lt
      → (r : Place) × Spot
          (record x { world = desched_event (mark_eof x.world lt is_eof) lt; hand = settling })
          r
          lt
  unfolding desched_event
  hands-Spot x q lt is_eof h sp =
      let at = handed_at q (ground (arith, sp.hand)) in
      let there = subst (λ q. Spot x q lt) at sp in
      let v = mark_eof x.world lt is_eof in
      push-Spot (record x { world = v; hand = settling }) (v.lts lt).sched lt
        (hands_free-Spot x lt is_eof h there) (unfold mark_eof in ground (arith, there.freed))
        (unfold mark_eof in ground (arith, there.exited))
