-- ===== src/Sched/System/Exclusive/Blocking.antt =====
-- src/lthread.c: what a running lthread does, for the lthread that is woken or made, or that
-- yields, sleeps or ends.
use lthread_concurrent.Prelude.{ℕ, ◌≡◌, refl, true, false, arith}
use mathlib.Core.Path.{subst}
use lthread_concurrent.Intrusive.{Intrusive, has_id, insert_key}
use lthread_concurrent.State.{Lthread, with_lt}
use lthread_concurrent.Sched.Sleep.{remove_sleeping, desched_sleep_unsafe, fall_asleep}
use lthread_concurrent.Sched.Switch.{yield_resched, exit}
use lthread_concurrent.Sched.System.{System}
use lthread_concurrent.Sched.System.Exclusive.{Place, nowhere, asleep, marked, Spot, owns}
use lthread_concurrent.Sched.System.Exclusive.Counts.{
  count-insert_key, has_id-count, count-remove_id,
}
use lthread_concurrent.Sched.System.Exclusive.Moves.{push-Spot}
use lthread_concurrent.Sched.System.Exclusive.Places.{asleep_at, owns-cases}

module _ ⦃i : Intrusive⦄ where
  open i use {Tree, elems, entries, entries-rb_remove, rb_find_lem}

  asleep-Spot :
      (x : System) (q : Place) (lt s : ℕ)
      → has_id lt (entries (x.world.scheds s).sleeping) ≡ true
      → Spot x q lt
      → q ≡ asleep s
  asleep-Spot x q lt s h sp =
      asleep_at q s
        (omega (arith, has_id-count lt (entries (x.world.scheds s).sleeping) h, sp.tree s))

  removed-Spot :
      (x : System) (lt : ℕ)
      → has_id lt (entries (x.world.scheds (x.world.lts lt).sched).sleeping) ≡ true
      → Spot x (asleep (x.world.lts lt).sched) lt
      → Spot (record x { world = remove_sleeping x.world lt }) nowhere lt
  unfolding remove_sleeping
  removed-Spot x lt h sp =
      let t = (x.world.scheds (x.world.lts lt).sched).sleeping in
      let less = count-remove_id lt (entries t) h in
      let removed = entries-rb_remove t lt h in
      record {
        queue = λ k. ground (arith, sp.queue k);
        tree = λ k. ground (arith, less, removed, sp.tree k);
        poller = sp.poller;
        hand = sp.hand;
        thread = sp.thread;
        mark = λ m. absurd (ground (arith, sp.mark));
        exited = λ m. refl;
        freed = λ m. refl;
        freed_rests = sp.freed_rests;
        sched = sp.sched;
        current = λ k. ground (arith, sp.current k);
        calm = λ k m. refl;
        flag = sp.flag;
      }

  -- A sleeper leaves its tree, and is queued or marked.
  pub desched_sleep-Spot :
      (x : System) (q : Place) (lt : ℕ)
      → has_id lt (entries (x.world.scheds (x.world.lts lt).sched).sleeping) ≡ true
      → Spot x q lt
      → (r : Place) × Spot (record x { world = desched_sleep_unsafe x.world lt }) r lt
  unfolding desched_sleep_unsafe
  desched_sleep-Spot x q lt h sp =
      let s = (x.world.lts lt).sched in
      let there = subst (λ q. Spot x q lt) (asleep-Spot x q lt s h sp) sp in
      push-Spot (record x { world = remove_sleeping x.world lt }) s lt (removed-Spot x lt h there)
        (unfold remove_sleeping in ground (arith, there.freed))
        (unfold remove_sleeping in ground (arith, there.exited))

  owner-placed :
      (x : System) (q : Place) (lt s : ℕ)
      → Spot x q lt
      → (x.world.lts lt).allocated ≡ false
      → owns (x.pc s) lt ≡ false
  owner-placed x q lt s sp f =
      ground (arith, sp.freed f, sp.freed_rests s f, sp.thread s, owns-cases (x.pc s) lt)

  -- A new structure, in memory that was not in use
  pub fresh-Spot :
      (x : System) (q : Place) (lt : ℕ) (l : Lthread)
      → (x.world.lts lt).allocated ≡ false
      → l.needs_resched ≡ false
      → l.state.exited ≡ false
      → l.allocated ≡ true
      → l.is_running ≡ false
      → Spot x q lt
      → Spot (record x { world = with_lt x.world lt l }) nowhere lt
  fresh-Spot x q lt l f n e a r sp =
      let none_there = sp.freed f in
      record {
        queue = λ k. ground (arith, none_there, sp.queue k);
        tree = λ k. ground (arith, none_there, sp.tree k);
        poller = ground (arith, none_there, sp.poller);
        hand = ground (arith, none_there, sp.hand);
        thread = λ k. ground (arith, none_there, sp.thread k);
        mark = λ m. absurd (ground arith);
        exited = λ m. refl;
        freed = λ m. refl;
        freed_rests = λ k m. sp.freed_rests k f;
        sched = λ k m. absurd (ground (arith, owner-placed x q lt k sp f));
        current = sp.current;
        calm = λ k m. refl;
        flag = λ m. absurd (ground arith);
      }

  pub yields-Spot :
      (x : System) (lt : ℕ)
      → (x.world.lts lt).allocated ≡ true
      → (x.world.lts lt).state.exited ≡ false
      → Spot x nowhere lt
      → Spot (record x { world = yield_resched x.world lt }) marked lt
  unfolding yield_resched
  yields-Spot x lt a e sp = record {
    queue = sp.queue;
    tree = sp.tree;
    poller = sp.poller;
    hand = sp.hand;
    thread = sp.thread;
    mark = λ m. refl;
    exited = λ m. absurd (ground arith);
    freed = λ m. absurd (ground arith);
    freed_rests = λ k m. sp.freed_rests k (ground arith);
    sched = λ k m. ground (arith, sp.sched k);
    current = sp.current;
    calm = λ k m. refl;
    flag = λ m. sp.flag (ground arith);
  }

  pub exits-Spot :
      (x : System) (lt : ℕ)
      → Spot x nowhere lt
      → Spot (record x { world = exit x.world lt }) nowhere lt
  unfolding exit
  exits-Spot x lt sp = record {
    queue = sp.queue;
    tree = sp.tree;
    poller = sp.poller;
    hand = sp.hand;
    thread = sp.thread;
    mark = λ m. sp.mark (ground arith);
    exited = λ m. refl;
    freed = λ m. refl;
    freed_rests = λ k m. sp.freed_rests k (ground arith);
    sched = λ k m. ground (arith, sp.sched k);
    current = sp.current;
    calm = λ k m. refl;
    flag = λ m. sp.flag (ground arith);
  }

  pub falls_asleep-Spot :
      (x : System) (lt k : ℕ) (t : Tree)
      → (x.world.lts lt).allocated ≡ true
      → (x.world.lts lt).state.exited ≡ false
      → (x.world.lts lt).needs_resched ≡ false
      → entries t ≡ insert_key k lt (entries (x.world.scheds (x.world.lts lt).sched).sleeping)
      → Spot x nowhere lt
      → Spot (record x { world = fall_asleep x.world lt k t }) (asleep (x.world.lts lt).sched) lt
  unfolding fall_asleep
  falls_asleep-Spot x lt k t a e n inserted sp =
      let s = (x.world.lts lt).sched in
      let c = count-insert_key lt k lt (entries (x.world.scheds s).sleeping) in
      record {
        queue = λ j. ground (arith, sp.queue j);
        tree = λ j. ground (arith, inserted, c, sp.tree j);
        poller = sp.poller;
        hand = sp.hand;
        thread = sp.thread;
        mark = λ m. absurd (ground arith);
        exited = λ m. absurd (ground arith);
        freed = λ m. absurd (ground arith);
        freed_rests = λ j m. sp.freed_rests j (ground arith);
        sched = λ j m. ground (arith, sp.sched j);
        current = λ j. ground (arith, sp.current j);
        calm = λ j m. refl;
        flag = λ m. sp.flag (ground arith);
      }
