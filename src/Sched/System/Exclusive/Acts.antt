-- ===== src/Sched/System/Exclusive/Acts.antt =====
-- src/lthread.c, src/lthread_poller.c: the orderly acts of a running lthread, and the places of
-- lthreads.
use lthread_concurrent.Prelude.{
  ℕ, ◌≡◌, ◌≢◌, refl, true, false, inl, inr, arith, sym, ℕ_discrete, some, Option, ◌⊎◌,
}
use mathlib.Core.Path.{subst}
use lthread_concurrent.Intrusive.{Intrusive, has_id}
use lthread_concurrent.State.{World, with_lt}
use lthread_concurrent.Sched.Ready.{sched_push_ready_unsafe}
use lthread_concurrent.Sched.Sleep.{wakeup_round, desched_sleep_unsafe, fall_asleep}
use lthread_concurrent.Sched.Switch.{create, allocate, yield_resched, exit}
use lthread_concurrent.Sched.System.{
  Pc, System, go, Act, creates, wakes, yields, exits, sleeps, registers, blocks,
}
use lthread_concurrent.Sched.System.Exclusive.{Place, Spot, IsParked, IsOrderlyAct, nowhere, marked}
use lthread_concurrent.Sched.System.Exclusive.Apart.{Apart, Apart-trans, with_lt-Apart, push-Apart}
use lthread_concurrent.Sched.System.Exclusive.Away.{
  desched_sleep-Apart, fall_asleep-Apart, registers-Apart,
}
use lthread_concurrent.Sched.System.Exclusive.Counts.{has_id-count}
use lthread_concurrent.Sched.System.Exclusive.Idle.{blocks-Apart, sched_sleep-cases}
use lthread_concurrent.Sched.System.Exclusive.Changes.{Less, Spot-go, Spot-world}
use lthread_concurrent.Sched.System.Exclusive.Moves.{push-Spot}
use lthread_concurrent.Sched.System.Exclusive.Places.{parked-Spot}
use lthread_concurrent.Sched.System.Exclusive.Blocking.{
  desched_sleep-Spot, fresh-Spot, yields-Spot, exits-Spot, falls_asleep-Spot,
}
use lthread_concurrent.Sched.System.Exclusive.Polling.{registers-Spot}

module _ ⦃i : Intrusive⦄ where
  open i use {entries, rb_min_lem}

  -- Each lthread is at one place.
  abbrev pub IsExclusive : System → Type 0
  IsExclusive x = (y : ℕ) → (q : Place) × Spot x q y

  -- A step that moves lthread `lt` only
  pub moved-IsExclusive :
      (x x' : System) (lt : ℕ)
      → ((q : Place) → Spot x q lt → (r : Place) × Spot x' r lt)
      → ((y : ℕ) (q : Place) → lt ≢ y → Spot x q y → Spot x' q y)
      → IsExclusive x
      → IsExclusive x'
  moved-IsExclusive x x' lt here there inv y =
      let (q, sp) = inv y in
      elim (ℕ_discrete lt y) [
        | yes e ↦ subst (λ y. (r : Place) × Spot x' r y) e (let (r, sp') = inv lt in here r sp')
        | no d ↦ (q, there y q d sp)
      ]

  -- A step that moves none
  pub kept-IsExclusive :
      (x x' : System)
      → ((y : ℕ) (q : Place) → Spot x q y → Spot x' q y)
      → IsExclusive x
      → IsExclusive x'
  kept-IsExclusive x x' k inv y = let (q, sp) = inv y in (q, k y q sp)

  -- The world changes, for lthread `lt` only.
  pub world-IsExclusive :
      (x : System) (w : World) (lt : ℕ)
      → ((q : Place) → Spot x q lt → (r : Place) × Spot (record x { world = w }) r lt)
      → ((y : ℕ) → lt ≢ y → Apart x.world w y)
      → IsExclusive x
      → IsExclusive (record x { world = w })
  world-IsExclusive x w lt here there inv =
      moved-IsExclusive x (record x { world = w }) lt here
        (λ y q d sp. Spot-world x w x.hand q y (there y d) (omega arith) sp) inv

  -- The same by the thread of scheduler `s`, which moves on to `p`
  pub go-IsExclusive :
      (x : System) (w : World) (s : ℕ) (p : Pc) (lt : ℕ)
      → ((q : Place) → Spot x q lt → (r : Place) × Spot (go x w s p) r lt)
      → ((y : ℕ) (q : Place) → lt ≢ y → Spot x q y → Apart x.world w y)
      → ((y : ℕ) → lt ≢ y → Less (x.pc s) p y)
      → IsExclusive x
      → IsExclusive (go x w s p)
  go-IsExclusive x w s p lt here there less inv =
      moved-IsExclusive x (go x w s p) lt here
        (λ y q d sp. Spot-go x w s p q y (there y q d sp) (less y d) sp) inv

  -- No lthread moves, and the thread of scheduler `s` moves on to `p`.
  pub quiet-IsExclusive :
      (x : System) (w : World) (s : ℕ) (p : Pc)
      → ((y : ℕ) → Apart x.world w y)
      → ((y : ℕ) → Less (x.pc s) p y)
      → IsExclusive x
      → IsExclusive (go x w s p)
  quiet-IsExclusive x w s p there less inv =
      kept-IsExclusive x (go x w s p) (λ y q sp. Spot-go x w s p q y (there y) (less y) sp) inv

  pub creates-IsExclusive :
      (x : System) (s new fun arg : ℕ) (w : World) (r : Option ℕ)
      → create x.world (some s) (some new) fun arg ≡ (w, r)
      → (x.world.lts new).allocated ≡ false
      → IsExclusive x
      → IsExclusive (record x { world = w })
  unfolding create
  creates-IsExclusive x s new fun arg w r e f inv =
      let l = record (allocate s) {
        is_running = false;
        is_blocked = false;
        fun = fun;
        arg = arg;
      } in
      let v = with_lt x.world new l in
      let made : sched_push_ready_unsafe v s new ≡ w = ground arith in
      subst (λ w. IsExclusive (record x { world = w })) made
        (world-IsExclusive x (sched_push_ready_unsafe v s new) new
          (λ q sp.
            push-Spot (record x { world = v }) s new (fresh-Spot x q new l f refl refl refl refl sp)
              (ground arith) (ground arith))
          (λ y d.
            Apart-trans x.world v _ y (with_lt-Apart x.world new y l d) (push-Apart v s new y d))
          inv)

  wakes-IsExclusive :
      (x : System) (z : ℕ) (w : World)
      → ((x.world.lts z).sleep_usecs ≡ 0)
        ⊎ (has_id z (entries (x.world.scheds (x.world.lts z).sched).sleeping) ≡ true)
      → wakeup_round x.world (x.world.lts z).sched z ≡ some w
      → IsParked x z
      → IsExclusive x
      → IsExclusive (record x { world = w })
  unfolding wakeup_round
  wakes-IsExclusive x z w can e parked inv =
      let s = (x.world.lts z).sched in
      let absent = has_id-count z (entries (x.world.scheds s).sleeping) in
      let unstamped : (x.world.lts z).sleep_usecs ≡ 0 =
        ground (arith, can, absent, parked.tree s) in
      let woken : sched_push_ready_unsafe x.world s z ≡ w = ground arith in
      subst (λ w. IsExclusive (record x { world = w })) woken
        (world-IsExclusive x (sched_push_ready_unsafe x.world s z) z
          (λ q sp. push-Spot x s z (parked-Spot x q z parked sp) parked.allocated parked.alive)
          (λ y d. push-Apart x.world s z y d) inv)

  ends_sleep-IsExclusive :
      (x : System) (z : ℕ) (w : World)
      → wakeup_round x.world (x.world.lts z).sched z ≡ some w
      → (x.world.lts z).sleep_usecs ≢ 0
      → has_id z (entries (x.world.scheds (x.world.lts z).sched).sleeping) ≡ true
      → IsExclusive x
      → IsExclusive (record x { world = w })
  unfolding wakeup_round
  ends_sleep-IsExclusive x z w e n h inv =
      let woken : desched_sleep_unsafe x.world z ≡ w = ground arith in
      subst (λ w. IsExclusive (record x { world = w })) woken
        (world-IsExclusive x (desched_sleep_unsafe x.world z) z
          (λ q sp. desched_sleep-Spot x q z h sp) (λ y d. desched_sleep-Apart x.world z y d h) inv)

  -- An act of the running lthread keeps each lthread at one place, if it is orderly.
  pub Act-IsExclusive :
      (x : System) (s lt : ℕ) {w : World}
      → (a : Act s lt x.world w) → IsOrderlyAct x a
      → IsExclusive x
      → IsExclusive (record x { world = w })
  Act-IsExclusive x s lt {w} (creates new fun arg {w' = _} {r = r} e) f inv =
      creates-IsExclusive x s new fun arg w r e f inv
  Act-IsExclusive x s lt {w} (wakes z can e) (inl parked) inv =
      wakes-IsExclusive x z w can e parked inv
  Act-IsExclusive x s lt {w} (wakes z can e) (inr (n, h)) inv =
      ends_sleep-IsExclusive x z w e n h inv
  Act-IsExclusive x s lt yields parked inv =
      world-IsExclusive x (yield_resched x.world lt) lt
        (λ q sp.
          (marked, yields-Spot x lt parked.allocated parked.alive (parked-Spot x q lt parked sp)))
        (λ y d. unfold yield_resched in with_lt-Apart x.world lt y _ d) inv
  Act-IsExclusive x s lt exits parked inv =
      world-IsExclusive x (exit x.world lt) lt
        (λ q sp. (nowhere, exits-Spot x lt (parked-Spot x q lt parked sp)))
        (λ y d. unfold exit in with_lt-Apart x.world lt y _ d) inv
  Act-IsExclusive x s lt {w} (sleeps f msecs now own e) parked inv =
      elim (sched_sleep-cases f x.world lt msecs now w e) [
        | inl a ↦
            kept-IsExclusive x (record x { world = w })
              (λ y q sp. Spot-world x w x.hand q y (a y) (omega arith) sp) inv
        | inr (k, t, e, entered) ↦
            subst (λ w. IsExclusive (record x { world = w })) (sym e)
              (world-IsExclusive x (fall_asleep x.world lt k t) lt
                (λ q sp. (
                  _,
                  falls_asleep-Spot x lt k t parked.allocated parked.alive parked.unmarked entered
                      (parked-Spot x q lt parked sp),
                ))
                (λ y d. fall_asleep-Apart x.world lt k t y d entered) inv)
      ]
  Act-IsExclusive x s lt {w} (registers fd ev e) parked inv =
      world-IsExclusive x w lt
        (λ q sp. (
          _,
          registers-Spot x lt fd ev w parked.allocated parked.alive parked.unmarked e
              (parked-Spot x q lt parked sp),
        ))
        (λ y d. registers-Apart x.world lt fd ev w y d e) inv
  Act-IsExclusive x s lt {w} (blocks z b) o inv =
      kept-IsExclusive x (record x { world = w })
        (λ y q sp. Spot-world x w x.hand q y (blocks-Apart x.world z y b) (omega arith) sp) inv
