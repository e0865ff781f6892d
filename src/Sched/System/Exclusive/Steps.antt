-- ===== src/Sched/System/Exclusive/Steps.antt =====
-- src/lthread.c, _lthread_run_sched, and src/lthread_poller.c: the orderly steps, and the places of
-- lthreads.
use lthread_concurrent.Prelude.{ℕ, ◌≡◌, refl, true, false, arith, ◌∙◌, sym, ap, some}
use mathlib.Core.Path.{subst}
use lthread_concurrent.Intrusive.{Intrusive, has_id}
use lthread_concurrent.Sched.Ready.{adopt, desched_event}
use lthread_concurrent.Sched.Sleep.{desched_sleep_unsafe}
use lthread_concurrent.Sched.Switch.{resumed}
use lthread_concurrent.Sched.Loop.{waits, again, finished, leave, end_wait}
use lthread_concurrent.Poller.{mark_eof, settle_event}
use lthread_concurrent.Sched.System.{
  Pc, looping, found, chosen, running, checked, waiting, leaving, gone, idle, handing, settling,
  System, wakes, blocks, Step, expire, pop, adopts, resumes, acts, switches, checks, retries,
  finishes, leaves, finds, hands, settles,
}
use lthread_concurrent.Sched.System.Exclusive.{Spot, IsOrderly, nowhere, held, takes, runs, owns}
use lthread_concurrent.Sched.System.Exclusive.Apart.{
  Apart-trans, push-Apart, pop-Apart, adopt-Apart, resume-Apart, resumed-Apart,
}
use lthread_concurrent.Sched.System.Exclusive.Away.{
  desched_sleep-Apart, finds-Apart, mark_eof-Apart,
}
use lthread_concurrent.Sched.System.Exclusive.Counts.{first_id-has_id}
use lthread_concurrent.Sched.System.Exclusive.Idle.{
  checks-Apart, try_wait-Apart, end_wait-Apart, leave-Apart, settle-Apart,
}
use lthread_concurrent.Sched.System.Invariant.{is_free}
use lthread_concurrent.Sched.System.Exclusive.Acts.{
  IsExclusive, moved-IsExclusive, kept-IsExclusive, world-IsExclusive, go-IsExclusive,
  quiet-IsExclusive, Act-IsExclusive,
}
use lthread_concurrent.Sched.System.Exclusive.Changes.{Less, Spot-world}
use lthread_concurrent.Sched.System.Exclusive.Moves.{pop-Spot, adopted-Spot, resumed_once-Spot}
use lthread_concurrent.Sched.System.Exclusive.Returns.{back-Spot}
use lthread_concurrent.Sched.System.Exclusive.Places.{taken_at}
use lthread_concurrent.Sched.System.Exclusive.Blocking.{desched_sleep-Spot}
use lthread_concurrent.Sched.System.Exclusive.Polling.{finds-Spot, hands-Spot}

free-holds :
    (p : Pc) (y : ℕ) → is_free p ≡ true → (takes p y ≡ 0) × (runs p y ≡ false) × (owns p y ≡ false)
free-holds looping y h = (refl, refl, refl)
free-holds (found z) y h = cc
free-holds (chosen z) y h = cc
free-holds (running z) y h = cc
free-holds checked y h = (refl, refl, refl)
free-holds (waiting deep) y h = (refl, refl, refl)
free-holds leaving y h = (refl, refl, refl)
free-holds gone y h = (refl, refl, refl)

module _ ⦃i : Intrusive⦄ where
  open i use {entries, rb_min, rb_min_lem}

  -- A thread without an lthread moves on to another such place.
  Less-free : (c p : Pc) (y : ℕ) → is_free c ≡ true → is_free p ≡ true → Less c p y
  Less-free c p y h k = record {
    takes_less = omega (arith, (free-holds p y k).0);
    runs_same = (free-holds p y k).1 ∙ sym (free-holds c y h).1;
    owns_less = λ e. let f = (free-holds p y k).2 in cc;
  }

  expires-IsExclusive :
      (x : System) (s lt : ℕ)
      → rb_min (x.world.scheds s).sleeping ≡ some lt
      → (x.world.lts lt).sched ≡ s
      → IsExclusive x
      → IsExclusive (record x { world = desched_sleep_unsafe x.world lt })
  expires-IsExclusive x s lt e own inv =
      let h : has_id lt (entries (x.world.scheds (x.world.lts lt).sched).sleeping) ≡ true = rw own (
        first_id-has_id lt (entries (x.world.scheds s).sleeping)
          (sym (rb_min_lem (x.world.scheds s).sleeping) ∙ e)) in
      world-IsExclusive x (desched_sleep_unsafe x.world lt) lt
        (λ q sp. desched_sleep-Spot x q lt h sp) (λ y d. desched_sleep-Apart x.world lt y d h) inv

  -- If each lthread is at one place, it is so after an orderly step.
  pub Step-IsExclusive :
      {n : ℕ} {x z : System} → (st : Step n x z) → IsOrderly st → IsExclusive x → IsExclusive z
  Step-IsExclusive {n} {x} (expire {s} {lt} now l c e own due) o inv =
      expires-IsExclusive x s lt e own inv
  Step-IsExclusive {n} {x} (pop {s} j {lt} block free {w} l k c e) o inv =
      go-IsExclusive x w s (found lt) lt (λ q sp. (held s, pop-Spot x s j lt block free w q c e sp))
        (λ y q d sp. pop-Apart x.world j lt block free w y e)
        (λ y d. record { takes_less = ground arith; runs_same = ground arith; owns_less = λ e. cc })
        inv
  Step-IsExclusive {n} {x} (adopts {s} {lt} l c) o inv =
      go-IsExclusive x (adopt x.world s (some lt)).0 s (chosen lt) lt
        (λ q sp. (
          held s,
          adopted-Spot x s lt c
              (subst (λ q. Spot x q lt) (taken_at x s lt q (found lt) c (ground arith) sp) sp),
        ))
        (λ y q d sp. adopt-Apart x.world s lt y d)
        (λ y d. record {
          takes_less = ground arith;
          runs_same = ground arith;
          owns_less = λ e. absurd (ground arith);
        })
        inv
  Step-IsExclusive {n} {x} (resumes {s} {lt} {w} l c e) o inv =
      go-IsExclusive x w s (running lt) lt
        (λ q sp. (
          nowhere,
          resumed_once-Spot x s lt w c e
              (subst (λ q. Spot x q lt) (taken_at x s lt q (chosen lt) c (ground arith) sp) sp),
        ))
        (λ y q d sp. resume-Apart x.world s lt w y d (ground (arith, sp.current s)) e)
        (λ y d. record {
          takes_less = ground arith;
          runs_same = ground arith;
          owns_less = λ e. absurd (ground arith);
        })
        inv
  Step-IsExclusive {n} {x} (acts {s} {lt} {w} l c a) o inv = Act-IsExclusive x s lt a o inv
  Step-IsExclusive {n} {x} (switches {s} {lt} l c own) o inv =
      go-IsExclusive x (resumed x.world s lt) s looping lt (λ q sp. back-Spot x s lt q c sp)
        (λ y q d sp. resumed-Apart x.world s lt y d (ground (arith, sp.current s)))
        (λ y d. record { takes_less = ground arith; runs_same = ground arith; owns_less = λ e. cc })
        inv
  Step-IsExclusive {n} {x} (checks {s} {w} l c e) o inv =
      quiet-IsExclusive x w s checked (λ y. checks-Apart x.world s true true w y e)
        (λ y. Less-free (x.pc s) checked y (ap is_free c) refl) inv
  Step-IsExclusive {n} {x} (retries {s} now {w} l c e) o inv =
      quiet-IsExclusive x w s looping (λ y. try_wait-Apart x.world s now w again y e)
        (λ y. Less-free (x.pc s) looping y (ap is_free c) refl) inv
  Step-IsExclusive {n} {x} (blocks {s} now {timeout} {deep} {w} l c e) o inv =
      quiet-IsExclusive x w s (waiting deep)
        (λ y. try_wait-Apart x.world s now w (waits deep timeout) y e)
        (λ y. Less-free (x.pc s) (waiting deep) y (ap is_free c) refl) inv
  Step-IsExclusive {n} {x} (finishes {s} now {w} l c e) o inv =
      quiet-IsExclusive x w s leaving (λ y. try_wait-Apart x.world s now w finished y e)
        (λ y. Less-free (x.pc s) leaving y (ap is_free c) refl) inv
  Step-IsExclusive {n} {x} (wakes {s} {deep} l c) o inv =
      quiet-IsExclusive x (end_wait x.world s deep) s looping (λ y. end_wait-Apart x.world s deep y)
        (λ y. Less-free (x.pc s) looping y (ap is_free c) refl) inv
  Step-IsExclusive {n} {x} (leaves {s} l c) o inv =
      quiet-IsExclusive x (leave x.world s) s gone (λ y. leave-Apart x.world s y)
        (λ y. Less-free (x.pc s) gone y (ap is_free c) refl) inv
  Step-IsExclusive {n} {x} (finds fd {lt} ev is_eof {w} c e) o inv =
      moved-IsExclusive x (record x { world = w; hand = handing lt is_eof }) lt
        (λ q sp. (_, finds-Spot x q lt fd ev is_eof w c e sp))
        (λ y q d sp.
          Spot-world x w (handing lt is_eof) q y (finds-Apart x.world lt fd ev w y d e)
            (ground arith) sp)
        inv
  Step-IsExclusive {n} {x} (hands {lt} {is_eof} c) o inv =
      let v = mark_eof x.world lt is_eof in
      moved-IsExclusive x (record x { world = desched_event v lt; hand = settling }) lt
        (λ q sp. hands-Spot x q lt is_eof c sp)
        (λ y q d sp.
          Spot-world x (desched_event v lt) settling q y
            (unfold desched_event in
              Apart-trans x.world v _ y (mark_eof-Apart x.world lt is_eof y)
                (push-Apart v (v.lts lt).sched lt y d))
            (omega arith) sp)
        inv
  Step-IsExclusive {n} {x} (settles c) o inv =
      kept-IsExclusive x (record x { world = settle_event x.world; hand = idle })
        (λ y q sp.
          Spot-world x (settle_event x.world) idle q y (settle-Apart x.world y) (omega arith) sp)
        inv
