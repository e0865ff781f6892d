-- ===== src/Sched/System/Exclusive/Returns.antt =====
-- src/lthread.c, the end of _lthread_resume, for the lthread that has switched back.
use lthread_concurrent.Prelude.{
  ℕ, ◌≡◌, true, false, Bool-cases, inl, inr, arith, [], ◌∷◌, count-append,
}
use mathlib.Core.Path.{subst}
use lthread_concurrent.Intrusive.{Intrusive}
use lthread_concurrent.Sched.Switch.{resumed}
use lthread_concurrent.Sched.System.{System, go, looping, running}
use lthread_concurrent.Sched.System.Exclusive.{Place, queued, marked, Spot, runs}
use lthread_concurrent.Sched.System.Exclusive.Places.{alone_at}

module _ ⦃i : Intrusive⦄ where
  open i use {elems, elems-tailq_insert_tail}

  -- An lthread that asked for it is queued when it switches back.
  requeued-Spot :
      (x : System) (s lt : ℕ)
      → x.pc s ≡ running lt
      → (x.world.lts lt).needs_resched ≡ true
      → Spot x marked lt
      → Spot (go x (resumed x.world s lt) s looping) (queued s) lt
  unfolding resumed
  requeued-Spot x s lt c n sp =
      let own = sp.sched s (ground (arith, c)) in
      let q = elems-tailq_insert_tail (x.world.scheds s).ready lt in
      let m = count-append lt (elems (x.world.scheds s).ready) (lt ∷ []) in
      let alone : (k : ℕ) → runs (x.pc k) lt ≡ true → s ≡ k = λ k r. alone_at x s k lt own sp r in
      record {
        queue = λ k. ground (arith, own, q, m, sp.queue k);
        tree = λ k. ground (arith, sp.tree k);
        poller = ground (arith, sp.poller);
        hand = sp.hand;
        thread = λ k. ground (arith, sp.thread k);
        mark = λ e. absurd (ground arith);
        exited = λ e. absurd (ground (arith, sp.exited));
        freed = λ e. absurd (ground (arith, sp.exited, sp.freed));
        freed_rests = λ k e. ground (arith, alone k);
        sched = λ k e. ground (arith, sp.sched k);
        current = λ k. ground (arith, sp.current k, alone k);
        calm = λ k e. absurd (ground (arith, alone k));
        flag = λ e. absurd (ground arith);
      }

  -- One that did not stays where it is.
  left-Spot :
      (x : System) (s lt : ℕ) (q : Place)
      → x.pc s ≡ running lt
      → (x.world.lts lt).needs_resched ≡ false
      → Spot x q lt
      → Spot (go x (resumed x.world s lt) s looping) q lt
  unfolding resumed
  left-Spot x s lt q c n sp =
      let own = sp.sched s (ground (arith, c)) in
      let alone : (k : ℕ) → runs (x.pc k) lt ≡ true → s ≡ k = λ k r. alone_at x s k lt own sp r in
      record {
        queue = λ k. ground (arith, sp.queue k);
        tree = λ k. ground (arith, sp.tree k);
        poller = ground (arith, sp.poller);
        hand = sp.hand;
        thread = λ k. ground (arith, sp.thread k);
        mark = λ e. absurd (ground arith);
        exited = λ e. sp.exited (ground arith);
        freed = λ e. ground (arith, sp.freed, sp.exited);
        freed_rests = λ k e. ground (arith, alone k);
        sched = λ k e. ground (arith, sp.sched k);
        current = λ k. ground (arith, sp.current k, alone k);
        calm = λ k e. absurd (ground (arith, alone k));
        flag = λ e. absurd (ground arith);
      }

  pub back-Spot :
      (x : System) (s lt : ℕ) (q : Place)
      → x.pc s ≡ running lt
      → Spot x q lt
      → (r : Place) × Spot (go x (resumed x.world s lt) s looping) r lt
  back-Spot x s lt q c sp = elim (Bool-cases (x.world.lts lt).needs_resched) [
    | inl n ↦ (queued s, requeued-Spot x s lt c n (subst (λ q. Spot x q lt) (sp.mark n) sp))
    | inr n ↦ (q, left-Spot x s lt q c n sp)
  ]
