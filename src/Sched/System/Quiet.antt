-- ===== src/Sched/System/Quiet.antt =====
-- While there is work to do, no scheduler is past its loop; and quiet lasts.
use lthread_concurrent.Prelude.{
  Bool-cases, ℕ, zero, suc, ◌+◌, ◌≤◌, ◌<◌, ◌≡◌, refl, Bool, true, false, inl, inr, some, List, [],
  ◌∷◌, arith, ◌==◌,
}
use lthread_concurrent.Intrusive.{Intrusive, has_id, first_id}
use lthread_concurrent.State.{World, update}
use lthread_concurrent.Sched.Ready.{sched_pop_ready}
use lthread_concurrent.Sched.Loop.{all_asleep, finished, try_wait}
use lthread_concurrent.Sched.System.{
  Pc, looping, found, chosen, running, checked, waiting, leaving, gone, System, go,
}
use lthread_concurrent.Sched.System.Invariant.{At, Quiet, Inv, is_gone, is_free, is_resting}
use lthread_concurrent.Sched.System.Frame.{Still}

module _ ⦃i : Intrusive⦄ where
  open i use {elems, entries, rb_min, rb_min_lem, tailq_first_lem}

  -- A thread that is not past its loop, unless all is quiet
  pub busy : (n : ℕ) (x : System) → Inv n x → (Quiet n x → ⊥) → (j : ℕ) → is_gone (x.pc j) ≡ false
  busy n x inv rest j = elim (Bool-cases (is_gone (x.pc j))) [
    | inl g ↦ absurd (rest (inv.quiet j g))
    | inr g ↦ g
  ]

  pub busy_hand : (n s : ℕ) (x : System) → s < n → is_free (x.pc s) ≡ false → Quiet n x → ⊥
  busy_hand n s x l f q = ground (arith, q.free s)

  pub busy_queue :
      (n s j lt : ℕ) (x : System) (block free : Bool) (w : World)
      → j < n
      → sched_pop_ready x.world j block free ≡ (w, some lt)
      → Quiet n x
      → ⊥
  unfolding sched_pop_ready
  busy_queue n s j lt x block free w l e q =
      ground (arith, q.queues j, tailq_first_lem (x.world.scheds j).ready)

  pub min_has : (t : List (ℕ × ℕ)) (lt : ℕ) → first_id t ≡ some lt → has_id lt t ≡ true
  min_has [] lt e = cc
  min_has ((k, y) ∷ t) lt e = ground arith

  pub busy_tree :
      (n s lt : ℕ) (x : System)
      → s < n
      → rb_min (x.world.scheds s).sleeping ≡ some lt
      → Quiet n x
      → ⊥
  busy_tree n s lt x l e q = ground (arith, q.trees s, rb_min_lem (x.world.scheds s).sleeping)

  pub Quiet-go :
      (n s : ℕ) (x : System) (w : World) (p : Pc)
      → Still x.world w
      → is_free p ≡ true
      → Quiet n x
      → Quiet n (go x w s p)
  Quiet-go n s x w p st f q = record {
    queues = λ j l. ground (arith, st.queues j, q.queues j);
    trees = λ j l. ground (arith, st.trees j, q.trees j);
    free = λ j l. ground (arith, q.free j);
    pending = let e = st.frame.poller in ground (arith, q.pending);
  }

  pub all_asleep_each :
      (asleep : ℕ → Bool) (n k : ℕ)
      → all_asleep asleep n k ≡ true
      → (j : ℕ) → k ≤ j
      → j < k + n
      → asleep j ≡ true
  unfolding all_asleep
  all_asleep_each asleep zero k e j a b = ground arith
  all_asleep_each asleep (suc n) k e j a b = elim (Bool-cases (k == j)) [
    | inl q ↦ ground arith
    | inr q ↦ all_asleep_each asleep n (k + 1) (ground arith) j (ground arith) (ground arith)
  ]

  -- The scheduler that finds all of them in deep sleep, and no event pending
  pub finished-Quiet :
      (n s now : ℕ) (x : System) (w : World)
      → Inv n x
      → x.pc s ≡ checked
      → try_wait x.world s now ≡ (w, finished)
      → ((j : ℕ) → At w (update x.pc s leaving j) j)
      → Quiet n (go x w s leaving)
  unfolding try_wait
  finished-Quiet n s now x w inv c e each =
      let asleep : (j : ℕ) → j < n → w.pool.asleep j ≡ true = λ j l.
        all_asleep_each w.pool.asleep n 0 (ground (arith, inv.size)) j (omega arith)
          (omega arith) in
      record {
        queues = λ j l. (each j).empty (asleep j l);
        trees = λ j l. (each j).tree (asleep j l);
        free = λ j l. resting_free (update x.pc s leaving j) ((each j).resting (asleep j l));
        pending = ground arith;
      }
    where
      resting_free : (p : Pc) → is_resting p ≡ true → is_free p ≡ true
      resting_free looping e = refl
      resting_free (found lt) e = cc
      resting_free (chosen lt) e = cc
      resting_free (running lt) e = cc
      resting_free checked e = refl
      resting_free (waiting deep) e = refl
      resting_free leaving e = refl
      resting_free gone e = refl
