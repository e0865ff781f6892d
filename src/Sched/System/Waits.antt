-- ===== src/Sched/System/Waits.antt =====
-- What a scheduler's wait, and its end, do to what holds of a scheduler, `j`.
use lthread_concurrent.Prelude.{
  ℕ, ◌≡◌, ◌≢◌, refl, Bool, true, false, none, arith, ◌==◌, if◌then◌else◌,
}
use lthread_concurrent.Intrusive.{Intrusive}
use lthread_concurrent.State.{World}
use lthread_concurrent.Sched.Ready.{sched_pop_ready, sched_wake_unsafe}
use lthread_concurrent.Sched.Loop.{Outcome, again, waits, finished, try_wait, end_wait, leave}
use lthread_concurrent.Sched.System.{Pc, looping, checked, waiting, leaving}
use lthread_concurrent.Sched.System.Invariant.{At}
use lthread_concurrent.Sched.System.Local.{At-wake}

module _ ⦃i : Intrusive⦄ where
  open i use {
    elems, entries, elems-tailq_insert_tail, elems-tailq_remove, tailq_first, tailq_first_lem,
    rb_empty_lem, tailq_empty_lem, entries-rb_remove, rb_min, rb_min_lem,
  }

  -- What the scheduler itself finds out before it waits
  pub At-again :
      (w : World) (s now : ℕ) (w' : World)
      → try_wait w s now ≡ (w', again)
      → At w checked s
      → At w' looping s
  unfolding try_wait
  At-again w s now w' e h = record {
    id = ground (arith, h.id);
    awake = λ a. ground (arith, h.awake refl);
    told = λ a. cc;
    blocked = λ a. cc;
    signalled = λ a. cc;
    resting = λ a. ground (arith, h.resting);
    empty = λ a. ground (arith, h.empty);
    tree = λ a. ground (arith, h.tree);
  }

  pub At-waits :
      (w : World) (s now : ℕ) (deep : Bool) (timeout : ℕ) (w' : World)
      → try_wait w s now ≡ (w', waits deep timeout)
      → At w checked s
      → At w' (waiting deep) s
  unfolding try_wait
  At-waits w s now deep timeout w' e h = record {
    id = ground (arith, h.id);
    awake = λ a. cc;
    told = λ a. cc;
    blocked = λ a. ground (arith, h.awake refl);
    signalled = λ a. ground (arith, h.told refl, h.awake refl);
    resting = λ a. ground (arith, h.resting, h.id);
    empty = λ a. ground (arith, h.told refl, h.empty, h.id);
    tree = λ a. ground (arith, h.tree, h.id, rb_empty_lem (w.scheds s).sleeping);
  }

  pub At-finished :
      (w : World) (s now : ℕ) (w' : World)
      → try_wait w s now ≡ (w', finished)
      → At w checked s
      → At w' leaving s
  unfolding try_wait
  At-finished w s now w' e h = record {
    id = ground (arith, h.id);
    awake = λ a. ground (arith, h.awake refl);
    told = λ a. cc;
    blocked = λ a. cc;
    signalled = λ a. cc;
    resting = λ a. refl;
    empty = λ a. ground (arith, h.told refl, h.empty, h.id);
    tree = λ a. ground (arith, h.tree, h.id, rb_empty_lem (w.scheds s).sleeping);
  }

  -- and what that is to the others
  pub At-try_wait :
      (w : World) (p : Pc) (s now j : ℕ) (w' : World) (o : Outcome)
      → try_wait w s now ≡ (w', o)
      → s ≢ j
      → (w.scheds s).id ≡ s
      → At w p j
      → At w' p j
  unfolding try_wait
  At-try_wait w p s now j w' o e n q h = record {
    id = ground (arith, h.id);
    awake = λ a. ground (arith, h.awake);
    told = λ a. ground (arith, h.told);
    blocked = λ a. ground (arith, h.blocked);
    signalled = λ a. ground (arith, h.signalled);
    resting = λ a. ground (arith, h.resting);
    empty = λ a. ground (arith, h.empty);
    tree = λ a. ground (arith, h.tree);
  }

  pub At-end_wait :
      (w : World) (s : ℕ) (deep : Bool) → At w (waiting deep) s → At (end_wait w s deep) looping s
  unfolding end_wait
  At-end_wait w s deep h = record {
    id = ground (arith, h.id);
    awake = λ a. ground arith;
    told = λ a. cc;
    blocked = λ a. cc;
    signalled = λ a. cc;
    resting = λ a. ground (arith, h.resting, h.id);
    empty = λ a. ground (arith, h.empty, h.id);
    tree = λ a. ground (arith, h.tree, h.id);
  }

  pub At-end_wait_other :
      (w : World) (p : Pc) (s j : ℕ) (deep : Bool)
      → s ≢ j
      → (w.scheds s).id ≡ s
      → At w p j
      → At (end_wait w s deep) p j
  unfolding end_wait
  At-end_wait_other w p s j deep n q h = record {
    id = ground (arith, h.id);
    awake = λ a. ground (arith, h.awake);
    told = λ a. ground (arith, h.told);
    blocked = λ a. ground (arith, h.blocked);
    signalled = λ a. ground (arith, h.signalled);
    resting = λ a. ground (arith, h.resting);
    empty = λ a. ground (arith, h.empty);
    tree = λ a. ground (arith, h.tree);
  }

  -- A scheduler that finds its own queue empty
  pub At-checked :
      (w : World) (s : ℕ) (w' : World)
      → sched_pop_ready w s true true ≡ (w', none)
      → At w looping s
      → At w' checked s
  unfolding sched_pop_ready
  At-checked w s w' e h = record {
    id = ground (arith, h.id);
    awake = λ a. ground (arith, h.awake refl);
    told = λ a. ground (arith, tailq_first_lem (w.scheds s).ready);
    blocked = λ a. cc;
    signalled = λ a. cc;
    resting = λ a. ground (arith, h.resting);
    empty = λ a. ground (arith, h.empty);
    tree = λ a. ground (arith, h.tree);
  }

  -- The place of one thread changes.
  pub At-branch :
      (w : World) (b : Bool) (p q : Pc) (j : ℕ)
      → (b ≡ true → At w q j)
      → (b ≡ false → At w p j)
      → At w (if b then q else p) j
  At-branch w true p q j f g = f refl
  At-branch w false p q j f g = g refl

  pub At-leave :
      (w : World) (p : Pc) (s j : ℕ)
      → (w.scheds (w.scheds s).sched_neighbor).id ≡ (w.scheds s).sched_neighbor
      → At w p j
      → At (leave w s) p j
  unfolding leave
  At-leave w p s j e h =
      let n = (w.scheds s).sched_neighbor in
      At-branch_world w (sched_wake_unsafe w n) (n == s) p j h (At-wake w p n j h e)
    where
      At-branch_world :
          (w v : World) (b : Bool) (p : Pc) (j : ℕ)
          → At w p j
          → At v p j
          → At (if b then w else v) p j
      At-branch_world w v true p j h g = h
      At-branch_world w v false p j h g = g
