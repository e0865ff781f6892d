-- ===== src/Sched/System/Local.antt =====
-- What each critical section does to what holds of a scheduler, `j`.
use lthread_concurrent.Prelude.{
  Bool-cases, ℕ, ◌≡◌, refl, Bool, true, false, inl, inr, some, arith, ◌==◌, if◌then◌else◌,
}
use lthread_concurrent.Intrusive.{Intrusive, has_id}
use lthread_concurrent.State.{World}
use lthread_concurrent.Sched.Ready.{
  sched_pop_ready, adopt, sched_wake_unsafe, sched_push_ready_unsafe,
}
use lthread_concurrent.Sched.Sleep.{sched_sleep, desched_sleep_unsafe, remove_sleeping, fall_asleep}
use lthread_concurrent.Sched.Switch.{resume, resumed}
use lthread_concurrent.Sched.System.{Pc, running}
use lthread_concurrent.Sched.System.Invariant.{At, is_waiting, is_checked, is_resting, is_gone}

module _ ⦃i : Intrusive⦄ where
  open i use {
    elems, entries, elems-tailq_insert_tail, elems-tailq_remove, tailq_first, tailq_first_lem,
    rb_empty_lem, tailq_empty_lem, entries-rb_remove, rb_min, rb_min_lem,
  }

  pub At-wake :
      (w : World) (p : Pc) (s j : ℕ)
      → At w p j
      → (w.scheds s).id ≡ s
      → At (sched_wake_unsafe w s) p j
  unfolding sched_wake_unsafe
  At-wake w p s j h e = record {
    id = ground (arith, h.id);
    awake = λ a. ground (arith, h.awake);
    told = λ a. ground (arith, h.told);
    blocked = λ a. ground (arith, h.blocked);
    signalled = λ a. ground (arith, h.signalled);
    resting = λ a. ground (arith, h.resting);
    empty = λ a. ground (arith, h.empty);
    tree = λ a. ground (arith, h.tree);
  }

  pub At-push :
      (w : World) (p : Pc) (s lt j : ℕ)
      → At w p j
      → (w.scheds s).id ≡ s
      → is_gone p ≡ false
      → (w.lts lt).sched ≡ s
      → At (sched_push_ready_unsafe w s lt) p j
  unfolding sched_push_ready_unsafe
  At-push w p s lt j h e g o = record {
    id = ground (arith, h.id);
    awake = λ a. ground (arith, h.awake);
    told = λ a. ground (arith, h.told, h.awake);
    blocked = λ a. ground (arith, h.blocked);
    signalled = λ a. ground (arith, h.signalled, h.blocked);
    resting = λ a. ground (arith, h.resting);
    empty = λ a. ground (arith, h.empty, h.resting, h.blocked);
    tree = λ a. ground (arith, h.tree);
  }

  -- It looks at the schedulers, and at who is in deep sleep.
  pub At-same :
      (w w' : World) (p : Pc) (j : ℕ)
      → w.scheds ≡ w'.scheds
      → w.pool.asleep ≡ w'.pool.asleep
      → At w p j
      → At w' p j
  At-same w w' p j e q h = record {
    id = ground (arith, h.id);
    awake = λ a. ground (arith, h.awake);
    told = λ a. ground (arith, h.told);
    blocked = λ a. ground (arith, h.blocked);
    signalled = λ a. ground (arith, h.signalled);
    resting = λ a. ground (arith, h.resting);
    empty = λ a. ground (arith, h.empty);
    tree = λ a. ground (arith, h.tree);
  }

  -- A move between the places in which the thread has nothing to keep to
  pub At-move :
      (w : World) (p q : Pc) (j : ℕ)
      → is_waiting p ≡ is_waiting q
      → is_checked q ≡ false
      → is_resting p ≡ is_resting q
      → At w p j
      → At w q j
  At-move w p q j e c r h = record {
    id = h.id;
    awake = λ a. ground (arith, h.awake);
    told = λ a. ground arith;
    blocked = λ a. ground (arith, h.blocked);
    signalled = λ a. ground (arith, h.signalled);
    resting = λ a. ground (arith, h.resting);
    empty = h.empty;
    tree = h.tree;
  }

  pub At-remove :
      (w : World) (p : Pc) (lt j : ℕ)
      → has_id lt (entries (w.scheds (w.lts lt).sched).sleeping) ≡ true
      → At w p j
      → At (remove_sleeping w lt) p j
  unfolding remove_sleeping
  At-remove w p lt j m h = record {
    id = ground (arith, h.id);
    awake = λ a. ground (arith, h.awake);
    told = λ a. ground (arith, h.told);
    blocked = λ a. ground (arith, h.blocked);
    signalled = λ a. ground (arith, h.signalled);
    resting = λ a. ground (arith, h.resting);
    empty = λ a. ground (arith, h.empty);
    tree = λ a. ground (arith, h.tree, entries-rb_remove (w.scheds (w.lts lt).sched).sleeping lt);
  }

  pub At-desched :
      (w : World) (p : Pc) (lt j : ℕ)
      → has_id lt (entries (w.scheds (w.lts lt).sched).sleeping) ≡ true
      → (w.scheds (w.lts lt).sched).id ≡ (w.lts lt).sched
      → is_gone p ≡ false
      → At w p j
      → At (desched_sleep_unsafe w lt) p j
  unfolding desched_sleep_unsafe remove_sleeping
  At-desched w p lt j m e g h =
      At-push (remove_sleeping w lt) p (w.lts lt).sched lt j (At-remove w p lt j m h) (ground arith)
        g refl

  pub At-pop :
      (w : World) (p : Pc) (s j lt : ℕ) (block free : Bool) (w' : World)
      → sched_pop_ready w s block free ≡ (w', some lt)
      → At w p j
      → At w' p j
  unfolding sched_pop_ready
  At-pop w p s j lt block free w' e h = record {
    id = ground (arith, h.id);
    awake = λ a. ground (arith, h.awake);
    told = λ a. ground (arith, h.told, tailq_first_lem (w.scheds s).ready);
    blocked = λ a. ground (arith, h.blocked);
    signalled = λ a. ground (arith, h.signalled, tailq_first_lem (w.scheds s).ready);
    resting = λ a. ground (arith, h.resting);
    empty = λ a. ground (arith, h.empty, tailq_first_lem (w.scheds s).ready);
    tree = λ a. ground (arith, h.tree);
  }

  pub At-adopt :
      (w : World) (p : Pc) (s lt j : ℕ)
      → (w.scheds (w.scheds s).sched_neighbor).id ≡ (w.scheds s).sched_neighbor
      → At w p j
      → At (adopt w s (some lt)).0 p j
  unfolding adopt
  At-adopt w p s lt j e h =
      let n = (w.scheds s).sched_neighbor in
      At-same (if n == s then w else sched_wake_unsafe w n) (adopt w s (some lt)).0 p j
        (ground arith) (ground arith)
        (elim (Bool-cases (n == s)) [
          | inl q ↦
              At-same w (if n == s then w else sched_wake_unsafe w n) p j (ground arith)
                (ground arith) h
          | inr q ↦
              At-same (sched_wake_unsafe w n) (if n == s then w else sched_wake_unsafe w n) p j
                (ground arith) (ground arith) (At-wake w p n j h e)
        ])

  pub At-sleep :
      (f : ℕ) (w : World) (p : Pc) (s lt msecs now j : ℕ) (w' : World)
      → sched_sleep f w lt msecs now ≡ some w'
      → (w.lts lt).sched ≡ s
      → (s ≡ j → is_resting p ≡ false)
      → At w p j
      → At w' p j
  unfolding sched_sleep fall_asleep
  At-sleep f w p s lt msecs now j w' e o r h = record {
    id = ground (arith, h.id);
    awake = λ a. ground (arith, h.awake);
    told = λ a. ground (arith, h.told);
    blocked = λ a. ground (arith, h.blocked);
    signalled = λ a. ground (arith, h.signalled);
    resting = λ a. ground (arith, h.resting);
    empty = λ a. ground (arith, h.empty);
    tree = λ a. ground (arith, h.tree, h.resting, r);
  }

  pub At-resume :
      (w : World) (p : Pc) (s lt j : ℕ) (w' : World)
      → resume w s lt ≡ some w'
      → At w p j
      → At w' p j
  unfolding resume
  At-resume w p s lt j w' e h = record {
    id = ground (arith, h.id);
    awake = λ a. ground (arith, h.awake);
    told = λ a. ground (arith, h.told);
    blocked = λ a. ground (arith, h.blocked);
    signalled = λ a. ground (arith, h.signalled);
    resting = λ a. ground (arith, h.resting);
    empty = λ a. ground (arith, h.empty);
    tree = λ a. ground (arith, h.tree);
  }

  -- The scheduler that queues an lthread again is not told, and needs not be.
  pub At-resumed :
      (w : World) (p : Pc) (s lt j : ℕ)
      → (w.lts lt).sched ≡ s
      → (s ≡ j → p ≡ running lt)
      → At w p j
      → At (resumed w s lt) p j
  unfolding resumed
  At-resumed w p s lt j o r h = record {
    id = ground (arith, h.id);
    awake = λ a. ground (arith, h.awake);
    told = λ a. ground (arith, h.told, r);
    blocked = λ a. ground (arith, h.blocked);
    signalled = λ a. ground (arith, h.signalled, r);
    resting = λ a. ground (arith, h.resting);
    empty = λ a. ground (arith, h.empty, h.resting, r);
    tree = λ a. ground (arith, h.tree);
  }
