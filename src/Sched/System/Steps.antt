-- ===== src/Sched/System/Steps.antt =====
-- Every critical section keeps what holds of the schedulers.
use lthread_concurrent.Prelude.{
  Bool-cases, ℕ, ◌≡◌, ◌≢◌, refl, true, false, inl, inr, some, arith, ◌==◌, sym, ap, ◌∙◌,
}
use mathlib.Core.Path.{subst}
use lthread_concurrent.Intrusive.{Intrusive, has_id}
use lthread_concurrent.State.{World, update}
use lthread_concurrent.Sched.Ready.{adopt, desched_event}
use lthread_concurrent.Sched.Sleep.{desched_sleep_unsafe}
use lthread_concurrent.Sched.Switch.{resumed}
use lthread_concurrent.Sched.Loop.{end_wait, leave, again, waits, finished}
use lthread_concurrent.Poller.{mark_eof, settle_event}
use lthread_concurrent.Sched.System.{
  Pc, looping, found, chosen, running, checked, waiting, leaving, gone, System, go, Hand, idle,
  handing, settling, Step, expire, pop, adopts, resumes, acts, switches, checks, retries, blocks,
  finishes, wakes, leaves, finds, hands, settles,
}
use lthread_concurrent.Sched.System.Invariant.{At, Inv, is_gone, is_free, in_hand}
use lthread_concurrent.Sched.System.Local.{
  At-same, At-move, At-desched, At-pop, At-adopt, At-resume, At-resumed,
}
use lthread_concurrent.Sched.System.Waits.{
  At-branch, At-again, At-waits, At-finished, At-try_wait, At-end_wait, At-end_wait_other,
  At-checked, At-leave,
}
use lthread_concurrent.Sched.System.Handing.{
  in_hand_pending, popped_none, mark_eof_same, marked-Counted, settled_same, settled-Counted,
  marked_id, At-desched_event,
}
use lthread_concurrent.Sched.System.Frame.{
  Frame, Still, Counted, desched-Frame, desched_event-Frame, pop-Frame, adopt-Frame, resume-Frame,
  resumed-Frame, pop-Still, try_wait-Still, end_wait-Still, leave-Still, finds-Counted,
}
use lthread_concurrent.Sched.System.Acts.{action_keeps_each, action_keeps_count, Frame-Counted}
use lthread_concurrent.Sched.System.Quiet.{
  busy, busy_hand, busy_queue, busy_tree, Quiet-go, finished-Quiet, min_has,
}

module _ ⦃i : Intrusive⦄ where
  open i use {elems, entries, rb_min_lem}

  -- Scheduler `s` moves on, and work is left.
  move-Inv :
      (n s : ℕ) (x : System) (w : World) (p : Pc)
      → Inv n x
      → Frame x.world w
      → ((j : ℕ) → is_gone (x.pc j) ≡ false)
      → is_gone p ≡ false
      → At w p s
      → ((j : ℕ) → s ≢ j → At w (x.pc j) j)
      → Inv n (go x w s p)
  move-Inv n s x w p inv fr b g mine others = record {
    each = λ j.
        At-branch w (s == j) (x.pc j) p j (λ e. subst (At w p) (ground arith) mine)
          (λ e. others j (ground arith));
    quiet = λ j e. ground (arith, b j);
    counted = Frame-Counted x.world w (in_hand x.hand) fr inv.counted;
    size = ground (arith, fr.num_schedulers, inv.size);
  }

  -- Scheduler `s` moves on, and neither queues nor sleepers change.
  unchanged-Inv :
      (n s : ℕ) (x : System) (w : World) (p : Pc)
      → Inv n x
      → Still x.world w
      → is_free p ≡ true
      → (is_gone p ≡ true → is_gone (x.pc s) ≡ true)
      → At w p s
      → ((j : ℕ) → s ≢ j → At w (x.pc j) j)
      → Inv n (go x w s p)
  unchanged-Inv n s x w p inv st f g mine others = record {
    each = λ j.
        At-branch w (s == j) (x.pc j) p j (λ e. subst (At w p) (ground arith) mine)
          (λ e. others j (ground arith));
    quiet = λ j e. Quiet-go n s x w p st f (elim (Bool-cases (s == j)) [
      | inl q ↦ inv.quiet s (g (ground arith))
      | inr q ↦ inv.quiet j (ground arith)
    ]);
    counted = Frame-Counted x.world w (in_hand x.hand) st.frame inv.counted;
    size = let fr = st.frame in ground (arith, fr.num_schedulers, inv.size);
  }

  -- The poller moves on, and work is left.
  hand-Inv :
      (n : ℕ) (x : System) (w : World) (h : Hand)
      → Inv n x
      → ((j : ℕ) → is_gone (x.pc j) ≡ false)
      → Counted w (in_hand h)
      → w.pool.num_schedulers ≡ x.world.pool.num_schedulers
      → ((j : ℕ) → At w (x.pc j) j)
      → Inv n (record x { world = w; hand = h })
  hand-Inv n x w h inv b c e each = record {
    each = each;
    quiet = λ j g. ground (arith, b j);
    counted = c;
    size = ground (arith, inv.size);
  }

  at : (x : System) (s : ℕ) (p : Pc) {n : ℕ} → Inv n x → x.pc s ≡ p → At x.world p s
  at x s p inv e = subst (λ q. At x.world q s) e (inv.each s)

  pub Step-Inv : {n : ℕ} {x y : System} → Step n x y → Inv n x → Inv n y
  Step-Inv {n} {x} (expire {s} {lt} now l c m o le) inv =
      let b = busy n x inv (busy_tree n s lt x l m) in
      let has : has_id lt (entries (x.world.scheds (x.world.lts lt).sched).sleeping) ≡ true =
        ground (
          arith,
          rb_min_lem (x.world.scheds s).sleeping,
          min_has (entries (x.world.scheds s).sleeping) lt,
        ) in
      let w = desched_sleep_unsafe x.world lt in
      let fr = desched-Frame x.world lt in
      hand-Inv n x w x.hand inv b (Frame-Counted x.world w (in_hand x.hand) fr inv.counted)
        fr.num_schedulers
        (λ j.
          At-desched x.world (x.pc j) lt j has (inv.each (x.world.lts lt).sched).id (b j)
            (inv.each j))
  Step-Inv {n} {x} (pop {s} j {lt} block free {w} l lj c e) inv =
      move-Inv n s x w (found lt) inv (pop-Frame x.world j block free w (some lt) e)
        (busy n x inv (busy_queue n s j lt x block free w lj e)) refl
        (At-move w looping (found lt) s refl refl refl
          (At-pop x.world looping j s lt block free w e (at x s looping inv c)))
        (λ k q. At-pop x.world (x.pc k) j k lt block free w e (inv.each k))
  Step-Inv {n} {x} (adopts {s} {lt} l c) inv =
      let w = (adopt x.world s (some lt)).0 in
      let q = (inv.each (x.world.scheds s).sched_neighbor).id in
      move-Inv n s x w (chosen lt) inv (adopt-Frame x.world s lt)
        (busy n x inv (busy_hand n s x l (ap is_free c))) refl
        (At-move w (found lt) (chosen lt) s refl refl refl
          (At-adopt x.world (found lt) s lt s q (at x s (found lt) inv c)))
        (λ k d. At-adopt x.world (x.pc k) s lt k q (inv.each k))
  Step-Inv {n} {x} (resumes {s} {lt} {w} l c e) inv =
      move-Inv n s x w (running lt) inv (resume-Frame x.world s lt w e)
        (busy n x inv (busy_hand n s x l (ap is_free c))) refl
        (At-move w (chosen lt) (running lt) s refl refl refl
          (At-resume x.world (chosen lt) s lt s w e (at x s (chosen lt) inv c)))
        (λ k d. At-resume x.world (x.pc k) s lt k w e (inv.each k))
  Step-Inv {n} {x} (acts {s} {lt} {w} l c a) inv =
      let b = busy n x inv (busy_hand n s x l (ap is_free c)) in
      let k = action_keeps_count (in_hand x.hand) a inv.counted in
      hand-Inv n x w x.hand inv b k.0 k.1 (action_keeps_each x.pc a c b inv.each)
  Step-Inv {n} {x} (switches {s} {lt} l c o) inv =
      let w = resumed x.world s lt in
      move-Inv n s x w looping inv (resumed-Frame x.world s lt)
        (busy n x inv (busy_hand n s x l (ap is_free c))) refl
        (At-move w (running lt) looping s refl refl refl
          (At-resumed x.world (running lt) s lt s o (λ d. refl) (at x s (running lt) inv c)))
        (λ k d. At-resumed x.world (x.pc k) s lt k o (λ q. absurd (d q)) (inv.each k))
  Step-Inv {n} {x} (checks {s} {w} l c e) inv =
      let st = pop-Still x.world s true true w e in
      unchanged-Inv n s x w checked inv st refl (λ q. cc)
        (At-checked x.world s w e (at x s looping inv c))
        (λ k d.
          At-same x.world w (x.pc k) k (popped_none x.world s w e).0 (popped_none x.world s w e).1
            (inv.each k))
  Step-Inv {n} {x} (retries {s} now {w} l c e) inv =
      unchanged-Inv n s x w looping inv (try_wait-Still x.world s now w again e) refl (λ q. cc)
        (At-again x.world s now w e (at x s checked inv c))
        (λ k d. At-try_wait x.world (x.pc k) s now k w again e d (inv.each s).id (inv.each k))
  Step-Inv {n} {x} (blocks {s} now {timeout} {deep} {w} l c e) inv =
      unchanged-Inv n s x w (waiting deep) inv
        (try_wait-Still x.world s now w (waits deep timeout) e) refl (λ q. cc)
        (At-waits x.world s now deep timeout w e (at x s checked inv c))
        (λ k d.
          At-try_wait x.world (x.pc k) s now k w (waits deep timeout) e d (inv.each s).id
            (inv.each k))
  Step-Inv {n} {x} (finishes {s} now {w} l c e) inv =
      let st = try_wait-Still x.world s now w finished e in
      let each : (j : ℕ) → At w (update x.pc s leaving j) j = λ j.
        At-branch w (s == j) (x.pc j) leaving j
          (λ d.
            subst (At w leaving) (ground arith)
              (At-finished x.world s now w e (at x s checked inv c)))
          (λ d.
            At-try_wait x.world (x.pc j) s now j w finished e (ground arith) (inv.each s).id
              (inv.each j)) in
      record {
        each = each;
        quiet = λ j g. finished-Quiet n s now x w inv c e each;
        counted = Frame-Counted x.world w (in_hand x.hand) st.frame inv.counted;
        size = let fr = st.frame in ground (arith, fr.num_schedulers, inv.size);
      }
  Step-Inv {n} {x} (wakes {s} {deep} l c) inv =
      let w = end_wait x.world s deep in
      unchanged-Inv n s x w looping inv (end_wait-Still x.world s deep) refl (λ q. cc)
        (At-end_wait x.world s deep (at x s (waiting deep) inv c))
        (λ k d. At-end_wait_other x.world (x.pc k) s k deep d (inv.each s).id (inv.each k))
  Step-Inv {n} {x} (leaves {s} l c) inv =
      let q = (inv.each (x.world.scheds s).sched_neighbor).id in
      let w = leave x.world s in
      unchanged-Inv n s x w gone inv (leave-Still x.world s) refl (λ q. ap is_gone c)
        (At-move w leaving gone s refl refl refl
          (At-leave x.world leaving s s q (at x s leaving inv c)))
        (λ k d. At-leave x.world (x.pc k) s k q (inv.each k))
  Step-Inv {n} {x} (finds fd {lt} ev is_eof {w} c e) inv =
      let f = finds-Counted x.world lt fd ev w e (rw (sym (ap in_hand c)) inv.counted) in
      hand-Inv n x w (handing lt is_eof) inv (busy n x inv (λ q. f.4 q.pending)) f.0 f.3
        (λ j. At-same x.world w (x.pc j) j (sym f.1) (sym f.2) (inv.each j))
  Step-Inv {n} {x} (hands {lt} {is_eof} c) inv =
      let v = mark_eof x.world lt is_eof in
      let w = desched_event v lt in
      let b = busy n x inv (λ q. in_hand_pending n x 0 inv q (ap in_hand c)) in
      let m = mark_eof_same x.world lt is_eof in
      let fr = desched_event-Frame v lt in
      hand-Inv n x w settling inv b
        (Frame-Counted v w 1 fr
          (marked-Counted x.world lt is_eof 1 (subst (Counted x.world) (ap in_hand c) inv.counted)))
        (fr.num_schedulers ∙ m.2)
        (λ j.
          At-desched_event v (x.pc j) lt j (At-same x.world v (x.pc j) j m.0 m.1 (inv.each j))
            (marked_id x lt is_eof inv) (b j))
  Step-Inv {n} {x} (settles c) inv =
      let b = busy n x inv (λ q. in_hand_pending n x 0 inv q (ap in_hand c)) in
      let w = settle_event x.world in
      hand-Inv n x w idle inv b
        (settled-Counted x.world (subst (Counted x.world) (ap in_hand c) inv.counted))
        (settled_same x.world).2
        (λ j.
          At-same x.world w (x.pc j) j (settled_same x.world).0 (settled_same x.world).1
            (inv.each j))
