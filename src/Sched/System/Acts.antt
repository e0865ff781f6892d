-- ===== src/Sched/System/Acts.antt =====
-- What a running lthread does, to what holds of each scheduler and to the count of events.
use lthread_concurrent.Prelude.{
  Bool-cases, ℕ, ◌≡◌, refl, true, false, ◌⊎◌, inl, inr, Option, some, arith, ◌==◌,
}
use lthread_concurrent.Intrusive.{Intrusive, has_id}
use lthread_concurrent.State.{World, with_lt}
use lthread_concurrent.Sched.Ready.{sched_push_ready_unsafe}
use lthread_concurrent.Sched.Sleep.{wakeup_round, desched_sleep_unsafe}
use lthread_concurrent.Sched.Switch.{create, yield_resched, exit, allocate}
use lthread_concurrent.Sched.System.{
  Pc, running, Act, creates, wakes, yields, exits, sleeps, registers, blocks,
}
use lthread_concurrent.Sched.System.Invariant.{At, is_gone}
use lthread_concurrent.Sched.System.Local.{At-push, At-desched, At-same, At-sleep}
use lthread_concurrent.Sched.System.Frame.{
  Frame, Counted, create-Frame, wakeup-Frame, sleep-Frame, registers-Counted, registers_same,
}

module _ ⦃i : Intrusive⦄ where
  open i use {entries}

  pub Frame-Counted : (w w' : World) (n : ℕ) → Frame w w' → Counted w n → Counted w' n
  Frame-Counted w w' n f c = let p = f.poller in rw (f.poller) c

  pub At-create :
      (w : World) (p : Pc) (s new fun arg j : ℕ) (w' : World) (r : Option ℕ)
      → create w (some s) (some new) fun arg ≡ (w', r)
      → (w.scheds s).id ≡ s
      → is_gone p ≡ false
      → At w p j
      → At w' p j
  unfolding create allocate
  At-create w p s new fun arg j w' r e q g h =
      let l = record (allocate s) {
        is_running = false;
        is_blocked = false;
        fun = fun;
        arg = arg;
      } in
      let v = with_lt w new l in
      At-same (sched_push_ready_unsafe v s new) w' p j (ground arith) (ground arith)
        (At-push v p s new j (At-same w v p j refl refl h) q g (ground arith))

  At-wakeup :
      (w : World) (p : Pc) (z j : ℕ) (w' : World)
      → ((w.lts z).sleep_usecs ≡ 0)
        ⊎ (has_id z (entries (w.scheds (w.lts z).sched).sleeping) ≡ true)
      → wakeup_round w (w.lts z).sched z ≡ some w'
      → (w.scheds (w.lts z).sched).id ≡ (w.lts z).sched
      → is_gone p ≡ false
      → At w p j
      → At w' p j
  unfolding wakeup_round
  At-wakeup w p z j w' m e q g h = elim (Bool-cases ((w.lts z).sleep_usecs == 0)) [
    | inl o ↦
        At-same (sched_push_ready_unsafe w (w.lts z).sched z) w' p j (ground arith) (ground arith)
          (At-push w p (w.lts z).sched z j h q g refl)
    | inr o ↦
        At-same (desched_sleep_unsafe w z) w' p j (ground arith) (ground arith)
          (At-desched w p z j (ground arith) q g h)
  ]

  -- While no scheduler is past its loop
  pub action_keeps_each :
      {s lt : ℕ} {w w' : World} (pc : ℕ → Pc)
      → Act s lt w w'
      → pc s ≡ running lt
      → ((j : ℕ) → is_gone (pc j) ≡ false)
      → ((j : ℕ) → At w (pc j) j)
      → (j : ℕ) → At w' (pc j) j
  unfolding yield_resched exit
  action_keeps_each {s} {w = w} {w' = w'} pc (creates new fun arg {r = o} e) r g h j =
      At-create w (pc j) s new fun arg j w' o e (h s).id (g j) (h j)
  action_keeps_each {w = w} {w' = w'} pc (wakes z m e) r g h j =
      At-wakeup w (pc j) z j w' m e (h (w.lts z).sched).id (g j) (h j)
  action_keeps_each {lt = lt} {w = w} pc yields r g h j =
      At-same w (yield_resched w lt) (pc j) j refl refl (h j)
  action_keeps_each {lt = lt} {w = w} pc exits r g h j =
      At-same w (exit w lt) (pc j) j refl refl (h j)
  action_keeps_each {s} {lt} {w} {w'} pc (sleeps f msecs now o e) r g h j =
      At-sleep f w (pc j) s lt msecs now j w' e o (λ q. ground arith) (h j)
  action_keeps_each {lt = lt} {w = w} {w' = w'} pc (registers fd ev e) r g h j =
      let same = registers_same w lt fd ev w' e in At-same w w' (pc j) j same.0 same.1 (h j)
  action_keeps_each {w = w} pc (blocks z b) r g h j =
      At-same w (with_lt w z (record (w.lts z) { is_blocked = b })) (pc j) j refl refl (h j)

  pub action_keeps_count :
      {s lt : ℕ} {w w' : World} (n : ℕ)
      → Act s lt w w'
      → Counted w n
      → Counted w' n × (w'.pool.num_schedulers ≡ w.pool.num_schedulers)
  unfolding yield_resched exit
  action_keeps_count {s} {w = w} {w' = w'} n (creates new fun arg {r = o} e) c =
      let f = create-Frame w s new fun arg w' o e in (Frame-Counted w w' n f c, f.num_schedulers)
  action_keeps_count {w = w} {w' = w'} n (wakes z m e) c =
      let f = wakeup-Frame w (w.lts z).sched z w' e in (Frame-Counted w w' n f c, f.num_schedulers)
  action_keeps_count n yields c = (c, refl)
  action_keeps_count n exits c = (c, refl)
  action_keeps_count {lt = lt} {w = w} {w' = w'} n (sleeps f msecs now o e) c =
      let fr = sleep-Frame f w lt msecs now w' e in (Frame-Counted w w' n fr c, fr.num_schedulers)
  action_keeps_count {lt = lt} {w = w} {w' = w'} n (registers fd ev e) c =
      (registers-Counted w lt fd ev w' n e c, (registers_same w lt fd ev w' e).2)
  action_keeps_count n (blocks z b) c = (c, refl)
