-- ===== src/Sched/System/Handing.antt =====
-- What the poller's sections leave alone, and what they do to the count of pending events.
use lthread_concurrent.Prelude.{ℕ, suc, ◌≡◌, refl, Bool, true, false, none, arith}
use lthread_concurrent.Intrusive.{Intrusive}
use lthread_concurrent.State.{World}
use lthread_concurrent.Sched.Ready.{sched_pop_ready, desched_event}
use lthread_concurrent.Poller.{mark_eof, settle_event}
use lthread_concurrent.Sched.System.{Pc, System}
use lthread_concurrent.Sched.System.Invariant.{At, Quiet, Inv, is_gone, in_hand}
use lthread_concurrent.Sched.System.Local.{At-push}
use lthread_concurrent.Sched.System.Frame.{Counted}

module _ ⦃i : Intrusive⦄ where
  pub in_hand_pending :
      (n : ℕ) (x : System) (k : ℕ) → Inv n x → Quiet n x → in_hand x.hand ≡ suc k → ⊥
  in_hand_pending n x k inv q e = ground (arith, inv.counted, q.pending)

  pub popped_none :
      (w : World) (s : ℕ) (w' : World)
      → sched_pop_ready w s true true ≡ (w', none)
      → (w.scheds ≡ w'.scheds) × (w.pool.asleep ≡ w'.pool.asleep)
  unfolding sched_pop_ready
  popped_none w s w' e = (ground arith, ground arith)

  pub mark_eof_same :
      (w : World) (lt : ℕ) (is_eof : Bool)
      → let v = mark_eof w lt is_eof in
        (w.scheds ≡ v.scheds)
        × (w.pool.asleep ≡ v.pool.asleep)
        × (v.pool.num_schedulers ≡ w.pool.num_schedulers)
  unfolding mark_eof
  mark_eof_same w lt true = (refl, refl, refl)
  mark_eof_same w lt false = (refl, refl, refl)

  pub marked-Counted :
      (w : World) (lt : ℕ) (is_eof : Bool) (n : ℕ) → Counted w n → Counted (mark_eof w lt is_eof) n
  unfolding mark_eof
  marked-Counted w lt true n c = c
  marked-Counted w lt false n c = c

  pub settled_same :
      (w : World)
      → let v = settle_event w in
        (w.scheds ≡ v.scheds)
        × (w.pool.asleep ≡ v.pool.asleep)
        × (v.pool.num_schedulers ≡ w.pool.num_schedulers)
  unfolding settle_event
  settled_same w = (refl, refl, refl)

  pub settled-Counted : (w : World) → Counted w 1 → Counted (settle_event w) 0
  unfolding settle_event
  settled-Counted w c = omega arith

  pub marked_id :
      {n : ℕ} (x : System) (lt : ℕ) (is_eof : Bool)
      → Inv n x
      → let v = mark_eof x.world lt is_eof in (v.scheds (v.lts lt).sched).id ≡ (v.lts lt).sched
  unfolding mark_eof
  marked_id x lt is_eof inv =
      let v = mark_eof x.world lt is_eof in ground (arith, (inv.each (v.lts lt).sched).id)

  pub At-desched_event :
      (w : World) (p : Pc) (lt j : ℕ)
      → At w p j
      → (w.scheds (w.lts lt).sched).id ≡ (w.lts lt).sched
      → is_gone p ≡ false
      → At (desched_event w lt) p j
  unfolding desched_event
  At-desched_event w p lt j h q g = At-push w p (w.lts lt).sched lt j h q g refl
