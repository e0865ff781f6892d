-- ===== src/Cond/Protocol/Wakes.antt =====
-- src/lthread_cond.c, _lthread_cond_signal: whom it wakes, and how often.
use lthread_concurrent.Prelude.{
  ℕ, ◌≡◌, ◌≢◌, true, false, some, none, List, [], ◌∷◌, arith, ap, ◌∙◌, ◌⊎◌, elem, count, inl, inr,
}
use lthread_concurrent.Intrusive.{Intrusive}
use lthread_concurrent.State.{World}
use lthread_concurrent.Sched.Ready.Push.{IsWoken, IsLeft}
use lthread_concurrent.Cond.{State, cond_signal}
use lthread_concurrent.Cond.Handover.{
  blocked, is_blocked, HandsOver, cond_signal_frees, cond_signal-HandsOver,
}
use lthread_concurrent.Cond.Protocol.{holding, System, Inv, Reach, IsParked}
use lthread_concurrent.Cond.Protocol.Steps.{List-cases, first_blocked, in_queue_phase}
use lthread_concurrent.Cond.Protocol.Safety.{start, Reach-Inv}

module _ ⦃i : Intrusive⦄ where
  -- The signal wakes `lt`: it is blocked, in the queue, until then, and no more after
  -- that. It wakes nobody else.
  pub record WakesBlocked (x : System) (y : State) (lt : ℕ) : Type 0 where
    pub phase : IsParked (x.phase lt)
    pub queued : count lt (blocked x.state) ≡ 1
    pub dequeued : count lt (blocked y) ≡ 0
    pub cleared : is_blocked y lt ≡ false
    pub owner : y.cond.owner ≡ some lt
    pub woken : IsWoken x.state.world y.world lt
    pub others : (z : ℕ) → lt ≢ z → IsLeft x.state.world y.world z

  first-WakesBlocked :
      (x : System) (y : State) (lt : ℕ) (rest : List ℕ)
      → blocked x.state ≡ lt ∷ rest
      → HandsOver x.state y lt rest
      → Inv x
      → WakesBlocked x y lt
  first-WakesBlocked x y lt rest q v inv =
      let split = ap (count lt) q in
      record {
        phase = in_queue_phase x lt (ap (elem lt) q ∙ ground arith) inv;
        queued = ground (arith, split, inv.once lt);
        dequeued = ap (count lt) v.queue ∙ ground (arith, split, inv.once lt);
        cleared = v.flags lt ∙ ground arith;
        owner = v.owned;
        woken = v.woken;
        others = v.others;
      }

  -- In a state that is reached from a new condition variable, the signal of an lthread that holds the
  -- lock succeeds. If nobody is blocked, it wakes nobody and frees the lock; otherwise it wakes one
  -- lthread, which is blocked in lthread_cond_lock or lthread_cond_wait and once in the queue, by
  -- putting it at the end of its scheduler's queue, or by the request to do so if it still runs. That
  -- one then has the lock, and is out of the queue. Every other lthread is as often in each scheduler's queue as before, with the same
  -- request.
  pub signal_wakes_once :
      (w : World) {x : System}
      → Reach (start w) x
      → (self : ℕ) → x.phase self ≡ holding
      → ((blocked x.state ≡ [])
          × (cond_signal x.state self
              ≡ some (record (x.state) { cond = record (x.state.cond) { owner = none } }, false)))
        ⊎ ((y : State) × (lt : ℕ) × (cond_signal x.state self ≡ some (y, true))
            × WakesBlocked x y lt)
  signal_wakes_once w {x} r self hold =
      let inv = Reach-Inv w r in
      elim (List-cases (blocked x.state)) [
        | inl q ↦ inl (q, cond_signal_frees x.state self (inv.holds self hold) q)
        | inr (lt, rest, q) ↦
            let (y, e, v) =
              cond_signal-HandsOver x.state self lt rest (inv.holds self hold) q
                (first_blocked x lt rest q inv) in
            inr (y, lt, e, first-WakesBlocked x y lt rest q v inv)
      ]
