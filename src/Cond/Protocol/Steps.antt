-- ===== src/Cond/Protocol/Steps.antt =====
-- Every critical section keeps the invariant, and none that an lthread may enter fails.
use lthread_concurrent.Prelude.{
  ℕ, ◌≡◌, refl, true, false, Option, some, if◌then◌else◌, List, [], ◌∷◌, arith, sym, ap, ◌∙◌, ◌⊎◌,
  elem, inl, inr, Bool, Option-cases, Bool-cases,
}
use mathlib.Core.Path.{subst, subst₂, fun_ext}
use mathlib.Core.Option.{some-injective}
use lthread_concurrent.Intrusive.{Intrusive}
use lthread_concurrent.State.{update}
use lthread_concurrent.Sched.Ready.{is_lt}
use lthread_concurrent.Cond.{
  State, is_none, cond_lock, cond_locked, cond_wait, cond_waited, cond_unlock_signal, cond_signal,
  ◌>>=◌,
}
use lthread_concurrent.Cond.Handover.{
  blocked, is_blocked, cond_signal_frees, cond_signal-HandsOver, cond_lock_free, cond_lock-Enqueues,
  cond_unblock_owner, cond_unblock-GivesUp, cond_enqueue-Enqueues,
}
use lthread_concurrent.Cond.Protocol.{
  Phase, outside, locking, holding, waiting, System, Inv, Step, lock_taken, lock_blocked, locked,
  wait, waited, timed_out, unlock, elsewhere, IsParked,
}
use lthread_concurrent.Cond.Protocol.Moves.{
  moved, Enqueues-Inv, HandsOver-Inv, frees-Inv, takes-Inv, goes_on-Inv, GivesUp-Inv, elsewhere-Inv,
}

pub List-cases : (xs : List ℕ) → (xs ≡ []) ⊎ ((x : ℕ) × (ys : List ℕ) × (xs ≡ x ∷ ys))
List-cases [] = inl refl
List-cases (x ∷ xs) = inr (x, xs, refl)

phase_cases : (p : Phase) → IsParked p ⊎ ((p ≡ outside) ⊎ (p ≡ holding))
phase_cases outside = inr (inl refl)
phase_cases locking = inl (inl refl)
phase_cases holding = inr (inr refl)
phase_cases waiting = inl (inr refl)

module _ ⦃i : Intrusive⦄ where
  -- An lthread that is blocked in the condition variable
  pub in_queue_phase :
      (x : System) (lt : ℕ) → elem lt (blocked x.state) ≡ true → Inv x → IsParked (x.phase lt)
  in_queue_phase x lt h inv = elim (phase_cases (x.phase lt)) [
    | inl p ↦ p
    | inr (inl out) ↦ absurd (ground (arith, h, inv.absent lt out))
    | inr (inr hold) ↦ absurd (ground (arith, inv.apart lt h, inv.holds lt hold))
  ]

  pub first_blocked :
      (x : System) (lt : ℕ) (rest : List ℕ)
      → blocked x.state ≡ lt ∷ rest
      → Inv x
      → is_blocked x.state lt ≡ true
  first_blocked x lt rest q inv =
      let there : elem lt (blocked x.state) ≡ true = ap (elem lt) q ∙ ground arith in
      inv.flags lt (in_queue_phase x lt there inv) ∙ there

  -- The signal of a holder succeeds, and leaves it outside.
  signal_ok :
      (x : System) (self : ℕ)
      → x.phase self ≡ holding
      → Inv x
      → (y : State) × (b : Bool) × (cond_signal x.state self ≡ some (y, b))
        × Inv (moved y x.phase self outside)
        × (is_blocked x.state self ≡ false → is_blocked y self ≡ false)
  signal_ok x self hold inv = elim (List-cases (blocked x.state)) [
    | inl q ↦ (
      _,
      false,
      cond_signal_frees x.state self (inv.holds self hold) q,
      frees-Inv x self hold q inv,
      λ clear. clear,
    )
    | inr (lt, rest, q) ↦
        let (y, e, v) =
          cond_signal-HandsOver x.state self lt rest (inv.holds self hold) q
            (first_blocked x lt rest q inv) in
        (
          y,
          true,
          e,
          HandsOver-Inv x y self lt rest hold q v inv,
          λ clear. v.flags self ∙ ground (arith, clear),
        )
  ]

  update_twice :
      (f : ℕ → Phase) (self : ℕ) (p q : Phase) → update (update f self p) self q ≡ update f self q
  update_twice f self p q = fun_ext (λ z. ground arith)

  -- If the invariant holds, and an lthread holds the lock and is not marked as blocked, its call of
  -- lthread_cond_wait fails no assertion up to the switch, and the invariant holds with the lthread waiting.
  pub wait_ok :
      (x : System) (self : ℕ)
      → x.phase self ≡ holding
      → is_blocked x.state self ≡ false
      → Inv x
      → (y : State) × (cond_wait x.state self ≡ some y) × Inv (moved y x.phase self waiting)
  unfolding cond_wait
  wait_ok x self hold running inv =
      let (y, b, e, mid, clear) = signal_ok x self hold inv in
      let (z, f, v) = cond_enqueue-Enqueues y self (clear running) in
      (
        z,
        rw (e, ◌>>=◌) f,
        subst (λ ph. Inv (record { state = z; phase = ph }))
            (update_twice x.phase self outside waiting)
            (Enqueues-Inv (moved y x.phase self outside) z self waiting (ground arith) (inl refl) v
              mid),
      )

  -- If the invariant holds and an lthread holds the lock, its call of lthread_cond_unlock_signal
  -- fails no assertion, and the invariant holds with the lthread outside.
  pub unlock_ok :
      (x : System) (self : ℕ)
      → x.phase self ≡ holding
      → Inv x
      → (y : State) × (cond_unlock_signal x.state self ≡ some y)
        × Inv (moved y x.phase self outside)
  unfolding cond_unlock_signal
  unlock_ok x self hold inv =
      let (y, b, e, mid, clear) = signal_ok x self hold inv in (y, rw (e, ◌>>=◌) refl, mid)

  -- If the invariant holds, a call of lthread_cond_lock by an lthread that is outside and not
  -- blocked fails no assertion up to the switch, takes the lock exactly if it has no owner, and
  -- keeps the invariant, with the lthread holding or locking.
  pub lock_ok :
      (x : System) (self : ℕ)
      → x.phase self ≡ outside
      → is_blocked x.state self ≡ false
      → Inv x
      → (y : State) × (b : Bool) × (cond_lock x.state self ≡ some (y, b))
        × (b ≡ is_none x.state.cond.owner)
        × Inv (moved y x.phase self (if b then holding else locking))
  lock_ok x self out clear inv = elim (Option-cases x.state.cond.owner) [
    | inl o ↦
        (_, true, cond_lock_free x.state self o, ground arith, takes-Inv x self out clear o inv)
    | inr (c, o) ↦
        let (y, e, v) =
          cond_lock-Enqueues x.state self c o (λ same. ground (arith, inv.unowned self)) clear in
        (
          y,
          false,
          e,
          ground arith,
          Enqueues-Inv x y self locking out (inr (refl, ground arith)) v inv,
        )
  ]

  -- If the invariant holds and an lthread that is locking is no longer in the queue, it fails no
  -- assertion after the switch, changes nothing, and the invariant holds with the lthread holding.
  pub locked_ok :
      (x : System) (self : ℕ)
      → x.phase self ≡ locking
      → elem self (blocked x.state) ≡ false
      → Inv x
      → (cond_locked x.state self ≡ some x.state) × Inv (moved x.state x.phase self holding)
  unfolding cond_locked
  locked_ok x self lock gone inv =
      let o = inv.handed self (λ e. cc) gone in
      let done = cond_unblock_owner x.state self o (inv.flags self (inl lock) ∙ gone) in
      (rw (done, ◌>>=◌) (ground arith), goes_on-Inv x self (λ e. cc) o inv)

  -- If the invariant holds and an lthread is in lthread_cond_wait, it may run again at any time:
  -- it fails no assertion after the switch, the result is 0 exactly if it is the owner, and the
  -- invariant holds, with the lthread holding the lock in that case and outside in the other.
  pub waited_ok :
      (x : System) (self : ℕ)
      → x.phase self ≡ waiting
      → Inv x
      → (y : State) × (b : Bool) × (cond_waited x.state self ≡ some (y, b))
        × (b ≡ is_lt x.state.cond.owner self)
        × Inv (moved y x.phase self (if b then holding else outside))
  unfolding cond_waited
  waited_ok x self w inv = elim (Bool-cases (elem self (blocked x.state))) [
    | inr gone ↦
        let o = inv.handed self (λ e. cc) gone in
        let done = cond_unblock_owner x.state self o (inv.flags self (inr w) ∙ gone) in
        (x.state, true, rw (done, ◌>>=◌) (ground arith), sym o, goes_on-Inv x self (λ e. cc) o inv)
    | inl there ↦
        let o = inv.apart self there in
        let (y, e, v) =
          cond_unblock-GivesUp x.state self o (inv.flags self (inr w) ∙ there) there in
        (y, false, rw (e, ◌>>=◌) refl, sym o, GivesUp-Inv x y self o v inv)
  ]

  pub same_result :
      {r : Option (State × Bool)} {y z : State} {b c : Bool}
      → r ≡ some (y, b)
      → r ≡ some (z, c)
      → (y ≡ z) × (b ≡ c)
  same_result p q =
      let e = some-injective _ _ (sym p ∙ q) in
      (ap (λ (t : State × Bool). t.0) e, ap (λ (t : State × Bool). t.1) e)

  moved-same :
      (x : System) (self : ℕ) {y z : State} {p q : Phase}
      → z ≡ y
      → q ≡ p
      → Inv (moved z x.phase self q)
      → Inv (moved y x.phase self p)
  moved-same x self e f inv = subst₂ (λ s ph. Inv (moved s x.phase self ph)) e f inv

  -- Before that it does not go on: its assertion would fail.
  pub not_locked :
      (x : System) (self : ℕ) {y : State}
      → is_lt x.state.cond.owner self ≡ false
      → is_blocked x.state self ≡ true
      → elem self (blocked x.state) ≡ true
      → cond_locked x.state self ≡ some y
      → ⊥
  unfolding cond_locked
  not_locked x self o b there e =
      let (z, f, v) = cond_unblock-GivesUp x.state self o b there in
      let owner : is_lt z.cond.owner self ≡ false = ap (λ w. is_lt w self) v.owned ∙ o in
      ground arith

  -- Every step keeps the invariant.
  pub Step-Inv : {x y : System} → Step x y → Inv x → Inv y
  Step-Inv {x} (lock_taken self out clear e) inv =
      let (z, b, f, g, mid) = lock_ok x self out clear inv in
      let (s, t) = same_result f e in
      moved-same x self s (ap (λ (c : Bool). if c then holding else locking) t) mid
  Step-Inv {x} (lock_blocked self out clear e) inv =
      let (z, b, f, g, mid) = lock_ok x self out clear inv in
      let (s, t) = same_result f e in
      moved-same x self s (ap (λ (c : Bool). if c then holding else locking) t) mid
  Step-Inv {x} (locked self lock e) inv = elim (Bool-cases (elem self (blocked x.state))) [
    | inr gone ↦
        let (f, mid) = locked_ok x self lock gone inv in
        moved-same x self (some-injective _ _ (sym f ∙ e)) refl mid
    | inl there ↦
        absurd
          (not_locked x self (inv.apart self there) (inv.flags self (inl lock) ∙ there) there e)
  ]
  Step-Inv {x} (wait self hold running e) inv =
      let (z, f, mid) = wait_ok x self hold running inv in
      moved-same x self (some-injective _ _ (sym f ∙ e)) refl mid
  Step-Inv {x} (waited self w e) inv =
      let (z, b, f, g, mid) = waited_ok x self w inv in
      let (s, t) = same_result f e in
      moved-same x self s (ap (λ (c : Bool). if c then holding else outside) t) mid
  Step-Inv {x} (timed_out self w e) inv =
      let (z, b, f, g, mid) = waited_ok x self w inv in
      let (s, t) = same_result f e in
      moved-same x self s (ap (λ (c : Bool). if c then holding else outside) t) mid
  Step-Inv {x} (unlock self hold e) inv =
      let (z, f, mid) = unlock_ok x self hold inv in
      moved-same x self (some-injective _ _ (sym f ∙ e)) refl mid
  Step-Inv {x} (elsewhere w same) inv = elsewhere-Inv x w same inv
