-- ===== src/Cond/Protocol/Refinement.antt =====
-- src/lthread_cond.c: the operations keep to the lock of Cond.Protocol.Monitor.
use lthread_concurrent.Prelude.{
  ℕ, ◌≡◌, refl, sym, ap, ◌∙◌, inl, inr, Bool, true, false, none, some, List, [], ◌∷◌, ◌++◌, arith,
  Option-cases, Bool-cases, elem, if◌then◌else◌,
}
use mathlib.Core.Option.{some-injective}
use mathlib.Core.Path.{subst}
use lthread_concurrent.Intrusive.{Intrusive}
use lthread_concurrent.State.{World}
use lthread_concurrent.Cond.{
  State, cond_create, cond_lock, cond_locked, cond_wait, cond_waited, cond_unlock_signal,
  cond_signal, ◌>>=◌,
}
use lthread_concurrent.Cond.Handover.{
  blocked, is_blocked, cond_signal_frees, cond_signal-HandsOver, cond_lock_free, cond_lock-Enqueues,
  cond_unblock_owner, cond_unblock-GivesUp, cond_enqueue-Enqueues,
}
use lthread_concurrent.Cond.Protocol.{
  outside, locking, holding, waiting, System, Inv, Step, lock_taken, lock_blocked, locked, wait,
  waited, timed_out, unlock, elsewhere, Reach, here, next,
}
use lthread_concurrent.Cond.Protocol.Steps.{
  List-cases, same_result, first_blocked, not_locked, locked_ok,
}
use lthread_concurrent.Cond.Protocol.Safety.{start, Reach-Inv}
use lthread_concurrent.Cond.Protocol.Monitor.{
  Monitor, Action, locks, goes_on, waits, gives_up, unlocks, unused, hand_on, act, act_all,
  act_all-append,
}

module _ ⦃i : Intrusive⦄ where
  open i use {elems, elems-tailq_init}

  -- What the monitor shows of a condition variable: not how it is kept, nor who is marked.
  abbrev pub monitor : State → Monitor
  monitor x = record { owner = x.cond.owner; queue = blocked x }

  -- What the lthread does in a step
  abbrev pub actions : {x y : System} → Step x y → List Action
  actions (lock_taken self out clear e) = locks self ∷ []
  actions (lock_blocked self out clear e) = locks self ∷ []
  actions (locked self p e) = goes_on self ∷ []
  actions (wait self p clear e) = waits self ∷ []
  actions (waited self p e) = goes_on self ∷ []
  actions (timed_out self p e) = gives_up self ∷ []
  actions (unlock self p e) = unlocks self ∷ []
  actions (elsewhere w same) = []

  -- What lthreads have done in a run, in order
  abbrev pub history : {x y : System} → Reach x y → List Action
  history here = []
  history (next r st) = history r ++ actions st

  -- An action that gives the owner and the queue of the later state
  Acts : State → Action → State → Type 0
  Acts x a y = act (monitor x) a ≡ some (monitor y)

  shown : (x : State) (a : Action) {y z : State} → y ≡ z → Acts x a y → Acts x a z
  shown x a e h = subst (Acts x a) e h

  gives :
      (x y : State) (a : Action) {m : Monitor}
      → act (monitor x) a ≡ some m
      → y.cond.owner ≡ m.owner
      → blocked y ≡ m.queue
      → Acts x a y
  unfolding Acts
  gives x y a e o q = rw (o, q) e

  -- The signal of a holder
  record Signalled (x y : State) (self : ℕ) : Type 0 where
    owner : y.cond.owner ≡ (hand_on (blocked x)).owner
    queue : blocked y ≡ (hand_on (blocked x)).queue
    clear : is_blocked x self ≡ false → is_blocked y self ≡ false

  signal-Signalled :
      (x : System) (self : ℕ)
      → x.phase self ≡ holding
      → Inv x
      → (y : State) × (b : Bool) × (cond_signal x.state self ≡ some (y, b))
        × Signalled x.state y self
  signal-Signalled x self hold inv = elim (List-cases (blocked x.state)) [
    | inl q ↦ (
      record (x.state) { cond = record (x.state.cond) { owner = none } },
      false,
      cond_signal_frees x.state self (inv.holds self hold) q,
      record { owner = rw q refl; queue = rw q refl; clear = λ c. c },
    )
    | inr (lt, rest, q) ↦
        let (y, e, v) =
          cond_signal-HandsOver x.state self lt rest (inv.holds self hold) q
            (first_blocked x lt rest q inv) in
        (
          y,
          true,
          e,
          record {
            owner = rw q v.owned;
            queue = rw q v.queue;
            clear = λ c. v.flags self ∙ ground (arith, c);
          },
        )
  ]

  wait-Acts :
      (x : System) (self : ℕ) {y : State}
      → x.phase self ≡ holding
      → is_blocked x.state self ≡ false
      → Inv x
      → cond_wait x.state self ≡ some y
      → Acts x.state (waits self) y
  unfolding cond_wait
  wait-Acts x self hold running inv e =
      let (u, b, f, v) = signal-Signalled x self hold inv in
      let (z, g, w) = cond_enqueue-Enqueues u self (v.clear running) in
      let done : cond_wait x.state self ≡ some z = rw (f, ◌>>=◌) g in
      shown x.state (waits self) (some-injective _ _ (sym done ∙ e)) (
        gives x.state z (waits self) (ground (arith, inv.holds self hold, inv.apart self))
          (w.owned ∙ v.owner) (w.queue ∙ ap (λ q. q ++ self ∷ []) v.queue))

  unlock-Acts :
      (x : System) (self : ℕ) {y : State}
      → x.phase self ≡ holding
      → Inv x
      → cond_unlock_signal x.state self ≡ some y
      → Acts x.state (unlocks self) y
  unfolding cond_unlock_signal
  unlock-Acts x self hold inv e =
      let (u, b, f, v) = signal-Signalled x self hold inv in
      let done : cond_unlock_signal x.state self ≡ some u = rw (f, ◌>>=◌) refl in
      shown x.state (unlocks self) (some-injective _ _ (sym done ∙ e))
        (gives x.state _ (unlocks self) (ground (arith, inv.holds self hold)) v.owner v.queue)

  lock-Acts :
      (x : System) (self : ℕ) {y : State} {b : Bool}
      → x.phase self ≡ outside
      → is_blocked x.state self ≡ false
      → Inv x
      → cond_lock x.state self ≡ some (y, b)
      → Acts x.state (locks self) y
  lock-Acts x self out clear inv e =
      let absent = inv.absent self out in
      elim (Option-cases x.state.cond.owner) [
        | inl o ↦
            shown x.state (locks self) (same_result (cond_lock_free x.state self o) e).0
              (gives x.state _ (locks self) (ground (arith, absent)) refl refl)
        | inr (c, o) ↦
            let (z, f, v) =
              cond_lock-Enqueues x.state self c o (λ same. ground (arith, inv.unowned self))
                clear in
            shown x.state (locks self) (same_result f e).0 (
              gives x.state _ (locks self) (ground (arith, absent, inv.unowned self out)) v.owned
                v.queue)
      ]

  waited-Acts :
      (x : System) (self : ℕ) {y : State} {b : Bool}
      → x.phase self ≡ waiting
      → Inv x
      → cond_waited x.state self ≡ some (y, b)
      → Acts x.state (if b then goes_on self else gives_up self) y
  unfolding cond_waited
  waited-Acts x self {y} w inv e = elim (Bool-cases (elem self (blocked x.state))) [
    | inr gone ↦
        let o = inv.handed self (λ p. cc) gone in
        let done = cond_unblock_owner x.state self o (inv.flags self (inr w) ∙ gone) in
        let f : cond_waited x.state self ≡ some (x.state, true) = rw (done, ◌>>=◌) (ground arith) in
        let (s, t) = same_result f e in
        subst (λ c. Acts x.state (if c then goes_on self else gives_up self) y) t
          (shown x.state (goes_on self) s
            (gives x.state _ (goes_on self) (ground (arith, o)) refl refl))
    | inl there ↦
        let o = inv.apart self there in
        let (z, done, v) =
          cond_unblock-GivesUp x.state self o (inv.flags self (inr w) ∙ there) there in
        let f : cond_waited x.state self ≡ some (z, false) = rw (done, ◌>>=◌) refl in
        let (s, t) = same_result f e in
        subst (λ c. Acts x.state (if c then goes_on self else gives_up self) y) t
          (shown x.state (gives_up self) s
            (gives x.state _ (gives_up self) (ground (arith, o, there)) v.owned v.queue))
  ]

  locked-Acts :
      (x : System) (self : ℕ) {y : State}
      → x.phase self ≡ locking
      → Inv x
      → cond_locked x.state self ≡ some y
      → Acts x.state (goes_on self) y
  locked-Acts x self lock inv e = elim (Bool-cases (elem self (blocked x.state))) [
    | inr gone ↦
        let o = inv.handed self (λ p. cc) gone in
        shown x.state (goes_on self)
          (some-injective _ _ (sym (locked_ok x self lock gone inv).0 ∙ e))
          (gives x.state _ (goes_on self) (ground (arith, o)) refl refl)
    | inl there ↦
        absurd
          (not_locked x self (inv.apart self there) (inv.flags self (inl lock) ∙ there) there e)
  ]

  act_all-actions :
      {x y : System}
      → Inv x
      → (st : Step x y) → act_all (some (monitor x.state)) (actions st) ≡ some (monitor y.state)
  unfolding Acts
  act_all-actions {x} inv (lock_taken self out clear e) = lock-Acts x self out clear inv e
  act_all-actions {x} inv (lock_blocked self out clear e) = lock-Acts x self out clear inv e
  act_all-actions {x} inv (locked self p e) = locked-Acts x self p inv e
  act_all-actions {x} inv (wait self p clear e) = wait-Acts x self p clear inv e
  act_all-actions {x} inv (waited self p e) = waited-Acts x self p inv e
  act_all-actions {x} inv (timed_out self p e) = waited-Acts x self p inv e
  act_all-actions {x} inv (unlock self p e) = unlock-Acts x self p inv e
  act_all-actions {x} inv (elsewhere w same) = refl

  fresh : (w : World) → some unused ≡ some (monitor (start w).state)
  unfolding cond_create
  fresh w = rw elems-tailq_init refl

  -- Whatever lthreads do with a new condition variable, in any run: the same calls, in the same order,
  -- made of the lock as it should be, are all in turn, and leave it with exactly the owner and the
  -- queue of the condition variable. That lock is a function: who asks for it takes it if it is free
  -- and stands at the end of the queue if not, a call returns with the lock only to the owner, an
  -- owner that waits or unlocks hands it to the first of the queue, or frees it, the one that waits
  -- stands at the end, and one in the queue may give up.
  pub act_all-history :
      (w : World) {x : System} (r : Reach (start w) x)
      → act_all (some unused) (history r) ≡ some (monitor x.state)
  act_all-history w here = fresh w
  act_all-history w (next r st) =
      act_all-append (some unused) (history r) (actions st)
      ∙ ap (λ m. act_all m (actions st)) (act_all-history w r)
      ∙ act_all-actions (Reach-Inv w r) st
