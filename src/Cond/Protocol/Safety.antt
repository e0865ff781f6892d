-- ===== src/Cond/Protocol/Safety.antt =====
-- What holds of a condition variable in every state that lthreads can bring about.
use lthread_concurrent.Prelude.{ℕ, ◌≡◌, refl, some, arith}
use lthread_concurrent.Intrusive.{Intrusive}
use lthread_concurrent.State.{World}
use lthread_concurrent.Cond.{cond_create}
use lthread_concurrent.Cond.Protocol.{outside, locking, holding, System, Inv, Reach, here, next}
use lthread_concurrent.Cond.Protocol.Steps.{Step-Inv}

module _ ⦃i : Intrusive⦄ where
  open i use {elems-tailq_init}

  -- A new condition variable, in any world.
  abbrev pub start : World → System
  start w = record { state = record { cond = cond_create; world = w }; phase = λ lt. outside }

  start-Inv : (w : World) → Inv (start w)
  unfolding cond_create
  start-Inv w = record {
    once = λ lt. ground (arith, elems-tailq_init);
    flags = λ lt h. ground (arith, h);
    absent = λ lt h. ground (arith, elems-tailq_init);
    unowned = λ lt h. refl;
    holds = λ lt h. cc;
    apart = λ lt h. refl;
    handed = λ lt h e. absurd (h refl);
    kept = λ lt h. cc;
  }

  -- In every state that is reached from a new condition variable, the invariant holds: nobody is
  -- in the queue twice; of the lthreads that are locking or waiting, exactly those in the queue are
  -- marked as blocked; an lthread inside that is not in the queue is the owner; those outside are not in the queue and not the owner; a holder is
  -- the owner, nobody in the queue is, and while an lthread is locking there is an owner.
  pub Reach-Inv : (w : World) {x : System} → Reach (start w) x → Inv x
  Reach-Inv w here = start-Inv w
  Reach-Inv w (next r st) = Step-Inv st (Reach-Inv w r)

  -- In a state that is reached from a new condition variable, two lthreads that hold the lock are
  -- the same.
  pub mutual_exclusion :
      (w : World) {x : System}
      → Reach (start w) x
      → (a b : ℕ) → x.phase a ≡ holding
      → x.phase b ≡ holding
      → a ≡ b
  mutual_exclusion w r a b p q = let inv = Reach-Inv w r in ground (arith, inv.holds a, inv.holds b)

  -- In a state that is reached from a new condition variable, the lock has an owner while any
  -- lthread is blocked in lthread_cond_lock.
  pub locker_not_stranded :
      (w : World) {x : System}
      → Reach (start w) x
      → (a : ℕ) → x.phase a ≡ locking
      → (o : ℕ) × (x.state.cond.owner ≡ some o)
  locker_not_stranded w r a p = let inv = Reach-Inv w r in ground (arith, inv.kept a)
