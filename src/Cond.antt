-- ===== src/Cond.antt =====
-- src/lthread_cond.c: a lock that its holders hand on. Each function is the critical section
-- under the mutex of the condition variable, with that of the scheduler inside; those that switch
-- are cut in two at the switch, since other lthreads run there. `none` is a failed assertion.
pub mod Handover
pub mod Protocol
use lthread_concurrent.Prelude.{
  ℕ, zero, suc, ◌+◌, ◌≡◌, Bool, true, false, not, ◌&&◌, Option, none, some, List, [], ◌∷◌, ◌==◌,
  if◌then◌else◌,
}
use lthread_concurrent.Intrusive.{Intrusive}
use lthread_concurrent.State.{Lthread, World, with_lt}
use lthread_concurrent.Sched.Ready.{is_lt}
use lthread_concurrent.Sched.Sleep.{wakeup_round}

infixl 5 ◌>>=◌
abbrev pub ◌>>=◌ {ℓ κ} : {A : Type ℓ} {B : Type κ} → Option A → (A → Option B) → Option B
none >>= f = none
some a >>= f = f a

-- assert(b), before the value `a`
abbrev pub assert {ℓ} : {A : Type ℓ} → Bool → A → Option A
assert true a = some a
assert false a = none

abbrev pub is_none : Option ℕ → Bool
is_none none = true
is_none (some x) = false

module _ ⦃i : Intrusive⦄ where
  open i use {Tailq, elems, tailq_init, tailq_first, tailq_insert_tail, tailq_remove}

  -- struct lthread_cond
  pub record Cond : Type 0 where
    pub blocked_lthreads : Tailq
    pub owner : Option ℕ

  -- A condition variable, and all else.
  pub record State : Type 0 where
    pub cond : Cond
    pub world : World

  -- lthread_cond_create, after a successful calloc
  unfoldable pub cond_create : Cond
  cond_create = record { blocked_lthreads = tailq_init; owner = none }

  -- lt->is_blocked = b
  unfoldable pub set_blocked : World → ℕ → Bool → World
  set_blocked w lt b = with_lt w lt (record (w.lts lt) { is_blocked = b })

  -- _lthread_cond_acquire
  unfoldable pub cond_acquire : Cond → ℕ → Option Cond
  cond_acquire c self = assert (is_none c.owner) (record c { owner = some self })

  -- _lthread_cond_release
  unfoldable pub cond_release : Cond → ℕ → Option Cond
  cond_release c self = assert (is_lt c.owner self) (record c { owner = none })

  -- _lthread_cond_num_blocked
  unfoldable pub count_lthreads : List ℕ → ℕ
  count_lthreads [] = 0
  count_lthreads (x ∷ xs) = count_lthreads xs + 1

  unfoldable pub cond_num_blocked : Cond → ℕ
  unfolding count_lthreads
  cond_num_blocked c = count_lthreads (elems c.blocked_lthreads)

  -- _lthread_cond_wait up to the release of the mutex. The lthread then sleeps, by `sched_sleep` in
  -- a critical section of its scheduler, and switches; it may be handed the lock before that.
  unfoldable pub cond_enqueue : State → (self : ℕ) → Option State
  unfolding set_blocked
  cond_enqueue x self = assert (not (x.world.lts self).is_blocked) (record {
    cond = record (x.cond) { blocked_lthreads = tailq_insert_tail x.cond.blocked_lthreads self };
    world = set_blocked x.world self true;
  })

  -- and from the moment it takes the mutex again, with the result: 0, or not 0 but -2
  unfoldable pub cond_unblock : State → (self : ℕ) → Option (State × Bool)
  unfolding set_blocked
  cond_unblock x self =
      let blocked = (x.world.lts self).is_blocked in
      if is_lt x.cond.owner self
      then assert (not blocked) (x, true)
      else assert blocked (
        record {
          cond = record (x.cond) { blocked_lthreads = tailq_remove x.cond.blocked_lthreads self };
          world = set_blocked x.world self false;
        },
        false,
      )

  -- The hand-over to the first of the blocked lthreads.
  unfoldable pub cond_hand_over : State → ℕ → Option State
  unfolding set_blocked cond_acquire
  cond_hand_over x lt = do
    q ← assert (x.world.lts lt).is_blocked (tailq_remove x.cond.blocked_lthreads lt)
    c ← cond_acquire (record (x.cond) { blocked_lthreads = q }) lt
    w ← wakeup_round (set_blocked x.world lt false) (x.world.lts lt).sched lt
    some (record { cond = c; world = w })

  -- _lthread_cond_signal, with its result
  unfoldable pub cond_signal : State → (self : ℕ) → Option (State × Bool)
  unfolding cond_release cond_hand_over
  cond_signal x self = do
    c ← cond_release x.cond self
    elim (tailq_first x.cond.blocked_lthreads) [
      | some lt ↦ (do y ← cond_hand_over (record x { cond = c }) lt; some (y, true))
      | none ↦ some (record x { cond = c }, false)
    ]

  -- lthread_cond_lock up to its end, or to the release of the mutex; the Boolean says that the
  -- lock is taken.
  unfoldable pub cond_lock : State → (self : ℕ) → Option (State × Bool)
  unfolding cond_enqueue cond_acquire
  cond_lock x self =
      if is_lt x.cond.owner self
      then none
      else (if is_none x.cond.owner
          then (do c ← cond_acquire x.cond self; some (record x { cond = c }, true))
          else (do y ← cond_enqueue x self; some (y, false)))

  -- lthread_cond_lock after the switch
  unfoldable pub cond_locked : State → (self : ℕ) → Option State
  unfolding cond_unblock
  cond_locked x self = do r ← cond_unblock x self; assert (is_lt r.0.cond.owner self) r.0

  -- lthread_cond_wait up to the release of the mutex
  unfoldable pub cond_wait : State → (self : ℕ) → Option State
  unfolding cond_signal cond_enqueue
  cond_wait x self = do r ← cond_signal x self; cond_enqueue r.0 self

  -- lthread_cond_wait after the switch
  unfoldable pub cond_waited : State → (self : ℕ) → Option (State × Bool)
  unfolding cond_unblock
  cond_waited x self = do
    r ← cond_unblock x self
    if r.1 then assert (is_lt r.0.cond.owner self) r else some r

  -- lthread_cond_unlock_signal
  unfoldable pub cond_unlock_signal : State → (self : ℕ) → Option State
  unfolding cond_signal
  cond_unlock_signal x self = do r ← cond_signal x self; some r.0
