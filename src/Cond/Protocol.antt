-- ===== src/Cond/Protocol.antt =====
-- src/lthread_cond.c: lthreads that lock, wait and unlock in any order. An lthread that is blocked
-- goes on when it has been handed the lock or, in lthread_cond_wait, when its time is over.
pub mod Moves
pub mod Steps
pub mod Safety
pub mod Monitor
pub mod Refinement
pub mod Wakes
use lthread_concurrent.Prelude.{
  ℕ, suc, ◌+◌, ◌≤◌, ◌≡◌, ◌≢◌, refl, true, false, not, ◌||◌, Option, none, some, if◌then◌else◌, List,
  [], ◌∷◌, ◌++◌, arith, ◌==◌, sym, ap, ◌∙◌, ◌⊎◌, elem, erase, head?, inl, inr, Bool, count,
}
use lthread_concurrent.Intrusive.{Intrusive}
use lthread_concurrent.State.{World, update}
use lthread_concurrent.Sched.Ready.{is_lt}
use lthread_concurrent.Cond.{
  State, is_none, cond_lock, cond_locked, cond_wait, cond_waited, cond_unlock_signal,
}
use lthread_concurrent.Cond.Handover.{blocked, is_blocked, Enqueues, HandsOver, GivesUp}

-- Where an lthread stands towards the condition variable: not in it; blocked in lthread_cond_lock;
-- with the lock; blocked in lthread_cond_wait.
pub data Phase : Type 0 where
  outside locking holding waiting : Phase

-- Blocked in an operation of this condition variable
abbrev pub IsParked : Phase → Type 0
IsParked p = (p ≡ locking) ⊎ (p ≡ waiting)

module _ ⦃i : Intrusive⦄ where
  pub record System : Type 0 where
    pub state : State
    pub phase : ℕ → Phase

  -- One critical section. An lthread that enters lthread_cond_lock or lthread_cond_wait runs, so it
  -- is not marked as blocked. `elsewhere` is all that happens without the condition variable. The mark
  -- is one for all condition variables, so this may set and clear it, but not for an lthread that is
  -- blocked in this one: it cannot enter another before it has run again.
  pub data Step (x : System) : System → Type 0 where
    lock_taken :
        (self : ℕ) {y : State}
        → x.phase self ≡ outside
        → is_blocked x.state self ≡ false
        → cond_lock x.state self ≡ some (y, true)
        → Step x (record { state = y; phase = update x.phase self holding })
    lock_blocked :
        (self : ℕ) {y : State}
        → x.phase self ≡ outside
        → is_blocked x.state self ≡ false
        → cond_lock x.state self ≡ some (y, false)
        → Step x (record { state = y; phase = update x.phase self locking })
    locked :
        (self : ℕ) {y : State}
        → x.phase self ≡ locking
        → cond_locked x.state self ≡ some y
        → Step x (record { state = y; phase = update x.phase self holding })
    wait :
        (self : ℕ) {y : State}
        → x.phase self ≡ holding
        → is_blocked x.state self ≡ false
        → cond_wait x.state self ≡ some y
        → Step x (record { state = y; phase = update x.phase self waiting })
    waited :
        (self : ℕ) {y : State}
        → x.phase self ≡ waiting
        → cond_waited x.state self ≡ some (y, true)
        → Step x (record { state = y; phase = update x.phase self holding })
    timed_out :
        (self : ℕ) {y : State}
        → x.phase self ≡ waiting
        → cond_waited x.state self ≡ some (y, false)
        → Step x (record { state = y; phase = update x.phase self outside })
    unlock :
        (self : ℕ) {y : State}
        → x.phase self ≡ holding
        → cond_unlock_signal x.state self ≡ some y
        → Step x (record { state = y; phase = update x.phase self outside })
    elsewhere :
        (w : World)
        → ((lt : ℕ) → IsParked (x.phase lt) → (w.lts lt).is_blocked ≡ is_blocked x.state lt)
        → Step x (record { state = record (x.state) { world = w }; phase = x.phase })

  pub data Reach (x : System) : System → Type 0 where
    here : Reach x x
    next : {y z : System} → Reach x y → Step y z → Reach x z

  -- Who is in the queue, and who has the lock.
  pub record Inv (x : System) : Type 0 where
    pub once : (lt : ℕ) → count lt (blocked x.state) ≤ 1
    pub flags : (lt : ℕ) → IsParked (x.phase lt) → is_blocked x.state lt ≡ elem lt (blocked x.state)
    pub absent : (lt : ℕ) → x.phase lt ≡ outside → elem lt (blocked x.state) ≡ false
    pub unowned : (lt : ℕ) → x.phase lt ≡ outside → is_lt x.state.cond.owner lt ≡ false
    pub holds : (lt : ℕ) → x.phase lt ≡ holding → is_lt x.state.cond.owner lt ≡ true
    pub apart : (lt : ℕ) → elem lt (blocked x.state) ≡ true → is_lt x.state.cond.owner lt ≡ false
    pub handed :
        (lt : ℕ)
        → x.phase lt ≢ outside
        → elem lt (blocked x.state) ≡ false
        → is_lt x.state.cond.owner lt ≡ true
    pub kept : (lt : ℕ) → x.phase lt ≡ locking → is_none x.state.cond.owner ≡ false
