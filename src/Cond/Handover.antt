-- ===== src/Cond/Handover.antt =====
-- src/lthread_cond.c: what each operation does, on each of its branches.
use lthread_concurrent.Prelude.{
  ℕ, ◌≡◌, ◌≢◌, refl, true, false, none, some, if◌then◌else◌, List, [], ◌∷◌, ◌++◌, arith, ◌==◌, ap,
  ◌∙◌, elem, erase, Bool,
}
use lthread_concurrent.Intrusive.{Intrusive}
use lthread_concurrent.Sched.Ready.{is_lt}
use lthread_concurrent.Sched.Ready.Push.{IsWoken, IsLeft}
use lthread_concurrent.Sched.Sleep.Wakeup.{wakeup_round-IsWoken, wakeup_round-IsLeft}
use lthread_concurrent.Cond.{
  State, cond_signal, cond_hand_over, cond_enqueue, cond_unblock, cond_lock, cond_wait, set_blocked,
  ◌>>=◌,
}

module _ ⦃i : Intrusive⦄ where
  open i use {
    Tailq, elems, tailq_first_lem, elems-tailq_insert_tail, elems-tailq_remove, tailq_remove,
    tailq_insert_tail,
  }

  abbrev pub blocked : State → List ℕ
  blocked x = elems x.cond.blocked_lthreads

  abbrev pub is_blocked : State → ℕ → Bool
  is_blocked x lt = (x.world.lts lt).is_blocked

  -- The lock goes to `lt`, the first of the blocked lthreads, which leaves the queue and will run,
  -- and nobody else is woken.
  pub record HandsOver (x y : State) (lt : ℕ) (rest : List ℕ) : Type 0 where
    pub owned : y.cond.owner ≡ some lt
    pub queue : blocked y ≡ rest
    pub flags : (z : ℕ) → is_blocked y z ≡ (if lt == z then false else is_blocked x z)
    pub woken : IsWoken x.world y.world lt
    pub others : (z : ℕ) → lt ≢ z → IsLeft x.world y.world z

  -- With none blocked the lock becomes free.
  pub cond_signal_frees :
      (x : State) (self : ℕ)
      → is_lt x.cond.owner self ≡ true
      → blocked x ≡ []
      → cond_signal x self ≡ some (record x { cond = record (x.cond) { owner = none } }, false)
  unfolding cond_signal
  cond_signal_frees x self o q = ground (arith, tailq_first_lem x.cond.blocked_lthreads)

  cond_hand_over-HandsOver :
      (x : State) (lt : ℕ) (rest : List ℕ)
      → x.cond.owner ≡ none
      → blocked x ≡ lt ∷ rest
      → is_blocked x lt ≡ true
      → (y : State) × (cond_hand_over x lt ≡ some y) × HandsOver x y lt rest
  unfolding cond_hand_over
  cond_hand_over-HandsOver x lt rest o q b =
      let v = set_blocked x.world lt false in
      let (w', e, woken, flags) = wakeup_round-IsWoken v lt in
      (
        record {
          cond = record {
            blocked_lthreads = tailq_remove x.cond.blocked_lthreads lt;
            owner = some lt;
          };
          world = w';
        },
        ground arith,
        record {
          owned = refl;
          queue = ground (arith, elems-tailq_remove x.cond.blocked_lthreads lt);
          flags = λ z. ground (arith, flags z);
          woken = ground arith;
          others = λ z d.
              let v' = wakeup_round-IsLeft v w' lt z d (ground arith) in
              record { queues = v'.queues; needs_resched = v'.needs_resched ∙ ground arith };
        },
      )

  -- If the owner signals while lthreads are in the queue, and the first of them is marked as
  -- blocked, no assertion fails, the result is true, and the first is handed the lock as
  -- `HandsOver` says.
  pub cond_signal-HandsOver :
      (x : State) (self lt : ℕ) (rest : List ℕ)
      → is_lt x.cond.owner self ≡ true
      → blocked x ≡ lt ∷ rest
      → is_blocked x lt ≡ true
      → (y : State) × (cond_signal x self ≡ some (y, true)) × HandsOver x y lt rest
  unfolding cond_signal
  cond_signal-HandsOver x self lt rest o q b =
      let free : State = record x { cond = record (x.cond) { owner = none } } in
      let (y, e, h) = cond_hand_over-HandsOver free lt rest refl q b in
      (
        y,
        ground (arith, tailq_first_lem x.cond.blocked_lthreads),
        record {
          owned = h.owned;
          queue = h.queue;
          flags = h.flags;
          woken = h.woken;
          others = h.others;
        },
      )

  -- The lthread `self` is blocked, behind all others.
  pub record Enqueues (x y : State) (self : ℕ) : Type 0 where
    pub owned : y.cond.owner ≡ x.cond.owner
    pub queue : blocked y ≡ blocked x ++ self ∷ []
    pub flags : (z : ℕ) → is_blocked y z ≡ (if self == z then true else is_blocked x z)

  pub cond_enqueue-Enqueues :
      (x : State) (self : ℕ)
      → is_blocked x self ≡ false
      → (y : State) × (cond_enqueue x self ≡ some y) × Enqueues x y self
  unfolding cond_enqueue
  cond_enqueue-Enqueues x self b = (
    record {
      cond = record (x.cond) { blocked_lthreads = tailq_insert_tail x.cond.blocked_lthreads self };
      world = set_blocked x.world self true;
    },
    ground arith,
    record {
      owned = refl;
      queue = elems-tailq_insert_tail x.cond.blocked_lthreads self;
      flags = λ z. ground arith;
    },
  )

  -- A free lock is taken at once.
  pub cond_lock_free :
      (x : State) (self : ℕ)
      → x.cond.owner ≡ none
      → cond_lock x self ≡ some (record x { cond = record (x.cond) { owner = some self } }, true)
  unfolding cond_lock
  cond_lock_free x self o = ground arith

  -- For a lock that another has, the lthread is blocked.
  pub cond_lock-Enqueues :
      (x : State) (self o : ℕ)
      → x.cond.owner ≡ some o
      → o ≢ self
      → is_blocked x self ≡ false
      → (y : State) × (cond_lock x self ≡ some (y, false)) × Enqueues x y self
  unfolding cond_lock
  cond_lock-Enqueues x self o e n b =
      let (y, done, v) = cond_enqueue-Enqueues x self b in (y, ground arith, v)

  -- An lthread that has been handed the lock returns with it, and nothing changes.
  pub cond_unblock_owner :
      (x : State) (self : ℕ)
      → is_lt x.cond.owner self ≡ true
      → is_blocked x self ≡ false
      → cond_unblock x self ≡ some (x, true)
  unfolding cond_unblock
  cond_unblock_owner x self o b = ground arith

  -- The lthread `self` gives up: it leaves the queue.
  pub record GivesUp (x y : State) (self : ℕ) : Type 0 where
    pub owned : y.cond.owner ≡ x.cond.owner
    pub queue : blocked y ≡ erase self (blocked x)
    pub flags : (z : ℕ) → is_blocked y z ≡ (if self == z then false else is_blocked x z)

  -- One that was not, because its time is over, gives up.
  pub cond_unblock-GivesUp :
      (x : State) (self : ℕ)
      → is_lt x.cond.owner self ≡ false
      → is_blocked x self ≡ true
      → elem self (blocked x) ≡ true
      → (y : State) × (cond_unblock x self ≡ some (y, false)) × GivesUp x y self
  unfolding cond_unblock
  cond_unblock-GivesUp x self o b q = (
    record {
      cond = record (x.cond) { blocked_lthreads = tailq_remove x.cond.blocked_lthreads self };
      world = set_blocked x.world self false;
    },
    ground arith,
    record {
      owned = refl;
      queue = elems-tailq_remove x.cond.blocked_lthreads self q;
      flags = λ z. ground arith;
    },
  )

  -- If the owner, which is not marked as blocked, waits while lthreads are in the queue, and the
  -- first of them is marked as blocked, no assertion fails, the first becomes the owner, and the
  -- caller is marked and goes to the end of the queue.
  pub cond_wait_hands_over :
      (x : State) (self lt : ℕ) (rest : List ℕ)
      → is_lt x.cond.owner self ≡ true
      → blocked x ≡ lt ∷ rest
      → is_blocked x lt ≡ true
      → is_blocked x self ≡ false
      → (y : State) × (cond_wait x self ≡ some y)
        × (y.cond.owner ≡ some lt)
        × (blocked y ≡ rest ++ self ∷ [])
        × (is_blocked y self ≡ true)
  unfolding cond_wait
  cond_wait_hands_over x self lt rest o q b s =
      let (y, done, h) = cond_signal-HandsOver x self lt rest o q b in
      let (z, then_done, v) = cond_enqueue-Enqueues y self (h.flags self ∙ ground arith) in
      (
        z,
        ground arith,
        v.owned ∙ h.owned,
        v.queue ∙ ap (λ (q' : List ℕ). q' ++ self ∷ []) h.queue,
        v.flags self ∙ ground arith,
      )

  -- A holder that waits with none blocked leaves the lock free, and is alone in the queue.
  pub cond_wait_frees :
      (x : State) (self : ℕ)
      → is_lt x.cond.owner self ≡ true
      → blocked x ≡ []
      → is_blocked x self ≡ false
      → (y : State) × (cond_wait x self ≡ some y)
        × (y.cond.owner ≡ none)
        × (blocked y ≡ self ∷ [])
        × (is_blocked y self ≡ true)
  unfolding cond_wait
  cond_wait_frees x self o q s =
      let free : State = record x { cond = record (x.cond) { owner = none } } in
      let done = cond_signal_frees x self o q in
      let (z, then_done, v) = cond_enqueue-Enqueues free self s in
      (
        z,
        rw (done, ◌>>=◌) then_done,
        v.owned,
        v.queue ∙ ap (λ (q' : List ℕ). q' ++ self ∷ []) q,
        v.flags self ∙ ground arith,
      )
