-- ===== src/Sched/Sleep/Wakeup.antt =====
-- src/lthread.c, _lthread_wakeup, the call by which a condition variable wakes a waiter.
use lthread_concurrent.Prelude.{
  ℕ, ◌≤◌, ◌≡◌, ◌≢◌, refl, true, false, some, List, [], ◌∷◌, ◌++◌, arith, inl, inr, ◌∙◌, ◌⊎◌, elem,
  count, count-append, elem-eq-count, ℕ_discrete,
}
use mathlib.Core.Path.{subst}
use mathlib.Core.Option.{some-injective}
use lthread_concurrent.Intrusive.{Intrusive, has_id, remove_id, IsRising-remove_id}
use lthread_concurrent.State.{World}
use lthread_concurrent.Sched.Ready.{is_lt, sched_push_ready_unsafe}
use lthread_concurrent.Sched.Ready.Push.{
  IsWoken, push_ready-IsWoken, push_ready-Keeps, push_ready_queues, IsLeft, push_ready-IsLeft,
}
use lthread_concurrent.Sched.Sleep.{wakeup_round, remove_sleeping, desched_sleep_unsafe}
use lthread_concurrent.Sched.Sleep.Expired.{InSync}
use lthread_concurrent.Sched.Sleep.Invariant.{SleepInv, SleepInv-change, InSync-remove_id}

module _ ⦃i : Intrusive⦄ where
  open i use {Tree, entries, elems, entries-rb_remove}

  InSync-Keeps :
      (w w' : World) (s : ℕ) (es : List (ℕ × ℕ))
      → ((x : ℕ) → (w'.lts x).sleep_usecs ≡ (w.lts x).sleep_usecs)
      → ((x : ℕ) → (w'.lts x).sched ≡ (w.lts x).sched)
      → InSync w s es
      → InSync w' s es
  InSync-Keeps w w' s [] k m y = tt
  InSync-Keeps w w' s ((j, x) ∷ es) k m y = (k x ∙ y.0, m x ∙ y.1, InSync-Keeps w w' s es k m y.2)

  pub push_ready-SleepInv :
      (w : World) (s lt : ℕ) → SleepInv w → SleepInv (sched_push_ready_unsafe w s lt)
  push_ready-SleepInv w s lt inv j =
      let k = push_ready-Keeps w s lt in
      rw (k.sleeping j) (
        (inv j).0,
        InSync-Keeps w (sched_push_ready_unsafe w s lt) j _ k.sleep_usecs k.sched (inv j).1,
      )

  remove_sleeping-SleepInv :
      (w : World) (lt : ℕ)
      → has_id lt (entries (w.scheds (w.lts lt).sched).sleeping) ≡ true
      → SleepInv w
      → SleepInv (remove_sleeping w lt)
  remove_sleeping-SleepInv w lt h inv =
      let s = (w.lts lt).sched in
      let es = entries (w.scheds s).sleeping in
      let w' = remove_sleeping w lt in
      let e : entries (w'.scheds s).sleeping ≡ remove_id lt es =
        unfold remove_sleeping in ground (arith, entries-rb_remove (w.scheds s).sleeping lt h) in
      let same = λ (j : ℕ).
        InSync-Keeps w w' j (entries (w.scheds j).sleeping) (λ x. unfold remove_sleeping in refl)
          (λ x. unfold remove_sleeping in refl) (inv j).1 in
      SleepInv-change w w' s
        (rw e (IsRising-remove_id lt es (inv s).0, InSync-remove_id w' s lt es (same s)))
        (λ j n. unfold remove_sleeping in ground arith) (λ j n. same j) (λ j. (inv j).0)

  desched_sleep_unsafe-SleepInv :
      (w : World) (lt : ℕ)
      → has_id lt (entries (w.scheds (w.lts lt).sched).sleeping) ≡ true
      → SleepInv w
      → SleepInv (desched_sleep_unsafe w lt)
  unfolding desched_sleep_unsafe
  desched_sleep_unsafe-SleepInv w lt h inv =
      push_ready-SleepInv (remove_sleeping w lt) (w.lts lt).sched lt
        (remove_sleeping-SleepInv w lt h inv)

  -- If the invariant of the trees holds, and an lthread has no wake-up time or is in the tree of
  -- its scheduler, a round of its wake-up with that scheduler succeeds and keeps the invariant.
  pub wakeup_round-SleepInv :
      (w : World) (lt : ℕ)
      → ((w.lts lt).sleep_usecs ≡ 0)
        ⊎ (has_id lt (entries (w.scheds (w.lts lt).sched).sleeping) ≡ true)
      → SleepInv w
      → (w' : World) × (wakeup_round w (w.lts lt).sched lt ≡ some w') × SleepInv w'
  unfolding wakeup_round
  wakeup_round-SleepInv w lt (inl z) inv = (
    sched_push_ready_unsafe w (w.lts lt).sched lt,
    ground arith,
    push_ready-SleepInv w (w.lts lt).sched lt inv,
  )
  wakeup_round-SleepInv w lt (inr h) inv = elim (ℕ_discrete (w.lts lt).sleep_usecs 0) [
    | yes z ↦ (
      sched_push_ready_unsafe w (w.lts lt).sched lt,
      ground arith,
      push_ready-SleepInv w (w.lts lt).sched lt inv,
    )
    | no n ↦ (desched_sleep_unsafe w lt, ground arith, desched_sleep_unsafe-SleepInv w lt h inv)
  ]

  desched_sleep_unsafe-queues :
      (w : World) (lt : ℕ)
      → is_lt (w.scheds (w.lts lt).sched).current_lthread lt ≡ false
      → elems ((desched_sleep_unsafe w lt).scheds (w.lts lt).sched).ready
        ≡ elems (w.scheds (w.lts lt).sched).ready ++ lt ∷ []
  unfolding desched_sleep_unsafe remove_sleeping
  desched_sleep_unsafe-queues w lt h =
      let s = (w.lts lt).sched in
      (push_ready_queues (remove_sleeping w lt) s lt (ground arith)).0 ∙ ground arith

  -- If an lthread is in its scheduler's queue, is not the current one, and has a wake-up time that
  -- is not 0, a round of its wake-up leaves it in that queue at least twice.
  pub wakeup_queues_twice :
      (w : World) (lt : ℕ)
      → elem lt (elems (w.scheds (w.lts lt).sched).ready) ≡ true
      → (w.lts lt).sleep_usecs ≢ 0
      → is_lt (w.scheds (w.lts lt).sched).current_lthread lt ≡ false
      → (w' : World) × (wakeup_round w (w.lts lt).sched lt ≡ some w')
        × (2 ≤ count lt (elems (w'.scheds (w.lts lt).sched).ready))
  unfolding wakeup_round
  wakeup_queues_twice w lt q n h =
      let s = (w.lts lt).sched in
      let xs = elems (w.scheds s).ready in
      (
        desched_sleep_unsafe w lt,
        ground arith,
        rw (desched_sleep_unsafe-queues w lt h)
            (ground (arith, count-append lt xs (lt ∷ []), elem-eq-count lt xs q)),
      )

  -- A round with the lthread's present scheduler succeeds, and the lthread will run again.
  pub wakeup_round-IsWoken :
      (w : World) (lt : ℕ)
      → (w' : World) × (wakeup_round w (w.lts lt).sched lt ≡ some w')
        × IsWoken w w' lt
        × ((x : ℕ) → (w'.lts x).is_blocked ≡ (w.lts x).is_blocked)
  unfolding wakeup_round
  wakeup_round-IsWoken w lt = elim (ℕ_discrete (w.lts lt).sleep_usecs 0) [
    | yes z ↦ (
      sched_push_ready_unsafe w (w.lts lt).sched lt,
      ground arith,
      push_ready-IsWoken w (w.lts lt).sched lt,
      (push_ready-Keeps w (w.lts lt).sched lt).is_blocked,
    )
    | no n ↦ (
      desched_sleep_unsafe w lt,
      ground arith,
      unfold desched_sleep_unsafe remove_sleeping in
          ground (arith, push_ready-IsWoken (remove_sleeping w lt) (w.lts lt).sched lt),
      unfold desched_sleep_unsafe remove_sleeping in
          (push_ready-Keeps (remove_sleeping w lt) (w.lts lt).sched lt).is_blocked,
    )
  ]

  -- It wakes nobody else.
  pub wakeup_round-IsLeft :
      (w w' : World) (lt x : ℕ)
      → lt ≢ x
      → wakeup_round w (w.lts lt).sched lt ≡ some w'
      → IsLeft w w' x
  unfolding wakeup_round
  wakeup_round-IsLeft w w' lt x d e = elim (ℕ_discrete (w.lts lt).sleep_usecs 0) [
    | yes z ↦
        subst (λ v. IsLeft w v x)
          (some-injective (sched_push_ready_unsafe w (w.lts lt).sched lt) w' (ground arith))
          (push_ready-IsLeft w (w.lts lt).sched lt x d)
    | no n ↦
        let v = push_ready-IsLeft (remove_sleeping w lt) (w.lts lt).sched lt x d in
        subst (λ v. IsLeft w v x) (some-injective (desched_sleep_unsafe w lt) w' (ground arith))
          (unfold desched_sleep_unsafe remove_sleeping in
            record { queues = λ j. v.queues j ∙ ground arith; needs_resched = v.needs_resched })
  ]
