-- ===== src/Sched/Sleep/Due.antt =====
-- src/lthread.c, _lthread_schedule_expired, by the times that the lthreads carry: _lthread_resume has
-- set them to 0 in those that sleep, which leaves their keys in the tree as they were.
use lthread_concurrent.Prelude.{
  ℕ, zero, suc, ◌≤◌, ◌<◌, ◌≡◌, refl, true, false, Option, none, some, leb, List, [], ◌∷◌, ◌++◌,
  arith, length, Bool-cases, inl, inr, ap,
}
use lthread_concurrent.Intrusive.{Intrusive, ids}
use lthread_concurrent.State.{World}
use lthread_concurrent.Sched.Sleep.{schedule_expired, desched_sleep_unsafe}
use lthread_concurrent.Sched.Sleep.Expired.{
  Wakes, Wakes-none, Wakes-trans, desched_sleep_unsafe-Wakes,
}

module _ ⦃i : Intrusive⦄ where
  open i use {entries, rb_min_lem}

  -- The lthreads of the tree belong to scheduler `s`.
  abbrev pub Belong : World → ℕ → List (ℕ × ℕ) → Type 0
  Belong w s [] = Unit {0}
  Belong w s ((k, x) ∷ es) = ((w.lts x).sched ≡ s) × Belong w s es

  Belong-same :
      (w w' : World) (s : ℕ) (es : List (ℕ × ℕ)) → w'.lts ≡ w.lts → Belong w s es → Belong w' s es
  Belong-same w w' s [] e h = tt
  Belong-same w w' s ((k, x) ∷ es) e h = (cc, Belong-same w w' s es e h.1)

  -- The times that all lthreads of the first part carry have come, and that of the next lthread has
  -- not.
  abbrev pub Splits : World → (now : ℕ) → (first rest : List (ℕ × ℕ)) → Type 0
  Splits w now [] [] = Unit {0}
  Splits w now [] ((k, x) ∷ rest) = now < (w.lts x).sleep_usecs
  Splits w now ((k, x) ∷ first) rest = ((w.lts x).sleep_usecs ≤ now) × Splits w now first rest

  Splits-same :
      (w w' : World) (now : ℕ) (first rest : List (ℕ × ℕ))
      → w'.lts ≡ w.lts
      → Splits w' now first rest
      → Splits w now first rest
  Splits-same w w' now [] [] e h = tt
  Splits-same w w' now [] ((k, x) ∷ rest) e h = ground (arith, e)
  Splits-same w w' now ((k, x) ∷ first) rest e h =
      (ground (arith, e), Splits-same w w' now first rest e h.1)

  -- The first part of the tree `es` is taken out and queued, and the rest stays.
  abbrev pub WakesFirst : World → (s now : ℕ) → List (ℕ × ℕ) → Option World → Type 0
  WakesFirst w s now es r =
      (first rest : List (ℕ × ℕ)) × (es ≡ first ++ rest)
      × Splits w now first rest
      × (w' : World) × (r ≡ some w')
      × Wakes w w' s (ids first) rest

  all_late :
      (f : ℕ) (w : World) (s now : ℕ)
      → entries (w.scheds s).sleeping ≡ []
      → (w.scheds s).current_lthread ≡ none
      → WakesFirst w s now [] (schedule_expired (suc f) w s now)
  unfolding schedule_expired
  all_late f w s now e c =
      ([], [], refl, tt, w, ground (arith, rb_min_lem (w.scheds s).sleeping), Wakes-none w s [] e c)

  first_late :
      (f : ℕ) (w : World) (s now k lt : ℕ) (es : List (ℕ × ℕ))
      → entries (w.scheds s).sleeping ≡ (k, lt) ∷ es
      → leb (w.lts lt).sleep_usecs now ≡ false
      → (w.scheds s).current_lthread ≡ none
      → WakesFirst w s now ((k, lt) ∷ es) (schedule_expired (suc f) w s now)
  unfolding schedule_expired
  first_late f w s now k lt es e test c = (
    [],
    (k, lt) ∷ es,
    refl,
    ground arith,
    w,
    ground (arith, rb_min_lem (w.scheds s).sleeping),
    Wakes-none w s _ e c,
  )

  first_due :
      (f : ℕ) (w : World) (s now k lt : ℕ) (es : List (ℕ × ℕ))
      → entries (w.scheds s).sleeping ≡ (k, lt) ∷ es
      → leb (w.lts lt).sleep_usecs now ≡ true
      → Wakes w (desched_sleep_unsafe w lt) s (lt ∷ []) es
      → WakesFirst
          (desched_sleep_unsafe w lt)
          s
          now
          es
          (schedule_expired f (desched_sleep_unsafe w lt) s now)
      → WakesFirst w s now ((k, lt) ∷ es) (schedule_expired (suc f) w s now)
  unfolding schedule_expired
  first_due f w s now k lt es e test wakes (first, rest, e', split, w', r, then_wakes) =
      let v = desched_sleep_unsafe w lt in
      (
        (k, lt) ∷ first,
        rest,
        ap (λ z. (k, lt) ∷ z) e',
        (ground arith, Splits-same w v now first rest wakes.same_lts split),
        w',
        ground (arith, rb_min_lem (w.scheds s).sleeping),
        Wakes-trans w v w' s (lt ∷ []) (ids first) es rest wakes then_wakes,
      )

  -- With more fuel than sleepers, for a tree of lthreads of this scheduler, and no current lthread, the
  -- loop ends. The tree falls into a first part, of lthreads that all carry a `sleep_usecs` that is
  -- not later than `now`, and a rest, which is empty or begins with an lthread that carries a later
  -- one. The first part is taken out of the tree and goes to the end of the queue in its order, and
  -- the rest stays. All lthreads and the other schedulers are as they were.
  pub schedule_expired-WakesFirst :
      (f : ℕ) (w : World) (s now : ℕ) (es : List (ℕ × ℕ))
      → entries (w.scheds s).sleeping ≡ es
      → length es < f
      → Belong w s es
      → (w.scheds s).current_lthread ≡ none
      → WakesFirst w s now es (schedule_expired f w s now)
  schedule_expired-WakesFirst zero w s now es e h y c = absurd (omega arith)
  schedule_expired-WakesFirst (suc f) w s now [] e h y c = all_late f w s now e c
  schedule_expired-WakesFirst (suc f) w s now ((k, lt) ∷ es) e h y c =
      elim (Bool-cases (leb (w.lts lt).sleep_usecs now)) [
        | inr test ↦ first_late f w s now k lt es e test c
        | inl test ↦
            let wakes = desched_sleep_unsafe-Wakes w s k lt es e y.0 c in
            first_due f w s now k lt es e test wakes (
              schedule_expired-WakesFirst f (desched_sleep_unsafe w lt) s now es wakes.left
                (omega arith) (Belong-same w (desched_sleep_unsafe w lt) s es wakes.same_lts y.1)
                wakes.idle)
      ]
