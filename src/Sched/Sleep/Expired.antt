-- ===== src/Sched/Sleep/Expired.antt =====
-- src/lthread.c, _lthread_schedule_expired: who is woken when the time has come.
use lthread_concurrent.Prelude.{
  ℕ, zero, suc, ◌≤◌, ◌<◌, ◌≡◌, ◌≢◌, refl, true, Option, none, some, leb, if◌then◌else◌, List, [],
  ◌∷◌, ◌++◌, arith, length, Bool-cases, inl, inr, sym, ◌∙◌,
}
use mathlib.Core.List.{append-nil, append_assoc}
use lthread_concurrent.Intrusive.{Intrusive, ids, IsRising, IsRising-tail, Above}
use lthread_concurrent.State.{World}
use lthread_concurrent.Sched.Ready.{sched_push_ready_unsafe}
use lthread_concurrent.Sched.Sleep.{schedule_expired, desched_sleep_unsafe}

-- The sleepers whose time has come, and the others.
abbrev pub due : ℕ → List (ℕ × ℕ) → List (ℕ × ℕ)
due now [] = []
due now ((k, x) ∷ es) = if leb k now then (k, x) ∷ due now es else due now es

abbrev pub later : ℕ → List (ℕ × ℕ) → List (ℕ × ℕ)
later now [] = []
later now ((k, x) ∷ es) = if leb k now then later now es else (k, x) ∷ later now es

due-Above : (now b : ℕ) (es : List (ℕ × ℕ)) → now ≤ b → Above b es → due now es ≡ []
due-Above now b [] h r = refl
due-Above now b ((k, x) ∷ es) h r = ground (arith, due-Above now k es)

later-Above : (now b : ℕ) (es : List (ℕ × ℕ)) → now ≤ b → Above b es → later now es ≡ es
later-Above now b [] h r = refl
later-Above now b ((k, x) ∷ es) h r = ground (arith, later-Above now k es)

module _ ⦃i : Intrusive⦄ where
  open i use {Tree, entries, elems, elems-tailq_insert_tail, entries-rb_remove, rb_min_lem}

  -- Each entry stands under the wake-up time of an lthread of scheduler `s`.
  abbrev pub InSync : World → ℕ → List (ℕ × ℕ) → Type 0
  InSync w s [] = Unit {0}
  InSync w s ((k, x) ∷ es) = ((w.lts x).sleep_usecs ≡ k) × ((w.lts x).sched ≡ s) × InSync w s es

  -- `s` takes the lthreads `woken` out of its tree, which leaves `es`, and queues them in order.
  pub record Wakes (w w' : World) (s : ℕ) (woken : List ℕ) (es : List (ℕ × ℕ)) : Type 0 where
    pub queued : elems (w'.scheds s).ready ≡ elems (w.scheds s).ready ++ woken
    pub left : entries (w'.scheds s).sleeping ≡ es
    pub idle : (w'.scheds s).current_lthread ≡ none
    pub same_lts : w'.lts ≡ w.lts
    pub others : (j : ℕ) → s ≢ j → w'.scheds j ≡ w.scheds j

  pub desched_sleep_unsafe-Wakes :
      (w : World) (s k lt : ℕ) (es : List (ℕ × ℕ))
      → entries (w.scheds s).sleeping ≡ (k, lt) ∷ es
      → (w.lts lt).sched ≡ s
      → (w.scheds s).current_lthread ≡ none
      → Wakes w (desched_sleep_unsafe w lt) s (lt ∷ []) es
  unfolding desched_sleep_unsafe sched_push_ready_unsafe
  desched_sleep_unsafe-Wakes w s k lt es e b c = record {
    queued = ground (arith, elems-tailq_insert_tail (w.scheds s).ready lt);
    left = ground (arith, entries-rb_remove (w.scheds s).sleeping lt);
    idle = ground arith;
    same_lts = ground arith;
    others = λ j h. ground arith;
  }

  pub InSync-same :
      (w w' : World) (s : ℕ) (es : List (ℕ × ℕ)) → w'.lts ≡ w.lts → InSync w s es → InSync w' s es
  InSync-same w w' s [] e h = tt
  InSync-same w w' s ((k, x) ∷ es) e h = (cc, cc, InSync-same w w' s es e h.2)

  pub Wakes-none :
      (w : World) (s : ℕ) (es : List (ℕ × ℕ))
      → entries (w.scheds s).sleeping ≡ es
      → (w.scheds s).current_lthread ≡ none
      → Wakes w w s [] es
  Wakes-none w s es e c = record {
    queued = sym (append-nil _);
    left = e;
    idle = c;
    same_lts = refl;
    others = λ j h. refl;
  }

  pub Wakes-trans :
      (w v u : World) (s : ℕ) (xs ys : List ℕ) (es fs : List (ℕ × ℕ))
      → Wakes w v s xs es
      → Wakes v u s ys fs
      → Wakes w u s (xs ++ ys) fs
  Wakes-trans w v u s xs ys es fs a b = record {
    queued = rw (b.queued, a.queued) (append_assoc (elems (w.scheds s).ready) xs ys);
    left = b.left;
    idle = b.idle;
    same_lts = b.same_lts ∙ a.same_lts;
    others = λ j h. b.others j h ∙ a.others j h;
  }

  abbrev pub Expires : World → (s now : ℕ) → List (ℕ × ℕ) → Option World → Type 0
  Expires w s now es r =
      (w' : World) × (r ≡ some w') × Wakes w w' s (ids (due now es)) (later now es)

  expired-stop :
      (f : ℕ) (w : World) (s now : ℕ) (es : List (ℕ × ℕ))
      → entries (w.scheds s).sleeping ≡ es
      → due now es ≡ []
      → later now es ≡ es
      → (w.scheds s).current_lthread ≡ none
      → schedule_expired f w s now ≡ some w
      → Expires w s now es (schedule_expired f w s now)
  expired-stop f w s now es e d l c r = (w, r, rw (d, l) (Wakes-none w s es e c))

  expired-step :
      (f : ℕ) (w : World) (s now k lt : ℕ) (es : List (ℕ × ℕ))
      → leb k now ≡ true
      → entries (w.scheds s).sleeping ≡ (k, lt) ∷ es
      → (w.lts lt).sleep_usecs ≡ k
      → Wakes w (desched_sleep_unsafe w lt) s (lt ∷ []) es
      → Expires
          (desched_sleep_unsafe w lt)
          s
          now
          es
          (schedule_expired f (desched_sleep_unsafe w lt) s now)
      → Expires w s now ((k, lt) ∷ es) (schedule_expired (suc f) w s now)
  unfolding schedule_expired
  expired-step f w s now k lt es test e key wakes (w', r, rest) = (
    w',
    ground (arith, rb_min_lem (w.scheds s).sleeping),
    rw test (Wakes-trans w _ w' s (lt ∷ []) _ es _ wakes rest),
  )

  -- With more fuel than sleepers, for a tree in order whose keys are the wake-up times of lthreads
  -- of this scheduler, the loop wakes those whose keys are not later than `now`.
  pub schedule_expired-Expires :
      (f : ℕ) (w : World) (s now : ℕ) (es : List (ℕ × ℕ))
      → entries (w.scheds s).sleeping ≡ es
      → length es < f
      → IsRising es
      → InSync w s es
      → (w.scheds s).current_lthread ≡ none
      → Expires w s now es (schedule_expired f w s now)
  schedule_expired-Expires zero w s now es e h r y c = absurd (omega arith)
  schedule_expired-Expires (suc f) w s now [] e h r y c =
      expired-stop (suc f) w s now [] e refl refl c
        (unfold schedule_expired in ground (arith, rb_min_lem (w.scheds s).sleeping))
  schedule_expired-Expires (suc f) w s now ((k, lt) ∷ es) e h r y c =
      elim (Bool-cases (leb k now)) [
        | inl test ↦
            let wakes = desched_sleep_unsafe-Wakes w s k lt es e y.1 c in
            expired-step f w s now k lt es test e y.0 wakes (
              schedule_expired-Expires f (desched_sleep_unsafe w lt) s now es wakes.left
                (omega arith) (IsRising-tail k lt es r)
                (InSync-same w (desched_sleep_unsafe w lt) s es wakes.same_lts y.2) wakes.idle)
        | inr test ↦
            expired-stop (suc f) w s now ((k, lt) ∷ es) e (ground (arith, due-Above now k es))
              (ground (arith, later-Above now k es)) c
              (unfold schedule_expired in ground (arith, rb_min_lem (w.scheds s).sleeping))
      ]
