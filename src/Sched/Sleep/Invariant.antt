-- ===== src/Sched/Sleep/Invariant.antt =====
-- src/lthread.c: the order of the trees of sleeping lthreads and their keys, as RB_INSERT and
-- RB_REMOVE rely on them, over going to sleep and waking. The end of _lthread_resume, which clears
-- `sleep_usecs`, is left to Sched.Switch.Sleepers.
use lthread_concurrent.Prelude.{
  ℕ, ◌+◌, ◌*◌, ◌^◌, ◌<◌, ◌≡◌, ◌≢◌, refl, true, false, none, some, List, [], ◌∷◌, arith, length,
  ℕ_discrete, false, sym, ap,
}
use mathlib.Core.Path.{subst}
use lthread_concurrent.Intrusive.{
  Intrusive, find_key, insert_key, IsRising, IsRising-tail, Above, Above-mono, has_id, remove_id,
  IsRising-insert_key,
}
use lthread_concurrent.State.{World, Sched, Lthread, with_lt}
use lthread_concurrent.Sched.Sleep.{sched_sleep, schedule_expired, u64, fall_asleep}
use lthread_concurrent.Sched.Sleep.Insert.{sched_sleep-Sleeps}
use lthread_concurrent.Sched.Sleep.Expired.{InSync, InSync-same, schedule_expired-Expires, later}

Above-later : (now b : ℕ) (es : List (ℕ × ℕ)) → Above b es → Above b (later now es)
Above-later now b [] r = tt
Above-later now b ((k, x) ∷ es) r =
    ground (arith, Above-later now k es, Above-mono b k (later now es))

module _ ⦃i : Intrusive⦄ where
  open i use {Tree, entries, elems}

  -- The keys rise, and each is the `sleep_usecs` of an lthread of this scheduler.
  abbrev pub IsInOrder : World → ℕ → List (ℕ × ℕ) → Type 0
  IsInOrder w s es = IsRising es × InSync w s es

  abbrev pub SleepInv : World → Type 0
  SleepInv w = (s : ℕ) → IsInOrder w s (entries (w.scheds s).sleeping)

  -- It lies in no tree.
  abbrev pub IsAwake : World → ℕ → Type 0
  IsAwake w lt = (s : ℕ) → has_id lt (entries (w.scheds s).sleeping) ≡ false

  InSync-with_lt :
      (w w' : World) (s lt : ℕ) (l : Lthread) (es : List (ℕ × ℕ))
      → w'.lts ≡ (with_lt w lt l).lts
      → has_id lt es ≡ false
      → InSync w s es
      → InSync w' s es
  InSync-with_lt w w' s lt l [] e h y = tt
  InSync-with_lt w w' s lt l ((k, x) ∷ es) e h y =
      (rw e (ground arith), rw e (ground arith), InSync-with_lt w w' s lt l es e (ground arith) y.2)

  InSync-insert_key :
      (w : World) (s k lt : ℕ) (es : List (ℕ × ℕ))
      → (w.lts lt).sleep_usecs ≡ k
      → (w.lts lt).sched ≡ s
      → InSync w s es
      → InSync w s (insert_key k lt es)
  InSync-insert_key w s k lt [] a b y = (a, b, tt)
  InSync-insert_key w s k lt ((j, x) ∷ es) a b y = ground (arith, InSync-insert_key w s k lt es a b)

  pub InSync-remove_id :
      (w : World) (s lt : ℕ) (es : List (ℕ × ℕ)) → InSync w s es → InSync w s (remove_id lt es)
  InSync-remove_id w s lt [] y = tt
  InSync-remove_id w s lt ((j, x) ∷ es) y = ground (arith, InSync-remove_id w s lt es)

  InSync-later :
      (w : World) (s now : ℕ) (es : List (ℕ × ℕ)) → InSync w s es → InSync w s (later now es)
  InSync-later w s now [] y = tt
  InSync-later w s now ((j, x) ∷ es) y = ground (arith, InSync-later w s now es)

  -- A change of one tree keeps the invariant if that tree is in order after it and the keys of the
  -- others still hold.
  pub SleepInv-change :
      (w w' : World) (s : ℕ)
      → IsInOrder w' s (entries (w'.scheds s).sleeping)
      → ((j : ℕ) → s ≢ j → (w'.scheds j).sleeping ≡ (w.scheds j).sleeping)
      → ((j : ℕ) → s ≢ j → InSync w' j (entries (w.scheds j).sleeping))
      → ((j : ℕ) → IsRising (entries (w.scheds j).sleeping))
      → SleepInv w'
  SleepInv-change w w' s own same sync rising j = elim (ℕ_discrete s j) [
    | yes e ↦ subst (λ k. IsInOrder w' k (entries (w'.scheds k).sleeping)) e own
    | no n ↦ rw (same j n) (rising j, sync j n)
  ]

  fall_asleep-InSync :
      (w : World) (lt k : ℕ) (t : Tree) (s : ℕ) (es : List (ℕ × ℕ))
      → has_id lt es ≡ false
      → InSync w s es
      → InSync (fall_asleep w lt k t) s es
  unfolding fall_asleep
  fall_asleep-InSync w lt k t s es a y =
      InSync-with_lt w (fall_asleep w lt k t) s lt
        (record (w.lts lt) {
          state = record ((w.lts lt).state) { sleeping = true };
          sleep_usecs = k;
        })
        es refl a y

  fall_asleep-SleepInv :
      (w : World) (lt k : ℕ) (t : Tree)
      → find_key k (entries (w.scheds (w.lts lt).sched).sleeping) ≡ none
      → entries ((fall_asleep w lt k t).scheds (w.lts lt).sched).sleeping
        ≡ insert_key k lt (entries (w.scheds (w.lts lt).sched).sleeping)
      → IsAwake w lt
      → SleepInv w
      → SleepInv (fall_asleep w lt k t)
  fall_asleep-SleepInv w lt k t free e a inv =
      let s = (w.lts lt).sched in
      let w' = fall_asleep w lt k t in
      let es = entries (w.scheds s).sleeping in
      SleepInv-change w w' s
        (rw e (
          IsRising-insert_key k lt es free (inv s).0,
          InSync-insert_key w' s k lt es (unfold fall_asleep in ground arith)
              (unfold fall_asleep in ground arith)
              (fall_asleep-InSync w lt k t s es (a s) (inv s).1),
        ))
        (λ j n. unfold fall_asleep in ground arith)
        (λ j n. fall_asleep-InSync w lt k t j _ (a j) (inv j).1) (λ j. (inv j).0)

  -- With more fuel than sleepers, and a wake-up time that does not reach the last times of 64
  -- bits, an lthread that is awake goes to sleep for a positive time, and the invariant of the
  -- trees is kept.
  pub sched_sleep-SleepInv :
      (f : ℕ) (w : World) (lt msecs now : ℕ)
      → 0 < msecs
      → length (entries (w.scheds (w.lts lt).sched).sleeping) < f
      → u64 (now + u64 (msecs * 1000)) + length (entries (w.scheds (w.lts lt).sched).sleeping)
        < 2 ^ 64
      → IsAwake w lt
      → SleepInv w
      → (w' : World) × (sched_sleep f w lt msecs now ≡ some w') × SleepInv w'
  sched_sleep-SleepInv f w lt msecs now timed fuel small a inv =
      let (w', e, v) = sched_sleep-Sleeps f w lt msecs now timed fuel small in
      (
        w',
        e,
        subst SleepInv (sym v.after) (
            fall_asleep-SleepInv w lt v.key v.tree v.first.free
              (subst
                (λ u.
                  entries (u.scheds (w.lts lt).sched).sleeping
                  ≡ insert_key v.key lt (entries (w.scheds (w.lts lt).sched).sleeping))
                v.after v.entered)
              a inv),
      )

  IsRising-later : (now : ℕ) (es : List (ℕ × ℕ)) → IsRising es → IsRising (later now es)
  IsRising-later now [] r = tt
  IsRising-later now ((k, x) ∷ es) r =
      ground (arith, Above-later now k es, IsRising-later now es (IsRising-tail k x es r))

  -- With more fuel than sleepers, the loop over expired sleepers of a scheduler that runs no
  -- lthread ends, and keeps the invariant of the trees.
  pub schedule_expired-SleepInv :
      (f : ℕ) (w : World) (s now : ℕ)
      → length (entries (w.scheds s).sleeping) < f
      → (w.scheds s).current_lthread ≡ none
      → SleepInv w
      → (w' : World) × (schedule_expired f w s now ≡ some w') × SleepInv w'
  schedule_expired-SleepInv f w s now fuel idle inv =
      let es = entries (w.scheds s).sleeping in
      let (w', e, v) = schedule_expired-Expires f w s now es refl fuel (inv s).0 (inv s).1 idle in
      (
        w',
        e,
        SleepInv-change w w' s
            (rw v.left (
              IsRising-later now es (inv s).0,
              InSync-same w w' s (later now es) v.same_lts (InSync-later w s now es (inv s).1),
            ))
            (λ j n. ap (λ (x : Sched). x.sleeping) (v.others j n))
            (λ j n. InSync-same w w' j _ v.same_lts (inv j).1) (λ j. (inv j).0),
      )
