-- ===== src/Sched/Sleep/Insert.antt =====
-- src/lthread.c, _lthread_sched_sleep: the search for a wake-up time that no sleeper has.
use lthread_concurrent.State.{World}
use lthread_concurrent.Prelude.{
  true, refl, ◌*◌, ℕ, zero, suc, ◌+◌, ◌^◌, ◌≤◌, ◌<◌, ◌≡◌, ◌≢◌, Option, none, some, leb, dec_lt,
  if◌then◌else◌, List, [], ◌∷◌, arith, length, Option-cases, inl, inr,
}
use lthread_concurrent.Intrusive.{Intrusive, find_key, insert_key}
use lthread_concurrent.Sched.Sleep.{insert_sleeping, u64, sched_sleep, fall_asleep}

-- How many entries have this key or a later one.
abbrev pub count_from : ℕ → List (ℕ × ℕ) → ℕ
count_from k [] = 0
count_from k ((j, x) ∷ es) = (if leb k j then 1 else 0) + count_from k es

pub count_from-le-length : (k : ℕ) (es : List (ℕ × ℕ)) → count_from k es ≤ length es
count_from-le-length k [] = omega arith
count_from-le-length k ((j, x) ∷ es) = ground (arith, count_from-le-length k es)

count_from_mono : (k : ℕ) (es : List (ℕ × ℕ)) → count_from (k + 1) es ≤ count_from k es
count_from_mono k [] = omega arith
count_from_mono k ((j, x) ∷ es) = ground (arith, count_from_mono k es)

count_from_taken :
    (k y : ℕ) (es : List (ℕ × ℕ)) → find_key k es ≡ some y → count_from (k + 1) es < count_from k es
count_from_taken k y [] h = cc
count_from_taken k y ((j, x) ∷ es) h = ground (arith, count_from_taken k y es, count_from_mono k es)

-- `k'` is the first key from `k` on that no entry has.
pub record IsFirstFree (k k' : ℕ) (es : List (ℕ × ℕ)) : Type 0 where
  pub reached : k ≤ k'
  pub free : find_key k' es ≡ none
  pub taken : (j : ℕ) → k ≤ j → j < k' → find_key j es ≢ none

IsFirstFree-here : (k : ℕ) (es : List (ℕ × ℕ)) → find_key k es ≡ none → IsFirstFree k k es
IsFirstFree-here k es h = record {
  reached = omega arith;
  free = h;
  taken = λ j p q. absurd (omega arith);
}

IsFirstFree-next :
    (k k' y : ℕ) (es : List (ℕ × ℕ))
    → find_key k es ≡ some y
    → IsFirstFree (k + 1) k' es
    → IsFirstFree k k' es
IsFirstFree-next k k' y es h v = record {
  reached = omega (arith, v.reached);
  free = v.free;
  taken = λ j p q e. elim (dec_lt k j) [
    | yes later ↦ v.taken j (omega arith) q e
    | no same ↦ let here : j ≡ k = omega arith in cc
  ];
}

u64_small : (n : ℕ) → n < 2 ^ 64 → u64 n ≡ n
u64_small n h = omega arith

module _ ⦃i : Intrusive⦄ where
  open i use {Tree, entries, rb_insert_taken, rb_insert_free}

  -- The outcome of the search from `k`: the new entry, under the first free key, `n` later at most.
  abbrev pub Inserted : Tree → (k lt n : ℕ) → Option (Tree × ℕ) → Type 0
  Inserted t k lt n r =
      (t' : Tree) × (k' : ℕ) × (r ≡ some (t', k'))
      × (entries t' ≡ insert_key k' lt (entries t))
      × IsFirstFree k k' (entries t)
      × (k' ≤ k + n)

  Inserted-here :
      (f : ℕ) (t : Tree) (k lt n : ℕ)
      → find_key k (entries t) ≡ none
      → Inserted t k lt n (insert_sleeping (suc f) t k lt)
  unfolding insert_sleeping
  Inserted-here f t k lt n e =
      let (none_taken, inserted) = rb_insert_free t k lt e in
      (_, k, ground arith, inserted, IsFirstFree-here k (entries t) e, omega arith)

  Inserted-next :
      (f : ℕ) (t : Tree) (k lt y n m : ℕ)
      → find_key k (entries t) ≡ some y
      → k + 1 < 2 ^ 64
      → n < m
      → Inserted t (k + 1) lt n (insert_sleeping f t (k + 1) lt)
      → Inserted t k lt m (insert_sleeping (suc f) t k lt)
  unfolding insert_sleeping
  Inserted-next f t k lt y n m e small less (t', k', r, inserted, first, near) = (
    t',
    k',
    ground (arith, rb_insert_taken t k lt y e, u64_small (k + 1) small),
    inserted,
    IsFirstFree-next k k' y (entries t) e first,
    omega arith,
  )

  -- With more fuel than entries the search ends, at the first free key.
  pub insert_sleeping-Inserted :
      (f : ℕ) (t : Tree) (k lt : ℕ)
      → count_from k (entries t) < f
      → k + count_from k (entries t) < 2 ^ 64
      → Inserted t k lt (count_from k (entries t)) (insert_sleeping f t k lt)
  insert_sleeping-Inserted zero t k lt h b = absurd (omega arith)
  insert_sleeping-Inserted (suc f) t k lt h b = elim (Option-cases (find_key k (entries t))) [
    | inl e ↦ Inserted-here f t k lt _ e
    | inr (y, e) ↦
        let less : count_from (k + 1) (entries t) < count_from k (entries t) =
          count_from_taken k y (entries t) e in
        Inserted-next f t k lt y (count_from (k + 1) (entries t)) _ e (omega arith) less
          (insert_sleeping-Inserted f t (k + 1) lt (omega arith) (omega arith))
  ]

  -- The lthread `lt` sleeps: it is in the tree under its wake-up time, the first time from `start`
  -- on that no other sleeper of its scheduler has.
  pub record Sleeps (w w' : World) (lt start : ℕ) : Type 0 where
    pub tree : Tree
    pub key : ℕ
    pub after : w' ≡ fall_asleep w lt key tree
    pub flagged : (w'.lts lt).state.sleeping ≡ true
    pub stamped : (w'.lts lt).sleep_usecs ≡ key
    pub entered :
        entries (w'.scheds (w.lts lt).sched).sleeping
        ≡ insert_key key lt (entries (w.scheds (w.lts lt).sched).sleeping)
    pub first : IsFirstFree start key (entries (w.scheds (w.lts lt).sched).sleeping)
    pub near : key ≤ start + length (entries (w.scheds (w.lts lt).sched).sleeping)

  pub sched_sleep-Sleeps :
      (f : ℕ) (w : World) (lt msecs now : ℕ)
      → 0 < msecs
      → length (entries (w.scheds (w.lts lt).sched).sleeping) < f
      → u64 (now + u64 (msecs * 1000)) + length (entries (w.scheds (w.lts lt).sched).sleeping)
        < 2 ^ 64
      → (w' : World) × (sched_sleep f w lt msecs now ≡ some w')
        × Sleeps w w' lt (u64 (now + u64 (msecs * 1000)))
  unfolding sched_sleep fall_asleep
  sched_sleep-Sleeps f w lt msecs now timed fuel small =
      let t = (w.scheds (w.lts lt).sched).sleeping in
      let start = u64 (now + u64 (msecs * 1000)) in
      let few = count_from-le-length start (entries t) in
      let (t', k', r, inserted, first, near) =
        insert_sleeping-Inserted f t start lt (omega arith) (omega arith) in
      (
        fall_asleep w lt k' t',
        ground arith,
        record {
          tree = t';
          key = k';
          after = refl;
          flagged = ground arith;
          stamped = ground arith;
          entered = ground arith;
          first = first;
          near = omega arith;
        },
      )
