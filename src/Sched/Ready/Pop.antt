-- ===== src/Sched/Ready/Pop.antt =====
-- src/lthread.c, _lthread_pop_ready: the search of a scheduler for an lthread, around the ring.
use lthread_concurrent.Prelude.{
  Bool-cases, Option-cases, inl, inr, sym, ◌∙◌, ℕ, zero, suc, ◌+◌, ◌-◌, ◌≤◌, ◌<◌, ◌≡◌, refl, Bool,
  false, Option, none, some, [], arith, ◌==◌, leb, if◌then◌else◌,
}
use mathlib.Core.Path.{subst}
use lthread_concurrent.Intrusive.{Intrusive}
use lthread_concurrent.State.{World}
use lthread_concurrent.Sched.Ready.{sched_pop_ready, pop_neighbors, pop_own_last, pop_ready}

module _ ⦃i : Intrusive⦄ where
  open i use {elems, tailq_first, tailq_first_lem}

  -- The schedulers below `n` stand in a ring.
  abbrev pub IsRing : World → ℕ → Type 0
  IsRing w n = (j : ℕ) → j < n → (w.scheds j).sched_neighbor ≡ (if j + 1 == n then 0 else j + 1)

  -- The number of steps around the ring
  abbrev pub distance : ℕ → ℕ → ℕ → ℕ
  distance n j s = if leb j s then s - j else s + n - j

  pop_none :
      (w : World) (j : ℕ) (block free : Bool)
      → (sched_pop_ready w j block free).1 ≡ none
      → (sched_pop_ready w j block free).0 ≡ w
  unfolding sched_pop_ready
  pop_none w j block free e = ground arith

  pop_neighbors_ends :
      (f n : ℕ) (w : World) (free : ℕ → Bool) (s j : ℕ)
      → IsRing w n
      → s < n
      → j < n
      → distance n j s < f
      → (r : World × Option ℕ) × (pop_neighbors f w free s j ≡ some r) × ((r.1 ≡ none) → r.0 ≡ w)
  unfolding pop_neighbors
  pop_neighbors_ends zero n w free s j ring h l d = absurd (ground arith)
  pop_neighbors_ends (suc f) n w free s j ring h l d = elim (Bool-cases (j == s)) [
    | inl e ↦ ((w, none), ground arith, (λ q. refl))
    | inr e ↦ elim (Option-cases (sched_pop_ready w j false (free j)).1) [
      | inr (lt, q) ↦ (((sched_pop_ready w j false (free j)).0, some lt), ground arith, (λ p. cc))
      | inl q ↦
          let (r, p, k) =
            pop_neighbors_ends f n w free s (w.scheds j).sched_neighbor ring h
              (ground (arith, ring j)) (ground (arith, ring j)) in
          (r, ground arith, k)
    ]
  ]

  own_last-none :
      (s : ℕ) (w : World) (o : Option ℕ)
      → (pop_own_last s (w, o)).1 ≡ none
      → (o ≡ none) × (elems (w.scheds s).ready ≡ []) × ((pop_own_last s (w, o)).0 ≡ w)
  unfolding pop_own_last
  own_last-none s w (some lt) e = ground arith
  own_last-none s w none e = (
    refl,
    ground (arith, tailq_first_lem (w.scheds s).ready),
    ground (arith, tailq_first_lem (w.scheds s).ready),
  )

  -- If `n` schedulers stand in a ring, the search of one of them ends, with `n` or more units of fuel,
  -- whichever mutexes are free; and if it finds nothing, its own queue is empty and the world is as
  -- it was.
  pub pop_ready_ends :
      (f n : ℕ) (w : World) (free : ℕ → Bool) (s : ℕ)
      → IsRing w n
      → s < n
      → n ≤ f
      → (r : World × Option ℕ) × (pop_ready f w free s ≡ some r)
        × ((r.1 ≡ none) → (elems (w.scheds s).ready ≡ []) × (r.0 ≡ w))
  unfolding pop_ready
  pop_ready_ends f n w free s ring h l =
      let q = sched_pop_ready w s false (free s) in
      elim (Option-cases q.1) [
        | inr (lt, e) ↦ (
          pop_own_last s (q.0, some lt),
          ground arith,
          (λ k. absurd (some_none lt (own_last-none s q.0 (some lt) k).0)),
        )
        | inl e ↦
            let same = pop_none w s false (free s) e in
            let ring' : IsRing q.0 n = subst (λ v. IsRing v n) (sym same) ring in
            let (r, p, k) =
              pop_neighbors_ends f n q.0 free s (q.0.scheds s).sched_neighbor ring' h
                (ground (arith, ring' s)) (ground (arith, ring' s)) in
            (
              pop_own_last s (r.0, r.1),
              ground arith,
              (λ z.
                  let o = own_last-none s r.0 r.1 z in
                  let back = k o.0 ∙ same in
                  (subst (λ v. elems (v.scheds s).ready ≡ []) back o.1, o.2 ∙ back)),
            )
      ]
    where
      some_none : (lt : ℕ) → some lt ≡ none → ⊥
      some_none lt e = cc
