-- ===== src/Poller/Batch.antt =====
-- src/lthread_poller.c, lthread_poller_poll: the events of one answer of the system, one after
-- another.
use lthread_concurrent.Prelude.{
  ℕ, ◌+◌, ◌≤◌, ◌≡◌, ◌≢◌, refl, sym, ap, ◌∙◌, ◌⊎◌, inl, inr, Bool, false, Option, none, some, List,
  [], ◌∷◌, arith, Option-cases,
}
use mathlib.Core.Path.{subst}
use lthread_concurrent.Intrusive.{
  Intrusive, find_key, find_key-has_id, has_id, remove_id, Above, IsRising, IsRising-tail,
}
use lthread_concurrent.State.{World}
use lthread_concurrent.Poller.{
  Event, read, write, u16, event_key, handle_event, poll_event, poll_events,
}
use lthread_concurrent.Poller.Waiting.{WaitInv, not-has_id_of_IsIdle}
use lthread_concurrent.Poller.Delivery.{handle_event-Delivered, handle_event-none}

find_key-below : (k b : ℕ) (es : List (ℕ × ℕ)) → k ≤ b → Above b es → find_key k es ≡ none
find_key-below k b [] l h = refl
find_key-below k b ((j, x) ∷ es) l h = ground (arith, find_key-below k j es)

-- The member with a key leaves, and is nowhere else.
find_key-remove_id_same :
    (k x : ℕ) (es : List (ℕ × ℕ))
    → IsRising es
    → find_key k es ≡ some x
    → has_id x (remove_id x es) ≡ false
    → find_key k (remove_id x es) ≡ none
find_key-remove_id_same k x [] r f h = refl
find_key-remove_id_same k x ((j, y) ∷ es) r f h = ground (
  arith,
  find_key-remove_id_same k x es,
  IsRising-tail j y es,
  find_key-below k j es,
  find_key-has_id k x es,
)

find_key-remove_id_other :
    (k j x : ℕ) (es : List (ℕ × ℕ))
    → find_key j es ≡ some x
    → has_id x (remove_id x es) ≡ false
    → k ≢ j
    → find_key k (remove_id x es) ≡ find_key k es
find_key-remove_id_other k j x [] f h n = refl
find_key-remove_id_other k j x ((i, y) ∷ es) f h n =
    ground (arith, find_key-remove_id_other k j x es, find_key-has_id j x es)

module _ ⦃i : Intrusive⦄ where
  open i use {entries}

  abbrev pub waiting : World → List (ℕ × ℕ)
  waiting w = entries w.pool.poller.waiting

  -- Whether an lthread waits for the descriptor in either direction
  abbrev pub IsAwaited : World → ℕ → Type 0
  IsAwaited w fd =
      (find_key (event_key fd read) (waiting w) ≢ none)
      ⊎ (find_key (event_key fd write) (waiting w) ≢ none)

  -- After an event nobody waits for it, and all others wait as before.
  handled :
      (w : World) (fd : ℕ) (ev : Event) (is_eof : Bool)
      → WaitInv w
      → let v = (handle_event w fd ev is_eof).0 in
        ((handle_event w fd ev is_eof).1 ≡ find_key (event_key fd ev) (waiting w))
        × (find_key (event_key fd ev) (waiting v) ≡ none)
        × ((k : ℕ) → k ≢ event_key fd ev → find_key k (waiting v) ≡ find_key k (waiting w))
        × WaitInv v
  handled w fd ev is_eof inv = elim (Option-cases (find_key (event_key fd ev) (waiting w))) [
    | inl e ↦
        let same = handle_event-none w fd ev is_eof e in
        subst
          (λ (r : World × Option ℕ).
            (r.1 ≡ find_key (event_key fd ev) (waiting w))
            × (find_key (event_key fd ev) (waiting r.0) ≡ none)
            × ((k : ℕ) → k ≢ event_key fd ev → find_key k (waiting r.0) ≡ find_key k (waiting w))
            × WaitInv r.0)
          (sym same) (sym e, e, (λ k n. refl), inv)
    | inr (lt, e) ↦
        let v = (handle_event w fd ev is_eof).0 in
        let (found, d, inv') = handle_event-Delivered w fd lt ev is_eof e inv in
        let gone = not-has_id_of_IsIdle v lt (waiting v) d.idle inv'.waits in
        let gone' = subst (λ es. has_id lt es ≡ false) d.left gone in
        (
          found ∙ sym e,
          ap (find_key (event_key fd ev)) d.left
              ∙ find_key-remove_id_same (event_key fd ev) lt (waiting w) inv.rising e gone',
          (λ k n.
              ap (find_key k) d.left
              ∙ find_key-remove_id_other k (event_key fd ev) lt (waiting w) e gone' n),
          inv',
        )
  ]

  -- The other threads keep the invariant, and nobody who waits is made to wait no more.
  pub record Registers (others : ℕ → World → World) : Type 0 where
    pub keeps : (n : ℕ) (w : World) → WaitInv w → WaitInv (others n w)
    pub stays :
        (n : ℕ) (w : World) (k : ℕ)
        → WaitInv w
        → find_key k (waiting w) ≢ none
        → find_key k (waiting (others n w)) ≢ none

  -- Whoever waits for another descriptor waits on.
  Kept : World → World → ℕ → Type 0
  Kept w v fd =
      (k : ℕ)
      → k ≢ event_key fd read
      → k ≢ event_key fd write
      → find_key k (waiting w) ≢ none
      → find_key k (waiting v) ≢ none

  -- None of the events is about the descriptor.
  abbrev pub Others : ℕ → List (ℕ × Bool) → Type 0
  Others fd [] = Unit {0}
  Others fd ((j, is_eof) ∷ es) = (u16 j ≢ u16 fd) × Others fd es

  -- Somebody waits for the descriptor of each event, and no two are about one descriptor.
  abbrev pub IsServed : World → List (ℕ × Bool) → Type 0
  IsServed w [] = Unit {0}
  IsServed w ((fd, is_eof) ∷ es) = IsAwaited w fd × Others fd es × IsServed w es

  module _ (others : ℕ → World → World) (h : Registers others) where
    -- One event
    poll_event_serves :
        (n : ℕ) (w : World) (fd : ℕ) (is_eof : Bool)
        → WaitInv w
        → IsAwaited w fd
        → (v : World) × (poll_event others n w fd is_eof ≡ some v) × WaitInv v × Kept w v fd
    unfolding poll_event Kept
    poll_event_serves n w fd is_eof inv some_one =
        let w0 = others n w in
        let inv0 = h.keeps n w inv in
        let v = (handle_event w0 fd read is_eof).0 in
        let (r, nr, others_r, inv_v) = handled w0 fd read is_eof inv0 in
        let v0 = others (n + 1) v in
        let inv_v0 = h.keeps (n + 1) v inv_v in
        let u = (handle_event v0 fd write is_eof).0 in
        let (q, nw, others_w, inv_u) = handled v0 fd write is_eof inv_v0 in
        let kept_v : (k : ℕ)
            → k ≢ event_key fd read
            → find_key k (waiting w) ≢ none
            → find_key k (waiting v0) ≢ none =
          λ k a m. h.stays (n + 1) v k inv_v (λ e. h.stays n w k inv m (sym (others_r k a) ∙ e)) in
        (
          u,
          elim some_one [
            | inl reads ↦
                let there = h.stays n w (event_key fd read) inv reads in ground (arith, r, there)
            | inr writes ↦
                let there = kept_v (event_key fd write) (ground arith) writes in
                ground (arith, q, there)
          ],
          inv_u,
          λ k a b m. λ e. kept_v k a m (sym (others_w k b) ∙ e),
        )

    IsAwaited-Kept :
        (w v : World) (fd j : ℕ) → Kept w v fd → u16 j ≢ u16 fd → IsAwaited w j → IsAwaited v j
    unfolding Kept
    IsAwaited-Kept w v fd j kept n (inl m) =
        inl (kept (event_key j read) (λ e. n e) (ground arith) m)
    IsAwaited-Kept w v fd j kept n (inr m) =
        inr (kept (event_key j write) (ground arith) (ground arith) m)

    IsServed-Kept :
        (w v : World) (fd : ℕ) (es : List (ℕ × Bool))
        → Kept w v fd
        → Others fd es
        → IsServed w es
        → IsServed v es
    IsServed-Kept w v fd [] kept o s = tt
    IsServed-Kept w v fd ((j, b) ∷ es) kept o s =
        (IsAwaited-Kept w v fd j kept o.0 s.0, s.1, IsServed-Kept w v fd es kept o.1 s.2)

    -- All events of an answer
    pub poll_events_serves :
        (n : ℕ) (w : World) (es : List (ℕ × Bool))
        → WaitInv w
        → IsServed w es
        → (v : World) × (poll_events others n w es ≡ some v) × WaitInv v
    unfolding poll_events
    poll_events_serves n w [] inv s = (w, refl, inv)
    poll_events_serves n w ((fd, b) ∷ es) inv (a, o, s) =
        let (u, got, inv', kept) = poll_event_serves n w fd b inv a in
        let (v, e, inv'') =
          poll_events_serves (n + 2) u es inv' (IsServed-Kept w u fd es kept o s) in
        (v, ground (arith, e, got), inv'')
