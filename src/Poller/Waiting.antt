-- ===== src/Poller/Waiting.antt =====
-- src/lthread_poller.c: the tree of waiting lthreads and the count of pending events.
use lthread_concurrent.Prelude.{
  ℕ, ◌+◌, ◌≤◌, ◌≡◌, ◌≢◌, refl, true, false, none, some, not, List, [], ◌∷◌, arith, length, sym, ap,
  ◌∙◌, ℕ_discrete,
}
use mathlib.Core.Path.{subst}
use lthread_concurrent.Intrusive.{
  Intrusive, find_key, insert_key, IsRising, IsRising-tail, Above, has_id, remove_id,
  IsRising-insert_key, length-insert_key,
}
use lthread_concurrent.State.{World, Lthread, Flags, with_lt}
use lthread_concurrent.Poller.{
  u16, with_poller, Event, read, write, add_waiting_lthread, fd_key, event_key, set_wait,
}

-- It waits for no event.
abbrev pub IsIdle : Lthread → Type 0
IsIdle l = (l.state.wait_read ≡ false) × (l.state.wait_write ≡ false)

module _ ⦃i : Intrusive⦄ where
  open i use {Tree, rb_insert, rb_remove, entries, rb_insert_free, rb_find_lem, entries-rb_remove}

  -- Each entry stands under the key of an lthread that waits, in one direction only.
  abbrev pub Waits : World → List (ℕ × ℕ) → Type 0
  Waits w [] = Unit {0}
  Waits w ((k, x) ∷ es) =
      (fd_key (w.lts x) ≡ k)
      × ((w.lts x).state.wait_read ≡ not (w.lts x).state.wait_write)
      × Waits w es

  -- The tree is in order, and holds as many lthreads as events are pending.
  pub record WaitInv (w : World) : Type 0 where
    pub rising : IsRising (entries w.pool.poller.waiting)
    pub waits : Waits w (entries w.pool.poller.waiting)
    pub counted : w.pool.poller.num_pending_events ≡ length (entries w.pool.poller.waiting)

  -- An lthread that does not wait is not in the tree.
  pub not-has_id_of_IsIdle :
      (w : World) (lt : ℕ) (es : List (ℕ × ℕ))
      → IsIdle (w.lts lt)
      → Waits w es
      → has_id lt es ≡ false
  not-has_id_of_IsIdle w lt [] h y = refl
  not-has_id_of_IsIdle w lt ((k, x) ∷ es) h y = elim (ℕ_discrete x lt) [
    | yes e ↦
        absurd
          (differ (subst (λ z. (w.lts z).state.wait_read ≡ not (w.lts z).state.wait_write) e y.1))
    | no n ↦ ground (arith, not-has_id_of_IsIdle w lt es h y.2)
  ]
    where
      differ : (w.lts lt).state.wait_read ≡ not (w.lts lt).state.wait_write → ⊥
      differ e = ground arith

  -- A wait depends on `state` and `fd_wait` alone.
  pub Waits-same :
      (w w' : World) (lt : ℕ) (es : List (ℕ × ℕ))
      → ((x : ℕ) → lt ≢ x → (w'.lts x).state ≡ (w.lts x).state)
      → ((x : ℕ) → lt ≢ x → (w'.lts x).fd_wait ≡ (w.lts x).fd_wait)
      → has_id lt es ≡ false
      → Waits w es
      → Waits w' es
  unfolding fd_key
  Waits-same w w' lt [] e f h y = tt
  Waits-same w w' lt ((k, x) ∷ es) e f h y =
      let other : lt ≢ x = λ p. ground arith in
      let rd = ap (λ (s : Flags). s.wait_read) (e x other) in
      let wr = ap (λ (s : Flags). s.wait_write) (e x other) in
      (
        ground (arith, f x other),
        rd ∙ y.1 ∙ ap not (sym wr),
        Waits-same w w' lt es e f (ground arith) y.2,
      )

  Waits-insert_key :
      (w : World) (k lt : ℕ) (es : List (ℕ × ℕ))
      → fd_key (w.lts lt) ≡ k
      → (w.lts lt).state.wait_read ≡ not (w.lts lt).state.wait_write
      → Waits w es
      → Waits w (insert_key k lt es)
  Waits-insert_key w k lt [] a b y = (a, b, tt)
  Waits-insert_key w k lt ((j, x) ∷ es) a b y = ground (arith, Waits-insert_key w k lt es a b)

  not-has_id-Above :
      (w : World) (lt b : ℕ) (es : List (ℕ × ℕ))
      → fd_key (w.lts lt) ≤ b
      → Above b es
      → Waits w es
      → has_id lt es ≡ false
  not-has_id-Above w lt b [] h r y = refl
  not-has_id-Above w lt b ((k, x) ∷ es) h r y = elim (ℕ_discrete x lt) [
    | yes e ↦
        let key : fd_key (w.lts lt) ≡ k = subst (λ z. fd_key (w.lts z) ≡ k) e y.0 in
        absurd (omega arith)
    | no n ↦ ground (arith, not-has_id-Above w lt k es (omega arith) r.1 y.2)
  ]

  -- An lthread waits once.
  pub remove_id-not-has_id :
      (w : World) (lt : ℕ) (es : List (ℕ × ℕ))
      → IsRising es
      → Waits w es
      → has_id lt (remove_id lt es) ≡ false
  remove_id-not-has_id w lt [] r y = refl
  remove_id-not-has_id w lt ((k, x) ∷ es) r y = elim (ℕ_discrete x lt) [
    | yes e ↦
        let key : fd_key (w.lts lt) ≡ k = subst (λ z. fd_key (w.lts z) ≡ k) e y.0 in
        ground (arith, not-has_id-Above w lt k es (omega arith) r y.2)
    | no n ↦ ground (arith, remove_id-not-has_id w lt es (IsRising-tail k x es r) y.2)
  ]

  pub Waits-remove_id :
      (w : World) (lt : ℕ) (es : List (ℕ × ℕ)) → Waits w es → Waits w (remove_id lt es)
  Waits-remove_id w lt [] y = tt
  Waits-remove_id w lt ((k, x) ∷ es) y = ground (arith, Waits-remove_id w lt es y.2)

  -- What the registration of a wait leaves.
  pub record Registered (w w' : World) (lt fd : ℕ) (ev : Event) : Type 0 where
    pub entered :
        entries w'.pool.poller.waiting
        ≡ insert_key (event_key fd ev) lt (entries w.pool.poller.waiting)
    pub counted : w'.pool.poller.num_pending_events ≡ w.pool.poller.num_pending_events + 1
    pub keyed : fd_key (w'.lts lt) ≡ event_key fd ev
    pub flagged : (w'.lts lt).state ≡ set_wait ev true (w.lts lt).state
    pub others : (x : ℕ) → lt ≢ x → w'.lts x ≡ w.lts x
    pub same_scheds : w'.scheds ≡ w.scheds

  -- No assertion fails when an lthread that does not wait registers for a descriptor and a
  -- direction for which no other waits.
  pub add_waiting_lthread-Registered :
      (w : World) (lt fd : ℕ) (ev : Event)
      → IsIdle (w.lts lt)
      → find_key (event_key fd ev) (entries w.pool.poller.waiting) ≡ none
      → (w' : World) × (add_waiting_lthread w lt fd ev ≡ some w') × Registered w w' lt fd ev
  unfolding add_waiting_lthread
  add_waiting_lthread-Registered w lt fd read idle free =
      let l : Lthread = record (w.lts lt) {
        state = set_wait read true (w.lts lt).state;
        fd_wait = u16 fd;
      } in
      let t = w.pool.poller.waiting in
      let key : fd_key l ≡ event_key fd read = ground arith in
      let (none_taken, inserted) = rb_insert_free t (event_key fd read) lt free in
      (
        with_poller (with_lt w lt l) (record {
          waiting = (rb_insert t (event_key fd read) lt).0;
          num_pending_events = w.pool.poller.num_pending_events + 1;
        }),
        ground arith,
        record {
          entered = inserted;
          counted = refl;
          keyed = ground arith;
          flagged = ground arith;
          others = λ x n. ground arith;
          same_scheds = refl;
        },
      )
  add_waiting_lthread-Registered w lt fd write idle free =
      let l : Lthread = record (w.lts lt) {
        state = set_wait write true (w.lts lt).state;
        fd_wait = u16 fd;
      } in
      let t = w.pool.poller.waiting in
      let key : fd_key l ≡ event_key fd write = ground arith in
      let (none_taken, inserted) = rb_insert_free t (event_key fd write) lt free in
      (
        with_poller (with_lt w lt l) (record {
          waiting = (rb_insert t (event_key fd write) lt).0;
          num_pending_events = w.pool.poller.num_pending_events + 1;
        }),
        ground arith,
        record {
          entered = inserted;
          counted = refl;
          keyed = ground arith;
          flagged = ground arith;
          others = λ x n. ground arith;
          same_scheds = refl;
        },
      )

  pub Registered-WaitInv :
      (w w' : World) (lt fd : ℕ) (ev : Event)
      → Registered w w' lt fd ev
      → IsIdle (w.lts lt)
      → find_key (event_key fd ev) (entries w.pool.poller.waiting) ≡ none
      → WaitInv w
      → WaitInv w'
  unfolding set_wait
  Registered-WaitInv w w' lt fd ev reg idle free inv =
      let k = event_key fd ev in
      let es = entries w.pool.poller.waiting in
      record {
        rising = rw reg.entered (IsRising-insert_key k lt es free inv.rising);
        waits = rw reg.entered (
            Waits-insert_key w' k lt es reg.keyed (one_way ev (w.lts lt).state reg.flagged idle) (
              Waits-same w w' lt es (λ x n. ap (λ (l : Lthread). l.state) (reg.others x n))
                (λ x n. ap (λ (l : Lthread). l.fd_wait) (reg.others x n))
                (not-has_id_of_IsIdle w lt es idle inv.waits) inv.waits));
        counted = rw (reg.entered, reg.counted, inv.counted) (sym (length-insert_key k lt es));
      }
    where
      one_way :
          (e : Event) (s : Flags)
          → (w'.lts lt).state ≡ set_wait e true s
          → (s.wait_read ≡ false) × (s.wait_write ≡ false)
          → (w'.lts lt).state.wait_read ≡ not (w'.lts lt).state.wait_write
      one_way read s e h = rw (e, set_wait) (rw h.1)
      one_way write s e h = rw (e, set_wait) (rw h.0)

  -- If the invariant of the poller holds, an lthread that waits for nothing may register for an
  -- event for which nobody waits: no assertion fails, and the invariant is kept.
  pub add_waiting_lthread-WaitInv :
      (w : World) (lt fd : ℕ) (ev : Event)
      → IsIdle (w.lts lt)
      → find_key (event_key fd ev) (entries w.pool.poller.waiting) ≡ none
      → WaitInv w
      → (w' : World) × (add_waiting_lthread w lt fd ev ≡ some w') × WaitInv w'
  add_waiting_lthread-WaitInv w lt fd ev idle free inv =
      let (w', e, reg) = add_waiting_lthread-Registered w lt fd ev idle free in
      (w', e, Registered-WaitInv w w' lt fd ev reg idle free inv)
