-- ===== src/Poller/Removal.antt =====
-- src/lthread_poller.c, _lthread_poller_desched_event: an lthread is taken out of the tree.
use lthread_concurrent.Prelude.{
  ℕ, ◌≡◌, ◌≢◌, refl, false, none, some, not, List, [], ◌∷◌, arith, ◌∙◌, ℕ_discrete,
}
use mathlib.Core.Path.{subst}
use lthread_concurrent.Intrusive.{Intrusive, find_key, remove_id, find_key-has_id}
use lthread_concurrent.State.{World}
use lthread_concurrent.Poller.{
  Event, poller_desched_event, desched_key, fd_key, event_key, no_fd, set_wait,
}
use lthread_concurrent.Poller.Waiting.{Waits}

module _ ⦃i : Intrusive⦄ where
  open i use {entries, rb_find_lem, entries-rb_remove}

  pub find_key-Waits :
      (w : World) (k lt : ℕ) (es : List (ℕ × ℕ))
      → find_key k es ≡ some lt
      → Waits w es
      → (fd_key (w.lts lt) ≡ k) × ((w.lts lt).state.wait_read ≡ not (w.lts lt).state.wait_write)
  find_key-Waits w k lt [] h y = cc
  find_key-Waits w k lt ((j, x) ∷ es) h y = elim (ℕ_discrete j k) [
    | yes e ↦
        let same : x ≡ lt = ground arith in
        subst
          (λ z.
            (fd_key (w.lts z) ≡ k) × ((w.lts z).state.wait_read ≡ not (w.lts z).state.wait_write))
          same (y.0 ∙ e, y.1)
    | no n ↦ find_key-Waits w k lt es (ground arith) y.2
  ]

  -- The lthread `lt` leaves the tree, in which it waited for `ev`.
  pub record Leaves (w w' : World) (lt : ℕ) (ev : Event) : Type 0 where
    pub left : entries w'.pool.poller.waiting ≡ remove_id lt (entries w.pool.poller.waiting)
    pub pending : w'.pool.poller.num_pending_events ≡ w.pool.poller.num_pending_events
    pub lowered :
        w'.lts lt
        ≡ record (w.lts lt) { state = set_wait ev false (w.lts lt).state; fd_wait = no_fd }
    pub others : (x : ℕ) → lt ≢ x → w'.lts x ≡ w.lts x
    pub same_scheds : w'.scheds ≡ w.scheds

  -- With an lthread that waits under the key of the event, the tree gives it up.
  pub poller_desched_event-Leaves :
      (w : World) (fd lt : ℕ) (ev : Event)
      → find_key (event_key fd ev) (entries w.pool.poller.waiting) ≡ some lt
      → let r = poller_desched_event w fd ev in (r.1 ≡ some lt) × Leaves w r.0 lt ev
  unfolding poller_desched_event
  poller_desched_event-Leaves w fd lt ev h =
      let found = rb_find_lem w.pool.poller.waiting (event_key fd ev) ∙ h in
      let gone =
        entries-rb_remove w.pool.poller.waiting lt
          (find_key-has_id (event_key fd ev) lt (entries w.pool.poller.waiting) h) in
      rw (found, desched_key)
        (
          refl,
          record {
            left = gone;
            pending = refl;
            lowered = ground arith;
            others = λ x n. ground arith;
            same_scheds = refl;
          },
        )

  -- With none, nothing changes.
  pub poller_desched_event-none :
      (w : World) (fd : ℕ) (ev : Event)
      → find_key (event_key fd ev) (entries w.pool.poller.waiting) ≡ none
      → poller_desched_event w fd ev ≡ (w, none)
  unfolding poller_desched_event
  poller_desched_event-none w fd ev h =
      rw (rb_find_lem w.pool.poller.waiting (event_key fd ev) ∙ h, desched_key)
