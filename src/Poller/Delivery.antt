-- ===== src/Poller/Delivery.antt =====
-- src/lthread_poller.c, _lthread_poller_handle_event: an event reaches the lthread that waits for it.
use lthread_concurrent.Prelude.{
  ℕ, ◌-◌, ◌≡◌, ◌≢◌, refl, true, false, Option, none, some, not, ◌||◌, arith, sym, ap, ◌∙◌, Bool,
}
use mathlib.Core.Path.{subst}
use lthread_concurrent.Intrusive.{
  Intrusive, find_key, has_id, remove_id, IsRising-remove_id, find_key-has_id, find_key-insert_key,
  remove_id-insert_key, length-remove_id,
}
use lthread_concurrent.State.{World, Lthread, Flags}
use lthread_concurrent.Sched.Ready.Push.{IsWoken, IsAlert}
use lthread_concurrent.Poller.{
  Event, read, write, add_waiting_lthread, poller_desched_event, deliver, handle_event, fd_key,
  event_key, set_wait,
}
use lthread_concurrent.Poller.Waiting.{
  WaitInv, IsIdle, not-has_id_of_IsIdle, add_waiting_lthread-Registered, Waits-same,
  Waits-remove_id, remove_id-not-has_id,
}
use lthread_concurrent.Poller.Removal.{
  Leaves, find_key-Waits, poller_desched_event-Leaves, poller_desched_event-none,
}
use lthread_concurrent.Poller.Handing.{Handed, deliver-Handed}

set_wait-undone :
    (ev : Event) (s : Flags)
    → (s.wait_read ≡ false) × (s.wait_write ≡ false)
    → set_wait ev false (set_wait ev true s) ≡ s
unfolding set_wait
set_wait-undone read s h = ground arith
set_wait-undone write s h = ground arith

module _ ⦃i : Intrusive⦄ where
  open i use {entries}

  -- If the invariant of the poller holds, and an lthread that waits for nothing registers for an
  -- event for which nobody waits, no assertion fails, and the event then takes out the same
  -- lthread, with the tree and the state of the lthread as they were before.
  pub desched-add_waiting :
      (w : World) (lt fd : ℕ) (ev : Event)
      → IsIdle (w.lts lt)
      → find_key (event_key fd ev) (entries w.pool.poller.waiting) ≡ none
      → WaitInv w
      → (w' : World) × (add_waiting_lthread w lt fd ev ≡ some w')
        × ((poller_desched_event w' fd ev).1 ≡ some lt)
        × (entries (poller_desched_event w' fd ev).0.pool.poller.waiting
            ≡ entries w.pool.poller.waiting)
        × (((poller_desched_event w' fd ev).0.lts lt).state ≡ (w.lts lt).state)
  desched-add_waiting w lt fd ev idle free inv =
      let k = event_key fd ev in
      let es = entries w.pool.poller.waiting in
      let (w', e, reg) = add_waiting_lthread-Registered w lt fd ev idle free in
      let (found, leaves) =
        poller_desched_event-Leaves w' fd lt ev
          (ap (find_key k) reg.entered ∙ find_key-insert_key k lt es free) in
      (
        w',
        e,
        found,
        leaves.left
            ∙ ap (remove_id lt) reg.entered
            ∙ remove_id-insert_key k lt es (not-has_id_of_IsIdle w lt es idle inv.waits),
        ap (λ (l : Lthread). l.state) leaves.lowered
            ∙ ap (set_wait ev false) reg.flagged
            ∙ set_wait-undone ev (w.lts lt).state idle,
      )

  -- The event has reached `lt`, which waited for it: it leaves the tree, learns of the end of the
  -- file, and its scheduler will run it.
  pub record Delivered (w w' : World) (lt : ℕ) (is_eof : Bool) : Type 0 where
    pub left : entries w'.pool.poller.waiting ≡ remove_id lt (entries w.pool.poller.waiting)
    pub pending : w'.pool.poller.num_pending_events ≡ w.pool.poller.num_pending_events - 1
    pub idle : IsIdle (w'.lts lt)
    pub eof : (w'.lts lt).state.fdeof ≡ (w.lts lt).state.fdeof || is_eof
    pub woken : IsWoken w w' lt
    pub alert : IsAlert (w'.scheds (w.lts lt).sched)
    pub others : (x : ℕ) → lt ≢ x → (w'.lts x).state ≡ (w.lts x).state

  Leaves-WaitInv :
      (w v w' : World) (lt : ℕ) (ev : Event) (is_eof : Bool)
      → has_id lt (entries w.pool.poller.waiting) ≡ true
      → Leaves w v lt ev
      → Handed v w' lt is_eof
      → WaitInv w
      → WaitInv w'
  Leaves-WaitInv w v w' lt ev is_eof h leaves handed inv =
      let es = entries w.pool.poller.waiting in
      let e = ap entries handed.waiting ∙ leaves.left in
      record {
        rising = rw e (IsRising-remove_id lt es inv.rising);
        waits = rw e (
            Waits-same w w' lt (remove_id lt es)
              (λ x n. handed.same_state x n ∙ ap (λ (l : Lthread). l.state) (leaves.others x n))
              (λ x n. handed.same_fd x n ∙ ap (λ (l : Lthread). l.fd_wait) (leaves.others x n))
              (remove_id-not-has_id w lt es inv.rising inv.waits)
              (Waits-remove_id w lt es inv.waits));
        counted =
            rw e (
              omega (arith, handed.pending, leaves.pending, inv.counted, length-remove_id lt es h));
      }

  lowered-IsIdle :
      (l : Lthread) (fd : ℕ) (ev : Event)
      → fd_key l ≡ event_key fd ev
      → l.state.wait_read ≡ not l.state.wait_write
      → let s = set_wait ev false l.state in (s.wait_read ≡ false) × (s.wait_write ≡ false)
  unfolding fd_key set_wait
  lowered-IsIdle l fd read k x = (ground arith, ground arith)
  lowered-IsIdle l fd write k x = (ground arith, ground arith)

  Leaves-Delivered :
      (w v w' : World) (fd lt : ℕ) (ev : Event) (is_eof : Bool)
      → find_key (event_key fd ev) (entries w.pool.poller.waiting) ≡ some lt
      → Leaves w v lt ev
      → Handed v w' lt is_eof
      → WaitInv w
      → Delivered w w' lt is_eof
  unfolding set_wait
  Leaves-Delivered w v w' fd lt ev is_eof h leaves handed inv =
      let (key, one_way) =
        find_key-Waits w (event_key fd ev) lt (entries w.pool.poller.waiting) h inv.waits in
      let idle = lowered-IsIdle (w.lts lt) fd ev key one_way in
      let low = ap (λ (l : Lthread). l.state) leaves.lowered in
      let owner = ap (λ (l : Lthread). l.sched) leaves.lowered in
      record {
        left = ap entries handed.waiting ∙ leaves.left;
        pending = handed.pending ∙ ap (λ (n : ℕ). n - 1) leaves.pending;
        idle = (
          handed.wait_read ∙ ap (λ (f : Flags). f.wait_read) low ∙ idle.0,
          handed.wait_write ∙ ap (λ (f : Flags). f.wait_write) low ∙ idle.1,
        );
        eof =
            handed.eof
            ∙ ap (λ (f : Flags). f.fdeof || is_eof) low
            ∙ set_wait-fdeof ev (w.lts lt).state is_eof;
        woken = IsWoken-same w v w' lt leaves.same_scheds owner handed.woken;
        alert = subst (λ s. IsAlert (w'.scheds s)) owner handed.alert;
        others = λ x n. handed.same_state x n ∙ ap (λ (l : Lthread). l.state) (leaves.others x n);
      }
    where
      set_wait-fdeof :
          (e : Event) (f : Flags) (b : Bool) → (set_wait e false f).fdeof || b ≡ f.fdeof || b
      set_wait-fdeof read f b = refl
      set_wait-fdeof write f b = refl

      IsWoken-same :
          (x y z : World) (l : ℕ)
          → y.scheds ≡ x.scheds
          → (y.lts l).sched ≡ (x.lts l).sched
          → IsWoken y z l
          → IsWoken x z l
      IsWoken-same x y z l e f d = rw (← e, ← f) d

  -- If the invariant of the poller holds, an event for which an lthread waits is handled by that
  -- lthread's delivery as `Delivered` says, and the invariant is kept.
  pub handle_event-Delivered :
      (w : World) (fd lt : ℕ) (ev : Event) (is_eof : Bool)
      → find_key (event_key fd ev) (entries w.pool.poller.waiting) ≡ some lt
      → WaitInv w
      → let r = handle_event w fd ev is_eof in
        (r.1 ≡ some lt) × Delivered w r.0 lt is_eof × WaitInv r.0
  unfolding handle_event
  handle_event-Delivered w fd lt ev is_eof h inv =
      let r = poller_desched_event w fd ev in
      let (found, leaves) = poller_desched_event-Leaves w fd lt ev h in
      let handed = deliver-Handed r.0 lt is_eof in
      let whole : r ≡ (r.0, some lt) = λ i. (r.0, found i) in
      let has = find_key-has_id (event_key fd ev) lt (entries w.pool.poller.waiting) h in
      subst
        (λ (x : World × Option ℕ).
          ((deliver is_eof x).1 ≡ some lt)
          × Delivered w (deliver is_eof x).0 lt is_eof
          × WaitInv (deliver is_eof x).0)
        (sym whole)
        (
          unfold deliver in refl,
          Leaves-Delivered w r.0 _ fd lt ev is_eof h leaves handed inv,
          Leaves-WaitInv w r.0 _ lt ev is_eof has leaves handed inv,
        )

  -- An event for which none waits changes nothing.
  pub handle_event-none :
      (w : World) (fd : ℕ) (ev : Event) (is_eof : Bool)
      → find_key (event_key fd ev) (entries w.pool.poller.waiting) ≡ none
      → handle_event w fd ev is_eof ≡ (w, none)
  unfolding handle_event deliver
  handle_event-none w fd ev is_eof h = ap (deliver is_eof) (poller_desched_event-none w fd ev h)
