-- ===== src/Poller/Handing.antt =====
-- src/lthread_poller.c, _lthread_poller_handle_event: what is done with the lthread that it finds.
use lthread_concurrent.Prelude.{ℕ, ◌-◌, ◌≡◌, ◌≢◌, some, ◌||◌, arith, ap, ◌∙◌, Bool}
use lthread_concurrent.Intrusive.{Intrusive}
use lthread_concurrent.State.{World, Pool, Poller, Lthread, Flags}
use lthread_concurrent.Sched.Ready.{desched_event}
use lthread_concurrent.Sched.Ready.Push.{
  push_ready-Keeps, push_ready-IsWoken, push_ready-IsAlert, IsWoken, IsAlert,
}
use lthread_concurrent.Poller.{deliver, settle_event, mark_eof}

module _ ⦃i : Intrusive⦄ where
  mark_eof_lem :
      (w : World) (lt : ℕ) (is_eof : Bool)
      → let v = mark_eof w lt is_eof in
        (v.pool ≡ w.pool)
        × (v.scheds ≡ w.scheds)
        × ((v.lts lt).state.fdeof ≡ (w.lts lt).state.fdeof || is_eof)
        × ((v.lts lt).state.wait_read ≡ (w.lts lt).state.wait_read)
        × ((v.lts lt).state.wait_write ≡ (w.lts lt).state.wait_write)
        × ((v.lts lt).sched ≡ (w.lts lt).sched)
        × ((x : ℕ) → lt ≢ x → v.lts x ≡ w.lts x)
  unfolding mark_eof
  mark_eof_lem w lt is_eof = (
    ground arith,
    ground arith,
    ground arith,
    ground arith,
    ground arith,
    ground arith,
    λ x n. ground arith,
  )

  -- What is done with the lthread that has been found, in the state that the tree's removal left.
  pub record Handed (w w' : World) (lt : ℕ) (is_eof : Bool) : Type 0 where
    pub waiting : w'.pool.poller.waiting ≡ w.pool.poller.waiting
    pub pending : w'.pool.poller.num_pending_events ≡ w.pool.poller.num_pending_events - 1
    pub eof : (w'.lts lt).state.fdeof ≡ (w.lts lt).state.fdeof || is_eof
    pub wait_read : (w'.lts lt).state.wait_read ≡ (w.lts lt).state.wait_read
    pub wait_write : (w'.lts lt).state.wait_write ≡ (w.lts lt).state.wait_write
    pub same_state : (x : ℕ) → lt ≢ x → (w'.lts x).state ≡ (w.lts x).state
    pub same_fd : (x : ℕ) → lt ≢ x → (w'.lts x).fd_wait ≡ (w.lts x).fd_wait
    pub woken : IsWoken w w' lt
    pub alert : IsAlert (w'.scheds (w.lts lt).sched)

  pub deliver-Handed :
      (w : World) (lt : ℕ) (is_eof : Bool) → Handed w (deliver is_eof (w, some lt)).0 lt is_eof
  unfolding deliver desched_event settle_event
  deliver-Handed w lt is_eof =
      let v = mark_eof w lt is_eof in
      let s = (v.lts lt).sched in
      let (pool, scheds, eof, rd, wr, sched, others) = mark_eof_lem w lt is_eof in
      let keeps = push_ready-Keeps v s lt in
      record {
        waiting =
            ap (λ (p : Poller). p.waiting) keeps.poller ∙ ap (λ (p : Pool). p.poller.waiting) pool;
        pending =
            ap (λ (p : Poller). p.num_pending_events - 1) keeps.poller
            ∙ ap (λ (p : Pool). p.poller.num_pending_events - 1) pool;
        eof = ap (λ (f : Flags). f.fdeof) (keeps.state lt) ∙ eof;
        wait_read = ap (λ (f : Flags). f.wait_read) (keeps.state lt) ∙ rd;
        wait_write = ap (λ (f : Flags). f.wait_write) (keeps.state lt) ∙ wr;
        same_state = λ x n. keeps.state x ∙ ap (λ (l : Lthread). l.state) (others x n);
        same_fd = λ x n. keeps.fd_wait x ∙ ap (λ (l : Lthread). l.fd_wait) (others x n);
        woken = ground (arith, push_ready-IsWoken v s lt);
        alert = ground (arith, push_ready-IsAlert v s lt);
      }
