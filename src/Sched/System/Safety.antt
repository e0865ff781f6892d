-- ===== src/Sched/System/Safety.antt =====
-- What holds of the schedulers and the poller in every state that lthread_run can come to.
use lthread_concurrent.Prelude.{
  ◌∙◌, ap, ℕ, ◌+◌, ◌≡◌, ◌≢◌, refl, Bool, true, false, inl, inr, some, [], arith, length,
}
use lthread_concurrent.Intrusive.{Intrusive}
use lthread_concurrent.State.{Lthread, World, will_block}
use lthread_concurrent.Sched.Switch.{create}
use lthread_concurrent.Sched.Pool.{run_init, run_start, sched_create, allocate_pool, poller_init}
use lthread_concurrent.Sched.Pool.Ring.{link-unlinked, link-pool, link-asleep}
use lthread_concurrent.Sched.System.{looping, waiting, System, idle, Reach, here, next}
use lthread_concurrent.Sched.System.Invariant.{At, Quiet, Inv, is_gone, is_waiting, is_resting}
use lthread_concurrent.Sched.System.Acts.{At-create, Frame-Counted}
use lthread_concurrent.Sched.System.Frame.{create-Frame}
use lthread_concurrent.Sched.System.Steps.{Step-Inv}

module _ ⦃i : Intrusive⦄ where
  open i use {elems, entries, elems-tailq_init, entries-rb_init}

  -- The threads start, in the world that lthread_run has set up.
  abbrev pub started : World → System
  started w = record { world = w; pc = λ j. looping; hand = idle }

  run_init-scheds :
      (lts : ℕ → Lthread) (bytes : ℕ → Bool) (stack_size page_size aux j : ℕ)
      → let x = (run_init lts bytes stack_size page_size aux).scheds j in
        (x.id ≡ j) × (x.block_state ≡ will_block) × (elems x.ready ≡ [])
  unfolding run_init allocate_pool sched_create
  run_init-scheds lts bytes stack_size page_size aux j =
      let e =
        link-unlinked (aux + 1) 0 aux (allocate_pool lts bytes stack_size page_size (aux + 1)) j in
      (ap (λ x. x.id) e, ap (λ x. x.block_state) e, ap (λ x. elems x.ready) e ∙ elems-tailq_init)

  run_init-asleep :
      (lts : ℕ → Lthread) (bytes : ℕ → Bool) (stack_size page_size aux j : ℕ)
      → (run_init lts bytes stack_size page_size aux).pool.asleep j ≡ false
  unfolding run_init allocate_pool
  run_init-asleep lts bytes stack_size page_size aux j =
      link-asleep (aux + 1) 0 aux (allocate_pool lts bytes stack_size page_size (aux + 1)) j
        (λ h. ground arith) (λ h. ground arith)

  run_init-pool :
      (lts : ℕ → Lthread) (bytes : ℕ → Bool) (stack_size page_size aux : ℕ)
      → let p = (run_init lts bytes stack_size page_size aux).pool in
        (p.num_schedulers ≡ aux + 1)
        × (p.poller.num_pending_events ≡ length (entries p.poller.waiting) + 0)
  unfolding run_init allocate_pool poller_init
  run_init-pool lts bytes stack_size page_size aux =
      let e = link-pool (aux + 1) 0 aux (allocate_pool lts bytes stack_size page_size (aux + 1)) in
      (e.0, rw (e.1, entries-rb_init) refl)

  started-Inv :
      (lts : ℕ → Lthread) (bytes : ℕ → Bool) (stack_size page_size aux mem fun arg : ℕ)
      → Inv (aux + 1) (started (run_start lts bytes stack_size page_size aux mem fun arg))
  unfolding run_start
  started-Inv lts bytes stack_size page_size aux mem fun arg =
      let w = run_init lts bytes stack_size page_size aux in
      let r = create w (some 0) (some mem) fun arg in
      let fr = create-Frame w 0 mem fun arg r.0 r.1 refl in
      let pool = run_init-pool lts bytes stack_size page_size aux in
      record {
        each = λ j.
            At-create w looping 0 mem fun arg j r.0 r.1 refl
              (run_init-scheds lts bytes stack_size page_size aux 0).0 refl
              (fresh w j (run_init-scheds lts bytes stack_size page_size aux j)
                (run_init-asleep lts bytes stack_size page_size aux j));
        quiet = λ j e. cc;
        counted = Frame-Counted w r.0 0 fr pool.1;
        size = fr.num_schedulers ∙ pool.0;
      }
    where
      fresh :
          (w : World) (j : ℕ)
          → ((w.scheds j).id ≡ j)
            × ((w.scheds j).block_state ≡ will_block)
            × (elems (w.scheds j).ready ≡ [])
          → w.pool.asleep j ≡ false
          → At w looping j
      fresh w j h a = record {
        id = h.0;
        awake = λ e. ground arith;
        told = λ e. cc;
        blocked = λ e. cc;
        signalled = λ e. cc;
        resting = λ e. cc;
        empty = λ e. cc;
        tree = λ e. cc;
      }

  -- The invariant of the schedulers holds in every state that is reached from the start of the
  -- threads by lthread_run.
  pub Reach-Inv :
      (lts : ℕ → Lthread) (bytes : ℕ → Bool) (stack_size page_size aux mem fun arg : ℕ) {x : System}
      → Reach (aux + 1) (started (run_start lts bytes stack_size page_size aux mem fun arg)) x
      → Inv (aux + 1) x
  Reach-Inv lts bytes stack_size page_size aux mem fun arg here =
      started-Inv lts bytes stack_size page_size aux mem fun arg
  Reach-Inv lts bytes stack_size page_size aux mem fun arg (next r st) =
      Step-Inv st (Reach-Inv lts bytes stack_size page_size aux mem fun arg r)

  -- In a state that is reached from the start of the threads by lthread_run, a scheduler that is in
  -- the wait of its loop while its ready queue is not empty has been signalled: no wake-up is lost.
  pub no_lost_wakeup :
      (lts : ℕ → Lthread) (bytes : ℕ → Bool) (stack_size page_size aux mem fun arg : ℕ) {x : System}
      → Reach (aux + 1) (started (run_start lts bytes stack_size page_size aux mem fun arg)) x
      → (s : ℕ) (deep : Bool) → x.pc s ≡ waiting deep
      → elems (x.world.scheds s).ready ≢ []
      → (x.world.scheds s).signalled ≡ true
  no_lost_wakeup lts bytes stack_size page_size aux mem fun arg {x} r s deep e ne =
      let h = (Reach-Inv lts bytes stack_size page_size aux mem fun arg r).each s in
      elim (h.signalled (ap is_waiting e)) [
        | inl none_ready ↦ absurd (ne none_ready)
        | inr told ↦ told
      ]

  -- In a state that is reached from the start of the threads by lthread_run, once any scheduler is
  -- past its loop, there is nothing left to do: no scheduler of the pool has a ready or a sleeping
  -- lthread or has one in hand, and no event is pending.
  pub all_done-Quiet :
      (lts : ℕ → Lthread) (bytes : ℕ → Bool) (stack_size page_size aux mem fun arg : ℕ) {x : System}
      → Reach (aux + 1) (started (run_start lts bytes stack_size page_size aux mem fun arg)) x
      → (s : ℕ) → is_gone (x.pc s) ≡ true
      → Quiet (aux + 1) x
  all_done-Quiet lts bytes stack_size page_size aux mem fun arg r s g =
      (Reach-Inv lts bytes stack_size page_size aux mem fun arg r).quiet s g

  -- In a state that is reached from the start of the threads by lthread_run, a scheduler that the
  -- pool counts as asleep is in deep sleep or past its loop, with no ready and no sleeping lthread.
  pub asleep_idle :
      (lts : ℕ → Lthread) (bytes : ℕ → Bool) (stack_size page_size aux mem fun arg : ℕ) {x : System}
      → Reach (aux + 1) (started (run_start lts bytes stack_size page_size aux mem fun arg)) x
      → (s : ℕ) → x.world.pool.asleep s ≡ true
      → (is_resting (x.pc s) ≡ true)
        × (elems (x.world.scheds s).ready ≡ [])
        × (entries (x.world.scheds s).sleeping ≡ [])
  asleep_idle lts bytes stack_size page_size aux mem fun arg r s g =
      let h = (Reach-Inv lts bytes stack_size page_size aux mem fun arg r).each s in
      (h.resting g, h.empty g, h.tree g)
