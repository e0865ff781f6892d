-- ===== src/Sched/System/Exclusive/Start.antt =====
-- src/lthread.c, lthread_run: the place of the first lthread, and of all from there on.
use lthread_concurrent.Prelude.{ℕ, ◌+◌, ◌≡◌, refl, Bool, false, none, arith, [], ◌∙◌, ap}
use lthread_concurrent.Intrusive.{Intrusive}
use lthread_concurrent.State.{Lthread}
use lthread_concurrent.Sched.Pool.{run_init, run_start, sched_create, allocate_pool, poller_init}
use lthread_concurrent.Sched.Pool.Ring.{link-unlinked, link-pool}
use lthread_concurrent.Sched.System.{System}
use lthread_concurrent.Sched.System.Safety.{started}
use lthread_concurrent.Sched.System.Exclusive.{nowhere, OrderlyReach, start, step}
use lthread_concurrent.Sched.System.Exclusive.Acts.{IsExclusive, creates-IsExclusive}
use lthread_concurrent.Sched.System.Exclusive.Steps.{Step-IsExclusive}

-- No lthread exists yet.
abbrev pub IsBlank : (ℕ → Lthread) → Type 0
IsBlank lts =
    (y : ℕ)
    → ((lts y).allocated ≡ false) × ((lts y).is_running ≡ false) × ((lts y).needs_resched ≡ false)

module _ ⦃i : Intrusive⦄ where
  open i use {elems, entries, elems-tailq_init, entries-rb_init}

  run_init-blank :
      (lts : ℕ → Lthread) (bytes : ℕ → Bool) (stack_size page_size aux j : ℕ)
      → let w = run_init lts bytes stack_size page_size aux in
        (elems (w.scheds j).ready ≡ [])
        × (entries (w.scheds j).sleeping ≡ [])
        × ((w.scheds j).current_lthread ≡ none)
        × (entries w.pool.poller.waiting ≡ [])
        × (w.lts ≡ lts)
  unfolding run_init allocate_pool sched_create poller_init
  run_init-blank lts bytes stack_size page_size aux j =
      let v = allocate_pool lts bytes stack_size page_size (aux + 1) in
      let e = link-unlinked (aux + 1) 0 aux v j in
      let p = link-pool (aux + 1) 0 aux v in
      (
        ap (λ x. elems x.ready) e ∙ elems-tailq_init,
        ap (λ x. entries x.sleeping) e ∙ entries-rb_init,
        ap (λ x. x.current_lthread) e,
        ap (λ x. entries x.waiting) p.1 ∙ entries-rb_init,
        p.2,
      )

  init-IsExclusive :
      (lts : ℕ → Lthread) (bytes : ℕ → Bool) (stack_size page_size aux : ℕ)
      → IsBlank lts
      → IsExclusive (started (run_init lts bytes stack_size page_size aux))
  init-IsExclusive lts bytes stack_size page_size aux blank y =
      let b = run_init-blank lts bytes stack_size page_size aux in
      let l = blank y in
      (
        nowhere,
        record {
          queue = λ j. ground (arith, b j);
          tree = λ j. ground (arith, b j);
          poller = ground (arith, b 0);
          hand = omega arith;
          thread = λ s. omega arith;
          mark = λ e. absurd (ground (arith, b 0, l));
          exited = λ e. refl;
          freed = λ e. refl;
          freed_rests = λ s e. refl;
          sched = λ s e. cc;
          current = λ s. ground (arith, b s);
          calm = λ s e. refl;
          flag = λ e. absurd (ground (arith, b 0, l));
        },
      )

  pub OrderlyReach-IsExclusive :
      (lts : ℕ → Lthread) (bytes : ℕ → Bool) (stack_size page_size aux mem fun arg : ℕ) {x : System}
      → IsBlank lts
      → OrderlyReach
          (aux + 1)
          (started (run_start lts bytes stack_size page_size aux mem fun arg))
          x
      → IsExclusive x
  OrderlyReach-IsExclusive lts bytes stack_size page_size aux mem fun arg blank start =
      let w = run_init lts bytes stack_size page_size aux in
      unfold run_start in
      creates-IsExclusive (started w) 0 mem fun arg _ _ refl
        (ap (λ t. (t mem).allocated) (run_init-blank lts bytes stack_size page_size aux 0).4
          ∙ (blank mem).0)
        (init-IsExclusive lts bytes stack_size page_size aux blank)
  OrderlyReach-IsExclusive lts bytes stack_size page_size aux mem fun arg blank (step r st o) =
      Step-IsExclusive st o
        (OrderlyReach-IsExclusive lts bytes stack_size page_size aux mem fun arg blank r)
