-- ===== src/Sched/Stack/Cache.antt =====
-- src/lthread.c, compiled with USE_MINICORO 0: what the cache of structures keeps.
use lthread_concurrent.Prelude.{ℕ, ◌<◌, ◌≡◌, some, length, arith}
use lthread_concurrent.Sched.Switch.{allocate}
use lthread_concurrent.Sched.Stack.{
  Memory, Threads, cache_capacity, hand_out, new_stack, allocate_cached, free_cached, madvise_stack,
}

module _ (os : Memory) where
  -- A structure that is freed while there is room in its scheduler's cache makes no call of the
  -- system, and is the one that the scheduler's next lthread gets: with its stack, and zeroed
  -- otherwise, and the caches as they were.
  pub allocate_cached-free_cached :
      (x : Threads os) (lt stack_size : ℕ)
      → let t = x.threads lt in
        length (x.lthread_cache t.base.sched) < cache_capacity
        → let y = free_cached os x lt in
          let (z, err, new) = allocate_cached os y t.base.sched stack_size in
          (err ≡ 0)
          × (new ≡ some lt)
          × (z.kernel ≡ x.kernel)
          × ((z.threads lt).stack ≡ t.stack)
          × ((z.threads lt).stack_size ≡ t.stack_size)
          × ((z.threads lt).base ≡ allocate t.base.sched)
          × ((s : ℕ) → z.lthread_cache s ≡ x.lthread_cache s)
  unfolding allocate_cached free_cached hand_out allocate
  allocate_cached-free_cached x lt stack_size room = (
    ground arith,
    ground arith,
    ground arith,
    ground arith,
    ground arith,
    ground arith,
    λ s. ground arith,
  )

  -- No stack has ever been measured.
  abbrev pub Unmeasured : Threads os → Type 0
  Unmeasured x = (lt : ℕ) → (x.threads lt).last_stack_size ≡ 0

  -- If no `last_stack_size` is set at first, then none ever is, by allocation, freeing or
  -- _lthread_madvise, and _lthread_madvise gives no memory back.
  pub madvise_stack-idle :
      (x : Threads os) (lt s stack_size : ℕ)
      → Unmeasured x
      → Unmeasured (allocate_cached os x s stack_size).0
        × Unmeasured (free_cached os x lt)
        × ((y : Threads os) → madvise_stack os x lt ≡ some y → y ≡ x)
  unfolding allocate_cached free_cached hand_out madvise_stack new_stack
  madvise_stack-idle x lt s stack_size u =
      (λ l. ground (arith, u l), λ l. ground (arith, u l), λ y e. ground (arith, u lt))
