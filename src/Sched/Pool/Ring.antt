-- ===== src/Sched/Pool/Ring.antt =====
-- src/lthread.c, lthread_run: the ring of schedulers.
use lthread_concurrent.Prelude.{
  ℕ, zero, suc, ◌+◌, ◌≤◌, ◌<◌, ◌≡◌, refl, Bool, false, arith, ◌∙◌, ◌==◌, ltb, leb, ◌&&◌,
  if◌then◌else◌,
}
use lthread_concurrent.Intrusive.{Intrusive}
use lthread_concurrent.State.{Lthread, World, Sched, update, with_sched, with_pool}
use lthread_concurrent.Sched.Pool.{link_schedulers, run_init, allocate_pool, sched_create}

module _ ⦃i : Intrusive⦄ where
  -- All but the links.
  abbrev pub unlinked : Sched → Sched
  unlinked x = record x { sched_neighbor = 0 }

  pub link-unlinked :
      (r k last : ℕ) (w : World) (j : ℕ)
      → unlinked ((link_schedulers r k last w).scheds j) ≡ unlinked (w.scheds j)
  unfolding link_schedulers
  link-unlinked zero k last w j = refl
  link-unlinked (suc r) k last w j =
      let v = with_pool w (record (w.pool) { asleep = update w.pool.asleep k false }) in
      let u = with_sched v last (record (v.scheds last) { sched_neighbor = k }) in
      link-unlinked r (k + 1) k u j ∙ same j
    where
      same :
          (j : ℕ)
          → unlinked (update w.scheds last (record (w.scheds last) { sched_neighbor = k }) j)
            ≡ unlinked (w.scheds j)
      same j = ground arith

  pub link-pool :
      (r k last : ℕ) (w : World)
      → let v = link_schedulers r k last w in
        (v.pool.num_schedulers ≡ w.pool.num_schedulers)
        × (v.pool.poller ≡ w.pool.poller)
        × (v.lts ≡ w.lts)
  unfolding link_schedulers
  link-pool zero k last w = (refl, refl, refl)
  link-pool (suc r) k last w =
      let v = with_pool w (record (w.pool) { asleep = update w.pool.asleep k false }) in
      let u = with_sched v last (record (v.scheds last) { sched_neighbor = k }) in
      link-pool r (k + 1) k u

  pub link-asleep :
      (r k last : ℕ) (w : World) (j : ℕ)
      → (k + r ≤ j → w.pool.asleep j ≡ false)
      → (j < k → w.pool.asleep j ≡ false)
      → (link_schedulers r k last w).pool.asleep j ≡ false
  unfolding link_schedulers
  link-asleep zero k last w j above below = ground arith
  link-asleep (suc r) k last w j above below =
      let v = with_pool w (record (w.pool) { asleep = update w.pool.asleep k false }) in
      let u = with_sched v last (record (v.scheds last) { sched_neighbor = k }) in
      link-asleep r (k + 1) k u j (λ h. ground arith) (λ h. ground arith)

  -- In rounds that start after the last scheduler linked, each is linked to the one after it.
  pub link-sched_neighbor :
      (r k : ℕ) (w : World) (j : ℕ)
      → ((link_schedulers r (k + 1) k w).scheds j).sched_neighbor
        ≡ (if leb k j && ltb j (k + r) then j + 1 else (w.scheds j).sched_neighbor)
  unfolding link_schedulers
  link-sched_neighbor zero k w j = ground arith
  link-sched_neighbor (suc r) k w j =
      let v = with_pool w (record (w.pool) { asleep = update w.pool.asleep (k + 1) false }) in
      let u = with_sched v k (record (v.scheds k) { sched_neighbor = k + 1 }) in
      let rest = link-sched_neighbor r (k + 1) u j in ground arith

  -- After lthread_run has set up `aux + 1` schedulers, they stand in a ring: each is linked to the
  -- next, and the last one to the first.
  pub run_init-ring :
      (lts : ℕ → Lthread) (bytes : ℕ → Bool) (stack_size page_size aux j : ℕ)
      → j ≤ aux
      → ((run_init lts bytes stack_size page_size aux).scheds j).sched_neighbor
        ≡ (if j == aux then 0 else j + 1)
  unfolding run_init link_schedulers allocate_pool sched_create
  run_init-ring lts bytes stack_size page_size aux j h =
      let w = allocate_pool lts bytes stack_size page_size (aux + 1) in
      let v = with_pool w (record (w.pool) { asleep = update w.pool.asleep 0 false }) in
      let u = with_sched v aux (record (v.scheds aux) { sched_neighbor = 0 }) in
      let rest = link-sched_neighbor aux 0 u j in ground arith
