-- ===== src/Sched/Pool.antt =====
-- src/lthread.c: lthread_run up to the start of its threads, and the choice of a scheduler for an
-- lthread. Schedulers are numbered as in the array of lthread_run. Its call of calloc for them, and
-- those of _lthread_sched_create, succeed.
pub mod Ring
use lthread_concurrent.Prelude.{
  ℕ, zero, suc, ◌+◌, ◌-◌, ◌*◌, Bool, false, Option, none, some, ◌==◌, ltb, if◌then◌else◌,
}
use lthread_concurrent.Intrusive.{Intrusive}
use lthread_concurrent.State.{
  Lthread, Sched, Poller, World, will_block, update, with_sched, with_pool,
}
use lthread_concurrent.Sched.Ready.{sched_push_ready_unsafe}
use lthread_concurrent.Sched.Switch.{create}

-- MAX_STACK_SIZE
abbrev pub max_stack_size : ℕ
max_stack_size = 8 * 1024 * 1024

module _ ⦃i : Intrusive⦄ where
  open i use {tailq_init, rb_init}

  -- _lthread_sched_create. Scheduler 0 stands for the null pointer of `sched_neighbor` here, until the
  -- ring is closed.
  unfoldable pub sched_create : (stack_size page_size id : ℕ) → Sched
  sched_create stack_size page_size id = record {
    id = id;
    stack_size = stack_size;
    page_size = page_size;
    default_timeout = 3000000;
    current_lthread = none;
    sched_neighbor = 0;
    block_state = will_block;
    sleeping = rb_init;
    ready = tailq_init;
    signalled = false;
  }

  -- lthread_poller_init
  unfoldable pub poller_init : Poller
  poller_init = record { waiting = rb_init; num_pending_events = 0 }

  -- The second loop of lthread_run, with the number of rounds left
  unfoldable pub link_schedulers : (rounds i last : ℕ) → World → World
  link_schedulers zero i last w = w
  link_schedulers (suc r) i last w =
      let v = with_pool w (record (w.pool) { asleep = update w.pool.asleep i false }) in
      link_schedulers r (i + 1) i
        (with_sched v last (record (v.scheds last) { sched_neighbor = i }))

  -- What lthread_run allocates: `bytes` is what malloc finds in `asleep`, which ends at
  -- `num_schedulers`.
  unfoldable pub allocate_pool :
      (lts : ℕ → Lthread) (bytes : ℕ → Bool) (stack_size page_size num_schedulers : ℕ) → World
  unfolding sched_create poller_init
  allocate_pool lts bytes stack_size page_size n = record {
    lts = lts;
    scheds = sched_create (if stack_size == 0 then max_stack_size else stack_size) page_size;
    pool = record {
      asleep = λ k. if ltb k n then bytes k else false;
      num_schedulers = n;
      next = 0;
      poller = poller_init;
    };
  }

  -- lthread_run up to lthread_spawn
  unfoldable pub run_init :
      (lts : ℕ → Lthread) (bytes : ℕ → Bool) (stack_size page_size num_aux_threads : ℕ) → World
  unfolding link_schedulers allocate_pool
  run_init lts bytes stack_size page_size aux =
      link_schedulers (aux + 1) 0 aux (allocate_pool lts bytes stack_size page_size (aux + 1))

  -- and up to the start of the threads; `mem` is the address of the first lthread.
  unfoldable pub run_start :
      (lts : ℕ → Lthread) (bytes : ℕ → Bool)
      → (stack_size page_size num_aux_threads mem main_func main_arg : ℕ) → World
  unfolding run_init create
  run_start lts bytes stack_size page_size aux mem fun arg =
      (create (run_init lts bytes stack_size page_size aux) (some 0) (some mem) fun arg).0

  -- _lthread_pool_get_next; `sched_neighbor` is never null once the ring is closed.
  unfoldable pub pool_get_next : World → World × ℕ
  pool_get_next w =
      let next = w.pool.next in
      (with_pool w (record (w.pool) { next = (w.scheds next).sched_neighbor }), next)

  -- _lthread_pool_push_ready
  unfoldable pub pool_push_ready : World → ℕ → World
  unfolding pool_get_next sched_push_ready_unsafe
  pool_push_ready w lt = let (w', s) = pool_get_next w in sched_push_ready_unsafe w' s lt
