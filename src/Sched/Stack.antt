-- ===== src/Sched/Stack.antt =====
-- src/lthread.c, compiled with USE_MINICORO 0: the structures and stacks of lthreads, which a
-- scheduler keeps for the next lthread. The system's calls are a parameter.
pub mod Cache
use lthread_concurrent.Prelude.{
  ℕ, ◌+◌, ◌-◌, ◌*◌, ◌/◌, ◌%◌, ◌^◌, Bool, true, false, ◌&&◌, Option, none, some, List, [], ◌∷◌,
  length, ltb, leb, if◌then◌else◌,
}
use lthread_concurrent.State.{Lthread, update}
use lthread_concurrent.Sched.Switch.{allocate}

-- LTHREAD_MMAP_MIN and LTHREAD_CACHE_SIZE
abbrev pub mmap_min : ℕ
mmap_min = 1024 * 1024

abbrev pub cache_capacity : ℕ
cache_capacity = 32

pub record Memory : Type 1 where
  pub Kernel : Type 0
  pub errno : Kernel → ℕ
  pub page_size : ℕ
  -- calloc of a struct lthread
  pub calloc : Kernel → Kernel × Option ℕ
  -- the address, or MAP_FAILED, for which the code does not ask
  pub mmap : Kernel → (size : ℕ) → Kernel × ℕ
  pub posix_memalign : Kernel → (alignment size : ℕ) → Kernel × Option ℕ
  pub munmap : Kernel → (address size : ℕ) → Kernel
  pub free : Kernel → (address : ℕ) → Kernel
  pub madvise : Kernel → (address size : ℕ) → Kernel

-- struct lthread with the fields of its stack
pub record Thread : Type 0 where
  pub base : Lthread
  pub stack : ℕ
  pub sp : ℕ
  pub stack_size : ℕ
  pub last_stack_size : ℕ

-- memset to 0 with the stack kept; a null `sched` is 0 here.
abbrev pub blank : (stack stack_size : ℕ) → Thread
blank stack stack_size = record {
  base = allocate 0;
  stack = stack;
  sp = 0;
  stack_size = stack_size;
  last_stack_size = 0;
}

module _ (os : Memory) where
  open os use {Kernel}

  -- lthread_cache[0 .. lthread_cache_size) of each scheduler, the last one first
  pub record Threads : Type 0 where
    pub kernel : Kernel
    pub threads : ℕ → Thread
    pub lthread_cache : ℕ → List ℕ

  -- `lt->sched = sched; *new_lt = lt;`
  unfoldable pub hand_out : Threads → (lt s : ℕ) → Threads
  hand_out x lt s =
      let t = x.threads lt in
      record x { threads = update x.threads lt (record t { base = record (t.base) { sched = s } }) }

  -- The stack of a new lthread: its address, or a failure
  unfoldable pub new_stack : Kernel → (stack_size : ℕ) → Kernel × Option ℕ
  new_stack k stack_size =
      let (mapped, address) = os.mmap k stack_size in
      if leb mmap_min stack_size
      then (mapped, some address)
      else os.posix_memalign k os.page_size stack_size

  -- _lthread_allocate for scheduler `s`, with the result and `*new_lt`
  unfoldable pub allocate_cached : Threads → (s stack_size : ℕ) → Threads × ℕ × Option ℕ
  unfolding hand_out new_stack
  allocate_cached x s stack_size = elim (x.lthread_cache s) [
    | lt ∷ rest ↦
        (hand_out (record x { lthread_cache = update x.lthread_cache s rest }) lt s, 0, some lt)
    | [] ↦
        let (k, memory) = os.calloc x.kernel in
        elim memory [
          | none ↦ (record x { kernel = k }, os.errno k, none)
          | some lt ↦
              let (k', stack) = new_stack k stack_size in
              elim stack [
                | none ↦ let k'' = os.free k' lt in (record x { kernel = k'' }, os.errno k'', none)
                | some address ↦
                    let x' = record x {
                      kernel = k';
                      threads = update x.threads lt (blank address stack_size);
                    } in
                    (hand_out x' lt s, 0, some lt)
              ]
        ]
  ]

  -- _lthread_free
  unfoldable pub free_cached : Threads → (lt : ℕ) → Threads
  free_cached x lt =
      let t = x.threads lt in
      let s = t.base.sched in
      if ltb (length (x.lthread_cache s)) cache_capacity
      then record x {
        lthread_cache = update x.lthread_cache s (lt ∷ x.lthread_cache s);
        threads = update x.threads lt (blank t.stack t.stack_size);
      }
      else record x {
        kernel =
            os.free
              (if leb mmap_min t.stack_size
                then os.munmap x.kernel t.stack t.stack_size
                else os.free x.kernel t.stack)
              lt;
      }

  -- _lthread_madvise; `none` is a failed assertion.
  unfoldable pub madvise_stack : Threads → (lt : ℕ) → Option Threads
  madvise_stack x lt =
      let t = x.threads lt in
      let current = (t.stack + t.stack_size + 2 ^ 64 - t.sp) % 2 ^ 64 in
      let pages = (t.stack_size - current) / os.page_size in
      if leb current t.stack_size
      then some (
          if ltb current t.last_stack_size && ltb os.page_size (t.last_stack_size - current)
          then record x {
            kernel = os.madvise x.kernel t.stack (pages * os.page_size);
            threads = update x.threads lt (record t { last_stack_size = current });
          }
          else x)
      else none
