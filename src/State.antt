-- ===== src/State.antt =====
-- src/lthread_int.h, src/lthread_poller.h: the state of lthreads, schedulers, poller and pool.
-- Lthreads and schedulers are numbers, and a pointer to one is its number. `state` is a word of
-- bits in the source, one for each constant of `enum lthread_st`: a flag for each here. `fd_wait`
-- is the bit pattern of an int16_t.
use lthread_concurrent.Prelude.{ℕ, Bool, Option, ◌==◌, if◌then◌else◌}
use lthread_concurrent.Intrusive.{Intrusive}

-- enum lthread_st, as the set of its bits.
pub record Flags : Type 0 where
  pub wait_read : Bool
  pub wait_write : Bool
  pub exited : Bool
  pub sleeping : Bool
  pub fdeof : Bool

-- struct lthread; `allocated` says that it is in use: neither freed, nor kept in a scheduler's cache
-- for an lthread to come.
pub record Lthread : Type 0 where
  pub fun : ℕ
  pub arg : ℕ
  pub state : Flags
  pub sched : ℕ
  pub fd_wait : ℕ
  pub sleep_usecs : ℕ
  pub is_blocked : Bool
  pub is_running : Bool
  pub needs_resched : Bool
  pub allocated : Bool

-- lthread_sched_block_state_t
pub data BlockState : Type 0 where
  will_block wont_block is_blocking : BlockState

-- One entry of a table changed.
abbrev pub update {ℓ} : {A : Type ℓ} (table : ℕ → A) (at : ℕ) (x : A) (k : ℕ) → A
update table at x k = if at == k then x else table k

module _ ⦃i : Intrusive⦄ where
  open i use {Tailq, Tree}

  -- struct lthread_sched; `signalled` is the state of `cond`: its waiter has been woken.
  pub record Sched : Type 0 where
    pub id : ℕ
    pub stack_size : ℕ
    pub page_size : ℕ
    pub default_timeout : ℕ
    pub current_lthread : Option ℕ
    pub sched_neighbor : ℕ
    pub block_state : BlockState
    pub sleeping : Tree
    pub ready : Tailq
    pub signalled : Bool

  -- lthread_poller_t
  pub record Poller : Type 0 where
    pub waiting : Tree
    pub num_pending_events : ℕ

  -- lthread_pool_state_t
  pub record Pool : Type 0 where
    pub asleep : ℕ → Bool
    pub num_schedulers : ℕ
    pub next : ℕ
    pub poller : Poller

  pub record World : Type 0 where
    pub lts : ℕ → Lthread
    pub scheds : ℕ → Sched
    pub pool : Pool

  abbrev pub with_lt : World → ℕ → Lthread → World
  with_lt w lt l = record w { lts = update w.lts lt l }

  abbrev pub with_sched : World → ℕ → Sched → World
  with_sched w s x = record w { scheds = update w.scheds s x }

  abbrev pub with_pool : World → Pool → World
  with_pool w p = record w { pool = p }
