-- ===== src/Tests/Opening.antt =====
-- The theorems on lthread_accept and lthread_connect, applied to the system of Tests.Socket, whose
-- descriptor 3 blocks once.
use lthread_concurrent.Prelude.{ℕ, ◌≡◌, refl, Bool, true, false, some, arith, ◌==◌, ◌||◌}
use lthread_concurrent.Intrusive.Lists.{lists}
use lthread_concurrent.Poller.{read, write}
use lthread_concurrent.Socket.{Result, ok, State}
use lthread_concurrent.Socket.Open.{lthread_accept}
use lthread_concurrent.Socket.Open.Descriptors.{OpensOne}
use lthread_concurrent.Socket.Open.Accepting.{AcceptLaws, Tried, Answers, lthread_accept_leaks_zero}
use lthread_concurrent.Socket.Open.Listening.{Listens, lthread_accept-OpensOne}
use lthread_concurrent.Socket.Open.Connecting.{Dials}
use lthread_concurrent.Tests.Socket.{pc, machine, start, table, attends}

accept_laws : AcceptLaws pc 1 3 0 table
accept_laws = record {
  accept_done = λ m m' new e. (ground arith, λ x. ground arith);
  accept_failed = λ m m' y e x. ground arith;
}

listens : Listens pc 1 3 0 table
unfolding attends
listens = record {
  attends = attends read;
  accept_ready = λ s t a y e. (ground arith, ground arith);
  accept_shortage = λ s t e y p short. ground arith;
  accept_aborted = λ s t y p. ground arith;
  meanwhile = λ w m x. refl;
}

-- The first call would block.
abbrev listening : State pc
listening = record start { kernel = record machine { opened = λ fd. fd == 3 || fd == 0 } }

lthread_accept-OpensOne_example :
    (u : State pc) × (r : Result ℕ) × (lthread_accept pc 2 1 3 0 listening ≡ some (u, r))
    × OpensOne pc table listening.kernel u.kernel r
    × (t : State pc) × Tried pc 1 3 0 listening t
    × Answers pc 1 3 0 t r
unfolding listens attends
lthread_accept-OpensOne_example =
    lthread_accept-OpensOne pc 1 3 0 table accept_laws listens 2 listening refl refl (omega arith)

-- No descriptor is open but 3.
abbrev all_closed : State pc
all_closed = record start { kernel = record machine { busy = 0; next = 0 } }

lthread_accept_leaks_zero_example :
    (u : State pc) × (r : Result ℕ) × (lthread_accept pc 2 1 3 0 all_closed ≡ some (u, r))
    × (r ≡ ok 1)
    × (◌≡◌ {A = Bool} false false)
    × (u.kernel.opened 0 ≡ true)
lthread_accept_leaks_zero_example =
    lthread_accept_leaks_zero pc 1 3 0 table accept_laws 0 1 {s = all_closed} refl refl (λ e. cc)

dials : Dials pc 1 3 0
unfolding attends
dials = record {
  attends = attends write;
  connect_ready = λ s t a y e. (ground arith, ground arith);
  connect_under_way = λ s t e y p way. ground arith;
}
