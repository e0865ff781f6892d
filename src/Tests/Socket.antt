-- ===== src/Tests/Socket.antt =====
-- The theorems on socket calls, applied to a system whose descriptor 3 blocks once.
use lthread_concurrent.Prelude.{
  ℕ, zero, suc, ◌+◌, ◌-◌, ◌≡◌, refl, sym, Bool, true, false, Option, none, some, List, [], ◌∷◌,
  ◌++◌, ◌||◌, length, arith, take, drop, take-all, length-take-le, ◌==◌, if◌then◌else◌,
}
use mathlib.Core.Path.{subst}
use lthread_concurrent.Intrusive.Lists.{lists}
use lthread_concurrent.State.{World, update}
use lthread_concurrent.Poller.{Event, read, write, event_key, end_wait_fd}
use lthread_concurrent.Socket.{
  eagain, enfile, other, einprogress, Answer, done, failed, Result, Os, State, Iovec,
}
use lthread_concurrent.Socket.Transfer.{
  transfer_loop, lthread_recv, readline_loop, lthread_readline, lthread_writev, Line, line,
}
use lthread_concurrent.Socket.Transfer.Received.{Receives, lthread_recv-Receives}
use lthread_concurrent.Socket.Waiting.{Attends}
use lthread_concurrent.Socket.Transfer.Arrival.{Comes}
use lthread_concurrent.Socket.Transfer.Stream.{Stream, Takes}
use lthread_concurrent.Intrusive.{find_key}
use lthread_concurrent.Poller.Waiting.{IsIdle, WaitInv}
use lthread_concurrent.Socket.Transfer.Memory.{Ledger}
use lthread_concurrent.Socket.Transfer.Readline.{ReadsLine, Keeps, lthread_readline-ReadsLine}
use lthread_concurrent.Socket.Transfer.Buffers.{bytes_of}
use lthread_concurrent.Socket.Transfer.Send.{Sink, Opens, Sends, lthread_writev-Sends}
use lthread_concurrent.Socket.Open.{lthread_socket, lthread_pipe}
use lthread_concurrent.Socket.Open.Descriptors.{Table, OpensOne, OpensTwo, no_descriptor_leaks}
use lthread_concurrent.Tests.Worlds.{quiet}

-- `busy` is how often the descriptor still blocks; `next` is the descriptor that the
-- next call gives, if it is closed.
pub record Machine : Type 0 where
  pub incoming : List ℕ
  pub taken : List ℕ
  pub sent : List ℕ
  pub busy : ℕ
  pub next : ℕ
  pub opened : ℕ → Bool
  pub nonblocking : ℕ → Bool
  pub held : ℕ → Bool

abbrev take_bytes : Machine → ℕ → Machine × Answer (List ℕ)
take_bytes m len = elim (m.busy) [
  | zero ↦ (
    record m { incoming = drop len m.incoming; taken = m.taken ++ take len m.incoming },
    done (take len m.incoming),
  )
  | suc n ↦ (m, failed eagain)
]

abbrev put_bytes : Machine → List Iovec → Machine × Answer ℕ
put_bytes m iov = elim (m.busy) [
  | zero ↦ (record m { sent = m.sent ++ bytes_of iov }, done (length (bytes_of iov)))
  | suc n ↦ (m, failed eagain)
]

abbrev open_one : Machine → Machine × Answer ℕ
open_one m =
    if m.opened m.next
    then (m, failed (other 12))
    else (record m { opened = update m.opened m.next true; next = m.next + 1 }, done m.next)

abbrev open_two : Machine → Machine × Answer (ℕ × ℕ)
open_two m =
    let a = m.next in
    let b = m.next + 1 in
    if m.opened a || m.opened b then (m, failed enfile) else (
      record m { opened = update (update m.opened a true) b true; next = m.next + 2 },
      done (a, b),
    )

-- There is one piece of memory.
abbrev get_memory : Machine → Machine × Option ℕ
get_memory m =
    if m.held 4096 then (m, none) else (record m { held = update m.held 4096 true }, some 4096)

abbrev pub pc : Os
pc = record {
  Kernel = Machine;
  msg_nosignal = 0x4000;
  recv = λ m fd len flags. take_bytes m len;
  read_bytes = λ m fd len. take_bytes m len;
  recvmsg = λ m fd message flags. take_bytes m 1;
  recvfrom = λ m fd len flags address. take_bytes m len;
  sendmsg = λ m fd message flags. (m, done 1);
  sendto = λ m fd buf len flags address. (m, done len);
  writev = λ m fd iov. put_bytes m iov;
  accept = λ m fd addr. elim (m.busy) [ zero ↦ open_one m | suc n ↦ (m, failed eagain) ];
  connect = λ m fd name. elim (m.busy) [ zero ↦ (m, done 0) | suc n ↦ (m, failed einprogress) ];
  socket = λ m domain type protocol. open_one m;
  pipe = λ m. open_two m;
  fcntl_nonblock = λ m fd. (record m { nonblocking = update m.nonblocking fd true }, true);
  close = λ m fd. (record m { opened = update m.opened fd false }, true);
  calloc = λ m size. get_memory m;
  free = λ m address. record m { held = update m.held address false };
  meanwhile = λ w m. (quiet, record m { busy = m.busy - 1 });
}

abbrev pub machine : Machine
machine = record {
  incoming = 104 ∷ 105 ∷ 10 ∷ 33 ∷ [];
  taken = [];
  sent = [];
  busy = 1;
  next = 4;
  opened = λ fd. fd == 3;
  nonblocking = λ fd. false;
  held = λ a. false;
}

abbrev pub start : State pc
start = record { world = quiet; kernel = machine }

abbrev pub awake : State pc
awake = record { world = quiet; kernel = record machine { busy = 0 } }

stream : Stream pc 3
stream = record {
  taken = λ m. m.taken;
  recv_done =
      λ m m' len flags bytes e. (ground arith, ground (arith, length-take-le len m.incoming));
  recv_failed = λ m m' len flags x e. ground arith;
  meanwhile = λ w m. refl;
  calloc = λ m size. ground arith;
  free = λ m address. refl;
}

-- The lthread is ready in the quiet world.
unfoldable pub attends : (ev : Event) → Attends pc 1 3 ev
unfolding end_wait_fd
attends ev = record {
  IsReady = λ s. s.world ≡ quiet;
  blocks = λ m. m.busy;
  idle = λ s q.
      subst
        (λ (w : World).
          IsIdle (w.lts 1) × (find_key (event_key 3 ev) w.pool.poller.waiting ≡ none) × WaitInv w)
        (sym q) ((refl, refl), refl, record { rising = tt; waits = tt; counted = refl });
  back = λ s w q l e. (refl, omega (arith, l));
}

nil_of_length : (xs : List ℕ) → length xs ≡ 0 → xs ≡ []
nil_of_length [] e = refl
nil_of_length (x ∷ xs) e = absurd (omega arith)

sink : Sink pc 3
sink = record {
  sent = λ m. m.sent;
  writev_done = λ m m' iov n e. (
    ground arith,
    ground (arith, take-all (length (bytes_of iov)) (bytes_of iov)),
    λ z. ground (arith, nil_of_length (bytes_of iov)),
  );
  writev_failed = λ m m' iov x e. ground arith;
  meanwhile = λ w m. refl;
}

opens : Opens pc 1 3
unfolding attends
opens = record {
  attends = attends write;
  writev_done = λ s t iov n y e. (ground arith, ground arith);
  writev_eagain = λ s t iov x y e again. (ground arith, ground arith, ground arith);
}

abbrev greeting : List Iovec
greeting = record { iov_base = 100; iov_len = 2 } ∷ record { iov_base = 200; iov_len = 1 } ∷ []

lthread_writev-Sends_example :
    (t : State pc) × (r : Result ℕ) × (lthread_writev pc 1 5 3 greeting start ≡ some (t, r))
    × Sends pc 1 3 sink opens greeting 0 start t r
unfolding opens attends
lthread_writev-Sends_example =
    lthread_writev-Sends pc 1 3 sink opens 5 greeting start refl (omega arith)

comes : Comes pc 1 3
unfolding attends
comes = record {
  attends = attends read;
  recv_done = λ s t len flags bytes y e. (ground arith, ground arith);
  recv_failed = λ s t len flags x y e. (ground arith, ground arith);
  recv_eagain = λ s t len flags e. ground arith;
  calloc = λ s size y. (ground arith, ground arith);
}

lthread_recv-Receives_example :
    (t : State pc) × (r : Result (List ℕ)) × (lthread_recv pc 1 2 3 8 0 start ≡ some (t, r))
    × Receives pc 1 3 8 0 start t r
    × Takes pc 1 3 stream 8 start t r
    × (t.world ≡ quiet)
unfolding comes attends
lthread_recv-Receives_example =
    lthread_recv-Receives pc 1 3 stream comes 2 8 0 start refl (omega arith)

ledger : Ledger pc 3
ledger = record {
  held = λ m. m.held;
  recv = λ m len flags x. ground arith;
  meanwhile = λ w m x. refl;
  calloc_some = λ m m' size a e. (ground (arith, e), λ x. ground (arith, e));
  calloc_none = λ m m' size e x. ground (arith, e);
  free = λ m a x. refl;
}

lthread_readline-ReadsLine_example :
    (t : State pc) × (l : Line) × (memory : Option ℕ) × (lthread_readline pc 1 2 3 8 start
      ≡ some (t, l, memory))
    × ReadsLine pc 1 3 stream 8 start t l
    × Keeps pc 1 3 stream ledger start t l memory
unfolding comes attends
lthread_readline-ReadsLine_example =
    lthread_readline-ReadsLine pc 1 3 stream 2 8 start comes ledger refl (omega arith)

-- The machine has a line for lthread_readline.
readline_hi :
    (elim (lthread_readline pc 1 1 3 8 awake) [ none ↦ none | some (t, l, memory) ↦ some l ])
    ≡ some (line (104 ∷ 105 ∷ 10 ∷ []))
unfolding lthread_readline readline_loop lthread_recv transfer_loop
readline_hi = refl

abbrev pub table : Table pc
table = record {
  is_open = λ m. m.opened;
  is_nonblocking = λ m. m.nonblocking;
  socket_done = λ m m' domain type protocol fd e. (ground arith, λ x. ground arith);
  socket_failed = λ m m' domain type protocol y e x. ground arith;
  pipe_done = λ m m' a b e. (ground arith, ground arith, ground arith, λ x. ground arith);
  pipe_failed = λ m m' y e x. ground arith;
  fcntl = λ m fd x. (refl, refl);
  close = λ m fd x. refl;
}

no_descriptor_leaks_example :
    ((m : Machine) × (r : Result ℕ) × (lthread_socket pc machine 2 1 0 ≡ (m, r))
      × OpensOne pc table machine m r)
    × ((m : Machine) × (r : Result (ℕ × ℕ)) × (lthread_pipe pc machine ≡ (m, r))
        × OpensTwo pc table machine m r)
no_descriptor_leaks_example = no_descriptor_leaks pc table machine 2 1 0
