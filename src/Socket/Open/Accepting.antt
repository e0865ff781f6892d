-- ===== src/Socket/Open/Accepting.antt =====
-- src/lthread_socket.c: lthread_accept, its last call of accept and what it leaves open.
use lthread_concurrent.Prelude.{
  ℕ, suc, ◌≡◌, ◌≢◌, refl, inl, inr, ◌⊎◌, Bool, true, false, some, arith, Bool-cases, if◌then◌else◌,
}
use lthread_concurrent.Intrusive.{Intrusive}
use lthread_concurrent.State.{update}
use lthread_concurrent.Poller.{read}
use lthread_concurrent.Socket.{
  Errno, eagain, enfile, emfile, econnaborted, done, failed, Result, ok, error, Os, State, call,
  wait_fd,
}
use lthread_concurrent.Socket.Open.{accept_loop, lthread_accept, unblock_fd}
use lthread_concurrent.Socket.Open.Descriptors.{Table, OpensOne}

-- The errors that lthread_accept takes for a reason to wait: no connection, or no descriptor left
abbrev pub IsShortage : Errno → Type 0
IsShortage e = (e ≡ eagain) ⊎ ((e ≡ enfile) ⊎ (e ≡ emfile))

-- The errors that end it
abbrev pub IsFatal : Errno → Type 0
IsFatal e = (e ≢ eagain) × (e ≢ enfile) × (e ≢ emfile) × (e ≢ econnaborted)

module _ ⦃i : Intrusive⦄ (os : Os) (lt fd addr : ℕ) where
  open os use {Kernel}

  -- Calls of accept in a row that bring nothing: the system has no connection or no descriptor left,
  -- and the lthread waits; or the connection is aborted.
  pub data Tried : State os → State os → Type 0 where
    now : {s : State os} → Tried s s
    waited :
        {s t u v : State os} (e : Errno) (is_open : Bool)
        → call os (λ k. os.accept k fd addr) s ≡ (t, failed e)
        → IsShortage e
        → wait_fd os lt t fd read ≡ some (u, is_open)
        → Tried u v
        → Tried s v
    aborted :
        {s t v : State os}
        → call os (λ k. os.accept k fd addr) s ≡ (t, failed econnaborted)
        → Tried t v
        → Tried s v

  -- The last call of accept: a connection comes, or it fails with an error that ends the loop.
  pub data Accepts (s : State os) : State os → Result ℕ → Type 0 where
    accepted :
        {t : State os} (new : ℕ)
        → call os (λ k. os.accept k fd addr) s ≡ (t, done new)
        → new ≢ 0
        → Accepts s t (ok new)
    refused :
        {t : State os} (e : Errno)
        → call os (λ k. os.accept k fd addr) s ≡ (t, failed e)
        → IsFatal e
        → Accepts s t error

  -- What lthread_accept makes of that: the descriptor of the connection, if fcntl can make it not to
  -- block, and -1 otherwise.
  abbrev pub Answers : State os → Result ℕ → Type 0
  Answers t r =
      (v : State os) × (a : Result ℕ) × Accepts t v a
      × (r ≡ (elim a [
        | error ↦ error
        | ok new ↦ if (os.fcntl_nonblock v.kernel new).1 then ok new else error
      ]))

  module _ (c : Table os) where
    -- What accept(2) does with the table of descriptors
    pub record AcceptLaws : Type 0 where
      pub accept_done :
          (k k' : Kernel) (new : ℕ)
          → os.accept k fd addr ≡ (k', done new)
          → (c.is_open k new ≡ false) × ((x : ℕ) → c.is_open k' x ≡ update (c.is_open k) new true x)
      pub accept_failed :
          (k k' : Kernel) (e : Errno)
          → os.accept k fd addr ≡ (k', failed e)
          → (x : ℕ) → c.is_open k' x ≡ c.is_open k x

    -- The end of lthread_accept, after the loop
    pub loop-OpensOne :
        AcceptLaws
        → (n : ℕ) (s : State os) {t v : State os} {a : Result ℕ}
        → accept_loop os n lt fd addr s ≡ some (v, a)
        → Accepts t v a
        → (u : State os) × (r : Result ℕ) × (lthread_accept os n lt fd addr s ≡ some (u, r))
          × OpensOne os c t.kernel u.kernel r
          × Answers t r
    unfolding lthread_accept
    loop-OpensOne laws n s {t} {v} looped (refused e p q) = (
      v,
      error,
      ground (arith, looped),
      (λ x. laws.accept_failed t.kernel v.kernel e (ground arith) x),
      (v, error, refused e p q, refl),
    )
    loop-OpensOne laws n s {t} {v} looped (accepted new p d) =
        let (fresh, opened) = laws.accept_done t.kernel v.kernel new (ground arith) in
        let j = (os.fcntl_nonblock v.kernel new).0 in
        elim (Bool-cases (os.fcntl_nonblock v.kernel new).1) [
          | inl set ↦ (
            record v { kernel = j },
            ok new,
            unfold unblock_fd in ground (arith, looped),
            (
              fresh,
              ground (arith, c.fcntl v.kernel new new),
              λ x. ground (arith, c.fcntl v.kernel new x, opened x),
            ),
            (v, ok new, accepted new p d, ground arith),
          )
          | inr unset ↦ (
            record v { kernel = (os.close j new).0 },
            error,
            unfold unblock_fd in ground (arith, looped),
            (λ x. ground (arith, c.close j new x, c.fcntl v.kernel new x, opened x, opened new)),
            (v, ok new, accepted new p d, ground arith),
          )
        ]

    -- If accept answers with the descriptor 0, by what its manual page says, and with another one in
    -- the call after that, lthread_accept leaves 0 open, which was closed before, and its result is the
    -- second descriptor, or -1 if fcntl fails for it.
    pub lthread_accept_leaks_zero :
        AcceptLaws
        → (n new : ℕ) {s t v : State os} → call os (λ k. os.accept k fd addr) s ≡ (t, done 0)
        → call os (λ k. os.accept k fd addr) t ≡ (v, done new)
        → new ≢ 0
        → (u : State os) × (r : Result ℕ) × (lthread_accept os (suc (suc n)) lt fd addr s
            ≡ some (u, r))
          × (r ≡ (if (os.fcntl_nonblock v.kernel new).1 then ok new else error))
          × (c.is_open s.kernel 0 ≡ false)
          × (c.is_open u.kernel 0 ≡ true)
    unfolding accept_loop lthread_accept
    lthread_accept_leaks_zero laws n new {s} {t} {v} p q d =
        let (closed, opened) = laws.accept_done s.kernel t.kernel 0 (ground arith) in
        let (fresh, opened') = laws.accept_done t.kernel v.kernel new (ground arith) in
        let (j, set) = os.fcntl_nonblock v.kernel new in
        let looped : accept_loop os (suc (suc n)) lt fd addr s ≡ some (v, ok new) = ground arith in
        let still : c.is_open j 0 ≡ true =
          ground (arith, c.fcntl v.kernel new 0, opened' 0, opened 0) in
        elim (Bool-cases (os.fcntl_nonblock v.kernel new).1) [
          | inl able ↦ (
            record v { kernel = j },
            ok new,
            unfold unblock_fd in ground (arith, looped),
            ground arith,
            closed,
            still,
          )
          | inr unable ↦ (
            record v { kernel = (os.close j new).0 },
            error,
            unfold unblock_fd in ground (arith, looped),
            ground arith,
            closed,
            ground (arith, c.close j new 0, still),
          )
        ]
