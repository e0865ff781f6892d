-- ===== src/Socket/Open.antt =====
-- src/lthread_socket.c: lthread_socket, lthread_pipe, lthread_close, lthread_accept and
-- lthread_connect, in the build for Linux. `none` is a failed assertion, or fuel that has run out.
pub mod Descriptors
pub mod Accepting
pub mod Listening
pub mod Connecting
use lthread_concurrent.Prelude.{
  ℕ, zero, suc, Bool, true, false, Option, none, some, ◌==◌, if◌then◌else◌,
}
use lthread_concurrent.Intrusive.{Intrusive}
use lthread_concurrent.Poller.{Event, read, write}
use lthread_concurrent.Socket.{
  Errno, Answer, done, failed, Result, ok, error, is_connecting, Reaction, wait_for, retry, give_up,
  accept_reaction, Os, State, call, wait_fd,
}

module _ ⦃i : Intrusive⦄ (os : Os) where
  open os use {Kernel}

  -- _lthread_unblock_fd, and whether it succeeds
  unfoldable pub unblock_fd : Kernel → (fd : ℕ) → Kernel × Bool
  unblock_fd k fd =
      let (k', set) = os.fcntl_nonblock k fd in
      if set then (k', true) else ((os.close k' fd).0, false)

  -- lthread_socket
  unfoldable pub lthread_socket : Kernel → (domain type protocol : ℕ) → Kernel × Result ℕ
  unfolding unblock_fd
  lthread_socket k domain type protocol =
      let (k', a) = os.socket k domain type protocol in
      elim a [
        | failed e ↦ (k', error)
        | done fd ↦ let (k'', set) = unblock_fd k' fd in (k'', if set then ok fd else error)
      ]

  -- lthread_close
  unfoldable pub lthread_close : Kernel → (fd : ℕ) → Kernel × Bool
  lthread_close k fd = os.close k fd

  -- The label `err` of lthread_pipe
  unfoldable pub close_both : Kernel → (fildes : ℕ × ℕ) → Kernel
  close_both k fildes = (os.close (os.close k fildes.0).0 fildes.1).0

  -- lthread_pipe
  unfoldable pub lthread_pipe : Kernel → Kernel × Result (ℕ × ℕ)
  unfolding close_both
  lthread_pipe k =
      let (k', a) = os.pipe k in
      elim a [
        | failed e ↦ (k', error)
        | done fildes ↦
            let (k0, set0) = os.fcntl_nonblock k' fildes.0 in
            let (k1, set1) = os.fcntl_nonblock k0 fildes.1 in
            if set0
            then (if set1 then (k1, ok fildes) else (close_both k1 fildes, error))
            else (close_both k0 fildes, error)
      ]

  -- The loop of lthread_accept, by the lthread `lt`
  unfoldable pub accept_loop : ℕ → (lt fd addr : ℕ) → State os → Option (State os × Result ℕ)
  accept_loop zero lt fd addr s = none
  accept_loop (suc n) lt fd addr s =
      let (t, a) = call os (λ k. os.accept k fd addr) s in
      elim a [
        | done new ↦ elim (new == 0) [
          | true ↦ accept_loop n lt fd addr t
          | false ↦ some (t, ok new)
        ]
        | failed e ↦ elim (accept_reaction e) [
          | give_up ↦ some (t, error)
          | retry ↦ accept_loop n lt fd addr t
          | wait_for ↦ elim (wait_fd os lt t fd read) [
            | none ↦ none
            | some (u, is_open) ↦ accept_loop n lt fd addr u
          ]
        ]
      ]

  -- lthread_accept
  unfoldable pub lthread_accept : ℕ → (lt fd addr : ℕ) → State os → Option (State os × Result ℕ)
  unfolding accept_loop unblock_fd
  lthread_accept n lt fd addr s = elim (accept_loop n lt fd addr s) [
    | none ↦ none
    | some (t, a) ↦ elim a [
      | error ↦ some (t, error)
      | ok new ↦
          let (k, set) = unblock_fd t.kernel new in
          some (record t { kernel = k }, if set then ok new else error)
    ]
  ]

  -- lthread_connect; the result is whether it is 0, and not -1.
  unfoldable pub lthread_connect : ℕ → (lt fd name : ℕ) → State os → Option (State os × Bool)
  lthread_connect zero lt fd name s = none
  lthread_connect (suc n) lt fd name s =
      let (t, a) = call os (λ k. os.connect k fd name) s in
      elim a [
        | done r ↦ some (t, true)
        | failed e ↦ elim (is_connecting e) [
          | false ↦ some (t, false)
          | true ↦ elim (wait_fd os lt t fd write) [
            | none ↦ none
            | some (u, is_open) ↦ lthread_connect n lt fd name u
          ]
        ]
      ]
