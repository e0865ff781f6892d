-- ===== src/Socket/Transfer.antt =====
-- src/lthread_socket.c: LTHREAD_RECV and LTHREAD_SEND with the functions that they make,
-- lthread_readline and lthread_writev, by the lthread `lt`. `none` is a failed assertion, or fuel
-- that has run out: one unit is one system call.
pub mod Receive
pub mod Stream
pub mod Arrival
pub mod Received
pub mod Memory
pub mod Readline
pub mod Buffers
pub mod Send
use lthread_concurrent.Prelude.{
  ℕ, zero, suc, ◌+◌, ◌-◌, Bool, true, false, Option, none, some, List, [], ◌∷◌, ◌++◌, length, ◌==◌,
  ltb, if◌then◌else◌,
}
use Prim.Native.Nat.{bit_or}
use lthread_concurrent.Intrusive.{Intrusive}
use lthread_concurrent.Poller.{Event, read, write}
use lthread_concurrent.Socket.{
  Errno, Answer, done, failed, Result, ok, error, Iovec, is_eagain, Os, State, call, wait_fd,
}

-- How lthread_readline ends: with a line, at the end of the file, which is the result 0, or by an
-- error, which is -1.
pub data Line : Type 0 where
  line : List ℕ → Line
  closed broken : Line

module _ ⦃i : Intrusive⦄ (os : Os) (lt : ℕ) where
  open os use {Kernel}

  -- The loop of LTHREAD_RECV, for `read`, and of LTHREAD_SEND, for `write`, around a system call
  unfoldable pub transfer_loop {ℓ} :
      {A : Type ℓ}
      → ℕ
      → (Kernel → Kernel × Answer A)
      → (fd : ℕ) → Event
      → State os
      → Option (State os × Result A)
  transfer_loop zero f fd ev s = none
  transfer_loop (suc n) f fd ev s =
      let (t, a) = call os f s in
      elim a [
        | done x ↦ some (t, ok x)
        | failed e ↦ elim (is_eagain e) [
          | false ↦ some (t, error)
          | true ↦ elim (wait_fd os lt t fd ev) [
            | none ↦ none
            | some (u, is_open) ↦ elim is_open [
              | true ↦ transfer_loop n f fd ev u
              | false ↦ some (u, error)
            ]
          ]
        ]
      ]

  -- lthread_recv
  unfoldable pub lthread_recv :
      ℕ → (fd buf_len flags : ℕ) → State os → Option (State os × Result (List ℕ))
  unfolding transfer_loop
  lthread_recv n fd buf_len flags =
      transfer_loop n (λ k. os.recv k fd buf_len (bit_or flags os.msg_nosignal)) fd read

  -- lthread_read
  unfoldable pub lthread_read :
      ℕ → (fd buf_len : ℕ) → State os → Option (State os × Result (List ℕ))
  unfolding transfer_loop
  lthread_read n fd buf_len = transfer_loop n (λ k. os.read_bytes k fd buf_len) fd read

  -- lthread_recvmsg
  unfoldable pub lthread_recvmsg :
      ℕ → (fd message flags : ℕ) → State os → Option (State os × Result (List ℕ))
  unfolding transfer_loop
  lthread_recvmsg n fd message flags =
      transfer_loop n (λ k. os.recvmsg k fd message (bit_or flags os.msg_nosignal)) fd read

  -- lthread_recvfrom
  unfoldable pub lthread_recvfrom :
      ℕ → (fd buf_len flags address : ℕ) → State os → Option (State os × Result (List ℕ))
  unfolding transfer_loop
  lthread_recvfrom n fd buf_len flags address =
      transfer_loop n (λ k. os.recvfrom k fd buf_len (bit_or flags os.msg_nosignal) address) fd read

  -- lthread_sendmsg
  unfoldable pub lthread_sendmsg :
      ℕ → (fd message flags : ℕ) → State os → Option (State os × Result ℕ)
  unfolding transfer_loop
  lthread_sendmsg n fd message flags =
      transfer_loop n (λ k. os.sendmsg k fd message (bit_or flags os.msg_nosignal)) fd write

  -- lthread_sendto
  unfoldable pub lthread_sendto :
      ℕ → (fd buf buf_len flags dest_addr : ℕ) → State os → Option (State os × Result ℕ)
  unfolding transfer_loop
  lthread_sendto n fd buf buf_len flags dest_addr =
      transfer_loop n (λ k. os.sendto k fd buf buf_len (bit_or flags os.msg_nosignal) dest_addr) fd
        write

  -- The loop of lthread_readline with the bytes that it has so far, and how many rounds are left of
  -- `max`
  unfoldable pub readline_loop : ℕ → (fd rounds : ℕ) → List ℕ → State os → Option (State os × Line)
  readline_loop n fd zero got s = some (s, line got)
  readline_loop n fd (suc r) got s = elim (lthread_recv n fd 1 0 s) [
    | none ↦ none
    | some (t, a) ↦ elim a [
      | error ↦ some (t, broken)
      | ok bytes ↦ elim bytes [
        | [] ↦ some (t, closed)
        | b ∷ rest ↦ elim (b == 10) [
          | true ↦ some (t, line (got ++ b ∷ []))
          | false ↦ readline_loop n fd r (got ++ b ∷ []) t
        ]
      ]
    ]
  ]

  -- free(data), before a return without a line
  unfoldable pub free_line : State os → (address : ℕ) → State os
  free_line t address = record t { kernel = os.free t.kernel address }

  -- lthread_readline: the bytes of the line, and its address unless it has been freed
  unfoldable pub lthread_readline :
      ℕ → (fd max : ℕ) → State os → Option (State os × Line × Option ℕ)
  unfolding free_line
  lthread_readline n fd max s =
      let (k, memory) = os.calloc s.kernel (max + 1) in
      let s' : State os = record s { kernel = k } in
      elim memory [
        | none ↦ some (s', broken, none)
        | some address ↦ elim (readline_loop n fd max [] s') [
          | none ↦ none
          | some (t, l) ↦ elim l [
            | line bytes ↦ some (t, line bytes, some address)
            | closed ↦ some (free_line t address, closed, none)
            | broken ↦ some (free_line t address, broken, none)
          ]
        ]
      ]

-- The inner loop of lthread_writev: what is left of the array from `iov_index` on when `n` bytes of
-- it have been written.
unfoldable pub advance : ℕ → List Iovec → List Iovec
advance n [] = []
advance n (v ∷ vs) =
    let rest = advance (n - v.iov_len) vs in
    if n == 0
    then v ∷ vs
    else if ltb n v.iov_len
    then record { iov_base = v.iov_base + n; iov_len = v.iov_len - n } ∷ vs
    else rest

module _ ⦃i : Intrusive⦄ (os : Os) (lt : ℕ) where
  -- The loop of lthread_writev over the array from `iov_index` on
  unfoldable pub writev_loop :
      ℕ → (fd : ℕ) → (iov : List Iovec) → (total : ℕ) → State os → Option (State os × Result ℕ)
  unfolding advance
  writev_loop zero fd iov total s = none
  writev_loop (suc f) fd iov total s =
      let (t, a) = call os (λ k. os.writev k fd iov) s in
      elim a [
        | done n ↦ elim (n == 0) [
          | true ↦ some (t, ok 0)
          | false ↦ elim (advance n iov) [
            | [] ↦ some (t, ok (total + n))
            | v ∷ vs ↦ writev_loop f fd (v ∷ vs) (total + n) t
          ]
        ]
        | failed e ↦ elim (is_eagain e) [
          | false ↦ some (t, error)
          | true ↦ elim (wait_fd os lt t fd write) [
            | none ↦ none
            | some (u, is_open) ↦ elim iov [
              | [] ↦ some (u, ok total)
              | v ∷ vs ↦ writev_loop f fd (v ∷ vs) total u
            ]
          ]
        ]
      ]

  -- lthread_writev
  unfoldable pub lthread_writev :
      ℕ → (fd : ℕ) → List Iovec → State os → Option (State os × Result ℕ)
  lthread_writev f fd iov s = writev_loop f fd iov 0 s
