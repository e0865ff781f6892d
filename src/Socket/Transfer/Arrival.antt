-- ===== src/Socket/Transfer/Arrival.antt =====
-- src/lthread_socket.c, LTHREAD_RECV: a call of lthread_recv returns.
use lthread_concurrent.Prelude.{
  ℕ, zero, suc, ◌≤◌, ◌<◌, ◌≡◌, inl, inr, some, List, arith, Bool-cases,
}
use Prim.Native.Nat.{bit_or}
use lthread_concurrent.Intrusive.{Intrusive}
use lthread_concurrent.Poller.{read}
use lthread_concurrent.Socket.{Errno, done, failed, Result, ok, error, eagain, Os, State, call}
use lthread_concurrent.Socket.Waiting.{Attends, wait_fd_returns, answer_cases, eagain_cases}
use lthread_concurrent.Socket.Transfer.{transfer_loop, lthread_recv}

module _ ⦃i : Intrusive⦄ (os : Os) (lt fd : ℕ) where
  -- recv(2) leaves the lthread ready, and blocks only while `blocks` says that it may. So does
  -- calloc(3).
  pub record Comes : Type 1 where
    pub attends : Attends os lt fd read
    pub recv_done :
        (s t : State os) (buf_len flags : ℕ) (bytes : List ℕ)
        → attends.IsReady s
        → call os (λ k. os.recv k fd buf_len flags) s ≡ (t, done bytes)
        → attends.IsReady t × (attends.blocks t.kernel ≤ attends.blocks s.kernel)
    pub recv_failed :
        (s t : State os) (buf_len flags : ℕ) (e : Errno)
        → attends.IsReady s
        → call os (λ k. os.recv k fd buf_len flags) s ≡ (t, failed e)
        → attends.IsReady t × (attends.blocks t.kernel ≤ attends.blocks s.kernel)
    pub recv_eagain :
        (s t : State os) (buf_len flags : ℕ)
        → call os (λ k. os.recv k fd buf_len flags) s ≡ (t, failed eagain)
        → 0 < attends.blocks t.kernel
    pub calloc :
        (s : State os) (size : ℕ)
        → attends.IsReady s
        → attends.IsReady (record s { kernel = (os.calloc s.kernel size).0 })
          × (attends.blocks (os.calloc s.kernel size).0 ≤ attends.blocks s.kernel)

  module _ (c : Comes) where
    recv_loop_returns :
        (n buf_len flags : ℕ) (s : State os)
        → c.attends.IsReady s
        → c.attends.blocks s.kernel < n
        → (t : State os) × (a : Result (List ℕ)) × (transfer_loop os lt n
              (λ k. os.recv k fd buf_len flags)
              fd
              read
              s
            ≡ some (t, a))
          × c.attends.IsReady t
          × (c.attends.blocks t.kernel ≤ c.attends.blocks s.kernel)
    unfolding transfer_loop
    recv_loop_returns zero buf_len flags s y l = absurd (omega arith)
    recv_loop_returns (suc n) buf_len flags s y l =
        let t = (call os (λ k. os.recv k fd buf_len flags) s).0 in
        elim (answer_cases (call os (λ k. os.recv k fd buf_len flags) s).1) [
          | inl (bytes, e) ↦
              let (y', less) = c.recv_done s t buf_len flags bytes y (ground arith) in
              (t, ok bytes, ground arith, y', less)
          | inr (x, e) ↦
              let (y', less) = c.recv_failed s t buf_len flags x y (ground arith) in
              elim (eagain_cases x) [
                | inr (other_error, stop) ↦ (t, error, ground arith, y', less)
                | inl (same, again) ↦
                    let more = c.recv_eagain s t buf_len flags (ground arith) in
                    let (u, b, p, z, fewer) = wait_fd_returns os lt fd read c.attends t y' more in
                    let (v, a, q, z', fewer') =
                      recv_loop_returns n buf_len flags u z (omega (arith, less, fewer, l)) in
                    elim (Bool-cases b) [
                      | inl is_open ↦ (v, a, ground arith, z', omega (arith, less, fewer, fewer'))
                      | inr hung_up ↦ (u, error, ground arith, z, omega (arith, less, fewer))
                    ]
              ]
        ]

    pub lthread_recv_returns :
        (n buf_len flags : ℕ) (s : State os)
        → c.attends.IsReady s
        → c.attends.blocks s.kernel < n
        → (t : State os) × (a : Result (List ℕ)) × (lthread_recv os lt n fd buf_len flags s
            ≡ some (t, a))
          × c.attends.IsReady t
          × (c.attends.blocks t.kernel ≤ c.attends.blocks s.kernel)
    unfolding lthread_recv
    lthread_recv_returns n buf_len flags s y l =
        recv_loop_returns n buf_len (bit_or flags os.msg_nosignal) s y l
