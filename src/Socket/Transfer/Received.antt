-- ===== src/Socket/Transfer/Received.antt =====
-- src/lthread_socket.c: lthread_recv, from its call to its result.
use lthread_concurrent.Prelude.{ℕ, ◌<◌, ◌≡◌, some, List}
use Prim.Native.Nat.{bit_or}
use lthread_concurrent.Intrusive.{Intrusive}
use lthread_concurrent.Poller.{read}
use lthread_concurrent.Socket.{Result, Os, State}
use lthread_concurrent.Socket.Transfer.{lthread_recv}
use lthread_concurrent.Socket.Transfer.Receive.{Retried, Ends, transfer_loop-Retried}
use lthread_concurrent.Socket.Transfer.Stream.{Stream, Takes, lthread_recv-Takes}
use lthread_concurrent.Socket.Transfer.Arrival.{Comes, lthread_recv_returns}

module _ ⦃i : Intrusive⦄ (os : Os) (lt fd : ℕ) where
  -- How the result came about: after some calls that failed with EAGAIN and were waited for, by a last
  -- one
  pub record Receives (buf_len flags : ℕ) (s t : State os) (r : Result (List ℕ)) : Type 0 where
    pub retries : ℕ
    pub last : State os
    pub retried :
        Retried os lt
          (λ k. os.recv k fd buf_len (bit_or flags os.msg_nosignal))
          fd
          read
          retries
          s
          last
    pub ends :
        Ends os lt (λ k. os.recv k fd buf_len (bit_or flags os.msg_nosignal)) fd read last t r

  -- Let nobody else read from the descriptor, let it block a bounded number of times, at most while
  -- it fails with EAGAIN, and let the lthread be ready, and be so again after each wait, while nobody
  -- else waits to read. With more fuel than times to block, lthread_recv returns. It has called recv
  -- with the flag MSG_NOSIGNAL; each call that failed with EAGAIN was followed by a wait for the
  -- descriptor, and the last call succeeded, or it failed with another error, or it failed with EAGAIN
  -- and its wait ended with the end of the file. In the first case the result is what that call gave,
  -- which is the next bytes of the stream, at most `buf_len`, and nothing else has been taken from
  -- the stream; in the others it is -1, and nothing has been taken.
  pub lthread_recv-Receives :
      (c : Stream os fd) (h : Comes os lt fd) (n buf_len flags : ℕ) (s : State os)
      → h.attends.IsReady s
      → h.attends.blocks s.kernel < n
      → (t : State os) × (r : Result (List ℕ)) × (lthread_recv os lt n fd buf_len flags s
          ≡ some (t, r))
        × Receives buf_len flags s t r
        × Takes os lt fd c buf_len s t r
        × h.attends.IsReady t
  unfolding lthread_recv
  lthread_recv-Receives c h n buf_len flags s y l =
      let (t, r, e, y', less) = lthread_recv_returns os lt fd h n buf_len flags s y l in
      let (k, u, l', m, d) =
        transfer_loop-Retried os lt n (λ k. os.recv k fd buf_len (bit_or flags os.msg_nosignal)) fd
          read e in
      (
        t,
        r,
        e,
        record { retries = k; last = u; retried = m; ends = d },
        lthread_recv-Takes os lt fd c n buf_len flags s t r e,
        y',
      )
