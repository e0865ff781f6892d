-- ===== src/Socket/Transfer/Stream.antt =====
-- src/lthread_socket.c: the bytes that lthread_recv takes from a descriptor.
use lthread_concurrent.Prelude.{
  ℕ, ◌≤◌, ◌≡◌, refl, inl, inr, Bool, true, false, some, List, ◌++◌, length, arith, Option-cases,
}
use Prim.Native.Nat.{bit_or}
use lthread_concurrent.Intrusive.{Intrusive}
use lthread_concurrent.State.{World}
use lthread_concurrent.Poller.{Event, read, begin_wait_fd}
use lthread_concurrent.Socket.{eagain, Errno, done, failed, Result, ok, error, Os, State, wait_fd}
use lthread_concurrent.Socket.Transfer.{lthread_recv}
use lthread_concurrent.Socket.Transfer.Receive.{
  Retried, now, later, Ends, answered, refused, hung_up, transfer_loop-Retried,
}

module _ ⦃i : Intrusive⦄ (os : Os) where
  open os use {Kernel}

  -- What recv(2) does with a stream: `taken` is what has been read from `fd` so far. No other lthread
  -- reads from it.
  pub record Stream (fd : ℕ) : Type 0 where
    pub taken : Kernel → List ℕ
    pub recv_done :
        (k k' : Kernel) (buf_len flags : ℕ) (bytes : List ℕ)
        → os.recv k fd buf_len flags ≡ (k', done bytes)
        → (taken k' ≡ taken k ++ bytes) × (length bytes ≤ buf_len)
    pub recv_failed :
        (k k' : Kernel) (buf_len flags : ℕ) (e : Errno)
        → os.recv k fd buf_len flags ≡ (k', failed e)
        → taken k' ≡ taken k
    pub meanwhile : (w : World) (k : Kernel) → taken (os.meanwhile w k).1 ≡ taken k
    pub calloc : (k : Kernel) (size : ℕ) → taken (os.calloc k size).0 ≡ taken k
    pub free : (k : Kernel) (address : ℕ) → taken (os.free k address) ≡ taken k

  module _ (lt fd : ℕ) (c : Stream fd) where
    wait_taken :
        (s t : State os) (ev : Event) (is_open : Bool)
        → wait_fd os lt s fd ev ≡ some (t, is_open)
        → c.taken t.kernel ≡ c.taken s.kernel
    unfolding wait_fd
    wait_taken s t ev is_open e = elim (Option-cases (begin_wait_fd s.world lt fd ev)) [
      | inl failing ↦ absurd (ground arith)
      | inr (w, b) ↦ ground (arith, c.meanwhile w s.kernel)
    ]

    -- What a call of lthread_recv takes
    abbrev pub Takes : (buf_len : ℕ) → State os → State os → Result (List ℕ) → Type 0
    Takes buf_len s t (ok bytes) =
        (c.taken t.kernel ≡ c.taken s.kernel ++ bytes) × (length bytes ≤ buf_len)
    Takes buf_len s t error = c.taken t.kernel ≡ c.taken s.kernel

    retried_taken :
        (buf_len flags k : ℕ) {s t : State os}
        → Retried os lt (λ k. os.recv k fd buf_len flags) fd read k s t
        → c.taken t.kernel ≡ c.taken s.kernel
    retried_taken buf_len flags k now = refl
    retried_taken buf_len flags k (later {s = s} {t = t} {u = u} p w r) =
        let rest = retried_taken buf_len flags _ r in
        ground
          (arith, c.recv_failed s.kernel t.kernel buf_len flags eagain, wait_taken t u read true w)

    Ends-Takes :
        (buf_len flags : ℕ) {s t : State os} {a : Result (List ℕ)}
        → Ends os lt (λ k. os.recv k fd buf_len flags) fd read s t a
        → Takes buf_len s t a
    Ends-Takes buf_len flags {s} {t} (answered {a = bytes} p) =
        ground (arith, c.recv_done s.kernel t.kernel buf_len flags bytes)
    Ends-Takes buf_len flags {s} {t} (refused e p q) =
        ground (arith, c.recv_failed s.kernel t.kernel buf_len flags e)
    Ends-Takes buf_len flags {s} (hung_up {t = t} {u = u} p w) =
        ground
          (arith, c.recv_failed s.kernel t.kernel buf_len flags eagain, wait_taken t u read false w)

    pub lthread_recv-Takes :
        (n buf_len flags : ℕ) (s t : State os) (a : Result (List ℕ))
        → lthread_recv os lt n fd buf_len flags s ≡ some (t, a)
        → Takes buf_len s t a
    unfolding lthread_recv
    lthread_recv-Takes n buf_len flags s t a e =
        let with_flag = bit_or flags os.msg_nosignal in
        let (k, u, l, m, d) =
          transfer_loop-Retried os lt n (λ k. os.recv k fd buf_len with_flag) fd read e in
        started u a (retried_taken buf_len with_flag k m) (Ends-Takes buf_len with_flag d)
      where
        started :
            (u : State os) (a : Result (List ℕ))
            → c.taken u.kernel ≡ c.taken s.kernel
            → Takes buf_len u t a
            → Takes buf_len s t a
        started u (ok bytes) e h = ground arith
        started u error e h = ground arith
