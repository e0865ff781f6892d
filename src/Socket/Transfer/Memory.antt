-- ===== src/Socket/Transfer/Memory.antt =====
-- src/lthread_socket.c, lthread_readline: the memory that the lthread holds.
use lthread_concurrent.Prelude.{
  ℕ, zero, suc, ◌≡◌, refl, ◌∙◌, inl, inr, Bool, true, false, none, some, List, [], ◌∷◌, ◌++◌, arith,
  Option-cases, ◌==◌, if◌then◌else◌,
}
use Prim.Native.Nat.{bit_or}
use lthread_concurrent.Intrusive.{Intrusive}
use lthread_concurrent.State.{World}
use lthread_concurrent.Poller.{Event, read, begin_wait_fd}
use lthread_concurrent.Socket.{Result, ok, error, Os, State, wait_fd}
use lthread_concurrent.Socket.Transfer.{lthread_recv, readline_loop, Line}
use lthread_concurrent.Socket.Transfer.Receive.{
  Retried, now, later, Ends, answered, refused, hung_up, transfer_loop-Retried,
}

module _ ⦃i : Intrusive⦄ (os : Os) where
  open os use {Kernel}

  -- What calloc(3) and free(3) do with the addresses that the lthread holds. Reading from `fd` and
  -- other lthreads leave them alone.
  pub record Ledger (fd : ℕ) : Type 0 where
    pub held : Kernel → ℕ → Bool
    pub recv : (k : Kernel) (buf_len flags x : ℕ) → held (os.recv k fd buf_len flags).0 x ≡ held k x
    pub meanwhile : (w : World) (k : Kernel) (x : ℕ) → held (os.meanwhile w k).1 x ≡ held k x
    pub calloc_some :
        (k k' : Kernel) (size a : ℕ)
        → os.calloc k size ≡ (k', some a)
        → (held k a ≡ false) × ((x : ℕ) → held k' x ≡ (if a == x then true else held k x))
    pub calloc_none :
        (k k' : Kernel) (size : ℕ) → os.calloc k size ≡ (k', none) → (x : ℕ) → held k' x ≡ held k x
    pub free : (k : Kernel) (a x : ℕ) → held (os.free k a) x ≡ (if a == x then false else held k x)

  module _ (lt fd : ℕ) (m : Ledger fd) (x : ℕ) where
    wait_held :
        (s t : State os) (ev : Event) (is_open : Bool)
        → wait_fd os lt s fd ev ≡ some (t, is_open)
        → m.held t.kernel x ≡ m.held s.kernel x
    unfolding wait_fd
    wait_held s t ev is_open e = elim (Option-cases (begin_wait_fd s.world lt fd ev)) [
      | inl failing ↦ absurd (ground arith)
      | inr (w, b) ↦ ground (arith, m.meanwhile w s.kernel x)
    ]

    retried_held :
        (buf_len flags k : ℕ) {s t : State os}
        → Retried os lt (λ k. os.recv k fd buf_len flags) fd read k s t
        → m.held t.kernel x ≡ m.held s.kernel x
    retried_held buf_len flags k now = refl
    retried_held buf_len flags k (later {s = s} {t = t} {u = u} p w r) =
        let rest = retried_held buf_len flags _ r in
        ground (arith, m.recv s.kernel buf_len flags x, wait_held t u read true w)

    Ends-held :
        (buf_len flags : ℕ) {s t : State os} {a : Result (List ℕ)}
        → Ends os lt (λ k. os.recv k fd buf_len flags) fd read s t a
        → m.held t.kernel x ≡ m.held s.kernel x
    Ends-held buf_len flags {s} {t} (answered p) = ground (arith, m.recv s.kernel buf_len flags x)
    Ends-held buf_len flags {s} {t} (refused e p q) =
        ground (arith, m.recv s.kernel buf_len flags x)
    Ends-held buf_len flags {s} (hung_up {t = t} {u = u} p w) =
        ground (arith, m.recv s.kernel buf_len flags x, wait_held t u read false w)

    lthread_recv_held :
        (n buf_len flags : ℕ) (s t : State os) (a : Result (List ℕ))
        → lthread_recv os lt n fd buf_len flags s ≡ some (t, a)
        → m.held t.kernel x ≡ m.held s.kernel x
    unfolding lthread_recv
    lthread_recv_held n buf_len flags s t a e =
        let with_flag = bit_or flags os.msg_nosignal in
        let (k, u, l, r, d) =
          transfer_loop-Retried os lt n (λ k. os.recv k fd buf_len with_flag) fd read e in
        Ends-held buf_len with_flag d ∙ retried_held buf_len with_flag k r

    pub readline_loop_held :
        (n r : ℕ) (got : List ℕ) (s t : State os) (l : Line)
        → readline_loop os lt n fd r got s ≡ some (t, l)
        → m.held t.kernel x ≡ m.held s.kernel x
    unfolding readline_loop
    readline_loop_held n zero got s t l e = ground arith
    readline_loop_held n (suc r) got s t l e = elim (Option-cases (lthread_recv os lt n fd 1 0 s)) [
      | inl failing ↦ absurd (ground arith)
      | inr ((u, a), p) ↦
          went u a p (lthread_recv_held n 1 0 s u a p)
            (λ b. readline_loop_held n r (got ++ b ∷ []) u t l)
    ]
      where
        went :
            (u : State os) (a : Result (List ℕ))
            → lthread_recv os lt n fd 1 0 s ≡ some (u, a)
            → m.held u.kernel x ≡ m.held s.kernel x
            → ((b : ℕ)
                → readline_loop os lt n fd r (got ++ b ∷ []) u ≡ some (t, l)
                → m.held t.kernel x ≡ m.held u.kernel x)
            → m.held t.kernel x ≡ m.held s.kernel x
        went u error p h rest = ground arith
        went u (ok []) p h rest = ground arith
        went u (ok (b ∷ bs)) p h rest = ground (arith, rest b)
