-- ===== src/Socket/Transfer/Send.antt =====
-- src/lthread_socket.c, lthread_writev: what is sent, in which order.
use lthread_concurrent.Prelude.{
  ℕ, zero, suc, ◌+◌, ◌≤◌, ◌<◌, ◌≡◌, ◌≢◌, refl, sym, ap, ◌∙◌, ◌⊎◌, inl, inr, Bool, true, some, List,
  [], ◌∷◌, ◌++◌, length, arith, Bool-cases, Option-cases, ◌==◌, take, drop, take-append-drop,
  length-drop, take-add, take-all,
}
use mathlib.Core.List.{append_assoc, append-nil}
use lthread_concurrent.Intrusive.{Intrusive}
use lthread_concurrent.State.{World}
use lthread_concurrent.Poller.{Event, write, begin_wait_fd}
use lthread_concurrent.Socket.{
  Errno, Answer, done, failed, Result, ok, error, is_eagain, Os, State, call, wait_fd, Iovec,
}
use lthread_concurrent.Socket.Waiting.{Attends, wait_fd_returns, answer_cases}
use lthread_concurrent.Socket.Transfer.{advance, writev_loop, lthread_writev}
use lthread_concurrent.Socket.Transfer.Buffers.{bytes_of, bytes_of-advance}

module _ ⦃i : Intrusive⦄ (os : Os) where
  open os use {Kernel}

  -- What writev(2) does: `sent` are the bytes that have been written to `fd` so far, and nobody else
  -- writes to it. It writes nothing only if there is nothing to write.
  pub record Sink (fd : ℕ) : Type 0 where
    pub sent : Kernel → List ℕ
    pub writev_done :
        (k k' : Kernel) (iov : List Iovec) (n : ℕ)
        → os.writev k fd iov ≡ (k', done n)
        → (n ≤ length (bytes_of iov))
          × (sent k' ≡ sent k ++ take n (bytes_of iov))
          × (n ≡ 0 → bytes_of iov ≡ [])
    pub writev_failed :
        (k k' : Kernel) (iov : List Iovec) (e : Errno)
        → os.writev k fd iov ≡ (k', failed e)
        → sent k' ≡ sent k
    pub meanwhile : (w : World) (k : Kernel) → sent (os.meanwhile w k).1 ≡ sent k

  -- writev(2) leaves the lthread ready, and blocks only while `blocks` says that it may.
  pub record Opens (lt fd : ℕ) : Type 1 where
    pub attends : Attends os lt fd write
    pub writev_done :
        (s t : State os) (iov : List Iovec) (n : ℕ)
        → attends.IsReady s
        → call os (λ k. os.writev k fd iov) s ≡ (t, done n)
        → attends.IsReady t × (attends.blocks t.kernel ≤ attends.blocks s.kernel)
    pub writev_eagain :
        (s t : State os) (iov : List Iovec) (e : Errno)
        → attends.IsReady s
        → call os (λ k. os.writev k fd iov) s ≡ (t, failed e)
        → is_eagain e ≡ true
        → attends.IsReady t
          × (0 < attends.blocks t.kernel)
          × (attends.blocks t.kernel ≤ attends.blocks s.kernel)

  module _ (lt fd : ℕ) (c : Sink fd) (o : Opens lt fd) where
    -- A result that is not -1 says that all has been sent. It is the number of the bytes, or 0.
    abbrev pub Sends : List Iovec → (total : ℕ) → State os → State os → Result ℕ → Type 0
    Sends iov total s t (ok m) =
        (c.sent t.kernel ≡ c.sent s.kernel ++ bytes_of iov)
        × ((m ≡ total + length (bytes_of iov)) ⊎ (m ≡ 0))
    Sends iov total s t error =
        (m : ℕ) × (c.sent t.kernel ≡ c.sent s.kernel ++ take m (bytes_of iov))

    wait_sent :
        (s t : State os) (ev : Event) (is_open : Bool)
        → wait_fd os lt s fd ev ≡ some (t, is_open)
        → c.sent t.kernel ≡ c.sent s.kernel
    unfolding wait_fd
    wait_sent s t ev is_open e = elim (Option-cases (begin_wait_fd s.world lt fd ev)) [
      | inl failing ↦ absurd (ground arith)
      | inr (w, b) ↦ ground (arith, c.meanwhile w s.kernel)
    ]

    -- After a part has been sent
    sent_more :
        (iov rest : List Iovec) (n total : ℕ) (s t u : State os) (r : Result ℕ)
        → bytes_of rest ≡ drop n (bytes_of iov)
        → n ≤ length (bytes_of iov)
        → c.sent t.kernel ≡ c.sent s.kernel ++ take n (bytes_of iov)
        → Sends rest (total + n) t u r
        → Sends iov total s u r
    sent_more iov rest n total s t u (ok m) e l h (all, x) = (
      ground (
        arith,
        append_assoc (c.sent s.kernel) (take n (bytes_of iov)) (drop n (bytes_of iov)),
        take-append-drop n (bytes_of iov),
      ),
      ground (arith, length-drop n (bytes_of iov)),
    )
    sent_more iov rest n total s t u error e l h (m, p) = (
      n + m,
      ground (
        arith,
        append_assoc (c.sent s.kernel) (take n (bytes_of iov)) (take m (drop n (bytes_of iov))),
        take-add n m (bytes_of iov),
      ),
    )

    resent :
        (total : ℕ) (iov : List Iovec) (s u t : State os) (r : Result ℕ)
        → c.sent u.kernel ≡ c.sent s.kernel
        → Sends iov total u t r
        → Sends iov total s t r
    resent total iov s u t (ok m) e d = (d.0 ∙ ap (λ xs. xs ++ bytes_of iov) e, d.1)
    resent total iov s u t error e (m, d) = (m, d ∙ ap (λ xs. xs ++ take m (bytes_of iov)) e)

    abbrev Run : (f total : ℕ) → List Iovec → State os → Type 0
    Run f total iov s =
        (t : State os) × (r : Result ℕ) × (writev_loop os lt f fd iov total s ≡ some (t, r))
        × Sends iov total s t r

    -- The runs with less fuel
    abbrev Rest : ℕ → Type 0
    Rest f =
        (total : ℕ) (iov : List Iovec) (s : State os)
        → o.attends.IsReady s
        → length (bytes_of iov) + o.attends.blocks s.kernel < f
        → Run f total iov s

    abbrev writes : List Iovec → Kernel → Kernel × Answer ℕ
    writes iov k = os.writev k fd iov

    advanced :
        (f n total : ℕ) (iov rest : List Iovec) (s t : State os)
        → Rest f
        → o.attends.IsReady s
        → call os (writes iov) s ≡ (t, done n)
        → n ≢ 0
        → advance n iov ≡ rest
        → length (bytes_of iov) + o.attends.blocks s.kernel < suc f
        → Run (suc f) total iov s
    unfolding writev_loop
    advanced f n total iov [] s t ih y e p q l =
        let (le, more, none_left) = c.writev_done s.kernel t.kernel iov n (ground arith) in
        let left : drop n (bytes_of iov) ≡ [] = sym (bytes_of-advance n iov) ∙ ap bytes_of q in
        let short : length (bytes_of iov) ≤ n =
          omega (arith, length-drop n (bytes_of iov), ap (length {A = ℕ}) left) in
        (
          t,
          ok (total + n),
          ground arith,
          (
            more ∙ ap (λ xs. c.sent s.kernel ++ xs) (take-all n (bytes_of iov) short),
            inl (omega arith),
          ),
        )
    advanced f n total iov (v ∷ vs) s t ih y e p q l =
        let (le, more, none_left) = c.writev_done s.kernel t.kernel iov n (ground arith) in
        let (y', fewer) = o.writev_done s t iov n y e in
        let left : bytes_of (v ∷ vs) ≡ drop n (bytes_of iov) =
          ap bytes_of (sym q) ∙ bytes_of-advance n iov in
        let (u, r, run, d) =
          ih (total + n) (v ∷ vs) t y'
            (omega (arith, length-drop n (bytes_of iov), ap (length {A = ℕ}) left)) in
        (u, r, ground arith, sent_more iov (v ∷ vs) n total s t u r left le more d)

    waited :
        (f total : ℕ) (iov : List Iovec) (s t u : State os) (x : Errno) (b : Bool)
        → Rest f
        → call os (writes iov) s ≡ (t, failed x)
        → is_eagain x ≡ true
        → wait_fd os lt t fd write ≡ some (u, b)
        → o.attends.IsReady u
        → o.attends.blocks u.kernel < o.attends.blocks s.kernel
        → length (bytes_of iov) + o.attends.blocks s.kernel < suc f
        → Run (suc f) total iov s
    unfolding writev_loop
    waited f total [] s t u x b ih e again w y less l =
        let same =
          wait_sent t u write b w ∙ c.writev_failed s.kernel t.kernel [] x (ground arith) in
        (u, ok total, ground arith, (same ∙ sym (append-nil (c.sent s.kernel)), inl (omega arith)))
    waited f total (v ∷ vs) s t u x b ih e again w y less l =
        let same =
          wait_sent t u write b w ∙ c.writev_failed s.kernel t.kernel (v ∷ vs) x (ground arith) in
        let (z, r, run, d) = ih total (v ∷ vs) u y (omega arith) in
        (z, r, ground arith, resent total (v ∷ vs) s u z r same d)

    writev_loop-Sends :
        (f total : ℕ) (iov : List Iovec) (s : State os)
        → o.attends.IsReady s
        → length (bytes_of iov) + o.attends.blocks s.kernel < f
        → Run f total iov s
    unfolding writev_loop
    writev_loop-Sends zero total iov s y l = absurd (omega arith)
    writev_loop-Sends (suc f) total iov s y l =
        let t = (call os (writes iov) s).0 in
        elim (answer_cases (call os (writes iov) s).1) [
          | inl (n, e) ↦ elim (Bool-cases (n == 0)) [
            | inr p ↦
                advanced f n total iov (advance n iov) s t (writev_loop-Sends f) y (ground arith)
                  (ground arith) refl l
            | inl z ↦
                let (le, more, none_left) = c.writev_done s.kernel t.kernel iov n (ground arith) in
                let empty = none_left (ground arith) in
                (t, ok 0, ground arith, (ground arith, inr refl))
          ]
          | inr (x, e) ↦ elim (Bool-cases (is_eagain x)) [
            | inr stop ↦
                let same = c.writev_failed s.kernel t.kernel iov x (ground arith) in
                (t, error, ground arith, (0, same ∙ sym (append-nil (c.sent s.kernel))))
            | inl again ↦
                let (z, more, less) = o.writev_eagain s t iov x y (ground arith) again in
                let (u, b, p, y', d) = wait_fd_returns os lt fd write o.attends t z more in
                waited f total iov s t u x b (writev_loop-Sends f) (ground arith) again p y'
                  (omega (arith, d, less)) l
          ]
        ]

    -- Let nobody else write to the descriptor, let it block a bounded number of times, and let the
    -- lthread be ready, and be so again after each wait, while nobody else waits to write. With more
    -- fuel than bytes to send and times to block, lthread_writev returns. If the result is not -1, all bytes of the buffers have been sent, in
    -- order, and the result is their number or 0; if it is -1, some first part of them has been sent.
    pub lthread_writev-Sends :
        (f : ℕ) (iov : List Iovec) (s : State os)
        → o.attends.IsReady s
        → length (bytes_of iov) + o.attends.blocks s.kernel < f
        → (t : State os) × (r : Result ℕ) × (lthread_writev os lt f fd iov s ≡ some (t, r))
          × Sends iov 0 s t r
    unfolding lthread_writev
    lthread_writev-Sends f iov s y l = writev_loop-Sends f 0 iov s y l

module _ ⦃i : Intrusive⦄ (os : Os) (lt fd : ℕ) where
  -- A buffer that is written whole, before an empty one: the result is 0, and not the number of bytes.
  pub lthread_writev_forgets :
      (n base last : ℕ) (s : State os) (k k' : os.Kernel)
      → let empty : Iovec = record { iov_base = last; iov_len = 0 } in
        os.writev s.kernel fd (record { iov_base = base; iov_len = suc n } ∷ empty ∷ [])
          ≡ (k, done (suc n))
        → os.writev k fd (empty ∷ []) ≡ (k', done 0)
        → (t : State os) × (lthread_writev os lt 2 fd
              (record { iov_base = base; iov_len = suc n } ∷ empty ∷ [])
              s
            ≡ some (t, ok 0))
  unfolding lthread_writev writev_loop advance
  lthread_writev_forgets n base last s k k' e e' = (record s { kernel = k' }, ground arith)
