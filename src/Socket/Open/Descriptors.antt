-- ===== src/Socket/Open/Descriptors.antt =====
-- src/lthread_socket.c: which descriptors are open, and do not block, after lthread_socket and
-- lthread_pipe.
use lthread_concurrent.Prelude.{
  ℕ, ◌≡◌, ◌≢◌, refl, ◌∙◌, ◌⊎◌, inl, inr, Bool, true, false, arith, Bool-cases, if◌then◌else◌,
}
use lthread_concurrent.Intrusive.{Intrusive}
use lthread_concurrent.State.{update}
use lthread_concurrent.Socket.{Errno, Answer, done, failed, Result, ok, error, Os}
use lthread_concurrent.Socket.Open.{lthread_socket, lthread_pipe, close_both}

module _ ⦃i : Intrusive⦄ (os : Os) where
  open os use {Kernel}

  -- What socket(2), pipe(2), fcntl(2) and close(2) do with the table of descriptors
  pub record Table : Type 0 where
    pub is_open : Kernel → ℕ → Bool
    pub is_nonblocking : Kernel → ℕ → Bool
    pub socket_done :
        (k k' : Kernel) (domain type protocol fd : ℕ)
        → os.socket k domain type protocol ≡ (k', done fd)
        → (is_open k fd ≡ false) × ((x : ℕ) → is_open k' x ≡ update (is_open k) fd true x)
    pub socket_failed :
        (k k' : Kernel) (domain type protocol : ℕ) (e : Errno)
        → os.socket k domain type protocol ≡ (k', failed e)
        → (x : ℕ) → is_open k' x ≡ is_open k x
    pub pipe_done :
        (k k' : Kernel) (a b : ℕ)
        → os.pipe k ≡ (k', done (a, b))
        → (is_open k a ≡ false)
          × (is_open k b ≡ false)
          × (a ≢ b)
          × ((x : ℕ) → is_open k' x ≡ update (update (is_open k) a true) b true x)
    pub pipe_failed :
        (k k' : Kernel) (e : Errno)
        → os.pipe k ≡ (k', failed e)
        → (x : ℕ) → is_open k' x ≡ is_open k x
    pub fcntl :
        (k : Kernel) (fd x : ℕ)
        → (is_open (os.fcntl_nonblock k fd).0 x ≡ is_open k x)
          × (is_nonblocking (os.fcntl_nonblock k fd).0 x ≡ (
              if (os.fcntl_nonblock k fd).1
              then update (is_nonblocking k) fd true x
              else is_nonblocking k x))
    pub close :
        (k : Kernel) (fd x : ℕ) → is_open (os.close k fd).0 x ≡ update (is_open k) fd false x

  module _ (c : Table) where
    -- A descriptor is opened that does not block, or none is.
    abbrev pub OpensOne : Kernel → Kernel → Result ℕ → Type 0
    OpensOne k k' (ok fd) =
        (c.is_open k fd ≡ false)
        × (c.is_nonblocking k' fd ≡ true)
        × ((x : ℕ) → c.is_open k' x ≡ update (c.is_open k) fd true x)
    OpensOne k k' error = (x : ℕ) → c.is_open k' x ≡ c.is_open k x

    -- Two descriptors are opened that do not block, or none is.
    abbrev pub OpensTwo : Kernel → Kernel → Result (ℕ × ℕ) → Type 0
    OpensTwo k k' (ok (a, b)) =
        (a ≢ b)
        × (c.is_open k a ≡ false)
        × (c.is_open k b ≡ false)
        × (c.is_nonblocking k' a ≡ true)
        × (c.is_nonblocking k' b ≡ true)
        × ((x : ℕ) → c.is_open k' x ≡ update (update (c.is_open k) a true) b true x)
    OpensTwo k k' error = (x : ℕ) → c.is_open k' x ≡ c.is_open k x

    answer_cases :
        {A : Type 0} (a : Answer A) → ((x : A) × (a ≡ done x)) ⊎ ((e : Errno) × (a ≡ failed e))
    answer_cases (done x) = inl (x, refl)
    answer_cases (failed e) = inr (e, refl)

    socket_opens :
        (k : Kernel) (domain type protocol : ℕ)
        → (k' : Kernel) × (r : Result ℕ) × (lthread_socket os k domain type protocol ≡ (k', r))
          × OpensOne k k' r
    unfolding lthread_socket
    socket_opens k domain type protocol =
        let j = (os.socket k domain type protocol).0 in
        elim (answer_cases (os.socket k domain type protocol).1) [
          | inr (e, p) ↦ (
            j,
            error,
            ground arith,
            λ x. c.socket_failed k j domain type protocol e (ground arith) x,
          )
          | inl (fd, p) ↦
              let (fresh, opened) = c.socket_done k j domain type protocol fd (ground arith) in
              let m = (os.fcntl_nonblock j fd).0 in
              elim (Bool-cases (os.fcntl_nonblock j fd).1) [
                | inl set ↦ (
                  m,
                  ok fd,
                  ground arith,
                  (
                    fresh,
                    ground (arith, c.fcntl j fd fd),
                    λ x. ground (arith, c.fcntl j fd x, opened x),
                  ),
                )
                | inr unset ↦ (
                  (os.close m fd).0,
                  error,
                  ground arith,
                  λ x. ground (arith, c.close m fd x, c.fcntl j fd x, opened x, opened fd),
                )
              ]
        ]

    pipe_closed :
        (k j : Kernel) (a b : ℕ)
        → c.is_open k a ≡ false
        → c.is_open k b ≡ false
        → ((x : ℕ) → c.is_open j x ≡ update (update (c.is_open k) a true) b true x)
        → (x : ℕ) → c.is_open (close_both os j (a, b)) x ≡ c.is_open k x
    unfolding close_both
    pipe_closed k j a b p q opened x =
        ground (arith, c.close j a x, c.close (os.close j a).0 b x, opened x)

    pipe_opens :
        (k : Kernel)
        → (k' : Kernel) × (r : Result (ℕ × ℕ)) × (lthread_pipe os k ≡ (k', r)) × OpensTwo k k' r
    unfolding lthread_pipe
    pipe_opens k =
        let j = (os.pipe k).0 in
        elim (answer_cases (os.pipe k).1) [
          | inr (e, p) ↦ (j, error, ground arith, λ x. c.pipe_failed k j e (ground arith) x)
          | inl ((a, b), p) ↦
              let (fa, fb, ne, opened) = c.pipe_done k j a b (ground arith) in
              let m = (os.fcntl_nonblock j a).0 in
              let z = (os.fcntl_nonblock m b).0 in
              let opened_m : (x : ℕ)
                  → c.is_open m x ≡ update (update (c.is_open k) a true) b true x =
                λ x. (c.fcntl j a x).0 ∙ opened x in
              let opened_z : (x : ℕ)
                  → c.is_open z x ≡ update (update (c.is_open k) a true) b true x =
                λ x. (c.fcntl m b x).0 ∙ opened_m x in
              elim (Bool-cases (os.fcntl_nonblock j a).1) [
                | inr unset ↦ (
                  close_both os m (a, b),
                  error,
                  ground arith,
                  pipe_closed k m a b fa fb opened_m,
                )
                | inl set ↦ elim (Bool-cases (os.fcntl_nonblock m b).1) [
                  | inr unset ↦ (
                    close_both os z (a, b),
                    error,
                    ground arith,
                    pipe_closed k z a b fa fb opened_z,
                  )
                  | inl set' ↦ (
                    z,
                    ok (a, b),
                    ground arith,
                    (
                      ne,
                      fa,
                      fb,
                      ground (arith, c.fcntl j a a, c.fcntl m b a),
                      ground (arith, c.fcntl m b b),
                      opened_z,
                    ),
                  )
                ]
              ]
        ]

    -- By what the manual pages say of the system's calls: lthread_socket opens one descriptor that
    -- does not block, and lthread_pipe two, if they succeed; if they fail, then at whichever call, the
    -- same descriptors are open as before.
    pub no_descriptor_leaks :
        (k : Kernel) (domain type protocol : ℕ)
        → ((k' : Kernel) × (r : Result ℕ) × (lthread_socket os k domain type protocol ≡ (k', r))
            × OpensOne k k' r)
          × ((k' : Kernel) × (r : Result (ℕ × ℕ)) × (lthread_pipe os k ≡ (k', r)) × OpensTwo k k' r)
    no_descriptor_leaks k domain type protocol = (socket_opens k domain type protocol, pipe_opens k)
