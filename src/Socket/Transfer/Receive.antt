-- ===== src/Socket/Transfer/Receive.antt =====
-- src/lthread_socket.c: what LTHREAD_RECV, LTHREAD_SEND and lthread_readline do with the answers of
-- the system.
use lthread_concurrent.Prelude.{
  ℕ, zero, suc, ◌<◌, ◌≡◌, ◌≢◌, inl, inr, true, false, Option, some, arith, Bool-cases, Option-cases,
}
use mathlib.Core.Path.{subst}
use mathlib.Core.Option.{some-injective}
use lthread_concurrent.Intrusive.{Intrusive}
use lthread_concurrent.Poller.{Event}
use lthread_concurrent.Socket.{
  Errno, Answer, done, failed, Result, ok, error, eagain, Os, State, call, wait_fd,
}
use lthread_concurrent.Socket.Waiting.{answer_cases, eagain_cases}
use lthread_concurrent.Socket.Transfer.{transfer_loop}

module _ ⦃i : Intrusive⦄ (os : Os) (lt : ℕ) where
  open os use {Kernel}

  -- The call fails with EAGAIN, and the wait for the descriptor ends well, `k` times in a row.
  pub data Retried {A : Type 0} (f : Kernel → Kernel × Answer A) (fd : ℕ) (ev : Event)
      : ℕ → State os → State os → Type 0 where
    now : {s : State os} → Retried f fd ev 0 s s
    later :
        {k : ℕ} {s t u v : State os}
        → call os f s ≡ (t, failed eagain)
        → wait_fd os lt t fd ev ≡ some (u, true)
        → Retried f fd ev k u v
        → Retried f fd ev (suc k) s v

  -- The last call: it succeeds, it fails with another error, or it fails with EAGAIN and the wait ends
  -- with the end of the file.
  pub data Ends {A : Type 0} (f : Kernel → Kernel × Answer A) (fd : ℕ) (ev : Event) (s : State os)
      : State os → Result A → Type 0 where
    answered : {t : State os} {a : A} → call os f s ≡ (t, done a) → Ends f fd ev s t (ok a)
    refused :
        {t : State os} (e : Errno)
        → call os f s ≡ (t, failed e)
        → e ≢ eagain
        → Ends f fd ev s t error
    hung_up :
        {t u : State os}
        → call os f s ≡ (t, failed eagain)
        → wait_fd os lt t fd ev ≡ some (u, false)
        → Ends f fd ev s u error

  -- A run of the loop that returns, taken apart
  pub transfer_loop-Retried :
      {A : Type 0} (n : ℕ) (f : Kernel → Kernel × Answer A) (fd : ℕ) (ev : Event) {s u : State os}
      {r : Result A}
      → transfer_loop os lt n f fd ev s ≡ some (u, r)
      → (k : ℕ) × (t : State os) × (k < n) × Retried f fd ev k s t × Ends f fd ev t u r
  unfolding transfer_loop
  transfer_loop-Retried zero f fd ev p = cc
  transfer_loop-Retried {A} (suc n) f fd ev {s} {u} {r} p =
      let t = (call os f s).0 in
      elim (answer_cases (call os f s).1) [
        | inl (x, q) ↦
            (0, s, omega arith, now, ended (answered {t = t} {a = x} (ground arith)) (ground arith))
        | inr (e, q) ↦ elim (eagain_cases e) [
          | inr (stop, no_wait) ↦
              (0, s, omega arith, now, ended (refused {t = t} e (ground arith) stop) (ground arith))
          | inl (again, wait) ↦ elim (Option-cases (wait_fd os lt t fd ev)) [
            | inl failing ↦ absurd (ground arith)
            | inr ((v, is_open), w) ↦ elim (Bool-cases is_open) [
              | inl o ↦
                  let (k, z, l, m, d) =
                    transfer_loop-Retried {A = A} n f fd ev {s = v} {u = u} {r = r}
                      (ground arith) in
                  (suc k, z, omega arith, later {t = t} {u = v} (ground arith) (ground arith) m, d)
              | inr c ↦ (
                0,
                s,
                omega arith,
                now,
                ended (hung_up {t = t} {u = v} (ground arith) (ground arith)) (ground arith),
              )
            ]
          ]
        ]
      ]
    where
      ended :
          {y : State os} {x : Result A}
          → Ends f fd ev s y x
          → ◌≡◌ {A = Option (State os × Result A)} (some (y, x)) (some (u, r))
          → Ends f fd ev s u r
      ended {y} {x} d e =
          subst (λ (z : State os × Result A). Ends f fd ev s z.0 z.1)
            (some-injective (y, x) (u, r) e) d
