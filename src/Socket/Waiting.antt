-- ===== src/Socket/Waiting.antt =====
-- src/lthread_socket.c with src/lthread_poller.c: waits for a descriptor that come to an end.
use lthread_concurrent.Prelude.{
  ℕ, ◌<◌, ◌≡◌, ◌⊎◌, inl, inr, refl, Bool, none, some, arith, ◌≢◌, true, false,
}
use lthread_concurrent.Intrusive.{Intrusive, find_key}
use lthread_concurrent.State.{World}
use lthread_concurrent.Poller.{Event, event_key, begin_wait_fd, end_wait_fd}
use lthread_concurrent.Poller.Waiting.{IsIdle, WaitInv, add_waiting_lthread-WaitInv}
use lthread_concurrent.Socket.{
  Errno, eagain, enfile, emfile, econnaborted, einprogress, other, Answer, done, failed, is_eagain,
  Os, State, wait_fd,
}

pub answer_cases {ℓ} :
    {A : Type ℓ} (a : Answer A) → ((x : A) × (a ≡ done x)) ⊎ ((e : Errno) × (a ≡ failed e))
answer_cases (done x) = inl (x, refl)
answer_cases (failed e) = inr (e, refl)

-- EAGAIN is the only error after which the code waits to receive or to send.
pub eagain_cases :
    (e : Errno) → ((e ≡ eagain) × (is_eagain e ≡ true)) ⊎ ((e ≢ eagain) × (is_eagain e ≡ false))
eagain_cases eagain = inl (refl, refl)
eagain_cases enfile = inr ((λ h. cc), refl)
eagain_cases emfile = inr ((λ h. cc), refl)
eagain_cases econnaborted = inr ((λ h. cc), refl)
eagain_cases einprogress = inr ((λ h. cc), refl)
eagain_cases (other x) = inr ((λ h. cc), refl)

module _ ⦃i : Intrusive⦄ (os : Os) (lt fd : ℕ) (ev : Event) where
  open i use {entries}

  -- In the states in which the lthread is ready it waits for nothing, and nobody waits for this
  -- event. The other lthreads let it come back, and ready again; the descriptor blocks it at most so
  -- many times.
  pub record Attends : Type 1 where
    pub IsReady : State os → Type 0
    pub blocks : os.Kernel → ℕ
    pub idle :
        (s : State os)
        → IsReady s
        → IsIdle (s.world.lts lt)
          × (find_key (event_key fd ev) (entries s.world.pool.poller.waiting) ≡ none)
          × WaitInv s.world
    pub back :
        (s : State os) (w : World)
        → IsReady s
        → 0 < blocks s.kernel
        → begin_wait_fd s.world lt fd ev ≡ some w
        → let (v, k) = os.meanwhile w s.kernel in
          IsReady (record { world = (end_wait_fd v lt).0; kernel = k })
          × (blocks k < blocks s.kernel)

  -- A wait fails no assertion, and one more block is over.
  pub wait_fd_returns :
      (a : Attends) (s : State os)
      → a.IsReady s
      → 0 < a.blocks s.kernel
      → (u : State os) × (b : Bool) × (wait_fd os lt s fd ev ≡ some (u, b))
        × a.IsReady u
        × (a.blocks u.kernel < a.blocks s.kernel)
  unfolding wait_fd begin_wait_fd
  wait_fd_returns a s y l =
      let (idle, free, inv) = a.idle s y in
      let (w, e, inv') = add_waiting_lthread-WaitInv s.world lt fd ev idle free inv in
      let (v, k) = os.meanwhile w s.kernel in
      let (y', less) = a.back s w y l e in
      (
        record { world = (end_wait_fd v lt).0; kernel = k },
        (end_wait_fd v lt).1,
        ground arith,
        y',
        less,
      )
