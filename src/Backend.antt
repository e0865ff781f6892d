-- ===== src/Backend.antt =====
-- The functions of src/lthread_poller.h that src/lthread_epoll.c and src/lthread_kqueue.c both
-- define, as an interface, and those of src/lthread_poller.c that call them. `none` is a failed
-- assertion.
pub mod Epoll
pub mod Kqueue
pub mod Directions
pub mod Rounds
use lthread_concurrent.Prelude.{
  ℕ, zero, suc, ◌+◌, Bool, true, false, Option, none, some, List, [], ◌∷◌, map, ◌==◌, if◌then◌else◌,
}
use lthread_concurrent.Intrusive.{Intrusive}
use lthread_concurrent.State.{World}
use lthread_concurrent.Poller.{Event, read, write, add_waiting_lthread, poll_events}

-- The answer of the system to a wait for events: some of them, the error EINTR, or another error.
pub data Poll (E : Type 0) : Type 0 where
  events : List E → Poll E
  interrupted broken : Poll E

pub record Backend : Type 1 where
  pub Kernel : Type 0
  -- POLL_EVENT_TYPE
  pub Raised : Type 0
  pub poll : Kernel → Kernel × Poll Raised
  pub ev_register_rd : Kernel → (fd : ℕ) → Option Kernel
  pub ev_register_wr : Kernel → (fd : ℕ) → Option Kernel
  pub ev_get_fd : Raised → ℕ
  pub ev_is_eof : Raised → Bool

module _ (b : Backend) where
  open b use {Kernel, Raised}

  -- _lthread_poller_register_event
  unfoldable pub register_event : Kernel → (fd : ℕ) → Event → Option Kernel
  register_event k fd read = b.ev_register_rd k fd
  register_event k fd write = b.ev_register_wr k fd

  -- The first loop of lthread_poller_poll: the wait, again while it is interrupted. The outer `none`
  -- means that the fuel ran out, the inner one that the wait is broken.
  unfoldable pub poll_loop : ℕ → Kernel → Option (Kernel × Option (List Raised))
  poll_loop zero k = none
  poll_loop (suc f) k =
      let (k', p) = b.poll k in
      elim p [
        | events es ↦ some (k', some es)
        | interrupted ↦ poll_loop f k'
        | broken ↦ some (k', none)
      ]

  -- What the second loop asks of an event
  abbrev pub seen : Raised → ℕ × Bool
  seen e = (b.ev_get_fd e, b.ev_is_eof e)

  module _ ⦃i : Intrusive⦄ where
    -- lthread_poller_schedule_event
    unfoldable pub schedule_event : World → Kernel → (lt fd : ℕ) → Event → Option (World × Kernel)
    unfolding add_waiting_lthread register_event
    schedule_event w k lt fd ev = elim (add_waiting_lthread w lt fd ev) [
      | none ↦ none
      | some v ↦ elim (register_event k fd ev) [ none ↦ none | some k' ↦ some (v, k') ]
    ]

    -- lthread_poller_poll, with its result. It holds no mutex but in _lthread_poller_handle_event, so
    -- that the other threads go on during the wait and between the events: `w` is the world from
    -- which `others 0` comes to that of the first event.
    unfoldable pub poller_poll :
        (others : ℕ → World → World) → ℕ → World → Kernel → Option (World × Kernel × Bool)
    unfolding poll_loop
    poller_poll others f w k = elim (poll_loop f k) [
      | none ↦ none
      | some (k', r) ↦ elim r [
        | none ↦ some (w, k', false)
        | some es ↦ elim (poll_events others 0 w (map seen es)) [
          | none ↦ none
          | some v ↦ some (v, k', true)
        ]
      ]
    ]

    -- _lthread_poller_threadfun, for at most so many rounds; whether it has ended. `others r` is what
    -- goes on during the round with `r` to come.
    unfoldable pub poller_threadfun :
        (others : ℕ → ℕ → World → World)
        → (rounds f : ℕ) → World
        → Kernel
        → Option (World × Kernel × Bool)
    unfolding poller_poll
    poller_threadfun others zero f w k = some (w, k, false)
    poller_threadfun others (suc r) f w k = elim (poller_poll (others r) f w k) [
      | none ↦ none
      | some (v, k', go_on) ↦ elim go_on [
        | true ↦ poller_threadfun others r f v k'
        | false ↦ some (v, k', true)
      ]
    ]
