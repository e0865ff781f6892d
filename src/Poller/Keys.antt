-- ===== src/Poller/Keys.antt =====
-- src/lthread_poller.c, fd_key: which waits can be told apart.
use lthread_concurrent.Prelude.{ℕ, ◌+◌, ◌^◌, ◌<◌, ◌≡◌, ◌↔◌, arith, true, false, Bool, ap}
use lthread_concurrent.Intrusive.{Intrusive}
use lthread_concurrent.State.{World, Lthread}
use lthread_concurrent.Poller.{
  Event, read, write, event_key, fd_key, handle_event, u16, deliver, desched_key,
  poller_desched_event,
}

-- The direction in which an lthread waits.
abbrev pub direction : Lthread → Event
direction l = elim (l.state.wait_read) [ true ↦ read | false ↦ write ]

-- Two lthreads have the same key in the tree exactly if their descriptors agree modulo 2^16, and
-- their directions agree.
pub fd_key-eq_iff :
    (l m : Lthread)
    → (fd_key l ≡ fd_key m) ↔ ((u16 l.fd_wait ≡ u16 m.fd_wait) × (direction l ≡ direction m))
unfolding fd_key
fd_key-eq_iff l m = (λ e. ground arith, λ e. ground arith)

-- Descriptors below 2^16 are told apart.
pub event_key-injective :
    (fd gd : ℕ) (e f : Event)
    → fd < 2 ^ 16
    → gd < 2 ^ 16
    → event_key fd e ≡ event_key gd f
    → (fd ≡ gd) × (e ≡ f)
event_key-injective fd gd e f h k eq = ground arith

event_key-alias : (fd : ℕ) (e : Event) → event_key (fd + 2 ^ 16) e ≡ event_key fd e
event_key-alias fd read = omega arith
event_key-alias fd write = omega arith

module _ ⦃i : Intrusive⦄ where
  poller_desched_event-alias :
      (w : World) (fd : ℕ) (e : Event)
      → poller_desched_event w (fd + 2 ^ 16) e ≡ poller_desched_event w fd e
  unfolding poller_desched_event
  poller_desched_event-alias w fd e = ap (λ k. desched_key w k e) (event_key-alias fd e)

  -- An event of a descriptor that is 2^16 higher is handled as that of the descriptor itself.
  pub handle_event-alias :
      (w : World) (fd : ℕ) (e : Event) (is_eof : Bool)
      → handle_event w (fd + 2 ^ 16) e is_eof ≡ handle_event w fd e is_eof
  unfolding handle_event
  handle_event-alias w fd e is_eof = ap (deliver is_eof) (poller_desched_event-alias w fd e)
