-- ===== src/Tests/Poller.antt =====
-- The theorems on waiting for descriptors, applied: lthread 7 waits for descriptor 5.
use lthread_concurrent.Prelude.{
  arith, inr, none, Bool-cases, Option-cases, ℕ, zero, suc, ◌≡◌, ◌+◌, ◌^◌, inl, refl, true, false,
  some, [], ◌∷◌, ◌==◌, if◌then◌else◌,
}
use lthread_concurrent.Intrusive.{find_key}
use lthread_concurrent.Intrusive.Lists.{lists}
use lthread_concurrent.State.{World, Lthread}
use lthread_concurrent.Sched.Switch.{no_flags}
use lthread_concurrent.Poller.{
  read, event_key, add_waiting_lthread, poller_desched_event, handle_event, fd_key,
}
use lthread_concurrent.Poller.Keys.{handle_event-alias}
use lthread_concurrent.Poller.Waiting.{WaitInv, IsIdle, add_waiting_lthread-Registered}
use lthread_concurrent.Poller.Delivery.{Delivered, desched-add_waiting, handle_event-Delivered}
use lthread_concurrent.Backend.{Backend, events, interrupted}
use lthread_concurrent.Tests.Worlds.{quiet, idle_lthread}

abbrev reader : Lthread
reader = record idle_lthread { state = record no_flags { wait_read = true }; fd_wait = 5 }

abbrev reading : World
reading = record quiet {
  lts = λ lt. if lt == 7 then reader else idle_lthread;
  pool = record (quiet.pool) { poller = record { waiting = (5, 7) ∷ []; num_pending_events = 1 } };
}

reading-WaitInv : WaitInv reading
unfolding fd_key
reading-WaitInv = record { rising = tt; waits = (refl, refl, tt); counted = refl }

quiet-WaitInv : WaitInv quiet
quiet-WaitInv = record { rising = tt; waits = tt; counted = refl }

desched-add_waiting_example :
    (w' : World) × (add_waiting_lthread reading 8 6 read ≡ some w')
    × ((poller_desched_event w' 6 read).1 ≡ some 8)
    × ((poller_desched_event w' 6 read).0.pool.poller.waiting ≡ (5, 7) ∷ [])
    × (((poller_desched_event w' 6 read).0.lts 8).state ≡ no_flags)
desched-add_waiting_example = desched-add_waiting reading 8 6 read (refl, refl) refl reading-WaitInv

handle_event-Delivered_example :
    ((handle_event reading 5 read true).1 ≡ some 7)
    × Delivered reading (handle_event reading 5 read true).0 7 true
    × WaitInv (handle_event reading 5 read true).0
handle_event-Delivered_example = handle_event-Delivered reading 5 7 read true refl reading-WaitInv

handle_event-alias_example :
    handle_event reading (5 + 2 ^ 16) read false ≡ handle_event reading 5 read false
handle_event-alias_example = handle_event-alias reading 5 read false

-- A backend that is interrupted so many times, and then has an event of descriptor 5.
abbrev interrupting : Backend
interrupting = record {
  Kernel = ℕ;
  Raised = ℕ;
  poll = λ k. elim k [ zero ↦ (0, events (5 ∷ [])) | suc n ↦ (n, interrupted) ];
  ev_register_rd = λ k fd. some k;
  ev_register_wr = λ k fd. some k;
  ev_get_fd = λ e. e;
  ev_is_eof = λ e. false;
}

abbrev MayJoin : World → Type 0
MayJoin w = IsIdle (w.lts 8) × (find_key (event_key 6 read) w.pool.poller.waiting ≡ none)

-- Lthread 8 registers for descriptor 6 as soon as it may.
may_join : (w : World) → Dec (MayJoin w)
may_join w = elim (Bool-cases (w.lts 8).state.wait_read) [
  | inl reads ↦ no (λ h. ground (arith, h.0.0))
  | inr quiet_there ↦ elim (Bool-cases (w.lts 8).state.wait_write) [
    | inl writes ↦ no (λ h. ground (arith, h.0.1))
    | inr writes_not ↦ elim (Option-cases (find_key (event_key 6 read) w.pool.poller.waiting)) [
      | inl free ↦ yes ((quiet_there, writes_not), free)
      | inr (x, taken) ↦ no (λ h. ground (arith, h.1))
    ]
  ]
]

abbrev join_if : (w : World) → Dec (MayJoin w) → World
join_if w (no n) = w
join_if w (yes free) = (add_waiting_lthread-Registered w 8 6 read free.0 free.1).0

abbrev joins : World → World
joins w = join_if w (may_join w)
