-- ===== src/Backend/Rounds.antt =====
-- src/lthread_poller.c, lthread_poller_poll: a round of the poller's thread over any backend.
use lthread_concurrent.Prelude.{ℕ, suc, ◌≡◌, Bool, true, false, Option, none, some, List, map}
use lthread_concurrent.Intrusive.{Intrusive}
use lthread_concurrent.State.{World}
use lthread_concurrent.Poller.Batch.{IsServed}
use lthread_concurrent.Backend.{Poll, events, interrupted, broken, Backend, seen}

module _ (b : Backend) where
  open b use {Kernel, Raised}

  -- The wait for events is interrupted so many times in a row.
  pub data Interrupted : ℕ → Kernel → Kernel → Type 0 where
    at_once : {k : Kernel} → Interrupted 0 k k
    again :
        {n : ℕ} {k k' j : Kernel}
        → b.poll k ≡ (k', interrupted)
        → Interrupted n k' j
        → Interrupted (suc n) k j

  -- What a wait that is not interrupted answers
  abbrev pub answer : Option (List Raised) → Poll Raised
  answer none = broken
  answer (some es) = events es

  module _ ⦃i : Intrusive⦄ where
    -- What the answer asks of the world: that somebody waits for its events
    abbrev pub MayServe : World → Option (List Raised) → Type 0
    MayServe w none = Unit {0}
    MayServe w (some es) = IsServed w (map (seen b) es)

    abbrev pub is_some : Option (List Raised) → Bool
    is_some none = false
    is_some (some es) = true
