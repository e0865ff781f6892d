-- ===== src/Sched/Calls/Switching.antt =====
-- src/lthread.c: a call of a running lthread switches away from that lthread.
use lthread_concurrent.Prelude.{ℕ, ◌≡◌, ◌<◌, ◌↔◌, some, arith}
use lthread_concurrent.Intrusive.{Intrusive}
use lthread_concurrent.State.{World, Lthread}
use lthread_concurrent.Sched.Sleep.{sched_sleep, fall_asleep}
use lthread_concurrent.Sched.Switch.{yield_resched, exit}
use lthread_concurrent.Sched.Calls.{
  less, same, greater, sleep_cmp, lthread_current, yield_switch, then_yield, lthread_yield,
  lthread_sleep, lthread_exit,
}

-- The order of the tree of sleepers is that of their times.
pub sleep_cmp_lem :
    (a b : Lthread)
    → ((sleep_cmp a b ≡ less) ↔ (a.sleep_usecs < b.sleep_usecs))
      × ((sleep_cmp a b ≡ same) ↔ (a.sleep_usecs ≡ b.sleep_usecs))
      × ((sleep_cmp a b ≡ greater) ↔ (b.sleep_usecs < a.sleep_usecs))
unfolding sleep_cmp
sleep_cmp_lem a b = (ground arith, ground arith, ground arith)

module _ ⦃i : Intrusive⦄ where
  -- Scheduler `s` runs the lthread.
  pub record Runs (w : World) (s lt : ℕ) : Type 0 where
    pub current : (w.scheds s).current_lthread ≡ some lt
    pub owned : (w.lts lt).sched ≡ s

  pub lthread_yield-Runs :
      (w : World) (s lt : ℕ)
      → Runs w s lt
      → lthread_yield w (some s) ≡ some (yield_resched w lt, lt)
  unfolding lthread_yield then_yield yield_switch lthread_current yield_resched
  lthread_yield-Runs w s lt r = ground (arith, r.current, r.owned)

  pub lthread_exit-Runs :
      (w : World) (s lt : ℕ) → Runs w s lt → lthread_exit w (some s) ≡ some (exit w lt, lt)
  unfolding lthread_exit then_yield yield_switch lthread_current exit
  lthread_exit-Runs w s lt r = ground (arith, r.current, r.owned)

  then_yield-Runs : (w : World) (s lt : ℕ) → Runs w s lt → then_yield w (some s) ≡ some (w, lt)
  unfolding then_yield yield_switch lthread_current
  then_yield-Runs w s lt r = ground (arith, r.current, r.owned)

  sched_sleep-Runs :
      (f : ℕ) (w v : World) (s lt msecs now : ℕ)
      → Runs w s lt
      → sched_sleep f w lt msecs now ≡ some v
      → Runs v s lt
  unfolding sched_sleep fall_asleep
  sched_sleep-Runs f w v s lt msecs now r e = record {
    current = ground (arith, e, r.current, r.owned);
    owned = ground (arith, e, r.current, r.owned);
  }

  pub lthread_sleep-Runs :
      (f : ℕ) (w v : World) (s lt msecs now : ℕ)
      → Runs w s lt
      → sched_sleep f w lt msecs now ≡ some v
      → lthread_sleep f w (some s) msecs now ≡ some (v, lt)
  unfolding lthread_sleep lthread_current
  lthread_sleep-Runs f w v s lt msecs now r e =
      let switched = then_yield-Runs v s lt (sched_sleep-Runs f w v s lt msecs now r e) in
      ground (arith, r.current, e, switched)
