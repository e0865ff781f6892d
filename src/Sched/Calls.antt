-- ===== src/Sched/Calls.antt =====
-- src/lthread.c: the functions of lthread.h that an lthread calls, up to the switch that they end
-- in, and _lthread_resume_ready. `cur` is _lthread_curent_sched, null in a thread that runs no
-- scheduler. `none` is a failed assertion, a null pointer that is read, or fuel that has run out.
pub mod Switching
use lthread_concurrent.Prelude.{ℕ, Bool, true, false, Option, none, some, ◌==◌, ltb, if◌then◌else◌}
use lthread_concurrent.Intrusive.{Intrusive}
use lthread_concurrent.State.{Lthread, World}
use lthread_concurrent.Sched.Ready.{pop_ready}
use lthread_concurrent.Sched.Sleep.{sched_sleep}
use lthread_concurrent.Sched.Switch.{create, yield_resched, exit, resume}
use lthread_concurrent.Poller.{fd_key}

-- The results -1, 0 and 1 of a comparison
pub data Sign : Type 0 where
  less same greater : Sign

-- _lthread_sleep_cmp
unfoldable pub sleep_cmp : Lthread → Lthread → Sign
sleep_cmp l1 l2 =
    if ltb l1.sleep_usecs l2.sleep_usecs
    then less
    else (if l1.sleep_usecs == l2.sleep_usecs then same else greater)

-- _lthread_wait_cmp
unfoldable pub wait_cmp : Lthread → Lthread → Sign
unfolding fd_key
wait_cmp l1 l2 =
    if ltb (fd_key l1) (fd_key l2) then less else (if fd_key l1 == fd_key l2 then same else greater)

module _ ⦃i : Intrusive⦄ where
  -- lthread_current
  unfoldable pub lthread_current : World → (cur : Option ℕ) → Option ℕ
  lthread_current w none = none
  lthread_current w (some s) = (w.scheds s).current_lthread

  -- _lthread_yield up to the switch: whom it switches away from
  unfoldable pub yield_switch : World → (cur : Option ℕ) → Option ℕ
  unfolding lthread_current
  yield_switch w none = none
  yield_switch w (some s) = elim (lthread_current w (some s)) [
    | none ↦ none
    | some lt ↦ if (w.lts lt).sched == s then some lt else none
  ]

  -- _lthread_yield, with the world that it is called in
  unfoldable pub then_yield : World → (cur : Option ℕ) → Option (World × ℕ)
  unfolding yield_switch
  then_yield w cur = elim (yield_switch w cur) [ none ↦ none | some lt ↦ some (w, lt) ]

  -- lthread_yield
  unfoldable pub lthread_yield : World → (cur : Option ℕ) → Option (World × ℕ)
  unfolding then_yield yield_resched
  lthread_yield w cur = elim (lthread_current w cur) [
    | none ↦ none
    | some lt ↦ then_yield (yield_resched w lt) cur
  ]

  -- lthread_sleep
  unfoldable pub lthread_sleep : ℕ → World → (cur : Option ℕ) → (msecs now : ℕ) → Option (World × ℕ)
  unfolding then_yield
  lthread_sleep f w cur msecs now = elim (lthread_current w cur) [
    | none ↦ none
    | some lt ↦ elim (sched_sleep f w lt msecs now) [ none ↦ none | some v ↦ then_yield v cur ]
  ]

  -- lthread_exit
  unfoldable pub lthread_exit : World → (cur : Option ℕ) → Option (World × ℕ)
  unfolding then_yield exit
  lthread_exit w cur = elim (lthread_current w cur) [
    | none ↦ none
    | some lt ↦ then_yield (exit w lt) cur
  ]

  -- lthread_spawn, with its result; `none` is the null pointer.
  unfoldable pub lthread_spawn : World → (cur mem : Option ℕ) → (func arg : ℕ) → World × Option ℕ
  lthread_spawn w cur mem func arg = create w cur mem func arg

  -- _lthread_resume_ready up to the switch: whom it switches to, if anyone is ready
  unfoldable pub resume_ready : ℕ → World → (ℕ → Bool) → (s : ℕ) → Option (World × Option ℕ)
  unfolding resume
  resume_ready f w free s = elim (pop_ready f w free s) [
    | none ↦ none
    | some (v, found) ↦ elim found [
      | none ↦ some (v, none)
      | some lt ↦ elim (resume v s lt) [ none ↦ none | some u ↦ some (u, some lt) ]
    ]
  ]
