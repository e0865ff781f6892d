-- ===== src/Sched/Switch/Sleepers.antt =====
-- src/lthread.c, _lthread_sched_sleep and the end of _lthread_resume: what becomes of an lthread
-- that has gone to sleep, once it has switched back.
use lthread_concurrent.Prelude.{
  ℕ, suc, ◌+◌, ◌*◌, ◌<◌, ◌≡◌, false, none, some, [], ◌∷◌, ◌++◌, arith, ◌∙◌, ◌^◌, elem, elem-append,
  true, refl,
}
use lthread_concurrent.Intrusive.{Intrusive}
use lthread_concurrent.State.{World}
use lthread_concurrent.Sched.Ready.{is_lt, sched_push_ready_unsafe}
use lthread_concurrent.Sched.Ready.Push.{push_ready_queues, push_ready-Keeps}
use lthread_concurrent.Sched.Sleep.{
  u64, sched_sleep, fall_asleep, wakeup_round, schedule_expired, desched_sleep_unsafe,
}
use lthread_concurrent.Sched.Sleep.Insert.{sched_sleep-Sleeps}
use lthread_concurrent.Sched.Sleep.Expired.{Wakes, desched_sleep_unsafe-Wakes}
use lthread_concurrent.Sched.Switch.{resumed}

module _ ⦃i : Intrusive⦄ where
  open i use {Tree, elems, entries, rb_min_lem}

  -- The lthread is alone in the tree of its scheduler `s`, and carries no wake-up time.
  record IsUnstamped (w : World) (s lt : ℕ) : Type 0 where
    key : ℕ
    tree : entries (w.scheds s).sleeping ≡ (key, lt) ∷ []
    sleep_usecs : (w.lts lt).sleep_usecs ≡ 0
    sched : (w.lts lt).sched ≡ s
    idle : (w.scheds s).current_lthread ≡ none

  resumed-IsUnstamped :
      (w : World) (s lt k : ℕ) (t : Tree)
      → (w.lts lt).sched ≡ s
      → (w.lts lt).needs_resched ≡ false
      → (w.lts lt).state.exited ≡ false
      → entries t ≡ (k, lt) ∷ []
      → IsUnstamped (resumed (fall_asleep w lt k t) s lt) s lt
        × (((resumed (fall_asleep w lt k t) s lt).scheds s).ready ≡ (w.scheds s).ready)
  unfolding resumed fall_asleep
  resumed-IsUnstamped w s lt k t own quiet alive e = (
    record {
      key = k;
      tree = ground arith;
      sleep_usecs = ground arith;
      sched = ground arith;
      idle = ground arith;
    },
    ground arith,
  )

  -- An lthread that runs on `s`, alone in going to sleep there, calls lthread_sleep and switches back.
  sleeps-IsUnstamped :
      (f : ℕ) (w : World) (s lt msecs now : ℕ)
      → 0 < msecs
      → (w.lts lt).sched ≡ s
      → (w.lts lt).needs_resched ≡ false
      → (w.lts lt).state.exited ≡ false
      → entries (w.scheds s).sleeping ≡ []
      → (v : World) × (sched_sleep (suc f) w lt msecs now ≡ some v)
        × IsUnstamped (resumed v s lt) s lt
        × (((resumed v s lt).scheds s).ready ≡ (w.scheds s).ready)
  sleeps-IsUnstamped f w s lt msecs now timed own quiet alive nobody =
      let none_there : entries (w.scheds (w.lts lt).sched).sleeping ≡ [] = rw own nobody in
      let start = u64 (now + u64 (msecs * 1000)) in
      let small : start < 2 ^ 64 = omega arith in
      let (v, r, a) =
        sched_sleep-Sleeps (suc f) w lt msecs now timed (rw none_there (omega arith))
          (rw none_there (omega arith)) in
      let entered : entries a.tree ≡ (a.key, lt) ∷ [] =
        unfold fall_asleep in ground (arith, a.after, a.entered, none_there) in
      let (park, same) = resumed-IsUnstamped w s lt a.key a.tree own quiet alive entered in
      (v, r, rw a.after park, rw a.after same)

  expires_at_once :
      (f : ℕ) (w : World) (s lt now : ℕ)
      → IsUnstamped w s lt
      → (u : World) × (schedule_expired (suc (suc f)) w s now ≡ some u) × Wakes w u s (lt ∷ []) []
  expires_at_once f w s lt now h =
      let a = desched_sleep_unsafe-Wakes w s h.key lt [] h.tree h.sched h.idle in
      (
        desched_sleep_unsafe w lt,
        unfold schedule_expired in
            ground (
              arith,
              h.tree,
              h.sleep_usecs,
              a.left,
              rb_min_lem (w.scheds s).sleeping,
              rb_min_lem ((desched_sleep_unsafe w lt).scheds s).sleeping,
            ),
        a,
      )

  -- A wake-up queues the lthread and leaves it in the tree, alone and without a wake-up time.
  wakeup-IsUnstamped :
      (w : World) (s lt : ℕ)
      → IsUnstamped w s lt
      → (u : World) × (wakeup_round w s lt ≡ some u)
        × IsUnstamped u s lt
        × (elems (u.scheds s).ready ≡ elems (w.scheds s).ready ++ lt ∷ [])
  unfolding wakeup_round
  wakeup-IsUnstamped w s lt h =
      let other : is_lt (w.scheds (w.lts lt).sched).current_lthread lt ≡ false =
        ground (arith, h.sched, h.idle) in
      let k = push_ready-Keeps w s lt in
      let (queued, same_lts, queues, alert) = push_ready_queues w s lt other in
      (
        sched_push_ready_unsafe w s lt,
        ground (arith, h.sched, h.sleep_usecs),
        record {
          key = h.key;
          tree = rw (k.sleeping s) h.tree;
          sleep_usecs = k.sleep_usecs lt ∙ h.sleep_usecs;
          sched = k.sched lt ∙ h.sched;
          idle = k.current_lthread s ∙ h.idle;
        },
        ground (arith, queued, h.sched),
      )

  -- Let the running lthread of `s` have asked for nothing and not exited, and be the only one in the
  -- scheduler's tree when it calls lthread_sleep with a time that is not 0. It goes to sleep, but the
  -- next _lthread_schedule_expired after its switch takes it out of the tree and queues it at
  -- whatever time it is called.
  pub sleep_ends_at_once :
      (f g : ℕ) (w : World) (s lt msecs now : ℕ)
      → 0 < msecs
      → (w.lts lt).sched ≡ s
      → (w.lts lt).needs_resched ≡ false
      → (w.lts lt).state.exited ≡ false
      → entries (w.scheds s).sleeping ≡ []
      → (v : World) × (sched_sleep (suc f) w lt msecs now ≡ some v)
        × ((later : ℕ)
            → (u : World) × (schedule_expired (suc (suc g)) (resumed v s lt) s later ≡ some u)
              × (elems (u.scheds s).ready ≡ elems (w.scheds s).ready ++ lt ∷ [])
              × (entries (u.scheds s).sleeping ≡ []))
  sleep_ends_at_once f g w s lt msecs now timed own quiet alive nobody =
      let (v, r, park, same) = sleeps-IsUnstamped f w s lt msecs now timed own quiet alive nobody in
      (
        v,
        r,
        λ later.
            let (u, e, a) = expires_at_once g (resumed v s lt) s lt later park in
            (u, e, ground (arith, a.queued, same), a.left),
      )

  -- It stays the first of the tree with a time that is past: the next _lthread_schedule_expired takes
  -- it out of the tree and inserts it into the queue.
  expires_again :
      (g : ℕ) (w : World) (s lt now : ℕ)
      → IsUnstamped w s lt
      → schedule_expired (suc g) w s now ≡ schedule_expired g (desched_sleep_unsafe w lt) s now
  unfolding schedule_expired
  expires_again g w s lt now h =
      ground (arith, h.tree, h.sleep_usecs, rb_min_lem (w.scheds s).sleeping)

  -- Let the running lthread of `s` have asked for nothing and not exited, be the only one in the
  -- scheduler's tree when it calls lthread_sleep with a time that is not 0, and not be in the
  -- scheduler's queue. It goes to sleep, and is not in the queue after its switch. Let another thread wake
  -- it by _lthread_wakeup between its switch and that _lthread_schedule_expired. It is then in the
  -- scheduler's queue, and still alone in its tree; _lthread_schedule_expired, at whatever time it is
  -- called next, takes it out of the tree and goes on after _lthread_desched_sleep_unsafe, which inserts
  -- it once more into the queue that it is in: it is not the current lthread.
  pub woken_sleeper_inserted_again :
      (f g : ℕ) (w : World) (s lt msecs now : ℕ)
      → 0 < msecs
      → (w.lts lt).sched ≡ s
      → (w.lts lt).needs_resched ≡ false
      → (w.lts lt).state.exited ≡ false
      → entries (w.scheds s).sleeping ≡ []
      → elem lt (elems (w.scheds s).ready) ≡ false
      → (v : World) × (sched_sleep (suc f) w lt msecs now ≡ some v)
        × (elem lt (elems ((resumed v s lt).scheds s).ready) ≡ false)
        × (u : World) × (wakeup_round (resumed v s lt) s lt ≡ some u)
        × (elem lt (elems (u.scheds s).ready) ≡ true)
        × (is_lt (u.scheds s).current_lthread lt ≡ false)
        × ((later : ℕ)
            → schedule_expired (suc g) u s later
              ≡ schedule_expired g (desched_sleep_unsafe u lt) s later)
  woken_sleeper_inserted_again f g w s lt msecs now timed own quiet alive nobody out =
      let (v, r, park, same) = sleeps-IsUnstamped f w s lt msecs now timed own quiet alive nobody in
      let (u, woken, still, queued) = wakeup-IsUnstamped (resumed v s lt) s lt park in
      (
        v,
        r,
        rw same out,
        u,
        woken,
        rw queued
            (elem-append lt (elems ((resumed v s lt).scheds s).ready) (lt ∷ []) ∙ ground arith),
        rw still.idle refl,
        λ later. expires_again g u s lt later still,
      )
