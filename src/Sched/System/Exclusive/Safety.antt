-- ===== src/Sched/System/Exclusive/Safety.antt =====
-- src/lthread.c: what the stealing of lthreads by schedulers cannot lead to, from the start of the
-- threads by lthread_run on.
use lthread_concurrent.Prelude.{
  ℕ, ◌+◌, ◌≡◌, Bool, true, false, ◌==◌, Option, some, none, arith, elem, elem-eq-count, elem-count,
  if◌then◌else◌, count, sym, ◌∙◌, ap, inl, inr, ◌⊎◌,
}
use lthread_concurrent.Intrusive.{Intrusive, ids, has_id}
use lthread_concurrent.State.{Lthread, World, with_lt, with_sched}
use lthread_concurrent.Sched.Ready.{is_lt}
use lthread_concurrent.Sched.Switch.{resume}
use lthread_concurrent.Sched.Pool.{run_start}
use lthread_concurrent.Sched.System.{
  Pc, looping, found, chosen, running, checked, waiting, leaving, gone, System,
}
use lthread_concurrent.Sched.System.Safety.{started}
use lthread_concurrent.Sched.System.Exclusive.{
  Place, Spot, takes, runs, hands_over, in_thread, OrderlyReach,
}
use lthread_concurrent.Sched.System.Exclusive.Places.{
  queued_at, held_at, rests, flag_off, runs-owns, alone_at,
}
use lthread_concurrent.Sched.System.Exclusive.Counts.{has_id-count}
use lthread_concurrent.Sched.System.Exclusive.Start.{IsBlank, OrderlyReach-IsExclusive}

-- The thread of a scheduler has taken the lthread, or runs it.
abbrev pub has : Pc → ℕ → Bool
has (found z) y = z == y
has (chosen z) y = z == y
has (running z) y = z == y
has _ y = false

module _ ⦃i : Intrusive⦄ where
  open i use {elems, entries}

  has-cases : (p : Pc) (y : ℕ) → has p y ≡ true → (takes p y ≡ 1) ⊎ (runs p y ≡ true)
  has-cases (found z) y h = inl (ground arith)
  has-cases (chosen z) y h = inl (ground arith)
  has-cases (running z) y h = inr h
  has-cases looping y h = cc
  has-cases checked y h = cc
  has-cases (waiting deep) y h = cc
  has-cases leaving y h = cc
  has-cases gone y h = cc

  -- Where the place of an lthread allows no scheduler to have it in hand
  has_none :
      (x : System) (q : Place) (y s : ℕ)
      → Spot x q y
      → (in_thread q s ≡ 0)
      → (runs (x.pc s) y ≡ false)
      → has (x.pc s) y ≡ false
  has_none x q y s sp t r = ground (arith, has-cases (x.pc s) y, sp.thread s)

  both_take :
      (x : System) (q : Place) (s k y : ℕ)
      → Spot x q y
      → takes (x.pc s) y ≡ 1
      → has (x.pc k) y ≡ true
      → s ≡ k
  both_take x q s k y sp t h =
      let at = held_at q s (omega (arith, sp.thread s)) in
      let idle = rests x q y k sp (ground (arith, at)) in
      ground (arith, at, idle, has-cases (x.pc k) y h, sp.thread k)

  one_has :
      (x : System) (q : Place) (s k y : ℕ)
      → Spot x q y
      → has (x.pc s) y ≡ true
      → has (x.pc k) y ≡ true
      → s ≡ k
  one_has x q s k y sp h h' = elim (has-cases (x.pc s) y h) [
    | inl t ↦ both_take x q s k y sp t h'
    | inr r ↦ elim (has-cases (x.pc k) y h') [
      | inl t ↦ sym (both_take x q k s y sp t h)
      | inr r' ↦ alone_at x s k y (sp.sched s (runs-owns (x.pc s) y r)) sp r'
    ]
  ]

  -- If no lthread exists before lthread_run, and the lthreads are orderly, no two schedulers ever have
  -- the same lthread in hand, whether taken out of a queue or running.
  pub one_scheduler :
      (lts : ℕ → Lthread) (bytes : ℕ → Bool) (stack_size page_size aux mem fun arg : ℕ) {x : System}
      → IsBlank lts
      → OrderlyReach
          (aux + 1)
          (started (run_start lts bytes stack_size page_size aux mem fun arg))
          x
      → (s k lt : ℕ) → has (x.pc s) lt ≡ true
      → has (x.pc k) lt ≡ true
      → s ≡ k
  one_scheduler lts bytes stack_size page_size aux mem fun arg {x} blank r s k lt h h' =
      let (q, sp) =
        OrderlyReach-IsExclusive lts bytes stack_size page_size aux mem fun arg blank r lt in
      one_has x q s k lt sp h h'

  -- If no lthread exists before lthread_run, and the lthreads are orderly, an lthread that is in a
  -- ready queue is there once, and in no other queue and no tree, and no scheduler has it in hand; it
  -- is not freed and has not exited.
  pub queued_once :
      (lts : ℕ → Lthread) (bytes : ℕ → Bool) (stack_size page_size aux mem fun arg : ℕ) {x : System}
      → IsBlank lts
      → OrderlyReach
          (aux + 1)
          (started (run_start lts bytes stack_size page_size aux mem fun arg))
          x
      → (j lt : ℕ) → elem lt (elems (x.world.scheds j).ready) ≡ true
      → ((k : ℕ) → count lt (elems (x.world.scheds k).ready) ≡ (if j == k then 1 else 0))
        × ((k : ℕ) → count lt (ids (entries (x.world.scheds k).sleeping)) ≡ 0)
        × (count lt (ids (entries x.world.pool.poller.waiting)) ≡ 0)
        × ((s : ℕ) → has (x.pc s) lt ≡ false)
        × ((x.world.lts lt).allocated ≡ true)
        × ((x.world.lts lt).state.exited ≡ false)
  queued_once lts bytes stack_size page_size aux mem fun arg {x} blank r j lt h =
      let (q, sp) =
        OrderlyReach-IsExclusive lts bytes stack_size page_size aux mem fun arg blank r lt in
      let here = elem-eq-count lt (elems (x.world.scheds j).ready) h in
      let at = queued_at q j (omega (arith, here, sp.queue j)) in
      (
        (λ k. ground (arith, at, here, sp.queue k)),
        (λ k. ground (arith, at, sp.tree k)),
        ground (arith, at, sp.poller),
        (λ s. has_none x q lt s sp (ground (arith, at)) (rests x q lt s sp (ground (arith, at)))),
        ground (arith, at, sp.freed),
        ground (arith, at, sp.exited),
      )

  -- If no lthread exists before lthread_run, and the lthreads are orderly, no assertion of
  -- _lthread_resume fails: a scheduler that has chosen an lthread resumes it.
  pub chosen_resumes :
      (lts : ℕ → Lthread) (bytes : ℕ → Bool) (stack_size page_size aux mem fun arg : ℕ) {x : System}
      → IsBlank lts
      → OrderlyReach
          (aux + 1)
          (started (run_start lts bytes stack_size page_size aux mem fun arg))
          x
      → (s lt : ℕ) → x.pc s ≡ chosen lt
      → (w : World) × (resume x.world s lt ≡ some w)
  unfolding resume
  chosen_resumes lts bytes stack_size page_size aux mem fun arg {x} blank r s lt c =
      let (q, sp) =
        OrderlyReach-IsExclusive lts bytes stack_size page_size aux mem fun arg blank r lt in
      let at = held_at q s (ground (arith, c, sp.thread s)) in
      let idle = flag_off x q lt sp (ground (arith, at)) in
      let w = x.world in
      (
        with_lt (with_sched w s (record (w.scheds s) { current_lthread = some lt })) lt
            (record (w.lts lt) { is_running = true }),
        ground (arith, c, idle, sp.sched s),
      )

  -- If no lthread exists before lthread_run, and the lthreads are orderly, the lthread that a scheduler
  -- runs is its current one, belongs to it and is not freed, so that the assertions of lthread_current
  -- and _lthread_yield hold.
  pub running_is_current :
      (lts : ℕ → Lthread) (bytes : ℕ → Bool) (stack_size page_size aux mem fun arg : ℕ) {x : System}
      → IsBlank lts
      → OrderlyReach
          (aux + 1)
          (started (run_start lts bytes stack_size page_size aux mem fun arg))
          x
      → (s lt : ℕ) → x.pc s ≡ running lt
      → ((x.world.scheds s).current_lthread ≡ some lt)
        × ((x.world.lts lt).sched ≡ s)
        × ((x.world.lts lt).allocated ≡ true)
  running_is_current lts bytes stack_size page_size aux mem fun arg {x} blank r s lt c =
      let (q, sp) =
        OrderlyReach-IsExclusive lts bytes stack_size page_size aux mem fun arg blank r lt in
      (
        is_lt-some (x.world.scheds s).current_lthread lt (ground (arith, c, sp.current s)),
        ground (arith, c, sp.sched s),
        ground (arith, c, sp.freed_rests s),
      )
    where
      is_lt-some : (o : Option ℕ) (y : ℕ) → is_lt o y ≡ true → o ≡ some y
      is_lt-some none y h = cc
      is_lt-some (some z) y h = ap some (ground arith)

  -- If no lthread exists before lthread_run, and the lthreads are orderly, an lthread that is freed is
  -- in no ready queue, no tree and not in the hand of the poller, and no scheduler has it in hand or
  -- as its current one.
  pub freed_nowhere :
      (lts : ℕ → Lthread) (bytes : ℕ → Bool) (stack_size page_size aux mem fun arg : ℕ) {x : System}
      → IsBlank lts
      → OrderlyReach
          (aux + 1)
          (started (run_start lts bytes stack_size page_size aux mem fun arg))
          x
      → (lt : ℕ) → (x.world.lts lt).allocated ≡ false
      → ((k : ℕ) → elem lt (elems (x.world.scheds k).ready) ≡ false)
        × ((k : ℕ) → has_id lt (entries (x.world.scheds k).sleeping) ≡ false)
        × (has_id lt (entries x.world.pool.poller.waiting) ≡ false)
        × (hands_over x.hand lt ≡ 0)
        × ((s : ℕ) → has (x.pc s) lt ≡ false)
        × ((s : ℕ) → is_lt (x.world.scheds s).current_lthread lt ≡ false)
  freed_nowhere lts bytes stack_size page_size aux mem fun arg {x} blank r lt f =
      let (q, sp) =
        OrderlyReach-IsExclusive lts bytes stack_size page_size aux mem fun arg blank r lt in
      let at = sp.freed f in
      (
        (λ k. elem-count lt (elems (x.world.scheds k).ready) (ground (arith, at, sp.queue k))),
        (λ k.
            let es = entries (x.world.scheds k).sleeping in
            ground (arith, at, sp.tree k, has_id-count lt es)),
        (let es = entries x.world.pool.poller.waiting in
            ground (arith, at, sp.poller, has_id-count lt es)),
        ground (arith, at, sp.hand),
        (λ s. has_none x q lt s sp (ground (arith, at)) (sp.freed_rests s f)),
        (λ s. sp.current s ∙ sp.freed_rests s f),
      )
