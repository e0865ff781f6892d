-- ===== src/Sched/System/Fifo.antt =====
-- src/lthread.c: the order in which lthreads leave a ready queue, whoever pushes and steals.
pub mod Growth
use lthread_concurrent.Prelude.{
  ℕ, ◌≡◌, refl, Bool, true, false, Option, some, none, List, [], ◌∷◌, ◌++◌, arith, ◌==◌,
  if◌then◌else◌, ◌<◌, length, ◌∙◌, sym, ap, head?, erase, elem, inl, inr, ℕ_discrete,
}
use mathlib.Core.Path.{subst}
use mathlib.Core.List.{append-nil, append_assoc}
use lthread_concurrent.Intrusive.{Intrusive}
use lthread_concurrent.State.{World, with_lt}
use lthread_concurrent.Sched.Ready.{
  sched_pop_ready, adopt, desched_event, sched_push_ready_unsafe, is_lt, insert_ready,
}
use lthread_concurrent.Sched.Sleep.{
  sched_sleep, wakeup_round, desched_sleep_unsafe, remove_sleeping,
}
use lthread_concurrent.Sched.Switch.{create, resume, resumed, yield_resched, exit}
use lthread_concurrent.Sched.Loop.{waits, again, finished, leave, end_wait}
use lthread_concurrent.Poller.{Event, poller_desched_event, begin_wait_fd, mark_eof, settle_event}
use lthread_concurrent.Sched.System.{
  System, go, Act, creates, wakes, yields, exits, sleeps, registers, blocks, Step, expire, pop,
  adopts, resumes, acts, switches, checks, retries, finishes, leaves, finds, hands, settles, Reach,
  here, next,
}
use lthread_concurrent.Sched.System.Frame.{
  pop-Still, try_wait-Still, end_wait-Still, leave-Still, registers_same,
}
use lthread_concurrent.Sched.System.Fifo.Growth.{
  Grows, same-Grows, desched_sleep-Grows, resumed-Grows, hands-Grows, Act-Grows, popped_first,
}

module _ ⦃i : Intrusive⦄ where
  open i use {elems}

  -- The lthreads that a step takes out of the queue of scheduler `j`
  abbrev pub leaving_queue : {n : ℕ} {x z : System} → ℕ → Step n x z → List ℕ
  leaving_queue {n} {x} j (pop {s} k {lt} block free l m c e) = if k == j then lt ∷ [] else []
  leaving_queue j _ = []

  -- and those that a run does, in order
  abbrev pub taken : {n : ℕ} {x z : System} → ℕ → Reach n x z → List ℕ
  taken j here = []
  taken j (next r st) = taken j r ++ leaving_queue j st

  abbrev pub IsQueueOf : (w w' : World) (j : ℕ) → List ℕ → Type 0
  IsQueueOf w w' j gone =
      (pushed : List ℕ) × (elems (w.scheds j).ready ++ pushed ≡ gone ++ elems (w'.scheds j).ready)

  Grows-IsQueueOf : (w w' : World) (j : ℕ) → Grows w w' j → IsQueueOf w w' j []
  Grows-IsQueueOf w w' j (pushed, e) = (pushed, sym e)

  Step-IsQueueOf :
      {n : ℕ} {x z : System} (j : ℕ)
      → (st : Step n x z) → IsQueueOf x.world z.world j (leaving_queue j st)
  Step-IsQueueOf {n} {x} j (expire {s} {lt} now l c e own due) =
      Grows-IsQueueOf x.world (desched_sleep_unsafe x.world lt) j (desched_sleep-Grows x.world lt j)
  Step-IsQueueOf {n} {x} j (pop {s} k {lt} block free {w} l m c e) =
      ([], append-nil _ ∙ popped_first x.world k lt j block free w e)
  Step-IsQueueOf {n} {x} j (adopts {s} {lt} l c) =
      Grows-IsQueueOf x.world (adopt x.world s (some lt)).0 j
        (same-Grows x.world (adopt x.world s (some lt)).0 j (unfold adopt in ground arith))
  Step-IsQueueOf {n} {x} j (resumes {s} {lt} {w} l c e) =
      Grows-IsQueueOf x.world w j (same-Grows x.world w j (unfold resume in ground arith))
  Step-IsQueueOf {n} {x} j (acts {s} {lt} {w} l c a) = Grows-IsQueueOf x.world w j (Act-Grows j a)
  Step-IsQueueOf {n} {x} j (switches {s} {lt} l c own) =
      Grows-IsQueueOf x.world (resumed x.world s lt) j (resumed-Grows x.world s lt j)
  Step-IsQueueOf {n} {x} j (checks {s} {w} l c e) =
      Grows-IsQueueOf x.world w j
        (same-Grows x.world w j ((pop-Still x.world s true true w e).queues j))
  Step-IsQueueOf {n} {x} j (retries {s} now {w} l c e) =
      Grows-IsQueueOf x.world w j
        (same-Grows x.world w j ((try_wait-Still x.world s now w again e).queues j))
  Step-IsQueueOf {n} {x} j (blocks {s} now {timeout} {deep} {w} l c e) =
      Grows-IsQueueOf x.world w j
        (same-Grows x.world w j ((try_wait-Still x.world s now w (waits deep timeout) e).queues j))
  Step-IsQueueOf {n} {x} j (finishes {s} now {w} l c e) =
      Grows-IsQueueOf x.world w j
        (same-Grows x.world w j ((try_wait-Still x.world s now w finished e).queues j))
  Step-IsQueueOf {n} {x} j (wakes {s} {deep} l c) =
      Grows-IsQueueOf x.world (end_wait x.world s deep) j
        (same-Grows x.world (end_wait x.world s deep) j ((end_wait-Still x.world s deep).queues j))
  Step-IsQueueOf {n} {x} j (leaves {s} l c) =
      Grows-IsQueueOf x.world (leave x.world s) j
        (same-Grows x.world (leave x.world s) j ((leave-Still x.world s).queues j))
  Step-IsQueueOf {n} {x} j (finds fd {lt} ev is_eof {w} c e) =
      Grows-IsQueueOf x.world w j
        (same-Grows x.world w j (unfold poller_desched_event in ground arith))
  Step-IsQueueOf {n} {x} j (hands {lt} {is_eof} c) =
      Grows-IsQueueOf x.world (desched_event (mark_eof x.world lt is_eof) lt) j
        (hands-Grows x.world lt is_eof j)
  Step-IsQueueOf {n} {x} j (settles c) =
      Grows-IsQueueOf x.world (settle_event x.world) j
        (same-Grows x.world (settle_event x.world) j (unfold settle_event in refl))

  -- Whatever the schedulers, the poller and the lthreads do, the ready queue of a scheduler is first
  -- in, first out: what it held at first, and then what was pushed, is in this order what has been
  -- taken out of it by any scheduler, and then what it still holds.
  pub Reach-IsQueueOf :
      {n : ℕ} {x z : System} (j : ℕ) → (r : Reach n x z) → IsQueueOf x.world z.world j (taken j r)
  Reach-IsQueueOf j here = ([], append-nil _)
  Reach-IsQueueOf {n} {x} j (next {y = y} {z = z} r st) =
      let (before, e) = Reach-IsQueueOf j r in
      let (pushed, e') = Step-IsQueueOf j st in
      let xs = elems (x.world.scheds j).ready in
      let ys = elems (y.world.scheds j).ready in
      (
        before ++ pushed,
        sym (append_assoc xs before pushed)
            ∙ ap (λ l. l ++ pushed) e
            ∙ append_assoc (taken j r) ys pushed
            ∙ ap (λ l. taken j r ++ l) e'
            ∙ sym (append_assoc (taken j r) (leaving_queue j st) (elems (z.world.scheds j).ready)),
      )

  -- If an lthread stands in the ready queue of a scheduler behind the lthreads `before`, and more
  -- than these have been taken out of the queue since, they have been taken first, and then the
  -- lthread: nobody overtakes it.
  pub nobody_overtakes :
      {n : ℕ} {x z : System} (j lt : ℕ) (before after : List ℕ) (r : Reach n x z)
      → elems (x.world.scheds j).ready ≡ before ++ lt ∷ after
      → length before < length (taken j r)
      → (rest : List ℕ) × (taken j r ≡ before ++ lt ∷ rest)
  nobody_overtakes {n} {x} {z} j lt before after r e more =
      let (pushed, q) = Reach-IsQueueOf j r in
      prefix lt before (after ++ pushed) (taken j r) (elems (z.world.scheds j).ready)
        (sym (append_assoc before (lt ∷ after) pushed) ∙ ap (λ l. l ++ pushed) (sym e) ∙ q) more
    where
      prefix :
          (lt : ℕ) (before after gone left : List ℕ)
          → before ++ lt ∷ after ≡ gone ++ left
          → length before < length gone
          → (rest : List ℕ) × (gone ≡ before ++ lt ∷ rest)
      prefix lt before after [] left e h = absurd (omega arith)
      prefix lt [] after (g ∷ gone) left e h = (gone, ground arith)
      prefix lt (b ∷ before) after (g ∷ gone) left e h =
          let (rest, q) = prefix lt before after gone left (ground arith) (omega arith) in
          (rest, ground arith)
