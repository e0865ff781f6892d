-- ===== src/Sched/System/Exclusive/Places.antt =====
-- What the place of an lthread says of the threads and containers.
use lthread_concurrent.Prelude.{
  ℕ, ◌<◌, ◌≡◌, refl, true, false, Bool-cases, inl, inr, ◌⊎◌, arith, ◌∙◌, sym, ap,
}
use lthread_concurrent.Intrusive.{Intrusive}
use lthread_concurrent.Sched.System.{
  Pc, System, looping, found, chosen, running, checked, waiting, leaving, gone,
}
use lthread_concurrent.Sched.System.Exclusive.{
  Place, nowhere, queued, held, asleep, waits, handed, marked, Spot, IsParked, takes, runs, owns,
  in_queue, in_thread, in_tree, in_poller, in_hand, may_run,
}

pub queued_at : (q : Place) (j : ℕ) → 0 < in_queue q j → q ≡ queued j
queued_at (queued s) j h = ap queued (ground arith)
queued_at nowhere j h = absurd (omega arith)
queued_at (held s) j h = absurd (omega arith)
queued_at (asleep s) j h = absurd (omega arith)
queued_at waits j h = absurd (omega arith)
queued_at handed j h = absurd (omega arith)
queued_at marked j h = absurd (omega arith)

pub held_at : (q : Place) (j : ℕ) → 0 < in_thread q j → q ≡ held j
held_at (held s) j h = ap held (ground arith)
held_at nowhere j h = absurd (omega arith)
held_at (queued s) j h = absurd (omega arith)
held_at (asleep s) j h = absurd (omega arith)
held_at waits j h = absurd (omega arith)
held_at handed j h = absurd (omega arith)
held_at marked j h = absurd (omega arith)

pub asleep_at : (q : Place) (j : ℕ) → 0 < in_tree q j → q ≡ asleep j
asleep_at (asleep s) j h = ap asleep (ground arith)
asleep_at nowhere j h = absurd (omega arith)
asleep_at (queued s) j h = absurd (omega arith)
asleep_at (held s) j h = absurd (omega arith)
asleep_at waits j h = absurd (omega arith)
asleep_at handed j h = absurd (omega arith)
asleep_at marked j h = absurd (omega arith)

pub waits_at : (q : Place) → 0 < in_poller q → q ≡ waits
waits_at waits h = refl
waits_at nowhere h = absurd (omega arith)
waits_at (queued s) h = absurd (omega arith)
waits_at (held s) h = absurd (omega arith)
waits_at (asleep s) h = absurd (omega arith)
waits_at handed h = absurd (omega arith)
waits_at marked h = absurd (omega arith)

pub handed_at : (q : Place) → 0 < in_hand q → q ≡ handed
handed_at handed h = refl
handed_at nowhere h = absurd (omega arith)
handed_at (queued s) h = absurd (omega arith)
handed_at (held s) h = absurd (omega arith)
handed_at (asleep s) h = absurd (omega arith)
handed_at waits h = absurd (omega arith)
handed_at marked h = absurd (omega arith)

module _ ⦃i : Intrusive⦄ where
  open i use {elems, entries}

  pub parked-Spot : (x : System) (q : Place) (y : ℕ) → IsParked x y → Spot x q y → Spot x nowhere y
  parked-Spot x q y k sp = record {
    queue = λ j. omega (arith, k.queue j);
    tree = λ j. omega (arith, k.tree j);
    poller = omega (arith, k.poller);
    hand = omega (arith, k.hand);
    thread = λ s. omega (arith, k.thread s);
    mark = λ e. let u = k.unmarked in cc;
    exited = λ e. refl;
    freed = λ e. refl;
    freed_rests = sp.freed_rests;
    sched = sp.sched;
    current = sp.current;
    calm = λ s e. refl;
    flag = sp.flag;
  }

  -- What is queued or taken does not run.
  pub rests :
      (x : System) (q : Place) (y s : ℕ) → Spot x q y → may_run q ≡ false → runs (x.pc s) y ≡ false
  rests x q y s sp m = ground (arith, sp.calm s)

  pub flag_off :
      (x : System) (q : Place) (y : ℕ)
      → Spot x q y
      → may_run q ≡ false
      → (x.world.lts y).is_running ≡ false
  flag_off x q y sp m = elim (Bool-cases (x.world.lts y).is_running) [
    | inl on ↦ let (s, r) = sp.flag on in absurd (ground (arith, rests x q y s sp m))
    | inr off ↦ off
  ]

  pub owns-cases : (p : Pc) (y : ℕ) → owns p y ≡ true → (takes p y ≡ 1) ⊎ (runs p y ≡ true)
  owns-cases (chosen z) y o = inl (ground arith)
  owns-cases (running z) y o = inr o
  owns-cases looping y o = cc
  owns-cases (found z) y o = cc
  owns-cases checked y o = cc
  owns-cases (waiting deep) y o = cc
  owns-cases leaving y o = cc
  owns-cases gone y o = cc

  pub runs-owns : (p : Pc) (y : ℕ) → runs p y ≡ true → owns p y ≡ true
  runs-owns (running z) y r = r
  runs-owns (chosen z) y r = cc
  runs-owns looping y r = cc
  runs-owns (found z) y r = cc
  runs-owns checked y r = cc
  runs-owns (waiting deep) y r = cc
  runs-owns leaving y r = cc
  runs-owns gone y r = cc

  pub taken_at :
      (x : System) (s lt : ℕ) (q : Place) (p : Pc)
      → x.pc s ≡ p
      → takes p lt ≡ 1
      → Spot x q lt
      → q ≡ held s
  taken_at x s lt q p c t sp = held_at q s (ground (arith, c, t, sp.thread s))

  pub owner : (x : System) (s j lt : ℕ) → Spot x (held s) lt → owns (x.pc j) lt ≡ true → s ≡ j
  owner x s j lt sp o = ground (arith, sp.thread j, sp.calm j, owns-cases (x.pc j) lt o)

  -- No two schedulers run the same lthread.
  pub alone_at :
      (x : System) (s k lt : ℕ) {q : Place}
      → (x.world.lts lt).sched ≡ s
      → Spot x q lt
      → runs (x.pc k) lt ≡ true
      → s ≡ k
  alone_at x s k lt own sp r = sym own ∙ sp.sched k (runs-owns (x.pc k) lt r)
