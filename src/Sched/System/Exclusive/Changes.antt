-- ===== src/Sched/System/Exclusive/Changes.antt =====
-- src/lthread.c: a step of the system, seen by an lthread that it does not move.
use lthread_concurrent.Prelude.{ℕ, ◌≤◌, ◌≡◌, refl, true, arith, ◌∙◌, sym, ℕ_discrete}
use mathlib.Core.Path.{subst}
use lthread_concurrent.Intrusive.{Intrusive}
use lthread_concurrent.State.{World, update}
use lthread_concurrent.Sched.Ready.{is_lt}
use lthread_concurrent.Sched.System.{Pc, Hand, System, go}
use lthread_concurrent.Sched.System.Exclusive.{Place, Spot, takes, runs, owns, hands_over}
use lthread_concurrent.Sched.System.Exclusive.Apart.{Apart}

module _ ⦃i : Intrusive⦄ where
  -- `p` holds `y` no more than `c` does, and runs it if `c` does.
  pub record Less (c p : Pc) (y : ℕ) : Type 0 where
    pub takes_less : takes p y ≤ takes c y
    pub runs_same : runs p y ≡ runs c y
    pub owns_less : owns p y ≡ true → owns c y ≡ true

  Less-refl : (c : Pc) (y : ℕ) → Less c c y
  Less-refl c y = record { takes_less = omega arith; runs_same = refl; owns_less = λ e. e }

  pub Spot-keeps :
      (x x' : System) (q : Place) (y : ℕ)
      → Apart x.world x'.world y
      → hands_over x'.hand y ≤ hands_over x.hand y
      → ((s : ℕ) → Less (x.pc s) (x'.pc s) y)
      → ((s : ℕ) → is_lt (x'.world.scheds s).current_lthread y ≡ runs (x'.pc s) y)
      → Spot x q y
      → Spot x' q y
  Spot-keeps x x' q y a h l c sp = record {
    queue = λ j. omega (arith, a.queue j, sp.queue j);
    tree = λ j. omega (arith, a.tree j, sp.tree j);
    poller = omega (arith, a.poller, sp.poller);
    hand = omega (arith, h, sp.hand);
    thread = λ s. omega (arith, (l s).takes_less, sp.thread s);
    mark = λ e. sp.mark (sym a.mark ∙ e);
    exited = λ e. sp.exited (sym a.exited ∙ e);
    freed = λ e. sp.freed (sym a.allocated ∙ e);
    freed_rests = λ s e. (l s).runs_same ∙ sp.freed_rests s (sym a.allocated ∙ e);
    sched = λ s e. a.sched ∙ sp.sched s ((l s).owns_less e);
    current = c;
    calm = λ s e. sp.calm s (sym (l s).runs_same ∙ e);
    flag = λ e. let (s, r) = sp.flag (sym a.is_running ∙ e) in (s, (l s).runs_same ∙ r);
  }

  pub Less-update :
      (pc : ℕ → Pc) (s : ℕ) (p : Pc) (y : ℕ)
      → Less (pc s) p y
      → (j : ℕ) → Less (pc j) (update pc s p j) y
  Less-update pc s p y l j = elim (ℕ_discrete s j) [
    | yes e ↦ ground (arith, l)
    | no e ↦ subst (λ c. Less (pc j) c y) (ground arith) (Less-refl (pc j) y)
  ]

  -- Scheduler `s` moves on to `p`, and the current lthreads stay.
  pub Spot-go :
      (x : System) (w : World) (s : ℕ) (p : Pc) (q : Place) (y : ℕ)
      → Apart x.world w y
      → Less (x.pc s) p y
      → Spot x q y
      → Spot (go x w s p) q y
  Spot-go x w s p q y a l sp =
      let less = Less-update x.pc s p y l in
      Spot-keeps x (go x w s p) q y a (omega arith) less
        (λ j. a.current j ∙ sp.current j ∙ sym (less j).runs_same) sp

  -- The world changes, and the poller's hand.
  pub Spot-world :
      (x : System) (w : World) (h : Hand) (q : Place) (y : ℕ)
      → Apart x.world w y
      → hands_over h y ≤ hands_over x.hand y
      → Spot x q y
      → Spot (record x { world = w; hand = h }) q y
  Spot-world x w h q y a l sp =
      Spot-keeps x (record x { world = w; hand = h }) q y a l (λ s. Less-refl (x.pc s) y)
        (λ j. a.current j ∙ sp.current j) sp
