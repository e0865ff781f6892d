-- ===== src/Sched/System/Fifo/Growth.antt =====
-- src/lthread.c: what each critical section does to a ready queue.
use lthread_concurrent.Prelude.{
  ℕ, ◌≡◌, refl, Bool, true, Option, some, List, [], ◌∷◌, ◌++◌, arith, ◌==◌, if◌then◌else◌, ◌∙◌, sym,
  ap, head?, erase, elem, ℕ_discrete,
}
use mathlib.Core.Path.{subst}
use mathlib.Core.List.{append-nil}
use lthread_concurrent.Intrusive.{Intrusive}
use lthread_concurrent.State.{World}
use lthread_concurrent.Sched.Ready.{sched_pop_ready, desched_event, sched_push_ready_unsafe, is_lt}
use lthread_concurrent.Sched.Sleep.{
  sched_sleep, wakeup_round, desched_sleep_unsafe, remove_sleeping,
}
use lthread_concurrent.Sched.Switch.{create, resumed, yield_resched, exit}
use lthread_concurrent.Poller.{mark_eof}
use lthread_concurrent.Sched.System.{Act, creates, wakes, yields, exits, sleeps, registers, blocks}
use lthread_concurrent.Sched.System.Frame.{registers_same}

erase-head? : (x : ℕ) (xs : List ℕ) → head? xs ≡ some x → (xs ≡ x ∷ erase x xs) × (elem x xs ≡ true)
erase-head? x [] h = cc
erase-head? x (y ∷ ys) h = (ground arith, ground arith)

module _ ⦃i : Intrusive⦄ where
  open i use {elems, elems-tailq_insert_tail, elems-tailq_remove, tailq_first_lem}

  -- The queue of scheduler `j` has only become longer, at its end.
  abbrev pub Grows : World → World → ℕ → Type 0
  Grows w w' j =
      (pushed : List ℕ) × (elems (w'.scheds j).ready ≡ elems (w.scheds j).ready ++ pushed)

  pub same-Grows : (w w' : World) (j : ℕ) → (w'.scheds j).ready ≡ (w.scheds j).ready → Grows w w' j
  same-Grows w w' j e = ([], ap elems e ∙ sym (append-nil _))

  push-Grows : (w : World) (s lt j : ℕ) → Grows w (sched_push_ready_unsafe w s lt) j
  unfolding sched_push_ready_unsafe
  push-Grows w s lt j =
      let k = (w.lts lt).sched in
      let q = elems-tailq_insert_tail (w.scheds k).ready lt in
      let n = append-nil (elems (w.scheds j).ready) in
      (
        if is_lt (w.scheds k).current_lthread lt then [] else if k == j then lt ∷ [] else [],
        ground (arith, q, n),
      )

  pub resumed-Grows : (w : World) (s lt j : ℕ) → Grows w (resumed w s lt) j
  unfolding resumed
  resumed-Grows w s lt j =
      let k = (w.lts lt).sched in
      let q = elems-tailq_insert_tail (w.scheds k).ready lt in
      let n = append-nil (elems (w.scheds j).ready) in
      (
        if (w.lts lt).needs_resched then if k == j then lt ∷ [] else [] else [],
        ground (arith, q, n),
      )

  pub desched_sleep-Grows : (w : World) (lt j : ℕ) → Grows w (desched_sleep_unsafe w lt) j
  unfolding desched_sleep_unsafe
  desched_sleep-Grows w lt j =
      let (pushed, e) = push-Grows (remove_sleeping w lt) (w.lts lt).sched lt j in
      let same : ((remove_sleeping w lt).scheds j).ready ≡ (w.scheds j).ready =
        unfold remove_sleeping in ground arith in
      (pushed, e ∙ ap (λ q. elems q ++ pushed) same)

  pub hands-Grows :
      (w : World) (lt : ℕ) (is_eof : Bool) (j : ℕ)
      → Grows w (desched_event (mark_eof w lt is_eof) lt) j
  unfolding desched_event
  hands-Grows w lt is_eof j =
      let v = mark_eof w lt is_eof in
      let (pushed, e) = push-Grows v (v.lts lt).sched lt j in
      let same : (v.scheds j).ready ≡ (w.scheds j).ready = unfold mark_eof in ground arith in
      (pushed, e ∙ ap (λ q. elems q ++ pushed) same)

  creates-Grows :
      (w : World) (s new fun arg : ℕ) (w' : World) (r : Option ℕ) (j : ℕ)
      → create w (some s) (some new) fun arg ≡ (w', r)
      → Grows w w' j
  unfolding create
  creates-Grows w s new fun arg w' r j e = subst (λ p. Grows w p.0 j) e (push-Grows _ s new j)

  wakes-Grows :
      (w : World) (s z : ℕ) (w' : World) (j : ℕ) → wakeup_round w s z ≡ some w' → Grows w w' j
  unfolding wakeup_round
  wakes-Grows w s z w' j e = elim (ℕ_discrete (w.lts z).sleep_usecs 0) [
    | yes q ↦
        let woken : sched_push_ready_unsafe w s z ≡ w' = ground arith in
        subst (λ v. Grows w v j) woken (push-Grows w s z j)
    | no q ↦
        let woken : desched_sleep_unsafe w z ≡ w' = ground arith in
        subst (λ v. Grows w v j) woken (desched_sleep-Grows w z j)
  ]

  sleeps_same :
      (f : ℕ) (w : World) (lt msecs now : ℕ) (w' : World) (j : ℕ)
      → sched_sleep f w lt msecs now ≡ some w'
      → (w'.scheds j).ready ≡ (w.scheds j).ready
  unfolding sched_sleep
  sleeps_same f w lt msecs now w' j e = ground arith

  pub Act-Grows : {s lt : ℕ} {w w' : World} (j : ℕ) → Act s lt w w' → Grows w w' j
  Act-Grows {s} {lt} {w} {w'} j (creates new fun arg {w' = _} {r = r} e) =
      creates-Grows w s new fun arg w' r j e
  Act-Grows {s} {lt} {w} {w'} j (wakes z can e) = wakes-Grows w (w.lts z).sched z w' j e
  Act-Grows {s} {lt} {w} {w'} j yields = same-Grows w w' j (unfold yield_resched in refl)
  Act-Grows {s} {lt} {w} {w'} j exits = same-Grows w w' j (unfold exit in refl)
  Act-Grows {s} {lt} {w} {w'} j (sleeps f msecs now own e) =
      same-Grows w w' j (sleeps_same f w lt msecs now w' j e)
  Act-Grows {s} {lt} {w} {w'} j (registers fd ev e) =
      same-Grows w w' j (ap (λ t. (t j).ready) (sym (registers_same w lt fd ev w' e).0))
  Act-Grows {s} {lt} {w} {w'} j (blocks z b) = same-Grows w w' j refl

  pub popped_first :
      (w : World) (k lt j : ℕ) (block free : Bool) (w' : World)
      → sched_pop_ready w k block free ≡ (w', some lt)
      → elems (w.scheds j).ready ≡ (if k == j then lt ∷ [] else []) ++ elems (w'.scheds j).ready
  unfolding sched_pop_ready
  popped_first w k lt j block free w' e =
      let q = (w.scheds k).ready in
      let first = tailq_first_lem q in
      let head = erase-head? lt (elems q) in
      let removed = elems-tailq_remove q lt in ground (arith, first, head, removed)
