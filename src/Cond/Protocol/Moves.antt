-- ===== src/Cond/Protocol/Moves.antt =====
-- The effect of each operation keeps the invariant.
use lthread_concurrent.Prelude.{
  ℕ, ◌≡◌, ◌≢◌, refl, true, false, none, some, List, [], ◌∷◌, arith, ap, ◌∙◌, ◌⊎◌, elem, count,
  elem-append, count-append, elem-erase, count-erase-le, count-eq-zero, elem-eq-count,
}
use lthread_concurrent.Intrusive.{Intrusive}
use lthread_concurrent.State.{World, update}
use lthread_concurrent.Sched.Ready.{is_lt}
use lthread_concurrent.Cond.{State, is_none}
use lthread_concurrent.Cond.Handover.{blocked, is_blocked, Enqueues, HandsOver, GivesUp}
use lthread_concurrent.Cond.Protocol.{
  Phase, outside, locking, holding, waiting, System, Inv, IsParked,
}

module _ ⦃i : Intrusive⦄ where
  abbrev pub moved : State → (ℕ → Phase) → ℕ → Phase → System
  moved y phase self p = record { state = y; phase = update phase self p }

  -- Behind the others, with the lock in other hands or without a claim to it.
  pub Enqueues-Inv :
      (x : System) (y : State) (self : ℕ) (p : Phase)
      → x.phase self ≡ outside
      → (p ≡ waiting) ⊎ ((p ≡ locking) × (is_none x.state.cond.owner ≡ false))
      → Enqueues x.state y self
      → Inv x
      → Inv (moved y x.phase self p)
  Enqueues-Inv x y self p out claim v inv = record {
    once = λ lt.
        rw (v.queue, count-append lt (blocked x.state) (self ∷ []))
          (ground (arith, inv.once lt, inv.absent self out, count-eq-zero lt (blocked x.state)));
    flags = λ lt h.
        rw (v.queue, elem-append lt (blocked x.state) (self ∷ []))
          (ground (arith, inv.flags lt, v.flags lt));
    absent = λ lt h.
        rw (v.queue, elem-append lt (blocked x.state) (self ∷ [])) (ground (arith, inv.absent lt));
    unowned = λ lt h. rw v.owned (ground (arith, inv.unowned lt));
    holds = λ lt h. rw v.owned (ground (arith, inv.holds lt));
    apart = λ lt h. rw v.owned (
        ground (
          arith,
          inv.apart lt,
          inv.unowned self out,
          ap (elem lt) v.queue,
          elem-append lt (blocked x.state) (self ∷ []),
        ));
    handed = λ lt h e. rw v.owned (
        ground (
          arith,
          inv.handed lt,
          ap (elem lt) v.queue,
          elem-append lt (blocked x.state) (self ∷ []),
        ));
    kept = λ lt h. rw v.owned (ground (arith, inv.kept lt));
  }

  -- The lock goes to the first of the queue.
  pub HandsOver-Inv :
      (x : System) (y : State) (self lt : ℕ) (rest : List ℕ)
      → x.phase self ≡ holding
      → blocked x.state ≡ lt ∷ rest
      → HandsOver x.state y lt rest
      → Inv x
      → Inv (moved y x.phase self outside)
  HandsOver-Inv x y self lt rest hold q v inv = record {
    once = λ z. rw v.queue (ground (arith, inv.once z, ap (count z) q));
    flags = λ z h. rw v.queue (
        ground (
          arith,
          inv.flags z,
          v.flags z,
          ap (elem z) q,
          inv.once z,
          ap (count z) q,
          elem-eq-count z rest,
        ));
    absent = λ z h.
        rw v.queue
          (ground (arith, inv.absent z, ap (elem z) q, inv.holds self hold, inv.apart self));
    unowned = λ z h.
        rw v.owned
          (ground (arith, inv.absent z, inv.holds self hold, inv.apart self, ap (elem z) q));
    holds = λ z h. rw v.owned (ground (arith, inv.holds z, inv.holds self hold));
    apart = λ z h.
        rw v.owned
          (ground (arith, ap (elem z) v.queue, inv.once z, ap (count z) q, elem-eq-count z rest));
    handed = λ z h e.
        rw v.owned
          (ground (arith, ap (elem z) v.queue, inv.handed z, inv.holds self hold, ap (elem z) q));
    kept = λ z h. rw v.owned (ground arith);
  }

  -- The lock becomes free, with none in the queue.
  pub frees-Inv :
      (x : System) (self : ℕ)
      → x.phase self ≡ holding
      → blocked x.state ≡ []
      → Inv x
      → Inv (
          moved
            (record (x.state) { cond = record (x.state.cond) { owner = none } })
            x.phase
            self
            outside)
  frees-Inv x self hold q inv = record {
    once = inv.once;
    flags = λ z h. ground (arith, inv.flags z);
    absent = λ z h. ground (arith, ap (elem z) q);
    unowned = λ z h. refl;
    holds = λ z h. ground (arith, inv.holds z, inv.holds self hold);
    apart = λ z h. refl;
    handed = λ z h e. ground (arith, inv.handed z, inv.holds self hold, ap (elem z) q);
    kept = λ z h. ground (arith, inv.handed z, inv.holds self hold, ap (elem z) q);
  }

  -- A free lock is taken.
  pub takes-Inv :
      (x : System) (self : ℕ)
      → x.phase self ≡ outside
      → is_blocked x.state self ≡ false
      → x.state.cond.owner ≡ none
      → Inv x
      → Inv (
          moved
            (record (x.state) { cond = record (x.state.cond) { owner = some self } })
            x.phase
            self
            holding)
  takes-Inv x self out b o inv = record {
    once = inv.once;
    flags = λ z h. ground (arith, inv.flags z, inv.absent z);
    absent = λ z h. ground (arith, inv.absent z);
    unowned = λ z h. ground arith;
    holds = λ z h. ground (arith, inv.holds z);
    apart = λ z h. ground (arith, inv.absent self out);
    handed = λ z h e. ground (arith, inv.handed z);
    kept = λ z h. refl;
  }

  -- An lthread that has been handed the lock goes on with it.
  pub goes_on-Inv :
      (x : System) (self : ℕ)
      → x.phase self ≢ outside
      → is_lt x.state.cond.owner self ≡ true
      → Inv x
      → Inv (moved x.state x.phase self holding)
  goes_on-Inv x self h o inv = record {
    once = inv.once;
    flags = λ z k. ground (arith, inv.flags z);
    absent = λ z k. ground (arith, inv.absent z);
    unowned = λ z k. ground (arith, inv.unowned z);
    holds = λ z k. ground (arith, inv.holds z);
    apart = inv.apart;
    handed = λ z k e. ground (arith, inv.handed z);
    kept = λ z k. ground (arith, inv.kept z);
  }

  -- An lthread whose time is over leaves the queue.
  pub GivesUp-Inv :
      (x : System) (y : State) (self : ℕ)
      → is_lt x.state.cond.owner self ≡ false
      → GivesUp x.state y self
      → Inv x
      → Inv (moved y x.phase self outside)
  GivesUp-Inv x y self o v inv = record {
    once = λ z. rw v.queue (omega (arith, inv.once z, count-erase-le self z (blocked x.state)));
    flags = λ z k.
        rw (v.queue, elem-erase self z (blocked x.state) (inv.once self))
          (ground (arith, inv.flags z, v.flags z));
    absent = λ z k.
        rw (v.queue, elem-erase self z (blocked x.state) (inv.once self))
          (ground (arith, inv.absent z));
    unowned = λ z k. rw v.owned (ground (arith, inv.unowned z));
    holds = λ z k. rw v.owned (ground (arith, inv.holds z));
    apart = λ z k. rw v.owned (
        ground (
          arith,
          inv.apart z,
          ap (elem z) v.queue,
          elem-erase self z (blocked x.state) (inv.once self),
        ));
    handed = λ z k e. rw v.owned (
        ground (
          arith,
          inv.handed z,
          ap (elem z) v.queue,
          elem-erase self z (blocked x.state) (inv.once self),
        ));
    kept = λ z k. rw v.owned (ground (arith, inv.kept z));
  }

  -- What goes on elsewhere does not matter.
  pub elsewhere-Inv :
      (x : System) (w : World)
      → ((lt : ℕ) → IsParked (x.phase lt) → (w.lts lt).is_blocked ≡ is_blocked x.state lt)
      → Inv x
      → Inv (record { state = record (x.state) { world = w }; phase = x.phase })
  elsewhere-Inv x w same inv = record {
    once = inv.once;
    flags = λ z k. same z k ∙ inv.flags z k;
    absent = inv.absent;
    unowned = inv.unowned;
    holds = inv.holds;
    apart = inv.apart;
    handed = inv.handed;
    kept = inv.kept;
  }
