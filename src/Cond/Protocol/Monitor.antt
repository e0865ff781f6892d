-- ===== src/Cond/Protocol/Monitor.antt =====
-- src/lthread_cond.c: what a condition variable promises, as a lock with a queue that is a function
-- of the calls.
use lthread_concurrent.Prelude.{
  ℕ, ◌≡◌, refl, Option, none, some, List, [], ◌∷◌, ◌++◌, elem, erase, if◌then◌else◌, ◌||◌, ◌&&◌,
  not,
}
use lthread_concurrent.Sched.Ready.{is_lt}
use lthread_concurrent.Cond.{◌>>=◌, is_none}

-- A lock, and who waits for it in turn.
pub record Monitor : Type 0 where
  pub owner : Option ℕ
  pub queue : List ℕ

-- What lthreads do: they ask for the lock, go on with it after they have been in the queue, wait,
-- give up, and unlock.
pub data Action : Type 0 where
  locks goes_on waits gives_up unlocks : (self : ℕ) → Action

abbrev pub unused : Monitor
unused = record { owner = none; queue = [] }

-- The lock goes to the first of the queue, or becomes free if there is none.
abbrev pub hand_on : List ℕ → Monitor
hand_on [] = unused
hand_on (lt ∷ rest) = record { owner = some lt; queue = rest }

-- The lock as it should be. Whoever asks for it, not having it nor being in the queue, takes it if it
-- is free, and otherwise stands at the end of the queue. The owner goes on with it. An owner that waits
-- hands it on and stands at the end of the queue; one that unlocks hands it on. Only who is in the
-- queue, and not the owner, gives up, and leaves the queue. `none` is an action out of turn.
abbrev pub act : Monitor → Action → Option Monitor
act m (locks self) =
    if is_lt m.owner self || elem self m.queue
    then none
    else if is_none m.owner
    then some (record m { owner = some self })
    else some (record m { queue = m.queue ++ self ∷ [] })
act m (goes_on self) = if is_lt m.owner self then some m else none
act m (waits self) =
    if is_lt m.owner self && not (elem self m.queue)
    then some (record (hand_on m.queue) { queue = (hand_on m.queue).queue ++ self ∷ [] })
    else none
act m (gives_up self) =
    if elem self m.queue && not (is_lt m.owner self)
    then some (record m { queue = erase self m.queue })
    else none
act m (unlocks self) = if is_lt m.owner self then some (hand_on m.queue) else none

abbrev pub act_all : Option Monitor → List Action → Option Monitor
act_all m [] = m
act_all m (a ∷ rest) = act_all (m >>= λ m'. act m' a) rest

pub act_all-append :
    (m : Option Monitor) (first last : List Action)
    → act_all m (first ++ last) ≡ act_all (act_all m first) last
act_all-append m [] last = refl
act_all-append m (a ∷ rest) last = act_all-append (m >>= λ m'. act m' a) rest last
