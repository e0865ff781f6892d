-- ===== src/Poller.antt =====
-- src/lthread_poller.c and _lthread_wait_fd of src/lthread.c: lthreads that wait for a file
-- descriptor, and the thread that hands them over to their schedulers. What the kernel reports,
-- and the calls of epoll and kqueue that ask for it, are input: a list of events.
pub mod Keys
pub mod Waiting
pub mod Removal
pub mod Handing
pub mod Delivery
pub mod Batch
use lthread_concurrent.Prelude.{
  ℕ, ◌+◌, ◌-◌, ◌%◌, ◌^◌, Bool, true, false, ◌||◌, Option, none, some, List, [], ◌∷◌, if◌then◌else◌,
}
use lthread_concurrent.Intrusive.{Intrusive}
use lthread_concurrent.State.{Lthread, Flags, Poller, World, with_lt, with_pool}
use lthread_concurrent.Sched.Ready.{desched_event}

-- enum lthread_event
pub data Event : Type 0 where
  read write : Event

-- The conversion of an int to int16_t, and of that to uint16_t, as bit patterns
abbrev pub u16 : ℕ → ℕ
u16 n = n % 2 ^ 16

-- The int16_t -1
abbrev pub no_fd : ℕ
no_fd = 2 ^ 16 - 1

-- The key of a descriptor and a direction; LT_EV_READ is 0 and LT_EV_WRITE is 1.
abbrev pub event_key : ℕ → Event → ℕ
event_key fd read = u16 fd
event_key fd write = u16 fd + 2 ^ 16

-- fd_key: what _lthread_wait_cmp compares
unfoldable pub fd_key : Lthread → ℕ
fd_key l = if l.state.wait_read then event_key l.fd_wait read else event_key l.fd_wait write

-- `state |= BIT(LT_ST_WAIT_READ)` and the like, and the contrary with CLEARBIT
unfoldable pub set_wait : Event → Bool → Flags → Flags
set_wait read b s = record s { wait_read = b }
set_wait write b s = record s { wait_write = b }

module _ ⦃i : Intrusive⦄ where
  open i use {rb_insert, rb_find, rb_remove}

  abbrev pub with_poller : World → Poller → World
  with_poller w p = with_pool w (record (w.pool) { poller = p })

  -- _lthread_poller_add_waiting_lthread; `none` is a failed assertion.
  unfoldable pub add_waiting_lthread : World → (lt fd : ℕ) → Event → Option World
  unfolding fd_key set_wait
  add_waiting_lthread w lt fd ev =
      let l = w.lts lt in
      let p = w.pool.poller in
      let l' = record l { state = set_wait ev true l.state; fd_wait = u16 fd } in
      if l.state.wait_read || l.state.wait_write
      then none
      else (let (t, taken) = rb_insert p.waiting (fd_key l') lt in
          elim taken [
            | some y ↦ none
            | none ↦ some (
                with_poller (with_lt w lt l')
                  (record { waiting = t; num_pending_events = p.num_pending_events + 1 }))
          ])

  -- The lthread with this key, if one waits, leaves the tree: it waits no more in that direction.
  unfoldable pub desched_key : World → (key : ℕ) → Event → World × Option ℕ
  unfolding set_wait
  desched_key w key ev =
      let p = w.pool.poller in
      elim (rb_find p.waiting key) [
        | none ↦ (w, none)
        | some lt ↦
            let l = w.lts lt in
            (
              with_poller
                  (with_lt w lt (record l { state = set_wait ev false l.state; fd_wait = no_fd }))
                  (record p { waiting = rb_remove p.waiting lt }),
              some lt,
            )
      ]

  -- _lthread_poller_desched_event
  unfoldable pub poller_desched_event : World → (fd : ℕ) → Event → World × Option ℕ
  unfolding desched_key
  poller_desched_event w fd ev = desched_key w (event_key fd ev) ev

  -- `if (is_eof) lt->state |= BIT(LT_ST_FDEOF);`
  unfoldable pub mark_eof : World → ℕ → Bool → World
  mark_eof w lt is_eof =
      if is_eof
      then with_lt w lt (record (w.lts lt) { state = record ((w.lts lt).state) { fdeof = true } })
      else w

  -- `--poller->num_pending_events;`
  unfoldable pub settle_event : World → World
  settle_event w =
      let p = w.pool.poller in
      with_poller w (record p { num_pending_events = p.num_pending_events - 1 })

  -- What _lthread_poller_handle_event does with its find.
  unfoldable pub deliver : Bool → World × Option ℕ → World × Option ℕ
  unfolding mark_eof settle_event
  deliver is_eof (w, none) = (w, none)
  deliver is_eof (w, some lt) = (settle_event (desched_event (mark_eof w lt is_eof) lt), some lt)

  -- _lthread_poller_handle_event
  unfoldable pub handle_event : World → (fd : ℕ) → Event → (is_eof : Bool) → World × Option ℕ
  unfolding poller_desched_event deliver
  handle_event w fd ev is_eof = deliver is_eof (poller_desched_event w fd ev)

  -- One round of the loop of lthread_poller_poll; `none` is a failed assertion. Each
  -- _lthread_poller_handle_event takes the mutex anew: `others n` is what all other threads have done
  -- by the n-th time, such as the registrations of lthreads.
  unfoldable pub poll_event :
      (others : ℕ → World → World) → ℕ → World → (fd : ℕ) → (is_eof : Bool) → Option World
  poll_event others n w fd is_eof =
      let (v, lt_read) = handle_event (others n w) fd read is_eof in
      let (u, lt_write) = handle_event (others (n + 1) v) fd write is_eof in
      elim lt_write [ some lt ↦ some u | none ↦ elim lt_read [ some lt ↦ some u | none ↦ none ] ]

  -- The loop of lthread_poller_poll over the events of one call of epoll_wait or kevent, each a
  -- descriptor and whether it is at its end
  unfoldable pub poll_events :
      (others : ℕ → World → World) → ℕ → World → List (ℕ × Bool) → Option World
  poll_events others n w [] = some w
  poll_events others n w ((fd, is_eof) ∷ es) = elim (poll_event others n w fd is_eof) [
    | none ↦ none
    | some w' ↦ poll_events others (n + 2) w' es
  ]

  -- _lthread_wait_fd up to the switch, by lthread `lt`: what it does to the world. It registers the
  -- descriptor with the system too, by lthread_poller_schedule_event, which is Backend.schedule_event;
  -- here the events that follow are input.
  unfoldable pub begin_wait_fd : World → (lt fd : ℕ) → Event → Option World
  unfolding add_waiting_lthread
  begin_wait_fd w lt fd ev = add_waiting_lthread w lt fd ev

  -- and after it: whether the result is 0, and not -1
  unfoldable pub end_wait_fd : World → ℕ → World × Bool
  end_wait_fd w lt =
      let l = w.lts lt in
      if l.state.fdeof
      then (with_lt w lt (record l { state = record (l.state) { fdeof = false } }), false)
      else (w, true)
