-- ===== src/Backend/Epoll.antt =====
-- src/lthread_epoll.c, with the poller that its functions name as a parameter. Words of event bits
-- are flags, one for each bit that the code uses. The system's calls are a parameter.
use lthread_concurrent.Prelude.{
  ℕ, ◌+◌, ◌*◌, ◌/◌, Bool, true, false, Option, none, some, ◌==◌, if◌then◌else◌,
}
use lthread_concurrent.Backend.{Backend, Poll}
use lthread_concurrent.Pthread.{Timespec}

-- Event bits of epoll
pub record EpollEvents : Type 0 where
  pub epollin : Bool
  pub epollout : Bool
  pub epollhup : Bool
  pub epollrdhup : Bool
  pub epolloneshot : Bool

-- struct epoll_event
pub record EpollEvent : Type 0 where
  pub events : EpollEvents
  pub fd : ℕ

pub data Control : Type 0 where
  epoll_ctl_add epoll_ctl_mod : Control

pub record EpollCalls : Type 1 where
  pub Kernel : Type 0
  pub epoll_create : Kernel → (size : ℕ) → Kernel × ℕ
  -- with the time limit in milliseconds
  pub epoll_wait : Kernel → (poller_fd max_events timeout : ℕ) → Kernel × Poll EpollEvent
  -- with whether it succeeds
  pub epoll_ctl : Kernel → (poller_fd : ℕ) → Control → (fd : ℕ) → EpollEvent → Kernel × Bool
  -- eventfd(0, EFD_NONBLOCK), and `none` for -1
  pub eventfd : Kernel → Kernel × Option ℕ
  -- read and write of eight bytes, and whether they succeed
  pub read_word : Kernel → (fd : ℕ) → Kernel × Bool
  pub write_word : Kernel → (fd word : ℕ) → Kernel × Bool

-- LT_MAX_EVENTS
abbrev pub max_events : ℕ
max_events = 1024

abbrev pub no_events : EpollEvents
no_events = record {
  epollin = false;
  epollout = false;
  epollhup = false;
  epollrdhup = false;
  epolloneshot = false;
}

-- The requests of the two functions that register a descriptor
abbrev pub read_request : ℕ → EpollEvent
read_request fd = record {
  events = record no_events { epollin = true; epolloneshot = true; epollrdhup = true };
  fd = fd;
}

abbrev pub write_request : ℕ → EpollEvent
write_request fd = record {
  events = record no_events { epollout = true; epolloneshot = true; epollrdhup = true };
  fd = fd;
}

module _ (c : EpollCalls) (poller_fd : ℕ) where
  open c use {Kernel}

  -- _lthread_poller_create
  unfoldable pub epoll_poller_create : Kernel → Kernel × ℕ
  epoll_poller_create k = c.epoll_create k 1024

  -- _lthread_poller_poll
  unfoldable pub epoll_poll : Timespec → Kernel → Kernel × Poll EpollEvent
  epoll_poll t k = c.epoll_wait k poller_fd max_events (t.tv_sec * 1000 + t.tv_nsec / 1000000)

  -- A change of a registration, or a new one
  unfoldable pub epoll_register : Kernel → EpollEvent → Option Kernel
  epoll_register k ev =
      let (k', changed) = c.epoll_ctl k poller_fd epoll_ctl_mod ev.fd ev in
      let (k'', added) = c.epoll_ctl k' poller_fd epoll_ctl_add ev.fd ev in
      if changed then some k' else (if added then some k'' else none)

  -- lthread_poller_ev_register_rd
  unfoldable pub epoll_register_rd : Kernel → (fd : ℕ) → Option Kernel
  unfolding epoll_register
  epoll_register_rd k fd = epoll_register k (read_request fd)

  -- lthread_poller_ev_register_wr
  unfoldable pub epoll_register_wr : Kernel → (fd : ℕ) → Option Kernel
  unfolding epoll_register
  epoll_register_wr k fd = epoll_register k (write_request fd)

  -- lthread_poller_ev_register_trigger, with the descriptor that it keeps; 0 is none.
  unfoldable pub epoll_register_trigger : Kernel → (eventfd : ℕ) → Option (Kernel × ℕ)
  epoll_register_trigger k eventfd =
      let (k', fresh) = (if eventfd == 0 then c.eventfd k else (k, some eventfd)) in
      elim fresh [
        | none ↦ none
        | some fd ↦
            let ev : EpollEvent = record {
              events = record no_events { epollin = true };
              fd = fd;
            } in
            let (k'', added) = c.epoll_ctl k' poller_fd epoll_ctl_add fd ev in
            if added then some (k'', fd) else none
      ]

  -- lthread_poller_ev_clear_trigger
  unfoldable pub epoll_clear_trigger : Kernel → (eventfd : ℕ) → Option Kernel
  epoll_clear_trigger k eventfd =
      let (k', whole) = c.read_word k eventfd in if whole then some k' else none

  -- lthread_poller_ev_trigger
  unfoldable pub epoll_trigger : Kernel → (eventfd : ℕ) → Option Kernel
  epoll_trigger k eventfd =
      let (k', whole) = c.write_word k eventfd 2 in if whole then some k' else none

-- lthread_poller_ev_get_fd
unfoldable pub epoll_get_fd : EpollEvent → ℕ
epoll_get_fd ev = ev.fd

-- lthread_poller_ev_get_event
unfoldable pub epoll_get_event : EpollEvent → EpollEvents
epoll_get_event ev = ev.events

-- lthread_poller_ev_is_eof
unfoldable pub epoll_is_eof : EpollEvent → Bool
epoll_is_eof ev = ev.events.epollhup

-- lthread_poller_ev_is_write
unfoldable pub epoll_is_write : EpollEvent → Bool
epoll_is_write ev = ev.events.epollout

-- lthread_poller_ev_is_read
unfoldable pub epoll_is_read : EpollEvent → Bool
epoll_is_read ev = ev.events.epollin

-- The time limit is a parameter: lthread_poller_poll passes 0 where this file takes a struct.
unfoldable pub epoll_backend : EpollCalls → (poller_fd : ℕ) → Timespec → Backend
epoll_backend c poller_fd t = record {
  Kernel = c.Kernel;
  Raised = EpollEvent;
  poll = epoll_poll c poller_fd t;
  ev_register_rd = epoll_register_rd c poller_fd;
  ev_register_wr = epoll_register_wr c poller_fd;
  ev_get_fd = epoll_get_fd;
  ev_is_eof = epoll_is_eof;
}
