-- ===== src/Backend/Kqueue.antt =====
-- src/lthread_kqueue.c. Words of flags are records, with a field for each flag that the code uses.
-- The system's calls are a parameter.
use lthread_concurrent.Prelude.{ℕ, ◌-◌, ◌^◌, Bool, true, false, Option, none, some, if◌then◌else◌}
use lthread_concurrent.Backend.{Backend, Poll}

pub data Filter : Type 0 where
  evfilt_read evfilt_write evfilt_user : Filter

-- Who an event is about: a descriptor, or -1 for the trigger
pub data Ident : Type 0 where
  descriptor : ℕ → Ident
  trigger : Ident

pub record KeventFlags : Type 0 where
  pub ev_add : Bool
  pub ev_enable : Bool
  pub ev_oneshot : Bool
  pub ev_disable : Bool
  pub ev_eof : Bool

pub record FilterFlags : Type 0 where
  pub note_ffcopy : Bool
  pub note_trigger : Bool
  pub ev_clear : Bool
  pub low_bit : Bool

-- struct kevent
pub record Kevent : Type 0 where
  pub ident : Ident
  pub filter : Filter
  pub flags : KeventFlags
  pub fflags : FilterFlags

pub record KqueueCalls : Type 1 where
  pub Kernel : Type 0
  pub kqueue : Kernel → Kernel × ℕ
  -- kevent with one change and no events, and whether it succeeds
  pub change : Kernel → (poller_fd : ℕ) → Kevent → Kernel × Bool
  -- kevent with no change, and with no time limit, as lthread_poller_poll passes a null pointer
  pub wait : Kernel → (poller_fd max_events : ℕ) → Kernel × Poll Kevent

abbrev pub no_flags : KeventFlags
no_flags = record {
  ev_add = false;
  ev_enable = false;
  ev_oneshot = false;
  ev_disable = false;
  ev_eof = false;
}

abbrev pub no_fflags : FilterFlags
no_fflags = record { note_ffcopy = false; note_trigger = false; ev_clear = false; low_bit = false }

abbrev pub io_flags : KeventFlags
io_flags = record no_flags { ev_add = true; ev_enable = true; ev_oneshot = true }

abbrev pub io_change : Filter → ℕ → Kevent
io_change f fd = record { ident = descriptor fd; filter = f; flags = io_flags; fflags = no_fflags }

abbrev pub is_read_filter : Filter → Bool
is_read_filter evfilt_read = true
is_read_filter f = false

abbrev pub is_write_filter : Filter → Bool
is_write_filter evfilt_write = true
is_write_filter f = false

-- int fd = ev->ident, where -1 is the int16_t pattern of no descriptor
abbrev pub fd_of : Ident → ℕ
fd_of (descriptor fd) = fd
fd_of trigger = 2 ^ 16 - 1

module _ (c : KqueueCalls) (poller_fd : ℕ) where
  open c use {Kernel}

  -- assert(kevent(...) != -1)
  unfoldable pub kqueue_change : Kernel → Kevent → Option Kernel
  kqueue_change k ev =
      let (k', changed) = c.change k poller_fd ev in if changed then some k' else none

  -- _lthread_poller_create
  unfoldable pub kqueue_poller_create : Kernel → Kernel × ℕ
  kqueue_poller_create k = c.kqueue k

  -- _lthread_poller_poll
  unfoldable pub kqueue_poll : Kernel → Kernel × Poll Kevent
  kqueue_poll k = c.wait k poller_fd 1024

  -- lthread_poller_ev_register_rd
  unfoldable pub kqueue_register_rd : Kernel → (fd : ℕ) → Option Kernel
  unfolding kqueue_change
  kqueue_register_rd k fd = kqueue_change k (io_change evfilt_read fd)

  -- lthread_poller_ev_register_wr
  unfoldable pub kqueue_register_wr : Kernel → (fd : ℕ) → Option Kernel
  unfolding kqueue_change
  kqueue_register_wr k fd = kqueue_change k (io_change evfilt_write fd)

  -- lthread_poller_ev_register_trigger, which leaves -1 in `eventfd`
  unfoldable pub kqueue_register_trigger : Kernel → Option Kernel
  unfolding kqueue_change
  kqueue_register_trigger k = kqueue_change k (record {
    ident = trigger;
    filter = evfilt_user;
    flags = record no_flags { ev_add = true };
    fflags = record no_fflags { note_ffcopy = true };
  })

  -- lthread_poller_ev_trigger
  unfoldable pub kqueue_trigger : Kernel → Option Kernel
  unfolding kqueue_change
  kqueue_trigger k = kqueue_change k (record {
    ident = trigger;
    filter = evfilt_user;
    flags = record no_flags { ev_enable = true };
    fflags = record no_fflags { note_ffcopy = true; note_trigger = true; low_bit = true };
  })

  -- lthread_poller_ev_clear_trigger, which passes EV_CLEAR as a filter flag
  unfoldable pub kqueue_clear_trigger : Kernel → Option Kernel
  unfolding kqueue_change
  kqueue_clear_trigger k = kqueue_change k (record {
    ident = trigger;
    filter = evfilt_user;
    flags = record no_flags { ev_disable = true };
    fflags = record no_fflags { ev_clear = true };
  })

-- lthread_poller_ev_get_fd
unfoldable pub kqueue_get_fd : Kevent → ℕ
kqueue_get_fd ev = fd_of ev.ident

-- lthread_poller_ev_get_event
unfoldable pub kqueue_get_event : Kevent → Filter
kqueue_get_event ev = ev.filter

-- lthread_poller_ev_is_eof
unfoldable pub kqueue_is_eof : Kevent → Bool
kqueue_is_eof ev = ev.flags.ev_eof

-- lthread_poller_ev_is_write
unfoldable pub kqueue_is_write : Kevent → Bool
kqueue_is_write ev = is_write_filter ev.filter

-- lthread_poller_ev_is_read
unfoldable pub kqueue_is_read : Kevent → Bool
kqueue_is_read ev = is_read_filter ev.filter

unfoldable pub kqueue_backend : KqueueCalls → (poller_fd : ℕ) → Backend
kqueue_backend c poller_fd = record {
  Kernel = c.Kernel;
  Raised = Kevent;
  poll = kqueue_poll c poller_fd;
  ev_register_rd = kqueue_register_rd c poller_fd;
  ev_register_wr = kqueue_register_wr c poller_fd;
  ev_get_fd = kqueue_get_fd;
  ev_is_eof = kqueue_is_eof;
}
