-- ===== src/Backend/Directions.antt =====
-- src/lthread_epoll.c and src/lthread_kqueue.c: two registrations of one descriptor, one for each
-- direction. What the system keeps of a registration is a parameter, with its documented laws.
use lthread_concurrent.Prelude.{
  ℕ, ◌≡◌, ◌≢◌, refl, ◌∙◌, true, false, Option-cases, inl, inr, Option, none, some, arith,
}
use lthread_concurrent.Backend.Epoll.{
  EpollCalls, EpollEvent, epoll_ctl_add, epoll_ctl_mod, read_request, write_request, epoll_register,
  epoll_register_rd, epoll_register_wr,
}
use lthread_concurrent.Backend.Kqueue.{
  KqueueCalls, Kevent, Filter, evfilt_read, evfilt_write, descriptor, io_change, kqueue_change,
  kqueue_register_rd, kqueue_register_wr,
}

-- What is documented of epoll_ctl: the interest list of an epoll descriptor holds one entry for a
-- descriptor, which EPOLL_CTL_ADD makes where there is none and EPOLL_CTL_MOD replaces where there
-- is one.
pub record InterestList (c : EpollCalls) (poller_fd : ℕ) : Type 1 where
  pub interest : c.Kernel → ℕ → Option EpollEvent
  -- the descriptors that the system accepts
  pub IsOpen : c.Kernel → ℕ → Type 0
  pub add :
      (k : c.Kernel) (fd : ℕ) (ev : EpollEvent)
      → IsOpen k fd
      → interest k fd ≡ none
      → ((c.epoll_ctl k poller_fd epoll_ctl_add fd ev).1 ≡ true)
        × (interest (c.epoll_ctl k poller_fd epoll_ctl_add fd ev).0 fd ≡ some ev)
        × IsOpen (c.epoll_ctl k poller_fd epoll_ctl_add fd ev).0 fd
  pub modify :
      (k : c.Kernel) (fd : ℕ) (old ev : EpollEvent)
      → IsOpen k fd
      → interest k fd ≡ some old
      → ((c.epoll_ctl k poller_fd epoll_ctl_mod fd ev).1 ≡ true)
        × (interest (c.epoll_ctl k poller_fd epoll_ctl_mod fd ev).0 fd ≡ some ev)
        × IsOpen (c.epoll_ctl k poller_fd epoll_ctl_mod fd ev).0 fd
  -- ENOENT
  pub modify_missing :
      (k : c.Kernel) (fd : ℕ) (ev : EpollEvent)
      → IsOpen k fd
      → interest k fd ≡ none
      → c.epoll_ctl k poller_fd epoll_ctl_mod fd ev ≡ (k, false)

-- What is documented of kevent: the filters of a descriptor are kept apart, and a change with
-- EV_ADD puts the one that it names in place and leaves the others.
pub record FilterList (c : KqueueCalls) (poller_fd : ℕ) : Type 1 where
  pub filters : c.Kernel → ℕ → Filter → Option Kevent
  -- the descriptors that the system accepts
  pub IsOpen : c.Kernel → ℕ → Type 0
  pub add :
      (k : c.Kernel) (fd : ℕ) (ev : Kevent)
      → IsOpen k fd
      → ev.ident ≡ descriptor fd
      → ev.flags.ev_add ≡ true
      → ((c.change k poller_fd ev).1 ≡ true)
        × (filters (c.change k poller_fd ev).0 fd ev.filter ≡ some ev)
        × ((f : Filter) → f ≢ ev.filter → filters (c.change k poller_fd ev).0 fd f ≡ filters k fd f)
        × IsOpen (c.change k poller_fd ev).0 fd

read_filter-ne : evfilt_read ≢ evfilt_write
read_filter-ne = cc

module _ (c : EpollCalls) (poller_fd : ℕ) (l : InterestList c poller_fd) where
  open c use {Kernel}

  -- A registration leaves its own request as the entry of the descriptor, whatever was there.
  epoll_register-interest :
      (k : Kernel) (ev : EpollEvent)
      → l.IsOpen k ev.fd
      → (k' : Kernel) × (epoll_register c poller_fd k ev ≡ some k')
        × (l.interest k' ev.fd ≡ some ev)
        × l.IsOpen k' ev.fd
  unfolding epoll_register
  epoll_register-interest k ev o = elim (Option-cases (l.interest k ev.fd)) [
    | inr (old, e) ↦
        let (r, q, o') = l.modify k ev.fd old ev o e in
        ((c.epoll_ctl k poller_fd epoll_ctl_mod ev.fd ev).0, ground (arith, r), q, o')
    | inl e ↦
        let missing = l.modify_missing k ev.fd ev o e in
        let (r, q, o') = l.add k ev.fd ev o e in
        ((c.epoll_ctl k poller_fd epoll_ctl_add ev.fd ev).0, ground (arith, missing, r), q, o')
  ]

  epoll_both :
      (k : Kernel) (fd : ℕ)
      → l.IsOpen k fd
      → (u : Kernel) × (v : Kernel) × (epoll_register_rd c poller_fd k fd ≡ some u)
        × (epoll_register_wr c poller_fd u fd ≡ some v)
        × (l.interest u fd ≡ some (read_request fd))
        × (l.interest v fd ≡ some (write_request fd))
  unfolding epoll_register_rd epoll_register_wr
  epoll_both k fd o =
      let (u, e, q, o') = epoll_register-interest k (read_request fd) o in
      let (v, e', q', o'') = epoll_register-interest u (write_request fd) o' in (u, v, e, e', q, q')

module _ (c : KqueueCalls) (poller_fd : ℕ) (l : FilterList c poller_fd) where
  open c use {Kernel}

  kqueue_both :
      (k : Kernel) (fd : ℕ)
      → l.IsOpen k fd
      → (u : Kernel) × (v : Kernel) × (kqueue_register_rd c poller_fd k fd ≡ some u)
        × (kqueue_register_wr c poller_fd u fd ≡ some v)
        × (l.filters v fd evfilt_read ≡ some (io_change evfilt_read fd))
        × (l.filters v fd evfilt_write ≡ some (io_change evfilt_write fd))
  unfolding kqueue_register_rd kqueue_register_wr kqueue_change
  kqueue_both k fd o =
      let rd = io_change evfilt_read fd in
      let wr = io_change evfilt_write fd in
      let u = (c.change k poller_fd rd).0 in
      let v = (c.change u poller_fd wr).0 in
      let (r, q, others, o') = l.add k fd rd o refl refl in
      let (r', q', others', o'') = l.add u fd wr o' refl refl in
      (
        u,
        v,
        ground (arith, r),
        ground (arith, r'),
        others' evfilt_read (λ e. read_filter-ne e) ∙ q,
        q',
      )

-- By what the manual pages say of epoll_ctl and kevent: when a descriptor is registered for reading
-- and then for writing, neither call fails, and kqueue is to report both directions, but epoll
-- only the second one.
pub registers_both :
    (e : EpollCalls) (q : KqueueCalls) (poller_fd : ℕ) (l : InterestList e poller_fd)
    (m : FilterList q poller_fd) (k : e.Kernel) (j : q.Kernel) (fd : ℕ)
    → l.IsOpen k fd
    → m.IsOpen j fd
    → ((u : e.Kernel) × (v : e.Kernel) × (epoll_register_rd e poller_fd k fd ≡ some u)
        × (epoll_register_wr e poller_fd u fd ≡ some v)
        × (l.interest u fd ≡ some (read_request fd))
        × (l.interest v fd ≡ some (write_request fd)))
      × ((u : q.Kernel) × (v : q.Kernel) × (kqueue_register_rd q poller_fd j fd ≡ some u)
          × (kqueue_register_wr q poller_fd u fd ≡ some v)
          × (m.filters v fd evfilt_read ≡ some (io_change evfilt_read fd))
          × (m.filters v fd evfilt_write ≡ some (io_change evfilt_write fd)))
registers_both e q poller_fd l m k j fd o r =
    (epoll_both e poller_fd l k fd o, kqueue_both q poller_fd m j fd r)
