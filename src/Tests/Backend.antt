-- ===== src/Tests/Backend.antt =====
-- The theorem on registrations, applied to interest lists that are functions from descriptors.
use lthread_concurrent.Prelude.{
  ℕ, ◌≡◌, refl, Bool, true, false, Option, none, some, [], if◌then◌else◌, arith,
}
use lthread_concurrent.State.{update}
use lthread_concurrent.Backend.{events}
use lthread_concurrent.Backend.Epoll.{
  EpollCalls, EpollEvent, Control, epoll_ctl_add, epoll_ctl_mod, read_request, write_request,
  epoll_register_rd, epoll_register_wr,
}
use lthread_concurrent.Backend.Kqueue.{
  KqueueCalls, Kevent, Filter, evfilt_read, evfilt_write, evfilt_user, descriptor, trigger,
  io_change, kqueue_register_rd, kqueue_register_wr,
}
use lthread_concurrent.Backend.Directions.{InterestList, FilterList, registers_both}

-- epoll_ctl on such a list
abbrev ctl : (ℕ → Option EpollEvent) → Control → ℕ → EpollEvent → (ℕ → Option EpollEvent) × Bool
ctl k op fd ev = elim op [
  | epoll_ctl_add ↦ elim (k fd) [ none ↦ (update k fd (some ev), true) | some old ↦ (k, false) ]
  | epoll_ctl_mod ↦ elim (k fd) [ none ↦ (k, false) | some old ↦ (update k fd (some ev), true) ]
]

abbrev tables : EpollCalls
tables = record {
  Kernel = ℕ → Option EpollEvent;
  epoll_create = λ k n. (k, 3);
  epoll_wait = λ k p n t. (k, events []);
  epoll_ctl = λ k p op fd ev. ctl k op fd ev;
  eventfd = λ k. (k, some 4);
  read_word = λ k fd. (k, true);
  write_word = λ k fd x. (k, true);
}

tables-InterestList : InterestList tables 3
tables-InterestList = record {
  interest = λ k. k;
  IsOpen = λ k fd. Unit;
  add = λ k fd ev o e. ground (arith, e);
  modify = λ k fd old ev o e. ground (arith, e);
  modify_missing = λ k fd ev o e. ground (arith, e);
}

abbrev same_filter : Filter → Filter → Bool
same_filter evfilt_read evfilt_read = true
same_filter evfilt_write evfilt_write = true
same_filter evfilt_user evfilt_user = true
same_filter f g = false

same_filter_refl : (f : Filter) → same_filter f f ≡ true
same_filter_refl evfilt_read = refl
same_filter_refl evfilt_write = refl
same_filter_refl evfilt_user = refl

same_filter-eq : (f g : Filter) → same_filter f g ≡ true → f ≡ g
same_filter-eq evfilt_read evfilt_read h = refl
same_filter-eq evfilt_write evfilt_write h = refl
same_filter-eq evfilt_user evfilt_user h = refl
same_filter-eq evfilt_read evfilt_write h = cc
same_filter-eq evfilt_read evfilt_user h = cc
same_filter-eq evfilt_write evfilt_read h = cc
same_filter-eq evfilt_write evfilt_user h = cc
same_filter-eq evfilt_user evfilt_read h = cc
same_filter-eq evfilt_user evfilt_write h = cc

abbrev with_filter : (Filter → Option Kevent) → Kevent → Filter → Option Kevent
with_filter t ev f = if same_filter f ev.filter then some ev else t f

-- kevent on a table of filters, which takes every change with EV_ADD
abbrev put_filter : (ℕ → Filter → Option Kevent) → Kevent → (ℕ → Filter → Option Kevent) × Bool
put_filter k ev = elim (ev.ident) [
  | trigger ↦ (k, true)
  | descriptor fd ↦ ((if ev.flags.ev_add then update k fd (with_filter (k fd) ev) else k), true)
]

abbrev filter_tables : KqueueCalls
filter_tables = record {
  Kernel = ℕ → Filter → Option Kevent;
  kqueue = λ k. (k, 3);
  change = λ k p ev. put_filter k ev;
  wait = λ k p n. (k, events []);
}

filter_tables-FilterList : FilterList filter_tables 3
filter_tables-FilterList = record {
  filters = λ k. k;
  IsOpen = λ k fd. Unit;
  add = λ k fd ev o e f. (
    ground (arith, e, f),
    ground (arith, e, f, same_filter_refl ev.filter),
    (λ g n. let c = same_filter-eq g ev.filter in ground (arith, e, f)),
    tt,
  );
}

registers_both_example :
    ((u : ℕ → Option EpollEvent) × (v : ℕ → Option EpollEvent) × (epoll_register_rd tables 3
          (λ fd. none)
          5
        ≡ some u)
      × (epoll_register_wr tables 3 u 5 ≡ some v)
      × (u 5 ≡ some (read_request 5))
      × (v 5 ≡ some (write_request 5)))
    × ((u : ℕ → Filter → Option Kevent) × (v : ℕ → Filter → Option Kevent) × (kqueue_register_rd
            filter_tables 3
            (λ fd f. none)
            5
          ≡ some u)
        × (kqueue_register_wr filter_tables 3 u 5 ≡ some v)
        × (v 5 evfilt_read ≡ some (io_change evfilt_read 5))
        × (v 5 evfilt_write ≡ some (io_change evfilt_write 5)))
unfolding tables-InterestList filter_tables-FilterList
registers_both_example =
    registers_both tables filter_tables 3 tables-InterestList filter_tables-FilterList (λ fd. none)
      (λ fd f. none) 5 tt tt
