-- ===== src/Socket/Open/Listening.antt =====
-- src/lthread_socket.c: lthread_accept, which tries until a connection comes.
use lthread_concurrent.Prelude.{
  ℕ, zero, suc, ◌≤◌, ◌≡◌, ◌≢◌, ◌<◌, refl, sym, ◌∙◌, inl, inr, ◌⊎◌, Bool, true, some, arith,
  Option-cases,
}
use lthread_concurrent.Intrusive.{Intrusive}
use lthread_concurrent.State.{World}
use lthread_concurrent.Poller.{read, begin_wait_fd}
use lthread_concurrent.Socket.{
  Errno, eagain, enfile, emfile, econnaborted, einprogress, other, Answer, failed, Result, ok,
  error, wait_for, retry, give_up, accept_reaction, Os, State, call, wait_fd,
}
use lthread_concurrent.Socket.Waiting.{Attends, wait_fd_returns, answer_cases}
use lthread_concurrent.Socket.Open.{accept_loop, lthread_accept}
use lthread_concurrent.Socket.Open.Accepting.{
  Tried, now, waited, aborted, IsShortage, IsFatal, Accepts, accepted, refused, Answers, AcceptLaws,
  loop-OpensOne,
}
use lthread_concurrent.Socket.Open.Descriptors.{Table, OpensOne}

errno_cases :
    (e : Errno)
    → (IsShortage e × (accept_reaction e ≡ wait_for))
      ⊎ (((e ≡ econnaborted) × (accept_reaction e ≡ retry))
          ⊎ (IsFatal e × (accept_reaction e ≡ give_up)))
errno_cases eagain = inl (inl refl, refl)
errno_cases enfile = inl (inr (inl refl), refl)
errno_cases emfile = inl (inr (inr refl), refl)
errno_cases econnaborted = inr (inl (refl, refl))
errno_cases einprogress = inr (inr (((λ h. cc), (λ h. cc), (λ h. cc), (λ h. cc)), refl))
errno_cases (other x) = inr (inr (((λ h. cc), (λ h. cc), (λ h. cc), (λ h. cc)), refl))

module _ ⦃i : Intrusive⦄ (os : Os) (lt fd addr : ℕ) where
  open os use {Kernel}

  module _ (c : Table os) where
    -- accept(2) leaves the lthread ready, and asks it to wait only while `blocks` says that it may; each
    -- aborted connection is one of them too. While the lthread waits, no descriptor is opened or closed.
    pub record Listens : Type 1 where
      pub attends : Attends os lt fd read
      pub accept_ready :
          (s t : State os) (a : Answer ℕ)
          → attends.IsReady s
          → call os (λ k. os.accept k fd addr) s ≡ (t, a)
          → attends.IsReady t × (attends.blocks t.kernel ≤ attends.blocks s.kernel)
      pub accept_shortage :
          (s t : State os) (e : Errno)
          → attends.IsReady s
          → call os (λ k. os.accept k fd addr) s ≡ (t, failed e)
          → IsShortage e
          → 0 < attends.blocks t.kernel
      pub accept_aborted :
          (s t : State os)
          → attends.IsReady s
          → call os (λ k. os.accept k fd addr) s ≡ (t, failed econnaborted)
          → attends.blocks t.kernel < attends.blocks s.kernel
      pub meanwhile :
          (w : World) (k : Kernel) (x : ℕ) → c.is_open (os.meanwhile w k).1 x ≡ c.is_open k x

    abbrev pub SameTable : State os → State os → Type 0
    SameTable s t = (x : ℕ) → c.is_open t.kernel x ≡ c.is_open s.kernel x

    module _ (laws : AcceptLaws os lt fd addr c) (h : Listens) where
      wait-SameTable :
          (s t : State os) (is_open : Bool)
          → wait_fd os lt s fd read ≡ some (t, is_open)
          → SameTable s t
      unfolding wait_fd
      wait-SameTable s t is_open e x = elim (Option-cases (begin_wait_fd s.world lt fd read)) [
        | inl failing ↦ absurd (ground arith)
        | inr (w, b) ↦ ground (arith, h.meanwhile w s.kernel x)
      ]

      -- The loop ends, and all that opens a descriptor is its last call.
      abbrev Run : ℕ → State os → Type 0
      Run n s =
          (v : State os) × (a : Result ℕ) × (accept_loop os n lt fd addr s ≡ some (v, a))
          × (t : State os) × SameTable s t
          × Tried os lt fd addr s t
          × Accepts os lt fd addr t v a

      goes_on :
          (n : ℕ) (s t : State os)
          → accept_loop os (suc n) lt fd addr s ≡ accept_loop os n lt fd addr t
          → SameTable s t
          → ((v : State os) → Tried os lt fd addr t v → Tried os lt fd addr s v)
          → Run n t
          → Run (suc n) s
      goes_on n s t e same tries (v, a, r, u, more, m, d) =
          (v, a, e ∙ r, u, (λ x. more x ∙ same x), tries u m, d)

      fails :
          (n : ℕ) (s t : State os) (e : Errno)
          → ((u : State os)
              → h.attends.IsReady u
              → c.is_open u.kernel 0 ≡ true
              → h.attends.blocks u.kernel < n
              → Run n u)
          → h.attends.IsReady s
          → c.is_open s.kernel 0 ≡ true
          → h.attends.blocks s.kernel < suc n
          → call os (λ k. os.accept k fd addr) s ≡ (t, failed e)
          → Run (suc n) s
      unfolding accept_loop
      fails n s t e ih y z l p =
          let same = laws.accept_failed s.kernel t.kernel e (ground arith) in
          let (y', le) = h.accept_ready s t (failed e) y p in
          elim (errno_cases e) [
            | inl (short, wait) ↦
                let more = h.accept_shortage s t e y p short in
                let (u, b, w, y'', less) = wait_fd_returns os lt fd read h.attends t y' more in
                let same' : SameTable s u = λ x. wait-SameTable t u b w x ∙ same x in
                goes_on n s u (ground arith) same'
                  (λ v m. waited {t = t} {u = u} {v = v} e b p short w m)
                  (ih u y'' (same' 0 ∙ z) (omega (arith, le, less, l)))
            | inr (inl (gone, again)) ↦
                let less = h.accept_aborted s t y (ground arith) in
                goes_on n s t (ground arith) same (λ v m. aborted {t = t} {v = v} (ground arith) m)
                  (ih t y' (same 0 ∙ z) (omega (arith, less, l)))
            | inr (inr (fatal, stop)) ↦
                (t, error, ground arith, s, (λ x. refl), now, refused {t = t} e p fatal)
          ]

      accept_loop_returns :
          (n : ℕ) (s : State os)
          → h.attends.IsReady s
          → c.is_open s.kernel 0 ≡ true
          → h.attends.blocks s.kernel < n
          → Run n s
      unfolding accept_loop
      accept_loop_returns zero s y z l = absurd (omega arith)
      accept_loop_returns (suc n) s y z l =
          let t = (call os (λ k. os.accept k fd addr) s).0 in
          elim (answer_cases (call os (λ k. os.accept k fd addr) s).1) [
            | inl (new, q) ↦
                let (fresh, opened) = laws.accept_done s.kernel t.kernel new (ground arith) in
                let d : new ≢ 0 = λ zero_again. ground arith in
                (
                  t,
                  ok new,
                  ground arith,
                  s,
                  (λ x. refl),
                  now,
                  accepted {t = t} new (ground arith) d,
                )
            | inr (e, q) ↦ fails n s t e (accept_loop_returns n) y z l (ground arith)
          ]

      -- By what the manual pages say of the system's calls: let descriptor 0 be open, let the listening
      -- descriptor ask for a wait a bounded number of times, which counts aborted connections, let the
      -- lthread be ready, and be so again after each wait, while nobody else waits to read, and let no
      -- descriptor be opened or closed meanwhile. With more fuel than times to wait, lthread_accept
      -- returns. It has waited after each call of accept that failed with EAGAIN, ENFILE or EMFILE,
      -- and tried again at once after ECONNABORTED; its last call has brought a connection, whose
      -- descriptor is the result if fcntl succeeds, or has failed with another error; the result is
      -- -1 otherwise. From its call to its return it opens that one descriptor, which was closed and
      -- does not block, or, if it returns -1, none.
      pub lthread_accept-OpensOne :
          (n : ℕ) (s : State os)
          → h.attends.IsReady s
          → c.is_open s.kernel 0 ≡ true
          → h.attends.blocks s.kernel < n
          → (u : State os) × (r : Result ℕ) × (lthread_accept os n lt fd addr s ≡ some (u, r))
            × OpensOne os c s.kernel u.kernel r
            × (t : State os) × Tried os lt fd addr s t
            × Answers os lt fd addr t r
      lthread_accept-OpensOne n s y z l =
          let (v, a, looped, t, same, m, d) = accept_loop_returns n s y z l in
          let (u, r, e, one, answer) = loop-OpensOne os lt fd addr c laws n s looped d in
          (u, r, e, opens_from t.kernel u.kernel r one same, t, m, answer)
        where
          opens_from :
              (k k' : Kernel) (r : Result ℕ)
              → OpensOne os c k k' r
              → ((x : ℕ) → c.is_open k x ≡ c.is_open s.kernel x)
              → OpensOne os c s.kernel k' r
          opens_from k k' error one same = λ x. one x ∙ same x
          opens_from k k' (ok new) (fresh, nonblocking, opened) same =
              (sym (same new) ∙ fresh, nonblocking, λ x. ground (arith, opened x, same x))
