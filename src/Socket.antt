-- ===== src/Socket.antt =====
-- src/lthread_socket.c: calls of the operating system that wait for their descriptor, and make
-- other lthreads run meanwhile, where the system would block. The system, and what runs while an
-- lthread waits, are a parameter. A result of -1 is `error`; `errno` is read from a system call's
-- answer only.
pub mod Waiting
pub mod Transfer
pub mod Open
use lthread_concurrent.Prelude.{
  ℕ, zero, suc, ◌+◌, ◌-◌, Bool, true, false, not, Option, none, some, List, [], ◌∷◌, length, ◌==◌,
  ltb, if◌then◌else◌,
}
use Prim.Native.Nat.{bit_or}
use lthread_concurrent.Intrusive.{Intrusive}
use lthread_concurrent.State.{World}
use lthread_concurrent.Poller.{Event, read, write, begin_wait_fd, end_wait_fd}

-- The error numbers that the code asks for. EWOULDBLOCK is EAGAIN.
pub data Errno : Type 0 where
  eagain enfile emfile econnaborted einprogress : Errno
  other : ℕ → Errno

-- What a system call answers
pub data Answer {ℓ} (A : Type ℓ) : Type ℓ where
  done : A → Answer A
  failed : Errno → Answer A

-- What a function returns
pub data Result {ℓ} (A : Type ℓ) : Type ℓ where
  ok : A → Result A
  error : Result A

-- struct iovec
pub record Iovec : Type 0 where
  pub iov_base : ℕ
  pub iov_len : ℕ

-- errno == EAGAIN
abbrev pub is_eagain : Errno → Bool
is_eagain eagain = true
is_eagain e = false

-- The errors after which lthread_connect tries again
abbrev pub is_connecting : Errno → Bool
is_connecting eagain = true
is_connecting einprogress = true
is_connecting e = false

-- The cases of lthread_accept: wait, try again at once, or give up.
pub data Reaction : Type 0 where
  wait_for retry give_up : Reaction

abbrev pub accept_reaction : Errno → Reaction
accept_reaction enfile = wait_for
accept_reaction eagain = wait_for
accept_reaction emfile = wait_for
accept_reaction econnaborted = retry
accept_reaction e = give_up

module _ ⦃i : Intrusive⦄ where
  -- The operating system, and what happens between the two halves of a wait. Calls that fill a
  -- buffer answer with what they put into it.
  pub record Os : Type 1 where
    pub Kernel : Type 0
    pub msg_nosignal : ℕ
    pub recv : Kernel → (fd length flags : ℕ) → Kernel × Answer (List ℕ)
    pub read_bytes : Kernel → (fd length : ℕ) → Kernel × Answer (List ℕ)
    pub recvmsg : Kernel → (fd message flags : ℕ) → Kernel × Answer (List ℕ)
    pub recvfrom : Kernel → (fd length flags address : ℕ) → Kernel × Answer (List ℕ)
    pub sendmsg : Kernel → (fd message flags : ℕ) → Kernel × Answer ℕ
    pub sendto : Kernel → (fd buf length flags dest_addr : ℕ) → Kernel × Answer ℕ
    pub writev : Kernel → (fd : ℕ) → List Iovec → Kernel × Answer ℕ
    pub accept : Kernel → (fd addr : ℕ) → Kernel × Answer ℕ
    pub connect : Kernel → (fd name : ℕ) → Kernel × Answer ℕ
    pub socket : Kernel → (domain type protocol : ℕ) → Kernel × Answer ℕ
    pub pipe : Kernel → Kernel × Answer (ℕ × ℕ)
    -- fcntl(fd, F_SETFL, O_NONBLOCK), and whether it succeeds
    pub fcntl_nonblock : Kernel → (fd : ℕ) → Kernel × Bool
    pub close : Kernel → (fd : ℕ) → Kernel × Bool
    pub calloc : Kernel → (size : ℕ) → Kernel × Option ℕ
    pub free : Kernel → (address : ℕ) → Kernel
    -- The lthread that calls is switched away from and, later, back to.
    pub meanwhile : World → Kernel → World × Kernel

  module _ (os : Os) where
    open os use {Kernel}

    pub record State : Type 0 where
      pub world : World
      pub kernel : Kernel

    -- A system call, in a state
    abbrev pub call {ℓ} : {A : Type ℓ} → (Kernel → Kernel × Answer A) → State → State × Answer A
    call f s = let (k, a) = f s.kernel in (record s { kernel = k }, a)

    -- _lthread_wait_fd by the lthread `lt`, whole; whether the result is 0. `none` is a failed
    -- assertion. The registration with the system, whose own calls are asserted to succeed, is a part
    -- of `meanwhile`.
    unfoldable pub wait_fd : (lt : ℕ) → State → (fd : ℕ) → Event → Option (State × Bool)
    wait_fd lt s fd ev = elim (begin_wait_fd s.world lt fd ev) [
      | none ↦ none
      | some w ↦
          let (v, k) = os.meanwhile w s.kernel in
          let (u, is_open) = end_wait_fd v lt in some (record { world = u; kernel = k }, is_open)
    ]
