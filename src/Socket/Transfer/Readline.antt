-- ===== src/Socket/Transfer/Readline.antt =====
-- src/lthread_socket.c, lthread_readline: its line, and its memory.
use lthread_concurrent.Prelude.{
  ℕ, zero, suc, ◌+◌, ◌≤◌, ◌<◌, ◌≡◌, ◌≢◌, refl, sym, ◌∙◌, ◌⊎◌, inl, inr, true, false, Option, none,
  some, List, [], ◌∷◌, ◌++◌, length, arith, Bool-cases, Option-cases, ◌==◌, if◌then◌else◌, elem,
}
use mathlib.Core.Path.{subst}
use mathlib.Core.List.{append_assoc, append-nil}
use lthread_concurrent.Intrusive.{Intrusive}
use lthread_concurrent.Socket.{Result, ok, error, Os, State}
use lthread_concurrent.Socket.Transfer.{
  lthread_recv, readline_loop, lthread_readline, free_line, Line, line, closed, broken,
}
use lthread_concurrent.Socket.Transfer.Stream.{Stream, Takes, lthread_recv-Takes}
use lthread_concurrent.Socket.Transfer.Arrival.{Comes, lthread_recv_returns}
use lthread_concurrent.Socket.Transfer.Memory.{Ledger, readline_loop_held}

-- A line of at most so many bytes: it ends with its first newline, or is as long as it can be.
abbrev pub IsLine : ℕ → List ℕ → Type 0
IsLine zero [] = Unit {0}
IsLine zero (b ∷ bs) = ⊥
IsLine (suc r) [] = ⊥
IsLine (suc r) (b ∷ bs) = ((b ≡ 10) × (bs ≡ [])) ⊎ ((b ≢ 10) × IsLine r bs)

module _ ⦃i : Intrusive⦄ (os : Os) (lt fd : ℕ) (c : Stream os fd) where
  -- How a call of lthread_readline ends. Without a line, what it has read is lost.
  abbrev pub ReadsLine : (max : ℕ) → State os → State os → Line → Type 0
  ReadsLine max s t (line bytes) = (c.taken t.kernel ≡ c.taken s.kernel ++ bytes) × IsLine max bytes
  ReadsLine max s t _ =
      (lost : List ℕ) × (c.taken t.kernel ≡ c.taken s.kernel ++ lost)
      × (length lost ≤ max)
      × (elem 10 lost ≡ false)

  abbrev Loops : (r : ℕ) → List ℕ → State os → State os → Line → Type 0
  Loops r got s t (line bytes) =
      (new : List ℕ) × (bytes ≡ got ++ new)
      × (c.taken t.kernel ≡ c.taken s.kernel ++ new)
      × IsLine r new
  Loops r got s t _ =
      (lost : List ℕ) × (c.taken t.kernel ≡ c.taken s.kernel ++ lost)
      × (length lost ≤ r)
      × (elem 10 lost ≡ false)

  -- One more byte in front
  longer :
      (r b : ℕ) (got : List ℕ) (s u t : State os) (l : Line)
      → b ≢ 10
      → c.taken u.kernel ≡ c.taken s.kernel ++ b ∷ []
      → Loops r (got ++ b ∷ []) u t l
      → Loops (suc r) got s t l
  longer r b got s u t (line bytes) d e (new, p, q, h) = (
    b ∷ new,
    ground (arith, append_assoc got (b ∷ []) new),
    ground (arith, append_assoc (c.taken s.kernel) (b ∷ []) new),
    inr (d, h),
  )
  longer r b got s u t closed d e (lost, q, l, h) = (
    b ∷ lost,
    ground (arith, append_assoc (c.taken s.kernel) (b ∷ []) lost),
    ground arith,
    ground arith,
  )
  longer r b got s u t broken d e (lost, q, l, h) = (
    b ∷ lost,
    ground (arith, append_assoc (c.taken s.kernel) (b ∷ []) lost),
    ground arith,
    ground arith,
  )

  readline_loop-Loops :
      (n r : ℕ) (got : List ℕ) (s : State os) (all : Comes os lt fd)
      → all.attends.IsReady s
      → all.attends.blocks s.kernel < n
      → (t : State os) × (l : Line) × (readline_loop os lt n fd r got s ≡ some (t, l))
        × Loops r got s t l
  unfolding readline_loop
  readline_loop-Loops n zero got s all y less =
      (s, line got, refl, ([], sym (append-nil got), sym (append-nil (c.taken s.kernel)), tt))
  readline_loop-Loops n (suc r) got s all y less =
      let (t, a, e, y', less') = lthread_recv_returns os lt fd all n 1 0 s y less in
      one t a (λ b. readline_loop-Loops n r (got ++ b ∷ []) t all y' (omega (arith, less, less'))) e
        (lthread_recv-Takes os lt fd c n 1 0 s t a e)
    where
      stopped :
          (t : State os)
          → c.taken t.kernel ≡ c.taken s.kernel
          → c.taken t.kernel ≡ c.taken s.kernel ++ []
      stopped t e = e ∙ sym (append-nil (c.taken s.kernel))

      Rest : State os → Type 0
      Rest u =
          (b : ℕ)
          → (v : State os) × (l : Line) × (readline_loop os lt n fd r (got ++ b ∷ []) u
              ≡ some (v, l))
            × Loops r (got ++ b ∷ []) u v l

      byte :
          (t : State os) (b : ℕ)
          → Rest t
          → lthread_recv os lt n fd 1 0 s ≡ some (t, ok (b ∷ []))
          → c.taken t.kernel ≡ c.taken s.kernel ++ b ∷ []
          → (v : State os) × (l : Line) × (readline_loop os lt n fd (suc r) got s ≡ some (v, l))
            × Loops (suc r) got s v l
      byte t b rest e h = elim (Bool-cases (b == 10)) [
        | inl new ↦
            (t, line (got ++ b ∷ []), ground arith, (b ∷ [], refl, h, inl (ground arith, refl)))
        | inr d ↦
            let (v, l, p, m) = rest b in
            (v, l, ground arith, longer r b got s t v l (ground arith) h m)
      ]

      one :
          (t : State os) (a : Result (List ℕ))
          → Rest t
          → lthread_recv os lt n fd 1 0 s ≡ some (t, a)
          → Takes os lt fd c 1 s t a
          → (v : State os) × (l : Line) × (readline_loop os lt n fd (suc r) got s ≡ some (v, l))
            × Loops (suc r) got s v l
      one t error rest e h = (t, broken, ground arith, ([], stopped t h, omega arith, refl))
      one t (ok []) rest e h = (t, closed, ground arith, ([], h.0, omega arith, refl))
      one t (ok (b ∷ [])) rest e h = byte t b rest e h.0
      one t (ok (b ∷ b' ∷ bs)) rest e h = absurd (omega (arith, h.1))

  -- The lthread holds the line's memory in addition, or, without a line, what it held before.
  abbrev pub Keeps : Ledger os fd → State os → State os → Line → Option ℕ → Type 0
  Keeps m s t (line bytes) (some a) =
      (m.held s.kernel a ≡ false)
      × ((x : ℕ) → m.held t.kernel x ≡ (if a == x then true else m.held s.kernel x))
  Keeps m s t (line bytes) none = ⊥
  Keeps m s t _ (some a) = ⊥
  Keeps m s t _ none = (x : ℕ) → m.held t.kernel x ≡ m.held s.kernel x

  -- Let no other lthread read from the descriptor, let it block fewer times than there is fuel for a
  -- call, let the lthread be ready, and be so again after each wait, while nobody else waits to read,
  -- and let calloc and free do what their manual page says. Then lthread_readline returns. A line is what has been read: at most `max`
  -- bytes, with a newline at its end or, if it is that long, nowhere; and the lthread holds one new
  -- piece of memory, whose address is returned. Without a line, at most `max` bytes with no newline
  -- have been read and are lost, and the lthread holds the memory that it held before.
  pub lthread_readline-ReadsLine :
      (n max : ℕ) (s : State os) (all : Comes os lt fd) (m : Ledger os fd)
      → all.attends.IsReady s
      → all.attends.blocks s.kernel < n
      → (t : State os) × (l : Line) × (memory : Option ℕ) × (lthread_readline os lt n fd max s
          ≡ some (t, l, memory))
        × ReadsLine max s t l
        × Keeps m s t l memory
  unfolding lthread_readline free_line
  lthread_readline-ReadsLine n max s all m y less =
      elim (Option-cases (os.calloc s.kernel (max + 1)).1) [
        | inl full ↦ (
          u,
          broken,
          none,
          ground arith,
          ([], same ∙ sym (append-nil _), omega arith, refl),
          m.calloc_none s.kernel u.kernel (max + 1) (ground arith),
        )
        | inr (address, e) ↦
            let (y', less') = all.calloc s (max + 1) y in
            let (t, l, p, h) = readline_loop-Loops n max [] u all y' (omega (arith, less, less')) in
            let fresh = m.calloc_some s.kernel u.kernel (max + 1) address (ground arith) in
            finish address t l e p h fresh (λ x. readline_loop_held os lt fd m x n max [] u t l p)
      ]
    where
      u : State os
      u = record s { kernel = (os.calloc s.kernel (max + 1)).0 }

      same : c.taken u.kernel ≡ c.taken s.kernel
      same = c.calloc s.kernel (max + 1)

      -- The memory is freed.
      freed :
          (address : ℕ) (t : State os)
          → (m.held s.kernel address ≡ false)
            × ((x : ℕ) → m.held u.kernel x ≡ (if address == x then true else m.held s.kernel x))
          → ((x : ℕ) → m.held t.kernel x ≡ m.held u.kernel x)
          → (x : ℕ) → m.held (free_line os lt t address).kernel x ≡ m.held s.kernel x
      freed address t (free, fresh) kept x =
          ground (arith, m.free t.kernel address x, fresh x, kept x)

      finish :
          (address : ℕ) (t : State os) (l : Line)
          → (os.calloc s.kernel (max + 1)).1 ≡ some address
          → readline_loop os lt n fd max [] u ≡ some (t, l)
          → Loops max [] u t l
          → (m.held s.kernel address ≡ false)
            × ((x : ℕ) → m.held u.kernel x ≡ (if address == x then true else m.held s.kernel x))
          → ((x : ℕ) → m.held t.kernel x ≡ m.held u.kernel x)
          → (v : State os) × (l' : Line) × (memory : Option ℕ) × (lthread_readline os lt n fd max s
              ≡ some (v, l', memory))
            × ReadsLine max s v l'
            × Keeps m s v l' memory
      finish address t (line bytes) e p (new, q, h, r) (free, fresh) kept = (
        t,
        line bytes,
        some address,
        ground arith,
        (ground (arith, same), subst (IsLine max) (sym q) r),
        (free, λ x. kept x ∙ fresh x),
      )
      finish address t closed e p (lost, h, k, r) fresh kept = (
        free_line os lt t address,
        closed,
        none,
        ground arith,
        (lost, ground (arith, same, c.free t.kernel address), k, r),
        freed address t fresh kept,
      )
      finish address t broken e p (lost, h, k, r) fresh kept = (
        free_line os lt t address,
        broken,
        none,
        ground arith,
        (lost, ground (arith, same, c.free t.kernel address), k, r),
        freed address t fresh kept,
      )
