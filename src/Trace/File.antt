-- ===== src/Trace/File.antt =====
-- src/lthread.c, _lthread_sched_create with LTHREAD_TRACE: the file of a scheduler's trace, which is
-- made or opened again. The system's calls are a parameter; a descriptor of -1 is `none`.
use lthread_concurrent.Prelude.{
  ℕ, ◌+◌, ◌*◌, ◌-◌, ◌^◌, ◌≤◌, ◌<◌, ◌≡◌, ◌≢◌, refl, ap, ◌∙◌, Option, none, some, List, [], ◌∷◌,
  length, arith,
}
use lthread_concurrent.Trace.{Buffer, read_event}
use lthread_concurrent.Trace.Bytes.{load-same}
use lthread_concurrent.Trace.Roundtrip.{Call, Reads}

pub record FileCalls : Type 1 where
  pub Kernel : Type 0
  pub Name : Type 0
  -- snprintf of "scheduler%03zu.lrt"
  pub trace_name : (id : ℕ) → Name
  -- open with O_RDWR and O_CREAT
  pub open_file : Kernel → Name → Kernel × Option ℕ
  pub lseek : Kernel → (fd : Option ℕ) → (offset : ℕ) → Kernel
  -- write(fd, "", 1): a byte of 0
  pub write_zero : Kernel → (fd : Option ℕ) → Kernel
  -- The memory, whose addresses count from its start; `none` is MAP_FAILED.
  pub mmap : Kernel → (fd : Option ℕ) → (length : ℕ) → Kernel × Option (ℕ → ℕ)

-- `1 << 26`
abbrev pub trace_bytes : ℕ
trace_bytes = 2 ^ 26

module _ (os : FileCalls) where
  open os use {Kernel, Name, trace_name}

  -- trace_fd, and the other fields of the trace
  pub record TraceFile : Type 0 where
    pub trace_fd : Option ℕ
    pub buffer : Buffer

  -- The part of _lthread_sched_create that makes the trace; `none` is a failed assertion.
  unfoldable pub open_trace : Kernel → (id : ℕ) → Option (Kernel × TraceFile)
  open_trace k id =
      let (k1, fd) = os.open_file k (trace_name id) in
      let k2 = os.lseek k1 fd (trace_bytes - 1) in
      let k3 = os.write_zero k2 fd in
      let (k4, mapped) = os.mmap k3 fd trace_bytes in
      elim mapped [
        | none ↦ none
        | some memory ↦ some (
          k4,
          record {
            trace_fd = fd;
            buffer = record { memory = memory; trace_size = trace_bytes; trace_offset = 0 };
          },
        )
      ]

  -- What open(2), lseek(2), write(2) and mmap(2) do with the bytes of files
  pub record Contents : Type 0 where
    pub content : Kernel → Name → ℕ → ℕ
    pub file : Kernel → (fd : ℕ) → Name
    pub position : Kernel → (fd : ℕ) → ℕ
    -- Without O_TRUNC, a file that is there keeps its bytes.
    pub open_file_keeps :
        (k k' : Kernel) (name : Name) (fd : ℕ)
        → os.open_file k name ≡ (k', some fd)
        → (file k' fd ≡ name) × ((n : Name) (a : ℕ) → content k' n a ≡ content k n a)
    pub lseek_moves :
        (k : Kernel) (fd offset : ℕ)
        → (position (os.lseek k (some fd) offset) fd ≡ offset)
          × (file (os.lseek k (some fd) offset) fd ≡ file k fd)
          × ((n : Name) (a : ℕ) → content (os.lseek k (some fd) offset) n a ≡ content k n a)
    pub write_zero_keeps :
        (k : Kernel) (fd : ℕ)
        → (file (os.write_zero k (some fd)) fd ≡ file k fd)
          × ((n : Name) (a : ℕ)
              → a ≢ position k fd
              → content (os.write_zero k (some fd)) n a ≡ content k n a)
    pub mmap_shows :
        (k k' : Kernel) (fd length : ℕ) (memory : ℕ → ℕ)
        → os.mmap k (some fd) length ≡ (k', some memory)
        → (a : ℕ) → a < length
        → memory a ≡ content k (file k fd) a

  module _ (c : Contents) where
    open_trace-content :
        (k k1 k4 : Kernel) (id fd : ℕ) (memory : ℕ → ℕ)
        → os.open_file k (trace_name id) ≡ (k1, some fd)
        → os.mmap
            (os.write_zero (os.lseek k1 (some fd) (trace_bytes - 1)) (some fd))
            (some fd)
            trace_bytes
          ≡ (k4, some memory)
        → (a : ℕ) → a < trace_bytes - 1
        → memory a ≡ c.content k (trace_name id) a
    open_trace-content k k1 k4 id fd memory o m a l =
        let k2 = os.lseek k1 (some fd) (trace_bytes - 1) in
        let k3 = os.write_zero k2 (some fd) in
        let (named, opened) = c.open_file_keeps k k1 (trace_name id) fd o in
        let (at, same_file, moved) = c.lseek_moves k1 fd (trace_bytes - 1) in
        let (same_file', written) = c.write_zero_keeps k2 fd in
        let name : c.file k3 fd ≡ trace_name id = same_file' ∙ same_file ∙ named in
        c.mmap_shows k3 k4 fd trace_bytes memory m a (omega (arith, l))
        ∙ ap (λ n. c.content k3 n a) name
        ∙ written (trace_name id) a (λ e. absurd (omega (arith, e, at, l)))
        ∙ moved (trace_name id) a
        ∙ opened (trace_name id) a

    read_event-same :
        (m m' : ℕ → ℕ) (p : ℕ)
        → p + 19 ≤ trace_bytes - 1
        → ((a : ℕ) → a < trace_bytes - 1 → m' a ≡ m a)
        → read_event trace_bytes m' p ≡ read_event trace_bytes m p
    unfolding read_event
    read_event-same m m' p l e =
        let r1 = load-same 8 m' m p (λ a h. e a (omega (arith, h, l))) in
        let r2 = load-same 8 m' m (p + 8) (λ a h. e a (omega (arith, h, l))) in
        let r3 = load-same 1 m' m (p + 16) (λ a h. e a (omega (arith, h, l))) in
        let r4 = load-same 2 m' m (p + 17) (λ a h. e a (omega (arith, h, l))) in
        rw (r1, r2, r3, r4) refl

    Reads-same :
        (m m' : ℕ → ℕ) (p : ℕ) (cs : List Call)
        → p + 19 * length cs + 19 ≤ trace_bytes - 1
        → ((a : ℕ) → a < trace_bytes - 1 → m' a ≡ m a)
        → Reads trace_bytes m p cs
        → Reads trace_bytes m' p cs
    unfolding Reads
    Reads-same m m' p [] l e r = read_event-same m m' p (omega (arith, l)) e ∙ r
    Reads-same m m' p (x ∷ xs) l e (r, rs) = (
      read_event-same m m' p (omega (arith, l)) e ∙ r,
      Reads-same m m' (p + 19) xs (omega (arith, l)) e rs,
    )

    -- Let the file of a scheduler's trace be there already, from an earlier run, with events that are
    -- read from its start on, and with room behind them. If its descriptor is opened and mapped, then
    -- _lthread_sched_create succeeds, and by what the manual pages say of the calls, the same events are
    -- read from the new trace before the scheduler has traced any.
    pub old_trace-Reads :
        (k k1 k4 : Kernel) (id fd : ℕ) (memory : ℕ → ℕ) (cs : List Call)
        → os.open_file k (trace_name id) ≡ (k1, some fd)
        → os.mmap
            (os.write_zero (os.lseek k1 (some fd) (trace_bytes - 1)) (some fd))
            (some fd)
            trace_bytes
          ≡ (k4, some memory)
        → 19 * length cs + 20 ≤ trace_bytes
        → Reads trace_bytes (c.content k (trace_name id)) 0 cs
        → (k' : Kernel) × (t : TraceFile) × (open_trace k id ≡ some (k', t))
          × (t.buffer.trace_offset ≡ 0)
          × Reads trace_bytes t.buffer.memory 0 cs
    unfolding open_trace
    old_trace-Reads k k1 k4 id fd memory cs o m l r = (
      k4,
      record {
        trace_fd = some fd;
        buffer = record { memory = memory; trace_size = trace_bytes; trace_offset = 0 };
      },
      ground (arith, o, m),
      refl,
      Reads-same (c.content k (trace_name id)) memory 0 cs (omega (arith, l))
          (open_trace-content k k1 k4 id fd memory o m) r,
    )
