-- ===== src/Trace.antt =====
-- The trace code of src/lthread.c, and read_event of scripts/analyze_trace.py, which reads what it
-- writes. The mapped file of a scheduler is a table of bytes; a number is stored with its low byte
-- first. Addresses count from the file's start, so that one at or above its size lies outside the
-- mapping.
pub mod Bytes
pub mod Pieces
pub mod Roundtrip
pub mod Overflow
pub mod File
use lthread_concurrent.Prelude.{
  ℕ, zero, suc, ◌+◌, ◌*◌, ◌/◌, ◌%◌, ◌≤◌, Bool, List, [], ◌∷◌, ◌==◌, leb, if◌then◌else◌, length,
}
use lthread_concurrent.State.{update}

-- lthread_trace_event_t
pub data TraceEvent : Type 0 where
  spawn exit yield resume begin_wait end_wait : TraceEvent

-- its constants
abbrev pub code : TraceEvent → ℕ
code spawn = 0
code exit = 1
code yield = 2
code resume = 3
code begin_wait = 4
code end_wait = 5

-- trace_ptr's memory, trace_size and trace_offset of a struct lthread_sched
pub record Buffer : Type 0 where
  pub memory : ℕ → ℕ
  pub trace_size : ℕ
  pub trace_offset : ℕ

-- memcpy to an address
unfoldable pub store : (ℕ → ℕ) → (at : ℕ) → List ℕ → ℕ → ℕ
store m a [] = m
store m a (x ∷ xs) = store (update m a x) (suc a) xs

-- The bytes of a number of so many bytes
unfoldable pub bytes : (size value : ℕ) → List ℕ
bytes zero v = []
bytes (suc n) v = v % 256 ∷ bytes n (v / 256)

-- _lthread_trace_data
unfoldable pub trace_data : Buffer → List ℕ → Buffer
unfolding store
trace_data b xs =
    if leb (b.trace_offset + length xs) b.trace_size
    then record b {
      memory = store b.memory b.trace_offset xs;
      trace_offset = b.trace_offset + length xs;
    }
    else b

-- What an event says: the address of the lthread, the time, the event and the lthread's fd_wait
pub record Entry : Type 0 where
  pub lthread : ℕ
  pub timestamp : ℕ
  pub event : ℕ
  pub fd : ℕ

-- The four calls of _lthread_trace_data
unfoldable pub trace_entry : Buffer → Entry → Buffer
unfolding trace_data bytes
trace_entry b e =
    let b1 = trace_data b (bytes 8 e.lthread) in
    let b2 = trace_data b1 (bytes 8 e.timestamp) in
    let b3 = trace_data b2 (bytes 1 e.event) in trace_data b3 (bytes 2 e.fd)

-- `*(size_t*)(sched->trace_ptr + sched->trace_offset) = 0;`
unfoldable pub terminate : Buffer → Buffer
unfolding store bytes
terminate b = record b { memory = store b.memory b.trace_offset (bytes 8 0) }

-- _lthread_trace_event_unsafe at time `now`
unfoldable pub trace_event : Buffer → (lt now : ℕ) → TraceEvent → (fd_wait : ℕ) → Buffer
unfolding trace_entry terminate
trace_event b lt now ev fd_wait =
    terminate
      (trace_entry b (record { lthread = lt; timestamp = now; event = code ev; fd = fd_wait }))

-- struct.unpack of so many bytes at an address
unfoldable pub load : (size : ℕ) → (ℕ → ℕ) → (at : ℕ) → ℕ
load zero m a = 0
load (suc n) m a = m a + 256 * load n m (suc a)

-- What read_event answers: an event and the position behind it, None, or an exception, for the
-- file is too short.
pub data Reading : Type 0 where
  found : Entry → (position : ℕ) → Reading
  ended short : Reading

-- read_event at a position of a file of so many bytes
unfoldable pub read_event : (size : ℕ) → (ℕ → ℕ) → (position : ℕ) → Reading
unfolding load
read_event size m a =
    if leb (a + 8) size
    then (if load 8 m a == 0
        then ended
        else (if leb (a + 19) size
            then found
                (record {
                  lthread = load 8 m a;
                  timestamp = load 8 m (a + 8);
                  event = load 1 m (a + 16);
                  fd = load 2 m (a + 17);
                })
                (a + 19)
            else short))
    else short
