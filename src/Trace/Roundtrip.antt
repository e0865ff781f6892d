-- ===== src/Trace/Roundtrip.antt =====
-- What _lthread_trace_event_unsafe of src/lthread.c writes is what read_event of
-- scripts/analyze_trace.py reads.
use lthread_concurrent.Prelude.{
  ℕ, ◌+◌, ◌*◌, ◌≤◌, ◌<◌, ◌≡◌, ◌≢◌, refl, ap, sym, ◌∙◌, List, [], ◌∷◌, length, arith,
}
use mathlib.Core.Path.{subst}
use lthread_concurrent.Trace.{
  TraceEvent, code, spawn, exit, yield, resume, begin_wait, end_wait, Buffer, Entry, bytes, load,
  trace_data, trace_entry, terminate, trace_event, found, ended, read_event,
}
use lthread_concurrent.Trace.Bytes.{limit, store-below, load-same, load-store}
use lthread_concurrent.Trace.Pieces.{trace_data-Wrote, Wrote-before}

-- One call of _lthread_trace_event_unsafe
pub record Call : Type 0 where
  pub lt : ℕ
  pub now : ℕ
  pub event : TraceEvent
  pub fd_wait : ℕ

-- The numbers fit their fields, and the lthread is not at address 0.
pub record Fits (c : Call) : Type 0 where
  pub lt : c.lt < limit 8
  pub lt_nonzero : c.lt ≢ 0
  pub now : c.now < limit 8
  pub fd_wait : c.fd_wait < limit 2

abbrev pub entry_of : Call → Entry
entry_of c = record { lthread = c.lt; timestamp = c.now; event = code c.event; fd = c.fd_wait }

unfoldable pub trace_all : Buffer → List Call → Buffer
trace_all b [] = b
trace_all b (c ∷ cs) = trace_all (trace_event b c.lt c.now c.event c.fd_wait) cs

unfoldable pub AllFit : List Call → Type 0
AllFit [] = Unit
AllFit (c ∷ cs) = Fits c × AllFit cs

-- From a position the reader finds these events, one after another, and then None.
unfoldable pub Reads : (size : ℕ) → (ℕ → ℕ) → (position : ℕ) → List Call → Type 0
Reads size m a [] = read_event size m a ≡ ended
Reads size m a (c ∷ cs) =
    (read_event size m a ≡ found (entry_of c) (a + 19)) × Reads size m (a + 19) cs

-- An entry is in the buffer, and the reader finds it.
record Entered (b b' : Buffer) (c : Call) : Type 0 where
  offset : b'.trace_offset ≡ b.trace_offset + 19
  size : b'.trace_size ≡ b.trace_size
  below : (k : ℕ) → k < b.trace_offset → b'.memory k ≡ b.memory k
  first : load 8 b'.memory b.trace_offset ≡ c.lt
  second : load 8 b'.memory (b.trace_offset + 8) ≡ c.now
  third : load 1 b'.memory (b.trace_offset + 16) ≡ code c.event
  fourth : load 2 b'.memory (b.trace_offset + 17) ≡ c.fd_wait

code-below : (e : TraceEvent) → code e < limit 1
code-below spawn = omega arith
code-below exit = omega arith
code-below yield = omega arith
code-below resume = omega arith
code-below begin_wait = omega arith
code-below end_wait = omega arith

trace_entry-Entered :
    (b : Buffer) (c : Call)
    → b.trace_offset + 19 ≤ b.trace_size
    → Fits c
    → Entered b (trace_entry b (entry_of c)) c
unfolding trace_entry
trace_entry-Entered b c room f =
    let o = b.trace_offset in
    let b1 = trace_data b (bytes 8 c.lt) in
    let b2 = trace_data b1 (bytes 8 c.now) in
    let b3 = trace_data b2 (bytes 1 (code c.event)) in
    let b4 = trace_data b3 (bytes 2 c.fd_wait) in
    let w1 = trace_data-Wrote b 8 c.lt (omega (arith, room)) f.lt in
    let w2 = trace_data-Wrote b1 8 c.now (omega (arith, room, w1.offset, w1.size)) f.now in
    let w3 =
      trace_data-Wrote b2 1 (code c.event)
        (omega (arith, room, w1.offset, w1.size, w2.offset, w2.size)) (code-below c.event) in
    let w4 =
      trace_data-Wrote b3 2 c.fd_wait
        (omega (arith, room, w1.offset, w1.size, w2.offset, w2.size, w3.offset, w3.size))
        f.fd_wait in
    let o1 = w1.offset in
    let o2 : b2.trace_offset ≡ o + 16 = omega (arith, o1, w2.offset) in
    let o3 : b3.trace_offset ≡ o + 17 = omega (arith, o2, w3.offset) in
    record {
      offset = omega (arith, o3, w4.offset);
      size = w4.size ∙ w3.size ∙ w2.size ∙ w1.size;
      below = λ k l.
          w4.below k (omega (arith, o3, l))
          ∙ w3.below k (omega (arith, o2, l))
          ∙ w2.below k (omega (arith, o1, l))
          ∙ w1.below k l;
      first =
          Wrote-before b3 b4 2 c.fd_wait 8 o w4 (omega (arith, o3))
          ∙ Wrote-before b2 b3 1 (code c.event) 8 o w3 (omega (arith, o2))
          ∙ Wrote-before b1 b2 8 c.now 8 o w2 (omega (arith, o1))
          ∙ w1.value;
      second =
          Wrote-before b3 b4 2 c.fd_wait 8 (o + 8) w4 (omega (arith, o3))
          ∙ Wrote-before b2 b3 1 (code c.event) 8 (o + 8) w3 (omega (arith, o2))
          ∙ ap (load 8 b2.memory) (sym o1)
          ∙ w2.value;
      third =
          Wrote-before b3 b4 2 c.fd_wait 1 (o + 16) w4 (omega (arith, o3))
          ∙ ap (load 1 b3.memory) (sym o2)
          ∙ w3.value;
      fourth = ap (load 2 b4.memory) (sym o3) ∙ w4.value;
    }

read_event_of :
    (size : ℕ) (m : ℕ → ℕ) (a : ℕ) (e : Entry)
    → a + 19 ≤ size
    → e.lthread ≢ 0
    → load 8 m a ≡ e.lthread
    → load 8 m (a + 8) ≡ e.timestamp
    → load 1 m (a + 16) ≡ e.event
    → load 2 m (a + 17) ≡ e.fd
    → read_event size m a ≡ found e (a + 19)
unfolding read_event
read_event_of size m a e room n r1 r2 r3 r4 = ground arith

-- The event is found in whatever comes to lie behind it.
trace_event-found :
    (b : Buffer) (c : Call)
    → b.trace_offset + 27 ≤ b.trace_size
    → Fits c
    → let b' = trace_event b c.lt c.now c.event c.fd_wait in
      (b'.trace_offset ≡ b.trace_offset + 19)
      × (b'.trace_size ≡ b.trace_size)
      × (load 8 b'.memory b'.trace_offset ≡ 0)
      × ((m : ℕ → ℕ)
          → ((k : ℕ) → k < b'.trace_offset → m k ≡ b'.memory k)
          → read_event b.trace_size m b.trace_offset ≡ found (entry_of c) (b.trace_offset + 19))
unfolding trace_event terminate
trace_event-found b c room f =
    let e = trace_entry b (entry_of c) in
    let o = b.trace_offset in
    let w = trace_entry-Entered b c (omega (arith, room)) f in
    (
      w.offset,
      w.size,
      load-store 8 e.memory e.trace_offset 0 (omega arith),
      (λ m same.
          let agrees : (k : ℕ) → k < o + 19 → m k ≡ e.memory k = λ k l.
            same k (omega (arith, w.offset, l))
            ∙ store-below e.memory e.trace_offset k (bytes 8 0) (omega (arith, w.offset, l)) in
          let r1 = load-same 8 m e.memory o (λ k l. agrees k (omega (arith, l))) ∙ w.first in
          let r2 = load-same 8 m e.memory (o + 8) (λ k l. agrees k (omega (arith, l))) ∙ w.second in
          let r3 = load-same 1 m e.memory (o + 16) (λ k l. agrees k (omega (arith, l))) ∙ w.third in
          let r4 =
            load-same 2 m e.memory (o + 17) (λ k l. agrees k (omega (arith, l))) ∙ w.fourth in
          read_event_of b.trace_size m o (entry_of c) (omega (arith, room)) f.lt_nonzero r1 r2 r3
            r4),
    )

-- What lies before the offset stays.
trace_event-below :
    (b : Buffer) (c : Call)
    → b.trace_offset + 27 ≤ b.trace_size
    → Fits c
    → (k : ℕ) → k < b.trace_offset
    → (trace_event b c.lt c.now c.event c.fd_wait).memory k ≡ b.memory k
unfolding trace_event terminate
trace_event-below b c room f k l =
    let e = trace_entry b (entry_of c) in
    let w = trace_entry-Entered b c (omega (arith, room)) f in
    store-below e.memory e.trace_offset k (bytes 8 0) (omega (arith, w.offset, l)) ∙ w.below k l

trace_all-below :
    (b : Buffer) (cs : List Call)
    → b.trace_offset + 19 * length cs + 8 ≤ b.trace_size
    → AllFit cs
    → (k : ℕ) → k < b.trace_offset
    → (trace_all b cs).memory k ≡ b.memory k
unfolding trace_all AllFit
trace_all-below b [] room f k l = refl
trace_all-below b (c ∷ cs) room (f, fs) k l =
    let (offset, size, mark, read) = trace_event-found b c (omega (arith, room)) f in
    trace_all-below (trace_event b c.lt c.now c.event c.fd_wait) cs
      (omega (arith, room, offset, size)) fs k (omega (arith, offset, l))
    ∙ trace_event-below b c (omega (arith, room)) f k l

-- Let the buffer have room for some events and an end mark, let an end mark stand at its offset, and
-- let the numbers of each event fit their fields, and its lthread not be at address 0. When they
-- have been traced, the reader finds from that offset on all of them, in order and with their
-- numbers, and then the end.
pub trace_all-Reads :
    (b : Buffer) (cs : List Call)
    → b.trace_offset + 19 * length cs + 8 ≤ b.trace_size
    → AllFit cs
    → load 8 b.memory b.trace_offset ≡ 0
    → Reads b.trace_size (trace_all b cs).memory b.trace_offset cs
unfolding trace_all AllFit Reads read_event
trace_all-Reads b [] room f mark = ground arith
trace_all-Reads b (c ∷ cs) room (f, fs) mark =
    let b' = trace_event b c.lt c.now c.event c.fd_wait in
    let (offset, size, mark', read) = trace_event-found b c (omega (arith, room)) f in
    let room' : b'.trace_offset + 19 * length cs + 8 ≤ b'.trace_size =
      omega (arith, room, offset, size) in
    let rest = trace_all-Reads b' cs room' fs mark' in
    (
      read (trace_all b' cs).memory (trace_all-below b' cs room' fs),
      subst (λ a. Reads b.trace_size (trace_all b' cs).memory a cs) offset
          (subst (λ n. Reads n (trace_all b' cs).memory b'.trace_offset cs) size rest),
    )
