-- ===== src/Trace/Overflow.antt =====
-- src/lthread.c, _lthread_trace_data and _lthread_trace_event_unsafe: what the trace writes when its
-- buffer becomes full.
use lthread_concurrent.Prelude.{
  ℕ, zero, suc, ◌+◌, ◌≤◌, ◌<◌, ◌≡◌, refl, List, [], ◌∷◌, length, arith,
}
use mathlib.Core.Path.{subst}
use lthread_concurrent.State.{update}
use lthread_concurrent.Trace.{
  Buffer, Entry, store, bytes, trace_data, trace_entry, terminate, trace_event,
}
use lthread_concurrent.Trace.Bytes.{length-bytes, store-below}
use lthread_concurrent.Trace.Roundtrip.{Call, trace_all, entry_of}

store-above : (m : ℕ → ℕ) (a k : ℕ) (xs : List ℕ) → a + length xs ≤ k → store m a xs k ≡ m k
unfolding store
store-above m a k [] l = refl
store-above m a k (x ∷ xs) l =
    let rest = store-above (update m a x) (suc a) k xs (omega (arith, l)) in ground arith

store-zeros : (n : ℕ) (m : ℕ → ℕ) (a k : ℕ) → k < n → store m a (bytes n 0) (a + k) ≡ 0
unfolding store bytes
store-zeros zero m a k l = absurd (omega arith)
store-zeros (suc n) m a zero l =
    let rest = store-below (update m a 0) (suc a) a (bytes n 0) (omega arith) in ground arith
store-zeros (suc n) m a (suc k) l =
    let rest = store-zeros n (update m a 0) (suc a) k (omega (arith, l)) in ground arith

-- Within the buffer: the offset does not pass its size, nothing is written at the size or behind it.
record Within (b b' : Buffer) : Type 0 where
  size : b'.trace_size ≡ b.trace_size
  bound : b'.trace_offset ≤ b.trace_size
  forward : b.trace_offset ≤ b'.trace_offset
  outside : (k : ℕ) → b.trace_size ≤ k → b'.memory k ≡ b.memory k

trace_data-Within :
    (b : Buffer) (n v : ℕ) → b.trace_offset ≤ b.trace_size → Within b (trace_data b (bytes n v))
unfolding trace_data
trace_data-Within b n v h =
    let len = length-bytes n v in
    record {
      size = ground arith;
      bound = ground arith;
      forward = ground arith;
      outside = λ k l. let same = store-above b.memory b.trace_offset k (bytes n v) in ground arith;
    }

Within-trans : (a b c : Buffer) → Within a b → Within b c → Within a c
Within-trans a b c p q = record {
  size = ground (arith, p.size, q.size);
  bound = ground (arith, p.size, q.bound);
  forward = omega (arith, p.forward, q.forward);
  outside = λ k l. ground (arith, p.size, p.outside k, q.outside k);
}

trace_data_byte :
    (b : Buffer) (v : ℕ)
    → b.trace_offset < b.trace_size
    → (trace_data b (bytes 1 v)).trace_offset ≡ b.trace_offset + 1
unfolding trace_data
trace_data_byte b v h = let len = length-bytes 1 v in ground arith

-- The four numbers of an event stay within the buffer, and one of them at least finds room if it is
-- not full.
trace_entry-Within :
    (b : Buffer) (e : Entry)
    → b.trace_offset ≤ b.trace_size
    → Within b (trace_entry b e)
      × (b.trace_offset < b.trace_size → b.trace_offset < (trace_entry b e).trace_offset)
unfolding trace_entry
trace_entry-Within b e h =
    let b1 = trace_data b (bytes 8 e.lthread) in
    let b2 = trace_data b1 (bytes 8 e.timestamp) in
    let b3 = trace_data b2 (bytes 1 e.event) in
    let b4 = trace_data b3 (bytes 2 e.fd) in
    let w1 = trace_data-Within b 8 e.lthread h in
    let w2 = trace_data-Within b1 8 e.timestamp (omega (arith, w1.bound, w1.size)) in
    let w12 = Within-trans b b1 b2 w1 w2 in
    let w3 = trace_data-Within b2 1 e.event (omega (arith, w12.bound, w12.size)) in
    let w123 = Within-trans b b2 b3 w12 w3 in
    let w4 = trace_data-Within b3 2 e.fd (omega (arith, w123.bound, w123.size)) in
    let byte = trace_data_byte b2 e.event in
    (
      Within-trans b b3 b4 w123 w4,
      λ l. ground (arith, byte, w12.bound, w12.size, w12.forward, w4.forward),
    )

trace_event_lem :
    (b : Buffer) (c : Call)
    → b.trace_offset ≤ b.trace_size
    → let b' = trace_event b c.lt c.now c.event c.fd_wait in
      (b'.trace_size ≡ b.trace_size)
      × (b'.trace_offset ≤ b.trace_size)
      × (b.trace_offset < b.trace_size → b.trace_offset < b'.trace_offset)
      × (b.trace_offset ≤ b'.trace_offset)
      × ((k : ℕ) → b.trace_size ≤ k → b'.trace_offset + 8 ≤ k → b'.memory k ≡ b.memory k)
      × ((k : ℕ) → k < 8 → b'.memory (b'.trace_offset + k) ≡ 0)
unfolding trace_event terminate
trace_event_lem b c h =
    let e = trace_entry b (entry_of c) in
    let (w, more) = trace_entry-Within b (entry_of c) h in
    let len = length-bytes 8 0 in
    (
      w.size,
      w.bound,
      more,
      w.forward,
      (λ k l m.
          let above = store-above e.memory e.trace_offset k (bytes 8 0) (ground (arith, len)) in
          ground (arith, above, w.outside k)),
      (λ k l. store-zeros 8 e.memory e.trace_offset k l),
    )

-- After as many events as it has bytes left, the buffer is full.
pub trace_all-full :
    (b : Buffer) (cs : List Call)
    → b.trace_offset ≤ b.trace_size
    → b.trace_size ≤ b.trace_offset + length cs
    → ((trace_all b cs).trace_offset ≡ b.trace_size) × ((trace_all b cs).trace_size ≡ b.trace_size)
unfolding trace_all
trace_all-full b [] h l = (omega arith, refl)
trace_all-full b (c ∷ cs) h l =
    let b' = trace_event b c.lt c.now c.event c.fd_wait in
    let (size, bound, more, forward, outside, mark) = trace_event_lem b c h in
    let (full, same) =
      trace_all-full b' cs (omega (arith, size, bound))
        (ground (arith, size, bound, more, forward)) in
    (ground (arith, full, size), ground (arith, same, size))

-- However large the buffer is, it is full after as many events as it has bytes left, and the end mark
-- of the next event is then written wholly behind the mapping: over its first 8 bytes there, and
-- over no others.
pub trace_event_overflows :
    (b : Buffer) (cs : List Call) (c : Call)
    → b.trace_offset ≤ b.trace_size
    → b.trace_size ≤ b.trace_offset + length cs
    → let before = trace_all b cs in
      let after = trace_event before c.lt c.now c.event c.fd_wait in
      ((k : ℕ) → k < 8 → after.memory (b.trace_size + k) ≡ 0)
      × ((k : ℕ) → b.trace_size + 8 ≤ k → after.memory k ≡ before.memory k)
trace_event_overflows b cs c h l =
    let before = trace_all b cs in
    let after = trace_event before c.lt c.now c.event c.fd_wait in
    let (full, same) = trace_all-full b cs h l in
    let (size, bound, more, forward, outside, mark) =
      trace_event_lem before c (omega (arith, full, same)) in
    let offset : after.trace_offset ≡ b.trace_size = omega (arith, bound, forward, full, same) in
    (
      λ k m. subst (λ a. after.memory (a + k) ≡ 0) offset (mark k m),
      λ k m. outside k (omega (arith, same, m)) (omega (arith, offset, m)),
    )
