-- ===== src/Trace/Pieces.antt =====
-- src/lthread.c, _lthread_trace_data: one number in the buffer.
use lthread_concurrent.Prelude.{ℕ, ◌+◌, ◌≤◌, ◌<◌, ◌≡◌, arith}
use lthread_concurrent.Trace.{Buffer, bytes, load, trace_data}
use lthread_concurrent.Trace.Bytes.{limit, length-bytes, store-below, load-same, load-store}

-- A number is in the buffer, and all before it as it was.
pub record Wrote (b b' : Buffer) (n v : ℕ) : Type 0 where
  pub offset : b'.trace_offset ≡ b.trace_offset + n
  pub size : b'.trace_size ≡ b.trace_size
  pub below : (k : ℕ) → k < b.trace_offset → b'.memory k ≡ b.memory k
  pub value : load n b'.memory b.trace_offset ≡ v

pub trace_data-Wrote :
    (b : Buffer) (n v : ℕ)
    → b.trace_offset + n ≤ b.trace_size
    → v < limit n
    → Wrote b (trace_data b (bytes n v)) n v
unfolding trace_data
trace_data-Wrote b n v room l =
    let len = length-bytes n v in
    let got = load-store n b.memory b.trace_offset v l in
    record {
      offset = ground arith;
      size = ground arith;
      below =
          λ k lt. let same = store-below b.memory b.trace_offset k (bytes n v) lt in ground arith;
      value = ground arith;
    }

-- What is in the buffer stays when something is written behind it.
pub Wrote-before :
    (b b' : Buffer) (n v i a : ℕ)
    → Wrote b b' n v
    → a + i ≤ b.trace_offset
    → load i b'.memory a ≡ load i b.memory a
Wrote-before b b' n v i a w l =
    load-same i b'.memory b.memory a (λ k lt. w.below k (omega (arith, lt, l)))
