-- ===== src/Tests/Trace.antt =====
-- The theorem on the trace, applied: two events in an empty file of 100 bytes.
use lthread_concurrent.Prelude.{
  ℕ, some, ◌==◌, ◌&&◌, if◌then◌else◌, ◌-◌, ◌+◌, ◌≤◌, ◌<◌, ◌≡◌, refl, [], ◌∷◌, arith,
}
use lthread_concurrent.Trace.{Buffer, spawn, begin_wait, load, trace_event}
use lthread_concurrent.Trace.Overflow.{trace_event_overflows}
use lthread_concurrent.Trace.File.{
  FileCalls, Contents, TraceFile, trace_bytes, open_trace, old_trace-Reads,
}
use lthread_concurrent.Trace.Roundtrip.{Call, AllFit, trace_all, Reads, trace_all-Reads}

abbrev empty : Buffer
empty = record { memory = λ a. 0; trace_size = 100; trace_offset = 0 }

abbrev spawned : Call
spawned = record { lt = 4096; now = 1000; event = spawn; fd_wait = 0 }

abbrev waits : Call
waits = record { lt = 4096; now = 1300; event = begin_wait; fd_wait = 5 }

both-AllFit : AllFit (spawned ∷ waits ∷ [])
unfolding AllFit
both-AllFit = (
  record { lt = omega arith; lt_nonzero = omega arith; now = omega arith; fd_wait = omega arith },
  (
    record { lt = omega arith; lt_nonzero = omega arith; now = omega arith; fd_wait = omega arith },
    tt,
  ),
)

empty_mark : load 8 empty.memory 0 ≡ 0
unfolding load
empty_mark = refl

trace_all-Reads_example :
    Reads 100 (trace_all empty (spawned ∷ waits ∷ [])).memory 0 (spawned ∷ waits ∷ [])
trace_all-Reads_example =
    trace_all-Reads empty (spawned ∷ waits ∷ []) (omega arith) both-AllFit empty_mark

-- Behind a buffer of 2 bytes there are others.
abbrev tiny : Buffer
tiny = record { memory = λ a. 7; trace_size = 2; trace_offset = 0 }

trace_event_overflows_example :
    let before = trace_all tiny (spawned ∷ waits ∷ []) in
    let after = trace_event before 4096 1300 begin_wait 5 in
    ((k : ℕ) → k < 8 → after.memory (2 + k) ≡ 0)
    × ((k : ℕ) → 10 ≤ k → after.memory k ≡ before.memory k)
trace_event_overflows_example =
    trace_event_overflows tiny (spawned ∷ waits ∷ []) waits (omega arith) (omega arith)

-- Files by their numbers, of which one is open as descriptor 3.
record Disk : Type 0 where
  bytes_of : ℕ → ℕ → ℕ
  opened : ℕ
  place : ℕ

abbrev disk_calls : FileCalls
disk_calls = record {
  Kernel = Disk;
  Name = ℕ;
  trace_name = λ id. id;
  open_file = λ k name. (record k { opened = name; place = 0 }, some 3);
  lseek = λ k fd offset. record k { place = offset };
  write_zero = λ k fd. record k {
    bytes_of = λ n a. if n == k.opened && a == k.place then 0 else k.bytes_of n a;
    place = k.place + 1;
  };
  mmap = λ k fd length. (k, some (k.bytes_of k.opened));
}

abbrev disk_contents : Contents disk_calls
disk_contents = record {
  content = λ k. k.bytes_of;
  file = λ k fd. k.opened;
  position = λ k fd. k.place;
  open_file_keeps = λ k k' name fd e. (ground arith, λ n a. ground arith);
  lseek_moves = λ k fd offset. (refl, refl, λ n a. refl);
  write_zero_keeps = λ k fd. (refl, λ n a d. ground arith);
  mmap_shows = λ k k' fd length memory e a l. ground arith;
}

-- The trace of an earlier run
abbrev earlier : Disk
earlier = record {
  bytes_of = λ n.
      (trace_all (record { memory = λ a. 0; trace_size = trace_bytes; trace_offset = 0 })
        (spawned ∷ [])).memory;
  opened = 0;
  place = 0;
}

abbrev marked : Disk
marked =
    disk_calls.write_zero
      (disk_calls.lseek (disk_calls.open_file earlier 0).0 (some 3) (trace_bytes - 1)) (some 3)

old_trace-Reads_example :
    (k' : Disk) × (t : TraceFile disk_calls) × (open_trace disk_calls earlier 0 ≡ some (k', t))
    × (t.buffer.trace_offset ≡ 0)
    × Reads trace_bytes t.buffer.memory 0 (spawned ∷ [])
old_trace-Reads_example =
    old_trace-Reads disk_calls disk_contents earlier (disk_calls.open_file earlier 0).0 marked 0 3
      (marked.bytes_of 0) (spawned ∷ []) refl refl (omega arith)
      (trace_all-Reads (record { memory = λ a. 0; trace_size = trace_bytes; trace_offset = 0 })
        (spawned ∷ []) (omega arith) first-AllFit (unfold load in refl))
  where
    first-AllFit : AllFit (spawned ∷ [])
    first-AllFit =
        unfold AllFit in
        (
          record {
            lt = omega arith;
            lt_nonzero = omega arith;
            now = omega arith;
            fd_wait = omega arith;
          },
          tt,
        )
