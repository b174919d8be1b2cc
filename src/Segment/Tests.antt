-- ===== src/Segment/Tests.antt =====
-- A source and a pipe that takes two bytes at a time, and the theorems at them.
use bingewatch.Prelude.{
  ℕ, ◌≡◌, refl, true, false, none, some, List, [], ◌∷◌, ◌++◌, take, drop, length, min, arith,
  find_key,
}
use bingewatch.Status.{Status, DescState}
use bingewatch.Stream.{State}
use bingewatch.Machine.{Filters, IoDesc, Desc, Machines, machine_get_desc}
use bingewatch.Machine.Moves.{machine_stop}
use bingewatch.Machine.Moves.WriteSide.{WritesIn}
use bingewatch.Ring.Fifo.{Holds}
use bingewatch.Ring.Tests.{plenty, half_mark, ring, ring-Holds, Supplies-plenty}
use bingewatch.Segment.Source.{Feed, source_move}
use bingewatch.Segment.Source.Feeding.{Fills, source_move-Holds}
use bingewatch.Segment.{
  Done, Io, Joined, Segment, Sizes, segment_create, segment_run, write_to_dest, outcome,
}
use bingewatch.FifoMachine.{FifoSystem, FifoDesc}
use bingewatch.Segment.Fifo.{fifo_io_write}
use bingewatch.Segment.Stuck.{machine_io, machine_stop-write_to_dest}

-- What the source has left, and what the output was given.
abbrev Pair : Type 0
Pair = List ℕ × List ℕ

abbrev source_read : Pair → List ℕ → ℕ → Done Pair
source_read s buf n = record {
  status = Status.success;
  bytes = min n (length s.0);
  buf = take n s.0 ++ drop (min n (length s.0)) buf;
  world = (drop n s.0, s.1);
}

-- A pipe that takes two bytes at a time, open at the descriptor 5.
abbrev pair_pipes : FifoSystem Pair
pair_pipes = record {
  open_rdwr = λ s. (some 5, s);
  write = λ s f buf offset n. (some (min n 2), (s.0, s.1 ++ take (min n 2) (drop offset buf)));
  read = λ s f n. (none, s);
}

abbrev open_pipe : FifoDesc
open_pipe = record { f = 5 }

abbrev source : Io Pair
source = record { read = source_read; write = source_read; stop = λ s. s }

abbrev output : Io Pair
output = record { read = source_read; write = fifo_io_write pair_pipes open_pipe; stop = λ s. s }

abbrev machines_of : Joined Pair
machines_of = record { src = source; dst = output; dst1 = none }

abbrev sizes : Sizes
sizes = record { src = 3; dst = 4; dst1 = none; default_buf_len = 9 }

abbrev data_pair : Pair
data_pair = (1 ∷ 2 ∷ 3 ∷ 4 ∷ 5 ∷ [], [])

abbrev blank_buf : List ℕ
blank_buf = 0 ∷ 0 ∷ 0 ∷ 0 ∷ []

abbrev states : List State
states = State.ready ∷ State.running ∷ State.running ∷ []

-- An output that takes two bytes at a time.
abbrev sink_write : Pair → List ℕ → ℕ → Done Pair
sink_write s ptr n = record {
  status = Status.success;
  bytes = min n 2;
  buf = ptr;
  world = (s.0, s.1 ++ take (min n 2) ptr);
}

abbrev to_sink : Joined Pair
to_sink = record machines_of {
  dst = record { read = source_read; write = sink_write; stop = λ s. s };
}

-- The output gets every byte.
delivered :
    (segment_run 5 to_sink sizes (segment_create data_pair) (some blank_buf) states)
    ≡ some (record {
      segment = record {
        running = true;
        do_complete = false;
        calls = [];
        world = ([], 1 ∷ 2 ∷ 3 ∷ 4 ∷ 5 ∷ []);
      };
      buf = some (5 ∷ 2 ∷ 3 ∷ 4 ∷ []);
    })
unfolding segment_run segment_create
delivered = refl

-- A source that reads two bytes into the write block of the ring.
abbrev feed_read : Feed ℕ → List ℕ → ℕ → Done (Feed ℕ)
feed_read w buf n = record {
  status = Status.success;
  bytes = 2;
  buf = 5 ∷ 6 ∷ drop 2 buf;
  world = record w { source = 1 };
}

abbrev feed_io : Io (Feed ℕ)
feed_io = record { read = feed_read; write = feed_read; stop = λ w. w }

abbrev feeding : Joined (Feed ℕ)
feeding = record { src = feed_io; dst = feed_io; dst1 = none }

abbrev feed : Segment (Feed ℕ)
feed = record {
  running = true;
  do_complete = false;
  calls = [];
  world = record { source = 0; ring = ring };
}

feed-Fills : Fills feed_io feed.world (5 ∷ 6 ∷ 0 ∷ 0 ∷ []) 2
unfolding outcome
feed-Fills = record { status = refl; bytes = refl; buf = refl; ring = refl; allocated = refl }

source_move-Holds_example :
    Holds
      (source_move plenty half_mark feeding 100 feed).world.ring
      ((7 ∷ 8 ∷ 9 ∷ []) ++ take 2 (5 ∷ 6 ∷ 0 ∷ 0 ∷ []))
    × ((source_move plenty half_mark feeding 100 feed).world.ring.rp ≡ 1)
    × ((source_move plenty half_mark feeding 100 feed).running ≡ true)
    × ((source_move plenty half_mark feeding 100 feed).calls ≡ [])
source_move-Holds_example =
    source_move-Holds plenty half_mark feeding 100 feed (5 ∷ 6 ∷ 0 ∷ 0 ∷ []) 2 (7 ∷ 8 ∷ 9 ∷ [])
      ring-Holds refl refl refl (Supplies-plenty 4 (omega arith)) (omega arith) feed-Fills
      (omega arith) (omega arith) (omega arith)

-- A descriptor that can be written to, over a filter that takes all.
abbrev taking : Filters ℕ
taking = record {
  call = λ f buf bytes. record { status = Status.success; bytes = bytes; buf = buf; filter = f };
  set_handle = λ h f. f;
}

abbrev writer_side : IoDesc ℕ
writer_side = record { state = DescState.enabled; size = 0; obj = some 5 }

abbrev sink : Desc ℕ
sink = record {
  handle = 1;
  machine = 0;
  in_use = 0;
  io_read = none;
  io_write = some writer_side;
  metrics = none;
}

abbrev machines : Machines ℕ
machines = record {
  machines = [];
  handle_map = record { handle = 1; machine = 0 } ∷ [];
  handle_alloc = 256;
  handle_counter = 1;
  machine_descriptors = sink ∷ [];
}

found : machine_get_desc machines 1 ≡ some sink
unfolding machine_get_desc find_key
found = refl

writable_side : WritesIn machines 1 DescState.enabled 5
unfolding WritesIn
writable_side = (sink, writer_side, found, refl, refl, refl, refl)

abbrev ends : Joined (Machines ℕ)
ends = record { src = machine_io taking 1; dst = machine_io taking 1; dst1 = none }

machine_stop-write_to_dest_example :
    write_to_dest 1000 ends
      (machine_io taking 1)
      (segment_create (machine_stop machines 1))
      (7 ∷ 8 ∷ [])
      2
    ≡ none
unfolding segment_create
machine_stop-write_to_dest_example =
    machine_stop-write_to_dest taking 1 DescState.enabled 5 machines 1000 ends
      (segment_create (machine_stop machines 1)) (7 ∷ 8 ∷ []) 2 writable_side refl (omega arith)
      (omega arith)
