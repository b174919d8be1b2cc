-- ===== src/Ring/Tests.antt =====
-- Rings of a few blocks, and the theorems at them.
use bingewatch.Prelude.{
  ℕ, ◌+◌, ◌≤◌, ◌<◌, ◌≡◌, ◌≢◌, ◌⊎◌, refl, inl, true, false, some, List, [], ◌∷◌, arith, ◌==◌,
  if◌then◌else◌,
}
use bingewatch.Status.{Status, DescState, Blocking}
use bingewatch.Block.{
  Heap, Cell, Grants, zeroed, block_list_alloc, block_data_fastalloc, list_tail, block_empty,
}
use bingewatch.Block.Carve.{Supplies}
use bingewatch.Ring.{
  Ring, RbState, Reply, buf_read, buf_write, align_down, ring_data_init, write_ready, write_loop,
  write_finish, get_next_block, grow, high_water_mark_hit, read_loop, read_finish, read_block,
}
use bingewatch.Ring.Blocks.{bytes_of, Layout}
use bingewatch.Ring.Release.{loaded}
use bingewatch.Ring.Starve.{rb_release_write_block-buf_read}
use bingewatch.Ring.Fifo.{Holds, wanted, Reads, buf_read-Reads}
use bingewatch.Ring.Append.{Writes, buf_write-Writes}
use bingewatch.Ring.Refused.{buf_write-Refuses}
use bingewatch.Ring.Start.{Unallocated, buf_write-first}
use bingewatch.Ring.Refine.{
  Call, put, get, run_ring, run_queue, put_bytes, Unwrapped, run_ring-run_queue,
}
use bingewatch.Ring.Control.{Setup, rb_release_write_block}

-- Memory is always to be had.
abbrev pub plenty : Grants
plenty a = record { sysinfo = true; freeram = 1000000; pcalloc = true; palloc = true; fill = 0 }

pub Supplies-plenty : (size : ℕ) → size < 1000000 → (a : ℕ) → Supplies (plenty a) size
Supplies-plenty size h a = record {
  sysinfo = refl;
  pcalloc = refl;
  palloc = refl;
  enough = h;
  no_wrap = omega arith;
}

abbrev pub half_mark : ℕ → ℕ → ℕ
half_mark count high = high

abbrev blank_cell : Cell
blank_cell = record { bytes_at = 0 ∷ 0 ∷ 0 ∷ 0 ∷ []; size = 4; bytes = 0 }

-- Blocks 1, 2 and 3 in a ring; block 1 holds three bytes.
abbrev heap : Heap
heap = record {
  next = λ a. if a == 3 then 1 else a + 1;
  cell = λ a.
      if a == 1 then record { bytes_at = 7 ∷ 8 ∷ 9 ∷ 0 ∷ []; size = 4; bytes = 3 } else blank_cell;
  fresh = 4;
}

abbrev pub ring : Ring
ring = record {
  size = 12;
  bytes = 3;
  wp = 2;
  rp = 1;
  flush = false;
  block_size = 4;
  block_align = 4;
  block_realloc = 1;
  high_water_mark = 0;
  high_water_count = 0;
  low_water_mark = 0;
  min_return_size = 0;
  state = RbState.ready;
  io_read = DescState.enabled;
  io_write = DescState.enabled;
  heap = heap;
}

pub ring-Holds : Holds ring (7 ∷ 8 ∷ 9 ∷ [])
unfolding bytes_of
ring-Holds = record {
  blocks = record {
    filled = 1 ∷ [];
    blank = 3 ∷ [];
    layout = record {
      filled_path = omega arith;
      blank_path = omega arith;
      distinct = omega arith;
      known = omega arith;
      filled_cells = omega arith;
      wp_cell = omega arith;
      blank_cells = omega arith;
      contents = refl;
    };
  };
  counted = refl;
  small = omega arith;
  block_room = omega arith;
  realloc = omega arith;
}

abbrev bare : Ring
bare = record ring {
  size = 0;
  bytes = 0;
  wp = 1;
  block_size = 0;
  state = RbState.noinit;
  heap = record heap { cell = λ a. zeroed };
}

bare-Unallocated : Unallocated bare
bare-Unallocated = record {
  others = 2 ∷ 3 ∷ [];
  same = refl;
  path = omega arith;
  distinct = omega arith;
  known = omega arith;
  few = omega arith;
  empty = refl;
  realloc = omega arith;
  align = omega arith;
}

abbrev empty_heap : Heap
empty_heap = record { next = λ a. 0; cell = λ a. zeroed; fresh = 1 }

abbrev good : Setup
good = record {
  subpool = true;
  pcalloc = true;
  desc_init = true;
  read_filter = true;
  write_filter = true;
}

buf_read-Reads_example :
    (out : Reply) × (buf_read ring 2 Blocking.no_block 1 ≡ some out)
    × Reads ring (wanted ring 2 1) (7 ∷ 8 ∷ 9 ∷ []) out
unfolding align_down
buf_read-Reads_example =
    buf_read-Reads ring 2 Blocking.no_block 1 (7 ∷ 8 ∷ 9 ∷ []) (omega arith) ring-Holds
      (inl (omega arith))

-- Ten bytes do not fit into the two blank blocks: the ring grows.
buf_write-Writes_example :
    (out : Reply) × (buf_write plenty half_mark ring (1 ∷ 2 ∷ 3 ∷ 4 ∷ 5 ∷ 6 ∷ 1 ∷ 2 ∷ 3 ∷ 4 ∷ [])
      ≡ some out)
    × ((out.ring.block_realloc ≡ 0)
        ⊎ Writes ring (7 ∷ 8 ∷ 9 ∷ []) (1 ∷ 2 ∷ 3 ∷ 4 ∷ 5 ∷ 6 ∷ 1 ∷ 2 ∷ 3 ∷ 4 ∷ []) out)
buf_write-Writes_example =
    buf_write-Writes plenty half_mark ring (1 ∷ 2 ∷ 3 ∷ 4 ∷ 5 ∷ 6 ∷ 1 ∷ 2 ∷ 3 ∷ 4 ∷ [])
      (7 ∷ 8 ∷ 9 ∷ []) ring-Holds refl refl (Supplies-plenty 4 (omega arith)) (omega arith)

buf_write-first_example :
    (out : Reply) × (buf_write plenty half_mark bare (5 ∷ 6 ∷ []) ≡ some out)
    × ((out.ring.block_realloc ≡ 0)
        ⊎ Writes (ring_data_init plenty half_mark bare 2).1 [] (5 ∷ 6 ∷ []) out)
buf_write-first_example =
    buf_write-first plenty half_mark bare (5 ∷ 6 ∷ []) bare-Unallocated refl refl (omega arith)
      (Supplies-plenty 4 (omega arith)) (omega arith)

abbrev fills : List Call
fills = get 2 ∷ put (4 ∷ []) ∷ get 9 ∷ []

fills-Unwrapped : Unwrapped plenty half_mark ring fills
unfolding Unwrapped buf_write write_ready write_loop write_finish get_next_block grow
    high_water_mark_hit block_list_alloc block_data_fastalloc list_tail block_empty buf_read
    read_loop read_finish read_block align_down
fills-Unwrapped = ((λ e. omega (arith, e)), tt)

run_ring-run_queue_example :
    run_ring plenty half_mark ring fills ≡ some (run_queue (7 ∷ 8 ∷ 9 ∷ []) fills)
run_ring-run_queue_example =
    run_ring-run_queue plenty half_mark fills 4 ring (7 ∷ 8 ∷ 9 ∷ []) ring-Holds
      (record {
        ready = refl;
        block_size = refl;
        no_low = refl;
        no_high = refl;
        no_flush = refl;
        no_min = refl;
      })
      (Supplies-plenty 4 (omega arith)) (unfold put_bytes in omega arith) fills-Unwrapped

-- Nothing is to be had.
abbrev nothing : Grants
nothing a = record { sysinfo = true; freeram = 0; pcalloc = false; palloc = false; fill = 0 }

-- Blocks 1 and 3 hold data; block 2, the write block, is followed by block 3.
abbrev crowded : Ring
crowded = record ring {
  bytes = 7;
  heap = record heap { cell = λ a. if a == 2 then blank_cell else record blank_cell { bytes = 3 } };
}

buf_write-Refuses_example :
    (out : Reply) × (buf_write nothing half_mark crowded (1 ∷ 2 ∷ 3 ∷ 4 ∷ 5 ∷ 6 ∷ []) ≡ some out)
    × (out.status ≡ Status.success)
    × (out.count ≡ 6)
    × (out.ring.bytes ≡ 13)
    × (out.ring.wp ≡ 2)
    × (out.ring.rp ≡ 1)
    × ((a : ℕ) → a ≢ 2 → out.ring.heap.cell a ≡ crowded.heap.cell a)
    × ((out.ring.heap.cell 2).bytes ≤ 4)
buf_write-Refuses_example =
    buf_write-Refuses nothing half_mark crowded (1 ∷ 2 ∷ 3 ∷ 4 ∷ 5 ∷ 6 ∷ []) refl refl (λ a. refl)
      (omega arith) (omega arith) (omega arith) (omega arith)

-- Three blank blocks.
abbrev drained : Ring
drained = record ring { bytes = 0; wp = 1; heap = record heap { cell = λ a. blank_cell } }

drained-Layout : Layout drained.heap 1 1 [] (2 ∷ 3 ∷ []) []
unfolding bytes_of
drained-Layout = record {
  filled_path = refl;
  blank_path = omega arith;
  distinct = omega arith;
  known = omega arith;
  filled_cells = tt;
  wp_cell = omega arith;
  blank_cells = omega arith;
  contents = refl;
}

rb_release_write_block-buf_read_example :
    let after =
      rb_release_write_block plenty half_mark
        (loaded (rb_release_write_block plenty half_mark drained 0) (5 ∷ 6 ∷ 7 ∷ 8 ∷ []))
        4 in
    (after.bytes ≡ 4)
    × ((out : Reply) × (buf_read after 100 Blocking.no_block 1 ≡ some out)
        × (out.count ≡ 0)
        × (out.out ≡ []))
rb_release_write_block-buf_read_example =
    rb_release_write_block-buf_read plenty half_mark drained 2 (3 ∷ []) (5 ∷ 6 ∷ 7 ∷ 8 ∷ []) 4 100 1
      drained-Layout refl refl (omega arith) (omega arith)
