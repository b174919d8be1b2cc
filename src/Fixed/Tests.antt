-- ===== src/Fixed/Tests.antt =====
-- A fixed-block buffer of three blocks, and the theorems at it.
use bingewatch.Prelude.{
  ℕ, ◌+◌, ◌%◌, ◌^◌, ◌≤◌, ◌<◌, ◌≡◌, refl, true, false, some, List, [], ◌∷◌, arith, ◌==◌,
  if◌then◌else◌,
}
use bingewatch.Status.{Status}
use bingewatch.Block.{Heap}
use bingewatch.Ring.Tests.{plenty, Supplies-plenty}
use bingewatch.Ring.Blocks.{bytes_of}
use bingewatch.Ring.Control.{Setup}
use bingewatch.Ring.{align_down}
use bingewatch.Fixed.{
  FixedRing, FbbArgs, or_default, fbb_blk_bytes, sanitize_args, fbb_create_buffer, is_power, adjust,
}
use bingewatch.Fixed.Messages.{Holding, messages_of, total}
use bingewatch.Fixed.Pop.{picked}
use bingewatch.Fixed.Refine.{
  FixedCall, put_message, get_message, run_fixed, run_messages, run_fixed-run_messages,
}
use bingewatch.Fixed.Arguments.{sanitize_args_lem}
use bingewatch.Fixed.Made.{fbb_create_buffer-Holding}

-- Blocks 1, 2 and 3 in a ring; block 1 holds a message of three bytes.
abbrev heap : Heap
heap = record {
  next = λ a. if a == 3 then 1 else a + 1;
  cell = λ a.
      if a == 1
      then record { bytes_at = 7 ∷ 8 ∷ 9 ∷ 0 ∷ []; size = 4; bytes = 3 }
      else record { bytes_at = 0 ∷ 0 ∷ 0 ∷ 0 ∷ []; size = 4; bytes = 0 };
  fresh = 4;
}

abbrev fixed : FixedRing
fixed = record { size = 0; bytes = 3; wp = 2; rp = 1; block_size = 4; fill = false; heap = heap }

fixed-Holding : Holding fixed ((7 ∷ 8 ∷ 9 ∷ []) ∷ [])
unfolding bytes_of messages_of total
fixed-Holding = record {
  filled = 1 ∷ [];
  blank = 3 ∷ [];
  layout = record {
    filled_path = omega arith;
    blank_path = omega arith;
    distinct = omega arith;
    known = omega arith;
    filled_cells = omega arith;
    wp_cell = omega arith;
    blank_cells = omega arith;
    contents = refl;
  };
  messages = refl;
  sized = omega arith;
  counted = refl;
  room = omega arith;
  small = omega arith;
}

-- The third write finds the ring full; the fourth is too long for a block.
abbrev calls : List FixedCall
calls =
    put_message (1 ∷ 2 ∷ [])
    ∷ put_message (3 ∷ 4 ∷ 5 ∷ 6 ∷ [])
    ∷ put_message (1 ∷ [])
    ∷ put_message (1 ∷ 2 ∷ 3 ∷ 4 ∷ 5 ∷ [])
    ∷ get_message 2 1
    ∷ get_message 8 1
    ∷ []

run_fixed-run_messages_example :
    run_fixed plenty fixed calls ≡ some (run_messages 4 ((7 ∷ 8 ∷ 9 ∷ []) ∷ []) calls)
run_fixed-run_messages_example =
    run_fixed-run_messages plenty calls fixed ((7 ∷ 8 ∷ 9 ∷ []) ∷ []) fixed-Holding
      (Supplies-plenty 4 (omega arith)) (omega arith)

-- The first message is too long for its reader, who gets nothing; the second comes out whole.
heard :
    run_messages 4 ((7 ∷ 8 ∷ 9 ∷ []) ∷ []) calls
    ≡ (Status.success, 2, [])
      ∷ (Status.success, 4, [])
      ∷ (Status.success, 1, [])
      ∷ (Status.success, 5, [])
      ∷ (Status.success, 0, [])
      ∷ (Status.success, 2, 1 ∷ 2 ∷ [])
      ∷ []
unfolding run_messages picked align_down
heard = refl

abbrev given : FbbArgs
given = record { buf_bytes = 100; block_bytes = 10; align = 6; flags = false }

abbrev good : Setup
good = record {
  subpool = true;
  pcalloc = true;
  desc_init = true;
  read_filter = true;
  write_filter = true;
}

-- 6 is no power of 2.
args_settled :
    sanitize_args given ≡ record { buf_bytes = 100; block_bytes = 12; align = 4; flags = false }
unfolding sanitize_args is_power adjust
args_settled = refl

sanitize_args_lem_example :
    let s = sanitize_args given in
    let asked = or_default fbb_blk_bytes 10 in
    ((k : ℕ) × (k ≤ 15) × (s.align ≡ 2 ^ k))
    × (s.block_bytes % s.align ≡ 0)
    × (0 < s.block_bytes)
    × (asked ≤ s.block_bytes)
    × (s.block_bytes < asked + s.align)
    × (0 < s.buf_bytes)
sanitize_args_lem_example = sanitize_args_lem given (omega arith)

abbrev empty_heap : Heap
empty_heap = record {
  next = λ a. 0;
  cell = λ a. record { bytes_at = []; size = 0; bytes = 0 };
  fresh = 1;
}

fbb_create_buffer-Holding_example :
    (ring : FixedRing) × (fbb_create_buffer plenty good given empty_heap ≡ some ring)
    × (ring.block_size ≡ (sanitize_args given).block_bytes)
    × Holding ring []
unfolding sanitize_args is_power adjust
fbb_create_buffer-Holding_example =
    fbb_create_buffer-Holding plenty good given empty_heap refl (omega arith)
      (Supplies-plenty 12 (omega arith)) (omega arith) (omega arith)
