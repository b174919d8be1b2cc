-- ===== src/Ring.antt =====
-- src/buf/ring-buf.c: the ring buffer machine, a ring of blocks that grows when it is full.
--
-- An operation takes the ring that `machine_get_desc` finds for the handle, or `none`, and is one
-- atomic step: the writer and the reader hold `wlock` and `rlock` throughout. What a loop does
-- that would spin for ever with nobody at the other end is `none`. Loop variables are bounded by
-- the caller's byte count and do not wrap; the ring's totals are `size_t` sums.
-- `block_realloc` doubles, modulo 2^64, whenever a growth is tried, also where it fails. What traps
-- on an alignment of 0 is total here: theorems on reads take an alignment that is not 0.
pub mod Blocks
pub mod Trim
pub mod Read
pub mod Fifo
pub mod Full
pub mod Splice
pub mod Grow
pub mod Write
pub mod Append
pub mod Refine
pub mod Control
pub mod Start
pub mod Create
pub mod Refused
pub mod Release
pub mod Starve
pub mod Tests
use bingewatch.Prelude.{
  ℕ, zero, suc, ◌+◌, ◌-◌, ◌*◌, ◌/◌, ◌%◌, ◌++◌, Bool, true, false, not, ◌&&◌, ◌||◌, List, [], Option,
  none, some, take, drop, length, ltb, leb, ◌==◌, if◌then◌else◌, add_size, sub_size, size_mod,
}
use mathlib.Core.Option
use bingewatch.Status.{Status, is_error, DescState, Blocking}
use bingewatch.Block.{
  Heap, Grants, set_next, set_cell, block_empty, block_list_alloc, block_data_fastalloc, list_tail,
}

-- `enum rb_state_e`
pub data RbState : Type 0 where
  noinit ready : RbState

-- `struct ring_t`, with the states of its two descriptors and the heap that its blocks live in.
pub record Ring : Type 0 where
  pub size : ℕ
  pub bytes : ℕ
  pub wp : ℕ
  pub rp : ℕ
  pub flush : Bool
  pub block_size : ℕ
  pub block_align : ℕ
  pub block_realloc : ℕ
  pub high_water_mark : ℕ
  pub high_water_count : ℕ
  pub low_water_mark : ℕ
  pub min_return_size : ℕ
  pub state : RbState
  pub io_read : DescState
  pub io_write : DescState
  pub heap : Heap

abbrev pub mb : ℕ
mb = 1024 * 1024

abbrev pub default_buf_bytes : ℕ
default_buf_bytes = 100 * mb

abbrev pub default_realloc : ℕ
default_realloc = 16

-- `remaining--` until `align` divides it.
unfoldable pub align_down : ℕ → ℕ → ℕ
align_down align zero = zero
align_down align (suc n) =
    let rest = align_down align n in if suc n % align == 0 then suc n else rest

-- The variables of the loop of `buf_read`; `out` is what has been copied to the caller.
pub record Reading : Type 0 where
  pub b : ℕ
  pub heap : Heap
  pub remaining : ℕ
  pub bytes_read : ℕ
  pub out : List ℕ

-- The part of the loop's body behind the test for an empty block.
pub read_block : Reading → Reading
read_block s =
    let c = s.heap.cell s.b in
    let partial = ltb s.remaining c.bytes in
    let n = if partial then s.remaining else c.bytes in
    let left = c.bytes - n in
    let moved = take left (drop n c.bytes_at) ++ drop left c.bytes_at in
    let c' = record c { bytes_at = if partial then moved else c.bytes_at; bytes = left } in
    record {
      b = if partial then s.b else s.heap.next s.b;
      heap = set_cell s.heap s.b c';
      remaining = s.remaining - n;
      bytes_read = s.bytes_read + n;
      out = s.out ++ take n c.bytes_at;
    }

abbrev is_block : Blocking → Bool
is_block Blocking.block = true
is_block Blocking.no_block = false

pub read_loop : ℕ → Blocking → ℕ → Reading → Option Reading
read_loop zero blk align s = none
read_loop (suc fuel) blk align s =
    let rest = read_loop fuel blk align (read_block s) in
    if s.remaining == 0
    then some s
    else if block_empty s.heap s.b
    then (if is_block blk || not (s.bytes_read % align == 0) then none else some s)
    else rest

-- What a read or a write leaves: the ring, the code, the new `*bytes`, and the bytes stored in
-- the caller's buffer.
pub record Reply : Type 0 where
  pub ring : Ring
  pub status : Status
  pub count : ℕ
  pub out : List ℕ

-- What `buf_read` does behind the loop.
pub read_finish : Ring → Reading → Reply
read_finish ring s =
    let ring' = record ring { bytes = sub_size ring.bytes s.bytes_read; rp = s.b; heap = s.heap } in
    if ring.flush && s.bytes_read == 0
    then record {
      ring = record ring' { io_read = DescState.disabling };
      status = Status.complete;
      count = s.bytes_read;
      out = s.out;
    }
    else record { ring = ring'; status = Status.success; count = s.bytes_read; out = s.out }

-- `buf_read`
pub buf_read : Ring → ℕ → Blocking → ℕ → Option Reply
buf_read ring bytes blk align =
    let wanted = if ltb ring.bytes ring.min_return_size then 0 else align_down align bytes in
    let start : Reading = record {
      b = ring.rp;
      heap = ring.heap;
      remaining = wanted;
      bytes_read = 0;
      out = [];
    } in
    Option.map (read_finish ring) (read_loop (suc wanted) blk align start)

-- `ring->block_realloc *= 2`
abbrev pub doubled : ℕ → ℕ
doubled n = (n * 2) % size_mod

-- Requests for memory are answered by `grant`; `low_mark count high` is the `size_t` that the
-- floating-point expression of `high_water_mark_hit` yields.
module _ (grant : Grants) (low_mark : ℕ → ℕ → ℕ) where
  pub high_water_mark_hit : Ring → Ring
  high_water_mark_hit ring =
      let count = ring.high_water_count + 1 in
      record ring { high_water_count = count; low_water_mark = low_mark count ring.high_water_mark }

  pub low_water_mark_hit : Ring → Ring
  low_water_mark_hit ring =
      if ltb ring.bytes ring.low_water_mark then record ring { low_water_mark = 0 } else ring

  -- `rb_data_init`: `min_bytes` rounded up to a multiple of `block_align` is the block size.
  -- The quotient is exact in a `double` for `min_bytes` below 2 ^ 53.
  pub rb_data_init : Ring → ℕ → Status × Ring
  rb_data_init ring min_bytes =
      let n = min_bytes / ring.block_align in
      let block_size =
        if min_bytes % ring.block_align == 0
        then n * ring.block_align
        else (n + 1) * ring.block_align in
      let (bytes, heap) = block_data_fastalloc grant ring.wp block_size ring.heap in
      let ring' = record ring {
        block_size = block_size;
        size = add_size ring.size bytes;
        heap = heap;
      } in
      (if bytes == 0 then Status.error else Status.success, ring')

  -- `ring_data_init`: true if it failed.
  pub ring_data_init : Ring → ℕ → Bool × Ring
  ring_data_init ring bytes =
      let (status, ring') = rb_data_init ring bytes in
      if is_error status then (true, ring') else (false, record ring' { state = RbState.ready })

  -- The growth that `get_next_block` makes when the next block holds data.
  pub grow : Ring → ℕ → Bool × ℕ × Ring
  grow ring b =
      let next = ring.heap.next b in
      let n_blocks = doubled ring.block_realloc in
      let (add_head, h₁) = block_list_alloc grant n_blocks ring.heap in
      let (added, h₂) = block_data_fastalloc grant add_head ring.block_size h₁ in
      let add_tail = list_tail add_head h₂ in
      let h₃ = set_next (set_next h₂ b add_head) add_tail next in
      if added == 0 then (true, b, record ring { block_realloc = n_blocks; heap = h₂ }) else (
        false,
        add_head,
        record ring { block_realloc = n_blocks; size = add_size ring.size added; heap = h₃ },
      )

  -- `get_next_block`: true if no memory was to be had, and then the block is the same.
  pub get_next_block : Ring → ℕ → Bool × ℕ × Ring
  get_next_block ring b =
      if block_empty ring.heap (ring.heap.next b)
      then (false, ring.heap.next b, ring)
      else grow ring b

  -- The variables of the loop of `buf_write`; `input` is what is left of the caller's bytes.
  -- The loop ignores what `get_next_block` returns.
  pub write_loop : ℕ → Ring → ℕ → ℕ → List ℕ → ℕ → Option (ℕ × ℕ × Ring)
  write_loop zero ring b remaining input written = none
  write_loop (suc fuel) ring b remaining input written =
      let c = ring.heap.cell b in
      let n = if ltb remaining c.size then remaining else c.size in
      let c' = record c { bytes_at = take n input ++ drop n c.bytes_at; bytes = n } in
      let (failed, b', ring') = get_next_block (record ring { heap = set_cell ring.heap b c' }) b in
      let rest = write_loop fuel ring' b' (remaining - n) (drop n input) (written + n) in
      if remaining == 0 then some (b, written, ring) else rest

  -- What `buf_write` does behind the loop.
  pub write_finish : ℕ × ℕ × Ring → Reply
  write_finish (b, written, ring) =
      let ring' = record ring { bytes = add_size ring.bytes written } in
      let ring'' =
        if not (ring.high_water_mark == 0) && leb ring.high_water_mark ring'.bytes
        then high_water_mark_hit ring'
        else ring' in
      record { ring = record ring'' { wp = b }; status = Status.success; count = written; out = [] }

  -- `buf_write` behind the initialisation. Fuel: every round takes a byte.
  pub write_ready : Ring → List ℕ → Option Reply
  write_ready ring input =
      if ring.low_water_mark == 0
      then Option.map write_finish
          (write_loop (suc (length input)) ring ring.wp (length input) input 0)
      else some
          (record { ring = low_water_mark_hit ring; status = Status.nodata; count = 0; out = [] })

  -- `buf_write`; on a failed first allocation `*bytes` is left as it was.
  pub buf_write : Ring → List ℕ → Option Reply
  buf_write ring input = elim ring.state [
    | RbState.ready ↦ write_ready ring input
    | RbState.noinit ↦
        let (failed, ring') = ring_data_init ring (length input) in
        if failed
        then some (record { ring = ring'; status = Status.error; count = length input; out = [] })
        else write_ready ring' input
  ]
