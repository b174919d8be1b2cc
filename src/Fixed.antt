-- ===== src/Fixed.antt =====
-- src/buf/fixed-block-buf.c: the fixed-block buffer machine, whose ring keeps one write per block.
--
-- An operation takes the ring that `machine_get_desc` finds for the handle, and is one atomic step:
-- the writer and the reader hold `wlock` and `rlock` throughout. `none` stands for a null pointer
-- that is used.
pub mod Messages
pub mod Pop
pub mod Put
pub mod Refine
pub mod Arguments
pub mod Made
mod Tests
use bingewatch.Prelude.{
  ℕ, zero, suc, ◌^◌, ◌+◌, ◌*◌, ◌/◌, ◌-◌, Bool, true, false, not, Option, none, some, List, [], ◌++◌,
  take, drop, length, ltb, leb, ◌==◌, if◌then◌else◌, add_size, sub_size, ◌>>=◌,
}
use bingewatch.Status.{Status}
use bingewatch.Block.{
  Heap, Grants, set_next, set_cell, block_empty, block_list_alloc, block_data_fastalloc, list_tail,
  forge_ring,
}
use Prim.Native.Nat.{bit_and}
use bingewatch.Ring.{align_down, mb}
use bingewatch.Ring.Control.{Setup}

-- `struct ring_t`, with the heap that its blocks live in.
pub record FixedRing : Type 0 where
  pub size : ℕ
  pub bytes : ℕ
  pub wp : ℕ
  pub rp : ℕ
  pub block_size : ℕ
  pub fill : Bool
  pub heap : Heap

-- What a read or a write leaves: the ring, the code, the new `*bytes`, and the bytes stored in
-- the caller's buffer.
pub record FixedReply : Type 0 where
  pub ring : FixedRing
  pub status : Status
  pub count : ℕ
  pub out : List ℕ

-- The part of `buf_read` behind the test for an empty block.
pub read_message : FixedRing → (bytes align : ℕ) → FixedReply
read_message ring bytes align =
    let c = ring.heap.cell ring.rp in
    let n = align_down align c.bytes in
    let fits = leb n bytes in
    record {
      ring = record ring {
        bytes = sub_size ring.bytes c.bytes;
        rp = ring.heap.next ring.rp;
        heap = set_cell ring.heap ring.rp (record c { bytes = 0 });
      };
      status = Status.success;
      count = if fits then n else 0;
      out = if fits then take n c.bytes_at else [];
    }

-- `buf_read`
pub fbb_buf_read : FixedRing → (bytes align : ℕ) → FixedReply
unfolding read_message
fbb_buf_read ring bytes align =
    if block_empty ring.heap ring.rp
    then record { ring = ring; status = Status.success; count = 0; out = [] }
    else read_message ring bytes align

module _ (grant : Grants) where
  -- The expansion that `buf_write` makes when the next block holds data.
  pub expand : (block_size remaining b : ℕ) → Heap → Option Heap
  expand block_size remaining b h =
      let next = h.next b in
      let block_count = remaining / block_size + 1 in
      let (add, h₁) = block_list_alloc grant block_count h in
      let (_, h₂) = block_data_fastalloc grant add block_size h₁ in
      let h₃ = set_next h₂ b add in
      if add == 0 then none else some (set_next h₃ (list_tail add h₃) next)

  -- The part of `buf_write` behind the test of the size.
  pub write_message : FixedRing → List ℕ → Option FixedReply
  unfolding expand
  write_message ring input =
      let b = ring.wp in
      let bytes = length input in
      let c = ring.heap.cell b in
      let h =
        set_cell ring.heap b
          (record c { bytes_at = input ++ drop bytes c.bytes_at; bytes = bytes }) in
      do
        h' ← if block_empty h (h.next b) then some h else expand ring.block_size bytes b h
        some (record {
          ring = record ring { bytes = add_size ring.bytes bytes; wp = h'.next b; heap = h' };
          status = Status.success;
          count = bytes;
          out = [];
        })

  -- `buf_write`; where the input is larger than the block, `*bytes` is left as it was.
  pub fbb_buf_write : FixedRing → List ℕ → Option FixedReply
  unfolding write_message
  fbb_buf_write ring input =
      if ltb (ring.heap.cell ring.wp).size (length input)
      then some (record { ring = ring; status = Status.success; count = length input; out = [] })
      else write_message ring input

pub fbb_get_size : Option FixedRing → ℕ
fbb_get_size none = 0
fbb_get_size (some ring) = ring.size

pub fbb_get_bytes : Option FixedRing → ℕ
fbb_get_bytes none = 0
fbb_get_bytes (some ring) = ring.bytes

-- `struct fbbiom_args`; `flags` is whether BF_BLOCKFILL is set.
pub record FbbArgs : Type 0 where
  pub buf_bytes : ℕ
  pub block_bytes : ℕ
  pub align : ℕ
  pub flags : Bool

abbrev pub fbb_buf_bytes : ℕ
fbb_buf_bytes = 100 * mb

abbrev pub fbb_blk_bytes : ℕ
fbb_blk_bytes = 1 * mb

abbrev pub fbb_align : ℕ
fbb_align = 4

-- The loop of `sanitize_args`: is `align` one of 2^0 to 2^i?
pub is_power : (i align : ℕ) → Bool
is_power zero align = 1 == align
is_power (suc i) align = let rest = is_power i align in if 2 ^ suc i == align then true else rest

-- `adjust` of `sanitize_args`
pub adjust : (align block_bytes : ℕ) → ℕ
adjust align block_bytes = bit_and (sub_size align (bit_and block_bytes (align - 1))) (align - 1)

abbrev pub or_default : ℕ → ℕ → ℕ
or_default default n = if 0 == n then default else n

-- `sanitize_args`
pub sanitize_args : FbbArgs → FbbArgs
unfolding is_power adjust
sanitize_args args =
    let block_bytes = or_default fbb_blk_bytes args.block_bytes in
    let given = or_default fbb_align args.align in
    let align = if is_power 15 given then given else fbb_align in
    let more = adjust align block_bytes in
    record args {
      buf_bytes = or_default fbb_buf_bytes args.buf_bytes;
      align = align;
      block_bytes = if ltb 0 more then add_size block_bytes more else block_bytes;
    }

-- `block_count` of `create_buffer`
pub block_count : (bytes block_size : ℕ) → ℕ
block_count bytes block_size =
    let n = bytes / block_size in if ltb (n * block_size) bytes then n + 1 else n

-- The ring descriptor that `create_buffer` fills in, which `pcalloc` has cleared.
abbrev pub new_fixed : (block_size blocks : ℕ) → Bool → Heap → FixedRing
new_fixed block_size blocks fill heap = record {
  size = 0;
  bytes = 0;
  wp = blocks;
  rp = blocks;
  block_size = block_size;
  fill = fill;
  heap = heap;
}

module _ (grant : Grants) where
  -- `create_buffer`, up to the registration of the descriptor: `none` where it frees the pool and
  -- returns handle 0. The number of bytes that `block_data_fastalloc` gives is never below
  -- IO_SUCCESS, so what it answers changes nothing.
  pub fbb_create_buffer : Setup → FbbArgs → Heap → Option FixedRing
  unfolding sanitize_args block_count
  fbb_create_buffer answers given h =
      let args = sanitize_args given in
      let (blocks, h₁) = block_list_alloc grant (block_count args.buf_bytes args.block_bytes) h in
      let (_, h₂) = block_data_fastalloc grant blocks args.block_bytes h₁ in
      let ring = new_fixed args.block_bytes blocks args.flags (forge_ring blocks h₂) in
      if not answers.subpool
      then none
      else if not answers.pcalloc
      then none
      else if blocks == 0
      then none
      else if not answers.desc_init
      then none
      else if not answers.read_filter
      then none
      else if not answers.write_filter
      then none
      else some ring
