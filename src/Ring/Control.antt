-- ===== src/Ring/Control.antt =====
-- The rest of src/buf/ring-buf.c: creating and stopping a ring, direct access to its write block
-- (`rb_acquire_write_block`, `rb_release_write_block`), and its settings.
use bingewatch.Prelude.{
  ℕ, ◌*◌, Bool, true, false, not, ◌&&◌, Option, none, some, leb, ltb, ◌==◌, if◌then◌else◌, add_size,
}
use bingewatch.Status.{Status, DescState}
use bingewatch.Block.{Heap, Grants, set_cell, block_list_alloc, forge_ring}
use bingewatch.Ring.{
  Ring, RbState, mb, default_buf_bytes, default_realloc, ring_data_init, get_next_block,
  low_water_mark_hit, high_water_mark_hit,
}

-- What the system and the machine layer answer to `create_buffer`: its pool, the ring
-- descriptor, `machine_desc_init`, and the two filters.
pub record Setup : Type 0 where
  pub subpool : Bool
  pub pcalloc : Bool
  pub desc_init : Bool
  pub read_filter : Bool
  pub write_filter : Bool

-- What `rb_acquire_write_block` hands out: the block, or NULL.
pub record Acquired : Type 0 where
  pub status : Status
  pub block : Option ℕ
  pub ring : Ring

-- `stop_buffer`: no more writes, and reads until the ring is empty.
pub stop_buffer : Ring → Ring
stop_buffer ring = record ring { io_write = DescState.disabling; flush = true }

pub rb_set_min_return_size : Ring → ℕ → Ring
rb_set_min_return_size ring bytes = record ring { min_return_size = bytes }

pub rb_set_alignment : Ring → ℕ → Ring
rb_set_alignment ring align = record ring { block_align = align }

pub rb_set_high_water_mark : Ring → ℕ → Ring
rb_set_high_water_mark ring bytes = record ring { high_water_mark = bytes }

pub rb_get_size : Option Ring → ℕ
rb_get_size none = 0
rb_get_size (some ring) = ring.size

pub rb_get_bytes : Option Ring → ℕ
rb_get_bytes none = 0
rb_get_bytes (some ring) = ring.bytes

-- The ring descriptor that `create_buffer` fills in.
abbrev pub new_ring : ℕ → Heap → Ring
new_ring blocks heap = record {
  size = 0;
  bytes = 0;
  wp = blocks;
  rp = blocks;
  flush = false;
  block_size = 0;
  block_align = 1 * mb;
  block_realloc = default_realloc;
  high_water_mark = 0;
  high_water_count = 0;
  low_water_mark = 0;
  min_return_size = 0;
  state = RbState.noinit;
  io_read = DescState.enabled;
  io_write = DescState.enabled;
  heap = heap;
}

module _ (grant : Grants) (low_mark : ℕ → ℕ → ℕ) where
  -- `create_buffer`, up to the registration of the descriptor: `none` where it frees the pool and
  -- returns handle 0.
  unfoldable pub create_buffer : Setup → Heap → Option Ring
  create_buffer answers h =
      let (blocks, h₁) = block_list_alloc grant default_realloc h in
      let ring = new_ring blocks (forge_ring blocks h₁) in
      if not answers.subpool
      then none
      else if not answers.pcalloc
      then none
      else if blocks == 0
      then none
      else if not answers.desc_init
      then none
      else if not answers.read_filter
      then none
      else if not answers.write_filter
      then none
      else some ring

  -- The part of `rb_acquire_write_block` behind the first allocation.
  unfoldable pub acquire_ready : Ring → Acquired
  acquire_ready ring =
      if ring.low_water_mark == 0
      then record { status = Status.success; block = some ring.wp; ring = ring }
      else record {
        status = Status.nodata;
        block = none;
        ring = low_water_mark_hit grant low_mark ring;
      }

  -- `rb_acquire_write_block`
  unfoldable pub rb_acquire_write_block : Ring → ℕ → Acquired
  rb_acquire_write_block ring init_bytes =
      let bytes = if ltb 0 init_bytes then init_bytes else default_buf_bytes in
      let (failed, ring') = ring_data_init grant low_mark ring bytes in
      elim ring.state [
        | RbState.ready ↦ acquire_ready ring
        | RbState.noinit ↦
            if failed
            then record { status = Status.error; block = none; ring = ring' }
            else acquire_ready ring'
      ]

  -- `rb_release_write_block`, when `bytes` bytes have been put into the write block.
  unfoldable pub rb_release_write_block : Ring → ℕ → Ring
  rb_release_write_block ring bytes =
      let c = ring.heap.cell ring.wp in
      let filled = set_cell ring.heap ring.wp (record c { bytes = bytes }) in
      let (failed, b, ring₁) =
        get_next_block grant low_mark (record ring { heap = filled }) ring.wp in
      let ring₂ = record ring₁ { bytes = add_size ring₁.bytes bytes } in
      let ring₃ =
        if not (ring.high_water_mark == 0) && leb ring.high_water_mark ring₂.bytes
        then high_water_mark_hit grant low_mark ring₂
        else ring₂ in
      record ring₃ { wp = b }
