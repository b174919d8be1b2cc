-- ===== src/Segment/Source/Feeding.antt =====
-- `segment_run_source`: what a round that reads leaves in the ring.
use bingewatch.Prelude.{ℕ, ◌+◌, ◌≤◌, ◌<◌, ◌≡◌, refl, ap, ◌∙◌, ◌^◌, List, ◌++◌, take, length}
use bingewatch.Block.{Grants}
use bingewatch.Ring.{RbState, doubled}
use bingewatch.Ring.Fifo.{Holds}
use bingewatch.Ring.Grow.{Ample}
use bingewatch.Ring.Release.{loaded, rb_acquire_write_block_lem, rb_release_write_block-Holds}
use bingewatch.Ring.Control.{rb_release_write_block}
use bingewatch.Segment.{Io, Joined, Segment, fine, outcome}
use bingewatch.Segment.Move.{read_seg, read_fine}
use bingewatch.Segment.Source.{Feed, put_ring, put_data, fill_block, with_block, source_move}

-- What a source gives when it is asked to fill the write block of a ring.
pub record Fills {S : Type 0} (io : Io (Feed S)) (w : Feed S) (content : List ℕ) (n : ℕ)
    : Type 0 where
  pub status :
      outcome
        (io.read w (w.ring.heap.cell w.ring.wp).bytes_at (w.ring.heap.cell w.ring.wp).size).status
      ≡ fine
  pub bytes :
      (io.read w (w.ring.heap.cell w.ring.wp).bytes_at (w.ring.heap.cell w.ring.wp).size).bytes ≡ n
  pub buf :
      (io.read w (w.ring.heap.cell w.ring.wp).bytes_at (w.ring.heap.cell w.ring.wp).size).buf
      ≡ content
  pub ring :
      (io.read w (w.ring.heap.cell w.ring.wp).bytes_at (w.ring.heap.cell w.ring.wp).size).world.ring
      ≡ w.ring
  pub allocated : length content ≡ (w.ring.heap.cell w.ring.wp).size

module _ (grant : Grants) (low_mark : ℕ → ℕ → ℕ) {S : Type 0} where
  source_move_open :
      (e : Joined (Feed S)) (buflen : ℕ) (seg : Segment (Feed S))
      → seg.world.ring.state ≡ RbState.ready
      → seg.world.ring.low_water_mark ≡ 0
      → source_move grant low_mark e buflen seg ≡ fill_block grant low_mark e seg seg.world.ring.wp
  unfolding source_move with_block put_ring
  source_move_open e buflen seg on free =
      ap (with_block grant low_mark e seg)
        (rb_acquire_write_block_lem grant low_mark seg.world.ring buflen on free)

  fill_block_open :
      (e : Joined (Feed S)) (seg : Segment (Feed S)) (content : List ℕ) (n : ℕ)
      → Fills e.src seg.world content n
      → (seg' : Segment (Feed S)) × (fill_block grant low_mark e seg seg.world.ring.wp
          ≡ put_ring seg' (rb_release_write_block grant low_mark (loaded seg.world.ring content) n))
        × (seg'.running ≡ seg.running)
        × (seg'.calls ≡ seg.calls)
  unfolding fill_block put_data
  fill_block_open e seg content n f =
      let c = seg.world.ring.heap.cell seg.world.ring.wp in
      (
        read_seg e seg c.bytes_at c.size,
        rw (fill_block, read_fine e seg c.bytes_at c.size f.status, f.bytes, f.buf, f.ring) refl,
        refl,
        refl,
      )

  -- A round of a segment that fills a ring buffer: where its source reads `n` bytes, at least one,
  -- into the write block of a ready ring without water marks, memory is to be had, and
  -- block_realloc does not double to 0 modulo 2^64, the ring holds these bytes behind those it
  -- held, its reader stays where it was, and the segment goes on.
  pub source_move-Holds :
      (e : Joined (Feed S)) (buflen : ℕ) (seg : Segment (Feed S)) (content : List ℕ) (n : ℕ)
      (xs : List ℕ)
      → Holds seg.world.ring xs
      → seg.world.ring.state ≡ RbState.ready
      → seg.world.ring.low_water_mark ≡ 0
      → seg.world.ring.high_water_mark ≡ 0
      → Ample grant low_mark seg.world.ring.block_size
      → 0 < doubled seg.world.ring.block_realloc
      → Fills e.src seg.world content n
      → 0 < n
      → n ≤ length content
      → length xs + n < 2 ^ 64
      → Holds (source_move grant low_mark e buflen seg).world.ring (xs ++ take n content)
        × ((source_move grant low_mark e buflen seg).world.ring.rp ≡ seg.world.ring.rp)
        × ((source_move grant low_mark e buflen seg).running ≡ seg.running)
        × ((source_move grant low_mark e buflen seg).calls ≡ seg.calls)
  unfolding put_ring
  source_move-Holds e buflen seg content n xs h on free no_high ample more f pos fits small =
      let (seg', opened, running, calls) = fill_block_open e seg content n f in
      let (held, rp) =
        rb_release_write_block-Holds grant low_mark seg.world.ring content n xs h no_high ample more
          f.allocated pos fits small in
      rw (source_move_open e buflen seg on free ∙ opened) (held, rp, running, calls)
