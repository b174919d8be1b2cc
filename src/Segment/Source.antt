-- ===== src/Segment/Source.antt =====
-- `segment_run_source`: the thread that reads from a machine straight into the blocks of a ring
-- buffer.
pub mod Feeding
use bingewatch.Prelude.{
  ℕ, Bool, true, false, Option, none, some, List, [], ◌∷◌, if◌then◌else◌, ◌++◌,
}
use bingewatch.Status.{is_error}
use bingewatch.Stream.{State}
use bingewatch.Block.{Grants, set_cell}
use bingewatch.Ring.{Ring}
use bingewatch.Ring.Control.{Acquired, rb_acquire_write_block, rb_release_write_block}
use bingewatch.Segment.{
  Joined, Segment, spin, complete, quit, move, turn, fail_segment, complete_segment,
  read_from_source, larger,
}

-- The world of such a segment: that of its source, and the ring that it fills.
pub record Feed (S : Type 0) : Type 0 where
  pub source : S
  pub ring : Ring

-- `buflen` of `segment_run_source`
pub source_buffer_length : (src rb : ℕ) → ℕ
unfolding larger
source_buffer_length src rb = larger src rb

-- What the source's `read` has left in the data of block `b`.
pub put_data : Ring → ℕ → List ℕ → Ring
put_data ring b content = record ring {
  heap = set_cell ring.heap b (record (ring.heap.cell b) { bytes_at = content });
}

module _ {S : Type 0} where
  pub put_ring : Segment (Feed S) → Ring → Segment (Feed S)
  put_ring seg ring = record seg { world = record seg.world { ring = ring } }

module _ (grant : Grants) (low_mark : ℕ → ℕ → ℕ) {S : Type 0} where
  -- A round's read into the write block.
  pub fill_block : Joined (Feed S) → Segment (Feed S) → (b : ℕ) → Segment (Feed S)
  unfolding put_ring put_data read_from_source
  fill_block e seg b =
      let c = seg.world.ring.heap.cell b in
      let (bytes, content, seg') = read_from_source e seg c.bytes_at c.size in
      put_ring seg'
        (rb_release_write_block grant low_mark (put_data seg'.world.ring b content) bytes)

  -- What follows on the answer of `rb_acquire_write_block`.
  with_block : Joined (Feed S) → Segment (Feed S) → Acquired → Segment (Feed S)
  unfolding put_ring fail_segment fill_block
  with_block e seg a =
      let seg' = put_ring seg a.ring in
      elim (is_error a.status) [
        | true ↦ fail_segment e seg'
        | false ↦ elim a.block [ none ↦ seg' | some b ↦ fill_block e seg' b ]
      ]

  -- The part of a round that moves data.
  pub source_move : Joined (Feed S) → (buflen : ℕ) → Segment (Feed S) → Segment (Feed S)
  unfolding with_block
  source_move e buflen seg =
      with_block e seg (rb_acquire_write_block grant low_mark seg.world.ring buflen)

  -- One round of the loop of `segment_run_source`.
  pub source_round : Joined (Feed S) → (buflen : ℕ) → State → Segment (Feed S) → Segment (Feed S)
  unfolding turn complete_segment source_move
  source_round e buflen state seg = elim (turn state seg.do_complete) [
    | spin ↦ seg
    | complete ↦ complete_segment e seg
    | quit ↦ record seg { running = false }
    | move ↦ source_move e buflen seg
  ]

  source_rounds : Joined (Feed S) → (buflen : ℕ) → List State → Segment (Feed S) → Segment (Feed S)
  unfolding source_round
  source_rounds e buflen [] seg = seg
  source_rounds e buflen (state ∷ states) seg = elim seg.running [
    | false ↦ seg
    | true ↦ source_rounds e buflen states (source_round e buflen state seg)
  ]

  -- `segment_run_source`, over the states of the stream that it sees.
  pub segment_run_source :
      Joined (Feed S) → (src rb : ℕ) → Segment (Feed S) → List State → Segment (Feed S)
  unfolding source_rounds source_buffer_length
  segment_run_source e src rb seg states =
      source_rounds e (source_buffer_length src rb) states (record seg { running = true })
