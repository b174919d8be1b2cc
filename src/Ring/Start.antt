-- ===== src/Ring/Start.antt =====
-- From `create_buffer` to the first write: the ring of block descriptors gets its data.
use bingewatch.Prelude.{
  ℕ, suc, ◌+◌, ◌*◌, ◌/◌, ◌%◌, ◌^◌, ◌≤◌, ◌<◌, ◌≡◌, refl, ◌≢◌, ◌∙◌, ◌⊎◌, inr, false, some, List, [],
  ◌∷◌, arith, All, Distinct, All-mono, All-zip, All-take, take, length, ◌==◌, if◌then◌else◌,
  add_size,
}
use native.Mathlib.Nat.{mod-add-div', mod-lt}
use bingewatch.Status.{Status}
use bingewatch.Block.{Grants, block_data_fastalloc}
use bingewatch.Block.Segment.{Seg, Distinct-take}
use bingewatch.Block.Carve.{block_data_fastalloc-Carved}
use bingewatch.Ring.{Ring, RbState, Reply, rb_data_init, ring_data_init, buf_write, write_ready}
use bingewatch.Ring.Blocks.{IsBlank, bytes_of, Blocks}
use bingewatch.Ring.Fifo.{Holds}
use bingewatch.Ring.Grow.{Ample}
use bingewatch.Ring.Splice.{new_cell-IsBlank}
use bingewatch.Ring.Append.{Writes, write_ready-Writes}

-- A ring of block descriptors that have no data yet.
pub record Unallocated (ring : Ring) : Type 0 where
  pub others : List ℕ
  pub same : ring.rp ≡ ring.wp
  pub path : Seg ring.heap.next (ring.heap.next ring.wp) others ring.wp
  pub distinct : Distinct (ring.wp ∷ others)
  pub known : All (λ a. (0 < a) × (a < ring.heap.fresh)) (ring.wp ∷ others)
  pub few : length others < ring.heap.fresh
  pub empty : ring.bytes ≡ 0
  pub realloc : 0 < ring.block_realloc
  pub align : 0 < ring.block_align

-- `min_bytes` rounded up to a multiple of `align`
abbrev pub round_up : ℕ → ℕ → ℕ
round_up align min_bytes =
    if min_bytes % align == 0 then min_bytes / align * align else (min_bytes / align + 1) * align

pub round_up_lem :
    (align n : ℕ) → 0 < align → (n ≤ round_up align n) × (round_up align n < n + align)
round_up_lem align n h =
    let e : (n / align + 1) * align ≡ n / align * align + align = grind arith in
    ground (arith, mod-add-div' n align, e, mod-lt n h)

module _ (grant : Grants) (low_mark : ℕ → ℕ → ℕ) where
  rb_data_init_open :
      (ring : Ring) (n size : ℕ)
      → round_up ring.block_align n ≡ size
      → let r = block_data_fastalloc grant ring.wp size ring.heap in
        0 < r.0
        → rb_data_init grant low_mark ring n ≡ (
          Status.success,
          record ring { block_size = size; size = add_size ring.size r.0; heap = r.1 },
        )
  unfolding rb_data_init
  rb_data_init_open ring n size e pos = rw e (ground arith)

  -- What `block_data_fastalloc` makes of the descriptors.
  data-Layout :
      (ring : Ring) (size : ℕ) (u : Unallocated ring)
      → 0 < size
      → Ample grant low_mark size
      → let r = block_data_fastalloc grant ring.wp size ring.heap in
        (0 < r.0) × Blocks r.1 ring.rp ring.wp []
  unfolding bytes_of
  data-Layout ring size u room ample =
      let b = ring.wp in
      let h = ring.heap in
      let apart : All (λ a. (0 < a) × (a ≢ b)) u.others =
        All-zip _ _ (λ a. (0 < a) × (a ≢ b)) (λ a p q. (p.0, q)) u.others u.known.1 u.distinct.0 in
      let (k, kle, added, c) =
        block_data_fastalloc-Carved grant b size h u.others b (ample h.fresh) u.known.0.0 u.path
          apart (inr refl) u.distinct u.few in
      let fill = (grant h.fresh).fill in
      let blank =
        All-mono _ (λ a. IsBlank ((block_data_fastalloc grant ring.wp size ring.heap).1.cell a))
          (λ a s. rw s (new_cell-IsBlank size fill room)) (b ∷ take k u.others) c.cells in
      (
        rw added (grind arith),
        record {
          filled = [];
          blank = take k u.others;
          layout = record {
            filled_path = u.same;
            blank_path = rw u.same c.path.1;
            distinct = Distinct-take (suc k) (b ∷ u.others) u.distinct;
            known = All-take _ (suc k) (b ∷ u.others) (
                All-mono _
                  (λ a. (0 < a) × (a < (block_data_fastalloc grant ring.wp size ring.heap).1.fresh))
                  (λ a p. omega (arith, c.fresh)) (b ∷ u.others) u.known);
            filled_cells = tt;
            wp_cell = blank.0;
            blank_cells = blank.1;
            contents = refl;
          };
        },
      )

  -- With memory to be had, the first allocation, for a write of at least one byte, gives data to
  -- at least one block of a ring of bare descriptors, closes the ring behind the last that got
  -- some, and makes it ready and empty, with blocks of the write's size rounded up.
  pub ring_data_init-Holds :
      (ring : Ring) (n : ℕ)
      → Unallocated ring
      → 0 < n
      → Ample grant low_mark (round_up ring.block_align n)
      → let r = ring_data_init grant low_mark ring n in
        (r.0 ≡ false)
        × Holds r.1 []
        × (r.1.state ≡ RbState.ready)
        × (r.1.block_size ≡ round_up ring.block_align n)
        × (r.1.low_water_mark ≡ ring.low_water_mark)
  unfolding ring_data_init
  ring_data_init-Holds ring n u pos ample =
      let room : 0 < round_up ring.block_align n =
        omega (arith, round_up_lem ring.block_align n u.align) in
      let (got, blocks) = data-Layout ring (round_up ring.block_align n) u room ample in
      rw (rb_data_init_open ring n (round_up ring.block_align n) refl got, ring_data_init)
        (
          refl,
          record {
            blocks = blocks;
            counted = u.empty;
            small = omega arith;
            block_room = room;
            realloc = u.realloc;
          },
          refl,
          refl,
          refl,
        )

  buf_write-noinit :
      (ring : Ring) (input : List ℕ)
      → ring.state ≡ RbState.noinit
      → (ring_data_init grant low_mark ring (length input)).0 ≡ false
      → buf_write grant low_mark ring input
        ≡ write_ready grant low_mark (ring_data_init grant low_mark ring (length input)).1 input
  unfolding buf_write
  buf_write-noinit ring input e ok = ground arith

  -- With memory to be had, the first write to a created ring without a low-water mark, of at least
  -- one byte and less than 2^64, returns and allocates its blocks; unless block_realloc, which
  -- doubles modulo 2^64 with every growth, has come to 0, it stores every byte.
  pub buf_write-first :
      (ring : Ring) (input : List ℕ)
      → Unallocated ring
      → ring.state ≡ RbState.noinit
      → ring.low_water_mark ≡ 0
      → 0 < length input
      → Ample grant low_mark (round_up ring.block_align (length input))
      → length input < 2 ^ 64
      → (out : Reply) × (buf_write grant low_mark ring input ≡ some out)
        × ((out.ring.block_realloc ≡ 0)
            ⊎ Writes (ring_data_init grant low_mark ring (length input)).1 [] input out)
  buf_write-first ring input u e free pos ample fit =
      let (ok, held, on, size, low) = ring_data_init-Holds ring (length input) u pos ample in
      let ring' = (ring_data_init grant low_mark ring (length input)).1 in
      let (out, ran, w) =
        write_ready-Writes grant low_mark ring' input [] held (low ∙ free) (rw size ample)
          (omega (arith, fit)) in
      (out, buf_write-noinit ring input e ok ∙ ran, w)
