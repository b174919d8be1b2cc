-- ===== src/Fixed/Made.antt =====
-- `create_buffer` of a fixed-block buffer: an empty ring of blocks with data.
use mathlib.Core.Path.{subst, sym}
use bingewatch.Prelude.{
  ℕ, ◌<◌, ◌≡◌, refl, ◌≢◌, Bool, true, false, some, [], ◌∷◌, ◌^◌, arith, All, All-mono, All-zip,
  ◌==◌,
}
use bingewatch.Block.{Heap, Grants, block_list_alloc, block_data_fastalloc, forge_ring}
use bingewatch.Block.Segment.{Seg}
use bingewatch.Block.Tail.{last_block-Ends, forge_loop-last_block}
use bingewatch.Block.Carve.{Supplies}
use bingewatch.Ring.Blocks.{bytes_of, IsBlank}
use bingewatch.Ring.Splice.{Spliced, splice}
use bingewatch.Ring.Control.{Setup}
use bingewatch.Ring.Create.{all_good}
use bingewatch.Fixed.{FixedRing, FbbArgs, sanitize_args, block_count, new_fixed, fbb_create_buffer}
use bingewatch.Fixed.Messages.{Holding, messages_of, total}
use bingewatch.Fixed.Arguments.{sanitize_args_lem, block_count_lem}

module _ (grant : Grants) (k : ℕ) (h : Heap) (size : ℕ) (s : Spliced grant k h 0 size)
    (pos : 0 < h.fresh) where
  -- The heap once the blocks have data.
  abbrev allotted : Heap
  allotted = (block_data_fastalloc grant h.fresh size (block_list_alloc grant k h).1).1

  forged_ring :
      Seg
        (forge_ring h.fresh allotted).next
        ((forge_ring h.fresh allotted).next h.fresh)
        s.news
        h.fresh
      × ((forge_ring h.fresh allotted).cell ≡ allotted.cell)
      × ((forge_ring h.fresh allotted).fresh ≡ allotted.fresh)
  unfolding forge_ring
  forged_ring =
      let apart : All (λ a. (0 < a) × (a ≢ h.fresh)) s.news =
        All-zip _ _ (λ a. (0 < a) × (a ≢ h.fresh)) (λ a p q. (p.0, q)) s.news s.apart.1
          s.grown.distinct.0 in
      let e =
        last_block-Ends allotted.fresh h.fresh allotted s.news s.path
          (All-mono _ (λ a. 0 < a) (λ a p. p.0) s.news s.apart.1) s.grown.distinct s.few in
      rw (forge_loop-last_block allotted.fresh h.fresh h.fresh allotted s.news s.path apart s.few)
        (e.redirect h.fresh, refl, refl)

  new_fixed-Holding :
      (fill : Bool)
      → 0 < size
      → size < 2 ^ 64
      → Holding (new_fixed size h.fresh fill (forge_ring h.fresh allotted)) []
  unfolding messages_of total bytes_of
  new_fixed-Holding fill room small =
      let (path, cells, fresh) = forged_ring in
      let f = forge_ring h.fresh allotted in
      let blank : All (λ a. IsBlank (f.cell a)) (h.fresh ∷ s.news) =
        subst (λ c. All (λ a. IsBlank (c a)) (h.fresh ∷ s.news)) (sym cells) s.grown.cells in
      record {
        filled = [];
        blank = s.news;
        layout = record {
          filled_path = refl;
          blank_path = path;
          distinct = s.grown.distinct;
          known =
              All-mono _ (λ a. (0 < a) × (a < f.fresh)) (λ a p. omega (arith, p, pos, fresh))
                (h.fresh ∷ s.news) s.grown.above;
          filled_cells = tt;
          wp_cell = blank.0;
          blank_cells = blank.1;
          contents = refl;
        };
        messages = refl;
        sized = subst (λ c. All (λ a. (c a).size ≡ size) (h.fresh ∷ s.news)) (sym cells) s.sized;
        counted = refl;
        room = room;
        small = small;
      }

module _ (grant : Grants) where
  fbb_create_buffer_open :
      (answers : Setup) (given : FbbArgs) (h h₁ : Heap) (b : ℕ)
      → let args = sanitize_args given in
        all_good answers ≡ true
        → block_list_alloc grant (block_count args.buf_bytes args.block_bytes) h ≡ (b, h₁)
        → 0 < b
        → fbb_create_buffer grant answers given h
          ≡ some (
              new_fixed args.block_bytes b args.flags
                (forge_ring b (block_data_fastalloc grant b args.block_bytes h₁).1))
  unfolding fbb_create_buffer
  fbb_create_buffer_open answers given h h₁ b good e pos =
      let z : (b == 0) ≡ false = ground arith in rw (e, z) (ground arith)

  -- With every answer good, memory to be had and a block size below 2^63, `create_buffer` makes a
  -- buffer that holds no message, of blocks of the size that `sanitize_args` has settled on.
  pub fbb_create_buffer-Holding :
      (answers : Setup) (given : FbbArgs) (h : Heap)
      → all_good answers ≡ true
      → given.block_bytes < 2 ^ 63
      → ((a : ℕ) → Supplies (grant a) (sanitize_args given).block_bytes)
      → (sanitize_args given).block_bytes < 2 ^ 64
      → 0 < h.fresh
      → (ring : FixedRing) × (fbb_create_buffer grant answers given h ≡ some ring)
        × (ring.block_size ≡ (sanitize_args given).block_bytes)
        × Holding ring []
  fbb_create_buffer-Holding answers given h good below ample small pos =
      let args = sanitize_args given in
      let (align, whole, room, up, near, some_bytes) = sanitize_args_lem given below in
      let k = block_count args.buf_bytes args.block_bytes in
      let more = (block_count_lem args.buf_bytes args.block_bytes some_bytes room).2 in
      let s = splice grant k h 0 args.block_bytes ample room more pos pos in
      (
        new_fixed args.block_bytes h.fresh args.flags
            (forge_ring h.fresh (allotted grant k h args.block_bytes s pos)),
        fbb_create_buffer_open answers given h (block_list_alloc grant k h).1 h.fresh good s.head
            pos,
        refl,
        new_fixed-Holding grant k h args.block_bytes s pos args.flags room small,
      )
