-- ===== src/Ring/Grow.antt =====
-- `get_next_block` makes room: with memory to be had, new blank blocks stand behind a full ring.
use bingewatch.Prelude.{
  ℕ, ◌<◌, ◌≡◌, refl, ◌∙◌, Bool, true, false, List, [], ◌∷◌, ◌++◌, arith, ◌==◌, add_size,
}
use bingewatch.Block.{Heap, Grants, set_next, block_list_alloc, block_data_fastalloc, list_tail}
use bingewatch.Block.Carve.{Supplies}
use bingewatch.Ring.{Ring, doubled, grow, get_next_block}
use bingewatch.Ring.Blocks.{Blocks}
use bingewatch.Ring.Splice.{splice}
use bingewatch.Ring.Full.{Full, Grown, wp_known, rp-IsFilled, Full-advance, Full-grow}

-- What `get_next_block` gives: the blocks hold the same bytes, and only the memory, its total and
-- the size of the next growth have changed.
pub record Advanced (ring : Ring) (xs : List ℕ) (r : Bool × ℕ × Ring) : Type 0 where
  pub found : r.0 ≡ false
  pub blocks : Blocks r.2.heap ring.rp r.1 xs
  pub same :
      r.2 ≡ record ring { size = r.2.size; block_realloc = r.2.block_realloc; heap = r.2.heap }
  pub realloc : 0 < r.2.block_realloc

module _ (grant : Grants) (low_mark : ℕ → ℕ → ℕ) where
  -- Memory enough for every request.
  abbrev pub Ample : ℕ → Type 0
  Ample size = (a : ℕ) → Supplies (grant a) size

  grow_open :
      (ring : Ring) (b a added t : ℕ) (h₁ h₂ : Heap)
      → block_list_alloc grant (doubled ring.block_realloc) ring.heap ≡ (a, h₁)
      → block_data_fastalloc grant a ring.block_size h₁ ≡ (added, h₂)
      → list_tail a h₂ ≡ t
      → 0 < added
      → grow grant low_mark ring b ≡ (
        false,
        a,
        record ring {
          block_realloc = doubled ring.block_realloc;
          size = add_size ring.size added;
          heap = set_next (set_next h₂ b a) t (ring.heap.next b);
        },
      )
  unfolding grow
  grow_open ring b a added t h₁ h₂ e₁ e₂ e₃ pos =
      let nz : (added == 0) ≡ false = ground arith in rw (e₁, e₂, e₃, nz)

  -- The new blocks that a growth links in, and where it leaves the ring.
  grow-Grown :
      (ring : Ring) (b : ℕ)
      → Ample ring.block_size
      → 0 < ring.block_size
      → 0 < doubled ring.block_realloc
      → 0 < ring.heap.fresh
      → b < ring.heap.fresh
      → (added : ℕ) × (h' : Heap) × (news : List ℕ) × Grown ring.heap h' b
          (ring.heap.next b)
          ring.heap.fresh
          news
        × (grow grant low_mark ring b ≡ (
          false,
          ring.heap.fresh,
          record ring {
            block_realloc = doubled ring.block_realloc;
            size = add_size ring.size added;
            heap = h';
          },
        ))
  grow-Grown ring b ample room pos fpos known =
      let h = ring.heap in
      let s =
        splice grant (doubled ring.block_realloc) h b ring.block_size ample room pos fpos known in
      let h₁ = (block_list_alloc grant (doubled ring.block_realloc) h).1 in
      let (added, h₂) = block_data_fastalloc grant h.fresh ring.block_size h₁ in
      (
        added,
        set_next (set_next h₂ b h.fresh) (list_tail h.fresh h₂) (h.next b),
        s.news,
        s.grown,
        grow_open ring b h.fresh added (list_tail h.fresh h₂) h₁ h₂ s.head refl refl s.added,
      )

  pub get_next_block_room :
      (ring : Ring) (b : ℕ)
      → (ring.heap.cell (ring.heap.next b)).bytes ≡ 0
      → get_next_block grant low_mark ring b ≡ (false, ring.heap.next b, ring)
  unfolding get_next_block
  get_next_block_room ring b e =
      let t : ((ring.heap.cell (ring.heap.next b)).bytes == 0) ≡ true = ground arith in rw t

  get_next_block_full :
      (ring : Ring) (b : ℕ)
      → 0 < (ring.heap.cell (ring.heap.next b)).bytes
      → get_next_block grant low_mark ring b ≡ grow grant low_mark ring b
  unfolding get_next_block
  get_next_block_full ring b e =
      let t : ((ring.heap.cell (ring.heap.next b)).bytes == 0) ≡ false = ground arith in rw t

  no_blocks :
      (size : ℕ) (h : Heap)
      → (block_list_alloc grant 0 h ≡ (0, h)) × (block_data_fastalloc grant 0 size h ≡ (0, h))
  unfolding block_list_alloc block_data_fastalloc
  no_blocks size h = (refl, refl)

  -- Where the doubling wraps to 0 a full ring does not grow.
  pub get_next_block_wrapped :
      (ring : Ring) (b : ℕ)
      → 0 < (ring.heap.cell (ring.heap.next b)).bytes
      → doubled ring.block_realloc ≡ 0
      → get_next_block grant low_mark ring b ≡ (true, b, record ring { block_realloc = 0 })
  unfolding grow
  get_next_block_wrapped ring b full wrapped =
      let none_made = no_blocks ring.block_size ring.heap in
      get_next_block_full ring b full ∙ rw (wrapped, none_made.0, none_made.1) refl

  pub get_next_block-Advanced :
      (ring : Ring) (b : ℕ) (fs bl xs : List ℕ)
      → Ample ring.block_size
      → 0 < ring.block_size
      → 0 < ring.block_realloc
      → (bl ≡ [] → 0 < doubled ring.block_realloc)
      → Full ring.heap ring.rp b fs bl xs
      → Advanced ring xs (get_next_block grant low_mark ring b)
  get_next_block-Advanced ring b fs (e ∷ bl) xs ample room pos _ l =
      rw (get_next_block_room ring b (rw l.blank_path.0 l.blank_cells.0.no_bytes)) (record {
        found = refl;
        blocks = record {
          filled = fs ++ b ∷ [];
          blank = bl;
          layout = rw l.blank_path.0 (Full-advance ring.heap ring.rp b e fs bl xs l);
        };
        same = refl;
        realloc = pos;
      })
  get_next_block-Advanced ring b fs [] xs ample room pos more l =
      let k = wp_known ring.heap ring.rp b fs [] xs l in
      let (added, h', news, g, ran) =
        grow-Grown ring b ample room (more refl) (omega (arith, k)) k.1 in
      rw
        (
          get_next_block_full ring b
              (rw l.blank_path (rp-IsFilled ring.heap ring.rp b fs [] xs l).some_bytes),
          ran,
        )
        (record {
          found = refl;
          blocks = record {
            filled = fs ++ b ∷ [];
            blank = news;
            layout =
                Full-grow ring.heap h' ring.rp b ring.heap.fresh fs news xs l
                  (rw l.blank_path at g);
          };
          same = refl;
          realloc = more refl;
        })
