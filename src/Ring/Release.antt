-- ===== src/Ring/Release.antt =====
-- `rb_release_write_block` once its caller has put bytes into the write block.
use bingewatch.Prelude.{
  ℕ, ◌+◌, ◌≤◌, ◌<◌, ◌≡◌, refl, sym, ap, ◌∙◌, ◌^◌, Bool, true, false, not, ◌&&◌, some, List, ◌++◌,
  arith, take, length, length-append, length-take, ◌==◌, if◌then◌else◌, add_size,
}
use mathlib.Core.Path.{subst}
use bingewatch.Block.{Heap, Cell, Grants, set_cell}
use bingewatch.Block.Segment.{update_self, All-update, Distinct-middle}
use bingewatch.Status.{Status}
use bingewatch.Ring.{Ring, RbState, doubled, get_next_block}
use bingewatch.Ring.Blocks.{IsBlank, IsFilled, payload, bytes_of-update, Layout, Blocks}
use bingewatch.Ring.Full.{Layout-fill}
use bingewatch.Ring.Fifo.{Holds}
use bingewatch.Ring.Grow.{Ample, get_next_block-Advanced}
use bingewatch.Ring.Control.{rb_acquire_write_block, acquire_ready, rb_release_write_block}

-- The write block, which holds nothing, gets other data.
pub Layout-blank :
    (h : Heap) (rp wp : ℕ) (fs bl xs : List ℕ) (c : Cell)
    → Layout h rp wp fs bl xs
    → IsBlank c
    → Layout (set_cell h wp c) rp wp fs bl xs
Layout-blank h rp wp fs bl xs c l e =
    let (ff, fr) = Distinct-middle fs wp bl l.distinct in
    record {
      filled_path = l.filled_path;
      blank_path = l.blank_path;
      distinct = l.distinct;
      known = l.known;
      filled_cells = All-update IsFilled h.cell wp c fs ff l.filled_cells;
      wp_cell = rw (update_self h.cell wp c) e;
      blank_cells = All-update IsBlank h.cell wp c bl fr l.blank_cells;
      contents = bytes_of-update h.cell wp c fs ff ∙ l.contents;
    }

-- The ring with these bytes at the write block's data.
abbrev pub loaded : Ring → List ℕ → Ring
loaded ring content = record ring {
  heap = set_cell ring.heap ring.wp (record (ring.heap.cell ring.wp) { bytes_at = content });
}

loaded-Layout :
    (ring : Ring) (content : List ℕ) (fs bl xs : List ℕ)
    → Layout ring.heap ring.rp ring.wp fs bl xs
    → length content ≡ (ring.heap.cell ring.wp).size
    → Layout (loaded ring content).heap ring.rp ring.wp fs bl xs
loaded-Layout ring content fs bl xs l e =
    Layout-blank ring.heap ring.rp ring.wp fs bl xs
      (record (ring.heap.cell ring.wp) { bytes_at = content }) l
      (record { no_bytes = l.wp_cell.no_bytes; room = l.wp_cell.room; allocated = e })

if-skip {ℓ} : {A : Type ℓ} (a b : Bool) (x y : A) → a ≡ true → (if not a && b then x else y) ≡ y
if-skip true b x y e = refl
if-skip false b x y e = absurd cc

module _ (grant : Grants) (low_mark : ℕ → ℕ → ℕ) where
  pub release_open :
      (ring : Ring) (n : ℕ)
      → ring.high_water_mark ≡ 0
      → let c = ring.heap.cell ring.wp in
        let filled : Ring = record ring {
          heap = set_cell ring.heap ring.wp (record c { bytes = n });
        } in
        let next = get_next_block grant low_mark filled ring.wp in
        rb_release_write_block grant low_mark ring n
        ≡ record next.2 { bytes = add_size next.2.bytes n; wp = next.1 }
  unfolding rb_release_write_block
  release_open ring n e =
      let c = ring.heap.cell ring.wp in
      let filled : Ring = record ring {
        heap = set_cell ring.heap ring.wp (record c { bytes = n });
      } in
      let next = get_next_block grant low_mark filled ring.wp in
      let z : (ring.high_water_mark == 0) ≡ true = ground (arith, e) in
      ap {A = Ring} (λ r. record r { wp = next.1 })
        (if-skip (ring.high_water_mark == 0) _ _ (record next.2 { bytes = add_size next.2.bytes n })
          z)

  -- A ready ring without a low-water mark hands out its write block.
  pub rb_acquire_write_block_lem :
      (ring : Ring) (init_bytes : ℕ)
      → ring.state ≡ RbState.ready
      → ring.low_water_mark ≡ 0
      → rb_acquire_write_block grant low_mark ring init_bytes
        ≡ record { status = Status.success; block = some ring.wp; ring = ring }
  unfolding rb_acquire_write_block acquire_ready
  rb_acquire_write_block_lem ring init_bytes on free = ground arith

  -- A block that was acquired and filled with `n` bytes, at least one and at most its size, is
  -- released: with memory to be had, a block_realloc that does not double to 0 modulo 2^64, and no
  -- high-water mark, the ring holds these bytes behind
  -- those it held, and its reader stays where it was.
  pub rb_release_write_block-Holds :
      (ring : Ring) (content : List ℕ) (n : ℕ) (xs : List ℕ)
      → Holds ring xs
      → ring.high_water_mark ≡ 0
      → Ample grant low_mark ring.block_size
      → 0 < doubled ring.block_realloc
      → length content ≡ (ring.heap.cell ring.wp).size
      → 0 < n
      → n ≤ length content
      → length xs + n < 2 ^ 64
      → Holds (rb_release_write_block grant low_mark (loaded ring content) n) (xs ++ take n content)
        × ((rb_release_write_block grant low_mark (loaded ring content) n).rp ≡ ring.rp)
  rb_release_write_block-Holds ring content n xs h no_high ample more e pos fits small =
      let bs = h.blocks in
      let l = loaded-Layout ring content bs.filled bs.blank xs bs.layout e in
      let r = loaded ring content in
      let c1 : Cell = record (ring.heap.cell ring.wp) { bytes_at = content } in
      let self : r.heap.cell ring.wp ≡ c1 = update_self ring.heap.cell ring.wp c1 in
      let c2 : Cell = record (r.heap.cell ring.wp) { bytes = n } in
      let full =
        Layout-fill r.heap ring.rp ring.wp bs.filled bs.blank xs c2 l
          (record { some_bytes = pos; fits = rw self (rw⁻¹ e fits); allocated = rw self e }) in
      let filled : Ring = record r { heap = set_cell r.heap ring.wp c2 } in
      let a =
        get_next_block-Advanced grant low_mark filled ring.wp bs.filled bs.blank (xs ++ payload c2)
          ample h.block_room h.realloc (λ _. more) full in
      let got : payload c2 ≡ take n content = ap (λ c. take n c.bytes_at) self in
      let next = get_next_block grant low_mark filled ring.wp in
      let opened = release_open r n no_high in
      let sum : add_size next.2.bytes n ≡ length (xs ++ payload c2) =
        rw (ap (λ x. x.bytes) a.same, got, length-append xs (take n content), length-take n content)
          (omega (arith, h.counted, small, fits)) in
      let held : Holds (record next.2 { bytes = add_size next.2.bytes n; wp = next.1 })
          (xs ++ payload c2) =
        record {
          blocks =
              subst (λ p. Blocks next.2.heap p next.1 (xs ++ payload c2))
                (sym (ap (λ x. x.rp) a.same)) a.blocks;
          counted = sum;
          small =
              rw (got, length-append xs (take n content), length-take n content)
                (omega (arith, small, fits));
          block_room = subst (λ k. 0 < k) (sym (ap (λ x. x.block_size) a.same)) h.block_room;
          realloc = a.realloc;
        } in
      (
        rw opened (subst (Holds _) (ap (λ l. xs ++ l) got) held),
        ap (λ x. x.rp) opened ∙ ap (λ x. x.rp) a.same,
      )
