-- ===== src/Ring/Starve.antt =====
-- `rb_release_write_block` of no bytes, which is what a segment does whose source had nothing.
use mathlib.Core.Path.{subst}
use bingewatch.Prelude.{
  ℕ, suc, ◌<◌, ◌≡◌, ◌≢◌, refl, sym, ap, ◌∙◌, ◌%◌, ◌^◌, true, false, not, ◌&&◌, ◌||◌, some, List, [],
  ◌∷◌, arith, ◌==◌, add_size, Bool-cases, inl, inr, if-true, if-false,
}
use native.Mathlib.Nat.{zero-mod}
use mathlib.Core.Option
use bingewatch.Status.{Blocking}
use bingewatch.Block.{Heap, Cell, Grants, update, set_cell, block_empty}
use bingewatch.Block.Segment.{update_self, update_ne}
use bingewatch.Ring.{Ring, Reading, Reply, buf_read, read_loop, read_finish}
use bingewatch.Ring.Blocks.{Layout}
use bingewatch.Ring.Fifo.{wanted}
use bingewatch.Ring.Grow.{get_next_block_room}
use bingewatch.Ring.Control.{rb_release_write_block}
use bingewatch.Ring.Release.{loaded, release_open}

-- A reader at an empty block that does not wait gets nothing, and stays.
read_loop-empty :
    (fuel align : ℕ) (s : Reading)
    → (s.heap.cell s.b).bytes ≡ 0
    → s.bytes_read ≡ 0
    → read_loop (suc fuel) Blocking.no_block align s ≡ some s
unfolding read_loop
read_loop-empty fuel align s e z =
    let empty : ((s.heap.cell s.b).bytes == 0) ≡ true = ground (arith, e) in
    let whole : (s.bytes_read % align == 0) ≡ true = rw z (ground (arith, zero-mod align)) in
    elim (Bool-cases (s.remaining == 0)) [
      | inl x ↦ if-true (s.remaining == 0) _ _ x
      | inr x ↦
          if-false (s.remaining == 0) _ _ x
          ∙ if-true (block_empty s.heap s.b) _ _ empty
          ∙ if-false (false || not (s.bytes_read % align == 0)) _ _ (rw whole refl)
    ]

read_finish-nothing :
    (ring : Ring) (s : Reading)
    → s.bytes_read ≡ 0
    → s.out ≡ []
    → ((read_finish ring s).count ≡ 0) × ((read_finish ring s).out ≡ [])
unfolding read_finish
read_finish-nothing ring s z e = elim (Bool-cases (ring.flush && s.bytes_read == 0)) [
  | inl x ↦ rw x (z, e)
  | inr x ↦ rw x (z, e)
]

-- No bytes come out of a ring whose reader is at an empty block.
pub buf_read-nothing :
    (ring : Ring) (bytes align : ℕ)
    → (ring.heap.cell ring.rp).bytes ≡ 0
    → (out : Reply) × (buf_read ring bytes Blocking.no_block align ≡ some out)
      × (out.count ≡ 0)
      × (out.out ≡ [])
unfolding buf_read
buf_read-nothing ring bytes align e =
    let s : Reading = record {
      b = ring.rp;
      heap = ring.heap;
      remaining = wanted ring bytes align;
      bytes_read = 0;
      out = [];
    } in
    let (count, out) = read_finish-nothing ring s refl refl in
    (
      read_finish ring s,
      ap (Option.map (read_finish ring)) (read_loop-empty (wanted ring bytes align) align s e refl),
      count,
      out,
    )

module _ (grant : Grants) (low_mark : ℕ → ℕ → ℕ) where
  -- A release whose next block is empty.
  release-room :
      (ring : Ring) (n : ℕ)
      → ring.high_water_mark ≡ 0
      → (ring.heap.cell (ring.heap.next ring.wp)).bytes ≡ 0
      → ring.heap.next ring.wp ≢ ring.wp
      → rb_release_write_block grant low_mark ring n ≡ record ring {
        heap = set_cell ring.heap ring.wp (record (ring.heap.cell ring.wp) { bytes = n });
        bytes = add_size ring.bytes n;
        wp = ring.heap.next ring.wp;
      }
  release-room ring n no_high e ne =
      let c : Cell = record (ring.heap.cell ring.wp) { bytes = n } in
      let filled : Ring = record ring { heap = set_cell ring.heap ring.wp c } in
      let empty : (filled.heap.cell (filled.heap.next ring.wp)).bytes ≡ 0 =
        ap (λ c. c.bytes) (update_ne ring.heap.cell ring.wp (ring.heap.next ring.wp) c ne) ∙ e in
      release_open grant low_mark ring n no_high
      ∙ ap {B = Ring} (λ t. record t.2 { bytes = add_size t.2.bytes n; wp = t.1 })
          (get_next_block_room grant low_mark filled ring.wp empty)

  -- The block after the next of an empty ring, once the write block was released with no bytes
  -- and the next was filled.
  second_empty :
      (h : Heap) (rp wp b : ℕ) (bl xs : List ℕ) (c0 c : Cell)
      → Layout h rp wp [] (b ∷ bl) xs
      → c0.bytes ≡ 0
      → ((update (update h.cell wp c0) b c (h.next b)).bytes ≡ 0) × (h.next b ≢ b)
  second_empty h rp wp b [] xs c0 c l z =
      let back : h.next b ≡ wp = l.blank_path.1 ∙ l.filled_path in
      let ne : wp ≢ b = λ e. l.distinct.0.0 (sym e) in
      rw back (
        ap (λ c. c.bytes) (update_ne (update h.cell wp c0) b wp c ne ∙ update_self h.cell wp c0)
            ∙ z,
        ne,
      )
  second_empty h rp wp b (x ∷ bl) xs c0 c l z =
      let on : h.next b ≡ x = l.blank_path.1.0 in
      rw on (
        ap (λ c. c.bytes)
              (update_ne (update h.cell wp c0) b x c l.distinct.1.0.0
                ∙ update_ne h.cell wp x c0 l.distinct.0.1.0)
            ∙ l.blank_cells.1.0.no_bytes,
        l.distinct.1.0.0,
      )

  -- In an empty ring of two blocks or more without a high-water mark, the write block is released
  -- with no bytes, and the next is acquired, filled with `n` bytes and released. The ring counts
  -- `n` bytes, but its reader is left at the first, empty block, and a read that does not wait
  -- gets nothing, whatever its size and its alignment, which is not 0.
  pub rb_release_write_block-buf_read :
      (ring : Ring) (b : ℕ) (bl : List ℕ) (content : List ℕ) (n bytes align : ℕ)
      → Layout ring.heap ring.rp ring.wp [] (b ∷ bl) []
      → ring.bytes ≡ 0
      → ring.high_water_mark ≡ 0
      → n < 2 ^ 64
      → 0 < align
      → let after =
          rb_release_write_block grant low_mark
            (loaded (rb_release_write_block grant low_mark ring 0) content)
            n in
        (after.bytes ≡ n)
        × ((out : Reply) × (buf_read after bytes Blocking.no_block align ≡ some out)
            × (out.count ≡ 0)
            × (out.out ≡ []))
  rb_release_write_block-buf_read ring b bl content n bytes align l none_held no_high small _ =
      let h = ring.heap in
      let w = ring.wp in
      let next = h.next w in
      let l' : Layout h ring.rp w [] (next ∷ bl) [] =
        subst (λ x. Layout h ring.rp w [] (x ∷ bl) []) (sym l.blank_path.0) l in
      let c0 : Cell = record (h.cell w) { bytes = 0 } in
      let r1 : Ring = record ring {
        heap = set_cell h w c0;
        bytes = add_size ring.bytes 0;
        wp = next;
      } in
      let first : rb_release_write_block grant low_mark ring 0 ≡ r1 =
        release-room ring 0 no_high l'.blank_cells.0.no_bytes l'.distinct.0.0 in
      let loaded_cell : Cell = record (r1.heap.cell next) { bytes_at = content } in
      let (empty, apart) = second_empty h ring.rp w next bl [] c0 loaded_cell l' refl in
      let r2 = loaded r1 content in
      let c2 : Cell = record (r2.heap.cell next) { bytes = n } in
      let r3 : Ring = record r2 {
        heap = set_cell r2.heap next c2;
        bytes = add_size r2.bytes n;
        wp = h.next next;
      } in
      let second : rb_release_write_block grant low_mark r2 n ≡ r3 =
        release-room r2 n no_high empty apart in
      let other : w ≢ next = λ e. l'.distinct.0.0 (sym e) in
      let stays : (r3.heap.cell ring.rp).bytes ≡ 0 =
        ap (λ a. (r3.heap.cell a).bytes) l.filled_path
        ∙ ap (λ c. c.bytes)
            (update_ne r2.heap.cell next w c2 other
              ∙ update_ne r1.heap.cell next w loaded_cell other
              ∙ update_self h.cell w c0) in
      let counted : r3.bytes ≡ n = omega (arith, none_held, small) in
      rw (first, second) (counted, buf_read-nothing r3 bytes align stays)
