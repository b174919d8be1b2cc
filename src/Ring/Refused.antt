-- ===== src/Ring/Refused.antt =====
-- `buf_write` on a ring that is full, when no memory is to be had for more blocks.
use bingewatch.Prelude.{
  ℕ, zero, suc, ◌+◌, ◌-◌, ◌≤◌, ◌<◌, ◌≡◌, ◌≢◌, refl, sym, ◌∙◌, ap, true, false, some, List, ◌++◌,
  arith, take, drop, length, ltb, ◌==◌, add_size, if◌then◌else◌,
}
use mathlib.Core.Option
use mathlib.Core.Path.{subst}
use bingewatch.Status.{Status}
use bingewatch.Block.{Cell, Heap, Grants, set_cell, update, block_data_fastalloc}
use bingewatch.Block.Alloc.{block_list_alloc-none}
use bingewatch.Block.Segment.{update_self, update_ne}
use bingewatch.Ring.{
  Ring, RbState, Reply, doubled, grow, get_next_block, write_loop, write_finish, buf_write,
  high_water_mark_hit,
}
use bingewatch.Ring.Append.{buf_write-ready, write_ready-free}

module _ (grant : Grants) (low_mark : ℕ → ℕ → ℕ) where
  -- No descriptor is to be had.
  abbrev pub Refuses : Type 0
  Refuses = (a : ℕ) → (grant a).pcalloc ≡ false

  refused_data : (size : ℕ) (h : Heap) → block_data_fastalloc grant 0 size h ≡ (0, h)
  unfolding block_data_fastalloc
  refused_data size h = refl

  get_next_block-Refuses :
      (ring : Ring) (b : ℕ)
      → Refuses
      → 0 < (ring.heap.cell (ring.heap.next b)).bytes
      → get_next_block grant low_mark ring b
        ≡ (true, b, record ring { block_realloc = doubled ring.block_realloc })
  unfolding get_next_block grow
  get_next_block-Refuses ring b r full =
      let e : ((ring.heap.cell (ring.heap.next b)).bytes == 0) ≡ false = ground arith in
      rw
        (
          e,
          block_list_alloc-none grant (doubled ring.block_realloc) ring.heap (r ring.heap.fresh),
          refused_data ring.block_size ring.heap,
        )
        refl

  -- What such a write leaves: only the content of the block at `b` has changed, and it holds at
  -- most its size.
  pub record Kept (b : ℕ) (ring ring' : Ring) : Type 0 where
    pub same : ring' ≡ record ring { block_realloc = ring'.block_realloc; heap = ring'.heap }
    pub next : ring'.heap.next ≡ ring.heap.next
    pub others : (a : ℕ) → a ≢ b → ring'.heap.cell a ≡ ring.heap.cell a
    pub size : (ring'.heap.cell b).size ≡ (ring.heap.cell b).size
    pub room : (ring'.heap.cell b).bytes ≤ (ring.heap.cell b).size

  -- The ring after one round: the block at `b` written over.
  abbrev overwritten : Ring → ℕ → Cell → Ring
  overwritten ring b c = record ring {
    heap = set_cell ring.heap b c;
    block_realloc = doubled ring.block_realloc;
  }

  write_loop_round :
      (fuel : ℕ) (ring : Ring) (b r : ℕ) (input : List ℕ) (written : ℕ)
      → Refuses
      → 0 < r
      → ring.heap.next b ≢ b
      → 0 < (ring.heap.cell (ring.heap.next b)).bytes
      → (n : ℕ) × (c : Cell) × (n
          ≡ (if ltb r (ring.heap.cell b).size then r else (ring.heap.cell b).size))
        × (c.size ≡ (ring.heap.cell b).size)
        × (c.bytes ≡ n)
        × (write_loop grant low_mark (suc fuel) ring b r input written
            ≡ write_loop grant low_mark fuel
                (overwritten ring b c)
                b
                (r - n)
                (drop n input)
                (written + n))
  unfolding write_loop
  write_loop_round fuel ring b r input written refuses pos apart full =
      let old = ring.heap.cell b in
      let n = if ltb r old.size then r else old.size in
      let c : Cell = record old { bytes_at = take n input ++ drop n old.bytes_at; bytes = n } in
      let kept : update ring.heap.cell b c (ring.heap.next b) ≡ ring.heap.cell (ring.heap.next b) =
        update_ne ring.heap.cell b (ring.heap.next b) c apart in
      let e : (r == 0) ≡ false = ground arith in
      let step =
        get_next_block-Refuses (record ring { heap = set_cell ring.heap b c }) b refuses
          (rw kept full) in
      (n, c, refl, refl, refl, rw (e, step) refl)

  Kept-overwritten :
      (ring ring' : Ring) (b : ℕ) (c : Cell)
      → c.size ≡ (ring.heap.cell b).size
      → Kept b (overwritten ring b c) ring'
      → Kept b ring ring'
  Kept-overwritten ring ring' b c size k =
      let at : update ring.heap.cell b c b ≡ c = update_self ring.heap.cell b c in
      record {
        same = k.same;
        next = k.next;
        others = λ a ne. k.others a ne ∙ update_ne ring.heap.cell b a c ne;
        size = k.size ∙ ap (λ (c : Cell). c.size) at ∙ size;
        room = rw size at (rw at at k.room);
      }

  write_loop_done :
      (fuel : ℕ) (ring : Ring) (b : ℕ) (input : List ℕ) (written : ℕ)
      → write_loop grant low_mark (suc fuel) ring b 0 input written ≡ some (b, written + 0, ring)
  unfolding write_loop
  write_loop_done fuel ring b input written =
      let e : written + 0 ≡ written = omega arith in rw e refl

  write_loop-Refuses :
      (fuel : ℕ) (ring : Ring) (b r : ℕ) (input : List ℕ) (written : ℕ)
      → r < fuel
      → Refuses
      → 0 < (ring.heap.cell b).size
      → (ring.heap.cell b).bytes ≤ (ring.heap.cell b).size
      → ring.heap.next b ≢ b
      → 0 < (ring.heap.cell (ring.heap.next b)).bytes
      → (ring' : Ring) × (write_loop grant low_mark fuel ring b r input written
          ≡ some (b, written + r, ring'))
        × Kept b ring ring'
  write_loop-Refuses zero ring b r input written lt refuses some_room fits apart full =
      absurd (omega arith)
  write_loop-Refuses (suc fuel) ring b zero input written lt refuses some_room fits apart full = (
    ring,
    write_loop_done fuel ring b input written,
    record { same = refl; next = refl; others = λ a ne. refl; size = refl; room = fits },
  )
  write_loop-Refuses (suc fuel) ring b (suc r) input written lt refuses some_room fits apart full =
      let (n, c, en, size, bytes, step) =
        write_loop_round fuel ring b (suc r) input written refuses (omega arith) apart full in
      let at : update ring.heap.cell b c b ≡ c = update_self ring.heap.cell b c in
      let beside : update ring.heap.cell b c (ring.heap.next b)
          ≡ ring.heap.cell (ring.heap.next b) =
        update_ne ring.heap.cell b (ring.heap.next b) c apart in
      let bounds : (0 < n) × (n ≤ suc r) × (n ≤ (ring.heap.cell b).size) = ground arith in
      let (ring', ran, k) =
        write_loop-Refuses fuel (overwritten ring b c) b (suc r - n) (drop n input) (written + n)
          (omega (arith, bounds, lt)) refuses (rw at (omega (arith, size, some_room)))
          (rw at (omega (arith, size, bytes, bounds))) apart (rw beside full) in
      let total : written + n + (suc r - n) ≡ written + suc r = omega (arith, bounds) in
      (ring', step ∙ rw total at ran, Kept-overwritten ring ring' b c size k)

  write_finish-fields :
      (b written : ℕ) (ring : Ring)
      → let out = write_finish grant low_mark (b, written, ring) in
        (out.status ≡ Status.success)
        × (out.count ≡ written)
        × (out.ring.wp ≡ b)
        × (out.ring.rp ≡ ring.rp)
        × (out.ring.heap ≡ ring.heap)
        × (out.ring.bytes ≡ add_size ring.bytes written)
  unfolding write_finish high_water_mark_hit
  write_finish-fields b written ring = ground arith

  -- On a ready ring without a low-water mark, whose next block still holds data and which has no
  -- memory for another, a write of any length says that it has taken every byte and counts them
  -- all, but the only block that it has changed is the write block, which holds at most its size:
  -- what does not fit there is lost.
  pub buf_write-Refuses :
      (ring : Ring) (input : List ℕ)
      → ring.state ≡ RbState.ready
      → ring.low_water_mark ≡ 0
      → Refuses
      → 0 < (ring.heap.cell ring.wp).size
      → (ring.heap.cell ring.wp).bytes ≤ (ring.heap.cell ring.wp).size
      → ring.heap.next ring.wp ≢ ring.wp
      → 0 < (ring.heap.cell (ring.heap.next ring.wp)).bytes
      → (out : Reply) × (buf_write grant low_mark ring input ≡ some out)
        × (out.status ≡ Status.success)
        × (out.count ≡ length input)
        × (out.ring.bytes ≡ add_size ring.bytes (length input))
        × (out.ring.wp ≡ ring.wp)
        × (out.ring.rp ≡ ring.rp)
        × ((a : ℕ) → a ≢ ring.wp → out.ring.heap.cell a ≡ ring.heap.cell a)
        × ((out.ring.heap.cell ring.wp).bytes ≤ (ring.heap.cell ring.wp).size)
  buf_write-Refuses ring input on free refuses some_room fits apart full =
      let (ring', ran, k) =
        write_loop-Refuses (suc (length input)) ring ring.wp (length input) input 0 (omega arith)
          refuses some_room fits apart full in
      let (status, count, wp, rp, heap, bytes) =
        write_finish-fields ring.wp (0 + length input) ring' in
      let held : ring'.bytes ≡ ring.bytes = ap (λ (r : Ring). r.bytes) k.same in
      let read : ring'.rp ≡ ring.rp = ap (λ (r : Ring). r.rp) k.same in
      let all : 0 + length input ≡ length input = omega arith in
      (
        write_finish grant low_mark (ring.wp, 0 + length input, ring'),
        buf_write-ready grant low_mark ring input on
            ∙ write_ready-free grant low_mark ring input free
            ∙ ap (Option.map (write_finish grant low_mark)) ran,
        status,
        count ∙ all,
        bytes ∙ rw (held, all) refl,
        wp,
        rp ∙ read,
        λ a ne. ap (λ (h : Heap). h.cell a) heap ∙ k.others a ne,
        subst (λ (h : Heap). (h.cell ring.wp).bytes ≤ (ring.heap.cell ring.wp).size) (sym heap)
            k.room,
      )
