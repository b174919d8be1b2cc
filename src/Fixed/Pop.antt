-- ===== src/Fixed/Pop.antt =====
-- `buf_read` on a fixed-block buffer that holds some messages.
use mathlib.Core.Path.{subst}
use bingewatch.Prelude.{
  ℕ, ◌%◌, ◌^◌, ◌<◌, ◌≤◌, ◌≡◌, refl, sym, ap, ◌∙◌, inl, inr, List, [], ◌∷◌, ◌++◌, length, All, take,
  All-append, All-mono, arith, length-take, append_assoc, ◌==◌, leb, if◌then◌else◌, sub_size,
  Bool-cases, ==_iff, if-true, if-false, take-take,
}
use bingewatch.Status.{Status}
use bingewatch.Block.{Heap, Cell, update, set_cell}
use bingewatch.Block.Segment.{Fresh-append}
use bingewatch.Ring.{align_down}
use bingewatch.Ring.Fifo.{align_down_lem}
use bingewatch.Ring.Blocks.{IsFilled, payload, bytes_of, Layout, Layout-consume}
use bingewatch.Fixed.{FixedRing, fbb_buf_read, read_message}
use bingewatch.Fixed.Messages.{messages_of, messages_of-update, total, Holding}

-- What a read of `bytes` gets of a message: what is left of it when its length is rounded down to
-- the alignment, if that is not too much, or nothing.
unfoldable pub picked : (bytes align : ℕ) → List ℕ → List ℕ
picked bytes align m = let n = align_down align (length m) in if leb n bytes then take n m else []

pub relabel :
    (h : Heap) (rp wp : ℕ) (fs bl xs : List ℕ)
    → Layout h rp wp fs bl xs
    → Layout h rp wp fs bl (bytes_of h.cell fs)
relabel h rp wp fs bl xs l = subst (Layout h rp wp fs bl) (sym l.contents) l

-- A cell that is replaced by one of its size.
pub sized_update :
    (cell : ℕ → Cell) (b a : ℕ) (c : Cell)
    → c.size ≡ (cell b).size
    → (update cell b c a).size ≡ (cell a).size
sized_update cell b a c e = elim (Bool-cases (a == b)) [
  | inl t ↦ rw t (e ∙ ap (λ x. (cell x).size) (sym ((==_iff a b).0 t)))
  | inr f ↦ rw f refl
]

first_message : List (List ℕ) → List ℕ
first_message [] = []
first_message (m ∷ ms) = m

others : List (List ℕ) → List (List ℕ)
others [] = []
others (m ∷ ms) = ms

-- The ring once the block at `rp` has been read.
abbrev popped : FixedRing → FixedRing
popped r =
    let c = r.heap.cell r.rp in
    record r {
      bytes = sub_size r.bytes c.bytes;
      rp = r.heap.next r.rp;
      heap = set_cell r.heap r.rp (record c { bytes = 0 });
    }

module _ (r : FixedRing) (fs bl : List ℕ)
    (l : Layout r.heap r.rp r.wp (r.rp ∷ fs) bl (bytes_of r.heap.cell (r.rp ∷ fs)))
    (sized : All (λ a. (r.heap.cell a).size ≡ r.block_size) (r.rp ∷ fs ++ r.wp ∷ bl))
    (small : r.block_size < 2 ^ 64) where
  abbrev first : Cell
  first = r.heap.cell r.rp

  length_first : length (payload first) ≡ first.bytes
  length_first =
      length-take first.bytes first.bytes_at
      ∙ omega (arith, l.filled_cells.0.fits, l.filled_cells.0.allocated)

  popped-Layout :
      let r' = popped r in
      Layout r'.heap r'.rp r'.wp fs (bl ++ r.rp ∷ []) (bytes_of r'.heap.cell fs)
  popped-Layout =
      relabel (popped r).heap (popped r).rp r.wp fs (bl ++ r.rp ∷ []) (bytes_of r.heap.cell fs) (
        Layout-consume r.heap r.rp r.wp r.rp fs bl (bytes_of r.heap.cell (r.rp ∷ fs))
          (record first { bytes = 0 }) l
          (record {
            no_bytes = refl;
            room = omega (arith, l.filled_cells.0.some_bytes, l.filled_cells.0.fits);
            allocated = l.filled_cells.0.allocated;
          }))

  popped-sized :
      All (λ a. ((popped r).heap.cell a).size ≡ r.block_size) (fs ++ r.wp ∷ (bl ++ r.rp ∷ []))
  popped-sized = rw (← append_assoc fs (r.wp ∷ bl) (r.rp ∷ [])) (
      All-mono _ (λ a. ((popped r).heap.cell a).size ≡ r.block_size)
        (λ a e. sized_update r.heap.cell r.rp a (record first { bytes = 0 }) refl ∙ e)
        ((fs ++ r.wp ∷ bl) ++ r.rp ∷ [])
        (All-append _ (fs ++ r.wp ∷ bl) (r.rp ∷ []) sized.1 (sized.0, tt)))

  popped-Holding :
      (m : List ℕ) (ms : List (List ℕ))
      → messages_of r.heap.cell (r.rp ∷ fs) ≡ m ∷ ms
      → r.bytes ≡ total (m ∷ ms) % 2 ^ 64
      → 0 < r.block_size
      → Holding (popped r) ms
  unfolding messages_of total first_message others
  popped-Holding m ms e counted room =
      let (ff, fr) = Fresh-append r.rp fs (r.wp ∷ bl) l.distinct.0 in
      let head : payload first ≡ m = ap first_message e in
      let len : length m ≡ first.bytes = ap length (sym head) ∙ length_first in
      let fits : first.bytes ≤ r.block_size = omega (arith, l.filled_cells.0.fits, sized.0) in
      record {
        filled = fs;
        blank = bl ++ r.rp ∷ [];
        layout = popped-Layout;
        messages =
            messages_of-update r.heap.cell r.rp (record first { bytes = 0 }) fs ff ∙ ap others e;
        sized = popped-sized;
        counted = omega (arith, counted, len, fits, small);
        room = room;
        small = small;
      }

-- What is known of a buffer that holds a message.
record Popping (r : FixedRing) (m : List ℕ) (ms : List (List ℕ)) : Type 0 where
  filled : IsFilled (r.heap.cell r.rp)
  message : payload (r.heap.cell r.rp) ≡ m
  left : Holding (popped r) ms

pop_at :
    (r : FixedRing) (m : List ℕ) (ms : List (List ℕ)) (filled blank : List ℕ)
    → Layout r.heap r.rp r.wp filled blank (bytes_of r.heap.cell filled)
    → messages_of r.heap.cell filled ≡ m ∷ ms
    → All (λ a. (r.heap.cell a).size ≡ r.block_size) (filled ++ r.wp ∷ blank)
    → Holding r (m ∷ ms)
    → Popping r m ms
unfolding messages_of first_message
pop_at r m ms [] blank l e s h = absurd cc
pop_at r m ms (a ∷ fs) blank l e s h =
    let at : a ≡ r.rp = sym l.filled_path.0 in
    let l' =
      subst (λ x. Layout r.heap r.rp r.wp (x ∷ fs) blank (bytes_of r.heap.cell (x ∷ fs))) at l in
    let e' = subst (λ x. messages_of r.heap.cell (x ∷ fs) ≡ m ∷ ms) at e in
    let s' =
      subst (λ x. All (λ a. (r.heap.cell a).size ≡ r.block_size) (x ∷ fs ++ r.wp ∷ blank)) at s in
    record {
      filled = l'.filled_cells.0;
      message = ap first_message e';
      left = popped-Holding r fs blank l' s' h.small m ms e' h.counted h.room;
    }

fbb_buf_read_open :
    (r : FixedRing) (bytes align : ℕ)
    → 0 < (r.heap.cell r.rp).bytes
    → fbb_buf_read r bytes align ≡ read_message r bytes align
unfolding fbb_buf_read
fbb_buf_read_open r bytes align pos =
    if-false ((r.heap.cell r.rp).bytes == 0) _ _ (ground (arith, pos))

picked_cell :
    (c : Cell) (bytes align : ℕ)
    → IsFilled c
    → 0 < align
    → let n = align_down align c.bytes in
      ((if leb n bytes then take n c.bytes_at else []) ≡ picked bytes align (payload c))
      × ((if leb n bytes then n else 0) ≡ length (picked bytes align (payload c)))
unfolding picked
picked_cell c bytes align f pos =
    let n = align_down align c.bytes in
    let le : n ≤ c.bytes = (align_down_lem align c.bytes pos).1 in
    let len : length (payload c) ≡ c.bytes =
      length-take c.bytes c.bytes_at ∙ omega (arith, f.fits, f.allocated) in
    let short = take-take n c.bytes c.bytes_at le in
    rw (len, short)
      (elim (Bool-cases (leb n bytes)) [
        | inl t ↦
            (refl, rw t (sym (length-take n c.bytes_at ∙ omega (arith, le, f.fits, f.allocated))))
        | inr t ↦ (refl, rw t refl)
      ])

-- A read of a buffer that holds a message takes the oldest one off, whether the caller gets it or
-- not.
pub fbb_buf_read-Holding :
    (r : FixedRing) (bytes align : ℕ) (m : List ℕ) (ms : List (List ℕ))
    → Holding r (m ∷ ms)
    → 0 < align
    → let a = fbb_buf_read r bytes align in
      (a.out ≡ picked bytes align m)
      × (a.count ≡ length (picked bytes align m))
      × (a.status ≡ Status.success)
      × (a.ring.block_size ≡ r.block_size)
      × Holding a.ring ms
unfolding read_message
fbb_buf_read-Holding r bytes align m ms h pos =
    let p = pop_at r m ms h.filled h.blank h.layout h.messages h.sized h in
    let (out, count) = picked_cell (r.heap.cell r.rp) bytes align p.filled pos in
    rw (fbb_buf_read_open r bytes align p.filled.some_bytes) (
      out ∙ ap (picked bytes align) p.message,
      count ∙ ap (λ m. length (picked bytes align m)) p.message,
      refl,
      refl,
      p.left,
    )

-- A read of a buffer that holds none gets nothing, and changes nothing.
pub fbb_buf_read-nothing :
    (r : FixedRing) (bytes align : ℕ)
    → Holding r []
    → fbb_buf_read r bytes align ≡ record { ring = r; status = Status.success; count = 0; out = [] }
unfolding fbb_buf_read messages_of
fbb_buf_read-nothing r bytes align h =
    if-true ((r.heap.cell r.rp).bytes == 0) _ _
      (ground (arith, empty r h.filled h.blank h.layout h.messages))
  where
    empty :
        (r : FixedRing) (filled blank : List ℕ)
        → Layout r.heap r.rp r.wp filled blank (bytes_of r.heap.cell filled)
        → messages_of r.heap.cell filled ≡ []
        → (r.heap.cell r.rp).bytes ≡ 0
    empty r [] blank l e = rw l.filled_path l.wp_cell.no_bytes
    empty r (a ∷ fs) blank l e = absurd cc
