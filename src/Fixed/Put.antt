-- ===== src/Fixed/Put.antt =====
-- `buf_write` on a fixed-block buffer that holds some messages.
use mathlib.Core.Path.{subst}
use bingewatch.Prelude.{
  ℕ, ◌+◌, ◌/◌, ◌<◌, ◌≤◌, ◌≡◌, refl, sym, ap, ◌∙◌, ◌⊎◌, inl, inr, true, false, some, none, List, [],
  ◌∷◌, ◌++◌, length, All, drop, All-append, All-append_right, All-mono, All-zip, arith,
  length-append, length-drop, append_assoc, take-length_append, ◌==◌, ltb, if◌then◌else◌, add_size,
  if-true, if-false, ◌>>=◌,
}
use bingewatch.Status.{Status}
use bingewatch.Block.{
  Heap, Cell, Grants, set_cell, set_next, block_list_alloc, block_data_fastalloc, list_tail,
  block_empty,
}
use bingewatch.Block.Segment.{update_self, Distinct-middle}
use bingewatch.Block.Tail.{last_block-set_next}
use bingewatch.Block.Carve.{Supplies}
use bingewatch.Ring.Blocks.{IsFilled, payload, bytes_of, Layout}
use bingewatch.Ring.Full.{
  Full, Grown, Layout-fill, Full-advance, Full-grow, same_cells, rp-IsFilled, wp_known,
}
use bingewatch.Ring.Splice.{Spliced, splice}
use bingewatch.Fixed.{FixedRing, FixedReply, fbb_buf_write, write_message, expand}
use bingewatch.Fixed.Messages.{
  messages_of, messages_of-append, messages_of-same, messages_of-update, total, total-append,
  Holding,
}
use bingewatch.Fixed.Pop.{relabel, sized_update}

List-cases : (xs : List ℕ) → (xs ≡ []) ⊎ ((x : ℕ) × (ys : List ℕ) × (xs ≡ x ∷ ys))
List-cases [] = inl refl
List-cases (x ∷ xs) = inr (x, xs, refl)

-- The block that a write fills, and the heap with it.
abbrev stored : Cell → List ℕ → Cell
stored c input = record c {
  bytes_at = input ++ drop (length input) c.bytes_at;
  bytes = length input;
}

abbrev filling : FixedRing → List ℕ → Heap
filling r input = set_cell r.heap r.wp (stored (r.heap.cell r.wp) input)

stored-IsFilled :
    (c : Cell) (input : List ℕ)
    → length c.bytes_at ≡ c.size
    → 0 < length input
    → length input ≤ c.size
    → IsFilled (stored c input)
stored-IsFilled c input e pos fits = record {
  some_bytes = pos;
  fits = fits;
  allocated =
      length-append input (drop (length input) c.bytes_at)
      ∙ omega (arith, length-drop (length input) c.bytes_at, e, fits);
}

payload-stored : (c : Cell) (input : List ℕ) → payload (stored c input) ≡ input
payload-stored c input = take-length_append input (drop (length input) c.bytes_at)

module _ (r : FixedRing) (input : List ℕ) (ms : List (List ℕ)) (h : Holding r ms)
    (pos : 0 < length input) (fits : length input ≤ r.block_size) where
  abbrev new_cell : Cell
  new_cell = stored (r.heap.cell r.wp) input

  wp_size : (r.heap.cell r.wp).size ≡ r.block_size
  wp_size = (All-append_right _ h.filled (r.wp ∷ h.blank) h.sized).0

  filling-Full :
      Full
        (filling r input)
        r.rp
        r.wp
        h.filled
        h.blank
        (bytes_of r.heap.cell h.filled ++ payload new_cell)
  filling-Full =
      Layout-fill r.heap r.rp r.wp h.filled h.blank (bytes_of r.heap.cell h.filled) new_cell
        h.layout
        (stored-IsFilled (r.heap.cell r.wp) input h.layout.wp_cell.allocated pos
          (omega (arith, fits, wp_size)))

  filling-messages : messages_of (filling r input).cell (h.filled ++ r.wp ∷ []) ≡ ms ++ input ∷ []
  unfolding messages_of
  filling-messages =
      let (ff, fr) = Distinct-middle h.filled r.wp h.blank h.layout.distinct in
      messages_of-append (filling r input).cell h.filled (r.wp ∷ [])
      ∙ rw
          (
            messages_of-update r.heap.cell r.wp new_cell h.filled ff,
            update_self r.heap.cell r.wp new_cell,
            payload-stored (r.heap.cell r.wp) input,
            h.messages,
          )
          refl

  filling-sized :
      All (λ a. ((filling r input).cell a).size ≡ r.block_size) (h.filled ++ r.wp ∷ h.blank)
  filling-sized =
      All-mono _ (λ a. ((filling r input).cell a).size ≡ r.block_size)
        (λ a e. sized_update r.heap.cell r.wp a new_cell refl ∙ e) (h.filled ++ r.wp ∷ h.blank)
        h.sized

  -- The ring after the write, once the heap with the next block is known.
  abbrev written : Heap → FixedRing
  written h' = record r { bytes = add_size r.bytes (length input); wp = h'.next r.wp; heap = h' }

  written-Holding :
      (h' : Heap) (bl xs : List ℕ)
      → Layout h' r.rp (h'.next r.wp) (h.filled ++ r.wp ∷ []) bl xs
      → messages_of h'.cell (h.filled ++ r.wp ∷ []) ≡ ms ++ input ∷ []
      → All (λ a. (h'.cell a).size ≡ r.block_size) ((h.filled ++ r.wp ∷ []) ++ h'.next r.wp ∷ bl)
      → Holding (written h') (ms ++ input ∷ [])
  unfolding total
  written-Holding h' bl xs l e s = record {
    filled = h.filled ++ r.wp ∷ [];
    blank = bl;
    layout = relabel h' r.rp (h'.next r.wp) (h.filled ++ r.wp ∷ []) bl xs l;
    messages = e;
    sized = s;
    counted = omega (arith, h.counted, total-append ms (input ∷ []));
    room = h.room;
    small = h.small;
  }

  -- The next block is blank.
  room-Holding :
      (e : ℕ) (bl : List ℕ)
      → h.blank ≡ e ∷ bl
      → (block_empty (filling r input) ((filling r input).next r.wp) ≡ true)
        × Holding (written (filling r input)) (ms ++ input ∷ [])
  room-Holding e bl same =
      let X = bytes_of r.heap.cell h.filled ++ payload new_cell in
      let full : Full (filling r input) r.rp r.wp h.filled (e ∷ bl) X =
        subst (λ b. Full (filling r input) r.rp r.wp h.filled b X) same filling-Full in
      let at : r.heap.next r.wp ≡ e = full.blank_path.0 in
      let l =
        subst (λ b. Layout (filling r input) r.rp b (h.filled ++ r.wp ∷ []) bl X) (sym at)
          (Full-advance (filling r input) r.rp r.wp e h.filled bl X full) in
      let sized =
        subst
          (λ b. All (λ a. ((filling r input).cell a).size ≡ r.block_size) (h.filled ++ r.wp ∷ b))
          same filling-sized in
      let sized' =
        subst
          (λ b.
            All (λ a. ((filling r input).cell a).size ≡ r.block_size)
              ((h.filled ++ r.wp ∷ []) ++ b ∷ bl))
          (sym at) (rw (append_assoc h.filled (r.wp ∷ []) (e ∷ bl)) sized) in
      let empty : ((filling r input).cell ((filling r input).next r.wp)).bytes ≡ 0 =
        rw at full.blank_cells.0.no_bytes in
      (ground (arith, empty), written-Holding (filling r input) bl X l filling-messages sized')

  -- The ring is full, and new blocks are linked in.
  full-Holding :
      (h' : Heap) (add : ℕ) (news : List ℕ)
      → h.blank ≡ []
      → Grown (filling r input) h' r.wp ((filling r input).next r.wp) add news
      → All (λ a. (h'.cell a).size ≡ r.block_size) (add ∷ news)
      → (block_empty (filling r input) ((filling r input).next r.wp) ≡ false)
        × Holding (written h') (ms ++ input ∷ [])
  full-Holding h' add news same g sized =
      let X = bytes_of r.heap.cell h.filled ++ payload new_cell in
      let full : Full (filling r input) r.rp r.wp h.filled [] X =
        subst (λ b. Full (filling r input) r.rp r.wp h.filled b X) same filling-Full in
      let at : r.heap.next r.wp ≡ r.rp = full.blank_path in
      let g' : Grown (filling r input) h' r.wp r.rp add news =
        subst (λ q. Grown (filling r input) h' r.wp q add news) at g in
      let l =
        subst (λ b. Layout h' r.rp b (h.filled ++ r.wp ∷ []) news X) (sym g'.link)
          (Full-grow (filling r input) h' r.rp r.wp add h.filled news X full g') in
      let cells = same_cells (filling r input) h' r.rp r.wp add h.filled news X full g' in
      let before =
        subst
          (λ b. All (λ a. ((filling r input).cell a).size ≡ r.block_size) (h.filled ++ r.wp ∷ b))
          same filling-sized in
      let after : All (λ a. (h'.cell a).size ≡ r.block_size) (h.filled ++ r.wp ∷ []) =
        All-zip _ _ (λ a. (h'.cell a).size ≡ r.block_size) (λ a s e. rw e s) (h.filled ++ r.wp ∷ [])
          before cells in
      let sized' =
        subst
          (λ b. All (λ a. (h'.cell a).size ≡ r.block_size) ((h.filled ++ r.wp ∷ []) ++ b ∷ news))
          (sym g'.link)
          (All-append (λ a. (h'.cell a).size ≡ r.block_size) (h.filled ++ r.wp ∷ []) (add ∷ news)
            after sized) in
      let some_bytes : 0 < ((filling r input).cell ((filling r input).next r.wp)).bytes =
        rw at (rp-IsFilled (filling r input) r.rp r.wp h.filled [] X full).some_bytes in
      (
        ground (arith, some_bytes),
        written-Holding h' news X l
            (messages_of-same (filling r input).cell h'.cell (h.filled ++ r.wp ∷ []) cells
              ∙ filling-messages)
            sized',
      )

module _ (grant : Grants) where
  -- `expand`, where new blocks with data are to be had.
  expand-Spliced :
      (size n b : ℕ) (h : Heap) (s : Spliced grant (n / size + 1) h b size)
      → 0 < h.fresh
      → let h₂ =
          (block_data_fastalloc grant h.fresh size (block_list_alloc grant (n / size + 1) h).1).1 in
        expand grant size n b h
        ≡ some (set_next (set_next h₂ b h.fresh) (list_tail h.fresh h₂) (h.next b))
  unfolding expand list_tail
  expand-Spliced size n b h s pos =
      let h₂ =
        (block_data_fastalloc grant h.fresh size (block_list_alloc grant (n / size + 1) h).1).1 in
      ap
        (λ x.
          let h₃ = set_next (block_data_fastalloc grant x.0 size x.1).1 b x.0 in
          if x.0 == 0 then none else some (set_next h₃ (list_tail x.0 h₃) (h.next b)))
        s.head
      ∙ if-false (h.fresh == 0) none _ (ground (arith, pos))
      ∙ ap (λ t. some (set_next (set_next h₂ b h.fresh) t (h.next b)))
          (last_block-set_next h₂.fresh h.fresh b h.fresh h₂ s.news s.path s.apart s.few)

  -- `write_message` once it is known whether the next block is empty.
  answer : (r : FixedRing) (input : List ℕ) → Heap → FixedReply
  answer r input h' = record {
    ring = record r { bytes = add_size r.bytes (length input); wp = h'.next r.wp; heap = h' };
    status = Status.success;
    count = length input;
    out = [];
  }

  write_message_open :
      (r : FixedRing) (input : List ℕ) (h' : Heap)
      → (if block_empty (filling r input) ((filling r input).next r.wp)
          then some (filling r input)
          else expand grant r.block_size (length input) r.wp (filling r input))
        ≡ some h'
      → length input ≤ (r.heap.cell r.wp).size
      → fbb_buf_write grant r input ≡ some (answer r input h')
  unfolding fbb_buf_write write_message answer
  write_message_open r input h' e fits =
      if-false (ltb (r.heap.cell r.wp).size (length input)) _ _ (ground (arith, fits))
      ∙ ap (λ o. o >>= (λ h'. some (answer r input h'))) e

  -- With memory to be had, a write of at least one byte that fits a block returns, and adds its
  -- message behind those that are held.
  pub fbb_buf_write-Holding :
      (r : FixedRing) (input : List ℕ) (ms : List (List ℕ))
      → Holding r ms
      → ((a : ℕ) → Supplies (grant a) r.block_size)
      → 0 < length input
      → length input ≤ r.block_size
      → (a : FixedReply) × (fbb_buf_write grant r input ≡ some a)
        × (a.status ≡ Status.success)
        × (a.count ≡ length input)
        × (a.out ≡ [])
        × (a.ring.block_size ≡ r.block_size)
        × Holding a.ring (ms ++ input ∷ [])
  unfolding answer
  fbb_buf_write-Holding r input ms h ample pos fits =
      let room : length input ≤ (r.heap.cell r.wp).size =
        omega (arith, fits, wp_size r input ms h pos fits) in
      elim (List-cases h.blank) [
        | inr (e, bl, same) ↦
            let (t, held) = room-Holding r input ms h pos fits e bl same in
            (
              answer r input (filling r input),
              write_message_open r input (filling r input) (if-true _ _ _ t) room,
              refl,
              refl,
              refl,
              refl,
              held,
            )
        | inl same ↦
            let k = wp_known _ _ _ _ _ _ (filling-Full r input ms h pos fits) in
            let s =
              splice grant (length input / r.block_size + 1) (filling r input) r.wp r.block_size
                ample h.room (omega arith) (omega (arith, k)) k.1 in
            let h₁ =
              (block_list_alloc grant (length input / r.block_size + 1) (filling r input)).1 in
            let h₂ = (block_data_fastalloc grant r.heap.fresh r.block_size h₁).1 in
            let h' =
              set_next (set_next h₂ r.wp r.heap.fresh) (list_tail r.heap.fresh h₂)
                (r.heap.next r.wp) in
            let (t, held) =
              full-Holding r input ms h pos fits h' r.heap.fresh s.news same s.grown s.sized in
            (
              answer r input h',
              write_message_open r input h'
                  (if-false _ _ _ t
                    ∙ expand-Spliced r.block_size (length input) r.wp (filling r input) s
                        (omega (arith, k)))
                  room,
              refl,
              refl,
              refl,
              refl,
              held,
            )
      ]
