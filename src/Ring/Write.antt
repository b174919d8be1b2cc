-- ===== src/Ring/Write.antt =====
-- The loop of `buf_write` appends the caller's bytes, growing the ring where it has to.
use bingewatch.Prelude.{
  ℕ, zero, suc, ◌+◌, ◌-◌, ◌≤◌, ◌<◌, ◌≡◌, refl, sym, ◌∙◌, ap, ◌⊎◌, inl, inr, Bool, Bool-cases,
  ==_iff, false, some, List, [], ◌∷◌, ◌++◌, arith, append-nil, append_assoc, take, drop, length,
  length-append, length-take, length-drop, take-append-drop, take-length_append, ltb, ◌==◌,
  if◌then◌else◌,
}
use mathlib.Core.Path.{subst}
use bingewatch.Block.{Cell, Grants, set_cell, update}
use bingewatch.Block.Segment.{update_self, update_ne}
use bingewatch.Ring.{Ring, doubled, get_next_block, write_loop}
use bingewatch.Ring.Blocks.{IsFilled, IsBlank, payload, Layout, Blocks}
use bingewatch.Ring.Full.{Layout-fill}
use bingewatch.Ring.Grow.{Ample, get_next_block-Advanced, get_next_block_wrapped}

-- How much of `r` bytes goes into a block, and the cell that results.
abbrev portion : Cell → ℕ → ℕ
portion c r = if ltb r c.size then r else c.size

abbrev stored : Cell → ℕ → List ℕ → Cell
stored c n input = record c { bytes_at = take n input ++ drop n c.bytes_at; bytes = n }

portion_bounds :
    (c : Cell) (r : ℕ)
    → IsBlank c
    → 0 < r
    → (0 < portion c r) × (portion c r ≤ r) × (portion c r ≤ c.size)
portion_bounds c r k pos = ground arith

stored-IsFilled :
    (c : Cell) (n : ℕ) (input : List ℕ)
    → IsBlank c
    → 0 < n
    → n ≤ c.size
    → n ≤ length input
    → IsFilled (stored c n input)
stored-IsFilled c n input k pos fits has = record {
  some_bytes = pos;
  fits = fits;
  allocated = omega (
    arith,
    length-append (take n input) (drop n c.bytes_at),
    length-take n input,
    length-drop n c.bytes_at,
    k.allocated,
  );
}

payload-stored :
    (c : Cell) (n : ℕ) (input : List ℕ)
    → n ≤ length input
    → payload (stored c n input) ≡ take n input
payload-stored c n input has =
    let e : length (take n input) ≡ n = omega (arith, length-take n input) in
    rw e at (take-length_append (take n input) (drop n c.bytes_at))

-- What the loop has done when it ends, started at `ring` with `input` to store.
pub record Stored (ring : Ring) (xs input : List ℕ) (written : ℕ) (r : ℕ × ℕ × Ring) : Type 0 where
  pub blocks : Blocks r.2.heap ring.rp r.0 (xs ++ input)
  pub count : r.1 ≡ written + length input
  pub same :
      r.2 ≡ record ring { size = r.2.size; block_realloc = r.2.block_realloc; heap = r.2.heap }
  pub realloc : 0 < r.2.block_realloc

-- One round: `n` bytes stored by way of `g`, then the rest.
Stored-round :
    (ring g : Ring) (xs ys input : List ℕ) (written n : ℕ) (out : ℕ × ℕ × Ring)
    → g ≡ record ring { size = g.size; block_realloc = g.block_realloc; heap = g.heap }
    → ys ≡ take n input
    → n ≤ length input
    → Stored g (xs ++ ys) (drop n input) (written + n) out
    → Stored ring xs input written out
Stored-round ring g xs ys input written n out e chunk has s =
    let whole : (xs ++ ys) ++ drop n input ≡ xs ++ input =
      append_assoc xs ys (drop n input)
      ∙ ap (λ l. xs ++ l) (ap (λ l. l ++ drop n input) chunk ∙ take-append-drop n input) in
    record {
      blocks = rw (← ap (λ (r : Ring). r.rp) e) (rw whole at s.blocks);
      count = omega (arith, s.count, length-drop n input);
      same =
          s.same
          ∙ ap
              (λ (r : Ring). record r {
                size = out.2.size;
                block_realloc = out.2.block_realloc;
                heap = out.2.heap;
              })
              e;
      realloc = s.realloc;
    }

module _ (grant : Grants) (low_mark : ℕ → ℕ → ℕ) where
  write_loop_step :
      (fuel : ℕ) (ring : Ring) (b r : ℕ) (input : List ℕ) (written : ℕ)
      → 0 < r
      → let n = portion (ring.heap.cell b) r in
        let g =
          get_next_block grant low_mark
            (record ring { heap = set_cell ring.heap b (stored (ring.heap.cell b) n input) })
            b in
        write_loop grant low_mark (suc fuel) ring b r input written
        ≡ write_loop grant low_mark fuel g.2 g.1 (r - n) (drop n input) (written + n)
  unfolding write_loop
  write_loop_step fuel ring b r input written pos = let e : (r == 0) ≡ false = ground arith in rw e

  next_full :
      (ring : Ring) (b n : ℕ) (input : List ℕ)
      → 0 < n
      → (ring.heap.next b ≡ b) ⊎ (0 < (ring.heap.cell (ring.heap.next b)).bytes)
      → 0 < (update ring.heap.cell b (stored (ring.heap.cell b) n input) (ring.heap.next b)).bytes
  next_full ring b n input pos full =
      let c = stored (ring.heap.cell b) n input in
      let self : 0 < (update ring.heap.cell b c b).bytes =
        omega (arith, pos, ap (λ (x : Cell). x.bytes) (update_self ring.heap.cell b c)) in
      elim full [
        | inl e ↦ subst (λ p. 0 < (update ring.heap.cell b c p).bytes) (sym e) self
        | inr some_there ↦ elim (Bool-cases (ring.heap.next b == b)) [
          | inl e ↦
              subst (λ p. 0 < (update ring.heap.cell b c p).bytes)
                (sym ((==_iff (ring.heap.next b) b).0 e)) self
          | inr e ↦ omega (
            arith,
            some_there,
            ap (λ (x : Cell). x.bytes)
                (update_ne ring.heap.cell b (ring.heap.next b) c (ground (arith, e))),
          )
        ]
      ]

  kept_size :
      (ring : Ring) (b n : ℕ) (input : List ℕ)
      → 0 < (ring.heap.cell b).size
      → 0 < (update ring.heap.cell b (stored (ring.heap.cell b) n input) b).size
  kept_size ring b n input pos =
      let c = stored (ring.heap.cell b) n input in
      omega (arith, pos, ap (λ (x : Cell). x.size) (update_self ring.heap.cell b c))

  -- A full ring that cannot grow since its `block_realloc` has wrapped.
  write_loop_wrapped :
      (fuel : ℕ) (ring : Ring) (b r : ℕ) (input : List ℕ) (written : ℕ)
      → r < fuel
      → doubled ring.block_realloc ≡ 0
      → (r ≡ 0 → ring.block_realloc ≡ 0)
      → 0 < (ring.heap.cell b).size
      → (ring.heap.next b ≡ b) ⊎ (0 < (ring.heap.cell (ring.heap.next b)).bytes)
      → (out : ℕ × ℕ × Ring) × (write_loop grant low_mark fuel ring b r input written ≡ some out)
        × (out.2.block_realloc ≡ 0)
  write_loop_wrapped zero ring b r input written lt z now room full = absurd (omega (arith, lt))
  write_loop_wrapped (suc fuel) ring b zero input written lt z now room full =
      ((b, written, ring), unfold write_loop in refl, now refl)
  write_loop_wrapped (suc fuel) ring b (suc r) input written lt z now room full =
      let n = portion (ring.heap.cell b) (suc r) in
      let pos : 0 < n = ground (arith, room) in
      let ring₁ : Ring = record ring {
        heap = set_cell ring.heap b (stored (ring.heap.cell b) n input);
      } in
      let full' = next_full ring b n input pos full in
      let (out, ran, zero_left) =
        write_loop_wrapped fuel (record ring₁ { block_realloc = 0 }) b (suc r - n) (drop n input)
          (written + n) (omega (arith, lt, pos)) refl (λ _. refl) (kept_size ring b n input room)
          (inr full') in
      (
        out,
        write_loop_step fuel ring b (suc r) input written (omega arith)
            ∙ ap
                (λ (g : Bool × ℕ × Ring).
                  write_loop grant low_mark fuel g.2 g.1 (suc r - n) (drop n input) (written + n))
                (get_next_block_wrapped grant low_mark ring₁ b full' z)
            ∙ ran,
        zero_left,
      )

  -- Behind the write block of a ring without other blank blocks is a filled one, or itself.
  no_blank :
      (ring : Ring) (b : ℕ) (fs bl xs : List ℕ)
      → Layout ring.heap ring.rp b fs bl xs
      → bl ≡ []
      → (ring.heap.next b ≡ b) ⊎ (0 < (ring.heap.cell (ring.heap.next b)).bytes)
  no_blank ring b fs (x ∷ bl) xs l e = absurd (omega (arith, ap length e))
  no_blank ring b [] [] xs l e = inl (l.blank_path ∙ l.filled_path)
  no_blank ring b (a ∷ fs) [] xs l e = inr (
      subst (λ p. 0 < (ring.heap.cell p).bytes) (sym (l.blank_path ∙ l.filled_path.0))
        l.filled_cells.0.some_bytes)

  -- Whether a round at a block with these blank blocks behind it can go on.
  can_go_on : (bl : List ℕ) (r : ℕ) → (bl ≡ [] → 0 < doubled r) ⊎ ((bl ≡ []) × (doubled r ≡ 0))
  can_go_on (x ∷ bl) r = inl (λ e. absurd (omega (arith, ap length e)))
  can_go_on [] r = elim (Bool-cases (doubled r == 0)) [
    | inl e ↦ inr (refl, (==_iff (doubled r) 0).0 e)
    | inr e ↦ inl (λ _. ground (arith, e))
  ]

  pub write_loop-Stored :
      (fuel : ℕ) (ring : Ring) (b r : ℕ) (input : List ℕ) (written : ℕ) (fs bl xs : List ℕ)
      → Ample grant low_mark ring.block_size
      → 0 < ring.block_size
      → 0 < ring.block_realloc
      → Layout ring.heap ring.rp b fs bl xs
      → r ≡ length input
      → r < fuel
      → (out : ℕ × ℕ × Ring) × (write_loop grant low_mark fuel ring b r input written ≡ some out)
        × ((out.2.block_realloc ≡ 0) ⊎ Stored ring xs input written out)
  write_loop-Stored zero ring b r input written fs bl xs ample room pos l len f =
      absurd (omega arith)
  write_loop-Stored (suc fuel) ring b zero [] written fs bl xs ample room pos l len f = (
    (b, written, ring),
    unfold write_loop in refl,
    inr (record {
      blocks = record { filled = fs; blank = bl; layout = rw (append-nil xs) l };
      count = omega arith;
      same = refl;
      realloc = pos;
    }),
  )
  write_loop-Stored (suc fuel) ring b zero (x ∷ input) written fs bl xs ample room pos l len f =
      absurd (omega arith)
  write_loop-Stored (suc fuel) ring b (suc r) input written fs bl xs ample room pos l len f =
      let c = ring.heap.cell b in
      let n = portion c (suc r) in
      let p = portion_bounds c (suc r) l.wp_cell (omega arith) in
      let has : n ≤ length input = omega (arith, p) in
      let filled = stored-IsFilled c n input l.wp_cell p.0 p.2 has in
      let ring₁ = record ring { heap = set_cell ring.heap b (stored c n input) } in
      let full = Layout-fill ring.heap ring.rp b fs bl xs (stored c n input) l filled in
      elim (can_go_on bl ring.block_realloc) [
        | inl more ↦
            let a =
              get_next_block-Advanced grant low_mark ring₁ b fs bl
                (xs ++ payload (stored c n input)) ample room pos more full in
            let g = get_next_block grant low_mark ring₁ b in
            let bs = a.blocks in
            let size : g.2.block_size ≡ ring.block_size = ap (λ (q : Ring). q.block_size) a.same in
            let (out, ran, s) =
              write_loop-Stored fuel g.2 g.1 (suc r - n) (drop n input) (written + n) bs.filled
                bs.blank (xs ++ payload (stored c n input)) (rw size ample) (rw size room) a.realloc
                (rw (ap (λ (q : Ring). q.rp) a.same) bs.layout)
                (omega (arith, length-drop n input, len)) (omega (arith, p)) in
            (
              out,
              write_loop_step fuel ring b (suc r) input written (omega arith) ∙ ran,
              elim s [
                | inl wrapped ↦ inl wrapped
                | inr s ↦ inr (
                    Stored-round ring g.2 xs (payload (stored c n input)) input written n out a.same
                      (payload-stored c n input has) has s)
              ],
            )
        | inr (none_blank, z) ↦
            let (out, ran, wrapped) =
              write_loop_wrapped (suc fuel) ring b (suc r) input written f z
                (λ e. absurd (omega (arith, e))) l.wp_cell.room
                (no_blank ring b fs bl xs l none_blank) in
            (out, ran, inl wrapped)
      ]
