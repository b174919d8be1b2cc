-- ===== src/Ring/Read.antt =====
-- The loop of `buf_read` takes the oldest bytes out of the blocks, in order.
use bingewatch.Prelude.{
  ℕ, zero, suc, ◌+◌, ◌-◌, ◌%◌, ◌≤◌, ◌<◌, ◌≡◌, sym, ap, ◌∙◌, ◌⊎◌, inl, inr, true, false, some, List,
  [], ◌∷◌, ◌++◌, arith, append-nil, append_assoc, length, take, drop, min, ltb, ◌==◌, Bool-cases,
  length-append, take-append_ge, drop-append_ge, take-append_le, drop-append_le, take-take,
  take_all, drop_all,
}
use bingewatch.Status.{Blocking}
use bingewatch.Block.{Heap, Cell, set_cell}
use bingewatch.Ring.{Reading, is_block, read_block, read_loop}
use bingewatch.Ring.Blocks.{
  IsFilled, payload, bytes_of, Layout, Blocks, Layout-consume, Layout-trim,
}
use bingewatch.Ring.Trim.{
  trimmed, emptied, length-payload, emptied-IsBlank, trimmed-IsFilled, payload-trimmed,
}

abbrev pub reading : ℕ → Heap → ℕ → ℕ → List ℕ → Reading
reading b h r n out = record { b = b; heap = h; remaining = r; bytes_read = n; out = out }

read_block_whole :
    (b : ℕ) (h : Heap) (r n : ℕ) (out : List ℕ)
    → ltb r (h.cell b).bytes ≡ false
    → read_block (reading b h r n out)
      ≡ reading
          (h.next b)
          (set_cell h b (emptied (h.cell b)))
          (r - (h.cell b).bytes)
          (n + (h.cell b).bytes)
          (out ++ payload (h.cell b))
unfolding read_block
read_block_whole b h r n out e = rw e

read_block_part :
    (b : ℕ) (h : Heap) (r n : ℕ) (out : List ℕ)
    → ltb r (h.cell b).bytes ≡ true
    → read_block (reading b h r n out)
      ≡ reading b
          (set_cell h b (trimmed (h.cell b) r))
          (r - r)
          (n + r)
          (out ++ take r (h.cell b).bytes_at)
unfolding read_block
read_block_part b h r n out e = rw e

-- The loop ends: it finds all the bytes it wants, or meets an empty block where it may stop.
abbrev pub MayStop : Blocking → ℕ → (wanted so_far held : ℕ) → Type 0
MayStop blk align wanted so_far held =
    (wanted ≤ held) ⊎ ((is_block blk ≡ false) × ((so_far + held) % align ≡ 0))

-- What the loop has done when it ends, started with `r` bytes to go.
pub record Taken (wp r n : ℕ) (out xs : List ℕ) (s : Reading) : Type 0 where
  pub left : Blocks s.heap s.b wp (drop r xs)
  pub got : s.out ≡ out ++ take r xs
  pub count : s.bytes_read ≡ n + min r (length xs)

Taken-none :
    (b wp n : ℕ) (h : Heap) (r : ℕ) (out xs : List ℕ)
    → Blocks h b wp xs
    → r ≡ 0
    → Taken wp r n out xs (reading b h r n out)
Taken-none b wp n h r out xs bs e = record {
  left = rw e bs;
  got = rw e (sym (append-nil out));
  count = omega arith;
}

Taken-empty :
    (b wp n : ℕ) (h : Heap) (r : ℕ) (out : List ℕ)
    → Blocks h b wp []
    → Taken wp r n out [] (reading b h r n out)
Taken-empty b wp n h r out bs = record {
  left = rw (drop_all {A = ℕ} r [] (omega arith)) bs;
  got = rw (take_all {A = ℕ} r [] (omega arith)) (sym (append-nil out));
  count = omega arith;
}

module _ (wp r n : ℕ) (out rest : List ℕ) (c : Cell) (s : Reading) (f : IsFilled c) where
  Taken-whole :
      c.bytes ≤ r
      → Taken wp (r - c.bytes) (n + c.bytes) (out ++ payload c) rest s
      → Taken wp r n out (payload c ++ rest) s
  Taken-whole h t =
      let e = length-payload c f in
      let h' : length (payload c) ≤ r = omega (arith, e) in
      record {
        left = rw (drop-append_ge r (payload c) rest h', e) t.left;
        got =
            rw (take-append_ge r (payload c) rest h', e)
              (t.got ∙ append_assoc out (payload c) (take (r - c.bytes) rest));
        count = omega (arith, t.count, e, length-append (payload c) rest);
      }

  Taken-part :
      r < c.bytes
      → Taken wp (r - r) (n + r) (out ++ take r c.bytes_at) (payload (trimmed c r) ++ rest) s
      → Taken wp r n out (payload c ++ rest) s
  Taken-part h t =
      let e = length-payload c f in
      let h' : r ≤ length (payload c) = omega (arith, e) in
      let z : r - r ≡ 0 = omega arith in
      record {
        left =
            rw (drop-append_le r (payload c) rest h', ← payload-trimmed c r f h) (rw z at t.left);
        got =
            rw (take-append_le r (payload c) rest h', take-take r c.bytes c.bytes_at (omega arith))
              ((rw z at t.got) ∙ append-nil (out ++ take r c.bytes_at));
        count = omega (arith, t.count, e, length-append (payload c) rest);
      }

MayStop-whole :
    (blk : Blocking) (align r n k p q t : ℕ)
    → p ≡ k
    → t ≡ p + q
    → k ≤ r
    → MayStop blk align r n t
    → MayStop blk align (r - k) (n + k) q
MayStop-whole blk align r n k p q t e e' h (inl m) = inl (omega arith)
MayStop-whole blk align r n k p q t e e' h (inr (m, a)) =
    let same : n + k + q ≡ n + t = omega arith in inr (m, rw same a)

-- The loop at a block that holds bytes, with bytes still wanted.
read_loop_step :
    (fuel : ℕ) (blk : Blocking) (align a : ℕ) (h : Heap) (r n : ℕ) (out : List ℕ) (s : Reading)
    → (r == 0) ≡ false
    → 0 < (h.cell a).bytes
    → read_block (reading a h r n out) ≡ s
    → read_loop (suc fuel) blk align (reading a h r n out) ≡ read_loop fuel blk align s
unfolding read_loop
read_loop_step fuel blk align a h r n out s nz pos e =
    let full : ((h.cell a).bytes == 0) ≡ false = ground arith in rw (nz, full, e)

-- The loop at an empty block, where it may stop.
read_loop_stop :
    (fuel : ℕ) (blk : Blocking) (align a : ℕ) (h : Heap) (r n : ℕ) (out : List ℕ)
    → (h.cell a).bytes ≡ 0
    → MayStop blk align r n 0
    → read_loop (suc fuel) blk align (reading a h r n out) ≡ some (reading a h r n out)
unfolding read_loop
read_loop_stop fuel blk align a h r n out e (inl m) = let z : (r == 0) ≡ true = ground arith in rw z
read_loop_stop fuel blk align a h r n out e (inr (free, al)) =
    let same : n + 0 ≡ n = omega arith in
    let al' : ((n % align) == 0) ≡ true = ground (arith, rw same at al) in
    let empty : ((h.cell a).bytes == 0) ≡ true = ground arith in
    elim (Bool-cases (r == 0)) [ inl z ↦ rw z | inr nz ↦ rw (nz, empty, free, al') ]

module _ (blk : Blocking) (align wp : ℕ) where
  pub read_loop-Taken :
      (fuel b : ℕ) (h : Heap) (r n : ℕ) (out fs bl xs : List ℕ)
      → Layout h b wp fs bl xs
      → r < fuel
      → MayStop blk align r n (length xs)
      → (s : Reading) × (read_loop fuel blk align (reading b h r n out) ≡ some s)
        × Taken wp r n out xs s
  unfolding read_loop bytes_of
  read_loop-Taken zero b h r n out fs bl xs l f m = absurd (omega arith)
  read_loop-Taken (suc fuel) b h r n out [] bl xs l f m =
      let e : (h.cell b).bytes ≡ 0 = rw l.filled_path l.wp_cell.no_bytes in
      let z : [] ≡ xs = l.contents in
      (
        reading b h r n out,
        read_loop_stop fuel blk align b h r n out e (rw (← z) at m),
        rw (← z) (
            Taken-empty b wp n h r out
              (record { filled = []; blank = bl; layout = rw (← z) at l })),
      )
  read_loop-Taken (suc fuel) b h r n out (a ∷ fs) bl xs l f m =
      let c = h.cell a in
      let rest = bytes_of h.cell fs in
      let g = l.filled_cells.0 in
      let size : length (payload c) + length rest ≡ length xs =
        sym (length-append (payload c) rest) ∙ ap length l.contents in
      rw (l.filled_path.0, ← l.contents)
        (elim (Bool-cases (r == 0)) [
          | inl z ↦ (
            reading a h r n out,
            rw z,
            Taken-none a wp n h r out (payload c ++ rest)
                (record {
                  filled = a ∷ fs;
                  blank = bl;
                  layout = rw (l.filled_path.0, ← l.contents) at l;
                })
                (ground arith),
          )
          | inr nz ↦ elim (Bool-cases (ltb r c.bytes)) [
            | inl part ↦
                let r' : r < c.bytes = ground arith in
                let (s, ran, t) =
                  read_loop-Taken fuel a (set_cell h a (trimmed c r)) (r - r) (n + r)
                    (out ++ take r c.bytes_at) (a ∷ fs) bl (payload (trimmed c r) ++ rest)
                    (rw l.filled_path.0 at
                      (Layout-trim h b wp a fs bl xs (trimmed c r) l (trimmed-IsFilled c r g r')))
                    (ground arith) (inl (omega arith)) in
                (
                  s,
                  read_loop_step fuel blk align a h r n out _ nz g.some_bytes
                        (read_block_part a h r n out part)
                      ∙ ran,
                  Taken-part wp r n out rest c s g r' t,
                )
            | inr whole ↦
                let r' : c.bytes ≤ r = ground arith in
                let (s, ran, t) =
                  read_loop-Taken fuel (h.next a) (set_cell h a (emptied c)) (r - c.bytes)
                    (n + c.bytes) (out ++ payload c) fs (bl ++ a ∷ []) rest
                    (Layout-consume h b wp a fs bl xs (emptied c) l (emptied-IsBlank c g))
                    (omega (arith, g.some_bytes))
                    (MayStop-whole blk align r n c.bytes (length (payload c)) (length rest)
                      (length xs) (length-payload c g) (sym size) r' m) in
                (
                  s,
                  read_loop_step fuel blk align a h r n out _ nz g.some_bytes
                        (read_block_whole a h r n out whole)
                      ∙ ran,
                  Taken-whole wp r n out rest c s g r' t,
                )
          ]
        ])
