-- ===== src/Ring/Splice.antt =====
-- New blocks linked in between a block and the one that follows it.
use bingewatch.Prelude.{
  length, ℕ, suc, ◌≤◌, ◌<◌, ◌≡◌, refl, ◌≢◌, ◌∙◌, inl, List, ◌∷◌, arith, All, Fresh, All-take,
  All-mono, take, length-take, length-replicate, ◌-◌,
}
use bingewatch.Block.{
  Heap, Grants, update, set_next, block_list_alloc, block_data_fastalloc, list_tail, last_block,
}
use bingewatch.Block.Segment.{Seg, Seg-same, update_self, update_ne, Distinct-take}
use bingewatch.Block.Alloc.{
  range, length-range, All-range, Distinct-range, NewList, block_list_alloc-NewList,
}
use bingewatch.Block.Tail.{Ends, last_block-Ends}
use bingewatch.Block.Carve.{new_cell, Supplies, Carved, block_data_fastalloc-Carved}
use bingewatch.Ring.Blocks.{IsBlank}
use bingewatch.Ring.Full.{Grown}

pub new_cell-IsBlank : (size fill : ℕ) → 0 < size → IsBlank (new_cell size fill)
new_cell-IsBlank size fill h = record {
  no_bytes = refl;
  room = h;
  allocated = length-replicate size fill;
}

-- The list of new blocks, once linked in between `b` and what followed it.
module _ (h h₁ h₂ : Heap) (b q m k t size fill : ℕ) (known : b < h.fresh) (room : 0 < size)
    (l : NewList (suc m) h (h.fresh, h₁)) (kle : k ≤ m)
    (c : Carved size fill (suc k) h.fresh 0 (range (suc h.fresh) m) h₁ h₂)
    (e : Ends h₂.next h.fresh t (take k (range (suc h.fresh) m))) where
  abbrev spliced : Heap
  spliced = set_next (set_next h₂ b h.fresh) t q

  abbrev news : List ℕ
  news = take k (range (suc h.fresh) m)

  above : All (λ a. (h.fresh ≤ a) × (a < h₂.fresh)) (h.fresh ∷ news)
  above = All-take _ (suc k) (h.fresh ∷ range (suc h.fresh) m) (
      All-range (λ a. (h.fresh ≤ a) × (a < h₂.fresh)) h.fresh (suc m)
        (λ a lo hi. (lo, omega (arith, c.fresh, l.fresh))))

  tail_above : h.fresh ≤ t
  tail_above =
      e.inside (λ a. h.fresh ≤ a) (omega arith)
        (All-mono _ (λ a. h.fresh ≤ a) (λ a p. p.0) news above.1)

  elsewhere : (a : ℕ) → a < h.fresh → Fresh a (h.fresh ∷ range (suc h.fresh) m)
  elsewhere a lt = All-range (λ x. x ≢ a) h.fresh (suc m) (λ x lo hi. omega arith)

  same_links :
      (xs : List ℕ)
      → All (λ a. (h.fresh ≤ a) × (a < h₂.fresh)) xs
      → All (λ a. spliced.next a ≡ update h₂.next t q a) xs
  same_links xs p =
      All-mono _ (λ a. spliced.next a ≡ update h₂.next t q a)
        (λ a k. ground (arith, update_ne h₂.next b a h.fresh)) xs p

  pub spliced-Grown : Grown h spliced b q h.fresh news
  spliced-Grown = record {
    link =
        update_ne (update h₂.next b h.fresh) t b q (omega (arith, tail_above))
        ∙ update_self h₂.next b h.fresh;
    path = rw (same_links (h.fresh ∷ news) above).0 (
        Seg-same (update h₂.next t q) spliced.next (update h₂.next t q h.fresh) q news
          (same_links news above.1) (e.redirect q));
    above = above;
    distinct =
        Distinct-take (suc k) (h.fresh ∷ range (suc h.fresh) m) (Distinct-range h.fresh (suc m));
    cells =
        All-mono _ (λ a. IsBlank (h₂.cell a)) (λ a s. rw s (new_cell-IsBlank size fill room))
          (h.fresh ∷ news) c.cells;
    next = λ a lt ne.
        update_ne (update h₂.next b h.fresh) t a q (omega (arith, tail_above))
        ∙ update_ne h₂.next b a h.fresh ne
        ∙ c.next a (elsewhere a lt)
        ∙ l.next a lt;
    cell = λ a lt. c.cell a (elsewhere a lt) ∙ l.cell a lt;
    more = omega (arith, c.fresh, l.fresh);
  }

-- New blocks with data behind block `b`: what `block_list_alloc`, `block_data_fastalloc` and the
-- walk to the last of the new blocks leave.
pub record Spliced (grant : Grants) (k : ℕ) (h : Heap) (b size : ℕ) : Type 0 where
  pub head : block_list_alloc grant k h ≡ (h.fresh, (block_list_alloc grant k h).1)
  pub added : 0 < (block_data_fastalloc grant h.fresh size (block_list_alloc grant k h).1).0
  pub news : List ℕ
  pub grown :
      let h₂ = (block_data_fastalloc grant h.fresh size (block_list_alloc grant k h).1).1 in
      Grown h
        (set_next (set_next h₂ b h.fresh) (list_tail h.fresh h₂) (h.next b))
        b
        (h.next b)
        h.fresh
        news
  pub sized :
      All
        (λ a.
          ((block_data_fastalloc grant h.fresh size (block_list_alloc grant k h).1).1.cell a).size
          ≡ size)
        (h.fresh ∷ news)
  pub path :
      let h₂ = (block_data_fastalloc grant h.fresh size (block_list_alloc grant k h).1).1 in
      Seg h₂.next (h₂.next h.fresh) news 0
  pub apart : All (λ a. (0 < a) × (a ≢ b)) (h.fresh ∷ news)
  pub few :
      length news < (block_data_fastalloc grant h.fresh size (block_list_alloc grant k h).1).1.fresh

pub splice :
    (grant : Grants) (k : ℕ) (h : Heap) (b size : ℕ)
    → ((a : ℕ) → Supplies (grant a) size)
    → 0 < size
    → 0 < k
    → 0 < h.fresh
    → b < h.fresh
    → Spliced grant k h b size
unfolding list_tail
splice grant k h b size ample room pos fpos known =
    let m = k - 1 in
    let n : k ≡ suc m = omega (arith, pos) in
    let l = block_list_alloc-NewList grant k h (λ a. (ample a).pcalloc) fpos pos in
    let h₁ = (block_list_alloc grant k h).1 in
    let l' : NewList (suc m) h (h.fresh, h₁) =
      rw (← n)
        (record { head = refl; fresh = l.fresh; path = l.path; next = l.next; cell = l.cell }) in
    let others = range (suc h.fresh) m in
    let apart : All (λ a. (0 < a) × (a ≢ h.fresh)) others =
      All-range (λ a. (0 < a) × (a ≢ h.fresh)) (suc h.fresh) m (λ a lo hi. omega arith) in
    let (j, jle, added, c) =
      block_data_fastalloc-Carved grant h.fresh size h₁ others 0 (ample h₁.fresh) fpos l'.path.1
        apart (inl refl) (Distinct-range h.fresh (suc m))
        (omega (arith, length-range (suc h.fresh) m, l'.fresh)) in
    let h₂ = (block_data_fastalloc grant h.fresh size h₁).1 in
    let kept = take j others in
    let few : length kept < h₂.fresh =
      omega (arith, length-take j others, length-range (suc h.fresh) m, c.fresh, l'.fresh) in
    let e =
      last_block-Ends h₂.fresh h.fresh h₂ kept c.path.1
        (All-take (λ a. 0 < a) j others (All-mono _ (λ a. 0 < a) (λ a p. p.0) others apart))
        (Distinct-take (suc j) (h.fresh ∷ others) (Distinct-range h.fresh (suc m))) few in
    let t = last_block h₂.fresh h.fresh h₂ in
    let grown =
      spliced-Grown h h₁ h₂ b (h.next b) m j t size (grant h₁.fresh).fill known room l'
        (omega (arith, jle, length-range (suc h.fresh) m)) c e in
    record {
      head = λ i. (l.head i, h₁);
      added = rw added (grind arith);
      news = kept;
      grown = grown;
      sized = All-mono _ (λ a. (h₂.cell a).size ≡ size) (λ a s. rw s refl) (h.fresh ∷ kept) c.cells;
      path = c.path.1;
      apart =
          All-mono _ (λ a. (0 < a) × (a ≢ b)) (λ a p. omega (arith, known, fpos)) (h.fresh ∷ kept)
            grown.above;
      few = few;
    }
