-- ===== src/Ring/Create.antt =====
-- `create_buffer` makes a closed ring of bare block descriptors, or nothing.
use bingewatch.Prelude.{
  ℕ, suc, ◌+◌, ◌<◌, ◌≡◌, refl, ◌≢◌, ◌⊎◌, inl, inr, Bool, true, false, ◌&&◌, some, none, arith, All,
  All-mono, length, ◌==◌,
}
use bingewatch.Block.{Heap, Grants, block_list_alloc, forge_ring}
use bingewatch.Block.Segment.{Seg}
use bingewatch.Block.Alloc.{
  range, length-range, All-range, Distinct-range, NewList, block_list_alloc-NewList,
  block_list_alloc-none,
}
use bingewatch.Block.Tail.{last_block-Ends, forge_loop-last_block}
use bingewatch.Ring.{Ring, RbState, default_realloc}
use bingewatch.Ring.Control.{Setup, new_ring, create_buffer}
use bingewatch.Ring.Start.{Unallocated}

-- A new list is closed into a ring.
forged :
    (m : ℕ) (h h₁ : Heap)
    → NewList (suc m) h (h.fresh, h₁)
    → 0 < h.fresh
    → let f = forge_ring h.fresh h₁ in
      Seg f.next (f.next h.fresh) (range (suc h.fresh) m) h.fresh × (f.fresh ≡ h.fresh + suc m)
unfolding forge_ring
forged m h h₁ l pos =
    let others = range (suc h.fresh) m in
    let apart : All (λ a. (0 < a) × (a ≢ h.fresh)) others =
      All-range (λ a. (0 < a) × (a ≢ h.fresh)) (suc h.fresh) m (λ a lo hi. omega arith) in
    let fuel : length others < h₁.fresh = omega (arith, length-range (suc h.fresh) m, l.fresh) in
    let e =
      last_block-Ends h₁.fresh h.fresh h₁ others l.path.1
        (All-mono _ (λ a. 0 < a) (λ a p. p.0) others apart) (Distinct-range h.fresh (suc m)) fuel in
    rw (forge_loop-last_block h₁.fresh h.fresh h.fresh h₁ others l.path.1 apart fuel)
      (e.redirect h.fresh, l.fresh)

-- Every answer of the system and of the machine layer was good.
abbrev pub all_good : Setup → Bool
all_good s = s.subpool && s.pcalloc && s.desc_init && s.read_filter && s.write_filter

module _ (grant : Grants) (low_mark : ℕ → ℕ → ℕ) where
  create_buffer_open :
      (answers : Setup) (h h₁ : Heap) (b : ℕ)
      → all_good answers ≡ true
      → block_list_alloc grant default_realloc h ≡ (b, h₁)
      → 0 < b
      → create_buffer grant low_mark answers h ≡ some (new_ring b (forge_ring b h₁))
  unfolding create_buffer
  create_buffer_open answers h h₁ b good e pos =
      let z : (b == 0) ≡ false = ground arith in rw (e, z) (ground arith)

  -- With every answer good and memory for the descriptors, a ring of sixteen of them is made,
  -- closed, not initialised and without a low-water mark.
  pub create_buffer-Unallocated :
      (answers : Setup) (h : Heap)
      → all_good answers ≡ true
      → ((a : ℕ) → (grant a).pcalloc ≡ true)
      → 0 < h.fresh
      → (ring : Ring) × (create_buffer grant low_mark answers h ≡ some ring)
        × Unallocated ring
        × (ring.state ≡ RbState.noinit)
        × (ring.low_water_mark ≡ 0)
  create_buffer-Unallocated answers h good ok pos =
      let l = block_list_alloc-NewList grant default_realloc h ok pos (omega arith) in
      let h₁ = (block_list_alloc grant default_realloc h).1 in
      let l' : NewList default_realloc h (h.fresh, h₁) = record {
        head = refl;
        fresh = l.fresh;
        path = l.path;
        next = l.next;
        cell = l.cell;
      } in
      let (path, fresh) = forged 15 h h₁ l' pos in
      (
        new_ring h.fresh (forge_ring h.fresh h₁),
        create_buffer_open answers h h₁ h.fresh good (λ i. (l.head i, h₁)) pos,
        record {
          others = range (suc h.fresh) 15;
          same = refl;
          path = path;
          distinct = Distinct-range h.fresh 16;
          known =
              All-range (λ a. (0 < a) × (a < (forge_ring h.fresh h₁).fresh)) h.fresh 16
                (λ a lo hi. omega (arith, fresh));
          few = omega (arith, fresh);
          empty = refl;
          realloc = omega arith;
          align = omega arith;
        },
        refl,
        refl,
      )

  create_buffer_bad :
      (answers : Setup) (h : Heap)
      → all_good answers ≡ false
      → create_buffer grant low_mark answers h ≡ none
  unfolding create_buffer
  create_buffer_bad answers h bad = ground arith

  create_buffer_no_blocks :
      (answers : Setup) (h : Heap)
      → block_list_alloc grant default_realloc h ≡ (0, h)
      → create_buffer grant low_mark answers h ≡ none
  unfolding create_buffer
  create_buffer_no_blocks answers h e = rw e (ground arith)

  -- Any bad answer, or no memory for the descriptors, gives no ring.
  pub create_buffer-none :
      (answers : Setup) (h : Heap)
      → (all_good answers ≡ false) ⊎ ((grant h.fresh).pcalloc ≡ false)
      → create_buffer grant low_mark answers h ≡ none
  create_buffer-none answers h (inl bad) = create_buffer_bad answers h bad
  create_buffer-none answers h (inr e) =
      create_buffer_no_blocks answers h (block_list_alloc-none grant default_realloc h e)
