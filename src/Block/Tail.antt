-- ===== src/Block/Tail.antt =====
-- The walk to the last block of a NULL-terminated list.
use bingewatch.Prelude.{
  ℕ, zero, suc, ◌<◌, ◌≡◌, ◌≢◌, sym, ◌∙◌, List, [], ◌∷◌, arith, All, Distinct, length,
}
use bingewatch.Block.{Heap, update, set_next, last_block, forge_loop}
use bingewatch.Block.Segment.{Seg, update_self, update_ne}

-- `t` ends the list `b ∷ xs`: writing its link redirects the whole list, and `t` is one of the
-- list.
pub record Ends (next : ℕ → ℕ) (b t : ℕ) (xs : List ℕ) : Type 1 where
  pub redirect : (q : ℕ) → Seg (update next t q) (update next t q b) xs q
  pub inside : (P : ℕ → Type 0) → P b → All P xs → P t

last_block_step :
    (fuel b : ℕ) (h : Heap)
    → 0 < h.next b
    → last_block (suc fuel) b h ≡ last_block fuel (h.next b) h
unfolding last_block
last_block_step fuel b h pos = ground arith

pub last_block-Ends :
    (fuel b : ℕ) (h : Heap) (xs : List ℕ)
    → Seg h.next (h.next b) xs 0
    → All (λ a. 0 < a) xs
    → Distinct (b ∷ xs)
    → length xs < fuel
    → Ends h.next b (last_block fuel b h) xs
unfolding last_block
last_block-Ends zero b h xs s p d f = absurd (omega arith)
last_block-Ends (suc fuel) b h [] s p d f =
    rw s (record { redirect = λ q. update_self h.next b q; inside = λ P pb ps. pb })
last_block-Ends (suc fuel) b h (c ∷ xs) s p d f =
    let e = last_block-Ends fuel c h xs s.1 p.1 d.1 (omega arith) in
    let t = last_block fuel c h in
    let ne : b ≢ t = λ q. e.inside (λ a. a ≢ b) d.0.0 d.0.1 (sym q) in
    rw (last_block_step fuel b h (rw s.0 p.0), s.0)
      (record {
        redirect = λ q. (update_ne h.next t b q ne ∙ s.0, e.redirect q);
        inside = λ P pb ps. e.inside P ps.0 ps.1;
      })

forge_loop_step :
    (fuel first b : ℕ) (h : Heap)
    → 0 < h.next b
    → h.next b ≢ first
    → forge_loop (suc fuel) first b h ≡ forge_loop fuel first (h.next b) h
unfolding forge_loop
forge_loop_step fuel first b h pos ne = ground arith

-- The walk of `forge_ring` closes a list at its last block.
pub forge_loop-last_block :
    (fuel first b : ℕ) (h : Heap) (xs : List ℕ)
    → Seg h.next (h.next b) xs 0
    → All (λ a. (0 < a) × (a ≢ first)) xs
    → length xs < fuel
    → forge_loop fuel first b h ≡ set_next h (last_block fuel b h) first
unfolding forge_loop last_block
forge_loop-last_block zero first b h xs s p f = absurd (omega arith)
forge_loop-last_block (suc fuel) first b h [] s p f = rw s
forge_loop-last_block (suc fuel) first b h (c ∷ xs) s p f =
    let pos : 0 < h.next b = rw s.0 p.0.0 in
    rw (forge_loop_step fuel first b h pos (rw s.0 p.0.1), last_block_step fuel b h pos, s.0)
      (forge_loop-last_block fuel first c h xs s.1 p.1 (omega arith))

last_block_end : (fuel b : ℕ) (h : Heap) → h.next b ≡ 0 → last_block (suc fuel) b h ≡ b
unfolding last_block
last_block_end fuel b h e = ground arith

-- The walk does not see the link of a block that the list does not have.
pub last_block-set_next :
    (fuel a b v : ℕ) (h : Heap) (xs : List ℕ)
    → Seg h.next (h.next a) xs 0
    → All (λ x. (0 < x) × (x ≢ b)) (a ∷ xs)
    → length xs < fuel
    → last_block fuel a (set_next h b v) ≡ last_block fuel a h
last_block-set_next zero a b v h xs s p f = absurd (omega arith)
last_block-set_next (suc fuel) a b v h [] s p f =
    last_block_end fuel a (set_next h b v) (update_ne h.next b a v p.0.1 ∙ s)
    ∙ sym (last_block_end fuel a h s)
last_block-set_next (suc fuel) a b v h (c ∷ xs) s p f =
    let e : (set_next h b v).next a ≡ c = update_ne h.next b a v p.0.1 ∙ s.0 in
    last_block_step fuel a (set_next h b v) (rw e p.1.0.0)
    ∙ rw (e, last_block_step fuel a h (rw s.0 p.1.0.0), s.0)
        (last_block-set_next fuel c b v h xs s.1 p.1 (omega arith))
