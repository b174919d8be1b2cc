-- ===== src/Block/Tests.antt =====
-- Lists of blocks at concrete heaps, and the theorems at them.
use bingewatch.Prelude.{
  ℕ, ◌+◌, ◌*◌, ◌≤◌, ◌≡◌, refl, inl, true, suc, ◌==◌, if◌then◌else◌, [], ◌∷◌, length, arith,
}
use bingewatch.Block.{Heap, Grants, zeroed, block_data_fastalloc}
use bingewatch.Block.Carve.{Carved, block_data_fastalloc-Carved}

abbrev grants : Grants
grants a = record { sysinfo = true; freeram = 50; pcalloc = true; palloc = true; fill = 3 }

-- Blocks 6, 7 and 8 in a list.
abbrev three : Heap
three = record { next = λ a. if a == 8 then 0 else a + 1; cell = λ a. zeroed; fresh = 9 }

-- There is room for two of the three blocks.
block_data_fastalloc-Carved_example :
    let r = block_data_fastalloc grants 6 20 three in
    (k : ℕ) × (k ≤ length {A = ℕ} (7 ∷ 8 ∷ []))
    × (r.0 ≡ suc k * 20)
    × Carved 20 3 (suc k) 6 0 (7 ∷ 8 ∷ []) three r.1
block_data_fastalloc-Carved_example =
    block_data_fastalloc-Carved grants 6 20 three (7 ∷ 8 ∷ []) 0
      (record {
        sysinfo = refl;
        pcalloc = refl;
        palloc = refl;
        enough = omega arith;
        no_wrap = omega arith;
      })
      (omega arith) (refl, (refl, refl)) (omega arith) (inl refl) (omega arith) (omega arith)
