-- ===== src/FileMachine/Transfer/Full.antt =====
-- A write to a file machine whose disk is full.
use bingewatch.Prelude.{
  ℕ, zero, suc, ◌-◌, ◌%◌, ◌≤◌, ◌<◌, ◌≡◌, refl, ap, ◌∙◌, true, false, none, some, List, take, length,
  arith, ◌==◌, add_size, sub_size, size_mod, if-true, if-false, ◌>>=◌,
}
use bingewatch.FileMachine.{FileSystem, FileDesc}
use bingewatch.FileMachine.Open.{Mode, Opened}
use bingewatch.FileMachine.Open.Opening.{open_file_open}
use bingewatch.FileMachine.Transfer.{file_write_loop, write_opened, file_write}

module _ {W : Type 0} (sys : FileSystem W)
    (full : (w : W) (f : ℕ) (ptr : List ℕ) → (sys.write w f ptr).0 ≡ 0) where
  file_write_loop_full :
      (fuel f : ℕ) (w : W) (ptr : List ℕ) (n total : ℕ)
      → 0 < n
      → n < size_mod
      → file_write_loop sys fuel f w ptr n total ≡ none
  unfolding file_write_loop
  file_write_loop_full zero f w ptr n total pos small = refl
  file_write_loop_full (suc fuel) f w ptr n total pos small =
      let nz : (n == 0) ≡ false = ground (arith, pos) in
      let same : sub_size n 0 ≡ n = omega (arith, small) in
      rw (file_write_loop, nz, full w f (take n ptr), same)
        (file_write_loop_full fuel f (sys.write w f (take n ptr)).1 ptr n (add_size total 0) pos
          small)

  -- Where `fwrite` stores nothing, as on a full disk, a write of a whole alignment or more to a
  -- file that is open does not return, however long it runs.
  pub file_write-full :
      (fuel : ℕ) (fd : FileDesc) (w : W) (f : ℕ) (input : List ℕ) (align : ℕ)
      → fd.flags.write ≡ true
      → fd.fw ≡ some f
      → 0 < align
      → align ≤ length input
      → length input < size_mod
      → file_write sys fuel fd w input align ≡ none
  unfolding file_write write_opened
  file_write-full fuel fd w f input align write open_ pos enough small =
      let n = length input - length input % align in
      let some_left : 0 < n = grind (arith, pos, enough) in
      let o : Opened W = record { desc = fd; ok = true; world = w } in
      if-false (length input == 0) _ _ (ground (arith, pos, enough))
      ∙ if-true fd.flags.write _ _ write
      ∙ ap (λ x. x >>= (λ o. write_opened sys fuel o input align))
          (open_file_open sys fuel Mode.write fd w f open_)
      ∙ rw (open_, file_write_loop_full fuel f w input n 0 some_left (omega (arith, small))) refl
