-- ===== src/FileMachine/Open/Rotated.antt =====
-- With FFILE_ROTATE a write opens a name that is free.
use bingewatch.Prelude.{
  ℕ, ◌+◌, ◌%◌, ◌≤◌, ◌<◌, ◌≡◌, ap, ◌∙◌, inl, inr, true, false, some, List, arith, if◌then◌else◌,
  Bool-cases,
}
use bingewatch.FileMachine.{FileSystem, FileDesc, rotate_wfile, u32_mod}
use bingewatch.FileMachine.Names.{first_free, numbered_name, plain_name}
use bingewatch.FileMachine.Names.Search.{IsFirst, first_free-IsFirst}
use bingewatch.FileMachine.Open.{write_name}

-- The name that is tried first.
abbrev pub first_name : FileDesc → List ℕ → List ℕ
first_name fd path =
    if fd.flags.index then numbered_name fd path fd.file_index else plain_name fd path

-- The descriptor once the number `k` was taken.
abbrev pub numbered : FileDesc → ℕ → FileDesc
numbered fd k = if fd.flags.index then record fd { file_index = (k + 1) % u32_mod } else fd

module _ {W : Type 0} (sys : FileSystem W) where
  write_name_open :
      (fuel : ℕ) (fd : FileDesc) (w : W) (path : List ℕ)
      → sys.exists w (first_name fd path) ≡ false
      → write_name sys fuel fd w path ≡ some (fd, first_name fd path)
  unfolding write_name
  write_name_open fuel fd w path free = ground (arith, free)

  write_name_search :
      (fuel : ℕ) (fd : FileDesc) (w : W) (path : List ℕ) (k : ℕ)
      → fd.flags.rotate ≡ true
      → sys.exists w (first_name fd path) ≡ true
      → first_free (sys.exists w) (numbered_name fd path) fuel 1 ≡ some k
      → write_name sys fuel fd w path ≡ some (numbered fd k, numbered_name fd path k)
  unfolding write_name
  write_name_search fuel fd w path k rotate taken found = rw (found, taken) (ground (arith, rotate))

  -- The name that is opened with FFILE_ROTATE is free; the descriptor changes in its number only.
  pub write_name-free :
      (fuel : ℕ) (fd : FileDesc) (w : W) (path : List ℕ) (limit : ℕ)
      → fd.flags.rotate ≡ true
      → 1 ≤ limit
      → limit ≤ fuel
      → limit < u32_mod
      → sys.exists w (numbered_name fd path limit) ≡ false
      → (i : ℕ) × (name : List ℕ) × (write_name sys fuel fd w path
          ≡ some (record fd { file_index = i }, name))
        × (sys.exists w name ≡ false)
  write_name-free fuel fd w path limit rotate from enough small free =
      elim (Bool-cases (sys.exists w (first_name fd path))) [
        | inr open_ ↦
            (fd.file_index, first_name fd path, write_name_open fuel fd w path open_, open_)
        | inl taken ↦
            let (k, found, first, _) =
              first_free-IsFirst (sys.exists w) (numbered_name fd path) fuel 1 limit from
                (omega (arith, enough)) small free in
            (
              (numbered fd k).file_index,
              numbered_name fd path k,
              write_name_search fuel fd w path k rotate taken found
                  ∙ ap (λ d. some (d, numbered_name fd path k)) (ground arith),
              first.free,
            )
      ]

  first_taken :
      (fd : FileDesc) (w : W) (path : List ℕ)
      → fd.flags.index ≡ true
      → sys.exists w (numbered_name fd path fd.file_index) ≡ true
      → sys.exists w (first_name fd path) ≡ true
  first_taken fd w path index taken = ground (arith, index, taken)

  next_index :
      (fd : FileDesc) (w : W) (k : ℕ)
      → fd.flags.index ≡ true
      → k + 2 < u32_mod
      → (rotate_wfile sys (numbered fd k) w).0.file_index ≡ k + 2
  unfolding rotate_wfile
  next_index fd w k index small = ground (arith, index, small)

  -- With FFILE_ROTATE and FFILE_INDEX, where the name with the number of the descriptor is taken
  -- and some number up to `limit` is free, the write opens the first free number `k` from 1 on,
  -- and the number that it leaves for the next file is `k` + 2: `k` + 1 is left out.
  pub write_name-rotate_wfile :
      (fuel : ℕ) (fd : FileDesc) (w : W) (path : List ℕ) (limit : ℕ)
      → fd.flags.rotate ≡ true
      → fd.flags.index ≡ true
      → 1 ≤ limit
      → limit ≤ fuel
      → limit + 2 < u32_mod
      → sys.exists w (numbered_name fd path fd.file_index) ≡ true
      → sys.exists w (numbered_name fd path limit) ≡ false
      → (k : ℕ) × (fd' : FileDesc) × (write_name sys fuel fd w path
          ≡ some (fd', numbered_name fd path k))
        × IsFirst (sys.exists w) (numbered_name fd path) 1 k
        × ((w' : W) → (rotate_wfile sys fd' w').0.file_index ≡ k + 2)
  write_name-rotate_wfile fuel fd w path limit rotate index from enough small taken free =
      let (k, found, first, le) =
        first_free-IsFirst (sys.exists w) (numbered_name fd path) fuel 1 limit from
          (omega (arith, enough)) (omega (arith, small)) free in
      (
        k,
        numbered fd k,
        write_name_search fuel fd w path k rotate (first_taken fd w path index taken) found,
        first,
        λ w'. next_index fd w' k index (omega (arith, le, small)),
      )
