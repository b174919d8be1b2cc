-- ===== src/FileMachine/Transfer/Written.antt =====
-- What `file_write` stores in a file.
use bingewatch.Prelude.{
  ℕ, zero, suc, ◌+◌, ◌-◌, ◌%◌, ◌≤◌, ◌<◌, ◌≡◌, ◌≢◌, refl, sym, ap, ◌∙◌, true, false, some, List,
  ◌++◌, append_assoc, append-nil, take, drop, length, length-take, length-drop, take-take, take_add,
  arith, ◌==◌, add_size, sub_size, size_mod, if-true, if-false, ◌>>=◌,
}
use bingewatch.Status.{Status}
use bingewatch.FileMachine.{FileSystem, FileDesc}
use bingewatch.FileMachine.Disk.{Contents, FileNames, Disk, Room}
use bingewatch.FileMachine.Open.{Mode, Opened, open_file}
use bingewatch.FileMachine.Open.Opening.{open_file_open}
use bingewatch.FileMachine.Transfer.{file_write_loop, write_done, write_opened, file_write}

-- What is stored by one call and by the rest of the loop.
split :
    (b n : ℕ) (c ptr : List ℕ)
    → b ≤ suc n
    → (c ++ take b (take (suc n) ptr)) ++ take (suc n - b) (drop b ptr) ≡ c ++ take (suc n) ptr
split b n c ptr le = rw (take-take b (suc n) ptr le) (
    append_assoc c (take b ptr) (take (suc n - b) (drop b ptr))
    ∙ ap (λ l. c ++ l) (sym (take_add b (suc n - b) (suc n) ptr (omega (arith, le)))))

module _ {W : Type 0} (sys : FileSystem W) (content : Contents W) (file : FileNames W)
    (room : Room sys content file) where
  file_write_loop_next :
      (fuel f : ℕ) (w : W) (ptr : List ℕ) (n total b n' total' : ℕ)
      → (n == 0) ≡ false
      → (sys.write w f (take n ptr)).0 ≡ b
      → sub_size n b ≡ n'
      → add_size total b ≡ total'
      → file_write_loop sys (suc fuel) f w ptr n total
        ≡ file_write_loop sys fuel f (sys.write w f (take n ptr)).1 (drop b ptr) n' total'
  unfolding file_write_loop
  file_write_loop_next fuel f w ptr n total b n' total' nz took left sum =
      rw (file_write_loop, nz, took, left, sum) refl

  -- `w'` is `w` with `more` behind what the file `p` holds.
  abbrev pub Stored : W → (p c more : List ℕ) → W → Type 0
  Stored w p c more w' =
      (content w' p ≡ some (c ++ more)) × ((q : List ℕ) → q ≢ p → content w' q ≡ content w q)

  pub file_write_loop_lem :
      (fuel f : ℕ) (w : W) (ptr : List ℕ) (n total : ℕ) (p c : List ℕ)
      → file w f ≡ some p
      → content w p ≡ some c
      → n ≤ length ptr
      → n < fuel
      → total + n < size_mod
      → (w' : W) × (file_write_loop sys fuel f w ptr n total ≡ some (total + n, w'))
        × Stored w p c (take n ptr) w'
  unfolding file_write_loop
  file_write_loop_lem zero f w ptr n total p c at holds le enough fits =
      absurd (omega (arith, enough))
  file_write_loop_lem (suc fuel) f w ptr zero total p c at holds le enough fits =
      let same : total + 0 ≡ total = omega arith in
      (
        w,
        ap (λ t. some (t, w)) (sym same),
        (holds ∙ ap (λ l. some l) (sym (append-nil c)), λ q other. refl),
      )
  file_write_loop_lem (suc fuel) f w ptr (suc n) total p c at holds le enough fits =
      let given = take (suc n) ptr in
      let r = sys.write w f given in
      let b = r.0 in
      let full : length given ≡ suc n = omega (arith, length-take (suc n) ptr, le) in
      let pos : 0 < b = room.some_bytes w f given (omega (arith, full)) in
      let most : b ≤ suc n = omega (arith, room.at_most w f given, full) in
      let (w', ran, (all, others)) =
        file_write_loop_lem fuel f r.1 (drop b ptr) (suc n - b) (total + b) p (c ++ take b given)
          (room.same_file w f given ∙ at) (room.stored w f given p c at holds)
          (omega (arith, length-drop b ptr, le)) (omega (arith, pos, enough))
          (omega (arith, most, fits)) in
      (
        w',
        file_write_loop_next fuel f w ptr (suc n) total b (suc n - b) (total + b) (ground arith)
              refl (omega (arith, most, fits)) (omega (arith, most, fits))
            ∙ ran
            ∙ ap {A = ℕ} (λ t. some (t, w')) (omega (arith, most)),
        (
          all ∙ ap (λ l. some l) (split b n c ptr most),
          λ q other. others q other ∙ room.other w f given p q at other,
        ),
      )

  write_opened_runs :
      (fuel : ℕ) (o : Opened W) (f : ℕ) (input : List ℕ) (align total : ℕ) (w' : W)
      → o.ok ≡ true
      → o.desc.fw ≡ some f
      → file_write_loop sys fuel f o.world input (length input - length input % align) 0
        ≡ some (total, w')
      → write_opened sys fuel o input align
        ≡ some (write_done sys o.desc (sys.flush w' f) input total)
  unfolding write_opened
  write_opened_runs fuel o f input align total w' ok open_ ran = ground (arith, ok, open_, ran)

  -- `file_write` behind `open_file`, where the file is rotated and where it is not.
  pub write_opened_lem :
      (disk : Disk sys content file) (fuel : ℕ) (o : Opened W) (f : ℕ) (p c input : List ℕ)
      (align : ℕ)
      → o.ok ≡ true
      → o.desc.fw ≡ some f
      → file o.world f ≡ some p
      → content o.world p ≡ some c
      → 0 < align
      → length input < fuel
      → length input < size_mod
      → let n = length input - length input % align in
        (w' : W) × (write_opened sys fuel o input align
          ≡ some (write_done sys o.desc (sys.flush w' f) input n))
        × Stored o.world p c (take n input) (sys.flush w' f)
  write_opened_lem disk fuel o f p c input align ok open_ at holds pos enough small =
      let n = length input - length input % align in
      let le : n ≤ length input = omega arith in
      let (w', ran, (all, others)) =
        file_write_loop_lem fuel f o.world input n 0 p c at holds le (omega (arith, le, enough))
          (omega (arith, le, small)) in
      (
        w',
        write_opened_runs fuel o f input align n w' ok open_
            (ran ∙ ap {A = ℕ} (λ t. some (t, w')) (omega arith)),
        (disk.flush w' f p ∙ all, λ q other. disk.flush w' f q ∙ others q other),
      )

  pub write_opened_next :
      (fuel : ℕ) (fd : FileDesc) (w : W) (o : Opened W) (input : List ℕ) (align : ℕ)
      → 0 < length input
      → fd.flags.write ≡ true
      → open_file sys fuel Mode.write fd w ≡ some o
      → file_write sys fuel fd w input align ≡ write_opened sys fuel o input align
  unfolding file_write
  write_opened_next fuel fd w o input align some_bytes write opened =
      if-false (length input == 0) _ _ (ground (arith, some_bytes))
      ∙ if-true fd.flags.write _ _ write
      ∙ ap (λ x. x >>= (λ o. write_opened sys fuel o input align)) opened

  not_rotated :
      (fd : FileDesc) (w : W) (input : List ℕ) (n : ℕ)
      → fd.flags.rotate ≡ false
      → write_done sys fd w input n
        ≡ record { desc = fd; status = Status.success; count = n; buf = input; world = w }
  unfolding write_done
  not_rotated fd w input n stay = ground (arith, stay)

  -- Where every `fwrite` stores at least one byte, a write of at least one byte to a file that is
  -- open and not rotated, with an alignment that is not 0, returns, given fuel for more calls than
  -- there are bytes: it stores the bytes behind those that the file holds, as many as make up whole
  -- alignments, tells how many these are, and leaves every other file and the descriptor as they
  -- were.
  pub file_write-open :
      (fuel : ℕ) (fd : FileDesc) (w : W) (f : ℕ) (p c input : List ℕ) (align : ℕ)
      → Disk sys content file
      → fd.flags.write ≡ true
      → fd.flags.rotate ≡ false
      → fd.fw ≡ some f
      → file w f ≡ some p
      → content w p ≡ some c
      → 0 < length input
      → 0 < align
      → length input < fuel
      → length input < size_mod
      → let n = length input - length input % align in
        (w' : W) × (file_write sys fuel fd w input align
          ≡ some
              (record { desc = fd; status = Status.success; count = n; buf = input; world = w' }))
        × (content w' p ≡ some (c ++ take n input))
        × ((q : List ℕ) → q ≢ p → content w' q ≡ content w q)
  file_write-open fuel fd w f p c input align disk write stay open_ at holds some_bytes pos enough
        small =
      let n = length input - length input % align in
      let o : Opened W = record { desc = fd; ok = true; world = w } in
      let (w', ran, (all, others)) =
        write_opened_lem disk fuel o f p c input align refl open_ at holds pos enough small in
      (
        sys.flush w' f,
        write_opened_next fuel fd w o input align some_bytes write
              (open_file_open sys fuel Mode.write fd w f open_)
            ∙ ran
            ∙ ap (λ r. some r) (not_rotated fd (sys.flush w' f) input n stay),
        all,
        others,
      )
