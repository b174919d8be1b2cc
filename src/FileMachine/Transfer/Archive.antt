-- ===== src/FileMachine/Transfer/Archive.antt =====
-- A write to a file machine that rotates makes a file of its own.
use bingewatch.Prelude.{
  ℕ, ◌-◌, ◌%◌, ◌≤◌, ◌<◌, ◌≡◌, ◌≢◌, refl, ap, ◌∙◌, true, false, none, some, List, [], take, length,
  arith, size_mod,
}
use bingewatch.Status.{Status}
use bingewatch.FileMachine.{FileSystem, FileDesc, close_open, rotate_wfile, u32_mod}
use bingewatch.FileMachine.Dirs.{create_dir}
use bingewatch.FileMachine.Disk.{Contents, FileNames, Disk, Room}
use bingewatch.FileMachine.Names.{numbered_name}
use bingewatch.FileMachine.Open.{build_directory_path}
use bingewatch.FileMachine.Open.Opening.{open_file-Created}
use bingewatch.FileMachine.Transfer.{FileReply, write_done, file_write}
use bingewatch.FileMachine.Transfer.Written.{write_opened_lem, write_opened_next}

module _ {W : Type 0} (sys : FileSystem W) (content : Contents W) (file : FileNames W) where
  -- The end of a write that rotates: `fclose` on the file is the last call, and the descriptor has
  -- no file.
  Closes : ℕ → W → ℕ → FileReply W → Type 0
  Closes f w n r =
      (r.status ≡ Status.success)
      × (r.count ≡ n)
      × (r.desc.fw ≡ none)
      × (r.world ≡ sys.close w f)
      × ((q : List ℕ) → content r.world q ≡ content w q)

  write_done_rotated :
      (fd : FileDesc) (f : ℕ) (w : W) (input : List ℕ) (n : ℕ)
      → fd.flags.rotate ≡ true
      → fd.fw ≡ some f
      → write_done sys fd w input n ≡ record {
        desc = record fd { fw = none; file_index = (rotate_wfile sys fd w).0.file_index };
        status = Status.success;
        count = n;
        buf = input;
        world = sys.close w f;
      }
  unfolding write_done rotate_wfile close_open
  write_done_rotated fd f w input n rotate open_ = ground (arith, rotate, open_)

  write_done-Closes :
      Disk sys content file
      → (fd : FileDesc) (f : ℕ) (w : W) (input : List ℕ) (n : ℕ) → fd.flags.rotate ≡ true
      → fd.fw ≡ some f
      → Closes f w n (write_done sys fd w input n)
  unfolding Closes
  write_done-Closes disk fd f w input n rotate open_ =
      rw (write_done_rotated fd f w input n rotate open_) (refl, refl, refl, refl, disk.close w f)

  -- With FFILE_ROTATE and no file open, where the directory can be had, some number up to `limit`
  -- is free and every name can be opened, a write of at least one byte returns, given room on the
  -- disk and fuel for the names and the bytes: it makes one file, under a name that no file had,
  -- which holds the bytes, as many as make up whole alignments, and changes no other file. The
  -- last call is `fclose` on what `fopen` answered for that name, and the descriptor has no file.
  pub file_write-rotated :
      (fuel : ℕ) (fd fd' : FileDesc) (w w' : W) (path : List ℕ) (limit : ℕ) (input : List ℕ)
      (align : ℕ)
      → Disk sys content file
      → Room sys content file
      → fd.flags.write ≡ true
      → fd.fw ≡ none
      → build_directory_path sys fuel fd w ≡ some (fd', path)
      → create_dir sys fuel w path ≡ some (true, w')
      → fd'.flags.rotate ≡ true
      → 1 ≤ limit
      → limit ≤ fuel
      → limit < u32_mod
      → sys.exists (close_open sys fd'.fr w') (numbered_name fd' path limit) ≡ false
      → ((name : List ℕ) → (f : ℕ) × ((sys.open_write (close_open sys fd'.fr w') name).0 ≡ some f))
      → 0 < length input
      → 0 < align
      → length input < fuel
      → length input < size_mod
      → let n = length input - length input % align in
        (r : FileReply W) × (name : List ℕ) × (file_write sys fuel fd w input align ≡ some r)
        × (r.status ≡ Status.success)
        × (r.count ≡ n)
        × (r.desc.fw ≡ none)
        × (content w name ≡ none)
        × ((f : ℕ) × (v : W) × ((sys.open_write (close_open sys fd'.fr w') name).0 ≡ some f)
            × (r.world ≡ sys.close v f))
        × (content r.world name ≡ some (take n input))
        × ((q : List ℕ) → q ≢ name → content r.world q ≡ content w q)
  unfolding Closes
  file_write-rotated fuel fd fd' w w' path limit input align disk room write closed built made
        rotate from enough small free can_open some_bytes pos fuel_enough fits =
      let n = length input - length input % align in
      let (name, o, opened, new) =
        open_file-Created sys content file fuel fd fd' w w' path limit disk closed built made rotate
          from enough small free can_open in
      let (w'', ran, (all, others)) =
        write_opened_lem sys content file room disk fuel o new.handle name [] input align new.ok
          new.open_ new.at new.blank pos fuel_enough fits in
      let f = new.handle in
      let (good, count, shut, last, kept) =
        write_done-Closes disk o.desc f (sys.flush w'' f) input n
          (ap (λ (d : FileDesc). d.flags.rotate) new.desc ∙ rotate) new.open_ in
      (
        write_done sys o.desc (sys.flush w'' f) input n,
        name,
        write_opened_next sys content file room fuel fd w o input align some_bytes write opened
            ∙ ran,
        good,
        count,
        shut,
        new.fresh,
        (f, sys.flush w'' f, new.opened, last),
        kept name ∙ all,
        λ q other. kept q ∙ others q other ∙ new.others q other,
      )
