-- ===== src/FileMachine/Open.antt =====
-- `build_directory_path` and `open_file` of src/file-machine.c.
pub mod Rotated
pub mod Opening
use bingewatch.Prelude.{
  ℕ, ◌+◌, ◌%◌, Bool, true, false, Option, none, some, List, ◌∷◌, if◌then◌else◌, ◌>>=◌,
}
use bingewatch.Machine.{same_name}
use bingewatch.FileMachine.{
  FileSystem, FileDesc, basedir_of, close_open, max_dirlen, slash, snprintf, u32_mod,
}
use bingewatch.FileMachine.Dirs.{create_dir}
use bingewatch.FileMachine.Names.{build_basedir, first_free, numbered_name, plain_name, print_dir}

-- FFILE_READ and FFILE_WRITE as the argument `rw`.
pub data Mode : Type 0 where
  read write : Mode

-- What `open_file` leaves: the descriptor, whether it answers 0, and the world.
pub record Opened (W : Type 0) : Type 0 where
  pub desc : FileDesc
  pub ok : Bool
  pub world : W

-- The file that is selected by `rw`.
abbrev pub selected : Mode → FileDesc → Option ℕ
selected Mode.read fd = fd.fr
selected Mode.write fd = fd.fw

abbrev pub is_open : Option ℕ → Bool
is_open none = false
is_open (some f) = true

module _ {W : Type 0} (sys : FileSystem W) where
  -- The first part of `build_directory_path`: the root directory and the time.
  pub date_path : FileDesc → W → FileDesc × List ℕ
  date_path fd w =
      let root = snprintf max_dirlen fd.root_dir in
      let now = snprintf 32 (sys.strftime w fd.date_fmt) in
      let fd' : FileDesc =
        if same_name now fd.timestamp
        then fd
        else record fd { timestamp = now; basedir_index = none; file_index = 0 } in
      if fd.flags.auto_date then (fd', print_dir root (slash ∷ now)) else (fd, root)

  -- The second part: the numbered directory.
  pub rotated_path : ℕ → FileDesc → W → List ℕ → Option (FileDesc × List ℕ)
  unfolding basedir_of
  rotated_path fuel fd w path =
      let name = λ (i : ℕ). print_dir path (build_basedir fd.base_dir i) in
      if fd.flags.dir_rotate
      then elim fd.basedir_index [
        | some i ↦ some (fd, name i)
        | none ↦ (do
          i ← first_free (sys.exists w) name fuel 0
          some (record fd { basedir_index = basedir_of i }, name i))
      ]
      else some (fd, path)

  -- `build_directory_path`
  unfoldable pub build_directory_path : ℕ → FileDesc → W → Option (FileDesc × List ℕ)
  unfolding date_path rotated_path
  build_directory_path fuel fd w = let dated = date_path fd w in rotated_path fuel dated.0 w dated.1

  -- The name that `open_file` opens for writing, and the descriptor with its new number.
  pub write_name : ℕ → FileDesc → W → List ℕ → Option (FileDesc × List ℕ)
  write_name fuel fd w path =
      let fname =
        if fd.flags.index then numbered_name fd path fd.file_index else plain_name fd path in
      if fd.flags.rotate
      then (if sys.exists w fname
          then (do
            k ← first_free (sys.exists w) (numbered_name fd path) fuel 1
            some (
              if fd.flags.index then record fd { file_index = (k + 1) % u32_mod } else fd,
              numbered_name fd path k,
            ))
          else some (fd, fname))
      else some (fd, fname)

  -- The part of `open_file` that opens, by `rw`.
  pub open_new : ℕ → Mode → FileDesc → W → List ℕ → Option (Opened W)
  unfolding close_open write_name
  open_new fuel Mode.write fd w path =
      let w' = close_open sys fd.fr w in
      write_name fuel fd w' path >>= (λ x.
        let o = sys.open_write w' x.1 in
        some (record { desc = record x.0 { fw = o.0 }; ok = is_open o.0; world = o.1 }))
  open_new fuel Mode.read fd w path =
      let o = sys.open_read (close_open sys fd.fw w) (plain_name fd path) in
      some (record { desc = record fd { fr = o.0 }; ok = is_open o.0; world = o.1 })

  -- `open_file`. Fuel: the names tried in each search, and the depth of `create_dir`.
  pub open_file : ℕ → Mode → FileDesc → W → Option (Opened W)
  unfolding build_directory_path open_new
  open_file fuel mode fd w = elim (selected mode fd) [
    | some f ↦ some (record { desc = fd; ok = true; world = w })
    | none ↦ (do
      p ← build_directory_path fuel fd w
      c ← create_dir sys fuel w p.1
      (if c.0
          then open_new fuel mode p.0 c.1 p.1
          else some (record { desc = p.0; ok = false; world = c.1 })))
  ]
