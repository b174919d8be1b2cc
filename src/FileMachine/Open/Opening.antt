-- ===== src/FileMachine/Open/Opening.antt =====
-- What `open_file` does with a file that is open, and with one that it creates.
use bingewatch.Prelude.{
  ℕ, ◌≤◌, ◌<◌, ◌≡◌, ◌≢◌, refl, sym, ◌∙◌, true, false, Option, none, some, List, [],
}
use bingewatch.FileMachine.{FileSystem, FileDesc, close_open, u32_mod}
use bingewatch.FileMachine.Dirs.{create_dir}
use bingewatch.FileMachine.Dirs.Kept.{create_dir_content}
use bingewatch.FileMachine.Disk.{Contents, FileNames, Disk}
use bingewatch.FileMachine.Names.{numbered_name}
use bingewatch.FileMachine.Open.{
  Mode, Opened, build_directory_path, open_file, open_new, selected, write_name,
}
use bingewatch.FileMachine.Open.Rotated.{write_name-free}

module _ {W : Type 0} (sys : FileSystem W) where
  pub open_file_open :
      (fuel : ℕ) (mode : Mode) (fd : FileDesc) (w : W) (f : ℕ)
      → selected mode fd ≡ some f
      → open_file sys fuel mode fd w ≡ some (record { desc = fd; ok = true; world = w })
  unfolding open_file
  open_file_open fuel mode fd w f open_ = rw (open_file, open_) refl

  open_file_new :
      (fuel : ℕ) (fd fd' : FileDesc) (w w' : W) (path : List ℕ)
      → fd.fw ≡ none
      → build_directory_path sys fuel fd w ≡ some (fd', path)
      → create_dir sys fuel w path ≡ some (true, w')
      → open_file sys fuel Mode.write fd w ≡ open_new sys fuel Mode.write fd' w' path
  unfolding open_file
  open_file_new fuel fd fd' w w' path closed built made = rw (open_file, closed, built, made) refl

  open_new_free :
      (fuel : ℕ) (fd : FileDesc) (w : W) (path name : List ℕ) (i f : ℕ)
      → write_name sys fuel fd (close_open sys fd.fr w) path
        ≡ some (record fd { file_index = i }, name)
      → (sys.open_write (close_open sys fd.fr w) name).0 ≡ some f
      → open_new sys fuel Mode.write fd w path
        ≡ some (record {
          desc = record fd { file_index = i; fw = some f };
          ok = true;
          world = (sys.open_write (close_open sys fd.fr w) name).1;
        })
  unfolding open_new
  open_new_free fuel fd w path name i f named opened = rw (open_new, named, opened) refl

  -- A file that `open_file` creates for writing with FFILE_ROTATE: nothing had its name.
  pub record Created (content : Contents W) (file : FileNames W) (fd : FileDesc) (w : W)
      (before : W) (name : List ℕ) (o : Opened W) : Type 0 where
    pub ok : o.ok ≡ true
    pub handle : ℕ
    pub opened : (sys.open_write before name).0 ≡ some handle
    pub open_ : o.desc.fw ≡ some handle
    pub number : ℕ
    pub desc : o.desc ≡ record fd { file_index = number; fw = some handle }
    pub at : file o.world handle ≡ some name
    pub fresh : content w name ≡ none
    pub blank : content o.world name ≡ some []
    pub others : (q : List ℕ) → q ≢ name → content o.world q ≡ content w q

  close_open_content :
      (content : Contents W) (file : FileNames W)
      → Disk sys content file
      → (f : Option ℕ) (w : W) (q : List ℕ) → content (close_open sys f w) q ≡ content w q
  unfolding close_open
  close_open_content content file disk none w q = refl
  close_open_content content file disk (some f) w q = disk.close w f q

  pub open_file-Created :
      (content : Contents W) (file : FileNames W) (fuel : ℕ) (fd fd' : FileDesc) (w w' : W)
      (path : List ℕ) (limit : ℕ)
      → Disk sys content file
      → fd.fw ≡ none
      → build_directory_path sys fuel fd w ≡ some (fd', path)
      → create_dir sys fuel w path ≡ some (true, w')
      → fd'.flags.rotate ≡ true
      → 1 ≤ limit
      → limit ≤ fuel
      → limit < u32_mod
      → sys.exists (close_open sys fd'.fr w') (numbered_name fd' path limit) ≡ false
      → ((name : List ℕ) → (f : ℕ) × ((sys.open_write (close_open sys fd'.fr w') name).0 ≡ some f))
      → (name : List ℕ) × (o : Opened W) × (open_file sys fuel Mode.write fd w ≡ some o)
        × Created content file fd' w (close_open sys fd'.fr w') name o
  open_file-Created content file fuel fd fd' w w' path limit disk closed built made rotate from
        enough small free can_open =
      let w2 = close_open sys fd'.fr w' in
      let (i, name, named, absent) =
        write_name-free sys fuel fd' w2 path limit rotate from enough small free in
      let (f, opened) = can_open name in
      let as_before = λ (q : List ℕ).
        close_open_content content file disk fd'.fr w' q
        ∙ create_dir_content sys content disk.mkdir fuel w path (true, w') q made in
      let stored = disk.opened w2 name f opened in
      (
        name,
        record {
          desc = record fd' { file_index = i; fw = some f };
          ok = true;
          world = (sys.open_write w2 name).1;
        },
        open_file_new fuel fd fd' w w' path closed built made
            ∙ open_new_free fuel fd' w' path name i f named opened,
        record {
          ok = refl;
          handle = f;
          opened = opened;
          open_ = refl;
          number = i;
          desc = refl;
          at = stored.1;
          fresh = sym (as_before name) ∙ disk.absent w2 name absent;
          blank = stored.0;
          others = λ q other. disk.open_other w2 name q other ∙ as_before q;
        },
      )
