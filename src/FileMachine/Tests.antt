-- ===== src/FileMachine/Tests.antt =====
-- The theorems on the file machine at small file systems.
use bingewatch.Prelude.{
  ℕ, ◌+◌, ◌-◌, ◌%◌, ◌≡◌, ◌≢◌, refl, Bool, true, false, none, some, List, [], ◌∷◌, ◌++◌, take, drop,
  length, min, leb, if◌then◌else◌, arith,
}
use bingewatch.Status.{Status}
use bingewatch.Machine.{same_name}
use bingewatch.FileMachine.{FileDesc, Flags, close_open, rotate_wfile}
use bingewatch.FileMachine.Dirs.{create_dir}
use bingewatch.FileMachine.Dirs.Made.{create_dir-is_dir}
use bingewatch.FileMachine.Names.{decimal5, numbered_name}
use bingewatch.FileMachine.Names.Search.{IsFirst}
use bingewatch.FileMachine.Open.{build_directory_path, write_name}
use bingewatch.FileMachine.Open.Rotated.{write_name-rotate_wfile}
use bingewatch.FileMachine.Samples.{
  Files, files, files-Disk, files-Room, full_disk, held_in, left_of, one_dir, one_dir-Directories,
  one_file, one_file-Readable, opened_as,
}
use bingewatch.FileMachine.Transfer.{FileReply, file_read, file_write}
use bingewatch.FileMachine.Transfer.Archive.{file_write-rotated}
use bingewatch.FileMachine.Transfer.Full.{file_write-full}
use bingewatch.FileMachine.Transfer.Gotten.{file_read-open}
use bingewatch.FileMachine.Transfer.Written.{file_write-open}

-- "a/b"
abbrev below : List ℕ
below = 97 ∷ 47 ∷ 98 ∷ []

create_dir-is_dir_example :
    (r : Bool × Bool) × (create_dir one_dir 4 false below ≡ some r)
    × (r.0 ≡ true → r.1 ≡ true)
    × ((q : List ℕ) → false ≡ true → r.1 ≡ true)
create_dir-is_dir_example =
    create_dir-is_dir one_dir one_dir-Directories 4 false below (omega arith)

abbrev flags_rotate : Flags
flags_rotate = record {
  read = false;
  write = true;
  rotate = true;
  index = true;
  dir_rotate = false;
  auto_date = false;
}

-- "t" in "d"
abbrev rotating : FileDesc
rotating = record {
  root_dir = 100 ∷ [];
  base_dir = none;
  file_tag = 116 ∷ [];
  file_ext = none;
  timestamp = [];
  date_fmt = [];
  flags = flags_rotate;
  basedir_index = none;
  file_index = 0;
  fr = none;
  fw = none;
}

seven : decimal5 7 ≡ 48 ∷ 48 ∷ 48 ∷ 48 ∷ 55 ∷ []
unfolding decimal5
seven = refl

abbrev nothing_held : Files
nothing_held = record { held = λ p. none; current = none }

abbrev input : List ℕ
input = 1 ∷ 2 ∷ 3 ∷ 4 ∷ 5 ∷ []

file_write-rotated_example :
    (r : FileReply Files) × (name : List ℕ) × (file_write files 9 rotating nothing_held input 2
      ≡ some r)
    × (r.status ≡ Status.success)
    × (r.count ≡ length input - length input % 2)
    × (r.desc.fw ≡ none)
    × (nothing_held.held name ≡ none)
    × ((f : ℕ) × (v : Files) × ((files.open_write nothing_held name).0 ≡ some f)
        × (r.world ≡ files.close v f))
    × (r.world.held name ≡ some (take (length input - length input % 2) input))
    × ((q : List ℕ) → q ≢ name → r.world.held q ≡ none)
unfolding build_directory_path create_dir close_open
file_write-rotated_example =
    file_write-rotated files held_in opened_as 9 rotating rotating nothing_held nothing_held
      (100 ∷ []) 1 input 2 files-Disk files-Room refl refl refl refl refl (omega arith)
      (omega arith) (omega arith) refl (λ name. (7, refl)) (omega arith) (omega arith) (omega arith)
      (omega arith)

-- The file "d/t-00000" is there, and no other.
abbrev taken_name : List ℕ
taken_name = 100 ∷ 47 ∷ 116 ∷ 45 ∷ 48 ∷ 48 ∷ 48 ∷ 48 ∷ 48 ∷ []

abbrev first_held : Files
first_held = record { held = λ p. if same_name p taken_name then some [] else none; current = none }

write_name-rotate_wfile_example :
    (k : ℕ) × (fd' : FileDesc) × (write_name files 3 rotating first_held (100 ∷ [])
      ≡ some (fd', numbered_name rotating (100 ∷ []) k))
    × IsFirst (files.exists first_held) (numbered_name rotating (100 ∷ [])) 1 k
    × ((w' : Files) → (rotate_wfile files fd' w').0.file_index ≡ k + 2)
unfolding numbered_name same_name
write_name-rotate_wfile_example =
    write_name-rotate_wfile files 3 rotating first_held (100 ∷ []) 1 refl refl (omega arith)
      (omega arith) (omega arith) refl refl

abbrev appending : FileDesc
appending = record rotating { flags = record flags_rotate { rotate = false }; fw = some 7 }

abbrev one_held : Files
one_held = record { held = λ p. some (9 ∷ []); current = some (116 ∷ []) }

file_write-open_example :
    (w' : Files) × (file_write files 9 appending one_held input 2
      ≡ some (record {
        desc = appending;
        status = Status.success;
        count = length input - length input % 2;
        buf = input;
        world = w';
      }))
    × (w'.held (116 ∷ []) ≡ some ((9 ∷ []) ++ take (length input - length input % 2) input))
    × ((q : List ℕ) → q ≢ 116 ∷ [] → w'.held q ≡ some (9 ∷ []))
file_write-open_example =
    file_write-open files held_in opened_as files-Room 9 appending one_held 7 (116 ∷ []) (9 ∷ [])
      input 2 files-Disk refl refl refl refl refl (omega arith) (omega arith) (omega arith)
      (omega arith)

file_write-full_example : file_write full_disk 9 appending one_held input 2 ≡ none
file_write-full_example =
    file_write-full full_disk (λ w f ptr. refl) 9 appending one_held 7 input 2 refl refl
      (omega arith) (omega arith) (omega arith)

abbrev reading : FileDesc
reading = record rotating { flags = record flags_rotate { read = true }; fr = some 7 }

file_read-open_example :
    (w' : List ℕ) × (file_read one_file 9 reading input (0 ∷ 0 ∷ 0 ∷ 0 ∷ 0 ∷ 0 ∷ 0 ∷ []) 7 2
      ≡ some (record {
        desc = reading;
        status = if leb (7 - 7 % 2) (length input) then Status.success else Status.complete;
        count = min (7 - 7 % 2) (length input);
        buf =
            take (7 - 7 % 2) input
            ++ drop (length (take (7 - 7 % 2) input)) (0 ∷ 0 ∷ 0 ∷ 0 ∷ 0 ∷ 0 ∷ 0 ∷ []);
        world = w';
      }))
    × (w' ≡ drop (7 - 7 % 2) input)
file_read-open_example =
    file_read-open one_file left_of one_file-Readable 9 reading input 7
      (0 ∷ 0 ∷ 0 ∷ 0 ∷ 0 ∷ 0 ∷ 0 ∷ []) 7 2 refl refl (omega arith) (omega arith) (omega arith)
