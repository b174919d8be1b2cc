-- ===== src/FileMachine.antt =====
-- src/file-machine.c: the file machine, which writes files that it may rotate, and reads them.
--
-- The file system and the clock are given by `FileSystem`, over a world `W`; a `FILE *` is a
-- number, and a call that fails gives `none` or `false`. Texts are lists of bytes without the
-- terminating 0. An operation takes the descriptor that `machine_get_desc` finds for the handle,
-- and is one atomic step, since it holds the descriptor's lock.
pub mod Dirs
pub mod Disk
pub mod Names
pub mod Open
pub mod Transfer
pub mod Samples
mod Tests
use bingewatch.Prelude.{
  ℕ, ◌+◌, ◌-◌, ◌%◌, ◌^◌, Bool, true, false, Option, none, some, List, [], ◌∷◌, ◌++◌, take, length,
  ltb, ◌==◌, if◌then◌else◌,
}

-- `stat(p) == 0`, and with `S_ISDIR`; `mkdir(p, 0755)`; `fopen` for writing and for reading;
-- `fclose`; `fwrite(ptr, 1, n)`; `fflush`; `fread(ptr, 1, n)`; `feof`; and `strftime` of the time
-- of `gettimeofday`, at most 63 bytes.
pub record FileSystem (W : Type 0) : Type 0 where
  pub exists : W → List ℕ → Bool
  pub is_dir : W → List ℕ → Bool
  pub mkdir : W → List ℕ → Bool × W
  pub open_write : W → List ℕ → Option ℕ × W
  pub open_read : W → List ℕ → Option ℕ × W
  pub close : W → ℕ → W
  pub write : W → ℕ → List ℕ → ℕ × W
  pub flush : W → ℕ → W
  pub read : W → ℕ → ℕ → List ℕ × W
  pub eof : W → ℕ → Bool
  pub strftime : W → List ℕ → List ℕ

-- The bits of `flags` that the code looks at, by the names of include/file-machine.h.
pub record Flags : Type 0 where
  pub read : Bool
  pub write : Bool
  pub rotate : Bool
  pub index : Bool
  pub dir_rotate : Bool
  pub auto_date : Bool

-- `struct file_desc_t`; `basedir_index` is `none` for BASEDIR_INDEX_NOINIT.
pub record FileDesc : Type 0 where
  pub root_dir : List ℕ
  pub base_dir : Option (List ℕ)
  pub file_tag : List ℕ
  pub file_ext : Option (List ℕ)
  pub timestamp : List ℕ
  pub date_fmt : List ℕ
  pub flags : Flags
  pub basedir_index : Option ℕ
  pub file_index : ℕ
  pub fr : Option ℕ
  pub fw : Option ℕ

-- A `uint32_t`.
abbrev pub u32_mod : ℕ
u32_mod = 2 ^ 32

abbrev pub slash : ℕ
slash = 47

-- FILE_IOM_MAX_STRLEN, FILE_IOM_MAX_DIRLEN, FILE_IOM_MAX_PATHLEN
abbrev pub max_strlen : ℕ
max_strlen = 1024

abbrev pub max_dirlen : ℕ
max_dirlen = 2048

abbrev pub max_pathlen : ℕ
max_pathlen = 4096

-- What `snprintf` stores in `n` bytes.
abbrev pub snprintf : ℕ → List ℕ → List ℕ
snprintf n text = take (n - 1) text

-- `set_input_str`, whose allocations are left out.
pub set_input_str : List ℕ → List ℕ
set_input_str src =
    let len = length src + 1 in snprintf (if ltb max_strlen len then max_strlen else len) src

-- `init_basedir`
pub init_basedir : FileDesc → Option (List ℕ) → FileDesc
unfolding set_input_str
init_basedir fd none = record fd { basedir_index = none }
init_basedir fd (some basedir) = record fd {
  base_dir = some (set_input_str basedir);
  basedir_index = none;
}

-- TIMESTAMP_FMT, "%Y/%m/%d/%H"
abbrev pub timestamp_fmt : List ℕ
timestamp_fmt = 37 ∷ 89 ∷ 47 ∷ 37 ∷ 109 ∷ 47 ∷ 37 ∷ 100 ∷ 47 ∷ 37 ∷ 72 ∷ []

-- `struct fileiom_args`; the root directory is one that every caller gives.
pub record FileArgs : Type 0 where
  pub fname : List ℕ
  pub flags : Flags
  pub root_dir : List ℕ
  pub base_dir : Option (List ℕ)
  pub ext : Option (List ℕ)

file_ext_of : Option (List ℕ) → Option (List ℕ)
unfolding set_input_str
file_ext_of none = none
file_ext_of (some ext) = some (set_input_str ext)

-- What `create_file` stores in the descriptor that it registers.
pub create_desc : FileArgs → FileDesc
unfolding set_input_str init_basedir file_ext_of
create_desc args =
    record (init_basedir
      (record {
        root_dir = set_input_str args.root_dir;
        base_dir = none;
        file_tag = set_input_str args.fname;
        file_ext = file_ext_of args.ext;
        timestamp = [];
        date_fmt = timestamp_fmt;
        flags = args.flags;
        basedir_index = none;
        file_index = 0;
        fr = none;
        fw = none;
      })
      args.base_dir) { file_index = 0 }

-- `file_iom_set_flags`, `file_iom_set_auto_rotate`, `file_iom_set_auto_date`,
-- `file_iom_set_auto_date_fmt`, `file_iom_set_rootdir`
pub file_iom_set_flags : FileDesc → Flags → FileDesc
file_iom_set_flags fd flags = record fd { flags = flags }

pub file_iom_set_auto_rotate : FileDesc → FileDesc
file_iom_set_auto_rotate fd = record fd { flags = record fd.flags { rotate = true; index = true } }

pub file_iom_set_auto_date : FileDesc → FileDesc
file_iom_set_auto_date fd = record fd { flags = record fd.flags { auto_date = true } }

pub file_iom_set_auto_date_fmt : FileDesc → List ℕ → FileDesc
file_iom_set_auto_date_fmt fd fmt = record fd { date_fmt = fmt }

pub file_iom_set_rootdir : FileDesc → List ℕ → FileDesc
unfolding set_input_str
file_iom_set_rootdir fd root_dir = record fd { root_dir = set_input_str root_dir }

-- What `file_rotate_filter` and `file_dir_rotate_filter` set in the descriptor.
pub file_rotate_filter : FileDesc → FileDesc
file_rotate_filter fd = record fd { flags = record fd.flags { index = true }; file_index = 0 }

pub file_dir_rotate_filter : FileDesc → Option (List ℕ) → FileDesc
unfolding init_basedir
file_dir_rotate_filter fd basedir =
    record (init_basedir
      (record fd { flags = record fd.flags { rotate = true; dir_rotate = true } }) basedir) {
        file_index = 0;
      }

-- BASEDIR_INDEX_NOINIT is 2^32 - 1, which one more makes 0.
pub basedir_of : ℕ → Option ℕ
basedir_of i = if i == u32_mod - 1 then none else some i

next_basedir : Option ℕ → Option ℕ
unfolding basedir_of
next_basedir none = some 0
next_basedir (some i) = basedir_of ((i + 1) % u32_mod)

module _ {W : Type 0} (sys : FileSystem W) where
  -- `fclose` of a file that is open.
  unfoldable pub close_open : Option ℕ → W → W
  close_open none w = w
  close_open (some f) w = sys.close w f

  -- `rotate_wfile`
  pub rotate_wfile : FileDesc → W → FileDesc × W
  unfolding close_open
  rotate_wfile fd w = (
    record fd {
      fw = none;
      file_index = if fd.flags.index then (fd.file_index + 1) % u32_mod else fd.file_index;
    },
    close_open fd.fw w,
  )

  -- `rotate_basedir`
  pub rotate_basedir : FileDesc → W → FileDesc × W
  unfolding close_open next_basedir
  rotate_basedir fd w = (
    record fd { fw = none; file_index = 0; basedir_index = next_basedir fd.basedir_index },
    close_open fd.fw w,
  )

  -- `file_iom_set_filetag`
  pub file_iom_set_filetag : FileDesc → W → List ℕ → FileDesc × W
  unfolding rotate_wfile set_input_str
  file_iom_set_filetag fd w file_tag =
      let (fd', w') = rotate_wfile fd w in
      (record fd' { file_tag = set_input_str file_tag; file_index = 0 }, w')

  -- What `destroy_file` does before `machine_destroy_desc`.
  pub destroy_file : FileDesc → W → W
  unfolding close_open
  destroy_file fd w = close_open fd.fw (close_open fd.fr w)
