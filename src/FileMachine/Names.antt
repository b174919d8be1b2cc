-- ===== src/FileMachine/Names.antt =====
-- The names that the file machine makes: of directories and of files, with their numbers.
pub mod Search
use bingewatch.Prelude.{
  ℕ, zero, suc, ◌+◌, ◌-◌, ◌/◌, ◌%◌, ◌^◌, Bool, true, false, Option, none, some, List, [], ◌∷◌, ◌++◌,
  length, replicate, ltb, if◌then◌else◌, sub_size,
}
use bingewatch.FileMachine.{FileDesc, max_dirlen, max_pathlen, slash, snprintf, u32_mod}

-- The decimal digits of `n`, before `rest`. Fuel: their number.
digits : ℕ → ℕ → List ℕ → List ℕ
digits zero n rest = rest
digits (suc fuel) n rest =
    let more = digits fuel (n / 10) ((48 + n % 10) ∷ rest) in
    if ltb n 10 then (48 + n) ∷ rest else more

-- `%05d` of a `uint32_t`, which has at most ten digits and is printed as an `int`.
unfoldable pub decimal5 : ℕ → List ℕ
unfolding digits
decimal5 n =
    if ltb n (2 ^ 31)
    then replicate (5 - length (digits 10 n [])) 48 ++ digits 10 n []
    else 45 ∷ (replicate (4 - length (digits 10 (u32_mod - n) [])) 48 ++ digits 10 (u32_mod - n) [])

-- `build_basedir`, what it prints.
pub build_basedir : Option (List ℕ) → ℕ → List ℕ
unfolding decimal5
build_basedir none index = slash ∷ decimal5 index
build_basedir (some basedir) index = slash ∷ basedir ++ (45 ∷ decimal5 index)

-- `(fd->file_ext) ? "." : ""` and the extension.
extension : Option (List ℕ) → List ℕ
extension none = []
extension (some ext) = 46 ∷ ext

-- The name of a file without a number, and with one.
pub plain_name : FileDesc → List ℕ → List ℕ
unfolding extension
plain_name fd path = snprintf max_pathlen (path ++ (slash ∷ fd.file_tag ++ extension fd.file_ext))

unfoldable pub numbered_name : FileDesc → List ℕ → ℕ → List ℕ
unfolding extension decimal5
numbered_name fd path index =
    snprintf max_pathlen
      (path ++ (slash ∷ fd.file_tag ++ (45 ∷ decimal5 index ++ extension fd.file_ext)))

-- The loop `while (stat(name) == 0) name = next(++index)` over the names `name`: the first index
-- from `index` on whose name is free. Fuel: the names that are tried.
pub first_free : (List ℕ → Bool) → (ℕ → List ℕ) → ℕ → ℕ → Option ℕ
first_free exists name zero index = none
first_free exists name (suc fuel) index =
    let rest = first_free exists name fuel ((index + 1) % u32_mod) in
    if exists (name index) then rest else some index

-- What `snprintf` prints behind `path` in the buffer of `build_directory_path`. The root
-- directory has at most 1023 bytes and the time at most 31, so only the last of the three texts
-- can be cut.
pub print_dir : List ℕ → List ℕ → List ℕ
print_dir path text = path ++ snprintf (max_dirlen - length path) text
