-- ===== src/FileMachine/Dirs.antt =====
-- `create_dir` of src/file-machine.c: a directory is made with the directories above it.
pub mod Made
pub mod Kept
use bingewatch.Prelude.{
  ℕ, zero, suc, Bool, true, false, Option, none, some, List, [], ◌∷◌, ◌==◌, if◌then◌else◌, ◌>>=◌,
}
use bingewatch.FileMachine.{FileSystem, slash}

-- What stands before the last `/`, as `strrchr` finds it.
pub before_last : List ℕ → Option (List ℕ)
before_last [] = none
before_last (c ∷ cs) = elim (before_last cs) [
  | some p ↦ some (c ∷ p)
  | none ↦ if c == slash then some [] else none
]

-- The directory above, `none` where there is no `/` or only a first one. The test for a trailing
-- `/` looks at the terminating 0, so it changes nothing.
pub parent : List ℕ → Option (List ℕ)
unfolding before_last
parent dir = elim (before_last dir) [ none ↦ none | some [] ↦ none | some (c ∷ p) ↦ some (c ∷ p) ]

module _ {W : Type 0} (sys : FileSystem W) where
  -- `create_dir`: whether it answers 0. Fuel: the depth of the recursion.
  unfoldable pub create_dir : ℕ → W → List ℕ → Option (Bool × W)
  unfolding parent
  create_dir zero w dirname = none
  create_dir (suc fuel) w dirname =
      let made = sys.mkdir w dirname in
      if sys.is_dir w dirname
      then some (true, w)
      else if made.0
      then some (true, made.1)
      else elim (parent dirname) [
        | none ↦ some (false, made.1)
        | some dir ↦
            create_dir fuel made.1 dir
            >>= (λ r. if r.0 then some (sys.mkdir r.1 dirname) else some (false, r.1))
      ]
