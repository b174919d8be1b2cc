-- ===== src/FileMachine/Dirs/Made.antt =====
-- What `create_dir` makes, and where it fails.
use bingewatch.Prelude.{
  ℕ, zero, suc, ◌+◌, ◌<◌, ◌≡◌, refl, ap, ◌∙◌, inl, inr, Bool, true, false, none, some, List, [],
  ◌∷◌, ◌++◌, length, arith, if◌then◌else◌, Bool-cases, Option-cases,
}
use bingewatch.FileMachine.{FileSystem, slash}
use bingewatch.FileMachine.Dirs.{before_last, parent, create_dir}

-- What the system keeps: a directory that was made is one, and those that there were stay.
pub record Directories {W : Type 0} (sys : FileSystem W) : Type 0 where
  pub made : (w : W) (p : List ℕ) → (sys.mkdir w p).0 ≡ true → sys.is_dir (sys.mkdir w p).1 p ≡ true
  pub stay : (w : W) (p q : List ℕ) → sys.is_dir w q ≡ true → sys.is_dir (sys.mkdir w p).1 q ≡ true

length-before_last : (s p : List ℕ) → before_last s ≡ some p → length p < length s
unfolding before_last
length-before_last [] p e = absurd cc
length-before_last (c ∷ cs) p e = elim (Option-cases (before_last cs)) [
  | inl h ↦ ground (arith, h)
  | inr (q, h) ↦ ground (arith, h, length-before_last cs q h)
]

length-parent : (s p : List ℕ) → parent s ≡ some p → length p < length s
unfolding parent
length-parent s p e = elim (Option-cases (before_last s)) [
  | inl h ↦ ground (arith, h)
  | inr (q, h) ↦ ground (arith, h, length-before_last s q h)
]

module _ {W : Type 0} (sys : FileSystem W) where
  -- The three ways through `create_dir`.
  pub create_dir_there :
      (fuel : ℕ) (w : W) (dirname : List ℕ)
      → sys.is_dir w dirname ≡ true
      → create_dir sys (suc fuel) w dirname ≡ some (true, w)
  unfolding create_dir
  create_dir_there fuel w dirname there = rw (create_dir, there) refl

  pub create_dir_made :
      (fuel : ℕ) (w : W) (dirname : List ℕ)
      → sys.is_dir w dirname ≡ false
      → (sys.mkdir w dirname).0 ≡ true
      → create_dir sys (suc fuel) w dirname ≡ some (true, (sys.mkdir w dirname).1)
  unfolding create_dir
  create_dir_made fuel w dirname missing made = rw (create_dir, missing, made) refl

  pub create_dir_top :
      (fuel : ℕ) (w : W) (dirname : List ℕ)
      → sys.is_dir w dirname ≡ false
      → (sys.mkdir w dirname).0 ≡ false
      → parent dirname ≡ none
      → create_dir sys (suc fuel) w dirname ≡ some (false, (sys.mkdir w dirname).1)
  unfolding create_dir
  create_dir_top fuel w dirname missing failed top = rw (create_dir, missing, failed, top) refl

  pub create_dir_below :
      (fuel : ℕ) (w : W) (dirname dir : List ℕ) (r : Bool × W)
      → sys.is_dir w dirname ≡ false
      → (sys.mkdir w dirname).0 ≡ false
      → parent dirname ≡ some dir
      → create_dir sys fuel (sys.mkdir w dirname).1 dir ≡ some r
      → create_dir sys (suc fuel) w dirname
        ≡ some (if r.0 then sys.mkdir r.1 dirname else (false, r.1))
  unfolding create_dir
  create_dir_below fuel w dirname dir r missing failed below rec =
      ground (arith, missing, failed, below, rec)

  -- What `create_dir` leaves.
  Makes : W → List ℕ → Bool × W → Type 0
  Makes w dirname r =
      (r.0 ≡ true → sys.is_dir r.1 dirname ≡ true)
      × ((q : List ℕ) → sys.is_dir w q ≡ true → sys.is_dir r.1 q ≡ true)

  second-Makes :
      (keeps : Directories sys) (w : W) (dirname : List ℕ) (r : Bool × W)
      → ((q : List ℕ) → sys.is_dir w q ≡ true → sys.is_dir r.1 q ≡ true)
      → Makes w dirname (if r.0 then sys.mkdir r.1 dirname else (false, r.1))
  unfolding Makes
  second-Makes keeps w dirname (true, w') stay =
      (λ made. keeps.made w' dirname made, λ q there. keeps.stay w' dirname q (stay q there))
  second-Makes keeps w dirname (false, w') stay = (λ made. absurd cc, stay)

  -- With fuel for more calls than the name has bytes `create_dir` returns. Where it answers 0 the
  -- name is that of a directory, and every directory that was there is still one.
  pub create_dir-is_dir :
      (keeps : Directories sys) (fuel : ℕ) (w : W) (dirname : List ℕ)
      → length dirname < fuel
      → (r : Bool × W) × (create_dir sys fuel w dirname ≡ some r)
        × (r.0 ≡ true → sys.is_dir r.1 dirname ≡ true)
        × ((q : List ℕ) → sys.is_dir w q ≡ true → sys.is_dir r.1 q ≡ true)
  unfolding Makes
  create_dir-is_dir keeps zero w dirname enough = absurd (omega (arith, enough))
  create_dir-is_dir keeps (suc fuel) w dirname enough = elim (Bool-cases (sys.is_dir w dirname)) [
    | inl there ↦ ((true, w), create_dir_there fuel w dirname there, λ e. there, λ q h. h)
    | inr missing ↦ elim (Bool-cases (sys.mkdir w dirname).0) [
      | inl made ↦ (
        (true, (sys.mkdir w dirname).1),
        create_dir_made fuel w dirname missing made,
        λ e. keeps.made w dirname made,
        λ q h. keeps.stay w dirname q h,
      )
      | inr failed ↦ elim (Option-cases (parent dirname)) [
        | inl top ↦ (
          (false, (sys.mkdir w dirname).1),
          create_dir_top fuel w dirname missing failed top,
          λ e. absurd cc,
          λ q h. keeps.stay w dirname q h,
        )
        | inr (dir, below) ↦
            let (r, rec, made, stay) =
              create_dir-is_dir keeps fuel (sys.mkdir w dirname).1 dir
                (omega (arith, enough, length-parent dirname dir below)) in
            let after = second-Makes keeps w dirname r (λ q h. stay q (keeps.stay w dirname q h)) in
            (
              if r.0 then sys.mkdir r.1 dirname else (false, r.1),
              create_dir_below fuel w dirname dir r missing failed below rec,
              after.0,
              after.1,
            )
      ]
    ]
  ]

before_last-slash : (p : List ℕ) → before_last (p ++ (slash ∷ [])) ≡ some p
unfolding before_last
before_last-slash [] = refl
before_last-slash (c ∷ p) = rw (before_last, before_last-slash p) refl

parent-slash : (c : ℕ) (p : List ℕ) → parent (c ∷ p ++ (slash ∷ [])) ≡ some (c ∷ p)
unfolding parent
parent-slash c p = rw (parent, before_last-slash (c ∷ p)) refl

-- A `/` at the end of a name changes nothing, and what is there cannot be made.
pub record Names {W : Type 0} (sys : FileSystem W) : Type 0 where
  pub slash_same : (w : W) (p : List ℕ) → sys.is_dir w (p ++ (slash ∷ [])) ≡ sys.is_dir w p
  pub taken : (w : W) (p : List ℕ) → sys.is_dir w p ≡ true → (sys.mkdir w p).0 ≡ false

module _ {W : Type 0} (sys : FileSystem W) where
  -- Once the directory above has been tried, the same name cannot be made a second time.
  again :
      (names : Names sys) (p : List ℕ) (r : Bool × W)
      → (r.0 ≡ true → sys.is_dir r.1 p ≡ true)
      → (if r.0 then sys.mkdir r.1 (p ++ (slash ∷ [])) else (false, r.1)).0 ≡ false
  again names p (true, w) made =
      names.taken w (p ++ (slash ∷ [])) (names.slash_same w p ∙ made refl)
  again names p (false, w) made = refl

  -- A name that ends in `/` is never made where the directory above it is missing: `create_dir`
  -- makes the name without the `/`, cannot then make it a second time, and answers 1.
  pub create_dir-slash :
      (fuel : ℕ) (w : W) (c : ℕ) (p : List ℕ)
      → Directories sys
      → Names sys
      → length (c ∷ p) + 1 < fuel
      → sys.is_dir w (c ∷ p) ≡ false
      → (sys.mkdir w (c ∷ p ++ (slash ∷ []))).0 ≡ false
      → (w' : W) × (create_dir sys fuel w (c ∷ p ++ (slash ∷ [])) ≡ some (false, w'))
  create_dir-slash zero w c p keeps names enough missing failed = absurd (omega (arith, enough))
  create_dir-slash (suc fuel) w c p keeps names enough missing failed =
      let name = c ∷ p ++ (slash ∷ []) in
      let (r, rec, made, _) =
        create_dir-is_dir sys keeps fuel (sys.mkdir w name).1 (c ∷ p) (omega (arith, enough)) in
      let end : Bool × W = if r.0 then sys.mkdir r.1 name else (false, r.1) in
      (
        end.1,
        create_dir_below sys fuel w name (c ∷ p) r (names.slash_same w (c ∷ p) ∙ missing) failed
              (parent-slash c p) rec
            ∙ ap (λ b. some (b, end.1)) (again names (c ∷ p) r made),
      )
