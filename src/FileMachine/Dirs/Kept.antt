-- ===== src/FileMachine/Dirs/Kept.antt =====
-- `create_dir` and the files that are there.
use bingewatch.Prelude.{
  ℕ, zero, suc, ◌≡◌, refl, ◌∙◌, inl, inr, Bool, true, false, Option, some, List, arith,
  if◌then◌else◌, Bool-cases, Option-cases,
}
use bingewatch.FileMachine.{FileSystem}
use bingewatch.FileMachine.Dirs.{parent, create_dir}
use bingewatch.FileMachine.Dirs.Made.{
  create_dir_there, create_dir_made, create_dir_top, create_dir_below,
}

module _ {W : Type 0} (sys : FileSystem W) (content : W → List ℕ → Option (List ℕ)) where
  after :
      {o : Option (Bool × W)} (w : W) (r' r : Bool × W) (q : List ℕ)
      → o ≡ some r'
      → o ≡ some r
      → content r'.1 q ≡ content w q
      → content r.1 q ≡ content w q
  after w r' r q e e' kept = cc

  second :
      ((w : W) (p q : List ℕ) → content (sys.mkdir w p).1 q ≡ content w q)
      → (dirname : List ℕ) (r : Bool × W) (q : List ℕ)
      → content (if r.0 then sys.mkdir r.1 dirname else (false, r.1)).1 q ≡ content r.1 q
  second keeps dirname (true, w) q = keeps w dirname q
  second keeps dirname (false, w) q = refl

  -- `create_dir` leaves the content of every file as it was.
  pub create_dir_content :
      ((w : W) (p q : List ℕ) → content (sys.mkdir w p).1 q ≡ content w q)
      → (fuel : ℕ) (w : W) (dirname : List ℕ) (r : Bool × W) (q : List ℕ)
      → create_dir sys fuel w dirname ≡ some r
      → content r.1 q ≡ content w q
  unfolding create_dir
  create_dir_content keeps zero w dirname r q ran = absurd cc
  create_dir_content keeps (suc fuel) w dirname r q ran = elim (Bool-cases (sys.is_dir w dirname)) [
    | inl there ↦ after w (true, w) r q (create_dir_there sys fuel w dirname there) ran refl
    | inr missing ↦
        let w' = (sys.mkdir w dirname).1 in
        let kept = keeps w dirname q in
        elim (Bool-cases (sys.mkdir w dirname).0) [
          | inl made ↦
              after w (true, w') r q (create_dir_made sys fuel w dirname missing made) ran kept
          | inr failed ↦ elim (Option-cases (parent dirname)) [
            | inl top ↦
                after w (false, w') r q (create_dir_top sys fuel w dirname missing failed top) ran
                  kept
            | inr (dir, below) ↦ elim (Option-cases (create_dir sys fuel w' dir)) [
              | inl out ↦ absurd (ground (arith, ran, missing, failed, below, out))
              | inr (r', rec) ↦
                  after w (if r'.0 then sys.mkdir r'.1 dirname else (false, r'.1)) r q
                    (create_dir_below sys fuel w dirname dir r' missing failed below rec) ran
                    (second keeps dirname r' q
                      ∙ create_dir_content keeps fuel w' dir r' q rec
                      ∙ kept)
            ]
          ]
        ]
  ]
