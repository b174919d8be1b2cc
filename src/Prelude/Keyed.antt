-- ===== src/Prelude/Keyed.antt =====
-- Lists whose entries are found by a number that each carries, as the linked lists of the source
-- are by a handle.
use Prim.Native.Nat.{ℕ, ◌≤◌, ◌<◌}
use mathlib.Core.Path.{◌≡◌, refl, ap, ◌∙◌}
use mathlib.Core.Logic.{◌≢◌, inl, inr}
use mathlib.Core.Bool.{true, false}
use mathlib.Core.Option.{Option, none, some, map}
use mathlib.Core.List.{List, [], ◌∷◌, ◌++◌}
use native.Mathlib.Omega.{arith}
use bingewatch.Prelude.Tests.{◌==◌, if◌then◌else◌, Bool-cases, ==_iff}
use bingewatch.Prelude.Lists.{All}

module _ {ℓ} {A : Type ℓ} (key : A → ℕ) where
  -- The first entry with the number.
  unfoldable pub find_key : ℕ → List A → Option A
  find_key h [] = none
  find_key h (x ∷ xs) = let rest = find_key h xs in if key x == h then some x else rest

  -- Its content changed in place.
  pub update_key : ℕ → (A → A) → List A → List A
  update_key h f [] = []
  update_key h f (x ∷ xs) =
      let rest = update_key h f xs in if key x == h then f x ∷ xs else x ∷ rest

  -- The entry unlinked.
  pub remove_key : ℕ → List A → List A
  remove_key h [] = []
  remove_key h (x ∷ xs) = let rest = remove_key h xs in if key x == h then xs else x ∷ rest

  -- The numbers are at most `n`, and no two entries have the same one.
  abbrev pub IsKeyed : ℕ → List A → Type ℓ
  IsKeyed n [] = Unit
  IsKeyed n (x ∷ xs) = (key x ≤ n) × All (λ y. key x ≢ key y) xs × IsKeyed n xs

  pub find_key-fresh : (n h : ℕ) (xs : List A) → IsKeyed n xs → n < h → find_key h xs ≡ none
  unfolding find_key
  find_key-fresh n h [] k lt = refl
  find_key-fresh n h (x ∷ xs) k lt =
      let e : (key x == h) ≡ false = ground arith in rw e (find_key-fresh n h xs k.2 lt)

  pub find_key_head : (h : ℕ) (x : A) (xs : List A) → key x ≡ h → find_key h (x ∷ xs) ≡ some x
  unfolding find_key
  find_key_head h x xs e = rw ((==_iff (key x) h).1 e)

  pub find_key-append_none :
      (h : ℕ) (xs ys : List A) → find_key h xs ≡ none → find_key h (xs ++ ys) ≡ find_key h ys
  unfolding find_key
  find_key-append_none h [] ys e = refl
  find_key-append_none h (x ∷ xs) ys e = elim (Bool-cases (key x == h)) [
    | inl same ↦ absurd (ground arith)
    | inr other ↦ rw other (find_key-append_none h xs ys (rw other at e))
  ]

  pub find_key-append_other :
      (h : ℕ) (xs : List A) (y : A) → key y ≢ h → find_key h (xs ++ (y ∷ [])) ≡ find_key h xs
  unfolding find_key
  find_key-append_other h [] y ne = let e : (key y == h) ≡ false = ground arith in rw e
  find_key-append_other h (x ∷ xs) y ne = rw (find_key-append_other h xs y ne)

  pub append-IsKeyed :
      (n : ℕ) (xs : List A) (y : A) → IsKeyed n xs → n < key y → IsKeyed (key y) (xs ++ (y ∷ []))
  append-IsKeyed n [] y k lt = (omega arith, tt, tt)
  append-IsKeyed n (x ∷ xs) y k lt =
      (omega (arith, k.0, lt), others xs k.1, append-IsKeyed n xs y k.2 lt)
    where
      others :
          (zs : List A) → All (λ z. key x ≢ key z) zs → All (λ z. key x ≢ key z) (zs ++ (y ∷ []))
      others [] a = (omega (arith, k.0, lt), tt)
      others (z ∷ zs) a = (a.0, others zs a.1)

  find_key-update :
      (h : ℕ) (f : A → A) (xs : List A)
      → ((x : A) → key x ≡ h → key (f x) ≡ h)
      → find_key h (update_key h f xs) ≡ map f (find_key h xs)
  unfolding find_key update_key
  find_key-update h f [] keeps = refl
  find_key-update h f (x ∷ xs) keeps = elim (Bool-cases (key x == h)) [
    | inl same ↦
        let e : (key (f x) == h) ≡ true =
          (==_iff (key (f x)) h).1 (keeps x ((==_iff (key x) h).0 same)) in
        rw (same, e)
    | inr other ↦ rw (other, other) (find_key-update h f xs keeps)
  ]

  pub find_key-update_some :
      (h : ℕ) (f : A → A) (xs : List A) (x : A)
      → ((y : A) → key y ≡ h → key (f y) ≡ h)
      → find_key h xs ≡ some x
      → find_key h (update_key h f xs) ≡ some (f x)
  find_key-update_some h f xs x keeps e = find_key-update h f xs keeps ∙ ap (map f) e

  pub find_key-update_other :
      (h g : ℕ) (f : A → A) (xs : List A)
      → ((x : A) → key x ≡ h → key (f x) ≡ h)
      → h ≢ g
      → find_key g (update_key h f xs) ≡ find_key g xs
  unfolding find_key update_key
  find_key-update_other h g f [] keeps ne = refl
  find_key-update_other h g f (x ∷ xs) keeps ne = elim (Bool-cases (key x == h)) [
    | inl same ↦
        let e : (key x == g) ≡ false = ground arith in
        let at : key (f x) ≡ h = keeps x ((==_iff (key x) h).0 same) in
        let e' : (key (f x) == g) ≡ false = ground arith in rw (same, e, e')
    | inr other ↦ rw (other, find_key-update_other h g f xs keeps ne)
  ]

  pub find_key-remove : (n h : ℕ) (xs : List A) → IsKeyed n xs → find_key h (remove_key h xs) ≡ none
  unfolding find_key remove_key
  find_key-remove n h [] k = refl
  find_key-remove n h (x ∷ xs) k =
      elim (Bool-cases (key x == h)) as (λ _. find_key h (remove_key h (x ∷ xs)) ≡ none) [
        | inl same ↦
            let e : key x ≡ h = (==_iff (key x) h).0 same in rw same (gone xs (rw e at k.1))
        | inr other ↦ rw (other, other) (find_key-remove n h xs k.2)
      ]
    where
      gone : (zs : List A) → All (λ z. h ≢ key z) zs → find_key h zs ≡ none
      gone [] a = refl
      gone (z ∷ zs) a = let e : (key z == h) ≡ false = ground arith in rw e (gone zs a.1)

  pub find_key-remove_other :
      (h g : ℕ) (xs : List A) → h ≢ g → find_key g (remove_key h xs) ≡ find_key g xs
  unfolding find_key remove_key
  find_key-remove_other h g [] ne = refl
  find_key-remove_other h g (x ∷ xs) ne = elim (Bool-cases (key x == h)) [
    | inl same ↦ let e : (key x == g) ≡ false = ground arith in rw (same, e)
    | inr other ↦ rw (other, find_key-remove_other h g xs ne)
  ]

  -- The last entry, where no other has its number.
  pub find_key_last :
      (h : ℕ) (xs : List A) (y : A)
      → All (λ x. key x ≢ h) xs
      → key y ≡ h
      → find_key h (xs ++ (y ∷ [])) ≡ some y
  unfolding find_key
  find_key_last h [] y a e = rw ((==_iff (key y) h).1 e) refl
  find_key_last h (x ∷ xs) y a e =
      let no : (key x == h) ≡ false = ground (arith, a.0) in rw (no, find_key_last h xs y a.1 e)

  pub update_key_last :
      (h : ℕ) (f : A → A) (xs : List A) (y : A)
      → All (λ x. key x ≢ h) xs
      → key y ≡ h
      → update_key h f (xs ++ (y ∷ [])) ≡ xs ++ (f y ∷ [])
  unfolding update_key
  update_key_last h f [] y a e = rw ((==_iff (key y) h).1 e) refl
  update_key_last h f (x ∷ xs) y a e =
      let no : (key x == h) ≡ false = ground (arith, a.0) in rw (no, update_key_last h f xs y a.1 e)

  pub remove_key_last :
      (h : ℕ) (xs : List A) (y : A)
      → All (λ x. key x ≢ h) xs
      → key y ≡ h
      → remove_key h (xs ++ (y ∷ [])) ≡ xs
  unfolding remove_key
  remove_key_last h [] y a e = rw ((==_iff (key y) h).1 e) refl
  remove_key_last h (x ∷ xs) y a e =
      let no : (key x == h) ≡ false = ground (arith, a.0) in rw (no, remove_key_last h xs y a.1 e)
