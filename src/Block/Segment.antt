-- ===== src/Block/Segment.antt =====
-- Paths of links through distinct blocks, and what a change elsewhere leaves alone.
use bingewatch.Prelude.{
  ℕ, ◌≡◌, ◌≢◌, sym, List, [], ◌∷◌, ◌++◌, arith, Fresh, Distinct, All, All-take, All-append, take,
  zero, suc,
}
use bingewatch.Block.{Cell, update}

-- From `p` the links lead through the blocks `xs`, in order, to `q`.
abbrev pub Seg : (ℕ → ℕ) → ℕ → List ℕ → ℕ → Type 0
Seg next p [] q = p ≡ q
Seg next p (a ∷ xs) q = (p ≡ a) × Seg next (next a) xs q

pub Seg-append :
    (next : ℕ → ℕ) (p q r : ℕ) (xs ys : List ℕ)
    → Seg next p xs q
    → Seg next q ys r
    → Seg next p (xs ++ ys) r
Seg-append next p q r [] ys s t = rw s t
Seg-append next p q r (a ∷ xs) ys s t = (s.0, Seg-append next (next a) q r xs ys s.1 t)

pub Seg-update :
    (next : ℕ → ℕ) (b v p q : ℕ) (xs : List ℕ)
    → Fresh b xs
    → Seg next p xs q
    → Seg (update next b v) p xs q
Seg-update next b v p q [] f s = s
Seg-update next b v p q (a ∷ xs) f s =
    let same : update next b v a ≡ next a = ground (arith, f.0) in
    (s.0, rw same (Seg-update next b v (next a) q xs f.1 s.1))

pub update_self {ℓ} : {A : Type ℓ} (f : ℕ → A) (a : ℕ) (v : A) → update f a v a ≡ v
update_self f a v = ground arith

pub update_ne {ℓ} : {A : Type ℓ} (f : ℕ → A) (a b : ℕ) (v : A) → b ≢ a → update f a v b ≡ f b
update_ne f a b v h = ground arith

-- A property of the cells of `xs` outlives a write to another cell.
pub All-update {κ} :
    (P : Cell → Type κ) (cell : ℕ → Cell) (b : ℕ) (c : Cell) (xs : List ℕ)
    → Fresh b xs
    → All (λ a. P (cell a)) xs
    → All (λ a. P (update cell b c a)) xs
All-update P cell b c [] f h = tt
All-update P cell b c (a ∷ xs) f h =
    (rw (update_ne cell b a c f.0) h.0, All-update P cell b c xs f.1 h.1)

pub Fresh-append : (a : ℕ) (xs ys : List ℕ) → Fresh a (xs ++ ys) → Fresh a xs × Fresh a ys
Fresh-append a [] ys f = (tt, f)
Fresh-append a (x ∷ xs) ys f = let (l, r) = Fresh-append a xs ys f.1 in ((f.0, l), r)

-- The block in the middle of a list without repeats stands in neither part.
pub Distinct-middle :
    (xs : List ℕ) (a : ℕ) (ys : List ℕ) → Distinct (xs ++ a ∷ ys) → Fresh a xs × Fresh a ys
Distinct-middle [] a ys d = (tt, d.0)
Distinct-middle (x ∷ xs) a ys d =
    let (l, r) = Distinct-middle xs a ys d.1 in
    ((λ e. (Fresh-append x xs (a ∷ ys) d.0).1.0 (sym e), l), r)

Distinct-snoc : (a : ℕ) (xs : List ℕ) → Fresh a xs → Distinct xs → Distinct (xs ++ a ∷ [])
Distinct-snoc a [] f d = (tt, tt)
Distinct-snoc a (x ∷ xs) f d = (keep x xs d.0 f.0, Distinct-snoc a xs f.1 d.1)
  where
    keep : (y : ℕ) (ys : List ℕ) → Fresh y ys → y ≢ a → Fresh y (ys ++ a ∷ [])
    keep y [] g h = (λ e. h (sym e), tt)
    keep y (z ∷ zs) g h = (g.0, keep y zs g.1 h)

-- The first block of a ring moves to the end.
pub Distinct-rotate : (a : ℕ) (xs : List ℕ) → Distinct (a ∷ xs) → Distinct (xs ++ a ∷ [])
Distinct-rotate a xs d = Distinct-snoc a xs d.0 d.1

pub Seg-same :
    (f g : ℕ → ℕ) (p q : ℕ) (xs : List ℕ) → All (λ a. g a ≡ f a) xs → Seg f p xs q → Seg g p xs q
Seg-same f g p q [] e s = s
Seg-same f g p q (a ∷ xs) e s = (s.0, rw e.0 (Seg-same f g (f a) q xs e.1 s.1))

pub Distinct-take : (n : ℕ) (xs : List ℕ) → Distinct xs → Distinct (take n xs)
Distinct-take zero xs d = tt
Distinct-take (suc n) [] d = tt
Distinct-take (suc n) (x ∷ xs) d = (All-take (λ y. y ≢ x) n xs d.0, Distinct-take n xs d.1)

pub Distinct-append :
    (xs ys : List ℕ) → Distinct xs → Distinct ys → All (λ x. Fresh x ys) xs → Distinct (xs ++ ys)
Distinct-append [] ys d e f = e
Distinct-append (x ∷ xs) ys d e f =
    (All-append (λ y. y ≢ x) xs ys d.0 f.0, Distinct-append xs ys d.1 e f.1)
