-- ===== src/Ring/Blocks.antt =====
-- What a ring of blocks holds: the filled blocks from `rp` to `wp`, the blank ones from `wp` on
-- round to `rp`, and the bytes of the filled ones in order.
use bingewatch.Prelude.{
  ℕ, ◌≤◌, ◌<◌, ◌≡◌, refl, sym, List, [], ◌∷◌, ◌++◌, append_assoc, length, take, All, Fresh,
  Distinct, All-append,
}
use bingewatch.Block.{Heap, Cell, update, set_cell}
use bingewatch.Block.Segment.{
  Seg, Seg-append, update_self, update_ne, All-update, Fresh-append, Distinct-rotate,
}

pub record IsFilled (c : Cell) : Type 0 where
  pub some_bytes : 0 < c.bytes
  pub fits : c.bytes ≤ c.size
  pub allocated : length c.bytes_at ≡ c.size

pub record IsBlank (c : Cell) : Type 0 where
  pub no_bytes : c.bytes ≡ 0
  pub room : 0 < c.size
  pub allocated : length c.bytes_at ≡ c.size

abbrev pub payload : Cell → List ℕ
payload c = take c.bytes c.bytes_at

-- The bytes of the blocks, in order.
unfoldable pub bytes_of : (ℕ → Cell) → List ℕ → List ℕ
bytes_of cell [] = []
bytes_of cell (a ∷ ys) = payload (cell a) ++ bytes_of cell ys

-- The filled blocks, the block `wp`, and the blank blocks make up one ring of distinct blocks.
pub record Layout (h : Heap) (rp wp : ℕ) (filled blank xs : List ℕ) : Type 0 where
  pub filled_path : Seg h.next rp filled wp
  pub blank_path : Seg h.next (h.next wp) blank rp
  pub distinct : Distinct (filled ++ wp ∷ blank)
  pub known : All (λ a. (0 < a) × (a < h.fresh)) (filled ++ wp ∷ blank)
  pub filled_cells : All (λ a. IsFilled (h.cell a)) filled
  pub wp_cell : IsBlank (h.cell wp)
  pub blank_cells : All (λ a. IsBlank (h.cell a)) blank
  pub contents : bytes_of h.cell filled ≡ xs

pub record Blocks (h : Heap) (rp wp : ℕ) (xs : List ℕ) : Type 0 where
  pub filled : List ℕ
  pub blank : List ℕ
  pub layout : Layout h rp wp filled blank xs

pub bytes_of-append :
    (cell : ℕ → Cell) (ys zs : List ℕ)
    → bytes_of cell (ys ++ zs) ≡ bytes_of cell ys ++ bytes_of cell zs
unfolding bytes_of
bytes_of-append cell [] zs = refl
bytes_of-append cell (a ∷ ys) zs =
    rw (bytes_of-append cell ys zs)
      (sym (append_assoc (payload (cell a)) (bytes_of cell ys) (bytes_of cell zs)))

pub bytes_of-update :
    (cell : ℕ → Cell) (b : ℕ) (c : Cell) (ys : List ℕ)
    → Fresh b ys
    → bytes_of (update cell b c) ys ≡ bytes_of cell ys
unfolding bytes_of
bytes_of-update cell b c [] f = refl
bytes_of-update cell b c (a ∷ ys) f = rw (update_ne cell b a c f.0, bytes_of-update cell b c ys f.1)

pub bytes_of-same :
    (f g : ℕ → Cell) (ys : List ℕ) → All (λ a. g a ≡ f a) ys → bytes_of g ys ≡ bytes_of f ys
unfolding bytes_of
bytes_of-same f g [] e = refl
bytes_of-same f g (a ∷ ys) e = rw (e.0, bytes_of-same f g ys e.1)

-- The first filled block is emptied and joins the blank ones.
pub Layout-consume :
    (h : Heap) (rp wp a : ℕ) (fs bl xs : List ℕ) (c : Cell)
    → Layout h rp wp (a ∷ fs) bl xs
    → IsBlank c
    → Layout (set_cell h a c) (h.next a) wp fs (bl ++ a ∷ []) (bytes_of h.cell fs)
Layout-consume h rp wp a fs bl xs c l e =
    let (ff, fr) = Fresh-append a fs (wp ∷ bl) l.distinct.0 in
    record {
      filled_path = l.filled_path.1;
      blank_path =
          Seg-append h.next (h.next wp) rp (h.next a) bl (a ∷ []) l.blank_path
            (l.filled_path.0, refl);
      distinct =
          rw (← append_assoc fs (wp ∷ bl) (a ∷ [])) (Distinct-rotate a (fs ++ wp ∷ bl) l.distinct);
      known =
          rw (← append_assoc fs (wp ∷ bl) (a ∷ []))
            (All-append _ (fs ++ wp ∷ bl) (a ∷ []) l.known.1 (l.known.0, tt));
      filled_cells = All-update IsFilled h.cell a c fs ff l.filled_cells.1;
      wp_cell = rw (update_ne h.cell a wp c fr.0) l.wp_cell;
      blank_cells =
          All-append (λ b. IsBlank (update h.cell a c b)) bl (a ∷ [])
            (All-update IsBlank h.cell a c bl fr.1 l.blank_cells)
            (rw (update_self h.cell a c) e, tt);
      contents = bytes_of-update h.cell a c fs ff;
    }

-- The first filled block keeps a part of its bytes.
pub Layout-trim :
    (h : Heap) (rp wp a : ℕ) (fs bl xs : List ℕ) (c : Cell)
    → Layout h rp wp (a ∷ fs) bl xs
    → IsFilled c
    → Layout (set_cell h a c) rp wp (a ∷ fs) bl (payload c ++ bytes_of h.cell fs)
unfolding bytes_of
Layout-trim h rp wp a fs bl xs c l e =
    let (ff, fr) = Fresh-append a fs (wp ∷ bl) l.distinct.0 in
    record {
      filled_path = l.filled_path;
      blank_path = l.blank_path;
      distinct = l.distinct;
      known = l.known;
      filled_cells =
          (rw (update_self h.cell a c) e, All-update IsFilled h.cell a c fs ff l.filled_cells.1);
      wp_cell = rw (update_ne h.cell a wp c fr.0) l.wp_cell;
      blank_cells = All-update IsBlank h.cell a c bl fr.1 l.blank_cells;
      contents = rw (update_self h.cell a c, bytes_of-update h.cell a c fs ff);
    }
