-- ===== src/Ring/Full.antt =====
-- The ring between the write to block `wp` and the step to the next block.
use bingewatch.Prelude.{
  ℕ, ◌≤◌, ◌<◌, ◌≡◌, refl, ◌≢◌, List, [], ◌∷◌, ◌++◌, arith, append-nil, append_assoc, All, Fresh,
  Distinct, All-append, All-append_left, All-append_right, All-mono, All-zip,
}
use bingewatch.Block.{Heap, Cell, update, set_cell}
use bingewatch.Block.Segment.{
  Seg, Seg-append, Seg-same, update_self, All-update, Distinct-middle, Distinct-append,
}
use bingewatch.Ring.Blocks.{
  IsFilled, IsBlank, payload, bytes_of, Layout, bytes_of-append, bytes_of-update, bytes_of-same,
}

-- As `Layout`, but `wp` is filled too, and its bytes are the last.
pub record Full (h : Heap) (rp wp : ℕ) (filled blank xs : List ℕ) : Type 0 where
  pub filled_path : Seg h.next rp filled wp
  pub blank_path : Seg h.next (h.next wp) blank rp
  pub distinct : Distinct (filled ++ wp ∷ blank)
  pub known : All (λ a. (0 < a) × (a < h.fresh)) (filled ++ wp ∷ blank)
  pub filled_cells : All (λ a. IsFilled (h.cell a)) (filled ++ wp ∷ [])
  pub blank_cells : All (λ a. IsBlank (h.cell a)) blank
  pub contents : bytes_of h.cell (filled ++ wp ∷ []) ≡ xs

pub Layout-fill :
    (h : Heap) (rp wp : ℕ) (fs bl xs : List ℕ) (c : Cell)
    → Layout h rp wp fs bl xs
    → IsFilled c
    → Full (set_cell h wp c) rp wp fs bl (xs ++ payload c)
unfolding bytes_of
Layout-fill h rp wp fs bl xs c l f =
    let (ff, fr) = Distinct-middle fs wp bl l.distinct in
    record {
      filled_path = l.filled_path;
      blank_path = l.blank_path;
      distinct = l.distinct;
      known = l.known;
      filled_cells =
          All-append (λ a. IsFilled (update h.cell wp c a)) fs (wp ∷ [])
            (All-update IsFilled h.cell wp c fs ff l.filled_cells)
            (rw (update_self h.cell wp c) f, tt);
      blank_cells = All-update IsBlank h.cell wp c bl fr l.blank_cells;
      contents = rw (
        bytes_of-append (update h.cell wp c) fs (wp ∷ []),
        bytes_of-update h.cell wp c fs ff,
        update_self h.cell wp c,
        l.contents,
        append-nil (payload c),
      );
    }

pub wp_known :
    (h : Heap) (rp wp : ℕ) (fs bl xs : List ℕ) → Full h rp wp fs bl xs → (0 < wp) × (wp < h.fresh)
wp_known h rp wp fs bl xs l = (All-append_right _ fs (wp ∷ bl) l.known).0

-- The reader's block holds bytes.
pub rp-IsFilled :
    (h : Heap) (rp wp : ℕ) (fs bl xs : List ℕ) → Full h rp wp fs bl xs → IsFilled (h.cell rp)
rp-IsFilled h rp wp [] bl xs l = rw l.filled_path l.filled_cells.0
rp-IsFilled h rp wp (a ∷ fs) bl xs l = rw l.filled_path.0 l.filled_cells.0

-- The next block is blank.
pub Full-advance :
    (h : Heap) (rp wp e : ℕ) (fs bl xs : List ℕ)
    → Full h rp wp fs (e ∷ bl) xs
    → Layout h rp e (fs ++ wp ∷ []) bl xs
Full-advance h rp wp e fs bl xs l = record {
  filled_path = Seg-append h.next rp wp e fs (wp ∷ []) l.filled_path (refl, l.blank_path.0);
  blank_path = l.blank_path.1;
  distinct = rw (append_assoc fs (wp ∷ []) (e ∷ bl)) l.distinct;
  known = rw (append_assoc fs (wp ∷ []) (e ∷ bl)) l.known;
  filled_cells = l.filled_cells;
  wp_cell = l.blank_cells.0;
  blank_cells = l.blank_cells.1;
  contents = l.contents;
}

-- `news` are new blank blocks between `b` and `q`; what was there before is as it was, but for the
-- link of `b`.
pub record Grown (h h' : Heap) (b q add : ℕ) (news : List ℕ) : Type 0 where
  pub link : h'.next b ≡ add
  pub path : Seg h'.next (h'.next add) news q
  pub above : All (λ a. (h.fresh ≤ a) × (a < h'.fresh)) (add ∷ news)
  pub distinct : Distinct (add ∷ news)
  pub cells : All (λ a. IsBlank (h'.cell a)) (add ∷ news)
  pub next : (a : ℕ) → a < h.fresh → a ≢ b → h'.next a ≡ h.next a
  pub cell : (a : ℕ) → a < h.fresh → h'.cell a ≡ h.cell a
  pub more : h.fresh ≤ h'.fresh

-- The ring is full, and new blocks are linked in behind `wp`.
module _ (h h' : Heap) (rp wp add : ℕ) (fs news xs : List ℕ) (l : Full h rp wp fs [] xs)
    (g : Grown h h' wp rp add news) where
  pub same_cells : All (λ a. h'.cell a ≡ h.cell a) (fs ++ wp ∷ [])
  same_cells = All-mono _ (λ a. h'.cell a ≡ h.cell a) (λ a k. g.cell a k.1) (fs ++ wp ∷ []) l.known

  same_links : All (λ a. h'.next a ≡ h.next a) fs
  same_links =
      All-zip _ _ (λ a. h'.next a ≡ h.next a) (λ a k ne. g.next a k.1 ne) fs
        (All-append_left _ fs (wp ∷ []) l.known) (Distinct-middle fs wp [] l.distinct).0

  apart : All (λ x. Fresh x (add ∷ news)) (fs ++ wp ∷ [])
  apart =
      All-mono _ (λ x. Fresh x (add ∷ news))
        (λ x k. All-mono _ (λ y. y ≢ x) (λ y m. omega arith) (add ∷ news) g.above) (fs ++ wp ∷ [])
        l.known

  pub Full-grow : Layout h' rp add (fs ++ wp ∷ []) news xs
  Full-grow = record {
    filled_path =
        Seg-append h'.next rp wp add fs (wp ∷ [])
          (Seg-same h.next h'.next rp wp fs same_links l.filled_path) (refl, g.link);
    blank_path = g.path;
    distinct = Distinct-append (fs ++ wp ∷ []) (add ∷ news) l.distinct g.distinct apart;
    known =
        All-append (λ a. (0 < a) × (a < h'.fresh)) (fs ++ wp ∷ []) (add ∷ news)
          (All-mono _ (λ a. (0 < a) × (a < h'.fresh)) (λ a k. omega (arith, g.more)) (fs ++ wp ∷ [])
            l.known)
          (All-mono _ (λ a. (0 < a) × (a < h'.fresh))
            (λ a k. omega (arith, wp_known h rp wp fs [] xs l)) (add ∷ news) g.above);
    filled_cells =
        All-zip _ _ (λ a. IsFilled (h'.cell a)) (λ a f e. rw e f) (fs ++ wp ∷ []) l.filled_cells
          same_cells;
    wp_cell = g.cells.0;
    blank_cells = g.cells.1;
    contents = rw (bytes_of-same h.cell h'.cell (fs ++ wp ∷ []) same_cells) l.contents;
  }
