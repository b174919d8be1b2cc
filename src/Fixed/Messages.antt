-- ===== src/Fixed/Messages.antt =====
-- The messages that a ring of blocks holds, one to a block.
use bingewatch.Prelude.{
  ℕ, ◌+◌, ◌%◌, ◌^◌, ◌<◌, ◌≡◌, refl, ap, List, [], ◌∷◌, ◌++◌, length, All, Fresh, arith,
}
use bingewatch.Block.{Cell, update}
use bingewatch.Block.Segment.{update_ne}
use bingewatch.Ring.Blocks.{payload, bytes_of, Layout}
use bingewatch.Fixed.{FixedRing}

-- The content of the blocks, in order.
unfoldable pub messages_of : (ℕ → Cell) → List ℕ → List (List ℕ)
messages_of cell [] = []
messages_of cell (a ∷ ys) = payload (cell a) ∷ messages_of cell ys

pub messages_of-append :
    (cell : ℕ → Cell) (ys zs : List ℕ)
    → messages_of cell (ys ++ zs) ≡ messages_of cell ys ++ messages_of cell zs
unfolding messages_of
messages_of-append cell [] zs = refl
messages_of-append cell (a ∷ ys) zs = ap (λ l. payload (cell a) ∷ l) (messages_of-append cell ys zs)

pub messages_of-same :
    (f g : ℕ → Cell) (ys : List ℕ) → All (λ a. g a ≡ f a) ys → messages_of g ys ≡ messages_of f ys
unfolding messages_of
messages_of-same f g [] e = refl
messages_of-same f g (a ∷ ys) e = rw (e.0, messages_of-same f g ys e.1) refl

pub messages_of-update :
    (cell : ℕ → Cell) (b : ℕ) (c : Cell) (ys : List ℕ)
    → Fresh b ys
    → messages_of (update cell b c) ys ≡ messages_of cell ys
unfolding messages_of
messages_of-update cell b c [] f = refl
messages_of-update cell b c (a ∷ ys) f =
    rw (update_ne cell b a c f.0, messages_of-update cell b c ys f.1) refl

-- How many bytes the messages have.
unfoldable pub total : List (List ℕ) → ℕ
total [] = 0
total (m ∷ ms) = length m + total ms

pub total-append : (ms ns : List (List ℕ)) → total (ms ++ ns) ≡ total ms + total ns
unfolding total
total-append [] ns = omega arith
total-append (m ∷ ms) ns = omega (arith, total-append ms ns)

-- The ring holds exactly these messages, oldest first, in blocks of its size, and counts their
-- bytes modulo 2^64.
pub record Holding (r : FixedRing) (ms : List (List ℕ)) : Type 0 where
  pub filled : List ℕ
  pub blank : List ℕ
  pub layout : Layout r.heap r.rp r.wp filled blank (bytes_of r.heap.cell filled)
  pub messages : messages_of r.heap.cell filled ≡ ms
  pub sized : All (λ a. (r.heap.cell a).size ≡ r.block_size) (filled ++ r.wp ∷ blank)
  pub counted : r.bytes ≡ total ms % 2 ^ 64
  pub room : 0 < r.block_size
  pub small : r.block_size < 2 ^ 64
