-- ===== src/SdrRx/Buffer/Places.antt =====
-- Blocks of a ring counted from one of them, and the samples that some in a row hold.
use bingewatch.Prelude.{
  ℕ, zero, suc, ◌+◌, ◌-◌, ◌≤◌, ◌<◌, ◌≡◌, ◌≢◌, refl, sym, ap, ◌∙◌, List, [], ◌++◌, append_assoc,
  append-nil, arith, ltb, if◌then◌else◌,
}
use bingewatch.Block.{update}
use bingewatch.Block.Segment.{update_ne}
use bingewatch.SdrRx.Buffer.{SampleBlock, next_block}

-- The block `k` places after `i`.
unfoldable pub place : ℕ → ℕ → ℕ → ℕ
place n_blocks i k = if ltb (i + k) n_blocks then i + k else i + k - n_blocks

pub place_first : (n i : ℕ) → i < n → place n i 0 ≡ i
unfolding place
place_first n i h = ground (arith, h)

-- All the way round.
pub place_all : (n i : ℕ) → i < n → place n i n ≡ place n i 0
unfolding place
place_all n i h = ground (arith, h)

pub place_less : (n i k : ℕ) → i < n → k ≤ n → place n i k < n
unfolding place
place_less n i k h le = ground (arith, h, le)

pub next_less : (n i : ℕ) → i < n → next_block n i < n
next_less n i h = ground (arith, h)

pub place-next : (n i k : ℕ) → i < n → k < n → place n (next_block n i) k ≡ place n i (suc k)
unfolding place
place-next n i k h lt = ground (arith, h, lt)

pub next-place : (n i k : ℕ) → i < n → k < n → next_block n (place n i k) ≡ place n i (suc k)
unfolding place
next-place n i k h lt = ground (arith, h, lt)

-- Different places are different blocks.
pub place_ne : (n i j k : ℕ) → i < n → j < n → k < n → j ≢ k → place n i j ≢ place n i k
unfolding place
place_ne n i j k h lt lt' ne = λ e. ground (arith, h, lt, lt', ne, e)

module _ {S : Type 0} (n : ℕ) where
  -- The samples of `count` blocks from `i` on.
  unfoldable pub queue : (ℕ → SampleBlock S) → (i count : ℕ) → List S
  queue blocks i zero = []
  queue blocks i (suc count) = (blocks i).samples ++ queue blocks (next_block n i) count

  pub queue_update :
      (blocks : ℕ → SampleBlock S) (p : ℕ) (x : SampleBlock S) (i count : ℕ)
      → i < n
      → count ≤ n
      → ((k : ℕ) → k < count → place n i k ≢ p)
      → queue (update blocks p x) i count ≡ queue blocks i count
  unfolding queue
  queue_update blocks p x i zero h le other = refl
  queue_update blocks p x i (suc count) h le other =
      let here : i ≢ p = λ e. other 0 (omega arith) (place_first n i h ∙ e) in
      rw (update_ne blocks p i x here) (
        ap (λ l. (blocks i).samples ++ l)
          (queue_update blocks p x (next_block n i) count (next_less n i h) (omega (arith, le))
            (λ k lt e.
              other (suc k) (omega (arith, lt))
                (sym (place-next n i k h (omega (arith, lt, le))) ∙ e))))

  pub queue_last :
      (blocks : ℕ → SampleBlock S) (i count : ℕ)
      → i < n
      → count < n
      → queue blocks i (suc count) ≡ queue blocks i count ++ (blocks (place n i count)).samples
  unfolding queue
  queue_last blocks i zero h lt =
      append-nil (blocks i).samples ∙ ap (λ p. (blocks p).samples) (sym (place_first n i h))
  queue_last blocks i (suc count) h lt =
      ap (λ l. (blocks i).samples ++ l)
        (queue_last blocks (next_block n i) count (next_less n i h) (omega (arith, lt))
          ∙ ap (λ p. queue blocks (next_block n i) count ++ (blocks p).samples)
              (place-next n i count h (omega (arith, lt))))
      ∙ sym (
          append_assoc (blocks i).samples (queue blocks (next_block n i) count)
            (blocks (place n i (suc count))).samples)

  -- What the queue holds at its front.
  pub queue_front :
      (blocks : ℕ → SampleBlock S) (i m full : ℕ)
      → full ≡ suc m
      → queue blocks i full ≡ (blocks i).samples ++ queue blocks (next_block n i) m
  unfolding queue
  queue_front blocks i m full e = ap (queue blocks i) e
