-- ===== src/Block/Carve.antt =====
-- `block_data_fastalloc`: how many blocks get data, and which.
use bingewatch.Prelude.{
  ℕ, zero, suc, ◌+◌, ◌-◌, ◌*◌, ◌^◌, ◌≤◌, ◌<◌, ◌≡◌, refl, ◌≢◌, sym, ◌∙◌, ◌⊎◌, inl, inr, true, false,
  not, ◌&&◌, List, [], ◌∷◌, arith, All, Fresh, Distinct, length, take, replicate, ltb, ◌==◌,
  if◌then◌else◌, mul_size, Bool-cases,
}
use bingewatch.Block.{
  Heap, Cell, Grants, Grant, set_next, set_cell, count_fitting, partition, block_data_fastalloc,
}
use bingewatch.Block.Segment.{Seg, update_self, update_ne}

-- The count behind one round.
pub next_count : ℕ → ℕ → ℕ → ℕ
next_count freeram size n = if ltb (mul_size (n + 1) size) freeram then n + 1 else n

next_count_lem :
    (freeram size n : ℕ)
    → freeram + size ≤ 2 ^ 64
    → n * size < freeram
    → let m = next_count freeram size n in (m ≤ n + 1) × (n ≤ m) × (m * size < freeram)
unfolding next_count
next_count_lem freeram size n cap h =
    let e : (n + 1) * size ≡ n * size + size = omega arith in
    let w : mul_size (n + 1) size ≡ n * size + size = omega arith in
    elim (Bool-cases (ltb (mul_size (n + 1) size) freeram)) [
      | inl t ↦ rw t (omega arith, omega arith, ground (arith, e, w))
      | inr f ↦ rw f (omega arith, omega arith, h)
    ]

-- The walk visits `xs` and ends at `q`.
pub record Counted (freeram size n len q : ℕ) (r : ℕ × ℕ) : Type 0 where
  pub final : r.1 ≡ q
  pub most : r.0 ≤ n + len
  pub least : next_count freeram size n ≤ r.0
  pub fits : r.0 * size < freeram

pub count_fitting-Counted :
    (fuel freeram size block : ℕ) (h : Heap) (b n : ℕ) (xs : List ℕ) (q : ℕ)
    → freeram + size ≤ 2 ^ 64
    → n * size < freeram
    → Seg h.next (h.next b) xs q
    → All (λ a. (0 < a) × (a ≢ block)) xs
    → (q ≡ 0) ⊎ (q ≡ block)
    → length xs < fuel
    → Counted freeram size n (suc (length xs)) q (count_fitting fuel freeram size block h b n)
unfolding count_fitting next_count
count_fitting-Counted zero freeram size block h b n xs q cap fit s p e f = absurd (omega arith)
count_fitting-Counted (suc fuel) freeram size block h b n [] q cap fit s p e f =
    let m = next_count_lem freeram size n cap fit in
    let stop : (not (h.next b == 0) && not (h.next b == block)) ≡ false = ground arith in
    rw stop (record { final = s; most = omega (arith, m); least = omega arith; fits = m.2 })
count_fitting-Counted (suc fuel) freeram size block h b n (c ∷ xs) q cap fit s p e f =
    let m = next_count_lem freeram size n cap fit in
    let go : (not (h.next b == 0) && not (h.next b == block)) ≡ true = ground arith in
    let m' = next_count_lem freeram size (next_count freeram size n) cap m.2 in
    let r =
      count_fitting-Counted fuel freeram size block h (h.next b) (next_count freeram size n) xs q
        cap m.2 (rw s.0 s.1) p.1 e (omega arith) in
    rw go (record {
      final = r.final;
      most = omega (arith, r.most, m.0);
      least = omega (arith, r.least, m'.1);
      fits = r.fits;
    })

-- The cell that the partition loop makes.
abbrev pub new_cell : ℕ → ℕ → Cell
new_cell size fill = record { bytes_at = replicate size fill; size = size; bytes = 0 }

-- The first `k` blocks of `b ∷ xs` got data and their list ends at `q`; the rest is as it was.
pub record Carved (size fill k b q : ℕ) (xs : List ℕ) (h h' : Heap) : Type 0 where
  pub path : Seg h'.next b (take k (b ∷ xs)) q
  pub cells : All (λ a. h'.cell a ≡ new_cell size fill) (take k (b ∷ xs))
  pub next : (a : ℕ) → Fresh a (b ∷ xs) → h'.next a ≡ h.next a
  pub cell : (a : ℕ) → Fresh a (b ∷ xs) → h'.cell a ≡ h.cell a
  pub fresh : h'.fresh ≡ h.fresh

partition_last :
    (size fill q b : ℕ) (h : Heap)
    → partition 1 size fill q b h ≡ set_next (set_cell h b (new_cell size fill)) b q
unfolding partition
partition_last size fill q b h = refl

partition_step :
    (k size fill q b : ℕ) (h : Heap)
    → partition (suc (suc k)) size fill q b h
      ≡ partition (suc k) size fill q (h.next b) (set_cell h b (new_cell size fill))
unfolding partition
partition_step k size fill q b h = let e : ltb 1 (suc (suc k)) ≡ true = ground arith in rw e

pub partition-Carved :
    (k size fill q b : ℕ) (h : Heap) (xs : List ℕ) (r : ℕ)
    → Seg h.next (h.next b) xs r
    → Distinct (b ∷ xs)
    → k ≤ length xs
    → Carved size fill (suc k) b q xs h (partition (suc k) size fill q b h)
partition-Carved zero size fill q b h xs r s d len = rw (partition_last size fill q b h) (record {
  path = (refl, update_self h.next b q);
  cells = (update_self h.cell b (new_cell size fill), tt);
  next = λ a f. update_ne h.next b a q (λ e. f.0 (sym e));
  cell = λ a f. update_ne h.cell b a (new_cell size fill) (λ e. f.0 (sym e));
  fresh = refl;
})
partition-Carved (suc k) size fill q b h [] r s d len = absurd (omega arith)
partition-Carved (suc k) size fill q b h (c ∷ xs) r s d len =
    let h₁ = set_cell h b (new_cell size fill) in
    let e = partition-Carved k size fill q c h₁ xs r s.1 d.1 (omega arith) in
    rw (partition_step k size fill q b h, s.0)
      (record {
        path = (refl, rw (e.next b (d.0) ∙ s.0) e.path);
        cells = (e.cell b (d.0) ∙ update_self h.cell b (new_cell size fill), e.cells);
        next = λ a f. e.next a f.1;
        cell = λ a f. e.cell a f.1 ∙ update_ne h.cell b a (new_cell size fill) (λ q. f.0 (sym q));
        fresh = e.fresh;
      })

-- The system can supply a request for blocks of `size` bytes each.
pub record Supplies (g : Grant) (size : ℕ) : Type 0 where
  pub sysinfo : g.sysinfo ≡ true
  pub pcalloc : g.pcalloc ≡ true
  pub palloc : g.palloc ≡ true
  pub enough : size < g.freeram
  pub no_wrap : g.freeram + size ≤ 2 ^ 64

block_data_fastalloc_open :
    (grant : Grants) (b size n q : ℕ) (h : Heap)
    → Supplies (grant h.fresh) size
    → 0 < b
    → count_fitting h.fresh (grant h.fresh).freeram size b h b 0 ≡ (n, q)
    → block_data_fastalloc grant b size h
      ≡ (mul_size n size, partition n size (grant h.fresh).fill q b h)
unfolding block_data_fastalloc
block_data_fastalloc_open grant b size n q h g pos e =
    let z : (b == 0) ≡ false = ground arith in
    let few : ltb (grant h.fresh).freeram size ≡ false = ground (arith, g.enough) in
    rw (z, g.sysinfo, few, g.palloc, e)

next_count_first :
    (freeram size : ℕ) → size < freeram → freeram + size ≤ 2 ^ 64 → next_count freeram size 0 ≡ 1
unfolding next_count
next_count_first freeram size h w = ground arith

-- With memory to be had, of a list of distinct blocks that begins at `b` and is NULL-terminated or
-- closed into a ring, the first one or more get data of `size` bytes each, the list then ends where
-- it ended, every other block is as it was, and the result is the number of bytes allocated.
pub block_data_fastalloc-Carved :
    (grant : Grants) (b size : ℕ) (h : Heap) (xs : List ℕ) (q : ℕ)
    → Supplies (grant h.fresh) size
    → 0 < b
    → Seg h.next (h.next b) xs q
    → All (λ a. (0 < a) × (a ≢ b)) xs
    → (q ≡ 0) ⊎ (q ≡ b)
    → Distinct (b ∷ xs)
    → length xs < h.fresh
    → let r = block_data_fastalloc grant b size h in
      (k : ℕ) × (k ≤ length xs)
      × (r.0 ≡ suc k * size)
      × Carved size (grant h.fresh).fill (suc k) b q xs h r.1
block_data_fastalloc-Carved grant b size h xs q g pos s p e d f =
    let g' = grant h.fresh in
    let c =
      count_fitting-Counted h.fresh g'.freeram size b h b 0 xs q g.no_wrap (omega (arith, g.enough))
        s p e f in
    let r = count_fitting h.fresh g'.freeram size b h b 0 in
    let one = next_count_first g'.freeram size g.enough g.no_wrap in
    let k = r.0 - 1 in
    let sk : r.0 ≡ suc k = omega (arith, c.least, one) in
    rw (block_data_fastalloc_open grant b size (suc k) q h g pos (λ i. (sk i, c.final i))) (
      k,
      omega (arith, c.most, sk),
      ground (arith, rw sk at c.fits, g.no_wrap),
      partition-Carved k size g'.fill q b h xs q s d (omega (arith, c.most, sk)),
    )
