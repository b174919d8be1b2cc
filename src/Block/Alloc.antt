-- ===== src/Block/Alloc.antt =====
-- `block_list_alloc`: a NULL-terminated list of new blocks, and nothing else changes.
use bingewatch.Prelude.{
  ℕ, zero, suc, ◌+◌, ◌≤◌, ◌<◌, ◌≡◌, refl, ◌≢◌, ◌∙◌, ap, true, false, List, [], ◌∷◌, arith, All,
  Distinct, length, ◌==◌,
}
use bingewatch.Block.{Heap, Grants, update, alloc_loop, block_list_alloc, zeroed, set_next}
use bingewatch.Block.Segment.{Seg, update_self, update_ne}

-- `n` addresses from `a` on
abbrev pub range : ℕ → ℕ → List ℕ
range a zero = []
range a (suc n) = a ∷ range (suc a) n

pub length-range : (a n : ℕ) → length (range a n) ≡ n
length-range a zero = refl
length-range a (suc n) = ap suc (length-range (suc a) n)

pub All-range : (P : ℕ → Type 0) (a n : ℕ) → ((b : ℕ) → a ≤ b → b < a + n → P b) → All P (range a n)
All-range P a zero h = tt
All-range P a (suc n) h = (
  h a (omega arith) (omega arith),
  All-range P (suc a) n (λ b lo hi. h b (omega arith) (omega arith)),
)

pub Distinct-range : (a n : ℕ) → Distinct (range a n)
Distinct-range a zero = tt
Distinct-range a (suc n) =
    (All-range (λ b. b ≢ a) (suc a) n (λ b lo hi. omega arith), Distinct-range (suc a) n)

-- Everything below `h.fresh` is as it was, but for the link of `b`.
pub record Kept (b : ℕ) (h h' : Heap) : Type 0 where
  pub next : (a : ℕ) → a < h.fresh → a ≢ b → h'.next a ≡ h.next a
  pub cell : (a : ℕ) → a < h.fresh → h'.cell a ≡ h.cell a

-- One round of the loop behind the first: the new block is linked after `b`.
abbrev linked : ℕ → Heap → Heap
linked b h =
    set_next
      (record h {
        next = update h.next h.fresh 0;
        cell = update h.cell h.fresh zeroed;
        fresh = suc h.fresh;
      })
      b h.fresh

pub record Listed (k blocks b : ℕ) (h : Heap) (r : ℕ × Heap) : Type 0 where
  pub head : r.0 ≡ blocks
  pub fresh : r.1.fresh ≡ h.fresh + k
  pub path : Seg r.1.next (r.1.next b) (range h.fresh k) 0
  pub kept : Kept b h r.1

alloc_loop_step :
    (grant : Grants) (k blocks b : ℕ) (h : Heap)
    → (grant h.fresh).pcalloc ≡ true
    → (b == 0) ≡ false
    → alloc_loop grant (suc k) blocks b h ≡ alloc_loop grant k blocks h.fresh (linked b h)
unfolding alloc_loop
alloc_loop_step grant k blocks b h ok e = rw (e, ok)

Listed-suc :
    (k blocks b : ℕ) (h : Heap) (r : ℕ × Heap)
    → b < h.fresh
    → Listed k blocks h.fresh (linked b h) r
    → Listed (suc k) blocks b h r
Listed-suc k blocks b h r lt l =
    let at_b : r.1.next b ≡ h.fresh =
      l.kept.next b (omega arith) (omega arith) ∙ update_self (update h.next h.fresh 0) b h.fresh in
    record {
      head = l.head;
      fresh = omega (arith, l.fresh);
      path = (at_b, l.path);
      kept = record {
        next = λ a lo ne.
            l.kept.next a (omega arith) (omega arith)
            ∙ update_ne (update h.next h.fresh 0) b a h.fresh ne
            ∙ update_ne h.next h.fresh a 0 (omega arith);
        cell =
            λ a lo. l.kept.cell a (omega arith) ∙ update_ne h.cell h.fresh a zeroed (omega arith);
      };
    }

alloc_loop-Listed :
    (grant : Grants) (k blocks b : ℕ) (h : Heap)
    → ((a : ℕ) → (grant a).pcalloc ≡ true)
    → 0 < b
    → b < h.fresh
    → h.next b ≡ 0
    → Listed k blocks b h (alloc_loop grant k blocks b h)
alloc_loop-Listed grant zero blocks b h ok pos lt e =
    unfold alloc_loop in
    record {
      head = refl;
      fresh = omega arith;
      path = e;
      kept = record { next = λ a lo ne. refl; cell = λ a lo. refl };
    }
alloc_loop-Listed grant (suc k) blocks b h ok pos lt e =
    rw (alloc_loop_step grant k blocks b h (ok h.fresh) (ground arith)) (
      Listed-suc k blocks b h (alloc_loop grant k blocks h.fresh (linked b h)) lt (
        alloc_loop-Listed grant k blocks h.fresh (linked b h) ok (omega arith) (omega arith) (
          update_ne (update h.next h.fresh 0) b h.fresh h.fresh (omega arith)
          ∙ update_self h.next h.fresh 0)))

-- The heap after the first round.
abbrev opened : Heap → Heap
opened h = record h {
  next = update h.next h.fresh 0;
  cell = update h.cell h.fresh zeroed;
  fresh = suc h.fresh;
}

block_list_alloc_start :
    (grant : Grants) (k : ℕ) (h : Heap)
    → (grant h.fresh).pcalloc ≡ true
    → block_list_alloc grant (suc k) h ≡ alloc_loop grant k h.fresh h.fresh (opened h)
unfolding block_list_alloc alloc_loop
block_list_alloc_start grant k h ok = let e : (suc k == 0) ≡ false = ground arith in rw (e, ok)

-- `n` new blocks in a NULL-terminated list; what was there before is as it was.
pub record NewList (n : ℕ) (h : Heap) (r : ℕ × Heap) : Type 0 where
  pub head : r.0 ≡ h.fresh
  pub fresh : r.1.fresh ≡ h.fresh + n
  pub path : Seg r.1.next h.fresh (range h.fresh n) 0
  pub next : (a : ℕ) → a < h.fresh → r.1.next a ≡ h.next a
  pub cell : (a : ℕ) → a < h.fresh → r.1.cell a ≡ h.cell a

NewList-of_Listed :
    (k : ℕ) (h : Heap) (r : ℕ × Heap) → Listed k h.fresh h.fresh (opened h) r → NewList (suc k) h r
NewList-of_Listed k h r l = record {
  head = l.head;
  fresh = omega (arith, l.fresh);
  path = (refl, l.path);
  next = λ a lo.
      l.kept.next a (omega arith) (omega arith) ∙ update_ne h.next h.fresh a 0 (omega arith);
  cell = λ a lo. l.kept.cell a (omega arith) ∙ update_ne h.cell h.fresh a zeroed (omega arith);
}

-- With memory for the descriptors, `block_list_alloc` of one or more blocks returns the head
-- of a NULL-terminated list of that many new blocks, and leaves every other block as it was.
pub block_list_alloc-NewList :
    (grant : Grants) (n : ℕ) (h : Heap)
    → ((a : ℕ) → (grant a).pcalloc ≡ true)
    → 0 < h.fresh
    → 0 < n
    → NewList n h (block_list_alloc grant n h)
block_list_alloc-NewList grant zero h ok pos some = absurd (omega arith)
block_list_alloc-NewList grant (suc k) h ok pos some =
    rw (block_list_alloc_start grant k h (ok h.fresh)) (
      NewList-of_Listed k h (alloc_loop grant k h.fresh h.fresh (opened h)) (
        alloc_loop-Listed grant k h.fresh h.fresh (opened h) ok pos (omega arith)
          (update_self h.next h.fresh 0)))

-- Without memory for the first descriptor there is no list.
pub block_list_alloc-none :
    (grant : Grants) (n : ℕ) (h : Heap)
    → (grant h.fresh).pcalloc ≡ false
    → block_list_alloc grant n h ≡ (0, h)
unfolding block_list_alloc alloc_loop
block_list_alloc-none grant zero h e = refl
block_list_alloc-none grant (suc n) h e =
    let z : (suc n == 0) ≡ false = ground arith in rw (z, e) refl
