-- ===== src/Block.antt =====
-- src/buf/block-list-buf.c and include/block-list-buffer.h: linked lists of data blocks, closed
-- into rings.
--
-- A `struct __block_t` at address `a` is the link `next a` and the cell `cell a`; 0 is NULL.
-- Addresses below `fresh` have been handed out. What the system answers to an allocation comes
-- from `grant`, read at the heap's `fresh` when the call is made. The fields `state`, `d_ret` and
-- `__block_t_impl` of a block are left out: the lists and rings of this module do not read
-- them.
pub mod Segment
pub mod Alloc
pub mod Tail
pub mod Carve
mod Tests
use bingewatch.Prelude.{
  ℕ, zero, suc, ◌+◌, Bool, true, false, not, ◌&&◌, ◌||◌, List, [], replicate, ltb, ◌==◌,
  if◌then◌else◌, mul_size,
}

pub record Cell : Type 0 where
  pub bytes_at : List ℕ  -- what `data` points to
  pub size : ℕ
  pub bytes : ℕ

-- what `pcalloc` returns
abbrev pub zeroed : Cell
zeroed = record { bytes_at = []; size = 0; bytes = 0 }

pub record Heap : Type 0 where
  pub next : ℕ → ℕ
  pub cell : ℕ → Cell
  pub fresh : ℕ

abbrev pub update {ℓ} : {A : Type ℓ} → (ℕ → A) → ℕ → A → ℕ → A
update f a v b = if b == a then v else f b

abbrev pub set_next : Heap → ℕ → ℕ → Heap
set_next h a b = record h { next = update h.next a b }

abbrev pub set_cell : Heap → ℕ → Cell → Heap
set_cell h a c = record h { cell = update h.cell a c }

-- `BLOCK_EMPTY`
abbrev pub block_empty : Heap → ℕ → Bool
block_empty h a = (h.cell a).bytes == 0

-- The system's answers: `sysinfo` and its free memory, `pcalloc` for a block descriptor, `palloc`
-- for data, and what the bytes of that data happen to be.
pub record Grant : Type 0 where
  pub sysinfo : Bool
  pub freeram : ℕ
  pub pcalloc : Bool
  pub palloc : Bool
  pub fill : ℕ

abbrev pub Grants : Type 0
Grants = ℕ → Grant

-- The loop of `block_list_alloc_custom`: `blocks` is the head, `b` the last block, or NULL.
alloc_loop : Grants → ℕ → ℕ → ℕ → Heap → ℕ × Heap
alloc_loop grant zero blocks b h = (blocks, h)
alloc_loop grant (suc remaining) blocks b h =
    let new = h.fresh in
    let h' = record h {
      next = update h.next new 0;
      cell = update h.cell new zeroed;
      fresh = suc new;
    } in
    let rest =
      alloc_loop grant remaining (if b == 0 then new else blocks) new
        (if b == 0 then h' else set_next h' b new) in
    if (grant new).pcalloc then rest else (0, h)

-- `block_list_alloc_custom`
unfoldable pub block_list_alloc : Grants → ℕ → Heap → ℕ × Heap
unfolding alloc_loop
block_list_alloc grant block_count h =
    if block_count == 0 then (0, h) else alloc_loop grant block_count 0 0 h

-- The counting loop of `block_data_fastalloc`: how many blocks fit below `freeram`, and the link
-- that ended the walk, NULL or `block` again.
pub count_fitting : ℕ → (freeram bytes_per_block block : ℕ) → Heap → (b n_blocks : ℕ) → ℕ × ℕ
count_fitting zero freeram size block h b n = (n, b)
count_fitting (suc fuel) freeram size block h b n =
    let n' = if ltb (mul_size (n + 1) size) freeram then n + 1 else n in
    let b' = h.next b in
    let rest = count_fitting fuel freeram size block h b' n' in
    if not (b' == 0) && not (b' == block) then rest else (n', b')

-- The partition loop: `left` is `n_blocks - n`.
pub partition : ℕ → (bytes_per_block fill final_next : ℕ) → (b : ℕ) → Heap → Heap
partition zero size fill final b h = h
partition (suc left) size fill final b h =
    let c : Cell = record { bytes_at = replicate size fill; size = size; bytes = 0 } in
    let h' = set_cell h b c in
    let rest = partition left size fill final (h.next b) h' in
    if ltb 1 (suc left) then rest else set_next h' b final

-- `block_data_fastalloc`: the bytes allocated, 0 on failure.
unfoldable pub block_data_fastalloc : Grants → ℕ → ℕ → Heap → ℕ × Heap
unfolding count_fitting partition
block_data_fastalloc grant block size h =
    let g = grant h.fresh in
    let (n_blocks, final) = count_fitting h.fresh g.freeram size block h block 0 in
    let h' = partition n_blocks size g.fill final block h in
    if block == 0
    then (0, h)
    else if not g.sysinfo
    then (0, h)
    else if ltb g.freeram size
    then (0, h)
    else if not g.palloc
    then (0, h)
    else (mul_size n_blocks size, h')

-- The walk of `forge_ring`.
pub forge_loop : ℕ → (first blocks : ℕ) → Heap → Heap
forge_loop zero first b h = h
forge_loop (suc fuel) first b h =
    let rest = forge_loop fuel first (h.next b) h in
    if h.next b == 0 then set_next h b first else if h.next b == first then h else rest

unfoldable pub forge_ring : ℕ → Heap → Heap
unfolding forge_loop
forge_ring first h = forge_loop h.fresh first first h

-- `while (tail->next) tail = tail->next`
pub last_block : ℕ → ℕ → Heap → ℕ
last_block zero b h = b
last_block (suc fuel) b h =
    let rest = last_block fuel (h.next b) h in if h.next b == 0 then b else rest

unfoldable pub list_tail : ℕ → Heap → ℕ
unfolding last_block
list_tail b h = last_block h.fresh b h
