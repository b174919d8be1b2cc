-- ===== src/Ring/Fifo.antt =====
-- `buf_read` on a ring that holds some bytes: the queue that a reader sees.
use bingewatch.Prelude.{
  ℕ, zero, suc, ◌+◌, ◌-◌, ◌%◌, ◌^◌, ◌≤◌, ◌<◌, ◌≡◌, ap, inl, inr, false, ◌&&◌, some, List, [], arith,
  length, take, drop, min, ltb, ◌==◌, if◌then◌else◌, Bool-cases, length-drop,
}
use mathlib.Core.Option
use native.Mathlib.Nat.{add-mod_right, zero-mod}
use bingewatch.Status.{Status, Blocking}
use bingewatch.Ring.{Ring, RbState, Reading, Reply, align_down, read_finish, buf_read}
use bingewatch.Ring.Blocks.{Blocks}
use bingewatch.Ring.Read.{MayStop, Taken, read_loop-Taken}

-- The ring holds exactly the bytes `xs`, oldest first, and its total says so.
pub record Holds (r : Ring) (xs : List ℕ) : Type 0 where
  pub blocks : Blocks r.heap r.rp r.wp xs
  pub counted : r.bytes ≡ length xs
  pub small : length xs < 2 ^ 64
  pub block_room : 0 < r.block_size
  pub realloc : 0 < r.block_realloc

-- The settings under which a ring is a plain queue: ready, no water marks, no least return size,
-- not being flushed, and with blocks of the given size.
pub record Plain (size : ℕ) (r : Ring) : Type 0 where
  pub ready : r.state ≡ RbState.ready
  pub no_low : r.low_water_mark ≡ 0
  pub no_high : r.high_water_mark ≡ 0
  pub no_min : r.min_return_size ≡ 0
  pub no_flush : r.flush ≡ false
  pub block_size : r.block_size ≡ size

-- How many bytes a read of `bytes` asks the blocks for.
abbrev pub wanted : Ring → ℕ → ℕ → ℕ
wanted ring bytes align = if ltb ring.bytes ring.min_return_size then 0 else align_down align bytes

pub record Reads (ring : Ring) (w : ℕ) (xs : List ℕ) (out : Reply) : Type 0 where
  pub left : Holds out.ring (drop w xs)
  pub got : out.out ≡ take w xs
  pub count : out.count ≡ min w (length xs)
  pub status :
      out.status ≡ (if ring.flush && out.count == 0 then Status.complete else Status.success)
  pub steady : (size : ℕ) → Plain size ring → Plain size out.ring

read_finish-Reads :
    (ring : Ring) (w : ℕ) (xs : List ℕ) (s : Reading)
    → Holds ring xs
    → Taken ring.wp w 0 [] xs s
    → Reads ring w xs (read_finish ring s)
unfolding read_finish
read_finish-Reads ring w xs s h t =
    let sum : (ring.bytes + 2 ^ 64 - s.bytes_read) % 2 ^ 64 ≡ length (drop w xs) =
      omega (arith, h.counted, h.small, t.count, length-drop w xs) in
    let few : length (drop w xs) < 2 ^ 64 = omega (arith, h.small, length-drop w xs) in
    elim (Bool-cases (ring.flush && s.bytes_read == 0)) [
      | inl e ↦ rw e (record {
        left = record {
          blocks = t.left;
          counted = sum;
          small = few;
          block_room = h.block_room;
          realloc = h.realloc;
        };
        got = t.got;
        count = omega (arith, t.count);
        status = rw e;
        steady = λ size p. record {
          ready = p.ready;
          no_low = p.no_low;
          no_high = p.no_high;
          no_min = p.no_min;
          no_flush = p.no_flush;
          block_size = p.block_size;
        };
      })
      | inr e ↦ rw e (record {
        left = record {
          blocks = t.left;
          counted = sum;
          small = few;
          block_room = h.block_room;
          realloc = h.realloc;
        };
        got = t.got;
        count = omega (arith, t.count);
        status = rw e;
        steady = λ size p. record {
          ready = p.ready;
          no_low = p.no_low;
          no_high = p.no_high;
          no_min = p.no_min;
          no_flush = p.no_flush;
          block_size = p.block_size;
        };
      })
    ]

-- A read with an alignment that is not 0 returns unless it would wait for ever for bytes that make
-- up a whole `align`; it hands over the oldest bytes, as many as it asks for and the ring has, and
-- leaves the rest.
pub buf_read-Reads :
    (ring : Ring) (bytes : ℕ) (blk : Blocking) (align : ℕ) (xs : List ℕ)
    → 0 < align
    → Holds ring xs
    → MayStop blk align (wanted ring bytes align) 0 (length xs)
    → (out : Reply) × (buf_read ring bytes blk align ≡ some out)
      × Reads ring (wanted ring bytes align) xs out
unfolding buf_read
buf_read-Reads ring bytes blk align xs _ h m =
    let w = wanted ring bytes align in
    let bs = h.blocks in
    let (s, ran, t) =
      read_loop-Taken blk align ring.wp (suc w) ring.rp ring.heap w 0 [] bs.filled bs.blank xs
        bs.layout (omega arith) m in
    (read_finish ring s, ap (Option.map (read_finish ring)) ran, read_finish-Reads ring w xs s h t)

-- For an alignment that is not 0, the bytes asked for are the largest multiple of the alignment
-- within the caller's buffer.
pub align_down_lem :
    (align n : ℕ)
    → 0 < align
    → (align_down align n % align ≡ 0) × (align_down align n ≤ n) × (n < align_down align n + align)
unfolding align_down
align_down_lem align zero h = (zero-mod align, omega arith, omega arith)
align_down_lem align (suc n) h =
    ground (arith, align_down_lem align n h, add-mod_right (align_down align n) align)
