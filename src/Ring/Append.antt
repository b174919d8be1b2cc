-- ===== src/Ring/Append.antt =====
-- `buf_write` on a ring that holds some bytes: the queue that a writer sees.
use bingewatch.Prelude.{
  ℕ, suc, ◌+◌, ◌%◌, ◌^◌, ◌<◌, ◌≡◌, refl, sym, ap, ◌∙◌, ◌⊎◌, inl, inr, true, ◌&&◌, not, some, List,
  ◌++◌, arith, length, length-append, leb, ◌==◌, Bool-cases, add_size,
}
use mathlib.Core.Option
use mathlib.Core.Path.{subst}
use bingewatch.Status.{Status}
use bingewatch.Block.{Grants}
use bingewatch.Ring.{
  Ring, RbState, Reply, write_loop, write_finish, write_ready, buf_write, high_water_mark_hit,
}
use bingewatch.Ring.Fifo.{Holds, Plain}
use bingewatch.Ring.Grow.{Ample}
use bingewatch.Ring.Write.{Stored, write_loop-Stored}

pub record Writes (ring : Ring) (xs input : List ℕ) (out : Reply) : Type 0 where
  pub left : Holds out.ring (xs ++ input)
  pub count : out.count ≡ length input
  pub status : out.status ≡ Status.success
  pub steady : (size : ℕ) → Plain size ring → Plain size out.ring

module _ (grant : Grants) (low_mark : ℕ → ℕ → ℕ) where
  write_finish-Plain :
      (size b written : ℕ) (q : Ring)
      → Plain size q
      → Plain size (write_finish grant low_mark (b, written, q)).ring
  unfolding write_finish high_water_mark_hit
  write_finish-Plain size b written q p = ground arith

  write_finish-block_realloc :
      (r : ℕ × ℕ × Ring) → (write_finish grant low_mark r).ring.block_realloc ≡ r.2.block_realloc
  unfolding write_finish high_water_mark_hit
  write_finish-block_realloc (b, written, q) = ground arith

  write_finish-Writes :
      (ring : Ring) (xs input : List ℕ) (r : ℕ × ℕ × Ring)
      → Holds ring xs
      → length xs + length input < 2 ^ 64
      → Stored ring xs input 0 r
      → Writes ring xs input (write_finish grant low_mark r)
  unfolding write_finish high_water_mark_hit
  write_finish-Writes ring xs input (b, written, q) h fit s =
      let bytes : q.bytes ≡ ring.bytes = ap (λ (r : Ring). r.bytes) s.same in
      let size : q.block_size ≡ ring.block_size = ap (λ (r : Ring). r.block_size) s.same in
      let rp : q.rp ≡ ring.rp = ap (λ (r : Ring). r.rp) s.same in
      let blocks = rw (← rp) at s.blocks in
      let len = length-append xs input in
      let sum : (q.bytes + written) % 2 ^ 64 ≡ length (xs ++ input) =
        omega (arith, bytes, h.counted, s.count, len, fit) in
      let few : length (xs ++ input) < 2 ^ 64 = omega (arith, len, fit) in
      let room : 0 < q.block_size = rw size h.block_room in
      elim (Bool-cases
        (not (q.high_water_mark == 0) && leb q.high_water_mark (add_size q.bytes written))) [
          | inl e ↦ rw e (record {
            left = record {
              blocks = blocks;
              counted = sum;
              small = few;
              block_room = room;
              realloc = s.realloc;
            };
            count = omega (arith, s.count);
            status = refl;
            steady = λ n p. rw e at (
                write_finish-Plain n b written q (
                  subst (Plain n) (sym s.same) (record {
                    ready = p.ready;
                    no_low = p.no_low;
                    no_high = p.no_high;
                    no_min = p.no_min;
                    no_flush = p.no_flush;
                    block_size = p.block_size;
                  })));
          })
          | inr e ↦ rw e (record {
            left = record {
              blocks = blocks;
              counted = sum;
              small = few;
              block_room = room;
              realloc = s.realloc;
            };
            count = omega (arith, s.count);
            status = refl;
            steady = λ n p. rw e at (
                write_finish-Plain n b written q (
                  subst (Plain n) (sym s.same) (record {
                    ready = p.ready;
                    no_low = p.no_low;
                    no_high = p.no_high;
                    no_min = p.no_min;
                    no_flush = p.no_flush;
                    block_size = p.block_size;
                  })));
          })
        ]

  pub buf_write-ready :
      (ring : Ring) (input : List ℕ)
      → ring.state ≡ RbState.ready
      → buf_write grant low_mark ring input ≡ write_ready grant low_mark ring input
  unfolding buf_write
  buf_write-ready ring input on = ground arith

  pub write_ready-free :
      (ring : Ring) (input : List ℕ)
      → ring.low_water_mark ≡ 0
      → write_ready grant low_mark ring input
        ≡ Option.map
            (write_finish grant low_mark)
            (write_loop grant low_mark (suc (length input)) ring ring.wp (length input) input 0)
  unfolding write_ready
  write_ready-free ring input free =
      let z : (ring.low_water_mark == 0) ≡ true = ground arith in rw z

  pub write_ready-Writes :
      (ring : Ring) (input xs : List ℕ)
      → Holds ring xs
      → ring.low_water_mark ≡ 0
      → Ample grant low_mark ring.block_size
      → length xs + length input < 2 ^ 64
      → (out : Reply) × (write_ready grant low_mark ring input ≡ some out)
        × ((out.ring.block_realloc ≡ 0) ⊎ Writes ring xs input out)
  write_ready-Writes ring input xs h free ample fit =
      let bs = h.blocks in
      let (r, ran, s) =
        write_loop-Stored grant low_mark (suc (length input)) ring ring.wp (length input) input 0
          bs.filled bs.blank xs ample h.block_room h.realloc bs.layout refl (omega arith) in
      (
        write_finish grant low_mark r,
        write_ready-free ring input free ∙ ap (Option.map (write_finish grant low_mark)) ran,
        elim s [
          | inl wrapped ↦ inl (write_finish-block_realloc r ∙ wrapped)
          | inr s ↦ inr (write_finish-Writes ring xs input r h fit s)
        ],
      )

  -- On a ready ring that is not held back by its low-water mark, and with memory to be had, a
  -- write ends, and unless block_realloc, which doubles modulo 2^64 with every growth, has come to
  -- 0, it takes every byte and stores it behind those that the ring holds, if they number less than
  -- 2^64 together.
  pub buf_write-Writes :
      (ring : Ring) (input xs : List ℕ)
      → Holds ring xs
      → ring.state ≡ RbState.ready
      → ring.low_water_mark ≡ 0
      → Ample grant low_mark ring.block_size
      → length xs + length input < 2 ^ 64
      → (out : Reply) × (buf_write grant low_mark ring input ≡ some out)
        × ((out.ring.block_realloc ≡ 0) ⊎ Writes ring xs input out)
  buf_write-Writes ring input xs h on free ample fit =
      let (out, ran, w) = write_ready-Writes ring input xs h free ample fit in
      (out, buf_write-ready ring input on ∙ ran, w)
