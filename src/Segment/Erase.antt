-- ===== src/Segment/Erase.antt =====
-- A segment over watched machines does what it does over the machines themselves: its reads, its
-- writes and its ends.
pub mod Rounds
use bingewatch.Prelude.{
  ℕ, zero, suc, ◌≡◌, refl, sym, ap, ◌∙◌, inl, inr, true, false, Option, none, some, List, [], ◌∷◌,
  ◌++◌, ◌==◌, Bool-cases, take, drop, ◌>>=◌, sub_size, add_size,
}
use mathlib.Core.Option
use bingewatch.Stream.{State}
use bingewatch.Segment.{
  Io, Joined, Segment, Run, stop_segment, fail_segment, complete_segment, read_from_source,
  dest_loop, write_to_dest, pass_on, move_data, segment_round, segment_rounds,
}
use bingewatch.Segment.Watch.{
  Account, Watched, watch, watch_read, watch_stop, watch_write, watch_write1, watch_second,
}
use bingewatch.Segment.Deliver.{outcome-cases}
use bingewatch.Segment.Rounds.{turn-cases, segment_rounds_off, segment_rounds_on}
use bingewatch.Segment.Move.{read_fine, read_finished, read_broken}

-- What a read and a write of a segment leave.
abbrev pub Out : Type 0 → Type 0
Out W = ℕ × List ℕ × Segment W

module _ {S : Type 0} where
  -- The segment without the account of its machines.
  abbrev pub bare : Segment (Watched S) → Segment S
  bare seg = record {
    running = seg.running;
    do_complete = seg.do_complete;
    calls = seg.calls;
    world = seg.world.inner;
  }

  abbrev pub bare_run : Run (Watched S) → Run S
  bare_run r = record { segment = bare r.segment; buf = r.buf }

  abbrev pub bare_out : Out (Watched S) → Out S
  bare_out out = (out.0, out.1, bare out.2)

  -- A machine whose writes are noted in some way.
  abbrev pub noting : Io S → (Watched S → List ℕ → ℕ → Account) → Io (Watched S)
  noting io note = record {
    read = watch_read io;
    write = λ w ptr n.
        let r = io.write w.inner ptr n in
        record {
          status = r.status;
          bytes = r.bytes;
          buf = r.buf;
          world = record { inner = r.world; account = note w ptr n };
        };
    stop = watch_stop io;
  }

  abbrev pub ends_of : Io S → Io S → Option (Io S) → Joined S
  ends_of src dst d = record { src = src; dst = dst; dst1 = d }

  fail_segment-bare :
      (src dst : Io S) (d : Option (Io S)) (seg : Segment (Watched S))
      → fail_segment (ends_of src dst d) (bare seg)
        ≡ bare (fail_segment (watch (ends_of src dst d)) seg)
  unfolding fail_segment stop_segment watch watch_stop watch_second
  fail_segment-bare src dst none seg = refl
  fail_segment-bare src dst (some io) seg = refl

  pub complete_segment-bare :
      (src dst : Io S) (d : Option (Io S)) (seg : Segment (Watched S))
      → complete_segment (ends_of src dst d) (bare seg)
        ≡ bare (complete_segment (watch (ends_of src dst d)) seg)
  unfolding complete_segment stop_segment watch watch_stop watch_second
  complete_segment-bare src dst none seg = refl
  complete_segment-bare src dst (some io) seg = refl

module _ {S : Type 0} (src dst : Io S) (d : Option (Io S)) where
  abbrev e : Joined S
  e = ends_of src dst d

  dest_loop-bare :
      (fuel : ℕ) (io : Io S) (note : Watched S → List ℕ → ℕ → Account) (seg : Segment (Watched S))
      (front ptr : List ℕ) (n wr : ℕ)
      → dest_loop fuel e io (bare seg) front ptr n wr
        ≡ Option.map bare_out (dest_loop fuel (watch e) (noting io note) seg front ptr n wr)
  unfolding dest_loop
  dest_loop-bare zero io note seg front ptr n wr = refl
  dest_loop-bare (suc fuel) io note seg front ptr n wr =
      let r = io.write seg.world.inner ptr n in
      let seg' : Segment (Watched S) = record seg {
        world = record { inner = r.world; account = note seg.world ptr n };
      } in
      elim (Bool-cases (n == 0)) [
        | inl z ↦ rw (dest_loop, z) refl
        | inr nz ↦ elim (outcome-cases r.status) [
          | inl o ↦ rw (dest_loop, nz, o) refl
          | inr (inl o) ↦
              rw (dest_loop, nz, o)
                (ap (λ s. some (0, front ++ r.buf, s)) (fail_segment-bare src dst d seg'))
          | inr (inr o) ↦
              rw (dest_loop, nz, o)
                (dest_loop-bare fuel io note seg' (front ++ take r.bytes r.buf) (drop r.bytes r.buf)
                  (sub_size n r.bytes) (add_size wr r.bytes))
        ]
      ]

  pub write_to_dest-bare :
      (fuel : ℕ) (io : Io S) (note : Watched S → List ℕ → ℕ → Account) (seg : Segment (Watched S))
      (buf : List ℕ) (bytes : ℕ)
      → write_to_dest fuel e io (bare seg) buf bytes
        ≡ Option.map bare_out (write_to_dest fuel (watch e) (noting io note) seg buf bytes)
  unfolding write_to_dest
  write_to_dest-bare fuel io note seg buf bytes = dest_loop-bare fuel io note seg [] buf bytes 0

  pub read_from_source-bare :
      (seg : Segment (Watched S)) (buf : List ℕ) (bytes : ℕ)
      → read_from_source e (bare seg) buf bytes
        ≡ bare_out (read_from_source (watch e) seg buf bytes)
  unfolding read_from_source watch watch_read
  read_from_source-bare seg buf bytes =
      let r = src.read seg.world.inner buf bytes in
      let w = watch e in
      let seg' : Segment (Watched S) = record seg {
        world = (w.src.read seg.world buf bytes).world;
      } in
      elim (outcome-cases r.status) [
        | inl o ↦
            read_finished e (bare seg) buf bytes o
            ∙ sym (ap bare_out (read_finished w seg buf bytes o))
        | inr (inl o) ↦
            read_broken e (bare seg) buf bytes o
            ∙ ap (λ s. (0, r.buf, s)) (fail_segment-bare src dst d seg')
            ∙ sym (ap bare_out (read_broken w seg buf bytes o))
        | inr (inr o) ↦
            read_fine e (bare seg) buf bytes o ∙ sym (ap bare_out (read_fine w seg buf bytes o))
      ]
