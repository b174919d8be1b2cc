-- ===== src/Segment/Deliver.antt =====
-- `write_to_dest`: what it delivers, and that it returns.
use bingewatch.Prelude.{
  ℕ, zero, suc, ◌+◌, ◌-◌, ◌≤◌, ◌<◌, ◌≡◌, refl, sym, ◌∙◌, Bool, true, false, ◌||◌, some, List, [],
  ◌∷◌, ◌++◌, append_assoc, append-nil, take, drop, ◌==◌, add_size, sub_size, size_mod, inl, inr,
  arith, take-append-drop, take_add, ◌⊎◌,
}
use bingewatch.Status.{Status}
use bingewatch.Segment.{
  Io, Joined, Segment, on_error, Outcome, finished, broken, fine, outcome, fail_segment,
  stop_segment, dest_loop, write_to_dest,
}
use bingewatch.Segment.Watch.{Takes, ends}

-- What an observer sees of the machines: the bytes that this one was given, all else, and whether a
-- write has ended a machine.
pub record View (K : Type 0) : Type 0 where
  pub mine : List ℕ
  pub other : K
  pub ended : Bool

or_false : (b : Bool) → b || false ≡ b
or_false true = refl
or_false false = refl

or_assoc : (a b c : Bool) → (a || b) || c ≡ a || (b || c)
or_assoc true b c = refl
or_assoc false b c = refl

module _ {K : Type 0} where
  -- A view once more bytes have been seen.
  abbrev pub seeing : View K → List ℕ → Bool → View K
  seeing v bytes end = record v { mine = v.mine ++ bytes; ended = v.ended || end }

  seeing_none : (v : View K) → seeing v [] false ≡ v
  seeing_none v = rw (append-nil v.mine, or_false v.ended) refl

  seeing-seeing :
      (v : View K) (xs ys : List ℕ) (b c : Bool)
      → seeing (seeing v xs b) ys c ≡ seeing v (xs ++ ys) (b || c)
  seeing-seeing v xs ys b c = rw (append_assoc v.mine xs ys, or_assoc v.ended b c) refl

Outcome-cases : (o : Outcome) → (o ≡ finished) ⊎ ((o ≡ broken) ⊎ (o ≡ fine))
Outcome-cases finished = inl refl
Outcome-cases broken = inr (inl refl)
Outcome-cases fine = inr (inr refl)

pub outcome-cases :
    (s : Status) → (outcome s ≡ finished) ⊎ ((outcome s ≡ broken) ⊎ (outcome s ≡ fine))
outcome-cases s = Outcome-cases (outcome s)

-- An observer that sees the bytes which `io` takes, and that stopping changes nothing it sees.
pub record Sees {W K : Type 0} (e : Joined W) (io : Io W) (view : W → View K) : Type 0 where
  pub writes :
      (w : W) (ptr : List ℕ) (n : ℕ)
      → view (io.write w ptr n).world
        ≡ seeing
            (view w)
            (take (io.write w ptr n).bytes ptr)
            (ends (outcome (io.write w ptr n).status))
  pub stops : (seg : Segment W) → view (fail_segment e seg).world ≡ view seg.world

-- How a write leaves the segment: as it was, completed, or failed with one call-back.
pub data Left {W : Type 0} (seg : Segment W) (wr : ℕ) (seg' : Segment W)
    : (ended : Bool) → Type 0 where
  going :
      seg'.running ≡ seg.running
      → seg'.do_complete ≡ seg.do_complete
      → seg'.calls ≡ seg.calls
      → Left seg wr seg' false
  completed :
      seg'.running ≡ seg.running
      → seg'.do_complete ≡ true
      → seg'.calls ≡ seg.calls
      → Left seg wr seg' true
  failed :
      wr ≡ 0
      → seg'.running ≡ false
      → seg'.do_complete ≡ false
      → seg'.calls ≡ seg.calls ++ (on_error ∷ [])
      → Left seg wr seg' true

-- What `write_to_dest` leaves of `n` bytes at `ptr`.
pub record Delivered {W K : Type 0} (view : W → View K) (seg : Segment W) (front ptr : List ℕ)
    (n wr : ℕ) (out : ℕ × List ℕ × Segment W) : Type 0 where
  pub count : ℕ
  pub ended : Bool
  pub at_most : count ≤ n
  pub buffer : out.1 ≡ front ++ ptr
  pub seen : view out.2.world ≡ seeing (view seg.world) (take count ptr) ended
  pub all : ended ≡ false → (count ≡ n) × (out.0 ≡ wr + n)
  pub left : Left seg out.0 out.2 ended

module _ {W K : Type 0} (e : Joined W) (io : Io W) (view : W → View K) (takes : Takes io)
    (sees : Sees e io view) where
  abbrev Returns : ℕ → Segment W → (front ptr : List ℕ) → (n wr : ℕ) → Type 0
  Returns fuel seg front ptr n wr =
      (out : ℕ × List ℕ × Segment W) × (dest_loop fuel e io seg front ptr n wr ≡ some out)
      × Delivered view seg front ptr n wr out

  -- The segment once the machine has been written to.
  abbrev written : Segment W → (ptr : List ℕ) → (n : ℕ) → Segment W
  written seg ptr n = record seg { world = (io.write seg.world ptr n).world }

  idle :
      (fuel : ℕ) (seg : Segment W) (front ptr : List ℕ) (wr : ℕ)
      → Returns (suc fuel) seg front ptr 0 wr
  unfolding dest_loop
  idle fuel seg front ptr wr = (
    (wr, front ++ ptr, seg),
    refl,
    record {
      count = 0;
      ended = false;
      at_most = omega arith;
      buffer = refl;
      seen = sym (seeing_none (view seg.world));
      all = λ _. (refl, omega arith);
      left = going refl refl refl;
    },
  )

  completing :
      (fuel : ℕ) (seg : Segment W) (front ptr : List ℕ) (n wr : ℕ)
      → (n == 0) ≡ false
      → outcome (io.write seg.world ptr n).status ≡ finished
      → n < size_mod
      → Returns (suc fuel) seg front ptr n wr
  unfolding dest_loop
  completing fuel seg front ptr n wr nz o small = (
    (
      wr,
      front ++ (io.write seg.world ptr n).buf,
      record (written seg ptr n) { do_complete = true },
    ),
    rw (dest_loop, nz, o) refl,
    record {
      count = (io.write seg.world ptr n).bytes;
      ended = true;
      at_most = takes.at_most seg.world ptr n small;
      buffer = rw (takes.same seg.world ptr n) refl;
      seen = sees.writes seg.world ptr n ∙ rw o refl;
      all = λ e. absurd cc;
      left = completed refl refl refl;
    },
  )

  failing :
      (fuel : ℕ) (seg : Segment W) (front ptr : List ℕ) (n wr : ℕ)
      → (n == 0) ≡ false
      → outcome (io.write seg.world ptr n).status ≡ broken
      → n < size_mod
      → Returns (suc fuel) seg front ptr n wr
  unfolding dest_loop fail_segment stop_segment
  failing fuel seg front ptr n wr nz o small = (
    (0, front ++ (io.write seg.world ptr n).buf, fail_segment e (written seg ptr n)),
    rw (dest_loop, nz, o) refl,
    record {
      count = (io.write seg.world ptr n).bytes;
      ended = true;
      at_most = takes.at_most seg.world ptr n small;
      buffer = rw (takes.same seg.world ptr n) refl;
      seen = sees.stops (written seg ptr n) ∙ sees.writes seg.world ptr n ∙ rw o refl;
      all = λ e. absurd cc;
      left = failed refl refl refl refl;
    },
  )

  abbrev AfterWrite : ℕ → Segment W → (front ptr : List ℕ) → (n wr : ℕ) → Type 0
  AfterWrite fuel seg front ptr n wr =
      let r = io.write seg.world ptr n in
      Returns fuel (written seg ptr n) (front ++ take r.bytes r.buf) (drop r.bytes r.buf)
        (sub_size n r.bytes) (add_size wr r.bytes)

  moving :
      (fuel : ℕ) (seg : Segment W) (front ptr : List ℕ) (n wr : ℕ)
      → (n == 0) ≡ false
      → outcome (io.write seg.world ptr n).status ≡ fine
      → wr + n < size_mod
      → AfterWrite fuel seg front ptr n wr
      → Returns (suc fuel) seg front ptr n wr
  unfolding dest_loop
  moving fuel seg front ptr n wr nz o small (out, e', d) =
      let r = io.write seg.world ptr n in
      let same : r.buf ≡ ptr = takes.same seg.world ptr n in
      let le : r.bytes ≤ n = takes.at_most seg.world ptr n (omega (arith, small)) in
      let rest : sub_size n r.bytes ≡ n - r.bytes = omega (arith, le, small) in
      let sum : add_size wr r.bytes ≡ wr + r.bytes = omega (arith, le, small) in
      (
        out,
        rw (dest_loop, nz, o) e',
        record {
          count = r.bytes + d.count;
          ended = d.ended;
          at_most = omega (arith, le, rest, d.at_most);
          buffer =
              d.buffer
              ∙ rw
                  (
                    same,
                    append_assoc front (take r.bytes ptr) (drop r.bytes ptr),
                    take-append-drop r.bytes ptr,
                  )
                  refl;
          seen =
              d.seen
              ∙ rw (same, sees.writes seg.world ptr n, o)
                  (seeing-seeing (view seg.world) (take r.bytes ptr)
                      (take d.count (drop r.bytes ptr)) false d.ended
                    ∙ rw (take_add r.bytes d.count (r.bytes + d.count) ptr refl) refl);
          all = λ x.
              let (c, t) = d.all x in (omega (arith, c, rest, le), omega (arith, t, rest, sum, le));
          left = left_same d.left;
        },
      )
    where
      left_same :
          {k : ℕ} {s : Segment W} {b : Bool} → Left (written seg ptr n) k s b → Left seg k s b
      left_same (going a b c) = going a b c
      left_same (completed a b c) = completed a b c
      left_same (failed a b c d) = failed a b c d

  -- The fuel needed is one more than the bytes to write.
  pub dest_loop_lem :
      (fuel : ℕ) (seg : Segment W) (front ptr : List ℕ) (n wr : ℕ)
      → n < fuel
      → wr + n < size_mod
      → Returns fuel seg front ptr n wr
  dest_loop_lem zero seg front ptr n wr enough small = absurd (omega (arith, enough))
  dest_loop_lem (suc fuel) seg front ptr zero wr enough small = idle fuel seg front ptr wr
  dest_loop_lem (suc fuel) seg front ptr (suc n) wr enough small =
      let r = io.write seg.world ptr (suc n) in
      let nz : (suc n == 0) ≡ false = ground arith in
      elim (outcome-cases r.status) [
        | inl o ↦ completing fuel seg front ptr (suc n) wr nz o (omega (arith, small))
        | inr (inl o) ↦ failing fuel seg front ptr (suc n) wr nz o (omega (arith, small))
        | inr (inr o) ↦
            let le : r.bytes ≤ suc n = takes.at_most seg.world ptr (suc n) (omega (arith, small)) in
            let more : 0 < r.bytes =
              takes.some_bytes seg.world ptr (suc n) (omega arith) (omega (arith, small)) o in
            let rest : sub_size (suc n) r.bytes ≡ suc n - r.bytes = omega (arith, le, small) in
            let sum : add_size wr r.bytes ≡ wr + r.bytes = omega (arith, le, small) in
            moving fuel seg front ptr (suc n) wr nz o small (
              dest_loop_lem fuel (written seg ptr (suc n)) (front ++ take r.bytes r.buf)
                (drop r.bytes r.buf) (sub_size (suc n) r.bytes) (add_size wr r.bytes)
                (omega (arith, enough, rest, more)) (omega (arith, small, rest, sum, le)))
      ]

  -- `write_to_dest` of a machine that takes what it is given.
  pub write_to_dest_lem :
      (fuel : ℕ) (seg : Segment W) (buf : List ℕ) (bytes : ℕ)
      → bytes < fuel
      → bytes < size_mod
      → (out : ℕ × List ℕ × Segment W) × (write_to_dest fuel e io seg buf bytes ≡ some out)
        × Delivered view seg [] buf bytes 0 out
  unfolding write_to_dest
  write_to_dest_lem fuel seg buf bytes enough small =
      dest_loop_lem fuel seg [] buf bytes 0 enough (omega (arith, small))
