-- ===== src/Segment/Move.antt =====
-- A round of `segment_run` that moves data, where all that was read before was passed on.
use mathlib.Core.Path.{subst}
use bingewatch.Prelude.{
  ℕ, ◌≤◌, ◌<◌, ◌≡◌, refl, sym, ap, ◌∙◌, inl, inr, true, false, Option, some, List, [], ◌∷◌, ◌++◌,
  append-nil, take, ◌==◌, ==_iff, size_mod, Bool-cases, arith,
}
use bingewatch.Segment.{
  Joined, Segment, on_error, on_complete, finished, broken, fine, outcome, fail_segment,
  complete_segment, stop_segment, read_from_source, pass_on, move_data, Run,
}
use bingewatch.Segment.Watch.{Obeys, Watched, given, watch, watch_read}
use bingewatch.Segment.Deliver.{outcome-cases}
use bingewatch.Segment.Observe.{
  Second, Kept, Kept-all, Live, Sound, Live-Sound, fail_segment-account,
}
use bingewatch.Segment.PassOn.{account, Good, Input, pass_on_lem}

-- `read_from_source` by what the source answers.
module _ {W : Type 0} (e : Joined W) (seg : Segment W) (buf : List ℕ) (buflen : ℕ) where
  abbrev pub read_seg : Segment W
  read_seg = record seg { world = (e.src.read seg.world buf buflen).world }

  pub read_fine :
      let d = e.src.read seg.world buf buflen in
      outcome d.status ≡ fine → read_from_source e seg buf buflen ≡ (d.bytes, d.buf, read_seg)
  unfolding read_from_source
  read_fine o = rw (read_from_source, o) refl

  pub read_finished :
      let d = e.src.read seg.world buf buflen in
      outcome d.status ≡ finished
      → read_from_source e seg buf buflen ≡ (d.bytes, d.buf, record read_seg { do_complete = true })
  unfolding read_from_source
  read_finished o = rw (read_from_source, o) refl

  pub read_broken :
      let d = e.src.read seg.world buf buflen in
      outcome d.status ≡ broken
      → read_from_source e seg buf buflen ≡ (0, d.buf, fail_segment e read_seg)
  unfolding read_from_source
  read_broken o = rw (read_from_source, o) refl

-- Either call-back is the last thing that a segment does.
module _ {W : Type 0} (e : Joined W) (seg : Segment W) where
  fail_segment-stops :
      ((fail_segment e seg).running ≡ false)
      × ((fail_segment e seg).calls ≡ seg.calls ++ (on_error ∷ []))
  unfolding fail_segment stop_segment
  fail_segment-stops = (refl, refl)

  pub complete_segment-stops :
      ((complete_segment e seg).running ≡ false)
      × ((complete_segment e seg).calls ≡ seg.calls ++ (on_complete ∷ []))
  unfolding complete_segment stop_segment
  complete_segment-stops = (refl, refl)

module _ {S : Type 0} (fuel : ℕ) (e : Joined S) (obeys : Obeys e) where
  -- The end of a round, once `bytes` have been read.
  abbrev rest : Segment (Watched S) → List ℕ → ℕ → Option (Run (Watched S))
  rest seg buf bytes = elim (bytes == 0) [
    | true ↦ some (record { segment = seg; buf = some buf })
    | false ↦ pass_on fuel (watch e) seg buf bytes
  ]

  -- All that was read was passed on, and the segment can move data.
  pub record Ready (seg : Segment (Watched S)) : Type 0 where
    pub put : (account seg).put ≡ (account seg).got
    pub put1 : Second e.dst1 (account seg).put1 (account seg).got
    pub ended : (account seg).ended ≡ false
    pub live : Live seg false

  rest-Good :
      (g : List ℕ) (seg : Segment (Watched S)) (buf : List ℕ) (n : ℕ)
      → Input e g seg buf n
      → n < fuel
      → n < size_mod
      → (r : Run (Watched S)) × (rest seg buf n ≡ some r) × Good e r
  rest-Good g seg buf n i enough small = elim (Bool-cases (n == 0)) [
    | inl z ↦
        let same : (account seg).got ≡ g = i.got ∙ rw ((==_iff n 0).0 z) (append-nil g) in
        (
          record { segment = seg; buf = some buf },
          rw (rest, z) refl,
          record {
            kept =
                Kept-all e.dst1 (account seg).got (account seg).put (account seg).put1
                  (account seg).ended (i.put ∙ sym same)
                  (subst (λ x. Second e.dst1 (account seg).put1 x) (sym same) i.put1);
            sound = subst (Sound seg) (sym i.ended) (Live-Sound seg false i.live);
            buffer = (buf, refl);
          },
        )
    | inr z ↦
        let (r, eq, good) =
          pass_on_lem fuel e g seg buf n obeys i (ground (arith, z)) enough small in
        (r, rw (rest, z) eq, good)
  ]

  unfoldable pub Moves : Segment (Watched S) → List ℕ → (buflen : ℕ) → Type 0
  Moves seg buf buflen =
      (r : Run (Watched S)) × (move_data fuel (watch e) buflen seg buf ≡ some r) × Good e r

  -- What the source leaves in a round that reads.
  abbrev read_by : Segment (Watched S) → List ℕ → ℕ → Segment (Watched S)
  read_by seg buf buflen = record seg { world = (watch_read e.src seg.world buf buflen).world }

  -- `move_data` once it is known what the source leaves.
  move_data_open :
      (seg : Segment (Watched S)) (buf : List ℕ) (buflen : ℕ)
      (out : ℕ × List ℕ × Segment (Watched S))
      → read_from_source (watch e) seg buf buflen ≡ out
      → move_data fuel (watch e) buflen seg buf ≡ rest out.2 out.1 out.0
  unfolding move_data
  move_data_open seg buf buflen out eq = ap (λ o. rest o.2 o.1 o.0) eq

  -- A round that reads leaves the data in the buffer, or is the last.
  read_Input :
      (seg seg' : Segment (Watched S)) (buf : List ℕ) (buflen : ℕ)
      → let d = e.src.read seg.world.inner buf buflen in
        Ready seg
        → account seg' ≡ account (read_by seg buf buflen)
        → seg'.running ≡ seg.running
        → seg'.calls ≡ seg.calls
        → given (outcome d.status) d.bytes d.buf ≡ take d.bytes d.buf
        → Input e (account seg).got seg' d.buf d.bytes
  unfolding watch_read
  read_Input seg seg' buf buflen ready same running calls take_all = record {
    got = ap (λ a. a.got) same ∙ ap (λ l. (account seg).got ++ l) take_all;
    put = ap (λ a. a.put) same ∙ ready.put;
    put1 = subst (λ p. Second e.dst1 p (account seg).got) (sym (ap (λ a. a.put1) same)) ready.put1;
    ended = ap (λ a. a.ended) same ∙ ready.ended;
    live = record {
      running = running ∙ ready.live.running;
      calls = calls ∙ ready.live.calls;
      ending = inl refl;
    };
  }

  failing-Good :
      (seg last : Segment (Watched S)) (buf : List ℕ)
      → Ready seg
      → account last ≡ account seg
      → last.running ≡ false
      → last.calls ≡ on_error ∷ []
      → Good e (record { segment = last; buf = some buf })
  failing-Good seg last buf ready same running calls = record {
    kept =
        subst (λ a. Kept e.dst1 a.got a.put a.put1 a.ended) (sym same)
          (Kept-all e.dst1 (account seg).got (account seg).put (account seg).put1
            (account seg).ended ready.put ready.put1);
    sound = record { once = inr (running, (on_error, calls)); closing = inr (inr running) };
    buffer = (buf, refl);
  }

  pub move_data_lem :
      (seg : Segment (Watched S)) (buf : List ℕ) (buflen : ℕ)
      → Ready seg
      → buflen < fuel
      → buflen < size_mod
      → Moves seg buf buflen
  unfolding Moves watch watch_read
  move_data_lem seg buf buflen ready enough small =
      let d = e.src.read seg.world.inner buf buflen in
      let le : d.bytes ≤ buflen = obeys.src.at_most seg.world.inner buf buflen in
      let less : d.bytes < fuel = omega (arith, le, enough) in
      let fits : d.bytes < size_mod = omega (arith, le, small) in
      elim (outcome-cases d.status) [
        | inl o ↦
            let next = record (read_by seg buf buflen) { do_complete = true } in
            let i = read_Input seg next buf buflen ready refl refl refl (rw o refl) in
            let (r, eq, good) = rest-Good (account seg).got next d.buf d.bytes i less fits in
            (
              r,
              move_data_open seg buf buflen _ (read_finished (watch e) seg buf buflen o) ∙ eq,
              good,
            )
        | inr (inl o) ↦
            let next = read_by seg buf buflen in
            let last = fail_segment (watch e) next in
            let same = fail_segment-account e e.dst1 next refl in
            (
              record { segment = last; buf = some d.buf },
              move_data_open seg buf buflen _ (read_broken (watch e) seg buf buflen o),
              failing-Good seg last d.buf ready (same ∙ rw (o, append-nil (account seg).got) refl)
                  (fail_segment-stops (watch e) next).0
                  ((fail_segment-stops (watch e) next).1
                    ∙ ap (λ l. l ++ (on_error ∷ [])) ready.live.calls),
            )
        | inr (inr o) ↦
            let next = read_by seg buf buflen in
            let i = read_Input seg next buf buflen ready refl refl refl (rw o refl) in
            let (r, eq, good) = rest-Good (account seg).got next d.buf d.bytes i less fits in
            (r, move_data_open seg buf buflen _ (read_fine (watch e) seg buf buflen o) ∙ eq, good)
      ]
