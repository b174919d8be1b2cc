-- ===== src/Segment/Forward.antt =====
-- `segment_run`: what the machines of a segment get of what is read from its source.
use mathlib.Core.Option
use mathlib.Core.Path.{subst}
use bingewatch.Prelude.{
  ℕ, ◌<◌, ◌≡◌, refl, sym, ap, ◌∙◌, inl, inr, Bool, true, false, some, List, [], ◌∷◌, ◌++◌, size_mod,
}
use bingewatch.Stream.{State}
use bingewatch.Segment.{Joined, Segment, on_complete, complete_segment, Run, segment_round}
use bingewatch.Segment.Watch.{Obeys, Watched, watch}
use bingewatch.Segment.Observe.{Second, Kept, Kept-all, Second-nil, Sound, complete_segment-account}
use bingewatch.Segment.Rounds.{turn-cases}
use bingewatch.Segment.Move.{Ready, move_data_lem, Moves, complete_segment-stops}
use bingewatch.Segment.PassOn.{account, Good}

module _ {S : Type 0} (fuel : ℕ) (e : Joined S) (obeys : Obeys e) where
  -- A segment that runs has made no call-back.
  Sound-calls :
      (seg : Segment (Watched S)) (b : Bool) → Sound seg b → seg.running ≡ true → seg.calls ≡ []
  Sound-calls seg b s on = elim s.once [ inl e ↦ e | inr (e, _) ↦ absurd cc ]

  completing-Good :
      (r : Run (Watched S))
      → r.segment.running ≡ true
      → Good e r
      → Good e (record r { segment = complete_segment (watch e) r.segment })
  completing-Good r on good =
      let same = complete_segment-account e e.dst1 r.segment refl in
      let stops = complete_segment-stops (watch e) r.segment in
      record {
        kept = subst (λ a. Kept e.dst1 a.got a.put a.put1 a.ended) (sym same) good.kept;
        sound = record {
          once = inr (
            stops.0,
            (
              on_complete,
              stops.1
                  ∙ ap (λ l. l ++ (on_complete ∷ []))
                      (Sound-calls r.segment (account r.segment).ended good.sound on),
            ),
          );
          closing = inr (inr stops.0);
        };
        buffer = good.buffer;
      }

  quitting-Good :
      (r : Run (Watched S))
      → r.segment.running ≡ true
      → Good e r
      → Good e (record r { segment = record r.segment { running = false } })
  quitting-Good r on good = record {
    kept = good.kept;
    sound = record {
      once = inl (Sound-calls r.segment (account r.segment).ended good.sound on);
      closing = inr (inr refl);
    };
    buffer = good.buffer;
  }

  Good-Ready :
      (r : Run (Watched S))
      → r.segment.running ≡ true
      → r.segment.do_complete ≡ false
      → Good e r
      → Ready fuel e obeys r.segment
  Good-Ready r on b good =
      let open_ : (account r.segment).ended ≡ false = elim good.sound.closing [
        | inl x ↦ x
        | inr (inl x) ↦ absurd cc
        | inr (inr x) ↦ absurd cc
      ] in
      let all : ((account r.segment).put ≡ (account r.segment).got)
          × Second e.dst1 (account r.segment).put1 (account r.segment).got =
        elim good.kept.all [ inl x ↦ absurd cc | inr x ↦ x ] in
      record {
        put = all.0;
        put1 = all.1;
        ended = open_;
        live = record {
          running = on;
          calls = Sound-calls r.segment (account r.segment).ended good.sound on;
          ending = inl refl;
        };
      }

  pub segment_round_lem :
      (buflen : ℕ) (state : State) (r : Run (Watched S))
      → buflen < fuel
      → buflen < size_mod
      → r.segment.running ≡ true
      → Good e r
      → (r' : Run (Watched S)) × (segment_round fuel (watch e) buflen state r ≡ some r') × Good e r'
  unfolding segment_round Moves
  segment_round_lem buflen state r enough small on good =
      elim (turn-cases state r.segment.do_complete) [
        | inl t ↦ (r, rw (segment_round, t) refl, good)
        | inr (inl t) ↦ (
          record r { segment = complete_segment (watch e) r.segment },
          rw (segment_round, t) refl,
          completing-Good r on good,
        )
        | inr (inr (inl t)) ↦ (
          record r { segment = record r.segment { running = false } },
          rw (segment_round, t) refl,
          quitting-Good r on good,
        )
        | inr (inr (inr (t, b))) ↦
            let (buf, held) = good.buffer in
            let (r', eq, good') =
              move_data_lem fuel e obeys r.segment buf buflen (Good-Ready r on b good) enough
                small in
            (r', rw (segment_round, t, held) eq, good')
      ]

-- Watched machines at the start.
abbrev pub watching : {S : Type 0} → S → Watched S
watching s = record { inner = s; account = record { got = []; put = []; put1 = []; ended = false } }

-- The segment once it has been initialised.
abbrev pub starting : {S : Type 0} → S → List ℕ → Run (Watched S)
starting s content = record {
  segment = record { running = true; do_complete = false; calls = []; world = watching s };
  buf = some content;
}

pub starting-Good :
    {S : Type 0} (e : Joined S) (s : S) (content : List ℕ) → Good e (starting s content)
starting-Good e s content = record {
  kept = Kept-all e.dst1 [] [] [] false refl (Second-nil e.dst1);
  sound = record { once = inl refl; closing = inl refl };
  buffer = (content, refl);
}
