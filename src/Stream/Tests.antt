-- ===== src/Stream/Tests.antt =====
-- Streams of two segments, and the theorems at them.
use bingewatch.Prelude.{ℕ, ◌≡◌, ◌≢◌, ◌⊎◌, refl, none, some, [], ◌∷◌, arith}
use bingewatch.Stream.{
  State, StreamStatus, Joined, Stream, Pc, Streams, get_stream, new_stream, set_state,
  callback_error,
}
use bingewatch.Stream.Step.{World, Step, Reach}
use bingewatch.Stream.Life.{Reach-stopped, fail-exited}
use bingewatch.Stream.Registry.{Registered, Counted, new_stream-get_stream}

abbrev joined : Joined
joined = record { input = 1; out = 2; out1 = 0 }

-- Six segments, one more than half of the ten entries.
abbrev full : Stream
full = record {
  id = 1;
  state = State.init;
  segments = joined ∷ joined ∷ joined ∷ joined ∷ joined ∷ [];
  n_segment = 5;
  segment_len = 10;
  segment_bytes = 40;
  status = StreamStatus.success;
}

abbrev two : Stream
two = record full { segments = joined ∷ joined ∷ []; n_segment = 2 }

abbrev start : World
start = record {
  stream = two;
  pc = Pc.entry;
  active = λ s. 0;
  ended = λ s. 1;
  stopping = 0;
  failing = 0;
}

abbrev begun : World
begun = record start { stream = set_state two State.ready; pc = Pc.starting 0 }

abbrev failed : World
failed = record start {
  stream = record two { state = State.state_error; status = StreamStatus.error };
  pc = Pc.waiting;
}

Reach-stopped_example :
    (begun.stream.state ≡ State.stopped → begun.pc ≡ Pc.exited)
    × (begun.pc ≡ Pc.exited
        → (begun.stream.state ≡ State.stopped) ⊎ (begun.stream.state ≡ State.done))
Reach-stopped_example =
    Reach-stopped start begun refl refl refl (Reach.next Reach.here (Step.begin start refl))

abbrev leaving : World
leaving = record failed { pc = Pc.joining 0 }

abbrev starting : World
starting = record start { stream = set_state two State.ready; pc = Pc.starting 2 }

abbrev one : Streams
one = record { stream_counter = 1; streams = two ∷ [] }

one-Registered : Registered one
unfolding Registered
one-Registered = (omega arith, tt, tt)

new_stream-get_stream_example :
    (get_stream one (new_stream one).0 ≡ none)
    × ((s : Stream) × (get_stream (new_stream one).1 (new_stream one).0 ≡ some s)
        × (s.state ≡ State.init)
        × (s.segments ≡ [])
        × (s.status ≡ StreamStatus.success))
    × ((h : ℕ) → h ≢ (new_stream one).0 → get_stream (new_stream one).1 h ≡ get_stream one h)
    × Registered (new_stream one).1
new_stream-get_stream_example = new_stream-get_stream one one-Registered (omega arith)

full-Counted : Counted full
unfolding Counted
full-Counted = (refl, omega arith, refl)

abbrev working : World
working = record start { stream = set_state two State.running; pc = Pc.waiting }

fail-exited_example :
    (u : World) × Reach
      (record working { stream = callback_error working.stream; ended = λ k. 1 })
      u
    × (u.pc ≡ Pc.exited)
    × (u.stream.state ≡ State.stopped)
    × (u.stream.status ≡ StreamStatus.error)
    × ((v : World)
        → Reach (record working { stream = callback_error working.stream; ended = λ k. 1 }) v
        → v.stream.status ≢ StreamStatus.success)
fail-exited_example = fail-exited working (λ k. 1) refl refl (λ k e. omega (arith, e))
