-- ===== src/Segment/Erase/Rounds.antt =====
-- A segment over watched machines does what it does over the machines themselves: its rounds.
use bingewatch.Prelude.{
  ℕ, ◌≡◌, refl, sym, ap, ◌∙◌, inl, inr, true, false, Option, none, some, List, [], ◌∷◌, ◌==◌,
  Bool-cases, ◌>>=◌,
}
use mathlib.Core.Option
use bingewatch.Stream.{State}
use bingewatch.Segment.{
  Io, Joined, Segment, Run, read_from_source, write_to_dest, pass_on, move_data, segment_round,
  segment_rounds,
}
use bingewatch.Segment.Watch.{Account, Watched, watch, watch_write, watch_write1, watch_second}
use bingewatch.Segment.Rounds.{turn-cases, segment_rounds_off, segment_rounds_on}
use bingewatch.Segment.Erase.{
  Out, bare, bare_run, bare_out, noting, ends_of, complete_segment-bare, write_to_dest-bare,
  read_from_source-bare,
}

module _ {A B C D : Type 0} where
  -- Two chains whose steps agree up to `f` and `g`.
  bind-map :
      (f : A → B) (g : C → D) (o : Option A) (k : B → Option D) (k' : A → Option C)
      → ((x : A) → k (f x) ≡ Option.map g (k' x))
      → (Option.map f o >>= k) ≡ Option.map g (o >>= k')
  bind-map f g none k k' e = refl
  bind-map f g (some x) k k' e = e x

-- What `pass_on` does after the write to `dst`, without a second machine and with one.
abbrev end_here : {W : Type 0} → Out W → Option (Run W)
end_here x = some (record { segment = x.2; buf = some x.1 })

abbrev go_on : {W : Type 0} → ℕ → Joined W → Io W → ℕ → Out W → Option (Run W)
go_on fuel e io n x = elim (x.0 == 0) [
  | true ↦ some (record { segment = x.2; buf = some x.1 })
  | false ↦ write_to_dest fuel e io x.2 x.1 n >>= end_here
]

module _ {S : Type 0} (src dst : Io S) where
  -- The write to `dst1`, once `x` is what the write to `dst` left.
  second-bare :
      (fuel : ℕ) (io : Io S) (note : Watched S → List ℕ → ℕ → Account) (x : Out (Watched S)) (n : ℕ)
      → (elim (x.0 == 0) as (λ _. Option (Run S)) [
        | true ↦ some (record { segment = bare x.2; buf = some x.1 })
        | false ↦
            write_to_dest fuel (ends_of src dst (some io)) io (bare x.2) x.1 n
            >>= (λ y. some (record { segment = y.2; buf = some y.1 }))
      ])
        ≡ Option.map bare_run (elim (x.0 == 0) as (λ _. Option (Run (Watched S))) [
          | true ↦ some (record { segment = x.2; buf = some x.1 })
          | false ↦
              write_to_dest fuel (watch (ends_of src dst (some io))) (noting io note) x.2 x.1 n
              >>= (λ y. some (record { segment = y.2; buf = some y.1 }))
        ])
  second-bare fuel io note x n = elim (Bool-cases (x.0 == 0)) [
    | inl z ↦ rw z refl
    | inr z ↦ rw z (
        ap (λ o. o >>= (λ y. some (record { segment = y.2; buf = some y.1 })))
          (write_to_dest-bare src dst (some io) fuel io note x.2 x.1 n)
        ∙ bind-map bare_out bare_run
            (write_to_dest fuel (watch (ends_of src dst (some io))) (noting io note) x.2 x.1 n)
            (λ y. some (record { segment = y.2; buf = some y.1 }))
            (λ y. some (record { segment = y.2; buf = some y.1 })) (λ y. refl))
  ]

  -- The end of a round, by whether there is a second machine.
  pass_on-bare :
      (fuel : ℕ) (d : Option (Io S)) (seg : Segment (Watched S)) (buf : List ℕ) (n : ℕ)
      → pass_on fuel (ends_of src dst d) (bare seg) buf n
        ≡ Option.map bare_run (pass_on fuel (watch (ends_of src dst d)) seg buf n)
  unfolding pass_on watch watch_second watch_write watch_write1
  pass_on-bare fuel none seg buf n =
      ap (λ o. o >>= end_here) (write_to_dest-bare src dst none fuel dst _ seg buf n)
      ∙ bind-map bare_out bare_run (write_to_dest fuel (watch (ends_of src dst none)) _ seg buf n) _
          _ (λ x. refl)
  pass_on-bare fuel (some io) seg buf n =
      ap (λ o. o >>= go_on fuel (ends_of src dst (some io)) io n)
        (write_to_dest-bare src dst (some io) fuel dst _ seg buf n)
      ∙ bind-map bare_out bare_run
          (write_to_dest fuel (watch (ends_of src dst (some io))) _ seg buf n) _ _
          (λ x. second-bare fuel io _ x n)

  -- The part of a round that moves data, once `out` was read.
  rest-bare :
      (fuel : ℕ) (d : Option (Io S)) (out : Out (Watched S))
      → (elim (out.0 == 0) as (λ _. Option (Run S)) [
        | true ↦ some (record { segment = bare out.2; buf = some out.1 })
        | false ↦ pass_on fuel (ends_of src dst d) (bare out.2) out.1 out.0
      ])
        ≡ Option.map bare_run (elim (out.0 == 0) as (λ _. Option (Run (Watched S))) [
          | true ↦ some (record { segment = out.2; buf = some out.1 })
          | false ↦ pass_on fuel (watch (ends_of src dst d)) out.2 out.1 out.0
        ])
  rest-bare fuel d out = elim (Bool-cases (out.0 == 0)) [
    | inl z ↦ rw z refl
    | inr z ↦ rw z (pass_on-bare fuel d out.2 out.1 out.0)
  ]

  move_data-bare :
      (fuel : ℕ) (d : Option (Io S)) (buflen : ℕ) (seg : Segment (Watched S)) (buf : List ℕ)
      → move_data fuel (ends_of src dst d) buflen (bare seg) buf
        ≡ Option.map bare_run (move_data fuel (watch (ends_of src dst d)) buflen seg buf)
  unfolding move_data
  move_data-bare fuel d buflen seg buf =
      ap {A = Out S}
        (λ out. elim (out.0 == 0) as (λ _. Option (Run S)) [
          | true ↦ some (record { segment = out.2; buf = some out.1 })
          | false ↦ pass_on fuel (ends_of src dst d) out.2 out.1 out.0
        ])
        (read_from_source-bare src dst d seg buf buflen)
      ∙ rest-bare fuel d (read_from_source (watch (ends_of src dst d)) seg buf buflen)

  moving-bare :
      (fuel : ℕ) (d : Option (Io S)) (buflen : ℕ) (seg : Segment (Watched S)) (b : Option (List ℕ))
      → (b >>= move_data fuel (ends_of src dst d) buflen (bare seg))
        ≡ Option.map bare_run (b >>= move_data fuel (watch (ends_of src dst d)) buflen seg)
  moving-bare fuel d buflen seg none = refl
  moving-bare fuel d buflen seg (some buf) = move_data-bare fuel d buflen seg buf

  segment_round-bare :
      (fuel : ℕ) (d : Option (Io S)) (buflen : ℕ) (state : State) (r : Run (Watched S))
      → segment_round fuel (ends_of src dst d) buflen state (bare_run r)
        ≡ Option.map bare_run (segment_round fuel (watch (ends_of src dst d)) buflen state r)
  unfolding segment_round
  segment_round-bare fuel d buflen state r = elim (turn-cases state r.segment.do_complete) [
    | inl t ↦ rw (segment_round, t) refl
    | inr (inl t) ↦
        rw (segment_round, t)
          (ap {A = Segment S} (λ s. some (record { segment = s; buf = r.buf }))
            (complete_segment-bare src dst d r.segment))
    | inr (inr (inl t)) ↦ rw (segment_round, t) refl
    | inr (inr (inr (t, _))) ↦ rw (segment_round, t) (moving-bare fuel d buflen r.segment r.buf)
  ]

  pub segment_rounds-bare :
      (fuel : ℕ) (d : Option (Io S)) (buflen : ℕ) (states : List State) (r : Run (Watched S))
      → segment_rounds fuel (ends_of src dst d) buflen states (bare_run r)
        ≡ Option.map bare_run (segment_rounds fuel (watch (ends_of src dst d)) buflen states r)
  unfolding segment_rounds
  segment_rounds-bare fuel d buflen [] r = refl
  segment_rounds-bare fuel d buflen (state ∷ states) r = elim (Bool-cases r.segment.running) [
    | inr off ↦
        segment_rounds_off fuel (ends_of src dst d) buflen (state ∷ states) (bare_run r) off
        ∙ sym (
            ap (Option.map bare_run)
              (segment_rounds_off fuel (watch (ends_of src dst d)) buflen (state ∷ states) r off))
    | inl on ↦
        segment_rounds_on fuel (ends_of src dst d) buflen state states (bare_run r) on
        ∙ ap (λ o. o >>= segment_rounds fuel (ends_of src dst d) buflen states)
            (segment_round-bare fuel d buflen state r)
        ∙ bind-map bare_run bare_run (segment_round fuel (watch (ends_of src dst d)) buflen state r)
            (segment_rounds fuel (ends_of src dst d) buflen states)
            (segment_rounds fuel (watch (ends_of src dst d)) buflen states)
            (λ x. segment_rounds-bare fuel d buflen states x)
        ∙ sym (
            ap (Option.map bare_run)
              (segment_rounds_on fuel (watch (ends_of src dst d)) buflen state states r on))
  ]
