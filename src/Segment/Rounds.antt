-- ===== src/Segment/Rounds.antt =====
-- The rounds of `segment_run`, one by one.
use bingewatch.Prelude.{
  ◌≡◌, refl, ap, ◌∙◌, ◌⊎◌, inl, inr, ℕ, Bool, true, false, some, List, [], ◌∷◌, ◌>>=◌,
}
use bingewatch.Stream.{State, is_running}
use bingewatch.Segment.{
  Joined, Run, spin, complete, quit, move, turn, segment_round, segment_rounds,
}

pub turn-cases :
    (state : State) (b : Bool)
    → (turn state b ≡ spin)
      ⊎ ((turn state b ≡ complete)
          ⊎ ((turn state b ≡ quit) ⊎ ((turn state b ≡ move) × (b ≡ false))))
unfolding turn is_running
turn-cases State.ready b = inl refl
turn-cases State.init true = inr (inl refl)
turn-cases State.running true = inr (inl refl)
turn-cases State.finishing true = inr (inl refl)
turn-cases State.done true = inr (inl refl)
turn-cases State.stopped true = inr (inl refl)
turn-cases State.state_error true = inr (inl refl)
turn-cases State.init false = inr (inr (inl refl))
turn-cases State.done false = inr (inr (inl refl))
turn-cases State.stopped false = inr (inr (inl refl))
turn-cases State.state_error false = inr (inr (inl refl))
turn-cases State.running false = inr (inr (inr (refl, refl)))
turn-cases State.finishing false = inr (inr (inr (refl, refl)))

-- A segment that has stopped does nothing more.
pub segment_rounds_off :
    {W : Type 0} (fuel : ℕ) (e : Joined W) (buflen : ℕ) (states : List State) (r : Run W)
    → r.segment.running ≡ false
    → segment_rounds fuel e buflen states r ≡ some r
unfolding segment_rounds
segment_rounds_off fuel e buflen [] r off = refl
segment_rounds_off fuel e buflen (state ∷ states) r off = simp (segment_rounds, off)

-- One that runs goes on from what the round leaves.
pub segment_rounds_on :
    {W : Type 0} (fuel : ℕ) (e : Joined W) (buflen : ℕ) (state : State) (states : List State)
    (r : Run W)
    → r.segment.running ≡ true
    → segment_rounds fuel e buflen (state ∷ states) r
      ≡ (segment_round fuel e buflen state r >>= segment_rounds fuel e buflen states)
unfolding segment_rounds
segment_rounds_on fuel e buflen state states r on = simp (segment_rounds, on)

pub segment_rounds_next :
    {W : Type 0} (fuel : ℕ) (e : Joined W) (buflen : ℕ) (state : State) (states : List State)
    (r r1 : Run W)
    → r.segment.running ≡ true
    → segment_round fuel e buflen state r ≡ some r1
    → segment_rounds fuel e buflen (state ∷ states) r ≡ segment_rounds fuel e buflen states r1
segment_rounds_next fuel e buflen state states r r1 on eq =
    segment_rounds_on fuel e buflen state states r on
    ∙ ap (λ o. o >>= segment_rounds fuel e buflen states) eq
