-- ===== src/Metrics/Timing.antt =====
-- src/machine-metrics.c: what the timers do.
use bingewatch.Prelude.{
  ℕ, zero, suc, ◌+◌, ◌<◌, ◌≡◌, refl, true, false, ◌∷◌, ◌++◌, replicate, ltb, ap, add_size, size_mod,
  arith,
}
use bingewatch.Metrics.{Timer, start_timer, stop_timer, timer_round, run_timer}

-- A timer that has reached its period calls back in every round from then on.
run_timer_due : (rounds ms_reset : ℕ) → run_timer rounds ms_reset ms_reset ≡ replicate rounds true
unfolding run_timer timer_round
run_timer_due zero ms_reset = refl
run_timer_due (suc rounds) ms_reset =
    let e : ltb ms_reset ms_reset ≡ false = ground arith in rw (e, run_timer_due rounds ms_reset)

-- A timer's thread calls back for the first time after as many rounds of a millisecond as its
-- period has, and then in every round.
pub run_timer_lem :
    (ms rounds ms_reset from : ℕ)
    → from + ms ≡ ms_reset
    → ms_reset < size_mod
    → run_timer (ms + rounds) ms_reset from ≡ replicate ms false ++ replicate rounds true
unfolding run_timer timer_round
run_timer_lem zero rounds ms_reset from e lt =
    let e' : from ≡ ms_reset = omega (arith, e) in
    let n : 0 + rounds ≡ rounds = omega arith in rw (n, e') (run_timer_due rounds ms_reset)
run_timer_lem (suc ms) rounds ms_reset from e lt =
    let early : ltb from ms_reset ≡ true = ground arith in
    let next : add_size from 1 ≡ from + 1 = omega (arith, e, lt) in
    let n : suc ms + rounds ≡ suc (ms + rounds) = omega arith in
    rw (n, early, next)
      (ap (λ l. false ∷ l) (run_timer_lem ms rounds ms_reset (from + 1) (omega (arith, e)) lt))

-- `start_timer` and `stop_timer` are without effect on each other's work: once a timer has been
-- started it stays running with the period of the first start, whatever starts and stops follow.
pub start_timer-stop_timer :
    (ms again : ℕ) (timer : Timer)
    → (stop_timer (start_timer ms timer).1 ≡ (false, (start_timer ms timer).1))
      × (start_timer again (start_timer ms timer).1 ≡ (false, (start_timer ms timer).1))
unfolding start_timer stop_timer
start_timer-stop_timer ms again timer = (ground arith, ground arith)
