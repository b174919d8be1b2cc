-- ===== src/Metrics/Tests.antt =====
-- A counter and a timer, and the theorems at them.
use bingewatch.Prelude.{◌%◌, ◌≡◌, true, false, List, [], ◌∷◌, size_mod}
use bingewatch.Metrics.{Timer, machine_metrics_create}
use bingewatch.Metrics.Counting.{
  Event, handle_all, asked, received, calls, seen_bytes, seen_calls, handle_all-conserves,
}

abbrev events : List Event
events =
    Event.report 10 4
    ∷ Event.signal true false
    ∷ Event.report 10 0
    ∷ Event.update
    ∷ Event.report 3 3
    ∷ []

handle_all-conserves_example :
    (seen_bytes (handle_all machine_metrics_create events).req % size_mod ≡ asked events % size_mod)
    × (seen_bytes (handle_all machine_metrics_create events).rec % size_mod
        ≡ received events % size_mod)
    × (seen_calls (handle_all machine_metrics_create events).req % size_mod
        ≡ calls events % size_mod)
handle_all-conserves_example = handle_all-conserves events

abbrev idle : Timer
idle = record { ms = 7; running = false }
