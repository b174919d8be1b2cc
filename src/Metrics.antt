-- ===== src/Metrics.antt =====
-- src/machine-metrics.c: the counters of one side of a machine, and the timers.
--
-- The times and the rates, which are doubles, and the text printed are left out; what is kept is
-- every counter and signal, and the length of the array of rates.
pub mod Counting
pub mod Timing
mod Tests
use bingewatch.Prelude.{
  ℕ, zero, suc, Bool, true, false, List, [], ◌∷◌, leb, ltb, ◌==◌, if◌then◌else◌, add_size,
}

-- `struct io_metrics_count_t`
pub record Count : Type 0 where
  pub count : ℕ
  pub bytes : ℕ
  pub total_count : ℕ
  pub total_bytes : ℕ

-- `IO_METRICS`; `started` is `fn == machine_metrics_update_fn`.
pub record Metrics : Type 0 where
  pub started : Bool
  pub update_signal : Bool
  pub print_signal : Bool
  pub req : Count
  pub rec : Count
  pub n_calc : ℕ
  pub calc_len : ℕ

-- The totals are updated and the counters cleared.
add_totals : Count → Count
add_totals c = record {
  count = 0;
  bytes = 0;
  total_count = add_size c.total_count c.count;
  total_bytes = add_size c.total_bytes c.bytes;
}

-- `machine_metrics_update`
pub machine_metrics_update : Metrics → Metrics
unfolding add_totals
machine_metrics_update m = record m {
  calc_len = if leb m.n_calc m.calc_len then add_size m.calc_len 10 else m.calc_len;
  req = add_totals m.req;
  rec = add_totals m.rec;
  update_signal = false;
}

-- `machine_metrics_print`, by `machine_metrics_fmt` and `machine_metrics_calculate`.
pub machine_metrics_print : Metrics → Metrics
unfolding machine_metrics_update
machine_metrics_print m =
    let updated = machine_metrics_update m in if m.n_calc == 0 then updated else m

-- One more call, of so many bytes.
count_call : ℕ → Count → Count
count_call bytes c = record c { count = add_size c.count 1; bytes = add_size c.bytes bytes }

-- `machine_metrics_update_fn`
pub machine_metrics_update_fn : Metrics → (req_bytes : ℕ) → (rec_bytes : ℕ) → Metrics
unfolding machine_metrics_update machine_metrics_print count_call
machine_metrics_update_fn m req_bytes rec_bytes =
    let asked : Metrics = record m {
      req = count_call req_bytes m.req;
      rec = if ltb 0 rec_bytes then count_call rec_bytes m.rec else m.rec;
    } in
    let updated = if asked.update_signal then machine_metrics_update asked else asked in
    if updated.print_signal then machine_metrics_print updated else updated

-- `m->fn`: `machine_metrics_init` the first time.
pub metrics_fn : Metrics → ℕ → ℕ → Metrics
unfolding machine_metrics_update_fn
metrics_fn m req_bytes rec_bytes =
    machine_metrics_update_fn (record m { started = true }) req_bytes rec_bytes

-- One side of `machine_metrics_create`.
pub machine_metrics_create : Metrics
machine_metrics_create =
    let none_yet : Count = record { count = 0; bytes = 0; total_count = 0; total_bytes = 0 } in
    record {
      started = false;
      update_signal = false;
      print_signal = false;
      req = none_yet;
      rec = none_yet;
      n_calc = 0;
      calc_len = 0;
    }

-- `struct timer_t`; `running` is MM_TIMER_RUNNING.
pub record Timer : Type 0 where
  pub ms : ℕ
  pub running : Bool

-- `start_timer`, and whether it makes a thread.
pub start_timer : ℕ → Timer → Bool × Timer
start_timer ms timer =
    if timer.running then (false, timer) else (true, record { ms = ms; running = true })

-- `stop_timer`, and whether it waits for the thread to end.
pub stop_timer : Timer → Bool × Timer
stop_timer timer =
    if timer.running then (false, timer) else (true, record timer { running = false })

-- One round of `run_timer`: the count `ms`, and whether the callback is called.
pub timer_round : (ms_reset : ℕ) → (ms : ℕ) → Bool × ℕ
timer_round ms_reset ms = if ltb ms ms_reset then (false, add_size ms 1) else (true, ms_reset)

-- The rounds of `run_timer` in which the callback is called, of so many.
pub run_timer : ℕ → (ms_reset : ℕ) → (ms : ℕ) → List Bool
unfolding timer_round
run_timer zero ms_reset ms = []
run_timer (suc rounds) ms_reset ms =
    let r = timer_round ms_reset ms in r.0 ∷ run_timer rounds ms_reset r.1
