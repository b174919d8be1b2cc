-- ===== src/Machine/Moves.antt =====
-- src/machine.c: reads and writes through a descriptor, and what disables, stops and measures it.
pub mod Transfer
pub mod WriteSide
use bingewatch.Prelude.{
  ℕ, ◌+◌, ◌-◌, ◌%◌, Bool, true, false, Option, none, some, List, ◌==◌, if◌then◌else◌, ◌>>=◌,
}
use bingewatch.Status.{Status, DescState, is_complete}
use bingewatch.Metrics.{Metrics, metrics_fn, machine_metrics_update, machine_metrics_create}
use bingewatch.Machine.{
  Called, Filters, IoDesc, IoMetrics, Desc, Machines, machine_get_desc, change,
  machine_desc_acquire, machine_desc_release, io_desc_set_state,
}

-- What a read or a write leaves.
pub record Moved (F : Type 0) : Type 0 where
  pub status : Status
  pub bytes : ℕ
  pub buf : List ℕ
  pub machines : Machines F

-- The metrics of a side after a call: read out if the machine has completed.
pub measure : Metrics → (in_bytes : ℕ) → (bytes : ℕ) → Status → Metrics
measure m in_bytes bytes ret =
    let counted = metrics_fn m in_bytes bytes in
    if is_complete ret then machine_metrics_update counted else counted

measure_out : Option IoMetrics → ℕ → ℕ → Status → Option IoMetrics
unfolding measure
measure_out none in_bytes bytes ret = none
measure_out (some m) in_bytes bytes ret = some (record m { out = measure m.out in_bytes bytes ret })

measure_in : Option IoMetrics → ℕ → ℕ → Status → Option IoMetrics
unfolding measure
measure_in none in_bytes bytes ret = none
measure_in (some m) in_bytes bytes ret =
    some (record m { in_side = measure m.in_side in_bytes bytes ret })

module _ {F : Type 0} where
  unfoldable pub refused : Machines F → List ℕ → Status → ℕ → Moved F
  refused s buf status bytes = record { status = status; bytes = bytes; buf = buf; machines = s }

  -- The call of the read filter, between acquiring and releasing the descriptor.
  call_read : Filters F → Machines F → ℕ → Desc F → IoDesc F → F → List ℕ → ℕ → Moved F
  unfolding change machine_desc_acquire machine_desc_release measure_out
  call_read filters s h d io f buf bytes =
      let r = filters.call f buf bytes in
      let held = machine_desc_acquire d in
      let done : Desc F = record held {
        io_read = some (record io { obj = some r.filter });
        metrics = measure_out d.metrics bytes r.bytes r.status;
      } in
      record {
        status = r.status;
        bytes = r.bytes;
        buf = r.buf;
        machines = change h (λ _. machine_desc_release done) s;
      }

  call_write : Filters F → Machines F → ℕ → Desc F → IoDesc F → F → List ℕ → ℕ → Moved F
  unfolding change machine_desc_acquire machine_desc_release measure_in
  call_write filters s h d io f buf bytes =
      let r = filters.call f buf bytes in
      let held = machine_desc_acquire d in
      let done : Desc F = record held {
        io_write = some (record io { obj = some r.filter });
        metrics = measure_in d.metrics bytes r.bytes r.status;
      } in
      record {
        status = r.status;
        bytes = r.bytes;
        buf = r.buf;
        machines = change h (λ _. machine_desc_release done) s;
      }

  -- One side of a descriptor replaced.
  pub put_read : IoDesc F → Desc F → Desc F
  put_read io d = record d { io_read = some io }

  pub put_write : IoDesc F → Desc F → Desc F
  put_write io d = record d { io_write = some io }

  -- The body of `machine_desc_read` once its filter is found.
  read_side : Filters F → Machines F → ℕ → Desc F → IoDesc F → F → List ℕ → ℕ → Moved F
  unfolding refused change put_read call_read
  read_side filters s h d io f buf bytes = elim io.state [
    | DescState.disabling ↦
        refused (change h (put_read (io_desc_set_state io DescState.disabled)) s) buf Status.success
          0
    | DescState.disabled ↦ refused s buf Status.success 0
    | DescState.stopped ↦ refused s buf Status.complete 0
    | _ ↦ call_read filters s h d io f buf bytes
  ]

  -- What `machine_desc_read` needs before it looks at the state.
  pub readable : Machines F → ℕ → Option (Desc F × IoDesc F × F)
  unfolding machine_get_desc
  readable s h = do d ← machine_get_desc s h; io ← d.io_read; f ← io.obj; some (d, io, f)

  -- `machine_desc_read`
  pub machine_desc_read : Filters F → Machines F → ℕ → List ℕ → ℕ → Moved F
  unfolding readable refused read_side
  machine_desc_read filters s h buf bytes = elim (readable s h) [
    | none ↦ refused s buf Status.error bytes
    | some found ↦ read_side filters s h found.0 found.1 found.2 buf bytes
  ]

  -- The body of `machine_desc_write` once its filter is found.
  write_side : Filters F → Machines F → ℕ → Desc F → IoDesc F → F → List ℕ → ℕ → Moved F
  unfolding refused change put_write call_write
  write_side filters s h d io f buf bytes = elim io.state [
    | DescState.disabling ↦
        refused (change h (put_write (io_desc_set_state io DescState.disabled)) s) buf
          Status.success 0
    | DescState.disabled ↦ refused s buf Status.success 0
    | DescState.stopped ↦ refused s buf Status.complete 0
    | _ ↦ call_write filters s h d io f buf bytes
  ]

  -- What `machine_desc_write` needs before it looks at the state.
  pub writable : Machines F → ℕ → Option (Desc F × IoDesc F × F)
  unfolding machine_get_desc
  writable s h = do d ← machine_get_desc s h; io ← d.io_write; f ← io.obj; some (d, io, f)

  -- `machine_desc_write`
  pub machine_desc_write : Filters F → Machines F → ℕ → List ℕ → ℕ → Moved F
  unfolding writable refused write_side
  machine_desc_write filters s h buf bytes = elim (writable s h) [
    | none ↦ refused s buf Status.error bytes
    | some found ↦ write_side filters s h found.0 found.1 found.2 buf bytes
  ]

  -- The metrics of a side read out.
  update_out : Desc F → Desc F
  update_out d = elim d.metrics [
    | none ↦ d
    | some m ↦ record d { metrics = some (record m { out = machine_metrics_update m.out }) }
  ]

  update_in : Desc F → Desc F
  update_in d = elim d.metrics [
    | none ↦ d
    | some m ↦ record d { metrics = some (record m { in_side = machine_metrics_update m.in_side }) }
  ]

  -- `machine_disable_read`, which asks for the write side.
  pub machine_disable_read : Machines F → ℕ → Option (Machines F)
  unfolding machine_get_desc change put_read update_out
  machine_disable_read s h = elim (machine_get_desc s h) [
    | none ↦ some s
    | some d ↦ elim d.io_write [
      | none ↦ some s
      | some _ ↦ do
        io ← d.io_read
        some (change h (λ d. update_out (put_read (io_desc_set_state io DescState.disabling) d)) s)
    ]
  ]

  -- `machine_disable_write`
  pub machine_disable_write : Machines F → ℕ → Machines F
  unfolding machine_get_desc change put_write update_in
  machine_disable_write s h = elim (machine_get_desc s h) [
    | none ↦ s
    | some d ↦ elim d.io_write [
      | none ↦ s
      | some io ↦
          change h (λ d. update_in (put_write (io_desc_set_state io DescState.disabling) d)) s
    ]
  ]

  -- `machine_stop`
  disable : Option (IoDesc F) → Option (IoDesc F)
  disable none = none
  disable (some io) = some (io_desc_set_state io DescState.disabling)

  pub machine_stop : Machines F → ℕ → Machines F
  unfolding machine_get_desc change disable
  machine_stop s h = elim (machine_get_desc s h) [
    | none ↦ s
    | some d ↦
        change h (λ d. record d { io_write = disable d.io_write; io_read = disable d.io_read }) s
  ]

  -- `machine_desc_init`; each flag is whether the pool has room for that side.
  pub machine_desc_init : (room_read : Bool) (room_write : Bool) → ℕ → Desc F → Status × Desc F
  machine_desc_init room_read room_write machine d =
      let blank : IoDesc F = record { state = DescState.enabled; size = 0; obj = none } in
      let with_read : Desc F = record d { io_read = some blank } in
      if room_read
      then (if room_write
          then (
            Status.success,
            record with_read { io_write = some blank; handle = 0; machine = machine },
          )
          else (Status.error, record with_read { io_write = none }))
      else (Status.error, record d { io_read = none })

  -- `machine_metrics_enable`
  pub machine_metrics_enable : Machines F → ℕ → Machines F
  unfolding machine_get_desc change
  machine_metrics_enable s h = if h == 0 then s else elim (machine_get_desc s h) [
    | none ↦ s
    | some d ↦ elim d.metrics [
      | some _ ↦ s
      | none ↦
          change h
            (λ d. record d {
              metrics =
                  some (record { in_side = machine_metrics_create; out = machine_metrics_create });
            })
            s
    ]
  ]
