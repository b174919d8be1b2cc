-- ===== src/Machine.antt =====
-- src/machine.c, src/machine-mgmt.c and include/machine.h: the machines registered by name, the
-- handles given out, and the list of descriptors that reads and writes go through.
--
-- A filter chain is what a descriptor's `obj` points to; `Filters` is what this code does with
-- one. Locks, log lines and the functions that only print are left out. `none` stands for a null
-- pointer that is used.
pub mod Registry
pub mod Moves
mod Tests
use bingewatch.Prelude.{
  ℕ, ◌+◌, ◌-◌, ◌%◌, ◌^◌, Bool, true, false, Option, none, some, List, [], ◌∷◌, ◌++◌, ◌==◌,
  if◌then◌else◌, ◌>>=◌, length, find_key, update_key, remove_key,
}
use bingewatch.Status.{Status, DescState}
use bingewatch.Metrics.{Metrics}

-- What a call of a filter leaves: its answer, `*bytes`, the buffer and its own new state.
pub record Called (F : Type 0) : Type 0 where
  pub status : Status
  pub bytes : ℕ
  pub buf : List ℕ
  pub filter : F

-- `f->call` and `f->obj = &handle` for the filters of a descriptor.
pub record Filters (F : Type 0) : Type 0 where
  pub call : F → List ℕ → ℕ → Called F
  pub set_handle : ℕ → F → F

-- `struct io_desc`
pub record IoDesc (F : Type 0) : Type 0 where
  pub state : DescState
  pub size : ℕ
  pub obj : Option F

-- `struct io_metrics_t`; `in` is a reserved word.
pub record IoMetrics : Type 0 where
  pub in_side : Metrics
  pub out : Metrics

-- `struct machine_desc_t`; `in_use` is a `char`, kept modulo 2^8.
pub record Desc (F : Type 0) : Type 0 where
  pub handle : ℕ
  pub machine : ℕ
  pub in_use : ℕ
  pub io_read : Option (IoDesc F)
  pub io_write : Option (IoDesc F)
  pub metrics : Option IoMetrics

-- `struct handle_map_t`
pub record HandleMap : Type 0 where
  pub handle : ℕ
  pub machine : ℕ

-- The static variables of both files; a machine is its place in `machines`, which has the names.
pub record Machines (F : Type 0) : Type 0 where
  pub machines : List (List ℕ)
  pub handle_map : List HandleMap
  pub handle_alloc : ℕ
  pub handle_counter : ℕ
  pub machine_descriptors : List (Desc F)

-- `strcmp(a, b) == 0`
unfoldable pub same_name : List ℕ → List ℕ → Bool
same_name [] [] = true
same_name (x ∷ xs) (y ∷ ys) = let rest = same_name xs ys in if x == y then rest else false
same_name _ _ = false

find_name : List ℕ → ℕ → List (List ℕ) → Option ℕ
unfolding same_name
find_name name i [] = none
find_name name i (m ∷ ms) =
    let rest = find_name name (i + 1) ms in if same_name name m then some i else rest

-- `IO_HANDLE` is a 32-bit integer.
abbrev pub handle_mod : ℕ
handle_mod = 2 ^ 32

-- `MACHINE_CHUNK`
abbrev pub machine_chunk : ℕ
machine_chunk = 256

module _ {F : Type 0} where
  -- `get_machine`
  pub get_machine : Machines F → List ℕ → Option ℕ
  unfolding find_name
  get_machine s name = find_name name 0 s.machines

  -- `get_machine_by_handle`, `get_machine_ref`
  pub get_machine_by_handle : Machines F → ℕ → Option HandleMap
  get_machine_by_handle s h = find_key (λ m. m.handle) h s.handle_map

  -- `machine_register`: the machine's place, `none` where the name is taken.
  pub machine_register : Machines F → List ℕ → Option ℕ × Machines F
  unfolding get_machine
  machine_register s name = elim (get_machine s name) [
    | some _ ↦ (none, s)
    | none ↦ (some (length s.machines), record s { machines = s.machines ++ (name ∷ []) })
  ]

  -- `request_handle`
  pub request_handle : Machines F → ℕ → ℕ × Machines F
  request_handle s machine =
      let handle_count = length s.handle_map in
      let alloc =
        if handle_count == s.handle_alloc then s.handle_alloc + machine_chunk else s.handle_alloc in
      let counter = s.handle_counter + 1 in
      let h = counter % handle_mod in
      (
        h,
        record s {
          handle_alloc = alloc;
          handle_counter = counter;
          handle_map = s.handle_map ++ (record { handle = h; machine = machine } ∷ []);
        },
      )

  -- A side's filter is told the handle.
  tell : Filters F → ℕ → Option (IoDesc F) → Option (Option (IoDesc F))
  tell filters h none = some none
  tell filters h (some io) = elim io.obj [
    | none ↦ none
    | some f ↦ some (some (record io { obj = some (filters.set_handle h f) }))
  ]

  -- `machine_register_desc`
  pub machine_register_desc : Filters F → Machines F → Desc F → Option (ℕ × Machines F)
  unfolding request_handle tell
  machine_register_desc filters s addme =
      let requested = request_handle s addme.machine in
      if requested.0 == 0 then some (0, requested.1) else (do
        io_read ← tell filters requested.0 addme.io_read
        io_write ← tell filters requested.0 addme.io_write
        let added : Desc F = record addme {
          handle = requested.0;
          io_read = io_read;
          io_write = io_write;
        }
        some (
          requested.0,
          record requested.1 { machine_descriptors = s.machine_descriptors ++ (added ∷ []) },
        ))

  -- `machine_get_desc`
  unfoldable pub machine_get_desc : Machines F → ℕ → Option (Desc F)
  machine_get_desc s h = find_key (λ d. d.handle) h s.machine_descriptors

  -- `machine_destroy_desc`: the descriptor taken off the list, which is freed once it is no
  -- longer in use.
  pub machine_destroy_desc : Machines F → ℕ → Option (Desc F) × Machines F
  unfolding machine_get_desc
  machine_destroy_desc s h = elim (machine_get_desc s h) [
    | none ↦ (none, s)
    | some d ↦ (
      some d,
      record s { machine_descriptors = remove_key (λ d. d.handle) h s.machine_descriptors },
    )
  ]

  -- The descriptor of a handle changed in place.
  pub change : ℕ → (Desc F → Desc F) → Machines F → Machines F
  change h f s = record s {
    machine_descriptors = update_key (λ d. d.handle) h f s.machine_descriptors;
  }

  -- `machine_desc_acquire`, `machine_desc_release`
  pub machine_desc_acquire : Desc F → Desc F
  machine_desc_acquire d = record d { in_use = (d.in_use + 1) % 256 }

  pub machine_desc_release : Desc F → Desc F
  machine_desc_release d = record d { in_use = (d.in_use + 255) % 256 }

  -- `io_desc_set_state`; every value of the enumeration passes its check.
  abbrev pub io_desc_set_state : IoDesc F → DescState → IoDesc F
  io_desc_set_state io new_state = record io { state = new_state }
