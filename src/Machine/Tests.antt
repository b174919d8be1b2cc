-- ===== src/Machine/Tests.antt =====
-- Two descriptors over a filter that counts its calls, and the theorems at them.
use bingewatch.Prelude.{ℕ, ◌+◌, ◌≡◌, ◌≢◌, refl, none, some, List, [], ◌∷◌, find_key, arith}
use bingewatch.Status.{Status, DescState}
use bingewatch.Machine.{
  Filters, IoDesc, Desc, Machines, get_machine_by_handle, machine_register_desc, machine_get_desc,
}
use bingewatch.Machine.Registry.{
  Registered, HasFilter, registered, machine_register_desc-machine_get_desc,
}
use bingewatch.Machine.Moves.{machine_stop}
use bingewatch.Machine.Moves.Transfer.{ReadsIn, read_all, no_bytes, machine_stop-machine_desc_read}

-- The filter's state is how often it was called; it fills the buffer with that number.
abbrev counting : Filters ℕ
counting = record {
  call = λ f buf bytes. record { status = Status.success; bytes = 1; buf = f ∷ []; filter = f + 1 };
  set_handle = λ h f. f;
}

abbrev side : IoDesc ℕ
side = record { state = DescState.enabled; size = 0; obj = some 5 }

abbrev source : Desc ℕ
source = record {
  handle = 1;
  machine = 0;
  in_use = 0;
  io_read = some side;
  io_write = none;
  metrics = none;
}

abbrev machines : Machines ℕ
machines = record {
  machines = [];
  handle_map = record { handle = 1; machine = 0 } ∷ [];
  handle_alloc = 256;
  handle_counter = 1;
  machine_descriptors = source ∷ [];
}

machines-Registered : Registered machines
unfolding Registered
machines-Registered = ((omega arith, tt, tt), (omega arith, tt, tt))

has : HasFilter (some side)
unfolding HasFilter
has = (5, refl)

has_none : HasFilter {F = ℕ} none
unfolding HasFilter
has_none = tt

machine_register_desc-machine_get_desc_example :
    (h : ℕ) × (s' : Machines ℕ) × (machine_register_desc counting machines source ≡ some (h, s'))
    × (h ≢ 0)
    × (machine_get_desc machines h ≡ none)
    × (machine_get_desc s' h ≡ some (registered counting h source))
    × (get_machine_by_handle s' h ≡ some (record { handle = h; machine = 0 }))
    × ((g : ℕ) → h ≢ g → machine_get_desc s' g ≡ machine_get_desc machines g)
    × Registered s'
machine_register_desc-machine_get_desc_example =
    machine_register_desc-machine_get_desc counting machines source machines-Registered
      (omega arith) has has_none

-- What handle 1 finds.
found : machine_get_desc machines 1 ≡ some source
unfolding machine_get_desc find_key
found = refl

readable_side : ReadsIn machines 1 DescState.enabled 5
unfolding ReadsIn
readable_side = (source, side, found, refl, refl, refl, refl)

abbrev requests : List (List ℕ × ℕ)
requests = ([], 4) ∷ (2 ∷ [], 8) ∷ []

machine_stop-machine_desc_read_example :
    ((read_all counting (machine_stop machines 1) 1 (([], 1) ∷ requests)).0
      ≡ no_bytes (([], 1) ∷ requests))
    × ReadsIn
        (read_all counting (machine_stop machines 1) 1 (([], 1) ∷ requests)).1
        1
        DescState.disabled
        5
machine_stop-machine_desc_read_example =
    machine_stop-machine_desc_read counting machines 1 DescState.enabled 5 ([], 1) requests
      readable_side
