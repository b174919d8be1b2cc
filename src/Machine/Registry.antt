-- ===== src/Machine/Registry.antt =====
-- src/machine.c and src/machine-mgmt.c: handles and descriptors, from registration to destruction.
use bingewatch.Prelude.{
  ℕ, ◌+◌, ◌%◌, ◌<◌, ◌≡◌, ◌≢◌, refl, sym, ap, ◌∙◌, false, Option, none, some, Option-cases, inl, inr,
  [], ◌∷◌, ◌++◌, ◌==◌, find_key, remove_key, IsKeyed, find_key-fresh, find_key_head,
  find_key-append_none, find_key-append_other, append-IsKeyed, find_key-remove,
  find_key-remove_other, arith,
}
use bingewatch.Machine.{
  Filters, IoDesc, Desc, HandleMap, Machines, handle_mod, get_machine_by_handle, request_handle,
  tell, machine_register_desc, machine_get_desc, machine_destroy_desc,
}

module _ {F : Type 0} where
  -- The handles of the descriptors, and those of the map, were given out by the counter, none
  -- twice.
  unfoldable pub Registered : Machines F → Type 0
  Registered s =
      IsKeyed (λ d. d.handle) s.handle_counter s.machine_descriptors
      × IsKeyed (λ m. m.handle) s.handle_counter s.handle_map

  -- A side that is there has a filter.
  unfoldable pub HasFilter : Option (IoDesc F) → Type 0
  HasFilter none = Unit
  HasFilter (some io) = (f : F) × (io.obj ≡ some f)

  -- A side whose filter knows the handle.
  pub told : Filters F → ℕ → Option (IoDesc F) → Option (IoDesc F)
  told filters h none = none
  told filters h (some io) =
      some (elim io.obj [ none ↦ io | some f ↦ record io { obj = some (filters.set_handle h f) } ])

  tell-told :
      (filters : Filters F) (h : ℕ) (side : Option (IoDesc F))
      → HasFilter side
      → tell filters h side ≡ some (told filters h side)
  unfolding tell told HasFilter
  tell-told filters h none has = refl
  tell-told filters h (some io) has = rw (has.1, tell, told) refl

  -- The descriptor as `machine_register_desc` leaves it.
  pub registered : Filters F → ℕ → Desc F → Desc F
  registered filters h d = record d {
    handle = h;
    io_read = told filters h d.io_read;
    io_write = told filters h d.io_write;
  }

  machine_register_desc_open :
      (filters : Filters F) (s : Machines F) (d : Desc F)
      → s.handle_counter + 1 < handle_mod
      → HasFilter d.io_read
      → HasFilter d.io_write
      → machine_register_desc filters s d
        ≡ some (
          s.handle_counter + 1,
          record (request_handle s d.machine).1 {
            machine_descriptors =
                s.machine_descriptors ++ (registered filters (s.handle_counter + 1) d ∷ []);
          },
        )
  unfolding machine_register_desc request_handle registered
  machine_register_desc_open filters s d small r w =
      let h : (s.handle_counter + 1) % handle_mod ≡ s.handle_counter + 1 = omega (arith, small) in
      let e : (s.handle_counter + 1 == 0) ≡ false = ground arith in
      rw
        (
          h,
          e,
          tell-told filters (s.handle_counter + 1) d.io_read r,
          tell-told filters (s.handle_counter + 1) d.io_write w,
        )
        refl

  request_handle_open :
      (s : Machines F) (machine : ℕ)
      → s.handle_counter + 1 < handle_mod
      → ((request_handle s machine).1.handle_map
          ≡ s.handle_map ++ (record { handle = s.handle_counter + 1; machine = machine } ∷ []))
        × ((request_handle s machine).1.handle_counter ≡ s.handle_counter + 1)
  unfolding request_handle
  request_handle_open s machine small =
      let h : (s.handle_counter + 1) % handle_mod ≡ s.handle_counter + 1 = omega (arith, small) in
      (ap (λ h. s.handle_map ++ (record { handle = h; machine = machine } ∷ [])) h, refl)

  -- A handle that is requested is new, and no descriptor gets it by that.
  pub request_handle_fresh :
      (s : Machines F) (machine : ℕ)
      → s.handle_counter + 1 < handle_mod
      → ((request_handle s machine).0 ≡ s.handle_counter + 1)
        × ((request_handle s machine).1.machine_descriptors ≡ s.machine_descriptors)
  unfolding request_handle
  request_handle_fresh s machine small = (omega (arith, small), refl)

  registered-handle :
      (filters : Filters F) (h : ℕ) (d : Desc F) → (registered filters h d).handle ≡ h
  unfolding registered
  registered-handle filters h d = refl

  -- Where the handles are distinct and the next one fits 32 bits, `machine_register_desc` of a
  -- descriptor whose sides have their filters gives a handle that no descriptor had, and then that
  -- handle finds the descriptor, with its filters told the handle, and its machine; every other
  -- handle finds the descriptor that it found before, and the handles stay distinct.
  pub machine_register_desc-machine_get_desc :
      (filters : Filters F) (s : Machines F) (d : Desc F)
      → Registered s
      → s.handle_counter + 1 < handle_mod
      → HasFilter d.io_read
      → HasFilter d.io_write
      → (h : ℕ) × (s' : Machines F) × (machine_register_desc filters s d ≡ some (h, s'))
        × (h ≢ 0)
        × (machine_get_desc s h ≡ none)
        × (machine_get_desc s' h ≡ some (registered filters h d))
        × (get_machine_by_handle s' h ≡ some (record { handle = h; machine = d.machine }))
        × ((g : ℕ) → h ≢ g → machine_get_desc s' g ≡ machine_get_desc s g)
        × Registered s'
  unfolding machine_get_desc get_machine_by_handle Registered registered
  machine_register_desc-machine_get_desc filters s d reg small r w =
      let h = s.handle_counter + 1 in
      let q = request_handle_open s d.machine small in
      let mapped : HandleMap = record { handle = h; machine = d.machine } in
      let gone : find_key (λ d. d.handle) h s.machine_descriptors ≡ none =
        find_key-fresh (λ d. d.handle) s.handle_counter h s.machine_descriptors reg.0
          (omega arith) in
      let unmapped : find_key (λ m. m.handle) h s.handle_map ≡ none =
        find_key-fresh (λ m. m.handle) s.handle_counter h s.handle_map reg.1 (omega arith) in
      let found : find_key (λ m. m.handle) h (s.handle_map ++ (mapped ∷ [])) ≡ some mapped =
        find_key-append_none (λ m. m.handle) h s.handle_map _ unmapped
        ∙ find_key_head (λ m. m.handle) h mapped [] refl in
      let same : (registered filters h d).handle ≡ h = registered-handle filters h d in
      let listed : IsKeyed (λ d. d.handle) h
          (s.machine_descriptors ++ (registered filters h d ∷ [])) =
        rw same at (
          append-IsKeyed (λ d. d.handle) s.handle_counter s.machine_descriptors
            (registered filters h d) reg.0 (omega (arith, same))) in
      let others : (g : ℕ)
          → h ≢ g
          → find_key (λ d. d.handle) g (s.machine_descriptors ++ (registered filters h d ∷ []))
            ≡ find_key (λ d. d.handle) g s.machine_descriptors =
        λ g ne.
          find_key-append_other (λ d. d.handle) g s.machine_descriptors _
            (omega (arith, same, ne)) in
      (
        h,
        _,
        machine_register_desc_open filters s d small r w,
        omega arith,
        gone,
        find_key-append_none (λ d. d.handle) h s.machine_descriptors _ gone
            ∙ find_key_head (λ d. d.handle) h (registered filters h d) [] same,
        ap (find_key (λ m. m.handle) h) q.0 ∙ found,
        others,
        (rw (q.1, q.0)
            (
              listed,
              append-IsKeyed (λ m. m.handle) s.handle_counter s.handle_map mapped reg.1
                  (omega arith),
            )),
      )

  removed :
      (s : Machines F) (h : ℕ)
      → IsKeyed (λ d. d.handle) s.handle_counter s.machine_descriptors
      → machine_get_desc
          (record s { machine_descriptors = remove_key (λ d. d.handle) h s.machine_descriptors })
          h
        ≡ none
  unfolding machine_get_desc
  removed s h k = find_key-remove (λ d. d.handle) s.handle_counter h s.machine_descriptors k

  kept :
      (s : Machines F) (h g : ℕ)
      → h ≢ g
      → machine_get_desc
          (record s { machine_descriptors = remove_key (λ d. d.handle) h s.machine_descriptors })
          g
        ≡ machine_get_desc s g
  unfolding machine_get_desc
  kept s h g ne = find_key-remove_other (λ d. d.handle) h g s.machine_descriptors ne

  -- After `machine_destroy_desc` no descriptor has the handle; what it returns is the descriptor
  -- that the handle found, and every other handle finds what it found before.
  pub machine_destroy_desc-machine_get_desc :
      (s : Machines F) (h : ℕ)
      → Registered s
      → ((machine_destroy_desc s h).0 ≡ machine_get_desc s h)
        × (machine_get_desc (machine_destroy_desc s h).1 h ≡ none)
        × ((g : ℕ) → h ≢ g → machine_get_desc (machine_destroy_desc s h).1 g ≡ machine_get_desc s g)
  unfolding machine_destroy_desc Registered
  machine_destroy_desc-machine_get_desc s h reg = elim (Option-cases (machine_get_desc s h)) [
    | inl e ↦
        let at : machine_destroy_desc s h ≡ (none, s) = rw (e, machine_destroy_desc) refl in
        (
          ap (λ r. r.0) at ∙ sym e,
          ap (λ r. machine_get_desc r.1 h) at ∙ e,
          λ g ne. ap (λ r. machine_get_desc r.1 g) at,
        )
    | inr found ↦
        let at : machine_destroy_desc s h ≡ (
          some found.0,
          record s { machine_descriptors = remove_key (λ d. d.handle) h s.machine_descriptors },
        ) =
          rw (found.1, machine_destroy_desc) refl in
        (
          ap (λ r. r.0) at ∙ sym found.1,
          ap (λ r. machine_get_desc r.1 h) at ∙ removed s h reg.0,
          λ g ne. ap (λ r. machine_get_desc r.1 g) at ∙ kept s h g ne,
        )
  ]
