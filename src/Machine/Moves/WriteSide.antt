-- ===== src/Machine/Moves/WriteSide.antt =====
-- src/machine.c: what writes do once a machine has been stopped.
use bingewatch.Prelude.{ℕ, ◌≡◌, refl, ap, ◌∙◌, ◌⊎◌, inl, inr, some, List}
use bingewatch.Status.{Status, DescState}
use bingewatch.Machine.{
  Filters, IoDesc, Desc, Machines, machine_get_desc, change, io_desc_set_state,
}
use bingewatch.Machine.Moves.{
  refused, writable, machine_desc_write, write_side, put_write, machine_stop, disable,
}
use bingewatch.Machine.Moves.Transfer.{change-machine_get_desc}

module _ {F : Type 0} where
  -- The handle finds a descriptor whose write side is in a state and has a filter.
  unfoldable pub WritesIn : Machines F → ℕ → DescState → F → Type 0
  WritesIn s h state f =
      (d : Desc F) × (io : IoDesc F) × (machine_get_desc s h ≡ some d)
      × (d.handle ≡ h)
      × (d.io_write ≡ some io)
      × (io.state ≡ state)
      × (io.obj ≡ some f)

  -- A machine that is stopped, or on its way.
  abbrev pub Deaf : ℕ → F → Machines F → Type 0
  Deaf h f s = WritesIn s h DescState.disabling f ⊎ WritesIn s h DescState.disabled f

  machine_desc_write_open :
      (filters : Filters F) (s : Machines F) (h : ℕ) (d : Desc F) (io : IoDesc F) (f : F)
      (buf : List ℕ) (bytes : ℕ)
      → machine_get_desc s h ≡ some d
      → d.io_write ≡ some io
      → io.obj ≡ some f
      → machine_desc_write filters s h buf bytes ≡ write_side filters s h d io f buf bytes
  unfolding machine_desc_write writable
  machine_desc_write_open filters s h d io f buf bytes found write obj =
      rw (machine_desc_write, writable, found, write, obj) refl

  -- It answers IO_SUCCESS, takes nothing, leaves the buffer, and is stopped after that.
  pub Deaf-machine_desc_write :
      (filters : Filters F) (s : Machines F) (h : ℕ) (f : F) (buf : List ℕ) (bytes : ℕ)
      → Deaf h f s
      → (s' : Machines F) × (machine_desc_write filters s h buf bytes
          ≡ refused s' buf Status.success 0)
        × Deaf h f s'
  unfolding WritesIn write_side put_write
  Deaf-machine_desc_write filters s h f buf bytes (inl (d, io, found, at, write, state, obj)) =
      let next = io_desc_set_state io DescState.disabled in
      (
        change h (put_write next) s,
        machine_desc_write_open filters s h d io f buf bytes found write obj
            ∙ rw (state, write_side) refl,
        inr (
          put_write next d,
          next,
          change-machine_get_desc s h (put_write next) d (λ x e. e) found,
          at,
          refl,
          refl,
          obj,
        ),
      )
  Deaf-machine_desc_write filters s h f buf bytes (inr (d, io, found, at, write, state, obj)) = (
    s,
    machine_desc_write_open filters s h d io f buf bytes found write obj
        ∙ rw (state, write_side) refl,
    inr (d, io, found, at, write, state, obj),
  )

  pub machine_stop-WritesIn :
      (s : Machines F) (h : ℕ) (state : DescState) (f : F)
      → WritesIn s h state f
      → WritesIn (machine_stop s h) h DescState.disabling f
  unfolding WritesIn disable machine_stop change
  machine_stop-WritesIn s h state f (d, io, found, at, write, e, obj) =
      let same : machine_stop s h
          ≡ change h (λ d. record d { io_write = disable d.io_write; io_read = disable d.io_read })
              s =
        rw (machine_stop, found) refl in
      (
        record d { io_write = disable d.io_write; io_read = disable d.io_read },
        io_desc_set_state io DescState.disabling,
        ap (λ s. machine_get_desc s h) same ∙ change-machine_get_desc s h _ d (λ x e. e) found,
        at,
        ap disable write,
        refl,
        obj,
      )
