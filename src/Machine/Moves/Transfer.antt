-- ===== src/Machine/Moves/Transfer.antt =====
-- src/machine.c: what reads and writes do in each state of a descriptor.
use bingewatch.Prelude.{
  ℕ, ◌<◌, ◌≡◌, ◌≢◌, refl, ap, ◌∙◌, none, some, List, [], ◌∷◌, find_key-update_some,
  find_key-update_other, arith,
}
use bingewatch.Status.{Status, DescState}
use bingewatch.Machine.{
  Filters, IoDesc, Desc, Machines, machine_get_desc, change, machine_desc_acquire,
  machine_desc_release, io_desc_set_state,
}
use bingewatch.Machine.Moves.{
  refused, readable, machine_desc_read, read_side, call_read, put_read, measure_out, machine_stop,
  disable, machine_disable_read,
}

-- The answer of a disabled side: success, no bytes, the buffer as it was.
pub no_bytes : List (List ℕ × ℕ) → List (Status × ℕ × List ℕ)
no_bytes [] = []
no_bytes (r ∷ rs) = (Status.success, 0, r.0) ∷ no_bytes rs

module _ {F : Type 0} where
  pub change-machine_get_desc :
      (s : Machines F) (h : ℕ) (f : Desc F → Desc F) (d : Desc F)
      → ((x : Desc F) → x.handle ≡ h → (f x).handle ≡ h)
      → machine_get_desc s h ≡ some d
      → machine_get_desc (change h f s) h ≡ some (f d)
  unfolding machine_get_desc change
  change-machine_get_desc s h f d keeps e =
      find_key-update_some (λ d. d.handle) h f s.machine_descriptors d keeps e

  change-machine_get_desc_other :
      (s : Machines F) (h g : ℕ) (f : Desc F → Desc F)
      → ((x : Desc F) → x.handle ≡ h → (f x).handle ≡ h)
      → h ≢ g
      → machine_get_desc (change h f s) g ≡ machine_get_desc s g
  unfolding machine_get_desc change
  change-machine_get_desc_other s h g f keeps ne =
      find_key-update_other (λ d. d.handle) h g f s.machine_descriptors keeps ne

  -- The handle finds a descriptor whose read side is in a state and has a filter.
  unfoldable pub ReadsIn : Machines F → ℕ → DescState → F → Type 0
  ReadsIn s h state f =
      (d : Desc F) × (io : IoDesc F) × (machine_get_desc s h ≡ some d)
      × (d.handle ≡ h)
      × (d.io_read ≡ some io)
      × (io.state ≡ state)
      × (io.obj ≡ some f)

  -- `machine_desc_read` once it is known what the handle finds.
  machine_desc_read_open :
      (filters : Filters F) (s : Machines F) (h : ℕ) (d : Desc F) (io : IoDesc F) (f : F)
      (buf : List ℕ) (bytes : ℕ)
      → machine_get_desc s h ≡ some d
      → d.io_read ≡ some io
      → io.obj ≡ some f
      → machine_desc_read filters s h buf bytes ≡ read_side filters s h d io f buf bytes
  unfolding machine_desc_read readable
  machine_desc_read_open filters s h d io f buf bytes found read obj =
      rw (machine_desc_read, readable, found, read, obj) refl

  put_read-keeps : (io : IoDesc F) (h : ℕ) (x : Desc F) → x.handle ≡ h → (put_read io x).handle ≡ h
  unfolding put_read
  put_read-keeps io h x e = e

  disabling_read :
      (filters : Filters F) (s : Machines F) (h : ℕ) (f : F) (buf : List ℕ) (bytes : ℕ)
      → ReadsIn s h DescState.disabling f
      → (s' : Machines F) × (machine_desc_read filters s h buf bytes
          ≡ refused s' buf Status.success 0)
        × ReadsIn s' h DescState.disabled f
  unfolding ReadsIn read_side put_read
  disabling_read filters s h f buf bytes (d, io, found, at, read, state, obj) = (
    _,
    machine_desc_read_open filters s h d io f buf bytes found read obj ∙ rw (state, read_side) refl,
    (
      put_read (io_desc_set_state io DescState.disabled) d,
      io_desc_set_state io DescState.disabled,
      change-machine_get_desc s h (put_read (io_desc_set_state io DescState.disabled)) d
          (put_read-keeps (io_desc_set_state io DescState.disabled) h) found,
      at,
      refl,
      refl,
      obj,
    ),
  )

  disabled_read :
      (filters : Filters F) (s : Machines F) (h : ℕ) (f : F) (buf : List ℕ) (bytes : ℕ)
      → ReadsIn s h DescState.disabled f
      → machine_desc_read filters s h buf bytes ≡ refused s buf Status.success 0
  unfolding ReadsIn read_side
  disabled_read filters s h f buf bytes (d, io, found, at, read, state, obj) =
      machine_desc_read_open filters s h d io f buf bytes found read obj
      ∙ rw (state, read_side) refl

  machine_stop-ReadsIn :
      (s : Machines F) (h : ℕ) (state : DescState) (f : F)
      → ReadsIn s h state f
      → ReadsIn (machine_stop s h) h DescState.disabling f
  unfolding ReadsIn disable machine_stop change
  machine_stop-ReadsIn s h state f (d, io, found, at, read, e, obj) =
      let stopped : Desc F = record d {
        io_write = disable d.io_write;
        io_read = disable d.io_read;
      } in
      let same : machine_stop s h
          ≡ change h (λ d. record d { io_write = disable d.io_write; io_read = disable d.io_read })
              s =
        rw (machine_stop, found) refl in
      (
        stopped,
        io_desc_set_state io DescState.disabling,
        ap (λ s. machine_get_desc s h) same ∙ change-machine_get_desc s h _ d (λ x e. e) found,
        at,
        ap disable read,
        refl,
        obj,
      )

  -- Read after read of the same handle, with the buffer and `*bytes` of each.
  pub read_all :
      Filters F → Machines F → ℕ → List (List ℕ × ℕ) → List (Status × ℕ × List ℕ) × Machines F
  unfolding machine_desc_read
  read_all filters s h [] = ([], s)
  read_all filters s h (r ∷ rs) =
      let m = machine_desc_read filters s h r.0 r.1 in
      let rest = read_all filters m.machines h rs in ((m.status, m.bytes, m.buf) ∷ rest.0, rest.1)

  disabled_reads :
      (filters : Filters F) (s : Machines F) (h : ℕ) (f : F) (rs : List (List ℕ × ℕ))
      → ReadsIn s h DescState.disabled f
      → read_all filters s h rs ≡ (no_bytes rs, s)
  unfolding read_all no_bytes refused
  disabled_reads filters s h f [] r = refl
  disabled_reads filters s h f (q ∷ rs) r =
      let e = disabled_read filters s h f q.0 q.1 r in
      rw (e, disabled_reads filters s h f rs r) refl

  -- Once a machine has been stopped, every read of a read side that has a filter answers
  -- IO_SUCCESS with no bytes and leaves the buffer alone, however many follow, and the filter is
  -- never called.
  pub machine_stop-machine_desc_read :
      (filters : Filters F) (s : Machines F) (h : ℕ) (state : DescState) (f : F) (r : List ℕ × ℕ)
      (rs : List (List ℕ × ℕ))
      → ReadsIn s h state f
      → ((read_all filters (machine_stop s h) h (r ∷ rs)).0 ≡ no_bytes (r ∷ rs))
        × ReadsIn (read_all filters (machine_stop s h) h (r ∷ rs)).1 h DescState.disabled f
  unfolding read_all no_bytes refused
  machine_stop-machine_desc_read filters s h state f r rs reads =
      let (s', e, after) =
        disabling_read filters (machine_stop s h) h f r.0 r.1
          (machine_stop-ReadsIn s h state f reads) in
      let e' = disabled_reads filters s' h f rs after in (rw (e, e') refl, rw (e, e') after)

  release-acquire :
      (d : Desc F)
      → d.in_use < 256
      → (machine_desc_release (machine_desc_acquire d)).in_use ≡ d.in_use
  unfolding machine_desc_acquire machine_desc_release
  release-acquire d small = omega (arith, small)

  read_side-enabled :
      (filters : Filters F) (s : Machines F) (h : ℕ) (d : Desc F) (io : IoDesc F) (f : F)
      (buf : List ℕ) (bytes : ℕ)
      → io.state ≡ DescState.enabled
      → read_side filters s h d io f buf bytes ≡ call_read filters s h d io f buf bytes
  unfolding read_side
  read_side-enabled filters s h d io f buf bytes state = simp (state, read_side)

  -- A read of an enabled side answers what its filter answers to the same buffer and size, leaves
  -- that filter's new state in the descriptor, which stays enabled, gives back its use of the
  -- descriptor, and changes what no other handle finds.
  pub machine_desc_read-call :
      (filters : Filters F) (s : Machines F) (h : ℕ) (f : F) (buf : List ℕ) (bytes : ℕ)
      → ReadsIn s h DescState.enabled f
      → ((machine_desc_read filters s h buf bytes).status ≡ (filters.call f buf bytes).status)
        × ((machine_desc_read filters s h buf bytes).bytes ≡ (filters.call f buf bytes).bytes)
        × ((machine_desc_read filters s h buf bytes).buf ≡ (filters.call f buf bytes).buf)
        × ReadsIn
            (machine_desc_read filters s h buf bytes).machines
            h
            DescState.enabled
            (filters.call f buf bytes).filter
        × ((d : Desc F)
            → machine_get_desc s h ≡ some d
            → d.in_use < 256
            → (d' : Desc F) × (machine_get_desc (machine_desc_read filters s h buf bytes).machines h
                ≡ some d')
              × (d'.in_use ≡ d.in_use))
        × ((g : ℕ)
            → h ≢ g
            → machine_get_desc (machine_desc_read filters s h buf bytes).machines g
              ≡ machine_get_desc s g)
  unfolding ReadsIn read_side call_read machine_desc_release machine_desc_acquire
  machine_desc_read-call filters s h f buf bytes (d, io, found, at, read, state, obj) =
      let e : machine_desc_read filters s h buf bytes ≡ call_read filters s h d io f buf bytes =
        machine_desc_read_open filters s h d io f buf bytes found read obj
        ∙ read_side-enabled filters s h d io f buf bytes state in
      let r = filters.call f buf bytes in
      let done : Desc F = machine_desc_release (record (machine_desc_acquire d) {
        io_read = some (record io { obj = some r.filter });
        metrics = measure_out d.metrics bytes r.bytes r.status;
      }) in
      let stays : (x : Desc F) → x.handle ≡ h → done.handle ≡ h = λ x _. at in
      let after : machine_get_desc (call_read filters s h d io f buf bytes).machines h ≡ some done =
        change-machine_get_desc s h (λ _. done) d stays found in
      rw e (
        refl,
        refl,
        refl,
        (done, record io { obj = some r.filter }, after, at, refl, state, refl),
        (λ x same small.
            let eq : d ≡ x = cc in
            (done, after, release-acquire d (rw eq small) ∙ ap (λ d. d.in_use) eq)),
        (λ g ne. change-machine_get_desc_other s h g (λ _. done) stays ne),
      )

  -- `machine_disable_read` looks at the write side: a descriptor that can only be read is not
  -- disabled by it.
  pub machine_disable_read-write_missing :
      (s : Machines F) (h : ℕ) (state : DescState) (f : F) (d : Desc F)
      → ReadsIn s h state f
      → machine_get_desc s h ≡ some d
      → d.io_write ≡ none
      → (s' : Machines F) × (machine_disable_read s h ≡ some s') × ReadsIn s' h state f
  unfolding machine_disable_read
  machine_disable_read-write_missing s h state f d reads found write =
      (s, rw (machine_disable_read, found, write) refl, reads)
