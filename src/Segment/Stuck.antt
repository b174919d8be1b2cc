-- ===== src/Segment/Stuck.antt =====
-- `write_to_dest` on a machine of src/machine.c that another caller has stopped.
use mathlib.Core.Path.{subst, sym}
use bingewatch.Prelude.{
  ℕ, zero, suc, ◌<◌, ◌≡◌, refl, inl, false, none, List, [], ◌++◌, take, drop, ◌==◌, sub_size,
  add_size, size_mod, arith,
}
use bingewatch.Status.{DescState}
use bingewatch.Machine.{Filters, Machines}
use bingewatch.Machine.Moves.{machine_desc_read, machine_desc_write, machine_stop, refused}
use bingewatch.Machine.Moves.WriteSide.{
  Deaf, Deaf-machine_desc_write, WritesIn, machine_stop-WritesIn,
}
use bingewatch.Segment.{Io, Joined, Segment, fine, outcome, dest_loop, write_to_dest}

-- The functions that `machine_register` gives a machine, at a handle.
pub machine_io : {F : Type 0} → Filters F → ℕ → Io (Machines F)
machine_io filters h = record {
  read = λ s buf bytes.
      let m = machine_desc_read filters s h buf bytes in
      record { status = m.status; bytes = m.bytes; buf = m.buf; world = m.machines };
  write = λ s buf bytes.
      let m = machine_desc_write filters s h buf bytes in
      record { status = m.status; bytes = m.bytes; buf = m.buf; world = m.machines };
  stop = λ s. machine_stop s h;
}

-- A write that succeeds without taking anything.
abbrev Idle : {W : Type 0} → (W → Type 0) → Io W → Type 0
Idle P io =
    (w : _) (ptr : List ℕ) (n : ℕ)
    → P w
    → (outcome (io.write w ptr n).status ≡ fine)
      × ((io.write w ptr n).bytes ≡ 0)
      × P (io.write w ptr n).world

dest_loop-Idle :
    {W : Type 0} (P : W → Type 0) (fuel : ℕ) (e : Joined W) (io : Io W) (seg : Segment W)
    (front ptr : List ℕ) (n wr : ℕ)
    → Idle P io
    → P seg.world
    → 0 < n
    → n < size_mod
    → dest_loop fuel e io seg front ptr n wr ≡ none
unfolding dest_loop
dest_loop-Idle P zero e io seg front ptr n wr idle p some_bytes small = refl
dest_loop-Idle P (suc fuel) e io seg front ptr n wr idle p some_bytes small =
    let (o, nothing, p') = idle seg.world ptr n p in
    let r = io.write seg.world ptr n in
    let nz : (n == 0) ≡ false = ground (arith, some_bytes) in
    let same : sub_size n r.bytes ≡ n = omega (arith, nothing, small) in
    rw (dest_loop, nz, o)
      (dest_loop-Idle P fuel e io (record seg { world = r.world }) (front ++ take r.bytes r.buf)
        (drop r.bytes r.buf) (sub_size n r.bytes) (add_size wr r.bytes) idle p'
        (omega (arith, same, some_bytes)) (omega (arith, same, small)))

machine_io-Idle :
    {F : Type 0} (filters : Filters F) (h : ℕ) (f : F) → Idle (Deaf h f) (machine_io filters h)
unfolding machine_io outcome refused
machine_io-Idle filters h f s ptr n deaf =
    let (s', e, deaf') = Deaf-machine_desc_write filters s h f ptr n deaf in
    (rw e refl, rw e refl, rw e deaf')

-- Once the output machine of a segment has been stopped, `write_to_dest` does not return, however
-- many writes it makes, if there is anything to write: each write of the machine answers
-- IO_SUCCESS with no bytes, and the loop looks at nothing else.
pub machine_stop-write_to_dest :
    {F : Type 0} (filters : Filters F) (h : ℕ) (state : DescState) (f : F) (s : Machines F)
    (fuel : ℕ) (e : Joined (Machines F)) (seg : Segment (Machines F)) (buf : List ℕ) (bytes : ℕ)
    → WritesIn s h state f
    → seg.world ≡ machine_stop s h
    → 0 < bytes
    → bytes < size_mod
    → write_to_dest fuel e (machine_io filters h) seg buf bytes ≡ none
unfolding write_to_dest
machine_stop-write_to_dest filters h state f s fuel e seg buf bytes writes at some_bytes small =
    dest_loop-Idle (Deaf h f) fuel e (machine_io filters h) seg [] buf bytes 0
      (machine_io-Idle filters h f)
      (inl (
        subst (λ w. WritesIn w h DescState.disabling f) (sym at)
          (machine_stop-WritesIn s h state f writes)))
      some_bytes small
