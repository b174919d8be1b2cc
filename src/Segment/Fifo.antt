-- ===== src/Segment/Fifo.antt =====
-- A segment that writes to a pipe: the fifo machine of src/fifo-machine.c as an output.
use bingewatch.Prelude.{
  ℕ, zero, suc, ◌≤◌, ◌<◌, ◌≡◌, ◌≢◌, refl, ap, ◌∙◌, Option, none, some, List, ◌++◌, take, length,
  length-take, length-append, replicate, length-replicate, size_mod, arith,
}
use native.Mathlib.Nat.{mod-one}
use bingewatch.Status.{Status}
use bingewatch.FifoMachine.{FifoSystem, FifoDesc, FifoReply, fifo_write}
use bingewatch.FifoMachine.Write.{Pipe, fifo_write_lem, fifo_write_nothing, open_fifo-open}
use bingewatch.Segment.{Done}
use bingewatch.Segment.Watch.{Takes}

-- The `n` bytes at a pointer; memory behind the caller's bytes is taken as zeros.
pub bytes_at : List ℕ → ℕ → List ℕ
bytes_at ptr n = take n (ptr ++ replicate n 0)

length-bytes_at : (ptr : List ℕ) (n : ℕ) → length (bytes_at ptr n) ≡ n
unfolding bytes_at
length-bytes_at ptr n = omega (
  arith,
  length-take n (ptr ++ replicate n 0),
  length-append ptr (replicate n 0),
  length-replicate n zero,
)

abbrev done_of : {W : Type 0} → W → List ℕ → Option (FifoReply W) → Done W
done_of w ptr none = record { status = Status.error; bytes = 0; buf = ptr; world = w }
done_of w ptr (some r) = record { status = r.status; bytes = r.count; buf = ptr; world = r.world }

module _ {W : Type 0} (sys : FifoSystem W) (fd : FifoDesc) where
  -- `write` of the machine, whose side is enabled and has no filter but its last; alignment
  -- IO_DEFAULT_ALIGN.
  pub fifo_io_write : W → List ℕ → ℕ → Done W
  fifo_io_write w ptr n = done_of w ptr (fifo_write sys (suc n) fd w (bytes_at ptr n) 1)

  module _ (sent : W → List ℕ) (pipe : Pipe sys sent) (is_open : fd.f ≢ 0) where
    -- What a write of at least one byte takes: all.
    all_taken :
        (w : W) (ptr : List ℕ) (n : ℕ) → 0 < n → n < size_mod → (fifo_io_write w ptr n).bytes ≡ n
    unfolding fifo_io_write
    all_taken w ptr n pos small =
        let len = length-bytes_at ptr n in
        let (w', ran, _) =
          fifo_write_lem sys sent pipe (suc n) fd w (bytes_at ptr n) 1
            (open_fifo-open sys fd w is_open) (omega (arith, len, pos)) (omega arith)
            (omega (arith, len)) (omega (arith, len, small)) in
        ap (λ o. (done_of w ptr o).bytes) ran
        ∙ omega (arith, len, mod-one (length (bytes_at ptr n)))

    buffer_kept : (w : W) (ptr : List ℕ) (o : Option (FifoReply W)) → (done_of w ptr o).buf ≡ ptr
    buffer_kept w ptr none = refl
    buffer_kept w ptr (some r) = refl

    none_taken : (w : W) (ptr : List ℕ) → (fifo_io_write w ptr 0).bytes ≡ 0
    unfolding fifo_io_write
    none_taken w ptr =
        ap (λ o. (done_of w ptr o).bytes)
          (fifo_write_nothing sys 1 fd w (bytes_at ptr 0) 1 (length-bytes_at ptr 0))

    at_most_all : (w : W) (ptr : List ℕ) (n : ℕ) → n < size_mod → (fifo_io_write w ptr n).bytes ≤ n
    at_most_all w ptr zero small = omega (arith, none_taken w ptr)
    at_most_all w ptr (suc n) small = omega (arith, all_taken w ptr (suc n) (omega arith) small)

    -- An open pipe takes what a segment relies on.
    pub fifo_io-Takes :
        (read : W → List ℕ → ℕ → Done W) (stop : W → W)
        → Takes (record { read = read; write = fifo_io_write; stop = stop })
    unfolding fifo_io_write
    fifo_io-Takes read stop = record {
      same = λ w ptr n. buffer_kept w ptr (fifo_write sys (suc n) fd w (bytes_at ptr n) 1);
      at_most = at_most_all;
      some_bytes = λ w ptr n pos small _. omega (arith, pos, all_taken w ptr n pos small);
    }
