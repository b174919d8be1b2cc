-- ===== src/FifoMachine.antt =====
-- src/fifo-machine.c: the fifo machine, which reads from and writes to a named pipe.
--
-- The system's calls are given by `FifoSystem`, over a world `W`; a call that answers -1 gives
-- `none`. An operation takes the descriptor that `machine_get_desc` finds for the handle, and is
-- one atomic step, since it holds the descriptor's lock. The name of the pipe is in the world.
pub mod Write
mod Tests
use bingewatch.Prelude.{
  ℕ, zero, suc, ◌+◌, ◌-◌, ◌%◌, ◌^◌, Bool, true, false, Option, none, some, List, [], ◌++◌, drop,
  length, ◌==◌, ltb, if◌then◌else◌, add_size, sub_size, size_mod, ◌>>=◌,
}
use bingewatch.Status.{Status}

-- `open(fname, O_RDWR)`; `write` of `n` bytes at an offset of the caller's buffer; `read` of at
-- most `n` bytes.
pub record FifoSystem (W : Type 0) : Type 0 where
  pub open_rdwr : W → Option ℕ × W
  pub write : W → (f : ℕ) → (buf : List ℕ) → (offset n : ℕ) → Option ℕ × W
  pub read : W → (f n : ℕ) → Option (List ℕ) × W

-- `struct fifo_desc_t`, of which the code uses `f`.
pub record FifoDesc : Type 0 where
  pub f : ℕ

-- What a read or a write leaves: the descriptor, the code, the new `*bytes`, and the buffer.
pub record FifoReply (W : Type 0) : Type 0 where
  pub desc : FifoDesc
  pub status : Status
  pub count : ℕ
  pub buf : List ℕ
  pub world : W

-- A `ssize_t` that is stored in a `size_t`.
abbrev pub as_size : Option ℕ → ℕ
as_size none = size_mod - 1
as_size (some b) = b

-- The part of `fifo_read` behind the system's `read`; `b < 1` holds of 0 alone.
read_done : {W : Type 0} → FifoDesc → List ℕ → Option (List ℕ) × W → FifoReply W
read_done fd buf (none, w) = record {
  desc = fd;
  status = Status.success;
  count = size_mod - 1;
  buf = buf;
  world = w;
}
read_done fd buf (some input, w) =
    if ltb (length input) 1
    then record { desc = fd; status = Status.error; count = 0; buf = buf; world = w }
    else record {
      desc = fd;
      status = Status.success;
      count = length input;
      buf = input ++ drop (length input) buf;
      world = w;
    }

module _ {W : Type 0} (sys : FifoSystem W) where
  -- `open_fifo`
  pub open_fifo : FifoDesc → W → FifoDesc × W
  open_fifo fd w =
      if fd.f == 0
      then (elim (sys.open_rdwr w).0 [
        | none ↦ (fd, (sys.open_rdwr w).1)
        | some f ↦ (record { f = f }, (sys.open_rdwr w).1)
      ])
      else (fd, w)

  -- The loop of `fifo_write`: `total`, and the world. Fuel: the calls of `write`.
  pub fifo_write_loop :
      ℕ → (f : ℕ) → W → (buf : List ℕ) → (offset remaining total : ℕ) → Option (ℕ × W)
  fifo_write_loop zero f w buf offset remaining total = none
  fifo_write_loop (suc fuel) f w buf offset remaining total =
      let r = sys.write w f buf offset remaining in
      let b = as_size r.0 in
      elim (remaining == 0) [
        | true ↦ some (total, w)
        | false ↦
            fifo_write_loop fuel f r.1 buf (add_size offset b) (sub_size remaining b)
              (add_size total b)
      ]

  -- The part of `fifo_write` behind `open_fifo`.
  pub write_open : ℕ → FifoDesc → W → List ℕ → (align : ℕ) → Option (FifoReply W)
  unfolding fifo_write_loop
  write_open fuel fd w input align =
      if fd.f == 0
      then some (record {
        desc = fd;
        status = Status.error;
        count = length input;
        buf = input;
        world = w;
      })
      else (do
        r ← fifo_write_loop fuel fd.f w input 0 (length input - length input % align) 0
        some (record { desc = fd; status = Status.success; count = r.0; buf = input; world = r.1 }))

  -- `fifo_write`
  pub fifo_write : ℕ → FifoDesc → W → List ℕ → (align : ℕ) → Option (FifoReply W)
  unfolding open_fifo write_open
  fifo_write fuel fd w input align =
      if length input == 0
      then some (record { desc = fd; status = Status.success; count = 0; buf = input; world = w })
      else write_open fuel (open_fifo fd w).0 (open_fifo fd w).1 input align

  -- The part of `fifo_read` behind `open_fifo`.
  pub read_open : FifoDesc → W → List ℕ → (bytes align : ℕ) → FifoReply W
  unfolding read_done
  read_open fd w buf bytes align =
      if fd.f == 0
      then record { desc = fd; status = Status.error; count = bytes; buf = buf; world = w }
      else read_done fd buf (sys.read w fd.f (bytes - bytes % align))

  -- `fifo_read`
  pub fifo_read : FifoDesc → W → List ℕ → (bytes align : ℕ) → FifoReply W
  unfolding open_fifo read_open
  fifo_read fd w buf bytes align = read_open (open_fifo fd w).0 (open_fifo fd w).1 buf bytes align
