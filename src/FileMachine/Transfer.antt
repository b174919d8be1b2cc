-- ===== src/FileMachine/Transfer.antt =====
-- `file_write` and `file_read` of src/file-machine.c.
pub mod Written
pub mod Gotten
pub mod Archive
pub mod Full
use bingewatch.Prelude.{
  ℕ, zero, suc, ◌-◌, ◌%◌, Bool, true, false, Option, none, some, List, [], ◌++◌, take, drop, length,
  ◌==◌, if◌then◌else◌, add_size, sub_size, ◌>>=◌,
}
use bingewatch.Status.{Status}
use bingewatch.FileMachine.{FileSystem, FileDesc, rotate_wfile}
use bingewatch.FileMachine.Open.{Mode, Opened, open_file}

-- What a write or a read leaves: the descriptor, the code, the new `*bytes`, the buffer, and the
-- world.
pub record FileReply (W : Type 0) : Type 0 where
  pub desc : FileDesc
  pub status : Status
  pub count : ℕ
  pub buf : List ℕ
  pub world : W

module _ {W : Type 0} (sys : FileSystem W) where
  -- The loop of `file_write`: `total`, and the world. Fuel: the calls of `fwrite`.
  pub file_write_loop : ℕ → (f : ℕ) → W → (ptr : List ℕ) → (remaining total : ℕ) → Option (ℕ × W)
  file_write_loop zero f w ptr remaining total = none
  file_write_loop (suc fuel) f w ptr remaining total =
      let r = sys.write w f (take remaining ptr) in
      elim (remaining == 0) [
        | true ↦ some (total, w)
        | false ↦
            file_write_loop fuel f r.1 (drop r.0 ptr) (sub_size remaining r.0) (add_size total r.0)
      ]

  -- The end of `file_write`.
  pub write_done : FileDesc → W → List ℕ → ℕ → FileReply W
  unfolding rotate_wfile
  write_done fd w input total =
      let r = if fd.flags.rotate then rotate_wfile sys fd w else (fd, w) in
      record { desc = r.0; status = Status.success; count = total; buf = input; world = r.1 }

  -- `file_write` behind `open_file`.
  pub write_opened : ℕ → Opened W → List ℕ → (align : ℕ) → Option (FileReply W)
  unfolding file_write_loop write_done
  write_opened fuel o input align =
      if o.ok
      then (do
        f ← o.desc.fw
        r ← file_write_loop fuel f o.world input (length input - length input % align) 0
        some (write_done o.desc (sys.flush r.1 f) input r.0))
      else some (record {
        desc = o.desc;
        status = Status.error;
        count = length input;
        buf = input;
        world = o.world;
      })

  -- `file_write`
  pub file_write : ℕ → FileDesc → W → List ℕ → (align : ℕ) → Option (FileReply W)
  unfolding write_opened
  file_write fuel fd w input align =
      let reply : Status → FileReply W =
        λ s. record { desc = fd; status = s; count = 0; buf = input; world = w } in
      if length input == 0
      then some (reply Status.success)
      else if fd.flags.write
      then open_file sys fuel Mode.write fd w >>= (λ o. write_opened fuel o input align)
      else some (reply Status.error)

  -- What `file_read` answers where `fread` gives nothing.
  pub read_ended : FileDesc → W → (f : ℕ) → (got buf : List ℕ) → (bytes total : ℕ) → FileReply W
  read_ended fd w f got buf bytes total = record {
    desc = fd;
    status = if sys.eof w f then Status.complete else Status.error;
    count = if sys.eof w f then total else bytes;
    buf = got ++ drop (length got) buf;
    world = w;
  }

  -- The loop of `file_read`, with what was stored so far. Fuel: the calls of `fread`.
  pub file_read_loop :
      ℕ
      → FileDesc
      → W
      → (f : ℕ) → (got buf : List ℕ) → (bytes remaining total : ℕ) → Option (FileReply W)
  unfolding read_ended
  file_read_loop zero fd w f got buf bytes remaining total = none
  file_read_loop (suc fuel) fd w f got buf bytes remaining total =
      let r = sys.read w f remaining in
      let b = length r.0 in
      elim (remaining == 0) [
        | true ↦ some (record {
          desc = fd;
          status = Status.success;
          count = total;
          buf = got ++ drop (length got) buf;
          world = w;
        })
        | false ↦ elim (b == 0) [
          | true ↦ some (read_ended fd r.1 f got buf bytes total)
          | false ↦
              file_read_loop fuel fd r.1 f (got ++ r.0) buf bytes (sub_size remaining b)
                (add_size total b)
        ]
      ]

  -- `file_read` behind `open_file`.
  pub read_opened : ℕ → Opened W → (buf : List ℕ) → (bytes align : ℕ) → Option (FileReply W)
  unfolding file_read_loop
  read_opened fuel o buf bytes align =
      if o.ok
      then (do
        f ← o.desc.fr
        file_read_loop fuel o.desc o.world f [] buf bytes (bytes - bytes % align) 0)
      else some (record {
        desc = o.desc;
        status = Status.error;
        count = bytes;
        buf = buf;
        world = o.world;
      })

  -- `file_read`
  pub file_read : ℕ → FileDesc → W → (buf : List ℕ) → (bytes align : ℕ) → Option (FileReply W)
  unfolding read_opened
  file_read fuel fd w buf bytes align =
      if fd.flags.read
      then open_file sys fuel Mode.read fd w >>= (λ o. read_opened fuel o buf bytes align)
      else some (record { desc = fd; status = Status.error; count = 0; buf = buf; world = w })
