-- ===== src/FifoMachine/Write.antt =====
-- What the fifo machine writes, and what it makes of a read that fails.
use mathlib.Core.Path.{subst}
use bingewatch.Prelude.{
  ℕ, zero, suc, ◌+◌, ◌-◌, ◌%◌, ◌^◌, ◌≤◌, ◌<◌, ◌≡◌, ◌≢◌, refl, sym, ap, ◌∙◌, false, Option, none,
  some, true, List, ◌++◌, append_assoc, append-nil, take, drop, length, arith, ◌==◌, add_size,
  sub_size, size_mod, if-false, take_add, drop_add, ◌>>=◌,
}
use bingewatch.Status.{Status}
use bingewatch.FifoMachine.{
  FifoSystem, FifoDesc, FifoReply, open_fifo, fifo_write_loop, write_open, fifo_write, read_open,
  fifo_read, read_done,
}

-- What a blocking pipe does: a write takes some of the bytes it is given, and they are sent after
-- those that were sent before.
pub record Pipe {W : Type 0} (sys : FifoSystem W) (sent : W → List ℕ) : Type 0 where
  pub write :
      (w : W) (f : ℕ) (buf : List ℕ) (offset n : ℕ)
      → 0 < n
      → (b : ℕ) × ((sys.write w f buf offset n).0 ≡ some b)
        × (0 < b)
        × (b ≤ n)
        × (sent (sys.write w f buf offset n).1 ≡ sent w ++ take b (drop offset buf))

module _ {W : Type 0} (sys : FifoSystem W) where
  pub open_fifo-open : (fd : FifoDesc) (w : W) → fd.f ≢ 0 → (open_fifo sys fd w).0.f ≢ 0
  unfolding open_fifo
  open_fifo-open fd w is_open = ground (arith, is_open)

  pub fifo_write_nothing :
      (fuel : ℕ) (fd : FifoDesc) (w : W) (input : List ℕ) (align : ℕ)
      → length input ≡ 0
      → fifo_write sys fuel fd w input align
        ≡ some (record { desc = fd; status = Status.success; count = 0; buf = input; world = w })
  unfolding fifo_write
  fifo_write_nothing fuel fd w input align none_there =
      let z : (length input == 0) ≡ true = ground (arith, none_there) in rw z refl

module _ {W : Type 0} (sys : FifoSystem W) (sent : W → List ℕ) (pipe : Pipe sys sent) where
  Written : ℕ → (f : ℕ) → W → List ℕ → (offset remaining total : ℕ) → Type 0
  Written fuel f w buf offset remaining total =
      (w' : W) × (fifo_write_loop sys fuel f w buf offset remaining total
        ≡ some (total + remaining, w'))
      × (sent w' ≡ sent w ++ take remaining (drop offset buf))

  fifo_write_loop_next :
      (fuel f : ℕ) (w : W) (buf : List ℕ) (offset n total b offset' n' total' : ℕ)
      → (n == 0) ≡ false
      → (sys.write w f buf offset n).0 ≡ some b
      → add_size offset b ≡ offset'
      → sub_size n b ≡ n'
      → add_size total b ≡ total'
      → fifo_write_loop sys (suc fuel) f w buf offset n total
        ≡ fifo_write_loop sys fuel f (sys.write w f buf offset n).1 buf offset' n' total'
  unfolding fifo_write_loop
  fifo_write_loop_next fuel f w buf offset n total b offset' n' total' nz took on left sum =
      rw (fifo_write_loop, nz, took, on, left, sum) refl

  fifo_write_loop_lem :
      (fuel f : ℕ) (w : W) (buf : List ℕ) (offset remaining total : ℕ)
      → remaining < fuel
      → offset + remaining < size_mod
      → total + remaining < size_mod
      → Written fuel f w buf offset remaining total
  unfolding Written fifo_write_loop
  fifo_write_loop_lem zero f w buf offset remaining total enough small fits =
      absurd (omega (arith, enough))
  fifo_write_loop_lem (suc fuel) f w buf offset zero total enough small fits =
      let same : total + 0 ≡ total = omega arith in
      (w, ap (λ t. some (t, w)) (sym same), sym (append-nil (sent w)))
  fifo_write_loop_lem (suc fuel) f w buf offset (suc n) total enough small fits =
      let (b, took, pos, le, more) = pipe.write w f buf offset (suc n) (omega arith) in
      let r = sys.write w f buf offset (suc n) in
      let left : sub_size (suc n) b ≡ suc n - b = omega (arith, le, small) in
      let on : add_size offset b ≡ offset + b = omega (arith, le, small) in
      let sum : add_size total b ≡ total + b = omega (arith, le, fits) in
      let (w', ran, all) =
        fifo_write_loop_lem fuel f r.1 buf (offset + b) (suc n - b) (total + b)
          (omega (arith, enough, pos)) (omega (arith, small, le)) (omega (arith, fits, le)) in
      let nz : (suc n == 0) ≡ false = ground arith in
      let count : total + b + (suc n - b) ≡ total + suc n = omega (arith, le) in
      let after : drop (offset + b) buf ≡ drop b (drop offset buf) =
        drop_add offset b (offset + b) buf refl in
      (
        w',
        fifo_write_loop_next fuel f w buf offset (suc n) total b (offset + b) (suc n - b)
              (total + b) nz took on left sum
            ∙ ran
            ∙ ap (λ t. some (t, w')) count,
        all
            ∙ rw
                (
                  more,
                  after,
                  append_assoc (sent w) (take b (drop offset buf))
                      (take (suc n - b) (drop b (drop offset buf))),
                )
                (ap (λ l. sent w ++ l)
                  (sym (take_add b (suc n - b) (suc n) (drop offset buf) (omega (arith, le))))),
      )

  write_open_lem :
      (fuel : ℕ) (fd : FifoDesc) (w : W) (input : List ℕ) (align : ℕ)
      → fd.f ≢ 0
      → 0 < align
      → length input < fuel
      → length input < size_mod
      → let n = length input - length input % align in
        (w' : W) × (write_open sys fuel fd w input align
          ≡ some
              (record { desc = fd; status = Status.success; count = n; buf = input; world = w' }))
        × (sent w' ≡ sent w ++ take n input)
  unfolding write_open Written
  write_open_lem fuel fd w input align opened pos enough small =
      let n = length input - length input % align in
      let le : n ≤ length input = omega arith in
      let (w', ran, all) =
        fifo_write_loop_lem fuel fd.f w input 0 n 0 (omega (arith, le, enough))
          (omega (arith, le, small)) (omega (arith, le, small)) in
      let zero_less : 0 + n ≡ n = omega arith in
      (
        w',
        if-false (fd.f == 0) _ _ (ground (arith, opened))
            ∙ ap
                (λ o. o >>= (λ r. some (record {
                  desc = fd;
                  status = Status.success;
                  count = r.0;
                  buf = input;
                  world = r.1;
                })))
                (ran ∙ ap (λ t. some (t, w')) zero_less),
        all,
      )

  -- Where every write of the system takes at least one byte, a write of at least one byte to a pipe
  -- that is open, or that the write can open, with an alignment that is not 0, returns, given fuel
  -- for more calls than there are bytes: it sends the caller's bytes in order, as many as make up
  -- whole alignments, answers IO_SUCCESS and tells how many these are.
  pub fifo_write_lem :
      (fuel : ℕ) (fd : FifoDesc) (w : W) (input : List ℕ) (align : ℕ)
      → (open_fifo sys fd w).0.f ≢ 0
      → 0 < length input
      → 0 < align
      → length input < fuel
      → length input < size_mod
      → let n = length input - length input % align in
        (w' : W) × (fifo_write sys fuel fd w input align
          ≡ some (record {
            desc = (open_fifo sys fd w).0;
            status = Status.success;
            count = n;
            buf = input;
            world = w';
          }))
        × (sent w' ≡ sent (open_fifo sys fd w).1 ++ take n input)
  unfolding fifo_write
  fifo_write_lem fuel fd w input align opened some_bytes pos enough small =
      let (w', ran, all) =
        write_open_lem fuel (open_fifo sys fd w).0 (open_fifo sys fd w).1 input align opened pos
          enough small in
      (w', if-false (length input == 0) _ _ (ground (arith, some_bytes)) ∙ ran, all)

Failed : {W : Type 0} → List ℕ → FifoReply W → Type 0
Failed buf r = (r.status ≡ Status.success) × (r.count ≡ 2 ^ 64 - 1) × (r.buf ≡ buf)

read_done-Failed :
    {W : Type 0} (fd : FifoDesc) (buf : List ℕ) (r : Option (List ℕ) × W)
    → r.0 ≡ none
    → Failed buf (read_done fd buf r)
unfolding read_done Failed
read_done-Failed fd buf (none, w) e = (refl, refl, refl)
read_done-Failed fd buf (some input, w) e = absurd cc

-- Where the system's read fails, `fifo_read` answers IO_SUCCESS and tells that it has read 2^64 - 1
-- bytes: -1 is stored in a `size_t`, which is not below 1.
pub fifo_read-failed :
    {W : Type 0} (sys : FifoSystem W) (fd : FifoDesc) (w : W) (buf : List ℕ) (bytes align : ℕ)
    → (open_fifo sys fd w).0.f ≢ 0
    → (sys.read (open_fifo sys fd w).1 (open_fifo sys fd w).0.f (bytes - bytes % align)).0 ≡ none
    → ((fifo_read sys fd w buf bytes align).status ≡ Status.success)
      × ((fifo_read sys fd w buf bytes align).count ≡ 2 ^ 64 - 1)
      × ((fifo_read sys fd w buf bytes align).buf ≡ buf)
unfolding fifo_read read_open Failed
fifo_read-failed sys fd w buf bytes align opened failed =
    let (fd', w') = open_fifo sys fd w in
    let r = sys.read w' fd'.f (bytes - bytes % align) in
    subst (Failed buf)
      (sym (if-false (fd'.f == 0) _ (read_done fd' buf r) (ground (arith, opened))))
      (read_done-Failed fd' buf r failed)
