-- ===== src/FifoMachine/Tests.antt =====
-- A pipe that takes three bytes at a time and cannot be read from, and the theorems at it.
use bingewatch.Prelude.{
  ℕ, ◌-◌, ◌%◌, ◌≡◌, ◌≢◌, refl, none, some, List, [], ◌∷◌, ◌++◌, take, drop, length, min, arith,
}
use bingewatch.Status.{Status}
use bingewatch.FifoMachine.{FifoSystem, FifoDesc, open_fifo, fifo_write}
use bingewatch.FifoMachine.Write.{Pipe, fifo_write_lem}

abbrev pipes : FifoSystem (List ℕ)
pipes = record {
  open_rdwr = λ w. (some 5, w);
  write = λ w f buf offset n. (some (min n 3), w ++ take (min n 3) (drop offset buf));
  read = λ w f n. (none, w);
}

pipes-Pipe : Pipe pipes (λ w. w)
pipes-Pipe = record {
  write = λ w f buf offset n pos. (min n 3, refl, omega (arith, pos), omega arith, refl);
}

abbrev closed : FifoDesc
closed = record { f = 0 }

abbrev input : List ℕ
input = 1 ∷ 2 ∷ 3 ∷ 4 ∷ 5 ∷ 6 ∷ 7 ∷ []

opens : (open_fifo pipes closed []).0.f ≢ 0
unfolding open_fifo
opens = λ e. omega (arith, e)

fifo_write_lem_example :
    (w' : List ℕ) × (fifo_write pipes 8 closed [] input 2
      ≡ some (record {
        desc = (open_fifo pipes closed []).0;
        status = Status.success;
        count = length input - length input % 2;
        buf = input;
        world = w';
      }))
    × (w' ≡ (open_fifo pipes closed []).1 ++ take (length input - length input % 2) input)
fifo_write_lem_example =
    fifo_write_lem pipes (λ w. w) pipes-Pipe 8 closed [] input 2 opens (omega arith) (omega arith)
      (omega arith) (omega arith)

-- Two calls send six bytes.
sent :
    fifo_write pipes 8 closed [] input 2
    ≡ some (record {
      desc = record { f = 5 };
      status = Status.success;
      count = 6;
      buf = input;
      world = 1 ∷ 2 ∷ 3 ∷ 4 ∷ 5 ∷ 6 ∷ [];
    })
unfolding fifo_write
sent = refl
