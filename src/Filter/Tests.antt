-- ===== src/Filter/Tests.antt =====
-- Filters over a rest of the chain that always succeeds, and the theorems at them.
use bingewatch.Prelude.{ℕ, ◌/◌, ◌+◌, ◌*◌, List, min, ◌≡◌, refl, true, false, some, [], ◌∷◌, arith}
use bingewatch.Status.{Status}
use bingewatch.Machine.{same_name}
use bingewatch.Filter.{Direction, Filter, Counter, get_io_filter, create_byte_count_limit_filter}
use bingewatch.Filter.Convert.{IqType, IqDatatype, Floats, convert, samples, bytes_of, scaled}
use bingewatch.Filter.Convert.Samples.{convert_lem}
use bingewatch.Filter.Limit.{limit_all, sum, limit_all-bound}

-- It counts its calls and gives or takes eight bytes.
abbrev eight : ℕ → ℕ → Status × ℕ × ℕ
eight s bytes = (Status.success, 8, s + 1)

abbrev writer : Filter
writer = record { enabled = true; direction = Direction.write; name = 65 ∷ [] }

abbrev reader : Filter
reader = record writer { direction = Direction.read; name = 66 ∷ [] }

limit_all-bound_example :
    ((limit_all eight writer
        (create_byte_count_limit_filter 10)
        (record { inner = 0; passed = 0 })
        (4 ∷ 4 ∷ 4 ∷ [])).1.passed
      ≡ min 10 (sum (4 ∷ 4 ∷ 4 ∷ [])))
    × ((limit_all eight writer
          (create_byte_count_limit_filter 10)
          (record { inner = 0; passed = 0 })
          (4 ∷ 4 ∷ 4 ∷ [])).0.total
        ≡ min 10 (sum (4 ∷ 4 ∷ 4 ∷ [])))
limit_all-bound_example = limit_all-bound eight writer 10 0 (4 ∷ 4 ∷ 4 ∷ []) refl refl (omega arith)

abbrev counter : Counter
counter = record { total = 4; limit = 10; period = 0 }

-- The second of two filters, by its name.
found : get_io_filter (writer ∷ reader ∷ []) (66 ∷ []) ≡ some reader
unfolding get_io_filter same_name
found = refl

-- Numbers for doubles, a format of one byte, and one of two that keeps the number in the first.
abbrev first_of : List ℕ → ℕ
first_of [] = 0
first_of (x ∷ xs) = x

abbrev numbers : Floats ℕ
numbers = record { times = λ x k. x * k; over = λ x k. x / k }

abbrev narrow : IqDatatype ℕ
narrow = record {
  kind = IqType.sc8;
  data_size = 1;
  is_float = true;
  pull = first_of;
  push = λ x. x ∷ [];
}

abbrev wide : IqDatatype ℕ
wide = record {
  kind = IqType.sc16;
  data_size = 2;
  is_float = false;
  pull = first_of;
  push = λ x. x ∷ 0 ∷ [];
}

convert_lem_example :
    convert 3 numbers 3 narrow wide (5 ∷ 6 ∷ []) 2
    ≡ some (bytes_of (scaled numbers 3 narrow wide) wide (samples 2 narrow (5 ∷ 6 ∷ [])), 2 * 2)
convert_lem_example =
    convert_lem 3 numbers 3 narrow wide (5 ∷ 6 ∷ []) 2 0 (omega arith) (omega arith) refl
      (omega arith) (omega arith) (omega arith) (omega arith)
