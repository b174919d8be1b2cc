-- ===== src/Filter/Convert.antt =====
-- src/filter/conversions.c: the conversion of samples between the formats of a device, by way of
-- doubles.
--
-- The casts and the products of the processor's floats are the functions of `Floats` and of an
-- `IqDatatype`, over a type `D` of doubles. A buffer is its bytes; a format's `data_size` is the
-- `sizeof` of the type that its functions copy.
pub mod Samples
use bingewatch.Prelude.{
  ℕ, zero, suc, ◌+◌, ◌*◌, ◌-◌, ◌^◌, ◌<◌, ◌≡◌, refl, ap, ◌∙◌, Bool, true, false, Option, none, some,
  List, [], ◌∷◌, ◌++◌, take, drop, ◌==◌, leb, if◌then◌else◌, ◌≤◌, length, add_size, size_mod, ◌>>=◌,
  arith, if-true, if-false, sym, Bool-cases, inl, inr,
}
use mathlib.Core.Option
use mathlib.Core.List.{map}

-- `enum iq_data_type_e`
pub data IqType : Type 0 where
  unsupported fc32 sc16 sc8 : IqType

-- `sizeof(double)`
abbrev pub double_size : ℕ
double_size = 8

-- `IQ_DATATYPE`, less its name; `pull` and `push` are the casts from and to a double.
pub record IqDatatype (D : Type 0) : Type 0 where
  pub kind : IqType
  pub data_size : ℕ
  pub is_float : Bool
  pub pull : List ℕ → D
  pub push : D → List ℕ

-- The product of a double and a float that holds an integer, and the quotient.
pub record Floats (D : Type 0) : Type 0 where
  pub times : D → ℕ → D
  pub over : D → ℕ → D

-- `scale_factor`, for a precision from 1 to 25, where the shift of an `int` is defined and the
-- result is a `float` exactly.
pub scale_factor : ℕ → ℕ
scale_factor precision = 2 ^ (precision - 1) - 1

module _ {D : Type 0} where
  -- `fmt_to_double`: the doubles, and the new `*bytes`. Fuel: the turns of the loop.
  pub to_double : ℕ → IqDatatype D → List ℕ → (remaining total : ℕ) → Option (List D × ℕ)
  to_double zero fmt src remaining total = none
  to_double (suc fuel) fmt src remaining total =
      let rest =
        to_double fuel fmt (drop fmt.data_size src) (remaining - fmt.data_size)
          (add_size total double_size) in
      if leb fmt.data_size remaining
      then Option.map (λ r. (fmt.pull (take fmt.data_size src) ∷ r.0, r.1)) rest
      else some ([], total)

  -- `double_to_fmt`: the bytes, and the new `*bytes`; it does not return past the end of `d`.
  pub double_to : ℕ → IqDatatype D → List D → (remaining total : ℕ) → Option (List ℕ × ℕ)
  double_to zero fmt d remaining total = none
  double_to (suc fuel) fmt [] remaining total =
      if leb double_size remaining then none else some ([], total)
  double_to (suc fuel) fmt (x ∷ d) remaining total =
      let rest = double_to fuel fmt d (remaining - double_size) (add_size total fmt.data_size) in
      if leb double_size remaining
      then Option.map (λ r. (fmt.push x ++ r.0, r.1)) rest
      else some ([], total)

  -- The loop of `_scale_float_to_integer` and of `_scale_integer_to_float`.
  pub scale_loop : (D → D) → List D → (remaining : ℕ) → List D
  scale_loop f [] remaining = []
  scale_loop f (x ∷ d) remaining =
      let rest = scale_loop f d (remaining - double_size) in
      if leb double_size remaining then f x ∷ rest else x ∷ d

  -- `_scale_float_to_integer`, `_scale_integer_to_float`
  pub scale_float_to_integer : Floats D → ℕ → List D → ℕ → List D
  unfolding scale_factor scale_loop
  scale_float_to_integer fl precision buf len =
      if scale_factor precision == 1
      then buf
      else scale_loop (λ x. fl.times x (scale_factor precision)) buf len

  pub scale_integer_to_float : Floats D → ℕ → List D → ℕ → List D
  unfolding scale_factor scale_loop
  scale_integer_to_float fl precision buf len =
      if scale_factor precision == 1
      then buf
      else scale_loop (λ x. fl.over x (scale_factor precision)) buf len

  -- The scaling of `iq_type_conversion`, where one format is a float and the other is not.
  pub scale : Floats D → ℕ → (from to : IqDatatype D) → List D → ℕ → List D
  unfolding scale_float_to_integer scale_integer_to_float
  scale fl precision from to tmp len =
      if to.is_float
      then (if from.is_float then tmp else scale_integer_to_float fl precision tmp len)
      else (if from.is_float then scale_float_to_integer fl precision tmp len else tmp)

  -- The conversion of `bytes` bytes in `iq_type_conversion`: what `push` writes, and the new
  -- `tmp_len`.
  pub convert : ℕ → Floats D → ℕ → (from to : IqDatatype D) → List ℕ → ℕ → Option (List ℕ × ℕ)
  unfolding to_double double_to scale
  convert fuel fl precision from to buf bytes =
      to_double fuel from buf bytes 0
      >>= (λ r. double_to fuel to (scale fl precision from to r.0 r.1) r.1 0)

  -- What the conversion means: a sample is scaled as its formats say.
  abbrev pub scaled : Floats D → ℕ → (from to : IqDatatype D) → D → D
  scaled fl precision from to x =
      if to.is_float
      then (if from.is_float
          then x
          else (if scale_factor precision == 1 then x else fl.over x (scale_factor precision)))
      else (if from.is_float
          then (if scale_factor precision == 1 then x else fl.times x (scale_factor precision))
          else x)

  -- `n` samples of a buffer.
  pub samples : ℕ → IqDatatype D → List ℕ → List D
  samples zero fmt buf = []
  samples (suc n) fmt buf =
      fmt.pull (take fmt.data_size buf) ∷ samples n fmt (drop fmt.data_size buf)

  -- The bytes of samples, each after `f`.
  pub bytes_of : (D → D) → IqDatatype D → List D → List ℕ
  bytes_of f fmt [] = []
  bytes_of f fmt (x ∷ d) = fmt.push (f x) ++ bytes_of f fmt d
