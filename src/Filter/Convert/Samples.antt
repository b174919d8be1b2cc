-- ===== src/Filter/Convert/Samples.antt =====
-- Which samples a conversion reads, and what it writes for them.
use bingewatch.Prelude.{
  ℕ, zero, suc, ◌+◌, ◌*◌, ◌-◌, ◌<◌, ◌≡◌, refl, ap, ◌∙◌, true, false, some, List, [], ◌∷◌, ◌++◌,
  take, drop, ◌==◌, leb, if◌then◌else◌, ◌≤◌, length, add_size, size_mod, ◌>>=◌, arith, if-true,
  if-false, sym, Bool-cases, inl, inr,
}
use mathlib.Core.Option
use mathlib.Core.List.{map}
use bingewatch.Filter.Convert.{
  IqDatatype, Floats, double_size, to_double, double_to, scale_loop, scale_factor,
  scale_float_to_integer, scale_integer_to_float, scale, scaled, convert, samples, bytes_of,
}

leb-true : (a b : ℕ) → a ≤ b → leb a b ≡ true
leb-true a b h = ground arith

leb-false : (a b : ℕ) → b < a → leb a b ≡ false
leb-false a b h = ground arith

-- One more item of `k` bytes.
one_more : (n k r : ℕ) → (suc n * k + r - k) ≡ n * k + r
one_more n k r = omega arith

one_double : (n : ℕ) → (suc n * double_size - double_size) ≡ n * double_size
one_double n = omega arith

module _ {D : Type 0} where
  to_double_lem :
      (n fuel : ℕ) (fmt : IqDatatype D) (src : List ℕ) (r total : ℕ)
      → n < fuel
      → r < fmt.data_size
      → total + n * double_size < size_mod
      → to_double fuel fmt src (n * fmt.data_size + r) total
        ≡ some (samples n fmt src, total + n * double_size)
  unfolding to_double samples
  to_double_lem zero zero fmt src r total enough part small = absurd (omega (arith, enough))
  to_double_lem zero (suc fuel) fmt src r total enough part small =
      if-false _ _ _ (leb-false fmt.data_size (0 * fmt.data_size + r) (omega (arith, part)))
      ∙ ap {A = ℕ} (λ t. some ([], t)) (omega arith)
  to_double_lem (suc n) zero fmt src r total enough part small = absurd (omega (arith, enough))
  to_double_lem (suc n) (suc fuel) fmt src r total enough part small =
      let k = fmt.data_size in
      let sum : add_size total double_size ≡ total + double_size = omega (arith, small) in
      if-true _ _ _ (leb-true k (suc n * k + r) (omega arith))
      ∙ rw (one_more n k r, sum)
          (ap (Option.map (λ r. (fmt.pull (take k src) ∷ r.0, r.1))) (
              to_double_lem n fuel fmt (drop k src) r (total + double_size) (omega (arith, enough))
                part (omega (arith, small)))
            ∙ ap {A = ℕ} (λ t. some (fmt.pull (take k src) ∷ samples n fmt (drop k src), t))
                (omega arith))

  double_to_lem :
      (f : D → D) (d : List D) (fuel : ℕ) (fmt : IqDatatype D) (total : ℕ)
      → length d < fuel
      → total + length d * fmt.data_size < size_mod
      → double_to fuel fmt (map f d) (length d * double_size) total
        ≡ some (bytes_of f fmt d, total + length d * fmt.data_size)
  unfolding double_to bytes_of
  double_to_lem f d zero fmt total enough small = absurd (omega (arith, enough))
  double_to_lem f [] (suc fuel) fmt total enough small =
      ap {A = ℕ} (λ t. some ([], t)) (omega arith)
  double_to_lem f (x ∷ d) (suc fuel) fmt total enough small =
      let k = fmt.data_size in
      let sum : add_size total k ≡ total + k = omega (arith, small) in
      if-true _ _ _ (leb-true double_size (suc (length d) * double_size) (omega arith))
      ∙ rw (one_double (length d), sum)
          (ap (Option.map (λ r. (fmt.push (f x) ++ r.0, r.1))) (
              double_to_lem f d fuel fmt (total + k) (omega (arith, enough)) (omega (arith, small)))
            ∙ ap {A = ℕ} (λ t. some (fmt.push (f x) ++ bytes_of f fmt d, t)) (omega arith))

  scale_loop_lem : (f : D → D) (d : List D) → scale_loop f d (length d * double_size) ≡ map f d
  unfolding scale_loop
  scale_loop_lem f [] = refl
  scale_loop_lem f (x ∷ d) =
      if-true _ _ _ (leb-true double_size (suc (length d) * double_size) (omega arith))
      ∙ ap (λ l. f x ∷ l) (ap (λ m. scale_loop f d m) (one_double (length d)) ∙ scale_loop_lem f d)

  map-same : (d : List D) → map (λ x. x) d ≡ d
  map-same [] = refl
  map-same (x ∷ d) = ap (λ l. x ∷ l) (map-same d)

  length-samples : (n : ℕ) (fmt : IqDatatype D) (buf : List ℕ) → length (samples n fmt buf) ≡ n
  unfolding samples
  length-samples zero fmt buf = refl
  length-samples (suc n) fmt buf = ap suc (length-samples n fmt (drop fmt.data_size buf))

  float_to_integer-map :
      (fl : Floats D) (precision : ℕ) (d : List D)
      → scale_float_to_integer fl precision d (length d * double_size)
        ≡ map
            (λ x. if scale_factor precision == 1 then x else fl.times x (scale_factor precision))
            d
  unfolding scale_float_to_integer
  float_to_integer-map fl precision d = elim (Bool-cases (scale_factor precision == 1)) [
    | inl h ↦ rw h (sym (map-same d))
    | inr h ↦ rw h (scale_loop_lem (λ x. fl.times x (scale_factor precision)) d)
  ]

  integer_to_float-map :
      (fl : Floats D) (precision : ℕ) (d : List D)
      → scale_integer_to_float fl precision d (length d * double_size)
        ≡ map (λ x. if scale_factor precision == 1 then x else fl.over x (scale_factor precision)) d
  unfolding scale_integer_to_float
  integer_to_float-map fl precision d = elim (Bool-cases (scale_factor precision == 1)) [
    | inl h ↦ rw h (sym (map-same d))
    | inr h ↦ rw h (scale_loop_lem (λ x. fl.over x (scale_factor precision)) d)
  ]

  scale-map :
      (fl : Floats D) (precision : ℕ) (from to : IqDatatype D) (d : List D)
      → scale fl precision from to d (length d * double_size) ≡ map (scaled fl precision from to) d
  unfolding scale
  scale-map fl precision from to d = elim (Bool-cases to.is_float) [
    | inl t ↦ elim (Bool-cases from.is_float) [
      | inl f ↦ rw (t, f) (sym (map-same d))
      | inr f ↦ rw (t, f) (integer_to_float-map fl precision d)
    ]
    | inr t ↦ elim (Bool-cases from.is_float) [
      | inl f ↦ rw (t, f) (float_to_integer-map fl precision d)
      | inr f ↦ rw (t, f) (sym (map-same d))
    ]
  ]

  double_to-scale :
      (fuel : ℕ) (fl : Floats D) (precision : ℕ) (from to : IqDatatype D) (d : List D) (n : ℕ)
      → length d ≡ n
      → n < fuel
      → n * to.data_size < size_mod
      → double_to fuel to (scale fl precision from to d (n * double_size)) (n * double_size) 0
        ≡ some (bytes_of (scaled fl precision from to) to d, n * to.data_size)
  double_to-scale fuel fl precision from to d n same enough small = rw (← same) (
      ap (λ l. double_to fuel to l (length d * double_size) 0) (scale-map fl precision from to d)
      ∙ double_to_lem (scaled fl precision from to) d fuel to 0 (rw same enough)
          (rw same (omega (arith, small)))
      ∙ ap {A = ℕ} (λ t. some (bytes_of (scaled fl precision from to) to d, t)) (omega arith))

  -- With fuel for more turns than there are whole samples, a precision from 1 to 25, and where the
  -- sizes do not overflow, the conversion of a whole buffer by way of doubles converts its whole
  -- samples, in order, each scaled as its formats say, counts the bytes of these, and leaves the
  -- rest of a sample out.
  pub convert_lem :
      (fuel : ℕ) (fl : Floats D) (precision : ℕ) (from to : IqDatatype D) (buf : List ℕ) (n r : ℕ)
      → 0 < precision
      → precision ≤ 25
      → length buf ≡ n * from.data_size + r
      → n < fuel
      → r < from.data_size
      → n * double_size < size_mod
      → n * to.data_size < size_mod
      → convert fuel fl precision from to buf (length buf)
        ≡ some (bytes_of (scaled fl precision from to) to (samples n from buf), n * to.data_size)
  unfolding convert
  convert_lem fuel fl precision from to buf n r _ _ whole enough part small small' =
      ap (λ k. convert fuel fl precision from to buf k) whole
      ∙ ap (λ o. o >>= (λ x. double_to fuel to (scale fl precision from to x.0 x.1) x.1 0))
          (to_double_lem n fuel from buf r 0 enough part (omega (arith, small))
            ∙ ap {A = ℕ} (λ t. some (samples n from buf, t)) (omega arith))
      ∙ double_to-scale fuel fl precision from to (samples n from buf) n (length-samples n from buf)
          enough small'
