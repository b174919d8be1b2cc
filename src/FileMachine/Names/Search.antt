-- ===== src/FileMachine/Names/Search.antt =====
-- The search for a free name finds the first one.
use bingewatch.Prelude.{
  ℕ, zero, suc, ◌+◌, ◌%◌, ◌≤◌, ◌<◌, ◌≡◌, ◌≢◌, ap, ◌∙◌, inl, inr, ◌==◌, ==_iff, refl, Bool, true,
  false, some, List, arith, Bool-cases,
}
use bingewatch.FileMachine.{u32_mod}
use bingewatch.FileMachine.Names.{first_free}

-- `k` is the first index from `index` on whose name is free.
pub record IsFirst (exists : List ℕ → Bool) (name : ℕ → List ℕ) (index k : ℕ) : Type 0 where
  pub from : index ≤ k
  pub free : exists (name k) ≡ false
  pub taken : (i : ℕ) → index ≤ i → i < k → exists (name i) ≡ true

module _ (exists : List ℕ → Bool) (name : ℕ → List ℕ) where
  first_free_next :
      (fuel index next : ℕ)
      → exists (name index) ≡ true
      → (index + 1) % u32_mod ≡ next
      → first_free exists name (suc fuel) index ≡ first_free exists name fuel next
  unfolding first_free
  first_free_next fuel index next full e = rw (first_free, full, e) refl

  index_taken :
      (index limit : ℕ) → exists (name index) ≡ true → exists (name limit) ≡ false → index ≢ limit
  index_taken index limit full free same = cc (ap (λ i. exists (name i)) same)

  step :
      (index limit : ℕ)
      → index ≤ limit
      → limit < u32_mod
      → index ≢ limit
      → (index + 1 ≤ limit) × ((index + 1) % u32_mod ≡ index + 1)
  step index limit from small other =
      (omega (arith, from, other), ground (arith, from, small, other))

  before :
      (index k : ℕ)
      → exists (name index) ≡ true
      → IsFirst exists name (index + 1) k
      → (i : ℕ) → index ≤ i
      → i < k
      → exists (name i) ≡ true
  before index k full first i low high = elim (Bool-cases (i == index)) [
    | inl same ↦ ap (λ j. exists (name j)) ((==_iff i index).0 same) ∙ full
    | inr other ↦ first.taken i (ground (arith, low, other)) high
  ]

  -- Where some name from `index` on is free, the search finds the first such, given the fuel.
  pub first_free-IsFirst :
      (fuel index limit : ℕ)
      → index ≤ limit
      → limit < index + fuel
      → limit < u32_mod
      → exists (name limit) ≡ false
      → (k : ℕ) × (first_free exists name fuel index ≡ some k)
        × IsFirst exists name index k
        × (k ≤ limit)
  unfolding first_free
  first_free-IsFirst zero index limit from enough small free = absurd (omega (arith, from, enough))
  first_free-IsFirst (suc fuel) index limit from enough small free =
      elim (Bool-cases (exists (name index))) [
        | inr open_ ↦ (
          index,
          rw (first_free, open_) refl,
          record {
            from = omega arith;
            free = open_;
            taken = λ i low high. absurd (omega (arith, low, high));
          },
          from,
        )
        | inl full ↦
            let (lt, next) = step index limit from small (index_taken index limit full free) in
            let (k, found, first, le) =
              first_free-IsFirst fuel (index + 1) limit lt (omega (arith, enough)) small free in
            (
              k,
              first_free_next fuel index (index + 1) full next ∙ found,
              record {
                from = omega (arith, first.from);
                free = first.free;
                taken = λ i low high. before index k full first i low high;
              },
              le,
            )
      ]
