-- ===== src/Filter/Chain.antt =====
-- src/filter.c: chains of filters.
use bingewatch.Prelude.{
  ℕ, ◌≡◌, refl, ap, Bool, true, false, some, List, [], ◌∷◌, ◌++◌, map, Bool-cases, inl, inr, arith,
}
use bingewatch.Machine.{same_name}
use bingewatch.Filter.{
  Direction, Filter, get_io_filter, io_filter_disable, io_filter_enable, set_enabled, add_filter,
  direct, direct_first,
}

-- A filter with a direction.
pub directed : Direction → Filter → Filter
directed direction f = record f { direction = direction }

direct_last :
    (d : Direction) (f : Filter) (fs : List Filter) (last : Filter)
    → direct d (f ∷ fs ++ (last ∷ [])) ≡ directed d f ∷ map (directed d) fs ++ (last ∷ [])
unfolding direct directed
direct_last d f [] last = refl
direct_last d f (g ∷ fs) last = ap (λ l. directed d f ∷ l) (direct_last d g fs last)

-- `add_read_filter` and `add_write_filter` put the new chain before the machine's. A chain of one
-- filter gets the direction; of a longer chain, every filter but the last does, and the last
-- keeps the direction that it had.
pub add_filter_lem :
    (d : Direction) (machine_fil : List Filter) (f last : Filter) (fs : List Filter)
    → (add_filter d (f ∷ []) machine_fil ≡ directed d f ∷ machine_fil)
      × (add_filter d (f ∷ fs ++ (last ∷ [])) machine_fil
          ≡ directed d f ∷ (map (directed d) fs ++ (last ∷ [])) ++ machine_fil)
unfolding add_filter direct_first directed
add_filter_lem d machine_fil f last fs =
    (refl, ap (λ l. direct_first d l ++ machine_fil) (direct_last d f fs last))

set_enabled-get :
    (b : Bool) (fs : List Filter) (name : List ℕ) (f : Filter)
    → get_io_filter fs name ≡ some f
    → get_io_filter (set_enabled b fs name) name ≡ some (record f { enabled = b })
unfolding get_io_filter set_enabled
set_enabled-get b [] name f e = ground arith
set_enabled-get b (g ∷ fs) name f e = elim (Bool-cases (same_name g.name name)) [
  | inl same ↦
      let eq : g ≡ f = ground arith in
      rw (same, same) (ap {A = Filter} (λ x. some (record x { enabled = b })) eq)
  | inr other ↦ rw (other, other) (set_enabled-get b fs name f (rw other at e))
]

-- The filter that a name finds in a chain is found by that name after `io_filter_disable`,
-- disabled, and after `io_filter_enable`, enabled, and is otherwise the same.
pub io_filter_disable-get_io_filter :
    (fs : List Filter) (name : List ℕ) (f : Filter)
    → get_io_filter fs name ≡ some f
    → (get_io_filter (io_filter_disable fs (some name)) name ≡ some (record f { enabled = false }))
      × (get_io_filter (io_filter_enable fs (some name)) name ≡ some (record f { enabled = true }))
unfolding io_filter_disable io_filter_enable
io_filter_disable-get_io_filter fs name f e =
    (set_enabled-get false fs name f e, set_enabled-get true fs name f e)
