-- ===== src/Filter/Limit.antt =====
-- src/filter/filters.c: the byte limit.
use bingewatch.Prelude.{
  ℕ, ◌+◌, ◌-◌, ◌≤◌, ◌<◌, min, ◌≡◌, refl, sym, ap, ◌∙◌, true, List, [], ◌∷◌, All, leb, add_size,
  sub_size, size_mod, Bool-cases, inl, inr, arith,
}
use mathlib.Core.Path.{subst}
use bingewatch.Status.{Status}
use bingewatch.Filter.{
  Direction, Filter, Counter, Passed, count_up_to, let_through, call_next, limit_read, limit_write,
  settled, byte_count_limiter, limit_reached, create_byte_count_limit_filter,
}

-- The rest of the chain, and how many bytes it has been called with.
pub record Watched (S : Type 0) : Type 0 where
  pub inner : S
  pub passed : ℕ

pub sum : List ℕ → ℕ
sum [] = 0
sum (n ∷ ns) = n + sum ns

count_up_to-min :
    (c : Counter) (bytes : ℕ)
    → c.total ≤ c.limit
    → bytes + c.limit < size_mod
    → ((count_up_to c bytes).total ≡ min c.limit (c.total + bytes))
      × ((count_up_to c bytes).limit ≡ c.limit)
      × (c.total + let_through c bytes ≡ min c.limit (c.total + bytes))
unfolding count_up_to let_through
count_up_to-min c bytes le small =
    let no_wrap : add_size c.total bytes ≡ c.total + bytes = omega (arith, le, small) in
    let left : sub_size c.limit c.total ≡ c.limit - c.total = omega (arith, le, small) in
    let full : add_size c.total (c.limit - c.total) ≡ c.limit = omega (arith, le, small) in
    elim (Bool-cases (leb (c.total + bytes) c.limit)) [
      | inl e ↦ simp (no_wrap, e) (ground arith)
      | inr e ↦ simp (no_wrap, e, left, full) (ground arith)
    ]

settled-keeps :
    {S : Type 0} (st : Status) (r : Passed Counter S)
    → ((settled st r).obj ≡ r.obj) × ((settled st r).rest ≡ r.rest)
unfolding settled
settled-keeps st r = ground arith

module _ {S : Type 0} (next : S → ℕ → Status × ℕ × S) where
  -- The rest of the chain, watched.
  pub watch : Watched S → ℕ → Status × ℕ × Watched S
  watch w bytes =
      let r = next w.inner bytes in (r.0, r.1, record { inner = r.2; passed = w.passed + bytes })

  -- Call after call of a `byte_count_limiter`, with the size of each.
  pub limit_all : Filter → Counter → Watched S → List ℕ → Counter × Watched S
  unfolding byte_count_limiter watch
  limit_all f c w [] = (c, w)
  limit_all f c w (n ∷ ns) = let r = byte_count_limiter watch f c w n in limit_all f r.obj r.rest ns

  limit_write_open :
      (c : Counter) (w : Watched S) (bytes : ℕ)
      → ((limit_write watch c w bytes).obj ≡ count_up_to c bytes)
        × ((limit_write watch c w bytes).rest.passed ≡ w.passed + let_through c bytes)
  unfolding limit_write watch call_next
  limit_write_open c w bytes =
      let k =
        settled-keeps (next w.inner (let_through c bytes)).0
          (call_next watch (count_up_to c bytes) w (let_through c bytes)) in
      (k.0, ap (λ x. x.passed) k.1)

  byte_count_limiter-write :
      (f : Filter) (c : Counter) (w : Watched S) (n : ℕ)
      → f.enabled ≡ true
      → f.direction ≡ Direction.write
      → byte_count_limiter watch f c w n ≡ limit_write watch c w n
  unfolding byte_count_limiter
  byte_count_limiter-write f c w n on dir = simp (on, dir)

  limit_all-write :
      (ns : List ℕ) (f : Filter) (c : Counter) (w : Watched S)
      → f.enabled ≡ true
      → f.direction ≡ Direction.write
      → All (λ n. n + c.limit < size_mod) ns
      → c.total ≤ c.limit
      → w.passed ≡ c.total
      → ((limit_all f c w ns).0.total ≡ min c.limit (c.total + sum ns))
        × ((limit_all f c w ns).1.passed ≡ min c.limit (c.total + sum ns))
  unfolding limit_all sum
  limit_all-write [] f c w on dir small le eq = (omega (arith, le), omega (arith, le, eq))
  limit_all-write (n ∷ ns) f c w on dir small le eq =
      let m = count_up_to-min c n le small.0 in
      let e : byte_count_limiter watch f c w n ≡ limit_write watch c w n =
        byte_count_limiter-write f c w n on dir in
      let o = limit_write_open c w n in
      let r = byte_count_limiter watch f c w n in
      let obj : r.obj ≡ count_up_to c n = ap (λ r. r.obj) e ∙ o.0 in
      let total : r.obj.total ≡ min c.limit (c.total + n) = ap (λ c. c.total) obj ∙ m.0 in
      let limit : r.obj.limit ≡ c.limit = ap (λ c. c.limit) obj ∙ m.1 in
      let passed : r.rest.passed ≡ w.passed + let_through c n = ap (λ r. r.rest.passed) e ∙ o.1 in
      let rest =
        limit_all-write ns f r.obj r.rest on dir
          (subst (λ l. All (λ n. n + l < size_mod) ns) (sym limit) small.1)
          (omega (arith, total, limit)) (omega (arith, passed, total, eq, m.2)) in
      (omega (arith, rest.0, total, limit), omega (arith, rest.1, total, limit))

  -- Through a write filter made with a byte limit, whatever the rest of the chain answers (errors
  -- included), a sequence of writes passes on exactly as many bytes as were asked for until the
  -- limit is met and none after it, and that is the total the filter keeps; the sizes are such
  -- that a size and the limit together fit `size_t`.
  pub limit_all-bound :
      (f : Filter) (byte_limit : ℕ) (s : S) (ns : List ℕ)
      → f.enabled ≡ true
      → f.direction ≡ Direction.write
      → All (λ n. n + byte_limit < size_mod) ns
      → ((limit_all f
            (create_byte_count_limit_filter byte_limit)
            (record { inner = s; passed = 0 })
            ns).1.passed
          ≡ min byte_limit (sum ns))
        × ((limit_all f
              (create_byte_count_limit_filter byte_limit)
              (record { inner = s; passed = 0 })
              ns).0.total
            ≡ min byte_limit (sum ns))
  unfolding create_byte_count_limit_filter
  limit_all-bound f byte_limit s ns on dir small =
      let h =
        limit_all-write ns f (create_byte_count_limit_filter byte_limit)
          (record { inner = s; passed = 0 }) on dir small (omega arith) refl in
      (omega (arith, h.1), omega (arith, h.0))

  -- Through a read filter that the next filter has given a number of bytes past the limit, the
  -- caller is told that number although the limiter counts only up to its limit.
  pub byte_count_limiter-read_unclamped :
      (f : Filter) (c : Counter) (s : S) (bytes : ℕ)
      → f.enabled ≡ true
      → f.direction ≡ Direction.read
      → (next s bytes).0 ≡ Status.success
      → c.total ≤ c.limit
      → (next s bytes).1 + c.limit < size_mod
      → c.limit < c.total + (next s bytes).1
      → ((byte_count_limiter next f c s bytes).bytes ≡ (next s bytes).1)
        × ((byte_count_limiter next f c s bytes).obj.total ≡ c.limit)
        × ((byte_count_limiter next f c s bytes).status ≡ Status.complete)
  unfolding byte_count_limiter limit_read call_next limit_reached
  byte_count_limiter-read_unclamped f c s bytes on dir ok le small past =
      let m = count_up_to-min c (next s bytes).1 le small in
      let total : (count_up_to c (next s bytes).1).total ≡ c.limit = omega (arith, m.0, past) in
      let full : leb (count_up_to c (next s bytes).1).limit (count_up_to c (next s bytes).1).total
          ≡ true =
        ground arith in
      simp (on, dir, ok, full) (refl, total, refl)
