-- ===== src/Fixed/Arguments.antt =====
-- The arguments of `create_buffer`: alignment and block size, and how many blocks it makes.
use bingewatch.Prelude.{
  ℕ, zero, suc, ◌+◌, ◌-◌, ◌*◌, ◌/◌, ◌%◌, ◌^◌, ◌<◌, ◌≤◌, ◌≡◌, refl, sym, ap, ◌∙◌, inl, inr, true,
  arith, ltb, ◌==◌, ==_iff, if◌then◌else◌, Bool-cases, if-true, if-false, add_size, sub_size, min,
}
use Prim.Native.Nat.{bit_and, bit_and-bitwise, digits}
use native.Mathlib.Nat.{
  mod-one, zero-mod, mod-lt, mod-add-div', mod-eq_of_lt, two-pow-succ, one-le-pow,
  mul-add-mod_self_right, mod_self, add-mod-mod, pow-le-pow_right,
}
use bingewatch.Fixed.{
  FbbArgs, is_power, adjust, or_default, sanitize_args, block_count, fbb_align, fbb_blk_bytes,
  fbb_buf_bytes,
}

is_power_lem : (i align : ℕ) → is_power i align ≡ true → (j : ℕ) × (j ≤ i) × (align ≡ 2 ^ j)
unfolding is_power
is_power_lem zero align e = (0, omega arith, sym ((==_iff 1 align).0 e))
is_power_lem (suc i) align e = elim (Bool-cases (2 ^ suc i == align)) [
  | inl t ↦ (suc i, omega arith, sym ((==_iff (2 ^ suc i) align).0 t))
  | inr f ↦
      let (j, le, same) = is_power_lem i align (sym (if-false (2 ^ suc i == align) true _ f) ∙ e) in
      (j, omega (arith, le), same)
]

-- The lowest digits of a number, by a mask.
digits-zero : (n a : ℕ) → digits (λ b. zero) min n a 0 ≡ 0
digits-zero zero a = refl
digits-zero (suc n) zero = refl
digits-zero (suc n) (suc a) = let e = digits-zero n (suc a / 2) in omega (arith, e)

halves : (p a : ℕ) → 0 < p → (a / 2) % p * 2 + a % 2 ≡ a % (p + p)
halves p a pos =
    let r = (a / 2) % p in
    let q = (a / 2) / p in
    let low = r * 2 + a % 2 in
    let less : r < p = mod-lt (a / 2) pos in
    let part : r + q * p ≡ a / 2 = mod-add-div' (a / 2) p in
    let twice : q * (p + p) ≡ q * p + q * p = grind arith in
    let whole : a ≡ q * (p + p) + low = omega (arith, part, twice) in
    let small : low < p + p = omega (arith, less) in
    sym (ap (λ x. x % (p + p)) whole ∙ mul-add-mod_self_right q (p + p) low ∙ mod-eq_of_lt small)

digits-mask : (k n a : ℕ) → a ≤ n → digits (λ b. zero) min n a (2 ^ k - 1) ≡ a % 2 ^ k
digits-mask zero n a h = digits-zero n a ∙ sym (mod-one a)
digits-mask (suc k) zero zero h = sym (zero-mod (2 ^ suc k))
digits-mask (suc k) (suc n) zero h = sym (zero-mod (2 ^ suc k))
digits-mask (suc k) zero (suc a) h = absurd (omega (arith, h))
digits-mask (suc k) (suc n) (suc a) h =
    let p = 2 ^ k in
    let pos : 1 ≤ p = one-le-pow k 2 (omega arith) in
    let half : (2 ^ suc k - 1) / 2 ≡ p - 1 = omega (arith, two-pow-succ k, pos) in
    let odd : (2 ^ suc k - 1) % 2 ≡ 1 = omega (arith, two-pow-succ k, pos) in
    let e = digits-mask k n (suc a / 2) (omega (arith, h)) in
    rw (half, odd, e)
      (let one_digit : min (suc a % 2) 1 ≡ suc a % 2 = omega arith in
        rw one_digit (halves p (suc a) pos ∙ ap (λ m. suc a % m) (sym (two-pow-succ k))))

-- `& (align - 1)` for a power of 2.
bit_and-mod : (k a : ℕ) → bit_and a (2 ^ k - 1) ≡ a % 2 ^ k
bit_and-mod k a = (λ i. bit_and-bitwise a (2 ^ k - 1) i) ∙ digits-mask k a a (omega arith)

-- A number rounded up to a multiple.
round_up_mod : (p b : ℕ) → 0 < p → ((b + (p - b % p) % p) % p ≡ 0) × ((p - b % p) % p < p)
round_up_mod p b pos =
    let r = b % p in
    let q = b / p in
    let less : r < p = mod-lt b pos in
    let whole : b + (p - r) ≡ q * p + p = omega (arith, mod-add-div' b p, less) in
    (
      add-mod-mod b (p - r) p ∙ ap (λ x. x % p) whole ∙ mul-add-mod_self_right q p p ∙ mod_self p,
      mod-lt (p - r) pos,
    )

-- The block size is rounded up to a multiple of a power of 2.
adjust_lem : (k b : ℕ) → 2 ^ k < 2 ^ 64 → adjust (2 ^ k) b ≡ (2 ^ k - b % 2 ^ k) % 2 ^ k
unfolding adjust
adjust_lem k b small =
    let pos : 1 ≤ 2 ^ k = one-le-pow k 2 (omega arith) in
    let less : b % 2 ^ k < 2 ^ k = mod-lt b pos in
    let e : sub_size (2 ^ k) (b % 2 ^ k) ≡ 2 ^ k - b % 2 ^ k = omega (arith, less, small, pos) in
    rw (bit_and-mod k b) (bit_and-mod k (sub_size (2 ^ k) (b % 2 ^ k)) ∙ ap (λ x. x % 2 ^ k) e)

power_small : (k : ℕ) → k ≤ 15 → 2 ^ k ≤ 2 ^ 15
power_small k le = pow-le-pow_right (omega arith) le

-- The alignment that is used.
aligned :
    (given : ℕ) → (k : ℕ) × (k ≤ 15) × ((if is_power 15 given then given else fbb_align) ≡ 2 ^ k)
aligned given = elim (Bool-cases (is_power 15 given)) [
  | inl t ↦
      let (k, le, same) = is_power_lem 15 given t in
      (k, le, if-true (is_power 15 given) given fbb_align t ∙ same)
  | inr f ↦ (2, omega arith, if-false (is_power 15 given) given fbb_align f)
]

-- `block_bytes` once it has been adjusted.
adjusted :
    (k b : ℕ)
    → k ≤ 15
    → b < 2 ^ 63
    → let more = adjust (2 ^ k) b in
      let b' = if ltb 0 more then add_size b more else b in
      (b' % 2 ^ k ≡ 0) × (b ≤ b') × (b' < b + 2 ^ k)
adjusted k b le small =
    let pos : 1 ≤ 2 ^ k = one-le-pow k 2 (omega arith) in
    let few : 2 ^ k ≤ 2 ^ 15 = power_small k le in
    let more = (2 ^ k - b % 2 ^ k) % 2 ^ k in
    let (whole, less) = round_up_mod (2 ^ k) b pos in
    rw (adjust_lem k b (omega (arith, few))) (
      let sum : (if ltb 0 more then add_size b more else b) ≡ b + more =
        elim (Bool-cases (ltb 0 more)) [
          | inl t ↦ if-true (ltb 0 more) _ _ t ∙ omega (arith, less, few, small)
          | inr f ↦ if-false (ltb 0 more) _ _ f ∙ ground (arith, f)
        ] in
      rw sum (whole, omega arith, omega (arith, less)))

or_default-positive : (default n : ℕ) → 0 < default → 0 < or_default default n
or_default-positive default n pos = ground (arith, pos)

-- Whatever the arguments, with a block size below 2^63: the alignment that is used is one of 2^0
-- to 2^15, the block size is a multiple of it, not 0, at least the size asked for and less than
-- one alignment more, and the size of the buffer is not 0.
pub sanitize_args_lem :
    (args : FbbArgs)
    → args.block_bytes < 2 ^ 63
    → let s = sanitize_args args in
      let asked = or_default fbb_blk_bytes args.block_bytes in
      ((k : ℕ) × (k ≤ 15) × (s.align ≡ 2 ^ k))
      × (s.block_bytes % s.align ≡ 0)
      × (0 < s.block_bytes)
      × (asked ≤ s.block_bytes)
      × (s.block_bytes < asked + s.align)
      × (0 < s.buf_bytes)
unfolding sanitize_args
sanitize_args_lem args small =
    let asked = or_default fbb_blk_bytes args.block_bytes in
    let (k, le, same) = aligned (or_default fbb_align args.align) in
    let below : asked < 2 ^ 63 = ground (arith, small) in
    let (whole, up, near) = adjusted k asked le below in
    let pos : 0 < asked = or_default-positive fbb_blk_bytes args.block_bytes (omega arith) in
    rw same (
      (k, le, refl),
      whole,
      omega (arith, pos, up),
      up,
      near,
      or_default-positive fbb_buf_bytes args.buf_bytes (omega arith),
    )

factor_positive : (q s : ℕ) → 0 < q * s → 0 < q
factor_positive zero s h = absurd (omega (arith, h))
factor_positive (suc q) s h = omega arith

-- The blocks of a buffer have room for its bytes, and one block fewer would not.
pub block_count_lem :
    (bytes block_size : ℕ)
    → 0 < bytes
    → 0 < block_size
    → let n = block_count bytes block_size in
      (bytes ≤ n * block_size) × (n * block_size < bytes + block_size) × (0 < n)
unfolding block_count
block_count_lem bytes block_size pos room =
    let q = bytes / block_size in
    let whole = mod-add-div' bytes block_size in
    let less = mod-lt bytes room in
    let next : (q + 1) * block_size ≡ q * block_size + block_size = grind arith in
    elim (Bool-cases (ltb (q * block_size) bytes)) [
      | inl t ↦
          rw (if-true (ltb (q * block_size) bytes) (q + 1) q t, next)
            (omega (arith, whole, less), ground (arith, t), omega arith)
      | inr f ↦ rw (if-false (ltb (q * block_size) bytes) (q + 1) q f) (
        ground (arith, f),
        omega (arith, whole, less, room),
        factor_positive q block_size (ground (arith, f, pos)),
      )
    ]
