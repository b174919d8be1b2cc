-- ===== src/SdrRx/Buffer/Held.antt =====
-- A ring whose blocks from `rp` up to `wp` hold, in order, what has come and was not given yet.
use mathlib.Core.Path.{subst}
use bingewatch.Prelude.{
  ℕ, suc, ◌≤◌, ◌<◌, ◌≡◌, ◌≢◌, refl, sym, ap, ◌∙◌, inl, inr, List, [], ◌++◌, append_assoc, length,
  arith, ◌==◌, ==_iff, Bool-cases,
}
use bingewatch.Block.{update}
use bingewatch.Block.Segment.{update_self, update_ne}
use bingewatch.Status.{Status}
use bingewatch.SdrRx.Buffer.{SampleBlock, RwBuf, next_block, store_block}
use bingewatch.SdrRx.Buffer.Places.{
  place, place_all, next-place, place_ne, queue, queue_update, queue_last,
}

module _ {S : Type 0} (n : ℕ) where
  abbrev pub IsFull : SampleBlock S → Type 0
  IsFull b = (0 < length b.samples) × (b.d_ret ≡ Status.success)

  pub record Holds (buf : RwBuf S) (given came : List S) : Type 0 where
    pub full : ℕ
    pub rp_less : buf.rp < n
    pub full_le : full ≤ n
    pub wp_at : buf.wp ≡ place n buf.rp full
    pub held : (k : ℕ) → k < full → IsFull (buf.blocks (place n buf.rp k))
    pub blank : (k : ℕ) → full ≤ k → k < n → (buf.blocks (place n buf.rp k)).samples ≡ []
    pub order : given ++ queue n buf.blocks buf.rp full ≡ came

  -- Where the block of `wp` is empty, not all are full.
  pub not_full :
      (buf : RwBuf S) (given came : List S) (h : Holds buf given came)
      → (buf.blocks buf.wp).samples ≡ []
      → h.full < n
  not_full buf given came h empty = elim (Bool-cases (h.full == n)) [
    | inl all ↦
        let e : h.full ≡ n = (==_iff h.full n).0 all in
        let at : buf.wp ≡ place n buf.rp 0 =
          h.wp_at ∙ ap (place n buf.rp) e ∙ place_all n buf.rp h.rp_less in
        absurd (
          omega (
            arith,
            (h.held 0 (omega (arith, e, h.rp_less))).0,
            ap (λ (p : ℕ). length (buf.blocks p).samples) at,
            ap length empty,
          ))
    | inr part ↦ ground (arith, part, h.full_le)
  ]

  -- A block that is filled.
  pub store_block-Holds :
      (buf : RwBuf S) (given came : List S) (l : List S)
      → Holds buf given came
      → (buf.blocks buf.wp).samples ≡ []
      → 0 < length l
      → Holds (store_block n buf Status.success l) given (came ++ l)
  unfolding store_block
  store_block-Holds buf given came l h empty some_samples =
      let lt = not_full buf given came h empty in
      let x : SampleBlock S = record { samples = l; d_ret = Status.success } in
      let here : update buf.blocks buf.wp x (place n buf.rp h.full) ≡ x =
        ap (update buf.blocks buf.wp x) (sym h.wp_at) ∙ update_self buf.blocks buf.wp x in
      let there = λ (k : ℕ) (k_lt : k < n) (ne : k ≢ h.full).
        update_ne buf.blocks buf.wp (place n buf.rp k) x
          (λ e. place_ne n buf.rp k h.full h.rp_less k_lt lt ne (e ∙ h.wp_at)) in
      record {
        full = suc h.full;
        rp_less = h.rp_less;
        full_le = omega (arith, lt);
        wp_at = ap (next_block n) h.wp_at ∙ next-place n buf.rp h.full h.rp_less lt;
        held = λ k k_lt. elim (Bool-cases (k == h.full)) [
          | inl e ↦
              subst IsFull
                (sym (
                  ap (λ j. update buf.blocks buf.wp x (place n buf.rp j)) ((==_iff k h.full).0 e)
                  ∙ here))
                (some_samples, refl)
          | inr e ↦
              subst IsFull (sym (there k (omega (arith, k_lt, lt)) (ground (arith, e))))
                (h.held k (ground (arith, e, k_lt)))
        ];
        blank = λ k le k_lt.
            ap (λ b. b.samples) (there k k_lt (λ e. omega (arith, le, e)))
            ∙ h.blank k (omega (arith, le)) k_lt;
        order =
            let old =
              queue_update n buf.blocks buf.wp x buf.rp h.full h.rp_less h.full_le (λ k k_lt e.
                place_ne n buf.rp k h.full h.rp_less (omega (arith, k_lt, lt)) lt
                  (λ same. omega (arith, k_lt, same)) (e ∙ h.wp_at)) in
            ap (λ q. given ++ q)
              (queue_last n (update buf.blocks buf.wp x) buf.rp h.full h.rp_less lt
                ∙ ap (λ q. q ++ (update buf.blocks buf.wp x (place n buf.rp h.full)).samples) old
                ∙ ap (λ b. queue n buf.blocks buf.rp h.full ++ b.samples) here)
            ∙ sym (append_assoc given (queue n buf.blocks buf.rp h.full) l)
            ∙ ap (λ c. c ++ l) h.order;
      }
