-- ===== src/SdrRx/Buffer/Taken.antt =====
-- A ring of blocks after a failed read of the hardware, and after samples have been taken out.
use mathlib.Core.Path.{subst}
use bingewatch.Prelude.{
  ℕ, zero, suc, ◌-◌, ◌≤◌, ◌<◌, ◌≡◌, ◌≢◌, sym, ap, ◌∙◌, inl, inr, List, [], ◌++◌, append_assoc, take,
  drop, take-append-drop, length, length-drop, arith, ◌==◌, ==_iff, Bool-cases,
}
use bingewatch.Block.{update}
use bingewatch.Block.Segment.{update_self, update_ne}
use bingewatch.Status.{Status}
use bingewatch.SdrRx.Buffer.{SampleBlock, RwBuf, next_block, store_block, drop_block}
use bingewatch.SdrRx.Buffer.Places.{
  place, place_all, place_first, next_less, place-next, place_ne, queue, queue_front, queue_update,
}
use bingewatch.SdrRx.Buffer.Held.{Holds, IsFull, not_full}

module _ {S : Type 0} (n : ℕ) where
  -- A block that could not be filled.
  pub store_block_error :
      (buf : RwBuf S) (given came l : List S)
      → Holds n buf given came
      → (buf.blocks buf.wp).samples ≡ []
      → Holds n (store_block n buf Status.error l) given came
  unfolding store_block
  store_block_error buf given came l h empty =
      let lt = not_full n buf given came h empty in
      let x : SampleBlock S = record (buf.blocks buf.wp) { d_ret = Status.error } in
      let there = λ (k : ℕ) (k_lt : k < n) (ne : k ≢ h.full).
        update_ne buf.blocks buf.wp (place n buf.rp k) x
          (λ e. place_ne n buf.rp k h.full h.rp_less k_lt lt ne (e ∙ h.wp_at)) in
      let here : update buf.blocks buf.wp x (place n buf.rp h.full) ≡ x =
        ap (update buf.blocks buf.wp x) (sym h.wp_at) ∙ update_self buf.blocks buf.wp x in
      record {
        full = h.full;
        rp_less = h.rp_less;
        full_le = h.full_le;
        wp_at = h.wp_at;
        held = λ k k_lt.
            subst (λ b. IsFull n b)
              (sym (there k (omega (arith, k_lt, lt)) (λ e. omega (arith, k_lt, e))))
              (h.held k k_lt);
        blank = λ k le k_lt. elim (Bool-cases (k == h.full)) [
          | inl e ↦
              ap (λ j. (update buf.blocks buf.wp x (place n buf.rp j)).samples)
                ((==_iff k h.full).0 e)
              ∙ ap (λ b. b.samples) here
              ∙ empty
          | inr e ↦ ap (λ b. b.samples) (there k k_lt (ground (arith, e))) ∙ h.blank k le k_lt
        ];
        order =
            ap (λ q. given ++ q)
              (queue_update n buf.blocks buf.wp x buf.rp h.full h.rp_less h.full_le (λ k k_lt e.
                place_ne n buf.rp k h.full h.rp_less (omega (arith, k_lt, lt)) lt
                  (λ same. omega (arith, k_lt, same)) (e ∙ h.wp_at)))
            ∙ h.order;
      }

  split :
      (given : List S) (j : ℕ) (l rest : List S)
      → (given ++ take j l) ++ (drop j l ++ rest) ≡ given ++ (l ++ rest)
  split given j l rest =
      append_assoc given (take j l) (drop j l ++ rest)
      ∙ ap (λ q. given ++ q)
          (sym (append_assoc (take j l) (drop j l) rest)
            ∙ ap (λ q. q ++ rest) (take-append-drop j l))

  -- Where the block of `rp` is not empty, it is one of those that are full.
  pub some_full :
      (buf : RwBuf S) (given came : List S) (h : Holds n buf given came)
      → 0 < length (buf.blocks buf.rp).samples
      → (m : ℕ) × (h.full ≡ suc m)
  some_full buf given came h pos = elim (Bool-cases (h.full == 0)) [
    | inl e ↦ absurd (
        omega (
          arith,
          pos,
          ap length (
              ap (λ p. (buf.blocks p).samples) (sym (place_first n buf.rp h.rp_less))
              ∙ h.blank 0 (omega (arith, (==_iff h.full 0).0 e)) (omega (arith, h.rp_less))),
        ))
    | inr e ↦ (h.full - 1, ground (arith, e))
  ]

  module _ (buf : RwBuf S) (given came : List S) (h : Holds n buf given came) (m : ℕ)
      (e : h.full ≡ suc m) where
    le : suc m ≤ n
    le = omega (arith, e, h.full_le)

    -- The blocks after the first one are other blocks.
    rest_other : (k : ℕ) → suc k < n → place n buf.rp (suc k) ≢ buf.rp
    rest_other k lt same =
        place_ne n buf.rp (suc k) 0 h.rp_less lt (omega (arith, lt)) (λ z. omega (arith, z))
          (same ∙ sym (place_first n buf.rp h.rp_less))

    rest_queue :
        (x : SampleBlock S)
        → queue n (update buf.blocks buf.rp x) (next_block n buf.rp) m
          ≡ queue n buf.blocks (next_block n buf.rp) m
    rest_queue x =
        queue_update n buf.blocks buf.rp x (next_block n buf.rp) m (next_less n buf.rp h.rp_less)
          (omega (arith, le))
          (λ k lt same.
            rest_other k (omega (arith, lt, le))
              (sym (place-next n buf.rp k h.rp_less (omega (arith, lt, le))) ∙ same))

    later :
        (x : SampleBlock S) (k : ℕ)
        → suc k < n
        → update buf.blocks buf.rp x (place n (next_block n buf.rp) k)
          ≡ buf.blocks (place n buf.rp (suc k))
    later x k lt =
        ap (update buf.blocks buf.rp x) (place-next n buf.rp k h.rp_less (omega (arith, lt)))
        ∙ update_ne buf.blocks buf.rp (place n buf.rp (suc k)) x (rest_other k lt)

    -- The block left behind is the last one of the ring that is not full.
    dropped_blank :
        (k : ℕ)
        → m ≤ k
        → k < n
        → let x = record (buf.blocks buf.rp) { samples = [] } in
          (update buf.blocks buf.rp x (place n (next_block n buf.rp) k)).samples ≡ []
    dropped_blank k low lt =
        let x : SampleBlock S = record (buf.blocks buf.rp) { samples = [] } in
        elim (Bool-cases (suc k == n)) [
          | inl last ↦
              ap (λ p. (update buf.blocks buf.rp x p).samples)
                (place-next n buf.rp k h.rp_less lt
                  ∙ ap (place n buf.rp) ((==_iff (suc k) n).0 last)
                  ∙ place_all n buf.rp h.rp_less
                  ∙ place_first n buf.rp h.rp_less)
              ∙ ap (λ c. c.samples) (update_self buf.blocks buf.rp x)
          | inr more ↦
              let lt' : suc k < n = ground (arith, more, lt) in
              ap (λ c. c.samples) (later x k lt') ∙ h.blank (suc k) (omega (arith, low, e)) lt'
        ]

    -- A first block that keeps some of its samples.
    first_held :
        (j : ℕ)
        → j < length (buf.blocks buf.rp).samples
        → (k : ℕ) → k < h.full
        → let b = buf.blocks buf.rp in
          let x = record b { samples = drop j b.samples } in
          IsFull n (update buf.blocks buf.rp x (place n buf.rp k))
    first_held j lt zero k_lt =
        let b = buf.blocks buf.rp in
        let x : SampleBlock S = record b { samples = drop j b.samples } in
        subst (λ c. IsFull n c)
          (sym (
            ap (update buf.blocks buf.rp x) (place_first n buf.rp h.rp_less)
            ∙ update_self buf.blocks buf.rp x))
          (
            omega (arith, lt, length-drop j b.samples),
            ap (λ p. (buf.blocks p).d_ret) (sym (place_first n buf.rp h.rp_less))
                ∙ (h.held 0 k_lt).1,
          )
    first_held j lt (suc k) k_lt =
        let x : SampleBlock S = record (buf.blocks buf.rp) {
          samples = drop j (buf.blocks buf.rp).samples;
        } in
        subst (λ c. IsFull n c)
          (sym (
            update_ne buf.blocks buf.rp (place n buf.rp (suc k)) x
              (rest_other k (omega (arith, k_lt, h.full_le)))))
          (h.held (suc k) k_lt)

    first_blank :
        (j k : ℕ)
        → h.full ≤ k
        → k < n
        → let b = buf.blocks buf.rp in
          let x = record b { samples = drop j b.samples } in
          (update buf.blocks buf.rp x (place n buf.rp k)).samples ≡ []
    first_blank j zero low k_lt = absurd (omega (arith, low, e))
    first_blank j (suc k) low k_lt =
        let b = buf.blocks buf.rp in
        let x : SampleBlock S = record b { samples = drop j b.samples } in
        ap (λ c. c.samples)
          (update_ne buf.blocks buf.rp (place n buf.rp (suc k)) x (rest_other k k_lt))
        ∙ h.blank (suc k) low k_lt

    pub drop_block-Holds : Holds n (drop_block n buf) (given ++ (buf.blocks buf.rp).samples) came
    unfolding drop_block
    drop_block-Holds =
        let b = buf.blocks buf.rp in
        let x : SampleBlock S = record b { samples = [] } in
        record {
          full = m;
          rp_less = next_less n buf.rp h.rp_less;
          full_le = omega (arith, le);
          wp_at =
              h.wp_at
              ∙ ap (place n buf.rp) e
              ∙ sym (place-next n buf.rp m h.rp_less (omega (arith, le)));
          held = λ k lt.
              subst (λ c. IsFull n c) (sym (later x k (omega (arith, lt, le))))
                (h.held (suc k) (omega (arith, lt, e)));
          blank = λ k low lt. dropped_blank k low lt;
          order =
              append_assoc given b.samples
                (queue n (update buf.blocks buf.rp x) (next_block n buf.rp) m)
              ∙ ap (λ q. given ++ (b.samples ++ q)) (rest_queue x)
              ∙ ap (λ q. given ++ q) (sym (queue_front n buf.blocks buf.rp m h.full e))
              ∙ h.order;
        }

    pub front_rest-Holds :
        (j : ℕ)
        → j < length (buf.blocks buf.rp).samples
        → let b = buf.blocks buf.rp in
          Holds n
            (record buf {
              blocks = update buf.blocks buf.rp (record b { samples = drop j b.samples });
            })
            (given ++ take j b.samples)
            came
    front_rest-Holds j lt =
        let b = buf.blocks buf.rp in
        let x : SampleBlock S = record b { samples = drop j b.samples } in
        record {
          full = h.full;
          rp_less = h.rp_less;
          full_le = h.full_le;
          wp_at = h.wp_at;
          held = λ k k_lt. first_held j lt k k_lt;
          blank = λ k low k_lt. first_blank j k low k_lt;
          order =
              ap (λ q. (given ++ take j b.samples) ++ q)
                (queue_front n (update buf.blocks buf.rp x) buf.rp m h.full e
                  ∙ ap (λ q. q ++ queue n (update buf.blocks buf.rp x) (next_block n buf.rp) m)
                      (ap (λ c. c.samples) (update_self buf.blocks buf.rp x))
                  ∙ ap (λ q. drop j b.samples ++ q) (rest_queue x))
              ∙ split given j b.samples (queue n buf.blocks (next_block n buf.rp) m)
              ∙ ap (λ q. given ++ q) (sym (queue_front n buf.blocks buf.rp m h.full e))
              ∙ h.order;
        }
