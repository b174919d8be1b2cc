-- ===== src/SdrRx/Buffer/Threads/Order.antt =====
-- The reader's samples are the hardware's, in order.
use mathlib.Core.Path.{subst}
use bingewatch.Prelude.{
  ℕ, ◌<◌, ◌≡◌, sym, ap, ◌∙◌, ◌⊎◌, inl, inr, List, [], ◌++◌, append_assoc, append-nil, take, drop,
  take_all, length, arith, ◌==◌, Bool-cases, if-true, if-false,
}
use bingewatch.Block.{update}
use bingewatch.Status.{Status}
use bingewatch.SdrRx.Buffer.{RwBuf, round_size, copied, round_by, read_round, drop_block}
use bingewatch.SdrRx.Buffer.Places.{place_first}
use bingewatch.SdrRx.Buffer.Held.{Holds, store_block-Holds}
use bingewatch.SdrRx.Buffer.Taken.{store_block_error, some_full, drop_block-Holds, front_rest-Holds}
use bingewatch.SdrRx.Buffer.Threads.{
  RxThreads, RxStep, RxReach, begin_read, fill_round, after_round,
}

module _ {S : Type 0} (n : ℕ) where
  -- The ring holds what came and was given neither by an earlier call nor by this one.
  abbrev pub InOrder : RxThreads S → Type 0
  InOrder s = Holds n s.buf (s.given ++ s.rd.got) s.came

  pub begin_read-InOrder :
      (s : RxThreads S) (n_samp : ℕ) → InOrder s → InOrder (begin_read n_samp s)
  unfolding begin_read
  begin_read-InOrder s n_samp h =
      subst (λ g. Holds n s.buf g s.came) (sym (append-nil (s.given ++ s.rd.got))) h

  -- A round at a block that was filled.
  copied-InOrder :
      (s : RxThreads S)
      → InOrder s
      → 0 < length (s.buf.blocks s.buf.rp).samples
      → InOrder (after_round (copied n s.buf s.rd s.rd.ret) s)
  unfolding after_round copied
  copied-InOrder s h pos =
      let b = s.buf.blocks s.buf.rp in
      let j = round_size s.buf s.rd in
      let given = s.given ++ s.rd.got in
      let (m, e) = some_full n s.buf given s.came h pos in
      let regroup = append_assoc s.given s.rd.got (take j b.samples) in
      let moved : RwBuf S = record s.buf {
        blocks = update s.buf.blocks s.buf.rp (record b { samples = drop j b.samples });
      } in
      elim (Bool-cases (j == length b.samples)) [
        | inl all ↦
            let whole : take j b.samples ≡ b.samples = take_all j b.samples (ground (arith, all)) in
            subst (λ buf. Holds n buf (s.given ++ (s.rd.got ++ take j b.samples)) s.came)
              (sym (if-true (j == length b.samples) (drop_block n s.buf) moved all))
              (subst (λ g. Holds n (drop_block n s.buf) g s.came)
                (ap (λ l. given ++ l) (sym whole) ∙ regroup)
                (drop_block-Holds n s.buf given s.came h m e))
        | inr part ↦
            subst (λ buf. Holds n buf (s.given ++ (s.rd.got ++ take j b.samples)) s.came)
              (sym (if-false (j == length b.samples) (drop_block n s.buf) moved part))
              (subst (λ g. Holds n moved g s.came) regroup
                (front_rest-Holds n s.buf given s.came h m e j (ground (arith, part, pos))))
      ]

  pub read_round-copied :
      (s : RxThreads S)
      → InOrder s
      → 0 < length (s.buf.blocks s.buf.rp).samples
      → read_round n s.buf s.rd ≡ copied n s.buf s.rd s.rd.ret
  unfolding read_round round_by
  read_round-copied s h pos =
      let (m, e) = some_full n s.buf (s.given ++ s.rd.got) s.came h pos in
      let good : (s.buf.blocks s.buf.rp).d_ret ≡ Status.success =
        ap (λ p. (s.buf.blocks p).d_ret) (sym (place_first n s.buf.rp h.rp_less))
        ∙ (h.held 0 (omega (arith, e))).1 in
      ap (λ d. round_by d n s.buf s.rd) good

  pub round-InOrder :
      (s : RxThreads S)
      → InOrder s
      → 0 < length (s.buf.blocks s.buf.rp).samples
      → InOrder (after_round (read_round n s.buf s.rd) s)
  round-InOrder s h pos =
      subst (λ r. InOrder (after_round r s)) (sym (read_round-copied s h pos))
        (copied-InOrder s h pos)

  -- What a driver answers: an error, or success with a sample at least.
  abbrev pub IsAnswer : Status → List S → Type 0
  IsAnswer d_ret samples =
      (d_ret ≡ Status.error) ⊎ ((d_ret ≡ Status.success) × (0 < length samples))

  pub fill-InOrder :
      (s : RxThreads S) (d_ret : Status) (samples : List S)
      → InOrder s
      → (s.buf.blocks s.buf.wp).samples ≡ []
      → IsAnswer d_ret samples
      → InOrder (fill_round n d_ret samples s)
  unfolding fill_round
  fill-InOrder s d_ret samples h empty (inl e) =
      subst (λ d. InOrder (fill_round n d samples s)) (sym e)
        (store_block_error n s.buf (s.given ++ s.rd.got) s.came samples h empty)
  fill-InOrder s d_ret samples h empty (inr (e, some_samples)) =
      subst (λ d. InOrder (fill_round n d samples s)) (sym e)
        (store_block-Holds n s.buf (s.given ++ s.rd.got) s.came samples h empty some_samples)

  module _ (Answers : Status → List S → Type 0)
      (answers : (d_ret : Status) (samples : List S)
        → Answers d_ret samples
        → IsAnswer d_ret samples) where
    step-InOrder : (s t : RxThreads S) → RxStep n Answers s t → InOrder s → InOrder t
    step-InOrder s _ (RxStep.begin n_samp _ _) h = begin_read-InOrder s n_samp h
    step-InOrder s _ (RxStep.fill d_ret samples a _ empty) h =
        fill-InOrder s d_ret samples h empty (answers d_ret samples a)
    step-InOrder s _ (RxStep.halt _ _) h = h
    step-InOrder s _ (RxStep.round _ _ pos _) h = round-InOrder s h pos
    step-InOrder s _ (RxStep.finish _ _) h = h

    -- Where `hw_read` answers an error or success with a sample at least, and no `memcpy` of the
    -- rest of a block overlaps, whatever the threads do, the samples stored in the callers'
    -- buffers, those of calls that answer an error included, and behind them those in the ring are
    -- the samples that came from the hardware, in order.
    pub RxReach-InOrder : (s t : RxThreads S) → InOrder s → RxReach n Answers s t → InOrder t
    RxReach-InOrder s _ h RxReach.here = h
    RxReach-InOrder s _ h (RxReach.next {s = u} {t = t} r step) =
        step-InOrder u t step (RxReach-InOrder s u h r)
