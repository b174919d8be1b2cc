-- ===== src/SdrRx/Buffer/Threads/Failed.antt =====
-- A read of the hardware that fails while the reader waits for its block.
use mathlib.Core.Path.{subst}
use bingewatch.Prelude.{ℕ, ◌<◌, ◌≡◌, refl, sym, ap, ◌∙◌, true, false, List, [], length, arith}
use bingewatch.Block.{update}
use bingewatch.Block.Segment.{update_self}
use bingewatch.Status.{Status}
use bingewatch.SdrRx.Buffer.{SampleBlock, store_block}
use bingewatch.SdrRx.Buffer.Threads.{RxThreads, RxStep, RxReach, fill_round}

module _ {S : Type 0} (n : ℕ) (Answers : Status → List S → Type 0) where
  -- A reader that waits for a block that nobody fills.
  record Waits (s : RxThreads S) : Type 0 where
    reading : s.reading ≡ true
    wants : 0 < s.rd.remaining
    stopped : s.filling ≡ false
    empty : (s.buf.blocks s.buf.rp).samples ≡ []

  Waits-RxStep : {s t : RxThreads S} → Waits s → RxStep n Answers s t → ⊥
  Waits-RxStep w (RxStep.begin _ r _) = ground (arith, w.reading, r)
  Waits-RxStep w (RxStep.fill _ _ _ f _) = ground (arith, w.stopped, f)
  Waits-RxStep w (RxStep.halt f _) = ground (arith, w.stopped, f)
  Waits-RxStep w (RxStep.round _ _ pos _) = omega (arith, pos, ap length w.empty)
  Waits-RxStep w (RxStep.finish _ z) = omega (arith, w.wants, z)

  Waits-RxReach : {s t : RxThreads S} → Waits s → RxReach n Answers s t → t ≡ s
  Waits-RxReach w RxReach.here = refl
  Waits-RxReach {s = s} w (RxReach.next {s = u} {t = t} r step) =
      absurd (Waits-RxStep w (subst (λ v. RxStep n Answers v t) (Waits-RxReach w r) step))

  -- If a read of the hardware fails while the reader wants more samples and has taken all that
  -- there were, nothing ever changes again: read_from_buffer does not return.
  pub fill_round-RxReach :
      (s t : RxThreads S) (samples : List S)
      → s.reading ≡ true
      → 0 < s.rd.remaining
      → s.buf.wp ≡ s.buf.rp
      → (s.buf.blocks s.buf.rp).samples ≡ []
      → RxReach n Answers (fill_round n Status.error samples s) t
      → t ≡ fill_round n Status.error samples s
  unfolding fill_round store_block
  fill_round-RxReach s t samples reading wants at empty r =
      let x : SampleBlock S = record (s.buf.blocks s.buf.wp) { d_ret = Status.error } in
      Waits-RxReach
        (record {
          reading = reading;
          wants = wants;
          stopped = refl;
          empty =
              ap (λ p. (update s.buf.blocks s.buf.wp x p).samples) (sym at)
              ∙ ap (λ b. b.samples) (update_self s.buf.blocks s.buf.wp x)
              ∙ ap (λ p. (s.buf.blocks p).samples) at
              ∙ empty;
        })
        r
