-- ===== src/SdrRx/Buffer/Threads.antt =====
-- The threads of src/sdr/sdr-rx-machine.c as steps: `read_from_buffer` starts one that runs
-- `fill_from_hw`, and the two go on in any order until the reader has joined it.
--
-- A step is a round of one of the loops. The round of the filling thread is the store of what
-- `hw_read` gave: its test of the block still holds then, as nobody else fills a block, and its
-- test of `do_fill` may be older than the end of the read.
pub mod Order
pub mod Failed
use bingewatch.Prelude.{
  ℕ, ◌+◌, ◌*◌, ◌≤◌, ◌<◌, ◌≡◌, ◌⊎◌, Bool, true, false, List, [], ◌++◌, length, not, if◌then◌else◌,
}
use bingewatch.Status.{Status, is_error}
use bingewatch.SdrRx.Buffer.{SampleBlock, RwBuf, Reader, Round, store_block, round_size, read_round}

-- `came` are the samples that the hardware gave and `given` those that earlier calls stored in the
-- buffers of their callers, also where the call then answered an error and no samples; `reading` is
-- whether a call is in its loop, `filling` whether its thread runs.
pub record RxThreads (S : Type 0) : Type 0 where
  pub buf : RwBuf S
  pub came : List S
  pub given : List S
  pub rd : Reader S
  pub reading : Bool
  pub filling : Bool

module _ {S : Type 0} where
  -- `read_from_buffer` up to its loop, for `n_samp` samples.
  unfoldable pub begin_read : ℕ → RxThreads S → RxThreads S
  begin_read n_samp s = record s {
    given = s.given ++ s.rd.got;
    rd = record { got = []; remaining = n_samp; ret = Status.error };
    reading = true;
    filling = true;
  }

  -- A round of `fill_from_hw`.
  unfoldable pub fill_round : ℕ → Status → List S → RxThreads S → RxThreads S
  fill_round n_blocks d_ret samples s = record s {
    buf = store_block n_blocks s.buf d_ret samples;
    came = if is_error d_ret then s.came else s.came ++ samples;
    filling = not (is_error d_ret);
  }

  unfoldable pub after_round : Round S → RxThreads S → RxThreads S
  after_round (Round.again buf rd) s = record s { buf = buf; rd = rd }
  after_round (Round.done buf rd) s = record s { buf = buf; rd = rd; reading = false }

abbrev moves_rest : Status → Bool
moves_rest Status.success = true
moves_rest Status.databreak = true
moves_rest _ = false

-- The `memcpy` of a block's rest to its front does not overlap.
abbrev pub IsApart : {S : Type 0} → RwBuf S → Reader S → Type 0
IsApart buf rd =
    moves_rest (buf.blocks buf.rp).d_ret ≡ true
    → length (buf.blocks buf.rp).samples ≤ 2 * round_size buf rd

-- `Answers` is what `hw_read` can give: a status and samples.
module _ {S : Type 0} (n_blocks : ℕ) (Answers : Status → List S → Type 0) where
  pub data RxStep : RxThreads S → RxThreads S → Type 0 where
    begin :
        {s : RxThreads S} (n_samp : ℕ)
        → s.reading ≡ false
        → s.filling ≡ false
        → RxStep s (begin_read n_samp s)
    fill :
        {s : RxThreads S} (d_ret : Status) (samples : List S)
        → Answers d_ret samples
        → s.filling ≡ true
        → (s.buf.blocks s.buf.wp).samples ≡ []
        → RxStep s (fill_round n_blocks d_ret samples s)
    halt :
        {s : RxThreads S}
        → s.filling ≡ true
        → (s.reading ≡ false) ⊎ (0 < length (s.buf.blocks s.buf.wp).samples)
        → RxStep s (record s { filling = false })
    round :
        {s : RxThreads S}
        → s.reading ≡ true
        → 0 < s.rd.remaining
        → 0 < length (s.buf.blocks s.buf.rp).samples
        → IsApart s.buf s.rd
        → RxStep s (after_round (read_round n_blocks s.buf s.rd) s)
    finish :
        {s : RxThreads S}
        → s.reading ≡ true
        → s.rd.remaining ≡ 0
        → RxStep s (record s { reading = false })

  pub data RxReach (start : RxThreads S) : RxThreads S → Type 0 where
    here : RxReach start start
    next : {s t : RxThreads S} → RxReach start s → RxStep s t → RxReach start t
