-- ===== src/SdrRx/Buffer.antt =====
-- `fill_from_hw` and `read_from_buffer` of src/sdr/sdr-rx-machine.c: one thread fills a ring of
-- blocks with samples from the hardware while another takes them out.
--
-- The ring of `blb_init_rw` is its blocks by number, `n_blocks` of them. A block's bytes are whole
-- samples, so it is kept as the list of these; `S` is their type.
pub mod Places
pub mod Held
pub mod Taken
pub mod Threads
use bingewatch.Prelude.{
  ℕ, ◌+◌, ◌-◌, Bool, true, false, List, [], ◌++◌, take, drop, length, min, ltb, ◌==◌, if◌then◌else◌,
}
use bingewatch.Block.{update}
use bingewatch.Status.{Status, is_error}

-- What this code uses of `struct __block_t`, and `struct blb_rw_t`.
pub record SampleBlock (S : Type 0) : Type 0 where
  pub samples : List S
  pub d_ret : Status

pub record RwBuf (S : Type 0) : Type 0 where
  pub blocks : ℕ → SampleBlock S
  pub rp : ℕ
  pub wp : ℕ

-- `b->next`
abbrev pub next_block : ℕ → ℕ → ℕ
next_block n_blocks b = if b + 1 == n_blocks then 0 else b + 1

-- The local variables of `read_from_buffer`: the samples stored so far, which `total_samples`
-- counts, `remaining` and `ret`.
pub record Reader (S : Type 0) : Type 0 where
  pub got : List S
  pub remaining : ℕ
  pub ret : Status

-- A round of its loop goes on, or to `do_return`.
pub data Round (S : Type 0) : Type 0 where
  again done : RwBuf S → Reader S → Round S

module _ {S : Type 0} where
  -- `fill_from_hw`, one round, with what `hw_read` gives: a failed read leaves the block empty.
  unfoldable pub store_block : ℕ → RwBuf S → Status → List S → RwBuf S
  store_block n_blocks buf d_ret samples =
      if is_error d_ret
      then record buf {
        blocks = update buf.blocks buf.wp (record (buf.blocks buf.wp) { d_ret = d_ret });
      }
      else record buf {
        blocks = update buf.blocks buf.wp (record { samples = samples; d_ret = d_ret });
        wp = next_block n_blocks buf.wp;
      }

  -- `rp->bytes = 0; rp = rp->next`
  unfoldable pub drop_block : ℕ → RwBuf S → RwBuf S
  drop_block n_blocks buf = record buf {
    blocks = update buf.blocks buf.rp (record (buf.blocks buf.rp) { samples = [] });
    rp = next_block n_blocks buf.rp;
  }

  -- How many samples of the block a round takes.
  abbrev pub round_size : RwBuf S → Reader S → ℕ
  round_size buf rd = min rd.remaining (length (buf.blocks buf.rp).samples)

  abbrev pub take_samples : RwBuf S → Reader S → List S
  take_samples buf rd = take (round_size buf rd) (buf.blocks buf.rp).samples

  -- The end of a round: the block is used up, or its rest is moved to the front. The source moves
  -- it by `memcpy`, which is undefined where the rest is longer than what was taken: a round whose
  -- memory overlaps is no step of SdrRx.Buffer.Threads.
  unfoldable pub copied : ℕ → RwBuf S → Reader S → Status → Round S
  unfolding drop_block
  copied n_blocks buf rd ret =
      let b = buf.blocks buf.rp in
      let n = round_size buf rd in
      again
        (if n == length b.samples then drop_block n_blocks buf else record buf {
          blocks = update buf.blocks buf.rp (record b { samples = drop n b.samples });
        })
        (record { got = rd.got ++ take_samples buf rd; remaining = rd.remaining - n; ret = ret })

  -- A round that leaves the block behind; `rp->d_ret` is read once `rp` has moved on.
  unfoldable pub left_behind : ℕ → RwBuf S → Reader S → List S → Round S
  unfolding drop_block
  left_behind n_blocks buf rd got =
      let buf' = drop_block n_blocks buf in
      done buf' (record rd { got = got; ret = (buf'.blocks buf'.rp).d_ret })

  -- A round of the loop of `read_from_buffer` at a block that is not empty, by its `d_ret`.
  unfoldable pub round_by : Status → ℕ → RwBuf S → Reader S → Round S
  unfolding copied left_behind
  round_by Status.error n_blocks buf rd = left_behind n_blocks buf rd rd.got
  round_by Status.success n_blocks buf rd = copied n_blocks buf rd rd.ret
  round_by Status.databreak n_blocks buf rd =
      if ltb 0 (length rd.got)
      then done buf (record rd { ret = Status.databreak })
      else copied n_blocks buf rd Status.databreak
  round_by _ n_blocks buf rd = left_behind n_blocks buf rd (rd.got ++ take_samples buf rd)

  unfoldable pub read_round : ℕ → RwBuf S → Reader S → Round S
  unfolding round_by
  read_round n_blocks buf rd = round_by (buf.blocks buf.rp).d_ret n_blocks buf rd

  -- The end of `read_from_buffer`: `looped` is whether the loop ended by itself, and `fill` what
  -- the filling thread answered. The answer and `*n_samp`.
  unfoldable pub read_answer : (looped : Bool) → Reader S → (fill : Status) → Status × ℕ
  read_answer looped rd fill =
      let own = if looped then (if is_error rd.ret then Status.success else rd.ret) else rd.ret in
      let ret = if is_error fill then fill else own in
      (ret, if is_error ret then 0 else length rd.got)
