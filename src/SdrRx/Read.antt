-- ===== src/SdrRx/Read.antt =====
-- `sdrrx_read`, `sdrrx_reset` and `sdr_read_from_counter` of src/sdr/sdr-rx-machine.c: a channel is
-- set and started by the first read, and started again after a reset.
--
-- The driver's calls are `SdrApi`, over a world `W` of its own; `read_from_buffer`, which is in
-- SdrRx.Buffer, is an argument here, as is what `blb_rw_empty` leaves.
pub mod Started
use bingewatch.Prelude.{
  ℕ, zero, suc, ◌+◌, ◌*◌, ◌/◌, ◌%◌, ◌^◌, Bool, true, false, List, [], ◌∷◌, length, if◌then◌else◌,
}
use bingewatch.Status.{Status, is_error}
use bingewatch.SdrRx.Devices.{ChanState, ChanMode, SdrChannel}

-- What a call of the driver leaves: its answer, the channel and the world.
pub record Driven (W : Type 0) (A : Type 0) : Type 0 where
  pub answer : A
  pub chan : SdrChannel
  pub world : W

-- The samples of a read are as many as it leaves in `*n_samp`.
pub record SdrApi (W S : Type 0) : Type 0 where
  pub channel_set : SdrChannel → W → Driven W Status
  pub channel_start : SdrChannel → W → Driven W Status
  pub channel_reset : SdrChannel → W → Driven W Status
  pub hw_read : ℕ → SdrChannel → W → Driven W (Status × List S)

-- `sizeof(float complex)`
abbrev pub sample_bytes : ℕ
sample_bytes = 8

-- The end of `sdrrx_read`.
abbrev pub sdr_reply :
    {W S : Type 0} → Driven W (Status × List S) → Driven W (Status × (ℕ × List S))
sdr_reply r =
    let n = if is_error r.answer.0 then 0 else length r.answer.1 * sample_bytes in
    record { answer = (r.answer.0, (n, r.answer.1)); chan = r.chan; world = r.world }

module _ {W S : Type 0} (api : SdrApi W S) where
  -- `case SDR_CHAN_RESET`: whether the channel is ready.
  unfoldable pub start_channel : SdrChannel → W → Driven W Bool
  start_channel c w =
      let r = api.channel_start c w in
      if is_error r.answer
      then record { answer = false; chan = r.chan; world = r.world }
      else record {
        answer = true;
        chan = record r.chan { state = ChanState.ready };
        world = r.world;
      }

  -- The first `switch`.
  unfoldable pub make_ready : ChanState → SdrChannel → W → Driven W Bool
  unfolding start_channel
  make_ready ChanState.noinit c w =
      let r = api.channel_set c w in
      let started = start_channel r.chan r.world in
      if is_error r.answer
      then record { answer = false; chan = r.chan; world = r.world }
      else started
  make_ready ChanState.reset c w = start_channel c w
  make_ready ChanState.ready c w = record { answer = true; chan = c; world = w }
  make_ready _ c w = record { answer = false; chan = c; world = w }

  module _ (read_from_buffer : ℕ → SdrChannel → W → Driven W (Status × List S)) where
    -- The second `switch`.
    unfoldable pub read_mode : ChanMode → ℕ → SdrChannel → W → Driven W (Status × List S)
    read_mode ChanMode.unbuffered n_samp c w = api.hw_read n_samp c w
    read_mode ChanMode.buffered n_samp c w = read_from_buffer n_samp c w
    read_mode ChanMode.error _ c w = record { answer = (Status.error, []); chan = c; world = w }

    unfoldable pub read_ready : (bytes : ℕ) → Driven W Bool → Driven W (Status × (ℕ × List S))
    unfolding read_mode
    read_ready bytes m =
        let r = read_mode m.chan.mode (bytes / sample_bytes) m.chan m.world in
        if m.answer
        then sdr_reply r
        else record { answer = (Status.error, (0, [])); chan = m.chan; world = m.world }

    -- The answer, `*bytes` and the samples stored.
    unfoldable pub sdrrx_read : (bytes : ℕ) → SdrChannel → W → Driven W (Status × (ℕ × List S))
    unfolding make_ready read_ready
    sdrrx_read bytes c w = read_ready bytes (make_ready c.state c w)

  -- `sdrrx_reset` of a channel that was found; an unknown state is reset like a ready one.
  unfoldable pub reset_by : ChanState → (empty : W → W) → SdrChannel → W → Driven W ℕ
  reset_by ChanState.noinit _ c w = record { answer = 0; chan = c; world = w }
  reset_by ChanState.reset _ c w = record { answer = 0; chan = c; world = w }
  reset_by _ empty c w =
      let r = api.channel_reset c w in
      if is_error r.answer
      then record { answer = 1; chan = r.chan; world = r.world }
      else record { answer = 0; chan = r.chan; world = empty r.world }

  unfoldable pub sdrrx_reset : (empty : W → W) → SdrChannel → W → Driven W ℕ
  unfolding reset_by
  sdrrx_reset empty c w = reset_by c.state empty c w

-- The loop of `sdr_read_from_counter`: the values stored and the counter left.
unfoldable pub count_loop : (values : ℕ) → (counter : ℕ) → List ℕ × ℕ
count_loop zero counter = ([], counter)
count_loop (suc n) counter =
    let rest = count_loop n ((counter + 1) % 2 ^ 24) in (counter ∷ rest.0, rest.1)

-- A sample is two values.
unfoldable pub sdr_read_from_counter : (n_samp : ℕ) → SdrChannel → List ℕ × SdrChannel
unfolding count_loop
sdr_read_from_counter n_samp c =
    let r = count_loop (n_samp * 2) c.counter in (r.0, record c { counter = r.1 })
