-- ===== src/SdrRx/Devices.antt =====
-- The devices and channels of src/sdr/sdr-rx-machine.c: how they are listed, found and destroyed.
--
-- Devices and channels are addresses. A channel is a descriptor of its machine as well, so the
-- list of descriptors and the counter of handles of src/machine-mgmt.c and src/machine.c are kept
-- beside the devices. The driver's calls are `SdrDriver`.
pub mod Made
pub mod Destroyed
use bingewatch.Prelude.{
  ℕ, ◌+◌, ◌*◌, ◌%◌, Bool, true, false, Option, none, some, List, [], ◌∷◌, ◌++◌, length, ltb, leb,
  ◌==◌, ◌&&◌, if◌then◌else◌, ◌>>=◌, find_key, update_key, remove_key,
}
use bingewatch.Block.{update}
use bingewatch.Machine.{handle_mod}

-- `enum sdr_chan_state_e`; another number is an unknown state.
pub data ChanState : Type 0 where
  noinit reset ready error : ChanState
  other_state : ℕ → ChanState

-- `enum sdr_chan_mode_e`
pub data ChanMode : Type 0 where
  unbuffered buffered error : ChanMode

-- `struct sdr_channel_t`, with the handle of its descriptor; `device` is 0 where it is NULL.
pub record SdrChannel : Type 0 where
  pub handle : ℕ
  pub device : ℕ
  pub state : ChanState
  pub mode : ChanMode
  pub counter : ℕ
  pub allow_overruns : Bool

-- `struct sdr_device_t`: the first `n_chan` of its channels, room for `chan_len`.
pub record SdrDevice : Type 0 where
  pub address : ℕ
  pub handle : ℕ
  pub channels : List ℕ
  pub chan_len : ℕ

pub record Sdrs : Type 0 where
  pub devices : List SdrDevice
  pub chans : ℕ → SdrChannel
  pub descriptors : List ℕ
  pub handle_counter : ℕ

-- `destroy_channel_impl`, where the channel has it, and `destroy_device_impl`.
pub record SdrDriver (W : Type 0) : Type 0 where
  pub destroy_channel : Option (W → ℕ → W)
  pub destroy_device : W → ℕ → W

-- `SDR_RX_CHAN_ALLOC`
abbrev pub chan_alloc : ℕ
chan_alloc = 10

-- The inner loop of `get_channel`.
abbrev pub find_channel : (ℕ → SdrChannel) → ℕ → List ℕ → Option ℕ
find_channel chans h channels = find_key (λ c. (chans c).handle) h channels

abbrev pub or_next : Option ℕ → Option ℕ → Option ℕ
or_next (some c) _ = some c
or_next none rest = rest

unfoldable pub find_in : (ℕ → SdrChannel) → ℕ → List SdrDevice → Option ℕ
find_in chans h [] = none
find_in chans h (d ∷ ds) =
    let rest = find_in chans h ds in or_next (find_channel chans h d.channels) rest

unfoldable pub get_channel : Sdrs → ℕ → Option ℕ
unfolding find_in
get_channel s h = find_in s.chans h s.devices

-- `machine_get_desc` of a channel's handle.
abbrev pub get_desc : Sdrs → ℕ → Option ℕ
get_desc s h = find_channel s.chans h s.descriptors

-- `add_channel` on the device itself.
pub store_channel : ℕ → SdrDevice → SdrDevice
store_channel chan dev = record dev {
  channels = dev.channels ++ (chan ∷ []);
  chan_len =
      if leb dev.chan_len (length dev.channels) then dev.chan_len + chan_alloc else dev.chan_len;
}

pub add_channel : (dev chan : ℕ) → Sdrs → Sdrs
add_channel dev chan s = record s {
  devices = update_key (λ d. d.address) dev (store_channel chan) s.devices;
  chans = update s.chans chan (record (s.chans chan) { device = dev });
}

pub remove_channel_from_device : (chan : ℕ) → Sdrs → Sdrs
remove_channel_from_device chan s =
    let c = s.chans chan in
    if c.device == 0 then s else record s {
      devices =
          update_key (λ d. d.address) c.device
            (λ d. record d { channels = remove_key (λ i. (s.chans i).handle) c.handle d.channels })
            s.devices;
    }

pub add_device : SdrDevice → Sdrs → Sdrs
add_device dev s = record s { devices = s.devices ++ (dev ∷ []) }

module _ {W : Type 0} (driver : SdrDriver W) where
  -- `cleanup_device` once the list has been searched: a device that still has channels is kept.
  pub cleanup_found : (device : ℕ) → W → Sdrs → Option SdrDevice → W × Sdrs
  cleanup_found device w s none = (w, s)
  cleanup_found device w s (some d) = if ltb 0 (length d.channels) then (w, s) else (
    driver.destroy_device w device,
    record s { devices = remove_key (λ d. d.address) device s.devices },
  )

  pub cleanup_device : (device : ℕ) → W → Sdrs → W × Sdrs
  unfolding cleanup_found
  cleanup_device device w s = cleanup_found device w s (find_key (λ d. d.address) device s.devices)

  -- The driver's part of the destruction of a channel.
  pub destroy_channel_impl : W → (chan : ℕ) → W
  destroy_channel_impl w chan = elim driver.destroy_channel [ none ↦ w | some call ↦ call w chan ]

  -- `sdr_destroy` once the descriptor has been searched; `machine_destroy_desc` waits until it is
  -- not in use.
  pub destroy_found : (h : ℕ) → W → Sdrs → Option ℕ → W × Sdrs
  destroy_found h w s none = (w, s)
  destroy_found h w s (some c) =
      let s' = remove_channel_from_device c s in
      cleanup_device (s.chans c).device (destroy_channel_impl w c)
        (record s' { descriptors = remove_key (λ i. (s'.chans i).handle) h s'.descriptors })

  pub sdr_destroy : (h : ℕ) → W → Sdrs → W × Sdrs
  unfolding destroy_found
  sdr_destroy h w s = destroy_found h w s (get_desc s h)

-- What the calls of `sdr_create` answer: whether the pools can be had, the new device and channel
-- of the driver, if it makes them, `machine_desc_init` and `init_filters`.
pub record SdrAnswers : Type 0 where
  pub api : Bool
  pub var_pool : Bool
  pub device_pool : Bool
  pub device : Option ℕ
  pub channel_pool : Bool
  pub channel : Option (ℕ × SdrChannel)
  pub desc_init : Bool
  pub filters : Bool

-- `request_handle`, which counts modulo 2^32.
abbrev next_handle : Sdrs → ℕ
next_handle s = (s.handle_counter + 1) % handle_mod

-- `machine_register_desc` of a channel: no descriptor is listed under the handle 0.
pub register_channel : (chan : ℕ) → Sdrs → ℕ × Sdrs
register_channel chan s =
    let h = next_handle s in
    let s' = record s { handle_counter = s.handle_counter + 1 } in
    (
      h,
      if h == 0 then s' else record s' {
        chans = update s.chans chan (record (s.chans chan) { handle = h });
        descriptors = s.descriptors ++ (chan ∷ []);
      },
    )

-- The end of `sdr_create`.
pub list_new : (device chan : ℕ) → Sdrs → ℕ × Sdrs
unfolding add_device add_channel register_channel
list_new device chan s =
    let new : SdrDevice = record { address = device; handle = 0; channels = []; chan_len = 0 } in
    let (h, s') = register_channel chan (add_channel device chan (add_device new s)) in
    (
      h,
      record s' {
        handle_counter = s'.handle_counter + 1;
        devices =
            update_key (λ d. d.address) device (λ d. record d { handle = next_handle s' })
              s'.devices;
      },
    )

abbrev new_parts : SdrAnswers → Option (ℕ × (ℕ × SdrChannel))
new_parts a = do device ← a.device; channel ← a.channel; some (device, channel)

-- The answer is the handle, 0 where something could not be had.
unfoldable pub sdr_create : SdrAnswers → Sdrs → ℕ × Sdrs
sdr_create a s = elim (new_parts a) [
  | none ↦ (0, s)
  | some (device, (chan, c)) ↦
      if a.api && (a.var_pool && (a.device_pool && (a.channel_pool && (a.desc_init && a.filters))))
      then list_new device chan (record s { chans = update s.chans chan (record c { handle = 0 }) })
      else (0, s)
]
