-- ===== src/SdrRx/Devices/Made.antt =====
-- What a new radio leaves in the lists, and what is left of it once it is destroyed.
use bingewatch.Prelude.{
  ℕ, ◌+◌, ◌%◌, ◌≤◌, ◌<◌, ◌≡◌, ◌≢◌, refl, ap, ◌∙◌, false, none, some, List, [], ◌∷◌, ◌++◌, ◌==◌,
  find_key, find_key_last, find_key_head, update_key_last, All, arith,
}
use bingewatch.Block.{update}
use bingewatch.Block.Segment.{update_self, update_ne}
use bingewatch.Machine.{handle_mod}
use bingewatch.SdrRx.Devices.{
  SdrChannel, SdrDevice, Sdrs, or_next, find_in, find_channel, add_device, add_channel,
  register_channel, store_channel, get_desc, list_new,
}

-- The addresses and handles in use: devices are at other addresses than `device`, no channel
-- listed is at `chan`, and the handles given out are at most the counter.
pub record Unlisted (s : Sdrs) (device chan : ℕ) : Type 0 where
  pub small : s.handle_counter + 2 < handle_mod
  pub devices : All (λ d. d.address ≢ device) s.devices
  pub no_null : device ≢ 0
  pub channels :
      All
        (λ d. All (λ c. (c ≢ chan) × ((s.chans c).handle ≤ s.handle_counter)) d.channels)
        s.devices
  pub descriptors : All (λ c. (c ≢ chan) × ((s.chans c).handle ≤ s.handle_counter)) s.descriptors

-- The new device.
unfoldable pub new_device : Sdrs → (device chan : ℕ) → SdrDevice
new_device s device chan = record {
  address = device;
  handle = s.handle_counter + 2;
  channels = chan ∷ [];
  chan_len = 10;
}

-- What a driver's new channel becomes.
unfoldable pub new_channels : Sdrs → (device chan : ℕ) → ℕ → SdrChannel
new_channels s device chan =
    let chans = update s.chans chan (record (s.chans chan) { device = device }) in
    update chans chan (record (chans chan) { handle = s.handle_counter + 1 })

-- The lists with the new radio.
unfoldable pub with_new : Sdrs → (device chan : ℕ) → Sdrs
with_new s device chan = record {
  devices = s.devices ++ (new_device s device chan ∷ []);
  chans = new_channels s device chan;
  descriptors = s.descriptors ++ (chan ∷ []);
  handle_counter = s.handle_counter + 2;
}

-- A radio that could be had: its handle, its device, its channel.
pub list_new_open :
    (s : Sdrs) (device chan : ℕ)
    → Unlisted s device chan
    → list_new device chan s ≡ (s.handle_counter + 1, with_new s device chan)
unfolding list_new add_device add_channel register_channel store_channel new_device new_channels
    with_new
list_new_open s device chan f =
    let e : (s.handle_counter + 1) % handle_mod ≡ s.handle_counter + 1 = omega (arith, f.small) in
    let e' : (s.handle_counter + 1 + 1) % handle_mod ≡ s.handle_counter + 2 =
      omega (arith, f.small) in
    let two : s.handle_counter + 1 + 1 ≡ s.handle_counter + 2 = omega arith in
    let no : (s.handle_counter + 1 == 0) ≡ false = ground arith in
    let new : SdrDevice = record { address = device; handle = 0; channels = []; chan_len = 0 } in
    rw
      (
        e,
        no,
        update_key_last (λ (d : SdrDevice). d.address) device (store_channel chan) s.devices new
            f.devices refl,
        e',
        two,
        update_key_last (λ (d : SdrDevice). d.address) device
            (λ d. record d { handle = s.handle_counter + 2 }) s.devices (store_channel chan new)
            f.devices refl,
      )
      refl

module _ (s : Sdrs) (device chan : ℕ) (f : Unlisted s device chan) where
  pub new_at : (new_channels s device chan chan).handle ≡ s.handle_counter + 1
  unfolding new_channels
  new_at =
      let chans = update s.chans chan (record (s.chans chan) { device = device }) in
      ap (λ c. c.handle)
        (update_self chans chan (record (chans chan) { handle = s.handle_counter + 1 }))

  pub new_at_device : (new_channels s device chan chan).device ≡ device
  unfolding new_channels
  new_at_device =
      let x : SdrChannel = record (s.chans chan) { device = device } in
      let chans = update s.chans chan x in
      ap (λ c. c.device)
        (update_self chans chan (record (chans chan) { handle = s.handle_counter + 1 }))
      ∙ ap (λ c. c.device) (update_self s.chans chan x)

  new_other : (c : ℕ) → c ≢ chan → new_channels s device chan c ≡ s.chans c
  unfolding new_channels
  new_other c ne =
      let x : SdrChannel = record (s.chans chan) { device = device } in
      let chans = update s.chans chan x in
      update_ne chans chan c (record (chans chan) { handle = s.handle_counter + 1 }) ne
      ∙ update_ne s.chans chan c x ne

  -- The channels listed before keep their handles, which are others.
  pub others :
      (cs : List ℕ)
      → All (λ c. (c ≢ chan) × ((s.chans c).handle ≤ s.handle_counter)) cs
      → All (λ c. (new_channels s device chan c).handle ≢ s.handle_counter + 1) cs
  others [] a = tt
  others (c ∷ cs) a = (omega (arith, a.0.1, ap (λ x. x.handle) (new_other c a.0.0)), others cs a.1)

  pub get_desc-with_new : get_desc (with_new s device chan) (s.handle_counter + 1) ≡ some chan
  unfolding with_new
  get_desc-with_new =
      find_key_last (λ c. (new_channels s device chan c).handle) (s.handle_counter + 1)
        s.descriptors chan (others s.descriptors f.descriptors) new_at

  find_none :
      (cs : List ℕ)
      → All (λ c. (new_channels s device chan c).handle ≢ s.handle_counter + 1) cs
      → find_channel (new_channels s device chan) (s.handle_counter + 1) cs ≡ none
  unfolding find_key
  find_none [] a = refl
  find_none (c ∷ cs) a =
      let no : ((new_channels s device chan c).handle == s.handle_counter + 1) ≡ false =
        ground (arith, a.0) in
      rw no (find_none cs a.1)

  pub find_in-with_new :
      (ds : List SdrDevice)
      → All (λ d. All (λ c. (c ≢ chan) × ((s.chans c).handle ≤ s.handle_counter)) d.channels) ds
      → find_in
          (new_channels s device chan)
          (s.handle_counter + 1)
          (ds ++ (new_device s device chan ∷ []))
        ≡ some chan
  unfolding find_in new_device
  find_in-with_new [] a =
      let e : find_channel (new_channels s device chan) (s.handle_counter + 1) (chan ∷ [])
          ≡ some chan =
        find_key_head (λ c. (new_channels s device chan c).handle) (s.handle_counter + 1) chan []
          new_at in
      ap (λ o. or_next o none) e
  find_in-with_new (d ∷ ds) a =
      ap
        (λ o. or_next o (
          find_in (new_channels s device chan) (s.handle_counter + 1)
            (ds ++ (new_device s device chan ∷ []))))
        (find_none d.channels (others d.channels a.0))
      ∙ find_in-with_new ds a.1
