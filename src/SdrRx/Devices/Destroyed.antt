-- ===== src/SdrRx/Devices/Destroyed.antt =====
-- What is left of a new radio once it is destroyed.
use bingewatch.Prelude.{
  ℕ, ◌+◌, ◌≤◌, ◌≡◌, ◌≢◌, refl, ap, ◌∙◌, true, false, some, List, [], ◌∷◌, ◌++◌, length, ltb, ◌==◌,
  find_key, update_key, remove_key, find_key_last, if-false, update_key_last, remove_key_last, All,
  arith,
}
use bingewatch.Block.{update}
use bingewatch.Block.Segment.{update_ne}
use bingewatch.SdrRx.Devices.{
  SdrChannel, SdrDevice, Sdrs, SdrDriver, SdrAnswers, get_channel, get_desc, sdr_create,
  sdr_destroy, destroy_channel_impl, destroy_found, cleanup_found, cleanup_device,
  remove_channel_from_device,
}
use bingewatch.SdrRx.Devices.Made.{
  Unlisted, new_device, new_channels, with_new, list_new_open, new_at, new_at_device, others,
  get_desc-with_new, find_in-with_new,
}

module _ (s : Sdrs) (device chan : ℕ) (f : Unlisted s device chan) where
  -- The new channel taken off its device.
  remove_with_new :
      remove_channel_from_device chan (with_new s device chan) ≡ record (with_new s device chan) {
        devices = s.devices ++ (record (new_device s device chan) { channels = [] } ∷ []);
      }
  unfolding remove_channel_from_device with_new new_device
  remove_with_new =
      let c = new_channels s device chan chan in
      let key = λ (d : SdrDevice). d.address in
      let handle = λ (i : ℕ). (new_channels s device chan i).handle in
      let taken =
        λ (d : SdrDevice). record d { channels = remove_key handle c.handle d.channels } in
      let no : (c.device == 0) ≡ false =
        ground (arith, f.no_null, (new_at_device s device chan f)) in
      let new = new_device s device chan in
      if-false (c.device == 0) (with_new s device chan)
        (record (with_new s device chan) {
          devices = update_key key c.device taken (s.devices ++ (new ∷ []));
        })
        no
      ∙ ap (λ ds. record (with_new s device chan) { devices = ds })
          (ap (λ k. update_key key k taken (s.devices ++ (new ∷ [])))
              (new_at_device s device chan f)
            ∙ update_key_last key device taken s.devices new f.devices refl
            ∙ ap (λ cs. s.devices ++ (record new { channels = cs } ∷ []))
                (remove_key_last handle c.handle [] chan tt refl))

  -- A device without channels is destroyed.
  cleanup_empty :
      {W : Type 0} (driver : SdrDriver W) (w : W) (s' : Sdrs) (d : SdrDevice)
      → s'.devices ≡ s.devices ++ (d ∷ [])
      → d.address ≡ device
      → d.channels ≡ []
      → cleanup_device driver device w s'
        ≡ (driver.destroy_device w device, record s' { devices = s.devices })
  unfolding cleanup_device cleanup_found
  cleanup_empty driver w s' d e at none_left =
      let key = λ (d : SdrDevice). d.address in
      let none_there : ltb 0 (length d.channels) ≡ false = ground (arith, ap length none_left) in
      ap (cleanup_found driver device w s')
        (ap (find_key key device) e ∙ find_key_last key device s.devices d f.devices at)
      ∙ if-false (ltb 0 (length d.channels)) (w, s')
          (driver.destroy_device w device, record s' { devices = remove_key key device s'.devices })
          none_there
      ∙ ap (λ ds. (driver.destroy_device w device, record s' { devices = ds }))
          (ap (remove_key key device) e ∙ remove_key_last key device s.devices d f.devices at)

  destroy_with_new :
      {W : Type 0} (driver : SdrDriver W) (w : W)
      → sdr_destroy driver (s.handle_counter + 1) w (with_new s device chan) ≡ (
        driver.destroy_device (destroy_channel_impl driver w chan) device,
        record (with_new s device chan) { devices = s.devices; descriptors = s.descriptors },
      )
  unfolding sdr_destroy destroy_found with_new new_device
  destroy_with_new driver w =
      let t = with_new s device chan in
      let h = s.handle_counter + 1 in
      let handle = λ (i : ℕ). (new_channels s device chan i).handle in
      let d : SdrDevice = record (new_device s device chan) { channels = [] } in
      let s' : Sdrs = record t { devices = s.devices ++ (d ∷ []); descriptors = s.descriptors } in
      let w' = destroy_channel_impl driver w chan in
      ap (destroy_found driver h w t) (get_desc-with_new s device chan f)
      ∙ ap
          (λ u.
            cleanup_device driver (new_channels s device chan chan).device w'
              (record u { descriptors = remove_key (λ i. (u.chans i).handle) h u.descriptors }))
          remove_with_new
      ∙ ap
          (λ k.
            cleanup_device driver k w'
              (record s' { descriptors = remove_key handle h (s.descriptors ++ (chan ∷ [])) }))
          (new_at_device s device chan f)
      ∙ ap (λ l. cleanup_device driver device w' (record s' { descriptors = l }))
          (remove_key_last handle h s.descriptors chan
            (others s device chan f s.descriptors f.descriptors) (new_at s device chan f))
      ∙ cleanup_empty driver w' s' d refl refl refl

-- What a driver's calls answer where everything can be had.
abbrev pub all_had : (device chan : ℕ) → SdrChannel → SdrAnswers
all_had device chan c = record {
  api = true;
  var_pool = true;
  device_pool = true;
  device = some device;
  channel_pool = true;
  channel = some (chan, c);
  desc_init = true;
  filters = true;
}

module _ (s : Sdrs) (device chan : ℕ) (c : SdrChannel) (f : Unlisted s device chan) where
  abbrev driver_made : Sdrs
  driver_made = record s { chans = update s.chans chan (record c { handle = 0 }) }

  kept :
      (cs : List ℕ)
      → All (λ i. (i ≢ chan) × ((s.chans i).handle ≤ s.handle_counter)) cs
      → All (λ i. (i ≢ chan) × ((driver_made.chans i).handle ≤ s.handle_counter)) cs
  kept [] a = tt
  kept (i ∷ cs) a =
      let x : SdrChannel = record c { handle = 0 } in
      (
        (a.0.0, omega (arith, a.0.1, ap (λ y. y.handle) (update_ne s.chans chan i x a.0.0))),
        kept cs a.1,
      )

  kept_devices :
      (ds : List SdrDevice)
      → All (λ d. All (λ i. (i ≢ chan) × ((s.chans i).handle ≤ s.handle_counter)) d.channels) ds
      → All
          (λ d.
            All (λ i. (i ≢ chan) × ((driver_made.chans i).handle ≤ s.handle_counter)) d.channels)
          ds
  kept_devices [] a = tt
  kept_devices (d ∷ ds) a = (kept d.channels a.0, kept_devices ds a.1)

  driver_made-Unlisted : Unlisted driver_made device chan
  driver_made-Unlisted = record {
    small = f.small;
    devices = f.devices;
    no_null = f.no_null;
    channels = kept_devices s.devices f.channels;
    descriptors = kept s.descriptors f.descriptors;
  }

  -- Where everything can be had for a radio at addresses that are not listed, and handles are
  -- left, sdr_create gives the next handle, under which the channel is found among the devices
  -- and among the descriptors; to destroy this handle destroys the channel and then the device,
  -- and both lists are what they were before.
  pub sdr_create-sdr_destroy :
      {W : Type 0} (driver : SdrDriver W) (w : W)
      → (t : Sdrs) × (sdr_create (all_had device chan c) s ≡ (s.handle_counter + 1, t))
        × (get_channel t (s.handle_counter + 1) ≡ some chan)
        × (get_desc t (s.handle_counter + 1) ≡ some chan)
        × ((u : Sdrs) × (sdr_destroy driver (s.handle_counter + 1) w t
              ≡ (driver.destroy_device (destroy_channel_impl driver w chan) device, u))
            × (u.devices ≡ s.devices)
            × (u.descriptors ≡ s.descriptors))
  unfolding sdr_create get_channel with_new
  sdr_create-sdr_destroy driver w =
      let s₀ = driver_made in
      let f₀ = driver_made-Unlisted in
      (
        with_new s₀ device chan,
        list_new_open s₀ device chan f₀,
        find_in-with_new s₀ device chan f₀ s.devices f₀.channels,
        get_desc-with_new s₀ device chan f₀,
        (
          record (with_new s₀ device chan) { devices = s.devices; descriptors = s.descriptors },
          destroy_with_new s₀ device chan f₀ driver w,
          refl,
          refl,
        ),
      )
