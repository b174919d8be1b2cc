-- ===== src/SdrRx/Read/Started.antt =====
-- Reads of a channel in a row.
use bingewatch.Prelude.{ℕ, ◌/◌, ◌≡◌, refl, ap, ◌∙◌, true, false, List, [], ◌∷◌, if-false}
use bingewatch.Status.{Status, is_error}
use bingewatch.SdrRx.Devices.{ChanState, ChanMode, SdrChannel}
use bingewatch.SdrRx.Read.{
  Driven, SdrApi, sample_bytes, sdr_reply, start_channel, make_ready, read_mode, read_ready,
  sdrrx_read,
}

module _ {W S : Type 0} (api : SdrApi W S) where
  abbrev pub Replies : Type 0
  Replies = List (Status × (ℕ × List S))

  -- A sequence of reads, and one of the driver's.
  unfoldable pub and_then :
      Driven W (Status × (ℕ × List S)) → (SdrChannel → W → Driven W Replies) → Driven W Replies
  and_then r next =
      let rest = next r.chan r.world in
      record { answer = r.answer ∷ rest.answer; chan = rest.chan; world = rest.world }

  unfoldable pub read_all :
      (read_from_buffer : ℕ → SdrChannel → W → Driven W (Status × List S))
      → List ℕ
      → SdrChannel
      → W
      → Driven W Replies
  unfolding and_then
  read_all b [] c w = record { answer = []; chan = c; world = w }
  read_all b (bytes ∷ sizes) c w = and_then (sdrrx_read api b bytes c w) (read_all b sizes)

  unfoldable pub hw_read_all : List ℕ → SdrChannel → W → Driven W Replies
  unfolding and_then
  hw_read_all [] c w = record { answer = []; chan = c; world = w }
  hw_read_all (bytes ∷ sizes) c w =
      and_then (sdr_reply (api.hw_read (bytes / sample_bytes) c w)) (hw_read_all sizes)

  -- What the driver leaves that has set and started a channel.
  abbrev pub first_start : SdrChannel → W → Driven W Status
  first_start c w = api.channel_start (api.channel_set c w).chan (api.channel_set c w).world

  -- A driver whose reads leave the channel ready and unbuffered.
  pub record Steady : Type 0 where
    pub state :
        (n : ℕ) (c : SdrChannel) (w : W)
        → c.state ≡ ChanState.ready
        → (api.hw_read n c w).chan.state ≡ ChanState.ready
    pub mode :
        (n : ℕ) (c : SdrChannel) (w : W)
        → c.mode ≡ ChanMode.unbuffered
        → (api.hw_read n c w).chan.mode ≡ ChanMode.unbuffered

  module _ (b : ℕ → SdrChannel → W → Driven W (Status × List S)) where
    sdrrx_read-hw_read :
        (bytes : ℕ) (c : SdrChannel) (w : W)
        → c.state ≡ ChanState.ready
        → c.mode ≡ ChanMode.unbuffered
        → sdrrx_read api b bytes c w ≡ sdr_reply (api.hw_read (bytes / sample_bytes) c w)
    unfolding sdrrx_read read_ready make_ready read_mode
    sdrrx_read-hw_read bytes c w s m =
        ap (λ st. read_ready api b bytes (make_ready api st c w)) s
        ∙ ap (λ mode. sdr_reply (read_mode api b mode (bytes / sample_bytes) c w)) m

    read_all_ready :
        (sizes : List ℕ) (c : SdrChannel) (w : W)
        → Steady
        → c.state ≡ ChanState.ready
        → c.mode ≡ ChanMode.unbuffered
        → read_all b sizes c w ≡ hw_read_all sizes c w
    unfolding read_all hw_read_all and_then
    read_all_ready [] c w steady s m = refl
    read_all_ready (bytes ∷ sizes) c w steady s m =
        let n = bytes / sample_bytes in
        let r = api.hw_read n c w in
        ap (λ x. and_then x (read_all b sizes)) (sdrrx_read-hw_read bytes c w s m)
        ∙ ap
            (λ (x : Driven W Replies). record {
              answer = (sdr_reply r).answer ∷ x.answer;
              chan = x.chan;
              world = x.world;
            })
            (read_all_ready sizes r.chan r.world steady (steady.state n c w s)
              (steady.mode n c w m))

    -- Where a new channel is set and started by its driver, is then unbuffered and keeps ready and
    -- unbuffered through the driver's reads, reads of it are the driver's reads: the channel is set
    -- and started once, before the first of them.
    pub read_all-hw_read_all :
        (bytes : ℕ) (sizes : List ℕ) (c : SdrChannel) (w : W)
        → Steady
        → c.state ≡ ChanState.noinit
        → is_error (api.channel_set c w).answer ≡ false
        → is_error (first_start c w).answer ≡ false
        → (first_start c w).chan.mode ≡ ChanMode.unbuffered
        → read_all b (bytes ∷ sizes) c w
          ≡ hw_read_all
              (bytes ∷ sizes)
              (record (first_start c w).chan { state = ChanState.ready })
              (first_start c w).world
    unfolding read_all sdrrx_read make_ready start_channel
    read_all-hw_read_all bytes sizes c w steady s set_ok start_ok m =
        let set = api.channel_set c w in
        let started = first_start c w in
        let c' : SdrChannel = record started.chan { state = ChanState.ready } in
        let ready : make_ready api ChanState.noinit c w
            ≡ make_ready api ChanState.ready c' started.world =
          if-false (is_error set.answer)
            (record { answer = false; chan = set.chan; world = set.world })
            (start_channel api set.chan set.world) set_ok
          ∙ if-false (is_error started.answer)
              (record { answer = false; chan = started.chan; world = started.world })
              (record { answer = true; chan = c'; world = started.world }) start_ok in
        ap (λ x. and_then (read_ready api b bytes x) (read_all b sizes))
          (ap (λ st. make_ready api st c w) s ∙ ready)
        ∙ read_all_ready (bytes ∷ sizes) c' started.world steady refl m
