-- ===== src/SdrRx/Tests.antt =====
-- A ring of two blocks that the hardware fills, and the theorems at it.
use bingewatch.Prelude.{
  ℕ, ◌+◌, ◌≡◌, refl, inr, true, false, List, [], ◌∷◌, ◌++◌, replicate, arith, some, none, find_key,
  ◌==◌, if◌then◌else◌,
}
use bingewatch.Status.{Status}
use bingewatch.SdrRx.Buffer.{
  RwBuf, Round, copied, drop_block, left_behind, read_answer, read_round, round_by, store_block,
}
use bingewatch.SdrRx.Buffer.Places.{place, queue}
use bingewatch.SdrRx.Buffer.Threads.{
  RxThreads, RxStep, RxReach, after_round, begin_read, fill_round,
}
use bingewatch.SdrRx.Buffer.Threads.Failed.{fill_round-RxReach}
use bingewatch.SdrRx.Buffer.Threads.Order.{InOrder, IsAnswer, RxReach-InOrder}
use bingewatch.SdrRx.Devices.{
  ChanMode, ChanState, SdrChannel, SdrDriver, Sdrs, destroy_channel_impl, find_in, get_channel,
  get_desc, sdr_create, sdr_destroy,
}
use bingewatch.SdrRx.Devices.Destroyed.{all_had, sdr_create-sdr_destroy}
use bingewatch.SdrRx.Devices.Made.{Unlisted}
use bingewatch.SdrRx.Read.{
  SdrApi, count_loop, make_ready, read_mode, read_ready, reset_by, sdr_read_from_counter,
  sdrrx_read, sdrrx_reset, start_channel,
}
use bingewatch.SdrRx.Read.Started.{and_then, hw_read_all, read_all, read_all-hw_read_all}

abbrev idle : RxThreads ℕ
idle = record {
  buf = record { blocks = λ _. record { samples = []; d_ret = Status.success }; rp = 0; wp = 0 };
  came = [];
  given = [];
  rd = record { got = []; remaining = 0; ret = Status.success };
  reading = false;
  filling = false;
}

idle-InOrder : InOrder 2 idle
unfolding queue place
idle-InOrder = record {
  full = 0;
  rp_less = omega arith;
  full_le = omega arith;
  wp_at = refl;
  held = λ k lt. absurd (omega (arith, lt));
  blank = λ k _ _. refl;
  order = refl;
}

abbrev two : List ℕ
two = 7 ∷ 8 ∷ []

abbrev three : List ℕ
three = 1 ∷ 2 ∷ 3 ∷ []

-- A call for three samples, after one block, two and a round.
abbrev started : RxThreads ℕ
started = begin_read 3 idle

abbrev filled : RxThreads ℕ
filled = fill_round 2 Status.success three (fill_round 2 Status.success two started)

abbrev one_round : RxThreads ℕ
one_round = after_round (read_round 2 filled.buf filled.rd) filled

abbrev two_rounds : RxThreads ℕ
two_rounds = after_round (read_round 2 one_round.buf one_round.rd) one_round

-- The second round takes one sample of the second block and moves the rest to its front.
rounds :
    (two_rounds.rd.got ≡ 7 ∷ 8 ∷ 1 ∷ [])
    × (two_rounds.rd.remaining ≡ 0)
    × ((two_rounds.buf.blocks 1).samples ≡ 2 ∷ 3 ∷ [])
unfolding begin_read fill_round after_round read_round round_by copied drop_block store_block
rounds = (refl, refl, refl)

-- The block's rest is dropped, and the answer is the code of the block after it.
abbrev mixed : RwBuf ℕ
mixed = record {
  blocks = λ p.
      if p == 1
      then record { samples = three; d_ret = Status.complete }
      else record { samples = two; d_ret = Status.error };
  rp = 1;
  wp = 0;
}

completed :
    read_round 2 mixed (record { got = []; remaining = 1; ret = Status.error })
    ≡ Round.done (drop_block 2 mixed) (record { got = 1 ∷ []; remaining = 1; ret = Status.error })
unfolding read_round round_by left_behind drop_block
completed = refl

answer_error : read_answer true two_rounds.rd Status.error ≡ (Status.error, 0)
unfolding read_answer
answer_error = refl

reached : RxReach 2 (IsAnswer 2) idle one_round
unfolding begin_read fill_round after_round read_round round_by copied drop_block store_block
reached =
    RxReach.next
      (RxReach.next
        (RxReach.next (RxReach.next RxReach.here (RxStep.begin 3 refl refl))
          (RxStep.fill Status.success two (inr (refl, omega arith)) refl refl))
        (RxStep.fill Status.success three (inr (refl, omega arith)) refl refl))
      (RxStep.round refl (omega arith) (omega arith) (λ _. omega arith))

RxReach-InOrder_example : InOrder 2 one_round
RxReach-InOrder_example =
    RxReach-InOrder 2 (IsAnswer 2) (λ _ _ a. a) idle one_round idle-InOrder reached

fill_round-RxReach_example :
    fill_round 2 Status.error [] started ≡ fill_round 2 Status.error [] started
unfolding begin_read
fill_round-RxReach_example =
    fill_round-RxReach 2 (IsAnswer 2) started (fill_round 2 Status.error [] started) [] refl
      (omega arith) refl refl RxReach.here

-- The driver's world is the list of its calls.
abbrev logging : SdrDriver (List ℕ)
logging = record {
  destroy_channel = some (λ w c. w ++ (c ∷ []));
  destroy_device = λ w d. w ++ (d ∷ []);
}

abbrev new_channel : SdrChannel
new_channel = record {
  handle = 0;
  device = 0;
  state = ChanState.noinit;
  mode = ChanMode.unbuffered;
  counter = 0;
  allow_overruns = false;
}

-- A device at 10 with the channel at 20 under the handle 3.
abbrev one_radio : Sdrs
one_radio = record {
  devices = record { address = 10; handle = 4; channels = 20 ∷ []; chan_len = 10 } ∷ [];
  chans = λ c. record new_channel { handle = 3; device = 10 };
  descriptors = 20 ∷ [];
  handle_counter = 4;
}

found : (get_channel one_radio 3 ≡ some 20) × (get_channel one_radio 4 ≡ none)
unfolding get_channel find_in find_key
found = (refl, refl)

no_device :
    sdr_create (record (all_had 11 21 new_channel) { device = none }) one_radio ≡ (0, one_radio)
unfolding sdr_create
no_device = refl

one_radio-Unlisted : Unlisted one_radio 11 21
one_radio-Unlisted = record {
  small = omega arith;
  devices = (λ e. omega (arith, e), tt);
  no_null = λ e. omega (arith, e);
  channels = (((λ e. omega (arith, e), omega arith), tt), tt);
  descriptors = ((λ e. omega (arith, e), omega arith), tt);
}

sdr_create-sdr_destroy_example :
    (t : Sdrs) × (sdr_create (all_had 11 21 new_channel) one_radio ≡ (5, t))
    × (get_channel t 5 ≡ some 21)
    × (get_desc t 5 ≡ some 21)
    × ((u : Sdrs) × (sdr_destroy logging 5 [] t
          ≡ (logging.destroy_device (destroy_channel_impl logging [] 21) 11, u))
        × (u.devices ≡ one_radio.devices)
        × (u.descriptors ≡ one_radio.descriptors))
sdr_create-sdr_destroy_example =
    sdr_create-sdr_destroy one_radio 11 21 new_channel one_radio-Unlisted logging []

-- A driver that counts its calls, and reads what it was asked for.
abbrev counting : SdrApi ℕ ℕ
counting = record {
  channel_set = λ c w. record { answer = Status.success; chan = c; world = w + 100 };
  channel_start = λ c w. record { answer = Status.success; chan = c; world = w + 10 };
  channel_reset = λ c w. record {
    answer = Status.success;
    chan = record c { state = ChanState.reset };
    world = w;
  };
  hw_read = λ n c w. record { answer = (Status.success, replicate n 7); chan = c; world = w + 1 };
}

two_reads : (read_all counting counting.hw_read (16 ∷ 12 ∷ []) new_channel 0).world ≡ 112
unfolding read_all and_then sdrrx_read read_ready read_mode make_ready start_channel
two_reads = refl

count_on :
    sdr_read_from_counter 1 (record new_channel { counter = 16777215 })
    ≡ (16777215 ∷ 0 ∷ [], record new_channel { counter = 1 })
unfolding sdr_read_from_counter count_loop
count_on = refl

after_reset :
    (sdrrx_reset counting (λ w. 0) (record new_channel { state = ChanState.ready }) 5).chan.state
    ≡ ChanState.reset
unfolding sdrrx_reset reset_by
after_reset = refl

read_all-hw_read_all_example :
    read_all counting counting.hw_read (16 ∷ 12 ∷ []) new_channel 0
    ≡ hw_read_all counting (16 ∷ 12 ∷ []) (record new_channel { state = ChanState.ready }) 110
read_all-hw_read_all_example =
    read_all-hw_read_all counting counting.hw_read 16 (12 ∷ []) new_channel 0
      (record { state = λ n c w e. e; mode = λ n c w e. e }) refl refl refl refl
