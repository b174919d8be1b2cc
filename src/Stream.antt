-- ===== src/Stream.antt =====
-- src/stream.c and include/stream-state.h: streams, their segments and their state machine.
--
-- A stream is found by its handle in a list; the functions below work on the stream found, or
-- answer as the source does when there is none. Strings, pools and log lines are left out.
pub mod Step
pub mod Life
pub mod Registry
mod Tests
use bingewatch.Prelude.{
  ℕ, zero, suc, ◌+◌, ◌*◌, ◌%◌, ◌^◌, Bool, true, false, ◌&&◌, not, find_key, update_key, Option,
  none, some, List, [], ◌∷◌, ◌++◌, leb, ◌==◌, if◌then◌else◌,
}
use bingewatch.Status.{Status}

-- `enum stream_state_e`
pub data State : Type 0 where
  init ready running finishing done stopped state_error : State

-- `enum stream_status_e`
pub data StreamStatus : Type 0 where
  success error error_not_found error_stop_failure error_invalid_state : StreamStatus

-- The machines that a segment joins; `out1` is 0 where there is no second output.
pub record Joined : Type 0 where
  pub input : ℕ
  pub out : ℕ
  pub out1 : ℕ

-- `struct io_stream_t`; `segments` are the entries written, `segment_bytes` what `repalloc` was
-- asked for.
pub record Stream : Type 0 where
  pub id : ℕ
  pub state : State
  pub segments : List Joined
  pub n_segment : ℕ
  pub segment_len : ℕ
  pub segment_bytes : ℕ
  pub status : StreamStatus

-- `STREAM_IS_RUNNING`
unfoldable pub is_running : State → Bool
is_running State.ready = true
is_running State.running = true
is_running State.finishing = true
is_running _ = false

-- `set_state`; every value of the enumeration passes its check.
abbrev pub set_state : Stream → State → Stream
set_state st new_state = record st { state = new_state }

-- `callback_complete`
pub callback_complete : Stream → Stream
callback_complete st = elim st.state [
  | State.init ↦ set_state st State.done
  | State.ready ↦ set_state st State.done
  | State.running ↦ set_state st State.finishing
  | _ ↦ st
]

-- `callback_error`
pub callback_error : Stream → Stream
callback_error st =
    let st' : Stream = elim st.state [
      | State.state_error ↦ st
      | State.finishing ↦ st
      | State.done ↦ st
      | _ ↦ set_state st State.state_error
    ] in
    record st' { status = StreamStatus.error }

-- One round of `stop_stream_internal`: `none` where it sleeps and looks again.
pub stop_stream_internal : Stream → Option Stream
stop_stream_internal st = elim st.state [
  | State.init ↦ none
  | State.ready ↦ none
  | State.running ↦ some (set_state st State.done)
  | State.finishing ↦ some (set_state st State.done)
  | State.done ↦ some st
  | State.state_error ↦ some (record st { status = StreamStatus.error_stop_failure })
  | State.stopped ↦ some st
]

-- Where the thread of `main_state_machine` stands; the numbers are its loop variable `s`.
pub data Pc : Type 0 where
  entry waiting exited : Pc
  starting finishing_segments joining : ℕ → Pc

-- `sizeof(int)` and `sizeof(IO_SEGMENT)`
abbrev pub int_bytes : ℕ
int_bytes = 4

abbrev pub pointer_bytes : ℕ
pointer_bytes = 8

-- `add_segment`
pub add_segment : Stream → Joined → Stream
add_segment st seg =
    let i = st.n_segment in
    let grown = leb st.segment_len i in
    let len = if grown then st.segment_len + 10 else st.segment_len in
    record st {
      n_segment = i + 1;
      segment_len = len;
      segment_bytes = if grown then int_bytes * len else st.segment_bytes;
      segments = st.segments ++ (seg ∷ []);
    }

-- `create_segment_1_1`, `create_segment_1_2`
pub create_segment_1_1 : Stream → ℕ → ℕ → Stream
unfolding add_segment
create_segment_1_1 st input out = add_segment st (record { input = input; out = out; out1 = 0 })

pub create_segment_1_2 : Stream → ℕ → ℕ → ℕ → Stream
unfolding add_segment
create_segment_1_2 st input out out1 =
    add_segment st (record { input = input; out = out; out1 = out1 })

-- The static `streams` and `stream_counter`.
pub record Streams : Type 0 where
  pub stream_counter : ℕ
  pub streams : List Stream

-- `get_stream`
pub get_stream : Streams → ℕ → Option Stream
get_stream all h = find_key (λ s. s.id) h all.streams

-- The counter is an `int` that wraps, kept modulo 2^32.
abbrev pub id_mod : ℕ
id_mod = 2 ^ 32

-- The stream that `new_stream` lists under the counter's new value.
pub open_stream : Streams → ℕ → ℕ × Streams
open_stream all id =
    let stream : Stream = record {
      id = id;
      state = State.init;
      segments = [];
      n_segment = 0;
      segment_len = 0;
      segment_bytes = 0;
      status = StreamStatus.success;
    } in
    (id, record { stream_counter = id; streams = all.streams ++ (stream ∷ []) })

-- `new_stream`
pub new_stream : Streams → ℕ × Streams
unfolding open_stream
new_stream all = open_stream all ((all.stream_counter + 1) % id_mod)

-- The stream found is changed in place; 1 if there is no such stream.
pub with_stream : Streams → ℕ → (Stream → Stream) → ℕ × Streams
unfolding get_stream
with_stream all h f = elim (get_stream all h) [
  | none ↦ (1, all)
  | some st ↦ (0, record all { streams = update_key (λ s. s.id) h f all.streams })
]

-- `io_stream_add_segment`, `io_stream_add_tee_segment`.
pub io_stream_add_segment : Streams → ℕ → ℕ → ℕ → ℕ × Streams
unfolding with_stream create_segment_1_1
io_stream_add_segment all h input out = with_stream all h (λ st. create_segment_1_1 st input out)

pub io_stream_add_tee_segment : Streams → ℕ → ℕ → ℕ → ℕ → ℕ × Streams
unfolding with_stream create_segment_1_2
io_stream_add_tee_segment all h input out out1 =
    with_stream all h (λ st. create_segment_1_2 st input out out1)

-- `io_stream_add_src_segment`; `src_buf` is the handle of the ring buffer that it makes.
pub io_stream_add_src_segment : Streams → (src_buf : ℕ) → ℕ → ℕ → ℕ → ℕ × Streams
unfolding with_stream create_segment_1_1 add_segment
io_stream_add_src_segment all src_buf h input out = with_stream all h (λ st.
    create_segment_1_1 (add_segment st (record { input = input; out = src_buf; out1 = 0 })) src_buf
      out)

-- `start_stream`; the thread that it makes is at `Pc.entry`.
pub start_stream : Streams → ℕ → Status
unfolding get_stream
start_stream all h = elim (get_stream all h) [ none ↦ Status.error | some st ↦ Status.success ]

-- `stop_stream`, `none` while it waits.
pub stop_stream : Streams → ℕ → Option (Status × Streams)
unfolding get_stream stop_stream_internal
stop_stream all h = elim (get_stream all h) [
  | none ↦ some (Status.error, all)
  | some st ↦ elim (stop_stream_internal st) [
    | none ↦ none
    | some st' ↦
        some
          (Status.success, record all { streams = update_key (λ s. s.id) h (λ _. st') all.streams })
  ]
]

-- `join_stream`, once the thread has exited.
pub join_stream : Streams → ℕ → StreamStatus
unfolding get_stream
join_stream all h = elim (get_stream all h) [
  | none ↦ StreamStatus.error_not_found
  | some st ↦ st.status
]
