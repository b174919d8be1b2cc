-- ===== src/Segment.antt =====
-- src/segment.c: the threads that move data from one machine to others.
--
-- The machines that a segment joins are `Io` interfaces over one world `S`. A thread reads the
-- state of its stream once in every round of its loop, so a run is given by the states that it
-- sees. Pools, names, groups and log lines are left out. `none` stands for a write that is
-- repeated for ever, and for a null pointer that is used.
pub mod Watch
pub mod Deliver
pub mod Observe
pub mod PassOn
pub mod Move
pub mod Rounds
pub mod Erase
pub mod Forward
pub mod Halt
pub mod Fifo
pub mod Stuck
pub mod Source
mod Tests
use bingewatch.Prelude.{
  ℕ, zero, suc, Bool, true, false, not, Option, none, some, List, [], ◌∷◌, ◌++◌, take, drop, ltb,
  ◌==◌, if◌then◌else◌, ◌>>=◌, add_size, sub_size, ◌+◌, ◌*◌,
}
use bingewatch.Status.{Status}
use bingewatch.Stream.{State, is_running}

-- What a `read` or a `write` of a machine leaves: its answer, `*bytes` and the caller's buffer.
pub record Done (S : Type 0) : Type 0 where
  pub status : Status
  pub bytes : ℕ
  pub buf : List ℕ
  pub world : S

-- The functions of `IOM` that a segment calls, at one handle.
pub record Io (S : Type 0) : Type 0 where
  pub read : S → List ℕ → ℕ → Done S
  pub write : S → List ℕ → ℕ → Done S
  pub stop : S → S

-- The machines of a segment; `dst1` is there where `out1` is not 0.
pub record Joined (S : Type 0) : Type 0 where
  pub src : Io S
  pub dst : Io S
  pub dst1 : Option (Io S)

-- The call-backs of a segment.
pub data Callback : Type 0 where
  on_error on_complete : Callback

-- `struct io_segment_t`, with the call-backs made so far and the world of its machines.
pub record Segment (S : Type 0) : Type 0 where
  pub running : Bool
  pub do_complete : Bool
  pub calls : List Callback
  pub world : S

-- A segment with its buffer, `none` where `palloc` had no memory for it.
pub record Run (S : Type 0) : Type 0 where
  pub segment : Segment S
  pub buf : Option (List ℕ)

-- How a segment reads a status: IO_COMPLETE, below IO_SUCCESS, or any other.
pub data Outcome : Type 0 where
  finished broken fine : Outcome

pub outcome : Status → Outcome
outcome Status.complete = finished
outcome Status.error = broken
outcome _ = fine

-- What a round does, by the state of the stream.
pub data Turn : Type 0 where
  spin complete quit move : Turn

pub turn : State → (do_complete : Bool) → Turn
unfolding is_running
turn State.ready do_complete = spin
turn state true = complete
turn state false = if is_running state then move else quit

module _ {S : Type 0} where
  stop_second : Option (Io S) → S → S
  stop_second none s = s
  stop_second (some io) s = io.stop s

  -- `stop_segment`, whose machines are all registered.
  pub stop_segment : Joined S → Segment S → Segment S
  unfolding stop_second
  stop_segment e seg = record seg {
    world = stop_second e.dst1 (e.dst.stop (e.src.stop seg.world));
    running = false;
    do_complete = false;
  }

  -- `SEGMENT_ERROR` and `stop_segment`
  pub fail_segment : Joined S → Segment S → Segment S
  unfolding stop_segment
  fail_segment e seg = stop_segment e (record seg { calls = seg.calls ++ (on_error ∷ []) })

  -- `SEGMENT_COMPLETE` and `stop_segment`
  pub complete_segment : Joined S → Segment S → Segment S
  unfolding stop_segment
  complete_segment e seg = stop_segment e (record seg { calls = seg.calls ++ (on_complete ∷ []) })

  -- `read_from_source`: `*bytes`, the buffer and the segment.
  pub read_from_source : Joined S → Segment S → List ℕ → ℕ → ℕ × List ℕ × Segment S
  unfolding outcome fail_segment
  read_from_source e seg buf bytes =
      let r = e.src.read seg.world buf bytes in
      let seg' : Segment S = record seg { world = r.world } in
      elim (outcome r.status) [
        | finished ↦ (r.bytes, r.buf, record seg' { do_complete = true })
        | broken ↦ (0, r.buf, fail_segment e seg')
        | fine ↦ (r.bytes, r.buf, seg')
      ]

  -- The loop of `write_to_dest`. `front` is the part of the buffer before `ptr`. Fuel: the calls
  -- of `write`.
  pub dest_loop :
      ℕ
      → Joined S
      → Io S
      → Segment S
      → (front ptr : List ℕ) → (remaining wr_bytes : ℕ) → Option (ℕ × List ℕ × Segment S)
  unfolding outcome fail_segment
  dest_loop zero e dst seg front ptr remaining wr_bytes = none
  dest_loop (suc fuel) e dst seg front ptr remaining wr_bytes =
      let r = dst.write seg.world ptr remaining in
      let seg' : Segment S = record seg { world = r.world } in
      elim (remaining == 0) [
        | true ↦ some (wr_bytes, front ++ ptr, seg)
        | false ↦ elim (outcome r.status) [
          | finished ↦ some (wr_bytes, front ++ r.buf, record seg' { do_complete = true })
          | broken ↦ some (0, front ++ r.buf, fail_segment e seg')
          | fine ↦
              dest_loop fuel e dst seg' (front ++ take r.bytes r.buf) (drop r.bytes r.buf)
                (sub_size remaining r.bytes) (add_size wr_bytes r.bytes)
        ]
      ]

  -- `write_to_dest`
  pub write_to_dest : ℕ → Joined S → Io S → Segment S → List ℕ → ℕ → Option (ℕ × List ℕ × Segment S)
  unfolding dest_loop
  write_to_dest fuel e dst seg buf bytes = dest_loop fuel e dst seg [] buf bytes 0

  -- The end of a round, once `src_bytes` have been read: the write to `dst`, and to `dst1`.
  pub pass_on : ℕ → Joined S → Segment S → List ℕ → (src_bytes : ℕ) → Option (Run S)
  unfolding write_to_dest
  pass_on fuel e seg buf src_bytes = do
    (bytes, buf', seg') ← write_to_dest fuel e e.dst seg buf src_bytes
    elim e.dst1 [
      | none ↦ some (record { segment = seg'; buf = some buf' })
      | some dst1 ↦ elim (bytes == 0) [
        | true ↦ some (record { segment = seg'; buf = some buf' })
        | false ↦ do
          (_, buf'', seg'') ← write_to_dest fuel e dst1 seg' buf' src_bytes
          some (record { segment = seg''; buf = some buf'' })
      ]
    ]

  -- The part of a round that moves data.
  pub move_data : ℕ → Joined S → (buflen : ℕ) → Segment S → List ℕ → Option (Run S)
  unfolding read_from_source pass_on
  move_data fuel e buflen seg buf =
      let (bytes, buf', seg') = read_from_source e seg buf buflen in
      elim (bytes == 0) [
        | true ↦ some (record { segment = seg'; buf = some buf' })
        | false ↦ pass_on fuel e seg' buf' bytes
      ]

  -- One round of the loop of `segment_run`.
  pub segment_round : ℕ → Joined S → (buflen : ℕ) → State → Run S → Option (Run S)
  unfolding turn complete_segment move_data
  segment_round fuel e buflen state r = elim (turn state r.segment.do_complete) [
    | spin ↦ some r
    | complete ↦ some (record r { segment = complete_segment e r.segment })
    | quit ↦ some (record r { segment = record r.segment { running = false } })
    | move ↦ do buf ← r.buf; move_data fuel e buflen r.segment buf
  ]

  -- The loop of `segment_run`, over the states that it sees.
  pub segment_rounds : ℕ → Joined S → (buflen : ℕ) → List State → Run S → Option (Run S)
  unfolding segment_round
  segment_rounds fuel e buflen [] r = some r
  segment_rounds fuel e buflen (state ∷ states) r = elim r.segment.running [
    | false ↦ some r
    | true ↦ segment_round fuel e buflen state r >>= segment_rounds fuel e buflen states
  ]

-- The sizes that a segment takes its buffer's from.
pub record Sizes : Type 0 where
  pub src : ℕ
  pub dst : ℕ
  pub dst1 : Option ℕ
  pub default_buf_len : ℕ

pub larger : ℕ → ℕ → ℕ
larger a b = if ltb b a then a else b

larger_of : Option ℕ → ℕ → ℕ
unfolding larger
larger_of none n = n
larger_of (some m) n = larger m n

-- `buflen` of `segment_run`
pub buffer_length : Sizes → ℕ
unfolding larger larger_of
buffer_length z =
    let n = larger_of z.dst1 (larger z.src z.dst) in if n == 0 then z.default_buf_len else n

module _ {S : Type 0} where
  -- The initialisation of `segment_run`; `content` is what `palloc` gives, if it has memory.
  pub segment_begin : Segment S → Option (List ℕ) → Run S
  segment_begin seg none = record {
    segment = record seg { calls = seg.calls ++ (on_error ∷ []); running = true };
    buf = none;
  }
  segment_begin seg (some content) = record {
    segment = record seg { running = true };
    buf = some content;
  }

  -- `segment_run`
  pub segment_run : ℕ → Joined S → Sizes → Segment S → Option (List ℕ) → List State → Option (Run S)
  unfolding buffer_length segment_begin segment_rounds
  segment_run fuel e z seg content states =
      segment_rounds fuel e (buffer_length z) states (segment_begin seg content)

  -- `segment_create`, where `pcalloc` has cleared the rest.
  pub segment_create : S → Segment S
  segment_create world = record { running = false; do_complete = false; calls = []; world = world }

  -- `segment_is_running`
  pub segment_is_running : Segment S → Bool
  segment_is_running seg = seg.running
