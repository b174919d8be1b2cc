-- ===== src/Stream/Step.antt =====
-- The threads that act on a running stream, as a step relation: the thread of
-- `main_state_machine`, the segments by their callbacks, and a caller of `stop_stream`.
use bingewatch.Prelude.{ℕ, suc, ◌+◌, ◌<◌, ◌≡◌, ◌≢◌, ◌⊎◌}
use bingewatch.Stream.{
  State, StreamStatus, Stream, Pc, set_state, callback_complete, callback_error,
}

-- `stop_stream_internal` takes no lock: between its read of the state and its write the others go
-- on. So a call of it is two steps, and the world counts the calls that are between them.
--
-- The stream, its thread, which segments still have `running` set, the threads that have ended,
-- and the calls of `stop_stream_internal` that are to write STREAM_DONE or the status.
pub record World : Type 0 where
  pub stream : Stream
  pub pc : Pc
  pub active : ℕ → ℕ  -- not 0 while the segment runs
  pub ended : ℕ → ℕ  -- not 0 once its thread has ended
  pub stopping : ℕ
  pub failing : ℕ

-- Segments can call back from when the first is started until the thread has joined the last.
pub data MayCallBack : Pc → Type 0 where
  while_starting : (s : ℕ) → 0 < s → MayCallBack (Pc.starting s)
  while_waiting : MayCallBack Pc.waiting
  while_finishing : (s : ℕ) → MayCallBack (Pc.finishing_segments s)
  while_joining : (s : ℕ) → MayCallBack (Pc.joining s)

-- The order of `main_state_machine`. A call-back holds the lock, but the thread and
-- `stop_stream_internal` write the state without it, so that a call-back may also write what it
-- has made of a state that is no longer there: READY for `late_done`, RUNNING for `late_finishing`.
pub data Step : World → World → Type 0 where
  begin :
      (w : World)
      → w.pc ≡ Pc.entry
      → Step w (record w { stream = set_state w.stream State.ready; pc = Pc.starting 0 })
  start_segment :
      (w : World) (s : ℕ)
      → w.pc ≡ Pc.starting s
      → s < w.stream.n_segment
      → Step w (record w { pc = Pc.starting (s + 1) })
  run :
      (w : World) (s : ℕ)
      → w.pc ≡ Pc.starting s
      → s ≡ w.stream.n_segment
      → Step w (record w { stream = set_state w.stream State.running; pc = Pc.waiting })
  leave_finishing :
      (w : World)
      → w.pc ≡ Pc.waiting
      → w.stream.state ≡ State.finishing
      → Step w (record w { pc = Pc.finishing_segments 0 })
  leave :
      (w : World)
      → w.pc ≡ Pc.waiting
      → w.stream.state ≢ State.running
      → w.stream.state ≢ State.finishing
      → Step w (record w { pc = Pc.joining 0 })
  segment_over :
      (w : World) (s : ℕ)
      → w.pc ≡ Pc.finishing_segments s
      → s < w.stream.n_segment
      → w.active s ≡ 0
      → Step w (record w { pc = Pc.finishing_segments (s + 1) })
  all_over :
      (w : World) (s : ℕ)
      → w.pc ≡ Pc.finishing_segments s
      → s ≡ w.stream.n_segment
      → Step w (record w { pc = Pc.joining 0 })
  join :
      (w : World) (s : ℕ)
      → w.pc ≡ Pc.joining s
      → s < w.stream.n_segment
      → w.ended s ≢ 0
      → Step w (record w { pc = Pc.joining (s + 1) })
  exit :
      (w : World) (s : ℕ)
      → w.pc ≡ Pc.joining s
      → s ≡ w.stream.n_segment
      → Step w (record w { stream = set_state w.stream State.stopped; pc = Pc.exited })
  complete :
      (w : World) → MayCallBack w.pc → Step w (record w { stream = callback_complete w.stream })
  fail : (w : World) → MayCallBack w.pc → Step w (record w { stream = callback_error w.stream })
  late_done :
      (w : World) → MayCallBack w.pc → Step w (record w { stream = set_state w.stream State.done })
  late_finishing :
      (w : World)
      → MayCallBack w.pc
      → ((s : ℕ) → w.pc ≢ Pc.starting s)
      → Step w (record w { stream = set_state w.stream State.finishing })
  late_error :
      (w : World)
      → MayCallBack w.pc
      → Step w (record w {
        stream = record w.stream { state = State.state_error; status = StreamStatus.error };
      })
  end_segment :
      (w : World) (active ended : ℕ → ℕ) → Step w (record w { active = active; ended = ended })
  stop_read :
      (w : World)
      → (w.stream.state ≡ State.running) ⊎ (w.stream.state ≡ State.finishing)
      → Step w (record w { stopping = suc w.stopping })
  stop_write :
      (w : World) (n : ℕ)
      → w.stopping ≡ suc n
      → Step w (record w { stream = set_state w.stream State.done; stopping = n })
  stop_read_error :
      (w : World)
      → w.stream.state ≡ State.state_error
      → Step w (record w { failing = suc w.failing })
  stop_write_error :
      (w : World) (n : ℕ)
      → w.failing ≡ suc n
      → Step w (record w {
        stream = record w.stream { status = StreamStatus.error_stop_failure };
        failing = n;
      })

pub data Reach (s : World) : World → Type 0 where
  here : Reach s s
  next : {t u : World} → Reach s t → Step t u → Reach s u
