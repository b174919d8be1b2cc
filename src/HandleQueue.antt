-- ===== src/HandleQueue.antt =====
-- src/buf/handle-queue.c: the handle queue, a machine whose writes are queued whole, each as an
-- entry of its own, and whose reads give out entries.
--
-- The list of entries is the memex library's, which is given by `MemexLists`. An operation takes
-- the queue that `machine_get_desc` finds for the handle. `none` stands for a null pointer that is
-- used, where `palloc` has no memory for the bytes of an entry. Pools are left out.
pub mod Order
mod Tests
use bingewatch.Prelude.{
  ℕ, Bool, true, false, not, Option, none, some, List, [], length, ltb, if◌then◌else◌,
}
use bingewatch.Status.{Status, DescState}
use bingewatch.Ring.Control.{Setup}

-- `HQ_ENTRY`
pub record HqEntry : Type 0 where
  pub buf : List ℕ
  pub bytes : ℕ
  pub tv : ℕ

-- `HQ_TYPE_FIFO`, `HQ_TYPE_STACK`
pub data HqType : Type 0 where
  hq_fifo hq_stack : HqType

-- The functions of memex that the queue calls. A push leaves no list where it fails; a pop that
-- does not fail gives an entry, or none where N is 0.
pub record MemexLists (L : Type 0) : Type 0 where
  pub memex_fifo_create : L
  pub memex_stack_create : L
  pub memex_list_push : L → HqEntry → Option L
  pub memex_list_pop : L → Option (Option HqEntry × L)

-- `struct hq_t`, with the states of its two sides.
pub record HqQueue (L : Type 0) : Type 0 where
  pub list : L
  pub flush : Bool
  pub io_read : DescState
  pub io_write : DescState

-- What a read or a write leaves: the queue, the code, the new `*bytes`, and the entry stored in the
-- caller's buffer.
pub record HqReply (L : Type 0) : Type 0 where
  pub queue : HqQueue L
  pub status : Status
  pub count : ℕ
  pub entry : Option HqEntry

-- What `machine_desc_read` and `machine_desc_write` answer with no bytes at a side in this state,
-- and the state they leave; `none` where they go on to the filter.
abbrev pub side_answer : DescState → Option (Status × DescState)
side_answer DescState.disabling = some (Status.success, DescState.disabled)
side_answer DescState.disabled = some (Status.success, DescState.disabled)
side_answer DescState.stopped = some (Status.complete, DescState.stopped)
side_answer _ = none

module _ {L : Type 0} (lists : MemexLists L) where
  -- `queue_write`; `room` is what `palloc` answers, and `now` the time of day.
  pub queue_write : HqQueue L → (room : Bool) → (now : ℕ) → List ℕ → Option (HqReply L)
  queue_write q room now input =
      let e : HqEntry = record { buf = input; bytes = length input; tv = now } in
      if not room
      then none
      else some (elim (lists.memex_list_push q.list e) [
        | none ↦ record { queue = q; status = Status.error; count = 0; entry = none }
        | some list ↦ record {
          queue = record q { list = list };
          status = Status.success;
          count = length input;
          entry = none;
        }
      ])

  -- The part of `queue_read` behind `memex_list_pop`.
  pub give_entry : HqQueue L → (entry_size bytes : ℕ) → Option HqEntry → HqReply L
  give_entry q entry_size bytes (some e) = record {
    queue = q;
    status = Status.success;
    count = entry_size;
    entry = some e;
  }
  give_entry q entry_size bytes none =
      if q.flush
      then record {
        queue = record q { io_read = DescState.disabling };
        status = Status.complete;
        count = bytes;
        entry = none;
      }
      else record { queue = q; status = Status.success; count = 0; entry = none }

  -- `queue_read`; `entry_size` is `sizeof(HQ_ENTRY)`.
  pub queue_read : (entry_size : ℕ) → HqQueue L → (bytes : ℕ) → HqReply L
  unfolding give_entry
  queue_read entry_size q bytes =
      if ltb bytes entry_size
      then record { queue = q; status = Status.error; count = 0; entry = none }
      else elim (lists.memex_list_pop q.list) [
        | none ↦ record { queue = q; status = Status.error; count = 0; entry = none }
        | some r ↦ give_entry (record q { list = r.1 }) entry_size bytes r.0
      ]

  -- `machine_desc_write` and `machine_desc_read` at the queue.
  pub hq_desc_write : HqQueue L → (room : Bool) → (now : ℕ) → List ℕ → Option (HqReply L)
  unfolding queue_write
  hq_desc_write q room now input = elim (side_answer q.io_write) [
    | none ↦ queue_write q room now input
    | some r ↦
        some (record { queue = record q { io_write = r.1 }; status = r.0; count = 0; entry = none })
  ]

  pub hq_desc_read : (entry_size : ℕ) → HqQueue L → (bytes : ℕ) → HqReply L
  unfolding queue_read
  hq_desc_read entry_size q bytes = elim (side_answer q.io_read) [
    | none ↦ queue_read entry_size q bytes
    | some r ↦ record { queue = record q { io_read = r.1 }; status = r.0; count = 0; entry = none }
  ]

  -- The list that `create_queue` makes for its argument.
  pub new_list : Option HqType → L
  new_list (some hq_stack) = lists.memex_stack_create
  new_list _ = lists.memex_fifo_create

  -- `create_queue`, up to the registration of the descriptor: `none` where it returns handle 0.
  pub create_queue : Setup → Option HqType → Option (HqQueue L)
  unfolding new_list
  create_queue answers type =
      if not answers.subpool
      then none
      else if not answers.pcalloc
      then none
      else if not answers.desc_init
      then none
      else if not answers.read_filter
      then none
      else if not answers.write_filter
      then none
      else some (record {
        list = new_list type;
        flush = false;
        io_read = DescState.enabled;
        io_write = DescState.enabled;
      })

-- `stop_queue`: no more writes, and reads until the queue is empty.
pub stop_queue : {L : Type 0} → HqQueue L → HqQueue L
stop_queue q = record q { io_write = DescState.disabling; flush = true }
