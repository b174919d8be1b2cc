-- ===== src/Filter.antt =====
-- src/filter.c, src/filter/filters.c and include/filter.h: chains of filters, and the filters that
-- count bytes and time.
--
-- A chain is the list of its filters, the first one first. What a filter calls next is a function
-- from the state of the rest of the chain and `*bytes` to an answer; buffers are passed through.
pub mod Chain
pub mod Limit
pub mod Convert
mod Tests
use bingewatch.Prelude.{
  ℕ, Bool, true, false, Option, none, some, List, [], ◌∷◌, ◌++◌, take, leb, if◌then◌else◌, add_size,
  sub_size,
}
use bingewatch.Status.{Status}
use bingewatch.Machine.{same_name}

-- `enum io_filter_direction`
pub data Direction : Type 0 where
  bidirectional read write : Direction

-- `struct io_filter_t`, less its functions and its object.
pub record Filter : Type 0 where
  pub enabled : Bool
  pub direction : Direction
  pub name : List ℕ

-- `IO_MAX_NAME_LEN`
abbrev pub io_max_name_len : ℕ
io_max_name_len = 64

-- `create_filter`
pub create_filter : List ℕ → Filter
create_filter name = record {
  enabled = true;
  direction = Direction.bidirectional;
  name = take io_max_name_len name;
}

-- `get_io_filter`, for a name that is given: the filter and its place in the chain.
pub get_io_filter : List Filter → List ℕ → Option Filter
get_io_filter [] name = none
get_io_filter (f ∷ fs) name =
    let rest = get_io_filter fs name in if same_name f.name name then some f else rest

-- `f->enabled` set on the filter that `get_io_filter` finds.
set_enabled : Bool → List Filter → List ℕ → List Filter
set_enabled b [] name = []
set_enabled b (f ∷ fs) name =
    let rest = set_enabled b fs name in
    if same_name f.name name then record f { enabled = b } ∷ fs else f ∷ rest

-- The first filter of the chain, where no name is given.
set_first : Bool → List Filter → List Filter
set_first b [] = []
set_first b (f ∷ fs) = record f { enabled = b } ∷ fs

-- `io_filter_disable`, `io_filter_enable`
pub io_filter_disable : List Filter → Option (List ℕ) → List Filter
unfolding set_enabled set_first
io_filter_disable filter none = set_first false filter
io_filter_disable filter (some name) = set_enabled false filter name

pub io_filter_enable : List Filter → Option (List ℕ) → List Filter
unfolding set_enabled set_first
io_filter_enable filter none = set_first true filter
io_filter_enable filter (some name) = set_enabled true filter name

-- `register_read_filter`, `register_write_filter`, on the chain of the machine's side.
pub register_filter : Direction → List Filter → List ℕ → List Filter
unfolding create_filter
register_filter direction machine_fil name =
    record (create_filter name) { direction = direction } ∷ machine_fil

-- The loop to the end of a chain: every filter that has a next one gets the direction.
direct : Direction → List Filter → List Filter
direct direction [] = []
direct direction (f ∷ []) = f ∷ []
direct direction (f ∷ g ∷ fs) = record f { direction = direction } ∷ direct direction (g ∷ fs)

-- `addme->direction` after it.
direct_first : Direction → List Filter → List Filter
direct_first direction [] = []
direct_first direction (f ∷ fs) = record f { direction = direction } ∷ fs

-- `add_read_filter`, `add_write_filter`: the chain `addme` before the machine's.
pub add_filter : Direction → List Filter → List Filter → List Filter
unfolding direct direct_first
add_filter direction addme machine_fil =
    direct_first direction (direct direction addme) ++ machine_fil

-- `struct generic_counter_t`
pub record Counter : Type 0 where
  pub total : ℕ
  pub limit : ℕ
  pub period : ℕ

-- `create_byte_count_limit_filter`; `period` is not set and not used.
pub create_byte_count_limit_filter : ℕ → Counter
create_byte_count_limit_filter byte_limit = record { total = 0; limit = byte_limit; period = 0 }

-- `create_byte_counter_filter`
pub create_byte_counter_filter : ℕ → Counter
create_byte_counter_filter bytes_per_sample = record {
  total = 0;
  limit = bytes_per_sample;
  period = bytes_per_sample;
}

-- What a call of a filter leaves: its answer and `*bytes`, the filter's own object and the rest
-- of the chain.
pub record Passed (C S : Type 0) : Type 0 where
  pub status : Status
  pub bytes : ℕ
  pub obj : C
  pub rest : S

-- `limit->total` after so many more bytes.
pub count_up_to : Counter → ℕ → Counter
count_up_to c bytes =
    if leb (add_size c.total bytes) c.limit
    then record c { total = add_size c.total bytes }
    else record c { total = add_size c.total (sub_size c.limit c.total) }

-- The bytes that it lets through.
pub let_through : Counter → ℕ → ℕ
let_through c bytes =
    if leb (add_size c.total bytes) c.limit then bytes else sub_size c.limit c.total

-- The answer once the next filter has succeeded.
limit_reached : Counter → Status
limit_reached c = if leb c.limit c.total then Status.complete else Status.success

-- The answer after the next filter has been called with the bytes let through.
settled : {S : Type 0} → Status → Passed Counter S → Passed Counter S
unfolding limit_reached
settled Status.success r = record r { status = limit_reached r.obj }
settled _ r = r

-- `enum time_limit_state_e`; `other` is any other value.
pub data TimeLimit : Type 0 where
  noinit running done other : TimeLimit

module _ {S : Type 0} (next : S → ℕ → Status × ℕ × S) where
  -- `CALL_NEXT_FILTER`, with the filter's own object as it is.
  call_next : {C : Type 0} → C → S → ℕ → Passed C S
  call_next c s bytes =
      let r = next s bytes in record { status = r.0; bytes = r.1; obj = c; rest = r.2 }

  -- `byte_count_limiter` of an enabled filter, by its direction.
  limit_read : Counter → S → ℕ → Passed Counter S
  unfolding count_up_to limit_reached call_next
  limit_read c s bytes =
      let r = call_next c s bytes in
      elim r.status [
        | Status.success ↦
            let c' = count_up_to c r.bytes in record r { status = limit_reached c'; obj = c' }
        | _ ↦ r
      ]

  limit_write : Counter → S → ℕ → Passed Counter S
  unfolding count_up_to let_through call_next settled
  limit_write c s bytes =
      let c' = count_up_to c bytes in
      let r = call_next c' s (let_through c bytes) in settled r.status r

  limit_count : Counter → S → ℕ → Passed Counter S
  unfolding count_up_to limit_reached
  limit_count c s bytes =
      let c' = count_up_to c bytes in
      record { status = limit_reached c'; bytes = bytes; obj = c'; rest = s }

  -- `byte_count_limiter`
  pub byte_count_limiter : Filter → Counter → S → ℕ → Passed Counter S
  unfolding call_next limit_read limit_write limit_count
  byte_count_limiter f c s bytes =
      if f.enabled
      then elim f.direction [
        | Direction.read ↦ limit_read c s bytes
        | Direction.write ↦ limit_write c s bytes
        | Direction.bidirectional ↦ limit_count c s bytes
      ]
      else call_next c s bytes

  -- `byte_counter`, whose object is there.
  pub byte_counter : Filter → Counter → S → ℕ → Passed Counter S
  unfolding call_next
  byte_counter f c s bytes =
      let r = call_next c s bytes in
      let total = add_size c.total r.bytes in
      let counted : Counter = record c {
        total = total;
        limit = if leb c.limit total then add_size c.limit c.period else c.limit;
      } in
      if f.enabled then record r { obj = counted } else r

  -- `time_limiter`
  pub time_limiter : Filter → TimeLimit → S → ℕ → Passed TimeLimit S
  unfolding call_next
  time_limiter f time s bytes =
      if f.enabled
      then elim time [
        | TimeLimit.noinit ↦ call_next TimeLimit.running s bytes
        | TimeLimit.running ↦ call_next TimeLimit.running s bytes
        | TimeLimit.done ↦ record {
          status = Status.complete;
          bytes = bytes;
          obj = TimeLimit.done;
          rest = s;
        }
        | TimeLimit.other ↦ record {
          status = Status.error;
          bytes = bytes;
          obj = TimeLimit.other;
          rest = s;
        }
      ]
      else call_next time s bytes
