-- ===== src/HandleQueue/Order.antt =====
-- The order in which a handle queue gives out its entries.
use bingewatch.Prelude.{
  ℕ, ◌+◌, ◌≡◌, refl, ap, ◌∙◌, true, false, Option, none, some, List, [], ◌∷◌, ◌++◌, length, ltb,
  if-true, if-false, arith, ◌>>=◌,
}
use bingewatch.Status.{Status, DescState}
use bingewatch.HandleQueue.{
  HqEntry, HqType, hq_fifo, hq_stack, MemexLists, HqQueue, HqReply, side_answer, queue_write,
  queue_read, hq_desc_write, hq_desc_read, give_entry, stop_queue,
}

-- Where an entry goes in.
unfoldable pub insert_entry : HqType → List HqEntry → HqEntry → List HqEntry
insert_entry hq_fifo es e = es ++ e ∷ []
insert_entry hq_stack es e = e ∷ es

-- What memex documents of its lists: as long as a push has memory, which is always so here, a pop
-- gives the oldest entry of a fifo and the youngest of a stack.
pub record Keeps {L : Type 0} (lists : MemexLists L) (type : HqType) (entries : L → List HqEntry)
    : Type 0 where
  pub push :
      (l : L) (e : HqEntry)
      → (l' : L) × (lists.memex_list_push l e ≡ some l')
        × (entries l' ≡ insert_entry type (entries l) e)
  pub pop_none :
      (l : L)
      → entries l ≡ []
      → (l' : L) × (lists.memex_list_pop l ≡ some (none, l')) × (entries l' ≡ [])
  pub pop_some :
      (l : L) (e : HqEntry) (es : List HqEntry)
      → entries l ≡ e ∷ es
      → (l' : L) × (lists.memex_list_pop l ≡ some (some e, l')) × (entries l' ≡ es)

-- The calls that a user makes: a write, with the time of day, and a read into a buffer that can
-- hold an entry or more.
pub data HqCall : Type 0 where
  push_call : (now : ℕ) → List ℕ → HqCall
  pop_call : (more : ℕ) → HqCall
  stop_call : HqCall

-- What the caller sees.
abbrev pub HqSeen : Type 0
HqSeen = Status × ℕ × Option HqEntry

-- A queue takes entries until it is stopped, gives out what it has left, and is over once a read
-- has been told that there is no more.
pub data Phase : Type 0 where
  filling emptying over : Phase

stopped_phase : Phase → Phase
stopped_phase filling = emptying
stopped_phase p = p

-- The specification: a list of entries and its phase.
unfoldable pub run_entries :
    HqType → (entry_size : ℕ) → Phase → List HqEntry → List HqCall → List HqSeen
unfolding insert_entry stopped_phase
run_entries type size p es [] = []
run_entries type size filling es (push_call now input ∷ calls) =
    (Status.success, length input, none)
    ∷ run_entries type size filling
        (insert_entry type es (record { buf = input; bytes = length input; tv = now })) calls
run_entries type size p es (push_call now input ∷ calls) =
    (Status.success, 0, none) ∷ run_entries type size p es calls
run_entries type size over es (pop_call more ∷ calls) =
    (Status.success, 0, none) ∷ run_entries type size over es calls
run_entries type size p (e ∷ es) (pop_call more ∷ calls) =
    (Status.success, size, some e) ∷ run_entries type size p es calls
run_entries type size emptying [] (pop_call more ∷ calls) =
    (Status.complete, size + more, none) ∷ run_entries type size over [] calls
run_entries type size filling [] (pop_call more ∷ calls) =
    (Status.success, 0, none) ∷ run_entries type size filling [] calls
run_entries type size p es (stop_call ∷ calls) = run_entries type size (stopped_phase p) es calls

-- A side that answers with no bytes.
unfoldable IsShut : DescState → Type 0
IsShut s = side_answer s ≡ some (Status.success, DescState.disabled)

-- The flags of a queue in a phase.
unfoldable pub InPhase : {L : Type 0} → Phase → HqQueue L → Type 0
unfolding IsShut
InPhase filling q =
    (q.flush ≡ false) × (side_answer q.io_read ≡ none) × (side_answer q.io_write ≡ none)
InPhase emptying q = (q.flush ≡ true) × (side_answer q.io_read ≡ none) × IsShut q.io_write
InPhase over q = (q.flush ≡ true) × IsShut q.io_read × IsShut q.io_write

module _ {L : Type 0} (lists : MemexLists L) (size : ℕ) where
  abbrev hq_seen : HqReply L → HqSeen
  hq_seen r = (r.status, r.count, r.entry)

  pub run_hq : HqQueue L → List HqCall → Option (List HqSeen)
  run_hq q [] = some []
  run_hq q (push_call now input ∷ calls) = do
    r ← hq_desc_write lists q true now input
    rest ← run_hq r.queue calls
    some (hq_seen r ∷ rest)
  run_hq q (pop_call more ∷ calls) = do
    rest ← run_hq (hq_desc_read lists size q (size + more)).queue calls
    some (hq_seen (hq_desc_read lists size q (size + more)) ∷ rest)
  run_hq q (stop_call ∷ calls) = run_hq (stop_queue q) calls

  desc_write_open :
      (q : HqQueue L) (now : ℕ) (input : List ℕ)
      → side_answer q.io_write ≡ none
      → hq_desc_write lists q true now input ≡ queue_write lists q true now input
  unfolding hq_desc_write
  desc_write_open q now input e = rw (hq_desc_write, e) refl

  desc_write_shut :
      (q : HqQueue L) (now : ℕ) (input : List ℕ)
      → IsShut q.io_write
      → hq_desc_write lists q true now input
        ≡ some (record {
          queue = record q { io_write = DescState.disabled };
          status = Status.success;
          count = 0;
          entry = none;
        })
  unfolding hq_desc_write IsShut
  desc_write_shut q now input e = rw (hq_desc_write, e) refl

  desc_read_open :
      (q : HqQueue L) (bytes : ℕ)
      → side_answer q.io_read ≡ none
      → hq_desc_read lists size q bytes ≡ queue_read lists size q bytes
  unfolding hq_desc_read
  desc_read_open q bytes e = rw (hq_desc_read, e) refl

  desc_read_shut :
      (q : HqQueue L) (bytes : ℕ)
      → IsShut q.io_read
      → hq_desc_read lists size q bytes ≡ record {
        queue = record q { io_read = DescState.disabled };
        status = Status.success;
        count = 0;
        entry = none;
      }
  unfolding hq_desc_read IsShut
  desc_read_shut q bytes e = rw (hq_desc_read, e) refl

  queue_write-push :
      (q : HqQueue L) (now : ℕ) (input : List ℕ) (l' : L)
      → lists.memex_list_push q.list (record { buf = input; bytes = length input; tv = now })
        ≡ some l'
      → queue_write lists q true now input
        ≡ some (record {
          queue = record q { list = l' };
          status = Status.success;
          count = length input;
          entry = none;
        })
  unfolding queue_write
  queue_write-push q now input l' e = rw (queue_write, e) refl

  queue_read-pop :
      (q : HqQueue L) (more : ℕ) (r : Option HqEntry) (l' : L)
      → lists.memex_list_pop q.list ≡ some (r, l')
      → queue_read lists size q (size + more)
        ≡ give_entry lists (record q { list = l' }) size (size + more) r
  unfolding queue_read
  queue_read-pop q more r l' e = if-false (ltb (size + more) size) _ _ (ground arith) ∙ rw e refl

  run_push :
      (q : HqQueue L) (now : ℕ) (input : List ℕ) (calls : List HqCall) (r : HqReply L)
      (rest : List HqSeen)
      → hq_desc_write lists q true now input ≡ some r
      → run_hq r.queue calls ≡ some rest
      → run_hq q (push_call now input ∷ calls) ≡ some (hq_seen r ∷ rest)
  unfolding run_hq
  run_push q now input calls r rest e k = rw (run_hq, e, k) refl

  run_pop :
      (q : HqQueue L) (more : ℕ) (calls : List HqCall) (r : HqReply L) (rest : List HqSeen)
      → hq_desc_read lists size q (size + more) ≡ r
      → run_hq r.queue calls ≡ some rest
      → run_hq q (pop_call more ∷ calls) ≡ some (hq_seen r ∷ rest)
  unfolding run_hq
  run_pop q more calls r rest e k = rw (run_hq, e, k) refl

  module _ (type : HqType) (entries : L → List HqEntry) (keeps : Keeps lists type entries) where
    -- A handle queue over lists that keep what memex documents answers every sequence of writes
    -- that find memory, of reads into a buffer that can hold an entry, and of stops, made through
    -- its descriptor, as a fifo or a stack of entries does: it gives out each entry whole and once.
    -- Once it is stopped, writes succeed with no bytes; the first read that then finds it empty
    -- answers IO_COMPLETE and leaves `*bytes` at the size of the caller's buffer, and later reads
    -- succeed with no bytes.
    pub run_hq-run_entries :
        (calls : List HqCall) (q : HqQueue L) (p : Phase) (es : List HqEntry)
        → InPhase p q
        → entries q.list ≡ es
        → run_hq q calls ≡ some (run_entries type size p es calls)
    unfolding run_hq run_entries give_entry stop_queue insert_entry InPhase IsShut stopped_phase
    run_hq-run_entries [] q p es f k = refl
    run_hq-run_entries (push_call now input ∷ calls) q filling es f k =
        let e : HqEntry = record { buf = input; bytes = length input; tv = now } in
        let (l', pushed, kept) = keeps.push q.list e in
        run_push q now input calls _ _
          (desc_write_open q now input f.2 ∙ queue_write-push q now input l' pushed)
          (run_hq-run_entries calls (record q { list = l' }) filling (insert_entry type es e) f
            (kept ∙ ap (λ es. insert_entry type es e) k))
    run_hq-run_entries (push_call now input ∷ calls) q emptying es f k =
        run_push q now input calls _ _ (desc_write_shut q now input f.2) (
          run_hq-run_entries calls (record q { io_write = DescState.disabled }) emptying es
            (f.0, f.1, refl) k)
    run_hq-run_entries (push_call now input ∷ calls) q over es f k =
        run_push q now input calls _ _ (desc_write_shut q now input f.2) (
          run_hq-run_entries calls (record q { io_write = DescState.disabled }) over es
            (f.0, f.1, refl) k)
    run_hq-run_entries (pop_call more ∷ calls) q over es f k =
        run_pop q more calls _ _ (desc_read_shut q (size + more) f.1) (
          run_hq-run_entries calls (record q { io_read = DescState.disabled }) over es
            (f.0, refl, f.2) k)
    run_hq-run_entries (pop_call more ∷ calls) q filling (e ∷ es) f k =
        let (l', popped, kept) = keeps.pop_some q.list e es k in
        run_pop q more calls _ _
          (desc_read_open q (size + more) f.1 ∙ queue_read-pop q more (some e) l' popped)
          (run_hq-run_entries calls (record q { list = l' }) filling es f kept)
    run_hq-run_entries (pop_call more ∷ calls) q emptying (e ∷ es) f k =
        let (l', popped, kept) = keeps.pop_some q.list e es k in
        run_pop q more calls _ _
          (desc_read_open q (size + more) f.1 ∙ queue_read-pop q more (some e) l' popped)
          (run_hq-run_entries calls (record q { list = l' }) emptying es f kept)
    run_hq-run_entries (pop_call more ∷ calls) q emptying [] f k =
        let (l', popped, kept) = keeps.pop_none q.list k in
        let q' : HqQueue L = record q { list = l'; io_read = DescState.disabling } in
        run_pop q more calls _ _
          (desc_read_open q (size + more) f.1
            ∙ queue_read-pop q more none l' popped
            ∙ if-true q.flush _ _ f.0)
          (run_hq-run_entries calls q' over [] (f.0, refl, f.2) kept)
    run_hq-run_entries (pop_call more ∷ calls) q filling [] f k =
        let (l', popped, kept) = keeps.pop_none q.list k in
        run_pop q more calls _ _
          (desc_read_open q (size + more) f.1
            ∙ queue_read-pop q more none l' popped
            ∙ if-false q.flush _ _ f.0)
          (run_hq-run_entries calls (record q { list = l' }) filling [] f kept)
    run_hq-run_entries (stop_call ∷ calls) q filling es f k =
        run_hq-run_entries calls (stop_queue q) emptying es (refl, f.1, refl) k
    run_hq-run_entries (stop_call ∷ calls) q emptying es f k =
        run_hq-run_entries calls (stop_queue q) emptying es (refl, f.1, refl) k
    run_hq-run_entries (stop_call ∷ calls) q over es f k =
        run_hq-run_entries calls (stop_queue q) over es (refl, f.1, refl) k
