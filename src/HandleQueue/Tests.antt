-- ===== src/HandleQueue/Tests.antt =====
-- Handle queues over plain lists of entries, and the theorem at one of them.
use bingewatch.Prelude.{◌≡◌, refl, ap, false, none, some, List, [], ◌∷◌, ◌++◌, Option}
use bingewatch.Status.{Status, DescState}
use bingewatch.HandleQueue.{HqEntry, hq_fifo, MemexLists, HqQueue}
use bingewatch.HandleQueue.Order.{
  filling, InPhase, insert_entry, Keeps, HqCall, push_call, pop_call, stop_call, run_entries,
  run_hq, run_hq-run_entries,
}

abbrev take_first : List HqEntry → Option (Option HqEntry × List HqEntry)
take_first [] = some (none, [])
take_first (e ∷ es) = some (some e, es)

abbrev plain_lists : MemexLists (List HqEntry)
plain_lists = record {
  memex_fifo_create = [];
  memex_stack_create = [];
  memex_list_push = λ l e. some (l ++ e ∷ []);
  memex_list_pop = take_first;
}

plain_lists-Keeps : Keeps plain_lists hq_fifo (λ l. l)
unfolding insert_entry
plain_lists-Keeps = record {
  push = λ l e. (l ++ e ∷ [], refl, refl);
  pop_none = λ l e. ([], ap take_first e, refl);
  pop_some = λ l e es k. (es, ap take_first k, refl);
}

abbrev queue : HqQueue (List HqEntry)
queue = record {
  list = [];
  flush = false;
  io_read = DescState.enabled;
  io_write = DescState.enabled;
}

abbrev calls : List HqCall
calls =
    push_call 1 (7 ∷ 8 ∷ [])
    ∷ push_call 2 (9 ∷ [])
    ∷ pop_call 10
    ∷ stop_call
    ∷ pop_call 0
    ∷ pop_call 10
    ∷ pop_call 10
    ∷ push_call 3 (6 ∷ [])
    ∷ []

queue-InPhase : InPhase filling queue
unfolding InPhase
queue-InPhase = (refl, refl, refl)

run_hq-run_entries_example :
    run_hq plain_lists 40 queue calls ≡ some (run_entries hq_fifo 40 filling [] calls)
run_hq-run_entries_example =
    run_hq-run_entries plain_lists 40 hq_fifo (λ l. l) plain_lists-Keeps calls queue filling []
      queue-InPhase refl

-- The entries come out in order; the read that finds the queue empty is told that its whole buffer
-- was filled, and what comes behind it moves no bytes.
answers :
    run_entries hq_fifo 40 filling [] calls
    ≡ (Status.success, 2, none)
      ∷ (Status.success, 1, none)
      ∷ (Status.success, 40, some (record { buf = 7 ∷ 8 ∷ []; bytes = 2; tv = 1 }))
      ∷ (Status.success, 40, some (record { buf = 9 ∷ []; bytes = 1; tv = 2 }))
      ∷ (Status.complete, 50, none)
      ∷ (Status.success, 0, none)
      ∷ (Status.success, 0, none)
      ∷ []
unfolding run_entries insert_entry
answers = refl
