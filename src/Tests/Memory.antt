-- ===== src/Tests/Memory.antt =====
-- Runs of the memory of liandanlu_native/memory.py: one event proposes a strategy.
use codex_test.Prelude.{◌≡◌, refl, true, none, some, [], ◌∷◌, ok}
use codex_test.Prelude.Dict.{lookup, insert}
use codex_test.Prelude.Json.{text, boolean}
use codex_test.Prelude.Int.{pos}
use codex_test.Models.{Event}
use codex_test.Storage.{Store, new_store}
use codex_test.Events.{read_after, ack}
use codex_test.Storage.Outbox.{read_events_after, ack_event_consumer}
use codex_test.Storage.Memories.{
  advance_consumer_in_transaction, process_memory_event, find_receipt, newest, insert_memory_record,
}
use codex_test.Memory.Records.{
  MemoryCandidate, MemoryRecord, strategy, millionths, candidate, promoted, new_record,
}
use codex_test.Memory.Store.{MemoryStore, empty_memory, add_strategy_support, remember, commit}
use codex_test.Memory.Pipeline.{Conversions, MemoryPipeline, take_event, run_once}
use codex_test.Memory.History.{IsHistory, Remembered, process_memory_event-Remembered}
use codex_test.Memory.Once.{deliver_all, process_memory_event_once}
use codex_test.Memory.Scope.{Guarded, take_event-Guarded}
use codex_test.Memory.Support.{Strengthened, add_strategy_support-Strengthened}

abbrev tip : Event
tip = record {
  sequence = 1;
  event_id = "evt_1";
  workspace_id = "home";
  event_type = "memory.candidate";
  actor = "user";
  task_id = none;
  operation_id = none;
  object_refs = [];
  payload =
      ("kind", text "STRATEGY")
      ∷ ("key", text "backup")
      ∷ ("scope", text "global")
      ∷ ("value", text "weekly")
      ∷ ("explicit_user_statement", boolean true)
      ∷ [];
  causation_id = none;
  correlation_id = none;
  occurred_at = 5;
  observed_at = 5;
  learning_allowed = true;
}

abbrev weekly : MemoryCandidate
weekly = record {
  workspace_id = "*";
  kind = strategy;
  key = "backup";
  value = text "weekly";
  scope = "global";
  source_event_ids = "evt_1" ∷ [];
  confidence = millionths (pos 1_000_000);
  explicit_user_statement = true;
}

empty-IsHistory : IsHistory new_store
empty-IsHistory = record { numbered = λ slot. tt }

process_memory_event-Remembered_example :
    Remembered tip
      (some weekly)
      new_store
      (process_memory_event tip (some weekly) "mem_1" new_store)
unfolding lookup
process_memory_event-Remembered_example =
    process_memory_event-Remembered tip (some weekly) "mem_1" new_store empty-IsHistory refl

abbrev kept : Store
kept = (process_memory_event tip (some weekly) "mem_1" new_store).1

abbrev record_1 : MemoryRecord
record_1 = record {
  memory_id = "mem_1";
  workspace_id = "*";
  kind = strategy;
  key = "backup";
  value = text "weekly";
  scope = "global";
  source_event_ids = "evt_1" ∷ [];
  confidence = millionths (pos 1_000_000);
  revision = 1;
  supersedes = none;
  strategy_state = some candidate;
  support_count = 1;
  support_event_ids = [];
}

process_memory_event_once_example :
    process_memory_event tip none "mem_9"
      (deliver_all (record { event = tip; proposed = some weekly; memory_id = "mem_2" } ∷ []) kept)
    ≡ (
      ok (some record_1),
      deliver_all (record { event = tip; proposed = some weekly; memory_id = "mem_2" } ∷ []) kept,
    )
unfolding find_receipt process_memory_event newest new_record lookup insert insert_memory_record
process_memory_event_once_example =
    process_memory_event_once tip (some weekly) "mem_1" new_store kept (some record_1)
      (record { event = tip; proposed = some weekly; memory_id = "mem_2" } ∷ []) none "mem_9" refl
      refl refl

abbrev conversions : Conversions
conversions = record { repr = λ v. "None"; to_float = λ v. ok (millionths (pos 0)) }

abbrev pipeline : MemoryPipeline
pipeline = record {
  events = record { persistence = some new_store; events = []; outbox = []; cursors = [] };
  memory = empty_memory (some new_store);
  consumer_id = "memory";
}

take_event-Guarded_example :
    Guarded tip new_store (take_event conversions tip "mem_1" pipeline).1.memory
unfolding lookup
take_event-Guarded_example =
    take_event-Guarded conversions tip "mem_1" new_store pipeline empty-IsHistory refl refl

-- A tip in the log becomes a record, and the cursor passes it.
abbrev logged : Store
logged = record new_store { events = tip ∷ []; last_sequence = 1 }

run_once_tip :
    (run_once conversions
      (λ n. "mem_1")
      100
      (record pipeline {
        events = record { persistence = some logged; events = []; outbox = []; cursors = [] };
        memory = empty_memory (some logged);
      })).0
    ≡ ok (record { scanned = 1; committed = 1; ignored = 0 })
unfolding run_once read_after read_events_after lookup commit process_memory_event find_receipt
    insert_memory_record ack ack_event_consumer advance_consumer_in_transaction insert
run_once_tip = refl

abbrev remembered : MemoryStore
remembered = remember record_1 (empty_memory none)

abbrev confirmed_1 : MemoryRecord
confirmed_1 = record record_1 {
  strategy_state = some promoted;
  support_count = 2;
  support_event_ids = "evt_2" ∷ [];
}

add_strategy_support-Strengthened_example :
    Strengthened
      (some "evt_2")
      true
      "mem_1"
      confirmed_1
      (record remembered { records = ("mem_1", confirmed_1) ∷ [] })
unfolding remember lookup insert add_strategy_support
add_strategy_support-Strengthened_example =
    add_strategy_support-Strengthened "mem_1" (some "evt_2") true record_1 confirmed_1 remembered
      (record remembered { records = ("mem_1", confirmed_1) ∷ [] }) refl
      (record { counted = refl; distinct = tt }) refl
