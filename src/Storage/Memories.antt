-- ===== src/Storage/Memories.antt =====
-- liandanlu_native/storage.py: the records of the memory consumer, and the receipts by which it takes
-- each event once. Each method is one transaction, which an exception rolls back. What `new_id("mem")`
-- returns is an argument. Values and lists stand in the rows as they are; the source keeps their JSON.
use codex_test.Prelude.{
  ℕ, String, Bool, Option, none, some, List, [], ◌∷◌, ◌++◌, ◌==◌, ◌&&◌, ◌||◌, ltb, nat_eq, select,
  some_of, if◌then◌else◌, is_some, Result, ok, err, integrity_error,
}
use codex_test.Prelude.Dict.{lookup, insert, values}
use codex_test.Prelude.Texts.{text_lt}
use codex_test.Models.{Event}
use codex_test.Memory.Records.{
  MemoryCandidate, MemoryRecord, Slot, slot_of, same_slot, new_record, kind_value,
}
use codex_test.Storage.Tables.{Store, Receipt}

-- SELECT * FROM consumer_receipts WHERE consumer_id=? AND event_id=?
unfoldable pub find_receipt : String → String → List Receipt → Option Receipt
find_receipt consumer event_id [] = none
find_receipt consumer event_id (r ∷ rs) =
    if r.consumer_id == consumer && r.event_id == event_id
    then some r
    else find_receipt consumer event_id rs

-- INSERT OR IGNORE INTO consumer_receipts
unfoldable pub add_receipt : Receipt → List Receipt → List Receipt
unfolding find_receipt
add_receipt r rs = if is_some (find_receipt r.consumer_id r.event_id rs) then rs else rs ++ r ∷ []

-- The greater of a cursor and a sequence number; a consumer without a cursor gets the number.
abbrev pub advanced : Option ℕ → ℕ → ℕ
advanced none n = n
advanced (some old) n = if ltb old n then n else old

unfoldable pub advance_consumer_in_transaction :
    String → String → ℕ → String → Option String → Store → Store
unfolding add_receipt
advance_consumer_in_transaction consumer event_id sequence status result_ref s = record s {
  consumer_receipts =
      add_receipt
        (record {
          consumer_id = consumer;
          event_id = event_id;
          sequence = sequence;
          status = status;
          result_ref = result_ref;
        })
        s.consumer_receipts;
  consumer_cursors =
      insert consumer (advanced (lookup consumer s.consumer_cursors) sequence) s.consumer_cursors;
}

-- WHERE workspace_id=? AND scope=? AND key=? AND kind=?
abbrev pub in_slot : Slot → MemoryRecord → Bool
in_slot slot r = same_slot (slot_of r) slot

abbrev pub rows_of : Slot → Store → List MemoryRecord
rows_of slot s = select (in_slot slot) (values s.memory_records)

-- ORDER BY revision DESC LIMIT 1
abbrev pub newer : MemoryRecord → Option MemoryRecord → Option MemoryRecord
newer r none = some r
newer r (some p) = if ltb r.revision p.revision then some p else some r

unfoldable pub newest : List MemoryRecord → Option MemoryRecord
newest [] = none
newest (r ∷ rs) = newer r (newest rs)

-- UNIQUE(workspace_id, scope, key, kind, revision)
abbrev pub takes_revision : MemoryRecord → MemoryRecord → Bool
takes_revision r q = same_slot (slot_of q) (slot_of r) && nat_eq q.revision r.revision

-- INSERT INTO memory_records
unfoldable pub insert_memory_record : MemoryRecord → Store → Result Store
insert_memory_record r s =
    if is_some (lookup r.memory_id s.memory_records)
      || some_of (takes_revision r) (values s.memory_records)
    then err integrity_error
    else ok (record s { memory_records = insert r.memory_id r s.memory_records })

abbrev pub slot_of_candidate : MemoryCandidate → Slot
slot_of_candidate c = (c.workspace_id, c.scope, c.key, c.kind)

-- `if receipt["result_ref"]`: an empty text counts as none.
abbrev pub result_of : Option String → Store → Option MemoryRecord
result_of none s = none
result_of (some id) s = if id == "" then none else lookup id s.memory_records

abbrev pub committed :
    Event → MemoryRecord → Result Store → Store → Result (Option MemoryRecord) × Store
committed e r (err x) s = (err x, s)
committed e r (ok t) s = (
  ok (some r),
  advance_consumer_in_transaction "memory" e.event_id e.sequence "committed" (some r.memory_id) t,
)

abbrev pub process_new :
    Event → Option MemoryCandidate → String → Store → Result (Option MemoryRecord) × Store
process_new e none memory_id s =
    (ok none, advance_consumer_in_transaction "memory" e.event_id e.sequence "ignored" none s)
process_new e (some c) memory_id s =
    let r = new_record c (newest (rows_of (slot_of_candidate c) s)) memory_id in
    committed e r (insert_memory_record r s) s

abbrev pub process_receipt :
    Option Receipt
    → Event
    → Option MemoryCandidate
    → String
    → Store
    → Result (Option MemoryRecord) × Store
process_receipt (some receipt) e c memory_id s = (ok (result_of receipt.result_ref s), s)
process_receipt none e c memory_id s = process_new e c memory_id s

unfoldable pub process_memory_event :
    Event → Option MemoryCandidate → String → Store → Result (Option MemoryRecord) × Store
process_memory_event e c memory_id s =
    process_receipt (find_receipt "memory" e.event_id s.consumer_receipts) e c memory_id s

-- ON CONFLICT(memory_id) DO UPDATE
abbrev pub updated_record : MemoryRecord → MemoryRecord → MemoryRecord
updated_record r old = record old {
  value = r.value;
  confidence = r.confidence;
  strategy_state = r.strategy_state;
  support_count = r.support_count;
  support_event_ids = r.support_event_ids;
}

abbrev pub saved : Result Store → Store → Result (Unit {0}) × Store
saved (err x) s = (err x, s)
saved (ok t) s = (ok tt, t)

abbrev pub save_with : Option MemoryRecord → MemoryRecord → Store → Result (Unit {0}) × Store
save_with none r s = saved (insert_memory_record r s) s
save_with (some old) r s = (
  ok tt,
  record s { memory_records = insert r.memory_id (updated_record r old) s.memory_records },
)

unfoldable pub save_memory_record : MemoryRecord → Store → Result (Unit {0}) × Store
save_memory_record r s = save_with (lookup r.memory_id s.memory_records) r s

-- ORDER BY scope,key,kind,revision
unfoldable pub row_before : MemoryRecord → MemoryRecord → Bool
row_before a b =
    text_lt a.scope b.scope
    || (a.scope == b.scope
        && (text_lt a.key b.key
            || (a.key == b.key
                && (text_lt (kind_value a.kind) (kind_value b.kind)
                    || (kind_value a.kind == kind_value b.kind && ltb a.revision b.revision)))))

unfoldable pub place : MemoryRecord → List MemoryRecord → List MemoryRecord
unfolding row_before
place r [] = r ∷ []
place r (q ∷ qs) = if row_before q r then q ∷ place r qs else r ∷ q ∷ qs

unfoldable pub sort_rows : List MemoryRecord → List MemoryRecord
unfolding place
sort_rows [] = []
sort_rows (r ∷ rs) = place r (sort_rows rs)

unfoldable pub load_memory_records : Store → List MemoryRecord
unfolding sort_rows
load_memory_records s = sort_rows (values s.memory_records)
