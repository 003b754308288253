-- ===== src/Memory/Store.antt =====
-- `MemoryStore` of liandanlu_native/memory.py, over the tables of a store or over dicts in memory. What
-- `new_id("mem")` returns is an argument. A record that is changed in place stands in `records` only.
use codex_test.Prelude.{
  ℕ, String, Bool, true, false, not, Option, none, some, List, [], ◌∷◌, ◌++◌, ◌==◌, ◌&&◌, ◌||◌, leb,
  ltb, contains, is_nil, if◌then◌else◌, Result, ok, err, value_error, key_error, ◌+◌,
}
use codex_test.Prelude.Dict.{Dict, lookup, insert}
use codex_test.Prelude.Int.{pos, negsuc}
use codex_test.Models.{Event}
use codex_test.Storage.{Store}
use codex_test.Storage.Memories.{
  process_memory_event, save_memory_record, load_memory_records, slot_of_candidate,
}
use codex_test.Memory.Records.{
  MemoryKind, fact, episode, strategy, StrategyState, promoted, supported, Float, millionths,
  not_finite, MemoryCandidate, MemoryRecord, Slot, slot_of, same_slot, memory_partition, new_record,
}

-- A dict under such keys.
unfoldable pub lookup_slot : Slot → List (Slot × String) → Option String
lookup_slot k [] = none
lookup_slot k ((j, id) ∷ d) = if same_slot j k then some id else lookup_slot k d

unfoldable pub insert_slot : Slot → String → List (Slot × String) → List (Slot × String)
insert_slot k id [] = (k, id) ∷ []
insert_slot k id ((j, old) ∷ d) =
    if same_slot j k then (j, id) ∷ d else (j, old) ∷ insert_slot k id d

pub record MemoryStore : Type 0 where
  pub persistence : Option Store
  pub records : Dict MemoryRecord
  pub latest_by_key : List (Slot × String)
  pub processed_event_ids : List String

-- `self.records.get(id) if id else None`
abbrev pub record_at : Option String → Dict MemoryRecord → Option MemoryRecord
record_at none d = none
record_at (some id) d = if id == "" then none else lookup id d

abbrev pub is_newer : MemoryRecord → Option MemoryRecord → Bool
is_newer r none = true
is_newer r (some p) = ltb p.revision r.revision

-- One round of `from_persistence`.
unfoldable pub load_record : MemoryRecord → MemoryStore → MemoryStore
load_record r m =
    let d = insert r.memory_id r m.records in
    if is_newer r (record_at (lookup_slot (slot_of r) m.latest_by_key) d)
    then record m {
      records = d;
      latest_by_key = insert_slot (slot_of r) r.memory_id m.latest_by_key;
    }
    else record m { records = d }

unfoldable pub load_all : List MemoryRecord → MemoryStore → MemoryStore
unfolding load_record
load_all [] m = m
load_all (r ∷ rs) m = load_all rs (load_record r m)

abbrev pub empty_memory : Option Store → MemoryStore
empty_memory s = record {
  persistence = s;
  records = [];
  latest_by_key = [];
  processed_event_ids = [];
}

unfoldable pub from_persistence : Store → MemoryStore
unfolding load_all
from_persistence s = load_all (load_memory_records s) (empty_memory (some s))

-- `0.0 <= confidence <= 1.0`
unfoldable pub in_unit : Float → Bool
in_unit (millionths (pos n)) = leb n 1_000_000
in_unit (millionths (negsuc n)) = false
in_unit not_finite = false

unfoldable pub validate : MemoryCandidate → Bool
unfolding in_unit
validate c =
    not (is_nil c.source_event_ids || c.workspace_id == "")
    && in_unit c.confidence
    && not (c.scope == "global" && not c.explicit_user_statement)

-- `candidate.workspace_id = partition`
abbrev pub partitioned : MemoryCandidate → MemoryCandidate
partitioned c = record c { workspace_id = memory_partition c.workspace_id c.scope }

-- `self.records[record.memory_id] = record` and its key.
unfoldable pub remember : MemoryRecord → MemoryStore → MemoryStore
remember r m = record m {
  records = insert r.memory_id r m.records;
  latest_by_key = insert_slot (slot_of r) r.memory_id m.latest_by_key;
}

abbrev pub commit_stored :
    Result (Option MemoryRecord) × Store → MemoryStore → Result (Option MemoryRecord) × MemoryStore
commit_stored (err x, s) m = (err x, record m { persistence = some s })
commit_stored (ok none, s) m = (ok none, record m { persistence = some s })
commit_stored (ok (some r), s) m = (ok (some r), remember r (record m { persistence = some s }))

abbrev pub commit_in_memory :
    MemoryCandidate → String → MemoryStore → Result (Option MemoryRecord) × MemoryStore
commit_in_memory c memory_id m =
    let previous = record_at (lookup_slot (slot_of_candidate c) m.latest_by_key) m.records in
    let r = new_record c previous memory_id in (ok (some r), remember r m)

abbrev pub commit_valid :
    Option Store
    → Option Event
    → MemoryCandidate
    → String
    → MemoryStore
    → Result (Option MemoryRecord) × MemoryStore
commit_valid (some s) (some e) c memory_id m =
    commit_stored (process_memory_event e (some c) memory_id s) m
commit_valid (some s) none c memory_id m = commit_in_memory c memory_id m
commit_valid none e c memory_id m = commit_in_memory c memory_id m

unfoldable pub commit :
    MemoryCandidate
    → Option Event
    → String
    → MemoryStore
    → Result (Option MemoryRecord) × MemoryStore
unfolding validate remember
commit c source memory_id m =
    if validate c
    then commit_valid m.persistence source (partitioned c) memory_id m
    else (ok none, m)

abbrev pub ignored :
    Result (Option MemoryRecord) × Store → MemoryStore → Result (Unit {0}) × MemoryStore
ignored (err x, s) m = (err x, record m { persistence = some s })
ignored (ok r, s) m = (ok tt, record m { persistence = some s })

-- `processed_event_ids.add(event_id)`
abbrev pub ignore_with : Option Store → Event → MemoryStore → Result (Unit {0}) × MemoryStore
ignore_with none e m = (
  ok tt,
  if contains e.event_id m.processed_event_ids
      then m
      else record m { processed_event_ids = e.event_id ∷ m.processed_event_ids },
)
ignore_with (some s) e m = ignored (process_memory_event e none "" s) m

unfoldable pub process_ignored_event : Event → MemoryStore → Result (Unit {0}) × MemoryStore
process_ignored_event e m = ignore_with m.persistence e m

-- The evidence that a record gains: `none` where the call raises.
abbrev pub supported_by : Option String → Bool → MemoryRecord → Option MemoryRecord
supported_by none confirmed r = if confirmed then some r else none
supported_by (some e) confirmed r =
    if contains e r.support_event_ids
    then some r
    else some (record r {
      support_event_ids = r.support_event_ids ++ e ∷ [];
      support_count = r.support_count + 1;
    })

abbrev pub strategy_state_after : Bool → ℕ → Option StrategyState → Option StrategyState
strategy_state_after confirmed count old =
    if confirmed || leb 3 count then some promoted else if leb 2 count then some supported else old

abbrev pub raised_state : Bool → MemoryRecord → MemoryRecord
raised_state confirmed r = record r {
  strategy_state = strategy_state_after confirmed r.support_count r.strategy_state;
}

abbrev pub keep_saved :
    MemoryRecord → Result (Unit {0}) × Store → MemoryStore → Result MemoryRecord × MemoryStore
keep_saved r (err x, s) m = (err x, record m { persistence = some s })
keep_saved r (ok u, s) m = (ok r, record m { persistence = some s })

abbrev pub save_support :
    Option Store → MemoryRecord → MemoryStore → Result MemoryRecord × MemoryStore
save_support none r m = (ok r, m)
save_support (some s) r m = keep_saved r (save_memory_record r s) m

abbrev pub support_with :
    Option MemoryRecord → Bool → String → MemoryStore → Result MemoryRecord × MemoryStore
support_with none confirmed memory_id m = (err value_error, m)
support_with (some r) confirmed memory_id m =
    let raised = raised_state confirmed r in
    save_support m.persistence raised (record m { records = insert memory_id raised m.records })

abbrev pub support_kind :
    MemoryKind
    → MemoryRecord
    → Option String
    → Bool
    → String
    → MemoryStore
    → Result MemoryRecord × MemoryStore
support_kind fact r evidence confirmed memory_id m = (err value_error, m)
support_kind episode r evidence confirmed memory_id m = (err value_error, m)
support_kind strategy r evidence confirmed memory_id m =
    support_with (supported_by evidence confirmed r) confirmed memory_id m

abbrev pub support_found :
    Option MemoryRecord
    → Option String
    → Bool
    → String
    → MemoryStore
    → Result MemoryRecord × MemoryStore
support_found none evidence confirmed memory_id m = (err key_error, m)
support_found (some r) evidence confirmed memory_id m =
    support_kind r.kind r evidence confirmed memory_id m

unfoldable pub add_strategy_support :
    String → Option String → Bool → MemoryStore → Result MemoryRecord × MemoryStore
add_strategy_support memory_id evidence confirmed m =
    support_found (lookup memory_id m.records) evidence confirmed memory_id m

unfoldable pub latest : Slot → MemoryStore → Option MemoryRecord
latest (workspace_id, scope, key, kind) m =
    record_at (lookup_slot (memory_partition workspace_id scope, scope, key, kind) m.latest_by_key)
      m.records
