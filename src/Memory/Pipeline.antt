-- ===== src/Memory/Pipeline.antt =====
-- `MemoryPipeline` of liandanlu_native/memory.py: events that propose a memory become records. The
-- pipeline's events and its memory are over one store, or both over none. Python's `repr` of a value
-- that is no text, and `float(value)`, are arguments.
use codex_test.Prelude.{
  ℕ, ◌+◌, String, Bool, true, false, not, Option, none, some, List, [], ◌∷◌, ◌==◌, ◌&&◌, ◌||◌, take,
  if◌then◌else◌, Result, ok, err, value_error, key_error, type_error,
}
use codex_test.Prelude.Dict.{Dict, lookup}
use codex_test.Prelude.Int.{pos}
use codex_test.Prelude.Json.{Value, null, truthy, to_str}
use codex_test.Models.{Event}
use codex_test.Events.{EventStore, read_after, ack}
use codex_test.Memory.Records.{
  MemoryKind, fact, episode, strategy, Float, millionths, MemoryCandidate, MemoryRecord,
}
use codex_test.Memory.Store.{MemoryStore, commit, process_ignored_event}

-- `MemoryKind(value)`
abbrev pub kind_of : String → Option MemoryKind
kind_of s =
    if s == "FACT"
    then some fact
    else if s == "EPISODE"
    then some episode
    else if s == "STRATEGY"
    then some strategy
    else none

-- Python's `repr` and `float`.
pub record Conversions : Type 0 where
  pub repr : Value → String
  pub to_float : Value → Result Float

-- What stands in the `try`: `none` where an exception is caught.
pub record Parsed : Type 0 where
  pub kind : MemoryKind
  pub key : String
  pub scope : String
  pub confidence : Float

abbrev pub parsed_float : Result Float → MemoryKind → String → String → Result (Option Parsed)
parsed_float (ok f) k key scope =
    ok (some (record { kind = k; key = key; scope = scope; confidence = f }))
parsed_float (err value_error) k key scope = ok none
parsed_float (err type_error) k key scope = ok none
parsed_float (err key_error) k key scope = ok none
parsed_float (err x) k key scope = err x

-- `payload.get("confidence", 1.0)`
abbrev pub confidence_of : Conversions → Option Value → Result Float
confidence_of conv none = ok (millionths (pos 1_000_000))
confidence_of conv (some v) = conv.to_float v

abbrev pub parsed_kind :
    Conversions
    → Option MemoryKind
    → Option Value
    → Option Value
    → Dict Value
    → Result (Option Parsed)
parsed_kind conv (some k) (some key) (some scope) payload =
    parsed_float (confidence_of conv (lookup "confidence" payload)) k (to_str conv.repr key)
      (to_str conv.repr scope)
parsed_kind conv (some k) (some key) none payload = ok none
parsed_kind conv (some k) none scope payload = ok none
parsed_kind conv none key scope payload = ok none

abbrev pub kind_with : Conversions → Option Value → Option MemoryKind
kind_with conv none = none
kind_with conv (some v) = kind_of (to_str conv.repr v)

unfoldable pub parse_payload : Conversions → Dict Value → Result (Option Parsed)
parse_payload conv payload =
    parsed_kind conv (kind_with conv (lookup "kind" payload)) (lookup "key" payload)
      (lookup "scope" payload) payload

abbrev pub is_truthy : Option Value → Bool
is_truthy none = false
is_truthy (some v) = truthy v

abbrev pub value_or_null : Option Value → Value
value_or_null none = null
value_or_null (some v) = v

abbrev pub candidate_of : Event → Result (Option Parsed) → Result (Option MemoryCandidate)
candidate_of e (err x) = err x
candidate_of e (ok none) = ok none
candidate_of e (ok (some p)) =
    if p.key == "" || p.scope == ""
    then ok none
    else ok (
        some (record {
          workspace_id = e.workspace_id;
          kind = p.kind;
          key = p.key;
          value = value_or_null (lookup "value" e.payload);
          scope = p.scope;
          source_event_ids = e.event_id ∷ [];
          confidence = p.confidence;
          explicit_user_statement =
              is_truthy (lookup "explicit_user_statement" e.payload) && e.actor == "user";
        }))

unfoldable pub candidate_from_event : Conversions → Event → Result (Option MemoryCandidate)
unfolding parse_payload truthy
candidate_from_event conv e =
    if not (e.event_type == "memory.candidate") || not e.learning_allowed
    then ok none
    else candidate_of e (parse_payload conv e.payload)

pub record MemoryPipeline : Type 0 where
  pub events : EventStore
  pub memory : MemoryStore
  pub consumer_id : String

-- One store stands behind both parts: what the one has written the other sees.
abbrev pub put_memory : MemoryStore → MemoryPipeline → MemoryPipeline
put_memory m p = record p { memory = m; events = record p.events { persistence = m.persistence } }

abbrev pub put_events : EventStore → MemoryPipeline → MemoryPipeline
put_events v p = record p { events = v; memory = record p.memory { persistence = v.persistence } }

abbrev pub ignored_one :
    Result (Unit {0}) × MemoryStore → MemoryPipeline → Result Bool × MemoryPipeline
ignored_one (err x, m) p = (err x, put_memory m p)
ignored_one (ok u, m) p = (ok false, put_memory m p)

abbrev pub committed_one :
    Event
    → Result (Option MemoryRecord) × MemoryStore
    → MemoryPipeline
    → Result Bool × MemoryPipeline
committed_one e (err x, m) p = (err x, put_memory m p)
committed_one e (ok none, m) p = ignored_one (process_ignored_event e m) (put_memory m p)
committed_one e (ok (some r), m) p = (ok true, put_memory m p)

abbrev pub take_candidate :
    Event → Result (Option MemoryCandidate) → String → MemoryPipeline → Result Bool × MemoryPipeline
take_candidate e (err x) memory_id p = (err x, p)
take_candidate e (ok none) memory_id p = ignored_one (process_ignored_event e p.memory) p
take_candidate e (ok (some c)) memory_id p =
    committed_one e (commit c (some e) memory_id p.memory) p

-- One round of the loop up to the acknowledgement; the result says whether a record came of it.
unfoldable pub take_event :
    Conversions → Event → String → MemoryPipeline → Result Bool × MemoryPipeline
unfolding candidate_from_event
take_event conv e memory_id p = take_candidate e (candidate_from_event conv e) memory_id p

pub record Counts : Type 0 where
  pub scanned : ℕ
  pub committed : ℕ
  pub ignored : ℕ

abbrev pub count_one : Bool → Counts → Counts
count_one true n = record n { scanned = n.scanned + 1; committed = n.committed + 1 }
count_one false n = record n { scanned = n.scanned + 1; ignored = n.ignored + 1 }

-- `self.events.ack(self.consumer_id, event.sequence)`
abbrev pub acked :
    Result (Unit {0}) × EventStore → MemoryPipeline → Result (Unit {0}) × MemoryPipeline
acked (r, v) p = (r, put_events v p)

unfoldable pub ack_one : Event → MemoryPipeline → Result (Unit {0}) × MemoryPipeline
ack_one e p = acked (ack p.consumer_id e.sequence p.events) p

-- The loop; the ids of new records are given by the sequence number of their event.
unfoldable pub run_events :
    Conversions
    → (ℕ → String)
    → List Event
    → Counts
    → MemoryPipeline
    → Result Counts × MemoryPipeline
unfolding take_event ack_one
run_events conv fresh [] n p = (ok n, p)
run_events conv fresh (e ∷ es) n p =
    let t = take_event conv e (fresh e.sequence) p in
    elim t.0 [
      | err x ↦ (err x, t.1)
      | ok kept ↦
          let a = ack_one e t.1 in
          elim a.0 [ err x ↦ (err x, a.1) | ok u ↦ run_events conv fresh es (count_one kept n) a.1 ]
    ]

unfoldable pub run_once :
    Conversions → (ℕ → String) → ℕ → MemoryPipeline → Result Counts × MemoryPipeline
unfolding run_events
run_once conv fresh limit p =
    run_events conv fresh (take limit (read_after p.consumer_id p.events))
      (record { scanned = 0; committed = 0; ignored = 0 }) p
