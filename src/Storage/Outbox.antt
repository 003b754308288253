-- ===== src/Storage/Outbox.antt =====
-- liandanlu_native/storage.py: the outbox, the event log and the cursors of its consumers. The ids that
-- `new_id` makes and the times that `now()` returns are arguments. The key of a row is one more than
-- the last one that was given out, be it to an insertion that was ignored.
use codex_test.Prelude.{
  ℕ, zero, suc, ◌+◌, String, Bool, true, false, not, Option, none, some, List, [], ◌∷◌, ◌++◌, ◌==◌,
  ltb, nat_eq, select, some_of, take, map, if◌then◌else◌, Result, ok, err, value_error, max,
}
use codex_test.Prelude.Dict.{Dict, lookup, insert}
use codex_test.Prelude.Json.{Value}
use codex_test.Models.{Event}
use codex_test.Storage.Tables.{Store, OutboxRow}

-- What a caller says of an event.
pub record Draft : Type 0 where
  pub event_type : String
  pub actor : String
  pub workspace_id : String
  pub task_id : Option String
  pub operation_id : Option String
  pub object_refs : List String
  pub payload : Dict Value
  pub causation_id : Option String
  pub correlation_id : Option String
  pub learning_allowed : Bool

-- `_insert_outbox`: `event_id` is what `new_id("evt")` returns, and also the result.
unfoldable pub insert_outbox : Draft → String → ℕ → Store → String × Store
insert_outbox d event_id at s = (
  event_id,
  record s {
    event_outbox =
        s.event_outbox
        ++ record {
          outbox_id = s.last_outbox_id + 1;
          event_id = some event_id;
          workspace_id = d.workspace_id;
          event_type = d.event_type;
          actor = d.actor;
          task_id = d.task_id;
          operation_id = d.operation_id;
          object_refs = d.object_refs;
          payload = d.payload;
          causation_id = d.causation_id;
          correlation_id = d.correlation_id;
          occurred_at = at;
          learning_allowed = d.learning_allowed;
          dispatched = false;
        }
          ∷ [];
    last_outbox_id = s.last_outbox_id + 1;
  },
)

unfoldable pub enqueue_event_outbox : Draft → String → ℕ → Store → String × Store
unfolding insert_outbox
enqueue_event_outbox d event_id at s = insert_outbox d event_id at s

unfoldable pub pending_outbox : Store → List OutboxRow
pending_outbox s = select (λ r. not r.dispatched) s.event_outbox

-- `row["event_id"] or new_id("evt")`: an empty text counts as none.
abbrev pub id_or_new : Option String → String → String
id_or_new none fresh = fresh
id_or_new (some id) fresh = if id == "" then fresh else id

-- `row["occurred_at"] or observed_at`
abbrev pub time_or_now : ℕ → ℕ → ℕ
time_or_now zero at = at
time_or_now (suc n) at = suc n

-- The row of `events` that an outbox row becomes.
abbrev pub logged : OutboxRow → String → ℕ → ℕ → Event
logged r event_id sequence at = record {
  sequence = sequence;
  event_id = event_id;
  workspace_id = r.workspace_id;
  event_type = r.event_type;
  actor = r.actor;
  task_id = r.task_id;
  operation_id = r.operation_id;
  object_refs = r.object_refs;
  payload = r.payload;
  causation_id = r.causation_id;
  correlation_id = r.correlation_id;
  occurred_at = time_or_now r.occurred_at at;
  observed_at = at;
  learning_allowed = r.learning_allowed;
}

abbrev pub is_logged : String → List Event → Bool
is_logged id = some_of (λ e. e.event_id == id)

-- UPDATE event_outbox SET event_id=? and SET dispatched=1 WHERE outbox_id=?
abbrev pub set_dispatched : ℕ → String → List OutboxRow → List OutboxRow
set_dispatched key id = map λ r.
    if nat_eq r.outbox_id key
    then record r {
      event_id = (elim r.event_id [ none ↦ some id | some old ↦ some old ]);
      dispatched = true;
    }
    else r

-- SELECT * FROM events WHERE event_id=?
unfoldable pub find_event : String → List Event → Option Event
find_event id [] = none
find_event id (e ∷ es) = if e.event_id == id then some e else find_event id es

-- One round of the loop of `dispatch_event_outbox`, up to the reading back of the event.
unfoldable pub dispatch_row : OutboxRow → String → ℕ → Store → Store
dispatch_row r fresh at s =
    let id = id_or_new r.event_id fresh in
    let t = record s {
      event_outbox = set_dispatched r.outbox_id id s.event_outbox;
      last_sequence = s.last_sequence + 1;
    } in
    if is_logged id s.events
    then t
    else record t { events = s.events ++ logged r id (s.last_sequence + 1) at ∷ [] }

abbrev pub emit : Option Event → List Event → List Event
emit none rest = rest
emit (some e) rest = e ∷ rest

-- `fresh` and `at` give the id and the time of each round by the key of its row.
unfoldable pub dispatch_rows : List OutboxRow → (ℕ → String) → (ℕ → ℕ) → Store → List Event × Store
unfolding dispatch_row find_event
dispatch_rows [] fresh at s = ([], s)
dispatch_rows (r ∷ rows) fresh at s =
    let id = id_or_new r.event_id (fresh r.outbox_id) in
    let t = dispatch_row r (fresh r.outbox_id) (at r.outbox_id) s in
    let rest = dispatch_rows rows fresh at t in (emit (find_event id t.events) rest.0, rest.1)

unfoldable pub dispatch_event_outbox : ℕ → (ℕ → String) → (ℕ → ℕ) → Store → List Event × Store
unfolding dispatch_rows pending_outbox
dispatch_event_outbox limit fresh at s = dispatch_rows (take limit (pending_outbox s)) fresh at s

abbrev pub cursor_of : Option ℕ → ℕ
cursor_of none = 0
cursor_of (some n) = n

unfoldable pub read_events_after : String → Store → List Event
read_events_after consumer s =
    select (λ e. ltb (cursor_of (lookup consumer s.consumer_cursors)) e.sequence) s.events

-- `MAX(sequence) or 0`
abbrev pub max_sequence : List Event → ℕ
max_sequence [] = 0
max_sequence (e ∷ es) = max e.sequence (max_sequence es)

unfoldable pub ack_event_consumer : String → ℕ → Store → Result (Unit {0}) × Store
ack_event_consumer consumer sequence s =
    if ltb sequence (cursor_of (lookup consumer s.consumer_cursors))
    then (ok tt, s)
    else if ltb (max_sequence s.events) sequence
    then (err value_error, s)
    else (ok tt, record s { consumer_cursors = insert consumer sequence s.consumer_cursors })
