-- ===== src/Events/Facade.antt =====
-- The methods of `EventStore` (liandanlu_native/events.py). The ids that `new_id` makes and the times
-- that `now()` returns are arguments.
use codex_test.Prelude.{
  ℕ, ◌+◌, String, Option, none, some, List, [], ◌∷◌, ◌++◌, ltb, leb, length, select, if◌then◌else◌,
  Result, ok,
}
use codex_test.Prelude.Dict.{Dict, lookup, insert}
use codex_test.Models.{Event}
use codex_test.Storage.{Store}
use codex_test.Storage.Outbox.{
  Draft, enqueue_event_outbox, dispatch_event_outbox, read_events_after, ack_event_consumer,
  cursor_of,
}

-- An item of the outbox in memory: its id and what the caller said.
pub record EventStore : Type 0 where
  pub persistence : Option Store
  pub events : List Event
  pub outbox : List (String × Draft)
  pub cursors : Dict ℕ

abbrev enqueue_with : Option Store → Draft → String → ℕ → EventStore → String × EventStore
enqueue_with none d id at e = (id, record e { outbox = e.outbox ++ (id, d) ∷ [] })
enqueue_with (some s) d id at e =
    let r = enqueue_event_outbox d id at s in (r.0, record e { persistence = some r.1 })

unfoldable pub enqueue_outbox : Draft → String → ℕ → EventStore → String × EventStore
enqueue_outbox d id at e = enqueue_with e.persistence d id at e

abbrev pub event_of : Draft → ℕ → String → ℕ → Event
event_of d sequence id at = record {
  sequence = sequence;
  event_id = id;
  workspace_id = d.workspace_id;
  event_type = d.event_type;
  actor = d.actor;
  task_id = d.task_id;
  operation_id = d.operation_id;
  object_refs = d.object_refs;
  payload = d.payload;
  causation_id = d.causation_id;
  correlation_id = d.correlation_id;
  occurred_at = at;
  observed_at = at;
  learning_allowed = d.learning_allowed;
}

-- The loop of `flush_outbox` in memory: the emitted events and the log. `fresh` and `at` give the id
-- and the time of each event by its number.
unfoldable pub flush_pending :
    List (String × Draft) → (ℕ → String) → (ℕ → ℕ) → List Event → List Event × List Event
flush_pending [] fresh at log = ([], log)
flush_pending ((outbox_id, d) ∷ pending) fresh at log =
    let n = length log + 1 in
    let e = event_of d n (fresh n) (at n) in
    let rest = flush_pending pending fresh at (log ++ e ∷ []) in (e ∷ rest.0, rest.1)

abbrev flush_with : Option Store → (ℕ → String) → (ℕ → ℕ) → EventStore → List Event × EventStore
flush_with none fresh at e =
    let r = flush_pending e.outbox fresh at e.events in
    (r.0, record e { events = r.1; outbox = [] })
flush_with (some s) fresh at e =
    let r = dispatch_event_outbox 100 fresh at s in (r.0, record e { persistence = some r.1 })

unfoldable pub flush_outbox : (ℕ → String) → (ℕ → ℕ) → EventStore → List Event × EventStore
flush_outbox fresh at e = flush_with e.persistence fresh at e

abbrev read_with : Option Store → String → EventStore → List Event
read_with none consumer e =
    select (λ v. ltb (cursor_of (lookup consumer e.cursors)) v.sequence) e.events
read_with (some s) consumer e = read_events_after consumer s

unfoldable pub read_after : String → EventStore → List Event
read_after consumer e = read_with e.persistence consumer e

abbrev stored_ack : EventStore → Result (Unit {0}) × Store → Result (Unit {0}) × EventStore
stored_ack e (r, s) = (r, record e { persistence = some s })

-- Without a store a cursor may be set beyond the log.
abbrev ack_with : Option Store → String → ℕ → EventStore → Result (Unit {0}) × EventStore
ack_with none consumer sequence e =
    if leb (cursor_of (lookup consumer e.cursors)) sequence
    then (ok tt, record e { cursors = insert consumer sequence e.cursors })
    else (ok tt, e)
ack_with (some s) consumer sequence e = stored_ack e (ack_event_consumer consumer sequence s)

unfoldable pub ack : String → ℕ → EventStore → Result (Unit {0}) × EventStore
ack consumer sequence e = ack_with e.persistence consumer sequence e

abbrev all_with : Option Store → EventStore → List Event
all_with none e = e.events
all_with (some s) e = read_events_after "__audit_no_ack__" s

unfoldable pub all_events : EventStore → List Event
all_events e = all_with e.persistence e
