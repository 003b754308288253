-- ===== src/Tests/Events.antt =====
-- Runs of the event log of liandanlu_native/storage.py: one event waits for dispatch.
use codex_test.Prelude.{ℕ, ◌≡◌, String, true, none, some, [], arith}
use codex_test.Prelude.Dict.{lookup}
use codex_test.Storage.{Store, new_store}
use codex_test.Storage.Outbox.{
  Draft, enqueue_event_outbox, dispatch_event_outbox, pending_outbox, read_events_after,
  ack_event_consumer,
}
use codex_test.Events.Log.{IsLog, dispatch_event_outbox-IsLog}
use codex_test.Events.Delivery.{Acked, ack_event_consumer-Acked, dispatch-read_events_after}
use codex_test.Events.Outbox.{dispatch_event_outbox-pending_outbox}

abbrev draft : Draft
draft = record {
  event_type = "task.created";
  actor = "engine";
  workspace_id = "home";
  task_id = some "a";
  operation_id = none;
  object_refs = [];
  payload = [];
  causation_id = none;
  correlation_id = none;
  learning_allowed = true;
}

abbrev fresh : ℕ → String
fresh n = "evt"

abbrev clock : ℕ → ℕ
clock n = 7

abbrev waiting : Store
waiting = (enqueue_event_outbox draft "evt_1" 5 new_store).1

dispatch_event_outbox-IsLog_example : IsLog (dispatch_event_outbox 100 fresh clock waiting).1
unfolding enqueue_event_outbox IsLog
dispatch_event_outbox-IsLog_example =
    (dispatch_event_outbox-IsLog 100 fresh clock waiting (omega arith, tt)).1

ack_event_consumer-Acked_example : Acked "fly" 3 waiting (ack_event_consumer "fly" 3 waiting)
ack_event_consumer-Acked_example = ack_event_consumer-Acked "fly" 3 waiting

dispatch-read_events_after_example :
    (dispatch_event_outbox 100 fresh clock waiting).1.events
    ≡ read_events_after "fly" (dispatch_event_outbox 100 fresh clock waiting).1
unfolding enqueue_event_outbox IsLog lookup
dispatch-read_events_after_example =
    (dispatch-read_events_after "fly" 100 fresh clock waiting (omega arith, tt) (omega arith)
      (omega arith)).0

dispatch_event_outbox-pending_outbox_example :
    pending_outbox (dispatch_event_outbox 100 fresh clock waiting).1 ≡ []
unfolding enqueue_event_outbox pending_outbox
dispatch_event_outbox-pending_outbox_example =
    (dispatch_event_outbox-pending_outbox 100 fresh clock waiting (omega arith)).0
