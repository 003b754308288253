-- ===== src/Tests/Intents.antt =====
-- Runs of liandanlu_native/control.py and liandanlu_native/brain.py.
use codex_test.Prelude.{refl, some}
use codex_test.Brain.{BrainSnapshot, FlyConsumerState, offline}
use codex_test.ControlIntents.{pause_task, resolve_intent}
use codex_test.ControlIntents.Choice.{OnlyTask, resolve_intent_lem}
use codex_test.Tests.Tasks.{with_task, busy_job}

abbrev snapshot : BrainSnapshot
snapshot = record {
  snapshot_id = "s";
  brain_version = "1";
  encoder_version = "1";
  processed_event_seq = 3;
  valid_until_seq = some 9;
}

abbrev consumer : FlyConsumerState
consumer = record {
  brain_version = "1";
  last_received_sequence = 4;
  last_processed_sequence = 2;
  last_checkpoint_sequence = 0;
  state = offline;
}

resolve_intent_lem_example : OnlyTask pause_task (with_task busy_job) "a"
unfolding resolve_intent
resolve_intent_lem_example = resolve_intent_lem pause_task (with_task busy_job) "a" refl
