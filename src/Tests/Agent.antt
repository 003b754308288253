-- ===== src/Tests/Agent.antt =====
-- Runs of liandanlu_native/agent.py and recovery.py on an engine with one task.
use codex_test.Prelude.{ℕ, ◌≡◌, String, ◌⊎◌, refl, false, none, some, [], ◌∷◌, ok, err, value_error}
use codex_test.Prelude.Dict.{lookup}
use codex_test.Prelude.Int.{pos}
use codex_test.Models.{Task, ResourceLease}
use codex_test.Models.States.{paused, running}
use codex_test.Policy.{default_policy}
use codex_test.Context.{ContextManifest}
use codex_test.Tasks
use codex_test.Tasks.{settle_control, touch_and_record, record_event, touch_world, settled_state}
use codex_test.Resources.Broker.{ResourceBroker}
use codex_test.Engine.{Engine}
use codex_test.Recovery
use codex_test.Recovery.{recover, recover_operations, settle_tasks, settle_one}
use codex_test.Recovery.Rounds.{StoppedAt}
use codex_test.Recovery.Returns.{recover_lem}
use codex_test.Operations.Recovery.{has_capability}
use codex_test.Tests.Operations.{open_note, notes}
use codex_test.Agent
use codex_test.Agent.{NativeAgentRunner, step, finally_release}
use codex_test.Agent.Release.{holds, finally_release-holds}
use codex_test.Agent.Guards.{Permitted, step-IsGuarded}
use codex_test.Tests.World.{house}
use codex_test.Tests.Tasks.{no_events, busy_job}
use codex_test.Tests.Rules.{registry, proposal, lower}

abbrev held : ResourceLease
held = record {
  task_id = "a";
  owner_id = "w";
  generation = 1;
  request = record { cpu_units = 1; memory_mb = 0; gpu_units = 0; exclusive_labels = [] };
  claimed_at = 1;
  lease_until = 9;
}

abbrev broker : ResourceBroker
broker = record {
  capacity = record { cpu_units = 4; memory_mb = 100; gpu_units = 1 };
  persistence = none;
  leases = ("a", held) ∷ [];
}

abbrev engine : Task → Engine
engine t = record {
  world = house;
  events = no_events;
  tasks = ("a", t) ∷ [];
  registry = registry;
  capabilities = ("notes", notes) ∷ [];
  operations = [];
  broker = some broker;
}

abbrev stamp : Tasks.Stamp
stamp = record { event_id = "evt"; at = 3 }

abbrev manifest : ContextManifest
manifest = record {
  manifest_id = "ctx";
  task_id = "a";
  workspace_id = "home";
  world_revisions = ("tasks", 0) ∷ [];
  focus_object_refs = [];
  referent_refs = [];
  fact_memory_refs = [];
  episode_memory_refs = [];
  strategy_memory_refs = [];
  recent_event_from = none;
  recent_event_to = none;
  brain_snapshot_ref = none;
  constraints = [];
  success_criteria = [];
  excluded = [];
}

abbrev runner : NativeAgentRunner
runner = record {
  model = λ m. ok proposal;
  policies = ("home", default_policy ("notes" ∷ [])) ∷ [];
  require_task_lease = none;
  resource_lease_seconds = pos 60;
  lower = lower;
}

abbrev moments : Agent.Moments
moments = record {
  waits = stamp;
  settles = stamp;
  starts = stamp;
  authorizes = stamp;
  decides = stamp;
  acquires_at = 3;
  operation_id = "op";
  prepares_at = record { task_lease_at = 3; resource_lease_at = 3; budget_at = 3 };
  prepares = record { event_id = "evt"; at = 3 };
  executes = stamp;
  task_lease_at = 3;
  resource_lease_at = 3;
  carries_out = record {
    first = record { event_id = "evt"; at = 3 };
    second = record { event_id = "evt"; at = 3 };
  };
  finishes = stamp;
  fresh = λ n. "evt";
  at = λ n. 3;
}

step-IsGuarded_example :
    ((step runner moments "a" manifest none (engine busy_job)).1.operations ≡ [])
    ⊎ Permitted runner "a" manifest none (engine busy_job)
step-IsGuarded_example = step-IsGuarded runner moments "a" manifest none (engine busy_job)

finally_release-holds_example :
    ((finally_release held (λ e. (err value_error, e)) (engine busy_job)).0 ≡ err value_error)
    × ((at : ℕ)
        → holds
            (finally_release held (λ e. (err value_error, e)) (engine busy_job)).1.broker
            held
            at
          ≡ false)
finally_release-holds_example =
    finally_release-holds held (λ e. (err value_error, e)) (engine busy_job)

abbrev stopping : Task
stopping = record busy_job { desired_state = paused }

abbrev restart : Recovery.Moments
restart = record {
  repr = λ x. "error";
  operation_stamps = λ id. record {
    first = record { event_id = "evt"; at = 3 };
    second = record { event_id = "evt"; at = 3 };
  };
  task_stamps = λ id. stamp;
  fresh = λ n. "evt";
  at = λ n. 3;
}

-- An operation was running when the engine stopped.
abbrev stopped_engine : Engine
stopped_engine =
    let e = engine stopping in
    record e { operations = ("op", record open_note { state = running }) ∷ [] }

recover_lem_example :
    ((p : ℕ × ℕ) × ((recover restart stopped_engine).0 ≡ ok p))
    × ((id : String) (t : Task)
        → lookup id stopped_engine.tasks ≡ some t
        → StoppedAt id (recover restart stopped_engine).1.tasks)
unfolding lookup
recover_lem_example =
    recover_lem restart stopped_engine (refl, tt) (λ h. has_capability notes refl, tt)
