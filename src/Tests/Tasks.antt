-- ===== src/Tests/Tasks.antt =====
-- Runs of `TaskRuntime` (liandanlu_native/runtime.py) on one task, over an empty store.
use codex_test.Prelude.{
  ℕ, ◌+◌, ◌≡◌, ◌⊎◌, ◌↔◌, refl, true, false, Option, none, some, List, [], ◌∷◌, ok, arith, All,
  decide,
}
use codex_test.Prelude.Dict.{lookup, insert}
use codex_test.Prelude.Int.{pos}
use codex_test.Models.{Task, GoalClaim}
use codex_test.Models.Revisions.{bump, attribute}
use codex_test.Models.States.{TaskState, paused, completed, is_terminal, TaskState-discrete}
use codex_test.Storage.{Store, new_store}
use codex_test.Storage.Tasks.{load_tasks}
use codex_test.World.{new_world}
use codex_test.Events.{EventStore}
use codex_test.Tasks.{
  TaskRuntime, Stamp, control, settle_control, evaluate_goal, record_event, touch_world,
  touch_and_record, settled_state, control_task,
}
use codex_test.Tasks.Effects.{outbox_size}
use codex_test.Tasks.Calls.{queues, controls, settles}
use codex_test.Tasks.Audit.{Request, creates, calls, serve_all, serve_all-outbox_size}
use codex_test.Tasks.Stored.{IsStored, serve_all-load_tasks}
use codex_test.Tasks.Control.{pauses, cancels, IsStopping, control-settle_control, control-running}
use codex_test.Tasks.Goals.{Proven, evaluate_goal_iff}
use codex_test.Tests.Leases.{job}

abbrev pub no_events : EventStore
no_events = record { persistence = none; events = []; outbox = []; cursors = [] }

abbrev empty_runtime : TaskRuntime
empty_runtime = record { world = new_world (some new_store); events = no_events; tasks = [] }

abbrev pub with_task : Task → TaskRuntime
with_task t = record { world = new_world none; events = no_events; tasks = ("a", t) ∷ [] }

abbrev pub busy_job : Task
busy_job = record job { state = TaskState.running }

abbrev stamp : ℕ → Stamp
stamp n = record { event_id = "evt"; at = n }

abbrev requests : List (Request × Stamp)
requests =
    (creates "a" "tidy" ("tidied" ∷ []) "home" [] "background" (pos 50) none, stamp 1)
    ∷ (calls "a" (queues 2), stamp 2)
    ∷ (calls "b" (queues 2), stamp 3)
    ∷ (calls "a" (controls paused), stamp 4)
    ∷ (calls "a" (settles true false), stamp 5)
    ∷ []

serve_all-outbox_size_example :
    outbox_size (serve_all requests empty_runtime) + empty_runtime.world.revisions.tasks
    ≡ outbox_size empty_runtime + (serve_all requests empty_runtime).world.revisions.tasks
serve_all-outbox_size_example = serve_all-outbox_size requests empty_runtime refl

empty_runtime-IsStored : IsStored empty_runtime
empty_runtime-IsStored = record { named = tt; keyed = tt; table = λ s e. ground (arith, e) }

abbrev final_store : Option Store → Store
final_store none = new_store
final_store (some s) = s

abbrev served : TaskRuntime
served = serve_all requests empty_runtime

serve_all-load_tasks_example :
    lookup "a" (load_tasks (final_store served.world.persistence)) ≡ lookup "a" served.tasks
unfolding serve_all lookup record_event touch_world bump attribute insert is_terminal
    touch_and_record decide TaskState-discrete settled_state control_task
serve_all-load_tasks_example =
    serve_all-load_tasks requests empty_runtime (final_store served.world.persistence)
      empty_runtime-IsStored refl "a"

control-settle_control_example :
    (u : Task) × (lookup "a"
        (settle_control "a" true false
          (stamp 2)
          (control "a" paused (stamp 1) (with_task busy_job)).1).1.tasks
      ≡ some u)
    × (u.state ≡ paused)
    × (u.desired_state ≡ paused)
unfolding lookup is_terminal
control-settle_control_example =
    control-settle_control "a" paused false (stamp 1) (stamp 2) (with_task busy_job) busy_job refl
      refl refl pauses

control-running_example :
    (u : Task) × (lookup "a"
        (control "a" TaskState.cancelled (stamp 1) (with_task busy_job)).1.tasks
      ≡ some u)
    × IsStopping TaskState.cancelled u.state
    × (settle_control "a" false false
          (stamp 2)
          (control "a" TaskState.cancelled (stamp 1) (with_task busy_job)).1
        ≡ (ok u, (control "a" TaskState.cancelled (stamp 1) (with_task busy_job)).1))
unfolding lookup
control-running_example =
    control-running "a" TaskState.cancelled (stamp 1) (stamp 2) (with_task busy_job) busy_job refl
      refl refl cancels

abbrev proof : GoalClaim
proof = record { criterion = "tidied"; passed = true; evidence_refs = "photo" ∷ [] }

proof-Proven : Proven (("tidied", proof) ∷ []) "tidied"
unfolding lookup
proof-Proven = record {
  claim = proof;
  claimed = refl;
  passed = refl;
  evident = λ e. ground (arith, e);
}

evaluate_goal_iff_example :
    (u : Task) × ((evaluate_goal "a" (("tidied", proof) ∷ []) (stamp 1) (with_task busy_job)).0
      ≡ ok u)
    × (lookup "a"
          (evaluate_goal "a" (("tidied", proof) ∷ []) (stamp 1) (with_task busy_job)).1.tasks
        ≡ some u)
    × ((u.state ≡ completed) ⊎ (u.state ≡ TaskState.running))
    × ((u.state ≡ completed) ↔ All (Proven (("tidied", proof) ∷ [])) ("tidied" ∷ []))
unfolding lookup
evaluate_goal_iff_example =
    evaluate_goal_iff "a" (("tidied", proof) ∷ []) (stamp 1) (with_task busy_job) busy_job refl refl
