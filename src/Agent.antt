-- ===== src/Agent.antt =====
-- `NativeAgentRunner` of liandanlu_native/agent.py, on an engine. The task of a step is the one that the
-- engine keeps under its id. The language model is a parameter that proposes an action or raises; Python's
-- `str.lower`, the ids and the times are arguments.
pub mod Guards
pub mod Release
use codex_test.Prelude.{
  ℕ, String, Bool, true, false, not, ◌||◌, ◌&&◌, Option, none, some, List, [], ◌∷◌, ◌==◌, is_some,
  Error, Result, ok, err, Exec, pure, raise, ◌>>=◌, ◌>>◌, if◌then◌else◌, value_error, key_error,
  lease_lost, budget_operations, budget_deadline,
}
use codex_test.Prelude.Dict.{Dict, lookup, insert}
use codex_test.Prelude.Int.{ℤ}
use codex_test.Models.{
  ActionProposal, Task, TaskLease, Operation, ResourceLease, ResourceRequest, is_empty_request,
}
use codex_test.Models.States.{
  TaskState, TaskPhase, running, waiting, blocked, thinking, authorizing, executing, verifying,
  observing, replanning, OperationState, unknown, reconciling, verified,
}
use codex_test.Policy.{WorkspacePolicy, PolicyDecision, allow, deny, require_confirmation, evaluate}
use codex_test.Capabilities.{ActionSpec, resolve}
use codex_test.Context.{ContextManifest}
use codex_test.Tasks
use codex_test.Tasks.{wait, update_runtime_state, settle_control}
use codex_test.Operations
use codex_test.Operations.{Stamps, Clock, Order, prepare, execute}
use codex_test.Resources.Broker.{ResourceBroker, acquire, release}
use codex_test.Recovery.{wants_control}
use codex_test.Engine.{
  Engine, on_tasks, on_operations, operation_runtime, put_operation_runtime, on_broker, flush,
}

pub record NativeAgentRunner : Type 0 where
  pub model : ContextManifest → Result ActionProposal
  pub policies : Dict WorkspacePolicy
  pub require_task_lease : Option Bool
  pub resource_lease_seconds : ℤ
  pub lower : String → String

-- The ids and times of one step, by the call that uses them.
pub record Moments : Type 0 where
  pub waits : Tasks.Stamp
  pub settles : Tasks.Stamp
  pub starts : Tasks.Stamp
  pub authorizes : Tasks.Stamp
  pub decides : Tasks.Stamp
  pub acquires_at : ℕ
  pub operation_id : String
  pub prepares_at : Clock
  pub prepares : Operations.Stamp
  pub executes : Tasks.Stamp
  pub task_lease_at : ℕ
  pub resource_lease_at : ℕ
  pub carries_out : Stamps
  pub finishes : Tasks.Stamp
  pub fresh : ℕ → String
  pub at : ℕ → ℕ

abbrev pub done : Exec Engine (Unit {0})
done = pure tt

abbrev pub waits_for : Moments → String → String → String → Exec Engine (Unit {0})
waits_for k task_id reason event_type =
    on_tasks (wait task_id reason event_type k.waits) >>= λ t. done

abbrev pub updates :
    String
    → Option TaskState
    → Option TaskPhase
    → String
    → String
    → Tasks.Stamp
    → Exec Engine (Unit {0})
updates task_id state phase event_type actor stamp =
    on_tasks (update_runtime_state task_id state phase event_type actor stamp) >>= λ t. done

abbrev pub settles_now : Moments → String → Exec Engine (Unit {0})
settles_now k task_id = on_tasks (settle_control task_id true false k.settles) >>= λ t. done

-- What is recorded of the task for the state in which an operation ended.
abbrev pub after_execution : Moments → String → OperationState → Exec Engine (Unit {0})
after_execution k id unknown =
    updates id (some waiting) (some TaskPhase.verifying) "task.waiting_on_operation" "engine"
      k.finishes
after_execution k id OperationState.verifying =
    updates id (some waiting) (some TaskPhase.verifying) "task.waiting_on_operation" "engine"
      k.finishes
after_execution k id reconciling =
    updates id (some waiting) (some TaskPhase.verifying) "task.waiting_on_operation" "engine"
      k.finishes
after_execution k id OperationState.verified =
    updates id (some running) (some observing) "task.operation_verified" "engine" k.finishes
after_execution k id state =
    updates id (some running) (some replanning) "task.replanning" "engine" k.finishes

abbrev pub flushes : Moments → Exec Engine (Unit {0})
flushes k e = (ok tt, flush k.fresh k.at e)

abbrev pub finish : Moments → String → Operation → Exec Engine (Unit {0})
finish k id op = after_execution k id op.state >> (settles_now k id >> flushes k)

-- `except LeaseLost` around `execute`.
abbrev pub executed : Moments → String → Result Operation × Engine → Result (Unit {0}) × Engine
executed k id (err lease_lost, e) = waits_for k id "lease:lost" "task.execution_lease_lost" e
executed k id (err x, e) = (err x, e)
executed k id (ok op, e) = finish k id op e

abbrev pub executes_op : Moments → String → Operation → Exec Engine (Unit {0})
executes_op k id op e =
    executed k id (on_operations (execute op k.task_lease_at k.resource_lease_at k.carries_out) e)

-- `except BudgetExceeded` and `except LeaseLost` around `prepare`; the task that it charged is kept.
abbrev pub prepared_op :
    Moments → String → Result (Task × Operation) × Engine → Result (Unit {0}) × Engine
prepared_op k id (err budget_operations, e) =
    waits_for k id "budget:max_operations" "task.budget_exhausted" e
prepared_op k id (err budget_deadline, e) =
    waits_for k id "budget:deadline" "task.budget_exhausted" e
prepared_op k id (err lease_lost, e) = waits_for k id "lease:lost" "task.execution_lease_lost" e
prepared_op k id (err x, e) = (err x, e)
prepared_op k id (ok (t, op), e) =
    (updates id none (some executing) "task.executing" "engine" k.executes >> executes_op k id op)
      (record e { tasks = insert id t e.tasks })

-- The body of the `try` with the `finally`.
abbrev pub work : NativeAgentRunner → Moments → String → Order → Task → Exec Engine (Unit {0})
work a k id o t e =
    prepared_op k id (on_operations (prepare a.lower k.operation_id t o k.prepares_at k.prepares) e)

abbrev pub work_found :
    Option Task → NativeAgentRunner → Moments → String → Order → Exec Engine (Unit {0})
work_found none a k id o = raise key_error
work_found (some t) a k id o = work a k id o t

-- `prepare` reads the task as it is by then.
abbrev pub work_now : NativeAgentRunner → Moments → String → Order → Exec Engine (Unit {0})
work_now a k id o e = work_found (lookup id e.tasks) a k id o e

-- `finally: self.resources.release(resource_lease)`
abbrev pub release_from : Option ResourceBroker → ResourceLease → Engine → Engine
release_from none lease e = e
release_from (some b) lease e = (on_broker (release lease) b e).1

unfoldable pub finally_release : ResourceLease → Exec Engine (Unit {0}) → Exec Engine (Unit {0})
finally_release lease body e = let r = body e in (r.0, release_from r.1.broker lease r.1)

-- What is known of an action when it has been allowed.
pub record Action : Type 0 where
  pub proposal : ActionProposal
  pub spec : ActionSpec
  pub expected_revisions : Dict ℕ

abbrev pub order_of : Action → Option TaskLease → Option ResourceLease → Order
order_of x lease resource_lease = record {
  proposal = x.proposal;
  expected_revisions = x.expected_revisions;
  task_lease = lease;
  resource_lease = resource_lease;
}

abbrev pub with_acquired :
    NativeAgentRunner
    → Moments
    → String
    → Action
    → TaskLease
    → Result (Option ResourceLease) × Engine
    → Result (Unit {0}) × Engine
with_acquired a k id x lease (err y, e) = (err y, e)
with_acquired a k id x lease (ok none, e) =
    waits_for k id "resource:unavailable" "task.resource_wait" e
with_acquired a k id x lease (ok (some resource_lease), e) =
    finally_release resource_lease (work_now a k id (order_of x (some lease) (some resource_lease)))
      e

abbrev pub acquire_from :
    Option ResourceBroker
    → NativeAgentRunner
    → Moments
    → String
    → Action
    → TaskLease
    → Exec Engine (Unit {0})
acquire_from none a k id x lease e =
    waits_for k id "resource:broker_unavailable" "task.resource_wait" e
acquire_from (some b) a k id x lease e = with_acquired a k id x lease (
    on_broker
      (acquire id lease.owner_id x.spec.resource_request a.resource_lease_seconds k.acquires_at) b
      e)

abbrev pub with_resources :
    Option TaskLease → NativeAgentRunner → Moments → String → Action → Exec Engine (Unit {0})
with_resources none a k id x e =
    waits_for k id "resource:task_lease_required" "task.resource_wait" e
with_resources (some lease) a k id x e = acquire_from e.broker a k id x lease e

unfoldable pub act :
    NativeAgentRunner → Moments → String → Option TaskLease → Action → Exec Engine (Unit {0})
unfolding finally_release
act a k id lease x =
    if is_empty_request x.spec.resource_request
    then work_now a k id (order_of x lease none)
    else with_resources lease a k id x

-- What follows the decision of the policy.
abbrev pub decided :
    PolicyDecision
    → NativeAgentRunner
    → Moments
    → String
    → Option TaskLease
    → Action
    → Exec Engine (Unit {0})
decided deny a k id lease x =
    updates id (some TaskState.blocked) none "agent.action.blocked" "policy" k.decides
decided require_confirmation a k id lease x =
    updates id (some waiting) none "agent.action.confirmation_required" "policy" k.decides
decided allow a k id lease x = act a k id lease x

-- `{domain: manifest.world_revisions[domain] for domain in spec.revision_domains}`
unfoldable pub expected_of : Dict ℕ → List String → Dict ℕ → Result (Dict ℕ)
expected_of revisions [] d = ok d
expected_of revisions (domain ∷ domains) d = elim (lookup domain revisions) [
  | none ↦ err key_error
  | some n ↦ expected_of revisions domains (insert domain n d)
]

abbrev pub authorize :
    Result (Dict ℕ)
    → NativeAgentRunner
    → Moments
    → Task
    → Option TaskLease
    → ActionProposal
    → ActionSpec
    → Exec Engine (Unit {0})
authorize (err x) a k t lease p spec = raise x
authorize (ok expected) a k t lease p spec =
    updates t.task_id none (some authorizing) "task.authorizing" "engine" k.authorizes
    >> decided (evaluate a.policies t.workspace_id p.capability p.action spec.risk_class) a k
        t.task_id lease (record { proposal = p; spec = spec; expected_revisions = expected })

abbrev pub specified :
    Result ActionSpec
    → NativeAgentRunner
    → Moments
    → Task
    → ContextManifest
    → Option TaskLease
    → ActionProposal
    → Exec Engine (Unit {0})
specified (err x) a k t manifest lease p = raise x
specified (ok spec) a k t manifest lease p =
    authorize (expected_of manifest.world_revisions spec.revision_domains []) a k t lease p spec

abbrev pub proposed_by :
    Result ActionProposal
    → NativeAgentRunner
    → Moments
    → Task
    → ContextManifest
    → Option TaskLease
    → Exec Engine (Unit {0})
proposed_by (err x) a k t manifest lease e = (err x, e)
proposed_by (ok p) a k t manifest lease e =
    specified (resolve a.lower e.registry p) a k t manifest lease p e

abbrev pub think :
    NativeAgentRunner → Moments → Task → ContextManifest → Option TaskLease → Exec Engine (Unit {0})
think a k t manifest lease =
    updates t.task_id (some running) (some thinking) "task.agent_step_started" "engine" k.starts
    >> proposed_by (a.model manifest) a k t manifest lease

-- `task_lease is not None and task_lease.task_id != task.task_id`
abbrev pub is_foreign : Option TaskLease → Task → Bool
is_foreign none t = false
is_foreign (some lease) t = not (lease.task_id == t.task_id)

abbrev pub lease_required : Option Bool → Engine → Bool
lease_required none e = is_some e.world.persistence
lease_required (some b) e = b

abbrev pub step_found :
    NativeAgentRunner → Moments → Task → ContextManifest → Option TaskLease → Exec Engine (Unit {0})
step_found a k t manifest lease e =
    if not (manifest.workspace_id == t.workspace_id)
    then (err value_error, e)
    else if is_foreign lease t
    then (err lease_lost, e)
    else if lease_required a.require_task_lease e && not (is_some lease)
    then waits_for k t.task_id "lease:required" "task.execution_lease_required" e
    else if wants_control t.desired_state
    then settles_now k t.task_id e
    else think a k t manifest lease e

abbrev pub step_with :
    Option Task
    → NativeAgentRunner
    → Moments
    → ContextManifest
    → Option TaskLease
    → Exec Engine (Unit {0})
step_with none a k manifest lease = raise key_error
step_with (some t) a k manifest lease = step_found a k t manifest lease

unfoldable pub step :
    NativeAgentRunner
    → Moments
    → String
    → ContextManifest
    → Option TaskLease
    → Exec Engine (Unit {0})
unfolding act expected_of
step a k task_id manifest lease e = step_with (lookup task_id e.tasks) a k manifest lease e
