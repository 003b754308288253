-- ===== src/Agent/Guards.antt =====
-- When a step of liandanlu_native/agent.py may touch the operations.
use codex_test.Prelude.{
  ℕ, ◌≡◌, ◌≢◌, refl, sym, ap, ◌∙◌, subst, String, true, false, not, ◌&&◌, Option, none, some, [],
  arith, eq_iff, inl, inr, ◌⊎◌, ◌==◌, is_some, Bool-cases, Result-cases, Result, ok, err, Exec,
  ◌>>=◌, ◌>>◌,
}
use codex_test.Prelude.Dict.{Dict, lookup}
use codex_test.Models.States.{TaskState, TaskPhase, waiting, authorizing, running, thinking}
use codex_test.Models.{ActionProposal, Task, TaskLease}
use codex_test.Policy.{PolicyDecision, allow, deny, require_confirmation, evaluate}
use codex_test.Capabilities.{ActionSpec, resolve}
use codex_test.Context.{ContextManifest}
use codex_test.Tasks.{TaskRuntime, Stamp, update_runtime_state, wait, settle_control}
use codex_test.Recovery.{wants_control}
use codex_test.Engine.{Engine, task_runtime, put_task_runtime, on_tasks}
use codex_test.Agent.{
  NativeAgentRunner, Moments, step, step_with, step_found, think, proposed_by, specified, authorize,
  decided, Action, expected_of, is_foreign, lease_required, updates, done,
}

-- What has to hold for a step to touch an operation.
pub record Permitted (a : NativeAgentRunner) (id : String) (manifest : ContextManifest)
    (lease : Option TaskLease) (e : Engine) : Type 0 where
  pub task : Task
  pub found : lookup id e.tasks ≡ some task
  pub workspace : manifest.workspace_id ≡ task.workspace_id
  pub own : is_foreign lease task ≡ false
  pub leased : lease_required a.require_task_lease e ≡ true → is_some lease ≡ true
  pub going : wants_control task.desired_state ≡ false
  pub proposal : ActionProposal
  pub proposed : a.model manifest ≡ ok proposal
  pub spec : ActionSpec
  pub resolved : resolve a.lower e.registry proposal ≡ ok spec
  pub allowed :
      evaluate a.policies task.workspace_id proposal.capability proposal.action spec.risk_class
      ≡ allow

-- A call of the task runtime leaves operations and registry.
on_tasks_leaves :
    (m : Exec TaskRuntime Task) (e : Engine)
    → (((on_tasks m >>= λ t. done) e).1.operations ≡ e.operations)
      × (((on_tasks m >>= λ t. done) e).1.registry ≡ e.registry)
on_tasks_leaves m e = elim (Result-cases (m (task_runtime e)).0) [
  | inl (x, h) ↦ ground (arith, h)
  | inr (t, h) ↦ ground (arith, h)
]

after_tasks_ok :
    (m : Exec TaskRuntime Task) (next : Exec Engine (Unit {0})) (e : Engine) (t : Task)
    → (m (task_runtime e)).0 ≡ ok t
    → ((on_tasks m >>= λ t. done) >> next) e ≡ next (put_task_runtime (m (task_runtime e)).1 e)
after_tasks_ok m next e t k =
    ap
      (λ (v : Result Task). ((on_tasks (λ _. (v, (m (task_runtime e)).1)) >>= λ t. done) >> next) e)
      k

after_tasks :
    (Q : Type 0) (m : Exec TaskRuntime Task) (next : Exec Engine (Unit {0})) (e : Engine)
    → ((u : Engine)
        → u.operations ≡ e.operations
        → u.registry ≡ e.registry
        → ((next u).1.operations ≡ e.operations) ⊎ Q)
    → ((((on_tasks m >>= λ t. done) >> next) e).1.operations ≡ e.operations) ⊎ Q
after_tasks Q m next e h = elim (Result-cases (m (task_runtime e)).0) [
  | inl (x, k) ↦ inl (ground (arith, k))
  | inr (t, k) ↦
      subst (λ v. (v.1.operations ≡ e.operations) ⊎ Q) (sym (after_tasks_ok m next e t k))
        (h (put_task_runtime (m (task_runtime e)).1 e) refl refl)
]

-- Nothing but a `Permitted` step touches the operations.
abbrev IsGuarded :
    NativeAgentRunner → String → ContextManifest → Option TaskLease → Engine → Engine → Type 0
IsGuarded a id manifest lease e u = (u.operations ≡ e.operations) ⊎ Permitted a id manifest lease e

updates_leaves :
    (id : String) (state : Option TaskState) (phase : Option TaskPhase) (event_type actor : String)
    (stamp : Stamp) (e : Engine)
    → (updates id state phase event_type actor stamp e).1.operations ≡ e.operations
updates_leaves id state phase event_type actor stamp e =
    (on_tasks_leaves (update_runtime_state id state phase event_type actor stamp) e).0

updates_then :
    (id : String) (state : Option TaskState) (phase : Option TaskPhase) (event_type actor : String)
    (stamp : Stamp) (Q : Type 0) (next : Exec Engine (Unit {0})) (e : Engine)
    → ((u : Engine)
        → u.operations ≡ e.operations
        → u.registry ≡ e.registry
        → ((next u).1.operations ≡ e.operations) ⊎ Q)
    → (((updates id state phase event_type actor stamp >> next) e).1.operations ≡ e.operations) ⊎ Q
updates_then id state phase event_type actor stamp Q next e h =
    after_tasks Q (update_runtime_state id state phase event_type actor stamp) next e h

decided_leaves :
    (d : PolicyDecision) (a : NativeAgentRunner) (k : Moments) (id : String)
    (lease : Option TaskLease) (x : Action) (e : Engine)
    → d ≢ allow
    → (decided d a k id lease x e).1.operations ≡ e.operations
decided_leaves deny a k id lease x e h =
    updates_leaves id (some TaskState.blocked) none "agent.action.blocked" "policy" k.decides e
decided_leaves require_confirmation a k id lease x e h =
    updates_leaves id (some waiting) none "agent.action.confirmation_required" "policy" k.decides e
decided_leaves allow a k id lease x e h = absurd (h refl)

allow-cases : (d : PolicyDecision) → (d ≡ allow) ⊎ (d ≢ allow)
allow-cases allow = inl refl
allow-cases deny = inr (λ h. cc)
allow-cases require_confirmation = inr (λ h. cc)

module _ (a : NativeAgentRunner) (k : Moments) (id : String) (manifest : ContextManifest)
    (lease : Option TaskLease) (e : Engine) (t : Task) (u : Engine)
    (same : u.operations ≡ e.operations) (reg : u.registry ≡ e.registry)
    (permit : (p : ActionProposal) (spec : ActionSpec)
      → a.model manifest ≡ ok p
      → resolve a.lower e.registry p ≡ ok spec
      → evaluate a.policies t.workspace_id p.capability p.action spec.risk_class ≡ allow
      → Permitted a id manifest lease e) where
  authorize-IsGuarded :
      (p : ActionProposal) (spec : ActionSpec) (expected : Result (Dict ℕ))
      → a.model manifest ≡ ok p
      → resolve a.lower e.registry p ≡ ok spec
      → IsGuarded a id manifest lease e (authorize expected a k t lease p spec u).1
  authorize-IsGuarded p spec (err x) hp hs = inl same
  authorize-IsGuarded p spec (ok expected) hp hs =
      elim (allow-cases
        (evaluate a.policies t.workspace_id p.capability p.action spec.risk_class)) [
          | inl allows ↦ inr (permit p spec hp hs allows)
          | inr other ↦
              let x : Action = record {
                proposal = p;
                spec = spec;
                expected_revisions = expected;
              } in
              let d = evaluate a.policies t.workspace_id p.capability p.action spec.risk_class in
              subst
                (λ o.
                  ((authorize (ok expected) a k t lease p spec u).1.operations ≡ o)
                  ⊎ Permitted a id manifest lease e)
                same
                (updates_then t.task_id none (some authorizing) "task.authorizing" "engine"
                  k.authorizes (Permitted a id manifest lease e) (decided d a k t.task_id lease x) u
                  (λ v s r. inl (decided_leaves d a k t.task_id lease x v other ∙ s)))
        ]

  specified-IsGuarded :
      (p : ActionProposal) (r : Result ActionSpec)
      → a.model manifest ≡ ok p
      → resolve a.lower e.registry p ≡ r
      → IsGuarded a id manifest lease e (specified r a k t manifest lease p u).1
  specified-IsGuarded p (err x) hp hs = inl same
  specified-IsGuarded p (ok spec) hp hs =
      authorize-IsGuarded p spec (expected_of manifest.world_revisions spec.revision_domains []) hp
        hs

  proposed_by-IsGuarded :
      (r : Result ActionProposal)
      → a.model manifest ≡ r
      → IsGuarded a id manifest lease e (proposed_by r a k t manifest lease u).1
  proposed_by-IsGuarded (err x) hp = inl same
  proposed_by-IsGuarded (ok p) hp =
      specified-IsGuarded p (resolve a.lower u.registry p) hp
        (sym (ap (λ r. resolve a.lower r p) reg))

think-IsGuarded :
    (a : NativeAgentRunner) (k : Moments) (id : String) (manifest : ContextManifest)
    (lease : Option TaskLease) (e : Engine) (t : Task)
    → ((p : ActionProposal) (spec : ActionSpec)
        → a.model manifest ≡ ok p
        → resolve a.lower e.registry p ≡ ok spec
        → evaluate a.policies t.workspace_id p.capability p.action spec.risk_class ≡ allow
        → Permitted a id manifest lease e)
    → IsGuarded a id manifest lease e (think a k t manifest lease e).1
think-IsGuarded a k id manifest lease e t permit =
    updates_then t.task_id (some running) (some thinking) "task.agent_step_started" "engine"
      k.starts (Permitted a id manifest lease e)
      (proposed_by (a.model manifest) a k t manifest lease) e
      (λ u s r.
        proposed_by-IsGuarded a k id manifest lease e t u s r permit (a.model manifest) refl)

step_found-IsGuarded :
    (a : NativeAgentRunner) (k : Moments) (id : String) (manifest : ContextManifest)
    (lease : Option TaskLease) (e : Engine) (t : Task)
    → lookup id e.tasks ≡ some t
    → IsGuarded a id manifest lease e (step_found a k t manifest lease e).1
step_found-IsGuarded a k id manifest lease e t h =
    elim (Bool-cases (manifest.workspace_id == t.workspace_id)) [
      | inr other ↦ rw other (inl refl)
      | inl same ↦ elim (Bool-cases (is_foreign lease t)) [
        | inl foreign ↦ rw (same, foreign) (inl refl)
        | inr own ↦
            elim (Bool-cases (lease_required a.require_task_lease e && not (is_some lease))) [
              | inl lacking ↦
                  rw (same, own, lacking)
                    (inl
                      (on_tasks_leaves
                        (wait t.task_id "lease:required" "task.execution_lease_required" k.waits)
                        e).0)
              | inr leased ↦ elim (Bool-cases (wants_control t.desired_state)) [
                | inl controlled ↦
                    rw (same, own, leased, controlled)
                      (inl (on_tasks_leaves (settle_control t.task_id true false k.settles) e).0)
                | inr going ↦
                    rw (same, own, leased, going)
                      (think-IsGuarded a k id manifest lease e t (λ p spec hp hs allows. record {
                        task = t;
                        found = h;
                        workspace = (eq_iff manifest.workspace_id t.workspace_id).0 same;
                        own = own;
                        leased = λ needed. ground (arith, leased, needed);
                        going = going;
                        proposal = p;
                        proposed = hp;
                        spec = spec;
                        resolved = hs;
                        allowed = allows;
                      }))
              ]
            ]
      ]
    ]

step_with-IsGuarded :
    (a : NativeAgentRunner) (k : Moments) (id : String) (manifest : ContextManifest)
    (lease : Option TaskLease) (e : Engine) (o : Option Task)
    → lookup id e.tasks ≡ o
    → IsGuarded a id manifest lease e (step_with o a k manifest lease e).1
step_with-IsGuarded a k id manifest lease e none h = inl refl
step_with-IsGuarded a k id manifest lease e (some t) h =
    step_found-IsGuarded a k id manifest lease e t h

-- A step of the agent leaves the operations as they are, unless the task is there, the manifest is of its
-- workspace, the lease is of this task and there where one is required, the task is neither to be paused
-- nor to be cancelled, and the model proposed an action that the registry has and the policy allows at once.
pub step-IsGuarded :
    (a : NativeAgentRunner) (k : Moments) (id : String) (manifest : ContextManifest)
    (lease : Option TaskLease) (e : Engine)
    → ((step a k id manifest lease e).1.operations ≡ e.operations) ⊎ Permitted a id manifest lease e
unfolding step
step-IsGuarded a k id manifest lease e =
    step_with-IsGuarded a k id manifest lease e (lookup id e.tasks) refl
