-- ===== src/Models/States.antt =====
-- The enumerations of liandanlu_native/models.py, and the tests that the source makes on them.
use codex_test.Prelude.{Bool, true, false, decide, String, ◌≡◌, ◌↔◌, refl, arith}

pub data TaskState : Type 0 where
  created queued running waiting pausing paused cancelling blocked : TaskState
  completed failed cancelled : TaskState

pub data TaskPhase : Type 0 where
  observing thinking authorizing executing verifying replanning : TaskPhase

pub data OperationState : Type 0 where
  proposed authorized prepared running observed verifying verified : OperationState
  failed unknown reconciling blocked cancelled : OperationState

pub data RiskClass : Type 0 where
  read reversible mutating external destructive : RiskClass

-- `state.value`
pub task_state_value : TaskState → String
task_state_value created = "CREATED"
task_state_value queued = "QUEUED"
task_state_value TaskState.running = "RUNNING"
task_state_value waiting = "WAITING"
task_state_value pausing = "PAUSING"
task_state_value paused = "PAUSED"
task_state_value cancelling = "CANCELLING"
task_state_value TaskState.blocked = "BLOCKED"
task_state_value completed = "COMPLETED"
task_state_value TaskState.failed = "FAILED"
task_state_value TaskState.cancelled = "CANCELLED"

pub task_phase_value : TaskPhase → String
task_phase_value observing = "OBSERVING"
task_phase_value thinking = "THINKING"
task_phase_value authorizing = "AUTHORIZING"
task_phase_value executing = "EXECUTING"
task_phase_value TaskPhase.verifying = "VERIFYING"
task_phase_value replanning = "REPLANNING"

unfoldable pub TaskState-discrete : Discrete TaskState
TaskState-discrete = hlevel

unfoldable pub TaskPhase-discrete : Discrete TaskPhase
TaskPhase-discrete = hlevel

unfoldable pub RiskClass-discrete : Discrete RiskClass
RiskClass-discrete = hlevel

-- `state == other`
abbrev pub is_state : TaskState → TaskState → Bool
is_state a b = decide (TaskState-discrete a b)

abbrev pub is_phase : TaskPhase → TaskPhase → Bool
is_phase a b = decide (TaskPhase-discrete a b)

-- `state in {COMPLETED, FAILED, CANCELLED}`
unfoldable pub is_terminal : TaskState → Bool
is_terminal completed = true
is_terminal TaskState.failed = true
is_terminal TaskState.cancelled = true
is_terminal _ = false

decide_lem {ℓ} : {P : Type ℓ} (d : Dec P) → decide d ≡ true → P
unfolding decide
decide_lem (yes p) h = p
decide_lem (no n) h = ground (arith, h)

decide_yes {ℓ} : {P : Type ℓ} (d : Dec P) → P → decide d ≡ true
unfolding decide
decide_yes (yes p) h = refl
decide_yes (no n) h = ground (arith, n h)

pub is_state_lem : (a b : TaskState) → is_state a b ≡ true → a ≡ b
is_state_lem a b = decide_lem (TaskState-discrete a b)

pub is_state_refl : (a : TaskState) → is_state a a ≡ true
is_state_refl a = decide_yes (TaskState-discrete a a) refl

pub is_state_iff : (a b : TaskState) → (is_state a b ≡ true) ↔ (a ≡ b)
is_state_iff a b = (is_state_lem a b, decide_yes (TaskState-discrete a b))
