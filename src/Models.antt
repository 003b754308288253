-- ===== src/Models.antt =====
-- liandanlu_native/models.py: the enumerations and records that the other parts share. Times are
-- ticks of the clock since the epoch; ids are texts, and what `new_id` and `now` return are arguments
-- of the calls that use them.
pub mod States
pub mod Revisions
pub mod Budget
use codex_test.Prelude.{
  ℕ, String, Bool, true, false, Option, none, List, [], ◌∷◌, ◌&&◌, ◌||◌, ltb, nat_eq, if◌then◌else◌,
  Result, ok, err, value_error,
}
use codex_test.Prelude.Dict.{Dict}
use codex_test.Prelude.Int.{ℤ, pos, negsuc, pos_part}
use codex_test.Prelude.Json.{Value}
use States.{TaskState, TaskPhase, OperationState, RiskClass}
use Budget.{TaskBudget}

pub record TaskLease : Type 0 where
  pub task_id : String
  pub owner_id : String
  pub generation : ℕ
  pub claimed_at : ℕ
  pub lease_until : ℕ

pub record ResourceRequest : Type 0 where
  pub cpu_units : ℕ
  pub memory_mb : ℕ
  pub gpu_units : ℕ
  pub exclusive_labels : List String

pub record ResourceCapacity : Type 0 where
  pub cpu_units : ℕ
  pub memory_mb : ℕ
  pub gpu_units : ℕ

pub record ResourceLease : Type 0 where
  pub task_id : String
  pub owner_id : String
  pub generation : ℕ
  pub request : ResourceRequest
  pub claimed_at : ℕ
  pub lease_until : ℕ

abbrev negative : ℤ → Bool
negative (pos n) = false
negative (negsuc n) = true

-- `ResourceRequest(cpu_units, memory_mb, gpu_units, exclusive_labels)` with its `__post_init__`: the
-- constructor raises on a negative number, so the fields of a request are never negative.
unfoldable pub make_request : ℤ → ℤ → ℤ → List String → Result ResourceRequest
make_request cpu memory gpu labels =
    if negative cpu || negative memory || negative gpu
    then err value_error
    else ok (record {
      cpu_units = pos_part cpu;
      memory_mb = pos_part memory;
      gpu_units = pos_part gpu;
      exclusive_labels = labels;
    })

unfoldable pub make_capacity : ℤ → ℤ → ℤ → Result ResourceCapacity
make_capacity cpu memory gpu =
    if negative cpu || negative memory || negative gpu
    then err value_error
    else ok
        (record { cpu_units = pos_part cpu; memory_mb = pos_part memory; gpu_units = pos_part gpu })

abbrev pub no_labels : List String → Bool
no_labels [] = true
no_labels (l ∷ ls) = false

-- `ResourceRequest.empty`
unfoldable pub is_empty_request : ResourceRequest → Bool
is_empty_request r =
    nat_eq r.cpu_units 0
    && nat_eq r.memory_mb 0
    && nat_eq r.gpu_units 0
    && no_labels r.exclusive_labels

pub record Entity : Type 0 where
  pub entity_id : String
  pub entity_type : String
  pub workspace_id : String
  pub locator : String
  pub version : ℕ
  pub status : String
  pub metadata : Dict Value
  pub permissions : List String

pub record Task : Type 0 where
  pub task_id : String
  pub workspace_id : String
  pub goal : String
  pub success_criteria : List String
  pub constraints : List String
  pub state : TaskState
  pub desired_state : TaskState
  pub phase : TaskPhase
  pub priority : ℤ
  pub lane : String
  pub queued_at : Option ℕ
  pub wait_reason : Option String
  pub budget : TaskBudget
  pub revision : ℕ

pub record Operation : Type 0 where
  pub operation_id : String
  pub task_id : String
  pub workspace_id : String
  pub capability : String
  pub action : String
  pub object_refs : List String
  pub arguments : Dict Value
  pub risk_class : RiskClass
  pub required_permission : String
  pub idempotency_mode : String
  pub state : OperationState
  pub expected_revisions : Dict ℕ
  pub evidence : List (Dict Value)
  pub result : Option (Dict Value)
  pub error : Option String
  pub task_lease_owner_id : Option String
  pub task_lease_generation : Option ℕ
  pub resource_lease_owner_id : Option String
  pub resource_lease_generation : Option ℕ

pub record Event : Type 0 where
  pub sequence : ℕ
  pub event_id : String
  pub workspace_id : String
  pub event_type : String
  pub actor : String
  pub task_id : Option String
  pub operation_id : Option String
  pub object_refs : List String
  pub payload : Dict Value
  pub causation_id : Option String
  pub correlation_id : Option String
  pub occurred_at : ℕ
  pub observed_at : ℕ
  pub learning_allowed : Bool

pub record ActionProposal : Type 0 where
  pub proposal_id : String
  pub capability : String
  pub action : String
  pub object_refs : List String
  pub arguments : Dict Value

pub record GoalClaim : Type 0 where
  pub criterion : String
  pub passed : Bool
  pub evidence_refs : List String
