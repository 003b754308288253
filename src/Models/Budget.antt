-- ===== src/Models/Budget.antt =====
-- `TaskBudget` of liandanlu_native/models.py. A negative `max_operations` means no limit.
pub mod Laws
use codex_test.Prelude.{ℕ, Bool, false, Option, none, some, leb, if◌then◌else◌}
use codex_test.Prelude.Int.{ℤ, pos, negsuc}

pub data BlockReason : Type 0 where
  max_operations deadline : BlockReason

pub record TaskBudget : Type 0 where
  pub max_operations : ℤ
  pub operations_started : ℕ
  pub deadline_at : Option ℕ

abbrev pub default_budget : TaskBudget
default_budget = record { max_operations = pos 64; operations_started = 0; deadline_at = none }

-- `max_operations >= 0 and operations_started >= max_operations`
abbrev pub exhausted : ℤ → ℕ → Bool
exhausted (pos limit) started = leb limit started
exhausted (negsuc n) started = false

-- `deadline_at is not None and at >= deadline_at`
abbrev pub overdue : Option ℕ → ℕ → Bool
overdue none at = false
overdue (some limit) at = leb limit at

unfoldable pub block_reason : TaskBudget → ℕ → Option BlockReason
block_reason b at =
    if exhausted b.max_operations b.operations_started
    then some BlockReason.max_operations
    else if overdue b.deadline_at at
    then some deadline
    else none
