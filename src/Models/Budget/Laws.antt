-- ===== src/Models/Budget/Laws.antt =====
-- When a task may start another operation (liandanlu_native/models.py).
use codex_test.Prelude.{ℕ, ◌<◌, ◌≡◌, ◌↔◌, Option, none, some, arith}
use codex_test.Prelude.Int.{ℤ, pos, negsuc}
use codex_test.Models.Budget.{TaskBudget, block_reason}

-- The number of operations started is below the limit, if there is one.
abbrev pub HasRoom : ℤ → ℕ → Type 0
HasRoom (pos limit) started = started < limit
HasRoom (negsuc n) started = Unit

-- The time is before the deadline, if there is one.
abbrev pub IsInTime : Option ℕ → ℕ → Type 0
IsInTime none at = Unit
IsInTime (some limit) at = at < limit

block_reason_cases :
    (m : ℤ) (n : ℕ) (d : Option ℕ) (at : ℕ)
    → (block_reason (record { max_operations = m; operations_started = n; deadline_at = d }) at
        ≡ none)
      ↔ (HasRoom m n × IsInTime d at)
unfolding block_reason
block_reason_cases (pos l) n none at = ground arith
block_reason_cases (pos l) n (some d) at = ground arith
block_reason_cases (negsuc l) n none at = ground arith
block_reason_cases (negsuc l) n (some d) at = ground arith

-- A budget blocks nothing exactly if there is room for an operation and the deadline has not come.
pub block_reason_iff :
    (b : TaskBudget) (at : ℕ)
    → (block_reason b at ≡ none)
      ↔ (HasRoom b.max_operations b.operations_started × IsInTime b.deadline_at at)
block_reason_iff b at = block_reason_cases b.max_operations b.operations_started b.deadline_at at
