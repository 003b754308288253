-- ===== src/Memory/Records.antt =====
-- The records of liandanlu_native/memory.py. A confidence is counted in millionths.
use codex_test.Prelude.{
  ℕ, suc, String, Bool, true, Option, none, some, List, [], ◌&&◌, ◌==◌, ◌≡◌, arith, eq_iff,
  if◌then◌else◌, decide,
}
use codex_test.Prelude.Int.{ℤ}
use codex_test.Prelude.Json.{Value}

pub data MemoryKind : Type 0 where
  fact episode strategy : MemoryKind

pub data StrategyState : Type 0 where
  candidate supported promoted rejected : StrategyState

-- A Python float, as far as the code looks at it: a number, or nan or an infinity.
pub data Float : Type 0 where
  millionths : ℤ → Float
  not_finite : Float

-- `"*" if scope == "global" else workspace_id`
unfoldable pub memory_partition : String → String → String
memory_partition workspace_id scope = if scope == "global" then "*" else workspace_id

pub record MemoryCandidate : Type 0 where
  pub workspace_id : String
  pub kind : MemoryKind
  pub key : String
  pub value : Value
  pub scope : String
  pub source_event_ids : List String
  pub confidence : Float
  pub explicit_user_statement : Bool

pub record MemoryRecord : Type 0 where
  pub memory_id : String
  pub workspace_id : String
  pub kind : MemoryKind
  pub key : String
  pub value : Value
  pub scope : String
  pub source_event_ids : List String
  pub confidence : Float
  pub revision : ℕ
  pub supersedes : Option String
  pub strategy_state : Option StrategyState
  pub support_count : ℕ
  pub support_event_ids : List String

unfoldable pub MemoryKind-discrete : Discrete MemoryKind
MemoryKind-discrete = hlevel

-- `kind is other`
abbrev pub is_kind : MemoryKind → MemoryKind → Bool
is_kind a b = decide (MemoryKind-discrete a b)

-- The key of `latest_by_key`: workspace, scope, key and kind.
abbrev pub Slot : Type 0
Slot = String × String × String × MemoryKind

abbrev pub slot_of : MemoryRecord → Slot
slot_of r = (r.workspace_id, r.scope, r.key, r.kind)

unfoldable pub same_slot : Slot → Slot → Bool
same_slot a b = a.0 == b.0 && a.1 == b.1 && a.2 == b.2 && is_kind a.3 b.3

same_slot_decided :
    (a b : Slot) (d : Dec (a.3 ≡ b.3))
    → (a.0 == b.0 && a.1 == b.1 && a.2 == b.2 && decide d) ≡ true
    → a ≡ b
unfolding decide
same_slot_decided a b (yes e) h =
    ground (arith, e, h, eq_iff a.0 b.0, eq_iff a.1 b.1, eq_iff a.2 b.2)
same_slot_decided a b (no n) h = ground (arith, h)

pub same_slot_lem : (a b : Slot) → same_slot a b ≡ true → a ≡ b
unfolding same_slot
same_slot_lem a b h = same_slot_decided a b (MemoryKind-discrete a.3 b.3) h

-- What `MemoryRecord(...)` is called with for a candidate, on top of the record before it.
abbrev pub revision_after : Option MemoryRecord → ℕ
revision_after none = 1
revision_after (some p) = suc p.revision

abbrev pub link_to : Option MemoryRecord → Option String
link_to none = none
link_to (some p) = some p.memory_id

abbrev pub first_state : MemoryKind → Option StrategyState
first_state strategy = some candidate
first_state _ = none

unfoldable pub new_record : MemoryCandidate → Option MemoryRecord → String → MemoryRecord
new_record c previous memory_id = record {
  memory_id = memory_id;
  workspace_id = c.workspace_id;
  kind = c.kind;
  key = c.key;
  value = c.value;
  scope = c.scope;
  source_event_ids = c.source_event_ids;
  confidence = c.confidence;
  revision = revision_after previous;
  supersedes = link_to previous;
  strategy_state = first_state c.kind;
  support_count = 1;
  support_event_ids = [];
}

pub kind_value : MemoryKind → String
kind_value fact = "FACT"
kind_value episode = "EPISODE"
kind_value strategy = "STRATEGY"
