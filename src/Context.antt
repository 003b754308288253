-- ===== src/Context.antt =====
-- liandanlu_native/context.py: what is put before the model, and the objects that "this" and "that" may
-- mean. Scores are counted in millionths, where the source has floats.
pub mod Bounds
pub mod Choice
pub mod Ranked
use codex_test.Prelude.{
  ℕ, ◌+◌, String, Bool, true, false, not, Option, none, some, List, [], ◌∷◌, ◌==◌, map, select,
  take, if◌then◌else◌,
}
use codex_test.Prelude.Dict.{Dict}
use codex_test.Prelude.Int.{ℤ, pos_part, neg_part, ltb_ℤ, sub_ℤ}
use codex_test.Models.{Task}
use codex_test.World.{WorldModel, workspace_revision}

pub record Referent : Type 0 where
  pub object_ref : String
  pub source : String
  pub score : ℤ

-- `ReferentStack`: its items.
abbrev pub ReferentStack : Type 0
ReferentStack = List Referent

unfoldable pub push : String → String → ℤ → ReferentStack → ReferentStack
push ref source score items = take 32 (
    record { object_ref = ref; source = source; score = score }
    ∷ select (λ x. not (x.object_ref == ref)) items)

-- `sorted(items, key=score, reverse=True)`, which keeps the order of equal scores.
unfoldable pub place_referent : Referent → List Referent → List Referent
place_referent x [] = x ∷ []
place_referent x (y ∷ ys) = if ltb_ℤ x.score y.score then y ∷ place_referent x ys else x ∷ y ∷ ys

unfoldable pub ranked : List Referent → List Referent
unfolding place_referent
ranked [] = []
ranked (x ∷ xs) = place_referent x (ranked xs)

abbrev pub resolve_ranked : List Referent → ℤ → ℤ → Option String
resolve_ranked [] minimum ambiguity_gap = none
resolve_ranked (first ∷ []) minimum ambiguity_gap =
    if ltb_ℤ first.score minimum then none else some first.object_ref
resolve_ranked (first ∷ second ∷ rest) minimum ambiguity_gap =
    if ltb_ℤ first.score minimum
    then none
    else if ltb_ℤ (sub_ℤ first.score second.score) ambiguity_gap
    then none
    else some first.object_ref

unfoldable pub resolve : ℤ → ℤ → ReferentStack → Option String
unfolding ranked
resolve minimum ambiguity_gap items = resolve_ranked (ranked items) minimum ambiguity_gap

pub record ContextManifest : Type 0 where
  pub manifest_id : String
  pub task_id : String
  pub workspace_id : String
  pub world_revisions : Dict ℕ
  pub focus_object_refs : List String
  pub referent_refs : List String
  pub fact_memory_refs : List String
  pub episode_memory_refs : List String
  pub strategy_memory_refs : List String
  pub recent_event_from : Option ℕ
  pub recent_event_to : Option ℕ
  pub brain_snapshot_ref : Option String
  pub constraints : List String
  pub success_criteria : List String
  pub excluded : List (String × String)

-- What a caller of `build_manifest` chooses.
pub record Selection : Type 0 where
  pub focus : List String
  pub fact_refs : List String
  pub episode_refs : List String
  pub strategy_refs : List String
  pub event_range : Option ℕ × Option ℕ
  pub brain_snapshot_ref : Option String
  pub excluded : List (String × String)

unfoldable pub build_manifest :
    String → Task → WorldModel → ReferentStack → Selection → ContextManifest
build_manifest manifest_id t w referents s = record {
  manifest_id = manifest_id;
  task_id = t.task_id;
  workspace_id = t.workspace_id;
  world_revisions =
      ("global_revision", w.revisions.global_revision)
      ∷ ("desktop", w.revisions.desktop)
      ∷ ("workspace", workspace_revision w t.workspace_id)
      ∷ ("browser", w.revisions.browser)
      ∷ ("media", w.revisions.media)
      ∷ ("tasks", w.revisions.tasks)
      ∷ [];
  focus_object_refs = s.focus;
  referent_refs = map (λ (x : Referent). x.object_ref) (take 8 referents);
  fact_memory_refs = s.fact_refs;
  episode_memory_refs = s.episode_refs;
  strategy_memory_refs = s.strategy_refs;
  recent_event_from = s.event_range.0;
  recent_event_to = s.event_range.1;
  brain_snapshot_ref = s.brain_snapshot_ref;
  constraints = t.constraints;
  success_criteria = t.success_criteria;
  excluded = s.excluded;
}
