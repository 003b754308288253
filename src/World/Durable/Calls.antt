-- ===== src/World/Durable/Calls.antt =====
-- Sequences of calls of `register`, `observe` and `relate` (liandanlu_native/world.py), and the
-- reload of the store that they leave.
use codex_test.Prelude.{
  ◌≡◌, refl, String, Option, none, some, List, [], ◌∷◌, inl, inr, ◌==◌, ◌∙◌, Result-cases,
  Bool-cases, modify, ◌>>◌, Result, ok, err,
}
use codex_test.Prelude.Dict.{Dict, lookup, or_else-none, lookup-rebuild, lookup-rebuild_pairs}
use codex_test.Prelude.Json.{Value}
use codex_test.Models.{Entity}
use codex_test.Models.Revisions.{WorldRevisions, bump}
use codex_test.Storage.{Store, new_store}
use codex_test.World.Model.{
  WorldModel, Observation, new_world, register, observe, relate, get, bump_domain, set_revisions,
  bump_observed, persist_revisions,
}
use codex_test.World.Load.{load_world_model, load_relations}
use codex_test.World.Durable.Saved.{
  IsDurable, IsSaved, SameObjects, register-IsDurable, add_edge-IsDurable, bump_workspace-IsDurable,
  persist_revisions-IsDurable,
}

pub data Call : Type 0 where
  registers : Entity → Call
  observes : String → String → Dict Value → String → Option String → Call
  relates : String → String → String → Call

-- A call that raises leaves what it had written.
unfoldable pub step : Call → WorldModel → WorldModel
step (registers e) w = register e w
step (observes source kind value domain ws) w = (observe source kind value domain ws w).1
step (relates source relation target) w = (relate source relation target w).1

unfoldable pub run : List Call → WorldModel → WorldModel
unfolding step
run [] w = w
run (c ∷ cs) w = run cs (step c w)

relate-IsDurable : (a b c : String) (w : WorldModel) → IsDurable w → IsDurable (relate a b c w).1
unfolding relate
relate-IsDurable a b c w h = elim (Result-cases (get w a none)) [
  | inl (x, e) ↦ rw e h
  | inr (source, e) ↦ elim (Result-cases (get w c none)) [
    | inl (y, f) ↦ rw (e, f) h
    | inr (target, f) ↦ elim (Bool-cases (source.workspace_id == target.workspace_id)) [
      | inl same ↦ rw (e, f, same) (add_edge-IsDurable a b c source.workspace_id w h)
      | inr other ↦ rw (e, f, other) h
    ]
  ]
]

-- The counters and the observations are no part of the saved objects.
SameObjects-with :
    (r : WorldRevisions) (o : List Observation) (w : WorldModel) (s : Store)
    → SameObjects w s
    → SameObjects (record w { revisions = r; observations = o }) s
SameObjects-with r o w s h = record {
  entities = h.entities;
  entities_keyed = h.entities_keyed;
  entities_named = h.entities_named;
  workspaces = h.workspaces;
  workspaces_keyed = h.workspaces_keyed;
  edges = h.edges;
}

set_revisions-IsDurable :
    (r : Result WorldRevisions) (w : WorldModel)
    → IsDurable w
    → IsDurable ((set_revisions r >> modify persist_revisions) w).1
set_revisions-IsDurable (err x) w h = h
set_revisions-IsDurable (ok r) w (s, h) =
    persist_revisions-IsDurable _ s h.connected (SameObjects-with r w.observations w s h.objects)

bump_and_persist-IsDurable :
    (domain : String) (w : WorldModel)
    → IsDurable w
    → IsDurable ((bump_domain domain >> modify persist_revisions) w).1
unfolding bump_domain
bump_and_persist-IsDurable domain w h = set_revisions-IsDurable (bump domain w.revisions) w h

bump_observed-IsDurable :
    (domain : String) (ws : Option String) (w : WorldModel)
    → IsDurable w
    → IsDurable (bump_observed domain ws w).1
unfolding bump_observed
bump_observed-IsDurable domain none w h = elim (Bool-cases (domain == "workspace")) [
  | inl whole ↦ rw whole h
  | inr part ↦ rw part (bump_and_persist-IsDurable domain w h)
]
bump_observed-IsDurable domain (some ws) w (s, h) = elim (Bool-cases (domain == "workspace")) [
  | inl whole ↦ rw whole (bump_workspace-IsDurable ws w s h.connected h.objects)
  | inr part ↦ rw part (bump_and_persist-IsDurable domain w (s, h))
]

observe-IsDurable :
    (source kind : String) (value : Dict Value) (domain : String) (ws : Option String)
    (w : WorldModel)
    → IsDurable w
    → IsDurable (observe source kind value domain ws w).1
unfolding observe
observe-IsDurable a b v domain ws w (s, h) = bump_observed-IsDurable domain ws _ (
  s,
  record {
    connected = h.connected;
    revisions = h.revisions;
    objects = SameObjects-with w.revisions _ w s h.objects;
  },
)

-- Each call, whether it returns or raises, keeps the store in step with the model.
pub step-IsDurable : (c : Call) (w : WorldModel) → IsDurable w → IsDurable (step c w)
unfolding step
step-IsDurable (registers e) w h = register-IsDurable e w h
step-IsDurable (observes a b v domain ws) w h = observe-IsDurable a b v domain ws w h
step-IsDurable (relates a b c) w h = relate-IsDurable a b c w h

run-IsDurable : (cs : List Call) (w : WorldModel) → IsDurable w → IsDurable (run cs w)
unfolding run
run-IsDurable [] w h = h
run-IsDurable (c ∷ cs) w h = run-IsDurable cs (step c w) (step-IsDurable c w h)

new_world-IsDurable : IsDurable (new_world (some new_store))
unfolding load_relations lookup
new_world-IsDurable = (
  new_store,
  record {
    connected = refl;
    revisions = refl;
    objects = record {
      entities = refl;
      entities_keyed = tt;
      entities_named = tt;
      workspaces = refl;
      workspaces_keyed = tt;
      edges = record { loads = refl; rows_iff = λ a b c. refl };
    };
  },
)

-- Two models agree on all that is saved.
pub record SameWorld (v w : WorldModel) : Type 0 where
  pub entities : (k : String) → lookup k v.entities ≡ lookup k w.entities
  pub relations : v.relations ≡ w.relations
  pub workspace_revisions :
      (k : String) → lookup k v.workspace_revisions ≡ lookup k w.workspace_revisions
  pub revisions : v.revisions ≡ w.revisions

IsSaved-SameWorld : (w : WorldModel) (s : Store) → IsSaved w s → SameWorld (load_world_model s) w
unfolding load_world_model lookup
IsSaved-SameWorld w s h = record {
  entities = λ k. rw h.objects.entities (
      lookup-rebuild _ k w.entities [] h.objects.entities_keyed h.objects.entities_named
      ∙ or_else-none (lookup k w.entities));
  relations = h.objects.edges.loads;
  workspace_revisions = λ k. rw h.objects.workspaces (
      lookup-rebuild_pairs k w.workspace_revisions [] h.objects.workspaces_keyed
      ∙ or_else-none (lookup k w.workspace_revisions));
  revisions = h.revisions;
}

-- After any calls on a new model over an empty store, returned or raised, the store holds the model:
-- `load_world_model` gives back the entities, relations, workspace revisions and counters.
pub load_world_model-run :
    (cs : List Call)
    → (s : Store) × ((run cs (new_world (some new_store))).persistence ≡ some s)
      × SameWorld (load_world_model s) (run cs (new_world (some new_store)))
load_world_model-run cs =
    let (s, h) = run-IsDurable cs _ new_world-IsDurable in (s, h.connected, IsSaved-SameWorld _ s h)
