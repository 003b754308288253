-- ===== src/World/Durable/Saved.antt =====
-- The relation between a world model and its store (liandanlu_native/world.py, storage.py), kept by
-- each way in which the model is written.
use codex_test.Prelude.{
  ◌+◌, ◌≡◌, refl, ap, ◌∙◌, String, false, some, List, [], ◌∷◌, ◌++◌, inl, inr, arith, eq_iff,
  some_of, some_of-append, Bool-cases,
}
use codex_test.Prelude.Dict.{
  Dict, lookup, insert, lookup-insert, IsKeyed, insert-IsKeyed, IsNamed, insert-IsNamed,
}
use codex_test.Models.{Entity}
use codex_test.Storage.{Store}
use codex_test.Storage.Worlds.{
  save_world_entity, save_world_revisions, save_workspace_revision, save_world_relation, same_row,
}
use codex_test.World.Model.{
  WorldModel, persist_revisions, workspace_revision, bump_workspace, register, add_edge, bucket_of,
  same_edge,
}
use codex_test.World.Load.{saved_revisions, load_relations, load_relations-append, append_edge}

-- The rows of the relations agree with the edges in memory.
pub record SameEdges (d : Dict (List (String × String))) (rows : List (String × String × String))
    : Type 0 where
  pub loads : load_relations [] rows ≡ d
  pub rows_iff :
      (a b c : String)
      → some_of (same_row (a, b, c)) rows ≡ some_of (same_edge (b, c)) (bucket_of (lookup a d))

-- The part of the relation that does not speak of the revision counters.
pub record SameObjects (w : WorldModel) (s : Store) : Type 0 where
  pub entities : s.world_entities ≡ w.entities
  pub entities_keyed : IsKeyed w.entities
  pub entities_named : IsNamed (λ (e : Entity). e.entity_id) w.entities
  pub workspaces : s.workspace_revisions ≡ w.workspace_revisions
  pub workspaces_keyed : IsKeyed w.workspace_revisions
  pub edges : SameEdges w.relations s.world_relations

pub record IsSaved (w : WorldModel) (s : Store) : Type 0 where
  pub connected : w.persistence ≡ some s
  pub revisions : saved_revisions s.world_revisions ≡ w.revisions
  pub objects : SameObjects w s

-- The model has a store, and the store holds the model.
abbrev pub IsDurable : WorldModel → Type 0
IsDurable w = (s : Store) × IsSaved w s

SameEdges-append :
    (d : Dict (List (String × String))) (rows : List (String × String × String))
    (source relation target : String)
    → SameEdges d rows
    → SameEdges (append_edge source (relation, target) d) (rows ++ (source, relation, target) ∷ [])
SameEdges-append d rows source relation target h = record {
  loads =
      load_relations-append [] rows source relation target
      ∙ ap (append_edge source (relation, target)) h.loads;
  rows_iff = λ a b c. rw some_of-append (
      ground (
        arith,
        h.rows_iff a b c,
        h.rows_iff source b c,
        lookup-insert source a (bucket_of (lookup source d) ++ (relation, target) ∷ []) d,
        some_of-append (same_edge (b, c)) (bucket_of (lookup source d)) ((relation, target) ∷ []),
        eq_iff source a,
        eq_iff a source,
      ));
}

pub bump_workspace-IsDurable :
    (ws : String) (w : WorldModel) (s : Store)
    → w.persistence ≡ some s
    → SameObjects w s
    → IsDurable (bump_workspace ws w)
unfolding bump_workspace save_workspace_revision save_world_revisions
bump_workspace-IsDurable ws w s e h = (
  save_world_revisions (bump_workspace ws w).revisions
      (save_workspace_revision ws (workspace_revision w ws + 1) s),
  record {
    connected = rw e;
    revisions = refl;
    objects = record {
      entities = h.entities;
      entities_keyed = h.entities_keyed;
      entities_named = h.entities_named;
      workspaces = ap (insert ws (workspace_revision w ws + 1)) h.workspaces;
      workspaces_keyed = insert-IsKeyed ws _ w.workspace_revisions h.workspaces_keyed;
      edges = h.edges;
    };
  },
)

pub persist_revisions-IsDurable :
    (w : WorldModel) (s : Store)
    → w.persistence ≡ some s
    → SameObjects w s
    → IsDurable (persist_revisions w)
unfolding persist_revisions save_world_revisions
persist_revisions-IsDurable w s e h = (
  save_world_revisions w.revisions s,
  record {
    connected = rw e;
    revisions = refl;
    objects = record {
      entities = h.entities;
      entities_keyed = h.entities_keyed;
      entities_named = h.entities_named;
      workspaces = h.workspaces;
      workspaces_keyed = h.workspaces_keyed;
      edges = h.edges;
    };
  },
)

pub register-IsDurable : (e : Entity) (w : WorldModel) → IsDurable w → IsDurable (register e w)
unfolding register save_world_entity
register-IsDurable e w (s, h) =
    bump_workspace-IsDurable e.workspace_id _ (save_world_entity e s) (rw h.connected) (record {
      entities = ap (insert e.entity_id e) h.objects.entities;
      entities_keyed = insert-IsKeyed e.entity_id e w.entities h.objects.entities_keyed;
      entities_named = insert-IsNamed _ e w.entities h.objects.entities_named;
      workspaces = h.objects.workspaces;
      workspaces_keyed = h.objects.workspaces_keyed;
      edges = h.objects.edges;
    })

-- A row that is new is added; its edge was then new too.
SameEdges-save :
    (d : Dict (List (String × String))) (s : Store) (a b c : String)
    → SameEdges d s.world_relations
    → some_of (same_edge (b, c)) (bucket_of (lookup a d)) ≡ false
    → SameEdges (append_edge a (b, c) d) (save_world_relation a b c s).world_relations
unfolding save_world_relation
SameEdges-save d s a b c h new =
    rw (h.rows_iff a b c ∙ new) (SameEdges-append d s.world_relations a b c h)

save_world_relation-others :
    (a b c : String) (s : Store)
    → ((save_world_relation a b c s).world_entities ≡ s.world_entities)
      × ((save_world_relation a b c s).workspace_revisions ≡ s.workspace_revisions)
unfolding save_world_relation
save_world_relation-others a b c s = ground arith

pub add_edge-IsDurable :
    (source relation target ws : String) (w : WorldModel)
    → IsDurable w
    → IsDurable (add_edge source relation target ws w)
unfolding add_edge
add_edge-IsDurable a b c ws w (s, h) =
    elim (Bool-cases (some_of (same_edge (b, c)) (bucket_of (lookup a w.relations)))) [
      | inl old ↦ rw old (s, h)
      | inr new ↦ rw new (
          bump_workspace-IsDurable ws _ (save_world_relation a b c s) (rw h.connected) (record {
            entities = (save_world_relation-others a b c s).0 ∙ h.objects.entities;
            entities_keyed = h.objects.entities_keyed;
            entities_named = h.objects.entities_named;
            workspaces = (save_world_relation-others a b c s).1 ∙ h.objects.workspaces;
            workspaces_keyed = h.objects.workspaces_keyed;
            edges = SameEdges-save w.relations s a b c h.objects.edges new;
          }))
    ]
