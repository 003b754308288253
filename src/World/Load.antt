-- ===== src/World/Load.antt =====
-- `SQLiteStore.load_world_model` of liandanlu_native/storage.py. A SELECT without ORDER BY is taken to
-- return the rows in the order of insertion.
use codex_test.Prelude.{◌≡◌, refl, String, Option, none, some, List, [], ◌∷◌, ◌++◌}
use codex_test.Prelude.Dict.{Dict, lookup, insert, values, rebuild, rebuild_pairs}
use codex_test.Models.{Entity}
use codex_test.Models.Revisions.{WorldRevisions, no_revisions}
use codex_test.Storage.{Store}
use codex_test.World.Model.{WorldModel, bucket_of}

abbrev pub saved_revisions : Option WorldRevisions → WorldRevisions
saved_revisions none = no_revisions
saved_revisions (some r) = r

-- `relations.setdefault(source, []).append((relation, target))`
abbrev pub append_edge :
    String → String × String → Dict (List (String × String)) → Dict (List (String × String))
append_edge source edge d = insert source (bucket_of (lookup source d) ++ edge ∷ []) d

unfoldable pub load_relations :
    Dict (List (String × String)) → List (String × String × String) → Dict (List (String × String))
load_relations d [] = d
load_relations d ((source, relation, target) ∷ rows) =
    load_relations (append_edge source (relation, target) d) rows

unfoldable pub load_world_model : Store → WorldModel
unfolding load_relations
load_world_model s = record {
  revisions = saved_revisions s.world_revisions;
  entities = rebuild (λ (e : Entity). e.entity_id) [] (values s.world_entities);
  relations = load_relations [] s.world_relations;
  workspace_revisions = rebuild_pairs [] s.workspace_revisions;
  observations = [];
  persistence = some s;
}

pub load_relations-append :
    (d : Dict (List (String × String))) (rows : List (String × String × String))
    (source relation target : String)
    → load_relations d (rows ++ (source, relation, target) ∷ [])
      ≡ append_edge source (relation, target) (load_relations d rows)
unfolding load_relations
load_relations-append d [] a b c = refl
load_relations-append d ((x, y, z) ∷ rows) a b c =
    load_relations-append (append_edge x (y, z) d) rows a b c
