-- ===== src/Storage/Worlds.antt =====
-- liandanlu_native/storage.py: how the world model is saved.
use codex_test.Prelude.{ℕ, String, Bool, ◌&&◌, some, [], ◌∷◌, ◌++◌, ◌==◌, some_of, if◌then◌else◌}
use codex_test.Prelude.Dict.{insert}
use codex_test.Models.{Entity}
use codex_test.Models.Revisions.{WorldRevisions}
use codex_test.Storage.Tables.{Store}

unfoldable pub save_world_entity : Entity → Store → Store
save_world_entity e s = record s { world_entities = insert e.entity_id e s.world_entities }

unfoldable pub save_world_revisions : WorldRevisions → Store → Store
save_world_revisions r s = record s { world_revisions = some r }

unfoldable pub save_workspace_revision : String → ℕ → Store → Store
save_workspace_revision workspace_id revision s = record s {
  workspace_revisions = insert workspace_id revision s.workspace_revisions;
}

-- The primary key of `world_relations` is the whole row.
abbrev pub same_row : String × String × String → String × String × String → Bool
same_row (a, b, c) (x, y, z) = a == x && b == y && c == z

-- INSERT OR IGNORE
unfoldable pub save_world_relation : String → String → String → Store → Store
save_world_relation source relation target s =
    let row : String × String × String = (source, relation, target) in
    if some_of (same_row row) s.world_relations
    then s
    else record s { world_relations = s.world_relations ++ row ∷ [] }
