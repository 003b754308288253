-- ===== src/Tests/World.antt =====
-- Runs of liandanlu_native/world.py on a note and a folder of one workspace.
use codex_test.Prelude.{◌≡◌, refl, String, none, some, List, [], ◌∷◌}
use codex_test.Prelude.Dict.{lookup}
use codex_test.Models.{Entity}
use codex_test.Storage.{Store, new_store}
use codex_test.World.{WorldModel, new_world, get, relate, add_edge}
use codex_test.World.Load.{load_world_model}
use codex_test.World.Access.{relate_lem, Related}
use codex_test.World.Durable.Calls.{
  Call, registers, observes, relates, run, SameWorld, load_world_model-run,
}

abbrev pub entity : String → Entity
entity id = record {
  entity_id = id;
  entity_type = "file";
  workspace_id = "home";
  locator = "/home/a";
  version = 1;
  status = "active";
  metadata = [];
  permissions = "read" ∷ [];
}

abbrev pub house : WorldModel
house =
    let w = new_world none in
    record w { entities = ("note", entity "note") ∷ ("folder", entity "folder") ∷ [] }

relate_lem_example : Related house (relate "note" "in" "folder" house).1 "note" "in" "folder"
unfolding relate get lookup add_edge
relate_lem_example = (relate_lem "note" "in" "folder" house).0 refl

abbrev calls : List Call
calls =
    registers (entity "note")
    ∷ registers (entity "folder")
    ∷ relates "note" "in" "folder"
    ∷ observes "sensor" "seen" [] "tasks" none
    ∷ observes "sensor" "seen" [] "workspace" none
    ∷ []

load_world_model-run_example :
    (s : Store) × ((run calls (new_world (some new_store))).persistence ≡ some s)
    × SameWorld (load_world_model s) (run calls (new_world (some new_store)))
load_world_model-run_example = load_world_model-run calls
