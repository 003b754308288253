-- ===== src/World/Model.antt =====
-- The methods of `WorldModel` (liandanlu_native/world.py).
use codex_test.Prelude.{
  ℕ, ◌+◌, String, Bool, true, ◌&&◌, Option, none, some, List, [], ◌∷◌, ◌++◌, ◌==◌, nat_eq, some_of,
  contains, if◌then◌else◌, Result, ok, err, Exec, raise, lift, modify, guard, ◌>>=◌, ◌>>◌,
  value_error, key_error, permission_error, unknown_object, version_conflict, stale_world,
}
use codex_test.Prelude.Dict.{Dict, lookup, insert}
use codex_test.Prelude.Json.{Value}
use codex_test.Models.{Entity}
use codex_test.Models.Revisions.{WorldRevisions, no_revisions, attribute, bump}
use codex_test.Storage.{Store}
use codex_test.Storage.Worlds.{
  save_world_entity, save_world_revisions, save_workspace_revision, save_world_relation,
}

pub record Observation : Type 0 where
  pub source : String
  pub observation_type : String
  pub value : Dict Value
  pub workspace_id : Option String

pub record WorldModel : Type 0 where
  pub revisions : WorldRevisions
  pub entities : Dict Entity
  pub relations : Dict (List (String × String))
  pub workspace_revisions : Dict ℕ
  pub observations : List Observation
  pub persistence : Option Store

abbrev pub new_world : Option Store → WorldModel
new_world store = record {
  revisions = no_revisions;
  entities = [];
  relations = [];
  workspace_revisions = [];
  observations = [];
  persistence = store;
}

-- `if self.persistence: self.persistence.save(...)`
abbrev pub write_through : (Store → Store) → Option Store → Option Store
write_through save none = none
write_through save (some s) = some (save s)

unfoldable pub persist_revisions : WorldModel → WorldModel
persist_revisions w = record w {
  persistence = write_through (save_world_revisions w.revisions) w.persistence;
}

abbrev pub or_zero : Option ℕ → ℕ
or_zero none = 0
or_zero (some n) = n

unfoldable pub workspace_revision : WorldModel → String → ℕ
workspace_revision w workspace_id = or_zero (lookup workspace_id w.workspace_revisions)

unfoldable pub bump_workspace : String → WorldModel → WorldModel
unfolding persist_revisions workspace_revision
bump_workspace workspace_id w =
    let revision = workspace_revision w workspace_id + 1 in
    let r = w.revisions in
    persist_revisions (record w {
      workspace_revisions = insert workspace_id revision w.workspace_revisions;
      revisions = record r { workspace = r.workspace + 1; global_revision = r.global_revision + 1 };
      persistence = write_through (save_workspace_revision workspace_id revision) w.persistence;
    })

unfoldable pub register : Entity → WorldModel → WorldModel
unfolding bump_workspace
register e w = bump_workspace e.workspace_id (record w {
  entities = insert e.entity_id e w.entities;
  persistence = write_through (save_world_entity e) w.persistence;
})

abbrev version_matches : Option ℕ → ℕ → Bool
version_matches none version = true
version_matches (some expected) version = nat_eq version expected

abbrev pub checked : Option Entity → Option ℕ → Result Entity
checked none expected = err unknown_object
checked (some e) expected =
    if e.status == "active"
    then (if version_matches expected e.version then ok e else err version_conflict)
    else err unknown_object

unfoldable pub get : WorldModel → String → Option ℕ → Result Entity
get w ref expected_version = checked (lookup ref w.entities) expected_version

abbrev pub with_permission : String → Result Entity → Result Entity
with_permission permission (err x) = err x
with_permission permission (ok e) =
    if contains permission e.permissions then ok e else err permission_error

abbrev pub in_workspace : String → Result Entity → Result Entity
in_workspace workspace_id (err x) = err x
in_workspace workspace_id (ok e) =
    if e.workspace_id == workspace_id then ok e else err permission_error

unfoldable pub assert_access : WorldModel → String → String → String → Result Entity
unfolding get
assert_access w ref permission workspace_id =
    with_permission permission (in_workspace workspace_id (get w ref none))

abbrev locator_of : Result Entity → Result String
locator_of (err x) = err x
locator_of (ok e) = ok e.locator

unfoldable pub resolve_locator : WorldModel → String → String → Option String → Result String
unfolding assert_access
resolve_locator w ref permission none = locator_of (with_permission permission (get w ref none))
resolve_locator w ref permission (some workspace_id) =
    locator_of (assert_access w ref permission workspace_id)

abbrev compare_revision : Option ℕ → String → ℕ → Result (Unit {0})
compare_revision none domain expected = err (if domain == "bump" then stale_world else key_error)
compare_revision (some actual) domain expected =
    if nat_eq actual expected then ok tt else err stale_world

-- One round of the loop of `assert_revisions`.
abbrev pub assert_revision : WorldModel → Option String → String → ℕ → Result (Unit {0})
assert_revision w workspace_id domain expected =
    if domain == "workspace"
    then (elim workspace_id [
      | none ↦ err value_error
      | some ws ↦ if nat_eq (workspace_revision w ws) expected then ok tt else err stale_world
    ])
    else compare_revision (attribute w.revisions domain) domain expected

abbrev pub then_check : Result (Unit {0}) → Result (Unit {0}) → Result (Unit {0})
then_check (ok u) next = next
then_check (err x) next = err x

unfoldable pub assert_revisions : WorldModel → Dict ℕ → Option String → Result (Unit {0})
assert_revisions w [] workspace_id = ok tt
assert_revisions w ((domain, expected) ∷ rest) workspace_id =
    then_check (assert_revision w workspace_id domain expected)
      (assert_revisions w rest workspace_id)

abbrev pub set_revisions : Result WorldRevisions → Exec WorldModel (Unit {0})
set_revisions (err x) w = (err x, w)
set_revisions (ok r) w = (ok tt, record w { revisions = r })

-- `self.revisions.bump(domain)`
unfoldable pub bump_domain : String → Exec WorldModel (Unit {0})
bump_domain domain w = set_revisions (bump domain w.revisions) w

-- The second half of `observe`: the revision of the domain goes up and is saved.
unfoldable pub bump_observed : String → Option String → Exec WorldModel (Unit {0})
bump_observed domain workspace_id =
    if domain == "workspace"
    then (elim workspace_id [ none ↦ raise value_error | some ws ↦ modify (bump_workspace ws) ])
    else (do bump_domain domain; modify persist_revisions)

-- The observation stays in the list also when the call raises.
unfoldable pub observe :
    String → String → Dict Value → String → Option String → Exec WorldModel (Unit {0})
unfolding bump_observed
observe source observation_type value domain workspace_id = do
  modify λ w. record w {
    observations =
        w.observations
        ++ record {
          source = source;
          observation_type = observation_type;
          value = value;
          workspace_id = workspace_id;
        }
          ∷ [];
  }
  bump_observed domain workspace_id

abbrev pub bucket_of : Option (List (String × String)) → List (String × String)
bucket_of none = []
bucket_of (some edges) = edges

abbrev pub same_edge : String × String → String × String → Bool
same_edge (a, b) (x, y) = a == x && b == y

-- `bucket = self.relations.setdefault(source, [])`, and what follows it in `relate`. A bucket that
-- `setdefault` makes is empty, so the edge is then appended to it.
unfoldable pub add_edge : String → String → String → String → WorldModel → WorldModel
unfolding bump_workspace
add_edge source relation target workspace_id w =
    let edge : String × String = (relation, target) in
    let bucket = bucket_of (lookup source w.relations) in
    if some_of (same_edge edge) bucket
    then w
    else bump_workspace workspace_id (record w {
      relations = insert source (bucket ++ edge ∷ []) w.relations;
      persistence = write_through (save_world_relation source relation target) w.persistence;
    })

unfoldable pub relate : String → String → String → Exec WorldModel (Unit {0})
relate source relation target w =
    (do
      source_entity ← lift (get w source none)
      target_entity ← lift (get w target none)
      guard (source_entity.workspace_id == target_entity.workspace_id) permission_error
      modify (add_edge source relation target source_entity.workspace_id))
      w
