-- ===== src/Models/Revisions.antt =====
-- `WorldRevisions` of liandanlu_native/models.py: a counter for each domain and one for all of them.
pub mod Laws
use codex_test.Prelude.{
  ℕ, ◌+◌, String, Option, none, some, ◌==◌, if◌then◌else◌, Result, ok, err, Error, key_error,
  type_error,
}

pub record WorldRevisions : Type 0 where
  pub global_revision : ℕ
  pub desktop : ℕ
  pub workspace : ℕ
  pub browser : ℕ
  pub media : ℕ
  pub tasks : ℕ

abbrev pub no_revisions : WorldRevisions
no_revisions = record {
  global_revision = 0;
  desktop = 0;
  workspace = 0;
  browser = 0;
  media = 0;
  tasks = 0;
}

-- `getattr(revisions, domain)` at a field of the class, and `none` at any other name.
unfoldable pub attribute : WorldRevisions → String → Option ℕ
attribute r domain =
    if domain == "global_revision"
    then some r.global_revision
    else if domain == "desktop"
    then some r.desktop
    else if domain == "workspace"
    then some r.workspace
    else if domain == "browser"
    then some r.browser
    else if domain == "media"
    then some r.media
    else if domain == "tasks"
    then some r.tasks
    else none

-- `setattr(revisions, domain, value)` at such a field.
unfoldable pub set_attribute : WorldRevisions → String → ℕ → WorldRevisions
set_attribute r domain value =
    if domain == "global_revision"
    then record r { global_revision = value }
    else if domain == "desktop"
    then record r { desktop = value }
    else if domain == "workspace"
    then record r { workspace = value }
    else if domain == "browser"
    then record r { browser = value }
    else if domain == "media"
    then record r { media = value }
    else if domain == "tasks"
    then record r { tasks = value }
    else r

-- `bump` is an attribute too, and 1 cannot be added to a method. Python's own attributes, whose
-- names begin with two underscores, are not modelled.
abbrev pub bump_failure : String → Error
bump_failure domain = if domain == "bump" then type_error else key_error

abbrev bump_attribute : WorldRevisions → String → Option ℕ → Result WorldRevisions
bump_attribute r domain none = err (bump_failure domain)
bump_attribute r domain (some n) =
    let s = set_attribute r domain (n + 1) in
    ok (record s { global_revision = s.global_revision + 1 })

unfoldable pub bump : String → WorldRevisions → Result WorldRevisions
bump domain r =
    if domain == "global_revision"
    then err key_error
    else bump_attribute r domain (attribute r domain)
