-- ===== src/World/Access.antt =====
-- Who may touch an object, and when a revision check passes (liandanlu_native/world.py).
use codex_test.Prelude.{
  ℕ, ◌≡◌, ◌↔◌, ◌≢◌, refl, String, Bool, true, Option, none, some, [], ◌∷◌, ◌++◌, inl, inr, arith,
  ◌==◌, eq_iff, eq_refl, contains, some_of, some_of-append, All, if◌then◌else◌, Bool-cases,
  Result-cases, Option-cases, ok, err, Error,
}
use codex_test.Prelude.Dict.{Dict, lookup, lookup-insert, lookup-insert_self}
use codex_test.Models.{Entity}
use codex_test.Models.Revisions.{attribute}
use codex_test.World.Model.{
  WorldModel, get, assert_access, assert_revision, assert_revisions, workspace_revision, relate,
  add_edge, bump_workspace, same_edge, bucket_of,
}

-- What a caller has to meet to be given an entity.
pub record MayUse (w : WorldModel) (ref permission workspace_id : String) (e : Entity)
    : Type 0 where
  pub known : lookup ref w.entities ≡ some e
  pub active : e.status ≡ "active"
  pub workspace : e.workspace_id ≡ workspace_id
  pub granted : contains permission e.permissions ≡ true

-- `assert_access` gives out an entity exactly if it stands under the reference, is active, lies in
-- the caller's workspace and grants the permission; otherwise it raises.
pub assert_access_iff :
    (w : WorldModel) (ref permission ws : String) (e : Entity)
    → (assert_access w ref permission ws ≡ ok e) ↔ MayUse w ref permission ws e
unfolding assert_access get
assert_access_iff w ref p ws e = elim (Option-cases (lookup ref w.entities)) [
  | inl missing ↦ (λ h. ground arith, λ m. ground (arith, m.known))
  | inr (found, k) ↦ (
    λ h. ground (arith, eq_iff found.status "active", eq_iff found.workspace_id ws),
    λ m. ground (arith, m.known, eq_iff e.status "active", eq_iff e.workspace_id ws),
  )
]

-- What `assert_revisions` compares with: the counter of a domain, or of the workspace.
abbrev pub current_revision : WorldModel → Option String → String → Option ℕ
current_revision w none domain =
    if domain == "workspace" then none else attribute w.revisions domain
current_revision w (some ws) domain =
    if domain == "workspace" then some (workspace_revision w ws) else attribute w.revisions domain

assert_revision_iff :
    (w : WorldModel) (ws : Option String) (domain : String) (expected : ℕ)
    → (assert_revision w ws domain expected ≡ ok tt)
      ↔ (current_revision w ws domain ≡ some expected)
assert_revision_iff w none domain expected = ground arith
assert_revision_iff w (some ws) domain expected = ground arith

-- `assert_revisions` passes exactly if every expected revision is the current one.
pub assert_revisions_iff :
    (w : WorldModel) (expected : Dict ℕ) (ws : Option String)
    → (assert_revisions w expected ws ≡ ok tt)
      ↔ All (λ e. current_revision w ws e.0 ≡ some e.1) expected
unfolding assert_revisions
assert_revisions_iff w [] ws = (λ h. tt, λ h. refl)
assert_revisions_iff w ((domain, n) ∷ rest) ws =
    elim (Result-cases (assert_revision w ws domain n)) [
      | inl (x, e) ↦ rw e (λ h. cc, λ a. cc ((assert_revision_iff w ws domain n).1 a.0))
      | inr (u, e) ↦ rw e (
        λ h. ((assert_revision_iff w ws domain n).0 e, (assert_revisions_iff w rest ws).0 h),
        λ a. (assert_revisions_iff w rest ws).1 a.1,
      )
    ]

-- `get` hands out what stands under the reference, if it is active.
get_lem :
    (w : WorldModel) (ref : String) (e : Entity)
    → get w ref none ≡ ok e
    → (lookup ref w.entities ≡ some e) × (e.status ≡ "active")
unfolding get
get_lem w ref e h = elim (Option-cases (lookup ref w.entities)) [
  | inl missing ↦ (cc, ground arith)
  | inr (found, k) ↦
      (ground (arith, eq_iff found.status "active"), ground (arith, eq_iff found.status "active"))
]

abbrev pub edge_known : WorldModel → String → String → String → Bool
edge_known w source relation target =
    some_of (same_edge (relation, target)) (bucket_of (lookup source w.relations))

-- What a call of `relate` that returns has found and done.
pub record Related (v w : WorldModel) (source relation target : String) : Type 0 where
  pub from : Entity
  pub to : Entity
  pub from_known : lookup source v.entities ≡ some from
  pub to_known : lookup target v.entities ≡ some to
  pub from_active : from.status ≡ "active"
  pub to_active : to.status ≡ "active"
  pub same_workspace : from.workspace_id ≡ to.workspace_id
  pub added : edge_known w source relation target ≡ true
  pub others : (k : String) → k ≢ source → lookup k w.relations ≡ lookup k v.relations

add_edge-known :
    (a b c ws : String) (w : WorldModel)
    → (edge_known (add_edge a b c ws w) a b c ≡ true)
      × ((k : String) → k ≢ a → lookup k (add_edge a b c ws w).relations ≡ lookup k w.relations)
unfolding add_edge bump_workspace
add_edge-known a b c ws w =
    let bucket = bucket_of (lookup a w.relations) in
    elim (Bool-cases (some_of (same_edge (b, c)) bucket)) [
      | inl old ↦ rw old (old, λ k ne. refl)
      | inr new ↦ rw new (
        ground (
          arith,
          lookup-insert_self a (bucket ++ (b, c) ∷ []) w.relations,
          some_of-append (same_edge (b, c)) bucket ((b, c) ∷ []),
          eq_refl b,
          eq_refl c,
        ),
        λ k ne.
            ground (arith, lookup-insert a k (bucket ++ (b, c) ∷ []) w.relations, eq_iff a k, ne),
      )
    ]

-- A call of `relate` that returns joins two known, active entities of one workspace, records the edge
-- and touches the edges of no other source; one that raises changes nothing.
pub relate_lem :
    (source relation target : String) (w : WorldModel)
    → ((relate source relation target w).0 ≡ ok tt
        → Related w (relate source relation target w).1 source relation target)
      × ((x : Error)
          → (relate source relation target w).0 ≡ err x
          → (relate source relation target w).1 ≡ w)
unfolding relate
relate_lem a b c w = elim (Result-cases (get w a none)) [
  | inl (x, e) ↦ rw e (λ h. cc, λ y h. refl)
  | inr (source, e) ↦ elim (Result-cases (get w c none)) [
    | inl (y, f) ↦ rw (e, f) (λ h. cc, λ z h. refl)
    | inr (target, f) ↦ elim (Bool-cases (source.workspace_id == target.workspace_id)) [
      | inl same ↦
          rw (e, f, same)
            (
              λ h. record {
                from = source;
                to = target;
                from_known = (get_lem w a source e).0;
                to_known = (get_lem w c target f).0;
                from_active = (get_lem w a source e).1;
                to_active = (get_lem w c target f).1;
                same_workspace = (eq_iff source.workspace_id target.workspace_id).0 same;
                added = (add_edge-known a b c source.workspace_id w).0;
                others = (add_edge-known a b c source.workspace_id w).1;
              },
              λ z h. cc,
            )
      | inr other ↦ rw (e, f, other) (λ h. cc, λ z h. refl)
    ]
  ]
]
