-- ===== src/Models/Revisions/Laws.antt =====
-- What `WorldRevisions.bump` of liandanlu_native/models.py does on every branch.
use codex_test.Prelude.{
  ℕ, ◌+◌, ◌≡◌, ◌≢◌, refl, sym, ◌∙◌, subst, String, true, false, Option, none, some, inl, inr, arith,
  ◌==◌, eq_iff, if◌then◌else◌, ok, Option-cases, Bool-cases,
}
use codex_test.Models.Revisions.{WorldRevisions, attribute, set_attribute, bump}

-- The counter of all domains is the sum of the others.
abbrev pub IsSummed : WorldRevisions → Type 0
IsSummed r = r.global_revision ≡ r.desktop + r.workspace + r.browser + r.media + r.tasks

pub bump-IsSummed :
    (domain : String) (r s : WorldRevisions) → IsSummed r → bump domain r ≡ ok s → IsSummed s
unfolding bump attribute set_attribute
bump-IsSummed domain r s h e = ground arith

-- The counters after a bump of `domain`.
abbrev pub bumped : String → WorldRevisions → String → Option ℕ
bumped domain r other =
    if other == "global_revision"
    then some (r.global_revision + 1)
    else if domain == other
    then (elim (attribute r other) [ none ↦ none | some n ↦ some (n + 1) ])
    else attribute r other

eq_flip : (a b : String) → (a == b) ≡ (b == a)
eq_flip a b = ground (arith, eq_iff a b, eq_iff b a)

-- What reading finds after one counter has been set.
abbrev SetAt : String → WorldRevisions → ℕ → String → Type 0
SetAt domain r n other =
    attribute (set_attribute r domain n) other
    ≡ (if domain == other then some n else attribute r other)

module _ (r : WorldRevisions) (n : ℕ) (other : String) where
  -- It is enough to look at another name, if the name itself computes.
  set_at :
      (name : String)
      → SetAt name r n name
      → ((other == name) ≡ false → attribute (set_attribute r name n) other ≡ attribute r other)
      → SetAt name r n other
  set_at name same others = elim (Bool-cases (other == name)) [
    | inl e ↦ subst (SetAt name r n) (sym ((eq_iff other name).0 e)) same
    | inr ne ↦ rw (eq_flip name other ∙ ne) (others ne)
  ]

  set_global : SetAt "global_revision" r n other
  unfolding attribute set_attribute
  set_global = set_at "global_revision" refl (λ ne. rw ne refl)

  set_desktop : SetAt "desktop" r n other
  unfolding attribute set_attribute
  set_desktop = set_at "desktop" refl (λ ne. rw ne refl)

  set_workspace : SetAt "workspace" r n other
  unfolding attribute set_attribute
  set_workspace = set_at "workspace" refl (λ ne. rw ne refl)

  set_browser : SetAt "browser" r n other
  unfolding attribute set_attribute
  set_browser = set_at "browser" refl (λ ne. rw ne refl)

  set_media : SetAt "media" r n other
  unfolding attribute set_attribute
  set_media = set_at "media" refl (λ ne. rw ne refl)

  set_tasks : SetAt "tasks" r n other
  unfolding attribute set_attribute
  set_tasks = set_at "tasks" refl (λ ne. rw ne refl)

attribute-set_attribute :
    (domain : String) (r : WorldRevisions) (n m : ℕ) (other : String)
    → attribute r domain ≡ some m
    → SetAt domain r n other
unfolding attribute
attribute-set_attribute domain r n m other known =
    let at : (name : String)
        → (domain == name) ≡ true
        → SetAt name r n other
        → SetAt domain r n other =
      λ name e h. subst (λ d. SetAt d r n other) (sym ((eq_iff domain name).0 e)) h in
    elim (Bool-cases (domain == "global_revision")) [
      | inl e0 ↦ at "global_revision" e0 (set_global r n other)
      | inr ne0 ↦ elim (Bool-cases (domain == "desktop")) [
        | inl e1 ↦ at "desktop" e1 (set_desktop r n other)
        | inr ne1 ↦ elim (Bool-cases (domain == "workspace")) [
          | inl e2 ↦ at "workspace" e2 (set_workspace r n other)
          | inr ne2 ↦ elim (Bool-cases (domain == "browser")) [
            | inl e3 ↦ at "browser" e3 (set_browser r n other)
            | inr ne3 ↦ elim (Bool-cases (domain == "media")) [
              | inl e4 ↦ at "media" e4 (set_media r n other)
              | inr ne4 ↦ elim (Bool-cases (domain == "tasks")) [
                | inl e5 ↦ at "tasks" e5 (set_tasks r n other)
                | inr ne5 ↦ absurd (ground (arith, known, ne0, ne1, ne2, ne3, ne4, ne5))
              ]
            ]
          ]
        ]
      ]
    ]

attribute-global :
    (s : WorldRevisions) (n : ℕ) (other : String)
    → attribute (record s { global_revision = n }) other
      ≡ (if other == "global_revision" then some n else attribute s other)
unfolding attribute
attribute-global s n other = ground arith

global-set_attribute :
    (domain : String) (r : WorldRevisions) (n : ℕ)
    → (domain == "global_revision") ≡ false
    → (set_attribute r domain n).global_revision ≡ r.global_revision
unfolding set_attribute
global-set_attribute domain r n h = ground arith

-- A bump that succeeds adds one to the counter of its domain and to that of all domains, and leaves
-- every other counter; it succeeds exactly for the name of a counter other than that of all domains.
pub bump_lem :
    (domain : String) (r : WorldRevisions)
    → ((s : WorldRevisions)
        → bump domain r ≡ ok s
        → (other : String) → attribute s other ≡ bumped domain r other)
      × ((n : ℕ)
          → domain ≢ "global_revision"
          → attribute r domain ≡ some n
          → (s : WorldRevisions) × (bump domain r ≡ ok s))
      × ((s : WorldRevisions)
          → bump domain r ≡ ok s
          → (domain ≢ "global_revision") × (attribute r domain ≢ none))
unfolding bump
bump_lem domain r = (
  λ s e other. elim (Option-cases (attribute r domain)) [
    | inl missing ↦ ground arith
    | inr (n, known) ↦ ground (
      arith,
      attribute-set_attribute domain r (n + 1) n other known,
      attribute-global (set_attribute r domain (n + 1)) (r.global_revision + 1) other,
      global-set_attribute domain r (n + 1),
      eq_iff domain other,
    )
  ],
  λ n ne known. (
    record (set_attribute r domain (n + 1)) {
      global_revision = (set_attribute r domain (n + 1)).global_revision + 1;
    },
    ground (arith, eq_iff domain "global_revision"),
  ),
  λ s e. (λ g. ground (arith, eq_iff domain "global_revision"), λ missing. ground arith),
)
