-- ===== src/Memory/Support.antt =====
-- How a strategy is promoted: `MemoryStore.add_strategy_support` (liandanlu_native/memory.py).
use codex_test.Prelude.{
  ◌+◌, ◌≤◌, ◌≡◌, refl, ◌∙◌, String, Bool, true, false, Option, none, some, List, [], ◌∷◌, ◌++◌,
  ◌==◌, arith, subst, eq_iff, eq_refl, length, length-snoc, contains, Bool-cases, ◌⊎◌, inl, inr,
  ◌↔◌, Result, ok, err, some_of-append,
}
use codex_test.Prelude.Dict.{lookup, insert, lookup-insert_self}
use codex_test.Storage.{Store}
use codex_test.Storage.Memories.{save_memory_record}
use codex_test.Memory.Records.{MemoryKind, fact, episode, strategy, MemoryRecord, promoted}
use codex_test.Memory.Store.{
  MemoryStore, add_strategy_support, supported_by, support_with, support_kind, raised_state,
  strategy_state_after, save_support, keep_saved,
}

-- No event is counted twice.
abbrev pub IsDistinct : List String → Type 0
IsDistinct [] = Unit {0}
IsDistinct (x ∷ xs) = (contains x xs ≡ false) × IsDistinct xs

-- The count is one more than the number of the events that support the record, which are distinct.
pub record IsCounted (r : MemoryRecord) : Type 0 where
  pub counted : r.support_count ≡ length r.support_event_ids + 1
  pub distinct : IsDistinct r.support_event_ids

snoc-IsDistinct :
    (x : String) (xs : List String)
    → contains x xs ≡ false
    → IsDistinct xs
    → IsDistinct (xs ++ x ∷ [])
snoc-IsDistinct x [] h d = (refl, tt)
snoc-IsDistinct x (y ∷ ys) h d = (
  some_of-append (λ z. z == y) ys (x ∷ []) ∙ ground (arith, h, d.0, eq_iff x y, eq_iff y x),
  snoc-IsDistinct x ys (ground (arith, h)) d.1,
)

-- What the evidence leaves: with some, that event supports the record.
abbrev Backed : Option String → MemoryRecord → Type 0
Backed none q = Unit {0}
Backed (some e) q = (contains e q.support_event_ids ≡ true) × (1 ≤ length q.support_event_ids)

contains-length : (e : String) (xs : List String) → contains e xs ≡ true → 1 ≤ length xs
contains-length e [] h = cc
contains-length e (x ∷ xs) h = omega arith

contains-snoc : (e : String) (xs : List String) → contains e (xs ++ e ∷ []) ≡ true
contains-snoc e xs = some_of-append (λ z. z == e) xs (e ∷ []) ∙ ground (arith, eq_refl e)

supported_by-IsCounted :
    (evidence : Option String) (confirmed : Bool) (r q : MemoryRecord)
    → supported_by evidence confirmed r ≡ some q
    → IsCounted r
    → IsCounted q × Backed evidence q × ((evidence ≡ none) → confirmed ≡ true)
supported_by-IsCounted none confirmed r q h c = ground (arith, h, c.counted, c.distinct)
supported_by-IsCounted (some e) confirmed r q h c =
    elim (Bool-cases (contains e r.support_event_ids)) [
      | inl old ↦
          ground (arith, old, h, c.counted, c.distinct, contains-length e r.support_event_ids old)
      | inr new ↦ ground (
        arith,
        new,
        h,
        c.counted,
        length-snoc r.support_event_ids e,
        contains-snoc e r.support_event_ids,
        snoc-IsDistinct e r.support_event_ids new c.distinct,
      )
    ]

-- What a call that returns leaves.
pub record Strengthened (evidence : Option String) (confirmed : Bool) (memory_id : String)
    (q : MemoryRecord) (m : MemoryStore) : Type 0 where
  pub kept : lookup memory_id m.records ≡ some q
  pub counts : IsCounted q
  pub backed : (e : String) → evidence ≡ some e → contains e q.support_event_ids ≡ true
  pub promotes :
      (q.strategy_state ≡ some promoted) ↔ ((confirmed ≡ true) ⊎ (2 ≤ length q.support_event_ids))

promoted_iff :
    (confirmed : Bool) (evidence : Option String) (q : MemoryRecord)
    → IsCounted q
    → Backed evidence q
    → ((evidence ≡ none) → confirmed ≡ true)
    → (strategy_state_after confirmed q.support_count q.strategy_state ≡ some promoted)
      ↔ ((confirmed ≡ true) ⊎ (2 ≤ length q.support_event_ids))
promoted_iff true evidence q c b n = (λ h. inl refl, λ h. refl)
promoted_iff false none q c b n = ground (arith, n refl)
promoted_iff false (some e) q c b n =
    (λ h. ground (arith, h, c.counted, b), λ h. ground (arith, h, c.counted, b))

module _ (evidence : Option String) (confirmed : Bool) (memory_id : String) (q : MemoryRecord)
    (c : IsCounted q) (b : Backed evidence q) (n : (evidence ≡ none) → confirmed ≡ true) where
  raised-Strengthened :
      (m : MemoryStore)
      → lookup memory_id m.records ≡ some (raised_state confirmed q)
      → Strengthened evidence confirmed memory_id (raised_state confirmed q) m
  raised-Strengthened m at = record {
    kept = at;
    counts = record { counted = c.counted; distinct = c.distinct };
    backed = λ e h. ground (arith, h, b);
    promotes = promoted_iff confirmed evidence q c b n;
  }

save_support-records :
    (s : Option Store) (r q : MemoryRecord) (m t : MemoryStore)
    → save_support s r m ≡ (ok q, t)
    → (r ≡ q) × (t.records ≡ m.records)
save_support-records none r q m t h = ground (arith, h)
save_support-records (some s) r q m t h = keep_saved-records (save_memory_record r s) h
  where
    keep_saved-records :
        (v : Result (Unit {0}) × Store)
        → keep_saved r v m ≡ (ok q, t)
        → (r ≡ q) × (t.records ≡ m.records)
    keep_saved-records (err x, u) h = cc
    keep_saved-records (ok u, v) h = ground (arith, h)

support_with-Strengthened :
    (evidence : Option String) (confirmed : Bool) (memory_id : String) (r q : MemoryRecord)
    (m t : MemoryStore) (o : Option MemoryRecord)
    → supported_by evidence confirmed r ≡ o
    → IsCounted r
    → support_with o confirmed memory_id m ≡ (ok q, t)
    → Strengthened evidence confirmed memory_id q t
support_with-Strengthened evidence confirmed memory_id r q m t none e c h = cc
support_with-Strengthened evidence confirmed memory_id r q m t (some p) e c h =
    let (cp, bp, n) = supported_by-IsCounted evidence confirmed r p e c in
    let put : MemoryStore = record m {
      records = insert memory_id (raised_state confirmed p) m.records;
    } in
    let (same, kept) = save_support-records m.persistence (raised_state confirmed p) q put t h in
    subst (λ v. Strengthened evidence confirmed memory_id v t) same
      (raised-Strengthened evidence confirmed memory_id p cp bp n t
        (rw kept (lookup-insert_self memory_id (raised_state confirmed p) m.records)))

support_kind-Strengthened :
    (k : MemoryKind) (evidence : Option String) (confirmed : Bool) (memory_id : String)
    (r q : MemoryRecord) (m t : MemoryStore)
    → IsCounted r
    → support_kind k r evidence confirmed memory_id m ≡ (ok q, t)
    → Strengthened evidence confirmed memory_id q t
support_kind-Strengthened fact evidence confirmed memory_id r q m t c h = cc
support_kind-Strengthened episode evidence confirmed memory_id r q m t c h = cc
support_kind-Strengthened strategy evidence confirmed memory_id r q m t c h =
    support_with-Strengthened evidence confirmed memory_id r q m t
      (supported_by evidence confirmed r) refl c h

-- A call that returns keeps the record under its id with one more than its distinct supporting events
-- as its count, the evidence among them, and leaves it promoted exactly if the user confirms in this
-- call or two events at least support it.
pub add_strategy_support-Strengthened :
    (memory_id : String) (evidence : Option String) (confirmed : Bool) (r q : MemoryRecord)
    (m t : MemoryStore)
    → lookup memory_id m.records ≡ some r
    → IsCounted r
    → add_strategy_support memory_id evidence confirmed m ≡ (ok q, t)
    → Strengthened evidence confirmed memory_id q t
unfolding add_strategy_support
add_strategy_support-Strengthened memory_id evidence confirmed r q m t at c h =
    support_kind-Strengthened r.kind evidence confirmed memory_id r q m t c (rw at at h)
