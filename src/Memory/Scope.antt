-- ===== src/Memory/Scope.antt =====
-- Which events `MemoryPipeline` (liandanlu_native/memory.py) lets into which memory.
use codex_test.Prelude.{
  ◌≡◌, refl, sym, ◌∙◌, subst, String, Bool, true, false, not, Option, none, some, List, arith,
  eq_iff, inl, inr, ◌⊎◌, Bool-cases, Option-cases, Result, ok, err, if◌then◌else◌, ◌==◌, ◌&&◌, ◌||◌,
}
use codex_test.Prelude.Dict.{lookup}
use codex_test.Models.{Event}
use codex_test.Storage.{Store}
use codex_test.Storage.Memories.{
  find_receipt, process_memory_event, advance_consumer_in_transaction, slot_of_candidate,
}
use codex_test.Memory.Records.{
  MemoryCandidate, MemoryRecord, Slot, same_slot, same_slot_lem, memory_partition,
}
use codex_test.Memory.Store.{
  MemoryStore, validate, commit, commit_stored, partitioned, process_ignored_event, remember,
  ignored,
}
use codex_test.Memory.Pipeline.{
  Conversions, MemoryPipeline, Parsed, candidate_from_event, candidate_of, parse_payload, is_truthy,
  take_event, take_candidate, committed_one, ignored_one, put_memory,
}
use codex_test.Memory.History.{
  IsHistory, Remembered, told, seen, recorded, Told, process_memory_event-Remembered,
}

-- What the event says of a candidate made from it.
record Proposed (e : Event) (c : MemoryCandidate) : Type 0 where
  proposes : (e.event_type == "memory.candidate") ≡ true
  allowed : e.learning_allowed ≡ true
  workspace : c.workspace_id ≡ e.workspace_id
  explicit :
      c.explicit_user_statement
      ≡ (is_truthy (lookup "explicit_user_statement" e.payload) && e.actor == "user")

candidate_of-Proposed :
    (e : Event) (r : Result (Option Parsed)) (c : MemoryCandidate)
    → (e.event_type == "memory.candidate") ≡ true
    → e.learning_allowed ≡ true
    → candidate_of e r ≡ ok (some c)
    → Proposed e c
candidate_of-Proposed e (err x) c a b h = cc
candidate_of-Proposed e (ok none) c a b h = cc
candidate_of-Proposed e (ok (some p)) c a b h = ground (arith, a, b, h)

candidate_from_event-Proposed :
    (conv : Conversions) (e : Event) (c : MemoryCandidate)
    → candidate_from_event conv e ≡ ok (some c)
    → Proposed e c
unfolding candidate_from_event
candidate_from_event-Proposed conv e c h =
    elim (Bool-cases (not (e.event_type == "memory.candidate") || not e.learning_allowed)) [
      | inl out ↦ ground (arith, out, h)
      | inr within ↦
          candidate_of-Proposed e (parse_payload conv e.payload) c (ground (arith, within))
            (ground (arith, within)) (ground (arith, within, h))
    ]

-- What an event needs to change a memory of the slot.
pub record IsAdmitted (e : Event) (slot : Slot) : Type 0 where
  pub proposes : e.event_type ≡ "memory.candidate"
  pub allowed : e.learning_allowed ≡ true
  pub own : (slot.1 == "global") ≡ false → slot.0 ≡ e.workspace_id
  pub explicit :
      slot.1 ≡ "global"
      → (e.actor ≡ "user") × (is_truthy (lookup "explicit_user_statement" e.payload) ≡ true)

admitted :
    (e : Event) (c : MemoryCandidate) (slot : Slot)
    → Proposed e c
    → validate c ≡ true
    → slot_of_candidate (partitioned c) ≡ slot
    → IsAdmitted e slot
unfolding validate memory_partition
admitted e c slot p v h = record {
  proposes = (eq_iff e.event_type "memory.candidate").0 p.proposes;
  allowed = p.allowed;
  own = λ g. ground (arith, g, h, p.workspace);
  explicit =
      λ g. ground (arith, g, h, v, p.explicit, eq_iff c.scope "global", eq_iff e.actor "user");
}

ignored_records :
    (e : Event) (id : String) (s : Store)
    → (process_memory_event e none id s).1.memory_records ≡ s.memory_records
unfolding process_memory_event advance_consumer_in_transaction
ignored_records e id s =
    elim (Option-cases (find_receipt "memory" e.event_id s.consumer_receipts)) [
      | inl new ↦ rw new
      | inr (q, old) ↦ rw old
    ]

-- The store behind the memory has the records of `s`.
abbrev Keeps : Store → MemoryStore → Type 0
Keeps s m = (t : Store) × (m.persistence ≡ some t) × (t.memory_records ≡ s.memory_records)

ignored-persistence :
    (r : Result (Option MemoryRecord) × Store) (m : MemoryStore)
    → (ignored r m).1.persistence ≡ some r.1
ignored-persistence (err x, s) m = refl
ignored-persistence (ok o, s) m = refl

process_ignored_event-Keeps :
    (e : Event) (s : Store) (m : MemoryStore)
    → m.persistence ≡ some s
    → Keeps s (process_ignored_event e m).1
unfolding process_ignored_event
process_ignored_event-Keeps e s m h = rw h (
  (process_memory_event e none "" s).1,
  ignored-persistence (process_memory_event e none "" s) _,
  ignored_records e "" s,
)

ignored_one-memory :
    (r : Result (Unit {0}) × MemoryStore) (p : MemoryPipeline) → (ignored_one r p).1.memory ≡ r.1
ignored_one-memory (err x, m) p = refl
ignored_one-memory (ok u, m) p = refl

-- Past the commit of a candidate the records are those that the commit left.
committed_one-Keeps :
    (e : Event) (r : Result (Option MemoryRecord) × MemoryStore) (s : Store) (p : MemoryPipeline)
    → r.1.persistence ≡ some s
    → Keeps s (committed_one e r p).1.memory
committed_one-Keeps e (err x, m) s p h = (s, h, refl)
committed_one-Keeps e (ok none, m) s p h =
    subst (λ v. Keeps s v) (sym (ignored_one-memory (process_ignored_event e m) (put_memory m p)))
      (process_ignored_event-Keeps e s m h)
committed_one-Keeps e (ok (some r), m) s p h = (s, h, refl)

commit_stored-persistence :
    (r : Result (Option MemoryRecord) × Store) (m : MemoryStore)
    → (commit_stored r m).1.persistence ≡ some r.1
unfolding remember
commit_stored-persistence (err x, s) m = refl
commit_stored-persistence (ok none, s) m = refl
commit_stored-persistence (ok (some r), s) m = refl

-- The store after a valid candidate, and after one that is not.
commit-persistence :
    (c : MemoryCandidate) (e : Event) (id : String) (s : Store) (m : MemoryStore)
    → m.persistence ≡ some s
    → (commit c (some e) id m).1.persistence
      ≡ some (if validate c then (process_memory_event e (some (partitioned c)) id s).1 else s)
unfolding commit
commit-persistence c e id s m h = elim (Bool-cases (validate c)) [
  | inl valid ↦ rw (valid, h) (commit_stored-persistence _ _)
  | inr invalid ↦ rw invalid h
]

-- What one event may do to the histories.
pub record Guarded (e : Event) (s : Store) (m : MemoryStore) : Type 0 where
  pub store : Store
  pub kept : m.persistence ≡ some store
  pub histories : (slot : Slot) → (told slot store ≡ told slot s) ⊎ IsAdmitted e slot

Keeps-Guarded : (e : Event) (s : Store) (m : MemoryStore) → Keeps s m → Guarded e s m
Keeps-Guarded e s m (t, h, same) = record { store = t; kept = h; histories = λ slot. inl (rw same) }

recorded_or :
    (e : Event) (c : MemoryCandidate) (b : Bool) (slot : Slot) (h : List Told)
    → Proposed e c
    → validate c ≡ true
    → (recorded b (some (partitioned c)) slot h ≡ h) ⊎ IsAdmitted e slot
recorded_or e c true slot h p v = inl refl
recorded_or e c false slot h p v =
    elim (Bool-cases (same_slot (slot_of_candidate (partitioned c)) slot)) [
      | inl same ↦ inr (admitted e c slot p v (same_slot_lem _ slot same))
      | inr other ↦ inl (rw other)
    ]

module _ (e : Event) (id : String) (s : Store) (h : IsHistory s)
    (fresh : lookup id s.memory_records ≡ none) where
  commit-Guarded :
      (c : MemoryCandidate) (p : MemoryPipeline)
      → Proposed e c
      → p.memory.persistence ≡ some s
      → Guarded e s (committed_one e (commit c (some e) id p.memory) p).1.memory
  commit-Guarded c p pr at = elim (Bool-cases (validate c)) [
    | inl valid ↦
        let r = process_memory_event e (some (partitioned c)) id s in
        let done : Remembered e (some (partitioned c)) s r =
          process_memory_event-Remembered e (some (partitioned c)) id s h fresh in
        let (t, kept, same) =
          committed_one-Keeps e (commit c (some e) id p.memory) r.1 p
            (rw valid at (commit-persistence c e id s p.memory at)) in
        record {
          store = t;
          kept = kept;
          histories = λ slot.
              subst (λ v. (v ≡ told slot s) ⊎ IsAdmitted e slot)
                (sym (done.histories slot) ∙ rw same)
                (recorded_or e c (seen e.event_id s) slot (told slot s) pr valid);
        }
    | inr invalid ↦ Keeps-Guarded e s _ (
        committed_one-Keeps e (commit c (some e) id p.memory) s p
          (rw invalid at (commit-persistence c e id s p.memory at)))
  ]

  take_candidate-Guarded :
      (c : Result (Option MemoryCandidate)) (p : MemoryPipeline)
      → ((d : MemoryCandidate) → c ≡ ok (some d) → Proposed e d)
      → p.memory.persistence ≡ some s
      → Guarded e s (take_candidate e c id p).1.memory
  take_candidate-Guarded (err x) p pr at = Keeps-Guarded e s _ (s, at, refl)
  take_candidate-Guarded (ok none) p pr at = Keeps-Guarded e s _ (
      subst (λ v. Keeps s v) (sym (ignored_one-memory (process_ignored_event e p.memory) p))
        (process_ignored_event-Keeps e s p.memory at))
  take_candidate-Guarded (ok (some c)) p pr at = commit-Guarded c p (pr c refl) at

-- An event changes what a store remembers in a slot only if it proposes a memory and may be learnt
-- from, and if the slot is of the event's own workspace or, where it is global, if the user says so
-- explicitly.
pub take_event-Guarded :
    (conv : Conversions) (e : Event) (id : String) (s : Store) (p : MemoryPipeline)
    → IsHistory s
    → lookup id s.memory_records ≡ none
    → p.memory.persistence ≡ some s
    → Guarded e s (take_event conv e id p).1.memory
unfolding take_event
take_event-Guarded conv e id s p h fresh at =
    take_candidate-Guarded e id s h fresh (candidate_from_event conv e) p
      (candidate_from_event-Proposed conv e) at
