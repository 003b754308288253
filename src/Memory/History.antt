-- ===== src/Memory/History.antt =====
-- The table of `SQLiteStore.process_memory_event` (liandanlu_native/storage.py) read as a history: what
-- was told in each slot, in order.
use codex_test.Prelude.{
  ℕ, suc, ◌+◌, ◌≤◌, ◌≡◌, refl, sym, ap, ◌∙◌, subst, String, Bool, true, false, Option, none, some,
  List, [], ◌∷◌, ◌++◌, ◌==◌, ◌||◌, arith, eq_iff, eq_refl, inl, inr, length, select, some_of, All,
  Bool-cases, Option-cases, Result, ok, if◌then◌else◌, is_some, map,
}
use mathlib.Core.List.{map-append, append-nil}
use codex_test.Prelude.Dict.{Dict, lookup, insert, values}
use codex_test.Prelude.Json.{Value}
use codex_test.Models.{Event}
use codex_test.Storage.{Store, Receipt}
use codex_test.Storage.Memories.{
  find_receipt, add_receipt, advance_consumer_in_transaction, in_slot, rows_of, newest, newer,
  takes_revision, insert_memory_record, slot_of_candidate, process_memory_event, process_new,
  committed,
}
use codex_test.Memory.Records.{
  MemoryCandidate, MemoryRecord, Slot, slot_of, same_slot, same_slot_lem, new_record, Float,
  revision_after, link_to,
}

-- Revisions count up from `n + 1`, and each record names the one before it.
abbrev pub Numbered : Option String → ℕ → List MemoryRecord → Type 0
Numbered previous n [] = Unit {0}
Numbered previous n (r ∷ rs) =
    (r.revision ≡ suc n) × (r.supersedes ≡ previous) × Numbered (some r.memory_id) (suc n) rs

-- In each slot the rows are numbered from 1 in the order of their insertion.
pub record IsHistory (s : Store) : Type 0 where
  pub numbered : (slot : Slot) → Numbered none 0 (rows_of slot s)

abbrev last_id : Option String → List MemoryRecord → Option String
last_id previous [] = previous
last_id previous (r ∷ rs) = last_id (some r.memory_id) rs

abbrev after : ℕ → Option MemoryRecord → ℕ
after n none = suc n
after n (some p) = suc p.revision

abbrev link : Option String → Option MemoryRecord → Option String
link previous none = previous
link previous (some p) = some p.memory_id

newest_lem :
    (previous : Option String) (n : ℕ) (rs : List MemoryRecord)
    → Numbered previous n rs
    → (after n (newest rs) ≡ suc (n + length rs))
      × (link previous (newest rs) ≡ last_id previous rs)
unfolding newest
newest_lem previous n [] h = (omega arith, refl)
newest_lem previous n (r ∷ []) h = (omega (arith, h.0), refl)
newest_lem previous n (r ∷ q ∷ qs) h = elim (Option-cases (newest (q ∷ qs))) [
  | inl e ↦
      let ih = newest_lem (some r.memory_id) (suc n) (q ∷ qs) h.2 in
      absurd (some_newest q (newest qs) e)
  | inr (p, e) ↦
      let ih = newest_lem (some r.memory_id) (suc n) (q ∷ qs) h.2 in
      ground (arith, e, ih.0, ih.1, h.0)
]
  where
    some_newest : (q : MemoryRecord) (o : Option MemoryRecord) → newer q o ≡ none → ⊥
    some_newest q none e = cc
    some_newest q (some p) e = ground (arith, e)

newest_revision :
    (rs : List MemoryRecord) → Numbered none 0 rs → revision_after (newest rs) ≡ suc (0 + length rs)
newest_revision rs h = elim (Option-cases (newest rs)) [
  | inl e ↦ ground (arith, e, (newest_lem none 0 rs h).0)
  | inr (p, e) ↦ ground (arith, e, (newest_lem none 0 rs h).0)
]

newest_link : (rs : List MemoryRecord) → Numbered none 0 rs → link_to (newest rs) ≡ last_id none rs
newest_link rs h = elim (Option-cases (newest rs)) [
  | inl e ↦ ground (arith, e, (newest_lem none 0 rs h).1)
  | inr (p, e) ↦ ground (arith, e, (newest_lem none 0 rs h).1)
]

snoc-Numbered :
    (previous : Option String) (n : ℕ) (rs : List MemoryRecord) (r : MemoryRecord)
    → Numbered previous n rs
    → r.revision ≡ suc (n + length rs)
    → r.supersedes ≡ last_id previous rs
    → Numbered previous n (rs ++ r ∷ [])
snoc-Numbered previous n [] r h e l = (omega (arith, e), l, tt)
snoc-Numbered previous n (q ∷ qs) r h e l =
    (h.0, h.1, snoc-Numbered (some q.memory_id) (suc n) qs r h.2 (omega (arith, e)) l)

Numbered-le :
    (previous : Option String) (n m : ℕ) (rs : List MemoryRecord)
    → Numbered previous n rs
    → n + length rs ≤ m
    → All (λ q. q.revision ≤ m) rs
Numbered-le previous n m [] h e = tt
Numbered-le previous n m (q ∷ qs) h e =
    (omega (arith, h.0, e), Numbered-le (some q.memory_id) (suc n) m qs h.2 (omega (arith, e)))

-- The revision above all those of a slot is not taken.
not_taken :
    (r : MemoryRecord) (m : ℕ) (vs : List MemoryRecord)
    → r.revision ≡ suc m
    → All (λ q. q.revision ≤ m) (select (in_slot (slot_of r)) vs)
    → some_of (takes_revision r) vs ≡ false
not_taken r m [] e h = refl
not_taken r m (q ∷ qs) e h = elim (Bool-cases (same_slot (slot_of q) (slot_of r))) [
  | inl same ↦ ground (arith, same, e, h, not_taken r m qs e)
  | inr other ↦ ground (arith, other, h, not_taken r m qs e)
]

pub values-insert_new {ℓ} :
    {V : Type ℓ} (k : String) (v : V) (d : Dict V)
    → lookup k d ≡ none
    → values (insert k v d) ≡ values d ++ v ∷ []
unfolding lookup insert
values-insert_new k v [] h = refl
values-insert_new k v ((j, w) ∷ d) h = elim (Bool-cases (j == k)) [
  | inl e ↦ ground (arith, e, h)
  | inr e ↦ rw e (ap (λ vs. w ∷ vs) (values-insert_new k v d (ground (arith, e, h))))
]

pub select-append {ℓ} :
    {A : Type ℓ} (p : A → Bool) (xs ys : List A) → select p (xs ++ ys) ≡ select p xs ++ select p ys
select-append p [] ys = refl
select-append p (x ∷ xs) ys = ground (arith, select-append p xs ys)

-- The store with one more record.
abbrev with_record : MemoryRecord → Store → Store
with_record r s = record s { memory_records = insert r.memory_id r s.memory_records }

module _ (c : MemoryCandidate) (id : String) (s : Store) where
  abbrev next : MemoryRecord
  next = new_record c (newest (rows_of (slot_of_candidate c) s)) id

  next_free :
      IsHistory s
      → some_of
          (takes_revision (new_record c (newest (rows_of (slot_of_candidate c) s)) id))
          (values s.memory_records)
        ≡ false
  unfolding new_record
  next_free h =
      let rows : List MemoryRecord = rows_of (slot_of_candidate c) s in
      not_taken (new_record c (newest rows) id) (0 + length rows) (values s.memory_records)
        (newest_revision rows (h.numbered (slot_of_candidate c)))
        (Numbered-le none 0 (0 + length rows) rows (h.numbered (slot_of_candidate c)) (omega arith))

  -- The constraints of the table hold for a new id.
  pub insert_next :
      IsHistory s
      → lookup id s.memory_records ≡ none
      → insert_memory_record (new_record c (newest (rows_of (slot_of_candidate c) s)) id) s
        ≡ ok (with_record (new_record c (newest (rows_of (slot_of_candidate c) s)) id) s)
  unfolding insert_memory_record new_record
  insert_next h fresh = rw (fresh, next_free h)

  rows-with_record :
      lookup id s.memory_records ≡ none
      → (slot : Slot)
      → rows_of slot (with_record (new_record c (newest (rows_of (slot_of_candidate c) s)) id) s)
        ≡ rows_of slot s
          ++ select (in_slot slot) (new_record c (newest (rows_of (slot_of_candidate c) s)) id ∷ [])
  unfolding new_record
  rows-with_record fresh slot =
      ap (select (in_slot slot)) (values-insert_new id next s.memory_records fresh)
      ∙ select-append (in_slot slot) (values s.memory_records) (next ∷ [])

-- What was told: value, sources and confidence.
abbrev pub Told : Type 0
Told = Value × List String × Float

abbrev pub told_of : MemoryRecord → Told
told_of r = (r.value, r.source_event_ids, r.confidence)

abbrev pub told : Slot → Store → List Told
told slot s = map told_of (rows_of slot s)

-- The events that the memory consumer has a receipt of.
abbrev pub seen : String → Store → Bool
seen j s = is_some (find_receipt "memory" j s.consumer_receipts)

-- The specification: an event that is new and proposes something adds it to the history of its slot.
abbrev pub recorded : Bool → Option MemoryCandidate → Slot → List Told → List Told
recorded true c slot h = h
recorded false none slot h = h
recorded false (some c) slot h =
    if same_slot (slot_of_candidate c) slot
    then h ++ (c.value, c.source_event_ids, c.confidence) ∷ []
    else h

pub record Remembered (e : Event) (c : Option MemoryCandidate) (s : Store)
    (r : Result (Option MemoryRecord) × Store) : Type 0 where
  pub returns : (m : Option MemoryRecord) × (r.0 ≡ ok m)
  pub histories : (slot : Slot) → told slot r.1 ≡ recorded (seen e.event_id s) c slot (told slot s)
  pub receipts : (j : String) → seen j r.1 ≡ (e.event_id == j || seen j s)
  pub kept : IsHistory r.1

find-snoc :
    (j : String) (q : Receipt) (rs : List Receipt)
    → (q.consumer_id == "memory") ≡ true
    → is_some (find_receipt "memory" j (rs ++ q ∷ []))
      ≡ (q.event_id == j || is_some (find_receipt "memory" j rs))
unfolding find_receipt
find-snoc j q [] h = ground (arith, h)
find-snoc j q (r ∷ rs) h = ground (arith, h, find-snoc j q rs h)

-- A receipt that was not there is there after the step.
seen-advance :
    (id status : String) (sequence : ℕ) (ref : Option String) (s : Store) (j : String)
    → find_receipt "memory" id s.consumer_receipts ≡ none
    → seen j (advance_consumer_in_transaction "memory" id sequence status ref s)
      ≡ (id == j || seen j s)
unfolding advance_consumer_in_transaction add_receipt
seen-advance id status sequence ref s j h =
    rw h (find-snoc j _ s.consumer_receipts (eq_refl "memory"))

seen_again : (id j : String) (s : Store) → seen id s ≡ true → seen j s ≡ (id == j || seen j s)
seen_again id j s h = elim (Bool-cases (id == j)) [
  | inl same ↦ ground (arith, same, h, eq_iff id j)
  | inr other ↦ rw other
]

record_told :
    (c : MemoryCandidate) (id : String) (s : Store) (slot : Slot)
    → map told_of
        (select (in_slot slot) (new_record c (newest (rows_of (slot_of_candidate c) s)) id ∷ []))
      ≡ recorded false (some c) slot []
unfolding new_record
record_told c id s slot = elim (Bool-cases (same_slot (slot_of_candidate c) slot)) [
  | inl same ↦ rw same
  | inr other ↦ rw other
]

recorded-snoc :
    (c : MemoryCandidate) (slot : Slot) (h : List Told)
    → h ++ recorded false (some c) slot [] ≡ recorded false (some c) slot h
recorded-snoc c slot h = elim (Bool-cases (same_slot (slot_of_candidate c) slot)) [
  | inl same ↦ rw same
  | inr other ↦ rw other (append-nil h)
]

module _ (c : MemoryCandidate) (id : String) (s : Store) (h : IsHistory s) where
  next_in_order :
      (slot : Slot)
      → Numbered none 0 (
          rows_of slot s
          ++ select
              (in_slot slot)
              (new_record c (newest (rows_of (slot_of_candidate c) s)) id ∷ []))
  unfolding new_record
  next_in_order slot = elim (Bool-cases (same_slot (slot_of_candidate c) slot)) [
    | inl same ↦
        let e : slot_of_candidate c ≡ slot = same_slot_lem (slot_of_candidate c) slot same in
        rw same (
          subst (λ k. Numbered none 0 (rows_of k s ++ next c id s ∷ [])) e
            (snoc-Numbered none 0 (rows_of (slot_of_candidate c) s) (next c id s)
              (h.numbered (slot_of_candidate c))
              (newest_revision _ (h.numbered (slot_of_candidate c)))
              (newest_link _ (h.numbered (slot_of_candidate c)))))
    | inr other ↦ rw other (rw append-nil (h.numbered slot))
  ]

-- Nothing but the receipts and the cursor changes.
told-advance :
    (id status : String) (sequence : ℕ) (ref : Option String) (s : Store)
    → (advance_consumer_in_transaction "memory" id sequence status ref s).memory_records
      ≡ s.memory_records
unfolding advance_consumer_in_transaction
told-advance id status sequence ref s = refl

module _ (e : Event) (c : MemoryCandidate) (id : String) (s : Store) (h : IsHistory s)
    (fresh : lookup id s.memory_records ≡ none)
    (new : find_receipt "memory" e.event_id s.consumer_receipts ≡ none) where
  process_told :
      Remembered e (some c) s (committed e (next c id s) (ok (with_record (next c id s) s)) s)
  unfolding advance_consumer_in_transaction
  process_told = record {
    returns = (some (next c id s), refl);
    histories = λ slot.
        ap (map told_of) (rows-with_record c id s fresh slot)
        ∙ map-append told_of (rows_of slot s) (select (in_slot slot) (next c id s ∷ []))
        ∙ ap (λ x. told slot s ++ x) (record_told c id s slot)
        ∙ recorded-snoc c slot (told slot s)
        ∙ ap (λ (o : Option Receipt). recorded (is_some o) (some c) slot (told slot s)) (sym new);
    receipts = λ j.
        seen-advance e.event_id "committed" e.sequence (some (next c id s).memory_id)
          (with_record (next c id s) s) j new;
    kept = record {
      numbered = λ slot.
          subst (Numbered none 0) (sym (rows-with_record c id s fresh slot))
            (next_in_order c id s h slot);
    };
  }

process_new_told :
    (e : Event) (c : Option MemoryCandidate) (id : String) (s : Store)
    → IsHistory s
    → lookup id s.memory_records ≡ none
    → find_receipt "memory" e.event_id s.consumer_receipts ≡ none
    → Remembered e c s (process_new e c id s)
process_new_told e none id s h fresh new = record {
  returns = (none, refl);
  histories = λ slot. unfold advance_consumer_in_transaction in rw new;
  receipts = λ j. seen-advance e.event_id "ignored" e.sequence none s j new;
  kept = unfold advance_consumer_in_transaction in record { numbered = h.numbered };
}
process_new_told e (some c) id s h fresh new =
    rw (insert_next c id s h fresh) (process_told e c id s h fresh new)

-- Processing an event, with a new id for its record, returns; it adds what the event proposes to the
-- end of the history of its slot if the event is new, leaves all other histories, and marks the event
-- and no other as seen. The revisions of each slot stay numbered, each naming the record before it.
pub process_memory_event-Remembered :
    (e : Event) (c : Option MemoryCandidate) (id : String) (s : Store)
    → IsHistory s
    → lookup id s.memory_records ≡ none
    → Remembered e c s (process_memory_event e c id s)
unfolding process_memory_event
process_memory_event-Remembered e c id s h fresh =
    elim (Option-cases (find_receipt "memory" e.event_id s.consumer_receipts)) [
      | inl new ↦ rw new (process_new_told e c id s h fresh new)
      | inr (q, old) ↦ rw old (record {
        returns = (_, refl);
        histories = λ slot. rw old;
        receipts = λ j. seen_again e.event_id j s (rw old);
        kept = h;
      })
    ]
