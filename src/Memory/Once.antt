-- ===== src/Memory/Once.antt =====
-- A redelivered event of the memory consumer (liandanlu_native/storage.py, process_memory_event).
use codex_test.Prelude.{
  ℕ, ◌≡◌, refl, sym, ap, subst, String, true, false, Option, none, some, List, [], ◌∷◌, ◌++◌, arith,
  eq_iff, eq_refl, inl, inr, ◌⊎◌, Bool-cases, Option-cases, Result, ok, err, if◌then◌else◌, ◌==◌,
  ◌&&◌,
}
use codex_test.Prelude.Dict.{lookup, insert, lookup-insert, lookup-insert_self}
use codex_test.Models.{Event}
use codex_test.Storage.{Store, Receipt}
use codex_test.Storage.Memories.{
  find_receipt, add_receipt, advance_consumer_in_transaction, insert_memory_record, newest, rows_of,
  slot_of_candidate, process_memory_event, process_new, result_of, committed,
}
use codex_test.Memory.Records.{MemoryCandidate, MemoryRecord, new_record}
use codex_test.Memory.History.{seen}

-- The receipt of the event leads to the result.
abbrev Leads : Option String → Option MemoryRecord → Store → Type 0
Leads ref m s =
    ((ref ≡ none) × (m ≡ none))
    ⊎ ((r : MemoryRecord) × (id : String) × (ref ≡ some id)
        × (m ≡ some r)
        × ((id == "") ≡ false)
        × (lookup id s.memory_records ≡ some r))

record Settled (event_id : String) (m : Option MemoryRecord) (s : Store) : Type 0 where
  receipt : Receipt
  found : find_receipt "memory" event_id s.consumer_receipts ≡ some receipt
  leads : Leads receipt.result_ref m s

abbrev find_here : Receipt → String → Option Receipt → Option Receipt
find_here r event_id rest =
    if r.consumer_id == "memory" && r.event_id == event_id then some r else rest

find_receipt-append :
    (event_id : String) (q : Receipt) (rs qs : List Receipt)
    → find_receipt "memory" event_id rs ≡ some q
    → find_receipt "memory" event_id (rs ++ qs) ≡ some q
unfolding find_receipt
find_receipt-append event_id q [] qs h = cc
find_receipt-append event_id q (r ∷ rs) qs h =
    elim (Bool-cases (r.consumer_id == "memory" && r.event_id == event_id)) [
      | inl here ↦ ground (arith, here, h)
      | inr there ↦ rw there (find_receipt-append event_id q rs qs (ground (arith, there, h)))
    ]

find_receipt-snoc_self :
    (event_id : String) (q : Receipt) (rs : List Receipt)
    → find_receipt "memory" event_id rs ≡ none
    → (q.consumer_id == "memory") ≡ true
    → (q.event_id == event_id) ≡ true
    → find_receipt "memory" event_id (rs ++ q ∷ []) ≡ some q
unfolding find_receipt
find_receipt-snoc_self event_id q [] h a b = rw (a, b)
find_receipt-snoc_self event_id q (r ∷ rs) h a b =
    elim (Bool-cases (r.consumer_id == "memory" && r.event_id == event_id)) [
      | inl here ↦ ground (arith, here, h)
      | inr there ↦ rw there (find_receipt-snoc_self event_id q rs (ground (arith, there, h)) a b)
    ]

-- A receipt that is there stays the one that is found.
find_receipt-advance :
    (event_id : String) (q : Receipt) (id status : String) (n : ℕ) (ref : Option String) (s : Store)
    → find_receipt "memory" event_id s.consumer_receipts ≡ some q
    → find_receipt "memory" event_id
        (advance_consumer_in_transaction "memory" id n status ref s).consumer_receipts
      ≡ some q
unfolding advance_consumer_in_transaction add_receipt
find_receipt-advance event_id q id status n ref s h =
    elim (Option-cases (find_receipt "memory" id s.consumer_receipts)) [
      | inl new ↦ rw new (find_receipt-append event_id q s.consumer_receipts _ h)
      | inr (r, old) ↦ rw old h
    ]

lookup-insert_new {ℓ} :
    {V : Type ℓ} (k j : String) (v w : V) (d : List (String × V))
    → lookup k d ≡ none
    → lookup j d ≡ some w
    → lookup j (insert k v d) ≡ some w
lookup-insert_new k j v w d h e = ground (arith, lookup-insert k j v d, eq_iff k j, h, e)

-- The records only grow.
abbrev Grows : Store → Store → Type 0
Grows s t =
    (id : String) (r : MemoryRecord)
    → lookup id s.memory_records ≡ some r
    → lookup id t.memory_records ≡ some r

Leads-Grows :
    (ref : Option String) (m : Option MemoryRecord) (s t : Store)
    → Grows s t
    → Leads ref m s
    → Leads ref m t
Leads-Grows ref m s t g (inl h) = inl h
Leads-Grows ref m s t g (inr (r, id, a, b, c, e)) = inr (r, id, a, b, c, g id r e)

insert-Grows :
    (r : MemoryRecord) (s t : Store)
    → insert_memory_record r s ≡ ok t
    → Grows s t
      × (t.consumer_receipts ≡ s.consumer_receipts)
      × (lookup r.memory_id t.memory_records ≡ some r)
unfolding insert_memory_record
insert-Grows r s t h = elim (Option-cases (lookup r.memory_id s.memory_records)) [
  | inl new ↦ (
    λ id q e. ground (arith, h, e, lookup-insert_new r.memory_id id r q s.memory_records new e),
    ground (arith, h, new),
    ground (arith, h, new, lookup-insert_self r.memory_id r s.memory_records),
  )
  | inr (q, old) ↦ ground (arith, h, old)
]

committed-Settled :
    (j : String) (m : Option MemoryRecord) (e : Event) (r : MemoryRecord) (i : Result Store)
    (s : Store)
    → insert_memory_record r s ≡ i
    → Settled j m s
    → Settled j m (committed e r i s).1
committed-Settled j m e r (err x) s eq h = h
committed-Settled j m e r (ok t) s eq h =
    let (g, same, at) = insert-Grows r s t eq in
    record {
      receipt = h.receipt;
      found =
          find_receipt-advance j h.receipt e.event_id "committed" e.sequence (some r.memory_id) t
            (rw same h.found);
      leads =
          unfold advance_consumer_in_transaction in
          Leads-Grows h.receipt.result_ref m s t g h.leads;
    }

process_new-Settled :
    (j : String) (m : Option MemoryRecord) (e : Event) (c : Option MemoryCandidate) (id : String)
    (s : Store)
    → Settled j m s
    → Settled j m (process_new e c id s).1
process_new-Settled j m e none id s h = record {
  receipt = h.receipt;
  found = find_receipt-advance j h.receipt e.event_id "ignored" e.sequence none s h.found;
  leads = unfold advance_consumer_in_transaction in h.leads;
}
process_new-Settled j m e (some c) id s h =
    let r : MemoryRecord = new_record c (newest (rows_of (slot_of_candidate c) s)) id in
    committed-Settled j m e r (insert_memory_record r s) s refl h

process-Settled :
    (j : String) (m : Option MemoryRecord) (e : Event) (c : Option MemoryCandidate) (id : String)
    (s : Store)
    → Settled j m s
    → Settled j m (process_memory_event e c id s).1
unfolding process_memory_event
process-Settled j m e c id s h =
    elim (Option-cases (find_receipt "memory" e.event_id s.consumer_receipts)) [
      | inl new ↦ rw new (process_new-Settled j m e c id s h)
      | inr (q, old) ↦ rw old h
    ]

-- What any Settled event returns.
Settled-again :
    (e : Event) (c : Option MemoryCandidate) (id : String) (m : Option MemoryRecord) (s : Store)
    → Settled e.event_id m s
    → process_memory_event e c id s ≡ (ok m, s)
unfolding process_memory_event
Settled-again e c id m s h = rw h.found (ground (arith, result_led h.receipt.result_ref h.leads))
  where
    result_led : (ref : Option String) → Leads ref m s → result_of ref s ≡ m
    result_led ref (inl (a, b)) = ground (arith, a, b)
    result_led ref (inr (r, id, a, b, c, e)) = ground (arith, a, b, c, e)

-- One delivery to the consumer: the event, what it proposes and the id of its record.
pub record Delivery : Type 0 where
  pub event : Event
  pub proposed : Option MemoryCandidate
  pub memory_id : String

abbrev pub deliver_all : List Delivery → Store → Store
deliver_all [] s = s
deliver_all (d ∷ ds) s = deliver_all ds (process_memory_event d.event d.proposed d.memory_id s).1

deliver_all-Settled :
    (j : String) (m : Option MemoryRecord) (ds : List Delivery) (s : Store)
    → Settled j m s
    → Settled j m (deliver_all ds s)
deliver_all-Settled j m [] s h = h
deliver_all-Settled j m (d ∷ ds) s h =
    deliver_all-Settled j m ds _ (process-Settled j m d.event d.proposed d.memory_id s h)

new_receipt :
    (id status : String) (n : ℕ) (ref : Option String) (s : Store)
    → find_receipt "memory" id s.consumer_receipts ≡ none
    → (q : Receipt) × (find_receipt "memory" id
          (advance_consumer_in_transaction "memory" id n status ref s).consumer_receipts
        ≡ some q)
      × (q.result_ref ≡ ref)
unfolding advance_consumer_in_transaction add_receipt
new_receipt id status n ref s h = (
  record { consumer_id = "memory"; event_id = id; sequence = n; status = status; result_ref = ref },
  rw h (find_receipt-snoc_self id _ s.consumer_receipts h (eq_refl "memory") (eq_refl id)),
  refl,
)

committed-Settles :
    (e : Event) (r : MemoryRecord) (i : Result Store) (s t : Store) (m : Option MemoryRecord)
    → insert_memory_record r s ≡ i
    → find_receipt "memory" e.event_id s.consumer_receipts ≡ none
    → (r.memory_id == "") ≡ false
    → committed e r i s ≡ (ok m, t)
    → Settled e.event_id m t
committed-Settles e r (err x) s t m eq new ne h = cc
committed-Settles e r (ok u) s t m eq new ne h =
    let (g, same, at) = insert-Grows r s u eq in
    let (q, found, ref) =
      new_receipt e.event_id "committed" e.sequence (some r.memory_id) u (rw same new) in
    let am : some r ≡ m = ground (arith, h) in
    subst (λ v. Settled e.event_id m v) (ap (λ p. p.1) h)
      (record {
        receipt = q;
        found = found;
        leads = inr (r, r.memory_id, ref, sym am, ne, unfold advance_consumer_in_transaction in at);
      })

process_new-Settles :
    (e : Event) (c : Option MemoryCandidate) (id : String) (s t : Store) (m : Option MemoryRecord)
    → find_receipt "memory" e.event_id s.consumer_receipts ≡ none
    → (id == "") ≡ false
    → process_new e c id s ≡ (ok m, t)
    → Settled e.event_id m t
unfolding new_record
process_new-Settles e none id s t m new ne h =
    let (q, found, ref) = new_receipt e.event_id "ignored" e.sequence none s new in
    let am : none ≡ m = ground (arith, h) in
    subst (λ v. Settled e.event_id m v) (ap (λ p. p.1) h)
      (record { receipt = q; found = found; leads = inl (ref, sym am) })
process_new-Settles e (some c) id s t m new ne h =
    let r : MemoryRecord = new_record c (newest (rows_of (slot_of_candidate c) s)) id in
    committed-Settles e r (insert_memory_record r s) s t m refl new ne h

-- An event that was new when it was processed is processed once: whatever is delivered after it, a
-- second delivery returns the first result and changes nothing, with any proposal and any new id.
pub process_memory_event_once :
    (e : Event) (c : Option MemoryCandidate) (id : String) (s t : Store) (m : Option MemoryRecord)
    (ds : List Delivery) (c' : Option MemoryCandidate) (id' : String)
    → seen e.event_id s ≡ false
    → (id == "") ≡ false
    → process_memory_event e c id s ≡ (ok m, t)
    → process_memory_event e c' id' (deliver_all ds t) ≡ (ok m, deliver_all ds t)
process_memory_event_once e c id s t m ds c' id' new ne h =
    let absent : find_receipt "memory" e.event_id s.consumer_receipts ≡ none =
      ground (arith, new) in
    Settled-again e c' id' m (deliver_all ds t) (
      deliver_all-Settled e.event_id m ds t (
        process_new-Settles e c id s t m absent ne (unfold process_memory_event in rw absent at h)))
