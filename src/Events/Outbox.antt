-- ===== src/Events/Outbox.antt =====
-- That `dispatch_event_outbox` (liandanlu_native/storage.py) loses no row of the outbox.
use codex_test.Prelude.{
  ℕ, zero, suc, eq_refl, ◌≤◌, ◌≡◌, refl, sym, ap, ◌∙◌, subst, String, Bool, true, not, ◌||◌, Option,
  some, List, [], ◌∷◌, inl, inr, arith, ◌==◌, nat_eq, length, Bool-cases, take, select, All,
  some_of, some_of-append, select_pass, select_fail,
}
use codex_test.Models.{Event}
use codex_test.Storage.{Store, OutboxRow}
use codex_test.Storage.Outbox.{
  dispatch_row, dispatch_rows, dispatch_event_outbox, pending_outbox, is_logged, id_or_new,
  set_dispatched, find_event, emit,
}

-- The row has been dispatched, or one of `rows` has its key.
abbrev is_taken : List OutboxRow → OutboxRow → Bool
is_taken rows r = r.dispatched || some_of (λ (q : OutboxRow). nat_eq q.outbox_id r.outbox_id) rows

AllTaken : List OutboxRow → List OutboxRow → Type 0
AllTaken rows outbox = All (λ r. is_taken rows r ≡ true) outbox

set_dispatched-taken :
    (q : OutboxRow) (rows : List OutboxRow) (id : String) (outbox : List OutboxRow)
    → All (λ r. is_taken (q ∷ rows) r ≡ true) outbox
    → All (λ r. is_taken rows r ≡ true) (set_dispatched q.outbox_id id outbox)
set_dispatched-taken q rows id [] h = tt
set_dispatched-taken q rows id (r ∷ outbox) h =
    (ground (arith, h.0), set_dispatched-taken q rows id outbox h.1)

more-taken :
    (q : OutboxRow) (rows outbox : List OutboxRow)
    → All (λ r. is_taken rows r ≡ true) outbox
    → All (λ r. is_taken (q ∷ rows) r ≡ true) outbox
more-taken q rows [] h = tt
more-taken q rows (r ∷ outbox) h = (ground (arith, h.0), more-taken q rows outbox h.1)

pending : List OutboxRow → List OutboxRow
pending outbox = select (λ r. not r.dispatched) outbox

pending-taken : (outbox : List OutboxRow) → All (λ r. is_taken (pending outbox) r ≡ true) outbox
unfolding pending
pending-taken [] = tt
pending-taken (r ∷ outbox) = elim (Bool-cases r.dispatched) [
  | inl done ↦
      let same = select_fail (λ (q : OutboxRow). not q.dispatched) r outbox (ap not done) in
      (
        ground (arith, done),
        subst (λ rows. All (λ q. is_taken rows q ≡ true) outbox) (sym same) (pending-taken outbox),
      )
  | inr waiting ↦
      let same = select_pass (λ (q : OutboxRow). not q.dispatched) r outbox (ap not waiting) in
      (
        subst (λ rows. is_taken rows r ≡ true) (sym same) (ground arith),
        subst (λ rows. All (λ q. is_taken rows q ≡ true) outbox) (sym same)
            (more-taken r (pending outbox) outbox (pending-taken outbox)),
      )
]

taken-none :
    (outbox : List OutboxRow) → All (λ r. is_taken [] r ≡ true) outbox → pending outbox ≡ []
unfolding pending
taken-none [] h = refl
taken-none (r ∷ outbox) h = ground (arith, h.0, taken-none outbox h.1)

dispatch_row-outbox :
    (q : OutboxRow) (fresh : String) (at : ℕ) (s : Store)
    → (dispatch_row q fresh at s).event_outbox
      ≡ set_dispatched q.outbox_id (id_or_new q.event_id fresh) s.event_outbox
unfolding dispatch_row
dispatch_row-outbox q fresh at s =
    elim (Bool-cases (is_logged (id_or_new q.event_id fresh) s.events)) [
      | inl present ↦ rw present refl
      | inr absent ↦ rw absent refl
    ]

dispatch_rows-taken :
    (rows : List OutboxRow) (fresh : ℕ → String) (at : ℕ → ℕ) (s : Store)
    → All (λ r. is_taken rows r ≡ true) s.event_outbox
    → All (λ r. is_taken [] r ≡ true) (dispatch_rows rows fresh at s).1.event_outbox
unfolding dispatch_rows
dispatch_rows-taken [] fresh at s h = h
dispatch_rows-taken (q ∷ rows) fresh at s h =
    let mid = dispatch_row q (fresh q.outbox_id) (at q.outbox_id) s in
    dispatch_rows-taken rows fresh at mid (
      subst (λ o. All (λ r. is_taken rows r ≡ true) o)
        (sym (dispatch_row-outbox q (fresh q.outbox_id) (at q.outbox_id) s))
        (set_dispatched-taken q rows _ s.event_outbox h))

find_event_lem :
    (id : String) (es : List Event)
    → is_logged id es ≡ true
    → (e : Event) × (find_event id es ≡ some e)
unfolding find_event
find_event_lem id [] h = ground (arith, h)
find_event_lem id (e ∷ es) h = elim (Bool-cases (e.event_id == id)) [
  | inl same ↦ (e, rw same refl)
  | inr other ↦
      let rest = find_event_lem id es (ground (arith, h, other)) in (rest.0, rw other rest.1)
]

dispatch_row-is_logged :
    (q : OutboxRow) (fresh : String) (at : ℕ) (s : Store)
    → is_logged (id_or_new q.event_id fresh) (dispatch_row q fresh at s).events ≡ true
unfolding dispatch_row
dispatch_row-is_logged q fresh at s =
    elim (Bool-cases (is_logged (id_or_new q.event_id fresh) s.events)) [
      | inl present ↦ rw present present
      | inr absent ↦ rw absent (
          some_of-append (λ (e : Event). e.event_id == id_or_new q.event_id fresh) s.events _
          ∙ ground (arith, eq_refl (id_or_new q.event_id fresh)))
    ]

length-emit :
    (o : Option Event) (rest : List Event) (e : Event)
    → o ≡ some e
    → length (emit o rest) ≡ suc (length rest)
length-emit o rest e h = rw h refl

dispatch_rows-length :
    (rows : List OutboxRow) (fresh : ℕ → String) (at : ℕ → ℕ) (s : Store)
    → length (dispatch_rows rows fresh at s).0 ≡ length rows
unfolding dispatch_rows
dispatch_rows-length [] fresh at s = refl
dispatch_rows-length (q ∷ rows) fresh at s =
    let mid = dispatch_row q (fresh q.outbox_id) (at q.outbox_id) s in
    let id = id_or_new q.event_id (fresh q.outbox_id) in
    let hit =
      find_event_lem id mid.events
        (dispatch_row-is_logged q (fresh q.outbox_id) (at q.outbox_id) s) in
    length-emit (find_event id mid.events) _ hit.0 hit.1
    ∙ ap suc (dispatch_rows-length rows fresh at mid)

take_all {ℓ} : {A : Type ℓ} (n : ℕ) (xs : List A) → length xs ≤ n → take n xs ≡ xs
take_all zero [] h = refl
take_all (suc n) [] h = refl
take_all zero (x ∷ xs) h = ground (arith, h)
take_all (suc n) (x ∷ xs) h = ap (λ t. x ∷ t) (take_all n xs (omega (arith, h)))

-- When no more rows wait than the limit, a dispatch returns one event for each row that waited and leaves
-- none waiting.
pub dispatch_event_outbox-pending_outbox :
    (limit : ℕ) (fresh : ℕ → String) (at : ℕ → ℕ) (s : Store)
    → length (pending_outbox s) ≤ limit
    → (pending_outbox (dispatch_event_outbox limit fresh at s).1 ≡ [])
      × (length (dispatch_event_outbox limit fresh at s).0 ≡ length (pending_outbox s))
unfolding dispatch_event_outbox pending_outbox pending
dispatch_event_outbox-pending_outbox limit fresh at s h =
    let all = take_all limit (pending s.event_outbox) h in
    (
      taken-none _ (
          dispatch_rows-taken (take limit (pending s.event_outbox)) fresh at s (
            subst (λ rows. All (λ r. is_taken rows r ≡ true) s.event_outbox) (sym all)
              (pending-taken s.event_outbox))),
      dispatch_rows-length _ fresh at s ∙ ap length all,
    )
