-- ===== src/Events/Log.antt =====
-- The order of the event log (liandanlu_native/storage.py): what `dispatch_event_outbox` appends.
use codex_test.Prelude.{
  ℕ, ◌+◌, ◌≤◌, ◌<◌, ◌≡◌, refl, sym, ap, ◌∙◌, subst, String, false, List, [], ◌∷◌, ◌++◌, inl, inr,
  arith, ◌==◌, eq_iff, Bool-cases, take, some_of-append,
}
use codex_test.Models.{Event}
use codex_test.Storage.{Store, OutboxRow}
use codex_test.Storage.Outbox.{
  dispatch_row, dispatch_rows, dispatch_event_outbox, pending_outbox, is_logged, id_or_new, logged,
}

-- The sequence numbers rise, from above `low` to at most `high`.
abbrev pub IsSorted : ℕ → List Event → ℕ → Type 0
IsSorted low [] high = low ≤ high
IsSorted low (e ∷ es) high = (low < e.sequence) × IsSorted e.sequence es high

-- No two events have one id.
abbrev pub IsUnique : List Event → Type 0
IsUnique [] = Unit
IsUnique (e ∷ es) = (is_logged e.event_id es ≡ false) × IsUnique es

pub append-IsSorted :
    (low mid high : ℕ) (xs ys : List Event)
    → IsSorted low xs mid
    → IsSorted mid ys high
    → IsSorted low (xs ++ ys) high
append-IsSorted low mid high [] [] h k = omega (arith, h, k)
append-IsSorted low mid high [] (y ∷ ys) h k = (omega (arith, h, k.0), k.1)
append-IsSorted low mid high (x ∷ xs) ys h k =
    (h.0, append-IsSorted x.sequence mid high xs ys h.1 k)

snoc-IsUnique :
    (es : List Event) (e : Event)
    → IsUnique es
    → is_logged e.event_id es ≡ false
    → IsUnique (es ++ e ∷ [])
snoc-IsUnique [] e u h = (refl, tt)
snoc-IsUnique (x ∷ xs) e u h = (
  ground (
    arith,
    u.0,
    h,
    some_of-append (λ (v : Event). v.event_id == x.event_id) xs (e ∷ []),
    eq_iff x.event_id e.event_id,
    eq_iff e.event_id x.event_id,
  ),
  snoc-IsUnique xs e u.1 (ground (arith, h)),
)

append_nil : (xs : List Event) → xs ++ [] ≡ xs
append_nil [] = refl
append_nil (x ∷ xs) = ap (λ t. x ∷ t) (append_nil xs)

append_assoc : (xs ys zs : List Event) → xs ++ ys ++ zs ≡ xs ++ (ys ++ zs)
append_assoc [] ys zs = refl
append_assoc (x ∷ xs) ys zs = ap (λ t. x ∷ t) (append_assoc xs ys zs)

-- The log of `s'` is that of `s` with more events behind, numbered after all of them.
pub record Grown (s s' : Store) : Type 0 where
  pub more : List Event
  pub log : s'.events ≡ s.events ++ more
  pub sorted : IsSorted s.last_sequence more s'.last_sequence
  pub unique : IsUnique s.events → IsUnique s'.events
  pub cursors : s'.consumer_cursors ≡ s.consumer_cursors

Grown-refl : (s : Store) → Grown s s
Grown-refl s = record {
  more = [];
  log = sym (append_nil s.events);
  sorted = omega arith;
  unique = λ u. u;
  cursors = refl;
}

Grown-trans : (a b c : Store) → Grown a b → Grown b c → Grown a c
Grown-trans a b c h k = record {
  more = h.more ++ k.more;
  log = k.log ∙ ap (λ t. t ++ k.more) h.log ∙ append_assoc a.events h.more k.more;
  sorted =
      append-IsSorted a.last_sequence b.last_sequence c.last_sequence h.more k.more h.sorted
        k.sorted;
  unique = λ u. k.unique (h.unique u);
  cursors = k.cursors ∙ h.cursors;
}

dispatch_row-Grown :
    (r : OutboxRow) (fresh : String) (at : ℕ) (s : Store) → Grown s (dispatch_row r fresh at s)
unfolding dispatch_row
dispatch_row-Grown r fresh at s =
    elim (Bool-cases (is_logged (id_or_new r.event_id fresh) s.events)) [
      | inl present ↦ rw present (record {
        more = [];
        log = sym (append_nil s.events);
        sorted = omega arith;
        unique = λ u. u;
        cursors = refl;
      })
      | inr absent ↦ rw absent (record {
        more = logged r (id_or_new r.event_id fresh) (s.last_sequence + 1) at ∷ [];
        log = refl;
        sorted = (omega arith, omega arith);
        unique = λ u. snoc-IsUnique s.events _ u absent;
        cursors = refl;
      })
    ]

pub dispatch_rows-Grown :
    (rows : List OutboxRow) (fresh : ℕ → String) (at : ℕ → ℕ) (s : Store)
    → Grown s (dispatch_rows rows fresh at s).1
unfolding dispatch_rows
dispatch_rows-Grown [] fresh at s = Grown-refl s
dispatch_rows-Grown (r ∷ rows) fresh at s =
    let mid = dispatch_row r (fresh r.outbox_id) (at r.outbox_id) s in
    Grown-trans s mid _ (dispatch_row-Grown r (fresh r.outbox_id) (at r.outbox_id) s)
      (dispatch_rows-Grown rows fresh at mid)

unfoldable pub IsLog : Store → Type 0
IsLog s = IsSorted 0 s.events s.last_sequence × IsUnique s.events

-- However dispatches and their limits follow each other, the log is only appended to, its sequence
-- numbers rise strictly, up to the last one given out, and no two of its events have one id.
pub dispatch_event_outbox-IsLog :
    (limit : ℕ) (fresh : ℕ → String) (at : ℕ → ℕ) (s : Store)
    → IsLog s
    → Grown s (dispatch_event_outbox limit fresh at s).1
      × IsLog (dispatch_event_outbox limit fresh at s).1
unfolding dispatch_event_outbox IsLog
dispatch_event_outbox-IsLog limit fresh at s h =
    let g = dispatch_rows-Grown (take limit (pending_outbox s)) fresh at s in
    (
      g,
      (
        subst (λ es. IsSorted 0 es (dispatch_event_outbox limit fresh at s).1.last_sequence)
            (sym g.log) (append-IsSorted 0 s.last_sequence _ s.events g.more h.0 g.sorted),
        g.unique h.1,
      ),
    )
