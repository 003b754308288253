-- ===== src/Events/Delivery.antt =====
-- What a consumer of the log reads and acknowledges (liandanlu_native/storage.py).
use codex_test.Prelude.{
  ℕ, ◌≤◌, ◌<◌, ◌≡◌, ◌≢◌, refl, sym, ap, ap₂, ◌∙◌, String, Bool, List, [], ◌∷◌, ◌++◌, inl, inr,
  arith, eq_iff, ltb, Bool-cases, select, Result, ok, err, ◌↔◌, value_error, max,
}
use codex_test.Prelude.Dict.{lookup, lookup-insert, lookup-insert_self}
use codex_test.Models.{Event}
use codex_test.Storage.{Store}
use codex_test.Storage.Outbox.{
  dispatch_event_outbox, max_sequence, cursor_of, read_events_after, ack_event_consumer,
}
use codex_test.Events.Log.{IsLog, IsSorted, dispatch_event_outbox-IsLog}

-- The consumer's cursor.
abbrev pub cursor : String → Store → ℕ
cursor consumer s = cursor_of (lookup consumer s.consumer_cursors)

-- What an acknowledgement leaves.
pub record Acked (consumer : String) (sequence : ℕ) (s : Store) (r : Result (Unit {0}) × Store)
    : Type 0 where
  pub stale : sequence < cursor consumer s → r ≡ (ok tt, s)
  pub forward : cursor consumer s ≤ cursor consumer r.1
  pub others : (k : String) → k ≢ consumer → cursor k r.1 ≡ cursor k s
  pub log : r.1.events ≡ s.events
  pub raises :
      (r.0 ≡ err value_error)
      ↔ ((cursor consumer s ≤ sequence) × (max_sequence s.events < sequence))
  pub refused : r.0 ≡ err value_error → r.1 ≡ s
  pub taken :
      cursor consumer s ≤ sequence
      → sequence ≤ max_sequence s.events
      → (r.0 ≡ ok tt) × (cursor consumer r.1 ≡ sequence)

-- An acknowledgement of a number behind the cursor returns and changes nothing, one beyond the log raises
-- and changes nothing, and any other returns and becomes the cursor of that consumer and of no other; no
-- cursor goes back, and the log is not touched.
pub ack_event_consumer-Acked :
    (consumer : String) (sequence : ℕ) (s : Store)
    → Acked consumer sequence s (ack_event_consumer consumer sequence s)
unfolding ack_event_consumer
ack_event_consumer-Acked consumer sequence s =
    elim (Bool-cases (ltb sequence (cursor consumer s))) [
      | inl behind ↦ rw behind (record {
        stale = λ h. refl;
        refused = λ h. refl;
        forward = omega arith;
        others = λ k ne. refl;
        log = refl;
        raises = (λ h. ground (arith, h), λ h. ground (arith, h, behind));
        taken = λ h k. ground (arith, h, behind);
      })
      | inr reached ↦ elim (Bool-cases (ltb (max_sequence s.events) sequence)) [
        | inl beyond ↦
            rw (reached, beyond)
              (record {
                stale = λ h. ground (arith, h, reached);
                refused = λ h. refl;
                forward = omega arith;
                others = λ k ne. refl;
                log = refl;
                raises = (λ h. (ground (arith, reached), ground (arith, beyond)), λ h. refl);
                taken = λ h k. ground (arith, k, beyond);
              })
        | inr within ↦
            rw (reached, within)
              (record {
                stale = λ h. ground (arith, h, reached);
                refused = λ h. ground (arith, h);
                forward =
                    ground
                      (arith, reached, lookup-insert_self consumer sequence s.consumer_cursors);
                others = λ k ne. ground (
                  arith,
                  ne,
                  lookup-insert consumer k sequence s.consumer_cursors,
                  eq_iff consumer k,
                );
                log = refl;
                raises = (λ h. ground (arith, h), λ h. ground (arith, h, within));
                taken = λ h k.
                    (refl, ground (arith, lookup-insert_self consumer sequence s.consumer_cursors));
              })
      ]
    ]

max_le : (a b n : ℕ) → max a b ≤ n → (a ≤ n) × (b ≤ n)
max_le a b n h = (omega (arith, h), omega (arith, h))

none_read : (n : ℕ) (es : List Event) → max_sequence es ≤ n → select (λ e. ltb n e.sequence) es ≡ []
none_read n [] h = refl
none_read n (e ∷ es) h =
    let (here, later) = max_le e.sequence (max_sequence es) n h in
    ground (arith, here, none_read n es later)

all_read :
    (n low high : ℕ) (es : List Event)
    → n ≤ low
    → IsSorted low es high
    → select (λ e. ltb n e.sequence) es ≡ es
all_read n low high [] k h = refl
all_read n low high (e ∷ es) k h =
    ground (arith, k, h.0, all_read n e.sequence high es (omega (arith, k, h.0)) h.1)

select-append {ℓ} :
    {A : Type ℓ} (p : A → Bool) (xs ys : List A) → select p (xs ++ ys) ≡ select p xs ++ select p ys
select-append p [] ys = refl
select-append p (x ∷ xs) ys = ground (arith, select-append p xs ys)

-- What a consumer reads after a dispatch, whose cursor had reached the end of the log and no number that
-- was not given out yet, is what that dispatch added to the log, in order: each event reaches it once.
pub dispatch-read_events_after :
    (consumer : String) (limit : ℕ) (fresh : ℕ → String) (at : ℕ → ℕ) (s : Store)
    → IsLog s
    → max_sequence s.events ≤ cursor consumer s
    → cursor consumer s ≤ s.last_sequence
    → let t = (dispatch_event_outbox limit fresh at s).1 in
      (t.events ≡ s.events ++ read_events_after consumer t) × (read_events_after consumer s ≡ [])
unfolding IsLog read_events_after
dispatch-read_events_after consumer limit fresh at s h all known =
    let g = (dispatch_event_outbox-IsLog limit fresh at s h).0 in
    let unread : ℕ → List Event → List Event = λ n. select (λ v. ltb n v.sequence) in
    let n : ℕ = cursor consumer s in
    let old = none_read n s.events all in
    let new = all_read n s.last_sequence _ g.more known g.sorted in
    (
      g.log
          ∙ ap (λ xs. s.events ++ xs)
              (sym (
                ap (unread (cursor consumer (dispatch_event_outbox limit fresh at s).1)) g.log
                ∙ ap (λ m. unread m (s.events ++ g.more))
                    (ap (λ c. cursor_of (lookup consumer c)) g.cursors)
                ∙ select-append (λ v. ltb n v.sequence) s.events g.more
                ∙ ap₂ ◌++◌ old new)),
      old,
    )
