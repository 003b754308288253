-- ===== src/Brain.antt =====
-- liandanlu_native/brain.py: which snapshots of the brain may be used, and how far its consumer is. The
-- predictions and the novelty of a snapshot, floating point numbers that no method reads, are left out.
use codex_test.Prelude.{
  ℕ, ◌+◌, ◌-◌, ◌≤◌, ◌≡◌, ◌↔◌, max, refl, String, Bool, true, false, ◌||◌, Option, none, some, arith,
  ltb, leb, if◌then◌else◌,
}

pub record BrainSnapshot : Type 0 where
  pub snapshot_id : String
  pub brain_version : String
  pub encoder_version : String
  pub processed_event_seq : ℕ
  pub valid_until_seq : Option ℕ

abbrev pub is_outdated : Option ℕ → ℕ → Bool
is_outdated none seq = false
is_outdated (some limit) seq = ltb limit seq

-- `lag < 0` is that the snapshot is ahead of the engine.
unfoldable pub usable : BrainSnapshot → ℕ → ℕ → Bool
usable b engine_event_seq max_lag =
    if ltb engine_event_seq b.processed_event_seq
      || ltb max_lag (engine_event_seq - b.processed_event_seq)
    then false
    else if is_outdated b.valid_until_seq engine_event_seq
    then false
    else true

-- The snapshot names no end of its validity, or one that has not passed.
abbrev pub IsValid : Option ℕ → ℕ → Type 0
IsValid none seq = Unit
IsValid (some limit) seq = seq ≤ limit

is_outdated_iff : (o : Option ℕ) (seq : ℕ) → (is_outdated o seq ≡ false) ↔ IsValid o seq
is_outdated_iff none seq = (λ h. tt, λ h. refl)
is_outdated_iff (some limit) seq = (λ h. ground (arith, h), λ h. ground (arith, h))

-- A snapshot is usable exactly if it is not ahead of the engine, at most `max_lag` events behind it, and
-- still valid.
pub usable_iff :
    (b : BrainSnapshot) (seq max_lag : ℕ)
    → (usable b seq max_lag ≡ true) ↔ (
        (b.processed_event_seq ≤ seq)
        × (seq ≤ b.processed_event_seq + max_lag)
        × IsValid b.valid_until_seq seq)
unfolding usable
usable_iff b seq max_lag =
    let valid = is_outdated_iff b.valid_until_seq seq in
    (
      λ h. (ground (arith, h), ground (arith, h), valid.0 (ground (arith, h))),
      λ h. ground (arith, h.0, h.1, valid.1 h.2),
    )

pub data ConsumerState : Type 0 where
  offline live lagging : ConsumerState

pub record FlyConsumerState : Type 0 where
  pub brain_version : String
  pub last_received_sequence : ℕ
  pub last_processed_sequence : ℕ
  pub last_checkpoint_sequence : ℕ
  pub state : ConsumerState

unfoldable pub lag : FlyConsumerState → ℕ → ℕ
lag f latest_allowed_sequence = latest_allowed_sequence - f.last_processed_sequence

unfoldable pub receive : ℕ → FlyConsumerState → FlyConsumerState
receive sequence f = record f { last_received_sequence = max f.last_received_sequence sequence }

unfoldable pub processed : ℕ → FlyConsumerState → FlyConsumerState
processed sequence f =
    let done = max f.last_processed_sequence sequence in
    record f {
      last_processed_sequence = done;
      state = if leb f.last_received_sequence done then live else lagging;
    }

-- Processing never raises the lag, and makes the consumer live exactly if it has then processed up to
-- the last sequence received before; a later reception leaves the state as it is.
pub processed_lem :
    (sequence later latest : ℕ) (f : FlyConsumerState)
    → (lag (processed sequence f) latest ≤ lag f latest)
      × (((receive later (processed sequence f)).state ≡ live)
          ↔ (f.last_received_sequence ≤ (processed sequence f).last_processed_sequence))
unfolding lag processed receive
processed_lem sequence later latest f =
    (omega arith, (λ h. ground (arith, h), λ h. ground (arith, h)))
