-- ===== src/Storage/TaskLeases/Order.antt =====
-- ORDER BY and LIMIT 1 of `SQLiteStore.claim_next_task` (liandanlu_native/storage.py).
use codex_test.Prelude.{
  ℕ, ◌≡◌, refl, subst, Bool, true, false, ◌&&◌, ◌||◌, Option, none, some, List, [], ◌∷◌, inl, inr,
  ◌⊎◌, arith, ◌==◌, ltb, nat_eq, All, if◌then◌else◌, Bool-cases,
}
use codex_test.Prelude.Int.{ltb_ℤ, eq_ℤ}
use codex_test.Prelude.Texts.{text_lt, text_lt-asym, not_text_lt_trans}
use codex_test.Models.{Task}

-- CASE WHEN t.lane='interactive' THEN 0 ELSE 1 END
unfoldable pub lane_rank : Task → ℕ
lane_rank t = if t.lane == "interactive" then 0 else 1

abbrev pub queue_time : Task → ℕ
queue_time t = elim t.queued_at [ none ↦ 0 | some at ↦ at ]

-- The interactive lane first, then the greater priority, the earlier time, the smaller id.
unfoldable pub precedes : Task → Task → Bool
precedes a b =
    ltb (lane_rank a) (lane_rank b)
    || (nat_eq (lane_rank a) (lane_rank b)
        && (ltb_ℤ b.priority a.priority
            || (eq_ℤ a.priority b.priority
                && (ltb (queue_time a) (queue_time b)
                    || (nat_eq (queue_time a) (queue_time b) && text_lt a.task_id b.task_id)))))

abbrev pub earlier : Task → Task → Task
earlier t b = if precedes t b then t else b

unfoldable pub pick : Task → List Task → Task
pick b [] = b
pick b (t ∷ ts) = pick (earlier t b) ts

unfoldable pub first_task : List Task → Option Task
unfolding pick
first_task [] = none
first_task (t ∷ ts) = some (pick t ts)

precedes-asym : (a b : Task) → precedes a b ≡ true → precedes b a ≡ false
unfolding precedes
precedes-asym a b h = ground (arith, text_lt-asym a.task_id b.task_id)

irreflexive : (a : Task) → precedes a a ≡ false
irreflexive a = elim (Bool-cases (precedes a a)) [
  | inl before ↦ cc (precedes-asym a a before)
  | inr after ↦ after
]

not_precedes_trans :
    (a b c : Task) → precedes a b ≡ false → precedes b c ≡ false → precedes a c ≡ false
unfolding precedes
not_precedes_trans a b c h k = ground (arith, not_text_lt_trans a.task_id b.task_id c.task_id)

-- Nothing in the list precedes the task.
abbrev pub IsFirst : Task → List Task → Type 0
IsFirst b = All (λ t. precedes t b ≡ false)

abbrev pub IsOneOf : Task → List Task → Type 0
IsOneOf b [] = ⊥
IsOneOf b (t ∷ ts) = (t ≡ b) ⊎ IsOneOf b ts

pick_earlier : (b t : Task) (ts : List Task) → precedes t b ≡ true → pick t ts ≡ pick b (t ∷ ts)
unfolding pick
pick_earlier b t ts before = rw before

pick_kept : (b t : Task) (ts : List Task) → precedes t b ≡ false → pick b ts ≡ pick b (t ∷ ts)
unfolding pick
pick_kept b t ts after = rw after

pick-IsFirst :
    (b : Task) (ts : List Task)
    → precedes b b ≡ false
    → (precedes b (pick b ts) ≡ false) × IsFirst (pick b ts) ts
unfolding pick
pick-IsFirst b [] irr = (irr, tt)
pick-IsFirst b (t ∷ ts) irr = elim (Bool-cases (precedes t b)) [
  | inl before ↦
      let rest = pick-IsFirst t ts (irreflexive t) in
      subst (λ p. (precedes b p ≡ false) × IsFirst p (t ∷ ts)) (pick_earlier b t ts before)
        (not_precedes_trans b t (pick t ts) (precedes-asym t b before) rest.0, rest)
  | inr after ↦
      let rest = pick-IsFirst b ts irr in
      subst (λ p. (precedes b p ≡ false) × IsFirst p (t ∷ ts)) (pick_kept b t ts after)
        (rest.0, (not_precedes_trans t b (pick b ts) after rest.0, rest.1))
]

later_one : (b t p : Task) (ts : List Task) → IsOneOf p (b ∷ ts) → IsOneOf p (b ∷ t ∷ ts)
later_one b t p ts (inl e) = inl e
later_one b t p ts (inr m) = inr (inr m)

pick-IsOneOf : (b : Task) (ts : List Task) → IsOneOf (pick b ts) (b ∷ ts)
unfolding pick
pick-IsOneOf b [] = inl refl
pick-IsOneOf b (t ∷ ts) = elim (Bool-cases (precedes t b)) [
  | inl before ↦
      subst (λ p. IsOneOf p (b ∷ t ∷ ts)) (pick_earlier b t ts before) (inr (pick-IsOneOf t ts))
  | inr after ↦
      subst (λ p. IsOneOf p (b ∷ t ∷ ts)) (pick_kept b t ts after)
        (later_one b t (pick b ts) ts (pick-IsOneOf b ts))
]

-- What ORDER BY … LIMIT 1 returns is a row, and no row comes before it.
pub first_task-IsFirst :
    (ts : List Task) (b : Task) → first_task ts ≡ some b → IsOneOf b ts × IsFirst b ts
unfolding first_task
first_task-IsFirst [] b h = cc
first_task-IsFirst (t ∷ ts) b h =
    let e : pick t ts ≡ b = cc in
    subst (λ p. IsOneOf p (t ∷ ts) × IsFirst p (t ∷ ts)) e
      (pick-IsOneOf t ts, pick-IsFirst t ts (irreflexive t))

pub first_task-none : (ts : List Task) → first_task ts ≡ none → ts ≡ []
unfolding first_task
first_task-none [] h = refl
first_task-none (t ∷ ts) h = cc
