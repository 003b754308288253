-- ===== src/Resources/Held.antt =====
-- Sums over the leases of a table that are active at a time, and how a write to one row changes them.
use codex_test.Prelude.{
  ℕ, ◌+◌, ◌≤◌, ◌≡◌, refl, String, true, false, none, some, List, [], ◌∷◌, arith, ◌==◌, eq_iff, ltb,
  if◌then◌else◌, contains, some_of,
}
use codex_test.Prelude.Dict.{Dict, lookup, insert, IsKeyed}
use codex_test.Models.{ResourceRequest, ResourceLease}
use codex_test.Resources.Usage.{total, labels_clash}
use codex_test.Storage.ResourceLeases.{active_rows}

-- What one lease counts for at a time.
abbrev pub counted : (ResourceLease → ℕ) → ℕ → ResourceLease → ℕ
counted weight at l = if ltb at l.lease_until then weight l else 0

module _ (weight : ResourceLease → ℕ) where
  unfoldable pub held : ℕ → Dict ResourceLease → ℕ
  held at [] = 0
  held at ((k, l) ∷ d) = counted weight at l + held at d

  unfoldable pub held_except : String → ℕ → Dict ResourceLease → ℕ
  held_except task at [] = 0
  held_except task at ((k, l) ∷ d) =
      (if k == task then 0 else counted weight at l) + held_except task at d

  -- As time goes by, leases run out and none comes back.
  pub held_mono : (a b : ℕ) (d : Dict ResourceLease) → a ≤ b → held b d ≤ held a d
  unfolding held
  held_mono a b [] h = omega arith
  held_mono a b ((k, l) ∷ d) h = ground (arith, held_mono a b d h)

  pub held_except-le :
      (task : String) (at : ℕ) (d : Dict ResourceLease) → held_except task at d ≤ held at d
  unfolding held held_except
  held_except-le task at [] = omega arith
  held_except-le task at ((k, l) ∷ d) = ground (arith, held_except-le task at d)

  held_except-fresh :
      (task : String) (at : ℕ) (d : Dict ResourceLease)
      → lookup task d ≡ none
      → held_except task at d ≡ held at d
  unfolding held held_except lookup
  held_except-fresh task at [] h = refl
  held_except-fresh task at ((k, l) ∷ d) h = ground (arith, held_except-fresh task at d)

  pub held-insert :
      (task : String) (l : ResourceLease) (at : ℕ) (d : Dict ResourceLease)
      → IsKeyed d
      → held at (insert task l d) ≡ counted weight at l + held_except task at d
  unfolding held held_except insert
  held-insert task l at [] u = refl
  held-insert task l at ((k, m) ∷ d) u =
      ground (arith, held-insert task l at d u.1, held_except-fresh task at d, u.0, eq_iff k task)

  pub held-split :
      (task : String) (l : ResourceLease) (at : ℕ) (d : Dict ResourceLease)
      → IsKeyed d
      → lookup task d ≡ some l
      → held at d ≡ counted weight at l + held_except task at d
  unfolding held held_except lookup
  held-split task l at [] u h = cc
  held-split task l at ((k, m) ∷ d) u h =
      ground (arith, held-split task l at d u.1, held_except-fresh task at d, u.0, eq_iff k task)

-- The sum that the code makes over the rows of the other tasks.
pub total-active_rows :
    (units : ResourceRequest → ℕ) (task : String) (at : ℕ) (d : Dict ResourceLease)
    → total units (active_rows at task d) ≡ held_except (λ l. units l.request) task at d
unfolding active_rows held_except
total-active_rows units task at [] = refl
total-active_rows units task at ((k, l) ∷ d) = ground (arith, total-active_rows units task at d)

-- 1 if the lease holds the label.
abbrev pub holds : String → ResourceLease → ℕ
holds label l = if contains label l.request.exclusive_labels then 1 else 0

unheld :
    (label : String) (task : String) (at : ℕ) (d : Dict ResourceLease)
    → some_of (λ l. contains label l.request.exclusive_labels) (active_rows at task d) ≡ false
    → held_except (holds label) task at d ≡ 0
unfolding active_rows held_except
unheld label task at [] h = refl
unheld label task at ((k, l) ∷ d) h = ground (arith, unheld label task at d)

-- A label that a request asks for without a clash is held by no other task.
pub no_clash :
    (label : String) (labels : List String) (task : String) (at : ℕ) (d : Dict ResourceLease)
    → labels_clash (active_rows at task d) labels ≡ false
    → contains label labels ≡ true
    → held_except (holds label) task at d ≡ 0
no_clash label [] task at d h m = cc
no_clash label (x ∷ xs) task at d h m =
    ground (arith, unheld label task at d, no_clash label xs task at d, eq_iff x label)
