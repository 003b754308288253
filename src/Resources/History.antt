-- ===== src/Resources/History.antt =====
-- Histories of calls on the resource leases of a store (liandanlu_native/storage.py), each at the time
-- that its `now()` returned.
use codex_test.Prelude.{ℕ, ◌≤◌, String, List, [], ◌∷◌, arith}
use codex_test.Prelude.Int.{ℤ}
use codex_test.Models.{ResourceRequest, ResourceCapacity, ResourceLease}
use codex_test.Storage.{Store, new_store}
use codex_test.Storage.ResourceLeases.{
  acquire_resource_lease, renew_resource_lease, release_resource_lease,
}
use codex_test.Resources.Held.{held}
use codex_test.Resources.Capacity.{
  WithinCapacity, WithinCapacity-later, Fits, acquire-Fits, renew-Fits, release-Fits,
}

pub data Call : Type 0 where
  acquires : String → String → ResourceRequest → ℤ → Call
  renews : ResourceLease → ℤ → Call
  releases : ResourceLease → Call

unfoldable pub step : ResourceCapacity → ℕ → Call → Store → Store
step c ts (acquires task owner request seconds) s =
    (acquire_resource_lease task owner request c seconds ts s).1
step c ts (renews lease seconds) s = (renew_resource_lease lease seconds ts s).1
step c ts (releases lease) s = (release_resource_lease lease s).1

unfoldable pub run : ResourceCapacity → List (ℕ × Call) → Store → Store
unfolding step
run c [] s = s
run c ((ts, call) ∷ calls) s = run c calls (step c ts call s)

-- The clock never goes back from `at` on.
abbrev pub IsOrdered : ℕ → List (ℕ × Call) → Type 0
IsOrdered at [] = Unit
IsOrdered at ((ts, call) ∷ calls) = (at ≤ ts) × IsOrdered ts calls

abbrev pub end_time : ℕ → List (ℕ × Call) → ℕ
end_time at [] = at
end_time at ((ts, call) ∷ calls) = end_time ts calls

step-Fits :
    (c : ResourceCapacity) (ts : ℕ) (call : Call) (s : Store)
    → Fits c ts s
    → Fits c ts (step c ts call s)
unfolding step
step-Fits c ts (acquires task owner request seconds) s v =
    acquire-Fits c task owner request seconds ts s v
step-Fits c ts (renews lease seconds) s v = renew-Fits c lease seconds ts s v
step-Fits c ts (releases lease) s v = release-Fits c lease ts s v

run-Fits :
    (c : ResourceCapacity) (at : ℕ) (calls : List (ℕ × Call)) (s : Store)
    → IsOrdered at calls
    → Fits c at s
    → Fits c (end_time at calls) (run c calls s)
unfolding run
run-Fits c at [] s h v = v
run-Fits c at ((ts, call) ∷ calls) s h v =
    run-Fits c ts calls (step c ts call s) h.1
      (step-Fits c ts call s (WithinCapacity-later c at ts s.resource_leases h.0 v))

new_store-Fits : (c : ResourceCapacity) (at : ℕ) → Fits c at new_store
unfolding held
new_store-Fits c at = record {
  keyed = tt;
  cpu = omega arith;
  memory = omega arith;
  gpu = omega arith;
  exclusive = λ label. omega arith;
}

-- Whatever tasks ask for, renew and release, as long as the clock does not go back: the leases that are
-- active together never exceed the CPU, memory or GPU capacity, and no two hold one label.
pub run-WithinCapacity :
    (c : ResourceCapacity) (at : ℕ) (calls : List (ℕ × Call))
    → IsOrdered at calls
    → WithinCapacity c (end_time at calls) (run c calls new_store).resource_leases
run-WithinCapacity c at calls h = run-Fits c at calls new_store h (new_store-Fits c at)
