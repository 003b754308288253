-- ===== src/Tests/Resources.antt =====
-- Runs of liandanlu_native/resources.py and of the resource leases of liandanlu_native/storage.py: two tasks
-- and a machine with four CPUs.
use codex_test.Prelude.{ℕ, ◌≡◌, refl, false, none, some, List, [], ◌∷◌, ok, arith}
use codex_test.Prelude.Dict.{lookup, insert}
use codex_test.Prelude.Int.{pos}
use codex_test.Models.{ResourceRequest, ResourceCapacity, ResourceLease}
use codex_test.Storage.{Store, new_store}
use codex_test.Storage.ResourceLeases.{
  acquire_resource_lease, validate_resource_lease_identity, active_rows,
}
use codex_test.Resources.Usage.{exceeds, overcommits}
use codex_test.Resources.Capacity.{WithinCapacity}
use codex_test.Resources.Broker.{ResourceBroker}
use codex_test.Resources.History.{Call, acquires, releases, run, run-WithinCapacity}
use codex_test.Resources.Fencing.{acquire_superseded, acquire_excluded}
use codex_test.Resources.Same.{AllGenuine, broker_replies, store_replies, replies_same}

abbrev machine : ResourceCapacity
machine = record { cpu_units = 4; memory_mb = 100; gpu_units = 1 }

abbrev wants : ResourceRequest
wants = record { cpu_units = 3; memory_mb = 10; gpu_units = 0; exclusive_labels = "screen" ∷ [] }

abbrev calls : List (ℕ × Call)
calls = (1, acquires "a" "w" wants (pos 10)) ∷ (2, acquires "b" "v" wants (pos 10)) ∷ []

run-WithinCapacity_example : WithinCapacity machine 2 (run machine calls new_store).resource_leases
run-WithinCapacity_example = run-WithinCapacity machine 0 calls (omega arith, (omega arith, tt))

abbrev first_lease : ResourceLease
first_lease = record {
  task_id = "a";
  owner_id = "w";
  generation = 1;
  request = wants;
  claimed_at = 1;
  lease_until = 11;
}

abbrev second_lease : ResourceLease
second_lease = record first_lease {
  owner_id = "v";
  generation = 2;
  claimed_at = 20;
  lease_until = 30;
}

abbrev holding : ResourceLease → Store
holding l = let s = new_store in record s { resource_leases = ("a", l) ∷ [] }

first_acquired :
    acquire_resource_lease "a" "w" wants machine (pos 10) 1 new_store
    ≡ (ok (some first_lease), holding first_lease)
unfolding acquire_resource_lease lookup insert exceeds overcommits active_rows
first_acquired = refl

second_acquired :
    acquire_resource_lease "a" "v" wants machine (pos 10) 20 (holding first_lease)
    ≡ (ok (some second_lease), holding second_lease)
unfolding acquire_resource_lease lookup insert exceeds overcommits active_rows
second_acquired = refl

acquire_superseded_example :
    validate_resource_lease_identity "a" "w" 1 25
      (run machine ((26, releases second_lease) ∷ []) (holding second_lease))
    ≡ false
unfolding run
acquire_superseded_example =
    (acquire_superseded machine "a" "w" "v" wants wants (pos 10) (pos 10) 1 20 [] new_store
        (holding first_lease) (holding second_lease) first_lease second_lease first_acquired
        second_acquired).1
      ((26, releases second_lease) ∷ []) 25

acquire_excluded_example :
    (acquire_resource_lease "a" "v" wants machine (pos 10) 5 (holding first_lease)).1
    ≡ holding first_lease
unfolding validate_resource_lease_identity lookup
acquire_excluded_example =
    (acquire_excluded machine "a" "w" "v" 1 5 wants (pos 10) (holding first_lease) refl).0

abbrev broker : ResourceBroker
broker = record { capacity = machine; persistence = none; leases = [] }

replies_same_example : broker_replies calls broker ≡ store_replies machine calls new_store
unfolding AllGenuine
replies_same_example =
    replies_same calls broker new_store
      (record { alone = refl; same = refl; named = record { rows = tt } }) (tt, (tt, tt))
