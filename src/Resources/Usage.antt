-- ===== src/Resources/Usage.antt =====
-- The sums and the label test that `ResourceBroker.acquire` (liandanlu_native/resources.py) and
-- `SQLiteStore.acquire_resource_lease` (liandanlu_native/storage.py) make in the same words.
use codex_test.Prelude.{ℕ, ◌+◌, String, Bool, ◌||◌, List, [], ◌∷◌, ltb, some_of, contains}
use codex_test.Models.{ResourceRequest, ResourceCapacity, ResourceLease}

-- `sum(lease.request.field for lease in leases)`
abbrev pub total : (ResourceRequest → ℕ) → List ResourceLease → ℕ
total units [] = 0
total units (l ∷ ls) = units l.request + total units ls

-- `request.field > capacity.field` for one of the three fields
unfoldable pub exceeds : ResourceRequest → ResourceCapacity → Bool
exceeds r c =
    ltb c.cpu_units r.cpu_units || ltb c.memory_mb r.memory_mb || ltb c.gpu_units r.gpu_units

-- `active_labels.intersection(request.exclusive_labels)` is not empty.
abbrev pub labels_clash : List ResourceLease → List String → Bool
labels_clash active labels =
    some_of (λ label. some_of (λ l. contains label l.request.exclusive_labels) active) labels

-- The test by which a request is turned down beside the active leases of other tasks.
unfoldable pub overcommits : List ResourceLease → ResourceRequest → ResourceCapacity → Bool
overcommits active r c =
    ltb c.cpu_units (total (λ q. q.cpu_units) active + r.cpu_units)
    || ltb c.memory_mb (total (λ q. q.memory_mb) active + r.memory_mb)
    || ltb c.gpu_units (total (λ q. q.gpu_units) active + r.gpu_units)
    || labels_clash active r.exclusive_labels
