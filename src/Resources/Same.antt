-- ===== src/Resources/Same.antt =====
-- `ResourceBroker` without a store (liandanlu_native/resources.py) against the store's leases
-- (liandanlu_native/storage.py).
use codex_test.Prelude.{
  ℕ, ◌+◌, ◌-◌, ◌≡◌, refl, ap, ap₂, ◌∙◌, String, Bool, false, Option, none, some, List, [], ◌∷◌, inl,
  inr, arith, eq_iff, Option-cases, Result,
}
use codex_test.Prelude.Dict.{Dict, lookup, insert, IsNamed, insert-IsNamed_at, lookup-IsNamed}
use codex_test.Prelude.Int.{ℤ, pos, negsuc, not_positive}
use codex_test.Models.{ResourceRequest, ResourceCapacity, ResourceLease}
use codex_test.Storage.{Store}
use codex_test.Storage.ResourceLeases.{
  acquire_resource_lease, renew_resource_lease, release_resource_lease, new_lease, active_rows,
}
use codex_test.Resources.History.{Call, acquires, renews, releases}
use codex_test.Resources.Broker.{
  ResourceBroker, active_others, acquire, acquire_in_memory, renew, renew_in_memory, release,
  release_in_memory,
}

-- Each lease stands under its own task.
pub record OwnTasks (d : Dict ResourceLease) : Type 0 where
  pub rows : IsNamed (λ (l : ResourceLease). l.task_id) d

insert-OwnTasks :
    (task : String) (l : ResourceLease) (d : Dict ResourceLease)
    → l.task_id ≡ task
    → OwnTasks d
    → OwnTasks (insert task l d)
insert-OwnTasks task l d e h = record { rows = insert-IsNamed_at _ task l d e h.rows }

lookup-OwnTasks :
    (task : String) (l : ResourceLease) (d : Dict ResourceLease)
    → OwnTasks d
    → lookup task d ≡ some l
    → l.task_id ≡ task
lookup-OwnTasks task l d h e = lookup-IsNamed _ task l d h.rows e

-- A broker without a store, and a store with the same leases.
pub record Mirrors (b : ResourceBroker) (s : Store) : Type 0 where
  pub alone : b.persistence ≡ none
  pub same : s.resource_leases ≡ b.leases
  pub named : OwnTasks b.leases

pub data Reply : Type 0 where
  leased : Result (Option ResourceLease) → Reply
  released : Bool → Reply

abbrev reply_with {ℓ} : {A : Type 0} {S : Type ℓ} → (A → Reply) → A × S → Reply × S
reply_with f (a, s) = (f a, s)

unfoldable pub broker_step : ℕ → Call → ResourceBroker → Reply × ResourceBroker
broker_step ts (acquires task owner request seconds) b =
    reply_with leased (acquire task owner request seconds ts b)
broker_step ts (renews lease seconds) b = reply_with leased (renew lease seconds ts b)
broker_step ts (releases lease) b = reply_with released (release lease b)

unfoldable pub store_step : ResourceCapacity → ℕ → Call → Store → Reply × Store
store_step c ts (acquires task owner request seconds) s =
    reply_with leased (acquire_resource_lease task owner request c seconds ts s)
store_step c ts (renews lease seconds) s =
    reply_with leased (renew_resource_lease lease seconds ts s)
store_step c ts (releases lease) s = reply_with released (release_resource_lease lease s)

unfoldable pub broker_replies : List (ℕ × Call) → ResourceBroker → List Reply
unfolding broker_step
broker_replies [] b = []
broker_replies ((ts, call) ∷ calls) b =
    (broker_step ts call b).0 ∷ broker_replies calls (broker_step ts call b).1

unfoldable pub store_replies : ResourceCapacity → List (ℕ × Call) → Store → List Reply
unfolding store_step
store_replies c [] s = []
store_replies c ((ts, call) ∷ calls) s =
    (store_step c ts call s).0 ∷ store_replies c calls (store_step c ts call s).1

active_others-eq-rows :
    (ts : ℕ) (task : String) (d : Dict ResourceLease)
    → IsNamed (λ (l : ResourceLease). l.task_id) d
    → active_others ts task d ≡ active_rows ts task d
unfolding active_others active_rows
active_others-eq-rows ts task [] n = refl
active_others-eq-rows ts task ((k, l) ∷ d) n =
    ground (arith, active_others-eq-rows ts task d n.1, eq_iff l.task_id task, eq_iff k task)

-- The broker without a store answers each request as the store does, and both end with one set of
-- leases.
pub acquire_same :
    (task owner : String) (request : ResourceRequest) (seconds : ℤ) (ts : ℕ) (b : ResourceBroker)
    (s : Store)
    → Mirrors b s
    → let mine = acquire task owner request seconds ts b in
      let theirs = acquire_resource_lease task owner request b.capacity seconds ts s in
      (mine.0 ≡ theirs.0) × Mirrors mine.1 theirs.1
unfolding acquire acquire_in_memory acquire_resource_lease
acquire_same task owner request seconds ts b s m =
    let lease = new_lease task owner request seconds ts (lookup task b.leases) in
    let others = active_others-eq-rows ts task b.leases m.named.rows in
    let named = insert-OwnTasks task lease b.leases refl m.named in
    (
      ground (arith, others),
      record { alone = ground arith; same = ground (arith, others); named = ground (arith, named) },
    )

release_same :
    (lease : ResourceLease) (b : ResourceBroker) (s : Store)
    → Mirrors b s
    → let mine = release lease b in
      let theirs = release_resource_lease lease s in (mine.0 ≡ theirs.0) × Mirrors mine.1 theirs.1
unfolding release release_in_memory release_resource_lease
release_same lease b s m = elim (Option-cases (lookup lease.task_id b.leases)) [
  | inl missing ↦
      (ground arith, record { alone = ground arith; same = ground arith; named = ground arith })
  | inr (l, known) ↦
      let named =
        insert-OwnTasks lease.task_id (record l { lease_until = 0 }) b.leases
          (lookup-OwnTasks lease.task_id l b.leases m.named known) m.named in
      (
        ground arith,
        record { alone = ground arith; same = ground arith; named = ground (arith, named) },
      )
]

-- If the caller is the holder, it presents the lease as it is kept, but for its end.
abbrev pub IsGenuine : ResourceLease → ResourceBroker → Type 0
IsGenuine lease b =
    (l : ResourceLease)
    → lookup lease.task_id b.leases ≡ some l
    → l.owner_id ≡ lease.owner_id
    → l.generation ≡ lease.generation
    → (l.request ≡ lease.request) × (l.claimed_at ≡ lease.claimed_at)

-- For such a lease and a positive extension, both renew alike.
renew_same :
    (lease : ResourceLease) (seconds : ℤ) (ts : ℕ) (b : ResourceBroker) (s : Store)
    → Mirrors b s
    → not_positive seconds ≡ false
    → IsGenuine lease b
    → let mine = renew lease seconds ts b in
      let theirs = renew_resource_lease lease seconds ts s in
      (mine.0 ≡ theirs.0) × Mirrors mine.1 theirs.1
unfolding renew renew_in_memory renew_resource_lease
renew_same lease (negsuc n) ts b s m p g = cc
renew_same lease (pos n) ts b s m p g = elim (Option-cases (lookup lease.task_id b.leases)) [
  | inl missing ↦
      (ground arith, record { alone = ground arith; same = ground arith; named = ground arith })
  | inr (l, known) ↦
      let named =
        insert-OwnTasks lease.task_id (record lease { lease_until = ts + n - 0 }) b.leases refl
          m.named in
      let id = lookup-OwnTasks lease.task_id l b.leases m.named known in
      (
        ground arith,
        record {
          alone = ground arith;
          same = ground (arith, id, eq_iff l.owner_id lease.owner_id, g l known);
          named = ground (arith, named);
        },
      )
]

capacity_kept :
    (ts : ℕ) (call : Call) (b : ResourceBroker) → (broker_step ts call b).1.capacity ≡ b.capacity
unfolding broker_step acquire acquire_in_memory renew renew_in_memory release release_in_memory
capacity_kept ts (acquires task owner request seconds) b = ground arith
capacity_kept ts (renews lease seconds) b = ground arith
capacity_kept ts (releases lease) b = ground arith

abbrev GenuineCall : Call → ResourceBroker → Type 0
GenuineCall (renews lease seconds) b = (not_positive seconds ≡ false) × IsGenuine lease b
GenuineCall _ b = Unit

step_same :
    (ts : ℕ) (call : Call) (b : ResourceBroker) (s : Store)
    → Mirrors b s
    → GenuineCall call b
    → ((broker_step ts call b).0 ≡ (store_step b.capacity ts call s).0)
      × Mirrors (broker_step ts call b).1 (store_step b.capacity ts call s).1
unfolding broker_step store_step
step_same ts (acquires task owner request seconds) b s m g =
    let h = acquire_same task owner request seconds ts b s m in (ap leased h.0, h.1)
step_same ts (renews lease seconds) b s m g =
    let h = renew_same lease seconds ts b s m g.0 g.1 in (ap leased h.0, h.1)
step_same ts (releases lease) b s m g = let h = release_same lease b s m in (ap released h.0, h.1)

-- Every renewal of the history extends by a positive time the lease as it is kept.
unfoldable pub AllGenuine : List (ℕ × Call) → ResourceBroker → Type 0
AllGenuine [] b = Unit
AllGenuine ((ts, call) ∷ calls) b = GenuineCall call b × AllGenuine calls (broker_step ts call b).1

-- A broker without a store and a store with the same leases give the same replies to every history of
-- calls, if each holder that renews presents its lease as kept and asks for a positive extension.
pub replies_same :
    (calls : List (ℕ × Call)) (b : ResourceBroker) (s : Store)
    → Mirrors b s
    → AllGenuine calls b
    → broker_replies calls b ≡ store_replies b.capacity calls s
unfolding AllGenuine broker_replies store_replies
replies_same [] b s m g = refl
replies_same ((ts, call) ∷ calls) b s m g =
    let h = step_same ts call b s m g.0 in
    let rest = replies_same calls _ _ h.1 g.1 in
    let s' = (store_step b.capacity ts call s).1 in
    ap₂ ◌∷◌ h.0 (rest ∙ ap (λ c. store_replies c calls s') (capacity_kept ts call b))
