-- ===== src/Agent/Release.antt =====
-- The lease that a step of liandanlu_native/agent.py acquires for its work.
use codex_test.Prelude.{
  ℕ, ◌≡◌, refl, sym, ap, subst, Bool, false, Option, none, some, arith, inl, inr, Bool-cases,
  Option-cases, Exec,
}
use codex_test.Prelude.Dict.{lookup, lookup-insert_self}
use codex_test.Models.{ResourceLease}
use codex_test.Storage.{Store}
use codex_test.Storage.ResourceLeases.{release_resource_lease, validate_resource_lease, is_owned}
use codex_test.Resources.Broker.{ResourceBroker, release, validate, release_in_memory}
use codex_test.Engine.{Engine, synced}
use codex_test.Agent.{finally_release, release_from}

release_in_memory-validate :
    (lease : ResourceLease) (at : ℕ) (b : ResourceBroker)
    → b.persistence ≡ none
    → validate lease at (release lease b).1 ≡ false
unfolding release release_in_memory validate
release_in_memory-validate lease at b h = elim (Option-cases (lookup lease.task_id b.leases)) [
  | inl e ↦ ground (arith, h, e)
  | inr (l, e) ↦ elim (Bool-cases (is_owned (some l) lease.owner_id lease.generation)) [
    | inl own ↦
        ground (
          arith,
          h,
          e,
          own,
          lookup-insert_self lease.task_id (record l { lease_until = 0 }) b.leases,
        )
    | inr not_own ↦ ground (arith, h, e, not_own)
  ]
]

release_stored-validate :
    (lease : ResourceLease) (at : ℕ) (s : Store)
    → validate_resource_lease lease at (release_resource_lease lease s).1 ≡ false
unfolding release_resource_lease validate_resource_lease
release_stored-validate lease at s = elim (Option-cases (lookup lease.task_id s.resource_leases)) [
  | inl e ↦ ground (arith, e)
  | inr (l, e) ↦ elim (Bool-cases (is_owned (some l) lease.owner_id lease.generation)) [
    | inl own ↦ ground (
      arith,
      e,
      own,
      lookup-insert_self lease.task_id (record l { lease_until = 0 }) s.resource_leases,
    )
    | inr not_own ↦ ground (arith, e, not_own)
  ]
]

-- A lease that was released is valid at no time.
pub release-validate :
    (lease : ResourceLease) (at : ℕ) (b : ResourceBroker)
    → validate lease at (release lease b).1 ≡ false
release-validate lease at b = elim (Option-cases b.persistence) [
  | inl alone ↦ release_in_memory-validate lease at b alone
  | inr (s, e) ↦
      let stored : validate lease at (release lease (record b { persistence = some s })).1 ≡ false =
        unfold release validate in release_stored-validate lease at s in
      subst (λ o. validate lease at (release lease (record b { persistence = o })).1 ≡ false)
        (sym e) stored
]

-- The broker of an engine has the lease as valid.
abbrev pub holds : Option ResourceBroker → ResourceLease → ℕ → Bool
holds none lease at = false
holds (some b) lease at = validate lease at b

release_from-holds :
    (o : Option ResourceBroker) (lease : ResourceLease) (at : ℕ) (e : Engine)
    → e.broker ≡ o
    → holds (release_from o lease e).broker lease at ≡ false
release_from-holds none lease at e h = ap (λ o. holds o lease at) h
release_from-holds (some b) lease at e h = release-validate lease at (synced b e.world.persistence)

-- Whatever the work under a resource lease does, and however it ends, by an exception too: its result is
-- passed on, and the lease is valid at no time after it.
pub finally_release-holds :
    (lease : ResourceLease) (body : Exec Engine (Unit {0})) (e : Engine)
    → ((finally_release lease body e).0 ≡ (body e).0)
      × ((at : ℕ) → holds (finally_release lease body e).1.broker lease at ≡ false)
unfolding finally_release
finally_release-holds lease body e =
    (refl, λ at. release_from-holds (body e).1.broker lease at (body e).1 refl)
