-- ===== src/Tests/Leases.antt =====
-- Runs of the task leases of liandanlu_native/storage.py: one queued task and two workers.
use codex_test.Prelude.{ℕ, ◌+◌, ◌≡◌, ◌≢◌, refl, String, false, none, some, [], ◌∷◌, ok, decide}
use codex_test.Prelude.Dict.{lookup, insert}
use codex_test.Prelude.Int.{pos}
use codex_test.Models.{Task, TaskLease}
use codex_test.Models.Budget.{default_budget}
use codex_test.Models.States.{queued, observing, TaskState, TaskState-discrete}
use codex_test.Storage.{Store, new_store}
use codex_test.Storage.TaskLeases.{
  claim_next_task, validate_task_lease_identity, claimable, is_claimable,
}
use codex_test.Storage.TaskLeases.Order.{first_task}
use codex_test.Leases.Claims.{Claimed, claim_next_task_lem}
use codex_test.Leases.Fencing.{run, claim_next_task_superseded, claim_next_task_excluded}

abbrev pub job : Task
job = record {
  task_id = "a";
  workspace_id = "home";
  goal = "tidy";
  success_criteria = "tidied" ∷ [];
  constraints = [];
  state = queued;
  desired_state = TaskState.running;
  phase = observing;
  priority = pos 50;
  lane = "background";
  queued_at = some 1;
  wait_reason = none;
  budget = default_budget;
  revision = 2;
}

abbrev lease : String → ℕ → ℕ → TaskLease
lease owner generation at = record {
  task_id = "a";
  owner_id = owner;
  generation = generation;
  claimed_at = at;
  lease_until = at + 10;
}

abbrev waiting_store : Store
waiting_store = let s = new_store in record s { tasks = ("a", job) ∷ [] }

abbrev leased_store : TaskLease → Store
leased_store l = let s = waiting_store in record s { task_leases = ("a", l) ∷ [] }

first_claim :
    claim_next_task "w" (pos 10) 5 waiting_store
    ≡ (ok (some (lease "w" 1 5)), leased_store (lease "w" 1 5))
unfolding claim_next_task claimable is_claimable first_task lookup insert TaskState-discrete decide
first_claim = refl

second_claim :
    claim_next_task "v" (pos 10) 20 (leased_store (lease "w" 1 5))
    ≡ (ok (some (lease "v" 2 20)), leased_store (lease "v" 2 20))
unfolding claim_next_task claimable is_claimable first_task lookup insert TaskState-discrete decide
second_claim = refl

claim_next_task_lem_example : Claimed waiting_store "w" (pos 10) 5 (lease "w" 1 5)
claim_next_task_lem_example =
    (claim_next_task_lem "w" (pos 10) 5 waiting_store).0 (leased_store (lease "w" 1 5))
      (lease "w" 1 5) first_claim

claim_next_task_superseded_example :
    validate_task_lease_identity "a" "w" 1 25 (leased_store (lease "v" 2 20)) ≡ false
unfolding run
claim_next_task_superseded_example =
    (claim_next_task_superseded "w" "v" (pos 10) (pos 10) 5 20 [] waiting_store
        (leased_store (lease "w" 1 5)) (leased_store (lease "v" 2 20)) (lease "w" 1 5)
        (lease "v" 2 20) first_claim second_claim refl).1
      [] 25

-- Two tasks are queued, and the first of them is leased.
abbrev other_job : Task
other_job = record job { task_id = "b" }

abbrev busy_store : Store
busy_store =
    let s = leased_store (lease "w" 1 5) in record s { tasks = ("a", job) ∷ ("b", other_job) ∷ [] }

abbrev other_lease : TaskLease
other_lease = record {
  task_id = "b";
  owner_id = "v";
  generation = 1;
  claimed_at = 6;
  lease_until = 16;
}

abbrev busier_store : Store
busier_store =
    let s = busy_store in record s { task_leases = ("a", lease "w" 1 5) ∷ ("b", other_lease) ∷ [] }

claim_next_task_excluded_example : other_lease.task_id ≢ job.task_id
unfolding validate_task_lease_identity claim_next_task claimable is_claimable first_task lookup
    insert TaskState-discrete decide
claim_next_task_excluded_example =
    claim_next_task_excluded "a" "w" "v" 1 6 (pos 10) busy_store busier_store other_lease refl refl
