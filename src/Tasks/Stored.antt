-- ===== src/Tasks/Stored.antt =====
-- The table of tasks that a restart reads back (liandanlu_native/storage.py) after a history of calls of
-- `TaskRuntime` (liandanlu_native/runtime.py).
use codex_test.Prelude.{
  ◌≡◌, ◌⊎◌, refl, sym, ap, ◌∙◌, subst, String, Option, none, some, List, [], ◌∷◌, inl, inr, arith,
  Option-cases,
}
use codex_test.Prelude.Dict.{
  Dict, lookup, insert, values, rebuild, IsKeyed, IsNamed, insert-IsKeyed, insert-IsNamed_at,
  lookup-rebuild, or_else-none,
}
use codex_test.Models.{Task}
use codex_test.Models.Revisions.{bump, attribute, set_attribute}
use codex_test.Storage.{Store}
use codex_test.Storage.Outbox.{Draft}
use codex_test.Storage.Worlds.{save_world_revisions}
use codex_test.Storage.Tasks.{load_tasks, save_task_with_outbox_event}
use codex_test.Tasks.Runtime.{TaskRuntime, Stamp, record_event, touch_world, put_task}
use codex_test.Tasks.Effects.{record_event-others}
use codex_test.Tasks.Calls.{written}
use codex_test.Tasks.Audit.{Request, serve_all, Served, unchanged, wrote, serve-Served}

-- The tasks stand under their ids, and the table of the store, if there is one, is the same dictionary.
pub record IsStored (r : TaskRuntime) : Type 0 where
  pub named : IsNamed (λ (t : Task). t.task_id) r.tasks
  pub keyed : IsKeyed r.tasks
  pub table : (s : Store) → r.world.persistence ≡ some s → s.tasks ≡ r.tasks

-- The table of the runtime's store.
abbrev table_of : Option Store → Option (Dict Task)
table_of none = none
table_of (some s) = some s.tasks

abbrev table_after : Task → Option (Dict Task) → Option (Dict Task)
table_after u none = none
table_after u (some d) = some (insert u.task_id u d)

written-table :
    (id : String) (u : Task) (d : Draft) (stamp : Stamp) (r : TaskRuntime)
    → table_of (written id u d stamp r).world.persistence
      ≡ table_after u (table_of r.world.persistence)
unfolding record_event touch_world bump attribute set_attribute save_world_revisions
    save_task_with_outbox_event
written-table id u d stamp r = elim (Option-cases r.world.persistence) [
  | inl alone ↦ ground (arith, alone)
  | inr (s, e) ↦ ground (arith, e)
]

written-tasks :
    (id : String) (u : Task) (d : Draft) (stamp : Stamp) (r : TaskRuntime)
    → (written id u d stamp r).tasks ≡ insert id u r.tasks
written-tasks id u d stamp r =
    (record_event-others u d stamp (put_task id u (record r { world = touch_world r.world }))).0

-- The statement of `IsStored` on the table alone.
table-lem :
    (o : Option Store) (tasks : Dict Task)
    → ((s : Store) → o ≡ some s → s.tasks ≡ tasks)
    → (table_of o ≡ none) ⊎ (table_of o ≡ some tasks)
table-lem none tasks h = inl refl
table-lem (some s) tasks h = inr (ap some (h s refl))

lem-table :
    (o : Option Store) (tasks : Dict Task)
    → (table_of o ≡ none) ⊎ (table_of o ≡ some tasks)
    → (s : Store) → o ≡ some s
    → s.tasks ≡ tasks
lem-table none tasks h s e = ground (arith, e)
lem-table (some s') tasks (inl h) s e = ground (arith, h)
lem-table (some s') tasks (inr h) s e = ground (arith, h, e)

after-table :
    (u : Task) (o : Option (Dict Task)) (tasks : Dict Task)
    → (o ≡ none) ⊎ (o ≡ some tasks)
    → (table_after u o ≡ none) ⊎ (table_after u o ≡ some (insert u.task_id u tasks))
after-table u o tasks (inl h) = inl (ap (table_after u) h)
after-table u o tasks (inr h) = inr (ap (table_after u) h)

written-IsStored :
    (id : String) (u : Task) (d : Draft) (stamp : Stamp) (r : TaskRuntime)
    → u.task_id ≡ id
    → IsStored r
    → IsStored (written id u d stamp r)
written-IsStored id u d stamp r e h =
    let same = written-tasks id u d stamp r in
    record {
      named =
          subst (IsNamed (λ t. t.task_id)) (sym same)
            (insert-IsNamed_at (λ t. t.task_id) id u r.tasks e h.named);
      keyed = subst IsKeyed (sym same) (insert-IsKeyed id u r.tasks h.keyed);
      table = lem-table (written id u d stamp r).world.persistence _ (
          subst
            (λ tasks.
              (table_of (written id u d stamp r).world.persistence ≡ none)
              ⊎ (table_of (written id u d stamp r).world.persistence ≡ some tasks))
            (ap (λ k. insert k u r.tasks) e ∙ sym same)
            (subst (λ o. (o ≡ none) ⊎ (o ≡ some (insert u.task_id u r.tasks)))
              (sym (written-table id u d stamp r))
              (after-table u _ r.tasks (table-lem r.world.persistence r.tasks h.table))));
    }

Served-IsStored :
    (stamp : Stamp) (r r' : TaskRuntime) → IsStored r → Served stamp r r' → IsStored r'
Served-IsStored stamp r r' h (unchanged e) = subst IsStored (sym e) h
Served-IsStored stamp r r' h (wrote id u d named e) =
    subst IsStored (sym e) (written-IsStored id u d stamp r (named h.named) h)

serve_all-IsStored :
    (requests : List (Request × Stamp)) (r : TaskRuntime)
    → IsStored r
    → IsStored (serve_all requests r)
unfolding serve_all
serve_all-IsStored [] r h = h
serve_all-IsStored ((request, stamp) ∷ requests) r h =
    serve_all-IsStored requests _ (Served-IsStored stamp r _ h (serve-Served request stamp r))

-- After any history of calls on a runtime whose table agrees with its tasks, what a restart reads from the
-- store is the dictionary in memory: every id has the same task, or none.
pub serve_all-load_tasks :
    (requests : List (Request × Stamp)) (r : TaskRuntime) (s : Store)
    → IsStored r
    → (serve_all requests r).world.persistence ≡ some s
    → (id : String) → lookup id (load_tasks s) ≡ lookup id (serve_all requests r).tasks
unfolding load_tasks lookup
serve_all-load_tasks requests r s h e id =
    let k = serve_all-IsStored requests r h in
    let d = (serve_all requests r).tasks in
    ap (λ t. lookup id (rebuild (λ (t : Task). t.task_id) [] (values t))) (k.table s e)
    ∙ lookup-rebuild (λ t. t.task_id) id d [] k.keyed k.named
    ∙ or_else-none (lookup id d)
