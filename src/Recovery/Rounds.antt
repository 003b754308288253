-- ===== src/Recovery/Rounds.antt =====
-- What one call of `settle_control` in `RecoveryCoordinator.recover` (liandanlu_native/recovery.py) leaves.
use codex_test.Prelude.{
  ◌≡◌, ◌≢◌, refl, sym, ap, ◌∙◌, subst, String, Bool, true, false, some, arith, eq_iff, inl, inr,
  ◌==◌, Bool-cases, Option-cases, Result, ok, err, if◌then◌else◌, lift,
}
use codex_test.Prelude.Dict.{Dict, lookup, lookup-insert, lookup-insert_self}
use codex_test.Models.{Task}
use codex_test.Models.States.{TaskState, paused, cancelled, is_state, is_state_iff}
use codex_test.Tasks.{
  TaskRuntime, Stamp, touch_and_record, touched, put_task, touch_world, settle_control,
  settle_found, settled_state, draft, control_payload,
}
use codex_test.Storage.Outbox.{Draft}
use codex_test.Tasks.Calls.{found, not_found}
use codex_test.Tasks.Effects.{record_event-others}
use codex_test.Tasks.Control.{stop-settled, pauses, cancels}
use codex_test.Engine.{Engine, task_runtime, on_tasks}
use codex_test.Recovery.{wants_control, settle_one, changed}

-- A task that is to stop has stopped.
pub record IsStopped (t : Task) : Type 0 where
  pub pauses : t.desired_state ≡ paused → t.state ≡ paused
  pub cancels : t.desired_state ≡ cancelled → t.state ≡ cancelled

-- What a call of `settle_control` at a safe boundary makes of a task.
record Settles (id : String) (t : Task) (d d' : Dict Task) : Type 0 where
  task : Task
  written : lookup id d' ≡ some task
  desired : task.desired_state ≡ t.desired_state
  state : task.state ≡ settled_state true false t
  others : (k : String) → k ≢ id → lookup k d' ≡ lookup k d

touched_Settles :
    (id : String) (u t : Task) (d : Task → Draft) (stamp : Stamp) (r : TaskRuntime)
    → u.desired_state ≡ t.desired_state
    → u.state ≡ settled_state true false t
    → Settles id t r.tasks (touch_and_record id u d stamp r).1.tasks
unfolding touch_and_record
touched_Settles id u t d stamp r a b =
    let v : Task = touched u in
    let mid = put_task id v (record r { world = touch_world r.world }) in
    let same = (record_event-others v (d v) stamp mid).0 in
    record {
      task = v;
      written = ap (lookup id) same ∙ lookup-insert_self id v r.tasks;
      desired = a;
      state = b;
      others = λ k ne.
          ap (lookup k) same ∙ ground (arith, lookup-insert id k v r.tasks, eq_iff id k, ne);
    }

settle_if :
    (id : String) (t : Task) (d : Task → Draft) (stamp : Stamp) (r : TaskRuntime) (b : Bool)
    → lookup id r.tasks ≡ some t
    → (b ≡ true → settled_state true false t ≡ t.state)
    → Settles id t r.tasks
        ((if b
            then lift (ok t)
            else touch_and_record id (record t { state = settled_state true false t }) d stamp)
          r).1.tasks
settle_if id t d stamp r true h e = record {
  task = t;
  written = h;
  desired = refl;
  state = sym (e refl);
  others = λ k ne. refl;
}
settle_if id t d stamp r false h e =
    touched_Settles id (record t { state = settled_state true false t }) t d stamp r refl refl

settle_found-Settles :
    (id : String) (t : Task) (stamp : Stamp) (r : TaskRuntime)
    → lookup id r.tasks ≡ some t
    → Settles id t r.tasks (settle_found id true false stamp t r).1.tasks
settle_found-Settles id t stamp r h =
    settle_if id t (λ u. draft "task.control_settled" "engine" u (control_payload u)) stamp r
      (is_state (settled_state true false t) t.state) h
      (is_state_iff (settled_state true false t) t.state).0

Settles-IsStopped :
    {id : String} {t : Task} {d d' : Dict Task} (s : Settles id t d d') → IsStopped s.task
Settles-IsStopped {t} s = record {
  pauses = λ h. s.state ∙ stop-settled paused false t pauses (sym s.desired ∙ h);
  cancels = λ h. s.state ∙ stop-settled cancelled false t cancels (sym s.desired ∙ h);
}

-- The task under an id is there after a step, wants the same, and stays stopped.
pub record Follows (id : String) (t : Task) (d' : Dict Task) : Type 0 where
  pub task : Task
  pub present : lookup id d' ≡ some task
  pub desired : task.desired_state ≡ t.desired_state
  pub stays : IsStopped t → IsStopped task

-- The task under an id is there, and has stopped if it is to.
abbrev pub StoppedAt : String → Dict Task → Type 0
StoppedAt id d = (t : Task) × (lookup id d ≡ some t) × IsStopped t

pub Follows-StoppedAt :
    (id : String) (t : Task) (d' : Dict Task) → IsStopped t → Follows id t d' → StoppedAt id d'
Follows-StoppedAt id t d' h f = (f.task, f.present, f.stays h)

Settles-Follows :
    (id k : String) (u t : Task) (d d' : Dict Task)
    → Settles k u d d'
    → lookup k d ≡ some u
    → lookup id d ≡ some t
    → Follows id t d' × (k ≡ id → StoppedAt id d')
Settles-Follows id k u t d d' s at h = elim (Bool-cases (k == id)) [
  | inl same ↦
      let e : k ≡ id = (eq_iff k id).0 same in
      let v : u ≡ t = ground (arith, e, at, h) in
      let stopped = Settles-IsStopped s in
      let there : lookup id d' ≡ some s.task = subst (λ x. lookup x d' ≡ some s.task) e s.written in
      (
        record {
          task = s.task;
          present = there;
          desired = s.desired ∙ ap (λ (x : Task). x.desired_state) v;
          stays = λ q. stopped;
        },
        λ q. (s.task, there, stopped),
      )
  | inr other ↦ (
    record {
      task = t;
      present = s.others id (λ q. ground (arith, other, eq_iff k id, q)) ∙ h;
      desired = refl;
      stays = λ q. q;
    },
    λ q. ground (arith, other, eq_iff k id, q),
  )
]

changed_tasks :
    (before : TaskState) (r : Result Task × Engine) → (changed before r).1.tasks ≡ r.1.tasks
changed_tasks before (err x, e) = refl
changed_tasks before (ok t, e) = refl

changed_ok :
    (before : TaskState) (r : Result Task × Engine) (b : Bool)
    → (changed before r).0 ≡ ok b
    → (t : Task) × (r.0 ≡ ok t)
changed_ok before (err x, e) b h = cc
changed_ok before (ok t, e) b h = (t, refl)

-- A call of `settle_control` that returns found its task.
control-Follows :
    (id k : String) (t : Task) (stamp : Stamp) (r : TaskRuntime) (q : Result Task)
    → (settle_control k true false stamp r).0 ≡ q
    → (v : Task) × (q ≡ ok v)
    → lookup id r.tasks ≡ some t
    → Follows id t (settle_control k true false stamp r).1.tasks
      × (k ≡ id → StoppedAt id (settle_control k true false stamp r).1.tasks)
unfolding settle_control
control-Follows id k t stamp r q same (v, good) h = elim (Option-cases (lookup k r.tasks)) [
  | inl absent ↦
      let raised = ap (λ p. p.0) (not_found k r (settle_found k true false stamp) absent) in
      cc (raised, same, good)
  | inr (u, at) ↦
      subst (λ p. Follows id t p.1.tasks × (k ≡ id → StoppedAt id p.1.tasks))
        (sym (found k r u (settle_found k true false stamp) at))
        (Settles-Follows id k u t r.tasks _ (settle_found-Settles k u stamp r at) at h)
]

-- One round of the loop.
pub round-Follows :
    (stamps : String → Stamp) (u : Task) (e : Engine) (b : Bool) (id : String) (t : Task)
    → (settle_one stamps u e).0 ≡ ok b
    → lookup id e.tasks ≡ some t
    → Follows id t (settle_one stamps u e).1.tasks
      × (u.task_id ≡ id
          → wants_control u.desired_state ≡ true
          → StoppedAt id (settle_one stamps u e).1.tasks)
unfolding settle_one
round-Follows stamps u e b id t h at = elim (Bool-cases (wants_control u.desired_state)) [
  | inl wants ↦
      let r = on_tasks (settle_control u.task_id true false (stamps u.task_id)) e in
      let (f, s) =
        control-Follows id u.task_id t (stamps u.task_id) (task_runtime e) r.0 refl
          (changed_ok u.state r b (rw wants at h)) at in
      rw wants (
        subst (λ d. Follows id t d × (u.task_id ≡ id → true ≡ true → StoppedAt id d))
          (sym (changed_tasks u.state r)) (f, λ p q. s p))
  | inr not_wanted ↦
      rw not_wanted (record { task = t; present = at; desired = refl; stays = λ q. q }, λ p q. cc)
]
