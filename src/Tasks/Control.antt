-- ===== src/Tasks/Control.antt =====
-- What `control` and `settle_control` of `TaskRuntime` (liandanlu_native/runtime.py) make of a task's state.
use codex_test.Prelude.{
  ◌≡◌, refl, sym, ◌∙◌, subst, String, Bool, true, false, ◌&&◌, ◌||◌, some, arith, if◌then◌else◌, ok,
  err, value_error, Exec, lift, decide, ◌&&◌,
}
use codex_test.Prelude.Dict.{lookup}
use codex_test.Models.{Task}
use codex_test.Models.States.{
  is_state_lem, is_state_refl, TaskState, running, pausing, paused, cancelling, cancelled,
  TaskState-discrete, is_state, is_terminal,
}
use codex_test.Storage.Outbox.{Draft}
use codex_test.Tasks.Runtime.{
  TaskRuntime, Stamp, touched, touch_and_record, queue, queue_found, control, control_found,
  control_task, control_state, control_payload, settle_control, settle_found, settled_state, draft,
}
use codex_test.Tasks.Effects.{IsShared, Touched, touch_and_record_lem}
use codex_test.Tasks.Calls.{found}

-- On a terminal task, `control` returns the task and `queue` raises, and neither changes anything.
pub control_terminal :
    (id : String) (desired : TaskState) (at : _) (stamp : Stamp) (r : TaskRuntime) (t : Task)
    → lookup id r.tasks ≡ some t
    → is_terminal t.state ≡ true
    → (control id desired stamp r ≡ (ok t, r)) × (queue id at stamp r ≡ (err value_error, r))
unfolding control queue
control_terminal id desired at stamp r t h e = (
  found id r t (control_found id desired stamp) h ∙ rw e refl,
  found id r t (queue_found id at stamp) h ∙ rw e refl,
)

-- The two states in which a task can be asked to stop.
pub data IsStop : TaskState → Type 0 where
  pauses : IsStop paused
  cancels : IsStop cancelled

-- The state in which running work waits for its stop.
pub data IsStopping : TaskState → TaskState → Type 0 where
  pausing_first : IsStopping paused pausing
  cancelling_first : IsStopping cancelled cancelling

stopping :
    (desired : TaskState) → IsStop desired → IsStopping desired (control_state desired running)
unfolding control_state
stopping desired pauses = pausing_first
stopping desired cancels = cancelling_first

pub stop-settled :
    (desired : TaskState) (confirmed : Bool) (t : Task)
    → IsStop desired
    → t.desired_state ≡ desired
    → settled_state true confirmed t ≡ desired
unfolding settled_state TaskState-discrete decide
stop-settled desired confirmed t pauses e = simp e
stop-settled desired confirmed t cancels e = simp e

-- A branch that is not taken early.
late :
    (id : String) (u : Task) (d : Task → Draft) (early : Exec TaskRuntime Task) (stamp : Stamp)
    (r : TaskRuntime) (b : Bool)
    → b ≡ false
    → (if b then early else touch_and_record id u d stamp) r ≡ touch_and_record id u d stamp r
late id u d early stamp r b e = rw e refl

control_lem :
    (id : String) (desired : TaskState) (stamp : Stamp) (r : TaskRuntime) (t : Task)
    → IsShared r
    → lookup id r.tasks ≡ some t
    → is_terminal t.state ≡ false
    → Touched id (touched (control_task desired t)) r (control id desired stamp r).1
unfolding control
control_lem id desired stamp r t s h e =
    let d : Task → Draft = λ u. draft "task.control_requested" "user" u (control_payload u) in
    subst (λ o. Touched id (touched (control_task desired t)) r o.1)
      (sym (
        found id r t (control_found id desired stamp) h
        ∙ late id (control_task desired t) d _ stamp r (is_terminal t.state) e))
      (touch_and_record_lem id (control_task desired t) d stamp r s).1

-- Settling leaves the state that `settled_state` says, whether it changes anything or not.
record Settled (id : String) (after : TaskState) (t : Task) (r' : TaskRuntime) : Type 0 where
  task : Task
  present : lookup id r'.tasks ≡ some task
  state : task.state ≡ after
  desired : task.desired_state ≡ t.desired_state

Settled-early :
    (id : String) (after : TaskState) (d : Task → Draft) (stamp : Stamp) (r : TaskRuntime)
    (t : Task) (b : Bool)
    → IsShared r
    → lookup id r.tasks ≡ some t
    → (b ≡ true → after ≡ t.state)
    → Settled id after t
        ((if b then lift (ok t) else touch_and_record id (record t { state = after }) d stamp) r).1
Settled-early id after d stamp r t true s h e = record {
  task = t;
  present = h;
  state = sym (e refl);
  desired = refl;
}
Settled-early id after d stamp r t false s h e =
    let k = (touch_and_record_lem id (record t { state = after }) d stamp r s).1 in
    record {
      task = touched (record t { state = after });
      present = k.written;
      state = refl;
      desired = refl;
    }

settle_lem :
    (id : String) (safe confirmed : Bool) (stamp : Stamp) (r : TaskRuntime) (t : Task)
    → IsShared r
    → lookup id r.tasks ≡ some t
    → Settled id (settled_state safe confirmed t) t (settle_control id safe confirmed stamp r).1
unfolding settle_control
settle_lem id safe confirmed stamp r t s h =
    let after = settled_state safe confirmed t in
    subst (λ o. Settled id after t o.1)
      (sym (found id r t (settle_found id safe confirmed stamp) h))
      (Settled-early id after _ stamp r t (is_state after t.state) s h (is_state_lem after t.state))

-- A request to pause or to cancel a task that has not ended, followed by a safe boundary, leaves the task
-- in the state that was asked for, whatever state it was in.
pub control-settle_control :
    (id : String) (desired : TaskState) (confirmed : Bool) (first second : Stamp) (r : TaskRuntime)
    (t : Task)
    → IsShared r
    → lookup id r.tasks ≡ some t
    → is_terminal t.state ≡ false
    → IsStop desired
    → (u : Task) × (lookup id
          (settle_control id true confirmed second (control id desired first r).1).1.tasks
        ≡ some u)
      × (u.state ≡ desired)
      × (u.desired_state ≡ desired)
unfolding control_task
control-settle_control id desired confirmed first second r t s h e stop =
    let c = control_lem id desired first r t s h e in
    let k = settle_lem id true confirmed second _ _ c.shared c.written in
    (
      k.task,
      k.present,
      k.state ∙ stop-settled desired confirmed (touched (control_task desired t)) stop refl,
      k.desired,
    )

abbrev same_state : Bool → Bool → TaskState → TaskState
same_state a b s = if a && false then paused else if b && (false || false) then cancelled else s

same_state_lem : (a b : Bool) (s : TaskState) → same_state a b s ≡ s
same_state_lem true true s = refl
same_state_lem true false s = refl
same_state_lem false true s = refl
same_state_lem false false s = refl

unsettled :
    (id : String) (stamp : Stamp) (r : TaskRuntime) (u : Task)
    → settle_found id false false stamp u r ≡ (ok u, r)
unfolding settled_state
unsettled id stamp r u =
    let e =
      same_state_lem (is_state u.desired_state paused) (is_state u.desired_state cancelled)
        u.state in
    ground (arith, e, is_state_refl u.state)

-- A request to pause or to cancel a running task makes it pausing or cancelling; without a safe boundary
-- and a confirmation, settling then changes nothing.
pub control-running :
    (id : String) (desired : TaskState) (first second : Stamp) (r : TaskRuntime) (t : Task)
    → IsShared r
    → lookup id r.tasks ≡ some t
    → t.state ≡ running
    → IsStop desired
    → (u : Task) × (lookup id (control id desired first r).1.tasks ≡ some u)
      × IsStopping desired u.state
      × (settle_control id false false second (control id desired first r).1
          ≡ (ok u, (control id desired first r).1))
unfolding control_task is_terminal settle_control
control-running id desired first second r t s h e stop =
    let c = control_lem id desired first r t s h (rw e refl) in
    let u = touched (control_task desired t) in
    (
      u,
      c.written,
      subst (λ st. IsStopping desired (control_state desired st)) (sym e) (stopping desired stop),
      found id _ u (settle_found id false false second) c.written ∙ unsettled id second _ u,
    )
