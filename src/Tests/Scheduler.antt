-- ===== src/Tests/Scheduler.antt =====
-- A run of `TaskScheduler` (liandanlu_native/runtime.py) on one queued task.
use codex_test.Prelude.{refl, decide}
use codex_test.Prelude.Dict.{lookup}
use codex_test.Models.States.{TaskState-discrete}
use codex_test.Scheduler.{
  TaskScheduler, rebuild_scheduler, push_all, push, push_item, next_task, pop_valid,
}
use codex_test.Scheduler.Queues.{Taken, next_task_lem}
use codex_test.Tests.Leases.{job}
use codex_test.Tests.Tasks.{with_task}

abbrev scheduler : TaskScheduler
scheduler = rebuild_scheduler (with_task job)

next_task_lem_example : Taken scheduler (next_task scheduler).1 "a"
unfolding rebuild_scheduler push_all push push_item next_task pop_valid lookup decide
    TaskState-discrete
next_task_lem_example = (next_task_lem scheduler).0 "a" refl
