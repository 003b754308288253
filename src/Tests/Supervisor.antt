-- ===== src/Tests/Supervisor.antt =====
-- Runs of liandanlu_native/supervisor.py: a service is restarted.
use codex_test.Prelude.{◌≡◌, refl, true, none, some, [], ◌∷◌, err, value_error}
use codex_test.Prelude.Dict.{lookup}
use codex_test.Supervisor.{
  RuntimeSupervisor, ServiceRecord, System, new_service, restart, heartbeat,
}
use codex_test.Supervisor.Fencing.{run, ticks, restart_fences}

abbrev bridge : ServiceRecord
bridge = new_service "bridge" ("run" ∷ []) 5 10 3

abbrev supervisor : RuntimeSupervisor
supervisor = record { services = ("bridge", bridge) ∷ []; processes = ("bridge", 7) ∷ [] }

abbrev system : System
system = record { popen = λ c. some 8; poll = λ id. none; kill_ends = λ id. true }

restart_fences_example :
    heartbeat "bridge" 1 9
      (run (ticks system 8 ∷ []) (restart system system "bridge" 4 supervisor).1)
    ≡ (err value_error, run (ticks system 8 ∷ []) (restart system system "bridge" 4 supervisor).1)
unfolding lookup
restart_fences_example =
    (restart_fences system system "bridge" 4 bridge supervisor refl refl (ticks system 8 ∷ []) 9
      true true).1
