-- ===== src/Supervisor/Runtime.antt =====
-- The methods of `RuntimeSupervisor` (liandanlu_native/supervisor.py). The operating system is an argument:
-- what `Popen` returns, the return code that `poll` gives for the process of a service (none while it
-- runs), and whether the wait behind `kill` ends. Times are those of `time.monotonic()`.
use codex_test.Prelude.{
  ℕ, ◌+◌, String, Bool, true, false, not, ◌&&◌, ◌||◌, Option, none, some, List, [], ◌∷◌, is_some,
  is_nil, ltb, nat_eq, if◌then◌else◌, ok, err, Exec, value_error, key_error, runtime_error, ◌>>=◌,
  raise,
}
use codex_test.Prelude.Int.{ℤ}
use codex_test.Prelude.Dict.{Dict, lookup, insert}

pub data ServiceState : Type 0 where
  registered starting ready running degraded failed recovering stopping stopped : ServiceState

pub data ServiceError : Type 0 where
  startup_deadline heartbeat_timeout : ServiceError
  exited : ℤ → ServiceError

pub record ServiceRecord : Type 0 where
  pub service_id : String
  pub command : List String
  pub generation : ℕ
  pub desired_state : ServiceState
  pub actual_state : ServiceState
  pub process_ok : Bool
  pub transport_ok : Bool
  pub functional_ok : Bool
  pub restart_count : ℕ
  pub pid : Option ℕ
  pub started_at : Option ℕ
  pub last_heartbeat_at : Option ℕ
  pub startup_deadline_s : ℕ
  pub heartbeat_timeout_s : ℕ
  pub shutdown_deadline_s : ℕ
  pub last_error : Option ServiceError

-- `processes` has the pid of each process that was started.
pub record RuntimeSupervisor : Type 0 where
  pub services : Dict ServiceRecord
  pub processes : Dict ℕ

-- `popen` is none where `Popen` raises.
pub record System : Type 0 where
  pub popen : List String → Option ℕ
  pub poll : String → Option ℤ
  pub kill_ends : String → Bool

abbrev pub or_unknown : Option ServiceRecord → Exec RuntimeSupervisor ServiceRecord
or_unknown none s = (err key_error, s)
or_unknown (some r) s = (ok r, s)

-- `self.services[service_id]`
abbrev pub find_service : String → Exec RuntimeSupervisor ServiceRecord
find_service id s = or_unknown (lookup id s.services) s

-- The record that a method changes in place is written back under its key, and returned.
abbrev pub put_service : String → ServiceRecord → Exec RuntimeSupervisor ServiceRecord
put_service id r s = (ok r, record s { services = insert id r s.services })

abbrev pub new_service : String → List String → ℕ → ℕ → ℕ → ServiceRecord
new_service id command startup heartbeat shutdown = record {
  service_id = id;
  command = command;
  generation = 1;
  desired_state = running;
  actual_state = registered;
  process_ok = false;
  transport_ok = false;
  functional_ok = false;
  restart_count = 0;
  pid = none;
  started_at = none;
  last_heartbeat_at = none;
  startup_deadline_s = startup;
  heartbeat_timeout_s = heartbeat;
  shutdown_deadline_s = shutdown;
  last_error = none;
}

abbrev pub register_new :
    Option ServiceRecord → String → ServiceRecord → Exec RuntimeSupervisor ServiceRecord
register_new (some old) id r s = (err value_error, s)
register_new none id r s = put_service id r s

unfoldable pub register : String → List String → ℕ → ℕ → ℕ → Exec RuntimeSupervisor ServiceRecord
register id command startup heartbeat shutdown s =
    register_new (lookup id s.services) id (new_service id command startup heartbeat shutdown) s

-- `service_id in self._processes and self._processes[service_id].poll() is None`
abbrev pub is_alive : System → String → RuntimeSupervisor → Bool
is_alive os id s = is_some (lookup id s.processes) && not (is_some (os.poll id))

abbrev pub started : Option ℕ → String → ℕ → ServiceRecord → Exec RuntimeSupervisor ServiceRecord
started none id ts r s = (err runtime_error, s)
started (some pid) id ts r s =
    put_service id
      (record r {
        pid = some pid;
        started_at = some ts;
        last_heartbeat_at = some ts;
        process_ok = true;
        transport_ok = false;
        functional_ok = false;
        actual_state = starting;
        last_error = none;
      })
      (record s { processes = insert id pid s.processes })

abbrev pub start_found : System → String → ℕ → ServiceRecord → Exec RuntimeSupervisor ServiceRecord
start_found os id ts r s =
    if is_nil r.command
    then (err value_error, s)
    else if is_alive os id s
    then (err runtime_error, s)
    else started (os.popen r.command) id ts r s

unfoldable pub start : System → String → ℕ → Exec RuntimeSupervisor ServiceRecord
start os id ts = find_service id >>= start_found os id ts

abbrev pub assessed : Bool → Bool → Bool → ServiceRecord → ServiceRecord
assessed process_ok transport_ok functional_ok r = record r {
  process_ok = process_ok;
  transport_ok = transport_ok;
  functional_ok = functional_ok;
  actual_state =
      if not process_ok
      then failed
      else if not transport_ok || not functional_ok
      then degraded
      else running;
}

abbrev pub assess_found :
    String → Bool → Bool → Bool → ServiceRecord → Exec RuntimeSupervisor ServiceRecord
assess_found id process_ok transport_ok functional_ok r =
    put_service id (assessed process_ok transport_ok functional_ok r)

unfoldable pub assess : String → Bool → Bool → Bool → Exec RuntimeSupervisor ServiceRecord
assess id process_ok transport_ok functional_ok =
    find_service id >>= assess_found id process_ok transport_ok functional_ok

abbrev pub marked : Bool → Bool → ℕ → ServiceRecord → ServiceRecord
marked transport_ok functional_ok ts r = record r {
  transport_ok = transport_ok;
  functional_ok = functional_ok;
  process_ok = true;
  actual_state = if transport_ok && functional_ok then running else degraded;
  last_heartbeat_at = some ts;
}

abbrev pub mark_found :
    String → ℕ → Bool → Bool → ℕ → ServiceRecord → Exec RuntimeSupervisor ServiceRecord
mark_found id generation transport_ok functional_ok ts r =
    if nat_eq generation r.generation
    then put_service id (marked transport_ok functional_ok ts r)
    else raise value_error

unfoldable pub mark_ready : String → ℕ → Bool → Bool → ℕ → Exec RuntimeSupervisor ServiceRecord
mark_ready id generation transport_ok functional_ok ts =
    find_service id >>= mark_found id generation transport_ok functional_ok ts

-- The source returns None; here the record comes back too.
abbrev pub heartbeat_found : String → ℕ → ℕ → ServiceRecord → Exec RuntimeSupervisor ServiceRecord
heartbeat_found id generation ts r =
    if nat_eq generation r.generation
    then put_service id (record r { last_heartbeat_at = some ts })
    else raise value_error

unfoldable pub heartbeat : String → ℕ → ℕ → Exec RuntimeSupervisor ServiceRecord
heartbeat id generation ts = find_service id >>= heartbeat_found id generation ts

-- `at is not None and ts - at > limit`
abbrev pub is_past : Option ℕ → ℕ → ℕ → Bool
is_past none limit ts = false
is_past (some at) limit ts = ltb (at + limit) ts

abbrev pub watched_state : ServiceState → ServiceRecord → ℕ → ServiceRecord
watched_state starting r ts =
    if is_past r.started_at r.startup_deadline_s ts
    then record r { actual_state = failed; last_error = some startup_deadline }
    else r
watched_state running r ts =
    if is_past r.last_heartbeat_at r.heartbeat_timeout_s ts
    then record r { actual_state = degraded; last_error = some heartbeat_timeout }
    else r
watched_state _ r ts = r

-- The return code of the process that `_processes` has for the service.
abbrev pub exit_of : Option ℕ → Option ℤ → Option ℤ
exit_of none code = none
exit_of (some pid) code = code

abbrev pub watched : Option ℤ → ServiceRecord → ℕ → ServiceRecord
watched (some code) r ts = record r {
  process_ok = false;
  actual_state = failed;
  last_error = some (exited code);
}
watched none r ts = watched_state r.actual_state r ts

unfoldable pub tick_all : System → ℕ → Dict ℕ → Dict ServiceRecord → Dict ServiceRecord
tick_all os ts processes [] = []
tick_all os ts processes ((id, r) ∷ services) =
    (id, watched (exit_of (lookup id processes) (os.poll id)) r ts)
    ∷ tick_all os ts processes services

unfoldable pub tick : System → ℕ → RuntimeSupervisor → RuntimeSupervisor
unfolding tick_all
tick os ts s = record s { services = tick_all os ts s.processes s.services }

abbrev pub stopped_record : ServiceRecord → ServiceRecord
stopped_record r = record r {
  desired_state = stopped;
  process_ok = false;
  transport_ok = false;
  functional_ok = false;
  actual_state = stopped;
  pid = none;
}

-- A wait behind `kill` that does not end raises, and leaves the service stopping.
abbrev pub stop_found : System → String → ServiceRecord → Exec RuntimeSupervisor ServiceRecord
stop_found os id r s =
    if is_alive os id s && not (os.kill_ends id)
    then (
      err runtime_error,
      (put_service id (record r { desired_state = stopped; actual_state = stopping }) s).1,
    )
    else put_service id (stopped_record r) s

unfoldable pub stop : System → String → Exec RuntimeSupervisor ServiceRecord
stop os id = find_service id >>= stop_found os id

abbrev pub restarted_record : ServiceRecord → ServiceRecord
restarted_record r = record r {
  restart_count = r.restart_count + 1;
  generation = r.generation + 1;
  desired_state = running;
}

-- Behind the stop of `restart`. `os` tells of the processes after the stop.
abbrev pub restart_stopped :
    System → String → ℕ → ServiceRecord → Exec RuntimeSupervisor ServiceRecord
restart_stopped os id ts r s =
    let next = restarted_record r in
    let saved = (put_service id next s).1 in
    if is_nil r.command then (ok next, saved) else start_found os id ts next saved

-- `before` and `after` tell of the processes before and after the stop.
abbrev pub restart_found :
    System → System → String → ℕ → ServiceRecord → Exec RuntimeSupervisor ServiceRecord
restart_found before after id ts r s =
    if is_alive before id s
    then (stop_found before id r >>= restart_stopped after id ts) s
    else restart_stopped after id ts r s

unfoldable pub restart : System → System → String → ℕ → Exec RuntimeSupervisor ServiceRecord
restart before after id ts = find_service id >>= restart_found before after id ts
