-- ===== src/Supervisor/Keeps.antt =====
-- That no call of `RuntimeSupervisor` (liandanlu_native/supervisor.py) lowers a service's generation.
use codex_test.Prelude.{
  ℕ, ◌+◌, ◌≤◌, ◌≡◌, refl, sym, subst, String, Bool, true, false, not, ◌&&◌, Option, none, some, [],
  ◌∷◌, inl, inr, arith, ◌==◌, eq_iff, is_nil, if◌then◌else◌, Option-cases, Bool-cases, Result, err,
  Exec, ◌>>=◌, value_error, raise, runtime_error,
}
use codex_test.Prelude.Dict.{Dict, lookup, insert, lookup-insert, lookup-insert_self}
use codex_test.Prelude.Int.{ℤ}
use codex_test.Supervisor.Runtime.{
  RuntimeSupervisor, ServiceRecord, System, tick_all, find_service, or_unknown, put_service,
  start_found, stop_found, restart_stopped, restarted_record, is_alive, watched, watched_state,
  started, ServiceState, starting, running, registered, ready, degraded, failed, recovering,
  stopping, stopped, exit_of,
}

-- 0 where the service is not known.
abbrev pub record_generation : Option ServiceRecord → ℕ
record_generation none = 0
record_generation (some r) = r.generation

abbrev pub generation_of : String → RuntimeSupervisor → ℕ
generation_of id s = record_generation (lookup id s.services)

-- No generation falls.
pub record Keeps (s t : RuntimeSupervisor) : Type 0 where
  pub kept : (id : String) → generation_of id s ≤ generation_of id t

pub Keeps-refl : (s : RuntimeSupervisor) → Keeps s s
Keeps-refl s = record { kept = λ id. omega arith }

pub Keeps-trans : (a b c : RuntimeSupervisor) → Keeps a b → Keeps b c → Keeps a c
Keeps-trans a b c h k = record { kept = λ id. omega (arith, h.kept id, k.kept id) }

pub put-Keeps :
    (id : String) (r r' : ServiceRecord) (s : RuntimeSupervisor)
    → lookup id s.services ≡ some r
    → r.generation ≤ r'.generation
    → Keeps s (put_service id r' s).1
put-Keeps id r r' s h le = record {
  kept = λ k. ground (arith, lookup-insert id k r' s.services, eq_iff id k, h, le);
}

pub found-Keeps :
    (id : String) (f : ServiceRecord → Exec RuntimeSupervisor ServiceRecord) (s : RuntimeSupervisor)
    → ((r : ServiceRecord) → lookup id s.services ≡ some r → Keeps s (f r s).1)
    → Keeps s ((find_service id >>= f) s).1
found-Keeps id f s h = elim (Option-cases (lookup id s.services)) [
  | inl missing ↦ subst (λ o. Keeps s ((or_unknown o >>= f) s).1) (sym missing) (Keeps-refl s)
  | inr (r, known) ↦ subst (λ o. Keeps s ((or_unknown o >>= f) s).1) (sym known) (h r known)
]

watched_generation_in :
    (state : ServiceState) (r : ServiceRecord) (ts : ℕ)
    → (watched_state state r ts).generation ≡ r.generation
watched_generation_in starting r ts = ground arith
watched_generation_in running r ts = ground arith
watched_generation_in registered r ts = refl
watched_generation_in ready r ts = refl
watched_generation_in degraded r ts = refl
watched_generation_in failed r ts = refl
watched_generation_in recovering r ts = refl
watched_generation_in stopping r ts = refl
watched_generation_in stopped r ts = refl

watched-generation :
    (code : Option ℤ) (r : ServiceRecord) (ts : ℕ) → r.generation ≤ (watched code r ts).generation
watched-generation (some code) r ts = omega arith
watched-generation none r ts = omega (arith, watched_generation_in r.actual_state r ts)

module _ (s : RuntimeSupervisor) where
  -- A guard that raises before anything is written.
  guard-Keeps :
      (b : Bool) (e : Result ServiceRecord) (rest : Result ServiceRecord × RuntimeSupervisor)
      → Keeps s rest.1
      → Keeps s (if b then (e, s) else rest).1
  guard-Keeps true e rest h = Keeps-refl s
  guard-Keeps false e rest h = h

  pub pass-Keeps :
      (b : Bool) (m : Exec RuntimeSupervisor ServiceRecord)
      → Keeps s (m s).1
      → Keeps s ((if b then m else raise value_error) s).1
  pass-Keeps true m h = h
  pass-Keeps false m h = Keeps-refl s

  started-Keeps :
      (pid : Option ℕ) (id : String) (ts : ℕ) (r : ServiceRecord)
      → lookup id s.services ≡ some r
      → Keeps s (started pid id ts r s).1
  started-Keeps none id ts r h = Keeps-refl s
  started-Keeps (some pid) id ts r h = record {
    kept = λ k.
        (put-Keeps id r _ (record s { processes = insert id pid s.processes }) h (omega arith)).kept
          k;
  }

  pub start_found-Keeps :
      (os : System) (id : String) (ts : ℕ) (r : ServiceRecord)
      → lookup id s.services ≡ some r
      → Keeps s (start_found os id ts r s).1
  start_found-Keeps os id ts r h =
      guard-Keeps (is_nil r.command) _ _
        (guard-Keeps (is_alive os id s) _ _ (started-Keeps (os.popen r.command) id ts r h))

  -- The record under the service's key after a stop, if it returned.
  pub stop_found-Keeps :
      (os : System) (id : String) (r : ServiceRecord)
      → lookup id s.services ≡ some r
      → Keeps s (stop_found os id r s).1
  stop_found-Keeps os id r h = elim (Bool-cases (is_alive os id s && not (os.kill_ends id))) [
    | inl stuck ↦ rw stuck (put-Keeps id r _ s h (omega arith))
    | inr ends ↦ rw ends (put-Keeps id r _ s h (omega arith))
  ]

  pub tick_all-lookup :
      (os : System) (ts : ℕ) (processes : Dict ℕ) (d : Dict ServiceRecord) (k : String)
      → record_generation (lookup k d) ≤ record_generation (lookup k (tick_all os ts processes d))
  unfolding lookup tick_all
  tick_all-lookup os ts processes [] k = omega arith
  tick_all-lookup os ts processes ((id, r) ∷ d) k = elim (Bool-cases (id == k)) [
    | inl same ↦ rw same (watched-generation (exit_of (lookup id processes) (os.poll id)) r ts)
    | inr other ↦ rw other (tick_all-lookup os ts processes d k)
  ]

pub restart_stopped-generation :
    (os : System) (id : String) (ts : ℕ) (r : ServiceRecord) (s : RuntimeSupervisor)
    → lookup id s.services ≡ some r
    → Keeps s (restart_stopped os id ts r s).1
      × (r.generation + 1 ≤ generation_of id (restart_stopped os id ts r s).1)
restart_stopped-generation os id ts r s h =
    let next = restarted_record r in
    let saved = (put_service id next s).1 in
    let first = put-Keeps id r next s h (omega arith) in
    let known = lookup-insert_self id next s.services in
    elim (Bool-cases (is_nil r.command)) [
      | inl none_managed ↦ rw none_managed (first, ground (arith, known))
      | inr managed ↦
          let second =
            guard-Keeps saved (is_alive os id saved) (err runtime_error) _
              (started-Keeps saved (os.popen r.command) id ts next known) in
          rw managed (Keeps-trans s saved _ first second, ground (arith, known, second.kept id))
    ]
