-- ===== src/Supervisor/Fencing.antt =====
-- The generations that fence off a restarted service's old process (liandanlu_native/supervisor.py).
use codex_test.Prelude.{
  ℕ, ◌+◌, ◌≤◌, ◌<◌, ◌≡◌, refl, sym, ap, ◌∙◌, subst, String, Bool, true, false, not, ◌&&◌, Option,
  none, some, List, [], ◌∷◌, inl, inr, arith, eq_iff, if◌then◌else◌, Option-cases, Bool-cases,
  Result, ok, err, ◌>>=◌, value_error, nat_eq,
}
use codex_test.Prelude.Dict.{lookup, lookup-insert, lookup-insert_self}
use codex_test.Supervisor.Runtime.{
  RuntimeSupervisor, ServiceRecord, System, register, start, assess, mark_ready, heartbeat, tick,
  stop, restart, or_unknown, register_new, new_service, assessed, assess_found, marked, put_service,
  start_found, mark_found, heartbeat_found, stop_found, stopped_record, restart_stopped,
  restart_found, is_alive,
}
use codex_test.Supervisor.Keeps.{
  generation_of, Keeps, Keeps-refl, Keeps-trans, put-Keeps, found-Keeps, pass-Keeps,
  start_found-Keeps, stop_found-Keeps, tick_all-lookup, restart_stopped-generation,
}

pub data Call : Type 0 where
  registers : String → List String → ℕ → ℕ → ℕ → Call
  starts : System → String → ℕ → Call
  assesses : String → Bool → Bool → Bool → Call
  marks : String → ℕ → Bool → Bool → ℕ → Call
  beats : String → ℕ → ℕ → Call
  ticks : System → ℕ → Call
  stops : System → String → Call
  restarts : System → System → String → ℕ → Call

unfoldable pub step : Call → RuntimeSupervisor → RuntimeSupervisor
step (registers id command a b c) s = (register id command a b c s).1
step (starts os id ts) s = (start os id ts s).1
step (assesses id p t f) s = (assess id p t f s).1
step (marks id g t f ts) s = (mark_ready id g t f ts s).1
step (beats id g ts) s = (heartbeat id g ts s).1
step (ticks os ts) s = tick os ts s
step (stops os id) s = (stop os id s).1
step (restarts before after id ts) s = (restart before after id ts s).1

unfoldable pub run : List Call → RuntimeSupervisor → RuntimeSupervisor
unfolding step
run [] s = s
run (c ∷ cs) s = run cs (step c s)

stop_found-lookup :
    (os : System) (id : String) (r : ServiceRecord) (s : RuntimeSupervisor)
    → os.kill_ends id ≡ true
    → stop_found os id r s ≡ put_service id (stopped_record r) s
stop_found-lookup os id r s h = elim (Bool-cases (is_alive os id s)) [
  | inl alive ↦ rw (alive, h) refl
  | inr gone ↦ rw gone refl
]

-- Behind a stop that returns, the record has kept its generation.
-- What a stop returns is what stands under the key.
stop_found-found :
    (os : System) (id : String) (r r' : ServiceRecord) (s : RuntimeSupervisor)
    → (stop_found os id r s).0 ≡ ok r'
    → lookup id (stop_found os id r s).1.services ≡ some r'
stop_found-found os id r r' s = elim (Bool-cases (is_alive os id s && not (os.kill_ends id))) [
  | inl stuck ↦ rw stuck (λ h. ground (arith, h))
  | inr ends ↦ rw ends (λ h. ground (arith, h, lookup-insert_self id (stopped_record r) s.services))
]

stopped-Keeps :
    (os : System) (id : String) (ts : ℕ) (s x : RuntimeSupervisor)
    (o : Result ServiceRecord × RuntimeSupervisor)
    → Keeps s o.1
    → ((r : ServiceRecord) → o.0 ≡ ok r → lookup id o.1.services ≡ some r)
    → Keeps s (((λ (y : RuntimeSupervisor). o) >>= restart_stopped os id ts) x).1
stopped-Keeps os id ts s x (ok r, t) h g =
    Keeps-trans s t _ h (restart_stopped-generation os id ts r t (g r refl)).0
stopped-Keeps os id ts s x (err e, t) h g = h

restart_found-Keeps :
    (before after : System) (id : String) (ts : ℕ) (r : ServiceRecord) (s : RuntimeSupervisor)
    → lookup id s.services ≡ some r
    → Keeps s (restart_found before after id ts r s).1
restart_found-Keeps before after id ts r s h = elim (Bool-cases (is_alive before id s)) [
  | inl alive ↦
      subst
        (λ b.
          Keeps s
            (if b
              then ((stop_found before id r >>= restart_stopped after id ts) s)
              else restart_stopped after id ts r s).1)
        (sym alive)
        (stopped-Keeps after id ts s s (stop_found before id r s) (stop_found-Keeps s before id r h)
          (λ q e. stop_found-found before id r q s e))
  | inr gone ↦
      subst
        (λ b.
          Keeps s
            (if b
              then ((stop_found before id r >>= restart_stopped after id ts) s)
              else restart_stopped after id ts r s).1)
        (sym gone) (restart_stopped-generation after id ts r s h).0
]

new-Keeps :
    (o : Option ServiceRecord) (id : String) (r : ServiceRecord) (s : RuntimeSupervisor)
    → lookup id s.services ≡ o
    → Keeps s (register_new o id r s).1
new-Keeps none id r s h = record {
  kept = λ k. ground (arith, h, lookup-insert id k r s.services, eq_iff id k);
}
new-Keeps (some old) id r s h = Keeps-refl s

register-Keeps :
    (id : String) (command : List String) (a b c : ℕ) (s : RuntimeSupervisor)
    → Keeps s (register id command a b c s).1
unfolding register
register-Keeps id command a b c s =
    new-Keeps (lookup id s.services) id (new_service id command a b c) s refl

step-Keeps : (c : Call) (s : RuntimeSupervisor) → Keeps s (step c s)
unfolding step start assess mark_ready heartbeat tick stop restart
step-Keeps (registers id command a b c) s = register-Keeps id command a b c s
step-Keeps (starts os id ts) s =
    found-Keeps id (start_found os id ts) s (λ r h. start_found-Keeps s os id ts r h)
step-Keeps (assesses id p t f) s =
    found-Keeps id (assess_found id p t f) s
      (λ r h. put-Keeps id r (assessed p t f r) s h (omega arith))
step-Keeps (marks id g t f ts) s = found-Keeps id (mark_found id g t f ts) s (λ r h.
    pass-Keeps s (nat_eq g r.generation) (put_service id (marked t f ts r))
      (put-Keeps id r (marked t f ts r) s h (omega arith)))
step-Keeps (beats id g ts) s = found-Keeps id (heartbeat_found id g ts) s (λ r h.
    pass-Keeps s (nat_eq g r.generation) (put_service id (record r { last_heartbeat_at = some ts }))
      (put-Keeps id r (record r { last_heartbeat_at = some ts }) s h (omega arith)))
step-Keeps (ticks os ts) s = record { kept = λ k. tick_all-lookup s os ts s.processes s.services k }
step-Keeps (stops os id) s =
    found-Keeps id (stop_found os id) s (λ r h. stop_found-Keeps s os id r h)
step-Keeps (restarts before after id ts) s =
    found-Keeps id (restart_found before after id ts) s
      (λ r h. restart_found-Keeps before after id ts r s h)

run-Keeps : (cs : List Call) (s : RuntimeSupervisor) → Keeps s (run cs s)
unfolding run
run-Keeps [] s = Keeps-refl s
run-Keeps (c ∷ cs) s = Keeps-trans s (step c s) _ (step-Keeps c s) (run-Keeps cs (step c s))

-- Behind the restart of a service that stops in time.
restart-generation :
    (before after : System) (id : String) (ts : ℕ) (r : ServiceRecord) (s : RuntimeSupervisor)
    → lookup id s.services ≡ some r
    → before.kill_ends id ≡ true
    → r.generation + 1 ≤ generation_of id (restart_found before after id ts r s).1
restart-generation before after id ts r s h ends = elim (Bool-cases (is_alive before id s)) [
  | inl alive ↦
      let mid = (put_service id (stopped_record r) s).1 in
      let known = lookup-insert_self id (stopped_record r) s.services in
      subst
        (λ b.
          r.generation + 1
          ≤ generation_of id
              (if b
                then ((stop_found before id r >>= restart_stopped after id ts) s)
                else restart_stopped after id ts r s).1)
        (sym alive)
        (subst
          (λ o.
            r.generation + 1
            ≤ generation_of id
                (((λ (y : RuntimeSupervisor). o) >>= restart_stopped after id ts) s).1)
          (sym (stop_found-lookup before id r s ends))
          (restart_stopped-generation after id ts (stopped_record r) mid known).1)
  | inr gone ↦ rw gone (restart_stopped-generation after id ts r s h).1
]

stale_raises :
    (id : String) (g ts : ℕ) (t f : Bool) (s : RuntimeSupervisor)
    → g < generation_of id s
    → (mark_ready id g t f ts s ≡ (err value_error, s))
      × (heartbeat id g ts s ≡ (err value_error, s))
unfolding mark_ready heartbeat
stale_raises id g ts t f s h = elim (Option-cases (lookup id s.services)) [
  | inl missing ↦ absurd (ground (arith, h, missing))
  | inr (r, known) ↦
      let other : nat_eq g r.generation ≡ false = ground (arith, h, known) in
      (
        ap (λ o. (or_unknown o >>= mark_found id g t f ts) s) known ∙ rw other refl,
        ap (λ o. (or_unknown o >>= heartbeat_found id g ts) s) known ∙ rw other refl,
      )
]

-- Once a service that stops in time has been restarted, whether the new process came up or not, whatever is
-- called afterwards: a report of readiness or a heartbeat of the old generation raises and changes
-- nothing.
pub restart_fences :
    (before after : System) (id : String) (ts : ℕ) (r : ServiceRecord) (s : RuntimeSupervisor)
    → lookup id s.services ≡ some r
    → before.kill_ends id ≡ true
    → (later : List Call) (at : ℕ) (transport_ok functional_ok : Bool)
    → let t = run later (restart before after id ts s).1 in
      (mark_ready id r.generation transport_ok functional_ok at t ≡ (err value_error, t))
      × (heartbeat id r.generation at t ≡ (err value_error, t))
unfolding restart
restart_fences before after id ts r s h ends later at p f =
    let now =
      subst
        (λ o.
          r.generation + 1
          ≤ generation_of id ((or_unknown o >>= restart_found before after id ts) s).1)
        (sym h) (restart-generation before after id ts r s h ends) in
    let kept = (run-Keeps later (restart before after id ts s).1).kept id in
    stale_raises id r.generation at p f (run later (restart before after id ts s).1)
      (omega (arith, now, kept))
