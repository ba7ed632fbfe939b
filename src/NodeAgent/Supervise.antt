-- ===== src/NodeAgent/Supervise.antt =====
-- nodeapps/internal/nodeagent/manager.go: the supervision of one program. Each function is what one
-- goroutine does in one go under the manager's lock; the system calls' outcomes are arguments.
pub mod Steps
pub mod Stop
pub mod Liveness
pub mod Races
use dc_net_lab.Prelude.{
  ℕ, zero, suc, ◌+◌, ◌*◌, min, String, List, [], ◌∷◌, Bool, true, false, not, ◌&&◌, ◌||◌, Option,
  none, some, ◌==◌, string_eq, nat_eq, eqb, ltb, if◌then◌else◌, Result, ok, err,
}
use dc_net_lab.NodeAgent.{
  State, configured, running, stopped, failed, exited, HealthState, unknown, healthy, unhealthy,
  Program, second, restart_always, restart_on_failure, type_oneshot,
}

abbrev pub initial_backoff : ℕ
initial_backoff = second

abbrev pub max_backoff : ℕ
max_backoff = 15 * second

abbrev pub is_running : State → Bool
is_running running = true
is_running _ = false

abbrev pub is_some {ℓ} : {A : Type ℓ} → Option A → Bool
is_some none = false
is_some (some a) = true

-- Where the goroutine of `supervise` stands: it waits on a process, it waits for the backoff, or it
-- has returned (or was never started).
pub data Loop : Type 0 where
  waits : ℕ → Loop
  backs_off : Loop
  ended : Loop

-- `ctx` numbers the context of the last `startLocked`. `monitors` are the contexts of the liveness monitors
-- that have not returned, and `probes` the readiness probes that have not answered.
pub record Supervisor : Type 0 where
  pub program : Program
  pub loop : Loop
  pub backoff : ℕ
  pub ctx : ℕ
  pub ctx_done : Bool
  pub monitors : List ℕ
  pub probes : ℕ

remove_ctx : ℕ → List ℕ → List ℕ
remove_ctx c [] = []
remove_ctx c (d ∷ ds) = let rest = remove_ctx c ds in if eqb d c then rest else d ∷ rest

-- `startLocked`, with the outcome of `spawn`: the process id, or the error.
unfoldable pub start_locked : Supervisor → Result String ℕ → Supervisor
start_locked s (err msg) = record s {
  program = record (s.program) { state = failed; last_err = msg };
}
start_locked s (ok pid) = record {
  program = record (s.program) {
    state = running;
    restarts = 0;
    last_err = "";
    health = unknown;
    ready = not (is_some s.program.spec.readiness_check);
    pid = pid;
  };
  loop = waits pid;
  backoff = initial_backoff;
  ctx = s.ctx + 1;
  ctx_done = false;
  monitors = if is_some s.program.spec.liveness_check then (s.ctx + 1) ∷ s.monitors else s.monitors;
  probes = s.probes;
}

-- `Start` of an installed program, as far as its supervision goes: it does nothing while the program is running.
unfoldable pub start : Supervisor → Result String ℕ → Supervisor
start s spawned =
    if is_running s.program.state
    then s
    else start_locked (record s { program = record (s.program) { desired = running } }) spawned

-- The call of `cancel`: the monitors of the context return.
pub cancel : Supervisor → Supervisor
unfolding remove_ctx
cancel s = record s { ctx_done = true; monitors = remove_ctx s.ctx s.monitors }

-- What the switch of `supervise` decides after the process has exited.
pub restarts_after : Program → Bool → Option String → Bool
restarts_after p ctx_done exit_err =
    if ctx_done || not (is_running p.desired)
    then false
    else if p.spec.restart_policy == restart_always
    then true
    else p.spec.restart_policy == restart_on_failure && is_some exit_err

ended_program : Program → Bool → Option String → Program
ended_program p ctx_done exit_err =
    if ctx_done || not (is_running p.desired) then record p { state = stopped } else elim exit_err [
      | some e ↦ record p { state = failed; last_err = e }
      | none ↦
          if p.spec.type == type_oneshot
          then record p { state = exited; desired = stopped }
          else record p { state = stopped }
    ]

note_error : Program → Option String → Program
note_error p none = p
note_error p (some e) = record p { last_err = e }

-- The locked part of `supervise` after `waitProcess` has returned.
pub on_exit : Supervisor → Option String → Supervisor
unfolding restarts_after ended_program note_error
on_exit s exit_err =
    let p = record (s.program) { pid = 0; health = unknown; ready = false } in
    if restarts_after p s.ctx_done exit_err
    then record s { program = note_error p exit_err; loop = backs_off }
    else record s { program = ended_program p s.ctx_done exit_err; loop = ended }

-- The context is done while the goroutine waits for the backoff.
pub cancelled_backoff : Supervisor → Supervisor
cancelled_backoff s = record s { program = record (s.program) { state = stopped }; loop = ended }

-- The backoff is over: the part of `supervise` from there to the end of the loop's body.
pub respawn : Supervisor → Result String ℕ → Supervisor
respawn s (err msg) = record s {
  program = record (s.program) { state = failed; last_err = msg };
  loop = ended;
  backoff = min (s.backoff * 2) max_backoff;
}
respawn s (ok pid) = record s {
  program = record (s.program) {
    restarts = s.program.restarts + 1;
    pid = pid;
    state = running;
    ready = not (is_some s.program.spec.readiness_check);
  };
  loop = waits pid;
  backoff = min (s.backoff * 2) max_backoff;
}

pub set_ready : Supervisor → Bool → Supervisor
set_ready s verdict =
    if is_running s.program.state
    then record s { program = record (s.program) { ready = verdict } }
    else s

pub set_health : Supervisor → HealthState → Supervisor
set_health s verdict =
    if is_running s.program.state
    then record s { program = record (s.program) { health = verdict } }
    else s

-- A tick of `monitorReadiness` up to the probe: without a process it sets the verdict itself.
pub readiness_tick : Supervisor → Supervisor
readiness_tick s =
    if not (is_running s.program.state) || eqb s.program.pid 0
    then set_ready s false
    else record s { probes = s.probes + 1 }

-- A probe answers.
pub readiness_verdict : Supervisor → Bool → Supervisor
readiness_verdict s verdict = elim s.probes [
  | zero ↦ s
  | suc n ↦ set_ready (record s { probes = n }) verdict
]
