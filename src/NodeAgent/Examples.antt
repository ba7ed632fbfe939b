-- ===== src/NodeAgent/Examples.antt =====
-- One web server with a readiness and a liveness check.
use dc_net_lab.Prelude.{
  ◌+◌, ◌*◌, ◌/◌, ◌≤◌, ◌≡◌, ◌≢◌, refl, String, [], ◌∷◌, true, false, Option, some, pos, arith, ok,
  length,
}
use dc_net_lab.NodeAgent.{
  running, failed, stopped, HealthState, Program, HealthCheck, second, restart_never,
}
use dc_net_lab.NodeAgent.Supervise.{
  Supervisor, is_running, waits, backs_off, ended, start_locked, cancel, on_exit,
}
use dc_net_lab.NodeAgent.Supervise.Steps.{Steps, here, then_, exits, IsSound, Steps-IsSound}
use dc_net_lab.NodeAgent.Supervise.Stop.{Steps-cancel}
use dc_net_lab.NodeAgent.Supervise.Liveness.{Monitor, kills_of, kills_of-eq-div}
use dc_net_lab.NodeAgent.Supervise.Races.{ready_without_process, rounds, rounds-monitors}

abbrev given : HealthCheck
given = record {
  type = "tcp";
  port = pos 80;
  path = "";
  interval = pos (5 * second);
  timeout = pos (2 * second);
  failure_threshold = pos 3;
}

abbrev web : Program
web = record {
  spec = record {
    name = "web";
    package_name = "nginx";
    package_version = "1";
    entrypoint = "run";
    args = [];
    restart_policy = "Always";
    type = "simple";
    auto_start = true;
    liveness_check = some given;
    readiness_check = some given;
    startup_order = pos 0;
  };
  state = stopped;
  pid = 0;
  restarts = 0;
  last_err = "";
  health = HealthState.unknown;
  ready = false;
  desired = running;
}

abbrev idle_web : Supervisor
idle_web = record {
  program = web;
  loop = ended;
  backoff = 0;
  ctx = 0;
  ctx_done = true;
  monitors = [];
  probes = 0;
}

abbrev started : Supervisor
started = start_locked idle_web (ok 7)

started-waits : started.loop ≡ waits 7
unfolding start_locked
started-waits = refl

abbrev crashed : Supervisor
crashed = on_exit started (some "exit status 1")

Steps-IsSound_example : IsSound crashed
Steps-IsSound_example =
    Steps-IsSound idle_web 7 crashed (omega arith)
      (then_ here (exits 7 (some "exit status 1") started-waits))

Steps-cancel_example :
    ((cancel started).program.restarts ≤ started.program.restarts + 1)
    × (started.loop ≢ backs_off → (cancel started).program.restarts ≤ started.program.restarts)
    × ((e : Option String)
        → ((on_exit (cancel started) e).loop ≡ ended)
          × ((on_exit (cancel started) e).program.state ≡ stopped))
Steps-cancel_example = Steps-cancel started (cancel started) here

abbrev one_failed : Monitor
one_failed = record { failures = 1; monitored = 7 }

kills_of-eq-div_example : kills_of 3 one_failed 7 5 ≡ (1 + 5) / 3
kills_of-eq-div_example = kills_of-eq-div 3 one_failed 7 5 (omega arith) (omega arith)

ready_without_process_example :
    (t : Supervisor) × (u : Supervisor) × Steps (start_locked idle_web (ok 7)) t
    × (t.program.ready ≡ true)
    × (t.program.pid ≡ 0)
    × Steps t u
    × (u.program.ready ≡ true)
    × (u.program.state ≡ failed)
ready_without_process_example =
    ready_without_process idle_web 7 "fork failed" (omega arith) refl refl refl

-- a program that is not restarted
abbrev once : Supervisor
once = record idle_web {
  program = record web { spec = record (web.spec) { restart_policy = restart_never } };
}

rounds-monitors_example :
    let after = rounds once (7 ∷ 8 ∷ 9 ∷ []) in
    (length after.monitors ≡ 3) × (after.loop ≡ ended) × (is_running after.program.state ≡ false)
rounds-monitors_example = rounds-monitors once (7 ∷ 8 ∷ 9 ∷ []) given refl refl refl refl
