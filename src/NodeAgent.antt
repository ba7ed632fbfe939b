-- ===== src/NodeAgent.antt =====
-- The node agent (nodeapps/internal/nodeagent) and the vocabulary of internal/nodeagentapi: what the
-- supervisor's parts share. Durations are in nanoseconds.
pub mod Health
pub mod Supervise
mod Examples
use dc_net_lab.Prelude.{ℕ, ◌*◌, ◌^◌, String, Option, Bool, ℤ, ◌||◌, ◌==◌, string_eq, List}

pub data State : Type 0 where
  configured running stopped failed exited : State

pub data HealthState : Type 0 where
  unknown healthy unhealthy : HealthState

abbrev pub restart_never : String
restart_never = "Never"

abbrev pub restart_on_failure : String
restart_on_failure = "OnFailure"

abbrev pub restart_always : String
restart_always = "Always"

abbrev pub type_simple : String
type_simple = "simple"

abbrev pub type_oneshot : String
type_oneshot = "oneshot"

abbrev pub check_process : String
check_process = "process"

abbrev pub check_tcp : String
check_tcp = "tcp"

abbrev pub check_http : String
check_http = "http"

abbrev pub second : ℕ
second = 10 ^ 9

pub record HealthCheck : Type 0 where
  pub type : String
  pub port : ℤ
  pub path : String
  pub interval : ℤ
  pub timeout : ℤ
  pub failure_threshold : ℤ

pub record Spec : Type 0 where
  pub name : String
  pub package_name : String
  pub package_version : String
  pub entrypoint : String
  pub args : List String
  pub restart_policy : String
  pub type : String
  pub auto_start : Bool
  pub liveness_check : Option HealthCheck
  pub readiness_check : Option HealthCheck
  pub startup_order : ℤ

-- `started_at` is left out: nothing reads it but the snapshot for display.
pub record Program : Type 0 where
  pub spec : Spec
  pub state : State
  pub pid : ℕ
  pub restarts : ℕ
  pub last_err : String
  pub health : HealthState
  pub ready : Bool
  pub desired : State
