-- ===== src/NodeAgent/Health/Examples.antt =====
-- A TCP check that leaves its times to the agent.
use dc_net_lab.Prelude.{◌*◌, ◌≡◌, refl, pos, ok}
use dc_net_lab.NodeAgent.{HealthCheck, second}
use dc_net_lab.NodeAgent.Health.{
  normalise, fill, default_path, default_interval, default_timeout, default_threshold, IsUsable,
  normalise-IsUsable, normalise_idem,
}

abbrev asked : HealthCheck
asked = record {
  type = "tcp";
  port = pos 80;
  path = "";
  interval = pos 0;
  timeout = pos 0;
  failure_threshold = pos 0;
}

abbrev given : HealthCheck
given = record {
  type = "tcp";
  port = pos 80;
  path = "";
  interval = pos (10 * second);
  timeout = pos second;
  failure_threshold = pos 3;
}

normalised : normalise asked ≡ ok given
unfolding normalise fill default_path default_interval default_timeout default_threshold
normalised = refl

normalise-IsUsable_example : IsUsable given
normalise-IsUsable_example = normalise-IsUsable asked given (λ e. cc e) normalised

normalise_idem_example : normalise given ≡ ok given
normalise_idem_example = normalise_idem asked given normalised
