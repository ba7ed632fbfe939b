-- ===== src/NodeAgent/Supervise/Liveness.antt =====
-- `monitorLiveness` of nodeapps/internal/nodeagent/manager.go: the counter of failed probes.
use dc_net_lab.Prelude.{
  ℕ, zero, suc, ◌+◌, ◌/◌, ◌≤◌, ◌<◌, ◌≡◌, ap, sym, Bool, true, false, not, ◌||◌, arith, eqb, ltb,
  if◌then◌else◌, Bool-cases, inl, inr, ltb→lt, ltb→ge,
}
use native.Mathlib.Nat.{add-div_left, div-eq_of_lt}

-- The locals of the loop. A monitor that has seen no incarnation has `monitored` 0.
pub record Monitor : Type 0 where
  pub failures : ℕ
  pub monitored : ℕ

pub data Outcome : Type 0 where
  quiet sets_healthy : Outcome
  sets_unhealthy_and_kills : ℕ → Outcome

abbrev pub idle : Monitor
idle = record { failures = 0; monitored = 0 }

-- One tick: what the program shows, and the verdict of the probe if there is a process to probe.
pub liveness_tick : ℕ → Monitor → Bool → ℕ → Bool → Monitor × Outcome
liveness_tick threshold m is_running pid verdict =
    if not is_running || eqb pid 0
    then (idle, quiet)
    else let failures = if eqb pid m.monitored then m.failures else 0 in
      if verdict
      then (record { failures = 0; monitored = pid }, sets_healthy)
      else if ltb (failures + 1) threshold
      then (record { failures = failures + 1; monitored = pid }, quiet)
      else (idle, sets_unhealthy_and_kills pid)

abbrev kills : Outcome → ℕ
kills (sets_unhealthy_and_kills pid) = 1
kills _ = 0

-- The signals that n probes of one incarnation send if all of them fail.
pub kills_of : ℕ → Monitor → ℕ → ℕ → ℕ
kills_of threshold m pid zero = 0
kills_of threshold m pid (suc n) =
    let (m', o) = liveness_tick threshold m true pid false in kills o + kills_of threshold m' pid n

-- the failures of this incarnation that a monitor has counted
abbrev pub counted : Monitor → ℕ → ℕ
counted m pid = if eqb pid m.monitored then m.failures else 0

tick_counts :
    (threshold : ℕ) (m : Monitor) (pid : ℕ)
    → 0 < pid
    → counted m pid + 1 < threshold
    → liveness_tick threshold m true pid false
      ≡ (record { failures = counted m pid + 1; monitored = pid }, quiet)
unfolding liveness_tick
tick_counts threshold m pid h k = ground arith

tick_kills :
    (threshold : ℕ) (m : Monitor) (pid : ℕ)
    → 0 < pid
    → threshold ≤ counted m pid + 1
    → liveness_tick threshold m true pid false ≡ (idle, sets_unhealthy_and_kills pid)
unfolding liveness_tick
tick_kills threshold m pid h k = ground arith

-- Of n failing probes of one incarnation in a row, after c failures that are counted already, every
-- `threshold`-th one sends the signal: (c + n) / threshold of them.
pub kills_of-eq-div :
    (threshold : ℕ) (m : Monitor) (pid n : ℕ)
    → 0 < pid
    → counted m pid < threshold
    → kills_of threshold m pid n ≡ (counted m pid + n) / threshold
unfolding kills_of
kills_of-eq-div threshold m pid zero h k =
    sym (div-eq_of_lt (let e : counted m pid + 0 < threshold = ground (arith, k) in e))
kills_of-eq-div threshold m pid (suc n) h k =
    elim (Bool-cases (ltb (counted m pid + 1) threshold)) [
      | inl more ↦
          let lt : counted m pid + 1 < threshold = ltb→lt _ _ more in
          let m' : Monitor = record { failures = counted m pid + 1; monitored = pid } in
          let e : counted m' pid ≡ counted m pid + 1 = ground arith in
          let ih = kills_of-eq-div threshold m' pid n h (ground (arith, e)) in
          rw (tick_counts threshold m pid h lt) (
            let shift : counted m pid + suc n ≡ counted m' pid + n = omega (arith, e) in
            omega (arith, ih, ap (λ x. x / threshold) shift))
      | inr enough ↦ rw (tick_kills threshold m pid h (ltb→ge _ _ enough)) (
          let zero_count : counted idle pid ≡ 0 = ground arith in
          let ih = kills_of-eq-div threshold idle pid n h (omega (arith, zero_count, k)) in
          let full : counted m pid + suc n ≡ threshold + n = omega (arith, k, ltb→ge _ _ enough) in
          let rest : counted idle pid + n ≡ n = omega (arith, zero_count) in
          omega (
            arith,
            ih,
            ap (λ x. x / threshold) full,
            ap (λ x. x / threshold) rest,
            add-div_left n {k = threshold} (omega (arith, k)),
          ))
    ]
