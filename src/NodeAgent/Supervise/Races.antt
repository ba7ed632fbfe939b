-- ===== src/NodeAgent/Supervise/Races.antt =====
-- Two interleavings that the code does not mean to allow.
use dc_net_lab.Prelude.{
  ==-refl, length, subst, ℕ, ◌+◌, ◌<◌, ◌≡◌, refl, ap, ◌∙◌, String, List, [], ◌∷◌, true, false, none,
  some, ◌==◌, string_eq, arith, ok, err,
}
use dc_net_lab.NodeAgent.{running, failed, HealthCheck, restart_always}
use dc_net_lab.NodeAgent.Supervise.{
  Supervisor, is_some, is_running, ended, waits, backs_off, start, start_locked, on_exit,
  ended_program, note_error, restarts_after, set_ready, respawn, readiness_tick, readiness_verdict,
}
use dc_net_lab.NodeAgent.Supervise.Steps.{Steps, here, then_, exits, fails, ticks, answers}

tick-probes :
    (t : Supervisor)
    → t.program.state ≡ running
    → 0 < t.program.pid
    → readiness_tick t ≡ record t { probes = t.probes + 1 }
unfolding readiness_tick
tick-probes t r h = ground arith

-- The stages of one run: a start with a probe in flight, its exit, the answer, and the failed respawn.
abbrev in_flight : Supervisor → ℕ → Supervisor
in_flight s pid = let t = start_locked s (ok pid) in record t { probes = t.probes + 1 }

in_flight-fields :
    (s : Supervisor) (pid : ℕ)
    → ((in_flight s pid).loop ≡ waits pid)
      × ((in_flight s pid).probes ≡ s.probes + 1)
      × ((in_flight s pid).ctx_done ≡ false)
      × ((in_flight s pid).program.desired ≡ s.program.desired)
      × ((in_flight s pid).program.state ≡ running)
      × ((in_flight s pid).program.spec ≡ s.program.spec)
unfolding start_locked
in_flight-fields s pid = (refl, refl, refl, refl, refl, refl)

start_locked-tick :
    (s : Supervisor) (pid : ℕ)
    → 0 < pid
    → readiness_tick (start_locked s (ok pid)) ≡ in_flight s pid
unfolding start_locked
start_locked-tick s pid h = tick-probes (start_locked s (ok pid)) refl h

start_locked-readiness_check :
    (s : Supervisor) (pid : ℕ)
    → is_some s.program.spec.readiness_check ≡ true
    → is_some (start_locked s (ok pid)).program.spec.readiness_check ≡ true
unfolding start_locked
start_locked-readiness_check s pid h = h

exited-backs_off :
    (t : Supervisor)
    → t.ctx_done ≡ false
    → t.program.desired ≡ running
    → t.program.spec.restart_policy ≡ restart_always
    → ((on_exit t none).loop ≡ backs_off)
      × ((on_exit t none).probes ≡ t.probes)
      × ((on_exit t none).program.pid ≡ 0)
      × ((on_exit t none).program.state ≡ t.program.state)
unfolding on_exit restarts_after
exited-backs_off t d w a =
    let same : (t.program.spec.restart_policy == restart_always) ≡ true =
      rw a (==-refl restart_always) in
    ground (arith, same)

answer-ready :
    (t : Supervisor)
    → 0 < t.probes
    → t.program.state ≡ running
    → ((readiness_verdict t true).loop ≡ t.loop)
      × ((readiness_verdict t true).program ≡ record (t.program) { ready = true })
unfolding readiness_verdict set_ready
answer-ready t h r = ground arith

respawn-fails :
    (t : Supervisor) (msg : String)
    → (respawn t (err msg)).program ≡ record (t.program) { state = failed; last_err = msg }
unfolding respawn
respawn-fails t msg = refl

-- A readiness probe that is in flight when its process exits can answer during the backoff, where the program
-- still shows Running: then Ready is set with no process, and if the next spawn fails it stays set on a
-- Failed program. So it is for every program that has a readiness check, is wanted running and is restarted always, from
-- every start of it on.
pub ready_without_process :
    (s : Supervisor) (pid : ℕ) (msg : String)
    → 0 < pid
    → is_some s.program.spec.readiness_check ≡ true
    → s.program.desired ≡ running
    → s.program.spec.restart_policy ≡ restart_always
    → (t : Supervisor) × (u : Supervisor) × Steps (start_locked s (ok pid)) t
      × (t.program.ready ≡ true)
      × (t.program.pid ≡ 0)
      × Steps t u
      × (u.program.ready ≡ true)
      × (u.program.state ≡ failed)
ready_without_process s pid msg h checked d a =
    let s2 = in_flight s pid in
    let s3 = on_exit s2 none in
    let s4 = readiness_verdict s3 true in
    let s5 = respawn s4 (err msg) in
    let (l2, p2, c2, d2, st2, sp2) = in_flight-fields s pid in
    let (l3, p3, i3, st3) = exited-backs_off s2 c2 (d2 ∙ d) (ap (λ q. q.restart_policy) sp2 ∙ a) in
    let (l4, pr4) = answer-ready s3 (omega (arith, p3, p2)) (st3 ∙ st2) in
    let fs = respawn-fails s4 msg in
    let flown =
      subst (λ q. Steps (start_locked s (ok pid)) q) (start_locked-tick s pid h)
        (then_ here (ticks (start_locked-readiness_check s pid checked))) in
    (
      s4,
      s5,
      then_ (then_ flown (exits pid none l2)) (answers true),
      ap (λ q. q.ready) pr4,
      ap (λ q. q.pid) pr4 ∙ i3,
      then_ here (fails msg (l4 ∙ l3)),
      ap (λ q. q.ready) fs ∙ ap (λ q. q.ready) pr4,
      ap (λ q. q.state) fs,
    )

-- `Start`, then the exit of the program's process without an error, once for each process id.
pub rounds : Supervisor → List ℕ → Supervisor
rounds s [] = s
rounds s (pid ∷ pids) = rounds (on_exit (start s (ok pid)) none) pids

-- what `on_exit` leaves of a program that is not restarted
on_exit-ends :
    (t : Supervisor)
    → (t.program.spec.restart_policy == restart_always) ≡ false
    → ((on_exit t none).monitors ≡ t.monitors)
      × ((on_exit t none).program.spec ≡ t.program.spec)
      × ((on_exit t none).loop ≡ ended)
      × (is_running (on_exit t none).program.state ≡ false)
unfolding on_exit ended_program note_error restarts_after
on_exit-ends t h = ground (arith, h)

start-monitors :
    (s : Supervisor) (pid : ℕ) (c : HealthCheck)
    → is_running s.program.state ≡ false
    → s.program.spec.liveness_check ≡ some c
    → (length (start s (ok pid)).monitors ≡ length s.monitors + 1)
      × ((start s (ok pid)).program.spec ≡ s.program.spec)
      × ((start s (ok pid)).loop ≡ waits pid)
unfolding start start_locked
start-monitors s pid c stopped h = ground (arith, stopped, h)

-- `supervise` does not cancel the context when its loop ends by itself. So for a program that has a liveness check, is not
-- restarted always and is not running: each `Start` whose process then exits without an error ends the loop, and
-- leaves one more monitor that has not returned.
pub rounds-monitors :
    (s : Supervisor) (pids : List ℕ) (c : HealthCheck)
    → s.loop ≡ ended
    → is_running s.program.state ≡ false
    → s.program.spec.liveness_check ≡ some c
    → (s.program.spec.restart_policy == restart_always) ≡ false
    → (length (rounds s pids).monitors ≡ length s.monitors + length pids)
      × ((rounds s pids).loop ≡ ended)
      × (is_running (rounds s pids).program.state ≡ false)
unfolding rounds
rounds-monitors s [] c l n h r = (omega arith, l, n)
rounds-monitors s (pid ∷ pids) c l n h r =
    let t = start s (ok pid) in
    let (m1, sp1, l1) = start-monitors s pid c n h in
    let r1 : (t.program.spec.restart_policy == restart_always) ≡ false =
      ap (λ q. q.restart_policy == restart_always) sp1 ∙ r in
    let (m2, sp2, l2, n2) = on_exit-ends t r1 in
    let (m, l', n') =
      rounds-monitors (on_exit t none) pids c l2 n2 (ap (λ q. q.liveness_check) (sp2 ∙ sp1) ∙ h)
        (ap (λ q. q.restart_policy == restart_always) (sp2 ∙ sp1) ∙ r) in
    (omega (arith, m, m1, ap length m2), l', n')
