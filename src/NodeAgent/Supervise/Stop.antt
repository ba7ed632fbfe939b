-- ===== src/NodeAgent/Supervise/Stop.antt =====
-- What cancelling and the restart policy promise about further processes.
use dc_net_lab.Prelude.{
  ℕ, ◌+◌, ◌≤◌, ◌≡◌, ◌≢◌, refl, String, Bool, true, false, Option, arith, string_eq,
}
use dc_net_lab.NodeAgent.{stopped, Program}
use dc_net_lab.NodeAgent.Supervise.{
  Supervisor, backs_off, ended, cancel, ended_program, on_exit, cancelled_backoff, respawn,
  set_ready, set_health, readiness_tick, readiness_verdict,
}
use dc_net_lab.NodeAgent.Supervise.Steps.{
  Step, Steps, here, then_, exits, gives_up, spawns, fails, cancels, wants, ticks, answers, judges,
}

-- The processes that the program has been restarted with, and the one that a backoff may still bring.
abbrev bound : Supervisor → ℕ
bound s = elim s.loop [ backs_off ↦ s.program.restarts + 1 | _ ↦ s.program.restarts ]

ended_program-restarts :
    (p : Program) (c : Bool) (e : Option String) → (ended_program p c e).restarts ≡ p.restarts
unfolding ended_program
ended_program-restarts p c e = ground arith

on_exit-done :
    (s : Supervisor) (e : Option String)
    → s.ctx_done ≡ true
    → ((on_exit s e).loop ≡ ended)
      × ((on_exit s e).program.state ≡ stopped)
      × ((on_exit s e).program.restarts ≡ s.program.restarts)
      × ((on_exit s e).ctx_done ≡ true)
unfolding on_exit
on_exit-done s e h = ground arith

set_ready-keeps :
    (s : Supervisor) (b : Bool)
    → (bound (set_ready s b) ≡ bound s) × ((set_ready s b).ctx_done ≡ s.ctx_done)
unfolding set_ready
set_ready-keeps s b = ground arith

Step-bound :
    {s t : Supervisor} → Step s t → s.ctx_done ≡ true → (bound t ≤ bound s) × (t.ctx_done ≡ true)
Step-bound {s} (exits pid e h) d = let f = on_exit-done s e d in ground (arith, f)
Step-bound {s} (gives_up h c) d = unfold cancelled_backoff in ground arith
Step-bound {s} (spawns pid h p) d = unfold respawn in ground arith
Step-bound {s} (fails msg h) d = unfold respawn in ground arith
Step-bound {s} cancels d = unfold cancel in ground arith
Step-bound {s} (wants w) d = ground arith
Step-bound {s} (ticks r) d = unfold readiness_tick in ground (arith, set_ready-keeps s false)
Step-bound {s} (answers b) d = unfold readiness_verdict set_ready in ground arith
Step-bound {s} (judges h) d = unfold set_health in ground arith

Steps-bound :
    (s t : Supervisor) → s.ctx_done ≡ true → Steps s t → (bound t ≤ bound s) × (t.ctx_done ≡ true)
Steps-bound s t d here = (omega arith, d)
Steps-bound s t d (then_ {t = u} r st) =
    let ih = Steps-bound s u d r in let f = Step-bound st ih.1 in (omega (arith, ih.0, f.0), f.1)

-- After `cancel`, as long as nobody starts the program again, whatever the goroutines do: at most one more process is spawned, and
-- only if the supervisor was waiting for a backoff; and when a process exits, the supervisor has
-- returned and the program is Stopped.
pub Steps-cancel :
    (s t : Supervisor)
    → Steps (cancel s) t
    → (t.program.restarts ≤ s.program.restarts + 1)
      × (s.loop ≢ backs_off → t.program.restarts ≤ s.program.restarts)
      × ((e : Option String)
          → ((on_exit t e).loop ≡ ended) × ((on_exit t e).program.state ≡ stopped))
Steps-cancel s t r =
    let b = Steps-bound (cancel s) t (unfold cancel in refl) r in
    unfold cancel in
    (ground (arith, b.0), λ n. ground (arith, b.0), λ e. let f = on_exit-done t e b.1 in (f.0, f.1))
