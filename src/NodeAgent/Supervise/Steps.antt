-- ===== src/NodeAgent/Supervise/Steps.antt =====
-- The goroutines of one program as interleaved steps, and what holds between any two of them.
use dc_net_lab.Prelude.{
  ℕ, zero, suc, ◌+◌, ◌*◌, ◌^◌, ◌<◌, min, ◌≡◌, ◌≢◌, ◌⊎◌, ◌∙◌, inl, inr, Bool-cases, ap, subst, refl,
  String, Bool, true, false, not, ◌||◌, Option, arith, ok, err, eqb,
}
use native.Mathlib.Numerals.{towards_suc}
use dc_net_lab.NodeAgent.{State, running, Program, HealthState, second}
use dc_net_lab.NodeAgent.Supervise.{
  Supervisor, Loop, waits, backs_off, ended, max_backoff, is_running, is_some, start_locked, cancel,
  restarts_after, ended_program, note_error, on_exit, cancelled_backoff, respawn, set_ready,
  set_health, readiness_tick, readiness_verdict,
}

pub data Step : Supervisor → Supervisor → Type 0 where
  exits : {s : Supervisor} (pid : ℕ) (e : Option String) → s.loop ≡ waits pid → Step s (on_exit s e)
  gives_up :
      {s : Supervisor} → s.loop ≡ backs_off → s.ctx_done ≡ true → Step s (cancelled_backoff s)
  spawns : {s : Supervisor} (pid : ℕ) → s.loop ≡ backs_off → 0 < pid → Step s (respawn s (ok pid))
  fails : {s : Supervisor} (msg : String) → s.loop ≡ backs_off → Step s (respawn s (err msg))
  cancels : {s : Supervisor} → Step s (cancel s)
  wants :
      {s : Supervisor} (d : State)
      → Step s (record s { program = record (s.program) { desired = d } })
  ticks :
      {s : Supervisor} → is_some s.program.spec.readiness_check ≡ true → Step s (readiness_tick s)
  answers : {s : Supervisor} (verdict : Bool) → Step s (readiness_verdict s verdict)
  judges : {s : Supervisor} (h : HealthState) → Step s (set_health s h)

pub data Steps (s : Supervisor) : Supervisor → Type 0 where
  here : Steps s s
  then_ : {t u : Supervisor} → Steps s t → Step t u → Steps s u

-- Where the goroutine stands agrees with what the program shows.
abbrev pub Agrees : Loop → ℕ → State → Type 0
Agrees (waits n) pid state = (0 < n) × (pid ≡ n) × (state ≡ running)
Agrees backs_off pid state = (pid ≡ 0) × (state ≡ running)
Agrees ended pid state = (pid ≡ 0) × (state ≢ running)

pub record IsSound (s : Supervisor) : Type 0 where
  pub agrees : Agrees s.loop s.program.pid s.program.state
  pub backoff_lem : s.loop ≢ ended → s.backoff ≡ min (2 ^ s.program.restarts * second) max_backoff

start_locked-IsSound : (s : Supervisor) (pid : ℕ) → 0 < pid → IsSound (start_locked s (ok pid))
unfolding start_locked
start_locked-IsSound s pid h = record { agrees = (h, refl, refl); backoff_lem = λ _. omega arith }

ended_program-fields :
    (p : Program) (c : Bool) (e : Option String)
    → ((ended_program p c e).pid ≡ p.pid) × (is_running (ended_program p c e).state ≡ false)
unfolding ended_program
ended_program-fields p c e = ground arith

note_error-fields :
    (p : Program) (e : Option String)
    → ((note_error p e).pid ≡ p.pid)
      × ((note_error p e).state ≡ p.state)
      × ((note_error p e).restarts ≡ p.restarts)
unfolding note_error
note_error-fields p e = ground arith

not_running : (st : State) → is_running st ≡ false → st ≢ running
not_running st h e = cc (ap is_running e, h)

-- the program as `supervise` leaves it before the switch
abbrev pub reaped : Program → Program
reaped p = record p { pid = 0; health = HealthState.unknown; ready = false }

on_exit-cases :
    (s : Supervisor) (e : Option String)
    → (on_exit s e ≡ record s { program = note_error (reaped s.program) e; loop = backs_off })
      ⊎ (on_exit s e
          ≡ record s { program = ended_program (reaped s.program) s.ctx_done e; loop = ended })
on_exit-cases s e = elim (Bool-cases (restarts_after (reaped s.program) s.ctx_done e)) [
  | inl b ↦ inl (unfold on_exit in ground arith)
  | inr b ↦ inr (unfold on_exit in ground arith)
]

on_exit-IsSound :
    (s : Supervisor) (pid : ℕ) (e : Option String)
    → s.loop ≡ waits pid
    → IsSound s
    → IsSound (on_exit s e)
on_exit-IsSound s pid e h v =
    let a : Agrees (waits pid) s.program.pid s.program.state =
      subst (λ l. Agrees l s.program.pid s.program.state) h v.agrees in
    let live : s.loop ≢ ended = λ q. cc (h, q) in
    elim (on_exit-cases s e) [
      | inl q ↦
          let f = note_error-fields (reaped s.program) e in
          rw q (record {
            agrees = (f.0, f.1 ∙ a.2);
            backoff_lem = λ _. ground (arith, v.backoff_lem live, f.2);
          })
      | inr q ↦
          let f = ended_program-fields (reaped s.program) s.ctx_done e in
          rw q (record { agrees = (f.0, not_running _ f.1); backoff_lem = λ n. absurd (n refl) })
    ]

respawn-IsSound :
    (s : Supervisor) (pid : ℕ)
    → s.loop ≡ backs_off
    → 0 < pid
    → IsSound s
    → IsSound (respawn s (ok pid))
unfolding respawn
respawn-IsSound s pid h pos_pid v =
    let live : s.loop ≢ ended = λ q. cc (h, q) in
    record {
      agrees = (pos_pid, refl, refl);
      backoff_lem = λ _.
          let twice : 2 ^ (s.program.restarts + 1) ≡ 2 * 2 ^ s.program.restarts =
            simp towards_suc (omega arith) in
          omega (arith, v.backoff_lem live, twice);
    }

-- Steps that leave alone what the invariant reads.
module _ (s : Supervisor) (v : IsSound s) where
  set_ready-IsSound : (b : Bool) → IsSound (set_ready s b)
  unfolding set_ready
  set_ready-IsSound b = elim (Bool-cases (is_running s.program.state)) [
    | inl r ↦ rw r (record { agrees = v.agrees; backoff_lem = v.backoff_lem })
    | inr r ↦ rw r v
  ]

  set_health-IsSound : (h : HealthState) → IsSound (set_health s h)
  unfolding set_health
  set_health-IsSound h = elim (Bool-cases (is_running s.program.state)) [
    | inl r ↦ rw r (record { agrees = v.agrees; backoff_lem = v.backoff_lem })
    | inr r ↦ rw r v
  ]

  readiness_tick-IsSound : IsSound (readiness_tick s)
  unfolding readiness_tick
  readiness_tick-IsSound =
      elim (Bool-cases (not (is_running s.program.state) || eqb s.program.pid 0)) [
        | inl r ↦ rw r (set_ready-IsSound false)
        | inr r ↦ rw r (record { agrees = v.agrees; backoff_lem = v.backoff_lem })
      ]

readiness_verdict-IsSound :
    (s : Supervisor) (b : Bool) (n : ℕ) → s.probes ≡ n → IsSound s → IsSound (readiness_verdict s b)
readiness_verdict-IsSound s b zero e v =
    unfold readiness_verdict in rw e (record { agrees = v.agrees; backoff_lem = v.backoff_lem })
readiness_verdict-IsSound s b (suc n) e v =
    unfold readiness_verdict in
    rw e (
      set_ready-IsSound (record s { probes = n })
        (record { agrees = v.agrees; backoff_lem = v.backoff_lem }) b)

Step-IsSound : {s t : Supervisor} → Step s t → IsSound s → IsSound t
unfolding cancelled_backoff cancel respawn
Step-IsSound {s} (exits pid e h) v = on_exit-IsSound s pid e h v
Step-IsSound {s} (gives_up h c) v =
    let a : Agrees backs_off s.program.pid s.program.state =
      subst (λ l. Agrees l s.program.pid s.program.state) h v.agrees in
    record { agrees = (a.0, λ q. cc); backoff_lem = λ n. absurd (n refl) }
Step-IsSound {s} (spawns pid h p) v = respawn-IsSound s pid h p v
Step-IsSound {s} (fails msg h) v =
    let a : Agrees backs_off s.program.pid s.program.state =
      subst (λ l. Agrees l s.program.pid s.program.state) h v.agrees in
    record { agrees = (a.0, λ q. cc); backoff_lem = λ n. absurd (n refl) }
Step-IsSound {s} cancels v = record { agrees = v.agrees; backoff_lem = v.backoff_lem }
Step-IsSound {s} (wants d) v = record { agrees = v.agrees; backoff_lem = v.backoff_lem }
Step-IsSound {s} (ticks r) v = readiness_tick-IsSound s v
Step-IsSound {s} (answers b) v = readiness_verdict-IsSound s b s.probes refl v
Step-IsSound {s} (judges h) v = set_health-IsSound s v h

-- From a start on, after any interleaving of the goroutines: while `supervise` waits on a process, the program shows that
-- process and Running; while it backs off, no process and Running; after it has returned, no
-- process and another state. And while it has not returned, the next backoff is one second doubled once
-- for each restart so far, up to 15 seconds.
pub Steps-IsSound :
    (s : Supervisor) (pid : ℕ) (t : Supervisor)
    → 0 < pid
    → Steps (start_locked s (ok pid)) t
    → IsSound t
Steps-IsSound s pid t h here = start_locked-IsSound s pid h
Steps-IsSound s pid t h (then_ {t = u} r st) = Step-IsSound st (Steps-IsSound s pid u h r)
