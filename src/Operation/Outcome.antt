-- ===== src/Operation/Outcome.antt =====
-- controller/internal/operation/operation.go: how an operation ends.
use dc_net_lab.Prelude.{
  ℕ, ◌+◌, ◌*◌, ◌/◌, String, List, [], ◌∷◌, ◌++◌, Option, none, some, ◌≡◌, refl, ◌≢◌, ap, sym, subst,
  ◌∙◌, arith, Option-cases, inl, inr, All, All-append, append-snoc, length, length-append, leb,
  Bool-cases,
}
use dc_net_lab.Operation.{
  Op, OpStep, State, queued, running, succeeded, failed, Floats, Step, weight_of, total_of,
  set_step, start_steps, clamp, report, run_from, finish, run,
}

-- Described by the steps alone: the steps before the first that fails have succeeded, that one has failed with its
-- message, and those behind it have not begun.
pub ended_steps : {F : Type 0} → List (Step F) → List OpStep
ended_steps [] = []
ended_steps (s ∷ ss) = elim s.outcome [
  | none ↦
      record { name = s.name; state = succeeded; message = ""; weight = weight_of s }
      ∷ ended_steps ss
  | some msg ↦
      record { name = s.name; state = failed; message = msg; weight = weight_of s } ∷ start_steps ss
]

pub first_error : {F : Type 0} → List (Step F) → Option String
first_error [] = none
first_error (s ∷ ss) = elim s.outcome [ none ↦ first_error ss | some msg ↦ some msg ]

set_step-append :
    (front : List OpStep) (t : OpStep) (ts : List OpStep) (state : State) (message : String)
    → set_step (length front) state message (front ++ (t ∷ ts))
      ≡ front ++ (record t { state = state; message = message } ∷ ts)
set_step-append [] t ts state message = refl
set_step-append (f ∷ fs) t ts state message =
    ap (λ r. f ∷ r) (set_step-append fs t ts state message)

module _ (floats : Floats) where
  open floats use {Float, times}

  -- a report changes the progress only, and shows no other state on the way
  report-steps :
      (done weight total : ℕ) (op : Op) (fs : List Float)
      → let r = report floats done weight total op fs in
        (r.0.steps ≡ op.steps)
        × (r.0.state ≡ op.state)
        × (r.0.error ≡ op.error)
        × (op.state ≡ running → All (λ o. o.state ≡ running) r.1)
  unfolding report
  report-steps done weight total op [] = (refl, refl, refl, λ h. tt)
  report-steps done weight total op (f ∷ fs) =
      let p : ℕ = (done * 100 + times (clamp floats f) (weight * 100)) / total in
      let again = report-steps done weight total op fs in
      let moved = report-steps done weight total (record op { progress = p }) fs in
      elim (Bool-cases (leb p op.progress)) [
        | inl e ↦ rw (report, e) again
        | inr e ↦ rw (report, e) (moved.0, moved.1, moved.2, λ h. (h, moved.3 h))
      ]

  abbrev Ends : List OpStep → List (Step Float) → Op → Op × Option String × List Op → Type 0
  Ends front ss op r =
      (r.0.steps ≡ front ++ ended_steps ss)
      × (r.1 ≡ first_error ss)
      × (r.0.error ≡ op.error)
      × All (λ o. o.state ≡ running) r.2
      × (r.0.state ≡ running)

  run_from-Ends :
      (front : List OpStep) (i done total : ℕ) (op : Op) (ss : List (Step Float))
      → length front ≡ i
      → op.steps ≡ front ++ start_steps ss
      → op.state ≡ running
      → Ends front ss op (run_from floats i done total op ss)
  unfolding run_from ended_steps first_error start_steps
  run_from-Ends front i done total op [] h e st = (e, refl, refl, tt, st)
  run_from-Ends front i done total op (s ∷ ss) h e st =
      let w = weight_of s in
      let fresh : OpStep = record { name = s.name; state = queued; message = ""; weight = w } in
      let begun : OpStep = record fresh { state = running } in
      let op1 = record op { steps = set_step i running "" op.steps } in
      let r = report floats done w total op1 s.reports in
      let (same_steps, same_state, same_error, all_running) =
        report-steps done w total op1 s.reports in
      let at : (st : State) (m : String) (t : OpStep)
          → set_step i st m (front ++ (t ∷ start_steps ss))
            ≡ front ++ (record t { state = st; message = m } ∷ start_steps ss) =
        λ st m t.
          subst
            (λ k.
              set_step k st m (front ++ (t ∷ start_steps ss))
              ≡ front ++ (record t { state = st; message = m } ∷ start_steps ss))
            h (set_step-append front t (start_steps ss) st m) in
      let begun_steps : (r.0).steps ≡ front ++ (begun ∷ start_steps ss) =
        same_steps ∙ ap (set_step i running "") e ∙ at running "" fresh in
      elim (Option-cases s.outcome) [
        | inr (msg, o) ↦
            rw (run_from, o)
              (
                ap (set_step i failed msg) begun_steps ∙ at failed msg begun,
                refl,
                same_error,
                (st, All-append _ r.1 _ (all_running st) (same_state ∙ st, tt)),
                same_state ∙ st,
              )
        | inl o ↦
            let w' = done + w in
            let ended : OpStep = record fresh { state = succeeded } in
            let op3 = record (r.0) {
              steps = set_step i succeeded "" (r.0).steps;
              progress = w' * 100 / total;
            } in
            let ended_lem : op3.steps ≡ front ++ (ended ∷ start_steps ss) =
              ap (set_step i succeeded "") begun_steps ∙ at succeeded "" begun in
            let (a, b, c, d, f) =
              run_from-Ends (front ++ (ended ∷ [])) (i + 1) w' total op3 ss
                (omega (arith, length-append front (ended ∷ []), h))
                (ended_lem ∙ sym (append-snoc front ended (start_steps ss))) (same_state ∙ st) in
            rw (run_from, o)
              (
                a ∙ append-snoc front ended (ended_steps ss),
                b,
                c ∙ same_error,
                (st, All-append _ r.1 _ (all_running st) (same_state ∙ st, d)),
                f,
              )
      ]

  finish-ends :
      (op : Op) (e : Option String)
      → op.error ≡ none
      → ((finish floats op e).steps ≡ op.steps)
        × ((finish floats op e).error ≡ e)
        × (e ≡ none → (finish floats op e).state ≡ succeeded)
        × (e ≢ none → (finish floats op e).state ≡ failed)
  unfolding finish
  finish-ends op none h = (refl, h, λ e. refl, λ n. absurd (n refl))
  finish-ends op (some msg) h = (refl, refl, λ e. absurd (cc e), λ n. refl)

  -- What `Run` makes of an operation is told by its steps alone. If none fails, its last state is Succeeded, with every step
  -- Succeeded. Otherwise it is Failed with the error of the first step that fails, the steps before that one are
  -- Succeeded and those behind it still Queued. Every state before the last is Running, and `onDone` gets the
  -- same error.
  pub run-ended_steps :
      (op : Op) (ss : List (Step Float))
      → op.error ≡ none
      → let (frames, error, last) = run floats op ss in
        (last.steps ≡ ended_steps ss)
        × (error ≡ first_error ss)
        × (last.error ≡ first_error ss)
        × (first_error ss ≡ none → last.state ≡ succeeded)
        × (first_error ss ≢ none → last.state ≡ failed)
        × All (λ o. o.state ≡ running) frames
  unfolding run
  run-ended_steps op ss h =
      let op0 = record op { state = running; steps = start_steps ss } in
      let (a, b, c, d, f) = run_from-Ends [] 0 0 (total_of ss) op0 ss refl refl refl in
      let r = run_from floats 0 0 (total_of ss) op0 ss in
      let (same, error_lem, ok_lem, bad_lem) = finish-ends r.0 r.1 (c ∙ h) in
      (
        same ∙ a,
        b,
        error_lem ∙ b,
        λ e. ok_lem (b ∙ e),
        λ n. bad_lem (λ e. n (sym b ∙ e)),
        (refl, d),
      )
