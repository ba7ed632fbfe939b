-- ===== src/Operation.antt =====
-- controller/internal/operation/operation.go: the run of an operation, with every state of it that is
-- persisted and published, and the buffer of a subscriber. Times are left out. What a step does is given:
-- the fractions it reports, in order, and its error, if there is one.
pub mod Progress
pub mod Outcome
pub mod Buffer
mod Examples
use dc_net_lab.Prelude.{
  ℕ, zero, suc, ◌+◌, ◌*◌, ◌/◌, ◌≤◌, String, List, [], ◌∷◌, ◌++◌, Bool, true, false, Option, none,
  some, map, ℤ, pos, ltb_ℤ, to_nat, leb, ◌≡◌, if◌then◌else◌,
}

pub data State : Type 0 where
  queued running succeeded failed cancelled : State

pub record OpStep : Type 0 where
  pub name : String
  pub state : State
  pub message : String
  pub weight : ℕ

-- `error` holds the message; its code is always STEP_FAILED.
pub record Op : Type 0 where
  pub id : String
  pub lab_id : String
  pub state : State
  pub progress : ℕ
  pub steps : List OpStep
  pub error : Option String

-- The floats but NaN: their order with 0 and 1, and `int(f * float64(n))` for one of them.
pub record Floats : Type 1 where
  pub Float : Type 0
  pub zero_f : Float
  pub one_f : Float
  pub below : Float → Float → Bool
  pub times : Float → ℕ → ℕ
  pub zero-below-one : below one_f zero_f ≡ false
  pub not-below_self : (f : Float) → below f f ≡ false
  pub times-le :
      (f : Float) (n : ℕ) → below f zero_f ≡ false → below one_f f ≡ false → times f n ≤ n

pub record Step (F : Type 0) : Type 0 where
  pub name : String
  pub weight : ℤ
  pub reports : List F
  pub outcome : Option String

-- `Step.weight`
pub weight_of : {F : Type 0} → Step F → ℕ
weight_of s = if ltb_ℤ (pos 0) s.weight then to_nat s.weight else 1

pub total_of : {F : Type 0} → List (Step F) → ℕ
total_of [] = 0
total_of (s ∷ ss) = weight_of s + total_of ss

-- `Create`, with the id that is made for the operation
pub create : String → String → Op
create id lab_id = record {
  id = id;
  lab_id = lab_id;
  state = queued;
  progress = 0;
  steps = [];
  error = none;
}

-- the change of one entry of `Steps`
abbrev pub set_step : ℕ → State → String → List OpStep → List OpStep
set_step i state message [] = []
set_step zero state message (t ∷ ts) = record t { state = state; message = message } ∷ ts
set_step (suc i) state message (t ∷ ts) = t ∷ set_step i state message ts

pub start_steps : {F : Type 0} → List (Step F) → List OpStep
start_steps ss =
    map (λ s. record { name = s.name; state = queued; message = ""; weight = weight_of s }) ss

-- `persist`: what is stored and published, and the call of `onDone` between the last two.
pub data Event : Type 0 where
  persisted : Op → Event
  on_done : Option String → Event

module _ (floats : Floats) where
  open floats use {Float, zero_f, one_f, below, times}

  pub clamp : Float → Float
  clamp f = if below f zero_f then zero_f else if below one_f f then one_f else f

  -- The callback of `withReporter`, once for each fraction: the operation after them and the states persisted.
  pub report : ℕ → ℕ → ℕ → Op → List Float → Op × List Op
  unfolding clamp
  report done weight total op [] = (op, [])
  report done weight total op (f ∷ fs) =
      let p = (done * 100 + times (clamp f) (weight * 100)) / total in
      elim (leb p op.progress) [
        | true ↦ report done weight total op fs
        | false ↦
            let op' = record op { progress = p } in
            let (last, frames) = report done weight total op' fs in (last, op' ∷ frames)
      ]

  -- The loop of `Run` from the i-th step on: the operation after it, the error that has ended it, and the
  -- states persisted.
  pub run_from : ℕ → ℕ → ℕ → Op → List (Step Float) → Op × Option String × List Op
  unfolding weight_of
  run_from i done total op [] = (op, none, [])
  run_from i done total op (s ∷ ss) =
      let op1 = record op { steps = set_step i running "" op.steps } in
      let (op2, frames) = report done (weight_of s) total op1 s.reports in
      elim s.outcome [
        | some msg ↦
            let op3 = record op2 { steps = set_step i failed msg op2.steps } in
            (op3, some msg, op1 ∷ (frames ++ (op3 ∷ [])))
        | none ↦
            let op3 = record op2 {
              steps = set_step i succeeded "" op2.steps;
              progress = (done + weight_of s) * 100 / total;
            } in
            let (last, error, more) = run_from (i + 1) (done + weight_of s) total op3 ss in
            (last, error, op1 ∷ (frames ++ (op3 ∷ more)))
      ]

  pub finish : Op → Option String → Op
  finish op none = record op { state = succeeded; progress = 100 }
  finish op (some msg) = record op { state = failed; error = some msg }

  -- the states that `Run` persists before it calls `onDone`, the error, and the last state
  pub run : Op → List (Step Float) → List Op × Option String × Op
  unfolding start_steps total_of
  run op ss =
      let op0 = record op { state = running; steps = start_steps ss } in
      let (last, error, frames) = run_from 0 0 (total_of ss) op0 ss in
      (op0 ∷ frames, error, finish last error)

  pub events : Op → List (Step Float) → List Event
  events op ss =
      let (frames, error, last) = run op ss in
      map persisted frames ++ (on_done error ∷ persisted last ∷ [])
