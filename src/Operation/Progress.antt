-- ===== src/Operation/Progress.antt =====
-- controller/internal/operation/operation.go: the progress bar.
use dc_net_lab.Prelude.{
  ℕ, ◌+◌, ◌*◌, ◌/◌, ◌≤◌, ◌<◌, String, List, [], ◌∷◌, ◌++◌, false, Option, none, leb, ◌≡◌, arith,
  Bool-cases, Option-cases, inl, inr,
}
use native.Mathlib.Nat.{le-div_iff_mul-le, div-lt_iff_lt-mul, div-mul-le_self}
use dc_net_lab.Operation.{
  Op, running, succeeded, Floats, Step, weight_of, total_of, set_step, start_steps, clamp, report,
  run_from, finish, run,
}

-- The states show a progress that does not fall, from `lo` on and up to `hi` at most.
abbrev pub Climbs : ℕ → ℕ → List Op → Type 0
Climbs lo hi [] = lo ≤ hi
Climbs lo hi (o ∷ os) = (lo ≤ o.progress) × Climbs o.progress hi os

Climbs-append :
    (lo mid hi : ℕ) (os ps : List Op)
    → Climbs lo mid os
    → Climbs mid hi ps
    → Climbs lo hi (os ++ ps)
Climbs-append lo mid hi [] [] h k = omega arith
Climbs-append lo mid hi [] (p ∷ ps) h k = (omega (arith, k.0), k.1)
Climbs-append lo mid hi (o ∷ os) ps h k = (h.0, Climbs-append o.progress mid hi os ps h.1 k)

Climbs-wider : (lo hi hi' : ℕ) (os : List Op) → hi ≤ hi' → Climbs lo hi os → Climbs lo hi' os
Climbs-wider lo hi hi' [] h k = omega arith
Climbs-wider lo hi hi' (o ∷ os) h k = (k.0, Climbs-wider o.progress hi hi' os h k.1)

div-le-div : (a b n : ℕ) → 0 < n → a ≤ b → a / n ≤ b / n
div-le-div a b n h k =
    (le-div_iff_mul-le {k = n} {x = a / n} {y = b} h).1 (omega (arith, div-mul-le_self a n))

percent-le : (a n : ℕ) → 0 < n → a ≤ n → a * 100 / n ≤ 100
percent-le a n h k =
    let below_101 : a * 100 / n < 101 =
      (div-lt_iff_lt-mul {k = n} {x = a * 100} {y = 101} h).1 (omega arith) in
    omega arith

weight_of_pos : {F : Type 0} (s : Step F) → 0 < weight_of s
unfolding weight_of
weight_of_pos s = ground arith

module _ (floats : Floats) where
  open floats use {Float, times, times-le, zero-below-one, not-below_self, below, one_f, zero_f}

  clamp-in_range :
      (f : Float) → (below (clamp floats f) zero_f ≡ false) × (below one_f (clamp floats f) ≡ false)
  unfolding clamp
  clamp-in_range f = ground (arith, zero-below-one, not-below_self zero_f, not-below_self one_f)

  report-Climbs :
      (done weight total : ℕ) (op : Op) (fs : List Float)
      → 0 < total
      → op.progress ≤ (done + weight) * 100 / total
      → let r = report floats done weight total op fs in
        Climbs op.progress r.0.progress r.1 × (r.0.progress ≤ (done + weight) * 100 / total)
  unfolding report
  report-Climbs done weight total op [] h k = (omega arith, k)
  report-Climbs done weight total op (f ∷ fs) h k =
      let p : ℕ = (done * 100 + times (clamp floats f) (weight * 100)) / total in
      let c = clamp-in_range f in
      let top : p ≤ (done + weight) * 100 / total =
        div-le-div _ _ total h (omega (arith, times-le (clamp floats f) (weight * 100) c.0 c.1)) in
      elim (Bool-cases (leb p op.progress)) [
        | inl e ↦ rw (report, e) (report-Climbs done weight total op fs h k)
        | inr e ↦
            let ih = report-Climbs done weight total (record op { progress = p }) fs h top in
            rw (report, e) ((ground (arith, e), ih.0), ih.1)
      ]

  -- what the loop promises from a progress on
  abbrev Climbed : ℕ → Op × Option String × List Op → Type 0
  Climbed lo r = Climbs lo r.0.progress r.2 × (r.0.progress ≤ 100)

  run_from-Climbs :
      (i done total : ℕ) (op : Op) (ss : List (Step Float))
      → op.progress ≤ done * 100 / total
      → done + total_of ss ≡ total
      → op.progress ≤ 100
      → Climbed op.progress (run_from floats i done total op ss)
  unfolding run_from
  run_from-Climbs i done total op [] h e k = (omega arith, k)
  run_from-Climbs i done total op (s ∷ ss) h e k =
      let w = weight_of s in
      let op1 = record op { steps = set_step i running "" op.steps } in
      let r = report floats done w total op1 s.reports in
      let sum : done + (w + total_of ss) ≡ total = unfold total_of in e in
      let pos_total : 0 < total = omega (arith, sum, weight_of_pos s) in
      let cap : (done + w) * 100 / total ≤ 100 =
        percent-le (done + w) total pos_total (omega (arith, sum)) in
      let room : op.progress ≤ (done + w) * 100 / total =
        omega
          (arith, h, div-le-div (done * 100) ((done + w) * 100) total pos_total (omega arith)) in
      let (c, top) = report-Climbs done w total op1 s.reports pos_total room in
      elim (Option-cases s.outcome) [
        | inr (msg, o) ↦
            rw (run_from, o)
              (
                (
                  omega arith,
                  Climbs-append _ r.0.progress r.0.progress r.1 _ c (omega arith, omega arith),
                ),
                omega (arith, top, cap),
              )
        | inl o ↦
            let p : ℕ = (done + w) * 100 / total in
            let op3 = record (r.0) { steps = set_step i succeeded "" (r.0).steps; progress = p } in
            let ih =
              run_from-Climbs (i + 1) (done + w) total op3 ss (omega arith) (omega (arith, sum))
                cap in
            rw (run_from, o)
              ((omega arith, Climbs-append _ r.0.progress _ r.1 _ c (top, ih.0)), ih.1)
      ]

  finish-progress :
      (op : Op) (e : Option String)
      → op.progress ≤ 100
      → (op.progress ≤ (finish floats op e).progress)
        × ((finish floats op e).progress ≤ 100)
        × (e ≡ none → (finish floats op e).progress ≡ 100)
  unfolding finish
  finish-progress op e h = ground arith

  -- The states that an operation goes through show a progress that never falls and never passes 100, whatever the
  -- steps report and however they end; and if no step fails, the last one shows 100.
  pub run-Climbs :
      (op : Op) (ss : List (Step Float))
      → op.progress ≡ 0
      → let (frames, error, last) = run floats op ss in
        Climbs 0 last.progress frames × (last.progress ≤ 100) × (error ≡ none → last.progress ≡ 100)
  unfolding run
  run-Climbs op ss h =
      let op0 = record op { state = running; steps = start_steps ss } in
      let r = run_from floats 0 0 (total_of ss) op0 ss in
      let (c, top) =
        run_from-Climbs 0 0 (total_of ss) op0 ss (omega (arith, h)) (omega arith)
          (omega (arith, h)) in
      let (up, cap, full) = finish-progress r.0 r.1 top in
      ((omega arith, Climbs-wider op.progress _ _ r.2 up c), cap, full)
