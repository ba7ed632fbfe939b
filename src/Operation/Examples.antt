-- ===== src/Operation/Examples.antt =====
-- A deployment of three steps whose second one fails, and one whose steps all succeed.
use dc_net_lab.Prelude.{
  ℕ, ◌*◌, ◌/◌, ◌≤◌, ◌≡◌, refl, ◌≢◌, List, [], ◌∷◌, false, none, some, pos, ltb, arith, All, true,
  map, ◌++◌, ltb→ge,
}
use native.Mathlib.Nat.{div-le_of_le-mul, mul-le-mul_right}
use dc_net_lab.Operation.{
  Op, queued, running, succeeded, failed, Floats, Step, report, run_from, weight_of, total_of,
  clamp, run,
}
use dc_net_lab.Operation.Progress.{Climbs, run-Climbs}
use dc_net_lab.Operation.Outcome.{ended_steps, first_error, run-ended_steps}
use dc_net_lab.Operation.Buffer.{
  Subscriber, subscribe, try_send, drop_oldest, Receives, one_more, publishes, tries, Reach, here,
  then_, IsFaithful, Reach-IsFaithful, none_yet, try_send-ends,
}

-- percentages in the place of floats
percent_of-le : (f n : ℕ) → ltb 100 f ≡ false → f * n / 100 ≤ n
percent_of-le f n h =
    let f_le : f ≤ 100 = ltb→ge _ _ h in
    div-le_of_le-mul 100 {m = f * n} {n = n} (mul-le-mul_right n f_le)

below_self : (f : ℕ) → ltb f f ≡ false
below_self f = ground arith

abbrev percents : Floats
percents = record {
  Float = ℕ;
  zero_f = 0;
  one_f = 100;
  below = ltb;
  times = λ f n. f * n / 100;
  zero-below-one = refl;
  not-below_self = below_self;
  times-le = λ f n z o. percent_of-le f n o;
}

abbrev deploy : List (Step ℕ)
deploy =
    record { name = "Render"; weight = pos 0; reports = []; outcome = none }
    ∷ record {
      name = "Deploy";
      weight = pos 10;
      reports = 50 ∷ 20 ∷ 200 ∷ [];
      outcome = some "no image";
    }
    ∷ record { name = "Restore"; weight = pos 2; reports = []; outcome = none }
    ∷ []

abbrev new_op : Op
new_op = record {
  id = "op-1";
  lab_id = "lab";
  state = queued;
  progress = 0;
  steps = [];
  error = none;
}

progress_shown :
    map (λ o. o.progress) (run percents new_op deploy).0 ≡ 0 ∷ 0 ∷ 7 ∷ 7 ∷ 46 ∷ 84 ∷ 84 ∷ []
unfolding run run_from report clamp weight_of total_of
progress_shown = refl

run-Climbs_example :
    let (frames, error, last) = run percents new_op deploy in
    Climbs 0 last.progress frames × (last.progress ≤ 100) × (error ≡ none → last.progress ≡ 100)
run-Climbs_example = run-Climbs percents new_op deploy refl

run-ended_steps_example :
    let (frames, error, last) = run percents new_op deploy in
    (last.steps ≡ ended_steps deploy)
    × (error ≡ first_error deploy)
    × (last.error ≡ first_error deploy)
    × (first_error deploy ≡ none → last.state ≡ succeeded)
    × (first_error deploy ≢ none → last.state ≡ failed)
    × All (λ o. o.state ≡ running) frames
run-ended_steps_example = run-ended_steps percents new_op deploy refl

abbrev offered : Subscriber ℕ → ℕ → Subscriber ℕ
offered s a = record s { sending = some a; published = s.published ++ (a ∷ []) }

sent-Reach :
    (s : Subscriber ℕ) (a : ℕ)
    → s.sending ≡ none
    → s.dropping ≡ false
    → Reach s
    → Reach (try_send (offered s a) a)
sent-Reach s a e d r = then_ (then_ r (publishes a e)) (tries a refl d)

-- eight updates in a row that the subscriber does not receive
abbrev eight_sent : Subscriber ℕ
eight_sent = record {
  buffer = 1 ∷ 2 ∷ 3 ∷ 4 ∷ 5 ∷ 6 ∷ 7 ∷ 8 ∷ [];
  sending = none;
  dropping = false;
  published = 1 ∷ 2 ∷ 3 ∷ 4 ∷ 5 ∷ 6 ∷ 7 ∷ 8 ∷ [];
  delivered = [];
}

eight_sent-Reach : Reach eight_sent
unfolding try_send subscribe
eight_sent-Reach =
    let s1 = sent-Reach subscribe 1 refl refl here in
    let s2 = sent-Reach _ 2 refl refl s1 in
    let s3 = sent-Reach _ 3 refl refl s2 in
    let s4 = sent-Reach _ 4 refl refl s3 in
    let s5 = sent-Reach _ 5 refl refl s4 in
    let s6 = sent-Reach _ 6 refl refl s5 in
    let s7 = sent-Reach _ 7 refl refl s6 in sent-Reach _ 8 refl refl s7

ninth-Reach : Reach (offered eight_sent 9)
ninth-Reach = then_ eight_sent-Reach (publishes 9 refl)

Reach-IsFaithful_example : IsFaithful (offered eight_sent 9)
Reach-IsFaithful_example = Reach-IsFaithful (offered eight_sent 9) ninth-Reach

ninth_waits : (try_send (offered eight_sent 9) 9).sending ≢ none
unfolding try_send
ninth_waits e = cc e

-- the subscriber receives all eight between the failed send and the drop, which then finds nothing
abbrev emptied : Subscriber ℕ
emptied = record (offered eight_sent 9) {
  buffer = [];
  dropping = true;
  delivered = 1 ∷ 2 ∷ 3 ∷ 4 ∷ 5 ∷ 6 ∷ 7 ∷ 8 ∷ [];
}

all_received : Receives (try_send (offered eight_sent 9) 9) emptied
unfolding try_send
all_received =
    one_more 8 []
      (one_more 7 _
        (one_more 6 _
          (one_more 5 _
            (one_more 4 _ (one_more 3 _ (one_more 2 _ (one_more 1 _ none_yet refl) refl) refl) refl)
            refl)
          refl)
        refl)
      refl

try_send-ends_example : (try_send (drop_oldest emptied) 9).sending ≡ none
try_send-ends_example =
    try_send-ends (offered eight_sent 9) emptied (drop_oldest emptied) 9 ninth-Reach ninth_waits
      all_received none_yet
