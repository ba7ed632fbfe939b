-- ===== src/Fault/Overlap.antt =====
-- controller/internal/biz/fault.go: two calls of `ApplyFaultScenario` that overlap.
use dc_net_lab.Prelude.{
  String, [], ◌∷◌, true, false, none, ◌≡◌, ◌≢◌, refl, sym, ap, subst, ◌∙◌, inl, inr, arith,
  if◌then◌else◌, ok, ◌==◌, string_eq, eq_iff, Bool-cases, Option-cases,
}
use dc_net_lab.Fault.{
  Scenario, Store, Driver, Repo, Lab, clash, update_scenario, get_scenario, find_scenario,
}
use dc_net_lab.Fault.Endpoints.{proceeds, begin_apply, inject, apply_to}
use dc_net_lab.Fault.Exclusive.{Member, Exclusive}
use dc_net_lab.Fault.Calls.{begin_apply-proceeds, get_scenario-Member}

-- the scenario as a successful injection stores it
abbrev pub put_on : Scenario → Scenario
put_on s = record s { applied = true; last_error = none }

update-Member_self :
    (s t : Scenario) (store : Store)
    → Member s store
    → t.id ≡ s.id
    → Member t (update_scenario store t)
unfolding update_scenario
update-Member_self s t [] m e = absurd m
update-Member_self s t (o ∷ os) (inr m) e = inr (update-Member_self s t os m e)
update-Member_self s t (o ∷ os) (inl m) e =
    let same : (o.id == t.id) ≡ true = (eq_iff o.id t.id).1 (ap (λ q. q.id) (sym m) ∙ sym e) in
    inl (subst (λ q. t ≡ (if q then t else o)) (sym same) refl)

update-Member_other :
    (s t : Scenario) (store : Store)
    → Member s store
    → s.id ≢ t.id
    → Member s (update_scenario store t)
unfolding update_scenario
update-Member_other s t [] m n = absurd m
update-Member_other s t (o ∷ os) (inr m) n = inr (update-Member_other s t os m n)
update-Member_other s t (o ∷ os) (inl m) n = elim (Bool-cases (o.id == t.id)) [
  | inl e ↦ absurd (n (ap (λ q. q.id) m ∙ (eq_iff o.id t.id).0 e))
  | inr e ↦ inl (subst (λ q. s ≡ (if q then t else o)) (sym e) m)
]

get_scenario-lab :
    (store : Store) (lab_id id : String) (s : Scenario)
    → get_scenario store lab_id id ≡ ok s
    → s.spec.lab_id ≡ lab_id
unfolding get_scenario
get_scenario-lab store lab_id id s h = elim (Option-cases (find_scenario store id)) [
  | inl e ↦ absurd (ground (arith, h, e))
  | inr (t, e) ↦ ground (arith, h, e, eq_iff t.spec.lab_id lab_id)
]

module _ {W : Type 0} (driver : Driver W) (repo : Repo) where
  apply_to-stored :
      (w : W) (store : Store) (lab : Lab) (s : Scenario) (w' : W)
      → inject driver repo w lab s ≡ (w', true, none)
      → (apply_to driver repo w store lab s).1 ≡ update_scenario store (put_on s)
  unfolding apply_to
  apply_to-stored w store lab s w' h = rw (apply_to, h) refl

-- The test of `checkTargetFree` does not hold for calls that overlap: if two calls for different scenarios on one link both make
-- their checks before either has stored its result, and both injections succeed, then both scenarios are applied to
-- that link.
pub applies-overlap :
    {W : Type 0} (driver : Driver W) (repo : Repo) (store : Store) (lab_id id other : String)
    (lab lab' : Lab) (s t : Scenario) (w w1 w2 : W)
    → begin_apply repo store lab_id id ≡ proceeds lab s
    → begin_apply repo store lab_id other ≡ proceeds lab' t
    → s.id ≢ t.id
    → s.spec.target.link_id ≢ ""
    → s.spec.target.link_id ≡ t.spec.target.link_id
    → inject driver repo w lab s ≡ (w1, true, none)
    → inject driver repo w1 lab' t ≡ (w2, true, none)
    → let first = apply_to driver repo w store lab s in
      let second = apply_to driver repo w1 first.1 lab' t in
      Member (put_on s) second.1 × Member (put_on t) second.1 × ¬ Exclusive second.1
applies-overlap driver repo store lab_id id other lab lab' s t w w1 w2 b1 b2 ne link same i1 i2 =
    let (g1, a1, f1) = begin_apply-proceeds repo store lab_id id lab s b1 in
    let (g2, a2, f2) = begin_apply-proceeds repo store lab_id other lab' t b2 in
    let first = (apply_to driver repo w store lab s).1 in
    let second = (apply_to driver repo w1 first lab' t).1 in
    let e1 : first ≡ update_scenario store (put_on s) =
      apply_to-stored driver repo w store lab s w1 i1 in
    let e2 : second ≡ update_scenario first (put_on t) =
      apply_to-stored driver repo w1 first lab' t w2 i2 in
    let in1 : Member (put_on s) first =
      subst (Member (put_on s)) (sym e1)
        (update-Member_self s (put_on s) store (get_scenario-Member store lab_id id s g1) refl) in
    let t1 : Member t first = subst (Member t) (sym e1) (
      update-Member_other t (put_on s) store (get_scenario-Member store lab_id other t g2)
        (λ e. ne (sym e))) in
    let in_s : Member (put_on s) second =
      subst (Member (put_on s)) (sym e2) (update-Member_other (put_on s) (put_on t) first in1 ne) in
    let in_t : Member (put_on t) second =
      subst (Member (put_on t)) (sym e2) (update-Member_self t (put_on t) first t1 refl) in
    let lab_s = get_scenario-lab store lab_id id s g1 in
    let lab_t = get_scenario-lab store lab_id other t g2 in
    (
      in_s,
      in_t,
      λ x. clash-both s t ne link same (lab_t ∙ sym lab_s) (x (put_on s) (put_on t) in_s in_t refl),
    )
  where
    clash-both :
        (s t : Scenario)
        → s.id ≢ t.id
        → s.spec.target.link_id ≢ ""
        → s.spec.target.link_id ≡ t.spec.target.link_id
        → t.spec.lab_id ≡ s.spec.lab_id
        → clash (put_on s) (put_on t) ≡ false
        → ⊥
    clash-both s t ne link same lab h = ground (
      arith,
      h,
      eq_iff t.id s.id,
      eq_iff t.spec.lab_id s.spec.lab_id,
      eq_iff t.spec.target.link_id s.spec.target.link_id,
      eq_iff s.spec.target.link_id "",
    )
