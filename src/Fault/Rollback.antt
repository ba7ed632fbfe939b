-- ===== src/Fault/Rollback.antt =====
-- controller/internal/biz/fault.go: the calls that the driver gets from `injectLinkFault`, whatever it answers.
mod Examples
use dc_net_lab.Prelude.{
  String, List, [], ◌∷◌, ◌++◌, Bool, true, false, Option, none, some, ◌≡◌, refl, sym, ap, subst,
  ◌∙◌, ◌⊎◌, inl, inr, map, append-snoc, Option-cases, Bool-cases, if◌then◌else◌, ◌==◌, string_eq,
}
use mathlib.Core.List.{append-nil}
use dc_net_lab.Fault.{Scenario, Endpoint, Driver, Impairment, impairment_type}
use dc_net_lab.Fault.Endpoints.{apply_endpoint, recover_endpoint, rollback, inject_endpoints}

-- One call of the driver.
pub data Call : Type 0 where
  sets_interface : String → Endpoint → Bool → Call
  impairs : String → Endpoint → Option Impairment → Call
  clears : String → Endpoint → Call
  starts stops : String → String → Call

-- A driver whose world is the list of the calls so far, and whose answer may depend on all of them.
abbrev pub recorded : (List Call → Call → Option String) → Driver (List Call)
recorded outcome =
    let does : List Call → Call → List Call × Option String = λ w c. (w ++ (c ∷ []), outcome w c) in
    record {
      set_interface = λ w lab ep up. does w (sets_interface lab ep up);
      apply_impairment = λ w lab ep i. does w (impairs lab ep i);
      clear_impairment = λ w lab ep. does w (clears lab ep);
      start_node = λ w lab n. does w (starts lab n);
      stop_node = λ w lab n. does w (stops lab n);
    }

-- the call that puts a link fault on an endpoint, and the one that takes it off
abbrev pub injection : String → Scenario → Endpoint → Call
injection lab s ep =
    if s.spec.type == impairment_type
    then impairs lab ep s.spec.impairment
    else sets_interface lab ep false

abbrev pub recovery : String → Scenario → Endpoint → Call
recovery lab s ep =
    if s.spec.type == impairment_type then clears lab ep else sets_interface lab ep true

module _ (outcome : List Call → Call → Option String) (lab : String) (s : Scenario) where
  -- The calls are answered without an error, one after the other.
  abbrev pub Succeeds : List Call → List Call → Type 0
  Succeeds w [] = Unit
  Succeeds w (c ∷ cs) = (outcome w c ≡ none) × Succeeds (w ++ (c ∷ [])) cs

  -- All endpoints up to one are injected and that one fails; then those before it, after the ones that were done already, are
  -- recovered, in their order.
  pub record Stops (w : List Call) (earlier eps : List Endpoint) (r : List Call × Option String)
      : Type 0 where
    pub before : List Endpoint
    pub ep : Endpoint
    pub after : List Endpoint
    pub msg : String
    pub split : eps ≡ before ++ (ep ∷ after)
    pub succeeds : Succeeds w (map (injection lab s) before)
    pub fails : outcome (w ++ map (injection lab s) before) (injection lab s ep) ≡ some msg
    pub calls :
        r.0
        ≡ w
          ++ (map (injection lab s) before
              ++ (injection lab s ep ∷ map (recovery lab s) (earlier ++ before)))
    pub answer : r.1 ≡ some msg

  apply_endpoint-recorded :
      (w : List Call) (ep : Endpoint)
      → apply_endpoint (recorded outcome) w lab s ep
        ≡ (w ++ (injection lab s ep ∷ []), outcome w (injection lab s ep))
  unfolding apply_endpoint
  apply_endpoint-recorded w ep = elim (Bool-cases (s.spec.type == impairment_type)) [
    | inl e ↦ rw e refl
    | inr e ↦ rw e refl
  ]

  recover_endpoint-recorded :
      (w : List Call) (ep : Endpoint)
      → (recover_endpoint (recorded outcome) w lab s ep).0 ≡ w ++ (recovery lab s ep ∷ [])
  unfolding recover_endpoint
  recover_endpoint-recorded w ep = elim (Bool-cases (s.spec.type == impairment_type)) [
    | inl e ↦ rw e refl
    | inr e ↦ rw e refl
  ]

  -- the recovery goes on whatever the driver answers
  rollback-recorded :
      (w : List Call) (eps : List Endpoint)
      → rollback (recorded outcome) w lab s eps ≡ w ++ map (recovery lab s) eps
  unfolding rollback
  rollback-recorded w [] = sym (append-nil w)
  rollback-recorded w (ep ∷ eps) =
      ap (λ v. rollback (recorded outcome) v lab s eps) (recover_endpoint-recorded w ep)
      ∙ rollback-recorded (w ++ (recovery lab s ep ∷ [])) eps
      ∙ append-snoc w (recovery lab s ep) (map (recovery lab s) eps)

  injects-stop :
      (w : List Call) (earlier eps : List Endpoint) (ep : Endpoint) (msg : String)
      → outcome w (injection lab s ep) ≡ some msg
      → inject_endpoints (recorded outcome) w lab s earlier (ep ∷ eps)
        ≡ (rollback (recorded outcome) (w ++ (injection lab s ep ∷ [])) lab s earlier, some msg)
  unfolding inject_endpoints
  injects-stop w earlier eps ep msg e =
      let called = apply_endpoint-recorded w ep in
      rw (inject_endpoints, called, e)
        (ap
          (λ (q : List Call × Option String).
            (rollback (recorded outcome) q.0 lab s earlier, some msg))
          called)

  injects-next :
      (w : List Call) (earlier eps : List Endpoint) (ep : Endpoint)
      → outcome w (injection lab s ep) ≡ none
      → inject_endpoints (recorded outcome) w lab s earlier (ep ∷ eps)
        ≡ inject_endpoints
            (recorded outcome)
            (w ++ (injection lab s ep ∷ []))
            lab
            s
            (earlier ++ (ep ∷ []))
            eps
  unfolding inject_endpoints
  injects-next w earlier eps ep e =
      let called = apply_endpoint-recorded w ep in
      rw (inject_endpoints, called, e)
        (ap
          (λ (q : List Call × Option String).
            inject_endpoints (recorded outcome) q.0 lab s (earlier ++ (ep ∷ [])) eps)
          called)

  abbrev Ends : List Call → List Endpoint → List Endpoint → List Call × Option String → Type 0
  Ends w earlier eps r =
      ((r ≡ (w ++ map (injection lab s) eps, none)) × Succeeds w (map (injection lab s) eps))
      ⊎ Stops w earlier eps r

  Stops-later :
      (w : List Call) (earlier eps : List Endpoint) (ep : Endpoint) (r : List Call × Option String)
      → outcome w (injection lab s ep) ≡ none
      → Stops (w ++ (injection lab s ep ∷ [])) (earlier ++ (ep ∷ [])) eps r
      → Stops w earlier (ep ∷ eps) r
  Stops-later w earlier eps ep r e t =
      let c = injection lab s ep in
      let before = map (injection lab s) t.before in
      record {
        before = ep ∷ t.before;
        ep = t.ep;
        after = t.after;
        msg = t.msg;
        split = ap (λ l. ep ∷ l) t.split;
        succeeds = (e, t.succeeds);
        fails =
            subst (λ l. outcome l (injection lab s t.ep) ≡ some t.msg) (append-snoc w c before)
              t.fails;
        calls =
            t.calls
            ∙ append-snoc w c _
            ∙ ap (λ l. w ++ (c ∷ (before ++ (injection lab s t.ep ∷ map (recovery lab s) l))))
                (append-snoc earlier ep t.before);
        answer = t.answer;
      }

  inject_endpoints-Ends :
      (w : List Call) (earlier eps : List Endpoint)
      → Ends w earlier eps (inject_endpoints (recorded outcome) w lab s earlier eps)
  inject_endpoints-Ends w earlier [] =
      inl (unfold inject_endpoints in ap (λ l. (l, none)) (sym (append-nil w)), tt)
  inject_endpoints-Ends w earlier (ep ∷ eps) =
      let c = injection lab s ep in
      elim (Option-cases (outcome w c)) [
        | inr (msg, e) ↦
            let r = injects-stop w earlier eps ep msg e in
            inr (record {
              before = [];
              ep = ep;
              after = eps;
              msg = msg;
              split = refl;
              succeeds = tt;
              fails = ap (λ l. outcome l c) (append-nil w) ∙ e;
              calls =
                  ap (λ q. q.0) r
                  ∙ rollback-recorded (w ++ (c ∷ [])) earlier
                  ∙ append-snoc w c (map (recovery lab s) earlier)
                  ∙ ap (λ l. w ++ (c ∷ map (recovery lab s) l)) (sym (append-nil earlier));
              answer = ap (λ q. q.1) r;
            })
        | inl e ↦
            let next = injects-next w earlier eps ep e in
            elim (inject_endpoints-Ends (w ++ (c ∷ [])) (earlier ++ (ep ∷ [])) eps) [
              | inl (done, oks) ↦ inl (
                next ∙ done ∙ ap (λ l. (l, none)) (append-snoc w c (map (injection lab s) eps)),
                (e, oks),
              )
              | inr t ↦ inr (
                  subst (Stops w earlier (ep ∷ eps)) (sym next)
                    (Stops-later w earlier eps ep _ e t))
            ]
      ]

-- Whatever the driver answers to each call, also to those of the rollback: injecting a link fault either makes the call that
-- puts it on an endpoint for every endpoint, in their order, and all of them succeed; or it stops at the first call that
-- fails and returns its error, after the calls that take the fault off again, one for each endpoint before that one, in
-- their order, and none for the one that failed. It makes no other calls.
pub inject_endpoints-undone :
    (outcome : List Call → Call → Option String) (lab : String) (s : Scenario) (w : List Call)
    (eps : List Endpoint)
    → let r = inject_endpoints (recorded outcome) w lab s [] eps in
      ((r ≡ (w ++ map (injection lab s) eps, none))
        × Succeeds outcome lab s w (map (injection lab s) eps))
      ⊎ Stops outcome lab s w [] eps r
inject_endpoints-undone outcome lab s w eps = inject_endpoints-Ends outcome lab s w [] eps
