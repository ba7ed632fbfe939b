-- ===== src/Fault/Endpoints.antt =====
-- controller/internal/biz/fault.go: the calls that inject a fault and take it back.
use dc_net_lab.Prelude.{
  String, List, [], ◌∷◌, ◌++◌, Bool, true, false, not, ◌&&◌, Option, none, some, eqb, if◌then◌else◌,
  Result, ok, err, ◌==◌, string_eq,
}
use dc_net_lab.Fault.{
  Error, failed, all_failed, is_present, not_deployed, nothing_to_recover, lab_not_found, Scenario,
  Endpoint, Lab, Store, Driver, Repo, find_link, fault_endpoints, impairment_type, node_stop,
  node_restart, get_scenario, check_target_free, update_scenario, delete_scenario,
}

-- What the checks of `ApplyFaultScenario` lead to: an answer, or the injection.
pub data Begun : Type 0 where
  answered : Result Error Scenario → Begun
  proceeds : Lab → Scenario → Begun

-- `ApplyFaultScenario` up to the injection. No lock is held from here to the update of the store, so other calls can
-- come in between.
unfoldable pub begin_apply : Repo → Store → String → String → Begun
begin_apply repo store lab_id id = elim (get_scenario store lab_id id) [
  | err e ↦ answered (err e)
  | ok s ↦ if s.applied then answered (ok s) else elim (check_target_free store s) [
    | err e ↦ answered (err e)
    | ok _ ↦ elim (repo.get_lab lab_id) [
      | none ↦ answered (err (lab_not_found lab_id))
      | some lab ↦ if eqb lab.generation 0 then answered (err not_deployed) else proceeds lab s
    ]
  ]
]

module _ {W : Type 0} (driver : Driver W) where
  unfoldable pub apply_endpoint : W → String → Scenario → Endpoint → W × Option String
  apply_endpoint w lab s ep =
      if s.spec.type == impairment_type
      then driver.apply_impairment w lab ep s.spec.impairment
      else driver.set_interface w lab ep false

  unfoldable pub recover_endpoint : W → String → Scenario → Endpoint → W × Option String
  recover_endpoint w lab s ep =
      if s.spec.type == impairment_type
      then driver.clear_impairment w lab ep
      else driver.set_interface w lab ep true

  -- `rollbackEndpoints`: errors are logged only.
  unfoldable pub rollback : W → String → Scenario → List Endpoint → W
  rollback w lab s [] = w
  rollback w lab s (ep ∷ eps) = rollback (recover_endpoint w lab s ep).0 lab s eps

  -- The loop of `injectLinkFault`, with the endpoints that are done, in their order.
  unfoldable pub inject_endpoints :
      W → String → Scenario → List Endpoint → List Endpoint → W × Option String
  inject_endpoints w lab s done_eps [] = (w, none)
  inject_endpoints w lab s done_eps (ep ∷ eps) =
      let (w', e) = apply_endpoint w lab s ep in
      elim e [
        | some msg ↦ (rollback w' lab s done_eps, some msg)
        | none ↦ inject_endpoints w' lab s (done_eps ++ (ep ∷ [])) eps
      ]

  -- The loop of `recover`: it goes on after an error, and the errors are joined.
  pub recover_endpoints : W → String → Scenario → List Endpoint → W × List String
  recover_endpoints w lab s [] = (w, [])
  recover_endpoints w lab s (ep ∷ eps) =
      let (w', e) = recover_endpoint w lab s ep in
      let (w'', es) = recover_endpoints w' lab s eps in
      (w'', elim e [ none ↦ es | some msg ↦ msg ∷ es ])

  abbrev pub failure : Option String → Option Error
  failure none = none
  failure (some msg) = some (failed msg)

  unfoldable pub inject_link_fault : Repo → W → Lab → Scenario → W × Option Error
  inject_link_fault repo w lab s = elim (find_link (repo.list_links lab.id) s.spec.target.link_id) [
    | err e ↦ (w, some e)
    | ok link ↦
        let (w', e) =
          inject_endpoints w lab.name s [] (fault_endpoints link s.spec.type s.spec.target.side) in
        (w', failure e)
  ]

  -- whether the fault stays applied, and the error
  unfoldable pub inject : Repo → W → Lab → Scenario → W × Bool × Option Error
  unfolding inject_link_fault
  inject repo w lab s =
      if s.spec.type == node_stop
      then (let (w', e) = driver.stop_node w lab.id s.spec.target.node_id in (w', true, failure e))
      else if s.spec.type == node_restart
      then (let (w1, e1) = driver.stop_node w lab.id s.spec.target.node_id in
          let (w2, e2) = driver.start_node w1 lab.id s.spec.target.node_id in
          elim e1 [ some msg ↦ (w1, false, some (failed msg)) | none ↦ (w2, false, failure e2) ])
      else (let (w', e) = inject_link_fault repo w lab s in (w', true, e))

  join_errors : List String → Option Error
  join_errors [] = none
  join_errors (e ∷ es) = some (all_failed (e ∷ es))

  -- `recover`
  pub undo : Repo → W → Lab → Scenario → W × Option Error
  unfolding join_errors
  undo repo w lab s =
      if s.spec.type == node_stop
      then (let (w', e) = driver.start_node w lab.id s.spec.target.node_id in (w', failure e))
      else elim (find_link (repo.list_links lab.id) s.spec.target.link_id) [
        | err e ↦ (w, some e)
        | ok link ↦
            let (w', es) =
              recover_endpoints w lab.name s
                (fault_endpoints link s.spec.type s.spec.target.side) in
            (w', join_errors es)
      ]

  answer : Scenario → Option Error → Result Error Scenario
  answer s none = ok s
  answer s (some e) = err e

  -- `ApplyFaultScenario` after its checks, with the store as it is by then
  unfoldable pub apply_to : Repo → W → Store → Lab → Scenario → W × Store × Result Error Scenario
  unfolding answer
  apply_to repo w store lab s =
      let (w', applied, e) = inject repo w lab s in
      let s' = record s { applied = applied && not (is_present e); last_error = e } in
      (w', update_scenario store s', answer s' e)

  -- `ApplyFaultScenario`, for a call during which nobody else writes the store: an error before the injection leaves
  -- everything as it was.
  unfoldable pub apply : Repo → W → Store → String → String → W × Store × Result Error Scenario
  unfolding begin_apply
  apply repo w store lab_id id = elim (begin_apply repo store lab_id id) [
    | answered r ↦ (w, store, r)
    | proceeds lab s ↦ apply_to repo w store lab s
  ]

  unfoldable pub recover_from :
      Repo → W → Store → Lab → Scenario → W × Store × Result Error Scenario
  unfolding answer
  recover_from repo w store lab s =
      let (w', e) = undo repo w lab s in
      let s' = record s { applied = is_present e; last_error = e } in
      (w', update_scenario store s', answer s' e)

  -- `RecoverFaultScenario`
  unfoldable pub recover : Repo → W → Store → String → String → W × Store × Result Error Scenario
  recover repo w store lab_id id = elim (get_scenario store lab_id id) [
    | err e ↦ (w, store, err e)
    | ok s ↦
        if not s.applied
        then (w, store, (if s.spec.type == node_restart then err nothing_to_recover else ok s))
        else elim (repo.get_lab lab_id) [
          | none ↦ (w, store, err (lab_not_found lab_id))
          | some lab ↦ recover_from repo w store lab s
        ]
  ]

  -- `DeleteFaultScenario`
  unfoldable pub delete : Repo → W → Store → String → String → W × Store × Result Error (Unit {0})
  delete repo w store lab_id id = elim (get_scenario store lab_id id) [
    | err e ↦ (w, store, err e)
    | ok s ↦
        if s.applied
        then (let (w', store', r) = recover repo w store lab_id id in
            elim r [ err e ↦ (w', store', err e) | ok _ ↦ (w', delete_scenario store' id, ok tt) ])
        else (w, delete_scenario store id, ok tt)
  ]
