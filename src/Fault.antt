-- ===== src/Fault.antt =====
-- controller/internal/biz/fault.go: the fault scenarios of a lab, which one at a time may be applied to a
-- target. The repository's reads of labs, nodes and links are functions, its own failures are left out, and
-- `PowerUsecase` and the runtime driver are an interface whose calls change a world `W` and may fail.
pub mod Endpoints
pub mod Exclusive
pub mod Calls
pub mod Rollback
pub mod Overlap
mod Examples
use dc_net_lab.Prelude.{
  ℕ, ◌*◌, ◌^◌, String, List, [], ◌∷◌, ◌++◌, Bool, true, false, not, ◌&&◌, ◌||◌, Option, none, some,
  ℤ, pos, ltb_ℤ, eqb, if◌then◌else◌, Result, ok, err, ◌>>=◌, ◌>>◌, fail_if, ◌==◌, string_eq,
}
use dc_net_lab.Names.{is_name}

pub data Error : Type 0 where
  bad_name bad_type : String → Error
  node_not_found link_not_found scenario_not_found lab_not_found : String → Error
  impairment_not_allowed side_not_allowed both_ends_only needs_side bad_side : Error
  no_effect negative bad_loss jitter_without_delay : Error
  not_deployed nothing_to_recover : Error
  already_applied : String → Error
  failed : String → Error
  all_failed : List String → Error

-- The loss in percent is the finite float `loss / 2 ^ loss_scale`.
pub record Impairment : Type 0 where
  pub delay_ms : ℤ
  pub jitter_ms : ℤ
  pub loss : ℤ
  pub loss_scale : ℕ
  pub rate_kbit : ℤ

pub record Target : Type 0 where
  pub kind : String
  pub node_id : String
  pub node_name : String
  pub link_id : String
  pub link_name : String
  pub side : String

pub record FaultSpec : Type 0 where
  pub lab_id : String
  pub target : Target
  pub type : String
  pub impairment : Option Impairment

pub record Scenario : Type 0 where
  pub id : String
  pub name : String
  pub spec : FaultSpec
  pub applied : Bool
  pub last_error : Option Error

pub record Endpoint : Type 0 where
  pub node_name : String
  pub interface : String

pub record Link : Type 0 where
  pub id : String
  pub name : String
  pub endpoint_a : Endpoint
  pub endpoint_b : Endpoint

pub record Lab : Type 0 where
  pub id : String
  pub name : String
  pub generation : ℕ

abbrev pub node_stop : String
node_stop = "node-stop"

abbrev pub node_restart : String
node_restart = "node-restart"

abbrev pub link_down : String
link_down = "link-down"

abbrev pub interface_down : String
interface_down = "interface-down"

abbrev pub impairment_type : String
impairment_type = "impairment"

pub targets_node : String → Bool
targets_node t = t == node_stop || t == node_restart

pub validate_type : String → Result Error (Unit {0})
validate_type t =
    fail_if
      (not (
        t == node_stop
        || t == node_restart
        || t == link_down
        || t == interface_down
        || t == impairment_type))
      (bad_type t)

abbrev is_zero : ℤ → Bool
is_zero n = not (ltb_ℤ n (pos 0)) && not (ltb_ℤ (pos 0) n)

pub validate_impairment : Option Impairment → Result Error (Unit {0})
validate_impairment none = err no_effect
validate_impairment (some i) =
    if is_zero i.delay_ms && is_zero i.loss && is_zero i.rate_kbit
    then err no_effect
    else if ltb_ℤ i.delay_ms (pos 0) || ltb_ℤ i.jitter_ms (pos 0) || ltb_ℤ i.rate_kbit (pos 0)
    then err negative
    else if ltb_ℤ i.loss (pos 0) || ltb_ℤ (pos (100 * 2 ^ i.loss_scale)) i.loss
    then err bad_loss
    else fail_if (ltb_ℤ (pos 0) i.jitter_ms && is_zero i.delay_ms) jitter_without_delay

abbrev pub is_present {ℓ} : {A : Type ℓ} → Option A → Bool
is_present none = false
is_present (some a) = true

pub validate_shape : FaultSpec → Result Error (Unit {0})
unfolding targets_node validate_impairment
validate_shape spec =
    let side = spec.target.side in
    if not (spec.type == impairment_type) && is_present spec.impairment
    then err impairment_not_allowed
    else if targets_node spec.type
    then fail_if (not (side == "")) side_not_allowed
    else if spec.type == link_down
    then fail_if (not (side == "") && not (side == "both")) both_ends_only
    else if spec.type == interface_down
    then fail_if (not (side == "a") && not (side == "b")) needs_side
    else if spec.type == impairment_type
    then (if side == "a" || side == "b" || side == "both" || side == ""
        then validate_impairment spec.impairment
        else err bad_side)
    else ok tt

-- the endpoints that a fault acts on
pub fault_endpoints : Link → String → String → List Endpoint
fault_endpoints link type side =
    if type == link_down
    then link.endpoint_a ∷ link.endpoint_b ∷ []
    else if side == "a"
    then link.endpoint_a ∷ []
    else if side == "b"
    then link.endpoint_b ∷ []
    else link.endpoint_a ∷ link.endpoint_b ∷ []

pub find_link : List Link → String → Result Error Link
find_link [] id = err (link_not_found id)
find_link (l ∷ ls) id = let rest = find_link ls id in if l.id == id then ok l else rest

-- a node's name by its id
find_node : List (String × String) → String → Result Error String
find_node [] id = err (node_not_found id)
find_node ((i, name) ∷ ns) id = let rest = find_node ns id in if i == id then ok name else rest

-- The repository's scenarios, oldest first.
abbrev pub Store : Type 0
Store = List Scenario

pub find_scenario : Store → String → Option Scenario
find_scenario [] id = none
find_scenario (s ∷ ss) id = let rest = find_scenario ss id in if s.id == id then some s else rest

pub update_scenario : Store → Scenario → Store
update_scenario [] s = []
update_scenario (o ∷ os) s = (if o.id == s.id then s else o) ∷ update_scenario os s

pub delete_scenario : Store → String → Store
delete_scenario [] id = []
delete_scenario (o ∷ os) id =
    let rest = delete_scenario os id in if o.id == id then rest else o ∷ rest

-- `get`, with the check of the lab
pub get_scenario : Store → String → String → Result Error Scenario
unfolding find_scenario
get_scenario store lab_id id = elim (find_scenario store id) [
  | none ↦ err (scenario_not_found id)
  | some s ↦ if s.spec.lab_id == lab_id then ok s else err (scenario_not_found id)
]

-- One other scenario stands in the way: the test in the loop of `checkTargetFree`.
abbrev pub clash : Scenario → Scenario → Bool
clash s other =
    not (other.id == s.id)
    && other.applied
    && other.spec.lab_id == s.spec.lab_id
    && ((not (s.spec.target.node_id == "") && other.spec.target.node_id == s.spec.target.node_id)
        || (not (s.spec.target.link_id == "")
            && other.spec.target.link_id == s.spec.target.link_id))

pub check_target_free : Store → Scenario → Result Error (Unit {0})
check_target_free [] s = ok tt
check_target_free (o ∷ os) s =
    let rest = check_target_free os s in if clash s o then err (already_applied o.name) else rest

-- What the usecase calls: the driver, and `StartNode` and `StopNode` of `PowerUsecase`. Each call gives the
-- world after it and its error, if there is one.
pub record Driver (W : Type 0) : Type 0 where
  pub set_interface : W → String → Endpoint → Bool → W × Option String
  pub apply_impairment : W → String → Endpoint → Option Impairment → W × Option String
  pub clear_impairment : W → String → Endpoint → W × Option String
  pub start_node : W → String → String → W × Option String
  pub stop_node : W → String → String → W × Option String

-- What the usecase reads of the repository.
pub record Repo : Type 0 where
  pub get_lab : String → Option Lab
  pub list_nodes : String → List (String × String)
  pub list_links : String → List Link

-- `resolveTarget`
pub resolve_target : Repo → FaultSpec → Result Error FaultSpec
unfolding find_link find_node targets_node
resolve_target repo spec =
    if targets_node spec.type
    then (find_node (repo.list_nodes spec.lab_id) spec.target.node_id >>= λ name.
        ok (record spec { target = record (spec.target) { kind = "node"; node_name = name } }))
    else find_link (repo.list_links spec.lab_id) spec.target.link_id >>= λ link.
        ok (record spec { target = record (spec.target) { kind = "link"; link_name = link.name } })

-- What `CreateFaultScenario` checks before it makes the scenario.
pub checked_spec : Repo → String → String → FaultSpec → Result Error FaultSpec
unfolding validate_type validate_shape
checked_spec repo lab_id name spec = do
  fail_if (not (is_name name)) (bad_name name)
  validate_type spec.type
  resolved ← resolve_target repo (record spec { lab_id = lab_id })
  validate_shape resolved
  ok resolved

abbrev pub new_scenario : String → String → FaultSpec → Scenario
new_scenario new_id name spec = record {
  id = new_id;
  name = name;
  spec = spec;
  applied = false;
  last_error = none;
}

-- `CreateFaultScenario`, with the id that is made for the scenario
pub create : Repo → Store → String → String → String → FaultSpec → Result Error (Scenario × Store)
create repo store new_id lab_id name spec = elim (checked_spec repo lab_id name spec) [
  | err e ↦ err e
  | ok resolved ↦
      ok (new_scenario new_id name resolved, store ++ (new_scenario new_id name resolved ∷ []))
]

-- `PruneForRemovedTargets`
pub prune : Store → (String → Bool) → (String → Bool) → Store
prune [] removed_nodes removed_links = []
prune (s ∷ ss) removed_nodes removed_links =
    let rest = prune ss removed_nodes removed_links in
    let t = s.spec.target in
    if (t.kind == "node" && removed_nodes t.node_name)
      || (t.kind == "link" && removed_links t.link_name)
    then rest
    else s ∷ rest
