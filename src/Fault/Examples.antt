-- ===== src/Fault/Examples.antt =====
-- Two faults on one link, with a driver whose every call succeeds.
use dc_net_lab.Prelude.{
  ℕ, [], ◌∷◌, false, true, none, some, Result, ok, err, ◌≡◌, refl, ==-ne, string_eq,
}
use dc_net_lab.Fault.{
  Error, already_applied, Scenario, Store, Driver, Repo, Lab, Link, FaultSpec, get_scenario,
  find_scenario, update_scenario, check_target_free, create, checked_spec, validate_type,
  validate_shape, resolve_target, find_link, targets_node, fault_endpoints,
}
use dc_net_lab.Fault.Endpoints.{
  proceeds, apply, begin_apply, apply_to, inject, inject_link_fault, inject_endpoints,
  apply_endpoint,
}
use dc_net_lab.Names.{is_name, is_name_codes}
use dc_net_lab.Fault.Exclusive.{Member, Exclusive}
use dc_net_lab.Fault.Overlap.{put_on, applies-overlap}
use dc_net_lab.Fault.Calls.{Changes, start, more, creates, applies, Changes-Exclusive}

-- the world counts the calls
abbrev counting : Driver ℕ
counting = record {
  set_interface = λ w lab ep up. (ℕ.suc w, none);
  apply_impairment = λ w lab ep i. (ℕ.suc w, none);
  clear_impairment = λ w lab ep. (ℕ.suc w, none);
  start_node = λ w lab n. (ℕ.suc w, none);
  stop_node = λ w lab n. (ℕ.suc w, none);
}

abbrev uplink : Link
uplink = record {
  id = "l1";
  name = "leaf-1--spine-1";
  endpoint_a = record { node_name = "leaf-1"; interface = "eth1" };
  endpoint_b = record { node_name = "spine-1"; interface = "eth3" };
}

abbrev small_lab : Repo
small_lab = record {
  get_lab = λ id. some (record { id = "lab"; name = "small"; generation = 1 });
  list_nodes = λ id. ("n1", "leaf-1") ∷ [];
  list_links = λ id. uplink ∷ [];
}

abbrev down_spec : FaultSpec
down_spec = record {
  lab_id = "lab";
  target = record {
    kind = "link";
    node_id = "";
    node_name = "";
    link_id = "l1";
    link_name = "leaf-1--spine-1";
    side = "";
  };
  type = "link-down";
  impairment = none;
}

abbrev down : Scenario
down = record { id = "f1"; name = "cut"; spec = down_spec; applied = false; last_error = none }

abbrev again : Scenario
again = record { id = "f2"; name = "again"; spec = down_spec; applied = false; last_error = none }

abbrev stored : Store
stored = down ∷ again ∷ []

abbrev applied_one : ℕ × Store × Result Error Scenario
applied_one = apply counting small_lab 0 stored "lab" "f1"

created_down : create small_lab [] "f1" "lab" "cut" down_spec ≡ ok (down, down ∷ [])
unfolding create checked_spec validate_type validate_shape resolve_target find_link targets_node
    is_name is_name_codes
created_down = refl

created_again : create small_lab (down ∷ []) "f2" "lab" "again" down_spec ≡ ok (again, stored)
unfolding create checked_spec validate_type validate_shape resolve_target find_link targets_node
    is_name is_name_codes
created_again = refl

created : Changes counting stored
created =
    more (more start (creates small_lab "f1" "lab" "cut" down_spec down created_down))
      (creates small_lab "f2" "lab" "again" down_spec again created_again)

Changes-Exclusive_example : Exclusive applied_one.1
Changes-Exclusive_example =
    Changes-Exclusive counting applied_one.1 (more created (applies small_lab 0 "lab" "f1"))

second_refused :
    (apply counting small_lab 0 applied_one.1 "lab" "f2").2 ≡ err (already_applied "cut")
unfolding apply begin_apply apply_to inject inject_link_fault inject_endpoints apply_endpoint
    find_link fault_endpoints get_scenario find_scenario update_scenario check_target_free
second_refused = refl

abbrev lab_of : Lab
lab_of = record { id = "lab"; name = "small"; generation = 1 }

down_begins : begin_apply small_lab stored "lab" "f1" ≡ proceeds lab_of down
unfolding begin_apply get_scenario find_scenario check_target_free
down_begins = refl

again_begins : begin_apply small_lab stored "lab" "f2" ≡ proceeds lab_of again
unfolding begin_apply get_scenario find_scenario check_target_free
again_begins = refl

down_injected : inject counting small_lab 0 lab_of down ≡ (2, true, none)
unfolding inject inject_link_fault inject_endpoints apply_endpoint find_link fault_endpoints
down_injected = refl

again_injected : inject counting small_lab 2 lab_of again ≡ (4, true, none)
unfolding inject inject_link_fault inject_endpoints apply_endpoint find_link fault_endpoints
again_injected = refl

applies-overlap_example :
    let first = apply_to counting small_lab 0 stored lab_of down in
    let second = apply_to counting small_lab 2 first.1 lab_of again in
    Member (put_on down) second.1 × Member (put_on again) second.1 × ¬ Exclusive second.1
applies-overlap_example =
    applies-overlap counting small_lab stored "lab" "f1" "f2" lab_of lab_of down again 0 2 4
      down_begins again_begins (==-ne "f1" "f2" refl) (==-ne "l1" "" refl) refl down_injected
      again_injected
