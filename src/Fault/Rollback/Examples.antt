-- ===== src/Fault/Rollback/Examples.antt =====
-- A link whose second end does not answer, and whose first end cannot be recovered either.
use dc_net_lab.Prelude.{
  String, List, [], ◌∷◌, true, false, Option, none, some, ◌≡◌, ◌⊎◌, refl, map, eqb, length,
  if◌then◌else◌,
}
use dc_net_lab.Fault.{Scenario, Endpoint}
use dc_net_lab.Fault.Endpoints.{apply_endpoint, recover_endpoint, rollback, inject_endpoints}
use dc_net_lab.Fault.Rollback.{
  Call, sets_interface, recorded, injection, Succeeds, Stops, inject_endpoints-undone,
}

abbrev cut : Scenario
cut = record {
  id = "f1";
  name = "cut";
  spec = record {
    lab_id = "lab";
    target = record {
      kind = "link";
      node_id = "";
      node_name = "";
      link_id = "l1";
      link_name = "up";
      side = "";
    };
    type = "link-down";
    impairment = none;
  };
  applied = false;
  last_error = none;
}

abbrev leaf_end : Endpoint
leaf_end = record { node_name = "leaf-1"; interface = "eth1" }

abbrev spine_end : Endpoint
spine_end = record { node_name = "spine-1"; interface = "eth3" }

-- the first call only succeeds
abbrev first_only : List Call → Call → Option String
first_only w c = if eqb (length w) 0 then none else some "timeout"

abbrev two_ends : List Endpoint
two_ends = leaf_end ∷ spine_end ∷ []

injection_fails : inject_endpoints (recorded first_only) [] "small" cut [] two_ends ≡ (
  sets_interface "small" leaf_end false
      ∷ sets_interface "small" spine_end false
      ∷ sets_interface "small" leaf_end true
      ∷ [],
  some "timeout",
)
unfolding inject_endpoints apply_endpoint recover_endpoint rollback
injection_fails = refl

inject_endpoints-undone_example :
    let r = inject_endpoints (recorded first_only) [] "small" cut [] two_ends in
    ((r ≡ (map (injection "small" cut) two_ends, none))
      × Succeeds first_only "small" cut [] (map (injection "small" cut) two_ends))
    ⊎ Stops first_only "small" cut [] [] two_ends r
inject_endpoints-undone_example = inject_endpoints-undone first_only "small" cut [] two_ends
