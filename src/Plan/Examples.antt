-- ===== src/Plan/Examples.antt =====
-- A fabric of two edges that loses one and gets another.
use dc_net_lab.Prelude.{
  ℕ, ℤ, pos, String, List, [], ◌∷◌, true, false, Option, none, some, ◌≡◌, refl, ◌||◌, ◌&&◌, not,
  Comparable, string_eq, nat_eq, ok, All, map, ==-ne,
}
use dc_net_lab.Prelude.Map
use dc_net_lab.Prelude.Compare.{fields_eq, pair_eq, int_eq, list_eq}
use dc_net_lab.NetIp.{Addr, Prefix, prefix_eq, addr_eq, zero_prefix}
use dc_net_lab.Model.{
  Node, NodeSpec, Link, LinkEndpoint, Topology, zero_node_spec, zero_node_status, role_dc_edge,
  role_external, runtime_frr, link_fabric,
}
use dc_net_lab.Plan.{node_map, plan_changes, carry_over_identity}
use dc_net_lab.Plan.Increment.{
  Increment, build_increment, named_node, named_link, missing_nodes, added_links, check_links,
  reloads, restore_scope,
}
use dc_net_lab.Plan.Diff.{nodes_after, links_after, plan_changes-applies}
use dc_net_lab.Plan.Updates.{updates_of, stale_names, plan_changes-stale_names}
use dc_net_lab.Plan.Identity.{PointsAt, carry_over_identity-keeps, restore_scope-build_increment}
use dc_net_lab.Plan.Wiring.{named, build_increment-applies}

-- all fields of a node spec
abbrev Fields : Type 0
Fields =
    String
    × (String
        × (String
            × (String
                × (ℕ
                    × (Prefix
                        × (Addr
                            × (String
                                × (String
                                    × (ℤ
                                        × (Prefix
                                            × (Addr
                                                × (String
                                                    × (ℤ
                                                        × (ℤ
                                                            × (Prefix
                                                            × (Addr × (List Addr)))))))))))))))))

fields_of : NodeSpec → Fields
fields_of s = (
  s.lab_id,
  (
    s.role,
    (
      s.pod_id,
      (
        s.rack_id,
        (
          s.asn,
          (
            s.loopback,
            (
              s.mgmt_ip,
              (
                s.runtime_type,
                (
                  s.mlag_peer,
                  (
                    s.vlan_id,
                    (
                      s.vlan_ip,
                      (
                        s.gateway_ip,
                        (
                          s.gateway_mac,
                          (
                            s.vrrp_group,
                            (s.vrrp_priority, (s.address, (s.default_gateway, s.bgp_peers))),
                          ),
                        ),
                      ),
                    ),
                  ),
                ),
              ),
            ),
          ),
        ),
      ),
    ),
  ),
)

spec_of : Fields → NodeSpec
spec_of t = record {
  lab_id = t.0;
  role = t.1.0;
  pod_id = t.1.1.0;
  rack_id = t.1.1.1.0;
  asn = t.1.1.1.1.0;
  loopback = t.1.1.1.1.1.0;
  mgmt_ip = t.1.1.1.1.1.1.0;
  runtime_type = t.1.1.1.1.1.1.1.0;
  mlag_peer = t.1.1.1.1.1.1.1.1.0;
  vlan_id = t.1.1.1.1.1.1.1.1.1.0;
  vlan_ip = t.1.1.1.1.1.1.1.1.1.1.0;
  gateway_ip = t.1.1.1.1.1.1.1.1.1.1.1.0;
  gateway_mac = t.1.1.1.1.1.1.1.1.1.1.1.1.0;
  vrrp_group = t.1.1.1.1.1.1.1.1.1.1.1.1.1.0;
  vrrp_priority = t.1.1.1.1.1.1.1.1.1.1.1.1.1.1.0;
  address = t.1.1.1.1.1.1.1.1.1.1.1.1.1.1.1.0;
  default_gateway = t.1.1.1.1.1.1.1.1.1.1.1.1.1.1.1.1.0;
  bgp_peers = t.1.1.1.1.1.1.1.1.1.1.1.1.1.1.1.1.1;
}

spec_of-fields_of : (s : NodeSpec) → spec_of (fields_of s) ≡ s
unfolding spec_of fields_of
spec_of-fields_of s = refl

instance abbrev deep_equal : Comparable NodeSpec
deep_equal = fields_eq fields_of spec_of spec_of-fields_of (
    pair_eq string_eq (
      pair_eq string_eq (
        pair_eq string_eq (
          pair_eq string_eq (
            pair_eq nat_eq (
              pair_eq prefix_eq (
                pair_eq addr_eq (
                  pair_eq string_eq (
                    pair_eq string_eq (
                      pair_eq int_eq (
                        pair_eq prefix_eq (
                          pair_eq addr_eq (
                            pair_eq string_eq (
                              pair_eq int_eq (
                                pair_eq int_eq (
                                  pair_eq prefix_eq
                                    (pair_eq addr_eq (list_eq addr_eq))))))))))))))))))

abbrev node : String → String → Node
node name role = record {
  meta = record {
    id = name;
    name = name;
    generation = pos 1;
    observed_generation = pos 1;
    phase = "Running";
    last_error = none;
  };
  spec = record zero_node_spec { role = role; runtime_type = runtime_frr };
  status = zero_node_status;
}

abbrev end : String → String → LinkEndpoint
end name iface = record {
  node_id = name;
  node_name = name;
  interface = iface;
  address = zero_prefix;
}

abbrev link : String → LinkEndpoint → LinkEndpoint → Link
link name a b = record {
  meta = record {
    id = name;
    name = name;
    generation = pos 1;
    observed_generation = pos 1;
    phase = "Running";
    last_error = none;
  };
  spec = record {
    lab_id = "lab";
    kind = link_fabric;
    vlan_id = pos 0;
    endpoint_a = a;
    endpoint_b = b;
    mtu = pos 9100;
  };
  status = record { admin_up = false; oper_up = false };
}

abbrev deployed : Topology
deployed = record {
  nodes = node "ext" role_external ∷ node "edge-1" role_dc_edge ∷ [];
  links = link "ext--edge-1" (end "ext" "eth1") (end "edge-1" "eth1") ∷ [];
}

abbrev wanted : Topology
wanted = record {
  nodes = node "ext" role_external ∷ node "edge-2" role_dc_edge ∷ [];
  links = link "ext--edge-2" (end "ext" "eth2") (end "edge-2" "eth1") ∷ [];
}

plan_changes-applies_example :
    (nodes_after "edge-1" (plan_changes (some deployed) wanted) (named_node deployed.nodes "edge-1")
      ≡ named_node wanted.nodes "edge-1")
    × (links_after "edge-1"
          (plan_changes (some deployed) wanted)
          (named_link deployed.links "edge-1")
        ≡ named_link wanted.links "edge-1")
plan_changes-applies_example = plan_changes-applies (some deployed) wanted "edge-1"

plan_changes-stale_names_example :
    updates_of (plan_changes (some deployed) wanted) ≡ stale_names deployed wanted wanted.nodes
plan_changes-stale_names_example = plan_changes-stale_names (some deployed) wanted

abbrev conf : String → Option String
conf name = some name

abbrev grown : Increment
grown = record {
  lab_name = "lab";
  add_nodes = "edge-2" ∷ [];
  add_links =
      record {
        a = record { node = "ext"; interface = "eth2" };
        b = record { node = "edge-2"; interface = "eth1" };
      }
      ∷ [];
  remove_nodes = "edge-1" ∷ [];
  reload_nodes = [];
  node_exec = Map.empty;
}

grown_lem : build_increment "lab" deployed wanted.nodes wanted.links conf conf ≡ ok grown
unfolding build_increment named_node named_link missing_nodes added_links check_links reloads
grown_lem = refl

both_ends : (named_node deployed.nodes "ext" ≡ true) × (named_node deployed.nodes "edge-1" ≡ true)
unfolding named_node
both_ends = (refl, refl)

build_increment-applies_example :
    ((x : String)
      → ((named grown.add_nodes x
            || (named_node deployed.nodes x && not (named grown.remove_nodes x)))
          ≡ named_node wanted.nodes x)
        × ((named grown.add_nodes x && named_node deployed.nodes x) ≡ false))
    × All
        (λ l.
          named_link wanted.links l.meta.name ≡ false
          → (named grown.remove_nodes l.spec.endpoint_a.node_name
              || named grown.remove_nodes l.spec.endpoint_b.node_name)
            ≡ true)
        deployed.links
build_increment-applies_example =
    build_increment-applies "lab" deployed wanted.nodes wanted.links conf conf grown (both_ends, tt)
      grown_lem

carry_over_identity-keeps_example :
    let t = carry_over_identity wanted deployed.nodes deployed.links in
    (map (λ n. n.meta.name) t.nodes ≡ "ext" ∷ "edge-2" ∷ [])
    × All
        (λ n.
          (cur : Node)
          → Map.get (node_map deployed.nodes) n.meta.name ≡ some cur
          → (n.meta ≡ cur.meta) × (n.status ≡ cur.status))
        t.nodes
    × All (λ n. All (PointsAt n) t.links) t.nodes
carry_over_identity-keeps_example =
    carry_over_identity-keeps wanted deployed.nodes deployed.links ((==-ne _ _ refl, tt), (tt, tt))

restore_scope-build_increment_example :
    map (λ n. n.meta.name) (restore_scope (some deployed) wanted.nodes) ≡ "edge-2" ∷ []
restore_scope-build_increment_example =
    restore_scope-build_increment "lab" deployed wanted.nodes wanted.links conf conf grown grown_lem
