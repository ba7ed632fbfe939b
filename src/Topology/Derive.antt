-- ===== src/Topology/Derive.antt =====
-- controller/internal/topology/allocations.go: the allocations, told by the nodes and links alone.
use dc_net_lab.Prelude.{
  String, List, [], ◌∷◌, ◌++◌, Bool, true, false, if◌then◌else◌, ◌==◌, string_eq,
}
use dc_net_lab.Prelude.Map
use dc_net_lab.Prelude.Map.{Map}
use dc_net_lab.NetIp.{masked}
use dc_net_lab.Model.{
  Node, Link, role_leaf, role_server, link_fabric, pool_loopback, pool_fabric_p2p, pool_server_vlan,
}
use dc_net_lab.Topology.{Allocation, asn_value, subnet_value, get_or, rack_owner, asn_pool}

abbrev pub loopback_allocation : Node → Allocation
loopback_allocation n = record {
  pool = pool_loopback;
  value = subnet_value n.spec.loopback;
  owner = n.meta.name;
}

abbrev pub rack_allocations : Node → List Allocation
rack_allocations n =
    let owner = rack_owner n.spec.pod_id n.spec.rack_id in
    record { pool = asn_pool role_leaf; value = asn_value n.spec.asn; owner = owner }
    ∷ record {
      pool = pool_server_vlan;
      value = subnet_value (masked n.spec.vlan_ip);
      owner = owner;
    }
    ∷ []

abbrev pub router_allocations : Node → List Allocation
router_allocations n =
    record { pool = asn_pool n.spec.role; value = asn_value n.spec.asn; owner = n.meta.name }
    ∷ loopback_allocation n
    ∷ []

-- the loop over the nodes, with the racks seen before
pub node_allocations : Map String Bool → List Node → List Allocation
node_allocations seen [] = []
node_allocations seen (n ∷ ns) =
    let owner = rack_owner n.spec.pod_id n.spec.rack_id in
    let rest = node_allocations seen ns in
    let rest_seen = node_allocations (Map.put seen owner true) ns in
    if n.spec.role == role_server
    then rest
    else if n.spec.role == role_leaf
    then loopback_allocation n
      ∷ (if get_or false seen owner then rest else rack_allocations n ++ rest_seen)
    else router_allocations n ++ rest

pub link_allocations : List Link → List Allocation
link_allocations [] = []
link_allocations (l ∷ ls) =
    let rest = link_allocations ls in
    if l.spec.kind == link_fabric
    then record {
      pool = pool_fabric_p2p;
      value = subnet_value (masked l.spec.endpoint_a.address);
      owner = l.meta.name;
    }
      ∷ rest
    else rest

-- `DeriveAllocations`
pub derive_allocations : List Node → List Link → List Allocation
derive_allocations nodes links = node_allocations Map.empty nodes ++ link_allocations links
