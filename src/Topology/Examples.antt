-- ===== src/Topology/Examples.antt =====
-- A small fabric, built, and built again with a pod more on what was built.
use mathlib.Core.List.{reverse}
use dc_net_lab.Prelude.{
  ℕ, String, List, [], ◌∷◌, Option, none, some, Result, ok, err, ◌>>=◌, map, ◌≡◌, refl, sym, subst,
  ==-ne, string_eq, Bool, true, false, ℤ, pos, ◌==◌, All, Distinct, get_elem?, ◌≢◌,
}
use dc_net_lab.Prelude.Map
use dc_net_lab.Prelude.Map.{find, without}
use dc_net_lab.NetIp.Bytes.{carry, add_bit, add_pow}
use dc_net_lab.Asn
use dc_net_lab.Ipam
use dc_net_lab.GoFmt.{
  show, show_on, show_int, sscanf, after, skip_blanks, scan_signed, scan_pos, scan_number,
  scan_digits, sort_ints, insert_int,
}
use dc_net_lab.Model.{◌+s+◌, Node, role_leaf, Topology, TopologySpec}
use dc_net_lab.Topology.{
  Error, Builder, get_or, new_builder, empty_builder, make_pools, make_asns, restore, restore_nodes,
  restore_role, restore_leaf, restore_links, restore_link, restore_interface, pin, pin_asn,
  allocate, allocate_asn, rack_num_for_slot,
}
use dc_net_lab.Topology.Build.{
  build, add_routers, add_router, add_mesh, add_links_to, add_link, join, endpoint,
  pinned_interfaces, add_pods, add_pod, add_racks, add_rack, add_leaves, add_leaf, add_uplinks,
  add_servers, add_server, add_l2_link, hex2, gateway_mac_of, next_n, host_at,
}
use dc_net_lab.Topology.Defaults.{default_pools, default_asn_ranges}
use dc_net_lab.Topology.Keeps.{KeepsNode, KeepsLink, build-keeps}
use dc_net_lab.Topology.Interfaces.{ends}
use dc_net_lab.Topology.Interfaces.Fresh.{AllApart, Apart, fresh_ends, build-Apart}
use dc_net_lab.Topology.Racks.{new_racks-differ}
use dc_net_lab.Topology.Leaves.{IsLeaf, IsNumbered}
use dc_net_lab.Topology.Steps.{here}

abbrev new_id : String → ℕ → String
new_id pre n = pre +s+ ("-" +s+ show n)

abbrev small : TopologySpec
small = record {
  external_routers = 1;
  dc_edges = 1;
  super_spines = 0;
  pods = record { name = "pod-1"; spines = 1; racks = 1; servers_per_rack = 1 } ∷ [];
  internet_access = false;
}

abbrev built_on : Option Topology → TopologySpec → Result Error Builder
built_on base spec =
    new_builder "lab" default_pools default_asn_ranges base >>= λ b. build new_id spec b

abbrev or_empty : Result Error Builder → Builder
or_empty r = elim r [ ok b ↦ b | err e ↦ empty_builder "" Map.empty Map.empty ]

abbrev first : Builder
first = or_empty (built_on none small)

abbrev deployed : Topology
deployed = record { nodes = reverse first.nodes; links = reverse first.links }

abbrev second_start : Builder
second_start = or_empty (new_builder "lab" default_pools default_asn_ranges (some deployed))

second_starts : new_builder "lab" default_pools default_asn_ranges (some deployed) ≡ ok second_start
unfolding find without Map.get Map.put Map.empty Map.map_values carry add_bit add_pow Asn.new
    Asn.add_ranges Asn.restore Asn.restore_in Asn.find_range Asn.fresh_range Asn.allocate
    Asn.allocate_in Ipam.new_pool Ipam.open_pool Ipam.allocate Ipam.restore Ipam.has_bits
    Ipam.next_subnet_start show show_on show_int sscanf after skip_blanks scan_signed scan_pos
    scan_number scan_digits sort_ints insert_int new_builder make_pools make_asns restore
    restore_nodes restore_role restore_leaf restore_links restore_link restore_interface pin pin_asn
    allocate allocate_asn rack_num_for_slot build add_routers add_router add_mesh add_links_to
    add_link join endpoint pinned_interfaces add_pods add_pod add_racks add_rack add_leaves add_leaf
    add_uplinks add_servers add_server add_l2_link hex2 gateway_mac_of next_n host_at default_pools
    default_asn_ranges
second_starts = refl

-- the fabric grows by a super spine and a rack
abbrev grown : TopologySpec
grown = record small {
  super_spines = 1;
  pods = record { name = "pod-1"; spines = 1; racks = 2; servers_per_rack = 1 } ∷ [];
}

abbrev second : Builder
second = or_empty (build new_id grown second_start)

second_builds : build new_id grown second_start ≡ ok second
unfolding find without Map.get Map.put Map.empty Map.map_values carry add_bit add_pow Asn.new
    Asn.add_ranges Asn.restore Asn.restore_in Asn.find_range Asn.fresh_range Asn.allocate
    Asn.allocate_in Ipam.new_pool Ipam.open_pool Ipam.allocate Ipam.restore Ipam.has_bits
    Ipam.next_subnet_start show show_on show_int sscanf after skip_blanks scan_signed scan_pos
    scan_number scan_digits sort_ints insert_int new_builder make_pools make_asns restore
    restore_nodes restore_role restore_leaf restore_links restore_link restore_interface pin pin_asn
    allocate allocate_asn rack_num_for_slot build add_routers add_router add_mesh add_links_to
    add_link join endpoint pinned_interfaces add_pods add_pod add_racks add_rack add_leaves add_leaf
    add_uplinks add_servers add_server add_l2_link hex2 gateway_mac_of next_n host_at default_pools
    default_asn_ranges
second_builds = refl

abbrev node_named : List String
node_named =
    "external-1" ∷ "dcedge-1" ∷ "pod-1-spine-1" ∷ "pod-1-rack-1-leaf-a" ∷ "pod-1-rack-1-leaf-b"
    ∷ "pod-1-rack-1-server-1" ∷ []

node_named_lem : map (λ n. n.meta.name) deployed.nodes ≡ node_named
unfolding find without Map.get Map.put Map.empty Map.map_values carry add_bit add_pow Asn.new
    Asn.add_ranges Asn.restore Asn.restore_in Asn.find_range Asn.fresh_range Asn.allocate
    Asn.allocate_in Ipam.new_pool Ipam.open_pool Ipam.allocate Ipam.restore Ipam.has_bits
    Ipam.next_subnet_start show show_on show_int sscanf after skip_blanks scan_signed scan_pos
    scan_number scan_digits sort_ints insert_int new_builder make_pools make_asns restore
    restore_nodes restore_role restore_leaf restore_links restore_link restore_interface pin pin_asn
    allocate allocate_asn rack_num_for_slot build add_routers add_router add_mesh add_links_to
    add_link join endpoint pinned_interfaces add_pods add_pod add_racks add_rack add_leaves add_leaf
    add_uplinks add_servers add_server add_l2_link hex2 gateway_mac_of next_n host_at default_pools
    default_asn_ranges
node_named_lem = refl

node_names_differ : Distinct node_named
node_names_differ = (
  (==-ne _ _ refl, (==-ne _ _ refl, (==-ne _ _ refl, (==-ne _ _ refl, (==-ne _ _ refl, tt))))),
  (
    (==-ne _ _ refl, (==-ne _ _ refl, (==-ne _ _ refl, (==-ne _ _ refl, tt)))),
    (
      (==-ne _ _ refl, (==-ne _ _ refl, (==-ne _ _ refl, tt))),
      ((==-ne _ _ refl, (==-ne _ _ refl, tt)), ((==-ne _ _ refl, tt), (tt, tt))),
    ),
  ),
)

nodes-Distinct : Distinct (map (λ n. n.meta.name) deployed.nodes)
nodes-Distinct = subst Distinct (sym node_named_lem) node_names_differ

abbrev link_named : List String
link_named =
    "external-1--dcedge-1" ∷ "pod-1-spine-1--pod-1-rack-1-leaf-a"
    ∷ "pod-1-spine-1--pod-1-rack-1-leaf-b" ∷ "pod-1-rack-1-leaf-a--pod-1-rack-1-leaf-b"
    ∷ "pod-1-rack-1-leaf-a--pod-1-rack-1-server-1" ∷ "pod-1-rack-1-leaf-b--pod-1-rack-1-server-1"
    ∷ []

link_named_lem : map (λ l. l.meta.name) deployed.links ≡ link_named
unfolding find without Map.get Map.put Map.empty Map.map_values carry add_bit add_pow Asn.new
    Asn.add_ranges Asn.restore Asn.restore_in Asn.find_range Asn.fresh_range Asn.allocate
    Asn.allocate_in Ipam.new_pool Ipam.open_pool Ipam.allocate Ipam.restore Ipam.has_bits
    Ipam.next_subnet_start show show_on show_int sscanf after skip_blanks scan_signed scan_pos
    scan_number scan_digits sort_ints insert_int new_builder make_pools make_asns restore
    restore_nodes restore_role restore_leaf restore_links restore_link restore_interface pin pin_asn
    allocate allocate_asn rack_num_for_slot build add_routers add_router add_mesh add_links_to
    add_link join endpoint pinned_interfaces add_pods add_pod add_racks add_rack add_leaves add_leaf
    add_uplinks add_servers add_server add_l2_link hex2 gateway_mac_of next_n host_at default_pools
    default_asn_ranges
link_named_lem = refl

link_names_differ : Distinct link_named
link_names_differ = (
  (==-ne _ _ refl, (==-ne _ _ refl, (==-ne _ _ refl, (==-ne _ _ refl, (==-ne _ _ refl, tt))))),
  (
    (==-ne _ _ refl, (==-ne _ _ refl, (==-ne _ _ refl, (==-ne _ _ refl, tt)))),
    (
      (==-ne _ _ refl, (==-ne _ _ refl, (==-ne _ _ refl, tt))),
      ((==-ne _ _ refl, (==-ne _ _ refl, tt)), ((==-ne _ _ refl, tt), (tt, tt))),
    ),
  ),
)

links-Distinct : Distinct (map (λ l. l.meta.name) deployed.links)
links-Distinct = subst Distinct (sym link_named_lem) link_names_differ

build-keeps_example :
    All (λ m. All (KeepsNode m) second.nodes) deployed.nodes
    × All (λ m. All (KeepsLink m) second.links) deployed.links
build-keeps_example =
    build-keeps new_id "lab" default_pools default_asn_ranges deployed grown second_start second
      nodes-Distinct links-Distinct second_starts second_builds

build-Apart_example :
    AllApart (fresh_ends second_start.base_links second.links)
    × All
        (λ e. All (Apart e) (fresh_ends second_start.base_links second.links))
        (ends deployed.links)
build-Apart_example =
    build-Apart new_id "lab" default_pools default_asn_ranges deployed grown second_start second
      second_starts second_builds

second_slot : get_elem? (get_or [] second_start.rack_slots "pod-1") 1 ≡ none
unfolding find without Map.get Map.put Map.empty Map.map_values carry add_bit add_pow Asn.new
    Asn.add_ranges Asn.restore Asn.restore_in Asn.find_range Asn.fresh_range Asn.allocate
    Asn.allocate_in Ipam.new_pool Ipam.open_pool Ipam.allocate Ipam.restore Ipam.has_bits
    Ipam.next_subnet_start show show_on show_int sscanf after skip_blanks scan_signed scan_pos
    scan_number scan_digits sort_ints insert_int new_builder make_pools make_asns restore
    restore_nodes restore_role restore_leaf restore_links restore_link restore_interface pin pin_asn
    allocate allocate_asn rack_num_for_slot build add_routers add_router add_mesh add_links_to
    add_link join endpoint pinned_interfaces add_pods add_pod add_racks add_rack add_leaves add_leaf
    add_uplinks add_servers add_server add_l2_link hex2 gateway_mac_of next_n host_at default_pools
    default_asn_ranges
second_slot = refl

other_pod_slot :
    get_elem? (get_or [] (rack_num_for_slot second_start "pod-1" 2).1.rack_slots "pod-2") 0 ≡ none
unfolding find without Map.get Map.put Map.empty Map.map_values carry add_bit add_pow Asn.new
    Asn.add_ranges Asn.restore Asn.restore_in Asn.find_range Asn.fresh_range Asn.allocate
    Asn.allocate_in Ipam.new_pool Ipam.open_pool Ipam.allocate Ipam.restore Ipam.has_bits
    Ipam.next_subnet_start show show_on show_int sscanf after skip_blanks scan_signed scan_pos
    scan_number scan_digits sort_ints insert_int new_builder make_pools make_asns restore
    restore_nodes restore_role restore_leaf restore_links restore_link restore_interface pin pin_asn
    allocate allocate_asn rack_num_for_slot build add_routers add_router add_mesh add_links_to
    add_link join endpoint pinned_interfaces add_pods add_pod add_racks add_rack add_leaves add_leaf
    add_uplinks add_servers add_server add_l2_link hex2 gateway_mac_of next_n host_at default_pools
    default_asn_ranges
other_pod_slot = refl

-- the role and the rack number of each deployed node
abbrev shown : Node → Bool × Option ℤ
shown n = (n.spec.role == role_leaf, sscanf "rack-" n.spec.rack_id)

abbrev all_shown : List (Bool × Option ℤ)
all_shown =
    (false, none)
    ∷ (false, none)
    ∷ (false, none)
    ∷ (true, some (pos 1))
    ∷ (true, some (pos 1))
    ∷ (false, some (pos 1))
    ∷ []

all_shown_lem : map shown deployed.nodes ≡ all_shown
unfolding find without Map.get Map.put Map.empty Map.map_values carry add_bit add_pow Asn.new
    Asn.add_ranges Asn.restore Asn.restore_in Asn.find_range Asn.fresh_range Asn.allocate
    Asn.allocate_in Ipam.new_pool Ipam.open_pool Ipam.allocate Ipam.restore Ipam.has_bits
    Ipam.next_subnet_start show show_on show_int sscanf after skip_blanks scan_signed scan_pos
    scan_number scan_digits sort_ints insert_int new_builder make_pools make_asns restore
    restore_nodes restore_role restore_leaf restore_links restore_link restore_interface pin pin_asn
    allocate allocate_asn rack_num_for_slot build add_routers add_router add_mesh add_links_to
    add_link join endpoint pinned_interfaces add_pods add_pod add_racks add_rack add_leaves add_leaf
    add_uplinks add_servers add_server add_l2_link hex2 gateway_mac_of next_n host_at default_pools
    default_asn_ranges
all_shown_lem = refl

abbrev ShowsOne : Bool × Option ℤ → Type 0
ShowsOne (is_leaf, number) = is_leaf ≡ true → number ≡ some (pos 1)

All-unmap : (ns : List Node) → All ShowsOne (map shown ns) → All (IsNumbered (λ rack. pos 1)) ns
All-unmap [] h = tt
All-unmap (n ∷ ns) h = (h.0, All-unmap ns h.1)

no : false ≢ true
no e = cc e

deployed-IsNumbered : All (IsNumbered (λ rack. pos 1)) deployed.nodes
deployed-IsNumbered = All-unmap deployed.nodes (
    subst (All ShowsOne) (sym all_shown_lem) (
      λ e. absurd (no e),
      (λ e. absurd (no e), (λ e. absurd (no e), (λ e. refl, (λ e. refl, (λ e. refl, tt))))),
    ))

-- the second rack of pod-1, and the first of a new pod
new_racks-differ_example :
    let first = (rack_num_for_slot second_start "pod-1" 2).0 in
    let second = (rack_num_for_slot (rack_num_for_slot second_start "pod-1" 2).1 "pod-2" 1).0 in
    (first ≢ second)
    × All
        (λ n.
          IsLeaf n → (m : ℤ) → sscanf "rack-" n.spec.rack_id ≡ some m → (m ≢ first) × (m ≢ second))
        deployed.nodes
    × ((any_pod : String)
        → All (λ m. (m ≢ first) × (m ≢ second)) (get_or [] second_start.rack_slots any_pod))
new_racks-differ_example =
    new_racks-differ new_id "lab" default_pools default_asn_ranges deployed second_start
      second_start (rack_num_for_slot second_start "pod-1" 2).1 "pod-1" "pod-2" 2 1 (λ rack. pos 1)
      deployed-IsNumbered second_starts here second_slot here other_pod_slot
