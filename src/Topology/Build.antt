-- ===== src/Topology/Build.antt =====
-- controller/internal/topology/builder.go: `Build` and the devices, racks and links that it adds. `new_id` is
-- model.NewID: the text of the n-th id that is made.
use dc_net_lab.Prelude.{
  ℕ, zero, suc, ◌+◌, ◌-◌, ◌%◌, ◌/◌, ◌^◌, String, List, [], ◌∷◌, ◌++◌, false, none, some, ℤ, pos,
  negsuc, ltb, eqb, if◌then◌else◌, Result, ok, ◌>>=◌, ◌==◌, string_eq,
}
use dc_net_lab.Prelude.Map
use dc_net_lab.NetIp.{Addr, Prefix, masked, next_addr, prefix_with, zero_prefix}
use dc_net_lab.GoFmt.{digit, show, show_int}
use dc_net_lab.Model.{
  ◌+s+◌, Meta, Node, NodeSpec, Link, LinkEndpoint, PodSpec, TopologySpec, zero_node_spec,
  zero_node_status, role_external, role_dc_edge, role_superspine, role_spine, role_leaf,
  role_server, runtime_frr, link_fabric, link_server_access, link_mlag_peer, pool_loopback,
  pool_fabric_p2p, pool_server_vlan,
}
use dc_net_lab.Topology.{
  Error, Allocation, asn_value, subnet_value, Builder, get_or, rack_owner, asn_pool, allocate,
  allocate_asn, rack_num_for_slot,
}

abbrev pub server_asn : ℕ
server_asn = 65000

abbrev pub leaf_rack_asn_base : ℕ
leaf_rack_asn_base = 4200080000

abbrev pub server_vlan_id : ℕ
server_vlan_id = 1000

-- uint32(n)
abbrev pub to_uint32 : ℤ → ℕ
to_uint32 (pos n) = n % 2 ^ 32
to_uint32 (negsuc n) = 2 ^ 32 - 1 - n % 2 ^ 32

abbrev pub rack_asn_of : ℤ → ℕ
rack_asn_of num = (leaf_rack_asn_base + to_uint32 num) % 2 ^ 32

-- 1 - n
abbrev one_minus : ℕ → ℤ
one_minus zero = pos 1
one_minus (suc zero) = pos 0
one_minus (suc (suc n)) = negsuc n

-- (num - 1) % 255 + 1, where the remainder has the sign of num - 1
abbrev pub vrid_of : ℤ → ℤ
vrid_of (pos zero) = pos 0
vrid_of (pos (suc n)) = pos (n % 255 + 1)
vrid_of (negsuc n) = one_minus ((n + 2) % 255)

abbrev hex_text : ℕ → String
hex_text d =
    if ltb d 10
    then digit d
    else if eqb d 10
    then "a"
    else if eqb d 11
    then "b"
    else if eqb d 12
    then "c"
    else if eqb d 13
    then "d"
    else if eqb d 14
    then "e"
    else "f"

-- `%02x` of a number between -255 and 255
unfoldable pub hex2 : ℤ → String
hex2 (pos n) = hex_text (n / 16) +s+ hex_text (n % 16)
hex2 (negsuc n) =
    if ltb (n + 1) 16
    then "-" +s+ hex_text (n + 1)
    else "-" +s+ (hex_text ((n + 1) / 16) +s+ hex_text ((n + 1) % 16))

unfoldable pub gateway_mac_of : ℤ → String
unfolding hex2
gateway_mac_of vrid = "00:00:5e:00:01:" +s+ hex2 vrid

-- `hostAt`
unfoldable pub next_n : ℕ → Addr → Addr
next_n zero a = a
next_n (suc n) a = next_n n (next_addr a)

unfoldable pub host_at : Prefix → ℕ → Addr
unfolding next_n
host_at p n = next_n n (masked p).addr

abbrev pub link_name : String → String → String
link_name a z = a +s+ ("--" +s+ z)

abbrev pub new_meta : String → String → Meta
new_meta id name = record {
  id = id;
  name = name;
  generation = pos 0;
  observed_generation = pos 0;
  phase = "Pending";
  last_error = none;
}

-- a node that is added to the result, and its allocations
abbrev pub add_node : Builder → Node → List Allocation → Builder
add_node b n as' = record b {
  nodes = n ∷ b.nodes;
  allocations = as' ++ b.allocations;
  made = suc b.made;
}

-- `pinnedInterfaces`
unfoldable pub pinned_interfaces : Builder → String → String × String
pinned_interfaces b name = elim (Map.get b.base_links name) [
  | none ↦ ("", "")
  | some l ↦ (l.spec.endpoint_a.interface, l.spec.endpoint_b.interface)
]

-- the increment of the interface counter in `endpoint`, and the interface that it gives
abbrev pub next_index : Builder → String → ℕ
next_index b name = get_or 0 b.if_index name + 1

-- `endpoint`
unfoldable pub endpoint : Builder → Node → Prefix → String → LinkEndpoint × Builder
endpoint b n addr pinned_iface =
    if pinned_iface == ""
    then (
      record {
        node_id = n.meta.id;
        node_name = n.meta.name;
        interface = "eth" +s+ show (next_index b n.meta.name);
        address = addr;
      },
      record b { if_index = Map.put b.if_index n.meta.name (next_index b n.meta.name) },
    )
    else (
      record {
        node_id = n.meta.id;
        node_name = n.meta.name;
        interface = pinned_iface;
        address = addr;
      },
      b,
    )

-- the two ends of a fabric link
abbrev pub first_end : Prefix → Prefix
first_end sub = prefix_with (masked sub).addr sub.bits

abbrev pub second_end : Prefix → Prefix
second_end sub = prefix_with (next_addr (masked sub).addr) sub.bits

module _ (new_id : String → ℕ → String) where
  abbrev pub new_router : Builder → String → String → String → ℕ → Prefix → Node
  new_router b name role pod_id asn loopback = record {
    meta = new_meta (new_id "node" b.made) name;
    spec = record zero_node_spec {
      lab_id = b.lab_id;
      role = role;
      pod_id = pod_id;
      asn = asn;
      loopback = loopback;
      runtime_type = runtime_frr;
    };
    status = zero_node_status;
  }

  -- the allocations of a router, the newest first
  abbrev pub router_takes : String → String → ℕ → Prefix → List Allocation
  router_takes name role asn loopback =
      record { pool = pool_loopback; value = subnet_value loopback; owner = name }
      ∷ record { pool = asn_pool role; value = asn_value asn; owner = name }
      ∷ []

  -- `addRouter`
  unfoldable pub add_router : Builder → String → String → String → Result Error (Node × Builder)
  add_router b name role pod_id = allocate_asn b role name >>= λ r.
      allocate r.1 pool_loopback name >>= λ s.
      let n = new_router s.1 name role pod_id r.0 s.0 in
      ok (n, add_node s.1 n (router_takes name role r.0 s.0))

  abbrev pub new_leaf : Builder → String → NodeSpec → Prefix → Node
  new_leaf b name spec loopback = record {
    meta = new_meta (new_id "node" b.made) name;
    spec = record spec {
      lab_id = b.lab_id;
      role = role_leaf;
      loopback = loopback;
      runtime_type = runtime_frr;
      vlan_id = pos server_vlan_id;
    };
    status = zero_node_status;
  }

  abbrev pub loopback_taken : String → Prefix → Allocation
  loopback_taken name loopback = record {
    pool = pool_loopback;
    value = subnet_value loopback;
    owner = name;
  }

  -- `addLeaf`, with the fields of the spec that it is called with
  unfoldable pub add_leaf : Builder → String → NodeSpec → Result Error (Node × Builder)
  add_leaf b name spec = allocate b pool_loopback name >>= λ s.
      let n = new_leaf s.1 name spec s.0 in ok (n, add_node s.1 n (loopback_taken name s.0 ∷ []))

  -- `addServer`, in the same way
  unfoldable pub add_server : Builder → String → NodeSpec → Node × Builder
  add_server b name spec =
      let n : Node = record {
        meta = new_meta (new_id "node" b.made) name;
        spec = record spec {
          lab_id = b.lab_id;
          role = role_server;
          asn = server_asn;
          runtime_type = runtime_frr;
        };
        status = zero_node_status;
      } in
      (n, add_node b n [])

  abbrev pub new_link : Builder → String → String → ℤ → LinkEndpoint → LinkEndpoint → Link
  new_link b name kind vlan_id ep_a ep_b = record {
    meta = new_meta (new_id "link" b.made) name;
    spec = record {
      lab_id = b.lab_id;
      kind = kind;
      vlan_id = vlan_id;
      endpoint_a = ep_a;
      endpoint_b = ep_b;
      mtu = pos 9100;
    };
    status = record { admin_up = false; oper_up = false };
  }

  -- the end of `addLink` and `addL2Link`: both ends, and the link
  unfoldable pub join : Builder → Node → Node → String → ℤ → Prefix → Prefix → Builder
  join b a z kind vlan_id addr_a addr_z =
      let name = link_name a.meta.name z.meta.name in
      let ifs = pinned_interfaces b name in
      let r = endpoint b a addr_a ifs.0 in
      let s = endpoint r.1 z addr_z ifs.1 in
      record (s.1) { links = new_link b name kind vlan_id r.0 s.0 ∷ s.1.links; made = suc s.1.made }

  -- `addLink`
  unfoldable pub add_link : Builder → Node → Node → Result Error Builder
  unfolding join
  add_link b a z =
      let name = link_name a.meta.name z.meta.name in
      allocate b pool_fabric_p2p name >>= λ s.
      let b' = join s.1 a z link_fabric (pos 0) (first_end s.0) (second_end s.0) in
      ok (record b' {
        allocations =
            record { pool = pool_fabric_p2p; value = subnet_value s.0; owner = name }
            ∷ b'.allocations;
      })

  -- `addL2Link`
  unfoldable pub add_l2_link : Builder → Node → Node → String → Builder
  unfolding join
  add_l2_link b a z kind = join b a z kind (pos server_vlan_id) zero_prefix zero_prefix

  -- every a with every z
  unfoldable pub add_links_to : Builder → Node → List Node → Result Error Builder
  add_links_to b a [] = ok b
  add_links_to b a (z ∷ zs) = add_link b a z >>= λ b'. add_links_to b' a zs

  unfoldable pub add_mesh : Builder → List Node → List Node → Result Error Builder
  add_mesh b [] zs = ok b
  add_mesh b (a ∷ as') zs = add_links_to b a zs >>= λ b'. add_mesh b' as' zs

  -- k routers from the i-th on
  unfoldable pub add_routers :
      String → String → String → ℕ → ℕ → Builder → Result Error (List Node × Builder)
  add_routers name role pod_id zero i b = ok ([], b)
  add_routers name role pod_id (suc k) i b = do
    r ← add_router b (name +s+ show i) role pod_id
    rest ← add_routers name role pod_id k (i + 1) r.1
    ok (r.0 ∷ rest.0, rest.1)

  -- `addRack`: the name of its devices, its VLAN, and what its leaves and servers have in common
  pub record Rack : Type 0 where
    pub name : String
    pub owner : String
    pub subnet : Prefix
    pub shared : NodeSpec

  abbrev pub rack_of : String → ℤ → Prefix → Rack
  rack_of pod_id num sub =
      let rack_id = "rack-" +s+ show_int num in
      record {
        name = pod_id +s+ ("-" +s+ rack_id);
        owner = rack_owner pod_id rack_id;
        subnet = sub;
        shared = record zero_node_spec { pod_id = pod_id; rack_id = rack_id };
      }

  abbrev pub leaf_spec : Rack → ℤ → ℕ → ℕ → NodeSpec
  leaf_spec r num host prio = record (r.shared) {
    asn = rack_asn_of num;
    vlan_ip = prefix_with (host_at r.subnet host) r.subnet.bits;
    gateway_ip = host_at r.subnet 1;
    gateway_mac = gateway_mac_of (vrid_of num);
    vrrp_group = vrid_of num;
    vrrp_priority = pos prio;
  }

  abbrev pub server_spec : Rack → Node → Node → ℕ → NodeSpec
  server_spec r leaf_a leaf_b i = record (r.shared) {
    address = prefix_with (host_at r.subnet (10 + i)) r.subnet.bits;
    default_gateway = host_at r.subnet 1;
    bgp_peers = leaf_a.spec.vlan_ip.addr ∷ leaf_b.spec.vlan_ip.addr ∷ [];
  }

  -- the loop over the servers, k of them from the i-th on
  unfoldable pub add_servers : Rack → Node → Node → ℕ → ℕ → Builder → Builder
  add_servers r leaf_a leaf_b zero i b = b
  add_servers r leaf_a leaf_b (suc k) i b =
      let (srv, b1) =
        add_server b (r.name +s+ ("-server-" +s+ show i)) (server_spec r leaf_a leaf_b i) in
      let b2 = add_l2_link b1 leaf_a srv link_server_access in
      add_servers r leaf_a leaf_b k (i + 1) (add_l2_link b2 leaf_b srv link_server_access)

  -- the allocations of a rack, the newest first
  abbrev pub rack_takes : Rack → ℤ → List Allocation
  rack_takes r num =
      record { pool = pool_server_vlan; value = subnet_value r.subnet; owner = r.owner }
      ∷ record { pool = asn_pool role_leaf; value = asn_value (rack_asn_of num); owner = r.owner }
      ∷ []

  -- n.Spec.MLAGPeer = peer
  abbrev pub with_peer : Node → Node → Node
  with_peer n peer = record n { spec = record (n.spec) { mlag_peer = peer.meta.name } }

  -- Both leaves stand in the result as pointers, so their peers are set there too.
  unfoldable pub add_leaves : Builder → Rack → ℤ → Result Error ((Node × Node) × Builder)
  unfolding add_leaf
  add_leaves b r num = add_leaf b (r.name +s+ "-leaf-a") (leaf_spec r num 2 200) >>= λ a.
      add_leaf a.1 (r.name +s+ "-leaf-b") (leaf_spec r num 3 100) >>= λ z.
      let leaf_a = with_peer a.0 z.0 in
      let leaf_b = with_peer z.0 a.0 in
      ok (
        (leaf_a, leaf_b),
        record (z.1) {
          nodes = leaf_b ∷ leaf_a ∷ b.nodes;
          allocations = rack_takes r num ++ z.1.allocations;
        },
      )

  -- the links between the spines and both leaves
  unfoldable pub add_uplinks : Builder → List Node → Node → Node → Result Error Builder
  add_uplinks b [] leaf_a leaf_b = ok b
  add_uplinks b (sp ∷ sps) leaf_a leaf_b = do
    b1 ← add_link b sp leaf_a
    b2 ← add_link b1 sp leaf_b
    add_uplinks b2 sps leaf_a leaf_b

  -- `addRack`
  unfoldable pub add_rack : String → ℕ → List Node → ℕ → Builder → Result Error Builder
  add_rack pod_id servers spines slot b =
      let (num, b0) = rack_num_for_slot b pod_id slot in
      allocate b0 pool_server_vlan (rack_owner pod_id ("rack-" +s+ show_int num)) >>= λ s.
      let r = rack_of pod_id num s.0 in
      add_leaves s.1 r num >>= λ ls.
      let (leaf_a, leaf_b) = ls.0 in
      add_uplinks ls.1 spines leaf_a leaf_b >>= λ b'.
      ok (add_servers r leaf_a leaf_b servers 1 (add_l2_link b' leaf_a leaf_b link_mlag_peer))

  -- k racks from slot i on
  unfoldable pub add_racks : String → ℕ → List Node → ℕ → ℕ → Builder → Result Error Builder
  add_racks pod_id servers spines zero i b = ok b
  add_racks pod_id servers spines (suc k) i b =
      add_rack pod_id servers spines i b >>= λ b'. add_racks pod_id servers spines k (i + 1) b'

  unfoldable pub add_pod : List Node → String → PodSpec → Builder → Result Error Builder
  add_pod superspines pod_id pod b = do
    sp ← add_routers (pod_id +s+ "-spine-") role_spine pod_id pod.spines 1 b
    b' ← add_mesh sp.1 superspines sp.0
    add_racks pod_id pod.servers_per_rack sp.0 pod.racks 1 b'

  -- the pods, from the i-th on
  unfoldable pub add_pods : List Node → ℕ → List PodSpec → Builder → Result Error Builder
  add_pods superspines i [] b = ok b
  add_pods superspines i (p ∷ ps) b =
      add_pod superspines (if p.name == "" then "pod-" +s+ show i else p.name) p b >>= λ b'.
      add_pods superspines (i + 1) ps b'

  -- `Build`
  unfoldable pub build : TopologySpec → Builder → Result Error Builder
  build spec b = do
    ext ← add_routers "external-" role_external "" spec.external_routers 1 b
    edge ← add_routers "dcedge-" role_dc_edge "" spec.dc_edges 1 ext.1
    ss ← add_routers "superspine-" role_superspine "" spec.super_spines 1 edge.1
    b1 ← add_mesh ss.1 ext.0 edge.0
    b2 ← add_mesh b1 edge.0 ss.0
    add_pods ss.0 1 spec.pods b2
