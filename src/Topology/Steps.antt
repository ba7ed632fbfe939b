-- ===== src/Topology/Steps.antt =====
-- controller/internal/topology/builder.go: `Build` as a sequence of steps, one for each device, link or number that it
-- takes, so that what every step keeps holds of the whole topology.
use dc_net_lab.Prelude.{
  ℕ, zero, suc, ◌+◌, ◌≡◌, ◌≢◌, ap, subst, String, List, [], ◌∷◌, ℤ, ok, bind-ok, ok-inj,
  if◌then◌else◌, ◌==◌, string_eq,
}
use dc_net_lab.NetIp.{Prefix}
use dc_net_lab.GoFmt.{show, show_int}
use dc_net_lab.Model.{
  ◌+s+◌, Node, NodeSpec, PodSpec, TopologySpec, role_external, role_dc_edge, role_superspine,
  role_spine, role_leaf, role_server, pool_server_vlan, link_mlag_peer, link_server_access,
  link_fabric,
}
use dc_net_lab.Topology.{Builder, allocate, rack_num_for_slot, rack_owner}
use dc_net_lab.Topology.Build.{
  add_router, add_leaves, add_server, add_link, add_l2_link, add_links_to, add_mesh, add_routers,
  Rack, rack_of, server_spec, add_servers, add_uplinks, add_rack, add_racks, add_pod, add_pods,
  build,
}

-- the roles of `addRouter`
abbrev pub IsTier : String → Type 0
IsTier role = (role ≢ role_leaf) × (role ≢ role_server)

module _ (new_id : String → ℕ → String) where
  pub data Step (b : Builder) : Builder → Type 0 where
    router :
        {b' : Builder} (name role pod_id : String) (n : Node)
        → IsTier role
        → add_router new_id b name role pod_id ≡ ok (n, b')
        → Step b b'
    number : (pod_id : String) (slot : ℕ) → Step b (rack_num_for_slot b pod_id slot).1
    rack_subnet :
        {b' : Builder} (owner : String) (sub : Prefix)
        → allocate b pool_server_vlan owner ≡ ok (sub, b')
        → Step b b'
    leaves :
        {b' : Builder} (r : Rack new_id) (num : ℤ) (ns : Node × Node)
        → add_leaves new_id b r num ≡ ok (ns, b')
        → Step b b'
    server : (name : String) (spec : NodeSpec) → Step b (add_server new_id b name spec).1
    fabric : {b' : Builder} (a z : Node) → add_link new_id b a z ≡ ok b' → Step b b'
    l2 : (a z : Node) (kind : String) → kind ≢ link_fabric → Step b (add_l2_link new_id b a z kind)

  pub data Steps (b : Builder) : Builder → Type 0 where
    here : Steps b b
    next : {c d : Builder} → Steps b c → Step c d → Steps b d

  pub Steps-trans : {b c d : Builder} → Steps b c → Steps c d → Steps b d
  Steps-trans h here = h
  Steps-trans h (next k s) = next (Steps-trans h k) s

  abbrev one : {b c : Builder} → Step b c → Steps b c
  one s = next here s

  add_links_to-Steps :
      (b : Builder) (a : Node) (zs : List Node) (b' : Builder)
      → add_links_to new_id b a zs ≡ ok b'
      → Steps b b'
  unfolding add_links_to
  add_links_to-Steps b a [] b' h = subst (Steps b) (ok-inj h) here
  add_links_to-Steps b a (z ∷ zs) b' h =
      let (c, e, k) = bind-ok (add_link new_id b a z) (λ c. add_links_to new_id c a zs) b' h in
      Steps-trans (one (fabric a z e)) (add_links_to-Steps c a zs b' k)

  add_mesh-Steps :
      (b : Builder) (ns zs : List Node) (b' : Builder)
      → add_mesh new_id b ns zs ≡ ok b'
      → Steps b b'
  unfolding add_mesh
  add_mesh-Steps b [] zs b' h = subst (Steps b) (ok-inj h) here
  add_mesh-Steps b (a ∷ ns) zs b' h =
      let (c, e, k) = bind-ok (add_links_to new_id b a zs) (λ c. add_mesh new_id c ns zs) b' h in
      Steps-trans (add_links_to-Steps b a zs c e) (add_mesh-Steps c ns zs b' k)

  add_uplinks-Steps :
      (b : Builder) (sps : List Node) (leaf_a leaf_b : Node) (b' : Builder)
      → add_uplinks new_id b sps leaf_a leaf_b ≡ ok b'
      → Steps b b'
  unfolding add_uplinks
  add_uplinks-Steps b [] leaf_a leaf_b b' h = subst (Steps b) (ok-inj h) here
  add_uplinks-Steps b (sp ∷ sps) leaf_a leaf_b b' h =
      let (c, e, k) = bind-ok (add_link new_id b sp leaf_a) _ b' h in
      let (d, f, l) =
        bind-ok (add_link new_id c sp leaf_b) (λ d. add_uplinks new_id d sps leaf_a leaf_b) b' k in
      Steps-trans (next (one (fabric sp leaf_a e)) (fabric sp leaf_b f))
        (add_uplinks-Steps d sps leaf_a leaf_b b' l)

  add_routers-Steps :
      (name role pod_id : String) (k i : ℕ) (b : Builder) (ns : List Node) (b' : Builder)
      → IsTier role
      → add_routers new_id name role pod_id k i b ≡ ok (ns, b')
      → Steps b b'
  unfolding add_routers
  add_routers-Steps name role pod_id zero i b ns b' t h =
      subst (Steps b) (ap (λ r. r.1) (ok-inj h)) here
  add_routers-Steps name role pod_id (suc k) i b ns b' t h =
      let ((n, c), e, f) =
        bind-ok (add_router new_id b (name +s+ show i) role pod_id) _ (ns, b') h in
      let ((ms, d), g, l) =
        bind-ok (add_routers new_id name role pod_id k (i + 1) c) _ (ns, b') f in
      subst (Steps b) (ap (λ r. r.1) (ok-inj l)) (
        Steps-trans (one (router (name +s+ show i) role pod_id n t e))
          (add_routers-Steps name role pod_id k (i + 1) c ms d t g))

  add_servers-Steps :
      (r : Rack new_id) (leaf_a leaf_b : Node) (k i : ℕ) (b : Builder)
      → Steps b (add_servers new_id r leaf_a leaf_b k i b)
  unfolding add_servers
  add_servers-Steps r leaf_a leaf_b zero i b = here
  add_servers-Steps r leaf_a leaf_b (suc k) i b =
      let name = r.name +s+ ("-server-" +s+ show i) in
      let spec = server_spec new_id r leaf_a leaf_b i in
      let (srv, b1) = add_server new_id b name spec in
      let b2 = add_l2_link new_id b1 leaf_a srv link_server_access in
      let b3 = add_l2_link new_id b2 leaf_b srv link_server_access in
      let three =
        next (next (one (server name spec)) (l2 leaf_a srv link_server_access (λ e. cc e)))
          (l2 leaf_b srv link_server_access (λ e. cc e)) in
      Steps-trans three (add_servers-Steps r leaf_a leaf_b k (i + 1) b3)

  add_rack-Steps :
      (pod_id : String) (servers : ℕ) (spines : List Node) (slot : ℕ) (b b' : Builder)
      → add_rack new_id pod_id servers spines slot b ≡ ok b'
      → Steps b b'
  unfolding add_rack
  add_rack-Steps pod_id servers spines slot b b' h =
      let (num, b0) = rack_num_for_slot b pod_id slot in
      let owner = rack_owner pod_id ("rack-" +s+ show_int num) in
      let ((sub, b1), e, f) = bind-ok (allocate b0 pool_server_vlan owner) _ b' h in
      let r = rack_of new_id pod_id num sub in
      let (((leaf_a, leaf_b), b2), g, k) = bind-ok (add_leaves new_id b1 r num) _ b' f in
      let (b3, l, m) = bind-ok (add_uplinks new_id b2 spines leaf_a leaf_b) _ b' k in
      let first =
        next (next (one (number pod_id slot)) (rack_subnet owner sub e))
          (leaves r num (leaf_a, leaf_b) g) in
      let upto =
        next (Steps-trans first (add_uplinks-Steps b2 spines leaf_a leaf_b b3 l))
          (l2 leaf_a leaf_b link_mlag_peer (λ e. cc e)) in
      subst (Steps b) (ok-inj m) (Steps-trans upto (add_servers-Steps r leaf_a leaf_b servers 1 _))

  add_racks-Steps :
      (pod_id : String) (servers : ℕ) (spines : List Node) (k i : ℕ) (b b' : Builder)
      → add_racks new_id pod_id servers spines k i b ≡ ok b'
      → Steps b b'
  unfolding add_racks
  add_racks-Steps pod_id servers spines zero i b b' h = subst (Steps b) (ok-inj h) here
  add_racks-Steps pod_id servers spines (suc k) i b b' h =
      let (c, e, f) = bind-ok (add_rack new_id pod_id servers spines i b) _ b' h in
      Steps-trans (add_rack-Steps pod_id servers spines i b c e)
        (add_racks-Steps pod_id servers spines k (i + 1) c b' f)

  add_pod-Steps :
      (ss : List Node) (pod_id : String) (pod : PodSpec) (b b' : Builder)
      → add_pod new_id ss pod_id pod b ≡ ok b'
      → Steps b b'
  unfolding add_pod
  add_pod-Steps ss pod_id pod b b' h =
      let ((sp, c), e, f) =
        bind-ok (add_routers new_id (pod_id +s+ "-spine-") role_spine pod_id pod.spines 1 b) _ b'
          h in
      let (d, g, k) = bind-ok (add_mesh new_id c ss sp) _ b' f in
      Steps-trans
        (Steps-trans
          (add_routers-Steps _ role_spine pod_id pod.spines 1 b sp c (λ e. cc e, λ e. cc e) e)
          (add_mesh-Steps c ss sp d g))
        (add_racks-Steps pod_id pod.servers_per_rack sp pod.racks 1 d b' k)

  add_pods-Steps :
      (ss : List Node) (i : ℕ) (ps : List PodSpec) (b b' : Builder)
      → add_pods new_id ss i ps b ≡ ok b'
      → Steps b b'
  unfolding add_pods
  add_pods-Steps ss i [] b b' h = subst (Steps b) (ok-inj h) here
  add_pods-Steps ss i (p ∷ ps) b b' h =
      let (c, e, f) =
        bind-ok (add_pod new_id ss (if p.name == "" then "pod-" +s+ show i else p.name) p b) _ b'
          h in
      Steps-trans (add_pod-Steps ss _ p b c e) (add_pods-Steps ss (i + 1) ps c b' f)

  pub build-Steps :
      (spec : TopologySpec) (b b' : Builder) → build new_id spec b ≡ ok b' → Steps b b'
  unfolding build
  build-Steps spec b b' h =
      let ((ext, b1), e1, h1) =
        bind-ok (add_routers new_id "external-" role_external "" spec.external_routers 1 b) _ b'
          h in
      let ((edge, b2), e2, h2) =
        bind-ok (add_routers new_id "dcedge-" role_dc_edge "" spec.dc_edges 1 b1) _ b' h1 in
      let ((ss, b3), e3, h3) =
        bind-ok (add_routers new_id "superspine-" role_superspine "" spec.super_spines 1 b2) _ b'
          h2 in
      let (b4, e4, h4) = bind-ok (add_mesh new_id b3 ext edge) _ b' h3 in
      let (b5, e5, h5) = bind-ok (add_mesh new_id b4 edge ss) _ b' h4 in
      let to_2 =
        Steps-trans
          (add_routers-Steps _ role_external "" spec.external_routers 1 b ext b1
            (λ e. cc e, λ e. cc e) e1)
          (add_routers-Steps _ role_dc_edge "" spec.dc_edges 1 b1 edge b2 (λ e. cc e, λ e. cc e)
            e2) in
      let to_3 = Steps-trans to_2 (
        add_routers-Steps _ role_superspine "" spec.super_spines 1 b2 ss b3 (λ e. cc e, λ e. cc e)
          e3) in
      let to_5 =
        Steps-trans (Steps-trans to_3 (add_mesh-Steps b3 ext edge b4 e4))
          (add_mesh-Steps b4 edge ss b5 e5) in
      Steps-trans to_5 (add_pods-Steps ss 1 spec.pods b5 b' h5)
