-- ===== src/Topology/Empty.antt =====
-- controller/internal/topology/builder.go: a new builder has built nothing, whatever it has restored.
use dc_net_lab.Prelude.{
  ◌≡◌, refl, sym, ap, ◌∙◌, String, List, [], ◌∷◌, Bool, false, some, ok, bind-ok, ok-inj,
  Option-cases, Bool-cases, inl, inr, ◌==◌, string_eq,
}
use dc_net_lab.Prelude.Map
use dc_net_lab.Prelude.Map.{Map}
use dc_net_lab.NetIp.{Prefix, is_valid, masked}
use dc_net_lab.GoFmt.{sscanf}
use dc_net_lab.Model.{
  Node, Link, AddressPool, Topology, role_leaf, role_server, link_fabric, pool_loopback,
  pool_fabric_p2p, pool_server_vlan,
}
use dc_net_lab.Asn.{AsnRange, Allocator}
use dc_net_lab.Ipam.{Pool}
use dc_net_lab.Topology.{
  Allocation, Builder, get_or, pin, pin_asn, Restoring, new_slot, rack_owner, restore_leaf,
  restore_loopback, restore_role, restore_nodes, restore_interface, restore_subnet, restore_link,
  restore_links, restore, new_builder, empty_builder, make_pools, make_asns,
}
use dc_net_lab.Topology.Pins.{pin-ok, pin_asn-ok}
use dc_net_lab.Topology.Restored.{restore_interface-ok}

abbrev pub result_of : Builder → List Node × List Link × List Allocation
result_of b = (b.nodes, b.links, b.allocations)

pin-result_of :
    (b : Builder) (pool owner : String) (sub : Prefix) (b' : Builder)
    → pin b pool owner sub ≡ ok b'
    → result_of b' ≡ result_of b
pin-result_of b pool owner sub b' h =
    let (p, p', e, f, g) = pin-ok b pool owner sub b' h in ap result_of (sym g)

restore_loopback-result_of :
    (b : Builder) (n : Node) (b' : Builder)
    → restore_loopback b n ≡ ok b'
    → result_of b' ≡ result_of b
restore_loopback-result_of b n b' h = elim (Bool-cases (is_valid n.spec.loopback)) [
  | inl e ↦ pin-result_of b pool_loopback n.meta.name n.spec.loopback b' (rw e at h)
  | inr e ↦ ap result_of (sym (ok-inj (rw e at h)))
]

restore_leaf-result_of :
    (seen : Map String Bool) (b : Builder) (n : Node) (r : Restoring)
    → restore_leaf (seen, b) n ≡ ok r
    → result_of r.1 ≡ result_of b
unfolding restore_leaf
restore_leaf-result_of seen b n r h = elim (Option-cases (sscanf "rack-" n.spec.rack_id)) [
  | inl e ↦ absurd (cc (rw (restore_leaf, e) at h))
  | inr (num, e) ↦
      let owner = rack_owner n.spec.pod_id n.spec.rack_id in
      elim (Bool-cases (get_or false seen owner)) [
        | inl f ↦
            ap (λ (s : Restoring). result_of s.1) (sym (ok-inj (rw (restore_leaf, e, f) at h)))
        | inr f ↦
            let start = new_slot b n.spec.pod_id owner num in
            let sub = masked n.spec.vlan_ip in
            let (c, g, k) =
              bind-ok (pin start pool_server_vlan owner sub) _ r (rw (restore_leaf, e, f) at h) in
            ap (λ (s : Restoring). result_of s.1) (sym (ok-inj k))
            ∙ pin-result_of start pool_server_vlan owner sub c g
      ]
]

restore_role-result_of :
    (seen : Map String Bool) (b : Builder) (n : Node) (r : Restoring)
    → restore_role (seen, b) n ≡ ok r
    → result_of r.1 ≡ result_of b
unfolding restore_role
restore_role-result_of seen b n r h = elim (Bool-cases (n.spec.role == role_server)) [
  | inl e ↦ ap (λ (s : Restoring). result_of s.1) (sym (ok-inj (rw (restore_role, e) at h)))
  | inr e ↦ elim (Bool-cases (n.spec.role == role_leaf)) [
    | inl f ↦ restore_leaf-result_of seen b n r (rw (restore_role, e, f) at h)
    | inr f ↦
        let (c, g, k) =
          bind-ok (pin_asn b n.spec.role n.meta.name n.spec.asn) _ r
            (rw (restore_role, e, f) at h) in
        let (a, m) = pin_asn-ok b n.spec.role n.meta.name n.spec.asn c g in
        ap (λ (s : Restoring). result_of s.1) (sym (ok-inj k)) ∙ ap result_of (sym m)
  ]
]

restore_nodes-result_of :
    (seen : Map String Bool) (b : Builder) (ns : List Node) (r : Restoring)
    → restore_nodes (seen, b) ns ≡ ok r
    → result_of r.1 ≡ result_of b
unfolding restore_nodes
restore_nodes-result_of seen b [] r h = ap (λ (s : Restoring). result_of s.1) (sym (ok-inj h))
restore_nodes-result_of seen b (n ∷ ns) r h =
    let (c, e, h1) = bind-ok (restore_loopback b n) _ r h in
    let (s, f, k) = bind-ok (restore_role (seen, c) n) _ r h1 in
    restore_nodes-result_of s.0 s.1 ns r k
    ∙ restore_role-result_of seen c n s f
    ∙ restore_loopback-result_of b n c e

restore_subnet-result_of :
    (b : Builder) (l : Link) (b' : Builder)
    → restore_subnet b l ≡ ok b'
    → result_of b' ≡ result_of b
restore_subnet-result_of b l b' h = elim (Bool-cases (l.spec.kind == link_fabric)) [
  | inl e ↦
      pin-result_of b pool_fabric_p2p l.meta.name (masked l.spec.endpoint_a.address) b' (rw e at h)
  | inr e ↦ ap result_of (sym (ok-inj (rw e at h)))
]

restore_links-result_of :
    (b : Builder) (ls : List Link) (b' : Builder)
    → restore_links b ls ≡ ok b'
    → result_of b' ≡ result_of b
unfolding restore_links restore_link
restore_links-result_of b [] b' h = ap result_of (sym (ok-inj h))
restore_links-result_of b (l ∷ ls) b' h =
    let name = l.meta.name in
    let b0 : Builder = record b { base_links = Map.put b.base_links name l } in
    let (c, h1, k) = bind-ok (restore_link b l) _ b' h in
    let (c1, e, h2) = bind-ok (restore_subnet b0 l) _ c h1 in
    let (c2, f, g) = bind-ok (restore_interface c1 name l.spec.endpoint_a) _ c h2 in
    restore_links-result_of c ls b' k
    ∙ ap result_of (sym (restore_interface-ok c2 name l.spec.endpoint_b c g).0)
    ∙ ap result_of (sym (restore_interface-ok c1 name l.spec.endpoint_a c2 f).0)
    ∙ restore_subnet-result_of b0 l c1 e

restore-result_of :
    (b : Builder) (base : Topology) (b' : Builder)
    → restore b base ≡ ok b'
    → result_of b' ≡ result_of b
unfolding restore
restore-result_of b base b' h =
    let (s, e, k) = bind-ok (restore_nodes (Map.empty, b) base.nodes) _ b' h in
    restore_links-result_of _ base.links b' k ∙ restore_nodes-result_of Map.empty b base.nodes s e

-- where a new builder comes from
pub new_builder-ok :
    (lab_id : String) (pools : List AddressPool) (ranges : List AsnRange) (base : Topology)
    (b : Builder)
    → new_builder lab_id pools ranges (some base) ≡ ok b
    → (b0 : Builder) × (restore b0 base ≡ ok b)
      × (result_of b ≡ ([], [], []))
      × (ps : Map String Pool) × (as' : Allocator) × (b0 ≡ empty_builder lab_id ps as')
unfolding new_builder
new_builder-ok lab_id pools ranges base b h =
    let (ps, e, h1) = bind-ok (make_pools Map.empty pools) _ b h in
    let (as', f, k) = bind-ok (make_asns ranges) _ b h1 in
    (empty_builder lab_id ps as', k, restore-result_of _ base b k, ps, as', refl)
