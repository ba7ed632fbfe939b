-- ===== src/Topology/Keeps.antt =====
-- controller/internal/topology/builder.go: what a rebuilt topology keeps of the deployed one.
use dc_net_lab.Prelude.{
  ℕ, suc, ◌≡◌, ◌≢◌, refl, sym, ap, subst, ◌∙◌, String, List, [], ◌∷◌, map, true, some, ℤ, ok,
  bind-ok, ok-inj, Option-cases, Bool-cases, get_elem?, ◌-◌, pos, inl, inr, ◌==◌, string_eq, eq_iff,
  All, All-imp, Distinct,
}
use dc_net_lab.Prelude.Map
use dc_net_lab.NetIp.{Prefix, zero_prefix, is_valid, masked}
use dc_net_lab.Model.{
  ◌+s+◌, Node, NodeSpec, Link, LinkEndpoint, AddressPool, Topology, TopologySpec, role_leaf,
  role_server, link_fabric, pool_loopback, pool_fabric_p2p, pool_server_vlan,
}
use dc_net_lab.Asn.{AsnRange}
use dc_net_lab.Topology.{
  Builder, get2, allocate, allocate_asn, rack_num_for_slot, new_builder, get_or,
}
use dc_net_lab.Topology.Build.{
  endpoint, pinned_interfaces, first_end, second_end, join, new_link, add_link, add_l2_link,
  add_router, new_leaf, add_leaf, add_leaves, add_server, build, Rack, link_name, leaf_spec,
}
use dc_net_lab.Topology.Pins.{allocate-ok, allocate_asn-ok}
use dc_net_lab.Topology.Steps.{
  Step, router, number, rack_subnet, leaves, server, fabric, l2, Steps, here, next, build-Steps,
  IsTier,
}
use dc_net_lab.Topology.Empty.{new_builder-ok}
use dc_net_lab.Topology.Restored.{IsPinned, IsPinnedLink, restore-pins, has_range}

-- No step changes what is pinned.
pub record SamePins (b c : Builder) : Type 0 where
  pub subnets : c.pinned_sub ≡ b.pinned_sub
  pub asns : c.pinned_asn ≡ b.pinned_asn
  pub links : c.base_links ≡ b.base_links

abbrev FitsNode : Builder → Node → Type 0
FitsNode b n =
    (IsTier n.spec.role
      → (v : ℕ) → get2 b.pinned_asn n.spec.role n.meta.name ≡ some v
      → n.spec.asn ≡ v)
    × (n.spec.role ≢ role_server
        → (q : Prefix) → get2 b.pinned_sub pool_loopback n.meta.name ≡ some q
        → n.spec.loopback ≡ q)

abbrev FitsLink : Builder → Link → Type 0
FitsLink b l =
    ((m : Link)
      → Map.get b.base_links l.meta.name ≡ some m
      → (m.spec.endpoint_a.interface ≢ ""
          → l.spec.endpoint_a.interface ≡ m.spec.endpoint_a.interface)
        × (m.spec.endpoint_b.interface ≢ ""
            → l.spec.endpoint_b.interface ≡ m.spec.endpoint_b.interface))
    × (l.spec.kind ≡ link_fabric
        → (q : Prefix) → get2 b.pinned_sub pool_fabric_p2p l.meta.name ≡ some q
        → (l.spec.endpoint_a.address ≡ first_end q) × (l.spec.endpoint_b.address ≡ second_end q))

record Fits (b c : Builder) : Type 0 where
  same : SamePins b c
  nodes : All (FitsNode b) c.nodes
  links : All (FitsLink b) c.links

-- an end that was pinned stays on its interface, and only the interface counter moves
pub endpoint-ok :
    (b : Builder) (n : Node) (addr : Prefix) (iface : String)
    → let r = endpoint b n addr iface in
      (record b { if_index = r.1.if_index } ≡ r.1)
      × (iface ≢ "" → r.0.interface ≡ iface)
      × (r.0.address ≡ addr)
      × (r.0.node_name ≡ n.meta.name)
unfolding endpoint
endpoint-ok b n addr iface = elim (Bool-cases (iface == "")) [
  | inl e ↦ rw (endpoint, e) (refl, λ ne. absurd (ne ((eq_iff iface "").0 e)), refl, refl)
  | inr e ↦ rw (endpoint, e) (refl, λ ne. refl, refl, refl)
]

module _ (new_id : String → ℕ → String) where
  -- the two ends of `join`
  abbrev pub ends_of :
      Builder → Node → Node → Prefix → Prefix → (LinkEndpoint × Builder) × (LinkEndpoint × Builder)
  ends_of b a z addr_a addr_z =
      let ifs = pinned_interfaces b (link_name a.meta.name z.meta.name) in
      let r = endpoint b a addr_a ifs.0 in (r, endpoint r.1 z addr_z ifs.1)

  pub join-ok :
      (b : Builder) (a z : Node) (kind : String) (vlan_id : ℤ) (addr_a addr_z : Prefix)
      → let (r, s) = ends_of b a z addr_a addr_z in
        join new_id b a z kind vlan_id addr_a addr_z ≡ record b {
          if_index = s.1.if_index;
          links =
              new_link new_id b (link_name a.meta.name z.meta.name) kind vlan_id r.0 s.0 ∷ b.links;
          made = suc b.made;
        }
  unfolding join
  join-ok b a z kind vlan_id addr_a addr_z =
      let (r, s) = ends_of b a z addr_a addr_z in
      let ifs = pinned_interfaces b (link_name a.meta.name z.meta.name) in
      let l = new_link new_id b (link_name a.meta.name z.meta.name) kind vlan_id r.0 s.0 in
      let end_r : record b { if_index = r.1.if_index } ≡ r.1 = (endpoint-ok b a addr_a ifs.0).0 in
      let end_s : record (r.1) { if_index = s.1.if_index } ≡ s.1 =
        (endpoint-ok r.1 z addr_z ifs.1).0 in
      let both : s.1 ≡ record b { if_index = s.1.if_index } =
        sym end_s ∙ ap (λ (c : Builder). record c { if_index = s.1.if_index }) (sym end_r) in
      ap
        (λ (c : Builder). record c {
          if_index = s.1.if_index;
          links = l ∷ c.links;
          made = suc c.made;
        })
        both

  join-Fits :
      (b0 b : Builder) (a z : Node) (kind : String) (vlan_id : ℤ) (addr_a addr_z : Prefix)
      → (kind ≡ link_fabric
          → (q : Prefix)
          → get2 b0.pinned_sub pool_fabric_p2p (link_name a.meta.name z.meta.name) ≡ some q
          → (addr_a ≡ first_end q) × (addr_z ≡ second_end q))
      → Fits b0 b
      → Fits b0 (join new_id b a z kind vlan_id addr_a addr_z)
  unfolding pinned_interfaces
  join-Fits b0 b a z kind vlan_id addr_a addr_z subs f =
      let name = link_name a.meta.name z.meta.name in
      let ifs = pinned_interfaces b name in
      let (r, s) = ends_of b a z addr_a addr_z in
      let (_, same_a, at_a, _) = endpoint-ok b a addr_a ifs.0 in
      let (_, same_b, at_b, _) = endpoint-ok r.1 z addr_z ifs.1 in
      let on : (m : Link)
          → Map.get b0.base_links name ≡ some m
          → ifs ≡ (m.spec.endpoint_a.interface, m.spec.endpoint_b.interface) =
        λ m e. rw (pinned_interfaces, f.same.links, e) refl in
      subst (Fits b0) (sym (join-ok b a z kind vlan_id addr_a addr_z)) (record {
        same = record { subnets = f.same.subnets; asns = f.same.asns; links = f.same.links };
        nodes = f.nodes;
        links = (
          (
            λ m e.
                let p = on m e in
                (
                  λ ne. same_a (λ q. ne (sym (ap (λ t. t.0) p) ∙ q)) ∙ ap (λ t. t.0) p,
                  λ ne. same_b (λ q. ne (sym (ap (λ t. t.1) p) ∙ q)) ∙ ap (λ t. t.1) p,
                ),
            λ k q e. (at_a ∙ (subs k q e).0, at_b ∙ (subs k q e).1),
          ),
          f.links,
        );
      })

  -- what no longer looks at the pools, the numbers or the ids
  moved-Fits :
      (b0 b c : Builder)
      → c.pinned_sub ≡ b.pinned_sub
      → c.pinned_asn ≡ b.pinned_asn
      → c.base_links ≡ b.base_links
      → c.nodes ≡ b.nodes
      → c.links ≡ b.links
      → Fits b0 b
      → Fits b0 c
  moved-Fits b0 b c e1 e2 e3 e4 e5 f = record {
    same = record {
      subnets = e1 ∙ f.same.subnets;
      asns = e2 ∙ f.same.asns;
      links = e3 ∙ f.same.links;
    };
    nodes = subst (All (FitsNode b0)) (sym e4) f.nodes;
    links = subst (All (FitsLink b0)) (sym e5) f.links;
  }

  allocate-Fits :
      (b0 b : Builder) (pool owner : String) (sub : Prefix) (b' : Builder)
      → allocate b pool owner ≡ ok (sub, b')
      → Fits b0 b
      → Fits b0 b' × ((q : Prefix) → get2 b0.pinned_sub pool owner ≡ some q → sub ≡ q)
  allocate-Fits b0 b pool owner sub b' h f =
      let (e, pinned) = allocate-ok b pool owner sub b' h in
      (
        subst (Fits b0) e
            (moved-Fits b0 b (record b { pools = b'.pools }) refl refl refl refl refl f),
        λ q k. pinned q (ap (λ m. get2 m pool owner) f.same.subnets ∙ k),
      )

  allocate_asn-Fits :
      (b0 b : Builder) (role owner : String) (val : ℕ) (b' : Builder)
      → allocate_asn b role owner ≡ ok (val, b')
      → Fits b0 b
      → Fits b0 b' × ((v : ℕ) → get2 b0.pinned_asn role owner ≡ some v → val ≡ v)
  allocate_asn-Fits b0 b role owner val b' h f =
      let (e, pinned) = allocate_asn-ok b role owner val b' h in
      (
        subst (Fits b0) e
            (moved-Fits b0 b (record b { asns = b'.asns }) refl refl refl refl refl f),
        λ v k. pinned v (ap (λ m. get2 m role owner) f.same.asns ∙ k),
      )

  add_router-Fits :
      (b0 b : Builder) (name role pod_id : String) (n : Node) (b' : Builder)
      → add_router new_id b name role pod_id ≡ ok (n, b')
      → Fits b0 b
      → Fits b0 b'
  unfolding add_router
  add_router-Fits b0 b name role pod_id n b' h f =
      let ((v, b1), e, h1) = bind-ok (allocate_asn b role name) _ (n, b') h in
      let ((sub, b2), g, k) = bind-ok (allocate b1 pool_loopback name) _ (n, b') h1 in
      let (f1, num) = allocate_asn-Fits b0 b role name v b1 e f in
      let (f2, loop) = allocate-Fits b0 b1 pool_loopback name sub b2 g f1 in
      subst (Fits b0) (ap (λ r. r.1) (ok-inj k)) (record {
        same = record { subnets = f2.same.subnets; asns = f2.same.asns; links = f2.same.links };
        nodes = ((λ t w q. num w q, λ t q p. loop q p), f2.nodes);
        links = f2.links;
      })

  add_leaf-Fits :
      (b0 b : Builder) (name : String) (spec : NodeSpec) (n : Node) (b' : Builder)
      → add_leaf new_id b name spec ≡ ok (n, b')
      → Fits b0 b
      → Fits b0 b' × FitsNode b0 n × (n.spec.role ≡ role_leaf)
  unfolding add_leaf
  add_leaf-Fits b0 b name spec n b' h f =
      let ((sub, b1), e, k) = bind-ok (allocate b pool_loopback name) _ (n, b') h in
      let (f1, loop) = allocate-Fits b0 b pool_loopback name sub b1 e f in
      let node : FitsNode b0 (new_leaf new_id b1 name spec sub) =
        (λ t. absurd (t.0 refl), λ t q p. loop q p) in
      (
        subst (Fits b0) (ap (λ r. r.1) (ok-inj k)) (record {
          same = record { subnets = f1.same.subnets; asns = f1.same.asns; links = f1.same.links };
          nodes = (node, f1.nodes);
          links = f1.links;
        }),
        subst (FitsNode b0) (ap (λ r. r.0) (ok-inj k)) node,
        ap (λ (r : Node × Builder). r.0.spec.role) (sym (ok-inj k)),
      )

  add_leaves-Fits :
      (b0 b : Builder) (r : Rack new_id) (num : ℤ) (ns : Node × Node) (b' : Builder)
      → add_leaves new_id b r num ≡ ok (ns, b')
      → Fits b0 b
      → Fits b0 b'
  unfolding add_leaves
  add_leaves-Fits b0 b r num ns b' h f =
      let ((a, b1), e, h1) =
        bind-ok (add_leaf new_id b (r.name +s+ "-leaf-a") (leaf_spec new_id r num 2 200)) _ (ns, b')
          h in
      let ((z, b2), g, k) =
        bind-ok (add_leaf new_id b1 (r.name +s+ "-leaf-b") (leaf_spec new_id r num 3 100)) _
          (ns, b') h1 in
      let (f1, fits_a, role_a) =
        add_leaf-Fits b0 b (r.name +s+ "-leaf-a") (leaf_spec new_id r num 2 200) a b1 e f in
      let (f2, fits_z, role_z) =
        add_leaf-Fits b0 b1 (r.name +s+ "-leaf-b") (leaf_spec new_id r num 3 100) z b2 g f1 in
      subst (Fits b0) (ap (λ r. r.1) (ok-inj k)) (record {
        same = record { subnets = f2.same.subnets; asns = f2.same.asns; links = f2.same.links };
        nodes = ((λ t. fits_z.0 t, λ t. fits_z.1 t), ((λ t. fits_a.0 t, λ t. fits_a.1 t), f.nodes));
        links = f2.links;
      })

  add_link-Fits :
      (b0 b : Builder) (a z : Node) (b' : Builder)
      → add_link new_id b a z ≡ ok b'
      → Fits b0 b
      → Fits b0 b'
  unfolding add_link
  add_link-Fits b0 b a z b' h f =
      let name = link_name a.meta.name z.meta.name in
      let ((sub, b1), e, k) = bind-ok (allocate b pool_fabric_p2p name) _ b' h in
      let (f1, pinned) = allocate-Fits b0 b pool_fabric_p2p name sub b1 e f in
      let j =
        join-Fits b0 b1 a z link_fabric (pos 0) (first_end sub) (second_end sub)
          (λ _ q p. (ap first_end (pinned q p), ap second_end (pinned q p))) f1 in
      subst (Fits b0) (ok-inj k) (moved-Fits b0 _ _ refl refl refl refl refl j)

  rack_num-Fits :
      (b0 b : Builder) (pod_id : String) (slot : ℕ)
      → Fits b0 b
      → Fits b0 (rack_num_for_slot b pod_id slot).1
  unfolding rack_num_for_slot
  rack_num-Fits b0 b pod_id slot f =
      elim (Option-cases (get_elem? (get_or [] b.rack_slots pod_id) (slot - 1))) [
        | inl e ↦ rw (rack_num_for_slot, e) (moved-Fits b0 b _ refl refl refl refl refl f)
        | inr (num, e) ↦ rw (rack_num_for_slot, e) f
      ]

  Step-Fits : (b0 b c : Builder) → Step new_id b c → Fits b0 b → Fits b0 c
  unfolding add_server add_l2_link
  Step-Fits b0 b c (router name role pod_id n t h) f = add_router-Fits b0 b name role pod_id n c h f
  Step-Fits b0 b c (number pod_id slot) f = rack_num-Fits b0 b pod_id slot f
  Step-Fits b0 b c (rack_subnet owner sub h) f =
      (allocate-Fits b0 b pool_server_vlan owner sub c h f).0
  Step-Fits b0 b c (leaves r num ns h) f = add_leaves-Fits b0 b r num ns c h f
  Step-Fits b0 b c (server name spec) f = record {
    same = record { subnets = f.same.subnets; asns = f.same.asns; links = f.same.links };
    nodes = ((λ t. absurd (t.1 refl), λ t. absurd (t refl)), f.nodes);
    links = f.links;
  }
  Step-Fits b0 b c (fabric a z h) f = add_link-Fits b0 b a z c h f
  Step-Fits b0 b c (l2 a z kind ne) f =
      join-Fits b0 b a z kind (pos 1000) zero_prefix zero_prefix (λ e. absurd (ne e)) f

  Steps-Fits : (b0 b c : Builder) → Steps new_id b c → Fits b0 b → Fits b0 c
  Steps-Fits b0 b c here f = f
  Steps-Fits b0 b c (next {c = d} h s) f = Step-Fits b0 d c s (Steps-Fits b0 b d h f)

-- what a device of the rebuilt topology has of a deployed one
abbrev pub KeepsNode : Node → Node → Type 0
KeepsNode m n =
    m.meta.name ≡ n.meta.name
    → (m.spec.role ≡ n.spec.role → has_range m.spec.role ≡ true → n.spec.asn ≡ m.spec.asn)
      × (is_valid m.spec.loopback ≡ true
          → n.spec.role ≢ role_server
          → n.spec.loopback ≡ m.spec.loopback)

-- what a link of the rebuilt topology has of a deployed one
abbrev pub KeepsLink : Link → Link → Type 0
KeepsLink m l =
    m.meta.name ≡ l.meta.name
    → (l.spec.endpoint_a.interface ≡ m.spec.endpoint_a.interface)
      × (l.spec.endpoint_b.interface ≡ m.spec.endpoint_b.interface)
      × (m.spec.kind ≡ link_fabric
          → l.spec.kind ≡ link_fabric
          → (l.spec.endpoint_a.address ≡ first_end (masked m.spec.endpoint_a.address))
            × (l.spec.endpoint_b.address ≡ second_end (masked m.spec.endpoint_a.address)))

has_range-IsTier : (role : String) → has_range role ≡ true → IsTier role
has_range-IsTier role h = (λ e. cc (ap has_range e, h), λ e. cc (ap has_range e, h))

Fits-KeepsNode : (b : Builder) (m n : Node) → IsPinned b m → FitsNode b n → KeepsNode m n
Fits-KeepsNode b m n p f e = (
  λ same r.
      let tier : IsTier n.spec.role = subst IsTier same (has_range-IsTier m.spec.role r) in
      let at : get2 b.pinned_asn n.spec.role n.meta.name ≡ some m.spec.asn =
        ap (λ role. get2 b.pinned_asn role n.meta.name) (sym same)
        ∙ ap (get2 b.pinned_asn m.spec.role) (sym e)
        ∙ p.1 r in
      f.0 tier m.spec.asn at,
  λ v ns. f.1 ns m.spec.loopback (ap (get2 b.pinned_sub pool_loopback) (sym e) ∙ p.0 v),
)

Fits-KeepsLink : (b : Builder) (m l : Link) → IsPinnedLink b m → FitsLink b l → KeepsLink m l
Fits-KeepsLink b m l p f e =
    let found : Map.get b.base_links l.meta.name ≡ some m =
      ap (Map.get b.base_links) (sym e) ∙ p.known in
    let (a, z) = f.0 m found in
    (
      a p.named_a,
      z p.named_b,
      λ k j.
          f.1 j (masked m.spec.endpoint_a.address)
            (ap (get2 b.pinned_sub pool_fabric_p2p) (sym e) ∙ p.subnet k),
    )

-- Build a topology on a deployed one, in which no two nodes and no two links have the same name. Then, whatever shape is
-- asked for, every node of the new topology that has the name of a deployed one keeps its loopback address, where that
-- one has it and the node is no server, and its ASN, where both have the same role and the role has a range of ASNs;
-- and every link that has the name of a deployed one keeps both interfaces, and on a fabric link both addresses
-- are those of the subnet that it had.
pub build-keeps :
    (new_id : String → ℕ → String) (lab_id : String) (pools : List AddressPool)
    (ranges : List AsnRange) (base : Topology) (spec : TopologySpec) (b r : Builder)
    → Distinct (map (λ n. n.meta.name) base.nodes)
    → Distinct (map (λ l. l.meta.name) base.links)
    → new_builder lab_id pools ranges (some base) ≡ ok b
    → build new_id spec b ≡ ok r
    → All (λ m. All (KeepsNode m) r.nodes) base.nodes
      × All (λ m. All (KeepsLink m) r.links) base.links
build-keeps new_id lab_id pools ranges base spec b r nodes links made done =
    let (b0, restored, empty, _, _, _) = new_builder-ok lab_id pools ranges base b made in
    let (pinned, pinned_links) = restore-pins b0 base b nodes links restored in
    let start : Fits b b = record {
      same = record { subnets = refl; asns = refl; links = refl };
      nodes = subst (All (FitsNode b)) (sym (ap (λ t. t.0) empty)) tt;
      links = subst (All (FitsLink b)) (sym (ap (λ t. t.1) empty)) tt;
    } in
    let fits = Steps-Fits new_id b b r (build-Steps new_id spec b r done) start in
    (
      All-imp (λ m p. All-imp (λ n f. Fits-KeepsNode b m n p f) r.nodes fits.nodes) base.nodes
          pinned,
      All-imp (λ m p. All-imp (λ l f. Fits-KeepsLink b m l p f) r.links fits.links) base.links
          pinned_links,
    )
