-- ===== src/Topology/Restored.antt =====
-- controller/internal/topology/builder.go: what `restore` has pinned when it returns.
use dc_net_lab.Prelude.{
  ◌≡◌, ◌≢◌, inl, inr, refl, sym, ap, subst, ◌∙◌, String, List, [], ◌∷◌, map, Bool, true, false,
  some, ℤ, ok, bind-ok, ok-inj, Option-cases, Bool-cases, ◌==◌, string_eq, eq_iff, All, All-imp,
  Distinct, if◌then◌else◌, ltb_ℤ, pos,
}
use dc_net_lab.Prelude.Map
use dc_net_lab.Prelude.Map.{Map, get-put_self, get-put_ne}
use dc_net_lab.NetIp.{Prefix, is_valid, masked}
use dc_net_lab.GoFmt.{sscanf}
use dc_net_lab.GoFmt.Scan.{sscanf-eth_empty}
use dc_net_lab.Model.{
  Node, Link, LinkEndpoint, Topology, role_leaf, role_server, link_fabric, pool_loopback,
  pool_fabric_p2p, pool_server_vlan,
}
use dc_net_lab.Topology.{
  Builder, get_or, get2, pin, pin_asn, Restoring, new_slot, rack_owner, restore_leaf,
  restore_loopback, restore_role, restore_nodes, restore_interface, restore_subnet, restore_link,
  restore_links, restore,
}
use dc_net_lab.Topology.Pins.{get2-put2_self, get2-put2_ne, get2-put2_other, pin-ok, pin_asn-ok}

-- The pins of the devices with another name are as they were.
record Spares (x : String) (b b' : Builder) : Type 0 where
  loopback : get2 b'.pinned_sub pool_loopback x ≡ get2 b.pinned_sub pool_loopback x
  asn : (role : String) → get2 b'.pinned_asn role x ≡ get2 b.pinned_asn role x

Spares-trans : {x : String} {b c d : Builder} → Spares x b c → Spares x c d → Spares x b d
Spares-trans h k = record {
  loopback = k.loopback ∙ h.loopback;
  asn = λ role. k.asn role ∙ h.asn role;
}

Spares-refl : {x : String} {b : Builder} → Spares x b b
Spares-refl = record { loopback = refl; asn = λ role. refl }

-- whether the device has an ASN from its role's range
abbrev pub has_range : String → Bool
has_range role = if role == role_server then false else if role == role_leaf then false else true

-- what a deployed device has pinned
abbrev pub IsPinned : Builder → Node → Type 0
IsPinned b n =
    (is_valid n.spec.loopback ≡ true
      → get2 b.pinned_sub pool_loopback n.meta.name ≡ some n.spec.loopback)
    × (has_range n.spec.role ≡ true → get2 b.pinned_asn n.spec.role n.meta.name ≡ some n.spec.asn)

pin_vlan-Spares :
    (x : String) (b : Builder) (owner : String) (sub : Prefix) (b' : Builder)
    → pin b pool_server_vlan owner sub ≡ ok b'
    → Spares x b b'
pin_vlan-Spares x b owner sub b' h =
    let (p, p', e, f, g) = pin-ok b pool_server_vlan owner sub b' h in
    subst (Spares x b) g (record {
      loopback =
          get2-put2_other b.pinned_sub pool_server_vlan owner pool_loopback x sub (λ q. cc q);
      asn = λ role. refl;
    })

pin_loopback-pins :
    (b : Builder) (owner : String) (sub : Prefix) (b' : Builder)
    → pin b pool_loopback owner sub ≡ ok b'
    → (get2 b'.pinned_sub pool_loopback owner ≡ some sub)
      × ((x : String) → owner ≢ x → Spares x b b')
pin_loopback-pins b owner sub b' h =
    let (p, p', e, f, g) = pin-ok b pool_loopback owner sub b' h in
    (
      subst (λ (c : Builder). get2 c.pinned_sub pool_loopback owner ≡ some sub) g
          (get2-put2_self b.pinned_sub pool_loopback owner sub),
      λ x ne. subst (Spares x b) g (record {
        loopback = get2-put2_ne b.pinned_sub pool_loopback owner pool_loopback x sub ne;
        asn = λ role. refl;
      }),
    )

restore_loopback-pins :
    (b : Builder) (n : Node) (b' : Builder)
    → restore_loopback b n ≡ ok b'
    → (is_valid n.spec.loopback ≡ true
        → get2 b'.pinned_sub pool_loopback n.meta.name ≡ some n.spec.loopback)
      × ((x : String) → n.meta.name ≢ x → Spares x b b')
restore_loopback-pins b n b' h = elim (Bool-cases (is_valid n.spec.loopback)) [
  | inl e ↦
      let (here, others) = pin_loopback-pins b n.meta.name n.spec.loopback b' (rw e at h) in
      (λ v. here, others)
  | inr e ↦ (λ v. absurd (cc (v, e)), λ x ne. subst (Spares x b) (ok-inj (rw e at h)) Spares-refl)
]

slot-Spares :
    (x : String) (b : Builder) (pod_id owner : String) (num : ℤ)
    → Spares x b (new_slot b pod_id owner num)
slot-Spares x b pod_id owner num = record { loopback = refl; asn = λ role. refl }

restore_leaf-Spares :
    (x : String) (seen seen' : Map String Bool) (b b' : Builder) (n : Node)
    → restore_leaf (seen, b) n ≡ ok (seen', b')
    → Spares x b b'
unfolding restore_leaf
restore_leaf-Spares x seen seen' b b' n h = elim (Option-cases (sscanf "rack-" n.spec.rack_id)) [
  | inl e ↦ absurd (cc (rw (restore_leaf, e) at h))
  | inr (num, e) ↦
      let owner = rack_owner n.spec.pod_id n.spec.rack_id in
      elim (Bool-cases (get_or false seen owner)) [
        | inl f ↦
            subst (Spares x b) (ap (λ r. r.1) (ok-inj (rw (restore_leaf, e, f) at h))) Spares-refl
        | inr f ↦
            let (c, g, k) =
              bind-ok
                (pin (new_slot b n.spec.pod_id owner num) pool_server_vlan owner
                  (masked n.spec.vlan_ip))
                _ (seen', b') (rw (restore_leaf, e, f) at h) in
            subst (Spares x b) (ap (λ r. r.1) (ok-inj k)) (
              Spares-trans (slot-Spares x b n.spec.pod_id owner num) (
                pin_vlan-Spares x (new_slot b n.spec.pod_id owner num) owner (masked n.spec.vlan_ip)
                  c g))
      ]
]

restore_role-pins :
    (seen seen' : Map String Bool) (b b' : Builder) (n : Node)
    → restore_role (seen, b) n ≡ ok (seen', b')
    → (has_range n.spec.role ≡ true → get2 b'.pinned_asn n.spec.role n.meta.name ≡ some n.spec.asn)
      × ((x : String) → get2 b'.pinned_sub pool_loopback x ≡ get2 b.pinned_sub pool_loopback x)
      × ((x : String) → n.meta.name ≢ x → Spares x b b')
unfolding restore_role
restore_role-pins seen seen' b b' n h = elim (Bool-cases (n.spec.role == role_server)) [
  | inl e ↦
      let k = ap (λ (r : Restoring). r.1) (ok-inj (rw (restore_role, e) at h)) in
      (
        λ v. absurd (cc (rw e at v)),
        λ x. ap (λ (c : Builder). get2 c.pinned_sub pool_loopback x) (sym k),
        λ x ne. subst (Spares x b) k Spares-refl,
      )
  | inr e ↦ elim (Bool-cases (n.spec.role == role_leaf)) [
    | inl f ↦ (
      λ v. absurd (cc (rw (e, f) at v)),
      λ x. (restore_leaf-Spares x seen seen' b b' n (rw (restore_role, e, f) at h)).loopback,
      λ x ne. restore_leaf-Spares x seen seen' b b' n (rw (restore_role, e, f) at h),
    )
    | inr f ↦
        let (c, g, k) =
          bind-ok (pin_asn b n.spec.role n.meta.name n.spec.asn) _ (seen', b')
            (rw (restore_role, e, f) at h) in
        let (a, m) = pin_asn-ok b n.spec.role n.meta.name n.spec.asn c g in
        let done = m ∙ ap (λ (r : Restoring). r.1) (ok-inj k) in
        (
          λ v.
              subst (λ (d : Builder). get2 d.pinned_asn n.spec.role n.meta.name ≡ some n.spec.asn)
                done (get2-put2_self b.pinned_asn n.spec.role n.meta.name n.spec.asn),
          λ x. ap (λ (d : Builder). get2 d.pinned_sub pool_loopback x) (sym done),
          λ x ne. subst (Spares x b) done (record {
            loopback = refl;
            asn = λ role. get2-put2_ne b.pinned_asn n.spec.role n.meta.name role x n.spec.asn ne;
          }),
        )
  ]
]

-- one turn of the loop
restore_node-pins :
    (seen seen' : Map String Bool) (b b1 b' : Builder) (n : Node)
    → restore_loopback b n ≡ ok b1
    → restore_role (seen, b1) n ≡ ok (seen', b')
    → IsPinned b' n × ((x : String) → n.meta.name ≢ x → Spares x b b')
restore_node-pins seen seen' b b1 b' n h k =
    let (here, spared) = restore_loopback-pins b n b1 h in
    let (num, same, kept) = restore_role-pins seen seen' b1 b' n k in
    ((λ v. same n.meta.name ∙ here v, num), λ x ne. Spares-trans (spared x ne) (kept x ne))

restore_nodes-Spares :
    (x : String) (seen seen' : Map String Bool) (b b' : Builder) (ns : List Node)
    → All (λ y. y ≢ x) (map (λ n. n.meta.name) ns)
    → restore_nodes (seen, b) ns ≡ ok (seen', b')
    → Spares x b b'
unfolding restore_nodes
restore_nodes-Spares x seen seen' b b' [] ne h =
    subst (Spares x b) (ap (λ (r : Restoring). r.1) (ok-inj h)) Spares-refl
restore_nodes-Spares x seen seen' b b' (n ∷ ns) ne h =
    let (b1, e, h1) = bind-ok (restore_loopback b n) _ (seen', b') h in
    let ((seen2, b2), f, h2) = bind-ok (restore_role (seen, b1) n) _ (seen', b') h1 in
    Spares-trans ((restore_node-pins seen seen2 b b1 b2 n e f).1 x ne.0)
      (restore_nodes-Spares x seen2 seen' b2 b' ns ne.1 h2)

restore_nodes-pins :
    (seen seen' : Map String Bool) (b b' : Builder) (ns : List Node)
    → Distinct (map (λ n. n.meta.name) ns)
    → restore_nodes (seen, b) ns ≡ ok (seen', b')
    → All (IsPinned b') ns
unfolding restore_nodes
restore_nodes-pins seen seen' b b' [] ne h = tt
restore_nodes-pins seen seen' b b' (n ∷ ns) ne h =
    let (b1, e, h1) = bind-ok (restore_loopback b n) _ (seen', b') h in
    let ((seen2, b2), f, h2) = bind-ok (restore_role (seen, b1) n) _ (seen', b') h1 in
    let (pinned, spared) = restore_node-pins seen seen2 b b1 b2 n e f in
    let kept =
      restore_nodes-Spares n.meta.name seen2 seen' b2 b' ns
        (All-imp (λ y q r. q (sym r)) (map (λ m. m.meta.name) ns) ne.0) h2 in
    (
      (λ v. kept.loopback ∙ pinned.0 v, λ v. kept.asn n.spec.role ∙ pinned.1 v),
      restore_nodes-pins seen2 seen' b2 b' ns ne.1 h2,
    )

-- what a deployed link has pinned
pub record IsPinnedLink (b : Builder) (l : Link) : Type 0 where
  pub known : Map.get b.base_links l.meta.name ≡ some l
  pub named_a : l.spec.endpoint_a.interface ≢ ""
  pub named_b : l.spec.endpoint_b.interface ≢ ""
  pub subnet :
      l.spec.kind ≡ link_fabric
      → get2 b.pinned_sub pool_fabric_p2p l.meta.name ≡ some (masked l.spec.endpoint_a.address)

record SparesLink (x : String) (b b' : Builder) : Type 0 where
  link : Map.get b'.base_links x ≡ Map.get b.base_links x
  subnet : get2 b'.pinned_sub pool_fabric_p2p x ≡ get2 b.pinned_sub pool_fabric_p2p x

SparesLink-trans :
    {x : String} {b c d : Builder} → SparesLink x b c → SparesLink x c d → SparesLink x b d
SparesLink-trans h k = record { link = k.link ∙ h.link; subnet = k.subnet ∙ h.subnet }

SparesLink-refl : {x : String} {b : Builder} → SparesLink x b b
SparesLink-refl = record { link = refl; subnet = refl }

SparesAll : Builder → Builder → Type 0
SparesAll b b' = (x : String) → Spares x b b'

-- An interface without a number is refused.
pub restore_interface-ok :
    (b : Builder) (name : String) (ep : LinkEndpoint) (b' : Builder)
    → restore_interface b name ep ≡ ok b'
    → (record b { if_index = b'.if_index } ≡ b') × (ep.interface ≢ "")
unfolding restore_interface
restore_interface-ok b name ep b' h = elim (Option-cases (sscanf "eth" ep.interface)) [
  | inl e ↦ absurd (cc (rw (restore_interface, e) at h))
  | inr (idx, e) ↦
      let k = ok-inj (rw (restore_interface, e) at h) in
      let moved =
        elim (Bool-cases (ltb_ℤ (pos (get_or 0 b.if_index ep.node_name)) idx))
          as (λ _. record b { if_index = b'.if_index } ≡ b') [
            | inl f ↦
                let m = rw f at k in
                ap (λ (c : Builder). record b { if_index = c.if_index }) (sym m) ∙ m
            | inr f ↦
                let m = rw f at k in
                ap (λ (c : Builder). record b { if_index = c.if_index }) (sym m) ∙ m
          ] in
      (moved, λ s. cc (subst (λ t. sscanf "eth" t ≡ some idx) s e, sscanf-eth_empty))
]

restore_subnet-ok :
    (b : Builder) (l : Link) (b' : Builder)
    → restore_subnet b l ≡ ok b'
    → (b'.base_links ≡ b.base_links)
      × (l.spec.kind ≡ link_fabric
          → get2 b'.pinned_sub pool_fabric_p2p l.meta.name
            ≡ some (masked l.spec.endpoint_a.address))
      × ((x : String) → l.meta.name ≢ x → SparesLink x b b')
      × SparesAll b b'
unfolding SparesAll
restore_subnet-ok b l b' h = elim (Bool-cases (l.spec.kind == link_fabric)) [
  | inr e ↦
      let k = ok-inj (rw e at h) in
      (
        ap (λ (c : Builder). c.base_links) (sym k),
        λ f. absurd (cc (e, (eq_iff l.spec.kind link_fabric).1 f)),
        λ x ne. subst (SparesLink x b) k SparesLink-refl,
        λ x. subst (Spares x b) k Spares-refl,
      )
  | inl e ↦
      let name = l.meta.name in
      let sub = masked l.spec.endpoint_a.address in
      let (p, p', f, g, k) = pin-ok b pool_fabric_p2p name sub b' (rw e at h) in
      (
        ap (λ (c : Builder). c.base_links) (sym k),
        λ _.
            subst (λ (c : Builder). get2 c.pinned_sub pool_fabric_p2p name ≡ some sub) k
              (get2-put2_self b.pinned_sub pool_fabric_p2p name sub),
        λ x ne. subst (SparesLink x b) k (record {
          link = refl;
          subnet = get2-put2_ne b.pinned_sub pool_fabric_p2p name pool_fabric_p2p x sub ne;
        }),
        λ x. subst (Spares x b) k (record {
          loopback =
              get2-put2_other b.pinned_sub pool_fabric_p2p name pool_loopback x sub (λ q. cc q);
          asn = λ role. refl;
        }),
      )
]

-- one turn of the loop
restore_link-pins :
    (b : Builder) (l : Link) (b' : Builder)
    → restore_link b l ≡ ok b'
    → IsPinnedLink b' l × ((x : String) → l.meta.name ≢ x → SparesLink x b b') × SparesAll b b'
unfolding restore_link SparesAll
restore_link-pins b l b' h =
    let name = l.meta.name in
    let b0 : Builder = record b { base_links = Map.put b.base_links name l } in
    let (b1, e, h1) = bind-ok (restore_subnet b0 l) _ b' h in
    let (b2, f, g) = bind-ok (restore_interface b1 name l.spec.endpoint_a) _ b' h1 in
    let (links_same, sub_lem, spared, all_spared) = restore_subnet-ok b0 l b1 e in
    let (moved_a, named_a) = restore_interface-ok b1 name l.spec.endpoint_a b2 f in
    let (moved_b, named_b) = restore_interface-ok b2 name l.spec.endpoint_b b' g in
    let sub_same : b'.pinned_sub ≡ b1.pinned_sub =
      ap (λ (c : Builder). c.pinned_sub) (sym moved_b)
      ∙ ap (λ (c : Builder). c.pinned_sub) (sym moved_a) in
    let asn_same : b'.pinned_asn ≡ b1.pinned_asn =
      ap (λ (c : Builder). c.pinned_asn) (sym moved_b)
      ∙ ap (λ (c : Builder). c.pinned_asn) (sym moved_a) in
    let link_same : b'.base_links ≡ Map.put b.base_links name l =
      ap (λ (c : Builder). c.base_links) (sym moved_b)
      ∙ ap (λ (c : Builder). c.base_links) (sym moved_a)
      ∙ links_same in
    (
      record {
        known = ap (λ m. Map.get m name) link_same ∙ get-put_self b.base_links name name l;
        named_a = named_a;
        named_b = named_b;
        subnet = λ k. ap (λ m. get2 m pool_fabric_p2p name) sub_same ∙ sub_lem k;
      },
      λ x ne. record {
        link = ap (λ m. Map.get m x) link_same ∙ get-put_ne b.base_links name x l ne;
        subnet = ap (λ m. get2 m pool_fabric_p2p x) sub_same ∙ (spared x ne).subnet;
      },
      λ x. record {
        loopback = ap (λ m. get2 m pool_loopback x) sub_same ∙ (all_spared x).loopback;
        asn = λ role. ap (λ m. get2 m role x) asn_same ∙ (all_spared x).asn role;
      },
    )

restore_links-SparesLink :
    (x : String) (b b' : Builder) (ls : List Link)
    → All (λ y. y ≢ x) (map (λ l. l.meta.name) ls)
    → restore_links b ls ≡ ok b'
    → SparesLink x b b'
unfolding restore_links
restore_links-SparesLink x b b' [] ne h = subst (SparesLink x b) (ok-inj h) SparesLink-refl
restore_links-SparesLink x b b' (l ∷ ls) ne h =
    let (c, e, k) = bind-ok (restore_link b l) _ b' h in
    SparesLink-trans ((restore_link-pins b l c e).1 x ne.0)
      (restore_links-SparesLink x c b' ls ne.1 k)

restore_links-pins :
    (b b' : Builder) (ls : List Link)
    → Distinct (map (λ l. l.meta.name) ls)
    → restore_links b ls ≡ ok b'
    → All (IsPinnedLink b') ls × SparesAll b b'
unfolding restore_links SparesAll
restore_links-pins b b' [] ne h = (tt, λ x. subst (Spares x b) (ok-inj h) Spares-refl)
restore_links-pins b b' (l ∷ ls) ne h =
    let (c, e, k) = bind-ok (restore_link b l) _ b' h in
    let (pinned, _, spared) = restore_link-pins b l c e in
    let kept =
      restore_links-SparesLink l.meta.name c b' ls
        (All-imp (λ y q r. q (sym r)) (map (λ m. m.meta.name) ls) ne.0) k in
    let (others, all_spared) = restore_links-pins c b' ls ne.1 k in
    (
      (
        record {
          known = kept.link ∙ pinned.known;
          named_a = pinned.named_a;
          named_b = pinned.named_b;
          subnet = λ f. kept.subnet ∙ pinned.subnet f;
        },
        others,
      ),
      λ x. Spares-trans (spared x) (all_spared x),
    )

pub restore-pins :
    (b : Builder) (base : Topology) (b' : Builder)
    → Distinct (map (λ n. n.meta.name) base.nodes)
    → Distinct (map (λ l. l.meta.name) base.links)
    → restore b base ≡ ok b'
    → All (IsPinned b') base.nodes × All (IsPinnedLink b') base.links
unfolding restore SparesAll
restore-pins b base b' nodes links h =
    let ((seen, c), e, k) = bind-ok (restore_nodes (Map.empty, b) base.nodes) _ b' h in
    let (pinned, spared) = restore_links-pins _ b' base.links links k in
    (
      All-imp
          (λ n p. (
            λ v. (spared n.meta.name).loopback ∙ p.0 v,
            λ v. (spared n.meta.name).asn n.spec.role ∙ p.1 v,
          ))
          base.nodes (restore_nodes-pins Map.empty seen b c base.nodes nodes e),
      pinned,
    )
