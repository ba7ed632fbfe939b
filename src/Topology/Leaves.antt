-- ===== src/Topology/Leaves.antt =====
-- controller/internal/topology/builder.go: `restore` takes over the rack numbers of the deployed leaves.
use dc_net_lab.Prelude.{
  ℕ, ◌≡◌, refl, sym, ap, subst, ◌∙◌, arith, String, List, [], ◌∷◌, Bool, true, false, some, ℤ, pos,
  ltb_ℤ, to_nat, ok, bind-ok, ok-inj, Bool-cases, inl, inr, ◌==◌, ==-ne, string_eq, eq_iff, All,
  All-imp, if◌then◌else◌,
}
use dc_net_lab.Prelude.Map
use dc_net_lab.Prelude.Map.{Map, get-put, get-empty}
use dc_net_lab.NetIp.{Prefix, is_valid, masked}
use dc_net_lab.GoFmt.{sscanf}
use dc_net_lab.Model.{
  Node, Link, Topology, role_leaf, role_server, link_fabric, pool_loopback, pool_fabric_p2p,
  pool_server_vlan,
}
use dc_net_lab.Topology.{
  Builder, get_or, pin, pin_asn, Restoring, new_slot, rack_owner, restore_leaf, restore_loopback,
  restore_role, restore_nodes, restore_interface, restore_subnet, restore_link, restore_links,
  restore,
}
use dc_net_lab.Topology.Pins.{pin-ok, pin_asn-ok}
use dc_net_lab.Topology.Restored.{restore_interface-ok}

-- A number is not above the highest one.
abbrev pub Below : Builder → ℤ → Type 0
Below b m = ltb_ℤ (pos b.max_rack) m ≡ false

pub higher :
    (k : ℕ) (num m : ℤ)
    → ltb_ℤ (pos k) m ≡ false
    → ltb_ℤ (pos (if ltb_ℤ (pos k) num then to_nat num else k)) m ≡ false
higher k num m h = ground arith

pub highest :
    (k : ℕ) (num : ℤ) → ltb_ℤ (pos (if ltb_ℤ (pos k) num then to_nat num else k)) num ≡ false
highest k num = ground arith

-- The racks of a builder stay as they are.
pub record SameRacks (b c : Builder) : Type 0 where
  pub slots : b.rack_slots ≡ c.rack_slots
  pub max : b.max_rack ≡ c.max_rack

racks_refl : (b : Builder) → SameRacks b b
racks_refl b = record { slots = refl; max = refl }

racks_at :
    (b c d : Builder)
    → c.rack_slots ≡ b.rack_slots
    → c.max_rack ≡ b.max_rack
    → c ≡ d
    → SameRacks b d
racks_at b c d e f g = record {
  slots = sym e ∙ ap (λ (x : Builder). x.rack_slots) g;
  max = sym f ∙ ap (λ (x : Builder). x.max_rack) g;
}

racks_trans : (b c d : Builder) → SameRacks b c → SameRacks c d → SameRacks b d
racks_trans b c d h k = record { slots = h.slots ∙ k.slots; max = h.max ∙ k.max }

pub pin-SameRacks :
    (b : Builder) (pool owner : String) (sub : Prefix) (b' : Builder)
    → pin b pool owner sub ≡ ok b'
    → SameRacks b b'
pin-SameRacks b pool owner sub b' h =
    let (p, p', e, f, g) = pin-ok b pool owner sub b' h in
    record {
      slots = ap (λ (x : Builder). x.rack_slots) g;
      max = ap (λ (x : Builder). x.max_rack) g;
    }

pub pin_asn-SameRacks :
    (b : Builder) (role owner : String) (asn : ℕ) (b' : Builder)
    → pin_asn b role owner asn ≡ ok b'
    → SameRacks b b'
pin_asn-SameRacks b role owner asn b' h =
    let (a, q) = pin_asn-ok b role owner asn b' h in
    record {
      slots = ap (λ (x : Builder). x.rack_slots) q;
      max = ap (λ (x : Builder). x.max_rack) q;
    }

pub restore_loopback-SameRacks :
    (b : Builder) (n : Node) (b' : Builder) → restore_loopback b n ≡ ok b' → SameRacks b b'
restore_loopback-SameRacks b n b' h = elim (Bool-cases (is_valid n.spec.loopback)) [
  | inl e ↦ pin-SameRacks b pool_loopback n.meta.name n.spec.loopback b' (rw e at h)
  | inr e ↦ subst (SameRacks b) (ok-inj (rw e at h)) (racks_refl b)
]

pub restore_links-SameRacks :
    (b : Builder) (ls : List Link) (b' : Builder) → restore_links b ls ≡ ok b' → SameRacks b b'
unfolding restore_links restore_link
restore_links-SameRacks b [] b' h = subst (SameRacks b) (ok-inj h) (racks_refl b)
restore_links-SameRacks b (l ∷ ls) b' h =
    let name = l.meta.name in
    let b0 : Builder = record b { base_links = Map.put b.base_links name l } in
    let (c, h1, m) = bind-ok (restore_link b l) _ b' h in
    let (c1, e, h2) = bind-ok (restore_subnet b0 l) _ c h1 in
    let (c2, f, g) = bind-ok (restore_interface c1 name l.spec.endpoint_a) _ c h2 in
    let at_a = (restore_interface-ok c1 name l.spec.endpoint_a c2 f).0 in
    let at_b = (restore_interface-ok c2 name l.spec.endpoint_b c g).0 in
    let k1 : SameRacks b c1 =
      elim (Bool-cases (l.spec.kind == link_fabric)) as (λ _. SameRacks b c1) [
        | inl q ↦
            let k =
              pin-SameRacks b0 pool_fabric_p2p name (masked l.spec.endpoint_a.address) c1
                (rw q at e) in
            record { slots = k.slots; max = k.max }
        | inr q ↦ racks_at b b0 c1 refl refl (ok-inj (rw q at e))
      ] in
    let k2 : SameRacks c1 c2 = record {
      slots = ap (λ (d : Builder). d.rack_slots) at_a;
      max = ap (λ (d : Builder). d.max_rack) at_a;
    } in
    let k3 : SameRacks c2 c = record {
      slots = ap (λ (d : Builder). d.rack_slots) at_b;
      max = ap (λ (d : Builder). d.max_rack) at_b;
    } in
    racks_trans b c b' (racks_trans b c1 c k1 (racks_trans c1 c2 c k2 k3))
      (restore_links-SameRacks c ls b' m)

abbrev pub IsLeaf : Node → Type 0
IsLeaf n = (n.spec.role == role_leaf) ≡ true

-- The name of a leaf's rack has the number that `number` gives for the rack.
abbrev pub IsNumbered : (String → ℤ) → Node → Type 0
IsNumbered number n =
    IsLeaf n
    → sscanf "rack-" n.spec.rack_id ≡ some (number (rack_owner n.spec.pod_id n.spec.rack_id))

module _ (number : String → ℤ) where
  -- No rack that has been seen has a number above the highest.
  abbrev SeenBelow : Map String Bool → Builder → Type 0
  SeenBelow seen b = (owner : String) → get_or false seen owner ≡ true → Below b (number owner)

  abbrev LeafBelow : Builder → Node → Type 0
  LeafBelow b n = IsLeaf n → Below b (number (rack_owner n.spec.pod_id n.spec.rack_id))

  -- what a part of the loop does: numbers stay below, what was seen is below
  record Covers (seen : Map String Bool) (b : Builder) (r : Restoring) : Type 0 where
    later : (m : ℤ) → Below b m → Below r.1 m
    seen_below : SeenBelow r.0 r.1

  same_below : (b c : Builder) → SameRacks b c → (m : ℤ) → Below b m → Below c m
  same_below b c h m k = subst (λ x. ltb_ℤ (pos x) m ≡ false) h.max k

  restore_leaf-Covers :
      (seen : Map String Bool) (b : Builder) (n : Node) (r : Restoring)
      → IsLeaf n
      → IsNumbered number n
      → restore_leaf (seen, b) n ≡ ok r
      → SeenBelow seen b
      → Covers seen b r × LeafBelow r.1 n
  unfolding restore_leaf
  restore_leaf-Covers seen b n r leaf numbered h k =
      let owner = rack_owner n.spec.pod_id n.spec.rack_id in
      let num = number owner in
      let e = numbered leaf in
      elim (Bool-cases (get_or false seen owner)) [
        | inl f ↦
            let same = ok-inj (rw (restore_leaf, e, f) at h) in
            (
              record {
                later = λ m. subst (λ (s : Restoring). Below b m → Below s.1 m) same (λ q. q);
                seen_below = subst (λ (s : Restoring). SeenBelow s.0 s.1) same k;
              },
              λ _. subst (λ (s : Restoring). Below s.1 num) same (k owner f),
            )
        | inr f ↦
            let start = new_slot b n.spec.pod_id owner num in
            let sub = masked n.spec.vlan_ip in
            let (c, g, m) =
              bind-ok (pin start pool_server_vlan owner sub) _ r (rw (restore_leaf, e, f) at h) in
            let same = ok-inj m in
            let up : (x : ℤ) → Below start x → Below c x =
              same_below start c (pin-SameRacks start pool_server_vlan owner sub c g) in
            let up_b : (x : ℤ) → Below b x → Below c x = λ x q. up x (higher b.max_rack num x q) in
            let own : Below c num = up num (highest b.max_rack num) in
            let seen_c : SeenBelow (Map.put seen owner true) c = λ other q.
              elim (Bool-cases (owner == other)) [
                | inl s ↦ subst (λ o. Below c (number o)) ((eq_iff owner other).0 s) own
                | inr s ↦
                    up_b (number other)
                      (k other (ground (arith, get-put seen owner other true, q, s)))
              ] in
            (
              record {
                later = λ x. subst (λ (s : Restoring). Below b x → Below s.1 x) same (up_b x);
                seen_below = subst (λ (s : Restoring). SeenBelow s.0 s.1) same seen_c;
              },
              λ _. subst (λ (s : Restoring). Below s.1 num) same own,
            )
      ]

  not_server : (n : Node) → IsLeaf n → (n.spec.role == role_server) ≡ false
  not_server n leaf = elim (Bool-cases (n.spec.role == role_server)) [
    | inr e ↦ e
    | inl e ↦
        let same : role_server ≡ role_leaf =
          sym ((eq_iff n.spec.role role_server).0 e) ∙ (eq_iff n.spec.role role_leaf).0 leaf in
        absurd (==-ne role_server role_leaf refl same)
  ]

  restore_role-Covers :
      (seen : Map String Bool) (b : Builder) (n : Node) (r : Restoring)
      → IsNumbered number n
      → restore_role (seen, b) n ≡ ok r
      → SeenBelow seen b
      → Covers seen b r × LeafBelow r.1 n
  unfolding restore_role
  restore_role-Covers seen b n r numbered h k = elim (Bool-cases (n.spec.role == role_leaf)) [
    | inl f ↦
        restore_leaf-Covers seen b n r f numbered (rw (restore_role, not_server n f, f) at h) k
    | inr f ↦ elim (Bool-cases (n.spec.role == role_server)) [
      | inl e ↦
          let same = ok-inj (rw (restore_role, e) at h) in
          (
            record {
              later = λ m. subst (λ (s : Restoring). Below b m → Below s.1 m) same (λ q. q);
              seen_below = subst (λ (s : Restoring). SeenBelow s.0 s.1) same k;
            },
            λ leaf. absurd (cc (f, leaf)),
          )
      | inr e ↦
          let (c, g, m) =
            bind-ok (pin_asn b n.spec.role n.meta.name n.spec.asn) _ r
              (rw (restore_role, e, f) at h) in
          let same = ok-inj m in
          let up = same_below b c (pin_asn-SameRacks b n.spec.role n.meta.name n.spec.asn c g) in
          (
            record {
              later = λ x. subst (λ (s : Restoring). Below b x → Below s.1 x) same (up x);
              seen_below =
                  subst (λ (s : Restoring). SeenBelow s.0 s.1) same (λ o q. up (number o) (k o q));
            },
            λ leaf. absurd (cc (f, leaf)),
          )
    ]
  ]

  restore_nodes-Covers :
      (seen : Map String Bool) (b : Builder) (ns : List Node) (r : Restoring)
      → All (IsNumbered number) ns
      → restore_nodes (seen, b) ns ≡ ok r
      → SeenBelow seen b
      → Covers seen b r × All (LeafBelow r.1) ns
  unfolding restore_nodes
  restore_nodes-Covers seen b [] r numbered h k =
      let same = ok-inj h in
      (
        record {
          later = λ m. subst (λ (s : Restoring). Below b m → Below s.1 m) same (λ q. q);
          seen_below = subst (λ (s : Restoring). SeenBelow s.0 s.1) same k;
        },
        tt,
      )
  restore_nodes-Covers seen b (n ∷ ns) r numbered h k =
      let (c, e, h1) = bind-ok (restore_loopback b n) _ r h in
      let (s, f, m) = bind-ok (restore_role (seen, c) n) _ r h1 in
      let up = same_below b c (restore_loopback-SameRacks b n c e) in
      let (first, own) =
        restore_role-Covers seen c n s numbered.0 f (λ o q. up (number o) (k o q)) in
      let (rest, others) = restore_nodes-Covers s.0 s.1 ns r numbered.1 m first.seen_below in
      (
        record {
          later = λ x q. rest.later x (first.later x (up x q));
          seen_below = rest.seen_below;
        },
        (λ leaf. rest.later _ (own leaf), others),
      )

  -- After `restore`, no deployed leaf's rack has a number above the highest.
  pub restore-LeafBelow :
      (b : Builder) (base : Topology) (b' : Builder)
      → All (IsNumbered number) base.nodes
      → restore b base ≡ ok b'
      → All (LeafBelow b') base.nodes
  unfolding restore
  restore-LeafBelow b base b' numbered h =
      let (s, e, m) = bind-ok (restore_nodes (Map.empty, b) base.nodes) _ b' h in
      let none_seen : SeenBelow Map.empty b = λ o q. ground (arith, get-empty {V = Bool} o, q) in
      let (all, leaves) = restore_nodes-Covers Map.empty b base.nodes s numbered e none_seen in
      let links = restore_links-SameRacks _ base.links b' m in
      All-imp
        (λ n k leaf.
          subst (λ x. ltb_ℤ (pos x) (number (rack_owner n.spec.pod_id n.spec.rack_id)) ≡ false)
            links.max (k leaf))
        base.nodes leaves
