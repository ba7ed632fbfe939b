-- ===== src/Topology/Interfaces.antt =====
-- controller/internal/topology/builder.go: the interface counters that `restore` leaves.
pub mod Fresh
use dc_net_lab.Prelude.{
  ℕ, zero, suc, ◌+◌, ◌^◌, ◌≤◌, ◌<◌, ◌≡◌, ◌≢◌, refl, sym, ap, subst, ◌∙◌, arith, String, List, [],
  ◌∷◌, ◌++◌, Bool, true, false, Option, none, some, ℤ, pos, ltb_ℤ, to_nat, ltb, Result, ok, err,
  ◌>>=◌, bind-ok, ok-inj, Option-cases, Bool-cases, inl, inr, ◌==◌, string_eq, eq_iff, All, All-imp,
  if◌then◌else◌,
}
use dc_net_lab.Prelude.Map
use dc_net_lab.Prelude.Map.{Map, get-put_self, get-put_ne}
use dc_net_lab.NetIp.{Prefix, zero_prefix, masked}
use dc_net_lab.GoFmt.{sscanf, show}
use dc_net_lab.GoFmt.Scan.{sscanf-show, show_inj}
use dc_net_lab.Model.{
  ◌+s+◌, Node, Link, LinkEndpoint, AddressPool, Topology, TopologySpec, link_fabric,
  pool_fabric_p2p, pool_server_vlan,
}
use dc_net_lab.Asn.{AsnRange}
use dc_net_lab.Topology.{
  Builder, get_or, pin, restore_nodes, restore_interface, restore_subnet, restore_link,
  restore_links, restore, new_builder, rack_num_for_slot,
}
use dc_net_lab.Topology.Build.{
  endpoint, pinned_interfaces, link_name, first_end, second_end, add_server, add_l2_link, build,
}
use dc_net_lab.Topology.Pins.{pin-ok, allocate-ok}
use dc_net_lab.Topology.Empty.{new_builder-ok}
use dc_net_lab.Topology.Steps.{
  Step, router, number, rack_subnet, leaves, server, fabric, l2, Steps, here, next, build-Steps,
}
use dc_net_lab.Topology.Keeps.{ends_of, join-ok, endpoint-ok}
use dc_net_lab.Topology.Shapes.{add_router-ok, add_leaves-ok, add_link-ok, rack_num_for_slot-cases}

-- the interface counter of a node
abbrev pub count_of : Builder → String → ℕ
count_of b name = get_or 0 b.if_index name

abbrev pub zero_or : Option ℕ → ℕ
zero_or o = elim o [ none ↦ 0 | some n ↦ n ]

pub count-put_self :
    (m : Map String ℕ) (name : String) (n : ℕ) → get_or 0 (Map.put m name n) name ≡ n
count-put_self m name n = ap zero_or (get-put_self m name name n)

pub count-put-le :
    (m : Map String ℕ) (name x : String) (n : ℕ)
    → get_or 0 m name ≤ n
    → get_or 0 m x ≤ get_or 0 (Map.put m name n) x
count-put-le m name x n h = elim (Bool-cases (name == x)) [
  | inl e ↦
      let same = (eq_iff name x).0 e in
      subst (λ y. get_or 0 m y ≤ get_or 0 (Map.put m name n) y) same
        (omega (arith, h, count-put_self m name n))
  | inr e ↦
      let other : get_or 0 (Map.put m name n) x ≡ get_or 0 m x =
        ap zero_or (get-put_ne m name x n (λ p. cc (e, (eq_iff name x).1 p))) in
      omega (arith, other)
]

-- No counter falls.
pub record Counts (b c : Builder) : Type 0 where
  pub up : (x : String) → count_of b x ≤ count_of c x

pub same-Counts : (b c : Builder) → c.if_index ≡ b.if_index → Counts b c
same-Counts b c e = record {
  up =
      λ x. let same : count_of c x ≡ count_of b x = ap (λ m. get_or 0 m x) e in omega (arith, same);
}

pub Counts-trans : (b c d : Builder) → Counts b c → Counts c d → Counts b d
Counts-trans b c d h k = record { up = λ x. omega (arith, h.up x, k.up x) }

-- A deployed end has an index that its node's counter covers.
abbrev pub Covered : Builder → LinkEndpoint → Type 0
Covered b e =
    (idx : ℤ) × (sscanf "eth" e.interface ≡ some idx)
    × (ltb_ℤ (pos (count_of b e.node_name)) idx ≡ false)

covers : (j k : ℕ) (idx : ℤ) → j ≤ k → ltb_ℤ (pos j) idx ≡ false → ltb_ℤ (pos k) idx ≡ false
covers j k idx h e = ground arith

Covered-up : (b c : Builder) (e : LinkEndpoint) → Counts b c → Covered b e → Covered c e
Covered-up b c e h k = (k.0, k.1, covers _ _ k.0 (h.up e.node_name) k.2)

restore_interface-Covered :
    (b : Builder) (name : String) (e : LinkEndpoint) (b' : Builder)
    → restore_interface b name e ≡ ok b'
    → Covered b' e × Counts b b'
unfolding restore_interface
restore_interface-Covered b name e b' h = elim (Option-cases (sscanf "eth" e.interface)) [
  | inl f ↦ absurd (cc (rw (restore_interface, f) at h))
  | inr (idx, f) ↦
      let k = ok-inj (rw (restore_interface, f) at h) in
      let at = count_of b e.node_name in
      elim (Bool-cases (ltb_ℤ (pos at) idx)) as (λ _. Covered b' e × Counts b b') [
        | inr g ↦
            let m = rw g at k in
            subst (λ c. Covered c e × Counts b c) m ((idx, f, g), same-Counts b b refl)
        | inl g ↦
            let m = rw g at k in
            let c : Builder = record b { if_index = Map.put b.if_index e.node_name (to_nat idx) } in
            let now : count_of c e.node_name ≡ to_nat idx =
              count-put_self b.if_index e.node_name (to_nat idx) in
            let low : ltb_ℤ (pos (to_nat idx)) idx ≡ false = ground (arith, g) in
            let grown : at ≤ to_nat idx = ground (arith, g) in
            subst (λ c. Covered c e × Counts b c) m
              (
                (idx, f, subst (λ n. ltb_ℤ (pos n) idx ≡ false) (sym now) low),
                record { up = λ x. count-put-le b.if_index e.node_name x (to_nat idx) grown },
              )
      ]
]

-- both ends of every deployed link
abbrev pub ends : List Link → List LinkEndpoint
ends [] = []
ends (l ∷ ls) = l.spec.endpoint_a ∷ l.spec.endpoint_b ∷ ends ls

pub restore_links-Covered :
    (b : Builder) (ls : List Link) (b' : Builder)
    → restore_links b ls ≡ ok b'
    → All (Covered b') (ends ls) × Counts b b'
unfolding restore_links restore_link
restore_links-Covered b [] b' h =
    (tt, same-Counts b b' (ap (λ (c : Builder). c.if_index) (sym (ok-inj h))))
restore_links-Covered b (l ∷ ls) b' h =
    let name = l.meta.name in
    let b0 : Builder = record b { base_links = Map.put b.base_links name l } in
    let (c, h1, m) = bind-ok (restore_link b l) _ b' h in
    let (c1, e, h2) = bind-ok (restore_subnet b0 l) _ c h1 in
    let (c2, f, g) = bind-ok (restore_interface c1 name l.spec.endpoint_a) _ c h2 in
    let at : Counts b c1 = elim (Bool-cases (l.spec.kind == link_fabric)) as (λ _. Counts b c1) [
      | inl q ↦
          let sub = masked l.spec.endpoint_a.address in
          let (p, p', _, _, done) = pin-ok b0 pool_fabric_p2p name sub c1 (rw q at e) in
          same-Counts b c1 (ap (λ (d : Builder). d.if_index) (sym done))
      | inr q ↦ same-Counts b c1 (ap (λ (d : Builder). d.if_index) (sym (ok-inj (rw q at e))))
    ] in
    let (on_a, up_a) = restore_interface-Covered c1 name l.spec.endpoint_a c2 f in
    let (on_b, up_b) = restore_interface-Covered c2 name l.spec.endpoint_b c g in
    let (rest, up) = restore_links-Covered c ls b' m in
    (
      (
        Covered-up c2 b' l.spec.endpoint_a (Counts-trans c2 c b' up_b up) on_a,
        (Covered-up c b' l.spec.endpoint_b up on_b, rest),
      ),
      Counts-trans b c1 b' at (Counts-trans c1 c2 b' up_a (Counts-trans c2 c b' up_b up)),
    )
