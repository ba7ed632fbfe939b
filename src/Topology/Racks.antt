-- ===== src/Topology/Racks.antt =====
-- controller/internal/topology/builder.go: the global rack numbers.
use dc_net_lab.Prelude.{
  ℕ, ◌+◌, ◌-◌, ◌≤◌, ◌<◌, ◌≡◌, ◌≢◌, refl, sym, ap, subst, ◌∙◌, arith, String, List, [], ◌∷◌, ◌++◌,
  Bool, false, Option, none, some, ℤ, pos, ltb_ℤ, to_nat, get_elem?, ok, bind-ok, ok-inj,
  Option-cases, Bool-cases, inl, inr, ◌==◌, string_eq, eq_iff, All, All-imp, All-imp₂, All-append,
  if◌then◌else◌,
}
use mathlib.Core.Option
use dc_net_lab.Prelude.Map
use dc_net_lab.Prelude.Map.{Map, get-put_self, get-put_ne, get-map_values, get-empty}
use dc_net_lab.NetIp.{zero_prefix, masked}
use dc_net_lab.GoFmt.{sscanf, insert_int, sort_ints}
use dc_net_lab.Model.{Node, AddressPool, Topology, role_leaf, role_server, pool_server_vlan}
use dc_net_lab.Asn.{AsnRange}
use dc_net_lab.Topology.{
  Builder, get_or, pin, pin_asn, Restoring, new_slot, rack_owner, restore_leaf, restore_loopback,
  restore_role, restore_nodes, restore, new_builder, rack_num_for_slot,
}
use dc_net_lab.Topology.Build.{add_server, add_l2_link}
use dc_net_lab.Topology.Pins.{allocate-ok}
use dc_net_lab.Topology.Leaves.{
  Below, IsLeaf, IsNumbered, SameRacks, higher, highest, pin-SameRacks, pin_asn-SameRacks,
  restore_loopback-SameRacks, restore_links-SameRacks, restore-LeafBelow,
}
use dc_net_lab.Topology.Empty.{new_builder-ok}
use dc_net_lab.Topology.Steps.{
  Step, router, number, rack_subnet, leaves, server, fabric, l2, Steps, here, next,
}
use dc_net_lab.Topology.Keeps.{join-ok}
use dc_net_lab.Topology.Shapes.{add_router-ok, add_leaves-ok, add_link-ok, rack_num_for_slot-cases}

abbrev list_of : Option (List ℤ) → List ℤ
list_of o = elim o [ none ↦ [] | some ns ↦ ns ]

abbrev slots_of : Builder → String → List ℤ
slots_of b pod_id = get_or [] b.rack_slots pod_id

-- No deployed slot has a number above the highest.
abbrev pub Bounded : Builder → Type 0
Bounded b = (pod_id : String) → All (λ m. ltb_ℤ (pos b.max_rack) m ≡ false) (slots_of b pod_id)

moved-Bounded :
    (b c : Builder) → b.rack_slots ≡ c.rack_slots → b.max_rack ≡ c.max_rack → Bounded b → Bounded c
moved-Bounded b c e f h pod_id =
    subst (λ k. All (λ m. ltb_ℤ (pos k) m ≡ false) (slots_of c pod_id)) f
      (subst (λ s. All (λ m. ltb_ℤ (pos b.max_rack) m ≡ false) (get_or [] s pod_id)) e (h pod_id))

new_slot-Bounded :
    (b : Builder) (pod_id owner : String) (num : ℤ)
    → Bounded b
    → Bounded (new_slot b pod_id owner num)
new_slot-Bounded b pod_id owner num h other =
    let P : ℤ → Type 0 =
      λ m. ltb_ℤ (pos (if ltb_ℤ (pos b.max_rack) num then to_nat num else b.max_rack)) m ≡ false in
    let before : (p : String) → All P (slots_of b p) =
      λ p. All-imp (higher b.max_rack num) (slots_of b p) (h p) in
    elim (Bool-cases (pod_id == other)) [
      | inl e ↦
          subst
            (λ p.
              All P (get_or [] (Map.put b.rack_slots pod_id (slots_of b pod_id ++ (num ∷ []))) p))
            ((eq_iff pod_id other).0 e)
            (subst (λ o. All P (list_of o))
              (sym (get-put_self b.rack_slots pod_id pod_id (slots_of b pod_id ++ (num ∷ []))))
              (All-append P (slots_of b pod_id) (num ∷ []) (before pod_id)
                (highest b.max_rack num, tt)))
      | inr e ↦
          subst (λ o. All P (list_of o))
            (sym (
              get-put_ne b.rack_slots pod_id other (slots_of b pod_id ++ (num ∷ []))
                (λ p. cc (e, (eq_iff pod_id other).1 p))))
            (before other)
    ]

same-Bounded : (b c : Builder) → SameRacks b c → Bounded b → Bounded c
same-Bounded b c h k = moved-Bounded b c h.slots h.max k

restore_leaf-Bounded :
    (seen : Map String Bool) (b : Builder) (n : Node) (r : Restoring)
    → restore_leaf (seen, b) n ≡ ok r
    → Bounded b
    → Bounded r.1
unfolding restore_leaf
restore_leaf-Bounded seen b n r h k = elim (Option-cases (sscanf "rack-" n.spec.rack_id)) [
  | inl e ↦ absurd (cc (rw (restore_leaf, e) at h))
  | inr (num, e) ↦
      let owner = rack_owner n.spec.pod_id n.spec.rack_id in
      elim (Bool-cases (get_or false seen owner)) [
        | inl f ↦ subst (λ (s : Restoring). Bounded s.1) (ok-inj (rw (restore_leaf, e, f) at h)) k
        | inr f ↦
            let start = new_slot b n.spec.pod_id owner num in
            let sub = masked n.spec.vlan_ip in
            let (c, g, m) =
              bind-ok (pin start pool_server_vlan owner sub) _ r (rw (restore_leaf, e, f) at h) in
            subst (λ (s : Restoring). Bounded s.1) (ok-inj m)
              (same-Bounded start c (pin-SameRacks start pool_server_vlan owner sub c g)
                (new_slot-Bounded b n.spec.pod_id owner num k))
      ]
]

restore_role-Bounded :
    (seen : Map String Bool) (b : Builder) (n : Node) (r : Restoring)
    → restore_role (seen, b) n ≡ ok r
    → Bounded b
    → Bounded r.1
unfolding restore_role
restore_role-Bounded seen b n r h k = elim (Bool-cases (n.spec.role == role_server)) [
  | inl e ↦ subst (λ (s : Restoring). Bounded s.1) (ok-inj (rw (restore_role, e) at h)) k
  | inr e ↦ elim (Bool-cases (n.spec.role == role_leaf)) [
    | inl f ↦ restore_leaf-Bounded seen b n r (rw (restore_role, e, f) at h) k
    | inr f ↦
        let (c, g, m) =
          bind-ok (pin_asn b n.spec.role n.meta.name n.spec.asn) _ r
            (rw (restore_role, e, f) at h) in
        subst (λ (s : Restoring). Bounded s.1) (ok-inj m)
          (same-Bounded b c (pin_asn-SameRacks b n.spec.role n.meta.name n.spec.asn c g) k)
  ]
]

restore_nodes-Bounded :
    (seen : Map String Bool) (b : Builder) (ns : List Node) (r : Restoring)
    → restore_nodes (seen, b) ns ≡ ok r
    → Bounded b
    → Bounded r.1
unfolding restore_nodes
restore_nodes-Bounded seen b [] r h k = subst (λ (s : Restoring). Bounded s.1) (ok-inj h) k
restore_nodes-Bounded seen b (n ∷ ns) r h k =
    let (c, e, h1) = bind-ok (restore_loopback b n) _ r h in
    let (s, f, m) = bind-ok (restore_role (seen, c) n) _ r h1 in
    restore_nodes-Bounded s.0 s.1 ns r m
      (restore_role-Bounded seen c n s f (same-Bounded b c (restore_loopback-SameRacks b n c e) k))

insert-All : (P : ℤ → Type 0) (n : ℤ) (ms : List ℤ) → P n → All P ms → All P (insert_int n ms)
unfolding insert_int
insert-All P n [] p h = (p, tt)
insert-All P n (m ∷ ms) p h = elim (Bool-cases (ltb_ℤ m n)) [
  | inl e ↦ rw (insert_int, e) (h.0, insert-All P n ms p h.1)
  | inr e ↦ rw (insert_int, e) (p, h)
]

sort-All : (P : ℤ → Type 0) (ns : List ℤ) → All P ns → All P (sort_ints ns)
unfolding sort_ints
sort-All P [] h = tt
sort-All P (n ∷ ns) h = insert-All P n (sort_ints ns) h.0 (sort-All P ns h.1)

sorted-Bounded :
    (b : Builder)
    → Bounded b
    → Bounded (record b { rack_slots = Map.map_values sort_ints b.rack_slots })
unfolding sort_ints
sorted-Bounded b h pod_id =
    let P : ℤ → Type 0 = λ m. ltb_ℤ (pos b.max_rack) m ≡ false in
    let same = get-map_values sort_ints b.rack_slots pod_id in
    elim (Option-cases (Map.get b.rack_slots pod_id)) [
      | inl e ↦ subst (λ o. All P (list_of o)) (sym (same ∙ ap (Option.map sort_ints) e)) tt
      | inr (ns, e) ↦
          subst (λ o. All P (list_of o)) (sym (same ∙ ap (Option.map sort_ints) e))
            (sort-All P ns (subst (λ o. All P (list_of o)) e (h pod_id)))
    ]

restore-Bounded :
    (b : Builder) (base : Topology) (b' : Builder) → restore b base ≡ ok b' → Bounded b → Bounded b'
unfolding restore
restore-Bounded b base b' h k =
    let (s, e, m) = bind-ok (restore_nodes (Map.empty, b) base.nodes) _ b' h in
    same-Bounded _ b' (restore_links-SameRacks _ base.links b' m)
      (sorted-Bounded s.1 (restore_nodes-Bounded Map.empty b base.nodes s e k))

-- Building keeps the deployed slots, and the highest number only grows.
record LaterRacks (b c : Builder) : Type 0 where
  slots : c.rack_slots ≡ b.rack_slots
  max : b.max_rack ≤ c.max_rack

same-LaterRacks :
    (b c : Builder) → c.rack_slots ≡ b.rack_slots → c.max_rack ≡ b.max_rack → LaterRacks b c
same-LaterRacks b c e f = record { slots = e; max = omega arith }

module _ (new_id : String → ℕ → String) where
  Step-LaterRacks : (b c : Builder) → Step new_id b c → LaterRacks b c
  unfolding add_server add_l2_link
  Step-LaterRacks b c (router name role pod_id n t h) =
      let (ps, as', asn, sub, e) = add_router-ok new_id b name role pod_id n c h in
      same-LaterRacks b c (ap (λ (d : Builder). d.rack_slots) e)
        (ap (λ (d : Builder). d.max_rack) e)
  Step-LaterRacks b c (number pod_id slot) = elim (rack_num_for_slot-cases b pod_id slot) [
    | inl (num, e, f) ↦
        same-LaterRacks b c (ap (λ (r : ℤ × Builder). r.1.rack_slots) f)
          (ap (λ (r : ℤ × Builder). r.1.max_rack) f)
    | inr (e, f) ↦
        let up : c.max_rack ≡ b.max_rack + 1 = ap (λ (r : ℤ × Builder). r.1.max_rack) f in
        record { slots = ap (λ (r : ℤ × Builder). r.1.rack_slots) f; max = omega arith }
  ]
  Step-LaterRacks b c (rack_subnet owner sub h) =
      let e = sym (allocate-ok b pool_server_vlan owner sub c h).0 in
      same-LaterRacks b c (ap (λ (d : Builder). d.rack_slots) e)
        (ap (λ (d : Builder). d.max_rack) e)
  Step-LaterRacks b c (leaves r num ns h) =
      let (ps, sub_a, sub_b, e) = add_leaves-ok new_id b r num ns c h in
      same-LaterRacks b c (ap (λ (d : Builder). d.rack_slots) e)
        (ap (λ (d : Builder). d.max_rack) e)
  Step-LaterRacks b c (server name spec) = same-LaterRacks b c refl refl
  Step-LaterRacks b c (fabric a z h) =
      let (ps, sub, e) = add_link-ok new_id b a z c h in
      same-LaterRacks b c (ap (λ (d : Builder). d.rack_slots) e)
        (ap (λ (d : Builder). d.max_rack) e)
  Step-LaterRacks b c (l2 a z kind ne) =
      let e = join-ok new_id b a z kind (pos 1000) zero_prefix zero_prefix in
      same-LaterRacks b c (ap (λ (d : Builder). d.rack_slots) e)
        (ap (λ (d : Builder). d.max_rack) e)

  Steps-LaterRacks : (b c : Builder) → Steps new_id b c → LaterRacks b c
  Steps-LaterRacks b c here = same-LaterRacks b b refl refl
  Steps-LaterRacks b c (next {c = d} h s) =
      let first = Steps-LaterRacks b d h in
      let last = Step-LaterRacks d c s in
      let up : b.max_rack ≤ c.max_rack = omega (arith, first.max, last.max) in
      record { slots = last.slots ∙ first.slots; max = up }

new_number :
    (b : Builder) (pod_id : String) (slot : ℕ)
    → get_elem? (get_or [] b.rack_slots pod_id) (slot - 1) ≡ none
    → ((rack_num_for_slot b pod_id slot).0 ≡ pos (b.max_rack + 1))
      × ((rack_num_for_slot b pod_id slot).1.max_rack ≡ b.max_rack + 1)
new_number b pod_id slot h = elim (rack_num_for_slot-cases b pod_id slot) [
  | inl (num, e, f) ↦ absurd (cc (e, h))
  | inr (e, f) ↦ (ap (λ r. r.0) f, ap (λ (r : ℤ × Builder). r.1.max_rack) f)
]

fresh-ne : (j k : ℕ) → j < k → pos (j + 1) ≢ pos (k + 1)
fresh-ne j k h e = ground (arith, ap to_nat e)

above-ne : (j k : ℕ) (m : ℤ) → j ≤ k → ltb_ℤ (pos j) m ≡ false → m ≢ pos (k + 1)
above-ne j k m h low e = ground (arith, subst (λ n. ltb_ℤ (pos j) n ≡ false) e low)

some-inj : {m k : ℤ} → some m ≡ some k → m ≡ k
some-inj h = cc h

-- Build on a deployed topology in which leaves of one rack show one number, and ask on the way for the numbers of two slots, one
-- after the other, that their pods do not have yet: the two racks get different numbers, and neither is the number in
-- the rack name of a deployed leaf, or of a slot of any pod at the start.
pub new_racks-differ :
    (new_id : String → ℕ → String) (lab_id : String) (pools : List AddressPool)
    (ranges : List AsnRange) (base : Topology) (b c d : Builder) (pod other : String)
    (slot other_slot : ℕ) (number_of : String → ℤ)
    → All (IsNumbered number_of) base.nodes
    → new_builder lab_id pools ranges (some base) ≡ ok b
    → Steps new_id b c
    → get_elem? (get_or [] c.rack_slots pod) (slot - 1) ≡ none
    → Steps new_id (rack_num_for_slot c pod slot).1 d
    → get_elem? (get_or [] d.rack_slots other) (other_slot - 1) ≡ none
    → let first = (rack_num_for_slot c pod slot).0 in
      let second = (rack_num_for_slot d other other_slot).0 in
      (first ≢ second)
      × All
          (λ n.
            IsLeaf n
            → (m : ℤ) → sscanf "rack-" n.spec.rack_id ≡ some m
            → (m ≢ first) × (m ≢ second))
          base.nodes
      × ((any_pod : String)
          → All (λ m. (m ≢ first) × (m ≢ second)) (get_or [] b.rack_slots any_pod))
new_racks-differ new_id lab_id pools ranges base b c d pod other slot other_slot number_of numbered
      made to_c beyond to_d beyond_too =
    let (b0, restored, empty, ps, as', start) = new_builder-ok lab_id pools ranges base b made in
    let nothing : Bounded b0 = subst Bounded (sym start) (λ pod_id.
      subst (λ o. All (λ m. ltb_ℤ (pos 0) m ≡ false) (list_of o)) (sym (get-empty pod_id)) tt) in
    let bounded : Bounded b = restore-Bounded b0 base b restored nothing in
    let at_c = Steps-LaterRacks new_id b c to_c in
    let at_d = Steps-LaterRacks new_id _ d to_d in
    let one = new_number c pod slot beyond in
    let two = new_number d other other_slot beyond_too in
    let up : c.max_rack + 1 ≤ d.max_rack = omega (arith, at_d.max, one.1) in
    let apart : (m : ℤ)
        → Below b m
        → (m ≢ (rack_num_for_slot c pod slot).0) × (m ≢ (rack_num_for_slot d other other_slot).0) =
      λ m low. (
        λ e. above-ne b.max_rack c.max_rack m at_c.max low (e ∙ one.0),
        λ e. above-ne b.max_rack d.max_rack m (omega (arith, at_c.max, up)) low (e ∙ two.0),
      ) in
    (
      λ e. fresh-ne _ _ (omega (arith, up)) (sym one.0 ∙ e ∙ two.0),
      All-imp₂
          (λ n named low leaf m shown.
            apart m (subst (Below b) (some-inj (sym (named leaf) ∙ shown)) (low leaf)))
          base.nodes numbered (restore-LeafBelow number_of b0 base b numbered restored),
      λ any_pod. All-imp apart (get_or [] b.rack_slots any_pod) (bounded any_pod),
    )
