-- ===== src/Topology/Pins.antt =====
-- controller/internal/topology/builder.go: what `pin`, `pinASN`, `allocate` and `allocateASN` do to the maps of pins.
use dc_net_lab.Prelude.{
  ◌≡◌, ◌≢◌, inl, inr, sym, ap, subst, ◌∙◌, ℕ, String, true, Option, none, some, Result-cases, ok,
  ok-inj, Option-cases, ◌==◌, string_eq, eq_iff, Bool-cases,
}
use dc_net_lab.Prelude.Map
use dc_net_lab.Prelude.Map.{Map, get-put_self, get-put_ne, get-empty}
use dc_net_lab.NetIp.{Prefix}
use dc_net_lab.Asn
use dc_net_lab.Ipam
use dc_net_lab.Ipam.{Pool}
use dc_net_lab.Topology.{
  Builder, get_or, get2, put2, pin, pin_asn, allocate, allocate_asn, owner_key, asn_pool,
}

module _ {ℓ} {V : Type ℓ} where
  abbrev pub inner_of : Option (Map String V) → Map String V
  inner_of o = elim o [ none ↦ Map.empty | some w ↦ w ]

  pub get2-put2_self :
      (m : Map String (Map String V)) (k j : String) (v : V) → get2 (put2 m k j v) k j ≡ some v
  get2-put2_self m k j v =
      ap (λ o. Map.get (inner_of o) j) (get-put_self m k k (Map.put (get_or Map.empty m k) j v))
      ∙ get-put_self (get_or Map.empty m k) j j v

  pub get2-put2_ne :
      (m : Map String (Map String V)) (k j k' j' : String) (v : V)
      → j ≢ j'
      → get2 (put2 m k j v) k' j' ≡ get2 m k' j'
  get2-put2_ne m k j k' j' v h =
      let inner = get_or Map.empty m k in
      elim (Bool-cases (k == k')) [
        | inl e ↦
            let same : k ≡ k' = (eq_iff k k').0 e in
            subst (λ q. get2 (put2 m k j v) q j' ≡ get2 m q j') same
              (ap (λ o. Map.get (inner_of o) j') (get-put_self m k k (Map.put inner j v))
                ∙ get-put_ne inner j j' v h)
        | inr e ↦
            let other : k ≢ k' = λ p. cc (e, (eq_iff k k').1 p) in
            ap (λ o. Map.get (inner_of o) j') (get-put_ne m k k' (Map.put inner j v) other)
      ]

  pub get2-put2_other :
      (m : Map String (Map String V)) (k j k' j' : String) (v : V)
      → k ≢ k'
      → get2 (put2 m k j v) k' j' ≡ get2 m k' j'
  get2-put2_other m k j k' j' v h =
      ap (λ o. Map.get (inner_of o) j') (get-put_ne m k k' (Map.put (get_or Map.empty m k) j v) h)

pub pin-ok :
    (b : Builder) (pool owner : String) (sub : Prefix) (b' : Builder)
    → pin b pool owner sub ≡ ok b'
    → (p p' : Pool) × (Map.get b.pools pool ≡ some p)
      × (Ipam.restore p sub owner ≡ ok p')
      × (record b {
        pools = Map.put b.pools pool p';
        pinned_sub = put2 b.pinned_sub pool owner sub;
        base_owners = Map.put b.base_owners (owner_key pool owner) true;
      }
          ≡ b')
unfolding pin
pin-ok b pool owner sub b' h = elim (Option-cases (Map.get b.pools pool)) [
  | inl e ↦ absurd (cc (rw (pin, e) at h))
  | inr (p, e) ↦ elim (Result-cases (Ipam.restore p sub owner)) [
    | inr (x, f) ↦ absurd (cc (rw (pin, e, f) at h))
    | inl (p', f) ↦ (p, p', e, f, ok-inj (rw (pin, e, f) at h))
  ]
]

pub pin_asn-ok :
    (b : Builder) (role owner : String) (val : ℕ) (b' : Builder)
    → pin_asn b role owner val ≡ ok b'
    → (a : Asn.Allocator) × (record b {
      asns = a;
      pinned_asn = put2 b.pinned_asn role owner val;
      base_owners = Map.put b.base_owners (owner_key (asn_pool role) owner) true;
    }
        ≡ b')
unfolding pin_asn
pin_asn-ok b role owner val b' h = elim (Result-cases (Asn.restore b.asns role val owner)) [
  | inr (x, f) ↦ absurd (cc (rw (pin_asn, f) at h))
  | inl (a, f) ↦ (a, ok-inj (rw (pin_asn, f) at h))
]

-- an allocation leaves all but the pools, and gives what is pinned
pub allocate-ok :
    (b : Builder) (pool owner : String) (sub : Prefix) (b' : Builder)
    → allocate b pool owner ≡ ok (sub, b')
    → (record b { pools = b'.pools } ≡ b')
      × ((q : Prefix) → get2 b.pinned_sub pool owner ≡ some q → sub ≡ q)
unfolding allocate
allocate-ok b pool owner sub b' h = elim (Option-cases (get2 b.pinned_sub pool owner)) [
  | inr (q, e) ↦
      let k = ok-inj (rw (allocate, e) at h) in
      (
        ap (λ r. record b { pools = r.1.pools }) (sym k) ∙ ap (λ r. r.1) k,
        λ p f. cc (ap (λ r. r.0) k, e, f),
      )
  | inl e ↦ elim (Option-cases (Map.get b.pools pool)) [
    | inl f ↦ absurd (cc (rw (allocate, e, f) at h))
    | inr (p, f) ↦ elim (Result-cases (Ipam.allocate p owner)) [
      | inr (x, g) ↦ absurd (cc (rw (allocate, e, f, g) at h))
      | inl ((s, p'), g) ↦
          let k = ok-inj (rw (allocate, e, f, g) at h) in
          (
            ap (λ r. record b { pools = r.1.pools }) (sym k) ∙ ap (λ r. r.1) k,
            λ q i. absurd (cc (e, i)),
          )
    ]
  ]
]

pub allocate_asn-ok :
    (b : Builder) (role owner : String) (val : ℕ) (b' : Builder)
    → allocate_asn b role owner ≡ ok (val, b')
    → (record b { asns = b'.asns } ≡ b')
      × ((v : ℕ) → get2 b.pinned_asn role owner ≡ some v → val ≡ v)
unfolding allocate_asn
allocate_asn-ok b role owner val b' h = elim (Option-cases (get2 b.pinned_asn role owner)) [
  | inr (q, e) ↦
      let k = ok-inj (rw (allocate_asn, e) at h) in
      (
        ap (λ r. record b { asns = r.1.asns }) (sym k) ∙ ap (λ r. r.1) k,
        λ p f. cc (ap (λ r. r.0) k, e, f),
      )
  | inl e ↦ elim (Result-cases (Asn.allocate b.asns role owner)) [
    | inr (x, g) ↦ absurd (cc (rw (allocate_asn, e, g) at h))
    | inl ((s, a), g) ↦
        let k = ok-inj (rw (allocate_asn, e, g) at h) in
        (
          ap (λ r. record b { asns = r.1.asns }) (sym k) ∙ ap (λ r. r.1) k,
          λ q i. absurd (cc (e, i)),
        )
  ]
]
