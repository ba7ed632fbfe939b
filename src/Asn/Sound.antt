-- ===== src/Asn/Sound.antt =====
-- What a role's range keeps between calls, and what the calls do to it.
use dc_net_lab.Prelude.{
  ℕ, ◌+◌, ◌^◌, ◌≤◌, ◌<◌, ◌≡◌, ◌≢◌, String, List, [], ◌∷◌, none, some, arith, All, Distinct, All-imp,
  All-imp₂, Option-cases, subst, sym, ap, ◌⊎◌, inl, inr, leb, if◌then◌else◌, ok, nat_eq,
}
use dc_net_lab.Prelude.Map
use dc_net_lab.Prelude.Map.{Map, map_laws, get-put, get-delete}
use dc_net_lab.Asn.{wrap32, RoleRange, AsnRange, fresh_range, allocate_in, release_in, restore_in}

-- A released ASN lies in the used part of the range, and nobody holds it.
abbrev pub IsFree : RoleRange → ℕ → Type 0
IsFree r a = (r.start ≤ a) × (a < r.next) × (Map.get r.allocated a ≡ none)

pub record IsSound (r : RoleRange) : Type 0 where
  pub from_start : r.start ≤ r.next
  pub to_end : r.next ≤ r.end + 1
  pub no_wrap : r.end + 1 < 2 ^ 32
  pub held : (a : ℕ) (o : String) → Map.get r.allocated a ≡ some o → (r.start ≤ a) × (a < r.next)
  pub free : All (IsFree r) r.released
  pub distinct : Distinct r.released

pub fresh_range-IsSound :
    (r : AsnRange) → r.start ≤ r.end → r.end + 1 < 2 ^ 32 → IsSound (fresh_range r)
unfolding fresh_range
fresh_range-IsSound r h w = record {
  from_start = omega arith;
  to_end = omega arith;
  no_wrap = w;
  held = λ a o e. cc (Map.get-empty {V = String} a);
  free = tt;
  distinct = tt;
}

-- The two ways in which `Allocate` finds an ASN.
abbrev pub from_released : RoleRange → String → ℕ → List ℕ → RoleRange
from_released r owner asn rest = record r {
  released = rest;
  allocated = Map.put r.allocated asn owner;
}

abbrev pub from_next : RoleRange → String → RoleRange
from_next r owner = record r {
  next = wrap32 (r.next + 1);
  allocated = Map.put r.allocated r.next owner;
}

pub allocate_in-cases :
    (r r' : RoleRange) (owner : String) (asn : ℕ)
    → allocate_in r owner ≡ ok (asn, r')
    → ((rest : List ℕ) × (r.released ≡ asn ∷ rest) × (r' ≡ from_released r owner asn rest))
      ⊎ ((r.released ≡ []) × (r.next ≤ r.end) × (asn ≡ r.next) × (r' ≡ from_next r owner))
unfolding allocate_in
allocate_in-cases r r' owner asn done = ground arith

pub release_in-cases :
    (r r' : RoleRange) (asn : ℕ)
    → release_in r asn ≡ ok r'
    → (o : String) × (Map.get r.allocated asn ≡ some o)
      × (r' ≡ record r { allocated = Map.delete r.allocated asn; released = asn ∷ r.released })
unfolding release_in
release_in-cases r r' asn done = ground arith

pub restore_in-cases :
    (r r' : RoleRange) (asn : ℕ) (owner : String)
    → restore_in r asn owner ≡ ok r'
    → (r.start ≤ asn)
      × (asn ≤ r.end)
      × (Map.get r.allocated asn ≡ none)
      × (r' ≡ record r {
        allocated = Map.put r.allocated asn owner;
        next = if leb r.next asn then wrap32 (asn + 1) else r.next;
      })
unfolding restore_in
restore_in-cases r r' asn owner done = ground arith

module _ {r : RoleRange} (s : IsSound r) where
  open s use {from_start, to_end, no_wrap, held, free, distinct}

  unheld : (a : ℕ) → r.next ≤ a → Map.get r.allocated a ≡ none
  unheld a le = elim (Option-cases (Map.get r.allocated a)) [
    | inl e ↦ e
    | inr (o, e) ↦ absurd (omega (arith, (held a o e).1))
  ]

  from_released-IsSound :
      (owner : String) (asn : ℕ) (rest : List ℕ)
      → All (IsFree r) (asn ∷ rest)
      → Distinct (asn ∷ rest)
      → IsSound (from_released r owner asn rest)
  from_released-IsSound owner asn rest f d = record {
    from_start = from_start;
    to_end = to_end;
    no_wrap = no_wrap;
    held = λ a o e. ground (arith, get-put r.allocated asn a owner, held a o);
    free =
        All-imp₂ (λ a ne h. (h.0, h.1, ground (arith, get-put r.allocated asn a owner, ne))) rest
          d.0 f.1;
    distinct = d.1;
  }

  from_next-IsSound : (owner : String) → r.next ≤ r.end → IsSound (from_next r owner)
  from_next-IsSound owner le = record {
    from_start = omega arith;
    to_end = omega arith;
    no_wrap = no_wrap;
    held = λ a o e. ground (arith, get-put r.allocated r.next a owner, held a o);
    free =
        All-imp (λ a h. (h.0, omega arith, ground (arith, get-put r.allocated r.next a owner)))
          r.released free;
    distinct = distinct;
  }

  module _ (owner : String) {asn : ℕ} {r' : RoleRange}
      (done : allocate_in r owner ≡ ok (asn, r')) where
    -- The ASN that `Allocate` hands out lies in the range and was free, and is the only holding that changes.
    pub allocate_in-fresh :
        (r.start ≤ asn)
        × (asn ≤ r.end)
        × (Map.get r.allocated asn ≡ none)
        × (r'.allocated ≡ Map.put r.allocated asn owner)
    allocate_in-fresh = elim (allocate_in-cases r r' owner asn done) [
      | inl (rest, e, e') ↦
          let f : All (IsFree r) (asn ∷ rest) = subst (All (IsFree r)) e free in
          (f.0.0, omega arith, f.0.2, ap (λ (t : RoleRange). t.allocated) e')
      | inr (_, le, e, e') ↦ (omega arith, omega arith, unheld asn (omega arith), ground arith)
    ]

    pub allocate_in-IsSound : IsSound r'
    allocate_in-IsSound = elim (allocate_in-cases r r' owner asn done) [
      | inl (rest, e, e') ↦ subst IsSound (sym e') (
          from_released-IsSound owner asn rest (subst (All (IsFree r)) e free)
            (subst Distinct e distinct))
      | inr (_, le, _, e') ↦ subst IsSound (sym e') (from_next-IsSound owner le)
    ]

  pub release_in-IsSound : (asn : ℕ) {r' : RoleRange} → release_in r asn ≡ ok r' → IsSound r'
  release_in-IsSound asn {r'} done =
      let (o, e, e') = release_in-cases r r' asn done in
      subst IsSound (sym e') (record {
        from_start = from_start;
        to_end = to_end;
        no_wrap = no_wrap;
        held = λ a o' p. ground (arith, get-delete r.allocated asn a, held a o');
        free = (
          ((held asn o e).0, (held asn o e).1, ground (arith, get-delete r.allocated asn asn)),
          All-imp (λ a h. (h.0, h.1, ground (arith, get-delete r.allocated asn a, h.2))) r.released
              free,
        );
        distinct = (
          All-imp (λ a h. (λ q. cc (ap (Map.get r.allocated) q, e, h.2))) r.released free,
          distinct,
        );
      })

  pub restore_in-IsSound :
      (asn : ℕ) (owner : String) {r' : RoleRange}
      → All (λ a. a ≢ asn) r.released
      → restore_in r asn owner ≡ ok r'
      → IsSound r'
  restore_in-IsSound asn owner {r'} unreleased done =
      let (lo, hi, e, e') = restore_in-cases r r' asn owner done in
      subst IsSound (sym e') (record {
        from_start = ground arith;
        to_end = ground arith;
        no_wrap = no_wrap;
        held = λ a o p. ground (arith, get-put r.allocated asn a owner, held a o);
        free =
            All-imp₂
              (λ a ne h. (
                h.0,
                ground (arith, h.1),
                ground (arith, get-put r.allocated asn a owner, h.2, ne),
              ))
              r.released unreleased free;
        distinct = distinct;
      })
