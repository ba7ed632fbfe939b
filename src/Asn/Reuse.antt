-- ===== src/Asn/Reuse.antt =====
-- What single ranges do over several calls: how many ASNs a range serves, reuse of released ones,
-- and the two ways in which an ASN is handed out wrongly.
use dc_net_lab.Prelude.{
  ℕ, zero, suc, ◌+◌, ◌-◌, ◌^◌, ◌≤◌, ◌<◌, ◌≡◌, refl, String, List, [], ◌∷◌, some, arith, length,
  Result, ok, err, ◌>>=◌, nat_eq, eqb, if◌then◌else◌, ap, subst, All,
}
use dc_net_lab.Prelude.Map
use dc_net_lab.Prelude.Map.{get-put, get-delete, Map}
use dc_net_lab.Asn.{
  Error, exhausted, RoleRange, AsnRange, fresh_range, allocate_in, release_in, restore_in, wrap32,
}
use dc_net_lab.Asn.Sound.{IsSound, IsFree, from_next, from_released, release_in-cases}

-- `Allocate` for one owner after the other.
pub allocate_each : RoleRange → List String → Result Error (List ℕ × RoleRange)
allocate_each r [] = ok ([], r)
allocate_each r (owner ∷ owners) = do
  taken ← allocate_in r owner
  others ← allocate_each taken.1 owners
  ok ((taken.0 ∷ others.0), others.1)

abbrev pub count_from : ℕ → ℕ → List ℕ
count_from start zero = []
count_from start (suc n) = start ∷ count_from (start + 1) n

-- the ASNs from `next` on, in order, and a range that goes on behind them up to `last`
abbrev Serves : ℕ → ℕ → ℕ → Result Error (List ℕ × RoleRange) → Type 0
Serves next n last (ok (asns, r)) =
    (asns ≡ count_from next n) × (r.next ≡ next + n) × (r.released ≡ []) × (r.end ≡ last)
Serves next n last (err e) = ⊥

Serves-cons :
    (next n last : ℕ) (res : Result Error (List ℕ × RoleRange))
    → Serves (next + 1) n last res
    → Serves next (suc n) last (res >>= λ others. ok ((next ∷ others.0), others.1))
Serves-cons next n last (ok (asns, r)) h = (ap (λ l. next ∷ l) h.0, omega (arith, h.1), h.2, h.3)
Serves-cons next n last (err e) h = h

allocate_in_next :
    (r : RoleRange) (owner : String)
    → r.released ≡ []
    → r.next ≤ r.end
    → allocate_in r owner ≡ ok (r.next, from_next r owner)
unfolding allocate_in
allocate_in_next r owner e h = ground arith

allocate_each-Serves :
    (r : RoleRange) (owners : List String)
    → r.released ≡ []
    → r.next + length owners ≤ r.end + 1
    → r.end + 1 < 2 ^ 32
    → Serves r.next (length owners) r.end (allocate_each r owners)
unfolding allocate_each
allocate_each-Serves r [] e h w = (refl, omega arith, e, refl)
allocate_each-Serves r (owner ∷ owners) e h w =
    let step : wrap32 (r.next + 1) ≡ r.next + 1 = omega arith in
    let others : Result Error (List ℕ × RoleRange) = allocate_each (from_next r owner) owners in
    rw (allocate_in_next r owner e (omega arith)) (
      Serves-cons r.next (length owners) r.end others (
        subst (λ k. Serves k (length owners) r.end others) step
          (allocate_each-Serves (from_next r owner) owners e (omega arith) w)))

allocate_each_next :
    (res : Result Error (List ℕ × RoleRange)) (next n last : ℕ)
    → Serves next n last res
    → (r : RoleRange) × (res ≡ ok (count_from next n, r))
      × (r.next ≡ next + n)
      × (r.released ≡ [])
      × (r.end ≡ last)
allocate_each_next (ok (asns, r)) next n last h = (r, ap (λ l. ok (l, r)) h.0, h.1, h.2, h.3)
allocate_each_next (err e) next n last h = absurd h

allocate_in_exhausted :
    (r : RoleRange) (owner : String)
    → r.released ≡ []
    → r.next ≡ r.end + 1
    → allocate_in r owner ≡ err exhausted
unfolding allocate_in
allocate_in_exhausted r owner e h = ground arith

-- A fresh range whose end is below 2^32 - 1 serves every number of owners up to its size, with the
-- ASNs from its start on, in order; and once it has served its size, the next `Allocate` fails.
pub allocate_each-fresh_range :
    (g : AsnRange) (owners : List String)
    → g.start + length owners ≤ g.end + 1
    → g.end + 1 < 2 ^ 32
    → (r : RoleRange) × (allocate_each (fresh_range g) owners
        ≡ ok (count_from g.start (length owners), r))
      × (g.start + length owners ≡ g.end + 1
          → (owner : String) → allocate_in r owner ≡ err exhausted)
unfolding fresh_range
allocate_each-fresh_range g owners h w =
    let (r, e, n, f, l) =
      allocate_each_next (allocate_each (fresh_range g) owners) g.start (length owners) g.end
        (allocate_each-Serves (fresh_range g) owners refl h w) in
    (r, e, λ full owner. allocate_in_exhausted r owner f (omega arith))

-- A released ASN is the next one that `Allocate` hands out. After both calls only its holder has
-- changed: the released list, the next ASN and what every other owner holds are as before.
pub release_in-allocate_in :
    (r r' : RoleRange) (asn : ℕ) (owner : String)
    → release_in r asn ≡ ok r'
    → (r'' : RoleRange) × (allocate_in r' owner ≡ ok (asn, r''))
      × (r''.released ≡ r.released)
      × (r''.next ≡ r.next)
      × ((a : ℕ)
          → Map.get r''.allocated a ≡ (if eqb asn a then some owner else Map.get r.allocated a))
unfolding allocate_in
release_in-allocate_in r r' asn owner done =
    let (o, e, e') = release_in-cases r r' asn done in
    (
      from_released r' owner asn r.released,
      ground arith,
      refl,
      ground arith,
      λ a. ground (arith, get-put r'.allocated asn a owner, get-delete r.allocated asn a),
    )

-- `Restore` does not look at the released ASNs: after it has given the one released last to an owner,
-- the next `Allocate` gives it to another one as well.
pub restore_in_released :
    (r : RoleRange) (asn : ℕ) (rest : List ℕ) (owner other : String)
    → IsSound r
    → r.released ≡ asn ∷ rest
    → (r' r'' : RoleRange) × (restore_in r asn owner ≡ ok r')
      × (Map.get r'.allocated asn ≡ some owner)
      × (allocate_in r' other ≡ ok (asn, r''))
      × (Map.get r''.allocated asn ≡ some other)
unfolding restore_in allocate_in
restore_in_released r asn rest owner other s e =
    let f : All (IsFree r) (asn ∷ rest) = subst (All (IsFree r)) e s.free in
    let r' : RoleRange = record r { allocated = Map.put r.allocated asn owner } in
    (
      r',
      from_released r' other asn rest,
      ground (arith, f.0, s.to_end),
      ground (arith, get-put r.allocated asn asn owner),
      ground arith,
      ground (arith, get-put r'.allocated asn asn other),
    )

-- A range that ends at 2^32 - 1 does not run out: after its last ASN the counter wraps, and the next
-- `Allocate` hands out 0.
pub allocate_each_wraps :
    (r : RoleRange) (owner other : String)
    → r.released ≡ []
    → r.next ≡ 2 ^ 32 - 1
    → r.end ≡ 2 ^ 32 - 1
    → (r' : RoleRange) × (allocate_each r (owner ∷ other ∷ []) ≡ ok ((2 ^ 32 - 1) ∷ 0 ∷ [], r'))
unfolding allocate_each allocate_in
allocate_each_wraps r owner other e n m = (from_next (from_next r owner) other, ground arith)
