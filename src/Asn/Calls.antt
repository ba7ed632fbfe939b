-- ===== src/Asn/Calls.antt =====
-- The allocator over the life of a lab: `New`, then any calls of `Allocate`, `Release` and `Restore`.
use dc_net_lab.Prelude.{
  ℕ, ◌+◌, ◌^◌, ◌<◌, ◌≡◌, ◌≢◌, subst, sym, String, List, [], ◌∷◌, none, some, arith, All, ltb,
  ltb→ge, if◌then◌else◌, ◌==◌, ◌&&◌, ok, nat_eq, string_eq, eq_iff, Bool-cases, Option-cases, inl,
  inr, Result-cases,
}
use dc_net_lab.Prelude.Map
use dc_net_lab.Prelude.Map.{Map, get-put, get-empty}
use dc_net_lab.Asn.{
  Allocator, RoleRange, AsnRange, fresh_range, add_ranges, new, allocate_in, release_in, restore_in,
  allocate, release, restore, owner_of,
}
use dc_net_lab.Asn.Sound.{
  IsSound, fresh_range-IsSound, allocate_in-fresh, allocate_in-IsSound, release_in-IsSound,
  restore_in-IsSound,
}

abbrev pub AllSound : Allocator → Type 0
AllSound a = (role : String) (r : RoleRange) → Map.get a role ≡ some r → IsSound r

-- One call of `Allocate`, `Release` or `Restore` that succeeds.
pub data Call : Allocator → Allocator → Type 0 where
  allocates :
      {a a' : Allocator} (role owner : String) (asn : ℕ)
      → allocate a role owner ≡ ok (asn, a')
      → Call a a'
  releases : {a a' : Allocator} (role : String) (asn : ℕ) → release a role asn ≡ ok a' → Call a a'
  restores :
      {a a' : Allocator} (role : String) (asn : ℕ) (owner : String)
      → restore a role asn owner ≡ ok a'
      → Call a a'

pub data Reach (a : Allocator) : Allocator → Type 0 where
  here : Reach a a
  next : {b c : Allocator} → Reach a b → Call b c → Reach a c

-- A `Restore` of an ASN that is not in the released list.
abbrev pub IsTidy : {a a' : Allocator} → Call a a' → Type 0
IsTidy (allocates role owner asn done) = Unit
IsTidy (releases role asn done) = Unit
IsTidy {a} (restores role asn owner done) =
    (r : RoleRange) → Map.get a role ≡ some r → All (λ b. b ≢ asn) r.released

abbrev pub AllTidy : {a b : Allocator} → Reach a b → Type 0
AllTidy here = Unit
AllTidy (next h c) = AllTidy h × IsTidy c

put-AllSound :
    (a : Allocator) (role : String) (r : RoleRange)
    → AllSound a
    → IsSound r
    → AllSound (Map.put a role r)
put-AllSound a role r s h role' r' e = elim (Bool-cases (role == role')) [
  | inl same ↦ subst IsSound (ground (arith, get-put a role role' r)) h
  | inr other ↦ s role' r' (ground (arith, get-put a role role' r))
]

add_ranges-AllSound :
    (a a' : Allocator) (ranges : List AsnRange)
    → All (λ (g : AsnRange). g.end + 1 < 2 ^ 32) ranges
    → AllSound a
    → add_ranges a ranges ≡ ok a'
    → AllSound a'
unfolding add_ranges
add_ranges-AllSound a a' [] w s e = subst AllSound (ground arith) s
add_ranges-AllSound a a' (g ∷ gs) w s e = elim (Bool-cases (ltb g.end g.start)) [
  | inl bad ↦ absurd (ground arith)
  | inr good ↦
      add_ranges-AllSound (Map.put a g.role (fresh_range g)) a' gs w.1
        (put-AllSound a g.role (fresh_range g) s (fresh_range-IsSound g (ltb→ge _ _ good) w.0))
        (ground arith)
]

pub allocate-cases :
    (a a' : Allocator) (role owner : String) (asn : ℕ)
    → allocate a role owner ≡ ok (asn, a')
    → (r r' : RoleRange) × (Map.get a role ≡ some r)
      × (allocate_in r owner ≡ ok (asn, r'))
      × (a' ≡ Map.put a role r')
unfolding allocate
allocate-cases a a' role owner asn done = elim (Option-cases (Map.get a role)) [
  | inl e ↦ absurd (ground arith)
  | inr (r, e) ↦ elim (Result-cases (allocate_in r owner)) [
    | inl (t, e') ↦ (r, t.1, e, ground arith, ground arith)
    | inr (x, e') ↦ absurd (ground arith)
  ]
]

release-cases :
    (a a' : Allocator) (role : String) (asn : ℕ)
    → release a role asn ≡ ok a'
    → (r r' : RoleRange) × (Map.get a role ≡ some r)
      × (release_in r asn ≡ ok r')
      × (a' ≡ Map.put a role r')
unfolding release
release-cases a a' role asn done = elim (Option-cases (Map.get a role)) [
  | inl e ↦ absurd (ground arith)
  | inr (r, e) ↦ elim (Result-cases (release_in r asn)) [
    | inl (r', e') ↦ (r, r', e, ground arith, ground arith)
    | inr (x, e') ↦ absurd (ground arith)
  ]
]

restore-cases :
    (a a' : Allocator) (role : String) (asn : ℕ) (owner : String)
    → restore a role asn owner ≡ ok a'
    → (r r' : RoleRange) × (Map.get a role ≡ some r)
      × (restore_in r asn owner ≡ ok r')
      × (a' ≡ Map.put a role r')
unfolding restore
restore-cases a a' role asn owner done = elim (Option-cases (Map.get a role)) [
  | inl e ↦ absurd (ground arith)
  | inr (r, e) ↦ elim (Result-cases (restore_in r asn owner)) [
    | inl (r', e') ↦ (r, r', e, ground arith, ground arith)
    | inr (x, e') ↦ absurd (ground arith)
  ]
]

Call-AllSound : {a a' : Allocator} (c : Call a a') → IsTidy c → AllSound a → AllSound a'
Call-AllSound {a} {a'} (allocates role owner asn done) t s =
    let (r, r', e, e', p) = allocate-cases a a' role owner asn done in
    subst AllSound (sym p) (put-AllSound a role r' s (allocate_in-IsSound (s role r e) owner e'))
Call-AllSound {a} {a'} (releases role asn done) t s =
    let (r, r', e, e', p) = release-cases a a' role asn done in
    subst AllSound (sym p) (put-AllSound a role r' s (release_in-IsSound (s role r e) asn e'))
Call-AllSound {a} {a'} (restores role asn owner done) unreleased s =
    let (r, r', e, e', p) = restore-cases a a' role asn owner done in
    subst AllSound (sym p)
      (put-AllSound a role r' s (restore_in-IsSound (s role r e) asn owner (unreleased r e) e'))

Reach-AllSound : {a b : Allocator} (h : Reach a b) → AllTidy h → AllSound a → AllSound b
Reach-AllSound here t s = s
Reach-AllSound (next h c) t s = Call-AllSound c t.1 (Reach-AllSound h t.0 s)

-- From any declared ranges whose ends are below 2^32 - 1, after any calls of `Allocate` and `Release` and after calls of
-- `Restore` for ASNs that are not in the released list, every role's range is sound:
-- its counter lies between start and end + 1, every ASN that is held lies in its used part, and
-- the released ASNs are distinct, lie in its used part and are held by nobody.
pub new-AllSound :
    (ranges : List AsnRange) (a b : Allocator)
    → All (λ (g : AsnRange). g.end + 1 < 2 ^ 32) ranges
    → new ranges ≡ ok a
    → (h : Reach a b) → AllTidy h
    → AllSound b
unfolding new
new-AllSound ranges a b w e h t =
    Reach-AllSound h t
      (add_ranges-AllSound Map.empty a ranges w (λ role r p. cc (get-empty {V = RoleRange} role)) e)

-- From any declared ranges whose ends are below 2^32 - 1, after any calls of `Allocate` and `Release` and after calls of
-- `Restore` for ASNs that are not in the released list, the ASN that `Allocate` hands out for a role was held by nobody in that role; then its owner
-- holds it, and every other holding, in every role, is as it was.
pub allocate-owner_of :
    (ranges : List AsnRange) (a b c : Allocator) (role owner : String) (asn : ℕ)
    → All (λ (g : AsnRange). g.end + 1 < 2 ^ 32) ranges
    → new ranges ≡ ok a
    → (h : Reach a b) → AllTidy h
    → allocate b role owner ≡ ok (asn, c)
    → (owner_of b role asn ≡ none)
      × ((role' : String) (x : ℕ)
          → owner_of c role' x
            ≡ (if (role == role') && (asn == x) then some owner else owner_of b role' x))
unfolding owner_of
allocate-owner_of ranges a b c role owner asn w e h tidy done =
    let (r, r', p, q, t) = allocate-cases b c role owner asn done in
    let s : IsSound r = new-AllSound ranges a b w e h tidy role r p in
    let f = allocate_in-fresh s owner q in
    (
      ground (arith, f.2),
      λ role' x. ground (
        arith,
        get-put b role role' r',
        get-put r.allocated asn x owner,
        f.3,
        t,
        eq_iff role role',
      ),
    )
