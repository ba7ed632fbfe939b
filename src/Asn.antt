-- ===== src/Asn.antt =====
-- controller/internal/allocator/asn/asn.go: the per-role ASN allocator. A role is the string that
-- `model.NodeRole` is. The mutex makes each call one step.
pub mod Sound
pub mod Reuse
pub mod Calls
mod Examples
use dc_net_lab.Prelude.{
  ℕ, ◌+◌, ◌%◌, ◌^◌, String, List, [], ◌∷◌, Option, none, some, Bool, ◌||◌, ltb, leb, if◌then◌else◌,
  Result, ok, err, ◌>>=◌, ◌>>◌, fail_if, nat_eq, string_eq,
}
use dc_net_lab.Prelude.Map
use dc_net_lab.Prelude.Map.{Map}

pub data Error : Type 0 where
  no_range exhausted bad_range declared_twice not_allocated out_of_range : Error
  already_allocated : String → Error

pub record AsnRange : Type 0 where
  pub role : String
  pub start : ℕ
  pub end : ℕ

-- The head of `released` is the end of the source's slice.
pub record RoleRange : Type 0 where
  pub start : ℕ
  pub end : ℕ
  pub next : ℕ
  pub allocated : Map ℕ String
  pub released : List ℕ

abbrev pub Allocator : Type 0
Allocator = Map String RoleRange

-- uint32
abbrev pub wrap32 : ℕ → ℕ
wrap32 n = n % 2 ^ 32

unfoldable pub fresh_range : AsnRange → RoleRange
fresh_range r = record {
  start = r.start;
  end = r.end;
  next = r.start;
  allocated = Map.empty;
  released = [];
}

unfoldable pub add_ranges : Allocator → List AsnRange → Result Error Allocator
add_ranges a [] = ok a
add_ranges a (r ∷ rs) =
    let rest = add_ranges (Map.put a r.role (fresh_range r)) rs in
    if ltb r.end r.start
    then err bad_range
    else elim (Map.get a r.role) [ some _ ↦ err declared_twice | none ↦ rest ]

unfoldable pub new : List AsnRange → Result Error Allocator
unfolding add_ranges
new ranges = add_ranges Map.empty ranges

-- The part of `Allocate` below the lookup of the role's range, and so for the two calls after it.
unfoldable pub allocate_in : RoleRange → String → Result Error (ℕ × RoleRange)
allocate_in r owner = elim r.released [
  | asn ∷ rest ↦ ok (asn, record r { released = rest; allocated = Map.put r.allocated asn owner })
  | [] ↦
      if ltb r.end r.next
      then err exhausted
      else ok (
        r.next,
        record r { next = wrap32 (r.next + 1); allocated = Map.put r.allocated r.next owner },
      )
]

pub release_in : RoleRange → ℕ → Result Error RoleRange
release_in r asn = elim (Map.get r.allocated asn) [
  | none ↦ err not_allocated
  | some _ ↦ ok (record r { allocated = Map.delete r.allocated asn; released = asn ∷ r.released })
]

unfoldable pub restore_in : RoleRange → ℕ → String → Result Error RoleRange
restore_in r asn owner =
    if ltb asn r.start || ltb r.end asn then err out_of_range else elim (Map.get r.allocated asn) [
      | some prev ↦ err (already_allocated prev)
      | none ↦ ok (record r {
        allocated = Map.put r.allocated asn owner;
        next = if leb r.next asn then wrap32 (asn + 1) else r.next;
      })
    ]

unfoldable pub find_range : Allocator → String → Result Error RoleRange
find_range a role = elim (Map.get a role) [ none ↦ err no_range | some r ↦ ok r ]

-- An error leaves the allocator as it was.
unfoldable pub allocate : Allocator → String → String → Result Error (ℕ × Allocator)
unfolding find_range
allocate a role owner = do
  r ← find_range a role
  taken ← allocate_in r owner
  ok (taken.0, Map.put a role taken.1)

pub release : Allocator → String → ℕ → Result Error Allocator
unfolding find_range
release a role asn = do r ← find_range a role; r' ← release_in r asn; ok (Map.put a role r')

unfoldable pub restore : Allocator → String → ℕ → String → Result Error Allocator
unfolding find_range
restore a role asn owner = do
  r ← find_range a role
  r' ← restore_in r asn owner
  ok (Map.put a role r')

-- The ASNs that are held in a role, with their owners.
pub owner_of : Allocator → String → ℕ → Option String
owner_of a role asn = elim (Map.get a role) [ none ↦ none | some r ↦ Map.get r.allocated asn ]
