-- ===== src/Lab.antt =====
-- controller/internal/biz/lab.go: the checks of a fabric's shape and the names of its pods. The set `used` is a list.
pub mod Free
pub mod Names
mod Examples
use dc_net_lab.Prelude.{
  ℕ, zero, suc, ◌+◌, String, List, [], ◌∷◌, Bool, true, false, not, ◌&&◌, ◌||◌, Option, none, some,
  ltb, eqb, length, if◌then◌else◌, Result, ok, err, ◌>>=◌, fail_if, ◌==◌, string_eq,
}
use dc_net_lab.GoFmt.{show}
use dc_net_lab.Model.{◌+s+◌, PodSpec, TopologySpec}

-- `out_of_fuel` stands for a search that goes on.
pub data Error : Type 0 where
  missing_tier no_pods : Error
  empty_pod too_many_servers : ℕ → Error
  used_twice : String → Error
  out_of_fuel : Error

-- the loop of `validateTopologySpec` over the pods, from the i-th on
unfoldable pub validate_pods : ℕ → List PodSpec → Result Error (Unit {0})
validate_pods i [] = ok tt
validate_pods i (p ∷ ps) =
    let rest = validate_pods (i + 1) ps in
    if ltb p.spines 1 || ltb p.racks 1 || ltb p.servers_per_rack 1
    then err (empty_pod i)
    else if ltb 200 p.servers_per_rack
    then err (too_many_servers i)
    else rest

-- `validateTopologySpec`
pub validate_topology_spec : TopologySpec → Result Error (Unit {0})
validate_topology_spec t =
    if ltb t.external_routers 1 || ltb t.dc_edges 1 || ltb t.super_spines 1
    then err missing_tier
    else if eqb (length t.pods) 0
    then err no_pods
    else validate_pods 1 t.pods

-- used[name]
unfoldable pub is_used : List String → String → Bool
is_used [] x = false
is_used (y ∷ ys) x = let rest = is_used ys x in y == x || rest

-- the first loop of `fillPodNames`
unfoldable pub used_names : List String → List PodSpec → Result Error (List String)
used_names used [] = ok used
used_names used (p ∷ ps) =
    let skipped = used_names used ps in
    let rest = used_names (p.name ∷ used) ps in
    if p.name == "" then skipped else if is_used used p.name then err (used_twice p.name) else rest

abbrev pub head_name : List PodSpec → String
head_name [] = ""
head_name (p ∷ ps) = p.name

abbrev pub tail_of : List PodSpec → List PodSpec
tail_of [] = []
tail_of (p ∷ ps) = ps

-- the second loop, along the previous pods
unfoldable pub reclaim : List String → List PodSpec → List PodSpec → List String × List PodSpec
reclaim used prev [] = (used, [])
reclaim used prev (p ∷ ps) =
    let name = head_name prev in
    let kept = reclaim used (tail_of prev) ps in
    let taken = reclaim (name ∷ used) (tail_of prev) ps in
    if p.name == "" && (not (name == "") && not (is_used used name))
    then (taken.0, record p { name = name } ∷ taken.1)
    else (kept.0, p ∷ kept.1)

abbrev pub default_name : ℕ → String
default_name n = "pod-" +s+ show n

-- for used[fmt.Sprintf("pod-%d", next)] { next++ }
unfoldable pub next_free : ℕ → List String → ℕ → Option ℕ
next_free zero used next = none
next_free (suc fuel) used next =
    let rest = next_free fuel used (next + 1) in
    if is_used used (default_name next) then rest else some next

-- The third loop. More names than there are in `used` are not tried.
unfoldable pub fill_rest : List String → ℕ → List PodSpec → Result Error (List PodSpec)
fill_rest used next [] = ok []
fill_rest used next (p ∷ ps) =
    if not (p.name == "")
    then (fill_rest used next ps >>= λ rest. ok (p ∷ rest))
    else elim (next_free (suc (length used)) used next) [
      | none ↦ err out_of_fuel
      | some n ↦ fill_rest (default_name n ∷ used) n ps >>= λ rest.
          ok (record p { name = default_name n } ∷ rest)
    ]

-- `fillPodNames`
unfoldable pub fill_pod_names : List PodSpec → List PodSpec → Result Error (List PodSpec)
fill_pod_names pods prev = used_names [] pods >>= λ used.
    let (used', pods') = reclaim used prev pods in fill_rest used' 1 pods'
