-- ===== src/Bgp/Capabilities.antt =====
-- controller/internal/capture/bgp.go: the optional parameters of an OPEN and the capabilities in them.
-- A loop over a position is recursion on the bytes from there on, with their offset; each turn drops at
-- least two bytes, so as much fuel as there are bytes is enough.
use dc_net_lab.Prelude.{
  ℕ, zero, suc, ◌+◌, ◌%◌, ◌^◌, List, [], ◌∷◌, ◌++◌, ◌||◌, ◌&&◌, Option, none, some, ltb, leb, eqb,
  if◌then◌else◌, length, take, drop,
}
use mathlib.Core.Option.{map as option_map}
use dc_net_lab.GoText.{Text, str, decimal, join}
use dc_net_lab.Bgp.{
  Fields, done, ◌▸◌, new_field_at, append_fields, u16, u32, name_or, Names, name_of,
}
use dc_net_lab.Bgp.Attributes.{parts_or_mark}

abbrev pub afi_names : Names
afi_names = (1, str "IPv4") ∷ (2, str "IPv6") ∷ (25, str "L2VPN") ∷ []

abbrev pub safi_names : Names
safi_names =
    (1, str "Unicast")
    ∷ (2, str "Multicast")
    ∷ (4, str "Labeled Unicast")
    ∷ (70, str "EVPN")
    ∷ (128, str "MPLS VPN")
    ∷ []

pub afi_safi_name : ℕ → ℕ → Text
afi_safi_name afi safi = elim (name_of afi_names afi) [
  | none ↦ str "AFI " ++ decimal afi ++ str " / SAFI " ++ decimal safi
  | some a ↦ elim (name_of safi_names safi) [
    | none ↦ str "AFI " ++ decimal afi ++ str " / SAFI " ++ decimal safi
    | some s ↦ a ++ str " " ++ s
  ]
]

-- the SAFI of two bytes is cut to one
ext_next_hop_parts : List ℕ → List Text
ext_next_hop_parts (a ∷ b ∷ c ∷ d ∷ e ∷ f ∷ v) =
    (afi_safi_name (u16 a b) (u16 c d % 256)
      ++ str " via "
      ++ name_or (name_of afi_names (u16 e f)) [])
    ∷ ext_next_hop_parts v
ext_next_hop_parts _ = []

ext_next_hop : List ℕ → Text
unfolding ext_next_hop_parts
ext_next_hop v = parts_or_mark (str ", ") (ext_next_hop_parts v)

restart_families : List ℕ → List Text
restart_families (a ∷ b ∷ c ∷ d ∷ v) = afi_safi_name (u16 a b) c ∷ restart_families v
restart_families _ = []

graceful_restart : List ℕ → Text
unfolding restart_families
graceful_restart (a ∷ b ∷ v) =
    let head = u16 a b in
    let text =
      str "restart time "
      ++ decimal (head % 2 ^ 12)
      ++ str " s"
      ++ (if leb (2 ^ 15) (head % 2 ^ 16) then str " (restarted)" else []) in
    elim (restart_families v) [ [] ↦ text | f ∷ fs ↦ text ++ str ": " ++ join (str ", ") (f ∷ fs) ]
graceful_restart _ = str "?"

abbrev add_path_modes : Names
add_path_modes = (1, str "RX") ∷ (2, str "TX") ∷ (3, str "TX+RX") ∷ []

add_path_parts : List ℕ → List Text
add_path_parts (a ∷ b ∷ c ∷ d ∷ v) =
    (afi_safi_name (u16 a b) c ++ str " " ++ name_or (name_of add_path_modes d) (str "?"))
    ∷ add_path_parts v
add_path_parts _ = []

add_path : List ℕ → Text
unfolding add_path_parts
add_path v = parts_or_mark (str ", ") (add_path_parts v)

-- the domain behind the host's name, if there is one
fqdn_domain : List ℕ → Text
fqdn_domain [] = []
fqdn_domain (n ∷ v) = if ltb (length v) n || eqb n 0 then [] else str "." ++ take n v

fqdn : List ℕ → Text
unfolding fqdn_domain
fqdn [] = str "?"
fqdn (n ∷ v) = if ltb (length v) n then str "?" else take n v ++ fqdn_domain (drop n v)

multiprotocol : List ℕ → Text
multiprotocol (a ∷ b ∷ c ∷ d ∷ []) = afi_safi_name (u16 a b) d
multiprotocol _ = str "?"

four_octet_as : List ℕ → Option ℕ
four_octet_as (a ∷ b ∷ c ∷ d ∷ []) = some (u32 a b c d)
four_octet_as _ = none

pub capability : ℕ → List ℕ → Text × Text
unfolding multiprotocol four_octet_as ext_next_hop graceful_restart add_path fqdn
capability code v =
    if eqb code 1
    then (str "Multiprotocol", multiprotocol v)
    else if eqb code 2
    then (str "Route Refresh", str "supported")
    else if eqb code 5
    then (str "Extended Next Hop", ext_next_hop v)
    else if eqb code 6
    then (str "Extended Message", str "supported")
    else if eqb code 64
    then (str "Graceful Restart", graceful_restart v)
    else if eqb code 65
    then (str "4-octet AS", name_or (option_map decimal (four_octet_as v)) (str "?"))
    else if eqb code 69
    then (str "ADD-PATH", add_path v)
    else if eqb code 70
    then (str "Enhanced Route Refresh", str "supported")
    else if eqb code 71
    then (str "Long-Lived Graceful Restart", str "supported")
    else if eqb code 73
    then (str "FQDN", fqdn v)
    else if eqb code 128
    then (str "Route Refresh (Cisco)", str "supported")
    else (str "Capability " ++ decimal code, decimal (length v) ++ str " bytes")

-- `realAS` of `bgpCapabilities` after one capability
pub next_as : ℕ → List ℕ → ℕ → ℕ
unfolding four_octet_as
next_as code v real_as =
    if eqb code 65 then elim (four_octet_as v) [ some as' ↦ as' | none ↦ real_as ] else real_as

unfoldable pub capabilities : ℕ → List ℕ → ℕ → ℕ → Fields × ℕ
unfolding next_as
capabilities zero buf base real_as = (done, real_as)
capabilities (suc fuel) (code ∷ clen ∷ rest) base real_as =
    let value = take clen rest in
    let (name, text) = capability code value in
    let (fields, as') =
      capabilities fuel (drop clen rest) (base + (2 + clen)) (next_as code value real_as) in
    if ltb (length rest) clen
    then (done, real_as)
    else (new_field_at name text base (2 + clen) ▸ fields, as')
capabilities (suc fuel) _ base real_as = (done, real_as)

unfoldable pub open_params : ℕ → List ℕ → ℕ → ℕ → Fields × ℕ
unfolding capabilities
open_params zero buf base real_as = (done, real_as)
open_params (suc fuel) (ptype ∷ plen ∷ rest) base real_as =
    let value = take plen rest in
    let (caps, cap_as) = capabilities (length value) value (base + 2) 0 in
    let is_caps = eqb ptype 2 in
    let as' = if is_caps && ltb 0 cap_as then cap_as else real_as in
    let (fields, last_as) = open_params fuel (drop plen rest) (base + (2 + plen)) as' in
    if ltb (length rest) plen
    then (done, real_as)
    else if is_caps
    then (append_fields caps fields, last_as)
    else (
      new_field_at (str "Parameter " ++ decimal ptype) (decimal plen ++ str " bytes") base
            (2 + plen)
          ▸ fields,
      last_as,
    )
open_params (suc fuel) _ base real_as = (done, real_as)
