-- ===== src/Bgp/Attributes.antt =====
-- controller/internal/capture/bgp.go: the path attributes of an UPDATE and the text each one shows.
-- A loop that cuts a fixed number of bytes off the front is recursion on the list.
use dc_net_lab.Prelude.{
  ℕ, zero, suc, ◌+◌, ◌*◌, ◌/◌, ◌%◌, ◌^◌, List, [], ◌∷◌, ◌++◌, ◌||◌, ◌&&◌, Option, none, some, leb,
  ltb, eqb, if◌then◌else◌, length, take, drop,
}
use mathlib.Core.Option.{map as option_map}
use dc_net_lab.GoText.{Text, str, decimal, hex, join, addr4}
use dc_net_lab.Bgp.{Fields, done, ◌▸◌, new_field_at, u16, u32, name_or, Names, name_of}

abbrev pub attr_names : Names
attr_names =
    (1, str "Origin")
    ∷ (2, str "AS Path")
    ∷ (3, str "Next Hop")
    ∷ (4, str "MED")
    ∷ (5, str "Local Pref")
    ∷ (6, str "Atomic Aggregate")
    ∷ (7, str "Aggregator")
    ∷ (8, str "Communities")
    ∷ (9, str "Originator ID")
    ∷ (10, str "Cluster List")
    ∷ (14, str "MP Reach NLRI")
    ∷ (15, str "MP Unreach NLRI")
    ∷ (16, str "Extended Communities")
    ∷ (17, str "AS4 Path")
    ∷ (18, str "AS4 Aggregator")
    ∷ (32, str "Large Communities")
    ∷ []

-- what a renderer shows for its parts
pub parts_or_mark : Text → List Text → Text
parts_or_mark sep [] = str "?"
parts_or_mark sep (p ∷ ps) = join sep (p ∷ ps)

pub origin : List ℕ → Text
origin (b ∷ []) = if eqb b 0 then str "IGP" else if eqb b 1 then str "EGP" else str "Incomplete"
origin _ = str "?"

pub aggregator : List ℕ → Text
aggregator (a ∷ b ∷ c ∷ d ∷ e ∷ f ∷ g ∷ h ∷ []) =
    str "AS " ++ decimal (u32 a b c d) ++ str ", " ++ addr4 e f g h
aggregator (a ∷ b ∷ c ∷ d ∷ e ∷ f ∷ []) =
    str "AS " ++ decimal (u16 a b) ++ str ", " ++ addr4 c d e f
aggregator _ = str "?"

abbrev well_known_communities : Names
well_known_communities =
    (4294901760, str "GRACEFUL_SHUTDOWN")
    ∷ (4294967041, str "NO_EXPORT")
    ∷ (4294967042, str "NO_ADVERTISE")
    ∷ (4294967043, str "NO_EXPORT_SUBCONFED")
    ∷ []

community_parts : List ℕ → List Text
community_parts (a ∷ b ∷ c ∷ d ∷ v) =
    name_or (name_of well_known_communities (u32 a b c d))
      (decimal (u32 a b c d / 2 ^ 16) ++ str ":" ++ decimal (u32 a b c d % 2 ^ 16))
    ∷ community_parts v
community_parts _ = []

pub communities : List ℕ → Text
unfolding community_parts
communities v = parts_or_mark (str " ") (community_parts v)

large_community_parts : List ℕ → List Text
large_community_parts (a ∷ b ∷ c ∷ d ∷ e ∷ f ∷ g ∷ h ∷ i ∷ j ∷ k ∷ l ∷ v) =
    (decimal (u32 a b c d) ++ str ":" ++ decimal (u32 e f g h) ++ str ":" ++ decimal (u32 i j k l))
    ∷ large_community_parts v
large_community_parts _ = []

pub large_communities : List ℕ → Text
unfolding large_community_parts
large_communities v = parts_or_mark (str " ") (large_community_parts v)

-- one extended community; the two high bits of its type are masked off
ext_community : ℕ → ℕ → ℕ → ℕ → ℕ → ℕ → ℕ → ℕ → Text
ext_community a sub c d e f g h =
    let type = a % 64 in
    if eqb type 0 && eqb sub 2
    then str "RT:" ++ decimal (u16 c d) ++ str ":" ++ decimal (u32 e f g h)
    else if eqb type 0 && eqb sub 3
    then str "RO:" ++ decimal (u16 c d) ++ str ":" ++ decimal (u32 e f g h)
    else if eqb type 1 && eqb sub 2
    then str "RT:" ++ addr4 c d e f ++ str ":" ++ decimal (u16 g h)
    else if eqb type 2 && eqb sub 2
    then str "RT:" ++ decimal (u32 c d e f) ++ str ":" ++ decimal (u16 g h)
    else str "0x" ++ hex (a ∷ sub ∷ c ∷ d ∷ e ∷ f ∷ g ∷ h ∷ [])

ext_community_parts : List ℕ → List Text
unfolding ext_community
ext_community_parts (a ∷ b ∷ c ∷ d ∷ e ∷ f ∷ g ∷ h ∷ v) =
    ext_community a b c d e f g h ∷ ext_community_parts v
ext_community_parts _ = []

pub ext_communities : List ℕ → Text
unfolding ext_community_parts
ext_communities v = parts_or_mark (str " ") (ext_community_parts v)

cluster_parts : List ℕ → List Text
cluster_parts (a ∷ b ∷ c ∷ d ∷ v) = addr4 a b c d ∷ cluster_parts v
cluster_parts _ = []

pub cluster_list : List ℕ → Text
unfolding cluster_parts
cluster_list v = parts_or_mark (str " ") (cluster_parts v)

-- the autonomous systems of a segment of 4-octet numbers, and of 2-octet ones
asns4 : List ℕ → List Text
asns4 (a ∷ b ∷ c ∷ d ∷ v) = decimal (u32 a b c d) ∷ asns4 v
asns4 _ = []

asns2 : List ℕ → List Text
asns2 (a ∷ b ∷ v) = decimal (u16 a b) ∷ asns2 v
asns2 _ = []

-- The segments; `size` is 4 or 2. Each takes two bytes at least: as much fuel as there are bytes.
as_segments : ℕ → List ℕ → ℕ → Option (List Text)
unfolding asns4 asns2
as_segments fuel [] size = some []
as_segments zero (b ∷ v) size = none
as_segments (suc fuel) (b ∷ []) size = none
as_segments (suc fuel) (seg_type ∷ count ∷ v) size =
    let chunk = take (count * size) v in
    let asns = if eqb size 4 then asns4 chunk else asns2 chunk in
    let seg =
      if eqb seg_type 1 then str "{" ++ join (str ",") asns ++ str "}" else join (str " ") asns in
    let rest = as_segments fuel (drop (count * size) v) size in
    if ltb (length v) (count * size) then none else option_map (λ ss. seg ∷ ss) rest

as_path_sized : List ℕ → ℕ → Option Text
unfolding as_segments
as_path_sized v size = option_map (join (str " ")) (as_segments (length v) v size)

pub as_path : List ℕ → Text
unfolding as_path_sized
as_path [] = str "(empty)"
as_path (b ∷ v) = name_or (as_path_sized (b ∷ v) 4) (name_or (as_path_sized (b ∷ v) 2) (str "?"))

dotted : List ℕ → Option Text
dotted (a ∷ b ∷ c ∷ d ∷ []) = some (addr4 a b c d)
dotted _ = none

number : List ℕ → Option Text
number (a ∷ b ∷ c ∷ d ∷ []) = some (decimal (u32 a b c d))
number _ = none

pub attr_value : ℕ → List ℕ → Text
unfolding as_path as_path_sized origin aggregator communities cluster_list ext_communities
    large_communities dotted number
attr_value typ v =
    let size = decimal (length v) ++ str " bytes" in
    if eqb typ 1
    then origin v
    else if eqb typ 2
    then as_path v
    else if eqb typ 3 || eqb typ 9
    then name_or (dotted v) size
    else if eqb typ 4 || eqb typ 5
    then name_or (number v) size
    else if eqb typ 6
    then str "present"
    else if eqb typ 7 || eqb typ 18
    then aggregator v
    else if eqb typ 8
    then communities v
    else if eqb typ 10
    then cluster_list v
    else if eqb typ 16
    then ext_communities v
    else if eqb typ 17
    then name_or (as_path_sized v 4) (str "?")
    else if eqb typ 32
    then large_communities v
    else size

-- The length of an attribute, the bytes of its header, and what follows them: `none` where the header is cut.
unfoldable pub attr_header : ℕ → ℕ → List ℕ → Option (ℕ × ℕ × List ℕ)
attr_header flags l rest =
    if leb 16 (flags % 32)
    then elim rest [ [] ↦ none | l' ∷ body ↦ some (u16 l l', 4, body) ]
    else some (l, 3, rest)

-- The loop of `bgpAttrFields`, on the bytes from its position on.
unfoldable pub attr_fields : ℕ → List ℕ → ℕ → Fields
attr_fields zero attrs base = done
attr_fields (suc fuel) (flags ∷ typ ∷ l ∷ rest) base = elim (attr_header flags l rest) [
  | none ↦ done
  | some (len, hdr, body) ↦
      let more = attr_fields fuel (drop len body) (base + (hdr + len)) in
      if ltb (length body) len
      then done
      else new_field_at (name_or (name_of attr_names typ) (str "Attribute " ++ decimal typ))
          (attr_value typ (take len body)) base (hdr + len)
        ▸ more
]
attr_fields (suc fuel) _ base = done
