-- ===== src/Bgp/Messages.antt =====
-- controller/internal/capture/bgp.go: the four messages that have a body, and the loop over a TCP payload.
use dc_net_lab.Prelude.{
  ℕ, zero, suc, ◌+◌, ◌-◌, ◌/◌, List, [], ◌∷◌, ◌++◌, Bool, true, false, not, ◌||◌, ◌&&◌, Option,
  none, some, ltb, leb, eqb, if◌then◌else◌, length, take, drop, map,
}
use dc_net_lab.GoText.{Text, str, decimal, join, same, addr4}
use dc_net_lab.Bgp.{
  Fields, done, ◌▸◌, field, new_field, new_field_at, append_fields, field_count, Message, u16,
  name_or, Names, name_of,
}
use dc_net_lab.Bgp.Attributes.{attr_fields}
use dc_net_lab.Bgp.Capabilities.{afi_safi_name, open_params}

abbrev pub header_len : ℕ
header_len = 19

abbrev pub type_names : Names
type_names =
    (1, str "OPEN")
    ∷ (2, str "UPDATE")
    ∷ (3, str "NOTIFICATION")
    ∷ (4, str "KEEPALIVE")
    ∷ (5, str "ROUTE-REFRESH")
    ∷ []

abbrev pub notification_codes : Names
notification_codes =
    (1, str "Message Header Error")
    ∷ (2, str "OPEN Message Error")
    ∷ (3, str "UPDATE Message Error")
    ∷ (4, str "Hold Timer Expired")
    ∷ (5, str "FSM Error")
    ∷ (6, str "Cease")
    ∷ []

abbrev header_subcodes : Names
header_subcodes =
    (1, str "Connection Not Synchronized")
    ∷ (2, str "Bad Message Length")
    ∷ (3, str "Bad Message Type")
    ∷ []

abbrev open_subcodes : Names
open_subcodes =
    (1, str "Unsupported Version Number")
    ∷ (2, str "Bad Peer AS")
    ∷ (3, str "Bad BGP Identifier")
    ∷ (4, str "Unsupported Optional Parameter")
    ∷ (6, str "Unacceptable Hold Time")
    ∷ (7, str "Unsupported Capability")
    ∷ []

abbrev update_subcodes : Names
update_subcodes =
    (1, str "Malformed Attribute List")
    ∷ (2, str "Unrecognized Well-known Attribute")
    ∷ (3, str "Missing Well-known Attribute")
    ∷ (4, str "Attribute Flags Error")
    ∷ (5, str "Attribute Length Error")
    ∷ (6, str "Invalid ORIGIN Attribute")
    ∷ (8, str "Invalid NEXT_HOP Attribute")
    ∷ (9, str "Optional Attribute Error")
    ∷ (10, str "Invalid Network Field")
    ∷ (11, str "Malformed AS_PATH")
    ∷ []

abbrev fsm_subcodes : Names
fsm_subcodes =
    (1, str "Unexpected Message in OpenSent")
    ∷ (2, str "Unexpected Message in OpenConfirm")
    ∷ (3, str "Unexpected Message in Established")
    ∷ []

abbrev cease_subcodes : Names
cease_subcodes =
    (1, str "Maximum Number of Prefixes Reached")
    ∷ (2, str "Administrative Shutdown")
    ∷ (3, str "Peer De-configured")
    ∷ (4, str "Administrative Reset")
    ∷ (5, str "Connection Rejected")
    ∷ (6, str "Other Configuration Change")
    ∷ (7, str "Connection Collision Resolution")
    ∷ (8, str "Out of Resources")
    ∷ (9, str "Hard Reset")
    ∷ []

pub notification_subcodes : ℕ → Names
notification_subcodes code =
    if eqb code 1
    then header_subcodes
    else if eqb code 2
    then open_subcodes
    else if eqb code 3
    then update_subcodes
    else if eqb code 5
    then fsm_subcodes
    else if eqb code 6
    then cease_subcodes
    else []

abbrev bare : Text → Text → Message
bare type summary = record { type = type; summary = summary; fields = done; offset = 0; length = 0 }

unfoldable pub decode_open : List ℕ → ℕ → Message
decode_open (version ∷ a1 ∷ a0 ∷ h1 ∷ h0 ∷ r3 ∷ r2 ∷ r1 ∷ r0 ∷ opt_len ∷ opts) base =
    let asn = u16 a1 a0 in
    let hold = u16 h1 h0 in
    let is_trans = eqb asn 23456 in
    let as_text =
      decimal asn ++ (if is_trans then str " (AS_TRANS, 4-octet AS in capability)" else []) in
    let has_params = ltb 0 opt_len && leb opt_len (length opts) in
    let (params, found) = open_params opt_len (take opt_len opts) (base + 10) 0 in
    let real_as = if has_params then found else 0 in
    let summary_as = if ltb 0 real_as then decimal real_as else as_text in
    let shown_as =
      if ltb 0 real_as && is_trans
      then as_text ++ str ", real AS " ++ decimal real_as
      else as_text in
    record {
      type = str "OPEN";
      summary = str "OPEN AS " ++ summary_as ++ str " hold " ++ decimal hold ++ str "s";
      fields =
          new_field_at (str "Version") (decimal version) base 1
          ▸ new_field_at (str "AS") shown_as (base + 1) 2
          ▸ new_field_at (str "Hold Time") (decimal hold ++ str " s") (base + 3) 2
          ▸ new_field_at (str "Router ID") (addr4 r3 r2 r1 r0) (base + 5) 4
          ▸ (if has_params
              then field (str "Optional Parameters") (decimal opt_len ++ str " bytes") (base + 10)
                  opt_len params
                ▸ done
              else done);
      offset = 0;
      length = 0;
    }
decode_open _ base = bare (str "OPEN") (str "OPEN [truncated]")

unfoldable pub decode_notification : List ℕ → ℕ → Message
unfolding notification_subcodes
decode_notification (c ∷ s ∷ rest) base =
    let code = name_or (name_of notification_codes c) (str "code " ++ decimal c) in
    let sub = name_of (notification_subcodes c) s in
    record {
      type = str "NOTIFICATION";
      summary = str "NOTIFICATION " ++ code ++ elim sub [ none ↦ [] | some n ↦ str ": " ++ n ];
      fields =
          new_field_at (str "Error") code base 1
          ▸ new_field_at (str "Subcode")
              (elim sub [ none ↦ decimal s | some n ↦ n ++ str " (" ++ decimal s ++ str ")" ])
              (base + 1) 1
          ▸ done;
      offset = 0;
      length = 0;
    }
decode_notification _ base = bare (str "NOTIFICATION") (str "NOTIFICATION")

unfoldable pub decode_route_refresh : List ℕ → ℕ → Message
decode_route_refresh (a ∷ b ∷ r ∷ safi ∷ rest) base =
    let family = afi_safi_name (u16 a b) safi in
    record {
      type = str "ROUTE-REFRESH";
      summary = str "ROUTE-REFRESH " ++ family;
      fields = new_field_at (str "Family") family base 4 ▸ done;
      offset = 0;
      length = 0;
    }
decode_route_refresh _ base = bare (str "ROUTE-REFRESH") (str "ROUTE-REFRESH")

-- `bgpBlock`: a block behind its length, and the rest.
unfoldable pub block : List ℕ → Option (List ℕ × List ℕ)
block (a ∷ b ∷ rest) =
    if ltb (length rest) (u16 a b) then none else some (take (u16 a b) rest, drop (u16 a b) rest)
block _ = none

-- the address whose first bytes are given, the others 0
prefix_addr : List ℕ → Text
prefix_addr (a ∷ b ∷ c ∷ d ∷ _) = addr4 a b c d
prefix_addr (a ∷ b ∷ c ∷ []) = addr4 a b c 0
prefix_addr (a ∷ b ∷ []) = addr4 a b 0 0
prefix_addr (a ∷ []) = addr4 a 0 0 0
prefix_addr [] = addr4 0 0 0 0

unfoldable pub prefix_text : ℕ → List ℕ → Text
unfolding prefix_addr
prefix_text bits bytes = prefix_addr bytes ++ str "/" ++ decimal bits

-- The loop of `bgpPrefixFields`, on the bytes from its position on.
unfoldable pub prefix_fields : ℕ → List ℕ → ℕ → Fields
prefix_fields zero buf base = done
prefix_fields (suc fuel) [] base = done
prefix_fields (suc fuel) (bits ∷ rest) base =
    let n = (bits + 7) / 8 in
    let more = prefix_fields fuel (drop n rest) (base + (1 + n)) in
    if ltb 32 bits || ltb (length rest) n
    then done
    else new_field_at (str "Prefix") (prefix_text bits (take n rest)) base (1 + n) ▸ more

unfoldable pub field_values : Fields → List Text
field_values done = []
field_values (field name value offset length children ▸ fs) = value ∷ field_values fs

unfoldable pub join_capped : List Text → Text
join_capped items =
    if leb (length items) 3
    then join (str ", ") items
    else join (str ", ") (take 3 items) ++ str " +" ++ decimal (length items - 3) ++ str " more"

-- the line over a list of fields, unless there are none
unfoldable pub heading : Text → Text → ℕ → ℕ → Fields → Fields
heading name value offset length done = done
heading name value offset length (f ▸ fs) = field name value offset length (f ▸ fs) ▸ done

update_summary : List Text → List Text → List ℕ → Text
update_summary nlri withdrawn attrs =
    if eqb (length nlri) 0 && eqb (length withdrawn) 0 && eqb (length attrs) 0
    then str "UPDATE (End-of-RIB)"
    else if ltb 0 (length withdrawn) && eqb (length nlri) 0
    then str "UPDATE withdraw " ++ join_capped withdrawn
    else str "UPDATE " ++ join_capped nlri

-- the lines of an UPDATE whose blocks are split
unfoldable pub update_fields : List ℕ → List ℕ → List ℕ → ℕ → Fields
update_fields withdrawn attrs nlri base =
    let attrs_base = base + 2 + length withdrawn + 2 in
    let withdrawn_fields = prefix_fields (length withdrawn) withdrawn (base + 2) in
    let attr_lines = attr_fields (length attrs) attrs attrs_base in
    let nlri_fields = prefix_fields (length nlri) nlri (attrs_base + length attrs) in
    append_fields
      (heading (str "Path Attributes") (decimal (field_count attr_lines) ++ str " attributes")
        (attrs_base - 2) (2 + length attrs) attr_lines)
      (append_fields
        (heading (str "NLRI") (join_capped (field_values nlri_fields)) (attrs_base + length attrs)
          (length nlri) nlri_fields)
        (heading (str "Withdrawn Routes") (join_capped (field_values withdrawn_fields)) base
          (2 + length withdrawn) withdrawn_fields))

unfoldable pub decode_update : List ℕ → ℕ → Message
unfolding update_summary
decode_update body base = elim (block body) [
  | none ↦ bare (str "UPDATE") (str "UPDATE [truncated]")
  | some (withdrawn, rest) ↦ elim (block rest) [
    | none ↦ bare (str "UPDATE") (str "UPDATE [truncated]")
    | some (attrs, nlri) ↦ record {
      type = str "UPDATE";
      summary =
          update_summary
            (field_values
              (prefix_fields (length nlri) nlri (base + 2 + length withdrawn + 2 + length attrs)))
            (field_values (prefix_fields (length withdrawn) withdrawn (base + 2))) attrs;
      fields = update_fields withdrawn attrs nlri base;
      offset = 0;
      length = 0;
    }
  ]
]

unfoldable pub decode_message : Text → List ℕ → ℕ → Message
decode_message name body base =
    if same name (str "OPEN")
    then decode_open body base
    else if same name (str "UPDATE")
    then decode_update body base
    else if same name (str "NOTIFICATION")
    then decode_notification body base
    else if same name (str "ROUTE-REFRESH")
    then decode_route_refresh body base
    else bare name name

unfoldable pub header_fields : ℕ → ℕ → Text → Fields
header_fields pos length name =
    new_field_at (str "Marker") (str "ff" ++ (226 ∷ 128 ∷ 166 ∷ []) ++ str "ff") pos 16
    ▸ new_field_at (str "Length") (decimal length) (pos + 16) 2
    ▸ new_field_at (str "Message Type") name (pos + 18) 1
    ▸ done

unfoldable pub valid_marker : List ℕ → Bool
valid_marker [] = true
valid_marker (b ∷ bs) = eqb b 255 && valid_marker bs

unfoldable pub length_type : List ℕ → Option (ℕ × ℕ × List ℕ)
length_type (l1 ∷ l0 ∷ typ ∷ rest) = some (u16 l1 l0, typ, rest)
length_type _ = none

-- The message's length and type behind the marker, and what follows; `none` if the header is cut.
unfoldable pub split_header : List ℕ → Option (ℕ × ℕ × List ℕ)
unfolding length_type
split_header payload = length_type (drop 16 payload)

unfoldable pub cut_header : ℕ → List ℕ → Message
cut_header pos payload = record {
  type = str "?";
  summary = str "[truncated]";
  fields = done;
  offset = pos;
  length = length payload;
}

unfoldable pub cut_message : ℕ → ℕ → Text → List ℕ → Message
cut_message pos len name payload = record {
  type = name;
  summary = name ++ str " [truncated]";
  fields =
      new_field (str "Length")
        (decimal len ++ str " (only " ++ decimal (length payload) ++ str " captured)")
      ▸ done;
  offset = pos;
  length = length payload;
}

unfoldable pub whole_message : ℕ → ℕ → Text → List ℕ → Message
whole_message pos len name rest =
    let m = decode_message name (take (len - header_len) rest) (pos + header_len) in
    record m {
      fields = append_fields (header_fields pos len name) m.fields;
      offset = pos;
      length = len;
    }

-- The loop of `decodeBGP` from a position on; `any` says whether a message is decoded already.
unfoldable pub decode_on : ℕ → List ℕ → ℕ → Bool → List Message
unfolding valid_marker
decode_on fuel [] pos any = []
decode_on zero (b ∷ bs) pos any = []
decode_on (suc fuel) (b ∷ bs) pos any =
    let payload = b ∷ bs in
    elim (split_header payload) [
      | none ↦ if any then cut_header pos payload ∷ [] else []
      | some (len, typ, rest) ↦ elim (name_of type_names typ) [
        | none ↦ []
        | some name ↦
            let more = decode_on fuel (drop len payload) (pos + len) true in
            if not (valid_marker (take 16 payload)) || ltb len header_len || ltb 4096 len
            then []
            else if ltb (length payload) len
            then cut_message pos len name payload ∷ []
            else whole_message pos len name rest ∷ more
      ]
    ]

unfoldable pub decode_bgp : List ℕ → List Message
decode_bgp payload = decode_on (length payload) payload 0 false

pub bgp_info : List Message → Text
bgp_info msgs = join (str ", ") (map (λ m. m.summary) msgs)
