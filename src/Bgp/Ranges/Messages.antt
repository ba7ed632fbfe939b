-- ===== src/Bgp/Ranges/Messages.antt =====
-- Where the BGP decoder's messages, with all their fields, lie in the TCP payload.
use dc_net_lab.Prelude.{
  ℕ, zero, suc, ◌+◌, ◌-◌, ◌≤◌, ◌<◌, ◌≡◌, inl, inr, refl, sym, subst, List, [], ◌∷◌, Bool, true,
  false, not, ◌||◌, ◌&&◌, some, ltb, leb, if◌then◌else◌, length, take, drop, length-drop,
  length-take, arith, Bool-cases, Option-cases, ltb→ge,
}
use dc_net_lab.GoText.{Text, str, same}
use dc_net_lab.Bgp.{Fields, done, ◌▸◌, field, Message, u16, name_of}
use dc_net_lab.Bgp.Capabilities.{open_params}
use dc_net_lab.Bgp.Attributes.{attr_fields}
use dc_net_lab.Bgp.Messages.{
  decode_open, decode_notification, decode_route_refresh, decode_update, decode_message,
  update_fields, heading, block, prefix_fields, header_fields, split_header, cut_header,
  cut_message, whole_message, length_type, decode_on, decode_bgp, header_len, type_names,
  valid_marker,
}
use dc_net_lab.Bgp.Ranges.{
  Inside, Inside-wider, Inside-append, Tiles-Inside, attr_fields-Tiles, prefix_fields-Tiles,
  open_params-Inside,
}

heading-Inside :
    (name value : Text) (off len : ℕ) (fs : Fields) (lo hi : ℕ)
    → lo ≤ off
    → off + len ≤ hi
    → Inside off (off + len) fs
    → Inside lo hi (heading name value off len fs)
unfolding heading
heading-Inside name value off len done lo hi h k i = tt
heading-Inside name value off len (f ▸ fs) lo hi h k i = (inr (h, k, i), tt)

block-length :
    (buf b rest : List ℕ) → block buf ≡ some (b, rest) → 2 + length b + length rest ≡ length buf
unfolding block
block-length [] b rest h = ground (arith, h)
block-length (x ∷ []) b rest h = ground (arith, h)
block-length (x ∷ y ∷ t) b rest h =
    ground (arith, h, length-take (u16 x y) t, length-drop (u16 x y) t)

update_fields-Inside :
    (w attrs nlri : List ℕ) (base : ℕ)
    → Inside base
        (base + (2 + length w + (2 + length attrs + length nlri)))
        (update_fields w attrs nlri base)
unfolding update_fields
update_fields-Inside w attrs nlri base =
    let ab : ℕ = base + 2 + length w + 2 in
    let hi : ℕ = base + (2 + length w + (2 + length attrs + length nlri)) in
    let ws = prefix_fields (length w) w (base + 2) in
    let as' = attr_fields (length attrs) attrs ab in
    let ns = prefix_fields (length nlri) nlri (ab + length attrs) in
    let ws_lem : Inside base (base + (2 + length w)) ws =
      Inside-wider _ base _ _ ws (omega arith) (omega arith)
        (Tiles-Inside _ _ ws (prefix_fields-Tiles (length w) w (base + 2))) in
    let as_lem : Inside (ab - 2) (ab - 2 + (2 + length attrs)) as' =
      Inside-wider _ (ab - 2) _ _ as' (omega arith) (omega arith)
        (Tiles-Inside _ _ as' (attr_fields-Tiles (length attrs) attrs ab)) in
    let ns_lem : Inside (ab + length attrs) (ab + length attrs + length nlri) ns =
      Tiles-Inside _ _ ns (prefix_fields-Tiles (length nlri) nlri (ab + length attrs)) in
    Inside-append base hi _ _
      (heading-Inside _ _ _ _ as' base hi (omega arith) (omega arith) as_lem)
      (Inside-append base hi _ _
        (heading-Inside _ _ _ _ ns base hi (omega arith) (omega arith) ns_lem)
        (heading-Inside _ _ _ _ ws base hi (omega arith) (omega arith) ws_lem))

-- The fields of a message lie between two offsets.
abbrev FieldsInside : ℕ → ℕ → Message → Type 0
FieldsInside lo hi m = Inside lo hi m.fields

decode_update-Inside :
    (body : List ℕ) (base : ℕ) → FieldsInside base (base + length body) (decode_update body base)
unfolding decode_update
decode_update-Inside body base = elim (Option-cases (block body)) [
  | inl e ↦ rw (decode_update, e) tt
  | inr ((w, rest), e) ↦
      rw (decode_update, e)
        (elim (Option-cases (block rest)) [
          | inl f ↦ rw f tt
          | inr ((attrs, nlri), f) ↦ rw f (
              Inside-wider base base _ _ (update_fields w attrs nlri base) (omega arith)
                (omega (arith, block-length body w rest e, block-length rest attrs nlri f))
                (update_fields-Inside w attrs nlri base))
        ])
]

decode_notification-Inside :
    (body : List ℕ) (base : ℕ)
    → FieldsInside base (base + length body) (decode_notification body base)
unfolding decode_notification
decode_notification-Inside [] base = tt
decode_notification-Inside (c ∷ []) base = tt
decode_notification-Inside (c ∷ s ∷ rest) base =
    (inr (omega arith, omega arith, tt), (inr (omega arith, omega arith, tt), tt))

decode_route_refresh-Inside :
    (body : List ℕ) (base : ℕ)
    → FieldsInside base (base + length body) (decode_route_refresh body base)
unfolding decode_route_refresh
decode_route_refresh-Inside [] base = tt
decode_route_refresh-Inside (a ∷ []) base = tt
decode_route_refresh-Inside (a ∷ b ∷ []) base = tt
decode_route_refresh-Inside (a ∷ b ∷ c ∷ []) base = tt
decode_route_refresh-Inside (a ∷ b ∷ c ∷ d ∷ rest) base = (inr (omega arith, omega arith, tt), tt)

params-Inside :
    (name value : Text) (opt_len : ℕ) (opts : List ℕ) (base : ℕ)
    → Inside base (base + (10 + length opts)) (
        if ltb 0 opt_len && leb opt_len (length opts)
        then field name value
            (base + 10)
            opt_len
            (open_params opt_len (take opt_len opts) (base + 10) 0).0
          ▸ done
        else done)
params-Inside name value opt_len opts base =
    let fs = (open_params opt_len (take opt_len opts) (base + 10) 0).0 in
    elim (Bool-cases (ltb 0 opt_len && leb opt_len (length opts))) [
      | inl e ↦
          let fits : opt_len ≤ length opts = ground (arith, e) in
          rw e (
            inr (
              omega arith,
              omega (arith, fits),
              Inside-wider (base + 10) (base + 10) _ _ fs (omega arith)
                  (omega (arith, length-take opt_len opts, fits))
                  (open_params-Inside opt_len (take opt_len opts) (base + 10) 0),
            ),
            tt,
          )
      | inr e ↦ rw e tt
    ]

decode_open-Inside :
    (body : List ℕ) (base : ℕ) → FieldsInside base (base + length body) (decode_open body base)
unfolding decode_open
decode_open-Inside (v ∷ a1 ∷ a0 ∷ h1 ∷ h0 ∷ r3 ∷ r2 ∷ r1 ∷ r0 ∷ opt_len ∷ opts) base = (
  inr (omega arith, omega arith, tt),
  (
    inr (omega arith, omega arith, tt),
    (
      inr (omega arith, omega arith, tt),
      (
        inr (omega arith, omega arith, tt),
        Inside-wider base base _ _ _ (omega arith) (omega arith)
            (params-Inside _ _ opt_len opts base),
      ),
    ),
  ),
)
decode_open-Inside [] base = tt
decode_open-Inside (a ∷ []) base = tt
decode_open-Inside (a ∷ b ∷ []) base = tt
decode_open-Inside (a ∷ b ∷ c ∷ []) base = tt
decode_open-Inside (a ∷ b ∷ c ∷ d ∷ []) base = tt
decode_open-Inside (a ∷ b ∷ c ∷ d ∷ e ∷ []) base = tt
decode_open-Inside (a ∷ b ∷ c ∷ d ∷ e ∷ f ∷ []) base = tt
decode_open-Inside (a ∷ b ∷ c ∷ d ∷ e ∷ f ∷ g ∷ []) base = tt
decode_open-Inside (a ∷ b ∷ c ∷ d ∷ e ∷ f ∷ g ∷ h ∷ []) base = tt
decode_open-Inside (a ∷ b ∷ c ∷ d ∷ e ∷ f ∷ g ∷ h ∷ i ∷ []) base = tt

decode_message-Inside :
    (name : Text) (body : List ℕ) (base : ℕ)
    → FieldsInside base (base + length body) (decode_message name body base)
unfolding decode_message
decode_message-Inside name body base = elim (Bool-cases (same name (str "OPEN"))) [
  | inl e ↦ rw e (decode_open-Inside body base)
  | inr e ↦ rw e (elim (Bool-cases (same name (str "UPDATE"))) [
    | inl f ↦ rw f (decode_update-Inside body base)
    | inr f ↦ rw f (elim (Bool-cases (same name (str "NOTIFICATION"))) [
      | inl g ↦ rw g (decode_notification-Inside body base)
      | inr g ↦ rw g (elim (Bool-cases (same name (str "ROUTE-REFRESH"))) [
        | inl h ↦ rw h (decode_route_refresh-Inside body base)
        | inr h ↦ rw h tt
      ])
    ])
  ])
]

header_fields-Inside :
    (pos len hi : ℕ) (name : Text) → pos + 19 ≤ hi → Inside pos hi (header_fields pos len name)
unfolding header_fields
header_fields-Inside pos len hi name h = (
  inr (omega arith, omega arith, tt),
  (inr (omega arith, omega arith, tt), (inr (omega arith, omega arith, tt), tt)),
)

whole_message-Inside :
    (pos len : ℕ) (name : Text) (rest : List ℕ)
    → header_len ≤ len
    → len ≤ 19 + length rest
    → FieldsInside pos (pos + len) (whole_message pos len name rest)
unfolding whole_message
whole_message-Inside pos len name rest h k =
    let body = take (len - header_len) rest in
    let m = decode_message name body (pos + header_len) in
    Inside-append pos (pos + len) _ m.fields
      (header_fields-Inside pos len (pos + len) name (omega arith))
      (Inside-wider (pos + header_len) pos _ _ m.fields (omega arith)
        (omega (arith, length-take (len - header_len) rest))
        (decode_message-Inside name body (pos + header_len)))

length_type-length :
    (bytes : List ℕ) (len typ : ℕ) (rest : List ℕ)
    → length_type bytes ≡ some (len, typ, rest)
    → length bytes ≡ 3 + length rest
unfolding length_type
length_type-length bytes len typ rest h = ground (arith, h)

pub split_header-length :
    (payload : List ℕ) (len typ : ℕ) (rest : List ℕ)
    → split_header payload ≡ some (len, typ, rest)
    → length payload ≡ 19 + length rest
unfolding split_header
split_header-length payload len typ rest h =
    omega (arith, length_type-length (drop 16 payload) len typ rest h, length-drop 16 payload)

-- The messages follow one another from `lo` on and up to `hi` at most, none of them empty, and the fields of
-- each lie in the message.
abbrev pub Follows : ℕ → ℕ → List Message → Type 0
Follows lo hi [] = lo ≤ hi
Follows lo hi (m ∷ ms) =
    (m.offset ≡ lo)
    × (0 < m.length)
    × Inside lo (lo + m.length) m.fields
    × Follows (lo + m.length) hi ms

cut_header-Follows :
    (pos : ℕ) (payload : List ℕ)
    → 0 < length payload
    → Follows pos (pos + length payload) (cut_header pos payload ∷ [])
unfolding cut_header
cut_header-Follows pos payload h = (refl, h, tt, omega arith)

cut_message-Follows :
    (pos len : ℕ) (name : Text) (payload : List ℕ)
    → 0 < length payload
    → Follows pos (pos + length payload) (cut_message pos len name payload ∷ [])
unfolding cut_message
cut_message-Follows pos len name payload h = (refl, h, (inl (refl, refl), tt), omega arith)

whole_message-range :
    (pos len : ℕ) (name : Text) (rest : List ℕ)
    → ((whole_message pos len name rest).offset ≡ pos)
      × ((whole_message pos len name rest).length ≡ len)
unfolding whole_message
whole_message-range pos len name rest = (refl, refl)

whole_message-Follows :
    (pos len : ℕ) (name : Text) (rest : List ℕ) (hi : ℕ)
    → header_len ≤ len
    → len ≤ 19 + length rest
    → (ms : List Message) → Follows (pos + len) hi ms
    → Follows pos hi (whole_message pos len name rest ∷ ms)
whole_message-Follows pos len name rest hi h k ms f =
    let (o, l) = whole_message-range pos len name rest in
    (
      o,
      omega (arith, l, h),
      subst (λ n. FieldsInside pos (pos + n) (whole_message pos len name rest)) (sym l)
          (whole_message-Inside pos len name rest h k),
      subst (λ n. Follows (pos + n) hi ms) (sym l) f,
    )

decode_on-Follows :
    (fuel : ℕ) (payload : List ℕ) (pos : ℕ) (any : Bool)
    → Follows pos (pos + length payload) (decode_on fuel payload pos any)
unfolding decode_on
decode_on-Follows fuel [] pos any = omega arith
decode_on-Follows zero (b ∷ bs) pos any = omega arith
decode_on-Follows (suc fuel) (b ∷ bs) pos any =
    let payload = b ∷ bs in
    elim (Option-cases (split_header payload)) [
      | inl e ↦
          rw (decode_on, e)
            (elim (Bool-cases any) [
              | inl a ↦ rw a (cut_header-Follows pos payload (omega arith))
              | inr a ↦ rw a (omega arith)
            ])
      | inr ((len, typ, rest), e) ↦
          rw (decode_on, e)
            (elim (Option-cases (name_of type_names typ)) [
              | inl f ↦ rw f (omega arith)
              | inr (name, f) ↦
                  rw f
                    (elim (Bool-cases (
                      not (valid_marker (take 16 payload)) || ltb len header_len || ltb 4096 len)) [
                        | inl g ↦ rw g (omega arith)
                        | inr g ↦ rw g (elim (Bool-cases (ltb (length payload) len)) [
                          | inl c ↦ rw c (cut_message-Follows pos len name payload (omega arith))
                          | inr c ↦
                              let long : header_len ≤ len = ground (arith, g) in
                              let fits : len ≤ length payload = ltb→ge _ _ c in
                              let size = split_header-length payload len typ rest e in
                              let end_lem : pos + len + length (drop len payload)
                                  ≡ pos + length payload =
                                omega (arith, length-drop len payload, fits) in
                              rw c (
                                whole_message-Follows pos len name rest _ long
                                  (omega (arith, size, fits)) _
                                  (subst
                                    (λ z.
                                      Follows (pos + len) z
                                        (decode_on fuel (drop len payload) (pos + len) true))
                                    end_lem
                                    (decode_on-Follows fuel (drop len payload) (pos + len) true)))
                        ])
                      ])
            ])
    ]

-- For every payload, the messages that `decodeBGP` finds lie one behind the other from the payload's first byte
-- on and end within it, and every field of a message that has a byte range, at any depth, has it inside the
-- message and inside the field above it.
pub decode_bgp-Follows : (payload : List ℕ) → Follows 0 (length payload) (decode_bgp payload)
unfolding decode_bgp
decode_bgp-Follows payload =
    let e : 0 + length payload ≡ length payload = omega arith in
    subst (λ n. Follows 0 n (decode_bgp payload)) e
      (decode_on-Follows (length payload) payload 0 false)
