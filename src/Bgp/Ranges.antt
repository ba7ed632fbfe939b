-- ===== src/Bgp/Ranges.antt =====
-- Where the BGP decoder's fields lie in the TCP payload.
pub mod Messages
use dc_net_lab.Prelude.{
  ℕ, zero, suc, ◌+◌, ◌*◌, ◌-◌, ◌/◌, ◌≤◌, ◌<◌, min, ◌≡◌, ◌⊎◌, inl, inr, refl, sym, ap, ◌∙◌, subst,
  List, [], ◌∷◌, ◌++◌, Bool, true, false, not, ◌||◌, ◌&&◌, Option, none, some, ltb, leb, eqb,
  if◌then◌else◌, length, take, drop, length-drop, length-take, arith, Bool-cases, Option-cases,
  ltb→lt, ltb→ge,
}
use dc_net_lab.Bgp.{
  Field, Fields, done, ◌▸◌, field, new_field_at, append_fields, u16, name_or, name_of,
}
use dc_net_lab.GoText.{str, decimal}
use dc_net_lab.Bgp.Attributes.{attr_header, attr_fields, attr_value, attr_names}
use dc_net_lab.Bgp.Capabilities.{capabilities, open_params, next_as}
use dc_net_lab.Bgp.Messages.{prefix_fields}

-- The fields stand one behind the other, from `lo` on and up to `hi` at most, none of them empty.
abbrev pub Tiles : ℕ → ℕ → Fields → Type 0
Tiles lo hi done = lo ≤ hi
Tiles lo hi (field name value off len children ▸ fs) =
    (off ≡ lo) × (0 < len) × (children ≡ done) × Tiles (lo + len) hi fs

-- Every field that has a range has it between `lo` and `hi`, and its children within its own.
abbrev pub Inside : ℕ → ℕ → Fields → Type 0
Inside lo hi done = Unit
Inside lo hi (field name value off len children ▸ fs) =
    (((len ≡ 0) × (children ≡ done))
      ⊎ ((lo ≤ off) × (off + len ≤ hi) × Inside off (off + len) children))
    × Inside lo hi fs

pub Tiles-end : (lo hi : ℕ) (fs : Fields) → Tiles lo hi fs → lo ≤ hi
Tiles-end lo hi done h = h
Tiles-end lo hi (field name value off len children ▸ fs) h =
    omega (arith, Tiles-end (lo + len) hi fs h.3, h.1)

pub Inside-wider :
    (lo lo' hi hi' : ℕ) (fs : Fields) → lo' ≤ lo → hi ≤ hi' → Inside lo hi fs → Inside lo' hi' fs
Inside-wider lo lo' hi hi' done h k i = tt
Inside-wider lo lo' hi hi' (field name value off len children ▸ fs) h k (inl e, r) =
    (inl e, Inside-wider lo lo' hi hi' fs h k r)
Inside-wider lo lo' hi hi' (field name value off len children ▸ fs) h k (inr (a, b, c), r) =
    (inr (omega (arith, a), omega (arith, b), c), Inside-wider lo lo' hi hi' fs h k r)

pub Tiles-Inside : (lo hi : ℕ) (fs : Fields) → Tiles lo hi fs → Inside lo hi fs
Tiles-Inside lo hi done h = tt
Tiles-Inside lo hi (field name value off len children ▸ fs) (o, p, c, r) = (
  inr (
    omega (arith, o),
    omega (arith, o, Tiles-end (lo + len) hi fs r),
    subst (Inside off (off + len)) (sym c) tt,
  ),
  Inside-wider (lo + len) lo hi hi fs (omega arith) (omega arith) (Tiles-Inside (lo + len) hi fs r),
)

pub Inside-append :
    (lo hi : ℕ) (fs gs : Fields)
    → Inside lo hi fs
    → Inside lo hi gs
    → Inside lo hi (append_fields fs gs)
unfolding append_fields
Inside-append lo hi done gs h k = k
Inside-append lo hi (field name value off len children ▸ fs) gs h k =
    (h.0, Inside-append lo hi fs gs h.1 k)

-- The prefixes of a block tile it, from its first byte on.
pub prefix_fields-Tiles :
    (fuel : ℕ) (buf : List ℕ) (base : ℕ)
    → Tiles base (base + length buf) (prefix_fields fuel buf base)
unfolding prefix_fields
prefix_fields-Tiles zero buf base = omega arith
prefix_fields-Tiles (suc fuel) [] base = omega arith
prefix_fields-Tiles (suc fuel) (bits ∷ rest) base =
    let n = (bits + 7) / 8 in
    let ih = prefix_fields-Tiles fuel (drop n rest) (base + (1 + n)) in
    elim (Bool-cases (ltb 32 bits || ltb (length rest) n)) [
      | inl e ↦ rw e (omega arith)
      | inr e ↦
          let fits : n ≤ length rest = ground (arith, e) in
          let end_lem : base + (1 + n) + length (drop n rest) ≡ base + suc (length rest) =
            omega (arith, length-drop n rest, fits) in
          rw e (
            refl,
            omega arith,
            refl,
            subst
                (λ e. Tiles (base + (1 + n)) e (prefix_fields fuel (drop n rest) (base + (1 + n))))
                end_lem ih,
          )
    ]

attr_header-body :
    (flags l : ℕ) (rest : List ℕ) (len hdr : ℕ) (body : List ℕ)
    → attr_header flags l rest ≡ some (len, hdr, body)
    → (hdr + length body ≡ 3 + length rest) × (3 ≤ hdr)
unfolding attr_header
attr_header-body flags l rest len hdr body h = ground (arith, h)

attr_fields-cut :
    (fuel flags typ l base : ℕ) (rest : List ℕ)
    → attr_header flags l rest ≡ none
    → attr_fields (suc fuel) (flags ∷ typ ∷ l ∷ rest) base ≡ done
unfolding attr_fields
attr_fields-cut fuel flags typ l base rest e = rw (attr_fields, e) refl

attr_fields-line :
    (fuel flags typ l base : ℕ) (rest : List ℕ) (len hdr : ℕ) (body : List ℕ)
    → attr_header flags l rest ≡ some (len, hdr, body)
    → attr_fields (suc fuel) (flags ∷ typ ∷ l ∷ rest) base ≡ (
        if ltb (length body) len
        then done
        else new_field_at
            (name_or (name_of attr_names typ) (str "Attribute " ++ decimal typ))
            (attr_value typ (take len body))
            base
            (hdr + len)
          ▸ attr_fields fuel (drop len body) (base + (hdr + len)))
unfolding attr_fields
attr_fields-line fuel flags typ l base rest len hdr body e = cc e

-- The path attributes tile their block, each over its whole bytes, header included.
pub attr_fields-Tiles :
    (fuel : ℕ) (attrs : List ℕ) (base : ℕ)
    → Tiles base (base + length attrs) (attr_fields fuel attrs base)
unfolding attr_fields
attr_fields-Tiles zero attrs base = omega arith
attr_fields-Tiles (suc fuel) [] base = omega arith
attr_fields-Tiles (suc fuel) (a ∷ []) base = omega arith
attr_fields-Tiles (suc fuel) (a ∷ b ∷ []) base = omega arith
attr_fields-Tiles (suc fuel) (flags ∷ typ ∷ l ∷ rest) base =
    elim (Option-cases (attr_header flags l rest)) [
      | inl e ↦ rw (attr_fields-cut fuel flags typ l base rest e) (omega arith)
      | inr ((len, hdr, body), e) ↦
          let (size, three) = attr_header-body flags l rest len hdr body e in
          let ih = attr_fields-Tiles fuel (drop len body) (base + (hdr + len)) in
          rw (attr_fields-line fuel flags typ l base rest len hdr body e)
            (elim (Bool-cases (ltb (length body) len)) [
              | inl f ↦ rw f (omega arith)
              | inr f ↦
                  let fits : len ≤ length body = ltb→ge _ _ f in
                  let end_lem : base + (hdr + len) + length (drop len body)
                      ≡ base + length (flags ∷ typ ∷ l ∷ rest) =
                    omega (arith, length-drop len body, fits, size) in
                  rw f (
                    refl,
                    omega (arith, three),
                    refl,
                    subst
                        (λ z.
                          Tiles (base + (hdr + len)) z
                            (attr_fields fuel (drop len body) (base + (hdr + len))))
                        end_lem ih,
                  )
            ])
    ]

capabilities-Tiles :
    (fuel : ℕ) (buf : List ℕ) (base real_as : ℕ)
    → Tiles base (base + length buf) (capabilities fuel buf base real_as).0
unfolding capabilities
capabilities-Tiles zero buf base real_as = omega arith
capabilities-Tiles (suc fuel) [] base real_as = omega arith
capabilities-Tiles (suc fuel) (a ∷ []) base real_as = omega arith
capabilities-Tiles (suc fuel) (code ∷ clen ∷ rest) base real_as =
    let as' = next_as code (take clen rest) real_as in
    let ih = capabilities-Tiles fuel (drop clen rest) (base + (2 + clen)) as' in
    elim (Bool-cases (ltb (length rest) clen)) [
      | inl e ↦ rw e (omega arith)
      | inr e ↦
          let end_lem : base + (2 + clen) + length (drop clen rest)
              ≡ base + length (code ∷ clen ∷ rest) =
            omega (arith, length-drop clen rest, ltb→ge _ _ e) in
          rw e (
            refl,
            omega arith,
            refl,
            subst
                (λ z.
                  Tiles (base + (2 + clen)) z
                    (capabilities fuel (drop clen rest) (base + (2 + clen)) as').0)
                end_lem ih,
          )
    ]

-- The lines of the optional parameters lie in them.
pub open_params-Inside :
    (fuel : ℕ) (buf : List ℕ) (base real_as : ℕ)
    → Inside base (base + length buf) (open_params fuel buf base real_as).0
unfolding open_params
open_params-Inside zero buf base real_as = tt
open_params-Inside (suc fuel) [] base real_as = tt
open_params-Inside (suc fuel) (a ∷ []) base real_as = tt
open_params-Inside (suc fuel) (ptype ∷ plen ∷ rest) base real_as =
    let value = take plen rest in
    let cs = capabilities (length value) value (base + 2) 0 in
    let more : ℕ → Fields = λ a. (open_params fuel (drop plen rest) (base + (2 + plen)) a).0 in
    let hi : ℕ = base + length (ptype ∷ plen ∷ rest) in
    elim (Bool-cases (ltb (length rest) plen)) [
      | inl e ↦ rw e tt
      | inr e ↦
          let fits : plen ≤ length rest = ltb→ge _ _ e in
          let rest_lem : (a : ℕ) → Inside base hi (more a) = λ a.
            Inside-wider _ base _ hi (more a) (omega arith)
              (omega (arith, length-drop plen rest, fits))
              (open_params-Inside fuel (drop plen rest) (base + (2 + plen)) a) in
          let caps_lem : Inside base hi cs.0 =
            Inside-wider _ base _ hi cs.0 (omega arith) (omega (arith, length-take plen rest, fits))
              (Tiles-Inside _ _ cs.0 (capabilities-Tiles (length value) value (base + 2) 0)) in
          rw e (elim (Bool-cases (eqb ptype 2)) [
            | inl two ↦ rw two (Inside-append base hi cs.0 _ caps_lem (rest_lem _))
            | inr other ↦ rw other (inr (omega arith, omega (arith, fits), tt), rest_lem _)
          ])
    ]
