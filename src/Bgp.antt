-- ===== src/Bgp.antt =====
-- controller/internal/capture: the fields of decode.go that the viewer's protocol tree is made of, and what
-- the BGP decoder of bgp.go shares. Offsets count from the start of the TCP payload.
pub mod Attributes
pub mod Capabilities
pub mod Messages
pub mod Ranges
pub mod Framing
mod Examples
use dc_net_lab.Prelude.{
  ℕ, zero, suc, ◌+◌, ◌*◌, List, [], ◌∷◌, Option, none, some, ltb, eqb, if◌then◌else◌, String,
}
use dc_net_lab.GoText.{Text, str}

mutual
  -- A line of the tree, and the lines below one another.
  pub data Field : Type 0 where
    field : (name value : Text) (offset length : ℕ) (children : Fields) → Field

  pub data Fields : Type 0 where
    done : Fields
    ◌▸◌ : Field → Fields → Fields

infixr 67 ◌▸◌
abbrev pub new_field : Text → Text → Field
new_field name value = field name value 0 0 done

abbrev pub new_field_at : Text → Text → ℕ → ℕ → Field
new_field_at name value offset length = field name value offset length done

pub append_fields : Fields → Fields → Fields
append_fields done gs = gs
append_fields (f ▸ fs) gs = f ▸ append_fields fs gs

pub field_count : Fields → ℕ
field_count done = 0
field_count (f ▸ fs) = suc (field_count fs)

mutual
  pub shift_field : Field → ℕ → Field
  shift_field (field name value offset length children) delta =
      field name value (if ltb 0 length then offset + delta else offset) length
        (shift_fields children delta)

  pub shift_fields : Fields → ℕ → Fields
  shift_fields done delta = done
  shift_fields (f ▸ fs) delta = shift_field f delta ▸ shift_fields fs delta

pub record Message : Type 0 where
  pub type : Text
  pub summary : Text
  pub fields : Fields
  pub offset : ℕ
  pub length : ℕ

-- binary.BigEndian
abbrev pub u16 : ℕ → ℕ → ℕ
u16 a b = a * 256 + b

abbrev pub u32 : ℕ → ℕ → ℕ → ℕ → ℕ
u32 a b c d = (((a * 256) + b) * 256 + c) * 256 + d

-- a name that a table has, or what the source prints without one
abbrev pub name_or : Option Text → Text → Text
name_or none t = t
name_or (some n) t = n

-- a map literal of the source, and its entry of a key
abbrev pub Names : Type 0
Names = List (ℕ × Text)

pub name_of : Names → ℕ → Option Text
name_of [] k = none
name_of ((j, t) ∷ ns) k = if eqb j k then some t else name_of ns k
