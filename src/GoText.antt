-- ===== src/GoText.antt =====
-- Go's strings as the bytes they hold, with what the program takes of fmt, strings and netip to print
-- numbers, lists and IPv4 addresses.
use dc_net_lab.Prelude.{
  ℕ, zero, suc, ◌+◌, ◌/◌, ◌%◌, ◌-◌, if◌then◌else◌, String, List, [], ◌∷◌, ◌++◌, Bool, true, false,
  ◌&&◌, ltb, eqb,
}
use dc_net_lab.Names.{codes}

abbrev pub Text : Type 0
Text = List ℕ

-- A literal of the source; all of them are ASCII.
abbrev pub str : String → Text
str = codes

unfoldable pub same : Text → Text → Bool
same [] [] = true
same [] (b ∷ bs) = false
same (a ∷ xs) [] = false
same (a ∷ xs) (b ∷ bs) = eqb a b && same xs bs

-- `%d` of a number that is not negative. The number itself is fuel enough.
decimal_on : ℕ → ℕ → Text
decimal_on zero n = []
decimal_on (suc fuel) n = elim (ltb n 10) [
  | true ↦ (b'0' + n) ∷ []
  | false ↦ decimal_on fuel (n / 10) ++ ((b'0' + n % 10) ∷ [])
]

unfoldable pub decimal : ℕ → Text
unfolding decimal_on
decimal n = decimal_on (suc n) n

hex_digit : ℕ → ℕ
hex_digit d = if ltb d 10 then b'0' + d else b'a' + (d - 10)

-- `%x` of a byte slice
pub hex : List ℕ → Text
unfolding hex_digit
hex [] = []
hex (b ∷ bs) = hex_digit (b / 16) ∷ hex_digit (b % 16) ∷ hex bs

-- `strings.Join`
unfoldable pub join : Text → List Text → Text
join sep [] = []
join sep (t ∷ []) = t
join sep (t ∷ u ∷ ts) = t ++ sep ++ join sep (u ∷ ts)

-- `netip.AddrFrom4(...).String()`
unfoldable pub addr4 : ℕ → ℕ → ℕ → ℕ → Text
addr4 a b c d = join (str ".") (decimal a ∷ decimal b ∷ decimal c ∷ decimal d ∷ [])
