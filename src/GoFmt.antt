-- ===== src/GoFmt.antt =====
-- What the program takes of Go's fmt and sort on strings: numbers in decimal, `Sscanf` of a literal and one `%d`, and
-- sorting.
pub mod Scan
use Prim.Native.Nat.{compare, Ordering}
use Prim.Native.String.{compare as compare_text}
use dc_net_lab.Prelude.{
  ℕ, zero, suc, ◌+◌, ◌-◌, ◌*◌, ◌/◌, ◌%◌, ◌^◌, ◌≤◌, ◌<◌, String, List, [], ◌∷◌, ◌++◌, Bool, true,
  false, ◌&&◌, ◌||◌, not, Option, none, some, ℤ, pos, negsuc, ltb, leb, eqb, if◌then◌else◌, ltb_ℤ,
}
use dc_net_lab.Names.{codes}
use dc_net_lab.Model.{◌+s+◌}

abbrev pub digit : ℕ → String
digit d =
    if eqb d 0
    then "0"
    else if eqb d 1
    then "1"
    else if eqb d 2
    then "2"
    else if eqb d 3
    then "3"
    else if eqb d 4
    then "4"
    else if eqb d 5
    then "5"
    else if eqb d 6
    then "6"
    else if eqb d 7
    then "7"
    else if eqb d 8
    then "8"
    else "9"

-- `%d` of a number that is not negative, on fuel
unfoldable pub show_on : ℕ → ℕ → String
show_on zero n = ""
show_on (suc fuel) n = elim (ltb n 10) [
  | true ↦ digit n
  | false ↦ show_on fuel (n / 10) +s+ digit (n % 10)
]

-- The number itself is fuel enough.
unfoldable pub show : ℕ → String
show n = show_on (suc n) n

unfoldable pub show_int : ℤ → String
show_int (pos n) = show n
show_int (negsuc n) = "-" +s+ show (suc n)

abbrev pub is_digit : ℕ → Bool
is_digit c = leb b'0' c && leb c b'9'

unfoldable pub scan_digits : ℕ → List ℕ → ℕ
scan_digits acc [] = acc
scan_digits acc (c ∷ cs) =
    let rest = scan_digits (acc * 10 + (c - b'0')) cs in if is_digit c then rest else acc

-- one digit at least; what follows the digits is left
unfoldable pub scan_number : List ℕ → Option ℕ
scan_number [] = none
scan_number (c ∷ cs) = if is_digit c then some (scan_digits (c - b'0') cs) else none

-- the range of int64
unfoldable pub scan_pos : List ℕ → Option ℤ
scan_pos cs = elim (scan_number cs) [
  | none ↦ none
  | some n ↦ if ltb n (2 ^ 63) then some (pos n) else none
]

unfoldable pub scan_neg : List ℕ → Option ℤ
scan_neg cs = elim (scan_number cs) [
  | none ↦ none
  | some zero ↦ some (pos 0)
  | some (suc n) ↦ if ltb n (2 ^ 63) then some (negsuc n) else none
]

unfoldable pub scan_signed : List ℕ → Option ℤ
scan_signed [] = none
scan_signed (c ∷ cs) =
    if eqb c b'-' then scan_neg cs else if eqb c b'+' then scan_pos cs else scan_pos (c ∷ cs)

unfoldable pub skip_blanks : List ℕ → List ℕ
skip_blanks [] = []
skip_blanks (c ∷ cs) = let rest = skip_blanks cs in if eqb c b' ' || eqb c 9 then rest else c ∷ cs

unfoldable pub after : List ℕ → List ℕ → Option (List ℕ)
after [] cs = some cs
after (l ∷ ls) [] = none
after (l ∷ ls) (c ∷ cs) = let rest = after ls cs in if eqb l c then rest else none

-- `Sscanf(s, literal + "%d", &n)`
unfoldable pub sscanf : String → String → Option ℤ
sscanf literal s = elim (after (codes literal) (codes s)) [
  | none ↦ none
  | some cs ↦ scan_signed (skip_blanks cs)
]

-- `sort.Ints`
unfoldable pub insert_int : ℤ → List ℤ → List ℤ
insert_int n [] = n ∷ []
insert_int n (m ∷ ms) = let rest = insert_int n ms in if ltb_ℤ m n then m ∷ rest else n ∷ m ∷ ms

unfoldable pub sort_ints : List ℤ → List ℤ
sort_ints [] = []
sort_ints (n ∷ ns) = insert_int n (sort_ints ns)

-- s < t, by the bytes
abbrev pub lt_text : String → String → Bool
lt_text s t = elim (compare_text s t) [ Ordering.lt ↦ true | _ ↦ false ]

-- `sort.Strings`
unfoldable pub insert_text : String → List String → List String
insert_text s [] = s ∷ []
insert_text s (t ∷ ts) = let rest = insert_text s ts in if lt_text t s then t ∷ rest else s ∷ t ∷ ts

unfoldable pub sort_texts : List String → List String
sort_texts [] = []
sort_texts (s ∷ ss) = insert_text s (sort_texts ss)
