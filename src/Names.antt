-- ===== src/Names.antt =====
-- The naming convention of programs, packages and scenarios, `^[a-z0-9][a-z0-9-]{0,62}$`: `nameRE`
-- of nodeapps/internal/nodeagent/manager.go and `faultNameRE` of controller/internal/biz/fault.go.
use Prim.Native.Char.{code}
use dc_net_lab.Prelude.{ℕ, String, List, [], ◌∷◌, Bool, true, false, ◌&&◌, ◌||◌, leb, eqb, length}

-- The code points of a text.
abbrev pub codes : String → List ℕ
codes String.[] = []
codes (String.◌∷◌ c s) = code c ∷ codes s

abbrev pub is_alnum : ℕ → Bool
is_alnum c = (leb b'a' c && leb c b'z') || (leb b'0' c && leb c b'9')

pub all_name_chars : List ℕ → Bool
all_name_chars [] = true
all_name_chars (c ∷ cs) = (is_alnum c || eqb c b'-') && all_name_chars cs

unfoldable pub is_name_codes : List ℕ → Bool
unfolding all_name_chars
is_name_codes [] = false
is_name_codes (c ∷ cs) = is_alnum c && leb (length cs) 62 && all_name_chars cs

unfoldable pub is_name : String → Bool
unfolding is_name_codes
is_name s = is_name_codes (codes s)
