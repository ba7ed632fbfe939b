-- ===== src/History/Examples.antt =====
-- Two scenarios over two hours.
use dc_net_lab.Prelude.{ℕ, ◌≡◌, String, List, [], ◌∷◌, arith, ◌+◌, string_eq}
use dc_net_lab.Prelude.Map
use dc_net_lab.History.{Point, hour, in_range, query}
use dc_net_lab.History.Complete.{append_points, own_points, query_complete}

abbrev point : ℕ → Point ℕ
point ts = record { ts = ts; value = ts }

abbrev calls : List (String × Point ℕ)
calls =
    ("a", point 1)
    ∷ ("b", point 2)
    ∷ ("a", point (hour + 5))
    ∷ ("b", point (hour + 6))
    ∷ ("a", point (hour + 7))
    ∷ []

query_complete_example :
    query (append_points hour Map.empty calls) "a" 7 (hour + 6) ≡ point (hour + 5) ∷ []
unfolding own_points in_range
query_complete_example =
    query_complete hour calls "a" 7 (hour + 6) (omega arith, (omega arith, (omega arith, tt)))
      (omega arith)
