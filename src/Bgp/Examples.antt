-- ===== src/Bgp/Examples.antt =====
-- A KEEPALIVE and an UPDATE that announces 10.0.0.0/8, and the start of a third message.
use dc_net_lab.Prelude.{arith, ℕ, List, [], ◌∷◌, ◌++◌, ◌≡◌, refl, map}
use dc_net_lab.GoText.{str, decimal, same, join, addr4}
use dc_net_lab.Bgp.{name_of}
use dc_net_lab.Bgp.Messages.{
  decode_bgp, decode_on, split_header, whole_message, cut_header, decode_message, decode_update,
  block, prefix_fields, prefix_text, join_capped, field_values,
}
use dc_net_lab.Bgp.Framing.{Sent, AllSendable, segment_of, shown_at, decode_bgp-segment}
use dc_net_lab.Bgp.Ranges.Messages.{Follows, decode_bgp-Follows}

abbrev marker : List ℕ
marker =
    255 ∷ 255 ∷ 255 ∷ 255 ∷ 255 ∷ 255 ∷ 255 ∷ 255 ∷ 255 ∷ 255 ∷ 255 ∷ 255 ∷ 255 ∷ 255 ∷ 255 ∷ 255
    ∷ []

abbrev attributes : List ℕ
attributes = 64 ∷ 1 ∷ 1 ∷ 0 ∷ 64 ∷ 2 ∷ 6 ∷ 2 ∷ 1 ∷ 0 ∷ 1 ∷ 0 ∷ 0 ∷ []

abbrev segment : List ℕ
segment =
    marker
    ++ (0 ∷ 19 ∷ 4 ∷ [])
    ++ marker
    ++ (0 ∷ 38 ∷ 2 ∷ 0 ∷ 0 ∷ 0 ∷ 13 ∷ [])
    ++ attributes
    ++ (8 ∷ 10 ∷ [])
    ++ marker

decode_bgp-Follows_example : Follows 0 73 (decode_bgp segment)
decode_bgp-Follows_example = decode_bgp-Follows segment

segment_types :
    map (λ m. m.type) (decode_bgp segment) ≡ str "KEEPALIVE" ∷ str "UPDATE" ∷ str "?" ∷ []
unfolding decode_bgp decode_on split_header name_of whole_message cut_header decode_message same
    decode_update block
segment_types = refl

segment_summaries :
    map (λ m. m.summary) (decode_bgp segment)
    ≡ str "KEEPALIVE" ∷ str "UPDATE 10.0.0.0/8" ∷ str "[truncated]" ∷ []
unfolding decode_bgp decode_on split_header name_of whole_message cut_header decode_message same
    decode_update block prefix_fields prefix_text join_capped field_values decimal join addr4
segment_summaries = refl

-- a KEEPALIVE and a ROUTE-REFRESH for IPv4 unicast
abbrev sent : List Sent
sent =
    record { typ = 4; name = str "KEEPALIVE"; body = [] }
    ∷ record { typ = 5; name = str "ROUTE-REFRESH"; body = 0 ∷ 1 ∷ 0 ∷ 1 ∷ [] }
    ∷ []

sent-AllSendable : AllSendable sent
unfolding name_of
sent-AllSendable = ((refl, omega arith), ((refl, omega arith), tt))

decode_bgp-segment_example : decode_bgp (segment_of sent) ≡ shown_at 0 sent
decode_bgp-segment_example = decode_bgp-segment sent sent-AllSendable
