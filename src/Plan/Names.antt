-- ===== src/Plan/Names.antt =====
-- controller/internal/biz/plandiff.go: the maps by name, and the names of nodes and links.
use dc_net_lab.Prelude.{
  String, List, [], ◌∷◌, Bool, true, false, ◌||◌, ◌≡◌, ap, ◌∙◌, arith, none, some, ◌==◌, string_eq,
}
use dc_net_lab.Prelude.Map
use dc_net_lab.Prelude.Map.{Map, get-put, get-empty}
use dc_net_lab.Model.{Node, Link}
use dc_net_lab.Plan.{nodes_by_name, links_by_name, node_map, link_map, has}
use dc_net_lab.Plan.Increment.{named_node, named_link}

has-put :
    {V : Type 0} (m : Map String V) (k x : String) (v : V)
    → has (Map.put m k v) x ≡ (k == x || has m x)
has-put m k x v = ground (arith, get-put m k x v)

or-shift : (a b c : Bool) → ((a || b) || c) ≡ (b || (a || c))
or-shift a b c = ground arith

has-nodes_by_name :
    (m : Map String Node) (ns : List Node) (x : String)
    → has (nodes_by_name m ns) x ≡ (has m x || named_node ns x)
unfolding nodes_by_name named_node
has-nodes_by_name m [] x = ground arith
has-nodes_by_name m (n ∷ ns) x =
    has-nodes_by_name (Map.put m n.meta.name n) ns x
    ∙ ap (λ b. b || named_node ns x) (has-put m n.meta.name x n)
    ∙ or-shift (n.meta.name == x) (has m x) (named_node ns x)

has-links_by_name :
    (m : Map String Link) (ls : List Link) (x : String)
    → has (links_by_name m ls) x ≡ (has m x || named_link ls x)
unfolding links_by_name named_link
has-links_by_name m [] x = ground arith
has-links_by_name m (l ∷ ls) x =
    has-links_by_name (Map.put m l.meta.name l) ls x
    ∙ ap (λ b. b || named_link ls x) (has-put m l.meta.name x l)
    ∙ or-shift (l.meta.name == x) (has m x) (named_link ls x)

has-empty : (V : Type 0) (x : String) → has (Map.empty {K = String} {V = V}) x ≡ false
has-empty V x = ap (λ o. elim o [ none ↦ false | some v ↦ true ]) (get-empty {V = V} x)

-- The map knows the names of the list.
pub has-node_map : (ns : List Node) (x : String) → has (node_map ns) x ≡ named_node ns x
has-node_map ns x =
    has-nodes_by_name Map.empty ns x ∙ ap (λ b. b || named_node ns x) (has-empty Node x)

pub has-link_map : (ls : List Link) (x : String) → has (link_map ls) x ≡ named_link ls x
has-link_map ls x =
    has-links_by_name Map.empty ls x ∙ ap (λ b. b || named_link ls x) (has-empty Link x)
