-- ===== src/Klf200/Nodes.antt =====
-- app/klf200/nodes.go: the collection of nodes, and `LoadNodes` of client.go, which fills it.
pub mod Laws
use velux_to_mqtt_gw.Prelude.{
  ℕ, List, [], ◌∷◌, ◌++◌, Bool, true, false, ◌&&◌, Option, none, some, ◌==◌, if◌then◌else◌,
}
use velux_to_mqtt_gw.Protocol.Frames.Nodes.{NodeInfo}
use velux_to_mqtt_gw.Klf200.Node.{Node, node_from_info}

unfoldable pub add : Node → List Node → List Node
add node [] = node ∷ []
add node (existing ∷ nodes) =
    if existing.node_id == node.node_id then node ∷ nodes else existing ∷ add node nodes

unfoldable pub by_id : ℕ → List Node → Option Node
by_id id [] = none
by_id id (node ∷ nodes) = if node.node_id == id then some node else by_id id nodes

-- Go's `==` on strings, here on their bytes.
unfoldable pub same_bytes : List ℕ → List ℕ → Bool
same_bytes [] [] = true
same_bytes (a ∷ s) (b ∷ t) = (a == b) && same_bytes s t
same_bytes s t = false

unfoldable pub by_name : List ℕ → List Node → Option Node
unfolding same_bytes
by_name name [] = none
by_name name (node ∷ nodes) = if same_bytes node.name name then some node else by_name name nodes

unfoldable pub contains : ℕ → List Node → Bool
unfolding by_id
contains id nodes = elim (by_id id nodes) [ none ↦ false | some node ↦ true ]

add_all : List NodeInfo → List Node → List Node
unfolding add node_from_info
add_all [] nodes = nodes
add_all (info ∷ infos) nodes = add_all infos (add (node_from_info info) nodes)

-- `LoadNodes` behind the exchange: the collection is cleared, then filled in the order of the frames.
unfoldable pub load_nodes : List NodeInfo → List Node
unfolding add_all
load_nodes collected = add_all collected []
