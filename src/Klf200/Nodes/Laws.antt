-- ===== src/Klf200/Nodes/Laws.antt =====
-- The collection of nodes.go as a map from ids to nodes.
use velux_to_mqtt_gw.Prelude.{
  ℕ, List, [], ◌∷◌, Option, none, some, ◌==◌, if◌then◌else◌, ◌≡◌, ◌≢◌, refl, arith, ◌∙◌, ap, All,
  Bool-cases, inl, inr, ==_iff, eq_refl,
}
use velux_to_mqtt_gw.Protocol.Frames.Nodes.{NodeInfo}
use velux_to_mqtt_gw.Klf200.Node.{Node, node_from_info, node_from_info-fields}
use velux_to_mqtt_gw.Klf200.Nodes.{add, by_id, add_all, load_nodes}

-- A node that is added is found under its id, and no other id finds another node than before.
pub by_id-add :
    (node : Node) (nodes : List Node) (id : ℕ)
    → by_id id (add node nodes) ≡ (if node.node_id == id then some node else by_id id nodes)
unfolding add by_id
by_id-add node [] id = refl
by_id-add node (existing ∷ nodes) id = ground (arith, by_id-add node nodes id)

-- The ids of the collection, in its order.
abbrev ids : List Node → List ℕ
ids [] = []
ids (node ∷ nodes) = node.node_id ∷ ids nodes

abbrev Differs : ℕ → ℕ → Type 0
Differs a b = a ≢ b

abbrev pub HasUniqueIds : List Node → Type 0
HasUniqueIds [] = Unit
HasUniqueIds (node ∷ nodes) = All (Differs node.node_id) (ids nodes) × HasUniqueIds nodes

add-Differs :
    (id : ℕ) (node : Node) (nodes : List Node)
    → id ≢ node.node_id
    → All (Differs id) (ids nodes)
    → All (Differs id) (ids (add node nodes))
unfolding add
add-Differs id node [] h all = (h, tt)
add-Differs id node (existing ∷ nodes) h (first, rest) =
    ground (arith, add-Differs id node nodes h rest)

pub add_unique :
    (node : Node) (nodes : List Node) → HasUniqueIds nodes → HasUniqueIds (add node nodes)
unfolding add
add_unique node [] h = (tt, tt)
add_unique node (existing ∷ nodes) (all, unique) =
    elim (Bool-cases (existing.node_id == node.node_id)) [
      | inl e ↦ rw (add, e) (rw ((==_iff existing.node_id node.node_id).0 e) at all, unique)
      | inr e ↦
          rw (add, e)
            (
              add-Differs existing.node_id node nodes (ground (arith, eq_refl node.node_id)) all,
              add_unique node nodes unique,
            )
    ]

add_all_unique :
    (infos : List NodeInfo) (nodes : List Node)
    → HasUniqueIds nodes
    → HasUniqueIds (add_all infos nodes)
unfolding add_all
add_all_unique [] nodes h = h
add_all_unique (info ∷ infos) nodes h =
    add_all_unique infos (add (node_from_info info) nodes)
      (add_unique (node_from_info info) nodes h)

-- The last of the frames for an id, if there is one.
abbrev pub last_info : ℕ → List NodeInfo → Option Node → Option Node
last_info id [] found = found
last_info id (info ∷ infos) found =
    last_info id infos (if info.node_id == id then some (node_from_info info) else found)

add_all-lookup :
    (infos : List NodeInfo) (nodes : List Node) (id : ℕ)
    → by_id id (add_all infos nodes) ≡ last_info id infos (by_id id nodes)
unfolding add_all
add_all-lookup [] nodes id = refl
add_all-lookup (info ∷ infos) nodes id =
    add_all-lookup infos (add (node_from_info info) nodes) id
    ∙ ap (λ o. last_info id infos o)
        (by_id-add (node_from_info info) nodes id ∙ rw ((node_from_info-fields info).0))

-- After a load the collection holds each id once, and finds under it the node made from the last frame
-- that the gateway sent for it.
pub load_nodes-lookup :
    (infos : List NodeInfo) (id : ℕ)
    → HasUniqueIds (load_nodes infos) × (by_id id (load_nodes infos) ≡ last_info id infos none)
unfolding load_nodes by_id
load_nodes-lookup infos id = (add_all_unique infos [] tt, add_all-lookup infos [] id)
