-- ===== src/Protocol/Frames/Naming.antt =====
-- app/klf200/protocol/frame_nodes.go: the frames that rename and discover nodes.
use velux_to_mqtt_gw.Prelude.{
  ℕ, List, [], ◌∷◌, ◌++◌, length, get_or, take, drop, ◌==◌, Result, ok, ◌>>=◌, ◌>>◌, require,
}
use velux_to_mqtt_gw.Protocol.Wire.{Error, payload_len}
use velux_to_mqtt_gw.Protocol.Frames.Bytes.{
  u16_at, u16_bytes, padded, string_to_bytes, bytes_to_string,
}

-- GW_NODE_INFORMATION_CHANGED_NTF
pub record NodeInformationChanged : Type 0 where
  pub node_id : ℕ
  pub name : List ℕ
  pub order : ℕ  -- uint16
  pub placement : ℕ
  pub node_variation : ℕ

unfoldable pub marshal_node_information_changed : NodeInformationChanged → Result Error (List ℕ)
marshal_node_information_changed f = do
  name_bytes ← string_to_bytes f.name 64
  ok (f.node_id ∷ (name_bytes ++ u16_bytes f.order (f.placement ∷ f.node_variation ∷ [])))

unfoldable pub unmarshal_node_information_changed :
    NodeInformationChanged → List ℕ → Result Error NodeInformationChanged
unmarshal_node_information_changed f p = do
  require (length p == 69) (payload_len (length p) 69)
  ok (record f {
    node_id = get_or p 0 0;
    name = bytes_to_string (take 64 (drop 1 p));
    order = u16_at p 65;
    placement = get_or p 67 0;
    node_variation = get_or p 68 0;
  })

-- GW_CS_DISCOVER_NODES_REQ
pub record DiscoverNodesRequest : Type 0 where
  pub node_type : ℕ

unfoldable pub marshal_discover_nodes_request : DiscoverNodesRequest → List ℕ
marshal_discover_nodes_request f = f.node_type ∷ []

unfoldable pub unmarshal_discover_nodes_request :
    DiscoverNodesRequest → List ℕ → Result Error DiscoverNodesRequest
unmarshal_discover_nodes_request f p = do
  require (length p == 1) (payload_len (length p) 1)
  ok (record f { node_type = get_or p 0 0 })

-- GW_CS_DISCOVER_NODES_NTF: 131 bytes that are not looked into.
pub record DiscoverNodesNotification : Type 0 where
  pub payload : List ℕ

unfoldable pub marshal_discover_nodes_notification : DiscoverNodesNotification → List ℕ
marshal_discover_nodes_notification f = padded 131 f.payload

unfoldable pub unmarshal_discover_nodes_notification :
    DiscoverNodesNotification → List ℕ → Result Error DiscoverNodesNotification
unmarshal_discover_nodes_notification f p = do
  require (length p == 131) (payload_len (length p) 131)
  ok (record f { payload = p })

-- GW_SET_NODE_NAME_REQ
pub record SetNodeNameRequest : Type 0 where
  pub node_id : ℕ
  pub name : List ℕ

unfoldable pub marshal_set_node_name_request : SetNodeNameRequest → Result Error (List ℕ)
marshal_set_node_name_request f = do
  name_bytes ← string_to_bytes f.name 64
  ok (f.node_id ∷ name_bytes)

unfoldable pub unmarshal_set_node_name_request :
    SetNodeNameRequest → List ℕ → Result Error SetNodeNameRequest
unmarshal_set_node_name_request f p = do
  require (length p == 65) (payload_len (length p) 65)
  ok (record f { node_id = get_or p 0 0; name = bytes_to_string (take 64 (drop 1 p)) })

-- GW_SET_NODE_NAME_CFM
pub record SetNodeNameConfirmation : Type 0 where
  pub status : ℕ
  pub node_id : ℕ

unfoldable pub marshal_set_node_name_confirmation : SetNodeNameConfirmation → List ℕ
marshal_set_node_name_confirmation f = f.status ∷ f.node_id ∷ []

unfoldable pub unmarshal_set_node_name_confirmation :
    SetNodeNameConfirmation → List ℕ → Result Error SetNodeNameConfirmation
unmarshal_set_node_name_confirmation f p = do
  require (length p == 2) (payload_len (length p) 2)
  ok (record f { status = get_or p 0 0; node_id = get_or p 1 0 })
