-- ===== src/Protocol/Frames/Simple.antt =====
-- The short frames of app/klf200/protocol: the gateway state (frame_state_network.go), a single
-- node (frame_nodes.go), and the frames with no payload.
use velux_to_mqtt_gw.Prelude.{
  ℕ, List, [], ◌∷◌, length, get_or, ◌==◌, replicate, Result, ok, ◌>>◌, require,
}
use velux_to_mqtt_gw.Protocol.Wire.{Error, payload_len}

-- A frame with no payload checks that there is none.
unfoldable pub unmarshal_empty : List ℕ → Result Error (Unit {0})
unmarshal_empty p = require (length p == 0) (payload_len (length p) 0)

-- GW_GET_STATE_CFM
pub record GetStateConfirmation : Type 0 where
  pub gateway_state : ℕ
  pub gateway_sub_state : ℕ

unfoldable pub marshal_get_state_confirmation : GetStateConfirmation → List ℕ
marshal_get_state_confirmation f = f.gateway_state ∷ f.gateway_sub_state ∷ replicate 4 0

unfoldable pub unmarshal_get_state_confirmation :
    GetStateConfirmation → List ℕ → Result Error GetStateConfirmation
unmarshal_get_state_confirmation f p = do
  require (length p == 6) (payload_len (length p) 6)
  ok (record f { gateway_state = get_or p 0 0; gateway_sub_state = get_or p 1 0 })

-- GW_GET_NODE_INFORMATION_REQ
pub record NodeInformationRequest : Type 0 where
  pub node_id : ℕ

unfoldable pub marshal_node_information_request : NodeInformationRequest → List ℕ
marshal_node_information_request f = f.node_id ∷ []

unfoldable pub unmarshal_node_information_request :
    NodeInformationRequest → List ℕ → Result Error NodeInformationRequest
unmarshal_node_information_request f p = do
  require (length p == 1) (payload_len (length p) 1)
  ok (record f { node_id = get_or p 0 0 })

-- GW_GET_NODE_INFORMATION_CFM
pub record NodeInformationConfirmation : Type 0 where
  pub status : ℕ
  pub node_id : ℕ

unfoldable pub marshal_node_information_confirmation : NodeInformationConfirmation → List ℕ
marshal_node_information_confirmation f = f.status ∷ f.node_id ∷ []

unfoldable pub unmarshal_node_information_confirmation :
    NodeInformationConfirmation → List ℕ → Result Error NodeInformationConfirmation
unmarshal_node_information_confirmation f p = do
  require (length p == 2) (payload_len (length p) 2)
  ok (record f { status = get_or p 0 0; node_id = get_or p 1 0 })
