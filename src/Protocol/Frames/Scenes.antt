-- ===== src/Protocol/Frames/Scenes.antt =====
-- app/klf200/protocol/frame_scenes_wink.go: the scenes, and the frames that make a node wink.
use velux_to_mqtt_gw.Prelude.{
  ℕ, zero, suc, ◌+◌, ◌-◌, ◌*◌, List, [], ◌∷◌, ◌++◌, length, get_or, take, drop, ltb, ◌==◌, not,
  byte, Result, ok, ◌>>=◌, ◌>>◌, require,
}
use velux_to_mqtt_gw.Protocol.Wire.{
  Error, payload_len, payload_too_short, too_many_nodes, wrong_node_length, wrong_scene_length,
}
use velux_to_mqtt_gw.Protocol.Frames.Bytes.{
  u16_at, u16_bytes, padded, string_to_bytes, bytes_to_string,
}
use velux_to_mqtt_gw.Protocol.Frames.Limitation.{nodes_at}

-- GW_GET_SCENE_LIST_CFM
pub record SceneListConfirmation : Type 0 where
  pub count_scenes : ℕ

unfoldable pub marshal_scene_list_confirmation : SceneListConfirmation → List ℕ
marshal_scene_list_confirmation f = f.count_scenes ∷ []

unfoldable pub unmarshal_scene_list_confirmation :
    SceneListConfirmation → List ℕ → Result Error SceneListConfirmation
unmarshal_scene_list_confirmation f p = do
  require (length p == 1) (payload_len (length p) 1)
  ok (record f { count_scenes = get_or p 0 0 })

pub record SceneEntry : Type 0 where
  pub number : ℕ
  pub name : List ℕ

-- GW_GET_SCENE_LIST_NTF. `sceneNameToBytes` and `sceneNameFromBytes` are the string helpers of
-- frame_auth_system.go at 64 bytes.
pub record SceneListNotification : Type 0 where
  pub scenes : List SceneEntry
  pub remaining_scenes : ℕ

-- The loop over the scenes, and what follows it.
unfoldable pub scene_bytes : List SceneEntry → List ℕ → Result Error (List ℕ)
scene_bytes [] rest = ok rest
scene_bytes (s ∷ scenes) rest = do
  name_bytes ← string_to_bytes s.name 64
  later ← scene_bytes scenes rest
  ok (s.number ∷ (name_bytes ++ later))

unfoldable pub marshal_scene_list_notification : SceneListNotification → Result Error (List ℕ)
unfolding scene_bytes
marshal_scene_list_notification f = do
  later ← scene_bytes f.scenes (f.remaining_scenes ∷ [])
  ok (byte (length f.scenes) ∷ later)

-- `payload[i*65+1 : i*65+66]` for each scene, over what is left of the payload.
unfoldable pub read_scenes : ℕ → List ℕ → List SceneEntry
read_scenes zero p = []
read_scenes (suc n) p =
    record { number = get_or p 0 0; name = bytes_to_string (take 64 (drop 1 p)) }
    ∷ read_scenes n (drop 65 p)

unfoldable pub unmarshal_scene_list_notification :
    SceneListNotification → List ℕ → Result Error SceneListNotification
unfolding read_scenes
unmarshal_scene_list_notification f p = do
  require (not (ltb (length p) 2)) (payload_too_short (length p))
  require (length p == get_or p 0 0 * 65 + 2)
      (wrong_scene_length (length p) (get_or p 0 0 * 65 + 2))
  ok (record f {
    scenes = read_scenes (get_or p 0 0) (drop 1 p);
    remaining_scenes = get_or p (length p - 1) 0;
  })

-- GW_ACTIVATE_SCENE_REQ
pub record ActivateSceneRequest : Type 0 where
  pub scene_id : ℕ
  pub session_id : ℕ  -- uint16
  pub originator : ℕ
  pub priority : ℕ
  pub velocity : ℕ

unfoldable pub marshal_activate_scene_request : ActivateSceneRequest → List ℕ
marshal_activate_scene_request f =
    u16_bytes f.session_id (f.originator ∷ f.priority ∷ f.scene_id ∷ f.velocity ∷ [])

unfoldable pub unmarshal_activate_scene_request :
    ActivateSceneRequest → List ℕ → Result Error ActivateSceneRequest
unmarshal_activate_scene_request f p = do
  require (length p == 6) (payload_len (length p) 6)
  ok (record f {
    session_id = u16_at p 0;
    originator = get_or p 2 0;
    priority = get_or p 3 0;
    scene_id = get_or p 4 0;
    velocity = get_or p 5 0;
  })

-- GW_ACTIVATE_SCENE_CFM
pub record ActivateSceneConfirmation : Type 0 where
  pub session_id : ℕ  -- uint16
  pub status : ℕ

unfoldable pub marshal_activate_scene_confirmation : ActivateSceneConfirmation → List ℕ
marshal_activate_scene_confirmation f = f.status ∷ u16_bytes f.session_id []

unfoldable pub unmarshal_activate_scene_confirmation :
    ActivateSceneConfirmation → List ℕ → Result Error ActivateSceneConfirmation
unmarshal_activate_scene_confirmation f p = do
  require (length p == 3) (payload_len (length p) 3)
  ok (record f { status = get_or p 0 0; session_id = u16_at p 1 })

-- GW_WINK_SEND_REQ
pub record WinkSendRequest : Type 0 where
  pub session_id : ℕ  -- uint16
  pub originator : ℕ
  pub priority : ℕ
  pub node_ids : List ℕ
  pub wink_state : ℕ
  pub wink_time : ℕ

unfoldable pub marshal_wink_send_request : WinkSendRequest → Result Error (List ℕ)
marshal_wink_send_request f = do
  require (not (ltb 20 (length f.node_ids))) (too_many_nodes (length f.node_ids))
  ok (
      u16_bytes f.session_id (
        f.originator
        ∷ f.priority
        ∷ f.wink_state
        ∷ f.wink_time
        ∷ byte (length f.node_ids)
        ∷ padded 20 f.node_ids))

unfoldable pub unmarshal_wink_send_request : WinkSendRequest → List ℕ → Result Error WinkSendRequest
unmarshal_wink_send_request f p = do
  require (length p == 27) (payload_len (length p) 27)
  require (not (ltb 20 (get_or p 6 0))) (wrong_node_length (get_or p 6 0))
  ok (record f {
    session_id = u16_at p 0;
    originator = get_or p 2 0;
    priority = get_or p 3 0;
    wink_state = get_or p 4 0;
    wink_time = get_or p 5 0;
    node_ids = nodes_at p 7 (get_or p 6 0);
  })

-- GW_WINK_SEND_CFM
pub record WinkSendConfirmation : Type 0 where
  pub session_id : ℕ  -- uint16
  pub status : ℕ

unfoldable pub marshal_wink_send_confirmation : WinkSendConfirmation → List ℕ
marshal_wink_send_confirmation f = u16_bytes f.session_id (f.status ∷ [])

unfoldable pub unmarshal_wink_send_confirmation :
    WinkSendConfirmation → List ℕ → Result Error WinkSendConfirmation
unmarshal_wink_send_confirmation f p = do
  require (length p == 3) (payload_len (length p) 3)
  ok (record f { session_id = u16_at p 0; status = get_or p 2 0 })

-- GW_WINK_SEND_NTF
pub record WinkSendNotification : Type 0 where
  pub session_id : ℕ  -- uint16

unfoldable pub marshal_wink_send_notification : WinkSendNotification → List ℕ
marshal_wink_send_notification f = u16_bytes f.session_id []

unfoldable pub unmarshal_wink_send_notification :
    WinkSendNotification → List ℕ → Result Error WinkSendNotification
unmarshal_wink_send_notification f p = do
  require (length p == 2) (payload_len (length p) 2)
  ok (record f { session_id = u16_at p 0 })
