-- ===== src/Protocol/ReadBack/Tables.antt =====
-- The frames of app/klf200/protocol that carry a node's information or a table of scenes.
use velux_to_mqtt_gw.Prelude.{refl, arith, []}
use velux_to_mqtt_gw.Protocol.Message
use velux_to_mqtt_gw.Protocol.Message.{command}
use velux_to_mqtt_gw.Protocol.Payload.{marshal_payload, unmarshal_payload}
use velux_to_mqtt_gw.Protocol.Creation.{create_frame, frame_registry, register_all, register_frame}
use velux_to_mqtt_gw.Protocol.Constructors.{constructors}
use velux_to_mqtt_gw.Protocol.Frames.Nodes.{NodeInfo, marshal_node_info, unmarshal_node_info}
use velux_to_mqtt_gw.Protocol.Frames.Scenes.{
  SceneListNotification, marshal_scene_list_notification, unmarshal_scene_list_notification,
}
use velux_to_mqtt_gw.Protocol.Message.RoundTrip.Info.{
  NodeInfoFits, node_info-round_trip, length-marshal_node_info,
}
use velux_to_mqtt_gw.Protocol.Message.RoundTrip.SceneList.{
  scene_list_notification-round_trip, length-marshal_scene_list,
}
use velux_to_mqtt_gw.Protocol.ReadBack.{IsReadBack, readable_from}
use velux_to_mqtt_gw.Protocol.Fits.{Fits}

pub all_nodes_notification-IsReadBack :
    (n : NodeInfo) → NodeInfoFits n → IsReadBack (Message.all_nodes_notification n)
unfolding marshal_payload unmarshal_payload command create_frame frame_registry register_all
    register_frame constructors
all_nodes_notification-IsReadBack n h =
    let w = length-marshal_node_info n h in
    readable_from (λ m. Message.all_nodes_notification m) (marshal_node_info n) unmarshal_node_info
      (omega (arith, w.2)) refl refl (λ p. refl) w.1 (node_info-round_trip n h)

pub node_information_notification-IsReadBack :
    (n : NodeInfo) → NodeInfoFits n → IsReadBack (Message.node_information_notification n)
unfolding marshal_payload unmarshal_payload command create_frame frame_registry register_all
    register_frame constructors
node_information_notification-IsReadBack n h =
    let w = length-marshal_node_info n h in
    readable_from (λ m. Message.node_information_notification m) (marshal_node_info n)
      unmarshal_node_info (omega (arith, w.2)) refl refl (λ p. refl) w.1 (node_info-round_trip n h)

pub scene_list_notification-IsReadBack :
    (f : SceneListNotification)
    → Fits (Message.scene_list_notification f)
    → IsReadBack (Message.scene_list_notification f)
unfolding marshal_payload unmarshal_payload command create_frame frame_registry register_all
    register_frame constructors
scene_list_notification-IsReadBack f h =
    let w = length-marshal_scene_list f h.0 h.1 in
    readable_from (λ g. Message.scene_list_notification g) (marshal_scene_list_notification f)
      (unmarshal_scene_list_notification (record { scenes = []; remaining_scenes = 0 }))
      (omega (arith, w.2)) refl refl (λ p. refl) w.1
      (scene_list_notification-round_trip _ f h.0 h.1)
