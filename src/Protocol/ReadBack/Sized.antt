-- ===== src/Protocol/ReadBack/Sized.antt =====
-- The frames of app/klf200/protocol that carry texts, lists and arrays of a fixed size.
use velux_to_mqtt_gw.Prelude.{refl, arith, ok}
use velux_to_mqtt_gw.Protocol.Message
use velux_to_mqtt_gw.Protocol.Message.{command}
use velux_to_mqtt_gw.Protocol.Payload.{marshal_payload, unmarshal_payload}
use velux_to_mqtt_gw.Protocol.Creation.{create_frame, frame_registry, register_all, register_frame}
use velux_to_mqtt_gw.Protocol.Constructors.{constructors}
use velux_to_mqtt_gw.Protocol.Frames.Auth.{
  marshal_password_enter_request, unmarshal_password_enter_request, PasswordEnterRequest,
  marshal_password_change_request, unmarshal_password_change_request, PasswordChangeRequest,
  marshal_password_change_notification, unmarshal_password_change_notification,
  PasswordChangeNotification, marshal_get_version_confirmation, unmarshal_get_version_confirmation,
  GetVersionConfirmation,
}
use velux_to_mqtt_gw.Protocol.Frames.Limitation.{
  marshal_set_limitation_request, unmarshal_set_limitation_request, SetLimitationRequest,
  marshal_get_limitation_request, unmarshal_get_limitation_request, GetLimitationRequest,
}
use velux_to_mqtt_gw.Protocol.Frames.Naming.{
  marshal_set_node_name_request, unmarshal_set_node_name_request, SetNodeNameRequest,
  marshal_node_information_changed, unmarshal_node_information_changed, NodeInformationChanged,
  marshal_discover_nodes_notification, unmarshal_discover_nodes_notification,
  DiscoverNodesNotification,
}
use velux_to_mqtt_gw.Protocol.Frames.Network.{
  marshal_network_setup_confirmation, unmarshal_network_setup_confirmation,
  NetworkSetupConfirmation,
}
use velux_to_mqtt_gw.Protocol.Frames.Scenes.{
  marshal_wink_send_request, unmarshal_wink_send_request, WinkSendRequest,
}
use velux_to_mqtt_gw.Protocol.Message.RoundTrip.Arrays.{
  get_version_confirmation-round_trip, network_setup_confirmation-round_trip,
  discover_nodes_notification-round_trip,
}
use velux_to_mqtt_gw.Protocol.Message.RoundTrip.NodeLists.{
  set_limitation_request-round_trip, get_limitation_request-round_trip,
  wink_send_request-round_trip,
}
use velux_to_mqtt_gw.Protocol.Message.RoundTrip.Text.{
  set_node_name_request-round_trip, node_information_changed-round_trip,
  password_enter_request-round_trip, password_change_request-round_trip,
  password_change_notification-round_trip,
}
use velux_to_mqtt_gw.Protocol.ReadBack.{IsReadBack, readable_of, length_required}
use velux_to_mqtt_gw.Protocol.Fits.{Fits}

pub set_limitation_request-IsReadBack :
    (f : SetLimitationRequest)
    → Fits (Message.set_limitation_request f)
    → IsReadBack (Message.set_limitation_request f)
unfolding marshal_payload unmarshal_payload command create_frame frame_registry register_all
    register_frame constructors unmarshal_set_limitation_request
set_limitation_request-IsReadBack f h =
    readable_of 31 (λ g. Message.set_limitation_request g) marshal_set_limitation_request
      unmarshal_set_limitation_request (omega arith) (λ p a. length_required 31 p _ _ a) refl refl
      (λ p. refl) (λ e. set_limitation_request-round_trip e f h.0 h.1)

pub get_limitation_request-IsReadBack :
    (f : GetLimitationRequest)
    → Fits (Message.get_limitation_request f)
    → IsReadBack (Message.get_limitation_request f)
unfolding marshal_payload unmarshal_payload command create_frame frame_registry register_all
    register_frame constructors unmarshal_get_limitation_request
get_limitation_request-IsReadBack f h =
    readable_of 25 (λ g. Message.get_limitation_request g) marshal_get_limitation_request
      unmarshal_get_limitation_request (omega arith) (λ p a. length_required 25 p _ _ a) refl refl
      (λ p. refl) (λ e. get_limitation_request-round_trip e f h.0 h.1)

pub wink_send_request-IsReadBack :
    (f : WinkSendRequest)
    → Fits (Message.wink_send_request f)
    → IsReadBack (Message.wink_send_request f)
unfolding marshal_payload unmarshal_payload command create_frame frame_registry register_all
    register_frame constructors unmarshal_wink_send_request
wink_send_request-IsReadBack f h =
    readable_of 27 (λ g. Message.wink_send_request g) marshal_wink_send_request
      unmarshal_wink_send_request (omega arith) (λ p a. length_required 27 p _ _ a) refl refl
      (λ p. refl) (λ e. wink_send_request-round_trip e f h.0 h.1)

pub set_node_name_request-IsReadBack :
    (f : SetNodeNameRequest)
    → Fits (Message.set_node_name_request f)
    → IsReadBack (Message.set_node_name_request f)
unfolding marshal_payload unmarshal_payload command create_frame frame_registry register_all
    register_frame constructors unmarshal_set_node_name_request
set_node_name_request-IsReadBack f h =
    readable_of 65 (λ g. Message.set_node_name_request g) marshal_set_node_name_request
      unmarshal_set_node_name_request (omega arith) (λ p a. length_required 65 p _ _ a) refl refl
      (λ p. refl) (λ e. set_node_name_request-round_trip e f h.0 h.1)

pub node_information_changed-IsReadBack :
    (f : NodeInformationChanged)
    → Fits (Message.node_information_changed f)
    → IsReadBack (Message.node_information_changed f)
unfolding marshal_payload unmarshal_payload command create_frame frame_registry register_all
    register_frame constructors unmarshal_node_information_changed
node_information_changed-IsReadBack f h =
    readable_of 69 (λ g. Message.node_information_changed g) marshal_node_information_changed
      unmarshal_node_information_changed (omega arith) (λ p a. length_required 69 p _ _ a) refl refl
      (λ p. refl) (λ e. node_information_changed-round_trip e f h.0.0 h.0.1 h.1)

pub password_enter_request-IsReadBack :
    (f : PasswordEnterRequest)
    → Fits (Message.password_enter_request f)
    → IsReadBack (Message.password_enter_request f)
unfolding marshal_payload unmarshal_payload command create_frame frame_registry register_all
    register_frame constructors unmarshal_password_enter_request
password_enter_request-IsReadBack f h =
    readable_of 32 (λ g. Message.password_enter_request g) marshal_password_enter_request
      unmarshal_password_enter_request (omega arith) (λ p a. length_required 32 p _ _ a) refl refl
      (λ p. refl) (λ e. password_enter_request-round_trip e f h.0 h.1.0 h.1.1)

pub password_change_request-IsReadBack :
    (f : PasswordChangeRequest)
    → Fits (Message.password_change_request f)
    → IsReadBack (Message.password_change_request f)
unfolding marshal_payload unmarshal_payload command create_frame frame_registry register_all
    register_frame constructors unmarshal_password_change_request
password_change_request-IsReadBack f h =
    readable_of 64 (λ g. Message.password_change_request g) marshal_password_change_request
      unmarshal_password_change_request (omega arith) (λ p a. length_required 64 p _ _ a) refl refl
      (λ p. refl)
      (λ e. password_change_request-round_trip e f h.0.0 h.0.1.0 h.0.1.1 h.1.0 h.1.1.0 h.1.1.1)

pub password_change_notification-IsReadBack :
    (f : PasswordChangeNotification)
    → Fits (Message.password_change_notification f)
    → IsReadBack (Message.password_change_notification f)
unfolding marshal_payload unmarshal_payload command create_frame frame_registry register_all
    register_frame constructors unmarshal_password_change_notification
password_change_notification-IsReadBack f h =
    readable_of 32 (λ g. Message.password_change_notification g)
      marshal_password_change_notification unmarshal_password_change_notification (omega arith)
      (λ p a. length_required 32 p _ _ a) refl refl (λ p. refl)
      (λ e. password_change_notification-round_trip e f h.0 h.1.0 h.1.1)

pub get_version_confirmation-IsReadBack :
    (f : GetVersionConfirmation)
    → Fits (Message.get_version_confirmation f)
    → IsReadBack (Message.get_version_confirmation f)
unfolding marshal_payload unmarshal_payload command create_frame frame_registry register_all
    register_frame constructors unmarshal_get_version_confirmation
get_version_confirmation-IsReadBack f h =
    readable_of 9 (λ g. Message.get_version_confirmation g)
      (λ g. ok (marshal_get_version_confirmation g)) unmarshal_get_version_confirmation
      (omega arith) (λ p a. length_required 9 p _ _ a) refl refl (λ p. refl)
      (λ e. get_version_confirmation-round_trip e f h)

pub network_setup_confirmation-IsReadBack :
    (f : NetworkSetupConfirmation)
    → Fits (Message.network_setup_confirmation f)
    → IsReadBack (Message.network_setup_confirmation f)
unfolding marshal_payload unmarshal_payload command create_frame frame_registry register_all
    register_frame constructors unmarshal_network_setup_confirmation
network_setup_confirmation-IsReadBack f h =
    readable_of 13 (λ g. Message.network_setup_confirmation g)
      (λ g. ok (marshal_network_setup_confirmation g)) unmarshal_network_setup_confirmation
      (omega arith) (λ p a. length_required 13 p _ _ a) refl refl (λ p. refl)
      (λ e. network_setup_confirmation-round_trip e f h.0 h.1 h.2)

pub discover_nodes_notification-IsReadBack :
    (f : DiscoverNodesNotification)
    → Fits (Message.discover_nodes_notification f)
    → IsReadBack (Message.discover_nodes_notification f)
unfolding marshal_payload unmarshal_payload command create_frame frame_registry register_all
    register_frame constructors unmarshal_discover_nodes_notification
discover_nodes_notification-IsReadBack f h =
    readable_of 131 (λ g. Message.discover_nodes_notification g)
      (λ g. ok (marshal_discover_nodes_notification g)) unmarshal_discover_nodes_notification
      (omega arith) (λ p a. length_required 131 p _ _ a) refl refl (λ p. refl)
      (λ e. discover_nodes_notification-round_trip e f h)
