-- ===== src/Protocol/Message/RoundTrip/Arrays.antt =====
-- The round trips of the frames that hold byte arrays of a fixed size.
use velux_to_mqtt_gw.Prelude.{ℕ, List, [], ◌∷◌, ◌++◌, ◌≡◌, length, replicate, length-append, ok}
use velux_to_mqtt_gw.Protocol.Frames.Bytes.{padded}
use velux_to_mqtt_gw.Protocol.Frames.Auth.{
  GetVersionConfirmation, marshal_get_version_confirmation, unmarshal_get_version_confirmation,
}
use velux_to_mqtt_gw.Protocol.Frames.Network.{
  NetworkSetupConfirmation, marshal_network_setup_confirmation,
  unmarshal_network_setup_confirmation,
}
use velux_to_mqtt_gw.Protocol.Frames.Naming.{
  DiscoverNodesNotification, marshal_discover_nodes_notification,
  unmarshal_discover_nodes_notification,
}
use velux_to_mqtt_gw.Protocol.Message.RoundTrip.Text.{
  get_or-prefix, take-prefix, drop-prefix, drop-prefix_more,
}

pub padded-full : (n : ℕ) (s : List ℕ) → length s ≡ n → padded n s ≡ s
unfolding padded
padded-full n s h = take-prefix n s (replicate n 0) h

pub get_version_confirmation-round_trip :
    (e f : GetVersionConfirmation)
    → length f.software_version ≡ 6
    → unmarshal_get_version_confirmation e (marshal_get_version_confirmation f) ≡ ok f
unfolding unmarshal_get_version_confirmation marshal_get_version_confirmation
get_version_confirmation-round_trip e f h =
    let rest = f.hardware_version ∷ f.product_group ∷ f.product_type ∷ [] in
    let version = f.software_version in
    rw (
      padded-full 6 version h,
      length-append version rest,
      h,
      take-prefix 6 version rest h,
      get_or-prefix 6 0 version rest h,
      get_or-prefix 6 1 version rest h,
      get_or-prefix 6 2 version rest h,
    )

pub network_setup_confirmation-round_trip :
    (e f : NetworkSetupConfirmation)
    → length f.ip_address ≡ 4
    → length f.netmask ≡ 4
    → length f.gateway ≡ 4
    → unmarshal_network_setup_confirmation e (marshal_network_setup_confirmation f) ≡ ok f
unfolding unmarshal_network_setup_confirmation marshal_network_setup_confirmation
network_setup_confirmation-round_trip e f i n g =
    let last = f.gateway ++ f.dhcp ∷ [] in
    let middle = f.netmask ++ last in
    rw
      (
        padded-full 4 f.ip_address i,
        padded-full 4 f.netmask n,
        padded-full 4 f.gateway g,
        length-append f.ip_address middle,
        length-append f.netmask last,
        length-append f.gateway (f.dhcp ∷ []),
        i,
        n,
        g,
        take-prefix 4 f.ip_address middle i,
        drop-prefix 4 f.ip_address middle i,
        get_or-prefix 4 8 f.ip_address middle i,
        get_or-prefix 4 4 f.netmask last n,
        get_or-prefix 4 0 f.gateway (f.dhcp ∷ []) g,
      )
      (rw (
        take-prefix 4 f.netmask last n,
        drop-prefix_more 4 4 f.ip_address middle i,
        drop-prefix 4 f.netmask last n,
        take-prefix 4 f.gateway (f.dhcp ∷ []) g,
      ))

pub discover_nodes_notification-round_trip :
    (e f : DiscoverNodesNotification)
    → length f.payload ≡ 131
    → unmarshal_discover_nodes_notification e (marshal_discover_nodes_notification f) ≡ ok f
unfolding unmarshal_discover_nodes_notification marshal_discover_nodes_notification
discover_nodes_notification-round_trip e f h = rw (padded-full 131 f.payload h, h)
