-- ===== src/Bridge/Discovery.antt =====
-- app/bridge/discovery.go: what Home Assistant is told of a cover and of its keep-open switch. A document
-- is the record that `json.Marshal` writes out.
use velux_to_mqtt_gw.Prelude.{ℕ, List, [], ◌∷◌, ◌++◌, if◌then◌else◌}
use velux_to_mqtt_gw.Klf200.Node.{Kind, Node}
use velux_to_mqtt_gw.Klf200.Node
use velux_to_mqtt_gw.Bridge.Cover.{Cover}
use velux_to_mqtt_gw.Bridge.Ids.{Topics, keepopen_suffix}

pub data DeviceClass : Type 0 where
  window blind awning shutter garage gate shade no_class : DeviceClass

unfoldable pub device_class_for : Kind → DeviceClass
device_class_for (Node.window rain) = window
device_class_for Node.blind = blind
device_class_for Node.awning = awning
device_class_for Node.roller_shutter = shutter
device_class_for Node.garage_door = garage
device_class_for Node.gate = gate
device_class_for Node.blade = shade
device_class_for k = no_class

-- A cover with the fields that `NewCover` computes; the MQTT wrapper is the same for all.
pub record Registered : Type 0 where
  pub cover : Cover
  pub id : List ℕ
  pub topics : Topics
  pub device_class : DeviceClass
  pub prefix : List ℕ

-- `PayloadAvailable` and `PayloadNotAvailable` are always "online" and "offline".
pub record Device : Type 0 where
  pub identifiers : List (List ℕ)
  pub name : List ℕ

pub record CoverDiscovery : Type 0 where
  pub name : List ℕ
  pub unique_id : List ℕ
  pub state_topic : List ℕ
  pub position_topic : List ℕ
  pub command_topic : List ℕ
  pub set_position_topic : List ℕ
  pub availability : List (List ℕ)
  pub position_open : ℕ
  pub position_closed : ℕ
  pub device_class : DeviceClass
  pub device : Device

-- The icon is always "mdi:lock-outline".
pub record SwitchDiscovery : Type 0 where
  pub name : List ℕ
  pub unique_id : List ℕ
  pub state_topic : List ℕ
  pub command_topic : List ℕ
  pub availability : List (List ℕ)
  pub device : Device

-- "homeassistant/cover/", "homeassistant/switch/", "/config", " Keep open"
abbrev pub cover_path : List ℕ
cover_path =
    104 ∷ 111 ∷ 109 ∷ 101 ∷ 97 ∷ 115 ∷ 115 ∷ 105 ∷ 115 ∷ 116 ∷ 97 ∷ 110 ∷ 116 ∷ 47 ∷ 99 ∷ 111 ∷ 118
    ∷ 101 ∷ 114 ∷ 47 ∷ []

abbrev pub switch_path : List ℕ
switch_path =
    104 ∷ 111 ∷ 109 ∷ 101 ∷ 97 ∷ 115 ∷ 115 ∷ 105 ∷ 115 ∷ 116 ∷ 97 ∷ 110 ∷ 116 ∷ 47 ∷ 115 ∷ 119 ∷ 105
    ∷ 116 ∷ 99 ∷ 104 ∷ 47 ∷ []

abbrev pub config_suffix : List ℕ
config_suffix = 47 ∷ 99 ∷ 111 ∷ 110 ∷ 102 ∷ 105 ∷ 103 ∷ []

abbrev keep_open_name : List ℕ
keep_open_name = 32 ∷ 75 ∷ 101 ∷ 101 ∷ 112 ∷ 32 ∷ 111 ∷ 112 ∷ 101 ∷ 110 ∷ []

unfoldable pub shared_device : Registered → Device
shared_device c = record { identifiers = c.topics.base ∷ []; name = c.cover.node.name }

unfoldable pub build_cover_discovery : Registered → List ℕ × CoverDiscovery
unfolding shared_device
build_cover_discovery c = (
  (cover_path ++ c.topics.base) ++ config_suffix,
  record {
    name = c.cover.node.name;
    unique_id = c.id;
    state_topic = c.topics.state;
    position_topic = c.topics.position;
    command_topic = c.topics.set;
    set_position_topic = c.topics.set;
    availability = c.topics.available ∷ [];
    position_open = if c.cover.inverted then 100 else 0;
    position_closed = if c.cover.inverted then 0 else 100;
    device_class = c.device_class;
    device = shared_device c;
  },
)

unfoldable pub build_switch_discovery : Registered → List ℕ × SwitchDiscovery
unfolding shared_device
build_switch_discovery c = (
  (switch_path ++ c.topics.keep_open_base) ++ config_suffix,
  record {
    name = c.cover.node.name ++ keep_open_name;
    unique_id = c.id ++ keepopen_suffix;
    state_topic = c.topics.keep_open_state;
    command_topic = c.topics.keep_open_set;
    availability = c.topics.keep_open_available ∷ [];
    device = shared_device c;
  },
)
