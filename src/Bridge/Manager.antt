-- ===== src/Bridge/Manager.antt =====
-- app/bridge/manager.go, `NewCover`, `Start` and `PublishDiscovery` of cover.go, and the publishes of
-- mqtt.go. The broker is the list of what has been published, newest first; a publish that does not
-- complete in time may still land, and is in the list.
pub mod Shown
pub mod Closed
pub mod Lookup
mod Runs
use velux_to_mqtt_gw.Prelude.{ℕ, List, [], ◌∷◌, Bool, true, false, ◌&&◌, none, if◌then◌else◌}
use velux_to_mqtt_gw.Klf200.Node.{Kind, Node, is_opening_device}
use velux_to_mqtt_gw.Klf200.Node
use velux_to_mqtt_gw.Klf200.Nodes.{same_bytes}
use velux_to_mqtt_gw.Config.{HomeAssistantConfig}
use velux_to_mqtt_gw.Bridge.Cover.{
  Cover, Topic, Payload, Message, update_node, publish_availability,
}
use velux_to_mqtt_gw.Bridge.Cover
use velux_to_mqtt_gw.Bridge.Ids.{Topics, generate_id, new_topics}
use velux_to_mqtt_gw.Bridge.Discovery.{
  Registered, CoverDiscovery, SwitchDiscovery, device_class_for, build_cover_discovery,
  build_switch_discovery,
}

-- A payload of a cover, a discovery document, or the empty payload.
pub data Content : Type 0 where
  told : Payload → Content
  cover_config : CoverDiscovery → Content
  switch_config : SwitchDiscovery → Content
  cleared : Content

pub record Sent : Type 0 where
  pub topic : List ℕ
  pub content : Content
  pub retained : Bool

-- `discovered` is the package's set of discovery topics, `subscribed` what the wrapper subscribes to.
pub record Manager : Type 0 where
  pub covers : List (List ℕ × Registered)
  pub discovered : List (List ℕ)
  pub subscribed : List (List ℕ)
  pub sent : List Sent

unfoldable pub new_manager : Manager
new_manager = record { covers = []; discovered = []; subscribed = []; sent = [] }

-- `Publish`
unfoldable pub publish : List ℕ → Content → Bool → Manager → Manager
publish topic content retained m = record m {
  sent = record { topic = topic; content = content; retained = retained } ∷ m.sent;
}

-- The topic of a cover that a field of `Topics` holds.
unfoldable pub topic_of : Topics → Topic → List ℕ
topic_of t Cover.position = t.position
topic_of t Cover.state = t.state
topic_of t Cover.available = t.available
topic_of t Cover.keep_open_state = t.keep_open_state
topic_of t Cover.keep_open_available = t.keep_open_available

-- `PublishRetained`, for the messages of a cover in their order.
unfoldable pub publish_retained : Bool → Topics → List Message → Manager → Manager
unfolding publish topic_of
publish_retained retain topics [] m = m
publish_retained retain topics ((t, payload) ∷ messages) m =
    publish_retained retain topics messages (publish (topic_of topics t) (told payload) retain m)

unfoldable pub new_cover : List ℕ → Bool → Node → Registered
unfolding generate_id new_topics device_class_for
new_cover prefix inverted node = record {
  cover = record { node = node; inverted = inverted; last_state = none };
  id = generate_id node.name;
  topics = new_topics prefix (generate_id node.name);
  device_class = device_class_for node.kind;
  prefix = prefix;
}

abbrev pub holds : List ℕ → List (List ℕ) → Bool
holds topic [] = false
holds topic (t ∷ topics) = if same_bytes t topic then true else holds topic topics

-- `recordDiscoveryTopic`
unfoldable pub record_discovery_topic : List ℕ → Manager → Manager
record_discovery_topic topic m =
    if holds topic m.discovered then m else record m { discovered = topic ∷ m.discovered }

unfoldable pub publish_discovery : Registered → Manager → Manager
unfolding publish record_discovery_topic build_cover_discovery build_switch_discovery
publish_discovery c m =
    let (cover_topic, cover_json) = build_cover_discovery c in
    let (switch_topic, switch_json) = build_switch_discovery c in
    let published =
      publish switch_topic (switch_config switch_json) true
        (publish cover_topic (cover_config cover_json) true m) in
    record_discovery_topic switch_topic (record_discovery_topic cover_topic published)

-- `Start`: what it publishes and subscribes to, and the cover behind its first update.
unfoldable pub start_cover : Bool → Registered → Manager → Manager × Registered
unfolding publish_discovery publish_retained update_node publish_availability
start_cover retain c m =
    let discovered = publish_discovery c m in
    let listening = record discovered {
      subscribed = c.topics.keep_open_set ∷ c.topics.set ∷ discovered.subscribed;
    } in
    let online = publish_retained retain c.topics (publish_availability true) listening in
    let (messages, updated) = update_node c.cover in
    (publish_retained retain c.topics messages online, record c { cover = updated })

-- A write of the map of covers.
unfoldable pub put_cover :
    List ℕ → Registered → List (List ℕ × Registered) → List (List ℕ × Registered)
unfolding same_bytes
put_cover id c [] = (id, c) ∷ []
put_cover id c ((key, d) ∷ covers) =
    if same_bytes key id then (id, c) ∷ covers else (key, d) ∷ put_cover id c covers

abbrev pub is_awning : Kind → Bool
is_awning Node.awning = true
is_awning k = false

-- `Register`. Its error is one of `json.Marshal`, which these documents do not cause.
unfoldable pub register : HomeAssistantConfig → Bool → List Node → Manager → Manager
unfolding is_opening_device new_cover start_cover put_cover
register config retain [] m = m
register config retain (node ∷ nodes) m =
    let inverted = is_awning node.kind && config.invert_awning in
    let (started, cover) = start_cover retain (new_cover config.prefix inverted node) m in
    let registered = record started { covers = put_cover cover.id cover started.covers } in
    register config retain nodes (if is_opening_device node.kind then registered else m)

-- The loop of `MarkAllUnavailable`, `MarkAllAvailable` and `CloseAll`. Go's order of a map is not
-- fixed; here it is that of the list.
unfoldable pub announce : Bool → Bool → List (List ℕ × Registered) → Manager → Manager
unfolding publish_retained publish_availability
announce retain online [] m = m
announce retain online ((key, c) ∷ covers) m =
    announce retain online covers (publish_retained retain c.topics (publish_availability online) m)

unfoldable pub mark_all : Bool → Bool → Manager → Manager
unfolding announce
mark_all retain online m = announce retain online m.covers m

-- The loop of `CleanupDiscovery`.
unfoldable pub clear_topics : List (List ℕ) → Manager → Manager
unfolding publish
clear_topics [] m = m
clear_topics (t ∷ topics) m = clear_topics topics (publish t cleared true m)

unfoldable pub cleanup_discovery : Manager → Manager
unfolding clear_topics
cleanup_discovery m = clear_topics m.discovered (record m { discovered = [] })

unfoldable pub close_all : Bool → Manager → Manager
unfolding announce cleanup_discovery
close_all retain m = cleanup_discovery (announce retain false m.covers m)
