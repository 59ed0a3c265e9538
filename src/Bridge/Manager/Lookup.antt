-- ===== src/Bridge/Manager/Lookup.antt =====
-- Which covers `Register` leaves in the manager's map.
use velux_to_mqtt_gw.Prelude.{
  ℕ, List, [], ◌∷◌, Bool, true, false, ◌&&◌, Option, none, some, ◌≡◌, refl, ap, ◌∙◌, arith,
  if◌then◌else◌, inl, inr, Bool-cases,
}
use velux_to_mqtt_gw.Klf200.Node.{Node, is_opening_device}
use velux_to_mqtt_gw.Klf200.Nodes.{same_bytes}
use velux_to_mqtt_gw.Config.{HomeAssistantConfig}
use velux_to_mqtt_gw.Bridge.Cover.{
  update_node, update_cover, update_limit_switch, publish_availability,
}
use velux_to_mqtt_gw.Bridge.Ids.{generate_id}
use velux_to_mqtt_gw.Bridge.Discovery.{Registered, build_cover_discovery, build_switch_discovery}
use velux_to_mqtt_gw.Bridge.Manager.{
  cover_config, switch_config, Manager, holds, publish, topic_of, publish_retained,
  record_discovery_topic, publish_discovery, is_awning, new_cover, start_cover, put_cover, register,
}
use velux_to_mqtt_gw.Bridge.Manager.Shown.{same_bytes_refl, same_bytes→≡}

-- A read of the map.
abbrev pub find_cover : List ℕ → List (List ℕ × Registered) → Option Registered
find_cover id [] = none
find_cover id ((key, c) ∷ covers) = if same_bytes key id then some c else find_cover id covers

same_key : (s t u : List ℕ) → same_bytes s u ≡ true → same_bytes t u ≡ true → same_bytes s t ≡ true
same_key s t u h k = rw (same_bytes→≡ s u h, same_bytes→≡ t u k) (same_bytes_refl u)

other_key :
    (s t u : List ℕ) → same_bytes s t ≡ false → same_bytes s u ≡ true → same_bytes t u ≡ false
other_key s t u e h = elim (Bool-cases (same_bytes t u)) [
  | inl k ↦ absurd (ground (arith, same_key s t u h k, e))
  | inr k ↦ k
]

find_cover-put_cover :
    (id key : List ℕ) (c : Registered) (covers : List (List ℕ × Registered))
    → find_cover id (put_cover key c covers)
      ≡ (if same_bytes key id then some c else find_cover id covers)
unfolding put_cover
find_cover-put_cover id key c [] = refl
find_cover-put_cover id key c ((k, d) ∷ covers) = elim (Bool-cases (same_bytes k key)) [
  | inl e ↦ elim (Bool-cases (same_bytes key id)) [
    | inl q ↦ rw (put_cover, e, find_cover, q)
    | inr q ↦ rw (put_cover, e, find_cover, q, ap (λ j. same_bytes j id) (same_bytes→≡ k key e) ∙ q)
  ]
  | inr e ↦ elim (Bool-cases (same_bytes k id)) [
    | inl r ↦ rw (put_cover, e, find_cover, r, other_key k key id e r)
    | inr r ↦ rw (put_cover, e, find_cover, r) (find_cover-put_cover id key c covers)
  ]
]

-- The cover of a node behind its first update.
abbrev pub cover_of : HomeAssistantConfig → Node → Registered
cover_of config node =
    let c = new_cover config.prefix (is_awning node.kind && config.invert_awning) node in
    record c { cover = (update_node c.cover).1 }

-- The last opening device in the list whose name has this id, if any has.
abbrev pub last_with_id :
    HomeAssistantConfig → List ℕ → List Node → Option Registered → Option Registered
last_with_id config id [] found = found
last_with_id config id (node ∷ nodes) found = last_with_id config id nodes (
    if is_opening_device node.kind && same_bytes (generate_id node.name) id
    then some (cover_of config node)
    else found)

record_discovery_topic-covers :
    (t : List ℕ) (m : Manager) → (record_discovery_topic t m).covers ≡ m.covers
unfolding record_discovery_topic
record_discovery_topic-covers t m = elim (Bool-cases (holds t m.discovered)) [
  | inl e ↦ rw (record_discovery_topic, e)
  | inr e ↦ rw (record_discovery_topic, e)
]

publish_discovery-covers :
    (c : Registered) (m : Manager) → (publish_discovery c m).covers ≡ m.covers
unfolding publish_discovery publish
publish_discovery-covers c m =
    let (cover_topic, cover_json) = build_cover_discovery c in
    let (switch_topic, switch_json) = build_switch_discovery c in
    let published =
      publish switch_topic (switch_config switch_json) true
        (publish cover_topic (cover_config cover_json) true m) in
    record_discovery_topic-covers switch_topic (record_discovery_topic cover_topic published)
    ∙ record_discovery_topic-covers cover_topic published

start_cover-covers :
    (retain : Bool) (c : Registered) (m : Manager) → (start_cover retain c m).0.covers ≡ m.covers
unfolding start_cover publish_retained publish update_node update_cover update_limit_switch
    publish_availability topic_of
start_cover-covers retain c m = publish_discovery-covers c m

-- Behind `Register`, an id names the cover of the last opening device whose name has that id, and what
-- it named before where no device has it; other nodes have no cover. Where two names have one id, as
-- names that differ in an umlaut's spelling do, the later device replaces the earlier one.
pub register-find :
    (config : HomeAssistantConfig) (retain : Bool) (nodes : List Node) (m : Manager) (id : List ℕ)
    → find_cover id (register config retain nodes m).covers
      ≡ last_with_id config id nodes (find_cover id m.covers)
unfolding register start_cover new_cover
register-find config retain [] m id = refl
register-find config retain (node ∷ nodes) m id =
    let inverted = is_awning node.kind && config.invert_awning in
    let started = start_cover retain (new_cover config.prefix inverted node) m in
    let registered = record started.0 {
      covers = put_cover started.1.id started.1 started.0.covers;
    } in
    let same = start_cover-covers retain (new_cover config.prefix inverted node) m in
    elim (Bool-cases (is_opening_device node.kind)) [
      | inl o ↦
          rw (register, last_with_id, o)
            (register-find config retain nodes registered id
              ∙ ap (last_with_id config id nodes) (
                  find_cover-put_cover id started.1.id started.1 started.0.covers
                  ∙ ap
                      (λ cs.
                        if same_bytes started.1.id id then some started.1 else find_cover id cs)
                      same))
      | inr o ↦ rw (register, last_with_id, o) (register-find config retain nodes m id)
    ]
