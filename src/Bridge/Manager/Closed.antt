-- ===== src/Bridge/Manager/Closed.antt =====
-- What a shutdown leaves at the broker.
use velux_to_mqtt_gw.Prelude.{
  ℕ, List, [], ◌∷◌, ◌++◌, Bool, true, false, some, ◌≡◌, ◌&&◌, refl, ap, arith, All, inl, inr,
  Bool-cases,
}
use velux_to_mqtt_gw.Klf200.Node.{Node, is_opening_device}
use velux_to_mqtt_gw.Klf200.Nodes.{same_bytes}
use velux_to_mqtt_gw.Config.{HomeAssistantConfig}
use velux_to_mqtt_gw.Bridge.Cover.{
  publish_availability, update_node, update_cover, update_limit_switch,
}
use velux_to_mqtt_gw.Bridge.Ids.{new_topics, available_suffix, keepopen_suffix, generate_id}
use velux_to_mqtt_gw.Bridge.Discovery.{
  Registered, build_cover_discovery, build_switch_discovery, config_suffix, cover_path, switch_path,
}
use velux_to_mqtt_gw.Bridge.Manager.{
  is_awning, Content, cleared, Manager, publish, topic_of, publish_retained, announce, clear_topics,
  holds, new_cover, cleanup_discovery, close_all, record_discovery_topic, publish_discovery,
  start_cover, put_cover, register,
}
use velux_to_mqtt_gw.Bridge.Manager.Shown.{
  same_bytes→≡, last_sent, Keeps, publish-Keeps, publish-shown, said, IsShown, announce-IsShown,
}

clear_topics-Keeps :
    (topics : List (List ℕ)) (t : List ℕ) (m : Manager)
    → Keeps t (cleared, true) m (clear_topics topics m)
unfolding clear_topics
clear_topics-Keeps [] t m h = h
clear_topics-Keeps (u ∷ topics) t m h =
    clear_topics-Keeps topics t (publish u cleared true m)
      (publish-Keeps u cleared true t (cleared, true) m (inr refl) h)

clear_topics-shown :
    (topics : List (List ℕ)) (m : Manager)
    → All (λ t. last_sent t (clear_topics topics m).sent ≡ some (cleared, true)) topics
unfolding clear_topics
clear_topics-shown [] m = tt
clear_topics-shown (t ∷ topics) m = (
  clear_topics-Keeps topics t (publish t cleared true m) (publish-shown t cleared true m),
  clear_topics-shown topics (publish t cleared true m),
)

clear_topics-others :
    (topics : List (List ℕ)) (t : List ℕ) (v : Content × Bool) (m : Manager)
    → holds t topics ≡ false
    → Keeps t v m (clear_topics topics m)
unfolding clear_topics
clear_topics-others [] t v m o h = h
clear_topics-others (u ∷ topics) t v m o h = elim (Bool-cases (same_bytes u t)) [
  | inl e ↦ absurd (ground arith)
  | inr e ↦
      clear_topics-others topics t v (publish u cleared true m) (rw (holds, e) at o)
        (publish-Keeps u cleared true t v m (inl e) h)
]

clear_topics-discovered :
    (topics : List (List ℕ)) (m : Manager) → (clear_topics topics m).discovered ≡ m.discovered
unfolding clear_topics publish
clear_topics-discovered [] m = refl
clear_topics-discovered (t ∷ topics) m = clear_topics-discovered topics (publish t cleared true m)

announce-discovered :
    (retain online : Bool) (covers : List (List ℕ × Registered)) (m : Manager)
    → (announce retain online covers m).discovered ≡ m.discovered
unfolding announce publish_retained publish_availability topic_of publish
announce-discovered retain online [] m = refl
announce-discovered retain online ((key, c) ∷ covers) m = announce-discovered retain online covers _

-- The availability topics of the covers are no discovery topics.
abbrev AreApart : List (List ℕ) → List (List ℕ × Registered) → Type 0
AreApart topics covers =
    All
      (λ entry.
        (holds entry.1.topics.available topics ≡ false)
        × (holds entry.1.topics.keep_open_available topics ≡ false))
      covers

still-IsShown :
    (v : Content × Bool) (topics : List (List ℕ)) (covers : List (List ℕ × Registered))
    (m : Manager)
    → AreApart topics covers
    → All (IsShown v m) covers
    → All (IsShown v (clear_topics topics m)) covers
still-IsShown v topics [] m a h = tt
still-IsShown v topics ((key, c) ∷ covers) m a h = (
  (
    clear_topics-others topics c.topics.available v m a.0.0 h.0.0,
    clear_topics-others topics c.topics.keep_open_available v m a.0.1 h.0.1,
  ),
  still-IsShown v topics covers m a.1 h.1,
)

-- Every cover and switch is offline, every discovery topic is empty and retained so, and none is left.
abbrev pub IsTakenDown : Bool → Manager → Manager → Type 0
IsTakenDown retain before m =
    All (IsShown (said retain false) m) before.covers
    × All (λ t. last_sent t m.sent ≡ some (cleared, true)) before.discovered
    × (m.discovered ≡ [])

close_all-IsTakenDown :
    (retain : Bool) (m : Manager)
    → AreApart m.discovered m.covers
    → IsTakenDown retain m (close_all retain m)
unfolding close_all cleanup_discovery
close_all-IsTakenDown retain m a =
    let offline = announce retain false m.covers m in
    let forgotten = record offline { discovered = [] } in
    rw (close_all, cleanup_discovery, announce-discovered retain false m.covers m)
      (
        still-IsShown (said retain false) m.discovered m.covers forgotten a
            (announce-IsShown retain false m.covers m),
        clear_topics-shown m.discovered forgotten,
        clear_topics-discovered m.discovered forgotten,
      )

-- The last byte tells the topics apart.
abbrev last_or : ℕ → List ℕ → ℕ
last_or d [] = d
last_or d (b ∷ s) = last_or b s

last_or-append : (d : ℕ) (s t : List ℕ) → last_or d (s ++ t) ≡ last_or (last_or d s) t
last_or-append d [] t = refl
last_or-append d (b ∷ s) t = last_or-append b s t

-- Every topic of a cover's availability ends in "e", every discovery topic in "g".
abbrev IsWiredCover : List ℕ × Registered → Type 0
IsWiredCover (key, c) =
    (last_or 0 c.topics.available ≡ 101) × (last_or 0 c.topics.keep_open_available ≡ 101)

abbrev IsConfig : List ℕ → Type 0
IsConfig t = last_or 0 t ≡ 103

abbrev pub IsWired : Manager → Type 0
IsWired m = All IsWiredCover m.covers × All IsConfig m.discovered

holds-apart :
    (t : List ℕ) (topics : List (List ℕ))
    → last_or 0 t ≡ 101
    → All IsConfig topics
    → holds t topics ≡ false
holds-apart t [] h a = refl
holds-apart t (u ∷ topics) h a = elim (Bool-cases (same_bytes u t)) [
  | inl e ↦ absurd (omega (arith, h, a.0, ap (last_or 0) (same_bytes→≡ u t e)))
  | inr e ↦ rw (holds, e) (holds-apart t topics h a.1)
]

IsWired-AreApart :
    (topics : List (List ℕ)) (covers : List (List ℕ × Registered))
    → All IsConfig topics
    → All IsWiredCover covers
    → AreApart topics covers
IsWired-AreApart topics [] t h = tt
IsWired-AreApart topics ((key, c) ∷ covers) t h = (
  (
    holds-apart c.topics.available topics h.0.0 t,
    holds-apart c.topics.keep_open_available topics h.0.1 t,
  ),
  IsWired-AreApart topics covers t h.1,
)

record_discovery_topic-IsWired :
    (t : List ℕ) (m : Manager) → IsConfig t → IsWired m → IsWired (record_discovery_topic t m)
unfolding record_discovery_topic
record_discovery_topic-IsWired t m h w = elim (Bool-cases (holds t m.discovered)) [
  | inl e ↦ rw (record_discovery_topic, e) w
  | inr e ↦ rw (record_discovery_topic, e) (w.0, (h, w.1))
]

publish_discovery-IsWired :
    (c : Registered) (m : Manager) → IsWired m → IsWired (publish_discovery c m)
unfolding publish_discovery publish build_cover_discovery build_switch_discovery
publish_discovery-IsWired c m w =
    record_discovery_topic-IsWired ((switch_path ++ c.topics.keep_open_base) ++ config_suffix) _
      (last_or-append 0 (switch_path ++ c.topics.keep_open_base) config_suffix)
      (record_discovery_topic-IsWired ((cover_path ++ c.topics.base) ++ config_suffix) _
        (last_or-append 0 (cover_path ++ c.topics.base) config_suffix) w)

start_cover-IsWired :
    (retain : Bool) (c : Registered) (m : Manager) → IsWired m → IsWired (start_cover retain c m).0
unfolding start_cover publish_retained publish update_node update_cover update_limit_switch
    publish_availability topic_of
start_cover-IsWired retain c m w = publish_discovery-IsWired c m w

put_cover-IsWired :
    (id : List ℕ) (c : Registered) (covers : List (List ℕ × Registered))
    → IsWiredCover (id, c)
    → All IsWiredCover covers
    → All IsWiredCover (put_cover id c covers)
unfolding put_cover
put_cover-IsWired id c [] h w = (h, tt)
put_cover-IsWired id c ((key, d) ∷ covers) h w = elim (Bool-cases (same_bytes key id)) [
  | inl e ↦ rw (put_cover, e) (h, w.1)
  | inr e ↦ rw (put_cover, e) (w.0, put_cover-IsWired id c covers h w.1)
]

new_cover-IsWired :
    (prefix : List ℕ) (inverted : Bool) (node : Node)
    → IsWiredCover (generate_id node.name, new_cover prefix inverted node)
unfolding new_cover new_topics
new_cover-IsWired prefix inverted node = (
  last_or-append 0 (prefix ++ generate_id node.name) available_suffix,
  last_or-append 0 ((prefix ++ generate_id node.name) ++ keepopen_suffix) available_suffix,
)

started-IsWired :
    (retain : Bool) (id : List ℕ) (c : Registered) (m : Manager)
    → IsWiredCover (id, c)
    → IsWiredCover ((start_cover retain c m).1.id, (start_cover retain c m).1)
unfolding start_cover
started-IsWired retain id c m h = h

register-IsWired :
    (config : HomeAssistantConfig) (retain : Bool) (nodes : List Node) (m : Manager)
    → IsWired m
    → IsWired (register config retain nodes m)
unfolding register
register-IsWired config retain [] m w = w
register-IsWired config retain (node ∷ nodes) m w =
    let inverted = is_awning node.kind && config.invert_awning in
    let cover = new_cover config.prefix inverted node in
    let started = start_cover retain cover m in
    let wired = start_cover-IsWired retain cover m w in
    elim (Bool-cases (is_opening_device node.kind)) [
      | inl e ↦
          rw (register, e)
            (register-IsWired config retain nodes _ (
              put_cover-IsWired started.1.id started.1 started.0.covers
                  (started-IsWired retain cover.id cover m
                    (new_cover-IsWired config.prefix inverted node))
                  wired.0,
              wired.1,
            ))
      | inr e ↦ rw (register, e) (register-IsWired config retain nodes m w)
    ]

-- Whatever a manager has registered, in however many rounds over whatever nodes, registering again and
-- shutting down leaves every cover and its switch offline, and every discovery topic that was ever
-- recorded with the empty retained payload by which Home Assistant forgets it; the record is empty.
pub register-IsTakenDown :
    (config : HomeAssistantConfig) (retain : Bool) (nodes : List Node) (m : Manager)
    → IsWired m
    → IsWired (register config retain nodes m)
      × IsTakenDown retain
          (register config retain nodes m)
          (close_all retain (register config retain nodes m))
register-IsTakenDown config retain nodes m w =
    let r = register config retain nodes m in
    let wired = register-IsWired config retain nodes m w in
    (wired, close_all-IsTakenDown retain r (IsWired-AreApart r.discovered r.covers wired.1 wired.0))
