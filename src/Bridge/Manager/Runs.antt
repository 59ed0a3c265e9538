-- ===== src/Bridge/Manager/Runs.antt =====
-- Runs of the cover manager: two windows whose names have one id, an awning, and a light.
use velux_to_mqtt_gw.Prelude.{ℕ, List, [], ◌∷◌, true, false, ◌≡◌, refl}
use velux_to_mqtt_gw.Protocol.Parameter.{raw_of}
use velux_to_mqtt_gw.Klf200.Node
use velux_to_mqtt_gw.Klf200.Node.{Node}
use velux_to_mqtt_gw.Config.{HomeAssistantConfig}
use velux_to_mqtt_gw.Bridge.Ids.{generate_id, transliterated, to_lower, replace_umlauts}
use velux_to_mqtt_gw.Bridge.Manager.{new_manager, register, close_all}
use velux_to_mqtt_gw.Bridge.Manager.Closed.{IsWired, IsTakenDown, register-IsTakenDown}
use velux_to_mqtt_gw.Bridge.Manager.Lookup.{find_cover, last_with_id, register-find}

-- "Dachfenster Büro", and "vlx-dachfenster-buero".
abbrev bureau : List ℕ
bureau =
    68 ∷ 97 ∷ 99 ∷ 104 ∷ 102 ∷ 101 ∷ 110 ∷ 115 ∷ 116 ∷ 101 ∷ 114 ∷ 32 ∷ 66 ∷ 195 ∷ 188 ∷ 114 ∷ 111
    ∷ []

abbrev bureau_id : List ℕ
bureau_id =
    118 ∷ 108 ∷ 120 ∷ 45 ∷ 100 ∷ 97 ∷ 99 ∷ 104 ∷ 102 ∷ 101 ∷ 110 ∷ 115 ∷ 116 ∷ 101 ∷ 114 ∷ 45 ∷ 98
    ∷ 117 ∷ 101 ∷ 114 ∷ 111 ∷ []

bureau-id : generate_id bureau ≡ bureau_id
unfolding generate_id transliterated to_lower replace_umlauts
bureau-id = refl

abbrev attic : List ℕ
attic = 97 ∷ 195 ∷ 169 ∷ []

abbrev window : Node
window = record {
  kind = Node.window false;
  node_id = 1;
  name = bureau;
  serial_number = [];
  position = raw_of 0;
  target_position = raw_of 0;
  limitation_min = raw_of 0xD400;
  limitation_max = raw_of 0xD400;
  limitation_time = 255;
  limitation_originator = 1;
  orientation = raw_of 0;
  target_orientation = raw_of 0;
  intensity = raw_of 0;
  updates = 0;
}

-- The second window is named "dachfenster buero".
abbrev house : List Node
house =
    window
    ∷ record window { kind = Node.light; node_id = 2 }
    ∷ record window { kind = Node.awning; node_id = 3; name = 65 ∷ [] }
    ∷ record window {
      node_id = 4;
      name =
          100 ∷ 97 ∷ 99 ∷ 104 ∷ 102 ∷ 101 ∷ 110 ∷ 115 ∷ 116 ∷ 101 ∷ 114 ∷ 32 ∷ 98 ∷ 117 ∷ 101 ∷ 114
          ∷ 111 ∷ [];
    }
    ∷ []

abbrev home : HomeAssistantConfig
home = record { prefix = 104 ∷ 97 ∷ []; invert_awning = true }

new_manager-IsWired : IsWired new_manager
unfolding new_manager
new_manager-IsWired = (tt, tt)

register-IsTakenDown_example :
    IsWired (register home true house new_manager)
    × IsTakenDown true
        (register home true house new_manager)
        (close_all true (register home true house new_manager))
register-IsTakenDown_example = register-IsTakenDown home true house new_manager new_manager-IsWired

register-find_example :
    find_cover bureau_id (register home true house new_manager).covers
    ≡ last_with_id home bureau_id house (find_cover bureau_id new_manager.covers)
register-find_example = register-find home true house new_manager bureau_id
