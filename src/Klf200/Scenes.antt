-- ===== src/Klf200/Scenes.antt =====
-- app/klf200/scenes.go: the scenes, how the list is loaded, and how one is run.
pub mod Outcomes
use velux_to_mqtt_gw.Prelude.{
  ℕ, List, [], ◌∷◌, ◌++◌, Bool, true, false, not, ◌||◌, Option, none, some, Result, ok, err, ◌==◌,
  if◌then◌else◌, length, require, ◌>>=◌,
}
use velux_to_mqtt_gw.Protocol.Frames.Scenes.{SceneEntry, ActivateSceneRequest}
use velux_to_mqtt_gw.Protocol.Message
use velux_to_mqtt_gw.Protocol.Message.{Frame}
use velux_to_mqtt_gw.Klf200.Node.{originator_user}
use velux_to_mqtt_gw.Klf200.Nodes.{same_bytes}
use velux_to_mqtt_gw.Klf200.Command.{
  CallError, Handler, api_call, priority_user_level2, unable, wrong_count,
}

pub record Scene : Type 0 where
  pub scene_id : ℕ
  pub name : List ℕ

unfoldable pub add_scene : Scene → List Scene → List Scene
add_scene scene [] = scene ∷ []
add_scene scene (s ∷ scenes) =
    if s.scene_id == scene.scene_id then scene ∷ scenes else s ∷ add_scene scene scenes

unfoldable pub scene_by_id : ℕ → List Scene → Option Scene
scene_by_id id [] = none
scene_by_id id (s ∷ scenes) = if s.scene_id == id then some s else scene_by_id id scenes

unfoldable pub scene_by_name : List ℕ → List Scene → Option Scene
unfolding same_bytes
scene_by_name name [] = none
scene_by_name name (s ∷ scenes) =
    if same_bytes s.name name then some s else scene_by_name name scenes

-- `Run`: the request, the handler, which captures whether the scene was accepted, and the call.
-- `VelocityDefault` and `ActivateSceneConfirmationStatusAccepted` are 0.
unfoldable pub activate_request : ℕ → ℕ → ActivateSceneRequest
activate_request sid scene_id = record {
  scene_id = scene_id;
  session_id = sid;
  originator = originator_user;
  priority = priority_user_level2;
  velocity = 0;
}

unfoldable pub activate_handler : ℕ → Bool → Handler Bool
activate_handler sid wait accepted (Message.activate_scene_confirmation f) =
    if not (f.session_id == sid) then (accepted, false) else (accepted || (f.status == 0), not wait)
activate_handler sid wait accepted (Message.session_finished f) = (accepted, f.session_id == sid)
activate_handler sid wait accepted f = (accepted, false)

unfoldable pub run_scene : ℕ → Bool → ℕ → List Frame → Result CallError (Unit {0})
unfolding api_call activate_request activate_handler
run_scene sid wait scene_id frames = do
  accepted ←
      api_call (Message.activate_scene_request (activate_request sid scene_id))
        (activate_handler sid wait) false frames
  require accepted unable

-- `Load`: the handler, which captures the promised count and the entries, and the call. The collection
-- is replaced also where the count is wrong, and is left where the exchange fails.
unfoldable pub scene_list_handler : Handler (Option ℕ × List SceneEntry)
scene_list_handler (count, collected) (Message.scene_list_confirmation f) =
    ((some f.count_scenes, collected), f.count_scenes == 0)
scene_list_handler (count, collected) (Message.scene_list_notification f) =
    ((count, collected ++ f.scenes), f.remaining_scenes == 0)
scene_list_handler s f = (s, false)

unfoldable pub count_checked : Option ℕ → ℕ → Result CallError (Unit {0})
count_checked none got = ok tt
count_checked (some expected) got = require (got == expected) (wrong_count expected got)

unfoldable pub add_scenes : List SceneEntry → List Scene → List Scene
unfolding add_scene
add_scenes [] scenes = scenes
add_scenes (entry ∷ entries) scenes =
    add_scenes entries (add_scene (record { scene_id = entry.number; name = entry.name }) scenes)

unfoldable pub replaced :
    List Scene
    → Result CallError (Option ℕ × List SceneEntry)
    → Result CallError (Unit {0}) × List Scene
unfolding count_checked add_scenes
replaced scenes (err e) = (err e, scenes)
replaced scenes (ok (count, collected)) =
    (count_checked count (length collected), add_scenes collected [])

unfoldable pub load_scenes : List Scene → List Frame → Result CallError (Unit {0}) × List Scene
unfolding api_call scene_list_handler replaced
load_scenes scenes frames =
    replaced scenes (api_call Message.scene_list_request scene_list_handler (none, []) frames)
