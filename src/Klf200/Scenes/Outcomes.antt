-- ===== src/Klf200/Scenes/Outcomes.antt =====
-- What loading the scenes and running one return, as a property of the frames that arrive.
use mathlib.Core.List.{append_assoc, append-nil}
use velux_to_mqtt_gw.Prelude.{
  ℕ, List, [], ◌∷◌, ◌++◌, Bool, true, false, Option, none, some, ok, err, ◌==◌, ◌≡◌, refl, ap, sym,
  arith, if◌then◌else◌, length, inl, inr, Bool-cases, Option-cases, ◌>>=◌, require, ◌∙◌, ◌≢◌, All,
  ==_iff, eq_refl, Result,
}
use velux_to_mqtt_gw.Protocol.Frames.Scenes.{SceneEntry}
use velux_to_mqtt_gw.Protocol.Message
use velux_to_mqtt_gw.Protocol.Message.{Frame}
use velux_to_mqtt_gw.Protocol.Payload.{marshal_frame, marshal_payload}
use velux_to_mqtt_gw.Klf200.Command.{CallError, no_answer, unable, wrong_count, exchange, api_call}
use velux_to_mqtt_gw.Klf200.Command.Answers.{first_answer, judged}
use velux_to_mqtt_gw.Klf200.Scenes.{
  Scene, run_scene, activate_handler, load_scenes, scene_list_handler, count_checked, replaced,
  add_scenes, add_scene, scene_by_id,
}

-- What the gateway transmits of its list: the count that it promised last, and the entries up to the
-- first notification that says that none remain, or to the promise of none.
abbrev pub transmitted : Option ℕ → List Frame → Option (Option ℕ × List SceneEntry)
transmitted count [] = none
transmitted count (Message.scene_list_confirmation f ∷ frames) =
    let later = transmitted (some f.count_scenes) frames in
    if f.count_scenes == 0 then some (some f.count_scenes, []) else later
transmitted count (Message.scene_list_notification f ∷ frames) =
    if f.remaining_scenes == 0 then some (count, f.scenes) else elim (transmitted count frames) [
      | none ↦ none
      | some (promised, entries) ↦ some (promised, f.scenes ++ entries)
    ]
transmitted count (f ∷ frames) = transmitted count frames

abbrev behind :
    List SceneEntry → Option (Option ℕ × List SceneEntry) → Option (Option ℕ × List SceneEntry)
behind collected none = none
behind collected (some (count, entries)) = some (count, collected ++ entries)

behind-append :
    (xs ys : List SceneEntry) (o : Option (Option ℕ × List SceneEntry))
    → behind (xs ++ ys) o
      ≡ behind xs (elim o [ none ↦ none | some (count, entries) ↦ some (count, ys ++ entries) ])
behind-append xs ys none = refl
behind-append xs ys (some (count, entries)) = ap (λ l. some (count, l)) (append_assoc xs ys entries)

behind_none : (o : Option (Option ℕ × List SceneEntry)) → behind [] o ≡ o
behind_none none = refl
behind_none (some v) = refl

scene_exchange :
    (count : Option ℕ) (collected : List SceneEntry) (frames : List Frame)
    → exchange scene_list_handler (count, collected) frames
      ≡ behind collected (transmitted count frames)
unfolding exchange scene_list_handler
scene_exchange count collected [] = refl
scene_exchange count collected (Message.scene_list_confirmation f ∷ frames) =
    elim (Bool-cases (f.count_scenes == 0)) [
      | inl e ↦
          rw (exchange, transmitted, e)
            (ap (λ l. some (some f.count_scenes, l)) (sym (append-nil collected)))
      | inr e ↦
          rw (exchange, transmitted, e) (scene_exchange (some f.count_scenes) collected frames)
    ]
scene_exchange count collected (Message.scene_list_notification f ∷ frames) =
    elim (Bool-cases (f.remaining_scenes == 0)) [
      | inl e ↦ rw (exchange, transmitted, e)
      | inr e ↦
          rw (exchange, transmitted, e, scene_exchange count (collected ++ f.scenes) frames)
            (behind-append collected f.scenes (transmitted count frames))
    ]
scene_exchange count collected (f ∷ frames) = scene_exchange count collected frames

-- The scene of the last entry that has a number.
abbrev pub last_entry : ℕ → List SceneEntry → Option Scene → Option Scene
last_entry id [] found = found
last_entry id (entry ∷ entries) found =
    last_entry id entries
      (if entry.number == id then some (record { scene_id = id; name = entry.name }) else found)

scene_by_id-add_scene :
    (scene : Scene) (scenes : List Scene) (id : ℕ)
    → scene_by_id id (add_scene scene scenes)
      ≡ (if scene.scene_id == id then some scene else scene_by_id id scenes)
unfolding add_scene scene_by_id
scene_by_id-add_scene scene [] id = refl
scene_by_id-add_scene scene (s ∷ scenes) id = ground (arith, scene_by_id-add_scene scene scenes id)

scene_by_id-add_scenes :
    (entries : List SceneEntry) (scenes : List Scene) (id : ℕ)
    → scene_by_id id (add_scenes entries scenes) ≡ last_entry id entries (scene_by_id id scenes)
unfolding add_scenes
scene_by_id-add_scenes [] scenes id = refl
scene_by_id-add_scenes (entry ∷ entries) scenes id =
    scene_by_id-add_scenes entries
      (add_scene (record { scene_id = entry.number; name = entry.name }) scenes) id
    ∙ ap (λ o. last_entry id entries o)
        (scene_by_id-add_scene (record { scene_id = entry.number; name = entry.name }) scenes id
          ∙ named id entry (scene_by_id id scenes))
  where
    named :
        (id : ℕ) (entry : SceneEntry) (o : Option Scene)
        → (if entry.number == id
            then some (record { scene_id = entry.number; name = entry.name })
            else o)
          ≡ (if entry.number == id then some (record { scene_id = id; name = entry.name }) else o)
    named id entry o = elim (Bool-cases (entry.number == id)) [
      | inl e ↦ rw (e, (==_iff entry.number id).0 e)
      | inr e ↦ rw e
    ]

-- The numbers of the collection, and that none is there twice.
abbrev numbers : List Scene → List ℕ
numbers [] = []
numbers (s ∷ scenes) = s.scene_id ∷ numbers scenes

abbrev Differs : ℕ → ℕ → Type 0
Differs a b = a ≢ b

abbrev pub HasUniqueNumbers : List Scene → Type 0
HasUniqueNumbers [] = Unit
HasUniqueNumbers (s ∷ scenes) = All (Differs s.scene_id) (numbers scenes) × HasUniqueNumbers scenes

add_scene-Differs :
    (id : ℕ) (scene : Scene) (scenes : List Scene)
    → id ≢ scene.scene_id
    → All (Differs id) (numbers scenes)
    → All (Differs id) (numbers (add_scene scene scenes))
unfolding add_scene
add_scene-Differs id scene [] h all = (h, tt)
add_scene-Differs id scene (s ∷ scenes) h (first, rest) =
    ground (arith, add_scene-Differs id scene scenes h rest)

add_scene_unique :
    (scene : Scene) (scenes : List Scene)
    → HasUniqueNumbers scenes
    → HasUniqueNumbers (add_scene scene scenes)
unfolding add_scene
add_scene_unique scene [] h = (tt, tt)
add_scene_unique scene (s ∷ scenes) (all, unique) =
    elim (Bool-cases (s.scene_id == scene.scene_id)) [
      | inl e ↦ rw (add_scene, e) (rw ((==_iff s.scene_id scene.scene_id).0 e) at all, unique)
      | inr e ↦
          rw (add_scene, e)
            (
              add_scene-Differs s.scene_id scene scenes (ground (arith, eq_refl scene.scene_id))
                  all,
              add_scene_unique scene scenes unique,
            )
    ]

add_scenes_unique :
    (entries : List SceneEntry) (scenes : List Scene)
    → HasUniqueNumbers scenes
    → HasUniqueNumbers (add_scenes entries scenes)
unfolding add_scenes
add_scenes_unique [] scenes h = h
add_scenes_unique (entry ∷ entries) scenes h =
    add_scenes_unique entries
      (add_scene (record { scene_id = entry.number; name = entry.name }) scenes)
      (add_scene_unique (record { scene_id = entry.number; name = entry.name }) scenes h)

-- The verdict on a number of entries, given what was promised.
abbrev pub counted : Option ℕ → ℕ → Result CallError (Unit {0})
counted none got = ok tt
counted (some promised) got = if promised == got then ok tt else err (wrong_count promised got)

count_checked-counted : (count : Option ℕ) (got : ℕ) → count_checked count got ≡ counted count got
unfolding count_checked
count_checked-counted none got = refl
count_checked-counted (some promised) got = ground arith

-- What a load leaves of a list that is not completed, and of one that is.
abbrev pub AreLoaded :
    List Scene
    → Option (Option ℕ × List SceneEntry)
    → Result CallError (Unit {0}) × List Scene
    → Type 0
AreLoaded scenes none r = r ≡ (err no_answer, scenes)
AreLoaded scenes (some (count, entries)) (r, after) =
    (r ≡ counted count (length entries))
    × HasUniqueNumbers after
    × ((id : ℕ) → scene_by_id id after ≡ last_entry id entries none)

replaced-AreLoaded :
    (scenes : List Scene) (o : Option (Option ℕ × List SceneEntry))
    → AreLoaded scenes o (replaced scenes (elim o [ none ↦ err no_answer | some t ↦ ok t ]))
unfolding replaced scene_by_id
replaced-AreLoaded scenes none = refl
replaced-AreLoaded scenes (some (count, entries)) = (
  count_checked-counted count (length entries),
  add_scenes_unique entries [] tt,
  λ id. scene_by_id-add_scenes entries [] id,
)

-- Loading replaces the collection by the entries that are transmitted, over any number of notifications:
-- each number is there once, and finds the scene of the last entry for it. The call succeeds where no
-- count was promised or the promised one is right, and reports both counts where they differ. Where the
-- list is not completed, it fails and leaves the collection as it was.
pub load_scenes-outcome :
    (scenes : List Scene) (frames : List Frame)
    → AreLoaded scenes (transmitted none frames) (load_scenes scenes frames)
unfolding load_scenes api_call marshal_frame marshal_payload
load_scenes-outcome scenes frames =
    rw (load_scenes, api_call, scene_exchange none [] frames, behind_none (transmitted none frames))
      (replaced-AreLoaded scenes (transmitted none frames))

-- The frames that end a run of a scene that is not awaited, and whether it is accepted.
abbrev pub scene_verdict : ℕ → Frame → Option Bool
scene_verdict sid (Message.activate_scene_confirmation f) =
    if f.session_id == sid then some (f.status == 0) else none
scene_verdict sid (Message.session_finished f) = if f.session_id == sid then some false else none
scene_verdict sid f = none

activate_handler-verdict :
    (sid : ℕ) (f : Frame)
    → activate_handler sid false false f
      ≡ elim (scene_verdict sid f) [ none ↦ (false, false) | some b ↦ (b, true) ]
unfolding activate_handler
activate_handler-verdict sid (Message.activate_scene_confirmation f) = ground arith
activate_handler-verdict sid (Message.session_finished f) = ground arith
activate_handler-verdict sid f = refl

run_exchange :
    (sid : ℕ) (frames : List Frame)
    → exchange (activate_handler sid false) false frames ≡ first_answer (scene_verdict sid) frames
unfolding exchange
run_exchange sid [] = refl
run_exchange sid (f ∷ frames) = elim (Option-cases (scene_verdict sid f)) [
  | inl e ↦ rw (exchange, first_answer, activate_handler-verdict sid f, e) (run_exchange sid frames)
  | inr (b, e) ↦ rw (exchange, first_answer, activate_handler-verdict sid f, e)
]

-- A scene that is not awaited succeeds just if the first frame that answers its session is a
-- confirmation that accepts it.
pub run_scene-outcome :
    (sid scene_id : ℕ) (frames : List Frame)
    → run_scene sid false scene_id frames
      ≡ judged (first_answer (scene_verdict sid) frames) (λ accepted. require accepted unable)
unfolding run_scene api_call marshal_frame marshal_payload
run_scene-outcome sid scene_id frames =
    rw (run_scene, api_call, run_exchange sid frames)
      (by_verdict (first_answer (scene_verdict sid) frames))
  where
    by_verdict :
        (o : Option Bool)
        → ((elim o [ none ↦ err no_answer | some t ↦ ok t ]) >>= λ accepted.
            require accepted unable)
          ≡ judged o (λ accepted. require accepted unable)
    by_verdict none = refl
    by_verdict (some b) = refl
