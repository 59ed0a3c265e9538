-- ===== src/Protocol/Message/RoundTrip/SceneList.antt =====
-- The round trip of the scene list, whose entries take 65 bytes each.
use velux_to_mqtt_gw.Prelude.{
  ℕ, suc, ◌+◌, ◌*◌, ◌-◌, ◌≤◌, List, [], ◌∷◌, ◌++◌, ◌≡◌, refl, ap, ◌∙◌, arith, All, length, get_or,
  length-append, ok, ◌>>=◌, byte,
}
use velux_to_mqtt_gw.Protocol.Frames.Bytes.{padded, length-padded}
use velux_to_mqtt_gw.Protocol.Frames.Scenes.{
  SceneEntry, SceneListNotification, scene_bytes, read_scenes, marshal_scene_list_notification,
  unmarshal_scene_list_notification,
}
use velux_to_mqtt_gw.Protocol.Message.RoundTrip.Text.{
  HasNoNul, string_to_bytes-fits, bytes_to_string-padded, get_or-prefix, take-prefix, drop-prefix,
}

abbrev pub IsNamed : SceneEntry → Type 0
IsNamed s = (length s.name ≤ 64) × HasNoNul s.name

-- The entries as they are written.
entries : List SceneEntry → List ℕ → List ℕ
entries [] rest = rest
entries (s ∷ scenes) rest = s.number ∷ (padded 64 s.name ++ entries scenes rest)

scene_bytes-entries :
    (scenes : List SceneEntry) (rest : List ℕ)
    → All IsNamed scenes
    → scene_bytes scenes rest ≡ ok (entries scenes rest)
unfolding scene_bytes entries
scene_bytes-entries [] rest h = refl
scene_bytes-entries (s ∷ scenes) rest h =
    rw (string_to_bytes-fits 64 s.name h.0.0, scene_bytes-entries scenes rest h.1)

length-entries :
    (scenes : List SceneEntry) (rest : List ℕ)
    → length (entries scenes rest) ≡ 65 * length scenes + length rest
unfolding entries
length-entries [] rest = omega arith
length-entries (s ∷ scenes) rest = omega (
  arith,
  length-append (padded 64 s.name) (entries scenes rest),
  length-padded 64 s.name,
  length-entries scenes rest,
)

read_scenes-entries :
    (scenes : List SceneEntry) (rest : List ℕ)
    → All IsNamed scenes
    → read_scenes (length scenes) (entries scenes rest) ≡ scenes
unfolding read_scenes entries
read_scenes-entries [] rest h = refl
read_scenes-entries (s ∷ scenes) rest h =
    let name = padded 64 s.name in
    rw (
      take-prefix 64 name (entries scenes rest) (length-padded 64 s.name),
      drop-prefix 64 name (entries scenes rest) (length-padded 64 s.name),
      bytes_to_string-padded 64 s.name h.0.1 h.0.0,
      read_scenes-entries scenes rest h.1,
    )

last-entries :
    (scenes : List SceneEntry) (b : ℕ) → get_or (entries scenes (b ∷ [])) (65 * length scenes) 0 ≡ b
unfolding entries
last-entries [] b = refl
last-entries (s ∷ scenes) b =
    ap (get (s.number ∷ (padded 64 s.name ++ entries scenes (b ∷ [])))) shift
    ∙ get_or-prefix 64 (65 * length scenes) (padded 64 s.name) (entries scenes (b ∷ []))
        (length-padded 64 s.name)
    ∙ last-entries scenes b
  where
    get : List ℕ → ℕ → ℕ
    get p i = get_or p i 0

    shift : 65 * suc (length scenes) ≡ suc (64 + 65 * length scenes)
    shift = omega arith

pub scene_list_notification-round_trip :
    (e f : SceneListNotification)
    → length f.scenes ≤ 3
    → All IsNamed f.scenes
    → (marshal_scene_list_notification f >>= unmarshal_scene_list_notification e) ≡ ok f
unfolding marshal_scene_list_notification unmarshal_scene_list_notification
scene_list_notification-round_trip e f l h =
    rw (scene_bytes-entries f.scenes (f.remaining_scenes ∷ []) h, small)
      (rw (size, read_scenes-entries f.scenes (f.remaining_scenes ∷ []) h)
        (rw (index, last_entry) (ground arith)))
  where
    small : byte (length f.scenes) ≡ length f.scenes
    small = omega arith

    size : length (entries f.scenes (f.remaining_scenes ∷ [])) ≡ 65 * length f.scenes + 1
    size = length-entries f.scenes (f.remaining_scenes ∷ [])

    index : suc (65 * length f.scenes + 1) - 1 ≡ suc (65 * length f.scenes)
    index = omega arith

    last_entry :
        get_or (entries f.scenes (f.remaining_scenes ∷ [])) (65 * length f.scenes) 0
        ≡ f.remaining_scenes
    last_entry = last-entries f.scenes f.remaining_scenes

pub length-marshal_scene_list :
    (f : SceneListNotification)
    → length f.scenes ≤ 3
    → All IsNamed f.scenes
    → (p : List ℕ) × (marshal_scene_list_notification f ≡ ok p) × (length p ≤ 197)
unfolding marshal_scene_list_notification
length-marshal_scene_list f l h = (
  byte (length f.scenes) ∷ entries f.scenes (f.remaining_scenes ∷ []),
  rw (scene_bytes-entries f.scenes (f.remaining_scenes ∷ []) h),
  omega (arith, length-entries f.scenes (f.remaining_scenes ∷ [])),
)
