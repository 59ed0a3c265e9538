-- ===== src/Bridge/Manager/Shown.antt =====
-- What the broker shows of each topic, and that a shutdown leaves no cover online and no discovery.
use velux_to_mqtt_gw.Prelude.{
  ℕ, List, [], ◌∷◌, Bool, true, false, Option, none, some, ◌≡◌, ◌⊎◌, refl, ap, sym, arith,
  if◌then◌else◌, All, inl, inr, Bool-cases,
}
use velux_to_mqtt_gw.Klf200.Nodes.{same_bytes}
use velux_to_mqtt_gw.Bridge.Cover.{availability, publish_availability}
use velux_to_mqtt_gw.Bridge.Discovery.{Registered}
use velux_to_mqtt_gw.Bridge.Manager.{
  Content, told, Sent, Manager, publish, topic_of, publish_retained, announce, mark_all,
}

pub same_bytes_refl : (s : List ℕ) → same_bytes s s ≡ true
unfolding same_bytes
same_bytes_refl [] = refl
same_bytes_refl (b ∷ s) = ground (arith, same_bytes_refl s)

pub same_bytes→≡ : (s t : List ℕ) → same_bytes s t ≡ true → s ≡ t
unfolding same_bytes
same_bytes→≡ [] [] h = refl
same_bytes→≡ [] (c ∷ t) h = absurd (ground arith)
same_bytes→≡ (b ∷ s) [] h = absurd (ground arith)
same_bytes→≡ (b ∷ s) (c ∷ t) h = ground (arith, same_bytes→≡ s t)

-- The newest message for a topic, and whether the broker keeps it.
abbrev pub last_sent : List ℕ → List Sent → Option (Content × Bool)
last_sent t [] = none
last_sent t (x ∷ sent) =
    if same_bytes x.topic t then some (x.content, x.retained) else last_sent t sent

-- A message that is for another topic, or says the same, changes nothing.
abbrev pub Keeps : List ℕ → Content × Bool → Manager → Manager → Type 0
Keeps t v m n = last_sent t m.sent ≡ some v → last_sent t n.sent ≡ some v

pub publish-Keeps :
    (topic : List ℕ) (content : Content) (retained : Bool) (t : List ℕ) (v : Content × Bool)
    (m : Manager)
    → ((same_bytes topic t ≡ false) ⊎ (v ≡ (content, retained)))
    → Keeps t v m (publish topic content retained m)
unfolding publish
publish-Keeps topic content retained t v m (inl e) h = rw (last_sent, e) h
publish-Keeps topic content retained t v m (inr e) h = elim (Bool-cases (same_bytes topic t)) [
  | inl q ↦ rw (last_sent, q) (ap some (sym e))
  | inr q ↦ rw (last_sent, q) h
]

pub publish-shown :
    (topic : List ℕ) (content : Content) (retained : Bool) (m : Manager)
    → last_sent topic (publish topic content retained m).sent ≡ some (content, retained)
unfolding publish
publish-shown topic content retained m = rw (last_sent, same_bytes_refl topic)

-- What a cover's availability topics say when all covers are announced.
abbrev pub said : Bool → Bool → Content × Bool
said retain online = (told (availability online), retain)

announce-Keeps :
    (retain online : Bool) (covers : List (List ℕ × Registered)) (t : List ℕ) (m : Manager)
    → Keeps t (said retain online) m (announce retain online covers m)
unfolding announce publish_retained publish_availability topic_of
announce-Keeps retain online [] t m h = h
announce-Keeps retain online ((key, c) ∷ covers) t m h =
    let first = publish c.topics.available (told (availability online)) retain m in
    let second = publish c.topics.keep_open_available (told (availability online)) retain first in
    announce-Keeps retain online covers t second (
      publish-Keeps c.topics.keep_open_available (told (availability online)) retain t
        (said retain online) first (inr refl)
        (publish-Keeps c.topics.available (told (availability online)) retain t (said retain online)
          m (inr refl) h))

-- Both availability topics of a cover say so.
abbrev pub IsShown : Content × Bool → Manager → List ℕ × Registered → Type 0
IsShown v m (key, c) =
    (last_sent c.topics.available m.sent ≡ some v)
    × (last_sent c.topics.keep_open_available m.sent ≡ some v)

pub announce-IsShown :
    (retain online : Bool) (covers : List (List ℕ × Registered)) (m : Manager)
    → All (IsShown (said retain online) (announce retain online covers m)) covers
unfolding announce publish_retained publish_availability topic_of
announce-IsShown retain online [] m = tt
announce-IsShown retain online ((key, c) ∷ covers) m =
    let told_online = told (availability online) in
    let first = publish c.topics.available told_online retain m in
    let second = publish c.topics.keep_open_available told_online retain first in
    (
      (
        announce-Keeps retain online covers c.topics.available second (
            publish-Keeps c.topics.keep_open_available told_online retain c.topics.available
              (said retain online) first (inr refl)
              (publish-shown c.topics.available told_online retain m)),
        announce-Keeps retain online covers c.topics.keep_open_available second
            (publish-shown c.topics.keep_open_available told_online retain first),
      ),
      announce-IsShown retain online covers second,
    )

-- Marking all covers leaves the availability topics of each of them, and of its switch, with the
-- payload and the configured retain flag, whatever was published before and even where two covers
-- share their topics.
pub mark_all-IsShown :
    (retain online : Bool) (m : Manager)
    → All (IsShown (said retain online) (mark_all retain online m)) m.covers
unfolding mark_all
mark_all-IsShown retain online m = announce-IsShown retain online m.covers m
