-- ===== src/Bridge/Ids.antt =====
-- app/bridge/ids.go: the id of a cover and its topics. Strings are their UTF-8 bytes; of the letters,
-- `strings.ToLower` is written out for ASCII and Latin-1, and leaves all other characters.
pub mod Clean
use velux_to_mqtt_gw.Prelude.{
  ℕ, ◌+◌, List, [], ◌∷◌, ◌++◌, Bool, true, false, ◌&&◌, not, leb, ◌==◌, if◌then◌else◌, map,
}

-- `strings.ReplaceAll(name, " ", "-")`
abbrev hyphen_for_space : ℕ → ℕ
hyphen_for_space b = if b == 32 then 45 else b

-- A letter in ASCII, and what follows a byte 195: the second byte of a letter in Latin-1, or ASCII.
abbrev pub lower_ascii : ℕ → ℕ
lower_ascii b = if leb 65 b && leb b 90 then b + 32 else b

abbrev pub lower_latin : ℕ → ℕ
lower_latin b = if (leb 128 b && leb b 158) && not (b == 151) then b + 32 else lower_ascii b

-- The first argument says whether the byte before was 195.
unfoldable pub to_lower : Bool → List ℕ → List ℕ
to_lower lead [] = []
to_lower lead (b ∷ s) = (if lead then lower_latin b else lower_ascii b) ∷ to_lower (b == 195) s

-- What stands for the umlaut whose second byte it is: "ae", "oe", "ue", "ss".
abbrev pub umlaut : ℕ → List ℕ
umlaut b =
    if b == 164
    then 97 ∷ 101 ∷ []
    else if b == 182
    then 111 ∷ 101 ∷ []
    else if b == 188
    then 117 ∷ 101 ∷ []
    else if b == 159
    then 115 ∷ 115 ∷ []
    else []

-- `umlautReplacer.Replace`. The first argument says whether a 195 is held back, which is the first byte
-- of an umlaut or is written before what follows.
unfoldable pub replace_umlauts : Bool → List ℕ → List ℕ
replace_umlauts held [] = if held then 195 ∷ [] else []
replace_umlauts false (b ∷ s) =
    let held = replace_umlauts true s in
    let other = replace_umlauts false s in if b == 195 then held else b ∷ other
replace_umlauts true (b ∷ s) =
    let held = replace_umlauts true s in
    let other = replace_umlauts false s in
    elim (umlaut b) [
      | [] ↦ if b == 195 then 195 ∷ held else 195 ∷ b ∷ other
      | x ∷ xs ↦ (x ∷ xs) ++ other
    ]

-- The id behind "vlx-".
unfoldable pub transliterated : List ℕ → List ℕ
unfolding to_lower replace_umlauts
transliterated name = replace_umlauts false (to_lower false (map hyphen_for_space name))

unfoldable pub generate_id : List ℕ → List ℕ
unfolding transliterated
generate_id name = 118 ∷ 108 ∷ 120 ∷ 45 ∷ transliterated name

pub record Topics : Type 0 where
  pub base : List ℕ
  pub keep_open_base : List ℕ
  pub state : List ℕ
  pub position : List ℕ
  pub available : List ℕ
  pub set : List ℕ
  pub keep_open_state : List ℕ
  pub keep_open_available : List ℕ
  pub keep_open_set : List ℕ

-- "-keepopen"
abbrev pub keepopen_suffix : List ℕ
keepopen_suffix = 45 ∷ 107 ∷ 101 ∷ 101 ∷ 112 ∷ 111 ∷ 112 ∷ 101 ∷ 110 ∷ []

-- "/state", "/position", "/available", "/set"
abbrev pub state_suffix : List ℕ
state_suffix = 47 ∷ 115 ∷ 116 ∷ 97 ∷ 116 ∷ 101 ∷ []

abbrev pub position_suffix : List ℕ
position_suffix = 47 ∷ 112 ∷ 111 ∷ 115 ∷ 105 ∷ 116 ∷ 105 ∷ 111 ∷ 110 ∷ []

abbrev pub available_suffix : List ℕ
available_suffix = 47 ∷ 97 ∷ 118 ∷ 97 ∷ 105 ∷ 108 ∷ 97 ∷ 98 ∷ 108 ∷ 101 ∷ []

abbrev pub set_suffix : List ℕ
set_suffix = 47 ∷ 115 ∷ 101 ∷ 116 ∷ []

unfoldable pub new_topics : List ℕ → List ℕ → Topics
new_topics prefix id =
    let base = prefix ++ id in
    let keep_open_base = (prefix ++ id) ++ keepopen_suffix in
    record {
      base = base;
      keep_open_base = keep_open_base;
      state = base ++ state_suffix;
      position = base ++ position_suffix;
      available = base ++ available_suffix;
      set = base ++ set_suffix;
      keep_open_state = keep_open_base ++ state_suffix;
      keep_open_available = keep_open_base ++ available_suffix;
      keep_open_set = keep_open_base ++ set_suffix;
    }
