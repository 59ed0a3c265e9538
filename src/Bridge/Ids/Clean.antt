-- ===== src/Bridge/Ids/Clean.antt =====
-- What the id of a cover is made of, in bytes.
use velux_to_mqtt_gw.Prelude.{ℕ, ◌<◌, List, [], ◌∷◌, Bool, true, false, ◌≡◌, ◌≢◌, ◌⊎◌, ◌==◌}
use velux_to_mqtt_gw.Bridge.Ids.{umlaut}

-- No letter from A to Z, no second byte of one from À to Þ (215 is the sign of multiplication), and no
-- second byte of an umlaut: ä, ö, ü and ß.
abbrev pub IsNoCapital : ℕ → Type 0
IsNoCapital b = (b < 65) ⊎ (90 < b)

abbrev pub IsNoLatinCapital : ℕ → Type 0
IsNoLatinCapital b = (b < 128) ⊎ ((b ≡ 151) ⊎ (158 < b))

abbrev pub IsNoUmlaut : ℕ → Type 0
IsNoUmlaut b = (b ≢ 164) × (b ≢ 182) × (b ≢ 188) × (b ≢ 159)

-- A byte that is no capital and no space, given whether the byte before is 195.
abbrev pub IsLow : Bool → ℕ → Type 0
IsLow true b = (b ≢ 32) × IsNoCapital b × IsNoLatinCapital b
IsLow false b = (b ≢ 32) × IsNoCapital b

abbrev AreLow : Bool → List ℕ → Type 0
AreLow lead [] = Unit
AreLow lead (b ∷ s) = IsLow lead b × AreLow (b == 195) s

-- Nor the second byte of an umlaut.
abbrev pub IsClean : Bool → ℕ → Type 0
IsClean true b = IsLow true b × IsNoUmlaut b
IsClean false b = IsLow false b

abbrev pub AreClean : Bool → List ℕ → Type 0
AreClean lead [] = Unit
AreClean lead (b ∷ s) = IsClean lead b × AreClean (b == 195) s

-- What stands for an umlaut.
record IsSpelt (b x y : ℕ) : Type 0 where
  spelt : umlaut b ≡ x ∷ y ∷ []
  plain : IsClean true x
  first : IsClean false x
  second : IsClean false y
  no_lead : (x == 195) ≡ false
  no_held : (y == 195) ≡ false
  other : (b == 195) ≡ false
