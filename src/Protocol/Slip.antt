-- ===== src/Protocol/Slip.antt =====
-- app/klf200/protocol/slip.go: SLIP framing. A byte slice is a list of numbers, and `none` is the
-- nil slice, which Go tells from an empty one.
pub mod Escape
pub mod Stream
use velux_to_mqtt_gw.Prelude.{
  ℕ, zero, suc, ◌+◌, ◌-◌, List, [], ◌∷◌, ◌++◌, Option, none, some, Bool, true, false, ◌&&◌, ◌==◌,
  ltb, if◌then◌else◌, length, take, drop,
}

abbrev pub slip_end : ℕ
slip_end = 0xC0

abbrev pub slip_esc : ℕ
slip_esc = 0xDB

abbrev pub slip_esc_end : ℕ
slip_esc_end = 0xDC

abbrev pub slip_esc_esc : ℕ
slip_esc_esc = 0xDD

-- `bytes.HasPrefix`.
has_prefix : List ℕ → List ℕ → Bool
has_prefix s [] = true
has_prefix [] (p ∷ ps) = false
has_prefix (x ∷ s) (p ∷ ps) = (x == p) && has_prefix s ps

-- `bytes.ReplaceAll` for an `old` that is not empty: the occurrences from the left, none of which
-- overlaps. `skip` counts the bytes of the last occurrence that are still to be passed over.
replace_from : ℕ → List ℕ → List ℕ → List ℕ → List ℕ
unfolding has_prefix
replace_from skip [] old new = []
replace_from (suc skip) (x ∷ s) old new = replace_from skip s old new
replace_from zero (x ∷ s) old new = elim (has_prefix (x ∷ s) old) [
  | true ↦ new ++ replace_from (length old - 1) s old new
  | false ↦ x ∷ replace_from 0 s old new
]

replace_all : List ℕ → List ℕ → List ℕ → List ℕ
unfolding replace_from
replace_all s old new = replace_from 0 s old new

-- `bytes.IndexByte`; `none` is the -1 of a byte that does not occur.
pub index_byte : List ℕ → ℕ → Option ℕ
index_byte [] c = none
index_byte (x ∷ s) c =
    if x == c then some 0 else elim (index_byte s c) [ none ↦ none | some i ↦ some (suc i) ]

abbrev is_some : Option ℕ → Bool
is_some none = false
is_some (some i) = true

abbrev index_or_zero : Option ℕ → ℕ
index_or_zero none = 0
index_or_zero (some i) = i

-- `raw[0] == SlipEnd && bytes.IndexByte(raw[1:], SlipEnd) != -1` behind the length test.
unfoldable pub is_slip : List ℕ → Bool
unfolding index_byte
is_slip [] = false
is_slip (x ∷ []) = false
is_slip (x ∷ y ∷ raw) = (x == slip_end) && is_some (index_byte (y ∷ raw) slip_end)

unfoldable pub slip_decode : List ℕ → List ℕ
unfolding replace_all
slip_decode raw =
    let out = replace_all raw (slip_esc ∷ slip_esc_end ∷ []) (slip_end ∷ []) in
    replace_all out (slip_esc ∷ slip_esc_esc ∷ []) (slip_esc ∷ [])

unfoldable pub slip_encode : List ℕ → List ℕ
unfolding replace_all
slip_encode raw =
    let out = replace_all raw (slip_esc ∷ []) (slip_esc ∷ slip_esc_esc ∷ []) in
    replace_all out (slip_end ∷ []) (slip_esc ∷ slip_esc_end ∷ [])

-- `bytes.ReplaceAll` copies a slice without an occurrence by `append([]byte(nil), s...)`, which is
-- nil for an empty slice: the body of an empty packet comes back as nil.
abbrev pub nil_if_empty : List ℕ → Option (List ℕ)
nil_if_empty [] = none
nil_if_empty (x ∷ s) = some (x ∷ s)

-- `length` counts from `raw[1]`, so that the packet is `raw[1 : length+1]`.
unfoldable pub get_next_slip : List ℕ → Option (List ℕ) × List ℕ
get_next_slip raw =
    let len = index_or_zero (index_byte (drop 1 raw) slip_end) in
    if is_slip raw
    then (nil_if_empty (slip_decode (take len (drop 1 raw))), drop (len + 2) raw)
    else (none, raw)

unfoldable pub slip_pack : List ℕ → List ℕ
slip_pack raw = (slip_end ∷ slip_encode raw) ++ slip_end ∷ []
