-- ===== src/Protocol/Wire/Crc.antt =====
-- What the checksum and the length test of frame.go detect.
use velux_to_mqtt_gw.Prelude.{
  ℕ, zero, suc, ◌-◌, ◌<◌, List, [], ◌∷◌, ◌≡◌, ◌≢◌, arith, length, take, get_or, set, length-set,
  length-take, ok, sym, ap, ◌∙◌, refl,
}
use velux_to_mqtt_gw.Prelude.Bits.{bit_xor-cancel_left, bit_xor-cancel_right}
use velux_to_mqtt_gw.Protocol.Wire.{crc_from, calc_crc, extract_from_frame}
use Prim.Native.Nat.{bit_xor}
use native.Mathlib.Decide.{ℕ_discrete}

-- The checksum of the same bytes tells two start values apart.
crc_from-injective : (raw : List ℕ) (a b : ℕ) → crc_from a raw ≡ crc_from b raw → a ≡ b
unfolding crc_from
crc_from-injective [] a b e = e
crc_from-injective (x ∷ raw) a b e =
    bit_xor-cancel_right a b x (crc_from-injective raw (bit_xor a x) (bit_xor b x) e)

crc_from-set :
    (raw : List ℕ) (i v crc : ℕ)
    → i < length raw
    → crc_from crc (set raw i v) ≡ crc_from crc raw
    → v ≡ get_or raw i 0
unfolding crc_from
crc_from-set [] i v crc h e = absurd (omega arith)
crc_from-set (x ∷ raw) zero v crc h e =
    bit_xor-cancel_left crc v x (crc_from-injective raw (bit_xor crc v) (bit_xor crc x) e)
crc_from-set (x ∷ raw) (suc i) v crc h e = crc_from-set raw i v (bit_xor crc x) (omega arith) e

-- Any change of one byte changes the checksum.
pub calc_crc-set :
    (raw : List ℕ) (i v : ℕ)
    → i < length raw
    → v ≢ get_or raw i 0
    → calc_crc (set raw i v) ≢ calc_crc raw
unfolding calc_crc
calc_crc-set raw i v h differs e = differs (crc_from-set raw i v 0 h e)

-- An accepted frame carries its checksum in the last byte.
extract-crc :
    (raw : List ℕ) {c : ℕ} {p : List ℕ}
    → extract_from_frame raw ≡ ok (c, p)
    → (calc_crc (take (length raw - 1) raw) ≡ get_or raw (length raw - 1) 0) × (4 < length raw)
unfolding extract_from_frame
extract-crc raw h = ground arith

take-set_inside : (n i v : ℕ) (raw : List ℕ) → i < n → take n (set raw i v) ≡ set (take n raw) i v
take-set_inside zero i v raw h = absurd (omega arith)
take-set_inside (suc n) i v [] h = refl
take-set_inside (suc n) zero v (x ∷ raw) h = refl
take-set_inside (suc n) (suc i) v (x ∷ raw) h =
    ap (λ l. x ∷ l) (take-set_inside n i v raw (omega arith))

take-set_at : (n v : ℕ) (raw : List ℕ) → take n (set raw n v) ≡ take n raw
take-set_at zero v raw = refl
take-set_at (suc n) v [] = refl
take-set_at (suc n) v (x ∷ raw) = ap (λ l. x ∷ l) (take-set_at n v raw)

get_or-set_self : (i v : ℕ) (raw : List ℕ) → i < length raw → get_or (set raw i v) i 0 ≡ v
get_or-set_self i v [] h = absurd (omega arith)
get_or-set_self zero v (x ∷ raw) h = refl
get_or-set_self (suc i) v (x ∷ raw) h = get_or-set_self i v raw (omega arith)

get_or-set_ne : (i j v : ℕ) (raw : List ℕ) → i ≢ j → get_or (set raw i v) j 0 ≡ get_or raw j 0
get_or-set_ne i j v [] h = refl
get_or-set_ne zero zero v (x ∷ raw) h = absurd (h refl)
get_or-set_ne zero (suc j) v (x ∷ raw) h = refl
get_or-set_ne (suc i) zero v (x ∷ raw) h = refl
get_or-set_ne (suc i) (suc j) v (x ∷ raw) h = get_or-set_ne i j v raw (λ e. h (ap suc e))

get_or-take : (n i : ℕ) (raw : List ℕ) → i < n → get_or (take n raw) i 0 ≡ get_or raw i 0
get_or-take zero i raw h = absurd (omega arith)
get_or-take (suc n) i [] h = refl
get_or-take (suc n) zero (x ∷ raw) h = refl
get_or-take (suc n) (suc i) (x ∷ raw) h = get_or-take n i raw (omega arith)

same_crc_differs :
    (raw : List ℕ) (n i v : ℕ)
    → n < length raw
    → i < suc n
    → v ≢ get_or raw i 0
    → calc_crc (take n raw) ≡ get_or raw n 0
    → calc_crc (take n (set raw i v)) ≢ get_or (set raw i v) n 0
same_crc_differs raw n i v hn hi differs crc crc' = elim (ℕ_discrete i n) [
  | yes last ↦ differs (
      rw (last, ← crc, ← take-set_at n v raw) (sym (rw (last, get_or-set_self n v raw hn) at crc')))
  | no inside ↦
      calc_crc-set (take n raw) i v (omega (arith, inside, length-take n raw))
        (rw (get_or-take n i raw (omega (arith, inside))) differs)
        (ap calc_crc (sym (take-set_inside n i v raw (omega (arith, inside))))
          ∙ crc'
          ∙ get_or-set_ne i n v raw inside
          ∙ sym crc)
]

-- Any change of one byte of a frame that `ExtractFromFrame` accepts makes a frame that it refuses.
pub extract-set :
    (raw : List ℕ) (i v : ℕ) {c : ℕ} {p : List ℕ} (r : ℕ × List ℕ)
    → extract_from_frame raw ≡ ok (c, p)
    → i < length raw
    → v ≢ get_or raw i 0
    → extract_from_frame (set raw i v) ≢ ok r
extract-set raw i v (d, q) accepted h differs again =
    let (crc, long) = extract-crc raw accepted in
    let (crc', _) = extract-crc (set raw i v) again in
    same_crc_differs raw (length raw - 1) i v (omega arith) (omega arith) differs crc
      (rw (length-set raw i v) at crc')
