-- ===== src/Protocol/Wire/Runs.antt =====
-- Runs of frame.go.
use velux_to_mqtt_gw.Prelude.{ℕ, List, [], ◌∷◌, ◌≢◌, refl, arith, ok, set}
use velux_to_mqtt_gw.Protocol.Wire.{extract_from_frame, calc_crc, crc_from}
use velux_to_mqtt_gw.Protocol.Wire.Crc.{extract-set}

-- GW_GET_NODE_INFORMATION_REQ for node 4.
abbrev request : List ℕ
request = 0 ∷ 4 ∷ 2 ∷ 0 ∷ 4 ∷ 2 ∷ []

extract-set_example : extract_from_frame (set request 4 5) ≢ ok (0x0200, 5 ∷ [])
unfolding extract_from_frame calc_crc crc_from
extract-set_example = extract-set request 4 5 (0x0200, 5 ∷ []) refl (omega arith) (λ e. omega arith)
