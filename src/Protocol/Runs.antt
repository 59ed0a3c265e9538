-- ===== src/Protocol/Runs.antt =====
-- Runs of a whole frame, and of the table of frame types.
use velux_to_mqtt_gw.Prelude.{[], ◌∷◌, refl, arith}
use velux_to_mqtt_gw.Protocol.Parameter.{raw_of, parameter_is_valid_int}
use velux_to_mqtt_gw.Protocol.Frames.Commands.{PositionChanged}
use velux_to_mqtt_gw.Protocol.Message
use velux_to_mqtt_gw.Protocol.Message.Wellformed.{IsSettled, PositionChangedFits}
use velux_to_mqtt_gw.Protocol.Delivery.{IsDelivered, frame-IsDelivered}

-- A window on its way from 50 to 100 percent, with its functional parameters unknown.
abbrev report : PositionChanged
report = record {
  node_id = 3;
  state = 4;
  current_position = raw_of 0x6400;
  target = raw_of 0xC800;
  current_position_fp1 = raw_of 0xF7FF;
  current_position_fp2 = raw_of 0xF7FF;
  current_position_fp3 = raw_of 0xF7FF;
  current_position_fp4 = raw_of 0xF7FF;
  remaining_time = 20;
  timestamp = 1700000000;
}

unknown-IsSettled : IsSettled (raw_of 0xF7FF)
unfolding parameter_is_valid_int
unknown-IsSettled = record {
  raw = record { hi_byte = omega arith; lo_byte = omega arith };
  valid = refl;
}

report-fits : PositionChangedFits report
unfolding parameter_is_valid_int
report-fits = record {
  current_position = record {
    raw = record { hi_byte = omega arith; lo_byte = omega arith };
    valid = refl;
  };
  target = record { raw = record { hi_byte = omega arith; lo_byte = omega arith }; valid = refl };
  fp1 = unknown-IsSettled;
  fp2 = unknown-IsSettled;
  fp3 = unknown-IsSettled;
  fp4 = unknown-IsSettled;
  remaining_time = omega arith;
  timestamp = omega arith;
}

frame-IsDelivered_example : IsDelivered (Message.position_changed report) (192 ∷ [])
frame-IsDelivered_example =
    frame-IsDelivered (Message.position_changed report) (192 ∷ []) report-fits
