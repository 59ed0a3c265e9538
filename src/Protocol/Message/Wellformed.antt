-- ===== src/Protocol/Message/Wellformed.antt =====
-- The frames that come back as they were sent: every field fits its width, every parameter is one that
-- `NewParameter` leaves as it is, and what `UnmarshalPayload` does not read has its zero value.
use velux_to_mqtt_gw.Prelude.{ℕ, ◌<◌, IsU16}
use velux_to_mqtt_gw.Protocol.Parameter.{Parameter}
use velux_to_mqtt_gw.Protocol.Parameter.Normal.{IsRaw, IsValid}
use velux_to_mqtt_gw.Protocol.Frames.Commands.{PositionChanged}

abbrev pub IsU32 : ℕ → Type 0
IsU32 n = n < 4294967296

pub record IsSettled (p : Parameter) : Type 0 where
  pub raw : IsRaw p
  pub valid : IsValid p

pub record PositionChangedFits (f : PositionChanged) : Type 0 where
  pub current_position : IsSettled f.current_position
  pub target : IsSettled f.target
  pub fp1 : IsSettled f.current_position_fp1
  pub fp2 : IsSettled f.current_position_fp2
  pub fp3 : IsSettled f.current_position_fp3
  pub fp4 : IsSettled f.current_position_fp4
  pub remaining_time : IsU16 f.remaining_time
  pub timestamp : IsU32 f.timestamp
