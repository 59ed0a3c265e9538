-- ===== src/Config.antt =====
-- app/config/config.go: the defaults, the validation and the switches of the configuration. A string
-- is the list of its bytes, an int a `ℤ`. Reading the file, the environment and the JSON is left out.
pub mod TimeOfDay
pub mod Defaults
pub mod Examples
mod Runs
use velux_to_mqtt_gw.Prelude.{
  ℕ, List, [], ◌∷◌, Bool, true, false, ◌&&◌, not, Option, none, some, Result, ok, err, ◌>>=◌, ◌>>◌,
  require, if◌then◌else◌, ◌==◌,
}
use velux_to_mqtt_gw.Prelude.Int.{ℤ, pos, negsuc}
unfoldable pub use TimeOfDay.{parse_time_of_day}

abbrev pub is_empty : List ℕ → Bool
is_empty [] = true
is_empty (b ∷ s) = false

abbrev pub is_zero : ℤ → Bool
is_zero (pos n) = n == 0
is_zero (negsuc n) = false

pub record MqttConfig : Type 0 where
  pub url : List ℕ
  pub retain : Bool
  pub qos : ℕ

pub record VeluxConfig : Type 0 where
  pub host : List ℕ
  pub password : List ℕ
  pub connect_timeout_seconds : ℤ

pub record HomeAssistantConfig : Type 0 where
  pub prefix : List ℕ
  pub invert_awning : Bool

pub record RestartConfig : Type 0 where
  pub restart_interval : ℤ
  pub health_check_interval : ℤ
  pub restart_on_error : Bool
  pub power_cycle_topic : List ℕ
  pub power_cycle_off_payload : List ℕ
  pub power_cycle_on_payload : List ℕ
  pub power_cycle_off_seconds : ℤ
  pub restart_at : List ℕ
  pub periodic_power_cycle : Bool

pub record Config : Type 0 where
  pub mqtt : MqttConfig
  pub velux : VeluxConfig
  pub home_assistant : HomeAssistantConfig
  pub restart : RestartConfig
  pub log_level : List ℕ

unfoldable pub power_cycle_enabled : RestartConfig → Bool
power_cycle_enabled r = not (is_empty r.power_cycle_topic)

unfoldable pub periodic_power_cycle_enabled : RestartConfig → Bool
unfolding power_cycle_enabled
periodic_power_cycle_enabled r = r.periodic_power_cycle && power_cycle_enabled r

-- The errors of `validate`.
pub data Invalid : Type 0 where
  missing_url missing_host missing_password : Invalid
  bad_restart_at : List ℕ → Invalid

unfoldable pub restart_time_of_day : RestartConfig → Result Invalid (ℕ × ℕ)
unfolding parse_time_of_day
restart_time_of_day r =
    if is_empty r.restart_at then ok (0, 0) else elim (parse_time_of_day r.restart_at) [
      | none ↦ err (bad_restart_at r.restart_at)
      | some t ↦ ok t
    ]

unfoldable pub restart_scheduled : RestartConfig → Bool
unfolding restart_time_of_day
restart_scheduled r =
    if is_empty r.restart_at
    then false
    else elim (restart_time_of_day r) [ ok t ↦ true | err e ↦ false ]

abbrev pub or_int : ℤ → ℕ → ℤ
or_int n d = if is_zero n then pos d else n

abbrev pub or_bytes : List ℕ → List ℕ → List ℕ
or_bytes s d = if is_empty s then d else s

-- "OFF", "ON", "info"
abbrev pub off_default : List ℕ
off_default = 79 ∷ 70 ∷ 70 ∷ []

abbrev pub on_default : List ℕ
on_default = 79 ∷ 78 ∷ []

abbrev pub log_level_default : List ℕ
log_level_default = 105 ∷ 110 ∷ 102 ∷ 111 ∷ []

unfoldable pub apply_defaults : Config → Config
apply_defaults c = record c {
  mqtt = record c.mqtt { qos = if c.mqtt.qos == 0 then 1 else c.mqtt.qos };
  velux = record c.velux { connect_timeout_seconds = or_int c.velux.connect_timeout_seconds 45 };
  restart = record c.restart {
    restart_interval = or_int c.restart.restart_interval 24;
    health_check_interval = or_int c.restart.health_check_interval 300;
    power_cycle_off_payload = or_bytes c.restart.power_cycle_off_payload off_default;
    power_cycle_on_payload = or_bytes c.restart.power_cycle_on_payload on_default;
    power_cycle_off_seconds = or_int c.restart.power_cycle_off_seconds 10;
  };
  log_level = or_bytes c.log_level log_level_default;
}

unfoldable pub validate : Config → Result Invalid (Unit {0})
unfolding restart_time_of_day
validate c = do
  require (not (is_empty c.mqtt.url)) missing_url
  require (not (is_empty c.velux.host)) missing_host
  require (not (is_empty c.velux.password)) missing_password
  time ← restart_time_of_day c.restart
  ok tt

-- `LoadConfig` from the parsed file on: the defaults, then the checks.
unfoldable pub load_config : Config → Result Invalid Config
unfolding apply_defaults validate
load_config parsed = do validate (apply_defaults parsed); ok (apply_defaults parsed)
