-- ===== src/Config/Defaults.antt =====
-- What app/config/config.go promises of a configuration that it has loaded.
use velux_to_mqtt_gw.Prelude.{false, not, ok, ◌≡◌, ◌≢◌, arith}
use velux_to_mqtt_gw.Config.{
  Config, load_config, apply_defaults, validate, restart_time_of_day, restart_scheduled, is_empty,
  is_zero,
}

-- What the loops and the connection rely on.
pub record IsComplete (c : Config) : Type 0 where
  pub url : is_empty c.mqtt.url ≡ false
  pub host : is_empty c.velux.host ≡ false
  pub password : is_empty c.velux.password ≡ false
  pub qos : c.mqtt.qos ≢ 0
  pub restart_interval : is_zero c.restart.restart_interval ≡ false
  pub health_check_interval : is_zero c.restart.health_check_interval ≡ false
  pub connect_timeout : is_zero c.velux.connect_timeout_seconds ≡ false
  pub off_payload : is_empty c.restart.power_cycle_off_payload ≡ false
  pub on_payload : is_empty c.restart.power_cycle_on_payload ≡ false
  pub off_seconds : is_zero c.restart.power_cycle_off_seconds ≡ false
  pub log_level : is_empty c.log_level ≡ false
  -- A schedule that is set can be read, so that the periodic restart is not silently skipped.
  pub schedule : restart_scheduled c.restart ≡ not (is_empty c.restart.restart_at)

-- A configuration that was loaded has its required fields set and no field that has a default at zero or
-- empty, also where the file says 0, so that no value in the file turns a timer or a timeout off by being
-- zero; and a `restart-at` that is set can be read.
pub load_config-IsComplete : (parsed c : Config) → load_config parsed ≡ ok c → IsComplete c
unfolding load_config apply_defaults validate restart_scheduled restart_time_of_day
load_config-IsComplete parsed c h = ground arith

-- The defaults are applied once: an applied configuration is its own completion.
pub apply_defaults-idempotent : (c : Config) → apply_defaults (apply_defaults c) ≡ apply_defaults c
unfolding apply_defaults
apply_defaults-idempotent c = ground arith
