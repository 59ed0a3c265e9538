-- ===== src/Config/Runs.antt =====
-- Runs of app/config/config.go.
use velux_to_mqtt_gw.Prelude.{refl}
use velux_to_mqtt_gw.Config.{load_config, apply_defaults, validate, restart_time_of_day}
use velux_to_mqtt_gw.Config.Examples.{parsed}
use velux_to_mqtt_gw.Config.Defaults.{IsComplete, load_config-IsComplete}

load_config-IsComplete_example : IsComplete (apply_defaults parsed)
unfolding load_config validate restart_time_of_day apply_defaults
load_config-IsComplete_example = load_config-IsComplete parsed (apply_defaults parsed) refl
