-- ===== src/Config/Examples.antt =====
-- A configuration file for app/config/config.go as it is parsed, with nothing in it but what is required.
use velux_to_mqtt_gw.Prelude.{[], ◌∷◌, true, false}
use velux_to_mqtt_gw.Prelude.Int.{pos}
use velux_to_mqtt_gw.Config.{Config}

abbrev pub parsed : Config
parsed = record {
  mqtt = record { url = 116 ∷ []; retain = true; qos = 0 };
  velux = record { host = 104 ∷ []; password = 112 ∷ []; connect_timeout_seconds = pos 0 };
  home_assistant = record { prefix = []; invert_awning = false };
  restart = record {
    restart_interval = pos 0;
    health_check_interval = pos 0;
    restart_on_error = true;
    power_cycle_topic = [];
    power_cycle_off_payload = [];
    power_cycle_on_payload = [];
    power_cycle_off_seconds = pos 0;
    restart_at = [];
    periodic_power_cycle = false;
  };
  log_level = [];
}
