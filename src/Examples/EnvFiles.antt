-- ===== src/Examples/EnvFiles.antt =====
-- Tests: the .env file.
use secure_io_t_device_platf.Base.{◌≡◌, refl, arith, String, some, [], ◌∷◌}
use secure_io_t_device_platf.Base.Text.{strip, lstrip, rstrip, is_space}
use secure_io_t_device_platf.Table.{find}
use secure_io_t_device_platf.EnvFile.{Entry, assignment, parse_from, parse_env_file, set_env_values}
use secure_io_t_device_platf.EnvFile.Text.{splitlines, push, is_break}
use secure_io_t_device_platf.EnvFile.Line.{split_eq, unquoted, last_code}
use secure_io_t_device_platf.EnvFile.Written.{IsPlain}
use secure_io_t_device_platf.EnvFile.Reading.{lookup}
use secure_io_t_device_platf.EnvFile.Updated.{count}
use secure_io_t_device_platf.EnvFile.RoundTrip.{lookup-set_env_values}

abbrev file : String
file = "# platform\nAPI_PUBLIC_HOST = '10.0.0.1'\n\nMQTT_PORT=8883\n"

abbrev host : Entry
host = record { key = "API_PUBLIC_HOST"; value = "192.168.4.2" }

abbrev ssid : Entry
ssid = record { key = "IOT_WIFI_SSID"; value = "plant" }

host-IsPlain : IsPlain host
unfolding rstrip is_space split_eq unquoted last_code is_break
host-IsPlain = record {
  key_start = refl;
  key_end = refl;
  no_equals = refl;
  no_hash = refl;
  value_start = refl;
  value_end = refl;
  not_quoted = refl;
  key_whole = refl;
  value_whole = refl;
}

ssid-IsPlain : IsPlain ssid
unfolding rstrip is_space split_eq unquoted last_code is_break
ssid-IsPlain = record {
  key_start = refl;
  key_end = refl;
  no_equals = refl;
  no_hash = refl;
  value_start = refl;
  value_end = refl;
  not_quoted = refl;
  key_whole = refl;
  value_whole = refl;
}

lookup-set_env_values_example :
    lookup "API_PUBLIC_HOST" (set_env_values ("# Wi-Fi" ∷ []) (host ∷ ssid ∷ []) file) ≡ some host
unfolding assignment strip lstrip rstrip is_space split_eq find count parse_from parse_env_file
    splitlines push is_break
lookup-set_env_values_example =
    lookup-set_env_values "API_PUBLIC_HOST" ("# Wi-Fi" ∷ []) (host ∷ ssid ∷ []) file (refl, tt)
      (refl, tt) (host-IsPlain, (ssid-IsPlain, tt)) (refl, (refl, tt)) (λ h. omega arith)

abbrev separated : String
separated = "IOT_WIFI_SSID=a\u{2028}b\r\nMQTT_PORT=8883\u{b}X"

-- Every line end of `str.splitlines` cuts, also the ones that no editor shows.
splitlines_test : splitlines separated ≡ "IOT_WIFI_SSID=a" ∷ "b" ∷ "MQTT_PORT=8883" ∷ "X" ∷ []
unfolding splitlines push is_break
splitlines_test = refl
