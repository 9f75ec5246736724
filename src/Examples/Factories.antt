-- ===== src/Examples/Factories.antt =====
-- Tests: the manufacturing station and a unit on its serial port.
use secure_io_t_device_platf.Base.{◌≡◌, refl, String, true, some, none, [], ◌∷◌, inr, ap, sym, ◌==◌}
use secure_io_t_device_platf.Base.Text.{
  strip, lstrip, rstrip, is_space, lower_code, same_codes, after_prefix, contains, starts_with,
}
use secure_io_t_device_platf.Table.{find, save}
use secure_io_t_device_platf.Env.{Context}
use secure_io_t_device_platf.Json.{JsonLib, Json, text, dict, field, end, get}
use secure_io_t_device_platf.Models.{find_device, save_device}
use secure_io_t_device_platf.Security.{
  validate_device_id, matches_device_id, is_id_char, all_codes, encode_ascii, from_master_key,
}
use secure_io_t_device_platf.Registry.{
  register_device, register_checked, insert_device, new_device, parse_deployment,
}
use secure_io_t_device_platf.Registry.Registering.{IsFernet}
use secure_io_t_device_platf.Admin.{create_device, create_response, created}
use secure_io_t_device_platf.Simulator.Http.{delivered, http_json, http_of}
use secure_io_t_device_platf.Factory.Serial.{
  Step, done, line, ReadyIdentity, announced, announcement, parse_ready_line, wait_for_ready,
  build_factory_command, await_confirmation, says, hint_of, observe,
}
use secure_io_t_device_platf.Factory.Provision.{
  Api, Options, Port, Factory, loaded, validate_api_url, make_ssl_context, registration_payload,
  checked_secret, register_or_reset_device, send_factory_data, conclude, observe_bootstrap,
  is_expected, inject, on_ready, preconditions, provision_device,
}
use secure_io_t_device_platf.Factory.Injected.{Injected, sent_secret_is_sealed}
use secure_io_t_device_platf.Factory.Kept.{registered_devices_kept}
use secure_io_t_device_platf.Factory.Completed.{Completed, provision_device-Completed}
use secure_io_t_device_platf.Examples.{context, crypto, digits, sensor, server}

-- A Fernet that works for one secret.
abbrev sealing : Context
sealing = record context {
  crypto = record crypto {
    fernet_encrypt = λ box plaintext. "token";
    fernet_decrypt = λ box token. some digits;
  };
}

sealing-IsFernet : IsFernet sealing.crypto digits
unfolding all_codes
sealing-IsFernet = record { ascii = λ box. refl; decrypts = λ box. refl }

abbrev ready : Json
ready = dict (
    field "protocol" (text "FACTORY-SERIAL-V1")
      (field "device_id" (text "lamp") (field "family" (text "LIGHT") end)))

abbrev factory_json : JsonLib
factory_json = record {
  loads = λ s. some ready;
  dumps = λ value. "json";
  str = λ value. "str";
  isoformat = λ time. "time";
}

abbrev compact : Json → String
compact value = "{}"

abbrev options : Options
options = record {
  api_url = record {
    scheme = "https";
    hostname = some "192.168.4.2";
    path = "";
    query = "";
    fragment = "";
  };
  ca_file = loaded;
  display_name = none;
  reset_existing = true;
  expected_family = some "LIGHT";
  observes = true;
  require_operational_ready = true;
}

abbrev unit_port : Port
unit_port = record {
  opens = true;
  writes = true;
  at_start = line "" ∷ line "boot" ∷ line "FACTORY_READY {}" ∷ [];
  after_command = line "FACTORY_OK lamp" ∷ [];
  afterwards = line "[MQTT] Connected." ∷ [];
}

abbrev api : Api
api = record {
  register_link = delivered;
  reset_link = delivered;
  context = sealing;
  secret = digits;
  rotated_secret = digits;
}

abbrev station : Factory
station = record { server = server; sent = none }

abbrev lamp : ReadyIdentity
lamp = record { device_id = "lamp"; family = "LIGHT" }

sent_secret_is_sealed_example :
    Injected factory_json compact options unit_port api
      (123 ∷ 125 ∷ 10 ∷ [])
      (provision_device factory_json compact options unit_port api station).1.server
unfolding provision_device preconditions on_ready inject observe_bootstrap send_factory_data
    register_or_reset_device checked_secret registration_payload make_ssl_context validate_api_url
    is_expected wait_for_ready parse_ready_line announcement announced after_prefix get strip lstrip
    rstrip is_space encode_ascii all_codes http_json http_of create_device create_response created
    register_device register_checked insert_device parse_deployment matches_device_id is_id_char
    validate_device_id lower_code same_codes find save save_device from_master_key
    build_factory_command new_device await_confirmation
sent_secret_is_sealed_example =
    sent_secret_is_sealed factory_json compact options unit_port api station (123 ∷ 125 ∷ 10 ∷ [])
      sealing-IsFernet sealing-IsFernet refl refl

abbrev announced_id : Step ReadyIdentity → String
announced_id (done i) = i.device_id
announced_id _ = ""

registered_devices_kept_example :
    find_device
      (provision_device factory_json compact options unit_port api station).1.server
      "sensor"
    ≡ some sensor
unfolding wait_for_ready parse_ready_line announcement announced after_prefix get strip lstrip
    rstrip is_space find
registered_devices_kept_example =
    registered_devices_kept factory_json compact options unit_port api station "sensor" sensor
      (λ i h. inr (sym (ap (λ r. announced_id r == "sensor") h))) refl

provision_device-Completed_example :
    Completed factory_json options unit_port lamp
      (provision_device factory_json compact options unit_port api station).1.sent
unfolding provision_device preconditions on_ready inject observe_bootstrap send_factory_data
    register_or_reset_device checked_secret registration_payload make_ssl_context validate_api_url
    is_expected wait_for_ready parse_ready_line announcement announced after_prefix get strip lstrip
    rstrip is_space encode_ascii all_codes http_json http_of create_device create_response created
    register_device register_checked insert_device parse_deployment matches_device_id is_id_char
    validate_device_id lower_code same_codes find save save_device from_master_key
    build_factory_command new_device await_confirmation conclude observe says contains starts_with
    hint_of
provision_device-Completed_example =
    provision_device-Completed factory_json compact options unit_port api station lamp refl
