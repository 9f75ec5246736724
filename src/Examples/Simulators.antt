-- ===== src/Examples/Simulators.antt =====
-- Tests: a simulated device, its commands and its bootstrap.
use mathlib.Core.Option
use secure_io_t_device_platf.Base.{◌≡◌, refl, arith, true, false, some, none, List, [], ◌∷◌, ℕ}
use secure_io_t_device_platf.Base.Text.{
  codes, strip, lstrip, rstrip, is_space, lower_code, same_codes,
}
use secure_io_t_device_platf.Table.{find}
use secure_io_t_device_platf.Env.{Crypto}
use secure_io_t_device_platf.Json.{Json, JsonLib, text, int, dict, field, end}
use secure_io_t_device_platf.Models.{find_device}
use secure_io_t_device_platf.Security.{
  validate_device_id, matches_device_id, is_id_char, all_codes, encode_ascii, from_master_key,
  decrypt, decode_bootstrap_secret, calculate_proof_hex, is_hex_digest, padding, csr_sha256,
}
use secure_io_t_device_platf.Pki.{
  IssuedCertificate, load_and_validate_csr, check_public_key, load_ca, issue_device_certificate,
  certificate_for, read_ca_pem,
}
use secure_io_t_device_platf.Pki.Serial.{format_hex}
use secure_io_t_device_platf.Provisioning.Challenge.{is_authorized, is_locked}
use secure_io_t_device_platf.Provisioning.Finish.{Enrollment, provisioned_device, serial_in_use}
use secure_io_t_device_platf.Simulator.Levels.{
  Round, whole, set_level, clamp_level, clamp, float_limit,
}
use secure_io_t_device_platf.Simulator.Profiles.{
  cromaled, area_lz7, lighting, channel_names, each, set_named, position, upper_code,
}
use secure_io_t_device_platf.Simulator.Recent.{has}
use secure_io_t_device_platf.Simulator.Device.{Simulated, on_message}
use secure_io_t_device_platf.Simulator.Life.{Steady, device_run-Steady, duplicate, command_once}
use secure_io_t_device_platf.Simulator.Steps.{receives, rounds, device_run}
use secure_io_t_device_platf.Simulator.Client.{
  World, Args, Attempt, given, credentials_available, ensure_factory_identity, provision_if_needed,
}
use secure_io_t_device_platf.Simulator.Http.{ClientLib, delivered, lost, calculate_proof}
use secure_io_t_device_platf.Simulator.Credentials.{
  Turn, tries, meets, client_run, Matching, client_run-Matching,
}
use secure_io_t_device_platf.Simulator.Proofs.{returned, calculate_proof-server}
use secure_io_t_device_platf.Simulator.Enrolled.{simulated_device_enrolls}
use secure_io_t_device_platf.Simulator.Able.{Digests, Able, Shares}
use secure_io_t_device_platf.Examples.{context, crypto, csr, secret, digits, sensor, server}

abbrev fields : Json
fields = dict (field "command_id" (text "c1") (field "command" (text "off") end))

abbrev json_lib : JsonLib
json_lib = record {
  loads = λ s. some fields;
  dumps = λ value. "json";
  str = λ value. "c1";
  isoformat = λ time. "time";
}

abbrev round : Round
round bits = whole false 7

abbrev spectrum : ℕ → List ℕ
spectrum n = n ∷ []

abbrev lamp : Simulated
lamp = record {
  profile = lighting area_lz7 (3 ∷ 0 ∷ 0 ∷ 100 ∷ 0 ∷ 0 ∷ []);
  sequence = 0;
  started_monotonic = 0;
  recent = record { command_ids = []; command_set = [] };
}

lamp-Steady : Steady json_lib round spectrum lamp
unfolding channel_names
lamp-Steady = record {
  tidy = record { same = refl; distinct = tt; bounded = omega arith };
  levels = (refl, ground arith);
}

device_run-Steady_example :
    Steady json_lib round spectrum
      (device_run json_lib round spectrum (receives "off" 5 ∷ rounds 6 9 ∷ []) lamp)
device_run-Steady_example =
    device_run-Steady json_lib round spectrum (receives "off" 5 ∷ rounds 6 9 ∷ []) lamp lamp-Steady

command_once_example :
    on_message json_lib round spectrum 12 "off"
      (device_run json_lib round spectrum (receives "off" 5 ∷ rounds 6 9 ∷ []) lamp)
    ≡ (
      duplicate json_lib round spectrum "c1" ∷ [],
      device_run json_lib round spectrum (receives "off" 5 ∷ rounds 6 9 ∷ []) lamp,
    )
unfolding has
command_once_example =
    command_once json_lib round spectrum "off" "off"
      (field "command_id" (text "c1") (field "command" (text "off") end))
      (field "command_id" (text "c1") (field "command" (text "off") end)) 5 12 (rounds 6 9 ∷ [])
      lamp lamp-Steady refl refl refl refl (omega arith)

abbrev client_lib : ClientLib
client_lib = record {
  hexdigest = λ key message. digits;
  load_certificate = λ pem. some (record { common_names = "sensor" ∷ []; public_bytes = 9 ∷ [] });
}

calculate_proof-server_example :
    Option.map codes (calculate_proof crypto client_lib secret "sensor" "first" "nonce" digits)
    ≡ returned (calculate_proof_hex crypto secret "sensor" "first" "nonce" digits)
calculate_proof-server_example =
    calculate_proof-server crypto client_lib (λ k m. refl) secret "sensor" "first" "nonce" digits

abbrev args : Args
args = record {
  device_id = "sensor";
  family = "AS7341";
  bootstrap_secret = some secret;
  auto_register = false;
  admin_username = none;
  admin_password = none;
}

abbrev attempt : Attempt
attempt = record {
  register_link = lost;
  reset_link = lost;
  challenge_link = delivered;
  enroll_link = delivered;
  register_context = context;
  challenge_context = context;
  enroll_context = context;
  secret = secret;
  rotated_secret = secret;
  session_id = "second";
  nonce = "nonce";
  source_ip = none;
  serial = 42;
  key = 9 ∷ [];
  csr_pem = "CSR";
  csr_der = 1 ∷ 2 ∷ [];
  written = 4;
}

abbrev world : World
world = record {
  files = record { factory = none; key = none; certificate = none; ca = none; provisioning = none };
  server = server;
}

-- An interrupted run, a change of the server, and a whole run.
abbrev turns : List Turn
turns = tries (record attempt { written = 2 }) ∷ meets server ∷ tries attempt ∷ []

client_run-Matching_example :
    Matching client_lib (client_run crypto client_lib args turns world).files
client_run-Matching_example =
    client_run-Matching crypto client_lib args turns world (λ e k. absurd (ground (arith, k)))

abbrev issued : IssuedCertificate
issued = record { pem = "sensor"; serial_hex = "2A"; not_before = 101; not_after = 86400000101 }

client_lib-Digests : Digests crypto client_lib
unfolding is_hex_digest all_codes
client_lib-Digests = record { same = λ k m. refl; hex = λ k m. refl }

sensor-Able : Able client_lib args attempt world sensor
unfolding is_locked is_authorized find format_hex load_and_validate_csr check_public_key load_ca
    certificate_for issue_device_certificate read_ca_pem csr_sha256 decrypt from_master_key
    decode_bootstrap_secret is_hex_digest padding encode_ascii all_codes is_id_char serial_in_use
    matches_device_id validate_device_id strip lstrip rstrip is_space lower_code same_codes
sensor-Able = record {
  delivered_challenge = refl;
  delivered_enroll = refl;
  all_written = omega arith;
  found = refl;
  authorized = refl;
  unlocked = refl;
  still_unlocked = refl;
  fresh = refl;
  alive = omega arith;
  csr = csr;
  parsed = refl;
  encoded = refl;
  first = refl;
  certificate = issued;
  issued = refl;
  free = refl;
  ca_pem = "CA";
  ca_read = refl;
  loaded = record { common_names = "sensor" ∷ []; public_bytes = 9 ∷ [] };
  loads = refl;
  certifies = refl;
  names = refl;
}

sensor-Shares : Shares attempt secret sensor
unfolding is_locked is_authorized find format_hex load_and_validate_csr check_public_key load_ca
    certificate_for issue_device_certificate read_ca_pem csr_sha256 decrypt from_master_key
    decode_bootstrap_secret is_hex_digest padding encode_ascii all_codes is_id_char serial_in_use
    matches_device_id validate_device_id strip lstrip rstrip is_space lower_code same_codes
sensor-Shares = record {
  nonempty = refl;
  box = codes "key";
  unsealed = refl;
  opened = refl;
  bits = codes secret;
  decoded = refl;
}

simulated_device_enrolls_example :
    (e : Enrollment) × (after : World) × (provision_if_needed crypto client_lib args attempt world
      ≡ (some e, after))
    × (credentials_available after.files ≡ true)
    × (find_device after.server "sensor" ≡ some (provisioned_device sensor issued 100))
    × ((c : Crypto) (b : Attempt) → provision_if_needed c client_lib args b after ≡ (some e, after))
unfolding credentials_available ensure_factory_identity given sensor-Able
simulated_device_enrolls_example =
    simulated_device_enrolls client_lib args attempt world world sensor secret client_lib-Digests
      refl refl sensor-Able sensor-Shares

-- A name-keyed object whose second value is no number leaves the first level changed.
partial_update :
    (set_named round
      (each 0 (channel_names cromaled))
      (field "BLUE" (int false 40) (field "RED" (text "high") end))).1
    ≡ 0 ∷ 40 ∷ 0 ∷ 0 ∷ 0 ∷ 0 ∷ 0 ∷ 0 ∷ 0 ∷ 0 ∷ 0 ∷ []
unfolding set_named each channel_names position upper_code same_codes set_level clamp_level clamp
    float_limit
partial_update = refl
