-- ===== src/Examples.antt =====
-- Test data for the server: toy cryptography, settings, files, one device and its requests.
pub mod Enrollments
pub mod Refusals
pub mod Lives
pub mod Registrations
pub mod Traffic
pub mod Upkeep
pub mod Stations
pub mod Simulators
pub mod Dashboards
pub mod Factories
pub mod EnvFiles
pub mod Networks
use secure_io_t_device_platf.Base.{ℕ, String, Bool, true, false, Option, none, some, List, [], ◌∷◌}
use secure_io_t_device_platf.Base.Text.{codes}
use secure_io_t_device_platf.Env.{
  Settings, Csr, elliptic, secp256r1, Disk, content, Crypto, Context,
}
use secure_io_t_device_platf.Json.{Json, text, JsonLib}
use secure_io_t_device_platf.Models.{Server, Device, BootstrapSession, pending, physical}
use secure_io_t_device_platf.Provisioning.Finish.{EnrollmentRequest}

abbrev pub secret : String
secret = "0123456789abcdef0123456789abcdef"

-- 64 hexadecimal digits
abbrev pub digits : String
digits = "0123456789abcdef0123456789abcdef0123456789abcdef0123456789abcdef"

abbrev pub csr : Csr
csr = record {
  der = 1 ∷ 2 ∷ [];
  is_signature_valid = true;
  public_key = elliptic secp256r1;
  common_name = "anything";
}

abbrev pub crypto : Crypto
crypto = record {
  sha256_hex = λ bytes. digits;
  hmac_sha256_hex = λ key message. codes digits;
  urlsafe_b64decode = λ value. some value;
  fernet_key_valid = λ key. true;
  fernet_encrypt = λ box plaintext. plaintext;
  fernet_decrypt = λ box token. some secret;
  load_pem_x509_csr = λ pem. some csr;
  load_pem_x509_certificate = λ bytes. some (record { public_bytes = bytes });
  load_pem_private_key = λ bytes. some (record { public_bytes = bytes });
  sign_certificate = λ certificate key. certificate.common_name;
  decode_ascii = λ bytes. some "CA";
}

abbrev pub settings : Settings
settings = record {
  environment = "production";
  bootstrap_master_key = "key";
  challenge_ttl_seconds = 60;
  cert_validity_days = 1;
  online_timeout_seconds = 90;
  allow_reprovisioning = false;
  mqtt_enabled = true;
  mqtt_public_host = "broker";
  mqtt_public_port = 8883;
  ca_cert_path = "ca.crt";
  ca_key_path = "ca.key";
}

abbrev pub disk : Disk
disk = record {
  ca_cert = content (7 ∷ []);
  ca_key = content (7 ∷ []);
  crl_writable = true;
  restart_writable = true;
}

abbrev pub context : Context
context = record { crypto = crypto; settings = settings; disk = disk; now = 100; later = 101 }

abbrev pub json : JsonLib
json = record {
  loads = λ s. some (text s);
  dumps = λ value. "json";
  str = λ value. "str";
  isoformat = λ time. "time";
}

abbrev pub sensor : Device
sensor = record {
  device_id = "sensor";
  family = "generic";
  display_name = none;
  deployment_type = physical;
  bootstrap_secret_encrypted = "box";
  enabled = true;
  lifecycle_status = pending;
  allow_reprovisioning = false;
  created_at = 1;
  provisioned_at = none;
  revoked_at = none;
  certificate_serial = none;
  certificate_not_after = none;
  certificate_pem = none;
  online = false;
  last_seen = none;
  firmware_version = none;
  application_state_json = none;
}

abbrev pub session : BootstrapSession
session = record {
  session_id = "first";
  device_id = "sensor";
  nonce_b64 = "nonce";
  created_at = 50;
  expires_at = 5000;
  consumed_at = none;
  result = none;
  csr_sha256 = none;
  source_ip = none;
  attempts = 0;
  last_attempt_at = none;
}

abbrev pub server : Server
server = record {
  devices = sensor ∷ [];
  sessions = session ∷ [];
  events = [];
  commands = [];
  revoked_certificates = [];
  crl = none;
  restarts = [];
}

abbrev pub payload : EnrollmentRequest
payload = record { device_id = "sensor"; session_id = "first"; csr_pem = "CSR"; proof = digits }
