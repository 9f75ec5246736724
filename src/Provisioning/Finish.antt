-- ===== src/Provisioning/Finish.antt =====
-- server/app/routers/provisioning.py: the end of `enroll_device`, once the certificate is issued.
use secure_io_t_device_platf.Base.{
  ℕ, String, Bool, false, not, ◌&&◌, ◌||◌, Option, none, some, List, [], ◌∷◌, leb, ◌==◌,
  if◌then◌else◌,
}
use secure_io_t_device_platf.Env.{Try, ok, Reply, response, uncaught, Context, Settings}
use secure_io_t_device_platf.Models.{
  Server, Device, BootstrapSession, Outcome, invalid, issued, provisioned, find_revoked,
  save_device, save_session, present, is_some,
}
use secure_io_t_device_platf.Pki.{IssuedCertificate}
use secure_io_t_device_platf.Registry.{record_revocation, rebuild_crl_from_db}
use secure_io_t_device_platf.Mqtt.Publish.{evict_device}
use secure_io_t_device_platf.Mqtt.Topic.{device_topic}

abbrev pub max_enrollment_attempts : ℕ
max_enrollment_attempts = 5

pub record EnrollmentRequest : Type 0 where
  pub device_id : String
  pub session_id : String
  pub csr_pem : String
  pub proof : String

pub record Enrollment : Type 0 where
  pub device_id : String
  pub certificate_pem : String
  pub ca_certificate_pem : String
  pub certificate_serial : String
  pub certificate_not_after : ℕ
  pub host : String
  pub port : ℕ
  pub client_id : String
  pub status_topic : String
  pub telemetry_topic : String
  pub command_topic : String
  pub response_topic : String

unfoldable pub close_session : BootstrapSession → Outcome → ℕ → BootstrapSession
close_session session outcome now = record session { consumed_at = some now; result = some outcome }

-- if session.attempts >= MAX_ENROLLMENT_ATTEMPTS: the session is closed as "invalid"
unfoldable pub close_if_exhausted : BootstrapSession → ℕ → BootstrapSession
close_if_exhausted session now =
    if leb max_enrollment_attempts session.attempts
    then close_session session invalid now
    else session

unfoldable pub enrollment_of : Settings → String → IssuedCertificate → String → Enrollment
enrollment_of settings id certificate ca_pem = record {
  device_id = id;
  certificate_pem = certificate.pem;
  ca_certificate_pem = ca_pem;
  certificate_serial = certificate.serial_hex;
  certificate_not_after = certificate.not_after;
  host = settings.mqtt_public_host;
  port = settings.mqtt_public_port;
  client_id = id;
  status_topic = device_topic id "status";
  telemetry_topic = device_topic id "telemetry";
  command_topic = device_topic id "command";
  response_topic = device_topic id "response";
}

unfoldable pub provisioned_device : Device → IssuedCertificate → ℕ → Device
provisioned_device device certificate now = record device {
  lifecycle_status = provisioned;
  provisioned_at = some now;
  revoked_at = none;
  certificate_serial = some certificate.serial_hex;
  certificate_not_after = some certificate.not_after;
  certificate_pem = some certificate.pem;
}

unfoldable pub issued_session : BootstrapSession → String → ℕ → BootstrapSession
issued_session session digest now = record (close_session session issued now) {
  csr_sha256 = some digest;
}

-- old_certificate_revoked
unfoldable pub replaces_certificate : Device → Server → Bool
replaces_certificate device s = elim (present device.certificate_serial) [
  | none ↦ false
  | some serial ↦ not (is_some (find_revoked s serial))
]

-- The last commit of `enroll_device`.
unfoldable pub commit_enrollment :
    Context → Device → BootstrapSession → String → IssuedCertificate → Server → Server
commit_enrollment c device session digest certificate s =
    save_device (provisioned_device device certificate c.now) (
      save_session (issued_session session digest c.now) (
        record_revocation (present device.certificate_serial) device.device_id c.now "superseded"
          s))

-- if old_certificate_revoked: rebuild the CRL, evict the device
unfoldable pub after_replacement :
    Context → Device → Enrollment → Try (Unit {0}) × Server → Reply Enrollment × Server
after_replacement c device enrollment (ok u, s) =
    (response enrollment, evict_device c device.device_id s)
after_replacement c device enrollment (_, s) = (uncaught, s)

abbrev pub holds_serial : String → Option String → Bool
holds_serial serial none = false
holds_serial serial (some held) = held == serial

-- The UNIQUE constraint on `certificate_serial`: another device holds the serial.
unfoldable pub serial_in_use : String → String → List Device → Bool
serial_in_use device_id serial [] = false
serial_in_use device_id serial (d ∷ devices) =
    (not (d.device_id == device_id) && holds_serial serial d.certificate_serial)
    || serial_in_use device_id serial devices

-- The commit of a serial that is in use raises IntegrityError, and nothing of it is written.
unfoldable pub finish_enrollment :
    Context
    → Device
    → BootstrapSession
    → String
    → IssuedCertificate
    → String
    → Server
    → Reply Enrollment × Server
finish_enrollment c device session digest certificate ca_pem s =
    let enrollment = enrollment_of c.settings device.device_id certificate ca_pem in
    let taken = serial_in_use device.device_id certificate.serial_hex s.devices in
    let s' = commit_enrollment c device session digest certificate s in
    if taken
    then (uncaught, s)
    else if replaces_certificate device s
    then after_replacement c device enrollment (rebuild_crl_from_db c s')
    else (response enrollment, s')
