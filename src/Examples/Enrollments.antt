-- ===== src/Examples/Enrollments.antt =====
-- Tests: enrollments.
use secure_io_t_device_platf.Base.{◌≡◌, ◌⊎◌, refl, arith, String, some, [], ◌∷◌}
use secure_io_t_device_platf.Base.Text.{
  codes, strip, lstrip, rstrip, is_space, lower_code, same_codes,
}
use secure_io_t_device_platf.Table.{find, save}
use secure_io_t_device_platf.Env.{Csr, ok, response, http_error}
use secure_io_t_device_platf.Models.{
  Server, Device, BootstrapSession, find_device, find_session, save_device, save_session,
}
use secure_io_t_device_platf.Security.{
  validate_device_id, matches_device_id, is_id_char, all_codes, encode_ascii, padding, lines,
  canonical_proof_message, is_hex_digest, decode_bootstrap_secret, from_master_key, decrypt,
  csr_sha256, calculate_proof_hex, verify_proof_hex,
}
use secure_io_t_device_platf.Pki.{
  IssuedCertificate, load_and_validate_csr, check_public_key, load_ca, certificate_for,
  issue_device_certificate, read_ca_pem,
}
use secure_io_t_device_platf.Pki.Serial.{format_hex}
use secure_io_t_device_platf.Registry.{record_revocation}
use secure_io_t_device_platf.Mqtt.Topic.{device_topic}
use secure_io_t_device_platf.Provisioning.Challenge.{is_authorized, is_locked}
use secure_io_t_device_platf.Provisioning.Finish.{
  Enrollment, close_session, close_if_exhausted, enrollment_of, provisioned_device, issued_session,
  replaces_certificate, commit_enrollment, after_replacement, serial_in_use, finish_enrollment,
}
use secure_io_t_device_platf.Provisioning.Enroll.{
  issuance, enroll_issue, enroll_proved, check_proof, enroll_attempt, count_attempt, enroll_open,
  enroll_known, enroll_device,
}
use secure_io_t_device_platf.Provisioning.Success.{Checked, enroll-Checked}
use secure_io_t_device_platf.Provisioning.OneUse.{Installed, enroll-Installed}
use secure_io_t_device_platf.Provisioning.Identity.{Authentic, Certifies, enroll-Authentic}
use secure_io_t_device_platf.Provisioning.Capable.{
  GoodCsr, GoodCa, GoodProof, capable_device_enrolls,
}
use secure_io_t_device_platf.Provisioning.Ready.{Ready}
use secure_io_t_device_platf.Platform.OneUse.{one_certificate_per_session}
use secure_io_t_device_platf.Platform.{run, sweeps}
use secure_io_t_device_platf.Examples.{context, csr, secret, sensor, session, server, payload, json}

abbrev certificate : IssuedCertificate
certificate = record {
  pem = "sensor";
  serial_hex = "2A";
  not_before = 101;
  not_after = 86400000101;
}

abbrev enrollment : Enrollment
enrollment = record {
  device_id = "sensor";
  certificate_pem = "sensor";
  ca_certificate_pem = "CA";
  certificate_serial = "2A";
  certificate_not_after = 86400000101;
  host = "broker";
  port = 8883;
  client_id = "sensor";
  status_topic = "devices/sensor/status";
  telemetry_topic = "devices/sensor/telemetry";
  command_topic = "devices/sensor/command";
  response_topic = "devices/sensor/response";
}

abbrev enrolled : Server
enrolled = (enroll_device context 42 payload server).1

enrolls_sensor : enroll_device context 42 payload server ≡ (response enrollment, enrolled)
unfolding enroll_device enroll_known enroll_open enroll_attempt enroll_proved enroll_issue issuance
    check_proof count_attempt finish_enrollment serial_in_use commit_enrollment replaces_certificate
    after_replacement issued_session provisioned_device enrollment_of close_session
    close_if_exhausted is_authorized is_locked device_topic record_revocation format_hex
    load_and_validate_csr check_public_key load_ca certificate_for issue_device_certificate
    read_ca_pem verify_proof_hex calculate_proof_hex csr_sha256 decrypt from_master_key
    decode_bootstrap_secret is_hex_digest canonical_proof_message lines padding encode_ascii
    all_codes is_id_char matches_device_id validate_device_id strip lstrip rstrip is_space
    lower_code same_codes find save save_device save_session
enrolls_sensor = refl

-- The same request again, by another request object, after an event in between.
one_certificate_per_session_example :
    (enroll_device context 43 payload (run json (sweeps context ∷ []) enrolled) ≡ (
      http_error 404 "device is not registered, enabled, or authorized",
      run json (sweeps context ∷ []) enrolled,
    ))
    ⊎ (enroll_device context 43 payload (run json (sweeps context ∷ []) enrolled) ≡ (
      http_error 409 "challenge has already been used or invalidated",
      run json (sweeps context ∷ []) enrolled,
    ))
one_certificate_per_session_example =
    one_certificate_per_session json context context 42 43 payload payload server enrolled
      enrollment (sweeps context ∷ []) enrolls_sensor refl

enroll-Checked_example : Checked context 42 payload server enrollment enrolled
enroll-Checked_example = enroll-Checked context 42 enrollment enrolled payload server enrolls_sensor

enroll-Installed_example : Installed context payload server enrollment enrolled
enroll-Installed_example =
    enroll-Installed context 42 payload server enrollment enrolled enrolls_sensor

enroll-Authentic_example :
    (d : Device) × (b : BootstrapSession) × (request : Csr) × (id : String) × (find_device server
        "sensor"
      ≡ some d)
    × (find_session server "first" ≡ some b)
    × Authentic context payload d b.session_id b.nonce_b64 request
    × (validate_device_id d.device_id ≡ ok id)
    × Certifies context request id 42 "sensor"
    × ("2A" ≡ format_hex 42)
enroll-Authentic_example =
    enroll-Authentic context 42 payload server enrollment enrolled enrolls_sensor

sensor-Ready : Ready context payload server sensor session
unfolding find is_authorized
sensor-Ready = record {
  found_session = refl;
  found_device = refl;
  owner = refl;
  authorized = refl;
  unused = refl;
  alive = omega arith;
  tries = omega arith;
}

sensor_csr : GoodCsr context payload
sensor_csr = record {
  csr = csr;
  small = omega arith;
  parsed = refl;
  own_signature = refl;
  p256 = refl;
}

sensor_ca : GoodCa context
sensor_ca = record {
  cert_bytes = 7 ∷ [];
  key_bytes = 7 ∷ [];
  certificate = record { public_bytes = 7 ∷ [] };
  key = record { public_bytes = 7 ∷ [] };
  pem = "CA";
  cert_file = refl;
  key_file = refl;
  cert_loaded = refl;
  key_loaded = refl;
  matching = refl;
  ascii = refl;
}

sensor_proof : GoodProof context payload sensor session csr
unfolding csr_sha256 decrypt from_master_key decode_bootstrap_secret is_hex_digest
    canonical_proof_message lines padding encode_ascii all_codes strip lstrip rstrip is_space
    lower_code
sensor_proof = record {
  box = codes "key";
  secret = secret;
  unsealed = refl;
  opened = refl;
  accepted = (codes secret, refl, omega arith, refl, refl);
}

capable_device_enrolls_example :
    (e : Enrollment) × (after : Server) × (enroll_device context 42 payload server
      ≡ (response e, after))
    × Installed context payload server e after
    × (certifies : Certifies context csr "sensor" 42 e.certificate_pem) × (certifies.ca_key
        ≡ sensor_ca.key)
    × (e.device_id ≡ "sensor")
    × (e.certificate_serial ≡ "2A")
    × (e.ca_certificate_pem ≡ "CA")
unfolding is_locked format_hex is_id_char matches_device_id validate_device_id strip lstrip rstrip
    is_space sensor_csr sensor_ca all_codes
capable_device_enrolls_example =
    capable_device_enrolls context 42 payload sensor session sensor_csr sensor_ca server
      sensor-Ready refl refl refl sensor_proof (λ h. refl, tt)
