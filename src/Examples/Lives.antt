-- ===== src/Examples/Lives.antt =====
-- Tests: the life of a server.
use secure_io_t_device_platf.Base.{◌≡◌, ◌≤◌, refl, true, false, some, none, List, [], ◌∷◌}
use secure_io_t_device_platf.Base.Text.{strip, lstrip, rstrip, is_space, lower_code, same_codes}
use secure_io_t_device_platf.Table
use secure_io_t_device_platf.Table.{find, save, total}
use secure_io_t_device_platf.Models.{
  physical, save_revoked, Server, Device, BootstrapSession, find_session, find_device, session_key,
  save_device, save_session,
}
use secure_io_t_device_platf.Security.{
  validate_device_id, matches_device_id, is_id_char, all_codes, encode_ascii, from_master_key,
  encrypt,
}
use secure_io_t_device_platf.Registry.{
  register_device, register_checked, insert_device, new_device, parse_deployment, family_or_generic,
  stripped_name,
}
use secure_io_t_device_platf.Registry.Revocation.{is_listed}
use secure_io_t_device_platf.Registry.{
  revoke_current_certificate, commit_revocation, revoked_device, rebuild_crl_from_db, order_by_time,
  insert_by_time, record_revocation,
}
use secure_io_t_device_platf.Security.{
  verify_proof_hex, calculate_proof_hex, decrypt, decode_bootstrap_secret, is_hex_digest,
  canonical_proof_message, lines, padding, csr_sha256,
}
use secure_io_t_device_platf.Pki.{
  load_and_validate_csr, check_public_key, load_ca, issue_device_certificate, read_ca_pem,
  rebuild_crl, crl_entries,
}
use secure_io_t_device_platf.Pki.Serial.{format_hex, parse_hex}
use secure_io_t_device_platf.Provisioning.Finish.{
  close_session, enrollment_of, provisioned_device, issued_session, replaces_certificate,
  commit_enrollment, after_replacement, serial_in_use, finish_enrollment,
}
use secure_io_t_device_platf.Provisioning.Enroll.{
  issuance, enroll_issue, enroll_proved, check_proof, enroll_attempt, count_attempt, enroll_open,
  enroll_known, enroll_device,
}
use secure_io_t_device_platf.Mqtt.Publish.{evict_device}
use secure_io_t_device_platf.Admin.{
  revoke_device, revoke_response, DeviceCreate, create_device, create_response,
}
use secure_io_t_device_platf.Provisioning.Challenge.{
  is_authorized, is_locked, create_challenge, open_session, new_session, supersede,
}
use secure_io_t_device_platf.Provisioning.Moves.{Moves, open_of}
use secure_io_t_device_platf.Platform.{
  run, step, init, creates, challenges, enrolls, revokes, Event,
}
use secure_io_t_device_platf.Platform.Sessions.{run-Moves, one_open_session, attempts_bounded}
use secure_io_t_device_platf.Platform.Revocation.{revoked_forever}
use secure_io_t_device_platf.Platform.Devices.{Sound}
use secure_io_t_device_platf.Platform.Devices.Life.{status_consistent}
use secure_io_t_device_platf.Examples.{context, digits, secret, json, server, session, payload}

abbrev form : DeviceCreate
form = record {
  device_id = " sensor ";
  family = "";
  display_name = none;
  deployment_type = "Physical";
  allow_reprovisioning = false;
}

-- Registration, a challenge, an enrollment, another challenge and a revocation.
abbrev history : List Event
history =
    creates context init form secret
    ∷ challenges context "sensor" "first" "nonce" none
    ∷ enrolls context 42 payload
    ∷ challenges context "sensor" "second" "other" none
    ∷ revokes context "sensor"
    ∷ []

run-Moves_example : Moves init.sessions (run json history init).sessions
run-Moves_example = run-Moves json history init

one_open_session_example :
    Table.total session_key (open_of "sensor") (run json history init).sessions ≤ 1
one_open_session_example = one_open_session json history "sensor"

abbrev last_sensor : Device
last_sensor =
    revoked_device
      (provisioned_device (new_device "sensor" "" none physical secret false 100)
        (record { pem = "sensor"; serial_hex = "2A"; not_before = 101; not_after = 86400000101 })
        100)
      101

abbrev first_session : BootstrapSession
first_session =
    issued_session (count_attempt (new_session "first" "sensor" "nonce" none 100 60) 100) digits 100

history-rows :
    (find_device (run json history init) "sensor" ≡ some last_sensor)
    × (find_session (run json history init) "first" ≡ some first_session)
unfolding run step create_device create_response register_device register_checked insert_device
    new_device parse_deployment family_or_generic stripped_name from_master_key encrypt encode_ascii
    all_codes is_id_char matches_device_id validate_device_id strip lstrip rstrip is_space
    lower_code same_codes find save save_device save_session create_challenge open_session
    is_authorized is_locked revoke_device new_session supersede enroll_device enroll_known
    enroll_open enroll_attempt enroll_proved enroll_issue issuance check_proof count_attempt
    finish_enrollment serial_in_use commit_enrollment replaces_certificate after_replacement
    issued_session provisioned_device enrollment_of close_session record_revocation format_hex
    load_and_validate_csr check_public_key load_ca issue_device_certificate read_ca_pem
    verify_proof_hex calculate_proof_hex decrypt decode_bootstrap_secret is_hex_digest
    canonical_proof_message lines padding csr_sha256 revoke_response revoke_current_certificate
    commit_revocation revoked_device rebuild_crl_from_db rebuild_crl crl_entries parse_hex
    order_by_time insert_by_time evict_device save_revoked
history-rows = (refl, refl)

status_consistent_example : Sound (run json history init).revoked_certificates last_sensor
status_consistent_example = status_consistent json history "sensor" last_sensor (history-rows.0)

attempts_bounded_example : first_session.attempts ≤ 5
attempts_bounded_example = attempts_bounded json history "first" first_session (history-rows.1)

-- The session "first", consumed at 60, and the serial 2A, revoked.
abbrev used : BootstrapSession
used = record session { consumed_at = some 60 }

abbrev spent : Server
spent = record server {
  sessions = used ∷ [];
  revoked_certificates =
      record { serial_hex = "2A"; device_id = "sensor"; revoked_at = 60; reason = "superseded" }
      ∷ [];
}

revoked_forever_example : is_listed (run json history spent).revoked_certificates (some "2A") ≡ true
unfolding find
revoked_forever_example = revoked_forever json history spent "2A" refl
