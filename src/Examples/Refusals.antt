-- ===== src/Examples/Refusals.antt =====
-- Tests: enrollments that are refused, and challenges.
use secure_io_t_device_platf.Base.{◌≡◌, refl, arith, true, false, some, none}
use secure_io_t_device_platf.Base.Text.{strip, lstrip, rstrip, is_space, lower_code, same_codes}
use secure_io_t_device_platf.Table
use secure_io_t_device_platf.Table.{find, save, total}
use secure_io_t_device_platf.Env.{Context, http_error}
use secure_io_t_device_platf.Models.{Server, Device, find_device, find_session, session_key}
use secure_io_t_device_platf.Security.{
  validate_device_id, matches_device_id, is_id_char, all_codes, encode_ascii, padding, lines,
  canonical_proof_message, is_hex_digest, decode_bootstrap_secret, from_master_key, decrypt,
  csr_sha256, calculate_proof_hex, verify_proof_hex,
}
use secure_io_t_device_platf.Pki.{load_and_validate_csr, check_public_key}
use secure_io_t_device_platf.Provisioning.Challenge.{
  is_authorized, is_locked, Challenge, create_challenge, open_session, new_session,
}
use secure_io_t_device_platf.Provisioning.Moves.{open_of}
use secure_io_t_device_platf.Provisioning.Finish.{EnrollmentRequest}
use secure_io_t_device_platf.Provisioning.Enroll.{enroll_device, check_proof}
use secure_io_t_device_platf.Provisioning.Ready.{Ready}
use secure_io_t_device_platf.Provisioning.WrongProof.{Spent, enroll_wrong_proof}
use secure_io_t_device_platf.Provisioning.Exclusive.{create_challenge_exclusive}
use secure_io_t_device_platf.Examples.{context, settings, csr, digits, sensor, session, server}

abbrev forged : EnrollmentRequest
forged = record { device_id = "sensor"; session_id = "first"; csr_pem = "CSR"; proof = "00" }

forged-Ready : (c : Context) → c.now ≡ 100 → Ready c forged server sensor session
unfolding find is_authorized
forged-Ready c e = record {
  found_session = refl;
  found_device = refl;
  owner = refl;
  authorized = refl;
  unused = refl;
  alive = rw e (omega arith);
  tries = omega arith;
}

enroll_wrong_proof_example :
    (t : Server) × (enroll_device context 42 forged server
      ≡ (http_error 401 "invalid cryptographic proof", t))
    × Spent context forged session server t
unfolding check_proof load_and_validate_csr check_public_key verify_proof_hex calculate_proof_hex
    csr_sha256 decrypt from_master_key decode_bootstrap_secret is_hex_digest canonical_proof_message
    lines padding encode_ascii all_codes is_id_char matches_device_id validate_device_id strip
    lstrip rstrip is_space lower_code same_codes
enroll_wrong_proof_example =
    enroll_wrong_proof context 42 forged server sensor session (forged-Ready context refl) csr
      digits refl

abbrev challenge : Challenge
challenge = record {
  device_id = "sensor";
  session_id = "second";
  nonce = "other";
  expires_at = 60000100;
}

abbrev challenged : Server
challenged = (create_challenge context "sensor" "second" "other" none server).1

-- The session "first" is open before.
create_challenge_exclusive_example :
    (d : Device) × (find_device server "sensor" ≡ some d)
    × (is_authorized d ≡ true)
    × (is_locked settings d ≡ false)
    × (find_session challenged "second" ≡ some (new_session "second" "sensor" "other" none 100 60))
    × (Table.total session_key (open_of "sensor") challenged.sessions ≡ 1)
unfolding create_challenge open_session new_session is_authorized is_locked find
create_challenge_exclusive_example =
    create_challenge_exclusive context "sensor" "second" "other" none server challenge challenged
      refl
