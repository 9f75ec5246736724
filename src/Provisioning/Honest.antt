-- ===== src/Provisioning/Honest.antt =====
-- An honest device is enrolled: the checks of `enroll_device` suffice for its success.
use secure_io_t_device_platf.Base.{ℕ, String, ◌≡◌, ◌∙◌, true, false, none, List}
use secure_io_t_device_platf.Env.{Context, Csr, ok, response}
use secure_io_t_device_platf.Models.{Server, Device, BootstrapSession, save_session, present}
use secure_io_t_device_platf.Security.{csr_sha256, from_master_key, decrypt}
use secure_io_t_device_platf.Security.Proofs.{Accepted, verify_proof_hex-eq-true}
use secure_io_t_device_platf.Pki.{
  IssuedCertificate, load_and_validate_csr, issue_device_certificate, read_ca_pem,
}
use secure_io_t_device_platf.Provisioning.Challenge.{is_locked}
use secure_io_t_device_platf.Provisioning.Finish.{
  EnrollmentRequest, enrollment_of, finish_enrollment, commit_enrollment, replaces_certificate,
  serial_in_use,
}
use secure_io_t_device_platf.Provisioning.Enroll.{
  enroll_device, enroll_attempt, enroll_proved, enroll_issue, count_attempt, check_proof, issuance,
}
use secure_io_t_device_platf.Provisioning.Ready.{Ready, enroll-attempt}

-- The request of a device that knows its bootstrap secret, and a PKI that can sign for it.
pub record Honest (c : Context) (serial : ℕ) (payload : EnrollmentRequest) (d : Device)
    (b : BootstrapSession) : Type 0 where
  pub csr : Csr
  pub box : List ℕ
  pub secret : String
  pub certificate : IssuedCertificate
  pub ca_pem : String
  pub parsed : load_and_validate_csr c.crypto payload.csr_pem payload.device_id ≡ ok csr
  pub unsealed : from_master_key c.crypto c.settings.bootstrap_master_key ≡ ok box
  pub opened : decrypt c.crypto box d.bootstrap_secret_encrypted ≡ ok secret
  pub accepted :
      Accepted c.crypto payload.proof secret d.device_id b.session_id b.nonce_b64
        (csr_sha256 c.crypto csr)
  pub unlocked : is_locked c.settings d ≡ false
  pub issued :
      issue_device_certificate c.crypto c.settings c.disk csr d.device_id c.later serial
      ≡ ok certificate
  pub ca_read : read_ca_pem c.crypto c.disk ≡ ok ca_pem

module _ (c : Context) (serial : ℕ) (payload : EnrollmentRequest) (d : Device)
    (b : BootstrapSession) (k : Honest c serial payload d b) where
  digest : String
  digest = csr_sha256 c.crypto k.csr

  honest_proof : check_proof c payload d (count_attempt b c.now) ≡ ok (k.csr, digest, true)
  unfolding check_proof count_attempt digest
  honest_proof = rw (
    k.parsed,
    k.unsealed,
    k.opened,
    (verify_proof_hex-eq-true c.crypto payload.proof k.secret d.device_id b.session_id b.nonce_b64
          (csr_sha256 c.crypto k.csr)).1
        k.accepted,
  )

  honest_issuance : issuance c k.csr d serial ≡ ok (k.certificate, k.ca_pem)
  unfolding issuance
  honest_issuance = rw (k.issued, k.ca_read)

  -- A session that may be answered, a proof under the secret of the device, a PKI that signs, a serial
  -- number that no other device holds, and no certificate held before: then the enrollment succeeds.
  -- It answers the signed certificate and commits the device and its consumed session.
  pub honest_device_enrolls :
      (s : Server)
      → Ready c payload s d b
      → present d.certificate_serial ≡ none
      → serial_in_use d.device_id k.certificate.serial_hex s.devices ≡ false
      → enroll_device c serial payload s ≡ (
        response (enrollment_of c.settings d.device_id k.certificate k.ca_pem),
        commit_enrollment c d
            (count_attempt b c.now)
            (csr_sha256 c.crypto k.csr)
            k.certificate
            (save_session (count_attempt b c.now) s),
      )
  unfolding enroll_attempt enroll_proved enroll_issue finish_enrollment replaces_certificate digest
      save_session
  honest_device_enrolls s r first fresh =
      enroll-attempt c serial payload s d b r
      ∙ rw (
        honest_proof, enroll_attempt, k.unlocked, honest_issuance, enroll_issue, fresh, first,
        replaces_certificate,
      )
