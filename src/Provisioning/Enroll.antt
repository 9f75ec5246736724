-- ===== src/Provisioning/Enroll.antt =====
-- server/app/routers/provisioning.py: `enroll_device`, from its guards to the issue of the
-- certificate. What was committed before an error stays. The drawn serial number is an argument.
use Prim.Native.String.{◌++◌ as text_append}
use secure_io_t_device_platf.Base.{
  ℕ, suc, String, Bool, not, ◌||◌, none, some, leb, ◌==◌, if◌then◌else◌,
}
use secure_io_t_device_platf.Base.Text.{lower, same_codes, codes}
use secure_io_t_device_platf.Env.{
  Try, ok, security_error, crash, ◌>>=◌, Reply, http_error, uncaught, Context, Settings, Csr,
}
use secure_io_t_device_platf.Models.{
  Server, Device, BootstrapSession, expired, blocked, already_provisioned, server_error,
  find_device, find_session, save_session,
}
use secure_io_t_device_platf.Security.{csr_sha256, from_master_key, decrypt, verify_proof_hex}
use secure_io_t_device_platf.Pki.{
  IssuedCertificate, load_and_validate_csr, issue_device_certificate, read_ca_pem,
}
use secure_io_t_device_platf.Provisioning.Challenge.{generic_device_error, is_authorized, is_locked}
use secure_io_t_device_platf.Provisioning.Finish.{
  max_enrollment_attempts, EnrollmentRequest, Enrollment, close_session, close_if_exhausted,
  finish_enrollment,
}

-- settings.environment.lower() in {"development", "dev", "test"}
unfoldable pub is_development : String → Bool
is_development environment =
    let name = lower environment in
    same_codes name (codes "development")
    || same_codes name (codes "dev")
    || same_codes name (codes "test")

unfoldable pub issue_detail : Settings → String → String
issue_detail settings e =
    if is_development settings.environment
    then text_append "could not issue the certificate: " e
    else "could not issue the certificate"

-- The body of the second `try`; `issue_device_certificate` reads the clock again.
unfoldable pub issuance : Context → Csr → Device → ℕ → Try (IssuedCertificate × String)
issuance c csr device serial = do
  certificate ←
      issue_device_certificate c.crypto c.settings c.disk csr device.device_id c.later serial
  ca_pem ← read_ca_pem c.crypto c.disk
  ok (certificate, ca_pem)

unfoldable pub enroll_issue :
    Context → ℕ → Device → BootstrapSession → Csr → String → Server → Reply Enrollment × Server
enroll_issue c serial device session csr digest s = elim (issuance c csr device serial) [
  | ok (certificate, ca_pem) ↦ finish_enrollment c device session digest certificate ca_pem s
  | security_error e ↦ (
    http_error 500 (issue_detail c.settings e),
    save_session (record session { result = some server_error }) s,
  )
  | crash ↦ (uncaught, s)
]

unfoldable pub enroll_proved :
    Context → ℕ → Device → BootstrapSession → Csr → String → Server → Reply Enrollment × Server
enroll_proved c serial device session csr digest s =
    if is_locked c.settings device
    then (
      http_error 409 "device has already been provisioned",
      save_session (close_session session already_provisioned c.now) s,
    )
    else enroll_issue c serial device session csr digest s

-- The body of the first `try`: the CSR, its digest, and whether the proof verifies.
unfoldable pub check_proof :
    Context → EnrollmentRequest → Device → BootstrapSession → Try (Csr × String × Bool)
check_proof c payload device session = do
  csr ← load_and_validate_csr c.crypto payload.csr_pem payload.device_id
  let digest = csr_sha256 c.crypto csr
  secret_box ← from_master_key c.crypto c.settings.bootstrap_master_key
  bootstrap_secret ← decrypt c.crypto secret_box device.bootstrap_secret_encrypted
  proof_ok ←
      verify_proof_hex c.crypto payload.proof bootstrap_secret device.device_id session.session_id
        session.nonce_b64 digest
  ok (csr, digest, proof_ok)

-- `session` is the row that counts this attempt, already committed.
unfoldable pub enroll_attempt :
    Context → ℕ → EnrollmentRequest → Device → BootstrapSession → Server → Reply Enrollment × Server
enroll_attempt c serial payload device session s = elim (check_proof c payload device session) [
  | crash ↦ (uncaught, s)
  | security_error e ↦ (http_error 400 e, save_session (close_if_exhausted session c.now) s)
  | ok (csr, digest, proof_ok) ↦
      if proof_ok then enroll_proved c serial device session csr digest s else (
        http_error 401 "invalid cryptographic proof",
        save_session (close_if_exhausted session c.now) s,
      )
]

unfoldable pub count_attempt : BootstrapSession → ℕ → BootstrapSession
count_attempt session now = record session {
  attempts = suc session.attempts;
  last_attempt_at = some now;
}

-- A session that is not consumed: its age and its attempts.
unfoldable pub enroll_open :
    Context → ℕ → EnrollmentRequest → Device → BootstrapSession → Server → Reply Enrollment × Server
enroll_open c serial payload device session s =
    if leb session.expires_at c.now
    then (
      http_error 410 "challenge has expired",
      save_session (close_session session expired c.now) s,
    )
    else if leb max_enrollment_attempts session.attempts
    then (http_error 429 "session blocked", save_session (close_session session blocked c.now) s)
    else enroll_attempt c serial payload device (count_attempt session c.now)
        (save_session (count_attempt session c.now) s)

-- The guards, once both rows are found.
unfoldable pub enroll_known :
    Context → ℕ → EnrollmentRequest → Device → BootstrapSession → Server → Reply Enrollment × Server
enroll_known c serial payload device session s =
    if not (session.device_id == payload.device_id) || not (is_authorized device)
    then (generic_device_error, s)
    else elim session.consumed_at [
      | some used ↦ (http_error 409 "challenge has already been used or invalidated", s)
      | none ↦ enroll_open c serial payload device session s
    ]

unfoldable pub enroll_device : Context → ℕ → EnrollmentRequest → Server → Reply Enrollment × Server
enroll_device c serial payload s = elim (find_session s payload.session_id) [
  | none ↦ (generic_device_error, s)
  | some session ↦ elim (find_device s payload.device_id) [
    | none ↦ (generic_device_error, s)
    | some device ↦ enroll_known c serial payload device session s
  ]
]
