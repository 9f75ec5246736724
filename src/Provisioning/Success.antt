-- ===== src/Provisioning/Success.antt =====
-- What a successful enrollment rests on, and what it writes.
use secure_io_t_device_platf.Base.{
  ℕ, ◌<◌, String, ◌≡◌, arith, true, false, none, some, inl, inr, Option-cases, Bool-cases, eq_iff,
  leb,
}
use secure_io_t_device_platf.Env.{Context, ok, Try-cases, Csr, response}
use secure_io_t_device_platf.Models.{
  Server, Device, BootstrapSession, find_session, find_device, save_session,
}
use secure_io_t_device_platf.Pki.{IssuedCertificate}
use secure_io_t_device_platf.Provisioning.Challenge.{is_authorized, is_locked}
use secure_io_t_device_platf.Provisioning.Finish.{EnrollmentRequest, Enrollment, finish_enrollment}
use secure_io_t_device_platf.Provisioning.Enroll.{
  enroll_device, enroll_known, enroll_open, enroll_attempt, enroll_proved, enroll_issue,
  count_attempt, check_proof, issuance,
}

-- The facts that a successful enrollment has checked. `session` is the row that `enroll_device` found,
-- `t` the state that the attempt's commit left.
pub record Checked (c : Context) (serial : ℕ) (payload : EnrollmentRequest) (s : Server)
    (e : Enrollment) (after : Server) : Type 0 where
  pub device : Device
  pub session : BootstrapSession
  pub csr : Csr
  pub digest : String
  pub certificate : IssuedCertificate
  pub ca_pem : String
  pub found_session : find_session s payload.session_id ≡ some session
  pub found_device : find_device s payload.device_id ≡ some device
  pub owner : session.device_id ≡ payload.device_id
  pub authorized : is_authorized device ≡ true
  pub unused : session.consumed_at ≡ none
  pub alive : c.now < session.expires_at
  pub tries : session.attempts < 5
  pub proved : check_proof c payload device (count_attempt session c.now) ≡ ok (csr, digest, true)
  pub unlocked : is_locked c.settings device ≡ false
  pub signed : issuance c csr device serial ≡ ok (certificate, ca_pem)
  pub finished :
      finish_enrollment c device
        (count_attempt session c.now)
        digest
        certificate
        ca_pem
        (save_session (count_attempt session c.now) s)
      ≡ (response e, after)

module _ (c : Context) (serial : ℕ) (e : Enrollment) (after : Server) where
  issue-response :
      (d : Device) (b : BootstrapSession) (csr : Csr) (digest : String) (s : Server)
      → enroll_issue c serial d b csr digest s ≡ (response e, after)
      → (cert : IssuedCertificate) × (ca_pem : String) × (issuance c csr d serial
          ≡ ok (cert, ca_pem))
        × (finish_enrollment c d b digest cert ca_pem s ≡ (response e, after))
  unfolding enroll_issue
  issue-response d b csr digest s h = elim (Try-cases (issuance c csr d serial)) [
    | inl ((cert, ca_pem), k) ↦ (cert, ca_pem, k, rw (k, enroll_issue) at h)
    | inr (inl (x, k)) ↦ absurd (ground arith)
    | inr (inr k) ↦ absurd (ground arith)
  ]

  proved-response :
      (d : Device) (b : BootstrapSession) (csr : Csr) (digest : String) (s : Server)
      → enroll_proved c serial d b csr digest s ≡ (response e, after)
      → (is_locked c.settings d ≡ false)
        × (enroll_issue c serial d b csr digest s ≡ (response e, after))
  unfolding enroll_proved
  proved-response d b csr digest s h = elim (Bool-cases (is_locked c.settings d)) [
    | inl k ↦ absurd (ground arith)
    | inr k ↦ (k, rw k at h)
  ]

  attempt-response :
      (payload : EnrollmentRequest) (d : Device) (b : BootstrapSession) (s : Server)
      → enroll_attempt c serial payload d b s ≡ (response e, after)
      → (csr : Csr) × (digest : String) × (check_proof c payload d b ≡ ok (csr, digest, true))
        × (enroll_proved c serial d b csr digest s ≡ (response e, after))
  unfolding enroll_attempt
  attempt-response payload d b s h = elim (Try-cases (check_proof c payload d b)) [
    | inl ((csr, digest, true), k) ↦ (csr, digest, k, rw (k, enroll_attempt) at h)
    | inl ((csr, digest, false), k) ↦ absurd (ground arith)
    | inr (inl (x, k)) ↦ absurd (ground arith)
    | inr (inr k) ↦ absurd (ground arith)
  ]

  open-response :
      (payload : EnrollmentRequest) (d : Device) (b : BootstrapSession) (s : Server)
      → enroll_open c serial payload d b s ≡ (response e, after)
      → (c.now < b.expires_at)
        × (b.attempts < 5)
        × (enroll_attempt c serial payload d
              (count_attempt b c.now)
              (save_session (count_attempt b c.now) s)
            ≡ (response e, after))
  unfolding enroll_open
  open-response payload d b s h = elim (Bool-cases (leb b.expires_at c.now)) [
    | inl k ↦ absurd (ground arith)
    | inr k ↦ elim (Bool-cases (leb 5 b.attempts)) [
      | inl k' ↦ absurd (ground arith)
      | inr k' ↦ (ground arith, ground arith, rw (k, k') at h)
    ]
  ]

  known-response :
      (payload : EnrollmentRequest) (d : Device) (b : BootstrapSession) (s : Server)
      → enroll_known c serial payload d b s ≡ (response e, after)
      → (b.device_id ≡ payload.device_id)
        × (is_authorized d ≡ true)
        × (b.consumed_at ≡ none)
        × (enroll_open c serial payload d b s ≡ (response e, after))
  unfolding enroll_known
  known-response payload d b s h = elim (Option-cases b.consumed_at) [
    | inl k ↦ (ground (arith, eq_iff b.device_id payload.device_id), ground arith, k, ground arith)
    | inr (t, k) ↦ absurd (ground arith)
  ]

  known-Checked :
      (payload : EnrollmentRequest) (d : Device) (b : BootstrapSession) (s : Server)
      → find_session s payload.session_id ≡ some b
      → find_device s payload.device_id ≡ some d
      → enroll_known c serial payload d b s ≡ (response e, after)
      → Checked c serial payload s e after
  known-Checked payload d b s fs fd h =
      let (owner, authorized, unused, h1) = known-response payload d b s h in
      let (alive, tries, h2) = open-response payload d b s h1 in
      let (csr, digest, proved, h3) =
        attempt-response payload d (count_attempt b c.now) (save_session (count_attempt b c.now) s)
          h2 in
      let (unlocked, h4) =
        proved-response d (count_attempt b c.now) csr digest
          (save_session (count_attempt b c.now) s) h3 in
      let (cert, ca_pem, signed, finished) =
        issue-response d (count_attempt b c.now) csr digest (save_session (count_attempt b c.now) s)
          h4 in
      record {
        device = d;
        session = b;
        csr = csr;
        digest = digest;
        certificate = cert;
        ca_pem = ca_pem;
        found_session = fs;
        found_device = fd;
        owner = owner;
        authorized = authorized;
        unused = unused;
        alive = alive;
        tries = tries;
        proved = proved;
        unlocked = unlocked;
        signed = signed;
        finished = finished;
      }

  -- A successful enrollment found its session and its device, which belong together; the device was
  -- enabled and not revoked, and not locked; the session was not consumed, not expired, and below five
  -- attempts; the CSR and the proof were accepted and a certificate was issued; the response and the
  -- state are those of the last stage, on the session that counts this attempt.
  pub enroll-Checked :
      (payload : EnrollmentRequest) (s : Server)
      → enroll_device c serial payload s ≡ (response e, after)
      → Checked c serial payload s e after
  unfolding enroll_device
  enroll-Checked payload s h = elim (Option-cases (find_session s payload.session_id)) [
    | inl k ↦ absurd (ground arith)
    | inr (b, k) ↦ elim (Option-cases (find_device s payload.device_id)) [
      | inl k' ↦ absurd (ground arith)
      | inr (d, k') ↦ known-Checked payload d b s k k' (rw (k, k', enroll_device) at h)
    ]
  ]
