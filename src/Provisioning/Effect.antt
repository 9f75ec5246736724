-- ===== src/Provisioning/Effect.antt =====
-- What the handlers of server/app/routers/provisioning.py do to the devices and to the revocations:
-- nothing, or the one commit of an enrollment.
use secure_io_t_device_platf.Base.{
  ℕ, String, ◌≡◌, refl, arith, Option, true, false, some, inl, inr, Option-cases, Bool-cases, not,
  ◌||◌, ◌==◌, ◌⊎◌, leb,
}
use secure_io_t_device_platf.Env.{Context, Try, ok, security_error, crash, Try-cases, Csr}
use secure_io_t_device_platf.Models.{
  Server, Device, BootstrapSession, find_session, find_device, save_session,
}
use secure_io_t_device_platf.Pki.{IssuedCertificate, issue_device_certificate}
use secure_io_t_device_platf.Pki.Serial.{format_hex}
use secure_io_t_device_platf.Registry.{rebuild_crl_from_db}
use secure_io_t_device_platf.Registry.Frame.{devices-rebuild, revoked-rebuild}
use secure_io_t_device_platf.Mqtt.Publish.{evict_device}
use secure_io_t_device_platf.Provisioning.Challenge.{
  is_authorized, is_locked, create_challenge, open_session,
}
use secure_io_t_device_platf.Provisioning.Finish.{
  EnrollmentRequest, Enrollment, finish_enrollment, after_replacement, enrollment_of,
  commit_enrollment,
}
use secure_io_t_device_platf.Provisioning.Enroll.{
  enroll_device, enroll_known, enroll_open, enroll_attempt, enroll_proved, enroll_issue,
  count_attempt, check_proof, issuance,
}

-- The devices and the revoked certificates are the same.
pub record SameRegistry (s t : Server) : Type 0 where
  pub devices : t.devices ≡ s.devices
  pub revoked_certificates : t.revoked_certificates ≡ s.revoked_certificates

-- The commit of an enrollment of the device `d`, under the serial number that was drawn.
pub record Enrolled (c : Context) (serial : ℕ) (d : Device) (s t : Server) : Type 0 where
  pub session : BootstrapSession
  pub digest : String
  pub certificate : IssuedCertificate
  pub before : Server
  pub base : SameRegistry s before
  pub drawn : certificate.serial_hex ≡ format_hex serial
  pub committed : SameRegistry (commit_enrollment c d session digest certificate before) t

pub SameRegistry-refl : (s : Server) → SameRegistry s s
SameRegistry-refl s = record { devices = refl; revoked_certificates = refl }

module _ (c : Context) (serial : ℕ) (d : Device) where
  abbrev pub Effect : Server → Server → Type 0
  Effect s t = SameRegistry s t ⊎ Enrolled c serial d s t

  issuance-serial :
      (csr : Csr) (cert : IssuedCertificate) (ca_pem : String)
      → issuance c csr d serial ≡ ok (cert, ca_pem)
      → cert.serial_hex ≡ format_hex serial
  unfolding issuance issue_device_certificate
  issuance-serial csr cert ca_pem h = ground arith

  after_replacement-SameRegistry :
      (e : Enrollment) (r : Try (Unit {0}) × Server)
      → SameRegistry r.1 (after_replacement c d e r).1
  unfolding after_replacement evict_device
  after_replacement-SameRegistry e (ok u, s) = ground arith
  after_replacement-SameRegistry e (security_error x, s) = ground arith
  after_replacement-SameRegistry e (crash, s) = ground arith

  finish-registry :
      (b : BootstrapSession) (digest : String) (cert : IssuedCertificate) (ca_pem : String)
      (s : Server)
      → SameRegistry s (finish_enrollment c d b digest cert ca_pem s).1
        ⊎ SameRegistry
            (commit_enrollment c d b digest cert s)
            (finish_enrollment c d b digest cert ca_pem s).1
  unfolding finish_enrollment
  finish-registry b digest cert ca_pem s =
      let t = commit_enrollment c d b digest cert s in
      ground (
        arith,
        devices-rebuild c t,
        revoked-rebuild c t,
        after_replacement-SameRegistry (enrollment_of c.settings d.device_id cert ca_pem)
            (rebuild_crl_from_db c t),
      )

  issue-Effect :
      (b : BootstrapSession) (csr : Csr) (digest : String) (s0 s : Server)
      → SameRegistry s0 s
      → Effect s0 (enroll_issue c serial d b csr digest s).1
  unfolding enroll_issue save_session
  issue-Effect b csr digest s0 s base = elim (Try-cases (issuance c csr d serial)) [
    | inl ((cert, ca_pem), k) ↦
        rw (k, enroll_issue)
          (elim (finish-registry b digest cert ca_pem s) [
            | inl same ↦ inl (ground arith)
            | inr done ↦ inr (record {
              session = b;
              digest = digest;
              certificate = cert;
              before = s;
              base = base;
              drawn = issuance-serial csr cert ca_pem k;
              committed = done;
            })
          ])
    | inr (inl (x, k)) ↦ rw (k, enroll_issue) (inl (ground arith))
    | inr (inr k) ↦ rw (k, enroll_issue) (inl base)
  ]

  proved-Effect :
      (b : BootstrapSession) (csr : Csr) (digest : String) (s0 s : Server)
      → SameRegistry s0 s
      → Effect s0 (enroll_proved c serial d b csr digest s).1
  unfolding enroll_proved save_session
  proved-Effect b csr digest s0 s base = elim (Bool-cases (is_locked c.settings d)) [
    | inl k ↦ rw k (inl (ground arith))
    | inr k ↦ rw k (issue-Effect b csr digest s0 s base)
  ]

  attempt-Effect :
      (payload : EnrollmentRequest) (b : BootstrapSession) (s0 s : Server)
      → SameRegistry s0 s
      → Effect s0 (enroll_attempt c serial payload d b s).1
  unfolding enroll_attempt save_session
  attempt-Effect payload b s0 s base = elim (Try-cases (check_proof c payload d b)) [
    | inl ((csr, digest, true), k) ↦ rw (k, enroll_attempt) (proved-Effect b csr digest s0 s base)
    | inl ((csr, digest, false), k) ↦ rw (k, enroll_attempt) (inl (ground arith))
    | inr (inl (x, k)) ↦ rw (k, enroll_attempt) (inl (ground arith))
    | inr (inr k) ↦ rw (k, enroll_attempt) (inl base)
  ]

  open-Effect :
      (payload : EnrollmentRequest) (b : BootstrapSession) (s : Server)
      → Effect s (enroll_open c serial payload d b s).1
  unfolding enroll_open save_session
  open-Effect payload b s = elim (Bool-cases (leb b.expires_at c.now)) [
    | inl k ↦ rw k (inl (ground arith))
    | inr k ↦ elim (Bool-cases (leb 5 b.attempts)) [
      | inl k' ↦ rw (k, k') (inl (ground arith))
      | inr k' ↦ rw (k, k') (attempt-Effect payload (count_attempt b c.now) s _ (ground arith))
    ]
  ]

  pub known-Effect :
      (payload : EnrollmentRequest) (b : BootstrapSession) (s : Server)
      → Effect s (enroll_known c serial payload d b s).1
  unfolding enroll_known
  known-Effect payload b s =
      elim (Bool-cases (not (b.device_id == payload.device_id) || not (is_authorized d))) [
        | inl k ↦ rw k (inl (SameRegistry-refl s))
        | inr k ↦ elim (Option-cases b.consumed_at) [
          | inl k' ↦ rw (k, k', enroll_known) (open-Effect payload b s)
          | inr (t, k') ↦ rw (k, k', enroll_known) (inl (SameRegistry-refl s))
        ]
      ]

-- An enrollment, whatever it answers, leaves the devices and the revocations as they were, or it
-- commits the certificate of the device that was found.
pub enroll-Effect :
    (c : Context) (serial : ℕ) (payload : EnrollmentRequest) (s : Server)
    → SameRegistry s (enroll_device c serial payload s).1
      ⊎ ((d : Device) × (find_device s payload.device_id ≡ some d)
          × Enrolled c serial d s (enroll_device c serial payload s).1)
unfolding enroll_device
enroll-Effect c serial payload s = elim (Option-cases (find_session s payload.session_id)) [
  | inl k ↦ rw (k, enroll_device) (inl (SameRegistry-refl s))
  | inr (b, k) ↦ elim (Option-cases (find_device s payload.device_id)) [
    | inl k' ↦ rw (k, k', enroll_device) (inl (SameRegistry-refl s))
    | inr (d, k') ↦
        rw (k, k', enroll_device)
          (elim (known-Effect c serial d payload b s) [
            | inl same ↦ inl same
            | inr done ↦ inr (d, refl, done)
          ])
  ]
]

-- A challenge touches neither.
pub challenge-SameRegistry :
    (c : Context) (device_id session_id nonce : String) (ip : Option String) (s : Server)
    → SameRegistry s (create_challenge c device_id session_id nonce ip s).1
unfolding create_challenge open_session save_session
challenge-SameRegistry c device_id session_id nonce ip s = ground arith
