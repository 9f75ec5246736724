-- ===== src/Provisioning/Identity.antt =====
-- Whose certificate an enrollment issues, and on what proof.
use Prim.Native.String.{◌++◌ as text_append}
use secure_io_t_device_platf.Base.{
  ℕ, ◌+◌, ◌*◌, String, ◌≡◌, refl, ◌∙◌, arith, true, false, some, inl, inr, ap, List,
}
use secure_io_t_device_platf.Env.{Context, Csr, Certificate, CaKey, ok, Try-cases, response}
use secure_io_t_device_platf.Models.{Server, Device, BootstrapSession, find_device, find_session}
use secure_io_t_device_platf.Security.{
  validate_device_id, from_master_key, decrypt, csr_sha256, verify_proof_hex,
}
use secure_io_t_device_platf.Security.Proofs.{Accepted, verify_proof_hex-eq-true}
use secure_io_t_device_platf.Pki.{
  IssuedCertificate, issue_device_certificate, load_ca, certificate_for, read_ca_pem, day,
  load_and_validate_csr, check_public_key,
}
use secure_io_t_device_platf.Pki.Serial.{format_hex}
use secure_io_t_device_platf.Provisioning.Finish.{EnrollmentRequest, Enrollment, enrollment_of}
use secure_io_t_device_platf.Provisioning.Enroll.{
  enroll_device, issuance, check_proof, count_attempt,
}
use secure_io_t_device_platf.Provisioning.Success.{enroll-Checked}
use secure_io_t_device_platf.Provisioning.OneUse.{answer}

-- `pem` is the signature, by the CA key, of a certificate with these fields.
pub record Certifies (c : Context) (csr : Csr) (id : String) (serial : ℕ) (pem : String)
    : Type 0 where
  pub certificate : Certificate
  pub ca_key : CaKey
  pub signed : pem ≡ c.crypto.sign_certificate certificate ca_key
  pub identity : certificate.common_name ≡ id
  pub uri : certificate.alternative_name ≡ text_append "urn:iot-device:" id
  pub key : certificate.public_key ≡ csr.public_key
  pub number : certificate.serial_number ≡ serial
  pub leaf : certificate.is_ca ≡ false
  pub from_now : certificate.not_valid_before ≡ c.later
  pub until : certificate.not_valid_after ≡ c.later + c.settings.cert_validity_days * day

issue-Certifies :
    (c : Context) (csr : Csr) (id : String) (serial : ℕ) (cert : IssuedCertificate)
    → issue_device_certificate c.crypto c.settings c.disk csr id c.later serial ≡ ok cert
    → (id' : String) × (validate_device_id id ≡ ok id')
      × Certifies c csr id' serial cert.pem
      × (cert.serial_hex ≡ format_hex serial)
unfolding issue_device_certificate
issue-Certifies c csr id serial cert h = elim (Try-cases (validate_device_id id)) [
  | inr (inl (x, e)) ↦ absurd (ground arith)
  | inr (inr e) ↦ absurd (ground arith)
  | inl (id', v) ↦ elim (Try-cases (load_ca c.crypto c.settings c.disk)) [
    | inr (inl (x, e)) ↦ absurd (ground arith)
    | inr (inr e) ↦ absurd (ground arith)
    | inl ((ca_cert, ca_key), e) ↦ (
      id',
      v,
      record {
        certificate = certificate_for c.crypto csr id' c.settings.cert_validity_days c.later serial;
        ca_key = ca_key;
        signed = ground arith;
        identity = unfold certificate_for in refl;
        uri = unfold certificate_for in refl;
        key = unfold certificate_for in refl;
        number = unfold certificate_for in refl;
        leaf = unfold certificate_for in refl;
        from_now = unfold certificate_for in refl;
        until = unfold certificate_for in refl;
      },
      ground arith,
    )
  ]
]

-- What a proof that was accepted rests on.
pub record Authentic (c : Context) (payload : EnrollmentRequest) (d : Device)
    (session_id nonce : String) (csr : Csr) : Type 0 where
  pub parsed : c.crypto.load_pem_x509_csr payload.csr_pem ≡ some csr
  pub own_signature : csr.is_signature_valid ≡ true
  pub strong_key : check_public_key csr.public_key ≡ ok tt
  pub box : List ℕ
  pub secret : String
  pub opened : decrypt c.crypto box d.bootstrap_secret_encrypted ≡ ok secret
  pub accepted :
      Accepted c.crypto payload.proof secret d.device_id session_id nonce (csr_sha256 c.crypto csr)

load-csr :
    (c : Context) (pem id : String) (csr : Csr)
    → load_and_validate_csr c.crypto pem id ≡ ok csr
    → (c.crypto.load_pem_x509_csr pem ≡ some csr)
      × (csr.is_signature_valid ≡ true)
      × (check_public_key csr.public_key ≡ ok tt)
unfolding load_and_validate_csr
load-csr c pem id csr h = elim (Try-cases (validate_device_id id)) [
  | inr (inl (x, e)) ↦ absurd (ground arith)
  | inr (inr e) ↦ absurd (ground arith)
  | inl (valid, v) ↦ ground arith
]

check_proof-Authentic :
    (c : Context) (payload : EnrollmentRequest) (d : Device) (b : BootstrapSession) (csr : Csr)
    (digest : String)
    → check_proof c payload d b ≡ ok (csr, digest, true)
    → Authentic c payload d b.session_id b.nonce_b64 csr
unfolding check_proof
check_proof-Authentic c payload d b csr digest h =
    elim (Try-cases (load_and_validate_csr c.crypto payload.csr_pem payload.device_id)) [
      | inr (inl (x, e)) ↦ absurd (ground arith)
      | inr (inr e) ↦ absurd (ground arith)
      | inl (csr', e) ↦
          elim (Try-cases (from_master_key c.crypto c.settings.bootstrap_master_key)) [
            | inr (inl (x, e1)) ↦ absurd (ground arith)
            | inr (inr e1) ↦ absurd (ground arith)
            | inl (box, e1) ↦ elim (Try-cases (decrypt c.crypto box d.bootstrap_secret_encrypted)) [
              | inr (inl (x, e2)) ↦ absurd (ground arith)
              | inr (inr e2) ↦ absurd (ground arith)
              | inl (secret, e2) ↦
                  let same : csr' ≡ csr = ground arith in
                  let verified : verify_proof_hex c.crypto payload.proof secret d.device_id
                        b.session_id b.nonce_b64 (csr_sha256 c.crypto csr)
                      ≡ ok true =
                    ground arith in
                  let (parsed, own_signature, strong_key) =
                    load-csr c payload.csr_pem payload.device_id csr (e ∙ ap ok same) in
                  record {
                    parsed = parsed;
                    own_signature = own_signature;
                    strong_key = strong_key;
                    box = box;
                    secret = secret;
                    opened = e2;
                    accepted =
                        (verify_proof_hex-eq-true c.crypto payload.proof secret d.device_id
                            b.session_id b.nonce_b64 (csr_sha256 c.crypto csr)).0
                          verified;
                  }
            ]
          ]
    ]

issuance-issue :
    (c : Context) (csr : Csr) (d : Device) (serial : ℕ) (cert : IssuedCertificate) (ca_pem : String)
    → issuance c csr d serial ≡ ok (cert, ca_pem)
    → issue_device_certificate c.crypto c.settings c.disk csr d.device_id c.later serial ≡ ok cert
unfolding issuance
issuance-issue c csr d serial cert ca_pem h =
    elim (Try-cases
      (issue_device_certificate c.crypto c.settings c.disk csr d.device_id c.later serial)) [
        | inr (inl (x, e)) ↦ absurd (ground arith)
        | inr (inr e) ↦ absurd (ground arith)
        | inl (cert', e) ↦ elim (Try-cases (read_ca_pem c.crypto c.disk)) [
          | inr (inl (x, e1)) ↦ absurd (ground arith)
          | inr (inr e1) ↦ absurd (ground arith)
          | inl (pem, e1) ↦ e ∙ ap ok (ground arith)
        ]
      ]

Certifies-eq :
    {c : Context} {csr : Csr} {id : String} {serial : ℕ} {pem pem' : String}
    → pem ≡ pem'
    → Certifies c csr id serial pem'
    → Certifies c csr id serial pem
Certifies-eq e h = rw e h

-- A successful enrollment answers the stored challenge of a registered device: the proof is the HMAC,
-- under a secret that the device row decrypts to, of the message with this device, session, nonce and
-- CSR digest. The CSR parses, carries its own signature and an accepted key. The certificate that is
-- answered certifies that key under the identity of the device, never under a name in the CSR, with
-- the drawn serial number, for the configured number of days from the second reading of the clock.
pub enroll-Authentic :
    (c : Context) (serial : ℕ) (payload : EnrollmentRequest) (s : Server) (e : Enrollment)
    (after : Server)
    → enroll_device c serial payload s ≡ (response e, after)
    → (d : Device) × (b : BootstrapSession) × (csr : Csr) × (id : String) × (find_device s
          payload.device_id
        ≡ some d)
      × (find_session s payload.session_id ≡ some b)
      × Authentic c payload d b.session_id b.nonce_b64 csr
      × (validate_device_id d.device_id ≡ ok id)
      × Certifies c csr id serial e.certificate_pem
      × (e.certificate_serial ≡ format_hex serial)
unfolding count_attempt enrollment_of
enroll-Authentic c serial payload s e after h =
    let k = enroll-Checked c serial e after payload s h in
    let same = answer c serial payload s e after k in
    let (id, valid, certifies, hex) =
      issue-Certifies c k.csr k.device.device_id serial k.certificate
        (issuance-issue c k.csr k.device serial k.certificate k.ca_pem k.signed) in
    (
      k.device,
      k.session,
      k.csr,
      id,
      k.found_device,
      k.found_session,
      check_proof-Authentic c payload k.device (count_attempt k.session c.now) k.csr k.digest
          k.proved,
      valid,
      Certifies-eq (ap (λ r. r.certificate_pem) same) certifies,
      ap (λ r. r.certificate_serial) same ∙ hex,
    )
