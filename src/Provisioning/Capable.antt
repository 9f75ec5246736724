-- ===== src/Provisioning/Capable.antt =====
-- Conditions on the device, the CSR, the proof and the CA files that suffice for `enroll_device`.
use Prim.Native.String.{len}
use secure_io_t_device_platf.Base.{
  ℕ, ◌≤◌, String, ◌≡◌, refl, sym, ap, ◌∙◌, arith, true, false, some, none, List, [], ◌∷◌, eq_iff,
  Bool-cases, inl, inr, All, leb, not, ◌&&◌, ◌==◌, Option-cases,
}
use secure_io_t_device_platf.Table
use secure_io_t_device_platf.Env.{
  Context, Csr, CaCertificate, CaKey, ok, response, content, elliptic, secp256r1,
}
use secure_io_t_device_platf.Models.{
  Server, Device, BootstrapSession, device_key, save_session, present,
}
use secure_io_t_device_platf.Security.{validate_device_id, csr_sha256, from_master_key, decrypt}
use secure_io_t_device_platf.Security.Proofs.{Accepted, same_codes_iff}
use secure_io_t_device_platf.Pki.{
  IssuedCertificate, load_and_validate_csr, check_public_key, load_ca, issue_device_certificate,
  certificate_for, read_ca_pem,
}
use secure_io_t_device_platf.Pki.Serial.{format_hex}
use secure_io_t_device_platf.Provisioning.Challenge.{is_locked}
use secure_io_t_device_platf.Provisioning.Finish.{
  EnrollmentRequest, Enrollment, enrollment_of, serial_in_use, holds_serial, commit_enrollment,
}
use secure_io_t_device_platf.Provisioning.Enroll.{enroll_device, count_attempt}
use secure_io_t_device_platf.Provisioning.Ready.{Ready}
use secure_io_t_device_platf.Provisioning.Honest.{Honest, honest_device_enrolls}
use secure_io_t_device_platf.Provisioning.OneUse.{Installed, enroll-Installed}
use secure_io_t_device_platf.Provisioning.Identity.{Certifies}

-- The CSR of a device: small enough, signed by its own P-256 key.
pub record GoodCsr (c : Context) (payload : EnrollmentRequest) : Type 0 where
  pub csr : Csr
  pub small : len payload.csr_pem ≤ 16384
  pub parsed : c.crypto.load_pem_x509_csr payload.csr_pem ≡ some csr
  pub own_signature : csr.is_signature_valid ≡ true
  pub p256 : csr.public_key ≡ elliptic secp256r1

-- The CA files of the installation: both readable, and of one key.
pub record GoodCa (c : Context) : Type 0 where
  pub cert_bytes : List ℕ
  pub key_bytes : List ℕ
  pub certificate : CaCertificate
  pub key : CaKey
  pub pem : String
  pub cert_file : c.disk.ca_cert ≡ content cert_bytes
  pub key_file : c.disk.ca_key ≡ content key_bytes
  pub cert_loaded : c.crypto.load_pem_x509_certificate cert_bytes ≡ some certificate
  pub key_loaded : c.crypto.load_pem_private_key key_bytes ≡ some key
  pub matching : certificate.public_bytes ≡ key.public_bytes
  pub ascii : c.crypto.decode_ascii cert_bytes ≡ some pem

-- The proof of a device that knows the secret which its row holds sealed.
pub record GoodProof (c : Context) (payload : EnrollmentRequest) (d : Device) (b : BootstrapSession)
    (csr : Csr) : Type 0 where
  pub box : List ℕ
  pub secret : String
  pub unsealed : from_master_key c.crypto c.settings.bootstrap_master_key ≡ ok box
  pub opened : decrypt c.crypto box d.bootstrap_secret_encrypted ≡ ok secret
  pub accepted :
      Accepted c.crypto payload.proof secret d.device_id b.session_id b.nonce_b64
        (csr_sha256 c.crypto csr)

-- No device but this one has the certificate serial.
abbrev pub Free : String → String → List Device → Type 0
Free id serial devices = All (λ d. d.certificate_serial ≡ some serial → d.device_id ≡ id) devices

free_head :
    (id serial : String) (d : Device)
    → (d.certificate_serial ≡ some serial → d.device_id ≡ id)
    → (not (d.device_id == id) && holds_serial serial d.certificate_serial) ≡ false
free_head id serial d h = elim (Option-cases d.certificate_serial) [
  | inl e ↦ rw e (ground arith)
  | inr (held, e) ↦ elim (Bool-cases (held == serial)) [
    | inr x ↦ rw e (ground arith)
    | inl x ↦
        let own : d.device_id ≡ id = h (e ∙ ap some ((eq_iff held serial).0 x)) in
        rw e (ground (arith, own, eq_iff d.device_id id))
  ]
]

serial_in_use-Free :
    (id serial : String) (devices : List Device)
    → Free id serial devices
    → serial_in_use id serial devices ≡ false
unfolding serial_in_use
serial_in_use-Free id serial [] h = refl
serial_in_use-Free id serial (d ∷ devices) h =
    rw (free_head id serial d h.0, serial_in_use) (serial_in_use-Free id serial devices h.1)

module _ (c : Context) (serial : ℕ) (payload : EnrollmentRequest) (d : Device)
    (b : BootstrapSession) (g : GoodCsr c payload) (ca : GoodCa c) where
  ca_loaded : load_ca c.crypto c.settings c.disk ≡ ok (ca.certificate, ca.key)
  unfolding load_ca
  ca_loaded =
      let same = (same_codes_iff ca.certificate.public_bytes ca.key.public_bytes).1 ca.matching in
      rw (ca.cert_file, ca.key_file, ca.cert_loaded, ca.key_loaded, same) refl

  ca_pem_read : read_ca_pem c.crypto c.disk ≡ ok ca.pem
  unfolding read_ca_pem
  ca_pem_read = rw (ca.cert_file, ca.ascii) refl

  csr_validated :
      validate_device_id payload.device_id ≡ ok payload.device_id
      → load_and_validate_csr c.crypto payload.csr_pem payload.device_id ≡ ok g.csr
  unfolding load_and_validate_csr check_public_key
  csr_validated valid =
      let small : leb (len payload.csr_pem) 16384 ≡ true = ground (arith, g.small) in
      rw (valid, small, g.parsed, g.own_signature, g.p256) refl

  signed : IssuedCertificate
  signed =
      let certificate =
        certificate_for c.crypto g.csr d.device_id c.settings.cert_validity_days c.later serial in
      record {
        pem = c.crypto.sign_certificate certificate ca.key;
        serial_hex = format_hex serial;
        not_before = c.later;
        not_after = certificate.not_valid_after;
      }

  certificate_issued :
      validate_device_id d.device_id ≡ ok d.device_id
      → issue_device_certificate c.crypto c.settings c.disk g.csr d.device_id c.later serial
        ≡ ok signed
  unfolding issue_device_certificate signed
  certificate_issued valid = rw (valid, ca_loaded) refl

  capable_honest :
      validate_device_id d.device_id ≡ ok d.device_id
      → payload.device_id ≡ d.device_id
      → is_locked c.settings d ≡ false
      → GoodProof c payload d b g.csr
      → Honest c serial payload d b
  capable_honest valid same unlocked k = record {
    csr = g.csr;
    box = k.box;
    secret = k.secret;
    certificate = signed;
    ca_pem = ca.pem;
    parsed = csr_validated (ap validate_device_id same ∙ valid ∙ ap ok (sym same));
    unsealed = k.unsealed;
    opened = k.opened;
    accepted = k.accepted;
    unlocked = unlocked;
    issued = certificate_issued valid;
    ca_read = ca_pem_read;
  }

  signed-Certifies : Certifies c g.csr d.device_id serial signed.pem
  unfolding signed certificate_for
  signed-Certifies = record {
    certificate =
        certificate_for c.crypto g.csr d.device_id c.settings.cert_validity_days c.later serial;
    ca_key = ca.key;
    signed = refl;
    identity = refl;
    uri = refl;
    key = refl;
    number = refl;
    leaf = refl;
    from_now = refl;
    until = refl;
  }

  -- A device without a certificate, that may be enrolled, is enrolled in one request: its id is valid,
  -- its session is open and has attempts left, its CSR is small, well formed, signed by its own P-256
  -- key, and its proof is the HMAC under the secret that its row holds sealed. The CA files are
  -- readable and of one key, and no other device holds the drawn serial number. The response is a
  -- success. It carries the id of the device, a certificate that the CA key signed, of the key in the
  -- CSR under this id and serial number, and the CA certificate. After it the session is consumed, the device row holds the
  -- certificate of the response and is provisioned, and no other device has changed.
  pub capable_device_enrolls :
      (s : Server)
      → Ready c payload s d b
      → validate_device_id d.device_id ≡ ok d.device_id
      → is_locked c.settings d ≡ false
      → d.certificate_serial ≡ none
      → GoodProof c payload d b g.csr
      → Free d.device_id (format_hex serial) s.devices
      → (e : Enrollment) × (after : Server) × (enroll_device c serial payload s
          ≡ (response e, after))
        × Installed c payload s e after
        × (certifies : Certifies c g.csr d.device_id serial e.certificate_pem) × (certifies.ca_key
            ≡ ca.key)
        × (e.device_id ≡ d.device_id)
        × (e.certificate_serial ≡ format_hex serial)
        × (e.ca_certificate_pem ≡ ca.pem)
  unfolding signed signed-Certifies capable_honest enrollment_of
  capable_device_enrolls s r valid unlocked first k free =
      let same : payload.device_id ≡ d.device_id =
        sym (Table.find_key device_key payload.device_id s.devices d r.found_device) in
      let honest = capable_honest valid same unlocked k in
      let e = enrollment_of c.settings d.device_id signed ca.pem in
      let b' = count_attempt b c.now in
      let after = commit_enrollment c d b' (csr_sha256 c.crypto g.csr) signed (save_session b' s) in
      let done : enroll_device c serial payload s ≡ (response e, after) =
        honest_device_enrolls c serial payload d b honest s r (ap present first)
          (serial_in_use-Free d.device_id (format_hex serial) s.devices free) in
      (
        e,
        after,
        done,
        enroll-Installed c serial payload s e after done,
        signed-Certifies,
        refl,
        refl,
        refl,
        refl,
      )
