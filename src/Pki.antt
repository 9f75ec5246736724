-- ===== src/Pki.antt =====
-- server/app/pki.py. Files are read through `Disk`; X.509 itself is `Crypto`.
pub mod Serial
use Prim.Native.String.{◌++◌ as text_append}
use Prim.Native.String.{len}
use secure_io_t_device_platf.Base.{
  ℕ, ◌+◌, ◌*◌, String, Bool, true, false, Option, none, some, List, [], ◌∷◌, ltb, leb, ◌==◌,
  if◌then◌else◌,
}
use secure_io_t_device_platf.Env.{
  Try, ok, security_error, crash, ◌>>=◌, ◌>>◌, Crypto, Csr, Settings, Disk, FileState, missing,
  permission_denied, os_error, content, CaCertificate, CaKey, Certificate, PublicKey, rsa, elliptic,
  ed25519, unsupported, Curve, secp256r1, secp384r1, other_curve,
}
use secure_io_t_device_platf.Base.Text.{same_codes}
use secure_io_t_device_platf.Models.{
  CrlEntry, ReasonFlag, key_compromise, superseded, cessation_of_operation, affiliation_changed,
  unspecified, RevokedCertificate,
}
use secure_io_t_device_platf.Security.{validate_device_id}
use Serial.{format_hex, parse_hex}

abbrev pub max_csr_bytes : ℕ
max_csr_bytes = 16 * 1024

-- Microseconds in a day.
abbrev pub day : ℕ
day = 86400000000

pub record IssuedCertificate : Type 0 where
  pub pem : String
  pub serial_hex : String
  pub not_before : ℕ
  pub not_after : ℕ

abbrev pub is_file : FileState → Bool
is_file missing = false
is_file _ = true

guard : Bool → String → Try (Unit {0})
guard true e = ok tt
guard false e = security_error e

-- path.read_bytes() under the handlers of `load_ca`
read_bytes : FileState → Try (List ℕ)
read_bytes (content bytes) = ok bytes
read_bytes permission_denied = security_error "permission denied while reading PKI material"
read_bytes _ = security_error "could not read PKI material"

or_invalid {ℓ} : {A : Type ℓ} → Option A → String → Try A
or_invalid none e = security_error e
or_invalid (some a) e = ok a

-- The key checks of `load_and_validate_csr`.
unfoldable pub check_public_key : PublicKey → Try (Unit {0})
check_public_key (rsa key_size) =
    if ltb key_size 2048 then security_error "RSA keys must be at least 2048 bits" else ok tt
check_public_key (elliptic other_curve) = security_error "only P-256 and P-384 curves are supported"
check_public_key (elliptic _) = ok tt
check_public_key ed25519 = ok tt
check_public_key unsupported = security_error "unsupported public key type"

abbrev pub is_rsa : PublicKey → Bool
is_rsa (rsa n) = true
is_rsa _ = false

-- reason_flags.get(reason_name, unspecified)
unfoldable pub reason_flag : String → ReasonFlag
reason_flag name =
    if name == "key_compromise"
    then key_compromise
    else if name == "superseded"
    then superseded
    else if name == "cessation_of_operation"
    then cessation_of_operation
    else if name == "affiliation_changed"
    then affiliation_changed
    else unspecified

abbrev or_crash {ℓ} : {A : Type ℓ} → Option A → Try A
or_crash none = crash
or_crash (some a) = ok a

-- The loop of `rebuild_crl`; `int(serial_hex, 16)` raises ValueError on a text that is no numeral.
unfoldable pub crl_entries : List RevokedCertificate → Try (List CrlEntry)
unfolding reason_flag
crl_entries [] = ok []
crl_entries (r ∷ rows) = do
  serial_number ← or_crash (parse_hex r.serial_hex)
  rest ← crl_entries rows
  ok (
      record {
        serial_number = serial_number;
        revocation_date = r.revoked_at;
        reason = reason_flag r.reason;
      }
      ∷ rest)

module _ (crypto : Crypto) where
  unfoldable pub load_ca : Settings → Disk → Try (CaCertificate × CaKey)
  unfolding guard read_bytes or_invalid same_codes
  load_ca settings disk = do
    guard (is_file disk.ca_cert)
        (text_append "CA certificate does not exist: " settings.ca_cert_path)
    guard (is_file disk.ca_key) (text_append "CA private key does not exist: " settings.ca_key_path)
    ca_cert_bytes ← read_bytes disk.ca_cert
    ca_key_bytes ← read_bytes disk.ca_key
    ca_cert ←
        or_invalid (crypto.load_pem_x509_certificate ca_cert_bytes)
          (text_append "invalid PEM CA certificate: " settings.ca_cert_path)
    ca_key ←
        or_invalid (crypto.load_pem_private_key ca_key_bytes)
          (text_append "invalid or encrypted PEM CA private key: " settings.ca_key_path)
    guard (same_codes ca_cert.public_bytes ca_key.public_bytes)
        "CA certificate and CA private key do not match"
    ok (ca_cert, ca_key)

  unfoldable pub load_and_validate_csr : String → String → Try Csr
  unfolding guard or_invalid check_public_key validate_device_id
  load_and_validate_csr csr_pem expected_device_id = do
    _ ← validate_device_id expected_device_id
    guard (leb (len csr_pem) max_csr_bytes) "CSR exceeds the maximum allowed size"
    csr ← or_invalid (crypto.load_pem_x509_csr csr_pem) "invalid PEM CSR"
    guard csr.is_signature_valid "CSR internal signature is invalid"
    check_public_key csr.public_key
    ok csr

  -- The certificate that the builder describes: its identity is the device id that it is given.
  unfoldable pub certificate_for : Csr → String → ℕ → ℕ → ℕ → Certificate
  certificate_for csr device_id validity_days now serial = record {
    common_name = device_id;
    public_key = csr.public_key;
    serial_number = serial;
    not_valid_before = now;
    not_valid_after = now + validity_days * day;
    is_ca = false;
    key_encipherment = is_rsa csr.public_key;
    alternative_name = text_append "urn:iot-device:" device_id;
  }

  unfoldable pub issue_device_certificate :
      Settings → Disk → Csr → String → ℕ → ℕ → Try IssuedCertificate
  unfolding validate_device_id load_ca certificate_for
  issue_device_certificate settings disk csr device_id now serial = do
    device_id' ← validate_device_id device_id
    (ca_cert, ca_key) ← load_ca settings disk
    let certificate = certificate_for csr device_id' settings.cert_validity_days now serial
    ok (record {
      pem = crypto.sign_certificate certificate ca_key;
      serial_hex = format_hex serial;
      not_before = now;
      not_after = certificate.not_valid_after;
    })

  -- An unreadable file raises OSError, a byte outside ASCII raises UnicodeDecodeError.
  unfoldable pub read_ca_pem : Disk → Try String
  read_ca_pem disk = elim disk.ca_cert [
    | content bytes ↦ or_crash (crypto.decode_ascii bytes)
    | _ ↦ security_error "could not read the CA certificate"
  ]

  -- The new contents of the CRL file.
  unfoldable pub rebuild_crl : Settings → Disk → List RevokedCertificate → Try (List CrlEntry)
  unfolding load_ca crl_entries
  rebuild_crl settings disk revoked_certificates = do
    _ ← load_ca settings disk
    entries ← crl_entries revoked_certificates
    if disk.crl_writable then ok entries else crash
