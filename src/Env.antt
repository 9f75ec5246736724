-- ===== src/Env.antt =====
-- What the handlers take from outside the repository: the settings, the third-party cryptography,
-- the state of the files, and the results of Python code that may raise.
use secure_io_t_device_platf.Base.{◌≡◌, refl, ◌⊎◌, inl, inr, ℕ, String, Bool, Option, List}

-- What a call in a `try` block can do: return, raise `SecurityError` with its text, or raise another
-- exception, such as the `UnicodeEncodeError` of `.encode("ascii")`, that no handler catches.
pub data Try {ℓ} (A : Type ℓ) : Type ℓ where
  ok : A → Try A
  security_error : String → Try A
  crash : Try A

pub Try-cases {ℓ} :
    {A : Type ℓ} (t : Try A)
    → ((a : A) × (t ≡ ok a)) ⊎ ((e : String) × (t ≡ security_error e)) ⊎ (t ≡ crash)
Try-cases (ok a) = inl (a, refl)
Try-cases (security_error e) = inr (inl (e, refl))
Try-cases crash = inr (inr refl)

infixl 5 ◌>>=◌ ◌>>◌
abbrev pub ◌>>=◌ {ℓ κ} : {A : Type ℓ} {B : Type κ} → Try A → (A → Try B) → Try B
ok a >>= f = f a
security_error e >>= f = security_error e
crash >>= f = crash

abbrev pub ◌>>◌ {ℓ} : {B : Type ℓ} → Try (Unit {0}) → Try B → Try B
m >> k = m >>= λ _. k

-- The response of a request handler: a value, an `HTTPException` with its status and detail, or the
-- 500 of an exception that no handler catches.
pub data Reply {ℓ} (A : Type ℓ) : Type ℓ where
  response : A → Reply A
  http_error : ℕ → String → Reply A
  uncaught : Reply A

-- config.py, the fields that the modelled code reads
pub record Settings : Type 0 where
  pub environment : String
  pub bootstrap_master_key : String
  pub challenge_ttl_seconds : ℕ
  pub cert_validity_days : ℕ
  pub online_timeout_seconds : ℕ
  pub allow_reprovisioning : Bool
  pub mqtt_enabled : Bool
  pub mqtt_public_host : String
  pub mqtt_public_port : ℕ
  pub ca_cert_path : String
  pub ca_key_path : String

-- A public key as `cryptography` classifies it.
pub data Curve : Type 0 where
  secp256r1 secp384r1 other_curve : Curve

pub data PublicKey : Type 0 where
  rsa : ℕ → PublicKey
  elliptic : Curve → PublicKey
  ed25519 : PublicKey
  unsupported : PublicKey

-- What the source reads of a parsed certificate signing request.
pub record Csr : Type 0 where
  pub der : List ℕ
  pub is_signature_valid : Bool
  pub public_key : PublicKey
  pub common_name : String

-- What the source reads of a loaded CA certificate and CA key: the public half, as DER bytes.
pub record CaCertificate : Type 0 where
  pub public_bytes : List ℕ

pub record CaKey : Type 0 where
  pub public_bytes : List ℕ

-- The fields that the builder sets on an operational certificate before it is signed.
pub record Certificate : Type 0 where
  pub common_name : String
  pub public_key : PublicKey
  pub serial_number : ℕ
  pub not_valid_before : ℕ
  pub not_valid_after : ℕ
  pub is_ca : Bool
  pub key_encipherment : Bool
  pub alternative_name : String

-- A file as a reader finds it.
pub data FileState : Type 0 where
  missing : FileState
  permission_denied : FileState
  os_error : FileState
  content : List ℕ → FileState

pub record Disk : Type 0 where
  pub ca_cert : FileState
  pub ca_key : FileState
  pub crl_writable : Bool
  pub restart_writable : Bool

-- Third-party and C code: `cryptography`, `hashlib`, `hmac`, `base64`. Texts are code points.
pub record Crypto : Type 0 where
  pub sha256_hex : List ℕ → String
  pub hmac_sha256_hex : List ℕ → List ℕ → List ℕ
  pub urlsafe_b64decode : List ℕ → Option (List ℕ)
  pub fernet_key_valid : List ℕ → Bool
  pub fernet_encrypt : List ℕ → String → String
  pub fernet_decrypt : List ℕ → List ℕ → Option String
  pub load_pem_x509_csr : String → Option Csr
  pub load_pem_x509_certificate : List ℕ → Option CaCertificate
  pub load_pem_private_key : List ℕ → Option CaKey
  pub sign_certificate : Certificate → CaKey → String
  pub decode_ascii : List ℕ → Option String

-- What one request finds around it. `now` and `later` are its first and second reading of the clock.
pub record Context : Type 0 where
  pub crypto : Crypto
  pub settings : Settings
  pub disk : Disk
  pub now : ℕ
  pub later : ℕ
