-- ===== src/Security.antt =====
-- server/app/security.py. A message is given by its code points: UTF-8 is one-to-one on them.
pub mod Messages
pub mod Proofs
pub mod Identity
use Prim.Native.Nat.{◌-◌, ◌%◌}
use secure_io_t_device_platf.Base.{
  ℕ, suc, zero, String, Bool, true, false, ◌&&◌, ◌||◌, Option, none, some, List, [], ◌∷◌, ◌++◌,
  length, ltb, leb, eqb, if◌then◌else◌,
}
use secure_io_t_device_platf.Base.Text.{codes, strip, lower, lower_code, same_codes}
use secure_io_t_device_platf.Env.{Try, ok, security_error, crash, ◌>>=◌, Crypto, Csr}

abbrev pub protocol_id : String
protocol_id = "IOT-BOOTSTRAP-V1"

abbrev pub is_alnum : ℕ → Bool
is_alnum c = (leb b'A' c && leb c b'Z') || (leb b'a' c && leb c b'z') || (leb b'0' c && leb c b'9')

-- [A-Za-z0-9_.:-]
unfoldable pub is_id_char : ℕ → Bool
is_id_char c = is_alnum c || eqb c b'_' || eqb c b'.' || eqb c b':' || eqb c b'-'

unfoldable pub all_codes : (ℕ → Bool) → List ℕ → Bool
all_codes p [] = true
all_codes p (c ∷ cs) = p c && all_codes p cs

-- DEVICE_ID_RE.fullmatch: one alphanumeric character, then 2 to 63 of the class above
unfoldable pub matches_device_id : List ℕ → Bool
unfolding is_id_char all_codes
matches_device_id [] = false
matches_device_id (c ∷ cs) =
    is_alnum c && all_codes is_id_char cs && leb 2 (length cs) && leb (length cs) 63

abbrev pub invalid_device_id : String
invalid_device_id =
    "invalid device_id: use 3 to 64 alphanumeric characters plus '.', '_', ':', or '-'"

unfoldable pub validate_device_id : String → Try String
unfolding matches_device_id strip
validate_device_id device_id =
    let normalized = strip device_id in
    if matches_device_id (codes normalized) then ok normalized else security_error invalid_device_id

-- .encode("ascii")
unfoldable pub encode_ascii : String → Try (List ℕ)
unfolding all_codes
encode_ascii s = if all_codes (λ c. ltb c 128) (codes s) then ok (codes s) else crash

pad : ℕ → List ℕ
pad zero = []
pad (suc n) = b'=' ∷ pad n

-- b"=" * (-len(value) % 4)
unfoldable pub padding : List ℕ → List ℕ
unfolding pad
padding value = pad ((4 - length value % 4) % 4)

or_security {ℓ} : {A : Type ℓ} → Option A → String → Try A
or_security none e = security_error e
or_security (some a) e = ok a

-- "\n".join(fields) + "\n"
unfoldable pub lines : List (List ℕ) → List ℕ
lines [] = []
lines (f ∷ fs) = f ++ 10 ∷ lines fs

unfoldable pub canonical_proof_message : String → String → String → String → List ℕ
unfolding lines
canonical_proof_message device_id session_id nonce_b64 csr_digest = lines (
    codes protocol_id
    ∷ codes device_id
    ∷ codes session_id
    ∷ codes nonce_b64
    ∷ lower csr_digest
    ∷ [])

-- re.fullmatch(r"[0-9a-f]{64}", candidate)
unfoldable pub is_hex_digest : List ℕ → Bool
unfolding all_codes
is_hex_digest cs =
    all_codes (λ c. (leb b'0' c && leb c b'9') || (leb b'a' c && leb c b'f')) cs
    && eqb (length cs) 64

module _ (crypto : Crypto) where
  unfoldable pub decode_bootstrap_secret : String → Try (List ℕ)
  unfolding strip encode_ascii padding or_security
  decode_bootstrap_secret secret_b64 = do
    value ← encode_ascii (strip secret_b64)
    decoded ←
        or_security (crypto.urlsafe_b64decode (value ++ padding value))
          "bootstrap secret has invalid base64url encoding"
    if ltb (length decoded) 32
        then security_error "bootstrap secret must contain at least 256 bits"
        else ok decoded

  -- SecretBox.from_master_key
  unfoldable pub from_master_key : String → Try (List ℕ)
  unfolding strip encode_ascii
  from_master_key master_key = do
    raw ← encode_ascii (strip master_key)
    if crypto.fernet_key_valid raw
        then ok raw
        else security_error "BOOTSTRAP_MASTER_KEY is not a valid Fernet key. Run scripts/setup.py."

  -- SecretBox.encrypt
  unfoldable pub encrypt : List ℕ → String → String
  encrypt box plaintext = crypto.fernet_encrypt box plaintext

  -- SecretBox.decrypt
  unfoldable pub decrypt : List ℕ → String → Try String
  unfolding encode_ascii or_security
  decrypt box token = do
    bytes ← encode_ascii token
    or_security (crypto.fernet_decrypt box bytes) "could not decrypt the bootstrap secret"

  unfoldable pub csr_sha256 : Csr → String
  csr_sha256 csr = crypto.sha256_hex csr.der

  unfoldable pub calculate_proof_hex : String → String → String → String → String → Try (List ℕ)
  unfolding decode_bootstrap_secret canonical_proof_message
  calculate_proof_hex secret_b64 device_id session_id nonce_b64 csr_digest = do
    key ← decode_bootstrap_secret secret_b64
    ok (
        crypto.hmac_sha256_hex key
          (canonical_proof_message device_id session_id nonce_b64 csr_digest))

  unfoldable pub verify_proof_hex : String → String → String → String → String → String → Try Bool
  unfolding calculate_proof_hex strip lower_code is_hex_digest same_codes
  verify_proof_hex received_proof secret_b64 device_id session_id nonce_b64 csr_digest = do
    expected ← calculate_proof_hex secret_b64 device_id session_id nonce_b64 csr_digest
    let candidate = lower (strip received_proof)
    if is_hex_digest candidate then ok (same_codes expected candidate) else ok false
