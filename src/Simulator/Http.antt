-- ===== src/Simulator/Http.antt =====
-- simulators/simulated_device.py: what the client sends and proves, `http_json` and `calculate_proof`.
-- What happens to a request on its way is an argument.
use secure_io_t_device_platf.Base.{
  ℕ, String, Option, none, some, List, [], ◌∷◌, ◌++◌, length, ltb, if◌then◌else◌,
}
use secure_io_t_device_platf.Base.Text.{codes, strip, lower}
use secure_io_t_device_platf.Env.{
  Crypto, Reply, response, http_error, uncaught, ok, security_error, crash,
}
use secure_io_t_device_platf.Models.{Server}
use secure_io_t_device_platf.Security.{protocol_id, encode_ascii, padding}

-- What the client reads of a PEM certificate: its common names, and its public key as DER bytes.
pub record ParsedCertificate : Type 0 where
  pub common_names : List String
  pub public_bytes : List ℕ

-- Third-party code on the client: `hmac.new(...).hexdigest()` and `x509.load_pem_x509_certificate`.
pub record ClientLib : Type 0 where
  pub hexdigest : List ℕ → List ℕ → String
  pub load_certificate : String → Option ParsedCertificate

-- A request is delivered and answered; or it is lost before the server, or its answer is; or something
-- on the way, such as the authentication, answers with an HTTP status.
pub data Link : Type 0 where
  delivered lost unanswered : Link
  answered_by : ℕ → Link

pub data Http (A : Type 0) : Type 0 where
  body : A → Http A
  http_status : ℕ → Http A
  no_connection : Http A

unfoldable pub http_of : {A : Type 0} → Reply A → Http A
http_of (response a) = body a
http_of (http_error status detail) = http_status status
http_of uncaught = http_status 500

unfoldable pub http_json :
    {A : Type 0} → Link → (Server → Reply A × Server) → Server → Http A × Server
unfolding http_of
http_json delivered handler s = (http_of (handler s).0, (handler s).1)
http_json lost handler s = (no_connection, s)
http_json unanswered handler s = (no_connection, (handler s).1)
http_json (answered_by status) handler s = (http_status status, s)

-- "\n".join(fields)
unfoldable pub join_lines : List (List ℕ) → List ℕ
join_lines [] = []
join_lines (f ∷ []) = f
join_lines (f ∷ g ∷ fs) = f ++ 10 ∷ join_lines (g ∷ fs)

unfoldable pub proof_message : String → String → String → String → List ℕ
unfolding join_lines
proof_message device_id session_id nonce csr_sha256 =
    join_lines
      (codes protocol_id ∷ codes device_id ∷ codes session_id ∷ codes nonce ∷ lower csr_sha256 ∷ [])
    ++ 10 ∷ []

unfoldable pub decode_secret : Crypto → String → Option (List ℕ)
decode_secret crypto secret_b64 = elim (encode_ascii (strip secret_b64)) [
  | ok encoded ↦ elim (crypto.urlsafe_b64decode (encoded ++ padding encoded)) [
    | none ↦ none
    | some secret ↦ if ltb (length secret) 32 then none else some secret
  ]
  | security_error e ↦ none
  | crash ↦ none
]

unfoldable pub calculate_proof :
    Crypto → ClientLib → String → String → String → String → String → Option String
calculate_proof crypto lib secret_b64 device_id session_id nonce csr_sha256 =
    elim (decode_secret crypto secret_b64) [
      | none ↦ none
      | some secret ↦
          some (lib.hexdigest secret (proof_message device_id session_id nonce csr_sha256))
    ]
