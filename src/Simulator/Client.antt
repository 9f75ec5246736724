-- ===== src/Simulator/Client.antt =====
-- simulators/simulated_device.py: the bootstrap of a simulated device. The client talks to the handlers
-- of the server; what happens to each request on its way is an argument, and so is the moment at which
-- the writing of the credentials is interrupted. none stands for an exception, which ends `main`.
use Prim.Native.String.{◌++◌ as text_append}
use secure_io_t_device_platf.Base.{
  leb, ℕ, String, Bool, false, not, ◌&&◌, ◌||◌, Option, none, some, List, [], ◌∷◌, eqb, ◌==◌,
  if◌then◌else◌,
}
use secure_io_t_device_platf.Base.Text.{same_codes, is_empty}
use secure_io_t_device_platf.Env.{Context, Crypto}
use secure_io_t_device_platf.Models.{Server, is_some}
use secure_io_t_device_platf.Provisioning.Challenge.{Challenge, create_challenge}
use secure_io_t_device_platf.Provisioning.Finish.{EnrollmentRequest, Enrollment}
use secure_io_t_device_platf.Provisioning.Enroll.{enroll_device}
use secure_io_t_device_platf.Admin.{DeviceCreate, create_device, reset_device}
use secure_io_t_device_platf.Simulator.Http.{
  ClientLib, Http, Link, body, calculate_proof, http_json, http_status, no_connection,
}

-- The files of a device; of factory.json the secret, of device.key the public half.
pub record Files : Type 0 where
  pub factory : Option String
  pub key : Option (List ℕ)
  pub certificate : Option String
  pub ca : Option String
  pub provisioning : Option Enrollment

unfoldable pub credentials_available : Files → Bool
credentials_available f =
    is_some f.key && is_some f.certificate && is_some f.ca && is_some f.provisioning

pub record World : Type 0 where
  pub files : Files
  pub server : Server

-- The command line.
pub record Args : Type 0 where
  pub device_id : String
  pub family : String
  pub bootstrap_secret : Option String
  pub auto_register : Bool
  pub admin_username : Option String
  pub admin_password : Option String

-- bool(value) of an optional text
unfoldable pub given : Option String → Bool
given none = false
given (some s) = not (is_empty s)

-- One run of the client: the links, the server's surroundings and draws for each request, the new key
-- with its CSR, and how many of the four files are written before an interruption.
pub record Attempt : Type 0 where
  pub register_link : Link
  pub reset_link : Link
  pub challenge_link : Link
  pub enroll_link : Link
  pub register_context : Context
  pub challenge_context : Context
  pub enroll_context : Context
  pub secret : String
  pub rotated_secret : String
  pub session_id : String
  pub nonce : String
  pub source_ip : Option String
  pub serial : ℕ
  pub key : List ℕ
  pub csr_pem : String
  pub csr_der : List ℕ
  pub written : ℕ

unfoldable pub write_factory : String → World → Option String × World
write_factory secret w =
    (some secret, record w { files = record w.files { factory = some secret } })

unfoldable pub registration : Args → DeviceCreate
registration args = record {
  device_id = args.device_id;
  family = args.family;
  display_name =
      some (text_append "[SIM] " (text_append args.family (text_append " " args.device_id)));
  deployment_type = "simulated";
  allow_reprovisioning = false;
}

-- The secret of a registration, or of a reset where the device is registered already.
unfoldable pub register : Args → Attempt → World → Option String × World
register args a w =
    let (reply, s) =
      http_json a.register_link
        (create_device a.register_context w.server (registration args) a.secret) w.server in
    let (again, s') =
      http_json a.reset_link (reset_device a.register_context args.device_id a.rotated_secret) s in
    elim reply [
      | body created ↦ write_factory created.bootstrap_secret (record w { server = s })
      | no_connection ↦ (none, record w { server = s })
      | http_status status ↦
          if eqb status 409
          then elim again [
            | body created ↦ write_factory created.bootstrap_secret (record w { server = s' })
            | http_status status' ↦ (none, record w { server = s' })
            | no_connection ↦ (none, record w { server = s' })
          ]
          else (none, record w { server = s })
    ]

-- The outer none is an exception, the inner one the `None` of a device that has its credentials.
unfoldable pub ensure_factory_identity : Args → Attempt → World → Option (Option String) × World
ensure_factory_identity args a w =
    let (secret, registered) = register args a w in
    if credentials_available w.files
    then (some none, w)
    else if given args.bootstrap_secret
    then (some args.bootstrap_secret, w)
    else if is_some w.files.factory
    then (some w.files.factory, w)
    else if not args.auto_register
    then (none, w)
    else if not (given args.admin_username) || not (given args.admin_password)
    then (none, w)
    else elim secret [ none ↦ (none, registered) | some s ↦ (some (some s), registered) ]

abbrev pub only_name : List String → String → Bool
only_name (name ∷ []) device_id = name == device_id
only_name _ device_id = false

-- Whether it returns; a missing file, which raises as well, does not occur after `credentials_available`.
unfoldable pub validate_local_credentials : ClientLib → String → Files → Bool
validate_local_credentials lib device_id f = elim f.certificate [
  | none ↦ false
  | some pem ↦ elim (lib.load_certificate pem) [
    | none ↦ false
    | some certificate ↦ elim f.key [
      | none ↦ false
      | some key ↦
          only_name certificate.common_names device_id && same_codes certificate.public_bytes key
    ]
  ]
]

-- The first files of the four, in the order of their writing.
unfoldable pub store_credentials : ℕ → List ℕ → Enrollment → Files → Files
store_credentials written key enrollment f = record f {
  key = if leb 1 written then some key else f.key;
  certificate = if leb 2 written then some enrollment.certificate_pem else f.certificate;
  ca = if leb 3 written then some enrollment.ca_certificate_pem else f.ca;
  provisioning = if leb 4 written then some enrollment else f.provisioning;
}

-- Without a body `http_json` raises.
unfoldable pub on_body :
    {A B : Type 0} → Http A → (A → World → Option B × World) → World → Option B × World
on_body (body x) go w = go x w
on_body (http_status status) go w = (none, w)
on_body no_connection go w = (none, w)

module _ (crypto : Crypto) (lib : ClientLib) (args : Args) (a : Attempt) where
  unfoldable pub finish_provision : Enrollment → World → Option Enrollment × World
  finish_provision enrollment w = elim (lib.load_certificate enrollment.certificate_pem) [
    | none ↦ (none, w)
    | some issued ↦
        if same_codes issued.public_bytes a.key
        then (
          if leb 4 a.written then some enrollment else none,
          record w { files = store_credentials a.written a.key enrollment w.files },
        )
        else (none, w)
  ]

  unfoldable pub enrollment_request : Challenge → String → EnrollmentRequest
  enrollment_request challenge proof = record {
    device_id = args.device_id;
    session_id = challenge.session_id;
    csr_pem = a.csr_pem;
    proof = proof;
  }

  unfoldable pub answer_challenge : String → Challenge → World → Option Enrollment × World
  answer_challenge secret challenge w =
      elim (calculate_proof crypto lib secret args.device_id challenge.session_id challenge.nonce
        (crypto.sha256_hex a.csr_der)) [
          | none ↦ (none, w)
          | some proof ↦
              let (reply, s) =
                http_json a.enroll_link
                  (enroll_device a.enroll_context a.serial (enrollment_request challenge proof))
                  w.server in
              on_body reply finish_provision (record w { server = s })
        ]

  unfoldable pub bootstrap : String → World → Option Enrollment × World
  bootstrap secret w =
      let (reply, s) =
        http_json a.challenge_link
          (create_challenge a.challenge_context args.device_id a.session_id a.nonce a.source_ip)
          w.server in
      on_body reply (answer_challenge secret) (record w { server = s })

  -- The configuration that `run` goes on with.
  unfoldable pub provision_if_needed : World → Option Enrollment × World
  provision_if_needed w =
      let (identity, known) = ensure_factory_identity args a w in
      if credentials_available w.files
      then (
        if validate_local_credentials lib args.device_id w.files
            then w.files.provisioning
            else none,
        w,
      )
      else elim identity [
        | none ↦ (none, known)
        | some none ↦ (none, known)
        | some (some secret) ↦ if is_empty secret then (none, known) else bootstrap secret known
      ]
