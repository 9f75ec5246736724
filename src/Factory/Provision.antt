-- ===== src/Factory/Provision.antt =====
-- scripts/factory_provision_esp32.py: `register_or_reset_device` and `provision_device`, against the
-- handlers of the server. What becomes of each request on its way is an argument.
use Prim.Native.String.{◌++◌ as text_append}
use secure_io_t_device_platf.Base.{
  ℕ, String, Bool, true, false, not, ◌||◌, Option, none, some, List, length, ltb, eqb, ◌==◌,
  if◌then◌else◌,
}
use secure_io_t_device_platf.Base.Text.{codes, is_empty}
use secure_io_t_device_platf.Env.{Context, ok, security_error, crash}
use secure_io_t_device_platf.Json.{Json, JsonLib}
use secure_io_t_device_platf.Models.{Server}
use secure_io_t_device_platf.Security.{encode_ascii}
use secure_io_t_device_platf.Admin.{DeviceCreate, DeviceCreated, create_device, reset_device}
use secure_io_t_device_platf.Simulator.Http.{
  Http, Link, body, http_status, no_connection, http_json,
}
use secure_io_t_device_platf.Factory.Serial.{
  invalid_api_url, missing_ca, wrong_family, unreachable, invalid_secret, already_registered,
  reset_rejected, rejected, not_ready, Step, done, failed, serial_exception, uncaught, Read,
  ReadyIdentity, wait_for_ready, build_factory_command, await_confirmation, observe,
}

-- urllib.parse.urlsplit of the API's address
pub record Url : Type 0 where
  pub scheme : String
  pub hostname : Option String
  pub path : String
  pub query : String
  pub fragment : String

unfoldable pub validate_api_url : Url → Step (Unit {0})
validate_api_url url = elim url.hostname [
  | none ↦ failed invalid_api_url
  | some hostname ↦
      if not (url.scheme == "https") || is_empty hostname
      then failed invalid_api_url
      else if not (is_empty url.path || url.path == "/")
          || not (is_empty url.query)
          || not (is_empty url.fragment)
      then failed invalid_api_url
      else done tt
]

-- The CA file, as `make_ssl_context` finds it.
pub data CaFile : Type 0 where
  absent unreadable loaded : CaFile

unfoldable pub make_ssl_context : CaFile → Step (Unit {0})
make_ssl_context absent = failed missing_ca
make_ssl_context unreadable = uncaught
make_ssl_context loaded = done tt

-- The two requests of one run: their fates, the server's surroundings, taken to be the same for both,
-- and its draws.
pub record Api : Type 0 where
  pub register_link : Link
  pub reset_link : Link
  pub context : Context
  pub secret : String
  pub rotated_secret : String

-- The options of one run, without those that only the links and readings depend on.
pub record Options : Type 0 where
  pub api_url : Url
  pub ca_file : CaFile
  pub display_name : Option String
  pub reset_existing : Bool
  pub expected_family : Option String
  pub observes : Bool
  pub require_operational_ready : Bool

unfoldable pub registration_payload : ReadyIdentity → Option String → DeviceCreate
registration_payload identity display_name = record {
  device_id = identity.device_id;
  family = identity.family;
  display_name = display_name;
  deployment_type = "physical";
  allow_reprovisioning = false;
}

unfoldable pub checked_secret : String → Step String
checked_secret secret =
    if ltb (length (codes secret)) 40 then failed invalid_secret else done secret

-- The reset's reply. A status without a body is that of an `HTTPError`.
unfoldable pub replaced_secret : Http DeviceCreated → Step String
replaced_secret (body created) = checked_secret created.bootstrap_secret
replaced_secret (http_status status) = failed (reset_rejected status)
replaced_secret no_connection = failed unreachable

unfoldable pub register_or_reset_device :
    Api → ReadyIdentity → Option String → Bool → Server → Step String × Server
register_or_reset_device api identity display_name reset_existing s =
    let (reply, s') =
      http_json api.register_link
        (create_device api.context s (registration_payload identity display_name) api.secret) s in
    let (again, s'') =
      http_json api.reset_link (reset_device api.context identity.device_id api.rotated_secret)
        s' in
    elim reply [
      | body created ↦ (checked_secret created.bootstrap_secret, s')
      | no_connection ↦ (failed unreachable, s')
      | http_status status ↦
          if eqb status 409
          then if reset_existing
            then (replaced_secret again, s'')
            else (failed already_registered, s')
          else (failed (rejected status), s')
    ]

-- The serial port of one run: whether it opens and can be written, and what each of the three loops
-- reads before its deadline.
pub record Port : Type 0 where
  pub opens : Bool
  pub writes : Bool
  pub at_start : List Read
  pub after_command : List Read
  pub afterwards : List Read

-- The server, and the bytes that were handed to `port.write`.
pub record Factory : Type 0 where
  pub server : Server
  pub sent : Option (List ℕ)

unfoldable pub send_factory_data : Port → String → String → Factory → Step (Unit {0}) × Factory
send_factory_data port factory_command expected_device_id f =
    elim (encode_ascii (text_append factory_command "\n")) [
      | ok command ↦ (
        if port.writes
            then await_confirmation expected_device_id port.after_command
            else serial_exception,
        record f { sent = some command },
      )
      | security_error e ↦ (uncaught, f)
      | crash ↦ (uncaught, f)
    ]

-- The report at the end of a run.
unfoldable pub conclude : Options → ReadyIdentity → Step (Bool × Option String) → Step ReadyIdentity
conclude o identity (done (true, hint)) = done identity
conclude o identity (done (false, hint)) =
    if o.require_operational_ready then failed (not_ready hint) else done identity
conclude o identity (failed e) = failed e
conclude o identity serial_exception = serial_exception
conclude o identity uncaught = uncaught

-- The end of `provision_device`, from the unit's confirmation on.
unfoldable pub observe_bootstrap :
    Options → Port → ReadyIdentity → Step (Unit {0}) × Factory → Step ReadyIdentity × Factory
observe_bootstrap o port identity (done u, f) = (
  conclude o identity (if o.observes then observe none port.afterwards else done (false, none)),
  f,
)
observe_bootstrap o port identity (failed e, f) = (failed e, f)
observe_bootstrap o port identity (serial_exception, f) = (serial_exception, f)
observe_bootstrap o port identity (uncaught, f) = (uncaught, f)

unfoldable pub is_expected : Option String → ReadyIdentity → Bool
is_expected none identity = true
is_expected (some family) identity = identity.family == family

module _ (lib : JsonLib) (dumps : Json → String) (o : Options) (port : Port) (api : Api) where
  -- What follows the secret's arrival.
  unfoldable pub inject :
      ReadyIdentity → Step String × Server → Factory → Step ReadyIdentity × Factory
  inject identity (done secret, s) f = observe_bootstrap o port identity (
      send_factory_data port (build_factory_command dumps identity secret) identity.device_id
        (record f { server = s }))
  inject identity (failed e, s) f = (failed e, record f { server = s })
  inject identity (serial_exception, s) f = (serial_exception, record f { server = s })
  inject identity (uncaught, s) f = (uncaught, record f { server = s })

  unfoldable pub on_ready : Step ReadyIdentity → Factory → Step ReadyIdentity × Factory
  on_ready (done identity) f =
      if is_expected o.expected_family identity
      then inject identity
          (register_or_reset_device api identity o.display_name o.reset_existing f.server) f
      else (failed wrong_family, f)
  on_ready (failed e) f = (failed e, f)
  on_ready serial_exception f = (serial_exception, f)
  on_ready uncaught f = (uncaught, f)

  -- The checks before the port is opened.
  unfoldable pub preconditions : Step (Unit {0})
  preconditions = elim (validate_api_url o.api_url) [
    | done u ↦ make_ssl_context o.ca_file
    | failed e ↦ failed e
    | serial_exception ↦ serial_exception
    | uncaught ↦ uncaught
  ]

  unfoldable pub provision_device : Factory → Step ReadyIdentity × Factory
  provision_device f = elim preconditions [
    | done u ↦
        if port.opens then on_ready (wait_for_ready lib port.at_start) f else (serial_exception, f)
    | failed e ↦ (failed e, f)
    | serial_exception ↦ (serial_exception, f)
    | uncaught ↦ (uncaught, f)
  ]
