-- ===== src/Factory/Serial.antt =====
-- scripts/factory_provision_esp32.py: the serial link, `parse_ready_line`, `wait_for_ready`,
-- `send_factory_data` and the observation of the first bootstrap.
use Prim.Native.String.{◌++◌ as text_append}
use secure_io_t_device_platf.Base.{
  ℕ, String, Bool, true, false, not, ◌||◌, Option, none, some, List, [], ◌∷◌, length, ltb, ◌==◌,
  if◌then◌else◌,
}
use secure_io_t_device_platf.Base.Text.{codes, is_empty, strip, contains, after_prefix}
use secure_io_t_device_platf.Admin.Activity.{text_of}
use secure_io_t_device_platf.Json.{Json, Fields, JsonLib, text, dict, field, end, get}

-- What a controlled `FactoryProvisioningError` reports.
pub data Failure : Type 0 where
  invalid_api_url missing_ca invalid_json unsupported_protocol invalid_device_id : Failure
  invalid_family not_announced wrong_family unreachable invalid_secret : Failure
  already_registered not_confirmed : Failure
  reset_rejected rejected : ℕ → Failure
  device_error : String → Failure
  not_ready : Option String → Failure

-- A value, a controlled error, a SerialException, which `main` reports too, or an exception that it does
-- not expect.
pub data Step {ℓ} (A : Type ℓ) : Type ℓ where
  done : A → Step A
  failed : Failure → Step A
  serial_exception : Step A
  uncaught : Step A

-- One `port.readline()`, decoded: the empty text is its time-out. A list of them holds those before
-- the deadline of the loop that reads.
pub data Read : Type 0 where
  line : String → Read
  unplugged : Read

pub record ReadyIdentity : Type 0 where
  pub device_id : String
  pub family : String

abbrev pub factory_protocol : String
factory_protocol = "FACTORY-SERIAL-V1"

unfoldable pub announced : Fields → Step ReadyIdentity
announced document = elim (text_of (get "protocol" document)) [
  | none ↦ failed unsupported_protocol
  | some protocol ↦
      if not (protocol == factory_protocol)
      then failed unsupported_protocol
      else elim (text_of (get "device_id" document)) [
        | none ↦ failed invalid_device_id
        | some device_id ↦
            if ltb (length (codes device_id)) 3
            then failed invalid_device_id
            else elim (text_of (get "family" document)) [
              | none ↦ failed invalid_family
              | some family ↦
                  if is_empty family
                  then failed invalid_family
                  else done (record { device_id = device_id; family = family })
            ]
      ]
]

-- A document that is not an object has no `get`.
unfoldable pub announcement : Option Json → Step ReadyIdentity
announcement none = failed invalid_json
announcement (some (dict document)) = announced document
announcement (some _) = uncaught

-- none for a line without the prefix
unfoldable pub parse_ready_line : JsonLib → String → Option (Step ReadyIdentity)
parse_ready_line lib s = elim (after_prefix "FACTORY_READY " s) [
  | none ↦ none
  | some document ↦ some (announcement (lib.loads document))
]

unfoldable pub wait_for_ready : JsonLib → List Read → Step ReadyIdentity
wait_for_ready lib [] = failed not_announced
wait_for_ready lib (unplugged ∷ reads) = serial_exception
wait_for_ready lib (line raw ∷ reads) =
    let rest = wait_for_ready lib reads in
    if is_empty (strip raw)
    then rest
    else elim (parse_ready_line lib (strip raw)) [ none ↦ rest | some answer ↦ answer ]

-- The document that is sent to the unit; `json.dumps` without spaces is an argument.
unfoldable pub build_factory_command : (Json → String) → ReadyIdentity → String → String
build_factory_command dumps identity bootstrap_secret = dumps (
    dict (
      field "command" (text "set_identity") (
        field "device_id" (text identity.device_id)
          (field "bootstrap_secret" (text bootstrap_secret) end))))

-- The loop of `send_factory_data` after the command is written.
unfoldable pub await_confirmation : String → List Read → Step (Unit {0})
await_confirmation expected [] = failed not_confirmed
await_confirmation expected (unplugged ∷ reads) = serial_exception
await_confirmation expected (line raw ∷ reads) =
    let rest = await_confirmation expected reads in
    if is_empty (strip raw)
    then rest
    else if strip raw == text_append "FACTORY_OK " expected
    then done tt
    else elim (after_prefix "FACTORY_ERROR " (strip raw)) [
      | none ↦ rest
      | some message ↦ failed (device_error message)
    ]

unfoldable pub says : String → String → Bool
says part s = contains (codes part) (codes s)

-- The hint of the last telling line, and the one before it otherwise.
unfoldable pub hint_of : Option String → String → Option String
hint_of hint s =
    if says "NO_AP_FOUND" s
    then some "Wi-Fi network not found (NO_AP_FOUND). Verify SSID and use a 2.4 GHz network."
    else if says "[WIFI] Connection failed" s
    then some "Wi-Fi connection failed. Verify SSID/password and 2.4 GHz coverage."
    else if says "[TIME] Local-time service failed" s || says "[TIME] Could not initialize" s
    then some
        "Signed local-time service is unreachable; verify TCP 8091 and that the PC/device share the IoT Wi-Fi."
    else if says "[TIME] Invalid" s
        || says "[TIME] Signed local-time response failed" s
        || says "signed-local-time" s
    then some
        "Signed local-time verification failed; check the installation time public key and rebuild cache."
    else if says "[BOOTSTRAP] Challenge rejected" s
    then some "The bootstrap challenge was rejected by the API."
    else if says "[BOOTSTRAP] Enrollment rejected" s
    then some "X.509 enrollment was rejected by the API."
    else if says "[MQTT] Connection rejected" s || says "[MQTT] TLS error" s
    then some "MQTT/mTLS connection was rejected. Check broker certificate, CRL, and ACL state."
    else if says "[FATAL]" s
    then some s
    else hint

-- Whether the unit reported its MQTT connection, and the hint for the report otherwise.
unfoldable pub observe : Option String → List Read → Step (Bool × Option String)
observe hint [] = done (false, hint)
observe hint (unplugged ∷ reads) = serial_exception
observe hint (line raw ∷ reads) =
    let rest = observe (hint_of hint (strip raw)) reads in
    let unheard = observe hint reads in
    if is_empty raw
    then unheard
    else if says "[MQTT] Connected." (strip raw) || says "[MQTT] Connected. Subscribed" (strip raw)
    then done (true, hint)
    else rest
