-- ===== src/Models.antt =====
-- server/app/models.py, and the state that the server keeps outside its database.
-- A time is the number of microseconds since the Unix epoch, in UTC. Status columns that only the
-- server writes are enumerations; `Command.status` is text, since a device may choose it.
use secure_io_t_device_platf.Base.{
  ℕ, String, Bool, true, false, Option, none, some, List, ◌∷◌, ◌==◌, if◌then◌else◌,
}
use secure_io_t_device_platf.Table

pub data Lifecycle : Type 0 where
  pending provisioned revoked : Lifecycle

pub data Deployment : Type 0 where
  physical simulated : Deployment

pub record Device : Type 0 where
  pub device_id : String
  pub family : String
  pub display_name : Option String
  pub deployment_type : Deployment
  pub bootstrap_secret_encrypted : String
  pub enabled : Bool
  pub lifecycle_status : Lifecycle
  pub allow_reprovisioning : Bool
  pub created_at : ℕ
  pub provisioned_at : Option ℕ
  pub revoked_at : Option ℕ
  pub certificate_serial : Option String
  pub certificate_not_after : Option ℕ
  pub certificate_pem : Option String
  pub online : Bool
  pub last_seen : Option ℕ
  pub firmware_version : Option String
  pub application_state_json : Option String

-- The values that `BootstrapSession.result` takes.
pub data Outcome : Type 0 where
  superseded expired blocked invalid already_provisioned server_error issued : Outcome

pub record BootstrapSession : Type 0 where
  pub session_id : String
  pub device_id : String
  pub nonce_b64 : String
  pub created_at : ℕ
  pub expires_at : ℕ
  pub consumed_at : Option ℕ
  pub result : Option Outcome
  pub csr_sha256 : Option String
  pub source_ip : Option String
  pub attempts : ℕ
  pub last_attempt_at : Option ℕ

pub record MqttEvent : Type 0 where
  pub device_id : String
  pub kind : String
  pub topic : String
  pub payload : String
  pub received_at : ℕ

pub record Command : Type 0 where
  pub command_id : String
  pub device_id : String
  pub command_name : String
  pub parameters_json : String
  pub status : String
  pub created_at : ℕ
  pub sent_at : Option ℕ
  pub response_at : Option ℕ
  pub response_payload : Option String

pub record RevokedCertificate : Type 0 where
  pub serial_hex : String
  pub device_id : String
  pub revoked_at : ℕ
  pub reason : String

-- One entry of a certificate revocation list, as `rebuild_crl` builds it.
pub data ReasonFlag : Type 0 where
  key_compromise superseded cessation_of_operation affiliation_changed unspecified : ReasonFlag

pub record CrlEntry : Type 0 where
  pub serial_number : ℕ
  pub revocation_date : ℕ
  pub reason : ReasonFlag

-- The five tables, the CRL file last written, and the broker restarts that were requested.
pub record Server : Type 0 where
  pub devices : List Device
  pub sessions : List BootstrapSession
  pub events : List MqttEvent
  pub commands : List Command
  pub revoked_certificates : List RevokedCertificate
  pub crl : Option (List CrlEntry)
  pub restarts : List String

abbrev pub device_key : Device → String
device_key d = d.device_id

abbrev pub session_key : BootstrapSession → String
session_key s = s.session_id

abbrev pub command_key : Command → String
command_key c = c.command_id

abbrev pub revoked_key : RevokedCertificate → String
revoked_key r = r.serial_hex

-- db.get(Device, k), and so on for each table
abbrev pub find_device : Server → String → Option Device
find_device s k = Table.find device_key k s.devices

abbrev pub find_session : Server → String → Option BootstrapSession
find_session s k = Table.find session_key k s.sessions

abbrev pub find_command : Server → String → Option Command
find_command s k = Table.find command_key k s.commands

abbrev pub find_revoked : Server → String → Option RevokedCertificate
find_revoked s k = Table.find revoked_key k s.revoked_certificates

-- db.add(row); db.commit()
unfoldable pub save_device : Device → Server → Server
save_device d s = record s { devices = Table.save device_key d s.devices }

unfoldable pub save_session : BootstrapSession → Server → Server
save_session b s = record s { sessions = Table.save session_key b s.sessions }

unfoldable pub save_command : Command → Server → Server
save_command c s = record s { commands = Table.save command_key c s.commands }

unfoldable pub save_revoked : RevokedCertificate → Server → Server
save_revoked r s = record s {
  revoked_certificates = Table.save revoked_key r s.revoked_certificates;
}

unfoldable pub add_event : MqttEvent → Server → Server
add_event e s = record s { events = e ∷ s.events }

-- lifecycle_status == "revoked", lifecycle_status == "provisioned"
abbrev pub is_revoked : Lifecycle → Bool
is_revoked pending = false
is_revoked provisioned = false
is_revoked revoked = true

abbrev pub is_provisioned : Lifecycle → Bool
is_provisioned pending = false
is_provisioned provisioned = true
is_provisioned revoked = false

abbrev pub is_some {ℓ} : {A : Type ℓ} → Option A → Bool
is_some none = false
is_some (some a) = true

-- The truth of an optional text in Python: None and the empty text are false.
abbrev pub present : Option String → Option String
present none = none
present (some s) = if s == "" then none else some s
