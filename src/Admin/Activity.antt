-- ===== src/Admin/Activity.antt =====
-- server/app/routers/admin.py: the read-only views of one device. Rows with equal times keep their
-- order in the table.
use secure_io_t_device_platf.Base.{
  ℕ, String, Bool, not, ◌&&◌, Option, none, some, List, [], ◌∷◌, ◌++◌, map, take, leb, ◌==◌,
  if◌then◌else◌,
}
use secure_io_t_device_platf.Base.Text.{truncate}
use secure_io_t_device_platf.Table
use secure_io_t_device_platf.Table.{select}
use secure_io_t_device_platf.Env.{Reply, response, http_error}
use secure_io_t_device_platf.Json.{Json, text, dict, field, end, Fields, get, JsonLib}
use secure_io_t_device_platf.Models.{
  Server, Command, MqttEvent, Lifecycle, Deployment, command_key, find_device, find_command,
  present, is_some,
}

pub record RuntimeState : Type 0 where
  pub device_id : String
  pub family : String
  pub deployment_type : Deployment
  pub online : Bool
  pub lifecycle_status : Lifecycle
  pub last_seen : Option ℕ
  pub firmware_version : Option String
  pub latest_state : Option Json

-- json.loads(application_state_json), or {"raw": application_state_json}
unfoldable pub latest_state : JsonLib → Option String → Option Json
latest_state lib stored = elim (present stored) [
  | none ↦ none
  | some raw ↦ elim (lib.loads raw) [
    | some value ↦ some value
    | none ↦ some (dict (field "raw" (text raw) end))
  ]
]

unfoldable pub get_device_state : JsonLib → String → Server → Reply RuntimeState
get_device_state lib device_id s = elim (find_device s device_id) [
  | none ↦ http_error 404 "device not found"
  | some device ↦ response (record {
    device_id = device.device_id;
    family = device.family;
    deployment_type = device.deployment_type;
    online = device.online;
    lifecycle_status = device.lifecycle_status;
    last_seen = device.last_seen;
    firmware_version = device.firmware_version;
    latest_state = latest_state lib device.application_state_json;
  })
]

pub data Direction : Type 0 where
  tx rx : Direction

pub record Activity : Type 0 where
  pub direction : Direction
  pub command_id : Option String
  pub command_name : String
  pub status : String
  pub timestamp : ℕ
  pub details : String

-- A stable sort, latest first: .order_by(desc(time)), and list.sort(key=time, reverse=True)
unfoldable pub insert_latest : {A : Type 0} → (A → ℕ) → A → List A → List A
insert_latest time r [] = r ∷ []
insert_latest time r (q ∷ rows) =
    let rest = insert_latest time r rows in if leb (time q) (time r) then r ∷ q ∷ rows else q ∷ rest

unfoldable pub latest_first : {A : Type 0} → (A → ℕ) → List A → List A
latest_first time [] = []
latest_first time (r ∷ rows) = insert_latest time r (latest_first time rows)

-- command.sent_at or command.created_at
abbrev pub or_time : Option ℕ → ℕ → ℕ
or_time none t = t
or_time (some sent) t = sent

unfoldable pub sent_activity : Command → Activity
sent_activity command = record {
  direction = tx;
  command_id = some command.command_id;
  command_name = command.command_name;
  status = if is_some command.sent_at then "sent" else command.status;
  timestamp = or_time command.sent_at command.created_at;
  details = truncate 2048 command.parameters_json;
}

-- The row that `db.get` finds for a response that names no recent command, if the device owns it.
unfoldable pub owned_name : Server → String → String → String → String
owned_name s device_id id name = elim (find_command s id) [
  | none ↦ name
  | some matched ↦ if matched.device_id == device_id then matched.command_name else name
]

unfoldable pub name_by_id : Server → String → List Command → Option Json → String
name_by_id s device_id commands (some (text id)) = elim (Table.find command_key id commands) [
  | none ↦ owned_name s device_id id "response"
  | some command ↦
      if command.command_name == "response"
      then owned_name s device_id id "response"
      else command.command_name
]
name_by_id s device_id commands _ = "response"

unfoldable pub name_by_payload : String → Option Json → String
name_by_payload name (some (text raw)) =
    if name == "response" && not (raw == "") then truncate 64 raw else name
name_by_payload name _ = name

unfoldable pub status_by_payload : Option Json → String
status_by_payload (some (text raw)) = if raw == "" then "received" else truncate 24 raw
status_by_payload _ = "received"

abbrev pub text_of : Option Json → Option String
text_of (some (text raw)) = some raw
text_of _ = none

abbrev pub fields_of : Option Json → Fields
fields_of (some (dict fields)) = fields
fields_of _ = end

unfoldable pub response_activity : JsonLib → Server → String → List Command → MqttEvent → Activity
response_activity lib s device_id commands event =
    let fields = fields_of (lib.loads event.payload) in
    record {
      direction = rx;
      command_id = text_of (get "command_id" fields);
      command_name =
          name_by_payload (name_by_id s device_id commands (get "command_id" fields))
            (get "command" fields);
      status = status_by_payload (get "status" fields);
      timestamp = event.received_at;
      details = truncate 2048 event.payload;
    }

unfoldable pub recent_commands : String → Server → List Command
recent_commands device_id s =
    take 30 (latest_first (λ q. q.created_at) (select (λ q. q.device_id == device_id) s.commands))

unfoldable pub recent_responses : String → Server → List MqttEvent
recent_responses device_id s = take 30 (
    latest_first (λ e. e.received_at)
      (select (λ e. e.device_id == device_id && e.kind == "response") s.events))

unfoldable pub recent_command_activity : JsonLib → String → Server → Reply (List Activity)
recent_command_activity lib device_id s = elim (find_device s device_id) [
  | none ↦ http_error 404 "device not found"
  | some device ↦
      let commands = recent_commands device_id s in
      response (
        take 50 (
          latest_first (λ a. a.timestamp)
            (map sent_activity commands
              ++ map (response_activity lib s device_id commands) (recent_responses device_id s))))
]
