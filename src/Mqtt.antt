-- ===== src/Mqtt.antt =====
-- server/app/mqtt_service.py: the topics and the messages that devices send.
pub mod Topic
pub mod Publish
pub mod Stale
pub mod Frame
pub mod Accepted
pub mod Routing
pub mod Isolation
pub mod Delivered
pub mod Sweep
use secure_io_t_device_platf.Base.{
  ℕ, String, Bool, true, false, not, ◌&&◌, ◌||◌, Option, none, some, List, [], ◌∷◌, ◌==◌,
  if◌then◌else◌,
}
use secure_io_t_device_platf.Base.Text.{truncate}
use secure_io_t_device_platf.Json.{
  Json, null, bool, int, float, text, list, dict, Items, Fields, end, field, get, or_default, truth,
  is_container, JsonLib,
}
use secure_io_t_device_platf.Models.{
  Server, Device, MqttEvent, Command, find_device, find_command, save_device, save_command,
  add_event, is_revoked, is_some,
}
use Topic.{split}

-- kind in {"status", "telemetry", "response"}
unfoldable pub is_kind : String → Bool
is_kind kind = kind == "status" || kind == "telemetry" || kind == "response"

abbrev pub max_payload : ℕ
max_payload = 262144

unfoldable pub event_of : String → String → String → String → ℕ → MqttEvent
event_of device_id kind topic payload_text now = record {
  device_id = device_id;
  kind = kind;
  topic = topic;
  payload = truncate max_payload payload_text;
  received_at = now;
}

-- online_value if isinstance(online_value, bool) else True
unfoldable pub online_value : Json → Bool
online_value (bool b) = b
online_value _ = true

-- payload_obj.get("firmware") or payload_obj.get("firmware_version")
unfoldable pub firmware_value : Fields → Json
firmware_value fields =
    let first = or_default (get "firmware" fields) null in
    if truth first then first else or_default (get "firmware_version" fields) null

-- if isinstance(firmware, str): device.firmware_version = firmware[:64]
unfoldable pub set_firmware : Json → Device → Device
set_firmware (text firmware) d = record d { firmware_version = some (truncate 64 firmware) }
set_firmware _ d = d

-- What a message sets on the device row of an accepted sender, before the application state.
unfoldable pub set_online : String → Json → Device → Device
set_online kind (dict fields) d =
    if kind == "status"
    then set_firmware (firmware_value fields)
        (record d { online = online_value (or_default (get "online" fields) (bool true)) })
    else record d { online = true }
set_online kind _ d = record d { online = true }

unfoldable pub set_application_state : JsonLib → String → Json → Device → Device
set_application_state lib kind payload d =
    if kind == "telemetry" && is_container payload
    then record d { application_state_json = some (lib.dumps payload) }
    else if kind == "status" && not (is_some d.application_state_json) && is_container payload
    then record d { application_state_json = some (lib.dumps payload) }
    else d

-- The command row that a response answers, if it is the sender's own.
unfoldable pub answered : String → Option Json → Server → Option Command
answered device_id (some (text command_id)) s = elim (find_command s command_id) [
  | none ↦ none
  | some command ↦ if command.device_id == device_id then some command else none
]
answered device_id _ s = none

unfoldable pub completed : JsonLib → Fields → String → ℕ → Command → Command
completed lib fields payload_text now command = record command {
  status = truncate 24 (lib.str (or_default (get "status" fields) (text "completed")));
  response_at = some now;
  response_payload = some (truncate max_payload payload_text);
}

unfoldable pub complete_command : JsonLib → String → String → Json → String → ℕ → Server → Server
complete_command lib device_id kind (dict fields) payload_text now s =
    if kind == "response"
    then elim (answered device_id (get "command_id" fields) s) [
      | none ↦ s
      | some command ↦ save_command (completed lib fields payload_text now command) s
    ]
    else s
complete_command lib device_id kind _ payload_text now s = s

unfoldable pub accepted : JsonLib → String → Json → ℕ → Device → Device
accepted lib kind payload now d =
    set_application_state lib kind payload
      (set_online kind payload (record d { last_seen = some now }))

-- `_store_event`, once the sender's row is found
unfoldable pub store_for :
    JsonLib → Device → String → String → String → String → Json → ℕ → Server → Server
store_for lib device device_id kind topic payload_text payload now s =
    let event = event_of device_id kind topic payload_text now in
    if is_revoked device.lifecycle_status || not device.enabled
    then add_event event (save_device (record device { online = false }) s)
    else complete_command lib device_id kind payload payload_text now
        (add_event event (save_device (accepted lib kind payload now device) s))

unfoldable pub store_event :
    JsonLib → String → String → String → String → Json → ℕ → Server → Server
store_event lib device_id kind topic payload_text payload now s = elim (find_device s device_id) [
  | none ↦ s
  | some device ↦ store_for lib device device_id kind topic payload_text payload now s
]

-- The payload object: the parsed JSON, or {"raw": payload_text}.
unfoldable pub payload_object : JsonLib → String → Json
payload_object lib payload_text = elim (lib.loads payload_text) [
  | some value ↦ value
  | none ↦ dict (field "raw" (text payload_text) end)
]

-- parts = topic.split("/"), and the two tests on it
unfoldable pub routed : List String → Option (String × String)
routed (root ∷ device_id ∷ kind ∷ []) =
    if root == "devices" && is_kind kind then some (device_id, kind) else none
routed _ = none

unfoldable pub on_message : JsonLib → String → String → ℕ → Server → Server
on_message lib topic payload_text now s = elim (routed (split topic)) [
  | none ↦ s
  | some (device_id, kind) ↦
      store_event lib device_id kind topic payload_text (payload_object lib payload_text) now s
]
