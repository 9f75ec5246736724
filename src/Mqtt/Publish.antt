-- ===== src/Mqtt/Publish.antt =====
-- server/app/mqtt_service.py: `publish_command`, and the connection's callbacks.
use secure_io_t_device_platf.Base.{
  ℕ, String, Bool, true, false, none, some, List, [], ◌∷◌, eqb, ◌&&◌, if◌then◌else◌,
}
use secure_io_t_device_platf.Json.{Json, text, dict, end, field, JsonLib}
use secure_io_t_device_platf.Env.{Context}
use secure_io_t_device_platf.Models.{Server, Command, find_device, find_command, save_command}
use secure_io_t_device_platf.Mqtt.Topic.{device_topic}

-- The client object: whether it exists, its `connected` event, what it subscribed to.
pub record Client : Type 0 where
  pub available : Bool
  pub connected : Bool
  pub subscriptions : List (String × ℕ)

unfoldable pub on_connect : Bool → Client → Client
on_connect is_failure client =
    if is_failure then record client { connected = false } else record client {
      connected = true;
      subscriptions =
          ("devices/+/status", 1) ∷ ("devices/+/telemetry", 1) ∷ ("devices/+/response", 1) ∷ [];
    }

unfoldable pub on_disconnect : Client → Client
on_disconnect client = record client { connected = false }

-- What the broker does with one publish: the return code (0 is success), and whether
-- `wait_for_publish` returns (it returns on its timeout too).
pub record Delivery : Type 0 where
  pub rc : ℕ
  pub acknowledged : Bool

pub data Published : Type 0 where
  published : Command → String → Json → Published
  value_error : String → Published
  runtime_error : String → Published
  integrity_error : Published

unfoldable pub command_payload : JsonLib → String → String → Json → ℕ → Json
command_payload lib command_id command_name parameters issued_at = dict (
    field "command_id" (text command_id) (
      field "command" (text command_name)
        (field "parameters" parameters (field "issued_at" (text (lib.isoformat issued_at)) end))))

unfoldable pub new_command : JsonLib → String → String → String → Json → ℕ → Command
new_command lib command_id device_id command_name parameters issued_at = record {
  command_id = command_id;
  device_id = device_id;
  command_name = command_name;
  parameters_json = lib.dumps parameters;
  status = "pending";
  created_at = issued_at;
  sent_at = none;
  response_at = none;
  response_payload = none;
}

abbrev pub mark_sent : Command → ℕ → Command
mark_sent command sent = record command { status = "sent"; sent_at = some sent }

-- From the committed "pending" row on; `command` is that row.
unfoldable pub send_pending :
    Client → Delivery → Command → String → Json → ℕ → Server → Published × Server
send_pending client delivery command topic payload sent s =
    if client.connected
    then if eqb delivery.rc 0
      then if delivery.acknowledged
        then (
          published (mark_sent command sent) topic payload,
          save_command (mark_sent command sent) s,
        )
        else (
          runtime_error "MQTT publish was not acknowledged",
          save_command (record command { status = "publish-error" }) s,
        )
      else (
        runtime_error "MQTT command publish failed",
        save_command (record command { status = "publish-error" }) s,
      )
    else (
      runtime_error "control service is not connected to the MQTT broker",
      save_command (record command { status = "broker-unavailable" }) s,
    )

unfoldable pub publish_command :
    JsonLib
    → Client
    → Delivery
    → String
    → String
    → String
    → Json
    → ℕ
    → ℕ
    → Server
    → Published × Server
publish_command lib client delivery command_id device_id command_name parameters issued_at sent s =
    if client.available
    then elim (find_device s device_id) [
      | none ↦ (value_error "device not registered", s)
      | some device ↦ elim (find_command s command_id) [
        | some other ↦ (integrity_error, s)
        | none ↦
            let command = new_command lib command_id device_id command_name parameters issued_at in
            send_pending client delivery command (device_topic device_id "command")
              (command_payload lib command_id command_name parameters issued_at) sent
              (save_command command s)
      ]
    ]
    else (runtime_error "MQTT client unavailable", s)

-- A restart request for the broker, so that every client authenticates again. The thread that writes it
-- is done at once here; where the file cannot be written, which it logs, there is no request.
unfoldable pub evict_device : Context → String → Server → Server
evict_device c device_id s =
    if c.settings.mqtt_enabled && c.disk.restart_writable
    then record s { restarts = device_id ∷ s.restarts }
    else s
