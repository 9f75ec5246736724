-- ===== src/Examples/Traffic.antt =====
-- Tests: messages, commands and the stale monitor.
use secure_io_t_device_platf.Base.{
  ◌≡◌, refl, String, true, false, not, ◌||◌, some, none, [], ◌∷◌, ◌==◌, if◌then◌else◌,
}
use secure_io_t_device_platf.Base.Text.{strip, lstrip, rstrip, is_space}
use secure_io_t_device_platf.Table.{find}
use secure_io_t_device_platf.Json.{Json, text, bool, dict, field, end}
use secure_io_t_device_platf.Models.{
  Server, Device, Command, revoked, find_device, find_command, is_revoked,
}
use secure_io_t_device_platf.Security.{validate_device_id, matches_device_id, is_id_char, all_codes}
use secure_io_t_device_platf.Mqtt.{on_message, store_event, payload_object, is_kind}
use secure_io_t_device_platf.Mqtt.Topic.{device_topic}
use secure_io_t_device_platf.Mqtt.Publish.{Client, Delivery, publish_command, new_command}
use secure_io_t_device_platf.Mqtt.Accepted.{SameCredentials}
use secure_io_t_device_platf.Mqtt.Routing.{on_message-device_topic}
use secure_io_t_device_platf.Mqtt.Isolation.{store_event-sender}
use secure_io_t_device_platf.Mqtt.Delivered.{
  is_published, final_status, delivered, publish_command_recorded,
}
use secure_io_t_device_platf.Examples.{json, sensor, server}

abbrev pump : Device
pump = record sensor { device_id = "pump"; lifecycle_status = revoked }

abbrev pump_command : Command
pump_command = new_command json "start" "pump" "run" (text "now") 70

abbrev plant : Server
plant = record server { devices = sensor ∷ pump ∷ []; commands = pump_command ∷ [] }

-- A status, and a response that names a command of another device.
abbrev status : Json
status = dict (field "online" (bool true) end)

on_message-device_topic_example :
    on_message json (device_topic "sensor" "status") "{}" 80 plant
    ≡ store_event json "sensor" "status"
        (device_topic "sensor" "status")
        "{}"
        (payload_object json "{}")
        80
        plant
unfolding validate_device_id matches_device_id is_id_char all_codes strip lstrip rstrip is_space
    is_kind
on_message-device_topic_example =
    on_message-device_topic json "sensor" "sensor" "status" "{}" 80 plant refl refl

store_event-sender_example :
    (d' : Device) × (find_device
        (store_event json "pump" "status" "topic" "{}" status 80 plant)
        "pump"
      ≡ some d')
    × SameCredentials pump d'
    × ((is_revoked pump.lifecycle_status || not pump.enabled) ≡ true → d'.online ≡ false)
unfolding find
store_event-sender_example =
    store_event-sender json "pump" "status" "topic" "{}" status 80 plant pump refl

abbrev client : Client
client = record { available = true; connected = true; subscriptions = [] }

abbrev delivery : Delivery
delivery = record { rc = 0; acknowledged = true }

publish_command_recorded_example :
    (row : Command) × (find_command
        (publish_command json client delivery "stop" "sensor" "halt" status 90 91 plant).1
        "stop"
      ≡ some row)
    × (row.device_id ≡ "sensor")
    × (row.status ≡ final_status client delivery)
    × (row.sent_at ≡ (if delivered client delivery then some 91 else none))
    × (is_published
          (publish_command json client delivery "stop" "sensor" "halt" status 90 91 plant).0
        ≡ delivered client delivery)
    × ((k : String)
        → ("stop" == k) ≡ false
        → find_command
            (publish_command json client delivery "stop" "sensor" "halt" status 90 91 plant).1
            k
          ≡ find_command plant k)
unfolding find new_command
publish_command_recorded_example =
    publish_command_recorded json client delivery "stop" "sensor" "halt" status 90 91 plant sensor
      refl refl refl
