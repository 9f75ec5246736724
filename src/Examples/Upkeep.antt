-- ===== src/Examples/Upkeep.antt =====
-- Tests: the clean-ups of the database and the views of a device.
use secure_io_t_device_platf.Base.{◌≡◌, String, none, some, [], ◌∷◌, All}
use secure_io_t_device_platf.Models.{Server, Device, Command, MqttEvent, simulated, find_device}
use secure_io_t_device_platf.Mqtt.Publish.{new_command}
use secure_io_t_device_platf.Registry.Revocation.{Grows}
use secure_io_t_device_platf.Reset.{
  clear_runtime_database, clear_simulated_devices, simulated_devices,
}
use secure_io_t_device_platf.Reset.Kept.{
  Blocked, Purged, clear_runtime_database-Blocked, clear_simulated_devices-Purged,
}
use secure_io_t_device_platf.Json.{text}
use secure_io_t_device_platf.Examples.{context, json, sensor, server}

abbrev twin : Device
twin = record sensor {
  device_id = "twin";
  deployment_type = simulated;
  certificate_serial = some "2A";
}

abbrev halt : Command
halt = new_command json "halt" "sensor" "stop" (text "now") 70

abbrev answer : MqttEvent
answer = record {
  device_id = "sensor";
  kind = "response";
  topic = "topic";
  payload = "{}";
  received_at = 80;
}

abbrev site : Server
site = record server { devices = sensor ∷ twin ∷ []; commands = halt ∷ []; events = answer ∷ [] }

clear_runtime_database-Blocked_example :
    ((clear_runtime_database context (λ id. 90) site).1.devices ≡ [])
    × ((clear_runtime_database context (λ id. 90) site).1.sessions ≡ [])
    × ((clear_runtime_database context (λ id. 90) site).1.events ≡ [])
    × ((clear_runtime_database context (λ id. 90) site).1.commands ≡ [])
    × Grows [] (clear_runtime_database context (λ id. 90) site).1.revoked_certificates
    × All
        (Blocked (clear_runtime_database context (λ id. 90) site).1.revoked_certificates)
        (sensor ∷ twin ∷ [])
clear_runtime_database-Blocked_example = clear_runtime_database-Blocked context (λ id. 90) site

clear_simulated_devices-Purged_example :
    Purged
      (simulated_devices (sensor ∷ twin ∷ []))
      site
      (clear_simulated_devices context (λ id. 90) site).1
    × ((j : String) (d : Device)
        → find_device site j ≡ some d
        → d.deployment_type ≡ simulated
        → find_device (clear_simulated_devices context (λ id. 90) site).1 j ≡ none)
clear_simulated_devices-Purged_example = clear_simulated_devices-Purged context (λ id. 90) site
