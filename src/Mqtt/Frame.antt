-- ===== src/Mqtt/Frame.antt =====
-- What a message and a timer round leave alone.
use secure_io_t_device_platf.Base.{ℕ, String, ◌≡◌, arith}
use secure_io_t_device_platf.Json.{Json, dict, JsonLib}
use secure_io_t_device_platf.Models.{Server, Device, save_device, save_command, add_event}
use secure_io_t_device_platf.Mqtt.{complete_command, store_for, store_event, on_message}

-- A response writes only the table of commands.
pub record OnlyCommands (s t : Server) : Type 0 where
  pub devices : t.devices ≡ s.devices
  pub sessions : t.sessions ≡ s.sessions
  pub events : t.events ≡ s.events
  pub revoked_certificates : t.revoked_certificates ≡ s.revoked_certificates
  pub crl : t.crl ≡ s.crl
  pub restarts : t.restarts ≡ s.restarts

-- A message writes the tables of devices, events and commands only.
pub record OnlyTraffic (s t : Server) : Type 0 where
  pub sessions : t.sessions ≡ s.sessions
  pub revoked_certificates : t.revoked_certificates ≡ s.revoked_certificates
  pub crl : t.crl ≡ s.crl
  pub restarts : t.restarts ≡ s.restarts

module _ (lib : JsonLib) where
  pub complete-OnlyCommands :
      (id kind : String) (payload : Json) (payload_text : String) (now : ℕ) (s : Server)
      → OnlyCommands s (complete_command lib id kind payload payload_text now s)
  unfolding complete_command save_command
  complete-OnlyCommands id kind (dict fields) payload_text now s = ground arith
  complete-OnlyCommands id kind _ payload_text now s = ground arith

  store_for-OnlyTraffic :
      (d : Device) (id kind topic payload_text : String) (payload : Json) (now : ℕ) (s : Server)
      → OnlyTraffic s (store_for lib d id kind topic payload_text payload now s)
  unfolding store_for save_device add_event
  store_for-OnlyTraffic d id kind topic payload_text payload now s =
      grind (arith, complete-OnlyCommands)

  pub store_event-OnlyTraffic :
      (id kind topic payload_text : String) (payload : Json) (now : ℕ) (s : Server)
      → OnlyTraffic s (store_event lib id kind topic payload_text payload now s)
  unfolding store_event
  store_event-OnlyTraffic id kind topic payload_text payload now s =
      grind (arith, store_for-OnlyTraffic)

  pub on_message-OnlyTraffic :
      (topic payload_text : String) (now : ℕ) (s : Server)
      → OnlyTraffic s (on_message lib topic payload_text now s)
  unfolding on_message
  on_message-OnlyTraffic topic payload_text now s = grind (arith, store_event-OnlyTraffic)
