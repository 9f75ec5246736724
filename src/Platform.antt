-- ===== src/Platform.antt =====
-- The server as a state machine: every request, message and timer round is one step, in any order
-- and from any sender. What the environment chooses (times, draws, files, settings) is the event's.
pub mod Sessions
pub mod OneUse
pub mod Revocation
pub mod Devices
use secure_io_t_device_platf.Base.{ℕ, String, Bool, none, Option, List, [], ◌∷◌}
use secure_io_t_device_platf.Env.{Context}
use secure_io_t_device_platf.Json.{Json, JsonLib}
use secure_io_t_device_platf.Models.{Server}
use secure_io_t_device_platf.Mqtt.{on_message}
use secure_io_t_device_platf.Mqtt.Publish.{Client, Delivery}
use secure_io_t_device_platf.Mqtt.Stale.{mark_stale_devices}
use secure_io_t_device_platf.Provisioning.Challenge.{create_challenge}
use secure_io_t_device_platf.Provisioning.Finish.{EnrollmentRequest}
use secure_io_t_device_platf.Provisioning.Enroll.{enroll_device}
use secure_io_t_device_platf.Admin.{
  DeviceCreate, create_device, reset_device, revoke_device, send_command, set_enabled,
}

pub data Event : Type 0 where
  creates : Context → Server → DeviceCreate → String → Event
  challenges : Context → String → String → String → Option String → Event
  enrolls : Context → ℕ → EnrollmentRequest → Event
  resets : Context → String → String → Event
  revokes : Context → String → Event
  sends : Context → Client → Delivery → String → String → String → Json → Event
  enables : Bool → String → Event
  arrives : String → String → ℕ → Event
  sweeps : Context → Event

-- The empty database of a new installation.
abbrev pub init : Server
init = record {
  devices = [];
  sessions = [];
  events = [];
  commands = [];
  revoked_certificates = [];
  crl = none;
  restarts = [];
}

module _ (lib : JsonLib) where
  -- The state after one event; responses are dropped.
  unfoldable pub step : Event → Server → Server
  step (creates c seen payload secret) s = (create_device c seen payload secret s).1
  step (challenges c device_id session_id nonce ip) s =
      (create_challenge c device_id session_id nonce ip s).1
  step (enrolls c serial payload) s = (enroll_device c serial payload s).1
  step (resets c device_id secret) s = (reset_device c device_id secret s).1
  step (revokes c device_id) s = (revoke_device c device_id s).1
  step (sends c client delivery command_id device_id command parameters) s =
      (send_command lib c client delivery command_id device_id command parameters s).1
  step (enables enabled device_id) s = (set_enabled enabled device_id s).1
  step (arrives topic payload_text now) s = on_message lib topic payload_text now s
  step (sweeps c) s = mark_stale_devices c.settings c.now s

  unfoldable pub run : List Event → Server → Server
  run [] s = s
  run (e ∷ es) s = run es (step e s)
