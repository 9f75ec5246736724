-- ===== src/Admin/Frame.antt =====
-- The administrator's operations, on errors too, leave the bootstrap sessions and the events alone,
-- and only `send_command` writes a command.
use secure_io_t_device_platf.Base.{String, ◌≡◌, refl, arith, Bool}
use secure_io_t_device_platf.Env.{Context, Try, ok, security_error, crash}
use secure_io_t_device_platf.Json.{Json, JsonLib}
use secure_io_t_device_platf.Models.{Server, Device, save_command, save_device}
use secure_io_t_device_platf.Registry.{
  Registration, registered, registry_error, invalid_input, crashed,
}
use secure_io_t_device_platf.Registry.Frame.{register-Keeps, revoke-Keeps, reset-Keeps}
use secure_io_t_device_platf.Mqtt.Publish.{
  Client, Delivery, evict_device, Published, published, value_error, runtime_error, integrity_error,
  publish_command, send_pending,
}
use secure_io_t_device_platf.Admin.{
  DeviceCreate, create_device, create_response, reset_device, reset_response, revoke_device,
  revoke_response, send_command, send_response, set_enabled,
}

pub create_response-snd : (r : Registration × Server) → (create_response r).1 ≡ r.1
unfolding create_response
create_response-snd (registered d secret, s) = refl
create_response-snd (registry_error e, s) = refl
create_response-snd (invalid_input e, s) = refl
create_response-snd (crashed, s) = refl

pub send_response-snd : (id : String) (r : Published × Server) → (send_response id r).1 ≡ r.1
unfolding send_response
send_response-snd id (published command topic payload, s) = refl
send_response-snd id (value_error e, s) = refl
send_response-snd id (runtime_error e, s) = refl
send_response-snd id (integrity_error, s) = refl

module _ (c : Context) where
  pub sessions-create_device :
      (seen : Server) (p : DeviceCreate) (secret : String) (s : Server)
      → (create_device c seen p secret s).1.sessions ≡ s.sessions
  unfolding create_device
  sessions-create_device seen p secret s = rw create_response-snd (
      (register-Keeps c seen s p.device_id p.family p.display_name p.deployment_type
        p.allow_reprovisioning secret).sessions)

  reset_response-sessions :
      (d : Device) (r : Try String × Server) → (reset_response c d r).1.sessions ≡ r.1.sessions
  unfolding reset_response evict_device
  reset_response-sessions d (ok secret, s) = ground arith
  reset_response-sessions d (security_error e, s) = refl
  reset_response-sessions d (crash, s) = refl

  pub sessions-reset_device :
      (id secret : String) (s : Server) → (reset_device c id secret s).1.sessions ≡ s.sessions
  unfolding reset_device
  sessions-reset_device id secret s = grind (arith, reset_response-sessions, reset-Keeps)

  revoke_response-sessions :
      (id : String) (r : Try (Unit {0}) × Server)
      → (revoke_response c id r).1.sessions ≡ r.1.sessions
  unfolding revoke_response evict_device
  revoke_response-sessions id (ok u, s) = ground arith
  revoke_response-sessions id (security_error e, s) = refl
  revoke_response-sessions id (crash, s) = refl

  pub sessions-revoke_device :
      (id : String) (s : Server) → (revoke_device c id s).1.sessions ≡ s.sessions
  unfolding revoke_device
  sessions-revoke_device id s = grind (arith, revoke_response-sessions, revoke-Keeps)

pub sessions-send_command :
    (lib : JsonLib) (c : Context) (client : Client) (delivery : Delivery) (command_id id : String)
    (command : String) (parameters : Json) (s : Server)
    → (send_command lib c client delivery command_id id command parameters s).1.sessions
      ≡ s.sessions
unfolding send_command publish_command send_pending save_command
sessions-send_command lib c client delivery command_id id command parameters s =
    grind (arith, send_response-snd)

pub sessions-set_enabled :
    (enabled : Bool) (id : String) (s : Server) → (set_enabled enabled id s).1.sessions ≡ s.sessions
unfolding set_enabled save_device
sessions-set_enabled enabled id s = ground arith
