-- ===== src/Admin.antt =====
-- server/app/routers/admin.py and scripts/admin.py: the operations of an administrator who has
-- authenticated. `detail` texts that the source builds from an exception are that exception's text.
pub mod Frame
pub mod Revoking
pub mod Activity
pub mod Recent
use secure_io_t_device_platf.Base.{ℕ, String, Bool, Option, none, some}
use secure_io_t_device_platf.Env.{
  Try, ok, security_error, crash, Reply, response, http_error, uncaught, Context,
}
use secure_io_t_device_platf.Json.{Json, JsonLib}
use secure_io_t_device_platf.Models.{Server, Device, Deployment, find_device, save_device, present}
use secure_io_t_device_platf.Registry.{
  Registration, registered, registry_error, invalid_input, crashed, register_device,
  revoke_current_certificate, reset_bootstrap_secret,
}
use secure_io_t_device_platf.Mqtt.Publish.{
  Client, Delivery, Published, published, value_error, runtime_error, integrity_error,
  publish_command, evict_device,
}

pub record DeviceCreate : Type 0 where
  pub device_id : String
  pub family : String
  pub display_name : Option String
  pub deployment_type : String
  pub allow_reprovisioning : Bool

pub record DeviceCreated : Type 0 where
  pub device_id : String
  pub family : String
  pub deployment_type : Deployment
  pub bootstrap_secret : String

unfoldable pub created : Device → String → DeviceCreated
created d secret = record {
  device_id = d.device_id;
  family = d.family;
  deployment_type = d.deployment_type;
  bootstrap_secret = secret;
}

unfoldable pub create_response : Registration × Server → Reply DeviceCreated × Server
create_response (registered device secret, s) = (response (created device secret), s)
create_response (registry_error e, s) = (http_error 409 e, s)
create_response (invalid_input e, s) = (uncaught, s)
create_response (crashed, s) = (uncaught, s)

unfoldable pub create_device :
    Context → Server → DeviceCreate → String → Server → Reply DeviceCreated × Server
create_device c seen payload secret s = create_response (
    register_device c seen s payload.device_id payload.family payload.display_name
      payload.deployment_type payload.allow_reprovisioning secret)

unfoldable pub reset_response :
    Context → Device → Try String × Server → Reply DeviceCreated × Server
reset_response c device (ok secret, s) = (
  response (created device secret),
  elim (present device.certificate_serial) [
    | none ↦ s
    | some serial ↦ evict_device c device.device_id s
  ],
)
reset_response c device (security_error e, s) = (uncaught, s)
reset_response c device (crash, s) = (uncaught, s)

unfoldable pub reset_device : Context → String → String → Server → Reply DeviceCreated × Server
reset_device c device_id secret s = elim (find_device s device_id) [
  | none ↦ (http_error 404 "device not found", s)
  | some device ↦ reset_response c device (reset_bootstrap_secret c s device secret)
]

unfoldable pub revoke_response :
    Context → String → Try (Unit {0}) × Server → Reply (Unit {0}) × Server
revoke_response c device_id (ok u, s) = (response tt, evict_device c device_id s)
revoke_response c device_id (security_error e, s) = (uncaught, s)
revoke_response c device_id (crash, s) = (uncaught, s)

unfoldable pub revoke_device : Context → String → Server → Reply (Unit {0}) × Server
revoke_device c device_id s = elim (find_device s device_id) [
  | none ↦ (http_error 404 "device not found", s)
  | some device ↦ elim (present device.certificate_serial) [
    | none ↦ (http_error 409 "device does not have an operational certificate", s)
    | some serial ↦
        revoke_response c device_id (revoke_current_certificate c s device "key_compromise")
  ]
]

pub record Sent : Type 0 where
  pub command_id : String
  pub device_id : String
  pub status : String
  pub topic : String
  pub payload : Json

unfoldable pub send_response : String → Published × Server → Reply Sent × Server
send_response device_id (published command topic payload, s) = (
  response (record {
    command_id = command.command_id;
    device_id = device_id;
    status = command.status;
    topic = topic;
    payload = payload;
  }),
  s,
)
send_response device_id (value_error e, s) = (http_error 503 e, s)
send_response device_id (runtime_error e, s) = (http_error 503 e, s)
send_response device_id (integrity_error, s) = (uncaught, s)

unfoldable pub send_command :
    JsonLib
    → Context
    → Client
    → Delivery
    → String
    → String
    → String
    → Json
    → Server
    → Reply Sent × Server
send_command lib c client delivery command_id device_id command parameters s =
    elim (find_device s device_id) [
      | none ↦ (http_error 404 "device not found", s)
      | some device ↦ send_response device_id (
          publish_command lib client delivery command_id device_id command parameters c.now c.later
            s)
    ]

-- scripts/admin.py: `enable` and `disable`, with the exit status
unfoldable pub set_enabled : Bool → String → Server → ℕ × Server
set_enabled enabled device_id s = elim (find_device s device_id) [
  | none ↦ (2, s)
  | some device ↦ (0, save_device (record device { enabled = enabled }) s)
]
