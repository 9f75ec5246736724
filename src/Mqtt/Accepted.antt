-- ===== src/Mqtt/Accepted.antt =====
-- What a message writes into the row of a sender that is accepted.
use secure_io_t_device_platf.Base.{ℕ, String, ◌≡◌, arith, true, some}
use secure_io_t_device_platf.Json.{Json, bool, text, dict, JsonLib, get, or_default}
use secure_io_t_device_platf.Models.{Device}
use secure_io_t_device_platf.Mqtt.{
  accepted, set_online, set_firmware, set_application_state, firmware_value, online_value,
}

-- The columns that a message never writes.
pub record SameCredentials (d d' : Device) : Type 0 where
  pub device_id : d'.device_id ≡ d.device_id
  pub lifecycle_status : d'.lifecycle_status ≡ d.lifecycle_status
  pub certificate_serial : d'.certificate_serial ≡ d.certificate_serial
  pub certificate_pem : d'.certificate_pem ≡ d.certificate_pem
  pub certificate_not_after : d'.certificate_not_after ≡ d.certificate_not_after
  pub provisioned_at : d'.provisioned_at ≡ d.provisioned_at
  pub revoked_at : d'.revoked_at ≡ d.revoked_at

set_firmware-SameCredentials : (f : Json) (d : Device) → SameCredentials d (set_firmware f d)
unfolding set_firmware
set_firmware-SameCredentials (text s) d = ground arith
set_firmware-SameCredentials _ d = ground arith

set_online-SameCredentials :
    (kind : String) (payload : Json) (d : Device) → SameCredentials d (set_online kind payload d)
unfolding set_online
set_online-SameCredentials kind (dict fields) d = ground (
  arith,
  set_firmware-SameCredentials (firmware_value fields)
      (record d { online = online_value (or_default (get "online" fields) (bool true)) }),
)
set_online-SameCredentials kind _ d = ground arith

pub accepted-SameCredentials :
    (lib : JsonLib) (kind : String) (payload : Json) (now : ℕ) (d : Device)
    → SameCredentials d (accepted lib kind payload now d)
unfolding accepted set_application_state
accepted-SameCredentials lib kind payload now d =
    ground (arith, set_online-SameCredentials kind payload (record d { last_seen = some now }))
