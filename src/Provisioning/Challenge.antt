-- ===== src/Provisioning/Challenge.antt =====
-- server/app/routers/provisioning.py: `create_challenge`. A handler returns its response and the
-- server that its commits leave. The drawn session id and nonce are arguments.
use secure_io_t_device_platf.Base.{
  ℕ, ◌+◌, ◌*◌, String, Bool, not, ◌&&◌, Option, none, some, map, ◌==◌, if◌then◌else◌,
}
use secure_io_t_device_platf.Env.{Reply, response, http_error, uncaught, Context, Settings}
use secure_io_t_device_platf.Models.{
  Server, Device, BootstrapSession, superseded, find_device, find_session, save_session, is_revoked,
  is_provisioned, is_some,
}

abbrev pub generic_device_error {ℓ} : {A : Type ℓ} → Reply A
generic_device_error = http_error 404 "device is not registered, enabled, or authorized"

-- device is enabled and not revoked
unfoldable pub is_authorized : Device → Bool
is_authorized device = device.enabled && not (is_revoked device.lifecycle_status)

-- Operational credentials exist, and neither setting allows to replace them.
unfoldable pub is_locked : Settings → Device → Bool
is_locked settings device =
    is_provisioned device.lifecycle_status
    && not settings.allow_reprovisioning
    && not device.allow_reprovisioning

pub record Challenge : Type 0 where
  pub device_id : String
  pub session_id : String
  pub nonce : String
  pub expires_at : ℕ

-- UPDATE bootstrap_sessions SET consumed_at = now, result = 'superseded'
-- WHERE device_id = ... AND consumed_at IS NULL
unfoldable pub supersede : String → ℕ → BootstrapSession → BootstrapSession
supersede device_id now b =
    if b.device_id == device_id && not (is_some b.consumed_at)
    then record b { consumed_at = some now; result = some superseded }
    else b

unfoldable pub new_session : String → String → String → Option String → ℕ → ℕ → BootstrapSession
new_session session_id device_id nonce source_ip now ttl_seconds = record {
  session_id = session_id;
  device_id = device_id;
  nonce_b64 = nonce;
  created_at = now;
  expires_at = now + ttl_seconds * 1000000;
  consumed_at = none;
  result = none;
  csr_sha256 = none;
  source_ip = source_ip;
  attempts = 0;
  last_attempt_at = none;
}

-- The transaction: the older sessions are closed and the new one added. A session id that is taken
-- already makes the commit raise, and nothing is written.
unfoldable pub open_session :
    Context → String → String → Option String → Device → Server → Reply Challenge × Server
open_session c session_id nonce source_ip device s = elim (find_session s session_id) [
  | some other ↦ (uncaught, s)
  | none ↦
      let session =
        new_session session_id device.device_id nonce source_ip c.now
          c.settings.challenge_ttl_seconds in
      (
        response (record {
          device_id = device.device_id;
          session_id = session_id;
          nonce = nonce;
          expires_at = session.expires_at;
        }),
        save_session session
            (record s { sessions = map (supersede device.device_id c.now) s.sessions }),
      )
]

unfoldable pub create_challenge :
    Context → String → String → String → Option String → Server → Reply Challenge × Server
create_challenge c device_id session_id nonce source_ip s = elim (find_device s device_id) [
  | none ↦ (generic_device_error, s)
  | some device ↦
      if not (is_authorized device)
      then (generic_device_error, s)
      else if is_locked c.settings device
      then (http_error 409 "device already has operational credentials", s)
      else open_session c session_id nonce source_ip device s
]
