-- ===== src/Reset.antt =====
-- server/app/project_reset.py: the two clean-ups of the database. Each revocation reads the clock, so
-- a function gives the reading for each device id. `clear_simulated_devices` handles its devices in
-- the order of the table here, which decides only the order of the rows that it adds.
pub mod Kept
pub mod Project
use secure_io_t_device_platf.Base.{
  ℕ, suc, String, Bool, not, ◌||◌, ◌&&◌, List, [], ◌∷◌, length, some, none, true, false, ◌==◌,
  if◌then◌else◌,
}
use secure_io_t_device_platf.Table.{select}
use secure_io_t_device_platf.Env.{Context, Try, ok, ◌>>=◌}
use secure_io_t_device_platf.Models.{
  Server, Device, BootstrapSession, MqttEvent, Command, Deployment, physical, simulated, present,
}
use secure_io_t_device_platf.Registry.{record_revocation, rebuild_crl_from_db}
use secure_io_t_device_platf.Provisioning.Finish.{replaces_certificate}

-- The loop of `_revoke_current_device_certificates`, with the number of rows that it adds.
unfoldable pub revoke_certificates : (String → ℕ) → List Device → Server → ℕ × Server
revoke_certificates clock [] s = (0, s)
revoke_certificates clock (d ∷ devices) s =
    let (revoked, t) = revoke_certificates clock devices (
      record_revocation (present d.certificate_serial) d.device_id (clock d.device_id)
        "cessation_of_operation" s) in
    ((if replaces_certificate d s then suc revoked else revoked), t)

-- What a clean-up counts.
pub record Cleared : Type 0 where
  pub devices : ℕ
  pub events : ℕ
  pub commands : ℕ
  pub bootstrap_sessions : ℕ
  pub new_revocations : ℕ

unfoldable pub rebuild_cleared : Context → Cleared → Server → Try Cleared × Server
rebuild_cleared c counts s =
    let (done, t) = rebuild_crl_from_db c s in ((do _ ← done; ok counts), t)

unfoldable pub delete_all : Server → Server
delete_all s = record s { events = []; commands = []; sessions = []; devices = [] }

unfoldable pub clear_runtime_database : Context → (String → ℕ) → Server → Try Cleared × Server
clear_runtime_database c clock s =
    let (revoked, t) = revoke_certificates clock s.devices s in
    rebuild_cleared c
      (record {
        devices = length s.devices;
        events = length s.events;
        commands = length s.commands;
        bootstrap_sessions = length s.sessions;
        new_revocations = revoked;
      })
      (delete_all t)

abbrev pub is_simulated : Deployment → Bool
is_simulated physical = false
is_simulated simulated = true

unfoldable pub simulated_devices : List Device → List Device
simulated_devices devices = select (λ d. is_simulated d.deployment_type) devices

-- device_id in device_ids
unfoldable pub among : List Device → String → Bool
among [] k = false
among (d ∷ devices) k = d.device_id == k || among devices k

-- delete(...).where(device_id.in_(device_ids)), on every table with that column
unfoldable pub delete_of : List Device → Server → Server
delete_of gone s = record s {
  events = select (λ e. not (among gone e.device_id)) s.events;
  commands = select (λ q. not (among gone q.device_id)) s.commands;
  sessions = select (λ b. not (among gone b.device_id)) s.sessions;
  devices = select (λ d. not (among gone d.device_id)) s.devices;
}

unfoldable pub clear_of : Context → (String → ℕ) → List Device → Server → Try Cleared × Server
clear_of c clock [] s =
    rebuild_cleared c
      (record {
        devices = 0;
        events = 0;
        commands = 0;
        bootstrap_sessions = 0;
        new_revocations = 0;
      })
      s
clear_of c clock (d ∷ gone) s =
    let (revoked, t) = revoke_certificates clock (d ∷ gone) s in
    rebuild_cleared c
      (record {
        devices = length (d ∷ gone);
        events = length (select (λ e. among (d ∷ gone) e.device_id) s.events);
        commands = length (select (λ q. among (d ∷ gone) q.device_id) s.commands);
        bootstrap_sessions = length (select (λ b. among (d ∷ gone) b.device_id) s.sessions);
        new_revocations = revoked;
      })
      (delete_of (d ∷ gone) t)

unfoldable pub clear_simulated_devices : Context → (String → ℕ) → Server → Try Cleared × Server
clear_simulated_devices c clock s = clear_of c clock (simulated_devices s.devices) s
