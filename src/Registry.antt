-- ===== src/Registry.antt =====
-- server/app/registry.py. The bootstrap secret that `secrets` draws is an argument.
pub mod Frame
pub mod Revocation
pub mod Crl
pub mod Registering
pub mod Resetting
use secure_io_t_device_platf.Base.{
  ℕ, String, Bool, true, false, Option, none, some, List, [], ◌∷◌, leb, ◌==◌, if◌then◌else◌,
}
use secure_io_t_device_platf.Base.Text.{codes, strip, lower, same_codes}
use secure_io_t_device_platf.Env.{Try, ok, security_error, crash, ◌>>=◌, Context}
use secure_io_t_device_platf.Models.{
  Server, Device, RevokedCertificate, Deployment, physical, simulated, pending, revoked,
  find_device, find_revoked, save_device, save_revoked, present,
}
use secure_io_t_device_platf.Security.{validate_device_id, from_master_key, encrypt}
use secure_io_t_device_platf.Pki.{rebuild_crl}

pub data Registration : Type 0 where
  registered : Device → String → Registration
  registry_error : String → Registration
  invalid_input : String → Registration
  crashed : Registration

-- deployment_type.strip().lower() in {"physical", "simulated"}
unfoldable pub parse_deployment : String → Option Deployment
parse_deployment deployment_type =
    let name = lower (strip deployment_type) in
    if same_codes name (codes "physical")
    then some physical
    else if same_codes name (codes "simulated")
    then some simulated
    else none

-- family.strip() or "generic"
unfoldable pub family_or_generic : String → String
family_or_generic family = let name = strip family in if name == "" then "generic" else name

-- display_name.strip() if display_name else None
unfoldable pub stripped_name : Option String → Option String
stripped_name none = none
stripped_name (some name) = if name == "" then none else some (strip name)

unfoldable pub new_device :
    String → String → Option String → Deployment → String → Bool → ℕ → Device
new_device device_id family display_name deployment_type encrypted allow_reprovisioning now =
    record {
      device_id = device_id;
      family = family_or_generic family;
      display_name = stripped_name display_name;
      deployment_type = deployment_type;
      bootstrap_secret_encrypted = encrypted;
      enabled = true;
      lifecycle_status = pending;
      allow_reprovisioning = allow_reprovisioning;
      created_at = now;
      provisioned_at = none;
      revoked_at = none;
      certificate_serial = none;
      certificate_not_after = none;
      certificate_pem = none;
      online = false;
      last_seen = none;
      firmware_version = none;
      application_state_json = none;
    }

-- db.add(device); db.commit(), where a row with the primary key raises IntegrityError
unfoldable pub insert_device : Device → String → Server → Registration × Server
insert_device device secret s = elim (find_device s device.device_id) [
  | some other ↦ (registry_error "could not register", s)
  | none ↦ (registered device secret, save_device device s)
]

-- The body after the input is checked: `seen` is the database as `db.get` reads it, and `s` the one
-- that the commit meets, in which another request may have registered a device meanwhile.
unfoldable pub register_checked :
    Context
    → Server
    → Server
    → String
    → Deployment
    → String
    → Option String
    → Bool
    → String
    → Registration × Server
register_checked c seen s device_id deployment family display_name allow secret =
    elim (find_device seen device_id) [
      | some other ↦ (registry_error "device already exists", s)
      | none ↦ elim (from_master_key c.crypto c.settings.bootstrap_master_key) [
        | security_error e ↦ (invalid_input e, s)
        | crash ↦ (crashed, s)
        | ok box ↦
            insert_device
              (new_device device_id family display_name deployment (encrypt c.crypto box secret)
                allow c.now)
              secret s
      ]
    ]

unfoldable pub register_device :
    Context
    → Server
    → Server
    → String
    → String
    → Option String
    → String
    → Bool
    → String
    → Registration × Server
register_device c seen s device_id family display_name deployment_type allow secret =
    elim (validate_device_id device_id) [
      | security_error e ↦ (invalid_input e, s)
      | crash ↦ (crashed, s)
      | ok id ↦ elim (parse_deployment deployment_type) [
        | none ↦ (registry_error "deployment_type must be physical or simulated", s)
        | some deployment ↦ register_checked c seen s id deployment family display_name allow secret
      ]
    ]

-- ORDER BY revoked_at
unfoldable pub insert_by_time :
    RevokedCertificate → List RevokedCertificate → List RevokedCertificate
insert_by_time r [] = r ∷ []
insert_by_time r (q ∷ rows) =
    if leb r.revoked_at q.revoked_at then r ∷ q ∷ rows else q ∷ insert_by_time r rows

unfoldable pub order_by_time : List RevokedCertificate → List RevokedCertificate
order_by_time [] = []
order_by_time (r ∷ rows) = insert_by_time r (order_by_time rows)

-- A failure leaves the CRL file as it was.
unfoldable pub rebuild_crl_from_db : Context → Server → Try (Unit {0}) × Server
rebuild_crl_from_db c s =
    elim (rebuild_crl c.crypto c.settings c.disk (order_by_time s.revoked_certificates)) [
      | ok entries ↦ (ok tt, record s { crl = some entries })
      | security_error e ↦ (security_error e, s)
      | crash ↦ (crash, s)
    ]

-- db.add(RevokedCertificate(...)) for a serial that the table does not hold yet
unfoldable pub record_revocation : Option String → String → ℕ → String → Server → Server
record_revocation none device_id now reason s = s
record_revocation (some serial) device_id now reason s = elim (find_revoked s serial) [
  | some row ↦ s
  | none ↦
      save_revoked
        (record { serial_hex = serial; device_id = device_id; revoked_at = now; reason = reason }) s
]

unfoldable pub revoked_device : Device → ℕ → Device
revoked_device device now = record device {
  lifecycle_status = revoked;
  revoked_at = some now;
  online = false;
}

-- The transaction of `revoke_current_certificate`.
unfoldable pub commit_revocation : Context → Server → Device → String → Server
commit_revocation c s device reason =
    save_device (revoked_device device c.later)
      (record_revocation (present device.certificate_serial) device.device_id c.now reason s)

unfoldable pub revoke_current_certificate :
    Context → Server → Device → String → Try (Unit {0}) × Server
revoke_current_certificate c s device reason =
    rebuild_crl_from_db c (commit_revocation c s device reason)

unfoldable pub reset_to_pending : Device → String → Device
reset_to_pending device encrypted = record device {
  bootstrap_secret_encrypted = encrypted;
  lifecycle_status = pending;
  provisioned_at = none;
  certificate_serial = none;
  certificate_not_after = none;
  certificate_pem = none;
  revoked_at = none;
  online = false;
}

-- The second half of `reset_bootstrap_secret`, once the old certificate is revoked.
unfoldable pub finish_reset : Context → Server → Device → String → Try String × Server
finish_reset c s device secret = elim (from_master_key c.crypto c.settings.bootstrap_master_key) [
  | security_error e ↦ (security_error e, s)
  | crash ↦ (crash, s)
  | ok box ↦
      let (done, s') =
        rebuild_crl_from_db c
          (save_device (reset_to_pending device (encrypt c.crypto box secret)) s) in
      ((do _ ← done; ok secret), s')
]

unfoldable pub finish_reset_after :
    Context → Device → String → Try (Unit {0}) × Server → Try String × Server
finish_reset_after c device secret (ok u, s) =
    finish_reset c s (revoked_device device c.later) secret
finish_reset_after c device secret (security_error e, s) = (security_error e, s)
finish_reset_after c device secret (crash, s) = (crash, s)

unfoldable pub reset_bootstrap_secret : Context → Server → Device → String → Try String × Server
reset_bootstrap_secret c s device secret = elim (present device.certificate_serial) [
  | none ↦ finish_reset c s device secret
  | some serial ↦
      finish_reset_after c device secret (revoke_current_certificate c s device "superseded")
]
