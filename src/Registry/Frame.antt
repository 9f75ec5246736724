-- ===== src/Registry/Frame.antt =====
-- Which tables the operations of server/app/registry.py write, and which they leave alone.
use secure_io_t_device_platf.Base.{
  ℕ, String, ◌≡◌, refl, ◌∙◌, arith, Option, Bool, none, some, inl, inr, Option-cases,
}
use secure_io_t_device_platf.Env.{Context, Try, ok, security_error, crash}
use secure_io_t_device_platf.Models.{Server, Device, save_device, save_revoked, present}
use secure_io_t_device_platf.Registry.{
  rebuild_crl_from_db, record_revocation, commit_revocation, revoke_current_certificate,
  finish_reset, finish_reset_after, reset_bootstrap_secret, insert_device, register_checked,
  register_device, revoked_device,
}

-- Every table but the devices and the revoked certificates is as it was.
pub record Keeps (s t : Server) : Type 0 where
  pub sessions : t.sessions ≡ s.sessions
  pub events : t.events ≡ s.events
  pub commands : t.commands ≡ s.commands
  pub restarts : t.restarts ≡ s.restarts

pub Keeps-refl : (s : Server) → Keeps s s
Keeps-refl s = record { sessions = refl; events = refl; commands = refl; restarts = refl }

pub Keeps-trans : {s t u : Server} → Keeps s t → Keeps t u → Keeps s u
Keeps-trans h k = record {
  sessions = k.sessions ∙ h.sessions;
  events = k.events ∙ h.events;
  commands = k.commands ∙ h.commands;
  restarts = k.restarts ∙ h.restarts;
}

module _ (c : Context) where
  pub rebuild-Keeps : (s : Server) → Keeps s (rebuild_crl_from_db c s).1
  unfolding rebuild_crl_from_db
  rebuild-Keeps s = ground arith

  pub devices-rebuild : (s : Server) → (rebuild_crl_from_db c s).1.devices ≡ s.devices
  unfolding rebuild_crl_from_db
  devices-rebuild s = ground arith

  pub revoked-rebuild :
      (s : Server) → (rebuild_crl_from_db c s).1.revoked_certificates ≡ s.revoked_certificates
  unfolding rebuild_crl_from_db
  revoked-rebuild s = ground arith

  pub record_revocation-Keeps :
      (o : Option String) (id : String) (now : ℕ) (reason : String) (s : Server)
      → Keeps s (record_revocation o id now reason s)
  unfolding record_revocation save_revoked
  record_revocation-Keeps none id now reason s = ground arith
  record_revocation-Keeps (some serial) id now reason s = ground arith

  pub devices-record_revocation :
      (o : Option String) (id : String) (now : ℕ) (reason : String) (s : Server)
      → (record_revocation o id now reason s).devices ≡ s.devices
  unfolding record_revocation save_revoked
  devices-record_revocation none id now reason s = ground arith
  devices-record_revocation (some serial) id now reason s = ground arith

  pub commit_revocation-Keeps :
      (s : Server) (d : Device) (reason : String) → Keeps s (commit_revocation c s d reason)
  unfolding commit_revocation save_device
  commit_revocation-Keeps s d reason =
      ground
        (arith, record_revocation-Keeps (present d.certificate_serial) d.device_id c.now reason s)

  pub revoke-Keeps :
      (s : Server) (d : Device) (reason : String)
      → Keeps s (revoke_current_certificate c s d reason).1
  unfolding revoke_current_certificate
  revoke-Keeps s d reason =
      Keeps-trans (commit_revocation-Keeps s d reason)
        (rebuild-Keeps (commit_revocation c s d reason))

  pub finish_reset-Keeps :
      (s : Server) (d : Device) (secret : String) → Keeps s (finish_reset c s d secret).1
  unfolding finish_reset save_device
  finish_reset-Keeps s d secret = grind (arith, rebuild-Keeps)

  finish_reset_after-Keeps :
      (s : Server) (d : Device) (secret : String) (r : Try (Unit {0}) × Server)
      → Keeps s r.1
      → Keeps s (finish_reset_after c d secret r).1
  unfolding finish_reset_after
  finish_reset_after-Keeps s d secret (ok u, t) h =
      Keeps-trans h (finish_reset-Keeps t (revoked_device d c.later) secret)
  finish_reset_after-Keeps s d secret (security_error e, t) h = h
  finish_reset_after-Keeps s d secret (crash, t) h = h

  pub reset-Keeps :
      (s : Server) (d : Device) (secret : String) → Keeps s (reset_bootstrap_secret c s d secret).1
  unfolding reset_bootstrap_secret
  reset-Keeps s d secret = elim (Option-cases (present d.certificate_serial)) [
    | inl e ↦ rw (e, reset_bootstrap_secret) (finish_reset-Keeps s d secret)
    | inr (serial, e) ↦
        rw (e, reset_bootstrap_secret)
          (finish_reset_after-Keeps s d secret _ (revoke-Keeps s d "superseded"))
  ]

  pub register-Keeps :
      (seen s : Server) (id family : String) (name : Option String) (deployment : String)
      (allow : Bool) (secret : String)
      → Keeps s (register_device c seen s id family name deployment allow secret).1
  unfolding register_device register_checked insert_device save_device
  register-Keeps seen s id family name deployment allow secret = ground arith
