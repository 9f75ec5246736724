-- ===== src/Registry/Revocation.antt =====
-- The table of revoked certificates under the operations of server/app/registry.py.
use secure_io_t_device_platf.Base.{
  ℕ, String, ◌≡◌, ◌∙◌, arith, Option, Bool, true, false, none, some, List, ap, eq_iff,
}
use secure_io_t_device_platf.Table
use secure_io_t_device_platf.Env.{Context}
use secure_io_t_device_platf.Models.{
  Server, Device, RevokedCertificate, revoked_key, device_key, is_some, save_revoked, save_device,
  present,
}
use secure_io_t_device_platf.Registry.{
  record_revocation, commit_revocation, revoke_current_certificate, revoked_device,
}
use secure_io_t_device_platf.Registry.Frame.{
  revoked-rebuild, devices-rebuild, devices-record_revocation,
}

abbrev pub is_listed : List RevokedCertificate → Option String → Bool
is_listed rows none = false
is_listed rows (some serial) = is_some (Table.find revoked_key serial rows)

-- No serial leaves the table.
abbrev pub Grows : List RevokedCertificate → List RevokedCertificate → Type 0
Grows rows rows' =
    (serial : String) → is_listed rows (some serial) ≡ true → is_listed rows' (some serial) ≡ true

pub Grows-trans : (a b c : List RevokedCertificate) → Grows a b → Grows b c → Grows a c
Grows-trans a b c f g k h = g k (f k h)

pub Grows-eq : (a b : List RevokedCertificate) → b ≡ a → Grows a b
Grows-eq a b e k h = rw e h

pub record_revocation-Grows :
    (o : Option String) (id : String) (now : ℕ) (reason : String) (s : Server)
    → Grows s.revoked_certificates (record_revocation o id now reason s).revoked_certificates
unfolding record_revocation save_revoked
record_revocation-Grows none id now reason s k h = h
record_revocation-Grows (some serial) id now reason s k h = ground (
  arith,
  Table.find-save revoked_key
      (record { serial_hex = serial; device_id = id; revoked_at = now; reason = reason }) k
      s.revoked_certificates,
  eq_iff serial k,
)

pub record_revocation-is_listed :
    (o : Option String) (id : String) (now : ℕ) (reason : String) (s : Server)
    → is_some o ≡ true
    → is_listed (record_revocation o id now reason s).revoked_certificates o ≡ true
unfolding record_revocation save_revoked
record_revocation-is_listed none id now reason s h = cc
record_revocation-is_listed (some serial) id now reason s h = ground (
  arith,
  Table.find-save_self revoked_key
      (record { serial_hex = serial; device_id = id; revoked_at = now; reason = reason })
      s.revoked_certificates,
)

module _ (c : Context) (s : Server) (d : Device) (reason : String) where
  pub commit_revocation-Grows :
      Grows s.revoked_certificates (commit_revocation c s d reason).revoked_certificates
  unfolding commit_revocation save_device
  commit_revocation-Grows =
      record_revocation-Grows (present d.certificate_serial) d.device_id c.now reason s

  pub commit_revocation-is_listed :
      is_some (present d.certificate_serial) ≡ true
      → is_listed
          (commit_revocation c s d reason).revoked_certificates
          (present d.certificate_serial)
        ≡ true
  unfolding commit_revocation save_device
  commit_revocation-is_listed =
      record_revocation-is_listed (present d.certificate_serial) d.device_id c.now reason s

  pub devices-commit_revocation :
      (commit_revocation c s d reason).devices
      ≡ Table.save device_key (revoked_device d c.later) s.devices
  unfolding commit_revocation save_device
  devices-commit_revocation =
      ap (Table.save device_key (revoked_device d c.later))
        (devices-record_revocation c (present d.certificate_serial) d.device_id c.now reason s)

  pub devices-revoke :
      (revoke_current_certificate c s d reason).1.devices
      ≡ Table.save device_key (revoked_device d c.later) s.devices
  unfolding revoke_current_certificate
  devices-revoke = devices-rebuild c (commit_revocation c s d reason) ∙ devices-commit_revocation

  pub revoked-revoke :
      (revoke_current_certificate c s d reason).1.revoked_certificates
      ≡ (commit_revocation c s d reason).revoked_certificates
  unfolding revoke_current_certificate
  revoked-revoke = revoked-rebuild c (commit_revocation c s d reason)
