-- ===== src/Platform/Devices.antt =====
-- The device rows over the whole life of the server: each status comes with the credentials and the
-- revocation that belong to it.
pub mod Registry
pub mod Traffic
pub mod Life
use secure_io_t_device_platf.Base.{
  ℕ, String, ◌≡◌, refl, ◌∙◌, arith, Option, Bool, true, false, none, some, List, [], ◌∷◌, inl, inr,
  Option-cases, All, All-map, not, ◌&&◌, ap, eq_iff, sym, map,
}
use secure_io_t_device_platf.Base.Text.{is_empty}
use secure_io_t_device_platf.Table
use secure_io_t_device_platf.Env.{Context, Try, ok, security_error, crash, Try-cases}
use secure_io_t_device_platf.Models.{
  Server, Device, RevokedCertificate, Lifecycle, pending, provisioned, revoked, device_key, is_some,
  present, save_device, Deployment, find_device,
}
use secure_io_t_device_platf.Provisioning.Effect.{SameRegistry}
use secure_io_t_device_platf.Security.{from_master_key, encrypt}
use secure_io_t_device_platf.Registry.{
  revoked_device, reset_to_pending, revoke_current_certificate, finish_reset, finish_reset_after,
  reset_bootstrap_secret, register_device, register_checked, insert_device, new_device,
  rebuild_crl_from_db, commit_revocation,
}
use secure_io_t_device_platf.Registry.Frame.{devices-rebuild, revoked-rebuild}
use secure_io_t_device_platf.Registry.Revocation.{
  is_listed, Grows, Grows-trans, Grows-eq, commit_revocation-Grows, commit_revocation-is_listed,
  devices-revoke, revoked-revoke,
}

-- What the columns of a row say, by its status.
abbrev consistent : List RevokedCertificate → Lifecycle → Device → Bool
consistent rows pending d =
    not (is_some d.certificate_serial)
    && not (is_some d.certificate_pem)
    && not (is_some d.provisioned_at)
    && not (is_some d.revoked_at)
consistent rows provisioned d =
    is_some (present d.certificate_serial)
    && is_some d.certificate_pem
    && is_some d.certificate_not_after
    && is_some d.provisioned_at
    && not (is_some d.revoked_at)
consistent rows revoked d =
    not d.online && is_some d.revoked_at && is_listed rows (present d.certificate_serial)

abbrev pub Sound : List RevokedCertificate → Device → Type 0
Sound rows d = consistent rows d.lifecycle_status d ≡ true

abbrev pub Consistent : Server → Type 0
Consistent s = All (Sound s.revoked_certificates) s.devices

consistent-Grows :
    (rows rows' : List RevokedCertificate) (l : Lifecycle) (d : Device)
    → Grows rows rows'
    → consistent rows l d ≡ true
    → consistent rows' l d ≡ true
consistent-Grows rows rows' pending d g h = h
consistent-Grows rows rows' provisioned d g h = h
consistent-Grows rows rows' revoked d g h = elim (Option-cases (present d.certificate_serial)) [
  | inl e ↦ absurd (ground arith)
  | inr (k, e) ↦ ground (arith, g k)
]

All-Grows :
    (rows rows' : List RevokedCertificate) (ds : List Device)
    → Grows rows rows'
    → All (Sound rows) ds
    → All (Sound rows') ds
All-Grows rows rows' [] g h = tt
All-Grows rows rows' (d ∷ ds) g h =
    (consistent-Grows rows rows' d.lifecycle_status d g h.0, All-Grows rows rows' ds g h.1)

-- One device row is written, and no revocation is forgotten.
pub write-Consistent :
    (s t : Server) (d : Device)
    → Consistent s
    → t.devices ≡ Table.save device_key d s.devices
    → Grows s.revoked_certificates t.revoked_certificates
    → Sound t.revoked_certificates d
    → Consistent t
write-Consistent s t d h e g k = rw e (
    Table.All-save device_key (Sound t.revoked_certificates) d s.devices k
      (All-Grows s.revoked_certificates t.revoked_certificates s.devices g h))

pub same-Consistent : {s t : Server} → SameRegistry s t → Consistent s → Consistent t
same-Consistent e h = rw (e.devices, e.revoked_certificates) h
