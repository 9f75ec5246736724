-- ===== src/Registry/Resetting.antt =====
-- What a reset of the bootstrap secret leaves behind.
use secure_io_t_device_platf.Base.{
  ℕ, String, ◌≡◌, refl, ◌∙◌, ap, arith, false, some, List, Option-cases, inl, inr, ◌==◌,
  if◌then◌else◌,
}
use secure_io_t_device_platf.Table
use secure_io_t_device_platf.Env.{Context, Try, ok, security_error, crash, Try-cases}
use secure_io_t_device_platf.Models.{Server, Device, device_key, find_device, save_device, present}
use secure_io_t_device_platf.Security.{from_master_key, encrypt}
use secure_io_t_device_platf.Registry.{
  rebuild_crl_from_db, reset_to_pending, revoked_device, revoke_current_certificate, finish_reset,
  finish_reset_after, reset_bootstrap_secret,
}
use secure_io_t_device_platf.Registry.Frame.{devices-rebuild}
use secure_io_t_device_platf.Registry.Revocation.{devices-revoke}

-- The devices after a reset that succeeded: only the row of the device is another one.
pub record Replaced (c : Context) (secret : String) (s t : Server) (d : Device) : Type 0 where
  pub box : List ℕ
  pub unsealed : from_master_key c.crypto c.settings.bootstrap_master_key ≡ ok box
  pub rows :
      (j : String)
      → find_device t j ≡ (
          if d.device_id == j
          then some (reset_to_pending d (encrypt c.crypto box secret))
          else find_device s j)

saved :
    (s t : Server) (row : Device)
    → t.devices ≡ Table.save device_key row s.devices
    → (j : String) → find_device t j ≡ (if row.device_id == j then some row else find_device s j)
saved s t row devices j =
    ap (Table.find device_key j) devices ∙ Table.find-save device_key row j s.devices

module _ (c : Context) (secret : String) where
  finish_reset-ok :
      (s : Server) (d : Device) (x : String) (t : Server)
      → finish_reset c s d secret ≡ (ok x, t)
      → (x ≡ secret) × Replaced c secret s t d
  unfolding finish_reset reset_to_pending save_device
  finish_reset-ok s d x t h =
      elim (Try-cases (from_master_key c.crypto c.settings.bootstrap_master_key)) [
        | inr (inl (e, k)) ↦ absurd (ground arith)
        | inr (inr k) ↦ absurd (ground arith)
        | inl (box, k) ↦
            let row = reset_to_pending d (encrypt c.crypto box secret) in
            let after : t ≡ (rebuild_crl_from_db c (save_device row s)).1 = ground arith in
            (
              ground arith,
              record {
                box = box;
                unsealed = k;
                rows =
                    saved s t row
                      (ap (λ u. u.devices) after ∙ devices-rebuild c (save_device row s));
              },
            )
      ]

  after_revoke :
      (s s' t : Server) (d : Device) (now : ℕ)
      → s'.devices ≡ Table.save device_key (revoked_device d now) s.devices
      → Replaced c secret s' t (revoked_device d now)
      → Replaced c secret s t d
  unfolding reset_to_pending revoked_device
  after_revoke s s' t d now devices k = record {
    box = k.box;
    unsealed = k.unsealed;
    rows = λ j. ground (arith, k.rows j, saved s s' (revoked_device d now) devices j);
  }

  after_ok :
      (d : Device) (x : String) (t : Server) (r : Try (Unit {0}) × Server) (u : Unit {0})
      → r.0 ≡ ok u
      → finish_reset_after c d secret r ≡ (ok x, t)
      → finish_reset c r.1 (revoked_device d c.later) secret ≡ (ok x, t)
  unfolding finish_reset_after
  after_ok d x t (ok u', s) u k h = h
  after_ok d x t (security_error e, s) u k h = absurd (ground arith)
  after_ok d x t (crash, s) u k h = absurd (ground arith)

  -- A reset that succeeds returns the secret that it sealed.
  pub reset_bootstrap_secret-Replaced :
      (s : Server) (d : Device) (x : String) (t : Server)
      → reset_bootstrap_secret c s d secret ≡ (ok x, t)
      → (x ≡ secret) × Replaced c secret s t d
  unfolding reset_bootstrap_secret finish_reset_after
  reset_bootstrap_secret-Replaced s d x t h = elim (Option-cases (present d.certificate_serial)) [
    | inl e ↦ finish_reset-ok s d x t (rw (e, reset_bootstrap_secret) at h)
    | inr (serial, e) ↦
        let r = revoke_current_certificate c s d "superseded" in
        let h' : finish_reset_after c d secret r ≡ (ok x, t) =
          rw (e, reset_bootstrap_secret) at h in
        elim (Try-cases r.0) [
          | inr (inl (y, k)) ↦ absurd (ground arith)
          | inr (inr k) ↦ absurd (ground arith)
          | inl (u, k) ↦
              let (same, replaced) =
                finish_reset-ok r.1 (revoked_device d c.later) x t (after_ok d x t r u k h') in
              (same, after_revoke s r.1 t d c.later (devices-revoke c s d "superseded") replaced)
        ]
  ]

module _ (c : Context) (secret j : String) where
  others-finish_reset :
      (s : Server) (d : Device)
      → (d.device_id == j) ≡ false
      → find_device (finish_reset c s d secret).1 j ≡ find_device s j
  unfolding finish_reset reset_to_pending save_device
  others-finish_reset s d ne =
      elim (Try-cases (from_master_key c.crypto c.settings.bootstrap_master_key)) [
        | inr (inl (e, k)) ↦ rw (k, finish_reset) refl
        | inr (inr k) ↦ rw (k, finish_reset) refl
        | inl (box, k) ↦
            let row = reset_to_pending d (encrypt c.crypto box secret) in
            let t = (rebuild_crl_from_db c (save_device row s)).1 in
            let same : find_device t j ≡ (if d.device_id == j then some row else find_device s j) =
              saved s t row (devices-rebuild c (save_device row s)) j in
            rw (k, finish_reset) (ground (arith, same))
      ]

  others-after :
      (s : Server) (d : Device) (r : Try (Unit {0}) × Server)
      → find_device r.1 j ≡ find_device s j
      → (d.device_id == j) ≡ false
      → find_device (finish_reset_after c d secret r).1 j ≡ find_device s j
  unfolding finish_reset_after revoked_device
  others-after s d (ok u, t) h ne = others-finish_reset t (revoked_device d c.later) ne ∙ h
  others-after s d (security_error e, t) h ne = h
  others-after s d (crash, t) h ne = h

  -- A reset, also one that fails, leaves the other devices alone.
  pub others-reset :
      (s : Server) (d : Device)
      → (d.device_id == j) ≡ false
      → find_device (reset_bootstrap_secret c s d secret).1 j ≡ find_device s j
  unfolding reset_bootstrap_secret revoked_device
  others-reset s d ne = elim (Option-cases (present d.certificate_serial)) [
    | inl e ↦ rw (e, reset_bootstrap_secret) (others-finish_reset s d ne)
    | inr (serial, e) ↦
        let r = revoke_current_certificate c s d "superseded" in
        let same : find_device r.1 j ≡ find_device s j =
          ground
            (arith, saved s r.1 (revoked_device d c.later) (devices-revoke c s d "superseded") j) in
        rw (e, reset_bootstrap_secret) (others-after s d r same ne)
  ]
