-- ===== src/Platform/Devices/Registry.antt =====
-- Registration, reset and revocation keep every device row consistent.
use secure_io_t_device_platf.Base.{
  String, ◌≡◌, refl, arith, Option, Bool, true, inl, inr, Option-cases,
}
use secure_io_t_device_platf.Env.{Context, Try, ok, security_error, crash, Try-cases}
use secure_io_t_device_platf.Models.{
  Server, Device, is_some, present, save_device, Deployment, find_device,
}
use secure_io_t_device_platf.Security.{from_master_key, encrypt, validate_device_id}
use secure_io_t_device_platf.Registry.{
  revoked_device, reset_to_pending, revoke_current_certificate, finish_reset, finish_reset_after,
  reset_bootstrap_secret, register_device, register_checked, insert_device, new_device,
  rebuild_crl_from_db, parse_deployment,
}
use secure_io_t_device_platf.Registry.Frame.{devices-rebuild, revoked-rebuild}
use secure_io_t_device_platf.Registry.Revocation.{
  Grows-eq, commit_revocation-Grows, commit_revocation-is_listed, devices-revoke, revoked-revoke,
}
use secure_io_t_device_platf.Platform.Devices.{Sound, Consistent, write-Consistent, same-Consistent}
use secure_io_t_device_platf.Admin.{
  DeviceCreate, create_device, reset_device, reset_response, revoke_device, revoke_response,
}
use secure_io_t_device_platf.Provisioning.Effect.{SameRegistry}
use secure_io_t_device_platf.Admin.Frame.{create_response-snd}
use secure_io_t_device_platf.Mqtt.Publish.{evict_device}

module _ (c : Context) where
  pub revoke-Consistent :
      (s : Server) (d : Device) (reason : String)
      → is_some (present d.certificate_serial) ≡ true
      → Consistent s
      → Consistent (revoke_current_certificate c s d reason).1
  revoke-Consistent s d reason held h =
      write-Consistent s (revoke_current_certificate c s d reason).1 (revoked_device d c.later) h
        (devices-revoke c s d reason)
        (rw (revoked-revoke c s d reason) (commit_revocation-Grows c s d reason))
        (unfold revoked_device in
          rw (revoked-revoke c s d reason) (commit_revocation-is_listed c s d reason held))

  finish_reset-Consistent :
      (s : Server) (d : Device) (secret : String)
      → Consistent s
      → Consistent (finish_reset c s d secret).1
  unfolding finish_reset
  finish_reset-Consistent s d secret h =
      elim (Try-cases (from_master_key c.crypto c.settings.bootstrap_master_key)) [
        | inl (box, e) ↦ rw (e, finish_reset) (pending_written (encrypt c.crypto box secret))
        | inr (inl (x, e)) ↦ rw (e, finish_reset) h
        | inr (inr e) ↦ rw (e, finish_reset) h
      ]
    where
      pending_written :
          (encrypted : String)
          → Consistent (rebuild_crl_from_db c (save_device (reset_to_pending d encrypted) s)).1
      pending_written encrypted =
          let t = save_device (reset_to_pending d encrypted) s in
          write-Consistent s (rebuild_crl_from_db c t).1 (reset_to_pending d encrypted) h
            (unfold save_device in devices-rebuild c t)
            (Grows-eq s.revoked_certificates _ (unfold save_device in revoked-rebuild c t))
            (unfold reset_to_pending in refl)

  finish_reset_after-Consistent :
      (d : Device) (secret : String) (r : Try (Unit {0}) × Server)
      → Consistent r.1
      → Consistent (finish_reset_after c d secret r).1
  unfolding finish_reset_after
  finish_reset_after-Consistent d secret (ok u, s) h =
      finish_reset-Consistent s (revoked_device d c.later) secret h
  finish_reset_after-Consistent d secret (security_error e, s) h = h
  finish_reset_after-Consistent d secret (crash, s) h = h

  pub reset-Consistent :
      (s : Server) (d : Device) (secret : String)
      → Consistent s
      → Consistent (reset_bootstrap_secret c s d secret).1
  unfolding reset_bootstrap_secret
  reset-Consistent s d secret h = elim (Option-cases (present d.certificate_serial)) [
    | inl e ↦ rw (e, reset_bootstrap_secret) (finish_reset-Consistent s d secret h)
    | inr (serial, e) ↦
        rw (e, reset_bootstrap_secret)
          (finish_reset_after-Consistent d secret (revoke_current_certificate c s d "superseded")
            (revoke-Consistent s d "superseded" (rw e) h))
  ]

  insert-Consistent :
      (s : Server) (d : Device) (secret : String)
      → Sound s.revoked_certificates d
      → Consistent s
      → Consistent (insert_device d secret s).1
  unfolding insert_device save_device
  insert-Consistent s d secret k h = elim (Option-cases (find_device s d.device_id)) [
    | inl e ↦
        rw (e, insert_device) (write-Consistent s (save_device d s) d h refl (λ serial l. l) k)
    | inr (other, e) ↦ rw (e, insert_device) h
  ]

  register_checked-Consistent :
      (seen s : Server) (id : String) (deployment : Deployment) (family : String)
      (name : Option String) (allow : Bool) (secret : String)
      → Consistent s
      → Consistent (register_checked c seen s id deployment family name allow secret).1
  unfolding register_checked
  register_checked-Consistent seen s id deployment family name allow secret h =
      elim (Option-cases (find_device seen id)) [
        | inr (other, e) ↦ rw (e, register_checked) h
        | inl e ↦ elim (Try-cases (from_master_key c.crypto c.settings.bootstrap_master_key)) [
          | inl (box, e') ↦
              rw (e, e', register_checked)
                (insert-Consistent s
                  (new_device id family name deployment (encrypt c.crypto box secret) allow c.now)
                  secret (unfold new_device in refl) h)
          | inr (inl (x, e')) ↦ rw (e, e', register_checked) h
          | inr (inr e') ↦ rw (e, e', register_checked) h
        ]
      ]

  register-Consistent :
      (seen s : Server) (id family : String) (name : Option String) (deployment_type : String)
      (allow : Bool) (secret : String)
      → Consistent s
      → Consistent (register_device c seen s id family name deployment_type allow secret).1
  unfolding register_device
  register-Consistent seen s id family name deployment_type allow secret h =
      elim (Try-cases (validate_device_id id)) [
        | inl (id', e) ↦ elim (Option-cases (parse_deployment deployment_type)) [
          | inl e' ↦ rw (e, e', register_device) h
          | inr (deployment, e') ↦
              rw (e, e', register_device)
                (register_checked-Consistent seen s id' deployment family name allow secret h)
        ]
        | inr (inl (x, e)) ↦ rw (e, register_device) h
        | inr (inr e) ↦ rw (e, register_device) h
      ]

  pub create_device-Consistent :
      (seen : Server) (p : DeviceCreate) (secret : String) (s : Server)
      → Consistent s
      → Consistent (create_device c seen p secret s).1
  unfolding create_device
  create_device-Consistent seen p secret s h = rw create_response-snd (
      register-Consistent seen s p.device_id p.family p.display_name p.deployment_type
        p.allow_reprovisioning secret h)

  pub reset_response-SameRegistry :
      (d : Device) (r : Try String × Server) → SameRegistry r.1 (reset_response c d r).1
  unfolding reset_response evict_device
  reset_response-SameRegistry d (ok secret, s) = ground arith
  reset_response-SameRegistry d (security_error e, s) = ground arith
  reset_response-SameRegistry d (crash, s) = ground arith

  pub reset_device-Consistent :
      (id secret : String) (s : Server) → Consistent s → Consistent (reset_device c id secret s).1
  unfolding reset_device
  reset_device-Consistent id secret s h = elim (Option-cases (find_device s id)) [
    | inl e ↦ rw (e, reset_device) h
    | inr (d, e) ↦
        rw (e, reset_device)
          (same-Consistent (reset_response-SameRegistry d (reset_bootstrap_secret c s d secret))
            (reset-Consistent s d secret h))
  ]

  pub revoke_response-SameRegistry :
      (id : String) (r : Try (Unit {0}) × Server) → SameRegistry r.1 (revoke_response c id r).1
  unfolding revoke_response evict_device
  revoke_response-SameRegistry id (ok u, s) = ground arith
  revoke_response-SameRegistry id (security_error e, s) = ground arith
  revoke_response-SameRegistry id (crash, s) = ground arith

  pub revoke_device-Consistent :
      (id : String) (s : Server) → Consistent s → Consistent (revoke_device c id s).1
  unfolding revoke_device
  revoke_device-Consistent id s h = elim (Option-cases (find_device s id)) [
    | inl e ↦ rw (e, revoke_device) h
    | inr (d, e) ↦ elim (Option-cases (present d.certificate_serial)) [
      | inl e' ↦ rw (e, e', revoke_device) h
      | inr (serial, e') ↦
          rw (e, e', revoke_device)
            (same-Consistent
              (revoke_response-SameRegistry id (revoke_current_certificate c s d "key_compromise"))
              (revoke-Consistent s d "key_compromise" (rw e') h))
    ]
  ]
