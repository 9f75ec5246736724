-- ===== src/Platform/Revocation.antt =====
-- A revoked certificate stays revoked.
use secure_io_t_device_platf.Base.{
  ℕ, String, ◌≡◌, arith, true, some, List, [], ◌∷◌, inl, inr, Option-cases,
}
use secure_io_t_device_platf.Env.{Context, Try, ok, security_error, crash}
use secure_io_t_device_platf.Json.{JsonLib}
use secure_io_t_device_platf.Models.{Server, Device, find_device, present, save_device}
use secure_io_t_device_platf.Registry.{
  revoke_current_certificate, finish_reset, finish_reset_after, reset_bootstrap_secret,
  register_device, register_checked, insert_device, revoked_device,
}
use secure_io_t_device_platf.Registry.Frame.{revoked-rebuild}
use secure_io_t_device_platf.Registry.Revocation.{
  is_listed, Grows, Grows-trans, Grows-eq, commit_revocation-Grows, revoked-revoke,
  record_revocation-Grows,
}
use secure_io_t_device_platf.Provisioning.Effect.{enroll-Effect, challenge-SameRegistry}
use secure_io_t_device_platf.Provisioning.Finish.{EnrollmentRequest}
use secure_io_t_device_platf.Provisioning.Enroll.{enroll_device}
use secure_io_t_device_platf.Provisioning.OneUse.{commit-writes}
use secure_io_t_device_platf.Mqtt.Frame.{on_message-OnlyTraffic}
use secure_io_t_device_platf.Mqtt.Stale.{mark_stale_devices}
use secure_io_t_device_platf.Admin.{create_device, reset_device, revoke_device, set_enabled}
use secure_io_t_device_platf.Admin.Frame.{create_response-snd}
use secure_io_t_device_platf.Platform.Devices.Registry.{
  reset_response-SameRegistry, revoke_response-SameRegistry,
}
use secure_io_t_device_platf.Platform.Devices.Traffic.{send_command-SameRegistry}
use secure_io_t_device_platf.Platform.{
  Event, creates, challenges, enrolls, resets, revokes, sends, enables, arrives, sweeps, step, run,
}

-- The table of `t` holds every serial that the table of `s` holds.
abbrev Keeping : Server → Server → Type 0
Keeping s t = Grows s.revoked_certificates t.revoked_certificates

module _ (c : Context) where
  revoke-Keeping :
      (s : Server) (d : Device) (reason : String)
      → Keeping s (revoke_current_certificate c s d reason).1
  revoke-Keeping s d reason =
      rw (revoked-revoke c s d reason) (commit_revocation-Grows c s d reason)

  revoked-finish_reset :
      (s : Server) (d : Device) (secret : String)
      → (finish_reset c s d secret).1.revoked_certificates ≡ s.revoked_certificates
  unfolding finish_reset save_device
  revoked-finish_reset s d secret = grind (arith, revoked-rebuild)

  finish_reset_after-Keeping :
      (s : Server) (d : Device) (secret : String) (r : Try (Unit {0}) × Server)
      → Keeping s r.1
      → Keeping s (finish_reset_after c d secret r).1
  unfolding finish_reset_after
  finish_reset_after-Keeping s d secret (ok u, t) g =
      rw (revoked-finish_reset t (revoked_device d c.later) secret) g
  finish_reset_after-Keeping s d secret (security_error e, t) g = g
  finish_reset_after-Keeping s d secret (crash, t) g = g

  reset-Keeping :
      (s : Server) (d : Device) (secret : String)
      → Keeping s (reset_bootstrap_secret c s d secret).1
  unfolding reset_bootstrap_secret
  reset-Keeping s d secret = elim (Option-cases (present d.certificate_serial)) [
    | inl e ↦ rw (e, reset_bootstrap_secret) (Grows-eq _ _ (revoked-finish_reset s d secret))
    | inr (serial, e) ↦
        rw (e, reset_bootstrap_secret)
          (finish_reset_after-Keeping s d secret _ (revoke-Keeping s d "superseded"))
  ]

  reset_device-Keeping :
      (id secret : String) (s : Server) → Keeping s (reset_device c id secret s).1
  unfolding reset_device
  reset_device-Keeping id secret s = elim (Option-cases (find_device s id)) [
    | inl e ↦ rw (e, reset_device) (λ k h. h)
    | inr (d, e) ↦
        rw
          (
            e,
            reset_device,
            (reset_response-SameRegistry c d
                (reset_bootstrap_secret c s d secret)).revoked_certificates,
          )
          (reset-Keeping s d secret)
  ]

  revoke_device-Keeping : (id : String) (s : Server) → Keeping s (revoke_device c id s).1
  unfolding revoke_device
  revoke_device-Keeping id s = elim (Option-cases (find_device s id)) [
    | inl e ↦ rw (e, revoke_device) (λ k h. h)
    | inr (d, e) ↦ elim (Option-cases (present d.certificate_serial)) [
      | inl e' ↦ rw (e, e', revoke_device) (λ k h. h)
      | inr (serial, e') ↦
          rw
            (
              e,
              e',
              revoke_device,
              (revoke_response-SameRegistry c id
                  (revoke_current_certificate c s d "key_compromise")).revoked_certificates,
            )
            (revoke-Keeping s d "key_compromise")
    ]
  ]

  enroll-Keeping :
      (serial : ℕ) (payload : EnrollmentRequest) (s : Server)
      → Keeping s (enroll_device c serial payload s).1
  enroll-Keeping serial payload s = elim (enroll-Effect c serial payload s) [
    | inl same ↦ Grows-eq _ _ same.revoked_certificates
    | inr (d, found, k) ↦
        rw
          (
            k.committed.revoked_certificates,
            (commit-writes c d k.session k.digest k.certificate k.before).2,
          )
          (Grows-trans _ _ _ (Grows-eq _ _ k.base.revoked_certificates) (
            record_revocation-Grows (present d.certificate_serial) d.device_id c.now "superseded"
              k.before))
  ]

module _ (lib : JsonLib) where
  step-Keeping : (e : Event) (s : Server) → Keeping s (step lib e s)
  unfolding step mark_stale_devices set_enabled save_device
  step-Keeping (creates c seen p secret) s = Grows-eq _ _ (
      unfold create_device register_device register_checked insert_device in
      rw create_response-snd (ground arith))
  step-Keeping (challenges c device_id session_id nonce ip) s =
      Grows-eq _ _ (challenge-SameRegistry c device_id session_id nonce ip s).revoked_certificates
  step-Keeping (enrolls c serial payload) s = enroll-Keeping c serial payload s
  step-Keeping (resets c device_id secret) s = reset_device-Keeping c device_id secret s
  step-Keeping (revokes c device_id) s = revoke_device-Keeping c device_id s
  step-Keeping (sends c client delivery command_id device_id command parameters) s =
      Grows-eq _ _
        (send_command-SameRegistry lib c client delivery command_id device_id command parameters
          s).revoked_certificates
  step-Keeping (enables enabled device_id) s = Grows-eq _ _ (ground arith)
  step-Keeping (arrives topic payload_text now) s =
      Grows-eq _ _ (on_message-OnlyTraffic lib topic payload_text now s).revoked_certificates
  step-Keeping (sweeps c) s = λ k h. h

  -- Through any sequence of events, a serial in the table of revoked certificates stays in it.
  pub revoked_forever :
      (es : List Event) (s : Server) (serial : String)
      → is_listed s.revoked_certificates (some serial) ≡ true
      → is_listed (run lib es s).revoked_certificates (some serial) ≡ true
  unfolding run
  revoked_forever [] s serial h = h
  revoked_forever (e ∷ es) s serial h =
      revoked_forever es (step lib e s) serial (step-Keeping e s serial h)
