-- ===== src/Platform/Devices/Life.antt =====
-- The device rows over the whole life of the server.
use secure_io_t_device_platf.Base.{
  ℕ, String, ◌≡◌, arith, true, false, some, List, [], ◌∷◌, inl, inr, ap, eq_iff,
}
use secure_io_t_device_platf.Base.Text.{is_empty}
use secure_io_t_device_platf.Table
use secure_io_t_device_platf.Env.{Context}
use secure_io_t_device_platf.Json.{JsonLib}
use secure_io_t_device_platf.Models.{
  Server, Device, BootstrapSession, device_key, find_device, present, is_some,
}
use secure_io_t_device_platf.Pki.{IssuedCertificate}
use secure_io_t_device_platf.Pki.Serial.{format_hex, is_empty-format_hex}
use secure_io_t_device_platf.Registry.Revocation.{record_revocation-Grows}
use secure_io_t_device_platf.Provisioning.Finish.{
  EnrollmentRequest, commit_enrollment, provisioned_device,
}
use secure_io_t_device_platf.Provisioning.OneUse.{commit-writes}
use secure_io_t_device_platf.Provisioning.Enroll.{enroll_device}
use secure_io_t_device_platf.Provisioning.Effect.{enroll-Effect, challenge-SameRegistry}
use secure_io_t_device_platf.Platform.{
  Event, creates, challenges, enrolls, resets, revokes, sends, enables, arrives, sweeps, init, step,
  run,
}
use secure_io_t_device_platf.Platform.Devices.{Sound, Consistent, write-Consistent, same-Consistent}
use secure_io_t_device_platf.Platform.Devices.Registry.{
  create_device-Consistent, reset_device-Consistent, revoke_device-Consistent,
}
use secure_io_t_device_platf.Platform.Devices.Traffic.{
  on_message-Consistent, send_command-Consistent, set_enabled-Consistent, sweep-Consistent,
}

nonempty_ne : (s : String) → is_empty s ≡ false → s ≡ "" → ⊥
nonempty_ne s h e = cc (ap is_empty e)

present-format_hex : (n : ℕ) → is_some (present (some (format_hex n))) ≡ true
present-format_hex n =
    ground (arith, eq_iff (format_hex n) "", is_empty-format_hex n, nonempty_ne (format_hex n))

commit-Consistent :
    (c : Context) (d : Device) (b : BootstrapSession) (digest : String) (cert : IssuedCertificate)
    (serial : ℕ) (s : Server)
    → cert.serial_hex ≡ format_hex serial
    → Consistent s
    → Consistent (commit_enrollment c d b digest cert s)
commit-Consistent c d b digest cert serial s e h =
    let w = commit-writes c d b digest cert s in
    write-Consistent s (commit_enrollment c d b digest cert s) (provisioned_device d cert c.now) h
      w.1
      (rw w.2
        (record_revocation-Grows (present d.certificate_serial) d.device_id c.now "superseded" s))
      (unfold provisioned_device in rw e (ground (arith, present-format_hex serial)))

enroll-Consistent :
    (c : Context) (serial : ℕ) (payload : EnrollmentRequest) (s : Server)
    → Consistent s
    → Consistent (enroll_device c serial payload s).1
enroll-Consistent c serial payload s h = elim (enroll-Effect c serial payload s) [
  | inl same ↦ same-Consistent same h
  | inr (d, found, k) ↦ same-Consistent k.committed (
      commit-Consistent c d k.session k.digest k.certificate serial k.before k.drawn
        (same-Consistent k.base h))
]

module _ (lib : JsonLib) where
  pub step-Consistent : (e : Event) (s : Server) → Consistent s → Consistent (step lib e s)
  unfolding step
  step-Consistent (creates c seen payload secret) s h =
      create_device-Consistent c seen payload secret s h
  step-Consistent (challenges c device_id session_id nonce ip) s h =
      same-Consistent (challenge-SameRegistry c device_id session_id nonce ip s) h
  step-Consistent (enrolls c serial payload) s h = enroll-Consistent c serial payload s h
  step-Consistent (resets c device_id secret) s h = reset_device-Consistent c device_id secret s h
  step-Consistent (revokes c device_id) s h = revoke_device-Consistent c device_id s h
  step-Consistent (sends c client delivery command_id device_id command parameters) s h =
      send_command-Consistent lib c client delivery command_id device_id command parameters s h
  step-Consistent (enables enabled device_id) s h = set_enabled-Consistent enabled device_id s h
  step-Consistent (arrives topic payload_text now) s h =
      on_message-Consistent lib topic payload_text now s h
  step-Consistent (sweeps c) s h = sweep-Consistent c.settings c.now s h

  run-Consistent : (es : List Event) (s : Server) → Consistent s → Consistent (run lib es s)
  unfolding run
  run-Consistent [] s h = h
  run-Consistent (e ∷ es) s h = run-Consistent es (step lib e s) (step-Consistent e s h)

  -- After any sequence of requests, messages and timer rounds from an empty database, the columns of
  -- every device agree with its status: a pending one has no certificate and no time of provisioning or
  -- revocation; a provisioned one has a serial, a certificate, its expiry and a time of provisioning,
  -- and no time of revocation; a revoked one is offline, has a time of revocation, and its serial
  -- stands in the table of revoked certificates.
  pub status_consistent :
      (es : List Event) (device_id : String) (d : Device)
      → find_device (run lib es init) device_id ≡ some d
      → Sound (run lib es init).revoked_certificates d
  status_consistent es device_id d h =
      Table.All-find device_key (Sound (run lib es init).revoked_certificates) device_id
        (run lib es init).devices d (run-Consistent es init tt) h
