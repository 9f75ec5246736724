-- ===== src/Provisioning/OneUse.antt =====
-- A challenge is good for one certificate: the session after a success, and every later use of it.
use secure_io_t_device_platf.Base.{ℕ, String, ◌≡◌, refl, ◌∙◌, arith, false, some, List, ◌==◌, ◌⊎◌}
use secure_io_t_device_platf.Table
use secure_io_t_device_platf.Env.{Context, response, http_error, Try, ok, security_error, crash}
use secure_io_t_device_platf.Models.{
  Server, Device, BootstrapSession, session_key, device_key, find_session, find_device,
  save_session, save_device, present, issued, provisioned,
}
use secure_io_t_device_platf.Pki.{IssuedCertificate}
use secure_io_t_device_platf.Registry.{rebuild_crl_from_db, record_revocation}
use secure_io_t_device_platf.Registry.Frame.{
  rebuild-Keeps, devices-rebuild, revoked-rebuild, record_revocation-Keeps,
  devices-record_revocation,
}
use secure_io_t_device_platf.Mqtt.Publish.{evict_device}
use secure_io_t_device_platf.Provisioning.Finish.{
  EnrollmentRequest, Enrollment, finish_enrollment, after_replacement, enrollment_of,
  commit_enrollment, issued_session, provisioned_device, close_session,
}
use secure_io_t_device_platf.Provisioning.Enroll.{enroll_device, enroll_known, count_attempt}
use secure_io_t_device_platf.Provisioning.Success.{Checked, enroll-Checked}

-- The tables that a request handler of this router writes.
pub record SameTables (s t : Server) : Type 0 where
  pub devices : t.devices ≡ s.devices
  pub sessions : t.sessions ≡ s.sessions
  pub revoked_certificates : t.revoked_certificates ≡ s.revoked_certificates

module _ (c : Context) (d : Device) where
  after_replacement-SameTables :
      (e : Enrollment) (r : Try (Unit {0}) × Server) (x : Enrollment) (after : Server)
      → after_replacement c d e r ≡ (response x, after)
      → SameTables r.1 after
  unfolding after_replacement evict_device
  after_replacement-SameTables e (ok u, s) x after h = ground arith
  after_replacement-SameTables e (security_error y, s) x after h = absurd (ground arith)
  after_replacement-SameTables e (crash, s) x after h = absurd (ground arith)

  finish-SameTables :
      (b : BootstrapSession) (digest : String) (cert : IssuedCertificate) (ca_pem : String)
      (s : Server) (x : Enrollment) (after : Server)
      → finish_enrollment c d b digest cert ca_pem s ≡ (response x, after)
      → SameTables (commit_enrollment c d b digest cert s) after
  unfolding finish_enrollment
  finish-SameTables b digest cert ca_pem s x after h =
      let t = commit_enrollment c d b digest cert s in
      ground (
        arith,
        devices-rebuild c t,
        revoked-rebuild c t,
        rebuild-Keeps c t,
        after_replacement-SameTables (enrollment_of c.settings d.device_id cert ca_pem)
            (rebuild_crl_from_db c t) x after,
      )

-- What the commit of an enrollment writes into the tables.
pub commit-writes :
    (c : Context) (d : Device) (b : BootstrapSession) (digest : String) (cert : IssuedCertificate)
    (s : Server)
    → ((commit_enrollment c d b digest cert s).sessions
        ≡ Table.save session_key (issued_session b digest c.now) s.sessions)
      × ((commit_enrollment c d b digest cert s).devices
          ≡ Table.save device_key (provisioned_device d cert c.now) s.devices)
      × ((commit_enrollment c d b digest cert s).revoked_certificates
          ≡ (record_revocation
              (present d.certificate_serial)
              d.device_id
              c.now
              "superseded"
              s).revoked_certificates)
unfolding commit_enrollment save_device save_session
commit-writes c d b digest cert s = ground (
  arith,
  record_revocation-Keeps c (present d.certificate_serial) d.device_id c.now "superseded" s,
  devices-record_revocation c (present d.certificate_serial) d.device_id c.now "superseded" s,
)

-- A session that is consumed is refused, and nothing changes.
pub consumed_refused :
    (c : Context) (serial : ℕ) (payload : EnrollmentRequest) (s : Server) (b : BootstrapSession)
    {t : ℕ}
    → find_session s payload.session_id ≡ some b
    → b.consumed_at ≡ some t
    → (enroll_device c serial payload s
        ≡ (http_error 404 "device is not registered, enabled, or authorized", s))
      ⊎ (enroll_device c serial payload s
          ≡ (http_error 409 "challenge has already been used or invalidated", s))
unfolding enroll_device enroll_known
consumed_refused c serial payload s b h k = ground arith

found-written :
    {A : Type 0} (key : A → String) (r : A) (k : String) (rows : List A) {rows' : List A}
    → rows' ≡ Table.save key r rows
    → key r ≡ k
    → Table.find key k rows' ≡ some r
found-written key r k rows e h = rw (e, ← h) (Table.find-save_self key r rows)

other-written :
    {A : Type 0} (key : A → String) (r : A) (k j : String) (rows : List A) {rows' : List A}
    → rows' ≡ Table.save key r rows
    → key r ≡ k
    → (k == j) ≡ false
    → Table.find key j rows' ≡ Table.find key j rows
other-written key r k j rows e h ne = rw (e, Table.find-save key r j rows, h, ne)

-- The rows of the session and of the device after a success, and the other devices.
pub record Installed (c : Context) (payload : EnrollmentRequest) (s : Server) (e : Enrollment)
    (after : Server) : Type 0 where
  pub session : BootstrapSession
  pub device : Device
  pub found_session : find_session after payload.session_id ≡ some session
  pub consumed : session.consumed_at ≡ some c.now
  pub outcome : session.result ≡ some issued
  pub found_device : find_device after payload.device_id ≡ some device
  pub status : device.lifecycle_status ≡ provisioned
  pub serial : device.certificate_serial ≡ some e.certificate_serial
  pub certificate : device.certificate_pem ≡ some e.certificate_pem
  pub expiry : device.certificate_not_after ≡ some e.certificate_not_after
  pub others :
      (j : String) → (payload.device_id == j) ≡ false → find_device after j ≡ find_device s j

module _ (c : Context) (d : Device) where
  after_replacement-enrollment :
      (e : Enrollment) (r : Try (Unit {0}) × Server) (x : Enrollment) (after : Server)
      → after_replacement c d e r ≡ (response x, after)
      → x ≡ e
  unfolding after_replacement
  after_replacement-enrollment e (ok u, s) x after h = ground arith
  after_replacement-enrollment e (security_error y, s) x after h = absurd (ground arith)
  after_replacement-enrollment e (crash, s) x after h = absurd (ground arith)

  finish-enrollment :
      (b : BootstrapSession) (digest : String) (cert : IssuedCertificate) (ca_pem : String)
      (s : Server) (x : Enrollment) (after : Server)
      → finish_enrollment c d b digest cert ca_pem s ≡ (response x, after)
      → x ≡ enrollment_of c.settings d.device_id cert ca_pem
  unfolding finish_enrollment
  finish-enrollment b digest cert ca_pem s x after h = ground (
    arith,
    after_replacement-enrollment (enrollment_of c.settings d.device_id cert ca_pem)
        (rebuild_crl_from_db c (commit_enrollment c d b digest cert s)) x after,
  )

module _ (c : Context) (serial : ℕ) (payload : EnrollmentRequest) (s : Server) (e : Enrollment)
    (after : Server) (k : Checked c serial payload s e after) where
  counted : BootstrapSession
  counted = count_attempt k.session c.now

  written_session : BootstrapSession
  written_session = issued_session counted k.digest c.now

  written_device : Device
  written_device = provisioned_device k.device k.certificate c.now

  sessions_written :
      after.sessions ≡ Table.save session_key written_session (save_session counted s).sessions
  unfolding counted written_session
  sessions_written =
      (finish-SameTables c k.device counted k.digest k.certificate k.ca_pem (save_session counted s)
        e after k.finished).sessions
      ∙ (commit-writes c k.device counted k.digest k.certificate (save_session counted s)).0

  devices_written : after.devices ≡ Table.save device_key written_device s.devices
  unfolding counted written_device save_session
  devices_written =
      (finish-SameTables c k.device counted k.digest k.certificate k.ca_pem (save_session counted s)
        e after k.finished).devices
      ∙ (commit-writes c k.device counted k.digest k.certificate (save_session counted s)).1

  pub answer : e ≡ enrollment_of c.settings k.device.device_id k.certificate k.ca_pem
  unfolding counted
  answer =
      finish-enrollment c k.device counted k.digest k.certificate k.ca_pem (save_session counted s)
        e after k.finished

  device_id_kept : written_device.device_id ≡ payload.device_id
  unfolding written_device provisioned_device
  device_id_kept = Table.find_key device_key payload.device_id s.devices k.device k.found_device

  session_id_kept : written_session.session_id ≡ payload.session_id
  unfolding written_session issued_session close_session counted count_attempt
  session_id_kept =
      Table.find_key session_key payload.session_id s.sessions k.session k.found_session

  pub Checked-Installed : Installed c payload s e after
  unfolding written_session written_device issued_session close_session provisioned_device
  Checked-Installed = record {
    session = written_session;
    device = written_device;
    found_session =
        found-written session_key written_session payload.session_id _ sessions_written
          session_id_kept;
    consumed = refl;
    outcome = refl;
    found_device =
        found-written device_key written_device payload.device_id _ devices_written device_id_kept;
    status = refl;
    serial = unfold enrollment_of in rw answer;
    certificate = unfold enrollment_of in rw answer;
    expiry = unfold enrollment_of in rw answer;
    others = λ j ne.
        other-written device_key written_device payload.device_id j s.devices devices_written
          device_id_kept ne;
  }

-- A successful enrollment closes its session as issued, and leaves the device provisioned with the
-- serial, the certificate and the expiry that it answered; no other device changes.
pub enroll-Installed :
    (c : Context) (serial : ℕ) (payload : EnrollmentRequest) (s : Server) (e : Enrollment)
    (after : Server)
    → enroll_device c serial payload s ≡ (response e, after)
    → Installed c payload s e after
enroll-Installed c serial payload s e after h =
    Checked-Installed c serial payload s e after (enroll-Checked c serial e after payload s h)
