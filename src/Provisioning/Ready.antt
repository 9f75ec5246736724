-- ===== src/Provisioning/Ready.antt =====
-- A session that an enrollment may answer: every guard before the proof passes.
use secure_io_t_device_platf.Base.{ℕ, ◌<◌, ◌≡◌, arith, true, none, some, eq_iff}
use secure_io_t_device_platf.Env.{Context}
use secure_io_t_device_platf.Models.{
  Server, Device, BootstrapSession, find_session, find_device, save_session,
}
use secure_io_t_device_platf.Provisioning.Challenge.{is_authorized}
use secure_io_t_device_platf.Provisioning.Finish.{EnrollmentRequest}
use secure_io_t_device_platf.Provisioning.Enroll.{
  enroll_device, enroll_known, enroll_open, enroll_attempt, count_attempt,
}

pub record Ready (c : Context) (payload : EnrollmentRequest) (s : Server) (d : Device)
    (b : BootstrapSession) : Type 0 where
  pub found_session : find_session s payload.session_id ≡ some b
  pub found_device : find_device s payload.device_id ≡ some d
  pub owner : b.device_id ≡ payload.device_id
  pub authorized : is_authorized d ≡ true
  pub unused : b.consumed_at ≡ none
  pub alive : c.now < b.expires_at
  pub tries : b.attempts < 5

-- The attempt is counted and committed before the proof is looked at.
pub enroll-attempt :
    (c : Context) (serial : ℕ) (payload : EnrollmentRequest) (s : Server) (d : Device)
    (b : BootstrapSession)
    → Ready c payload s d b
    → enroll_device c serial payload s
      ≡ enroll_attempt c serial payload d
          (count_attempt b c.now)
          (save_session (count_attempt b c.now) s)
unfolding enroll_device enroll_known enroll_open
enroll-attempt c serial payload s d b r =
    rw (r.found_session, r.found_device, enroll_device)
      (ground (
        arith,
        r.owner,
        r.authorized,
        r.unused,
        r.alive,
        r.tries,
        eq_iff b.device_id payload.device_id,
      ))
