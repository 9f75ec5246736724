-- ===== src/Provisioning/WrongProof.antt =====
-- What a proof that does not verify costs.
use secure_io_t_device_platf.Base.{
  ℕ, suc, String, ◌≡◌, refl, ◌∙◌, arith, false, none, some, leb, if◌then◌else◌,
}
use secure_io_t_device_platf.Table
use secure_io_t_device_platf.Env.{Context, Csr, http_error, ok, security_error}
use secure_io_t_device_platf.Models.{
  Server, Device, BootstrapSession, session_key, find_session, save_session,
}
use secure_io_t_device_platf.Provisioning.Finish.{
  EnrollmentRequest, close_if_exhausted, close_session,
}
use secure_io_t_device_platf.Provisioning.Enroll.{
  enroll_device, enroll_attempt, count_attempt, check_proof,
}
use secure_io_t_device_platf.Provisioning.Ready.{Ready, enroll-attempt}

-- The session after a proof that was refused: one more attempt, and closed by the fifth.
pub record Spent (c : Context) (payload : EnrollmentRequest) (b : BootstrapSession) (s t : Server)
    : Type 0 where
  pub session : BootstrapSession
  pub stored : find_session t payload.session_id ≡ some session
  pub counted : session.attempts ≡ suc b.attempts
  pub closed : session.consumed_at ≡ (if leb 4 b.attempts then some c.now else none)
  pub same_nonce : session.nonce_b64 ≡ b.nonce_b64
  pub same_expiry : session.expires_at ≡ b.expires_at
  pub devices : t.devices ≡ s.devices
  pub revoked_certificates : t.revoked_certificates ≡ s.revoked_certificates
  pub crl : t.crl ≡ s.crl

module _ (c : Context) (serial : ℕ) (payload : EnrollmentRequest) (s : Server) (d : Device)
    (b : BootstrapSession) (r : Ready c payload s d b) where
  refused : Server
  refused =
      save_session (close_if_exhausted (count_attempt b c.now) c.now)
        (save_session (count_attempt b c.now) s)

  id_kept : (close_if_exhausted (count_attempt b c.now) c.now).session_id ≡ payload.session_id
  unfolding close_if_exhausted close_session count_attempt
  id_kept =
      ground (arith, Table.find_key session_key payload.session_id s.sessions b r.found_session)

  refused-Spent : Spent c payload b s refused
  unfolding refused save_session
  refused-Spent =
      let last = close_if_exhausted (count_attempt b c.now) c.now in
      record {
        session = last;
        stored = rw (← id_kept) (
            Table.find-save_self session_key last
              (Table.save session_key (count_attempt b c.now) s.sessions));
        counted = unfold close_if_exhausted close_session count_attempt in ground arith;
        closed = unfold close_if_exhausted close_session count_attempt in ground (arith, r.unused);
        same_nonce = unfold close_if_exhausted close_session count_attempt in ground arith;
        same_expiry = unfold close_if_exhausted close_session count_attempt in ground arith;
        devices = refl;
        revoked_certificates = refl;
        crl = refl;
      }

  -- On a session that may be answered, a request whose proof does not verify is refused with 401. It
  -- counts one attempt, which is the last if four were counted before: then the session is closed.
  -- Devices, revocations and the CRL stay as they were.
  pub enroll_wrong_proof :
      (csr : Csr) (digest : String)
      → check_proof c payload d (count_attempt b c.now) ≡ ok (csr, digest, false)
      → (t : Server) × (enroll_device c serial payload s
          ≡ (http_error 401 "invalid cryptographic proof", t))
        × Spent c payload b s t
  unfolding enroll_attempt refused
  enroll_wrong_proof csr digest h =
      (refused, enroll-attempt c serial payload s d b r ∙ rw (h, enroll_attempt), refused-Spent)

  -- The same for a request whose CSR, or whose proof, raises a security error: it is refused with 400.
  pub enroll_bad_request :
      (e : String)
      → check_proof c payload d (count_attempt b c.now) ≡ security_error e
      → (t : Server) × (enroll_device c serial payload s ≡ (http_error 400 e, t))
        × Spent c payload b s t
  unfolding enroll_attempt refused
  enroll_bad_request e h =
      (refused, enroll-attempt c serial payload s d b r ∙ rw (h, enroll_attempt), refused-Spent)
