-- ===== src/Provisioning/EnrollMoves.antt =====
-- Every request moves the table of sessions only as `Moves` allows.
use secure_io_t_device_platf.Base.{
  ℕ, String, ◌≡◌, refl, ◌∙◌, arith, Option, true, false, none, some, inl, inr, Option-cases,
  Bool-cases, leb, ◌⊎◌, not, ◌||◌, ◌==◌, ap, List,
}
use secure_io_t_device_platf.Table
use secure_io_t_device_platf.Env.{Context, Try, ok, security_error, crash, Try-cases, Csr}
use secure_io_t_device_platf.Models.{
  Server, Device, BootstrapSession, Outcome, session_key, save_session, save_device, find_session,
  find_device, present, expired, blocked, already_provisioned, server_error,
}
use secure_io_t_device_platf.Pki.{IssuedCertificate}
use secure_io_t_device_platf.Mqtt.Publish.{evict_device}
use secure_io_t_device_platf.Registry.{rebuild_crl_from_db}
use secure_io_t_device_platf.Registry.Frame.{rebuild-Keeps, record_revocation-Keeps}
use secure_io_t_device_platf.Provisioning.Moves.{Moves, stay, touch, opens, Continues}
use secure_io_t_device_platf.Provisioning.Challenge.{
  is_authorized, is_locked, create_challenge, open_session, new_session,
}
use secure_io_t_device_platf.Provisioning.Finish.{
  EnrollmentRequest, Enrollment, commit_enrollment, finish_enrollment, after_replacement,
  enrollment_of, issued_session, close_session, close_if_exhausted,
}
use secure_io_t_device_platf.Provisioning.Enroll.{
  enroll_device, enroll_known, enroll_open, enroll_attempt, enroll_proved, enroll_issue,
  count_attempt, check_proof, issuance,
}

-- `b` is an open row of the table that `s` has reached from `rows`.
pub record Open (rows : List BootstrapSession) (s : Server) (b : BootstrapSession) : Type 0 where
  pub reached : Moves rows s.sessions
  pub stored : Table.find session_key b.session_id s.sessions ≡ some b
  pub unused : b.consumed_at ≡ none

module _ (c : Context) where
  after_replacement-sessions :
      (d : Device) (e : Enrollment) (r : Try (Unit {0}) × Server)
      → (after_replacement c d e r).1.sessions ≡ r.1.sessions
  unfolding after_replacement evict_device
  after_replacement-sessions d e (ok u, s) = ground arith
  after_replacement-sessions d e (security_error x, s) = refl
  after_replacement-sessions d e (crash, s) = refl

  commit-sessions :
      (d : Device) (b : BootstrapSession) (digest : String) (cert : IssuedCertificate) (s : Server)
      → (commit_enrollment c d b digest cert s).sessions
        ≡ (save_session (issued_session b digest c.now) s).sessions
  unfolding commit_enrollment save_device save_session
  commit-sessions d b digest cert s = ground (
    arith,
    record_revocation-Keeps c (present d.certificate_serial) d.device_id c.now "superseded" s,
  )

  finish-sessions :
      (d : Device) (b : BootstrapSession) (digest : String) (cert : IssuedCertificate)
      (ca_pem : String) (s : Server)
      → ((finish_enrollment c d b digest cert ca_pem s).1.sessions ≡ s.sessions)
        ⊎ ((finish_enrollment c d b digest cert ca_pem s).1.sessions
            ≡ (save_session (issued_session b digest c.now) s).sessions)
  unfolding finish_enrollment
  finish-sessions d b digest cert ca_pem s =
      let t = commit_enrollment c d b digest cert s in
      ground (
        arith,
        commit-sessions d b digest cert s,
        rebuild-Keeps c t,
        after_replacement-sessions d (enrollment_of c.settings d.device_id cert ca_pem)
            (rebuild_crl_from_db c t),
      )

-- A row written with its identity, closed or not, goes on with the session.
close-Continues :
    (b : BootstrapSession) (o : Outcome) (now : ℕ) → Continues b (close_session b o now)
unfolding close_session
close-Continues b o now = ground arith

exhausted-Continues : (b : BootstrapSession) (now : ℕ) → Continues b (close_if_exhausted b now)
unfolding close_if_exhausted close_session
exhausted-Continues b now = ground arith

issued-Continues :
    (b : BootstrapSession) (digest : String) (now : ℕ) → Continues b (issued_session b digest now)
unfolding issued_session close_session
issued-Continues b digest now = ground arith

error-Continues : (b : BootstrapSession) → Continues b (record b { result = some server_error })
error-Continues b = ground arith

count-Continues :
    (b : BootstrapSession) (now : ℕ) → leb 5 b.attempts ≡ false → Continues b (count_attempt b now)
unfolding count_attempt
count-Continues b now h = ground arith

module _ {rows : List BootstrapSession} where
  -- The row is written once more, with its identity.
  write-Moves :
      {s : Server} {b : BootstrapSession}
      → Open rows s b
      → (b' : BootstrapSession) → Continues b b'
      → Moves rows (save_session b' s).sessions
  unfolding save_session
  write-Moves {s} {b} o b' k =
      touch o.reached b b' (ap (λ i. Table.find session_key i s.sessions) k.same_id ∙ o.stored)
        o.unused k

  module _ (c : Context) (serial : ℕ) (d : Device) {s : Server} {b : BootstrapSession}
      (o : Open rows s b) where
    finish-Moves :
        (digest : String) (cert : IssuedCertificate) (ca_pem : String)
        → Moves rows (finish_enrollment c d b digest cert ca_pem s).1.sessions
    finish-Moves digest cert ca_pem = elim (finish-sessions c d b digest cert ca_pem s) [
      | inl e ↦ rw e o.reached
      | inr e ↦ rw e (write-Moves o _ (issued-Continues b digest c.now))
    ]

    issue-Moves :
        (csr : Csr) (digest : String)
        → Moves rows (enroll_issue c serial d b csr digest s).1.sessions
    unfolding enroll_issue
    issue-Moves csr digest = elim (Try-cases (issuance c csr d serial)) [
      | inl ((cert, ca_pem), e) ↦ rw (e, enroll_issue) (finish-Moves digest cert ca_pem)
      | inr (inl (x, e)) ↦ rw (e, enroll_issue) (write-Moves o _ (error-Continues b))
      | inr (inr e) ↦ rw (e, enroll_issue) o.reached
    ]

    proved-Moves :
        (csr : Csr) (digest : String)
        → Moves rows (enroll_proved c serial d b csr digest s).1.sessions
    unfolding enroll_proved
    proved-Moves csr digest = elim (Bool-cases (is_locked c.settings d)) [
      | inl e ↦ rw e (write-Moves o _ (close-Continues b already_provisioned c.now))
      | inr e ↦ rw e (issue-Moves csr digest)
    ]

    attempt-Moves :
        (payload : EnrollmentRequest)
        → Moves rows (enroll_attempt c serial payload d b s).1.sessions
    unfolding enroll_attempt
    attempt-Moves payload = elim (Try-cases (check_proof c payload d b)) [
      | inl ((csr, digest, true), e) ↦ rw (e, enroll_attempt) (proved-Moves csr digest)
      | inl ((csr, digest, false), e) ↦
          rw (e, enroll_attempt) (write-Moves o _ (exhausted-Continues b c.now))
      | inr (inl (x, e)) ↦ rw (e, enroll_attempt) (write-Moves o _ (exhausted-Continues b c.now))
      | inr (inr e) ↦ rw (e, enroll_attempt) o.reached
    ]

  -- `enroll_open` is called on the row that was found, open.
  Open-Moves :
      (c : Context) (serial : ℕ) (payload : EnrollmentRequest) (d : Device) (s : Server)
      (b : BootstrapSession)
      → Open rows s b
      → Moves rows (enroll_open c serial payload d b s).1.sessions
  unfolding enroll_open
  Open-Moves c serial payload d s b o = elim (Bool-cases (leb b.expires_at c.now)) [
    | inl e ↦ rw e (write-Moves o _ (close-Continues b expired c.now))
    | inr e ↦ elim (Bool-cases (leb 5 b.attempts)) [
      | inl e' ↦ rw (e, e') (write-Moves o _ (close-Continues b blocked c.now))
      | inr e' ↦ rw (e, e') (attempt-Moves c serial d (counted-Open o e') payload)
    ]
  ]
    where
      counted-Open :
          Open rows s b
          → leb 5 b.attempts ≡ false
          → Open rows (save_session (count_attempt b c.now) s) (count_attempt b c.now)
      counted-Open o e' = record {
        reached = write-Moves o _ (count-Continues b c.now e');
        stored =
            unfold save_session in
            Table.find-save_self session_key (count_attempt b c.now) s.sessions;
        unused = unfold count_attempt in o.unused;
      }

  known-Moves :
      (c : Context) (serial : ℕ) (payload : EnrollmentRequest) (d : Device) (s : Server)
      (b : BootstrapSession)
      → Moves rows s.sessions
      → Table.find session_key b.session_id s.sessions ≡ some b
      → Moves rows (enroll_known c serial payload d b s).1.sessions
  unfolding enroll_known
  known-Moves c serial payload d s b m stored =
      elim (Bool-cases (not (b.device_id == payload.device_id) || not (is_authorized d))) [
        | inl e ↦ rw e m
        | inr e ↦ elim (Option-cases b.consumed_at) [
          | inl unused ↦
              rw (e, unused, enroll_known)
                (Open-Moves c serial payload d s b
                  (record { reached = m; stored = stored; unused = unused }))
          | inr (t, used) ↦ rw (e, used, enroll_known) m
        ]
      ]

-- An enrollment, whatever it answers, moves the sessions as `Moves` says.
pub enroll-Moves :
    (c : Context) (serial : ℕ) (payload : EnrollmentRequest) (s : Server)
    → Moves s.sessions (enroll_device c serial payload s).1.sessions
unfolding enroll_device
enroll-Moves c serial payload s = elim (Option-cases (find_session s payload.session_id)) [
  | inl e ↦ rw (e, enroll_device) stay
  | inr (b, e) ↦ elim (Option-cases (find_device s payload.device_id)) [
    | inl e' ↦ rw (e, e', enroll_device) stay
    | inr (d, e') ↦
        rw (e, e', enroll_device)
          (known-Moves c serial payload d s b stay (
            ap (λ k. find_session s k)
              (Table.find_key session_key payload.session_id s.sessions b e)
            ∙ e))
  ]
]

open_session-Moves :
    (c : Context) (session_id nonce : String) (ip : Option String) (d : Device) (s : Server)
    → Moves s.sessions (open_session c session_id nonce ip d s).1.sessions
unfolding open_session save_session
open_session-Moves c session_id nonce ip d s = elim (Option-cases (find_session s session_id)) [
  | inl e ↦
      rw (e, open_session)
        (unfold new_session in
          opens stay
            (new_session session_id d.device_id nonce ip c.now c.settings.challenge_ttl_seconds)
            c.now e refl refl)
  | inr (b, e) ↦ rw (e, open_session) stay
]

-- So does a challenge.
pub challenge-Moves :
    (c : Context) (device_id session_id nonce : String) (ip : Option String) (s : Server)
    → Moves s.sessions (create_challenge c device_id session_id nonce ip s).1.sessions
unfolding create_challenge
challenge-Moves c device_id session_id nonce ip s = elim (Option-cases (find_device s device_id)) [
  | inl e ↦ rw (e, create_challenge) stay
  | inr (d, e) ↦
      rw (e, create_challenge)
        (elim (Bool-cases (not (is_authorized d))) [
          | inl e' ↦ rw e' stay
          | inr e' ↦ elim (Bool-cases (is_locked c.settings d)) [
            | inl e'' ↦ rw (e', e'') stay
            | inr e'' ↦ rw (e', e'') (open_session-Moves c session_id nonce ip d s)
          ]
        ])
]
