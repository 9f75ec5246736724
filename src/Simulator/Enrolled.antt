-- ===== src/Simulator/Enrolled.antt =====
-- The simulated device and the server together: a bootstrap from the challenge to the stored files.
use mathlib.Core.Path.{subst}
use secure_io_t_device_platf.Base.{
  ◌≡◌, refl, sym, ◌∙◌, ap, arith, String, true, false, some, map, eq_refl, leb,
}
use secure_io_t_device_platf.Base.Text.{codes, lower, strip, same_codes}
use secure_io_t_device_platf.Table
use secure_io_t_device_platf.Env.{Crypto, Reply, response}
use secure_io_t_device_platf.Models.{
  Server, Device, BootstrapSession, device_key, session_key, find_device, save_session, save_device,
  present,
}
use secure_io_t_device_platf.Security.{csr_sha256, is_hex_digest, canonical_proof_message}
use secure_io_t_device_platf.Security.Proofs.{
  Accepted, same_codes_iff, decode_bootstrap_secret-length,
}
use secure_io_t_device_platf.Provisioning.Challenge.{
  Challenge, create_challenge, open_session, new_session, supersede,
}
use secure_io_t_device_platf.Provisioning.Finish.{
  EnrollmentRequest, issued_session, Enrollment, enrollment_of, provisioned_device,
  commit_enrollment,
}
use secure_io_t_device_platf.Provisioning.Enroll.{enroll_device, count_attempt}
use secure_io_t_device_platf.Provisioning.Ready.{Ready}
use secure_io_t_device_platf.Provisioning.Honest.{Honest, honest_device_enrolls}
use secure_io_t_device_platf.Registry.{record_revocation}
use secure_io_t_device_platf.Simulator.Client.{
  on_body, Files, World, Args, Attempt, credentials_available, ensure_factory_identity, only_name,
  validate_local_credentials, store_credentials, finish_provision, enrollment_request,
  answer_challenge, bootstrap, provision_if_needed,
}
use secure_io_t_device_platf.Simulator.Http.{ClientLib, Link, delivered, body, http_json, http_of}
use secure_io_t_device_platf.Simulator.Proofs.{lower-strip_hex, calculate_proof-some}
use secure_io_t_device_platf.Simulator.Able.{Digests, Able, Shares}

delivers :
    {A : Type 0} (link : Link) (handler : Server → Reply A × Server) (s : Server) (x : A)
    (s' : Server)
    → link ≡ delivered
    → handler s ≡ (response x, s')
    → http_json link handler s ≡ (body x, s')
unfolding http_json http_of
delivers link handler s x s' sent answered = rw (sent, http_json, answered) refl

module _ (lib : ClientLib) (args : Args) (a : Attempt) (w : World) (d : Device) (secret : String)
    (documented : Digests a.enroll_context.crypto lib) (k : Able lib args a w d)
    (sh : Shares a secret d) where
  crypto : Crypto
  crypto = a.enroll_context.crypto

  same_id : d.device_id ≡ args.device_id
  same_id = Table.find_key device_key args.device_id w.server.devices d k.found

  digest : String
  digest = crypto.sha256_hex a.csr_der

  proof : String
  proof = lib.hexdigest sh.bits (canonical_proof_message args.device_id a.session_id a.nonce digest)

  session : BootstrapSession
  session =
      new_session a.session_id d.device_id a.nonce a.source_ip a.challenge_context.now
        a.challenge_context.settings.challenge_ttl_seconds

  challenge : Challenge
  challenge = record {
    device_id = d.device_id;
    session_id = a.session_id;
    nonce = a.nonce;
    expires_at = session.expires_at;
  }

  challenged : Server
  challenged = save_session session (record w.server {
    sessions = map (supersede d.device_id a.challenge_context.now) w.server.sessions;
  })

  challenge_granted :
      create_challenge a.challenge_context args.device_id a.session_id a.nonce a.source_ip w.server
      ≡ (response challenge, challenged)
  unfolding create_challenge open_session challenge challenged session
  challenge_granted =
      rw (k.found, create_challenge, k.authorized, k.unlocked, k.fresh, open_session) refl

  request : EnrollmentRequest
  request = enrollment_request crypto lib args a challenge proof

  ready : Ready a.enroll_context request challenged d session
  unfolding request enrollment_request challenge challenged session new_session save_session
  ready = record {
    found_session =
        Table.find-save_self session_key session
          (map (supersede d.device_id a.challenge_context.now) w.server.sessions);
    found_device = k.found;
    owner = same_id;
    authorized = k.authorized;
    unused = refl;
    alive = k.alive;
    tries = omega arith;
  }

  accepted :
      Accepted crypto proof secret d.device_id session.session_id session.nonce_b64
        (csr_sha256 crypto k.csr)
  unfolding proof digest csr_sha256 session new_session crypto
  accepted =
      let text =
        lib.hexdigest sh.bits
          (canonical_proof_message args.device_id a.session_id a.nonce digest) in
      let digits =
        documented.hex sh.bits
          (canonical_proof_message args.device_id a.session_id a.nonce digest) in
      let read : lower (strip text) ≡ codes text = lower-strip_hex text digits in
      (
        sh.bits,
        sh.decoded,
        decode_bootstrap_secret-length crypto secret sh.bits sh.decoded,
        read
            ∙ documented.same sh.bits
                (canonical_proof_message args.device_id a.session_id a.nonce digest)
            ∙ ap
                (λ id.
                  crypto.hmac_sha256_hex sh.bits
                    (canonical_proof_message id a.session_id a.nonce digest))
                (sym same_id)
            ∙ ap
                (λ der. crypto.hmac_sha256_hex sh.bits (
                  canonical_proof_message d.device_id a.session_id a.nonce (crypto.sha256_hex der)))
                (sym k.encoded),
        ap is_hex_digest read ∙ digits,
      )

  honest : Honest a.enroll_context a.serial request d session
  unfolding request enrollment_request challenge crypto
  honest = record {
    csr = k.csr;
    box = sh.box;
    secret = secret;
    certificate = k.certificate;
    ca_pem = k.ca_pem;
    parsed = k.parsed;
    unsealed = sh.unsealed;
    opened = sh.opened;
    accepted = accepted;
    unlocked = k.still_unlocked;
    issued = k.issued;
    ca_read = k.ca_read;
  }

  enrollment : Enrollment
  enrollment = enrollment_of a.enroll_context.settings d.device_id k.certificate k.ca_pem

  enrolled : Server
  enrolled =
      commit_enrollment a.enroll_context d (count_attempt session a.enroll_context.now)
        (csr_sha256 crypto k.csr) k.certificate
        (save_session (count_attempt session a.enroll_context.now) challenged)

  enroll_succeeds :
      enroll_device a.enroll_context a.serial request challenged ≡ (response enrollment, enrolled)
  unfolding enrollment enrolled crypto honest challenged save_session
  enroll_succeeds =
      honest_device_enrolls a.enroll_context a.serial request d session honest challenged ready
        k.first k.free

  stored : Files
  stored = store_credentials a.written a.key enrollment w.files

  finished :
      finish_provision crypto lib args a enrollment (record w { server = enrolled })
      ≡ (some enrollment, record { files = stored; server = enrolled })
  unfolding finish_provision enrollment enrollment_of stored
  finished =
      let certified : same_codes k.loaded.public_bytes a.key ≡ true =
        (same_codes_iff k.loaded.public_bytes a.key).1 k.certifies in
      let four : leb 4 a.written ≡ true = ground (arith, k.all_written) in
      rw (k.loads, finish_provision, certified, four) refl

  answered :
      answer_challenge crypto lib args a secret challenge (record w { server = challenged })
      ≡ (some enrollment, record { files = stored; server = enrolled })
  unfolding answer_challenge on_body request challenge crypto digest proof
  answered =
      rw
        (
          calculate_proof-some crypto lib secret args.device_id a.session_id a.nonce digest sh.bits
              sh.decoded,
          answer_challenge,
          delivers a.enroll_link (enroll_device a.enroll_context a.serial request) challenged
              enrollment enrolled k.delivered_enroll enroll_succeeds,
        )
        finished

  bootstrap_succeeds :
      bootstrap crypto lib args a secret w
      ≡ (some enrollment, record { files = stored; server = enrolled })
  unfolding bootstrap on_body
  bootstrap_succeeds =
      rw
        (
          delivers a.challenge_link
              (create_challenge a.challenge_context args.device_id a.session_id a.nonce a.source_ip)
              w.server challenge challenged k.delivered_challenge challenge_granted,
          bootstrap,
        )
        answered

  stored_all :
      (stored.key ≡ some a.key)
      × (stored.certificate ≡ some k.certificate.pem)
      × (stored.ca ≡ some k.ca_pem)
      × (stored.provisioning ≡ some enrollment)
  unfolding stored store_credentials enrollment enrollment_of
  stored_all =
      let four = k.all_written in
      (ground (arith, four), ground (arith, four), ground (arith, four), ground (arith, four))

  stored_available : credentials_available stored ≡ true
  unfolding credentials_available
  stored_available =
      let (key, certificate, ca, provisioning) = stored_all in
      rw (key, credentials_available, certificate, ca, provisioning) refl

  stored_valid : validate_local_credentials lib args.device_id stored ≡ true
  unfolding validate_local_credentials
  stored_valid =
      let (key, certificate, ca, provisioning) = stored_all in
      let named : only_name k.loaded.common_names args.device_id ≡ true =
        ap (λ names. only_name names args.device_id) k.names ∙ eq_refl args.device_id in
      let certified : same_codes k.loaded.public_bytes a.key ≡ true =
        (same_codes_iff k.loaded.public_bytes a.key).1 k.certifies in
      rw (certificate, validate_local_credentials, k.loads, key, named, certified) refl

  found_enrolled :
      find_device enrolled args.device_id
      ≡ some (provisioned_device d k.certificate a.enroll_context.now)
  unfolding enrolled commit_enrollment save_device provisioned_device
  found_enrolled =
      let row = provisioned_device d k.certificate a.enroll_context.now in
      subst (λ id. find_device enrolled id ≡ some row) same_id
        (Table.find-save_self device_key row
          (save_session
            (issued_session (count_attempt session a.enroll_context.now) (csr_sha256 crypto k.csr)
              a.enroll_context.now)
            (record_revocation (present d.certificate_serial) d.device_id a.enroll_context.now
              "superseded"
              (save_session (count_attempt session a.enroll_context.now) challenged))).devices)

  -- Every later run finds the stored credentials.
  later_run :
      (c : Crypto) (b : Attempt)
      → provision_if_needed c lib args b (record { files = stored; server = enrolled })
        ≡ (some enrollment, record { files = stored; server = enrolled })
  unfolding provision_if_needed
  later_run c b =
      let (key, certificate, ca, provisioning) = stored_all in
      rw (stored_available, provision_if_needed, stored_valid, provisioning) refl

  first_run :
      (start : World)
      → credentials_available start.files ≡ false
      → ensure_factory_identity args a start ≡ (some (some secret), w)
      → provision_if_needed crypto lib args a start
        ≡ (some enrollment, record { files = stored; server = enrolled })
  unfolding provision_if_needed
  first_run start missing identity =
      let secret_known : (ensure_factory_identity args a start).0 ≡ some (some secret) =
        ap (λ p. p.0) identity in
      rw (missing, provision_if_needed, secret_known, sh.nonempty)
        (ap (λ p. bootstrap crypto lib args a secret p.1) identity ∙ bootstrap_succeeds)

-- A device without credentials that has, or registers, the secret which the server has sealed for it; a
-- server that may enroll it; documented digests; no request lost and no write interrupted: then the run
-- of the client succeeds, its four files are there, the server has the device as provisioned, and every
-- later run, whatever it would meet, finds the same configuration and changes nothing.
pub simulated_device_enrolls :
    (lib : ClientLib) (args : Args) (a : Attempt) (start w : World) (d : Device) (secret : String)
    → Digests a.enroll_context.crypto lib
    → credentials_available start.files ≡ false
    → ensure_factory_identity args a start ≡ (some (some secret), w)
    → (k : Able lib args a w d) → Shares a secret d
    → (e : Enrollment) × (after : World) × (provision_if_needed a.enroll_context.crypto lib args a
          start
        ≡ (some e, after))
      × (credentials_available after.files ≡ true)
      × (find_device after.server args.device_id
          ≡ some (provisioned_device d k.certificate a.enroll_context.now))
      × ((c : Crypto) (b : Attempt) → provision_if_needed c lib args b after ≡ (some e, after))
unfolding crypto
simulated_device_enrolls lib args a start w d secret documented missing identity k sh = (
  enrollment lib args a w d secret documented k sh,
  record {
    files = stored lib args a w d secret documented k sh;
    server = enrolled lib args a w d secret documented k sh;
  },
  first_run lib args a w d secret documented k sh start missing identity,
  stored_available lib args a w d secret documented k sh,
  found_enrolled lib args a w d secret documented k sh,
  later_run lib args a w d secret documented k sh,
)
