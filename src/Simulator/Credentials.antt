-- ===== src/Simulator/Credentials.antt =====
-- The files of a simulated device, however its runs are interrupted.
use mathlib.Core.Path.{subst}
use secure_io_t_device_platf.Base.{
  ℕ, ◌≤◌, ◌≡◌, refl, ◌∙◌, arith, String, true, false, Option, none, some, List, [], ◌∷◌, eqb, leb,
  Bool-cases, Option-cases, inl, inr, ◌⊎◌,
}
use secure_io_t_device_platf.Base.Text.{same_codes, is_empty}
use secure_io_t_device_platf.Env.{Crypto}
use secure_io_t_device_platf.Models.{Server}
use secure_io_t_device_platf.Security.Proofs.{same_codes_iff}
use secure_io_t_device_platf.Provisioning.Challenge.{Challenge, create_challenge}
use secure_io_t_device_platf.Provisioning.Enroll.{enroll_device}
use secure_io_t_device_platf.Provisioning.Finish.{Enrollment}
use secure_io_t_device_platf.Admin.{create_device, reset_device}
use secure_io_t_device_platf.Simulator.Client.{
  on_body, Files, World, Args, Attempt, credentials_available, write_factory, registration,
  register, ensure_factory_identity, store_credentials, finish_provision, enrollment_request,
  answer_challenge, bootstrap, provision_if_needed,
}
use secure_io_t_device_platf.Simulator.Http.{
  ParsedCertificate, ClientLib, Http, body, http_status, no_connection, http_json, calculate_proof,
}

-- The files of one enrollment: its certificate and that of the CA, and the key it certifies.
pub record Complete (lib : ClientLib) (e : Enrollment) (f : Files) : Type 0 where
  pub certificate : f.certificate ≡ some e.certificate_pem
  pub ca : f.ca ≡ some e.ca_certificate_pem
  pub parsed : ParsedCertificate
  pub loaded : lib.load_certificate e.certificate_pem ≡ some parsed
  pub key : f.key ≡ some parsed.public_bytes

-- A configuration stands only beside the files of its enrollment.
abbrev pub Matching : ClientLib → Files → Type 0
Matching lib f = (e : Enrollment) → f.provisioning ≡ some e → Complete lib e f

pub Http-cases :
    {A : Type 0} (h : Http A)
    → ((x : A) × (h ≡ body x)) ⊎ ((n : ℕ) × (h ≡ http_status n)) ⊎ (h ≡ no_connection)
Http-cases (body x) = inl (x, refl)
Http-cases (http_status n) = inr (inl (n, refl))
Http-cases no_connection = inr (inr refl)

body-Matching :
    {A B : Type 0} {lib : ClientLib} (h : Http A) (go : A → World → Option B × World) (w : World)
    → w.files.provisioning ≡ none
    → ((x : A) → Matching lib (go x w).1.files)
    → Matching lib (on_body h go w).1.files
unfolding on_body
body-Matching (body x) go w h k = k x
body-Matching (http_status n) go w h k = λ e q. absurd (ground (arith, h, q))
body-Matching no_connection go w h k = λ e q. absurd (ground (arith, h, q))

module _ (crypto : Crypto) (lib : ClientLib) (args : Args) where
  unconfigured : (f : Files) → f.provisioning ≡ none → Matching lib f
  unconfigured f h e k = absurd (ground arith)

  missing : (f : Files) → Matching lib f → credentials_available f ≡ false → f.provisioning ≡ none
  unfolding credentials_available
  missing f m h = elim (Option-cases f.provisioning) [
    | inl e ↦ e
    | inr (e, k) ↦ let c = m e k in absurd (ground (arith, c.certificate, c.ca, c.key))
  ]

  module _ (a : Attempt) where
    register-provisioning :
        (w : World) → (register args a w).1.files.provisioning ≡ w.files.provisioning
    unfolding register write_factory
    register-provisioning w =
        let (reply, s) =
          http_json a.register_link
            (create_device a.register_context w.server (registration args) a.secret) w.server in
        let (again, s') =
          http_json a.reset_link (reset_device a.register_context args.device_id a.rotated_secret)
            s in
        elim (Http-cases reply) [
          | inl (x, e) ↦ rw (e, register) refl
          | inr (inr e) ↦ rw (e, register) refl
          | inr (inl (n, e)) ↦ elim (Bool-cases (eqb n 409)) [
            | inr k ↦ rw (e, register, k) refl
            | inl k ↦ elim (Http-cases again) [
              | inl (x, q) ↦ rw (e, register, k, q) refl
              | inr (inl (n', q)) ↦ rw (e, register, k, q) refl
              | inr (inr q) ↦ rw (e, register, k, q) refl
            ]
          ]
        ]

    ensure-provisioning :
        (w : World) → (ensure_factory_identity args a w).1.files.provisioning ≡ w.files.provisioning
    unfolding ensure_factory_identity
    ensure-provisioning w = ground (arith, register-provisioning w)

    complete :
        (e : Enrollment) (f : Files) (issued : ParsedCertificate)
        → lib.load_certificate e.certificate_pem ≡ some issued
        → same_codes issued.public_bytes a.key ≡ true
        → 4 ≤ a.written
        → Matching lib (store_credentials a.written a.key e f)
    unfolding store_credentials
    complete e f issued k q four e' k' =
        let stored : some e ≡ some e' = ground (arith, k', four) in
        let same : e ≡ e' = cc in
        subst (λ x. Complete lib x (store_credentials a.written a.key e f)) same
          (record {
            certificate = ground (arith, four);
            ca = ground (arith, four);
            parsed = issued;
            loaded = k;
            key = ground (arith, four, (same_codes_iff issued.public_bytes a.key).0 q);
          })

    finish-Matching :
        (e : Enrollment) (w : World)
        → w.files.provisioning ≡ none
        → Matching lib (finish_provision crypto lib args a e w).1.files
    unfolding finish_provision store_credentials
    finish-Matching e w h = elim (Option-cases (lib.load_certificate e.certificate_pem)) [
      | inl k ↦ rw (k, finish_provision) (unconfigured w.files h)
      | inr (issued, k) ↦ elim (Bool-cases (same_codes issued.public_bytes a.key)) [
        | inr q ↦ rw (k, finish_provision, q) (unconfigured w.files h)
        | inl q ↦ elim (Bool-cases (leb 4 a.written)) [
          | inl x ↦ rw (k, finish_provision, q) (complete e w.files issued k q (ground arith))
          | inr x ↦ rw (k, finish_provision, q) (λ e' k'. absurd (ground arith))
        ]
      ]
    ]

    answer-Matching :
        (secret : String) (challenge : Challenge) (w : World)
        → w.files.provisioning ≡ none
        → Matching lib (answer_challenge crypto lib args a secret challenge w).1.files
    unfolding answer_challenge
    answer-Matching secret challenge w h =
        elim (Option-cases (
          calculate_proof crypto lib secret args.device_id challenge.session_id challenge.nonce
            (crypto.sha256_hex a.csr_der))) [
              | inl e ↦ rw (e, answer_challenge) (unconfigured w.files h)
              | inr (proof, e) ↦
                  let (reply, s) =
                    http_json a.enroll_link
                      (enroll_device a.enroll_context a.serial
                        (enrollment_request crypto lib args a challenge proof))
                      w.server in
                  rw (e, answer_challenge)
                    (body-Matching reply (finish_provision crypto lib args a)
                      (record w { server = s }) h
                      (λ x. finish-Matching x (record w { server = s }) h))
            ]

    bootstrap-Matching :
        (secret : String) (w : World)
        → w.files.provisioning ≡ none
        → Matching lib (bootstrap crypto lib args a secret w).1.files
    unfolding bootstrap
    bootstrap-Matching secret w h =
        let (reply, s) =
          http_json a.challenge_link
            (create_challenge a.challenge_context args.device_id a.session_id a.nonce a.source_ip)
            w.server in
        body-Matching reply (answer_challenge crypto lib args a secret) (record w { server = s }) h
          (λ x. answer-Matching secret x (record w { server = s }) h)

    provision-Matching :
        (w : World)
        → Matching lib w.files
        → Matching lib (provision_if_needed crypto lib args a w).1.files
    unfolding provision_if_needed
    provision-Matching w m = elim (Bool-cases (credentials_available w.files)) [
      | inl e ↦ rw (e, provision_if_needed) m
      | inr e ↦
          let known = (ensure_factory_identity args a w).1 in
          let h : known.files.provisioning ≡ none = ensure-provisioning w ∙ missing w.files m e in
          elim (Option-cases (ensure_factory_identity args a w).0) [
            | inl k ↦ rw (e, provision_if_needed, k) (unconfigured known.files h)
            | inr (none, k) ↦ rw (e, provision_if_needed, k) (unconfigured known.files h)
            | inr (some secret, k) ↦ elim (Bool-cases (is_empty secret)) [
              | inl q ↦ rw (e, provision_if_needed, k, q) (unconfigured known.files h)
              | inr q ↦ rw (e, provision_if_needed, k, q) (bootstrap-Matching secret known h)
            ]
          ]
    ]

-- A run of the client, and whatever happens to the server between two runs.
pub data Turn : Type 0 where
  tries : Attempt → Turn
  meets : Server → Turn

module _ (crypto : Crypto) (lib : ClientLib) (args : Args) where
  unfoldable pub client_step : Turn → World → World
  client_step (tries a) w = (provision_if_needed crypto lib args a w).1
  client_step (meets s) w = record w { server = s }

  unfoldable pub client_run : List Turn → World → World
  client_run [] w = w
  client_run (t ∷ ts) w = client_run ts (client_step t w)

  -- However often the client runs, whatever becomes of its requests, whatever the server does in between
  -- and wherever the writing of the files stops: a stored configuration stands beside the certificate of
  -- its enrollment, the certificate of the CA, and the key that the certificate is for.
  pub client_run-Matching :
      (ts : List Turn) (w : World) → Matching lib w.files → Matching lib (client_run ts w).files
  unfolding client_run client_step
  client_run-Matching [] w m = m
  client_run-Matching (tries a ∷ ts) w m =
      client_run-Matching ts (client_step (tries a) w) (provision-Matching crypto lib args a w m)
  client_run-Matching (meets s ∷ ts) w m = client_run-Matching ts (record w { server = s }) m
