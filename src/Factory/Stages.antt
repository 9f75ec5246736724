-- ===== src/Factory/Stages.antt =====
-- How far a run of the station goes, and what has been sent to the unit by then.
use secure_io_t_device_platf.Base.{
  String, ◌≡◌, refl, ap, sym, arith, Bool, true, false, Bool-cases, inl, inr, ◌⊎◌, if◌then◌else◌,
}
use secure_io_t_device_platf.Json.{Json, JsonLib}
use secure_io_t_device_platf.Models.{Server}
use secure_io_t_device_platf.Factory.Serial.{
  Failure, wrong_family, Step, done, failed, serial_exception, uncaught, ReadyIdentity,
  wait_for_ready, build_factory_command,
}
use secure_io_t_device_platf.Factory.Provision.{
  Api, Options, Port, Factory, register_or_reset_device, send_factory_data, observe_bootstrap,
  inject, on_ready, provision_device, preconditions, is_expected,
}

pub Step-cases {ℓ} :
    {A : Type ℓ} (r : Step A)
    → ((a : A) × (r ≡ done a))
      ⊎ ((e : Failure) × (r ≡ failed e))
      ⊎ (r ≡ serial_exception)
      ⊎ (r ≡ uncaught)
Step-cases (done a) = inl (a, refl)
Step-cases (failed e) = inr (inl (e, refl))
Step-cases serial_exception = inr (inr (inl refl))
Step-cases uncaught = inr (inr (inr refl))

abbrev pub is_done {ℓ} : {A : Type ℓ} → Step A → Bool
is_done (done a) = true
is_done _ = false

-- The run ends before anything is sent.
pub record Stopped (lib : JsonLib) (o : Options) (port : Port) (api : Api) (f : Factory)
    (run : Step ReadyIdentity × Factory) : Type 0 where
  pub unfinished : is_done run.0 ≡ false
  pub unsent : run.1.sent ≡ f.sent
  pub server :
      (run.1.server ≡ f.server)
      ⊎ ((i : ReadyIdentity) × (wait_for_ready lib port.at_start ≡ done i)
          × (run.1.server
              ≡ (register_or_reset_device api i o.display_name o.reset_existing f.server).1))

-- The run has a secret for the unit that announced itself, and goes on to send it.
pub record Armed (lib : JsonLib) (dumps : Json → String) (o : Options) (port : Port) (api : Api)
    (f : Factory) (run : Step ReadyIdentity × Factory) : Type 0 where
  pub identity : ReadyIdentity
  pub announced : wait_for_ready lib port.at_start ≡ done identity
  pub expected : is_expected o.expected_family identity ≡ true
  pub secret : String
  pub server : Server
  pub obtained :
      register_or_reset_device api identity o.display_name o.reset_existing f.server
      ≡ (done secret, server)
  pub goes_on :
      run
      ≡ observe_bootstrap o port identity (
          send_factory_data port
            (build_factory_command dumps identity secret)
            identity.device_id
            (record f { server = server }))

pub observe_bootstrap-snd :
    (o : Options) (port : Port) (i : ReadyIdentity) (r : Step (Unit {0}) × Factory)
    → (observe_bootstrap o port i r).1 ≡ r.1
unfolding observe_bootstrap
observe_bootstrap-snd o port i (done u, f) = refl
observe_bootstrap-snd o port i (failed e, f) = refl
observe_bootstrap-snd o port i (serial_exception, f) = refl
observe_bootstrap-snd o port i (uncaught, f) = refl

pub server-send_factory_data :
    (port : Port) (command id : String) (f : Factory)
    → (send_factory_data port command id f).1.server ≡ f.server
unfolding send_factory_data
server-send_factory_data port command id f = ground arith

module _ (lib : JsonLib) (dumps : Json → String) (o : Options) (port : Port) (api : Api)
    (f : Factory) where
  abbrev Stages : Step ReadyIdentity × Factory → Type 0
  Stages run = Stopped lib o port api f run ⊎ Armed lib dumps o port api f run

  stopped : (r : Step ReadyIdentity) → is_done r ≡ false → Stages (r, f)
  stopped r h = inl (record { unfinished = h; unsent = refl; server = inl refl })

  inject-Stages :
      (i : ReadyIdentity) (r : Step String × Server)
      → wait_for_ready lib port.at_start ≡ done i
      → is_expected o.expected_family i ≡ true
      → register_or_reset_device api i o.display_name o.reset_existing f.server ≡ r
      → Stages (inject lib dumps o port api i r f)
  unfolding inject
  inject-Stages i (done secret, s) e x k = inr (record {
    identity = i;
    announced = e;
    expected = x;
    secret = secret;
    server = s;
    obtained = k;
    goes_on = refl;
  })
  inject-Stages i (failed e', s) e x k =
      inl (record { unfinished = refl; unsent = refl; server = inr (i, e, ap (λ r. r.1) (sym k)) })
  inject-Stages i (serial_exception, s) e x k =
      inl (record { unfinished = refl; unsent = refl; server = inr (i, e, ap (λ r. r.1) (sym k)) })
  inject-Stages i (uncaught, s) e x k =
      inl (record { unfinished = refl; unsent = refl; server = inr (i, e, ap (λ r. r.1) (sym k)) })

  on_ready-Stages :
      (r : Step ReadyIdentity)
      → wait_for_ready lib port.at_start ≡ r
      → Stages (on_ready lib dumps o port api r f)
  unfolding on_ready
  on_ready-Stages (done i) e = elim (Bool-cases (is_expected o.expected_family i)) [
    | inl x ↦ rw (x, on_ready) (inject-Stages i _ e x refl)
    | inr x ↦ rw (x, on_ready) (stopped (failed wrong_family) refl)
  ]
  on_ready-Stages (failed e') e = stopped (failed e') refl
  on_ready-Stages serial_exception e = stopped serial_exception refl
  on_ready-Stages uncaught e = stopped uncaught refl

  opened-Stages :
      (opens : Bool)
      → Stages (
          if opens
          then on_ready lib dumps o port api (wait_for_ready lib port.at_start) f
          else (serial_exception, f))
  opened-Stages true = on_ready-Stages (wait_for_ready lib port.at_start) refl
  opened-Stages false = stopped serial_exception refl

  pub provision_device-Stages : Stages (provision_device lib dumps o port api f)
  unfolding provision_device
  provision_device-Stages = elim (Step-cases (preconditions lib dumps o port api)) [
    | inr (inl (e, k)) ↦ rw (k, provision_device) (stopped (failed e) refl)
    | inr (inr (inl k)) ↦ rw (k, provision_device) (stopped serial_exception refl)
    | inr (inr (inr k)) ↦ rw (k, provision_device) (stopped uncaught refl)
    | inl (u, k) ↦ rw (k, provision_device) (opened-Stages port.opens)
  ]
