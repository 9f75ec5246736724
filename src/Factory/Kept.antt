-- ===== src/Factory/Kept.antt =====
-- What a run of the station leaves alone on the server, also a run that fails.
use secure_io_t_device_platf.Base.{
  String, ◌≡◌, ◌∙◌, ap, arith, Bool, false, some, Option, Option-cases, Bool-cases, inl, inr, ◌⊎◌,
  ◌==◌, eqb, eq_iff,
}
use secure_io_t_device_platf.Table
use secure_io_t_device_platf.Env.{Context, Try, ok, security_error, crash, Reply}
use secure_io_t_device_platf.Json.{Json, JsonLib}
use secure_io_t_device_platf.Models.{Server, Device, device_key, find_device, save_device}
use secure_io_t_device_platf.Registry.{
  register_device, register_checked, insert_device, reset_bootstrap_secret,
}
use secure_io_t_device_platf.Registry.Resetting.{others-reset}
use secure_io_t_device_platf.Mqtt.Publish.{evict_device}
use secure_io_t_device_platf.Admin.{DeviceCreate, create_device, reset_device, reset_response}
use secure_io_t_device_platf.Admin.Frame.{create_response-snd}
use secure_io_t_device_platf.Simulator.Http.{
  Link, delivered, lost, unanswered, answered_by, http_json,
}
use secure_io_t_device_platf.Simulator.Credentials.{Http-cases}
use secure_io_t_device_platf.Factory.Serial.{
  done, ReadyIdentity, wait_for_ready, build_factory_command,
}
use secure_io_t_device_platf.Factory.Provision.{
  Api, Options, Port, Factory, registration_payload, register_or_reset_device, send_factory_data,
  provision_device,
}
use secure_io_t_device_platf.Factory.Stages.{
  provision_device-Stages, observe_bootstrap-snd, server-send_factory_data,
}

-- The row of this device is the same in both states.
abbrev Same : String → Device → Server → Server → Type 0
Same j d s t = find_device s j ≡ some d → find_device t j ≡ some d

http_json-Same :
    {A : Type 0} (j : String) (d : Device) (link : Link) (h : Server → Reply A × Server)
    (s : Server)
    → Same j d s (h s).1
    → Same j d s (http_json link h s).1
unfolding http_json
http_json-Same j d delivered h s k = k
http_json-Same j d lost h s k = λ e. e
http_json-Same j d unanswered h s k = k
http_json-Same j d (answered_by n) h s k = λ e. e

module _ (c : Context) (j : String) (d : Device) where
  insert_device-Same :
      (row : Device) (secret : String) (s : Server)
      → find_device s j ≡ some d
      → find_device (insert_device row secret s).1 j ≡ some d
  unfolding insert_device save_device
  insert_device-Same row secret s h =
      ground (arith, Table.find-save device_key row j s.devices, eq_iff row.device_id j)

  register_device-Same :
      (seen s : Server) (id family : String) (name : Option String) (kind : String) (allow : Bool)
      (secret : String)
      → find_device s j ≡ some d
      → find_device (register_device c seen s id family name kind allow secret).1 j ≡ some d
  unfolding register_device register_checked
  register_device-Same seen s id family name kind allow secret h = grind (arith, insert_device-Same)

  create_device-Same :
      (seen : Server) (p : DeviceCreate) (secret : String) (s : Server)
      → Same j d s (create_device c seen p secret s).1
  unfolding create_device
  create_device-Same seen p secret s h = rw create_response-snd (
      register_device-Same seen s p.device_id p.family p.display_name p.deployment_type
        p.allow_reprovisioning secret h)

  reset_response-Same :
      (d' : Device) (r : Try String × Server) (s : Server)
      → Same j d s r.1
      → Same j d s (reset_response c d' r).1
  unfolding reset_response evict_device
  reset_response-Same d' (ok secret, t) s k h = ground (arith, k h)
  reset_response-Same d' (security_error e, t) s k h = k h
  reset_response-Same d' (crash, t) s k h = k h

  reset_device-Same :
      (id secret : String) (s : Server)
      → (id == j) ≡ false
      → Same j d s (reset_device c id secret s).1
  unfolding reset_device
  reset_device-Same id secret s ne = elim (Option-cases (find_device s id)) [
    | inl e ↦ rw (e, reset_device) (λ h. h)
    | inr (d', e) ↦
        let ne' : (d'.device_id == j) ≡ false =
          rw (Table.find_key device_key id s.devices d' e) ne in
        rw (e, reset_device)
          (reset_response-Same d' (reset_bootstrap_secret c s d' secret) s
            (λ h. others-reset c secret j s d' ne' ∙ h))
  ]

-- A run that may not reset, and any run as far as another device goes.
abbrev MayKeep : Bool → String → String → Type 0
MayKeep reset_existing id j = (reset_existing ≡ false) ⊎ ((id == j) ≡ false)

module _ (api : Api) (name : Option String) (reset_existing : Bool) (j : String) (d : Device) where
  pub register_or_reset_device-Same :
      (identity : ReadyIdentity) (s : Server)
      → MayKeep reset_existing identity.device_id j
      → Same j d s (register_or_reset_device api identity name reset_existing s).1
  unfolding register_or_reset_device registration_payload
  register_or_reset_device-Same identity s may h =
      let payload = registration_payload identity name in
      let create = create_device api.context s payload api.secret in
      let reset = reset_device api.context identity.device_id api.rotated_secret in
      let (reply, s') = http_json api.register_link create s in
      let kept : find_device s' j ≡ some d =
        http_json-Same j d api.register_link create s
          (create_device-Same api.context j d s payload api.secret s) h in
      elim (Http-cases reply) [
        | inl (x, e) ↦ rw (e, register_or_reset_device) kept
        | inr (inr e) ↦ rw (e, register_or_reset_device) kept
        | inr (inl (n, e)) ↦ elim (Bool-cases (eqb n 409)) [
          | inr q ↦ rw (e, register_or_reset_device, q) kept
          | inl q ↦ elim (Bool-cases reset_existing) [
            | inr r ↦ rw (e, register_or_reset_device, q, r) kept
            | inl r ↦ elim may [
              | inl never ↦ absurd (ground arith)
              | inr ne ↦
                  rw (e, register_or_reset_device, q, r)
                    (http_json-Same j d api.reset_link reset s'
                      (reset_device-Same api.context j d identity.device_id api.rotated_secret s'
                        ne)
                      kept)
            ]
          ]
        ]
      ]

-- The row of a registered device is as it was after every run, whatever its outcome, unless the run may
-- reset and it is the device itself that announces itself.
pub registered_devices_kept :
    (lib : JsonLib) (dumps : Json → String) (o : Options) (port : Port) (api : Api) (f : Factory)
    (j : String) (d : Device)
    → ((i : ReadyIdentity)
        → wait_for_ready lib port.at_start ≡ done i
        → (o.reset_existing ≡ false) ⊎ ((i.device_id == j) ≡ false))
    → find_device f.server j ≡ some d
    → find_device (provision_device lib dumps o port api f).1.server j ≡ some d
registered_devices_kept lib dumps o port api f j d may h =
    elim (provision_device-Stages lib dumps o port api f) [
      | inl k ↦ elim k.server [
        | inl e ↦ rw e h
        | inr (i, announced, e) ↦ rw e (
            register_or_reset_device-Same api o.display_name o.reset_existing j d i f.server
              (may i announced) h)
      ]
      | inr k ↦
          let i = k.identity in
          let after =
            register_or_reset_device-Same api o.display_name o.reset_existing j d i f.server
              (may i k.announced) h in
          let sent =
            send_factory_data port (build_factory_command dumps i k.secret) i.device_id
              (record f { server = k.server }) in
          let server : (provision_device lib dumps o port api f).1.server ≡ k.server =
            ap (λ r. r.1.server) k.goes_on
            ∙ ap (λ g. g.server) (observe_bootstrap-snd o port i sent)
            ∙ server-send_factory_data port (build_factory_command dumps i k.secret) i.device_id
                (record f { server = k.server }) in
          rw server (rw (ap (λ r. r.1) k.obtained) at after)
    ]
