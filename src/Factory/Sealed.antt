-- ===== src/Factory/Sealed.antt =====
-- The secret that the server returns to the station is the one that it sealed for the unit.
use mathlib.Core.Path.{subst}
use secure_io_t_device_platf.Base.{
  ℕ, ◌≤◌, String, ◌≡◌, refl, ◌∙◌, ap, sym, arith, Bool, some, none, List, Option, Option-cases,
  Bool-cases, inl, inr, ◌⊎◌, eq_refl, eqb, length,
}
use secure_io_t_device_platf.Base.Text.{codes}
use secure_io_t_device_platf.Table
use secure_io_t_device_platf.Env.{Context, Try, ok, security_error, crash, Reply, response}
use secure_io_t_device_platf.Models.{Server, Device, device_key, find_device, pending}
use secure_io_t_device_platf.Security.{validate_device_id, from_master_key, encrypt, decrypt}
use secure_io_t_device_platf.Registry.{
  Registration, registered, registry_error, invalid_input, crashed, register_device,
  reset_to_pending, reset_bootstrap_secret,
}
use secure_io_t_device_platf.Registry.Registering.{
  IsFernet, decrypt-encrypt, register_device-Enlisted,
}
use secure_io_t_device_platf.Registry.Resetting.{reset_bootstrap_secret-Replaced}
use secure_io_t_device_platf.Mqtt.Publish.{evict_device}
use secure_io_t_device_platf.Admin.{
  DeviceCreate, DeviceCreated, create_device, create_response, created, reset_device,
  reset_response,
}
use secure_io_t_device_platf.Simulator.Http.{
  Http, Link, delivered, lost, unanswered, answered_by, body, http_status, no_connection, http_json,
  http_of,
}
use secure_io_t_device_platf.Simulator.Credentials.{Http-cases}
use secure_io_t_device_platf.Factory.Serial.{done, ReadyIdentity}
use secure_io_t_device_platf.Factory.Provision.{
  Api, registration_payload, register_or_reset_device, replaced_secret, checked_secret,
}

-- A pending device without a certificate, under the announced id, whose sealed secret opens to this one.
pub record Sealed (c : Context) (given secret : String) (t : Server) : Type 0 where
  pub device : Device
  pub named : (validate_device_id given ≡ ok device.device_id) ⊎ (device.device_id ≡ given)
  pub stored : find_device t device.device_id ≡ some device
  pub is_pending : device.lifecycle_status ≡ pending
  pub no_certificate : device.certificate_serial ≡ none
  pub box : List ℕ
  pub unsealed : from_master_key c.crypto c.settings.bootstrap_master_key ≡ ok box
  pub opens : decrypt c.crypto box device.bootstrap_secret_encrypted ≡ ok secret

moved :
    (c : Context) (id x y : String) (s t : Server)
    → x ≡ y
    → s ≡ t
    → Sealed c id x s
    → Sealed c id y t
moved c id x y s t p q h =
    subst {A = String × Server} (λ z. Sealed c id z.0 z.1) (λ i. (p i, q i)) h

http_json-body :
    {A : Type 0} (link : Link) (h : Server → Reply A × Server) (s : Server) (x : A)
    → (http_json link h s).0 ≡ body x
    → h s ≡ (response x, (http_json link h s).1)
unfolding http_json http_of
http_json-body delivered h s x k = ground arith
http_json-body lost h s x k = absurd (ground arith)
http_json-body unanswered h s x k = absurd (ground arith)
http_json-body (answered_by status) h s x k = absurd (ground arith)

create_response-registered :
    (r : Registration × Server) (x : DeviceCreated) (t : Server)
    → create_response r ≡ (response x, t)
    → (d : Device) × (r ≡ (registered d x.bootstrap_secret, t))
unfolding create_response created
create_response-registered (registered d secret, s) x t h = (d, ground arith)
create_response-registered (registry_error e, s) x t h = absurd (ground arith)
create_response-registered (invalid_input e, s) x t h = absurd (ground arith)
create_response-registered (crashed, s) x t h = absurd (ground arith)

reset_response-ok :
    (c : Context) (d : Device) (r : Try String × Server) (x : DeviceCreated) (t : Server)
    → reset_response c d r ≡ (response x, t)
    → (r ≡ (ok x.bootstrap_secret, r.1)) × (t.devices ≡ r.1.devices)
unfolding reset_response created evict_device
reset_response-ok c d (ok secret, s) x t h = (ground arith, ground arith)
reset_response-ok c d (security_error e, s) x t h = absurd (ground arith)
reset_response-ok c d (crash, s) x t h = absurd (ground arith)

module _ (c : Context) (secret : String) (k : IsFernet c.crypto secret) where
  create_device-Sealed :
      (s : Server) (p : DeviceCreate) (x : DeviceCreated) (t : Server)
      → create_device c s p secret s ≡ (response x, t)
      → Sealed c p.device_id x.bootstrap_secret t
  unfolding create_device
  create_device-Sealed s p x t h =
      let r =
        register_device c s s p.device_id p.family p.display_name p.deployment_type
          p.allow_reprovisioning secret in
      let (d, e) = create_response-registered r x t h in
      let e' =
        register_device-Enlisted c s s p.device_id p.family p.display_name p.deployment_type
          p.allow_reprovisioning secret d x.bootstrap_secret t k e in
      record {
        device = d;
        named = inl e'.valid;
        stored = e'.stored;
        is_pending = e'.is_pending;
        no_certificate = e'.no_certificate;
        box = e'.box;
        unsealed = e'.unsealed;
        opens = e'.opens;
      }

  reset_device-Sealed :
      (s : Server) (id : String) (x : DeviceCreated) (t : Server)
      → reset_device c id secret s ≡ (response x, t)
      → Sealed c id x.bootstrap_secret t
  unfolding reset_device reset_to_pending
  reset_device-Sealed s id x t h = elim (Option-cases (find_device s id)) [
    | inl e ↦ absurd (ground arith)
    | inr (d, e) ↦
        let r = reset_bootstrap_secret c s d secret in
        let (answered, devices) = reset_response-ok c d r x t (rw (e, reset_device) at h) in
        let (same, k') =
          reset_bootstrap_secret-Replaced c secret s d x.bootstrap_secret r.1 answered in
        let row = reset_to_pending d (encrypt c.crypto k'.box secret) in
        record {
          device = row;
          named = inr (Table.find_key device_key id s.devices d e);
          stored =
              ap (Table.find device_key d.device_id) devices
              ∙ k'.rows d.device_id
              ∙ rw (eq_refl d.device_id);
          is_pending = refl;
          no_certificate = refl;
          box = k'.box;
          unsealed = k'.unsealed;
          opens = decrypt-encrypt c.crypto k'.box secret k ∙ ap ok (sym same);
        }
  ]

-- A secret that the station obtains has at least 40 characters and is sealed in the announced unit's row.
module _ (api : Api) (identity : ReadyIdentity) (name : Option String) (reset_existing : Bool)
    (kept : IsFernet api.context.crypto api.secret)
    (kept' : IsFernet api.context.crypto api.rotated_secret) where
  checked_secret-done :
      (x y : String) → checked_secret x ≡ done y → (x ≡ y) × (40 ≤ length (codes y))
  unfolding checked_secret
  checked_secret-done x y h = ground arith

  replaced_secret-done :
      (reply : Http DeviceCreated) (y : String)
      → replaced_secret reply ≡ done y
      → (x : DeviceCreated) × (reply ≡ body x) × (x.bootstrap_secret ≡ y) × (40 ≤ length (codes y))
  unfolding replaced_secret
  replaced_secret-done (body x) y h =
      let (same, long) = checked_secret-done x.bootstrap_secret y h in (x, refl, same, long)
  replaced_secret-done (http_status n) y h = absurd (ground arith)
  replaced_secret-done no_connection y h = absurd (ground arith)

  pub register_or_reset_device-Sealed :
      (s : Server) (y : String) (t : Server)
      → register_or_reset_device api identity name reset_existing s ≡ (done y, t)
      → (40 ≤ length (codes y)) × Sealed api.context identity.device_id y t
  unfolding register_or_reset_device registration_payload
  register_or_reset_device-Sealed s y t h =
      let create = create_device api.context s (registration_payload identity name) api.secret in
      let reset = reset_device api.context identity.device_id api.rotated_secret in
      let (reply, s') = http_json api.register_link create s in
      let (again, s'') = http_json api.reset_link reset s' in
      elim (Http-cases reply) [
        | inr (inr e) ↦ absurd (ground arith)
        | inl (x, e) ↦
            let h' : (checked_secret x.bootstrap_secret, s') ≡ (done y, t) =
              rw (e, register_or_reset_device) at h in
            let (same, long) = checked_secret-done x.bootstrap_secret y (λ i. (h' i).0) in
            (
              long,
              moved api.context identity.device_id x.bootstrap_secret y s' t same (λ i. (h' i).1)
                  (create_device-Sealed api.context api.secret kept s
                    (registration_payload identity name) x s'
                    (http_json-body api.register_link create s x e)),
            )
        | inr (inl (n, e)) ↦ elim (Bool-cases (eqb n 409)) [
          | inr q ↦ absurd (ground arith)
          | inl q ↦ elim (Bool-cases reset_existing) [
            | inr r ↦ absurd (ground arith)
            | inl r ↦
                let h' : (replaced_secret again, s'') ≡ (done y, t) =
                  rw (e, register_or_reset_device, q, r) at h in
                let (x, answered, same, long) = replaced_secret-done again y (λ i. (h' i).0) in
                (
                  long,
                  moved api.context identity.device_id x.bootstrap_secret y s'' t same
                      (λ i. (h' i).1)
                      (reset_device-Sealed api.context api.rotated_secret kept' s'
                        identity.device_id x s''
                        (http_json-body api.reset_link reset s' x answered)),
                )
          ]
        ]
      ]
