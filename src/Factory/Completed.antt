-- ===== src/Factory/Completed.antt =====
-- When the station reports success.
use Prim.Native.String.{◌++◌ as text_append}
use secure_io_t_device_platf.Base.{
  ℕ, String, ◌≡◌, refl, ◌∙◌, ap, sym, arith, Bool, true, false, ◌||◌, some, none, List, [], ◌∷◌,
  Option, Bool-cases, inl, inr, ◌==◌, if◌then◌else◌,
}
use secure_io_t_device_platf.Base.Text.{strip}
use secure_io_t_device_platf.Env.{Try-cases}
use secure_io_t_device_platf.Json.{Json, JsonLib}
use secure_io_t_device_platf.Security.{encode_ascii}
use secure_io_t_device_platf.Factory.Serial.{
  Step, done, failed, serial_exception, uncaught, Read, line, unplugged, ReadyIdentity,
  wait_for_ready, build_factory_command, await_confirmation, says, hint_of, observe,
}
use secure_io_t_device_platf.Factory.Provision.{
  Api, Options, Port, Factory, send_factory_data, observe_bootstrap, conclude, provision_device,
}
use secure_io_t_device_platf.Factory.Stages.{provision_device-Stages, observe_bootstrap-snd}

-- Whether one of the lines that were read passes a test.
abbrev heard : (String → Bool) → List Read → Bool
heard p [] = false
heard p (unplugged ∷ reads) = heard p reads
heard p (line raw ∷ reads) = p (strip raw) || heard p reads

abbrev confirms : String → String → Bool
confirms device_id s = s == text_append "FACTORY_OK " device_id

abbrev is_operational : String → Bool
is_operational s = says "[MQTT] Connected." s || says "[MQTT] Connected. Subscribed" s

await_confirmation-heard :
    (id : String) (reads : List Read)
    → await_confirmation id reads ≡ done tt
    → heard (confirms id) reads ≡ true
unfolding await_confirmation
await_confirmation-heard id [] h = absurd (ground arith)
await_confirmation-heard id (unplugged ∷ reads) h = absurd (ground arith)
await_confirmation-heard id (line raw ∷ reads) h = ground (arith, await_confirmation-heard id reads)

observe-heard :
    (hint : Option String) (reads : List Read) (last : Option String)
    → observe hint reads ≡ done (true, last)
    → heard is_operational reads ≡ true
unfolding observe
observe-heard hint [] last h = absurd (ground arith)
observe-heard hint (unplugged ∷ reads) last h = absurd (ground arith)
observe-heard hint (line raw ∷ reads) last h =
    ground
      (arith, observe-heard hint reads last, observe-heard (hint_of hint (strip raw)) reads last)

-- The unit that announced itself has confirmed the command that was sent to it, and, where that is asked
-- for, has reported its MQTT connection.
pub record Completed (lib : JsonLib) (o : Options) (port : Port) (i : ReadyIdentity)
    (sent : Option (List ℕ)) : Type 0 where
  pub announced : wait_for_ready lib port.at_start ≡ done i
  pub bytes : List ℕ
  pub written : sent ≡ some bytes
  pub confirmed : heard (confirms i.device_id) port.after_command ≡ true
  pub operational : o.require_operational_ready ≡ true → heard is_operational port.afterwards ≡ true

send_factory_data-done :
    (port : Port) (command id : String) (f : Factory)
    → (send_factory_data port command id f).0 ≡ done tt
    → (await_confirmation id port.after_command ≡ done tt)
      × ((bytes : List ℕ) × ((send_factory_data port command id f).1.sent ≡ some bytes))
unfolding send_factory_data
send_factory_data-done port command id f h =
    elim (Try-cases (encode_ascii (text_append command "\n"))) [
      | inl (a, e) ↦ (ground arith, (a, ground arith))
      | inr (inl (x, e)) ↦ absurd (ground arith)
      | inr (inr e) ↦ absurd (ground arith)
    ]

conclude-done :
    (o : Options) (port : Port) (i j : ReadyIdentity) (r : Step (Bool × Option String))
    → conclude o i r ≡ done j
    → (i ≡ j)
      × (o.require_operational_ready ≡ true → (last : Option String) × (r ≡ done (true, last)))
unfolding conclude
conclude-done o port i j (done (true, hint)) h = (ground arith, λ e. (hint, refl))
conclude-done o port i j (done (false, hint)) h = (ground arith, λ e. absurd (ground arith))
conclude-done o port i j (failed e) h = absurd (ground arith)
conclude-done o port i j serial_exception h = absurd (ground arith)
conclude-done o port i j uncaught h = absurd (ground arith)

observe_bootstrap-done :
    (o : Options) (port : Port) (i j : ReadyIdentity) (r : Step (Unit {0}) × Factory)
    → (observe_bootstrap o port i r).0 ≡ done j
    → (r.0 ≡ done tt)
      × (i ≡ j)
      × (o.require_operational_ready ≡ true → heard is_operational port.afterwards ≡ true)
unfolding observe_bootstrap
observe_bootstrap-done o port i j (failed e, f) h = absurd (ground arith)
observe_bootstrap-done o port i j (serial_exception, f) h = absurd (ground arith)
observe_bootstrap-done o port i j (uncaught, f) h = absurd (ground arith)
observe_bootstrap-done o port i j (done u, f) h =
    let seen = if o.observes then observe none port.afterwards else done (false, none) in
    let (same, ready) = conclude-done o port i j seen h in
    (
      refl,
      same,
      λ e.
          let (last, k) = ready e in
          elim (Bool-cases o.observes) [
            | inl q ↦ observe-heard none port.afterwards last (ground arith)
            | inr q ↦ absurd (ground arith)
          ],
    )

-- A run that reports success for a unit has read its announcement, sent it a command, and heard its
-- confirmation under that id before the deadline; and where an operational unit is asked for, it has heard
-- of the unit's MQTT connection as well.
pub provision_device-Completed :
    (lib : JsonLib) (dumps : Json → String) (o : Options) (port : Port) (api : Api) (f : Factory)
    (i : ReadyIdentity)
    → (provision_device lib dumps o port api f).0 ≡ done i
    → Completed lib o port i (provision_device lib dumps o port api f).1.sent
provision_device-Completed lib dumps o port api f i h =
    elim (provision_device-Stages lib dumps o port api f) [
      | inl k ↦ absurd (ground (arith, k.unfinished, h))
      | inr k ↦
          let command = build_factory_command dumps k.identity k.secret in
          let sent =
            send_factory_data port command k.identity.device_id (record f { server = k.server }) in
          let (answered, same, ready) =
            observe_bootstrap-done o port k.identity i sent (ap (λ r. r.0) (sym k.goes_on) ∙ h) in
          let (confirmed, (bytes, written)) =
            send_factory_data-done port command k.identity.device_id
              (record f { server = k.server }) answered in
          record {
            announced = k.announced ∙ ap done same;
            bytes = bytes;
            written =
                ap (λ r. r.1.sent) k.goes_on
                ∙ ap (λ g. g.sent) (observe_bootstrap-snd o port k.identity sent)
                ∙ written;
            confirmed =
                rw (ap (λ x. heard (confirms x.device_id) port.after_command) (sym same))
                  (await_confirmation-heard k.identity.device_id port.after_command confirmed);
            operational = ready;
          }
    ]
