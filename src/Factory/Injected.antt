-- ===== src/Factory/Injected.antt =====
-- What is sent to a unit on the serial port, and when the station reports success.
use Prim.Native.String.{◌++◌ as text_append}
use secure_io_t_device_platf.Base.{
  ℕ, ◌≤◌, String, ◌≡◌, ◌∙◌, ap, sym, arith, true, some, none, List, inl, inr, length,
}
use secure_io_t_device_platf.Base.Text.{codes}
use secure_io_t_device_platf.Env.{ok, Try-cases}
use secure_io_t_device_platf.Json.{Json, JsonLib}
use secure_io_t_device_platf.Models.{Server}
use secure_io_t_device_platf.Security.{encode_ascii}
use secure_io_t_device_platf.Registry.Registering.{IsFernet}
use secure_io_t_device_platf.Factory.Serial.{
  done, ReadyIdentity, wait_for_ready, build_factory_command,
}
use secure_io_t_device_platf.Factory.Provision.{
  Api, Options, Port, Factory, send_factory_data, provision_device, is_expected,
}
use secure_io_t_device_platf.Factory.Sealed.{Sealed, register_or_reset_device-Sealed}
use secure_io_t_device_platf.Factory.Stages.{
  provision_device-Stages, observe_bootstrap-snd, server-send_factory_data,
}

-- The bytes are the command for the unit that announced itself, of the expected family, with a secret of
-- at least 40 characters that the server holds sealed for it.
pub record Injected (lib : JsonLib) (dumps : Json → String) (o : Options) (port : Port) (api : Api)
    (bytes : List ℕ) (s : Server) : Type 0 where
  pub identity : ReadyIdentity
  pub announced : wait_for_ready lib port.at_start ≡ done identity
  pub expected : is_expected o.expected_family identity ≡ true
  pub secret : String
  pub long : 40 ≤ length (codes secret)
  pub encoded :
      encode_ascii (text_append (build_factory_command dumps identity secret) "\n") ≡ ok bytes
  pub sealed : Sealed api.context identity.device_id secret s

send_factory_data-sent :
    (port : Port) (command id : String) (f : Factory) (bytes : List ℕ)
    → f.sent ≡ none
    → (send_factory_data port command id f).1.sent ≡ some bytes
    → encode_ascii (text_append command "\n") ≡ ok bytes
unfolding send_factory_data
send_factory_data-sent port command id f bytes h k =
    elim (Try-cases (encode_ascii (text_append command "\n"))) [
      | inl (a, e) ↦ ground arith
      | inr (inl (x, e)) ↦ absurd (ground arith)
      | inr (inr e) ↦ absurd (ground arith)
    ]

module _ (lib : JsonLib) (dumps : Json → String) (o : Options) (port : Port) (api : Api)
    (f : Factory) where
  -- Where nothing was sent before the run, whatever it sends is the command for the unit that announced
  -- itself, of the expected family, with a secret of at least 40 characters; and the server then holds,
  -- in the row of that unit, pending and without a certificate, a token that opens to this secret. Fernet
  -- is taken to open, under its key, the tokens that it made of the two secrets that can be drawn.
  pub sent_secret_is_sealed :
      (bytes : List ℕ)
      → IsFernet api.context.crypto api.secret
      → IsFernet api.context.crypto api.rotated_secret
      → f.sent ≡ none
      → (provision_device lib dumps o port api f).1.sent ≡ some bytes
      → Injected lib dumps o port api bytes (provision_device lib dumps o port api f).1.server
  sent_secret_is_sealed bytes seals seals' fresh h =
      elim (provision_device-Stages lib dumps o port api f) [
        | inl k ↦ absurd (ground (arith, k.unsent))
        | inr k ↦
            let i = k.identity in
            let command = build_factory_command dumps i k.secret in
            let f' = record f { server = k.server } in
            let last : (provision_device lib dumps o port api f).1
                ≡ (send_factory_data port command i.device_id f').1 =
              ap (λ r. r.1) k.goes_on
              ∙ observe_bootstrap-snd o port i (send_factory_data port command i.device_id f') in
            let (long, sealed) =
              register_or_reset_device-Sealed api i o.display_name o.reset_existing seals seals'
                f.server k.secret k.server k.obtained in
            record {
              identity = i;
              announced = k.announced;
              expected = k.expected;
              secret = k.secret;
              long = long;
              encoded =
                  send_factory_data-sent port command i.device_id f' bytes fresh
                    (ap (λ g. g.sent) (sym last) ∙ h);
              sealed =
                  rw
                    (ap (λ g. g.server) last ∙ server-send_factory_data port command i.device_id f')
                    sealed;
            }
      ]
