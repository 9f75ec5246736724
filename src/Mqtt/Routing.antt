-- ===== src/Mqtt/Routing.antt =====
-- A message on a device's own topic reaches the handler under that device's identity.
use Prim.Native.String
use Prim.Native.String.append
use text.Mathlib.TextLemmas.{append_assoc}
use secure_io_t_device_platf.Base.{
  ℕ, String, ◌≡◌, refl, ◌∙◌, ap, Bool, true, not, [], ◌∷◌, arith, eqb, ◌==◌, eq_iff, Bool-cases,
  inl, inr,
}
use secure_io_t_device_platf.Base.Text.{codes}
use secure_io_t_device_platf.Security.{all_codes, validate_device_id}
use secure_io_t_device_platf.Security.Identity.{validated_no_slash}
use secure_io_t_device_platf.Env.{ok}
use secure_io_t_device_platf.Json.{JsonLib}
use secure_io_t_device_platf.Models.{Server}
use secure_io_t_device_platf.Mqtt.{is_kind, routed, on_message, store_event, payload_object}
use secure_io_t_device_platf.Mqtt.Topic.{split, push_char, device_topic}

abbrev no_slash : String → Bool
no_slash s = all_codes (λ c. not (eqb c b'/')) (codes s)

split-part : (s : String) → no_slash s ≡ true → split s ≡ s ∷ []
unfolding all_codes split push_char
split-part String.[] h = refl
split-part (String.◌∷◌ c s) h = ground (arith, split-part s)

split-append :
    (s t : String) → no_slash s ≡ true → split (String.◌++◌ s (String.◌++◌ "/" t)) ≡ s ∷ split t
unfolding all_codes split push_char
split-append String.[] t h = rw (append.nil, append.cons, append.nil) refl
split-append (String.◌∷◌ c s) t h = rw append.cons (ground (arith, split-append s t))

is_kind-no_slash : (kind : String) → is_kind kind ≡ true → no_slash kind ≡ true
unfolding is_kind all_codes
is_kind-no_slash kind h = elim (Bool-cases (kind == "status")) [
  | inl e ↦ rw ((eq_iff kind "status").0 e) refl
  | inr e ↦ elim (Bool-cases (kind == "telemetry")) [
    | inl e' ↦ rw ((eq_iff kind "telemetry").0 e') refl
    | inr e' ↦ rw ((eq_iff kind "response").0 (ground arith)) refl
  ]
]

split-device_topic :
    (id kind : String)
    → no_slash id ≡ true
    → no_slash kind ≡ true
    → split (device_topic id kind) ≡ "devices" ∷ id ∷ kind ∷ []
unfolding device_topic
split-device_topic id kind h k =
    ap split (append_assoc "devices" "/" (String.◌++◌ id (String.◌++◌ "/" kind)))
    ∙ split-append "devices" (String.◌++◌ id (String.◌++◌ "/" kind)) (unfold all_codes in refl)
    ∙ ap (λ r. "devices" ∷ r) (split-append id kind h ∙ ap (λ r. id ∷ r) (split-part kind k))

-- A message on the topic that enrollment gave to a device, for an identity that validation accepts and
-- any of the three kinds, is stored under that identity and kind: no identity can reach another one.
pub on_message-device_topic :
    (lib : JsonLib) (given id kind payload_text : String) (now : ℕ) (s : Server)
    → validate_device_id given ≡ ok id
    → is_kind kind ≡ true
    → on_message lib (device_topic id kind) payload_text now s
      ≡ store_event lib id kind
          (device_topic id kind)
          payload_text
          (payload_object lib payload_text)
          now
          s
unfolding on_message routed
on_message-device_topic lib given id kind payload_text now s h k = rw (
  split-device_topic id kind (validated_no_slash given id h) (is_kind-no_slash kind k),
  k,
  on_message,
)
