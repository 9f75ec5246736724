-- ===== src/Security/Identity.antt =====
-- Device identities: what `validate_device_id` lets through.
use Prim.Native.Char.{code}
use secure_io_t_device_platf.Base.{
  ℕ, ◌≤◌, String, ◌≡◌, refl, Bool, true, false, not, ◌&&◌, List, [], ◌∷◌, arith, eqb, length,
  Bool-cases, inl, inr,
}
use secure_io_t_device_platf.Base.Text.{codes, is_space, strip, lstrip, rstrip}
use secure_io_t_device_platf.Env.{ok}
use secure_io_t_device_platf.Security.{is_id_char, all_codes, matches_device_id, validate_device_id}

id_char_space : (c : ℕ) → is_id_char c ≡ true → is_space c ≡ false
unfolding is_id_char is_space
id_char_space c h = ground arith

all_codes_mono :
    (p q : ℕ → Bool) (cs : List ℕ)
    → ((c : ℕ) → p c ≡ true → q c ≡ true)
    → all_codes p cs ≡ true
    → all_codes q cs ≡ true
unfolding all_codes
all_codes_mono p q [] f h = refl
all_codes_mono p q (c ∷ cs) f h = ground (arith, f c, all_codes_mono p q cs f)

lstrip-id : (s : String) → all_codes is_id_char (codes s) ≡ true → lstrip s ≡ s
unfolding all_codes lstrip
lstrip-id String.[] h = refl
lstrip-id (String.◌∷◌ c s) h = ground (arith, id_char_space (code c))

rstrip-id : (s : String) → all_codes is_id_char (codes s) ≡ true → rstrip s ≡ s
unfolding all_codes rstrip
rstrip-id String.[] h = refl
rstrip-id (String.◌∷◌ c s) h = ground (arith, id_char_space (code c), rstrip-id s)

pub strip-id : (s : String) → all_codes is_id_char (codes s) ≡ true → strip s ≡ s
unfolding strip
strip-id s h = rw (lstrip-id s h) (rstrip-id s h)

-- All characters of an identity are in the class of the pattern.
pub matches-all_codes : (cs : List ℕ) → matches_device_id cs ≡ true → all_codes is_id_char cs ≡ true
unfolding matches_device_id all_codes is_id_char
matches-all_codes [] h = cc
matches-all_codes (c ∷ cs) h = ground arith

id_char_plain : (c : ℕ) → is_id_char c ≡ true → (not (eqb c b'/') && not (eqb c 10)) ≡ true
unfolding is_id_char
id_char_plain c h = ground arith

matches-length : (cs : List ℕ) → matches_device_id cs ≡ true → (3 ≤ length cs) × (length cs ≤ 64)
unfolding matches_device_id
matches-length [] h = absurd (ground arith)
matches-length (c ∷ cs) h = ground arith

validated : (s id : String) → validate_device_id s ≡ ok id → matches_device_id (codes id) ≡ true
unfolding validate_device_id
validated s id h = elim (Bool-cases (matches_device_id (codes (strip s)))) [
  | inl e ↦ ground arith
  | inr e ↦ absurd (ground arith)
]

validate-matching :
    (id : String) → matches_device_id (codes id) ≡ true → validate_device_id id ≡ ok id
unfolding validate_device_id
validate-matching id m = rw (strip-id id (matches-all_codes (codes id) m)) (rw m)

-- An accepted identity has 3 to 64 characters, no slash and no line feed, and is accepted again
-- unchanged.
pub validate_device_id-ok :
    (s id : String)
    → validate_device_id s ≡ ok id
    → (3 ≤ length (codes id))
      × (length (codes id) ≤ 64)
      × (all_codes (λ c. not (eqb c b'/') && not (eqb c 10)) (codes id) ≡ true)
      × (validate_device_id id ≡ ok id)
validate_device_id-ok s id h =
    let m = validated s id h in
    let (low, high) = matches-length (codes id) m in
    (
      low,
      high,
      all_codes_mono is_id_char (λ c. not (eqb c b'/') && not (eqb c 10)) (codes id) id_char_plain
          (matches-all_codes (codes id) m),
      validate-matching id m,
    )

pub validated_no_slash :
    (s id : String)
    → validate_device_id s ≡ ok id
    → all_codes (λ c. not (eqb c b'/')) (codes id) ≡ true
validated_no_slash s id h =
    all_codes_mono (λ c. not (eqb c b'/') && not (eqb c 10)) (λ c. not (eqb c b'/')) (codes id)
      (λ c k. ground arith) (validate_device_id-ok s id h).2
