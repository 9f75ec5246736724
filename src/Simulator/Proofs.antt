-- ===== src/Simulator/Proofs.antt =====
-- The proof that a simulated device calculates is the one that the server expects.
use mathlib.Core.Option
use secure_io_t_device_platf.Base.{
  ℕ, ◌≡◌, refl, ◌∙◌, ap, arith, String, Bool, true, ◌&&◌, ◌||◌, Option, none, some, List, [], ◌∷◌,
  ◌++◌, map, length, ltb, leb, Bool-cases, Option-cases, inl, inr,
}
use secure_io_t_device_platf.Base.Text.{codes, strip, lower, lower_code}
use secure_io_t_device_platf.Env.{Crypto, Try, ok, Try-cases}
use secure_io_t_device_platf.Security.{
  is_id_char, protocol_id, encode_ascii, padding, lines, canonical_proof_message,
  decode_bootstrap_secret, calculate_proof_hex, all_codes, is_hex_digest,
}
use secure_io_t_device_platf.Security.Identity.{strip-id}
use secure_io_t_device_platf.Simulator.Http.{
  ClientLib, join_lines, proof_message, decode_secret, calculate_proof,
}

append_assoc : (xs ys zs : List ℕ) → (xs ++ ys) ++ zs ≡ xs ++ (ys ++ zs)
append_assoc [] ys zs = refl
append_assoc (x ∷ xs) ys zs = ap (λ l. x ∷ l) (append_assoc xs ys zs)

join_lines-lines :
    (f : List ℕ) (fs : List (List ℕ)) → join_lines (f ∷ fs) ++ 10 ∷ [] ≡ lines (f ∷ fs)
unfolding join_lines lines
join_lines-lines f [] = refl
join_lines-lines f (g ∷ fs) =
    append_assoc f (10 ∷ join_lines (g ∷ fs)) (10 ∷ [])
    ∙ ap (λ l. f ++ 10 ∷ l) (join_lines-lines g fs)

proof_message-canonical :
    (device_id session_id nonce digest : String)
    → proof_message device_id session_id nonce digest
      ≡ canonical_proof_message device_id session_id nonce digest
unfolding proof_message canonical_proof_message
proof_message-canonical device_id session_id nonce digest =
    join_lines-lines (codes protocol_id)
      (codes device_id ∷ codes session_id ∷ codes nonce ∷ lower digest ∷ [])

-- Without the difference between the errors.
abbrev pub returned {ℓ} : {A : Type ℓ} → Try A → Option A
returned (ok a) = some a
returned _ = none

decode_secret-server :
    (crypto : Crypto) (secret : String)
    → decode_secret crypto secret ≡ returned (decode_bootstrap_secret crypto secret)
unfolding decode_secret decode_bootstrap_secret
decode_secret-server crypto secret = elim (Try-cases (encode_ascii (strip secret))) [
  | inr (inl (m, e)) ↦ rw (e, decode_secret, decode_bootstrap_secret) refl
  | inr (inr e) ↦ rw (e, decode_secret, decode_bootstrap_secret) refl
  | inl (v, e) ↦ elim (Option-cases (crypto.urlsafe_b64decode (v ++ padding v))) [
    | inl k ↦ rw (e, decode_secret, decode_bootstrap_secret, k) refl
    | inr (key, k) ↦ elim (Bool-cases (ltb (length key) 32)) [
      | inl q ↦ rw (e, decode_secret, decode_bootstrap_secret, k, q) refl
      | inr q ↦ rw (e, decode_secret, decode_bootstrap_secret, k, q) refl
    ]
  ]
]

-- The client's HMAC digests are those of the server, as text.
abbrev pub SameHmac : Crypto → ClientLib → Type 0
SameHmac crypto lib = (k m : List ℕ) → codes (lib.hexdigest k m) ≡ crypto.hmac_sha256_hex k m

-- With the same HMAC on both sides, the client calculates the proof that the server calculates, for any
-- secret, session and request, and fails where the server's calculation does.
pub calculate_proof-server :
    (crypto : Crypto) (lib : ClientLib)
    → SameHmac crypto lib
    → (secret device_id session_id nonce digest : String)
    → Option.map codes (calculate_proof crypto lib secret device_id session_id nonce digest)
      ≡ returned (calculate_proof_hex crypto secret device_id session_id nonce digest)
unfolding calculate_proof calculate_proof_hex
calculate_proof-server crypto lib same secret device_id session_id nonce digest =
    let message = proof_message-canonical device_id session_id nonce digest in
    let decoded = decode_secret-server crypto secret in
    elim (Try-cases (decode_bootstrap_secret crypto secret)) [
      | inl (key, e) ↦
          let known : decode_secret crypto secret ≡ some key = decoded ∙ ap returned e in
          rw (known, calculate_proof, e, calculate_proof_hex)
            (ap some (
              same key (proof_message device_id session_id nonce digest)
              ∙ ap (crypto.hmac_sha256_hex key) message))
      | inr (inl (m, e)) ↦
          let failed : decode_secret crypto secret ≡ none = decoded ∙ ap returned e in
          rw (failed, calculate_proof, e, calculate_proof_hex) refl
      | inr (inr e) ↦
          let failed : decode_secret crypto secret ≡ none = decoded ∙ ap returned e in
          rw (failed, calculate_proof, e, calculate_proof_hex) refl
    ]

abbrev is_hex : ℕ → Bool
is_hex c = (leb b'0' c && leb c b'9') || (leb b'a' c && leb c b'f')

hex_id : (cs : List ℕ) → all_codes is_hex cs ≡ true → all_codes is_id_char cs ≡ true
unfolding all_codes is_id_char
hex_id [] h = refl
hex_id (c ∷ cs) h = ground (arith, hex_id cs)

hex_lower : (cs : List ℕ) → all_codes is_hex cs ≡ true → map lower_code cs ≡ cs
unfolding all_codes lower_code
hex_lower [] h = refl
hex_lower (c ∷ cs) h = ground (arith, hex_lower cs)

-- Hexadecimal digits stay what they are when the server reads a proof.
pub lower-strip_hex :
    (proof : String) → is_hex_digest (codes proof) ≡ true → lower (strip proof) ≡ codes proof
unfolding is_hex_digest
lower-strip_hex proof h =
    let hex : all_codes is_hex (codes proof) ≡ true = ground arith in
    rw (strip-id proof (hex_id (codes proof) hex)) (hex_lower (codes proof) hex)

-- The proof of a client that has a decodable secret.
pub calculate_proof-some :
    (crypto : Crypto) (lib : ClientLib) (secret device_id session_id nonce digest : String)
    (key : List ℕ)
    → decode_bootstrap_secret crypto secret ≡ ok key
    → calculate_proof crypto lib secret device_id session_id nonce digest
      ≡ some (lib.hexdigest key (canonical_proof_message device_id session_id nonce digest))
unfolding calculate_proof
calculate_proof-some crypto lib secret device_id session_id nonce digest key e =
    let known : decode_secret crypto secret ≡ some key =
      decode_secret-server crypto secret ∙ ap returned e in
    rw (known, calculate_proof)
      (ap (λ m. some (lib.hexdigest key m))
        (proof_message-canonical device_id session_id nonce digest))
