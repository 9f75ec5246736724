-- ===== src/Security/Proofs.antt =====
-- When the server accepts a bootstrap proof.
use secure_io_t_device_platf.Base.{
  ℕ, ◌≤◌, String, ◌≡◌, refl, ◌↔◌, true, List, [], ◌∷◌, length, inl, inr, arith,
}
use secure_io_t_device_platf.Base.Text.{strip, lower, same_codes}
use secure_io_t_device_platf.Env.{ok, Crypto, Try-cases}
use secure_io_t_device_platf.Security.{
  decode_bootstrap_secret, canonical_proof_message, is_hex_digest, calculate_proof_hex,
  verify_proof_hex,
}

same_codes-eq : (xs ys : List ℕ) → same_codes xs ys ≡ true → xs ≡ ys
unfolding same_codes
same_codes-eq [] [] h = refl
same_codes-eq [] (y ∷ ys) h = cc
same_codes-eq (x ∷ xs) [] h = cc
same_codes-eq (x ∷ xs) (y ∷ ys) h = ground (arith, same_codes-eq xs ys)

same_codes_refl : (xs : List ℕ) → same_codes xs xs ≡ true
unfolding same_codes
same_codes_refl [] = refl
same_codes_refl (x ∷ xs) = ground (arith, same_codes_refl xs)

pub same_codes_iff : (xs ys : List ℕ) → (same_codes xs ys ≡ true) ↔ (xs ≡ ys)
same_codes_iff xs ys = (same_codes-eq xs ys, λ e. rw e (same_codes_refl ys))

module _ (crypto : Crypto) where
  -- A decoded secret has at least 256 bits.
  pub decode_bootstrap_secret-length :
      (secret : String) (key : List ℕ)
      → decode_bootstrap_secret crypto secret ≡ ok key
      → 32 ≤ length key
  unfolding decode_bootstrap_secret
  decode_bootstrap_secret-length secret key h = ground arith

  abbrev pub Accepted : String → String → String → String → String → String → Type 0
  Accepted proof secret device_id session_id nonce digest =
      (key : List ℕ) × (decode_bootstrap_secret crypto secret ≡ ok key)
      × (32 ≤ length key)
      × (lower (strip proof)
          ≡ crypto.hmac_sha256_hex key (canonical_proof_message device_id session_id nonce digest))
      × (is_hex_digest (lower (strip proof)) ≡ true)

  module _ (proof secret device_id session_id nonce digest : String) where
    proof_accepted :
        verify_proof_hex crypto proof secret device_id session_id nonce digest ≡ ok true
        → Accepted proof secret device_id session_id nonce digest
    unfolding verify_proof_hex calculate_proof_hex
    proof_accepted h = elim (Try-cases (decode_bootstrap_secret crypto secret)) [
      | inl (key, e) ↦ (
        key,
        e,
        decode_bootstrap_secret-length secret key e,
        ground (
          arith,
          same_codes_iff
              (crypto.hmac_sha256_hex key
                (canonical_proof_message device_id session_id nonce digest))
              (lower (strip proof)),
        ),
        ground arith,
      )
      | inr (inl (x, e)) ↦ absurd (ground arith)
      | inr (inr e) ↦ absurd (ground arith)
    ]

    accepted_proof :
        Accepted proof secret device_id session_id nonce digest
        → verify_proof_hex crypto proof secret device_id session_id nonce digest ≡ ok true
    unfolding verify_proof_hex calculate_proof_hex
    accepted_proof h = ground (
      arith,
      h.1,
      h.3,
      h.4,
      same_codes_iff
          (crypto.hmac_sha256_hex h.0 (canonical_proof_message device_id session_id nonce digest))
          (lower (strip proof)),
    )

    -- The server accepts a proof exactly when the secret decodes to a key of at least 256 bits, and the
    -- proof, stripped and in lower case, is 64 hexadecimal digits and equal to the HMAC under that key
    -- of the message that names this device, session, nonce and CSR digest.
    pub verify_proof_hex-eq-true :
        (verify_proof_hex crypto proof secret device_id session_id nonce digest ≡ ok true)
        ↔ Accepted proof secret device_id session_id nonce digest
    verify_proof_hex-eq-true = (proof_accepted, accepted_proof)
