-- ===== src/Security/Messages.antt =====
-- The message that the bootstrap proof covers determines every field that it is built from.
use text.Mathlib.TextEquality.{Char-path}
use secure_io_t_device_platf.Base.{
  ℕ, String, ◌≡◌, refl, Bool, true, not, List, [], ◌∷◌, ◌++◌, arith, eqb,
}
use secure_io_t_device_platf.Base.Text.{codes, lower}
use secure_io_t_device_platf.Security.{all_codes, canonical_proof_message, protocol_id}

-- No line feed among the code points.
abbrev pub one_line : List ℕ → Bool
one_line = all_codes (λ c. not (eqb c 10))

-- The first line feed ends the first field.
first_line :
    (xs ys us vs : List ℕ)
    → one_line xs ≡ true
    → one_line ys ≡ true
    → xs ++ 10 ∷ us ≡ ys ++ 10 ∷ vs
    → (xs ≡ ys) × (us ≡ vs)
unfolding all_codes
first_line [] [] us vs h k e = (refl, cc)
first_line [] (y ∷ ys) us vs h k e = absurd (ground arith)
first_line (x ∷ xs) [] us vs h k e = absurd (ground arith)
first_line (x ∷ xs) (y ∷ ys) us vs h k e = ground (arith, first_line xs ys us vs)

pub codes-injective : (s t : String) → codes s ≡ codes t → s ≡ t
codes-injective String.[] String.[] e = refl
codes-injective String.[] (String.◌∷◌ d t) e = absurd (cc)
codes-injective (String.◌∷◌ c s) String.[] e = absurd (cc)
codes-injective (String.◌∷◌ c s) (String.◌∷◌ d t) e =
    cc (Char-path c d (cc), codes-injective s t (cc))

-- Two proof messages are equal only if they name the same device, session and nonce, and the same CSR
-- digest up to case, provided that no field holds a line feed.
pub canonical_proof_message-injective :
    (d d' s s' n n' g g' : String)
    → one_line (codes d) ≡ true
    → one_line (codes d') ≡ true
    → one_line (codes s) ≡ true
    → one_line (codes s') ≡ true
    → one_line (codes n) ≡ true
    → one_line (codes n') ≡ true
    → one_line (lower g) ≡ true
    → one_line (lower g') ≡ true
    → canonical_proof_message d s n g ≡ canonical_proof_message d' s' n' g'
    → (d ≡ d') × (s ≡ s') × (n ≡ n') × (lower g ≡ lower g')
unfolding canonical_proof_message
canonical_proof_message-injective d d' s s' n n' g g' hd hd' hs hs' hn hn' hg hg' e =
    let (_, e1) =
      first_line (codes protocol_id) (codes protocol_id) _ _ protocol_one_line protocol_one_line
        e in
    let (ed, e2) = first_line (codes d) (codes d') _ _ hd hd' e1 in
    let (es, e3) = first_line (codes s) (codes s') _ _ hs hs' e2 in
    let (en, e4) = first_line (codes n) (codes n') _ _ hn hn' e3 in
    let (eg, e5) = first_line (lower g) (lower g') _ _ hg hg' e4 in
    (codes-injective d d' ed, codes-injective s s' es, codes-injective n n' en, eg)
  where
    protocol_one_line : one_line (codes protocol_id) ≡ true
    protocol_one_line = unfold all_codes in refl
