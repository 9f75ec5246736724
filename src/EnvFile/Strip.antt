-- ===== src/EnvFile/Strip.antt =====
-- Stripped texts, and what stripping leaves of the split at "=".
use Prim.Native.Char.{Char, code}
use Prim.Native.String.{[], ◌∷◌}
use mathlib.Core.Option
use secure_io_t_device_platf.Base.{
  ℕ, String, ◌≡◌, refl, ◌∙◌, ap, arith, true, false, Option, none, some, Bool-cases, Option-cases,
  inl, inr, eqb, ◌⊎◌, ◌&&◌,
}
use secure_io_t_device_platf.Base.Text.{is_empty, is_space, strip, lstrip, rstrip}
use secure_io_t_device_platf.EnvFile.Line.{split_eq, starts_with_hash}

pub rstrip-rstrip : (s : String) → rstrip (rstrip s) ≡ rstrip s
unfolding rstrip
rstrip-rstrip [] = refl
rstrip-rstrip (c ∷ s) = ground (arith, rstrip-rstrip s)

lstrip-rstrip : (s : String) → lstrip (rstrip s) ≡ rstrip (lstrip s)
unfolding lstrip rstrip
lstrip-rstrip [] = refl
lstrip-rstrip (c ∷ s) = ground (arith, lstrip-rstrip s)

pub strip-rstrip : (s : String) → strip (rstrip s) ≡ strip s
unfolding strip
strip-rstrip s = ap rstrip (lstrip-rstrip s) ∙ rstrip-rstrip (lstrip s)

eqb→eq : (n k : ℕ) → eqb n k ≡ true → n ≡ k
eqb→eq n k h = ground arith

visible : (n k : ℕ) → eqb n k ≡ true → is_space k ≡ false → is_space n ≡ false
visible n k h v = rw (eqb→eq n k h) v

pub strip-space : (c : Char) (s : String) → is_space (code c) ≡ true → strip (c ∷ s) ≡ strip s
unfolding strip lstrip
strip-space c s h = ground arith

equals_visible : (n : ℕ) → eqb n b'=' ≡ true → is_space n ≡ false
unfolding is_space
equals_visible n h = visible n b'=' h refl

hash_visible : (n : ℕ) → eqb n b'#' ≡ true → is_space n ≡ false
unfolding is_space
hash_visible n h = visible n b'#' h refl

pub is_empty→eq : (s : String) → is_empty s ≡ true → s ≡ []
is_empty→eq [] h = refl
is_empty→eq (c ∷ s) h = absurd (ground arith)

-- The key of a split line, stripped.
abbrev pub key_of : String → Option String
key_of s = Option.map (λ p. strip p.0) (split_eq s)

key_of-lstrip : (s : String) → key_of (lstrip s) ≡ key_of s
unfolding split_eq lstrip
key_of-lstrip [] = refl
key_of-lstrip (c ∷ s) = elim (Bool-cases (is_space (code c))) [
  | inr e ↦ rw (e, lstrip) refl
  | inl e ↦ elim (Option-cases (split_eq s)) [
    | inl k ↦ ground (arith, key_of-lstrip s, equals_visible (code c), strip-space c s e)
    | inr (p, k) ↦ ground (arith, key_of-lstrip s, equals_visible (code c), strip-space c p.0 e)
  ]
]

-- The two outcomes of stripping a text with a first character.
rstrip-cases :
    (c : Char) (s : String)
    → ((is_space (code c) ≡ true) × (rstrip s ≡ []) × (rstrip (c ∷ s) ≡ []))
      ⊎ (rstrip (c ∷ s) ≡ c ∷ rstrip s)
unfolding rstrip
rstrip-cases c s = elim (Bool-cases (is_space (code c) && is_empty (rstrip s))) [
  | inr e ↦ inr (rw e)
  | inl e ↦ inl (ground arith, is_empty→eq (rstrip s) (ground arith), rw e)
]

split_eq-rstrip :
    (s : String) → split_eq (rstrip s) ≡ Option.map (λ p. (p.0, rstrip p.1)) (split_eq s)
unfolding split_eq
split_eq-rstrip [] = unfold rstrip in refl
split_eq-rstrip (c ∷ s) = elim (rstrip-cases c s) [
  | inl (e, e', e'') ↦ elim (Option-cases (split_eq s)) [
    | inl k ↦ rw e'' (ground (arith, equals_visible (code c)))
    | inr (p, k) ↦ absurd (ground (arith, split_eq-rstrip s, e', k, ap split_eq e'))
  ]
  | inr e ↦ rw e (elim (Option-cases (split_eq s)) [
    | inl k ↦ ground (arith, split_eq-rstrip s)
    | inr (p, k) ↦ ground (arith, split_eq-rstrip s)
  ])
]

hash-rstrip : (s : String) → starts_with_hash (rstrip s) ≡ starts_with_hash s
hash-rstrip [] = unfold rstrip in refl
hash-rstrip (c ∷ s) = elim (rstrip-cases c s) [
  | inl (e, e', e'') ↦ rw e'' (ground (arith, hash_visible (code c)))
  | inr e ↦ rw e refl
]

map-key :
    (o : Option (String × String))
    → Option.map {A = String × String}
        (λ p. strip p.0)
        (Option.map {A = String × String} (λ p. (p.0, rstrip p.1)) o)
      ≡ Option.map (λ p. strip p.0) o
map-key none = refl
map-key (some p) = refl

-- The tests of `set_env_values` on a line and those of `parse_env_file` on the stripped line agree.
pub key_of-strip : (s : String) → key_of (strip s) ≡ key_of s
unfolding strip
key_of-strip s =
    ap (Option.map (λ p. strip p.0)) (split_eq-rstrip (lstrip s))
    ∙ map-key (split_eq (lstrip s))
    ∙ key_of-lstrip s

pub hash-strip : (s : String) → starts_with_hash (strip s) ≡ starts_with_hash (lstrip s)
unfolding strip
hash-strip s = hash-rstrip (lstrip s)

pub split_eq-is_empty : (s : String) → is_empty s ≡ true → split_eq s ≡ none
unfolding split_eq
split_eq-is_empty [] h = refl
split_eq-is_empty (c ∷ s) h = absurd (ground arith)
