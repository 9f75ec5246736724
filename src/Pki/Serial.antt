-- ===== src/Pki/Serial.antt =====
-- Serial numbers as text: `format(serial, "X")` and `int(serial_hex, 16)` of server/app/pki.py.
use Prim.Native.Char.{Char, code}
use Prim.Native.String.{[], ◌∷◌}
use secure_io_t_device_platf.Base.{
  ℕ, zero, suc, ◌+◌, ◌-◌, ◌*◌, ◌/◌, ◌%◌, ◌<◌, ◌≡◌, refl, String, Bool, true, false, ◌&&◌, Option,
  none, some, arith, leb, ltb, eqb, if◌then◌else◌, Bool-cases, inl, inr, ◌∙◌,
}
use secure_io_t_device_platf.Base.Text.{is_empty}

-- The character at an index of a text, and the last one past its end.
unfoldable pub nth : ℕ → Char → String → Char
nth n d [] = d
nth zero d (c ∷ s) = c
nth (suc n) d (c ∷ s) = nth n c s

-- 0-9 and A-F
unfoldable pub digit_char : ℕ → Char
unfolding nth
digit_char d = nth d "0" "0123456789ABCDEF"

digit_value : ℕ → Option ℕ
digit_value c =
    if leb b'0' c && leb c b'9'
    then some (c - 48)
    else if leb b'A' c && leb c b'F'
    then some (c - 55)
    else if leb b'a' c && leb c b'f'
    then some (c - 87)
    else none

has_value : Option ℕ → ℕ → Bool
has_value none d = false
has_value (some v) d = eqb v d

has_value-eq : (o : Option ℕ) (d : ℕ) → has_value o d ≡ true → o ≡ some d
unfolding has_value
has_value-eq none d h = cc
has_value-eq (some v) d h = ground arith

-- The digits below `n` are read back.
digits_agree : ℕ → Bool
digits_agree zero = true
digits_agree (suc n) = digits_agree n && has_value (digit_value (code (digit_char n))) n

digits_agree_below :
    (d n : ℕ) → d < n → digits_agree n ≡ true → digit_value (code (digit_char d)) ≡ some d
unfolding digits_agree
digits_agree_below d zero below h = elim below [ ]
digits_agree_below d (suc n) below h = elim (Bool-cases (eqb d n)) [
  | inl same ↦ has_value-eq (digit_value (code (digit_char d))) d (ground arith)
  | inr other ↦ digits_agree_below d n (ground arith) (ground arith)
]

digits_agree_16 : digits_agree 16 ≡ true
unfolding digits_agree has_value digit_value digit_char
digits_agree_16 = refl

digit_value-digit_char : (d : ℕ) → d < 16 → digit_value (code (digit_char d)) ≡ some d
digit_value-digit_char d h = digits_agree_below d 16 h digits_agree_16

hex_digits : ℕ → ℕ → String → String
hex_digits zero n acc = acc
hex_digits (suc f) n acc =
    let rest = hex_digits f (n / 16) (digit_char (n % 16) ∷ acc) in
    if ltb n 16 then digit_char (n % 16) ∷ acc else rest

-- format(serial, "X"): every step divides by 16, so `n + 1` steps are enough.
unfoldable pub format_hex : ℕ → String
unfolding hex_digits digit_char
format_hex n = hex_digits (suc n) n []

hex_value : ℕ → String → Option ℕ
hex_value acc [] = some acc
hex_value acc (c ∷ s) = elim (digit_value (code c)) [
  | none ↦ none
  | some d ↦ hex_value (acc * 16 + d) s
]

-- int(serial_hex, 16) on texts of digits, which is all that `format` writes
unfoldable pub parse_hex : String → Option ℕ
unfolding hex_value digit_value
parse_hex [] = none
parse_hex (c ∷ s) = hex_value 0 (c ∷ s)

hex_value-hex_digits :
    (f n : ℕ) (acc : String) → n < f → hex_value 0 (hex_digits f n acc) ≡ hex_value n acc
unfolding hex_value hex_digits
hex_value-hex_digits zero n acc h = elim h [ ]
hex_value-hex_digits (suc f) n acc h = elim (Bool-cases (ltb n 16)) [
  | inl small ↦ rw small (ground (arith, digit_value-digit_char (n % 16)))
  | inr large ↦ rw large (
      hex_value-hex_digits f (n / 16) (digit_char (n % 16) ∷ acc) (ground arith)
      ∙ ground (arith, digit_value-digit_char (n % 16)))
]

is_empty-hex_digits :
    (f n : ℕ) (c : Char) (acc : String) → is_empty (hex_digits f n (c ∷ acc)) ≡ false
unfolding hex_digits
is_empty-hex_digits zero n c acc = refl
is_empty-hex_digits (suc f) n c acc =
    ground (arith, is_empty-hex_digits f (n / 16) (digit_char (n % 16)) (c ∷ acc))

parse_hex-eq-hex_value : (s : String) → is_empty s ≡ false → parse_hex s ≡ hex_value 0 s
unfolding parse_hex
parse_hex-eq-hex_value [] h = cc
parse_hex-eq-hex_value (c ∷ s) h = refl

pub is_empty-format_hex : (n : ℕ) → is_empty (format_hex n) ≡ false
unfolding format_hex
is_empty-format_hex n = ground (arith, is_empty-hex_digits n (n / 16) (digit_char (n % 16)) [])

-- The serial number that the CRL carries is the one that was signed: `int(format(n, "X"), 16)` is
-- `n`, for every `n`.
pub parse_hex-format_hex : (n : ℕ) → parse_hex (format_hex n) ≡ some n
unfolding hex_value
parse_hex-format_hex n =
    parse_hex-eq-hex_value (format_hex n) (is_empty-format_hex n)
    ∙ unfold format_hex in hex_value-hex_digits (suc n) n [] (omega arith)
