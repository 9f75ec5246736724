-- ===== src/EnvFile/Line.antt =====
-- The string methods that the reading of a line of the .env file uses.
use Prim.Native.Char.{code}
use Prim.Native.String.{[], ◌∷◌, ◌++◌}
use mathlib.Core.Option
use secure_io_t_device_platf.Base.{
  ℕ, String, Bool, false, ◌&&◌, ◌||◌, Option, none, some, eqb, if◌then◌else◌,
}

abbrev pub starts_with_hash : String → Bool
starts_with_hash [] = false
starts_with_hash (c ∷ s) = eqb (code c) b'#'

-- line.split("=", 1), for a line with "="
unfoldable pub split_eq : String → Option (String × String)
split_eq [] = none
split_eq (c ∷ s) =
    let rest = split_eq s in
    if eqb (code c) b'=' then some ([], s) else Option.map (λ p. (c ∷ p.0, p.1)) rest

abbrev pub is_quote : ℕ → Bool
is_quote c = eqb c b'"' || eqb c 39

unfoldable pub last_code : ℕ → String → ℕ
last_code last [] = last
last_code last (c ∷ s) = last_code (code c) s

-- value[:-1]
unfoldable pub drop_last : String → String
drop_last [] = []
drop_last (c ∷ []) = []
drop_last (c ∷ d ∷ s) = c ∷ drop_last (d ∷ s)

-- value[1:-1], for a value between two equal quotes
unfoldable pub unquoted : String → String
unquoted [] = []
unquoted (c ∷ []) = c ∷ []
unquoted (c ∷ d ∷ s) =
    if eqb (last_code (code d) s) (code c) && is_quote (code c)
    then drop_last (d ∷ s)
    else c ∷ d ∷ s

unfoldable pub joined : String → String → String
joined key value = key ++ "=" ++ value
