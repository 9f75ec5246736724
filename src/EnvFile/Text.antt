-- ===== src/EnvFile/Text.antt =====
-- The text of the .env file and its lines: `splitlines` and "\n".join.
use Prim.Native.Char.{Char, code}
use Prim.Native.String.{[], ◌∷◌, ◌++◌}
use secure_io_t_device_platf.Base.{
  ℕ, String, Bool, true, not, ◌&&◌, ◌||◌, List, eqb, leb, if◌then◌else◌,
}

-- The characters at which `str.splitlines` ends a line.
unfoldable pub is_break : ℕ → Bool
is_break c =
    (leb 10 c && leb c 13) || (leb 28 c && leb c 30) || eqb c 0x85 || eqb c 0x2028 || eqb c 0x2029

-- One more character in front of the first line.
unfoldable pub push : Char → List String → List String
push c List.[] = List.◌∷◌ (c ∷ []) List.[]
push c (List.◌∷◌ l lines) = List.◌∷◌ (c ∷ l) lines

abbrev pub starts_with_line_feed : String → Bool
starts_with_line_feed [] = Bool.false
starts_with_line_feed (c ∷ s) = eqb (code c) 10

-- str.splitlines: "\r\n" ends one line, and the end of the text another one only after some character.
unfoldable pub splitlines : String → List String
splitlines [] = List.[]
splitlines (c ∷ s) =
    let rest = splitlines s in
    if eqb (code c) 13 && starts_with_line_feed s
    then rest
    else if is_break (code c)
    then List.◌∷◌ "" rest
    else push c rest

-- "\n".join
unfoldable pub joined_lines : List String → String
joined_lines List.[] = ""
joined_lines (List.◌∷◌ l List.[]) = l
joined_lines (List.◌∷◌ l (List.◌∷◌ m lines)) = l ++ "\n" ++ joined_lines (List.◌∷◌ m lines)

-- No line ends inside a text.
abbrev pub no_break : String → Bool
no_break [] = true
no_break (c ∷ s) = not (is_break (code c)) && no_break s
