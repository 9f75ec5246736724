-- ===== src/Network/Words.antt =====
-- Python's text methods that the reading of a command's output uses.
use Prim.Native.Char.{code}
use Prim.Native.String.{[], ◌∷◌}
use secure_io_t_device_platf.Base.{String, List, eqb, if◌then◌else◌}
use secure_io_t_device_platf.Base.Text.{is_empty, is_space}

abbrev put_word : String → List String → List String
put_word w ws = if is_empty w then ws else List.◌∷◌ w ws

-- The word at the start of a text, and the words after it.
unfoldable pub first_words : String → String × List String
first_words [] = ([], List.[])
first_words (c ∷ s) =
    let (w, ws) = first_words s in if is_space (code c) then ([], put_word w ws) else (c ∷ w, ws)

-- line.split()
unfoldable pub words : String → List String
words s = put_word (first_words s).0 (first_words s).1

-- text.split("/", 1)[0]
unfoldable pub before_slash : String → String
before_slash [] = []
before_slash (c ∷ s) = let rest = before_slash s in if eqb (code c) b'/' then [] else c ∷ rest
