-- ===== src/EnvFile.antt =====
-- The .env file as the set-up scripts read and write it: `parse_env_file` and `set_env_values` of
-- scripts/setup.py, and their copies in start_platform.py, configure_device_wifi.py and
-- factory_provision_esp32.py.
pub mod Line
pub mod Text
pub mod Strip
pub mod Lines
pub mod Written
pub mod Reading
pub mod Updated
pub mod RoundTrip
use Prim.Native.String.{◌++◌ as text_append}
use secure_io_t_device_platf.Base.{
  String, Bool, true, false, not, ◌||◌, Option, none, some, List, [], ◌∷◌, ◌++◌, map, ◌==◌,
  if◌then◌else◌,
}
use secure_io_t_device_platf.Base.Text.{is_empty, strip, lstrip, rstrip}
use secure_io_t_device_platf.Table
use secure_io_t_device_platf.EnvFile.Text.{splitlines, joined_lines}
use secure_io_t_device_platf.EnvFile.Line.{split_eq, starts_with_hash, unquoted, joined}

pub record Entry : Type 0 where
  pub key : String
  pub value : String

abbrev pub entry_key : Entry → String
entry_key e = e.key

-- What a line says, none for a blank line, a comment and a line without "=".
unfoldable pub assignment : String → Option Entry
assignment raw =
    if is_empty (strip raw) || starts_with_hash (strip raw)
    then none
    else elim (split_eq (strip raw)) [
      | none ↦ none
      | some (key, value) ↦ some (record { key = strip key; value = unquoted (strip value) })
    ]

-- values[key] = value for every assignment, in order
unfoldable pub parse_from : List Entry → List String → List Entry
parse_from values [] = values
parse_from values (raw ∷ lines) = elim (assignment raw) [
  | none ↦ parse_from values lines
  | some e ↦ parse_from (Table.save entry_key e values) lines
]

unfoldable pub parse_env_file : String → List Entry
parse_env_file text = parse_from [] (splitlines text)

-- The key of a line that `set_env_values` may replace.
unfoldable pub assigned_key : String → Option String
assigned_key raw = elim (split_eq raw) [
  | none ↦ none
  | some (key, value) ↦ if starts_with_hash (lstrip raw) then none else some (strip key)
]

-- remaining.pop(key)
unfoldable pub remove : String → List Entry → List Entry
remove key [] = []
remove key (e ∷ entries) = if e.key == key then entries else e ∷ remove key entries

-- f"{key}={value}"
unfoldable pub written : Entry → String
written e = joined e.key e.value

-- The update that a line is replaced by.
unfoldable pub update_of : List Entry → String → Option Entry
update_of remaining raw = elim (assigned_key raw) [
  | none ↦ none
  | some key ↦ Table.find entry_key key remaining
]

-- The lines with the updates that they take, and the updates that no line takes.
unfoldable pub replace : List Entry → List String → List String × List Entry
replace remaining [] = ([], remaining)
replace remaining (raw ∷ lines) = elim (update_of remaining raw) [
  | none ↦ let (output, rest) = replace remaining lines in (raw ∷ output, rest)
  | some e ↦
      let (output, rest) = replace (remove e.key remaining) lines in (written e ∷ output, rest)
]

-- The empty line before the added ones, where the last line says something.
unfoldable pub spacer : List String → List String
spacer [] = []
spacer (l ∷ []) = if is_empty (strip l) then [] else "" ∷ []
spacer (l ∷ m ∷ lines) = spacer (m ∷ lines)

unfoldable pub added : List String → List String → List Entry → List String
added heading output [] = []
added heading output (e ∷ rest) = spacer output ++ heading ++ map written (e ∷ rest)

-- The text that is written, of the text that was read. The heading is the comment above the added
-- lines, which setup.py does not write.
unfoldable pub set_env_values : List String → List Entry → String → String
set_env_values heading updates text =
    let (output, rest) = replace updates (splitlines text) in
    text_append (rstrip (joined_lines (output ++ added heading output rest))) "\n"
