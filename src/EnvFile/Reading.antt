-- ===== src/EnvFile/Reading.antt =====
-- What a file says of a key: its last line for the key.
use Prim.Native.String.{◌++◌ as text_append}
use mathlib.Core.Option
use secure_io_t_device_platf.Base.{
  String, ◌≡◌, refl, ◌∙◌, ap, sym, arith, true, Option, none, some, List, [], ◌∷◌, ◌++◌,
  Option-cases, Bool-cases, inl, inr, ◌==◌, if◌then◌else◌, All,
}
use secure_io_t_device_platf.Base.Text.{is_empty, strip, lstrip, rstrip}
use secure_io_t_device_platf.Table
use secure_io_t_device_platf.EnvFile.{
  Entry, entry_key, assignment, parse_from, parse_env_file, assigned_key,
}
use secure_io_t_device_platf.EnvFile.Text.{splitlines, joined_lines, is_break}
use secure_io_t_device_platf.EnvFile.Lines.{
  Whole, put_line, rstrip_lines, rstrip-joined_lines, splitlines-joined, rstrip_lines-Whole,
}
use secure_io_t_device_platf.EnvFile.Line.{split_eq}
use secure_io_t_device_platf.EnvFile.Strip.{
  strip-rstrip, key_of-strip, hash-strip, is_empty→eq, split_eq-is_empty,
}

-- The entry of a line, where it is for the key.
abbrev pub for_key : String → Option Entry → Option Entry
for_key key none = none
for_key key (some e) = if e.key == key then some e else none

abbrev pub or_else : Option Entry → Option Entry → Option Entry
or_else none o = o
or_else (some e) o = some e

unfoldable pub last_assigned : String → List String → Option Entry
last_assigned key [] = none
last_assigned key (raw ∷ lines) = or_else (last_assigned key lines) (for_key key (assignment raw))

abbrev pub lookup : String → String → Option Entry
lookup key text = Table.find entry_key key (parse_env_file text)

find-parse_from :
    (key : String) (lines : List String) (values : List Entry)
    → Table.find entry_key key (parse_from values lines)
      ≡ or_else (last_assigned key lines) (Table.find entry_key key values)
unfolding parse_from last_assigned
find-parse_from key [] values = refl
find-parse_from key (raw ∷ lines) values = elim (Option-cases (assignment raw)) [
  | inl e ↦ rw (e, parse_from) (rw (find-parse_from key lines values) (ground arith))
  | inr (a, e) ↦
      rw (e, parse_from)
        (rw (find-parse_from key lines (Table.save entry_key a values))
          (ground (arith, Table.find-save entry_key a key values)))
]

pub lookup-last : (key text : String) → lookup key text ≡ last_assigned key (splitlines text)
unfolding Table.find parse_env_file
lookup-last key text =
    find-parse_from key (splitlines text) [] ∙ none_last (last_assigned key (splitlines text))
  where
    none_last : (o : Option Entry) → or_else o none ≡ o
    none_last none = refl
    none_last (some e) = refl

pub last_assigned-append :
    (key : String) (xs ys : List String)
    → last_assigned key (xs ++ ys) ≡ or_else (last_assigned key ys) (last_assigned key xs)
unfolding last_assigned
last_assigned-append key [] ys = ground arith
last_assigned-append key (x ∷ xs) ys = ground (arith, last_assigned-append key xs ys)

assignment-rstrip : (s : String) → assignment (rstrip s) ≡ assignment s
unfolding assignment
assignment-rstrip s = rw (strip-rstrip s) refl

assignment-blank : (s : String) → is_empty (rstrip s) ≡ true → assignment s ≡ none
unfolding assignment strip lstrip rstrip
assignment-blank s h =
    let blank : strip s ≡ "" = sym (strip-rstrip s) ∙ ap strip (is_empty→eq (rstrip s) h) in
    rw (blank, assignment) refl

last_assigned-put_line :
    (key l : String) (lines : List String)
    → last_assigned key (put_line l lines)
      ≡ or_else (last_assigned key lines) (for_key key (assignment l))
unfolding last_assigned put_line
last_assigned-put_line key l (m ∷ rest) = refl
last_assigned-put_line key l [] = elim (Bool-cases (is_empty (rstrip l))) [
  | inl e ↦ rw (e, put_line, assignment-blank l e) refl
  | inr e ↦ rw (e, put_line, assignment-rstrip l) refl
]

last_assigned-rstrip_lines :
    (key : String) (lines : List String)
    → last_assigned key (rstrip_lines lines) ≡ last_assigned key lines
unfolding last_assigned rstrip_lines
last_assigned-rstrip_lines key [] = refl
last_assigned-rstrip_lines key (l ∷ lines) =
    last_assigned-put_line key l (rstrip_lines lines)
    ∙ ap (λ o. or_else o (for_key key (assignment l))) (last_assigned-rstrip_lines key lines)

last_assigned-joined :
    (key : String) (lines : List String)
    → All Whole lines
    → last_assigned key (splitlines (text_append (joined_lines lines) "\n"))
      ≡ last_assigned key lines
last_assigned-joined key [] h =
    unfold splitlines is_break joined_lines last_assigned assignment strip lstrip rstrip in refl
last_assigned-joined key (l ∷ lines) h = ap (last_assigned key) (splitlines-joined l lines h.0 h.1)

-- What the written text says of a key is what the joined lines say of it.
pub last_assigned-text :
    (key : String) (lines : List String)
    → All Whole lines
    → last_assigned key (splitlines (text_append (rstrip (joined_lines lines)) "\n"))
      ≡ last_assigned key lines
last_assigned-text key lines h =
    ap (λ s. last_assigned key (splitlines (text_append s "\n"))) (rstrip-joined_lines lines)
    ∙ last_assigned-joined key (rstrip_lines lines) (rstrip_lines-Whole lines h)
    ∙ last_assigned-rstrip_lines key lines

-- `set_env_values` and `parse_env_file` find the same key on a line.
pub assigned_key-assignment :
    (raw : String) → assigned_key raw ≡ Option.map entry_key (assignment raw)
unfolding assigned_key assignment
assigned_key-assignment raw = elim (Option-cases (split_eq raw)) [
  | inl e ↦ elim (Option-cases (split_eq (strip raw))) [
    | inl e' ↦ ground arith
    | inr (p, e') ↦ absurd (ground (arith, key_of-strip raw))
  ]
  | inr (q, e) ↦ elim (Option-cases (split_eq (strip raw))) [
    | inl e' ↦ absurd (ground (arith, key_of-strip raw))
    | inr (p, e') ↦ ground (arith, key_of-strip raw, hash-strip raw, split_eq-is_empty (strip raw))
  ]
]
