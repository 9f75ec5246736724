-- ===== src/EnvFile/RoundTrip.antt =====
-- Reading a file after `set_env_values` has written it.
use secure_io_t_device_platf.Base.{
  ◌≤◌, String, ◌≡◌, refl, ◌∙◌, ap, sym, arith, true, none, List, [], ◌∷◌, ◌++◌, map, Option-cases,
  Bool-cases, inl, inr, ◌==◌, eq_iff, All, All-append,
}
use secure_io_t_device_platf.Base.Text.{is_empty, strip, lstrip, rstrip}
use secure_io_t_device_platf.Table
use secure_io_t_device_platf.Models.{is_some}
use secure_io_t_device_platf.EnvFile.{
  Entry, entry_key, assignment, remove, written, replace, spacer, added, set_env_values,
}
use secure_io_t_device_platf.EnvFile.Text.{splitlines}
use secure_io_t_device_platf.EnvFile.Lines.{Whole, splitlines-Whole}
use secure_io_t_device_platf.EnvFile.Written.{IsPlain, assignment-written, no_break-written}
use secure_io_t_device_platf.EnvFile.Reading.{
  or_else, last_assigned, lookup, lookup-last, last_assigned-append, last_assigned-text,
}
use secure_io_t_device_platf.EnvFile.Updated.{
  Distinct, count, find_entry, update_of-cases, remove-Distinct, remove-All, replace-none,
  replace-some,
}

abbrev pub Silent : String → Type 0
Silent raw = assignment raw ≡ none

replace-rest :
    (remaining : List Entry) (lines : List String)
    → All IsPlain remaining
    → Distinct remaining
    → All IsPlain (replace remaining lines).1 × Distinct (replace remaining lines).1
unfolding replace
replace-rest remaining [] plain distinct = (plain, distinct)
replace-rest remaining (raw ∷ lines) plain distinct = elim (update_of-cases remaining raw) [
  | inl (e, k) ↦ rw (e, replace) (replace-rest remaining lines plain distinct)
  | inr (e, k, found, for) ↦
      rw (k, replace)
        (replace-rest (remove e.key remaining) lines (remove-All IsPlain e.key remaining plain)
          (remove-Distinct e.key remaining distinct))
]

replace-Whole :
    (remaining : List Entry) (lines : List String)
    → All IsPlain remaining
    → All Whole lines
    → All Whole (replace remaining lines).0
unfolding replace
replace-Whole remaining [] plain h = tt
replace-Whole remaining (raw ∷ lines) plain h = elim (update_of-cases remaining raw) [
  | inl (e, k) ↦ rw (e, replace) (h.0, replace-Whole remaining lines plain h.1)
  | inr (e, k, found, for) ↦
      rw (k, replace)
        (
          no_break-written e (Table.All-find entry_key IsPlain e.key remaining e plain found),
          replace-Whole (remove e.key remaining) lines (remove-All IsPlain e.key remaining plain)
              h.1,
        )
]

spacer-Whole : (lines : List String) → All Whole (spacer lines)
unfolding spacer
spacer-Whole [] = tt
spacer-Whole (l ∷ []) = elim (Bool-cases (is_empty (strip l))) [
  | inl e ↦ rw (e, spacer) tt
  | inr e ↦ rw (e, spacer) (refl, tt)
]
spacer-Whole (l ∷ m ∷ lines) = spacer-Whole (m ∷ lines)

written-Whole : (entries : List Entry) → All IsPlain entries → All Whole (map written entries)
written-Whole [] plain = tt
written-Whole (e ∷ entries) plain = (no_break-written e plain.0, written-Whole entries plain.1)

added-Whole :
    (heading output : List String) (rest : List Entry)
    → All Whole heading
    → All IsPlain rest
    → All Whole (added heading output rest)
unfolding added
added-Whole heading output [] h plain = tt
added-Whole heading output (e ∷ rest) h plain =
    All-append Whole (spacer output ++ heading) (map written (e ∷ rest))
      (All-append Whole (spacer output) heading (spacer-Whole output) h)
      (written-Whole (e ∷ rest) plain)

module _ (j : String) where
  last_assigned-Silent : (lines : List String) → All Silent lines → last_assigned j lines ≡ none
  unfolding last_assigned
  last_assigned-Silent [] h = refl
  last_assigned-Silent (l ∷ lines) h = ground (arith, last_assigned-Silent lines h.1, h.0)

  spacer-Silent : (lines : List String) → All Silent (spacer lines)
  unfolding spacer assignment strip lstrip rstrip
  spacer-Silent [] = tt
  spacer-Silent (l ∷ []) = elim (Bool-cases (is_empty (strip l))) [
    | inl e ↦ rw (e, spacer) tt
    | inr e ↦ rw (e, spacer) (refl, tt)
  ]
  spacer-Silent (l ∷ m ∷ lines) = spacer-Silent (m ∷ lines)

  last_assigned-written :
      (entries : List Entry)
      → All IsPlain entries
      → Distinct entries
      → last_assigned j (map written entries) ≡ find_entry j entries
  unfolding last_assigned Table.find
  last_assigned-written [] plain distinct = refl
  last_assigned-written (e ∷ entries) plain distinct =
      let rest = last_assigned-written entries plain.1 distinct.1 in
      let said = assignment-written e plain.0 in
      elim (Bool-cases (e.key == j)) [
        | inr x ↦ ground (arith, rest, said, x)
        | inl x ↦
            let gone : find_entry j entries ≡ none =
              ap (λ k. find_entry k entries) (sym ((eq_iff e.key j).0 x)) ∙ distinct.0 in
            ground (arith, rest, said, x, gone)
      ]

  last_assigned-added :
      (heading output : List String) (rest : List Entry)
      → All Silent heading
      → All IsPlain rest
      → Distinct rest
      → last_assigned j (output ++ added heading output rest)
        ≡ or_else (find_entry j rest) (last_assigned j output)
  unfolding added
  last_assigned-added heading output [] silent plain distinct =
      last_assigned-append j output [] ∙ (unfold last_assigned Table.find in refl)
  last_assigned-added heading output (e ∷ rest) silent plain distinct =
      let lines = spacer output ++ heading ++ map written (e ∷ rest) in
      let appended = last_assigned-append j output lines in
      let spaced = last_assigned-append j (spacer output ++ heading) (map written (e ∷ rest)) in
      let headed = last_assigned-append j (spacer output) heading in
      ground (
        arith,
        appended,
        spaced,
        headed,
        last_assigned-written (e ∷ rest) plain distinct,
        last_assigned-Silent heading silent,
        last_assigned-Silent (spacer output) (spacer-Silent output),
      )

  -- After `set_env_values` the text of a file says of each updated key what the update says, and of
  -- every other key what it said before. The updates are for different keys, a key has no "=", no "#"
  -- in front and no blanks around it, a value no blanks and no pair of quotes around it, and neither a
  -- character at which `splitlines` ends a line. An updated key has at most one line in the text, and
  -- the heading consists of lines that assign nothing.
  pub lookup-set_env_values :
      (heading : List String) (updates : List Entry) (text : String)
      → All Silent heading
      → All Whole heading
      → All IsPlain updates
      → Distinct updates
      → (is_some (find_entry j updates) ≡ true → count j (splitlines text) ≤ 1)
      → lookup j (set_env_values heading updates text)
        ≡ or_else (find_entry j updates) (lookup j text)
  unfolding set_env_values
  lookup-set_env_values heading updates text silent whole plain distinct few =
      let lines = splitlines text in
      let (plain', distinct') = replace-rest updates lines plain distinct in
      let (output, rest) = replace updates lines in
      let all_whole : All Whole (output ++ added heading output rest) =
        All-append Whole output (added heading output rest)
          (replace-Whole updates lines plain (splitlines-Whole text))
          (added-Whole heading output rest whole plain') in
      let read : lookup j (set_env_values heading updates text)
          ≡ or_else (find_entry j rest) (last_assigned j output) =
        lookup-last j (set_env_values heading updates text)
        ∙ last_assigned-text j (output ++ added heading output rest) all_whole
        ∙ last_assigned-added heading output rest silent plain' distinct' in
      elim (Option-cases (find_entry j updates)) [
        | inl e ↦
            let (same, none_left) = replace-none j updates lines plain e in
            ground (arith, read, e, same, none_left, lookup-last j text)
        | inr (a, e) ↦ elim (replace-some j updates lines a plain distinct e (few (ground arith))) [
          | inl (x, y) ↦ ground (arith, read, e, x, y)
          | inr (x, y) ↦ ground (arith, read, e, x, y)
        ]
      ]
