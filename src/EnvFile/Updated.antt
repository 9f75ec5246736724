-- ===== src/EnvFile/Updated.antt =====
-- What `set_env_values` changes in the readings of a file, and what not.
use mathlib.Core.Option
use secure_io_t_device_platf.Base.{
  ℕ, ◌+◌, ◌≤◌, String, ◌≡◌, refl, ◌∙◌, ap, sym, arith, true, false, Option, none, some, List, [],
  ◌∷◌, Option-cases, Bool-cases, inl, inr, ◌⊎◌, ◌==◌, eq_iff, All, if◌then◌else◌,
}
use secure_io_t_device_platf.Table
use secure_io_t_device_platf.Models.{is_some}
use secure_io_t_device_platf.EnvFile.{
  Entry, entry_key, assignment, assigned_key, remove, written, update_of, replace,
}
use secure_io_t_device_platf.EnvFile.Written.{IsPlain, assignment-written}
use secure_io_t_device_platf.EnvFile.Reading.{
  for_key, or_else, last_assigned, assigned_key-assignment,
}

abbrev pub find_entry : String → List Entry → Option Entry
find_entry key entries = Table.find entry_key key entries

-- A dictionary lists each key once.
abbrev pub Distinct : List Entry → Type 0
Distinct [] = Unit
Distinct (e ∷ entries) = (find_entry e.key entries ≡ none) × Distinct entries

-- How many lines are for the key.
unfoldable pub count : String → List String → ℕ
count key [] = 0
count key (raw ∷ lines) =
    (if is_some (for_key key (assignment raw)) then 1 else 0) + count key lines

count-zero :
    (key : String) (lines : List String) → count key lines ≡ 0 → last_assigned key lines ≡ none
unfolding count last_assigned
count-zero key [] h = refl
count-zero key (raw ∷ lines) h = elim (Option-cases (for_key key (assignment raw))) [
  | inl e ↦ ground (arith, count-zero key lines)
  | inr (a, e) ↦ absurd (ground arith)
]

find_entry-remove :
    (key j : String) (entries : List Entry)
    → (key == j) ≡ false
    → find_entry j (remove key entries) ≡ find_entry j entries
unfolding remove Table.find
find_entry-remove key j [] h = refl
find_entry-remove key j (e ∷ entries) h =
    ground
      (arith, find_entry-remove key j entries h, eq_iff e.key key, eq_iff e.key j, eq_iff key j)

find_entry-removed :
    (key : String) (entries : List Entry)
    → Distinct entries
    → find_entry key (remove key entries) ≡ none
unfolding remove Table.find
find_entry-removed key [] h = refl
find_entry-removed key (e ∷ entries) h =
    ground (arith, find_entry-removed key entries h.1, h.0, eq_iff e.key key)

remove-none :
    (key j : String) (entries : List Entry)
    → find_entry j entries ≡ none
    → find_entry j (remove key entries) ≡ none
unfolding remove Table.find
remove-none key j [] h = refl
remove-none key j (e ∷ entries) h = ground (arith, remove-none key j entries)

pub remove-Distinct :
    (key : String) (entries : List Entry) → Distinct entries → Distinct (remove key entries)
unfolding remove
remove-Distinct key [] h = tt
remove-Distinct key (e ∷ entries) h = elim (Bool-cases (e.key == key)) [
  | inl x ↦ rw (x, remove) h.1
  | inr x ↦ rw (x, remove) (remove-none key e.key entries h.0, remove-Distinct key entries h.1)
]

pub remove-All :
    (P : Entry → Type 0) (key : String) (entries : List Entry)
    → All P entries
    → All P (remove key entries)
unfolding remove
remove-All P key [] h = tt
remove-All P key (e ∷ entries) h = elim (Bool-cases (e.key == key)) [
  | inl x ↦ rw (x, remove) h.1
  | inr x ↦ rw (x, remove) (h.0, remove-All P key entries h.1)
]

not_for :
    (remaining : List Entry) (j : String) (a : Entry)
    → find_entry a.key remaining ≡ none
    → is_some (find_entry j remaining) ≡ true
    → for_key j (some a) ≡ none
not_for remaining j a h k = elim (Bool-cases (a.key == j)) [
  | inr e ↦ rw e refl
  | inl e ↦
      let same = ap (λ x. find_entry x remaining) ((eq_iff a.key j).0 e) in
      absurd (ground (arith, same))
]

is_some-for_key : (j : String) (a : Entry) → is_some (for_key j (some a)) ≡ (a.key == j)
is_some-for_key j a = elim (Bool-cases (a.key == j)) [ inr e ↦ rw e refl | inl e ↦ rw e refl ]

pub missed :
    (remaining : List Entry) (j : String) (e : Entry)
    → find_entry j remaining ≡ none
    → find_entry e.key remaining ≡ some e
    → (e.key == j) ≡ false
missed remaining j e h k = elim (Bool-cases (e.key == j)) [
  | inr x ↦ x
  | inl x ↦
      let same = ap (λ x. find_entry x remaining) ((eq_iff e.key j).0 x) in
      absurd (ground (arith, same))
]

-- A line that takes an update is a line for the key of that update, and the update is at hand.
pub update_of-cases :
    (remaining : List Entry) (raw : String)
    → ((update_of remaining raw ≡ none)
        × ((j : String)
            → is_some (find_entry j remaining) ≡ true
            → for_key j (assignment raw) ≡ none))
      ⊎ ((e : Entry) × (update_of remaining raw ≡ some e)
          × (find_entry e.key remaining ≡ some e)
          × ((j : String) → is_some (for_key j (assignment raw)) ≡ (e.key == j)))
unfolding update_of
update_of-cases remaining raw = elim (Option-cases (assignment raw)) [
  | inl e ↦
      let key : assigned_key raw ≡ none =
        assigned_key-assignment raw ∙ ap (Option.map entry_key) e in
      inl (rw (key, update_of), λ j h. ap (for_key j) e)
  | inr (a, e) ↦
      let key : assigned_key raw ≡ some a.key =
        assigned_key-assignment raw ∙ ap (Option.map entry_key) e in
      elim (Option-cases (find_entry a.key remaining)) [
        | inl k ↦ inl (rw (key, update_of, k), λ j h. ap (for_key j) e ∙ not_for remaining j a k h)
        | inr (b, k) ↦
            let same : b.key ≡ a.key = Table.find_key entry_key a.key remaining b k in
            inr (
              b,
              rw (key, update_of, k),
              ap (λ x. find_entry x remaining) same ∙ k,
              λ j.
                  ap (λ o. is_some (for_key j o)) e
                  ∙ is_some-for_key j a
                  ∙ ap (λ x. x == j) (sym same),
            )
      ]
]

module _ (j : String) where
  pub replace-none :
      (remaining : List Entry) (lines : List String)
      → All IsPlain remaining
      → find_entry j remaining ≡ none
      → (last_assigned j (replace remaining lines).0 ≡ last_assigned j lines)
        × (find_entry j (replace remaining lines).1 ≡ none)
  unfolding replace last_assigned
  replace-none remaining [] plain h = (refl, h)
  replace-none remaining (raw ∷ lines) plain h = elim (update_of-cases remaining raw) [
    | inl (e, k) ↦
        let (same, rest) = replace-none remaining lines plain h in
        rw (e, replace) (ap (λ o. or_else o (for_key j (assignment raw))) same, rest)
    | inr (e, k, found, for) ↦
        let (same, rest) =
          replace-none (remove e.key remaining) lines (remove-All IsPlain e.key remaining plain)
            (remove-none e.key j remaining h) in
        let said : assignment (written e) ≡ some e =
          assignment-written e (Table.All-find entry_key IsPlain e.key remaining e plain found) in
        rw (k, replace) (ground (arith, same, said, for j, missed remaining j e h found), rest)
  ]

  pub replace-some :
      (remaining : List Entry) (lines : List String) (a : Entry)
      → All IsPlain remaining
      → Distinct remaining
      → find_entry j remaining ≡ some a
      → count j lines ≤ 1
      → ((last_assigned j (replace remaining lines).0 ≡ some a)
          × (find_entry j (replace remaining lines).1 ≡ none))
        ⊎ ((last_assigned j (replace remaining lines).0 ≡ none)
            × (find_entry j (replace remaining lines).1 ≡ some a))
  unfolding replace last_assigned count
  replace-some remaining [] a plain distinct h few = inr (refl, h)
  replace-some remaining (raw ∷ lines) a plain distinct h few =
      elim (update_of-cases remaining raw) [
        | inl (e, k) ↦
            let unsaid : for_key j (assignment raw) ≡ none = k j (ground arith) in
            rw (e, replace)
              (elim (replace-some remaining lines a plain distinct h (ground (arith, unsaid))) [
                | inl (x, y) ↦ inl (ground (arith, unsaid), y)
                | inr (x, y) ↦ inr (ground (arith, unsaid), y)
              ])
        | inr (e, k, found, for) ↦
            let said : assignment (written e) ≡ some e =
              assignment-written e
                (Table.All-find entry_key IsPlain e.key remaining e plain found) in
            let plain' = remove-All IsPlain e.key remaining plain in
            let distinct' = remove-Distinct e.key remaining distinct in
            elim (Bool-cases (e.key == j)) [
              | inr x ↦
                  let other = find_entry-remove e.key j remaining x ∙ h in
                  rw (k, replace)
                    (elim (replace-some (remove e.key remaining) lines a plain' distinct' other
                      (ground (arith, for j, x))) [
                        | inl (y, z) ↦ inl (ground (arith, said, x, y), z)
                        | inr (y, z) ↦ inr (ground (arith, said, x, y), z)
                      ])
              | inl x ↦
                  let eq : e.key ≡ j = (eq_iff e.key j).0 x in
                  let same : some e ≡ some a =
                    sym found ∙ ap (λ y. find_entry y remaining) eq ∙ h in
                  let gone : find_entry j (remove e.key remaining) ≡ none =
                    ap (λ y. find_entry y (remove e.key remaining)) (sym eq)
                    ∙ find_entry-removed e.key remaining distinct in
                  let (y, z) = replace-none (remove e.key remaining) lines plain' gone in
                  let later : last_assigned j lines ≡ none =
                    count-zero j lines (ground (arith, for j, x)) in
                  rw (k, replace) (inl (ground (arith, said, x, y, later, same), z))
            ]
      ]
