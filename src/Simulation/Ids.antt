-- ===== src/Simulation/Ids.antt =====
-- The identities that a fleet is started with.
use Prim.Native.Char.{code}
use text.Mathlib.TextLemmas.{cons-append, nil-append}
use Prim.Native.String.{◌++◌ as text_append}
use secure_io_t_device_platf.Base.{
  ℕ, zero, suc, ◌+◌, ◌/◌, ◌%◌, ◌≤◌, ◌<◌, ◌≡◌, refl, ◌∙◌, ap, arith, String, Bool, true, false, ◌||◌,
  ◌&&◌, some, List, [], ◌∷◌, ◌++◌, map, length, eqb, ◌==◌, eq_iff, All, Bool-cases, Option-cases,
  inl, inr,
}
use secure_io_t_device_platf.Base.Text.{codes}
use secure_io_t_device_platf.Env.{response}
use secure_io_t_device_platf.Pki.Serial.{digit_char, nth}
use secure_io_t_device_platf.Simulation.Numbers.{holds, add, next_numbers}
use secure_io_t_device_platf.Simulation.Allocation.{Ascending, next_numbers-Picked}
use secure_io_t_device_platf.Simulation.Manager.{
  Manager, Instance, Entry, FleetFamily, four_digits, match_number, existing_numbers,
  running_numbers, format_04d, numbered_id, next_ids, start_fleet, start_each, family_name,
  family_prefix,
}

-- The first digits stand where their characters do.
plain : ℕ → Bool
unfolding digit_char nth
plain zero = true
plain (suc n) = plain n && eqb (code (digit_char n)) (48 + n)

plain_below : (d n : ℕ) → d < n → plain n ≡ true → code (digit_char d) ≡ 48 + d
unfolding plain
plain_below d zero below h = elim below [ ]
plain_below d (suc n) below h = elim (Bool-cases (eqb d n)) [
  | inl same ↦ let e : d ≡ n = ground arith in rw e (ground arith)
  | inr other ↦ plain_below d n (ground arith) (ground arith)
]

plain_10 : plain 10 ≡ true
unfolding plain digit_char nth
plain_10 = refl

digit_code : (d : ℕ) → d < 10 → code (digit_char d) ≡ 48 + d
digit_code d h = plain_below d 10 h plain_10

four_digits-format_04d : (n : ℕ) → n < 10000 → four_digits (codes (format_04d n)) ≡ some n
unfolding four_digits format_04d
four_digits-format_04d n h = ground (
  arith,
  digit_code (n / 1000),
  digit_code (n / 100 % 10),
  digit_code (n / 10 % 10),
  digit_code (n % 10),
)

codes-append : (s t : String) → codes (text_append s t) ≡ codes s ++ codes t
codes-append String.[] t = ap codes (nil-append t)
codes-append (String.◌∷◌ c s) t =
    ap codes (cons-append c s t) ∙ ap (λ cs. code c ∷ cs) (codes-append s t)

match_number-append : (ps cs : List ℕ) → match_number ps (ps ++ b'-' ∷ cs) ≡ four_digits cs
unfolding match_number
match_number-append [] cs = refl
match_number-append (p ∷ ps) cs = ground (arith, match_number-append ps cs)

match_number-numbered_id :
    (prefix : String) (n : ℕ)
    → n < 10000
    → match_number (codes prefix) (codes (numbered_id prefix n)) ≡ some n
unfolding numbered_id
match_number-numbered_id prefix n h =
    ap (match_number (codes prefix)) (codes-append prefix (String.◌∷◌ "-" (format_04d n)))
    ∙ match_number-append (codes prefix) (codes (format_04d n))
    ∙ four_digits-format_04d n h

-- Some process of that identity runs.
unfoldable pub runs : List Instance → String → Bool
runs [] id = false
runs (item ∷ items) id = (item.device_id == id && item.running) || runs items id

runs-numbered_id :
    (prefix : String) (n : ℕ) (items : List Instance)
    → n < 10000
    → holds (running_numbers prefix items) n ≡ false
    → runs items (numbered_id prefix n) ≡ false
unfolding runs running_numbers holds
runs-numbered_id prefix n [] lt h = refl
runs-numbered_id prefix n (item ∷ items) lt h =
    elim (Bool-cases (item.device_id == numbered_id prefix n)) [
      | inl e ↦
          let same : item.device_id ≡ numbered_id prefix n =
            (eq_iff item.device_id (numbered_id prefix n)).0 e in
          let found : match_number (codes prefix) (codes item.device_id) ≡ some n =
            ap (λ id. match_number (codes prefix) (codes id)) same
            ∙ match_number-numbered_id prefix n lt in
          ground (arith, runs-numbered_id prefix n items lt)
      | inr e ↦ elim (Option-cases (match_number (codes prefix) (codes item.device_id))) [
        | inl k ↦ ground (arith, runs-numbered_id prefix n items lt)
        | inr (m, k) ↦ ground (arith, runs-numbered_id prefix n items lt)
      ]
    ]

add-Ascending : (low n : ℕ) (ns : List ℕ) → low ≤ n → Ascending low ns → Ascending low (add n ns)
unfolding add
add-Ascending low n [] le h = (le, tt)
add-Ascending low n (m ∷ ns) le h = ground (arith, h.0, h.1, add-Ascending (suc m) n ns)

existing-Ascending :
    (prefix : String) (children : List Entry) → Ascending 0 (existing_numbers prefix children)
unfolding existing_numbers
existing-Ascending prefix [] = tt
existing-Ascending prefix (child ∷ children) =
    elim (Option-cases (match_number (codes prefix) (codes child.name))) [
      | inl e ↦ rw (e, existing_numbers) (existing-Ascending prefix children)
      | inr (n, e) ↦
          rw (e, existing_numbers)
            (add-Ascending 0 n (existing_numbers prefix children) (omega arith)
              (existing-Ascending prefix children))
    ]

All-runs :
    (prefix : String) (items : List Instance) (ns : List ℕ)
    → All (λ n. n < 10000) ns
    → All (λ n. holds (running_numbers prefix items) n ≡ false) ns
    → All (λ id. runs items id ≡ false) (map (numbered_id prefix) ns)
All-runs prefix items [] lt h = tt
All-runs prefix items (n ∷ ns) lt h =
    (runs-numbered_id prefix n items lt.0 h.0, All-runs prefix items ns lt.1 h.1)

length-map-ids : (prefix : String) (ns : List ℕ) → length (map (numbered_id prefix) ns) ≡ length ns
length-map-ids prefix [] = refl
length-map-ids prefix (n ∷ ns) = ap suc (length-map-ids prefix ns)

-- With a password and the simulation enabled, a start of `count` devices succeeds with as many
-- identities, and, while its numbers have four digits, no process of one of them runs already.
pub start_fleet-idle :
    (password : String) (family : FleetFamily) (count : ℕ) (m : Manager)
    → (password == "") ≡ false
    → m.enabled ≡ true
    → All
        (λ n. n < 10000)
        (next_numbers
          (existing_numbers (family_prefix family) m.state_root)
          (running_numbers (family_prefix family) m.instances)
          count)
    → (started : List String) × (start_fleet password family count m ≡ (
      response (record { started = started; family = family_name family }),
      start_each (family_name family) started m,
    ))
      × (length started ≡ count)
      × All (λ id. runs m.instances id ≡ false) started
unfolding start_fleet next_ids
start_fleet-idle password family count m given enabled small =
    let prefix = family_prefix family in
    let existing = existing_numbers prefix m.state_root in
    let running = running_numbers prefix m.instances in
    let picked =
      next_numbers-Picked existing running count (existing-Ascending prefix m.state_root) in
    let numbers = next_numbers existing running count in
    (
      map (numbered_id prefix) numbers,
      rw (given, enabled),
      length-map-ids prefix numbers ∙ picked.enough,
      All-runs prefix m.instances numbers small picked.idle,
    )
