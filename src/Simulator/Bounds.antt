-- ===== src/Simulator/Bounds.antt =====
-- The levels of a light stay between 0 and 100, one for each channel.
use mathlib.Core.Path.{subst}
use secure_io_t_device_platf.Base.{
  ◌∙◌, ℕ, zero, suc, ◌≤◌, ◌≡◌, ◌⊎◌, inl, inr, refl, ap, arith, String, List, [], ◌∷◌, length, All,
  eqb, Bool-cases, Option-cases,
}
use secure_io_t_device_platf.Json.{
  Json, null, bool, int, float, text, list, dict, Items, nil, cons, Fields, end, field, get,
  or_default,
}
use secure_io_t_device_platf.Simulator.Levels.{
  Handled, done, value_error, other_error, Rounded, whole, not_a_number, infinite, Round, clamp,
  clamp_rounded, clamp_level, clamp_all, items_length, set_level,
}
use secure_io_t_device_platf.Simulator.Profiles.{
  Light, cromaled, area_lz7, Profile, lighting, as7341, channel_names, each, position, normalized,
  resolve_channel, set_channel, set_list, set_named, set_channels, set_all_channels, light_command,
  handle_command,
}

pub Handled-cases :
    {A : Type 0} (h : Handled A)
    → ((a : A) × (h ≡ done a)) ⊎ ((e : String) × (h ≡ value_error e)) ⊎ (h ≡ other_error)
Handled-cases (done a) = inl (a, refl)
Handled-cases (value_error e) = inr (inl (e, refl))
Handled-cases other_error = inr (inr refl)

clamp_rounded-le : (r : Rounded) (l : ℕ) → clamp_rounded r ≡ done l → l ≤ 100
unfolding clamp_rounded clamp
clamp_rounded-le (whole negative n) l h = ground (arith, h)
clamp_rounded-le not_a_number l h = ground (arith, h)
clamp_rounded-le infinite l h = ground (arith, h)

clamp_level-le : (round : Round) (v : Json) (l : ℕ) → clamp_level round v ≡ done l → l ≤ 100
unfolding clamp_level clamp
clamp_level-le round null l h = ground (arith, h)
clamp_level-le round (bool b) l h = ground (arith, h)
clamp_level-le round (int negative n) l h = ground (arith, h)
clamp_level-le round (float bits) l h = clamp_rounded-le (round bits) l h
clamp_level-le round (text s) l h = ground (arith, h)
clamp_level-le round (list items) l h = ground (arith, h)
clamp_level-le round (dict fields) l h = ground (arith, h)

abbrev Low : List ℕ → Type 0
Low = All (λ l. l ≤ 100)

abbrev Fits : Items → Handled (List ℕ) → Type 0
Fits items (done ls) = (length ls ≡ items_length items) × Low ls
Fits items _ = Unit

clamp_all-Fits : (round : Round) (items : Items) → Fits items (clamp_all round items)
unfolding clamp_all items_length
clamp_all-Fits round nil = (refl, tt)
clamp_all-Fits round (cons v rest) = elim (Handled-cases (clamp_level round v)) [
  | inl (l, e) ↦ elim (Handled-cases (clamp_all round rest)) [
    | inl (ls, k) ↦
        let (same, low) = subst (Fits rest) k (clamp_all-Fits round rest) in
        rw (e, clamp_all, k) (ap suc same, (clamp_level-le round v l e, low))
    | inr (inl (m, k)) ↦ rw (e, clamp_all, k) tt
    | inr (inr k) ↦ rw (e, clamp_all, k) tt
  ]
  | inr (inl (m, e)) ↦ rw (e, clamp_all) tt
  | inr (inr e) ↦ rw (e, clamp_all) tt
]

-- As many levels as channels, each at most 100.
abbrev pub Bounded : Light → List ℕ → Type 0
Bounded light levels = (length levels ≡ length (channel_names light)) × Low levels

each-Low :
    (level : ℕ) (names : List String)
    → level ≤ 100
    → (length (each level names) ≡ length names) × Low (each level names)
unfolding each
each-Low level [] h = (refl, tt)
each-Low level (n ∷ names) h = let rest = each-Low level names h in (ap suc rest.0, (h, rest.1))

set_level-Low :
    (i level : ℕ) (ls : List ℕ)
    → level ≤ 100
    → Low ls
    → (length (set_level i level ls) ≡ length ls) × Low (set_level i level ls)
unfolding set_level
set_level-Low i level [] h k = (refl, tt)
set_level-Low zero level (l ∷ ls) h k = (refl, (h, k.1))
set_level-Low (suc i) level (l ∷ ls) h k =
    let rest = set_level-Low i level ls h k.1 in (ap suc rest.0, (k.0, rest.1))

set_level-Bounded :
    (light : Light) (i level : ℕ) (ls : List ℕ)
    → level ≤ 100
    → Bounded light ls
    → Bounded light (set_level i level ls)
set_level-Bounded light i level ls h k =
    let (same, low) = set_level-Low i level ls h k.1 in (same ∙ k.0, low)

abbrev pub BoundedProfile : Profile → Type 0
BoundedProfile (lighting light levels) = Bounded light levels
BoundedProfile (as7341 spectrum) = Unit

module _ (round : Round) where
  set_channel-Bounded :
      (light : Light) (ls : List ℕ) (fields : Fields)
      → Bounded light ls
      → Bounded light (set_channel round light ls fields).1
  unfolding set_channel
  set_channel-Bounded light ls fields h = elim (Option-cases (resolve_channel light fields)) [
    | inl e ↦ rw (e, set_channel) h
    | inr (i, e) ↦ elim (Handled-cases (clamp_level round (or_default (get "level" fields) null))) [
      | inl (l, k) ↦
          rw (e, set_channel, k) (set_level-Bounded light i l ls (clamp_level-le round _ l k) h)
      | inr (inl (m, k)) ↦ rw (e, set_channel, k) h
      | inr (inr k) ↦ rw (e, set_channel, k) h
    ]
  ]

  set_named-Bounded :
      (ls : List ℕ) (fields : Fields)
      → Bounded cromaled ls
      → Bounded cromaled (set_named round ls fields).1
  unfolding set_named
  set_named-Bounded ls end h = h
  set_named-Bounded ls (field name v rest) h =
      elim (Option-cases (position (normalized name) (channel_names cromaled))) [
        | inl e ↦ rw (e, set_named) (set_named-Bounded ls rest h)
        | inr (i, e) ↦ elim (Handled-cases (clamp_level round v)) [
          | inl (l, k) ↦
              rw (e, set_named, k)
                (set_named-Bounded (set_level i l ls) rest
                  (set_level-Bounded cromaled i l ls (clamp_level-le round v l k) h))
          | inr (inl (m, k)) ↦ rw (e, set_named, k) h
          | inr (inr k) ↦ rw (e, set_named, k) h
        ]
      ]

  set_list-Bounded :
      (light : Light) (ls : List ℕ) (items : Items)
      → items_length items ≡ length (channel_names light)
      → Bounded light ls
      → Bounded light (set_list round light ls items).1
  unfolding set_list
  set_list-Bounded light ls items fits h = elim (Handled-cases (clamp_all round items)) [
    | inl (fresh, k) ↦
        let (same, low) = subst (Fits items) k (clamp_all-Fits round items) in
        rw (k, set_list) (same ∙ fits, low)
    | inr (inl (m, k)) ↦ rw (k, set_list) h
    | inr (inr k) ↦ rw (k, set_list) h
  ]

  set_channels-Bounded :
      (light : Light) (ls : List ℕ) (v : Json)
      → Bounded light ls
      → Bounded light (set_channels round light ls v).1
  unfolding set_channels
  set_channels-Bounded light ls (list items) h =
      elim (Bool-cases (eqb (items_length items) (length (channel_names light)))) [
        | inl e ↦ rw e (set_list-Bounded light ls items (ground arith) h)
        | inr e ↦ rw e h
      ]
  set_channels-Bounded cromaled ls (dict fields) h = set_named-Bounded ls fields h
  set_channels-Bounded area_lz7 ls (dict fields) h = h
  set_channels-Bounded cromaled ls null h = h
  set_channels-Bounded cromaled ls (bool b) h = h
  set_channels-Bounded cromaled ls (int b n) h = h
  set_channels-Bounded cromaled ls (float n) h = h
  set_channels-Bounded cromaled ls (text s) h = h
  set_channels-Bounded area_lz7 ls null h = h
  set_channels-Bounded area_lz7 ls (bool b) h = h
  set_channels-Bounded area_lz7 ls (int b n) h = h
  set_channels-Bounded area_lz7 ls (float n) h = h
  set_channels-Bounded area_lz7 ls (text s) h = h

  set_all-Bounded :
      (light : Light) (ls : List ℕ) (fields : Fields)
      → Bounded light ls
      → Bounded light (set_all_channels round light ls fields).1
  unfolding set_all_channels
  set_all-Bounded light ls fields h =
      elim (Handled-cases (clamp_level round (or_default (get "level" fields) null))) [
        | inl (l, k) ↦
            rw (k, set_all_channels) (each-Low l (channel_names light) (clamp_level-le round _ l k))
        | inr (inl (m, k)) ↦ rw (k, set_all_channels) h
        | inr (inr k) ↦ rw (k, set_all_channels) h
      ]

  light_command-Bounded :
      (light : Light) (ls : List ℕ) (command : String) (fields : Fields)
      → Bounded light ls
      → Bounded light (light_command round light ls command fields).1
  unfolding light_command
  light_command-Bounded light ls command fields h = ground (
    arith,
    set_channel-Bounded light ls fields h,
    set_channels-Bounded light ls (or_default (get "channels" fields) null) h,
    set_all-Bounded light ls fields h,
    each-Low 0 (channel_names light),
  )

  pub handle_command-Bounded :
      (p : Profile) (command : String) (fields : Fields)
      → BoundedProfile p
      → BoundedProfile (handle_command round p command fields).1
  unfolding handle_command
  handle_command-Bounded (lighting light ls) command fields h =
      light_command-Bounded light ls command fields h
  handle_command-Bounded (as7341 spectrum) command fields h = ground arith
