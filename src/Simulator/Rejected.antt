-- ===== src/Simulator/Rejected.antt =====
-- A command that a simulated device does not carry out.
use secure_io_t_device_platf.Base.{
  ℕ, ◌≡◌, inl, inr, refl, ap, arith, String, Bool, true, false, List, eqb, length, Bool-cases,
  Option-cases,
}
use secure_io_t_device_platf.Json.{
  Json, null, bool, int, float, text, list, dict, Items, Fields, get, or_default,
}
use secure_io_t_device_platf.Simulator.Levels.{
  Handled, done, Round, clamp_level, clamp_all, items_length,
}
use secure_io_t_device_platf.Simulator.Profiles.{
  Light, cromaled, area_lz7, Profile, lighting, as7341, Handling, channel_names, resolve_channel,
  set_channel, set_list, set_channels, set_all_channels, light_command, handle_command,
}
use secure_io_t_device_platf.Simulator.Bounds.{Handled-cases}

abbrev pub is_done : {A : Type 0} → Handled A → Bool
is_done (done a) = true
is_done _ = false

-- Without success the state is the one before.
abbrev Unchanged : {A : Type 0} → A → Handling A → Type 0
Unchanged before (handled, after) = is_done handled ≡ false → (after ≡ before)

module _ (round : Round) (light : Light) (ls : List ℕ) where
  set_channel-Unchanged : (fields : Fields) → Unchanged ls (set_channel round light ls fields)
  unfolding set_channel
  set_channel-Unchanged fields = elim (Option-cases (resolve_channel light fields)) [
    | inl e ↦ rw (e, set_channel) (λ h. refl)
    | inr (i, e) ↦ elim (Handled-cases (clamp_level round (or_default (get "level" fields) null))) [
      | inl (l, k) ↦ rw (e, set_channel, k) (λ h. absurd (ground (arith, h)))
      | inr (inl (m, k)) ↦ rw (e, set_channel, k) (λ h. refl)
      | inr (inr k) ↦ rw (e, set_channel, k) (λ h. refl)
    ]
  ]

  set_all-Unchanged : (fields : Fields) → Unchanged ls (set_all_channels round light ls fields)
  unfolding set_all_channels
  set_all-Unchanged fields =
      elim (Handled-cases (clamp_level round (or_default (get "level" fields) null))) [
        | inl (l, k) ↦ rw (k, set_all_channels) (λ h. absurd (ground (arith, h)))
        | inr (inl (m, k)) ↦ rw (k, set_all_channels) (λ h. refl)
        | inr (inr k) ↦ rw (k, set_all_channels) (λ h. refl)
      ]

  set_list-Unchanged : (items : Items) → Unchanged ls (set_list round light ls items)
  unfolding set_list
  set_list-Unchanged items = elim (Handled-cases (clamp_all round items)) [
    | inl (l, k) ↦ rw (k, set_list) (λ h. absurd (ground (arith, h)))
    | inr (inl (m, k)) ↦ rw (k, set_list) (λ h. refl)
    | inr (inr k) ↦ rw (k, set_list) (λ h. refl)
  ]

-- The value is not an object of names.
abbrev pub is_object : Json → Bool
is_object (dict fields) = true
is_object _ = false

set_channels-Unchanged :
    (round : Round) (light : Light) (ls : List ℕ) (v : Json)
    → is_object v ≡ false
    → Unchanged ls (set_channels round light ls v)
unfolding set_channels
set_channels-Unchanged round light ls (dict fields) h = absurd (ground (arith, h))
set_channels-Unchanged round light ls (list items) h =
    elim (Bool-cases (eqb (items_length items) (length (channel_names light)))) [
      | inl e ↦ rw (e, set_channels) (set_list-Unchanged round light ls items)
      | inr e ↦ rw (e, set_channels) (λ k. refl)
    ]
set_channels-Unchanged round cromaled ls null h = λ k. refl
set_channels-Unchanged round cromaled ls (bool b) h = λ k. refl
set_channels-Unchanged round cromaled ls (int b n) h = λ k. refl
set_channels-Unchanged round cromaled ls (float n) h = λ k. refl
set_channels-Unchanged round cromaled ls (text s) h = λ k. refl
set_channels-Unchanged round area_lz7 ls null h = λ k. refl
set_channels-Unchanged round area_lz7 ls (bool b) h = λ k. refl
set_channels-Unchanged round area_lz7 ls (int b n) h = λ k. refl
set_channels-Unchanged round area_lz7 ls (float n) h = λ k. refl
set_channels-Unchanged round area_lz7 ls (text s) h = λ k. refl

light-Unchanged :
    (round : Round) (light : Light) (ls : List ℕ) (command : String) (fields : Fields)
    → is_object (or_default (get "channels" fields) null) ≡ false
    → Unchanged ls (light_command round light ls command fields)
unfolding light_command
light-Unchanged round light ls command fields h = ground (
  arith,
  set_channel-Unchanged round light ls fields,
  set_channels-Unchanged round light ls (or_default (get "channels" fields) null) h,
  set_all-Unchanged round light ls fields,
)

-- A command whose channels are no object of names, and that does not succeed, leaves the profile as it
-- was: the levels change all at once or not at all.
pub rejected_unchanged :
    (round : Round) (p : Profile) (command : String) (fields : Fields)
    → is_object (or_default (get "channels" fields) null) ≡ false
    → is_done (handle_command round p command fields).0 ≡ false
    → (handle_command round p command fields).1 ≡ p
unfolding handle_command
rejected_unchanged round (lighting light ls) command fields h k =
    ap (lighting light) (light-Unchanged round light ls command fields h k)
rejected_unchanged round (as7341 spectrum) command fields h k = ground arith
