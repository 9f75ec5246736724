-- ===== src/Profiles.antt =====
-- server/app/device_profiles.py: what the dashboard shows for a family of devices.
use secure_io_t_device_platf.Base.{
  Bool-cases, inl, inr, ℕ, suc, ◌≡◌, refl, String, Bool, true, false, not, ◌&&◌, ◌||◌, List, [],
  ◌∷◌, eqb, ◌==◌, if◌then◌else◌,
}
use secure_io_t_device_platf.Base.Text.{codes, strip, lower, same_codes, starts_with, contains}

pub data Slug : Type 0 where
  cromaled area_lz7 as7341 demo generic : Slug

-- .replace(" ", "").replace("-", "").replace("_", "")
unfoldable pub without_separators : List ℕ → List ℕ
without_separators [] = []
without_separators (c ∷ cs) =
    let rest = without_separators cs in
    if eqb c b' ' || eqb c b'-' || eqb c b'_' then rest else c ∷ rest

unfoldable pub slug_of_key : List ℕ → Slug
slug_of_key key =
    if contains (codes "cromaled") key || starts_with (codes "cled") key
    then cromaled
    else if contains (codes "arealz7") key || starts_with (codes "area") key
    then area_lz7
    else if contains (codes "as7341") key || contains (codes "lightsensor") key
    then as7341
    else if same_codes key (codes "test")
        || same_codes key (codes "demo")
        || same_codes key (codes "demodevice")
        || same_codes key (codes "generic")
    then demo
    else generic

unfoldable pub family_slug : String → Slug
family_slug family = slug_of_key (without_separators (lower (strip family)))

pub data Kind : Type 0 where
  lighting sensor demo_kind generic_kind : Kind

pub record Channel : Type 0 where
  pub index : ℕ
  pub id : String
  pub label : String

pub record Profile : Type 0 where
  pub slug : Slug
  pub title : String
  pub subtitle : String
  pub kind : Kind
  pub channels : List Channel
  pub bands : List String

abbrev pub cromaled_channels : List (String × String)
cromaled_channels =
    ("ROYAL_BLUE", "Royal Blue")
    ∷ ("BLUE", "Blue")
    ∷ ("CYAN", "Cyan")
    ∷ ("GREEN", "Green")
    ∷ ("LIME", "Lime")
    ∷ ("LIME2", "Lime 2")
    ∷ ("AMBER", "Amber")
    ∷ ("AMBER2", "Amber 2")
    ∷ ("RED_ORANGE", "Red Orange")
    ∷ ("RED", "Red")
    ∷ ("DEEP_RED", "Deep Red")
    ∷ []

abbrev pub area_lz7_channels : List (String × String)
area_lz7_channels =
    ("BLUE", "Blue")
    ∷ ("CYAN", "Cyan")
    ∷ ("GREEN", "Green")
    ∷ ("LIME", "Lime")
    ∷ ("AMBER", "Amber")
    ∷ ("RED", "Red")
    ∷ []

abbrev pub as7341_bands : List String
as7341_bands = "F1" ∷ "F2" ∷ "F3" ∷ "F4" ∷ "F5" ∷ "F6" ∷ "F7" ∷ "F8" ∷ "NIR" ∷ "CLEAR" ∷ []

-- enumerate(channels, start=first)
unfoldable pub enumerate : ℕ → List (String × String) → List Channel
enumerate first [] = []
enumerate first ((id, label) ∷ rest) =
    record { index = first; id = id; label = label } ∷ enumerate (suc first) rest

unfoldable pub profile_of : Slug → String → Profile
profile_of cromaled family = record {
  slug = cromaled;
  title = "CromaLED";
  subtitle = "Multichannel spectral control";
  kind = lighting;
  channels = enumerate 1 cromaled_channels;
  bands = [];
}
profile_of area_lz7 family = record {
  slug = area_lz7;
  title = "AREA LZ7";
  subtitle = "Six-channel luminaire";
  kind = lighting;
  channels = enumerate 1 area_lz7_channels;
  bands = [];
}
profile_of as7341 family = record {
  slug = as7341;
  title = "AS7341";
  subtitle = "Spectral light sensor";
  kind = sensor;
  channels = [];
  bands = as7341_bands;
}
profile_of demo family = record {
  slug = demo;
  title = "Demo Device";
  subtitle = "Validation device";
  kind = demo_kind;
  channels = [];
  bands = [];
}
profile_of generic family = record {
  slug = generic;
  title = if family == "" then "Generic" else family;
  subtitle = "IoT device";
  kind = generic_kind;
  channels = [];
  bands = [];
}

unfoldable pub profile_for : String → Profile
profile_for family = profile_of (family_slug family) family

abbrev pub is_lighting : Kind → Bool
is_lighting lighting = true
is_lighting _ = false

abbrev pub numbered : ℕ → List Channel → Bool
numbered n [] = true
numbered n (c ∷ cs) = eqb c.index n && numbered (suc n) cs

abbrev pub is_empty_list : List Channel → Bool
is_empty_list [] = true
is_empty_list (c ∷ cs) = false

profile_of-coherent :
    (slug : Slug) (family : String)
    → ((profile_of slug family).slug ≡ slug)
      × (is_empty_list (profile_of slug family).channels
          ≡ not (is_lighting (profile_of slug family).kind))
      × (numbered 1 (profile_of slug family).channels ≡ true)
      × ((profile_of slug family).title == "" ≡ false)
unfolding profile_of enumerate
profile_of-coherent cromaled family = (refl, refl, refl, refl)
profile_of-coherent area_lz7 family = (refl, refl, refl, refl)
profile_of-coherent as7341 family = (refl, refl, refl, refl)
profile_of-coherent demo family = (refl, refl, refl, refl)
profile_of-coherent generic family = elim (Bool-cases (family == "")) [
  | inl e ↦ (refl, refl, refl, rw (e, profile_of) refl)
  | inr e ↦ (refl, refl, refl, rw (e, profile_of) e)
]

-- The profile of a family has the slug of that family, a title that is not empty, and channels exactly
-- if it is for lighting; they are numbered from one.
pub profile_for-coherent :
    (family : String)
    → ((profile_for family).slug ≡ family_slug family)
      × (is_empty_list (profile_for family).channels ≡ not (is_lighting (profile_for family).kind))
      × (numbered 1 (profile_for family).channels ≡ true)
      × ((profile_for family).title == "" ≡ false)
unfolding profile_for
profile_for-coherent family = profile_of-coherent (family_slug family) family
