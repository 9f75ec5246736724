-- ===== src/Manufacturing/Products.antt =====
-- scripts/factory_program_esp32.py: the products that can be programmed, and their names.
use Prim.Native.String.{◌++◌ as text_append}
use secure_io_t_device_platf.Base.{
  ℕ, String, ◌||◌, Option, none, some, List, [], ◌∷◌, eqb, if◌then◌else◌,
}
use secure_io_t_device_platf.Base.Text.{codes, strip, lower, same_codes}

pub data Product : Type 0 where
  cromaled area_lz7 as7341 : Product

unfoldable pub key : Product → String
key cromaled = "cromaled"
key area_lz7 = "area_lz7"
key as7341 = "as7341"

unfoldable pub label : Product → String
label cromaled = "CromaLED"
label area_lz7 = "AREA LZ7"
label as7341 = "AS7341"

unfoldable pub firmware_dirname : Product → String
firmware_dirname cromaled = "CromaLED_Gateway"
firmware_dirname area_lz7 = "AREA_LZ7_Gateway"
firmware_dirname as7341 = "AS7341_Gateway"

-- .replace(" ", "")
unfoldable pub without_spaces : List ℕ → List ℕ
without_spaces [] = []
without_spaces (c ∷ cs) = let rest = without_spaces cs in if eqb c 32 then rest else c ∷ rest

-- PROFILE_ALIASES.get
unfoldable pub alias : List ℕ → Option Product
alias name =
    if same_codes name (codes "1")
      || same_codes name (codes "cromaled")
      || same_codes name (codes "cled")
    then some cromaled
    else if same_codes name (codes "2")
        || same_codes name (codes "area")
        || same_codes name (codes "arealz7")
        || same_codes name (codes "area-lz7")
        || same_codes name (codes "area_lz7")
    then some area_lz7
    else if same_codes name (codes "3") || same_codes name (codes "as7341")
    then some as7341
    else none

-- none is the `FactoryProgrammingError` of an unknown profile
unfoldable pub normalize_profile : String → Option Product
normalize_profile value = elim (alias (without_spaces (lower (strip value)))) [
  | some product ↦ some product
  | none ↦ alias (lower (strip value))
]

-- profile in ALLOWED_PROFILES, with the product
unfoldable pub allowed_profile : String → Option Product
allowed_profile profile =
    if same_codes (codes profile) (codes "cromaled")
    then some cromaled
    else if same_codes (codes profile) (codes "area_lz7")
    then some area_lz7
    else if same_codes (codes profile) (codes "as7341")
    then some as7341
    else none

unfoldable pub source_project : Product → String
source_project product = text_append "firmware/esp32/" (firmware_dirname product)
