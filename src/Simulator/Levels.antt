-- ===== src/Simulator/Levels.antt =====
-- simulators/profiles/base.py: `clamp_level`, with the errors of a command.
use secure_io_t_device_platf.Base.{
  ℕ, zero, suc, ◌-◌, ◌^◌, min, String, Bool, List, [], ◌∷◌, leb, if◌then◌else◌,
}
use secure_io_t_device_platf.Json.{Json, bool, int, float, Items, nil, cons}

-- What a command does: return, raise `ValueError` with its text, or raise another exception.
pub data Handled (A : Type 0) : Type 0 where
  done : A → Handled A
  value_error : String → Handled A
  other_error : Handled A

-- round(value) of a float, by its bit pattern: an integer with its sign, or no integer.
pub data Rounded : Type 0 where
  whole : Bool → ℕ → Rounded
  not_a_number infinite : Rounded

abbrev pub Round : Type 0
Round = ℕ → Rounded

-- The first integer that `float` refuses with an OverflowError.
unfoldable pub float_limit : ℕ
float_limit = 2 ^ 1024 - 2 ^ 970

-- max(0, min(100, n)), with the sign of n
unfoldable pub clamp : Bool → ℕ → ℕ
clamp negative n = if negative then 0 else min 100 n

unfoldable pub clamp_rounded : Rounded → Handled ℕ
clamp_rounded (whole negative n) = done (clamp negative n)
clamp_rounded not_a_number = value_error "cannot convert float NaN to integer"
clamp_rounded infinite = other_error

-- A bool is an int.
unfoldable pub clamp_level : Round → Json → Handled ℕ
clamp_level round (bool b) = done (if b then 1 else 0)
clamp_level round (int negative n) =
    if leb float_limit n then other_error else done (clamp negative n)
clamp_level round (float bits) = clamp_rounded (round bits)
clamp_level round _ = value_error "level must be numeric"

-- The clamped values of a list, or the error of the first that has one.
unfoldable pub clamp_all : Round → Items → Handled (List ℕ)
clamp_all round nil = done []
clamp_all round (cons v rest) = elim (clamp_level round v) [
  | done level ↦ elim (clamp_all round rest) [
    | done levels ↦ done (level ∷ levels)
    | value_error e ↦ value_error e
    | other_error ↦ other_error
  ]
  | value_error e ↦ value_error e
  | other_error ↦ other_error
]

unfoldable pub items_length : Items → ℕ
items_length nil = 0
items_length (cons v rest) = suc (items_length rest)

-- levels[channel] = level
unfoldable pub set_level : ℕ → ℕ → List ℕ → List ℕ
set_level i level [] = []
set_level zero level (l ∷ levels) = level ∷ levels
set_level (suc i) level (l ∷ levels) = l ∷ set_level i level levels
