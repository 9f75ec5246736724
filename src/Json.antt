-- ===== src/Json.antt =====
-- JSON values as Python's `json.loads` makes them, and the standard library's functions on them.
-- A float is its IEEE 754 bit pattern; an object lists each key once.
use secure_io_t_device_platf.Base.{
  ℕ, ◌^◌, String, Bool, true, false, not, ◌&&◌, Option, none, some, eqb, ◌==◌, if◌then◌else◌,
}

mutual
  pub data Json : Type 0 where
    null : Json
    bool : Bool → Json
    int : Bool → ℕ → Json
    float : ℕ → Json
    text : String → Json
    list : Items → Json
    dict : Fields → Json

  pub data Items : Type 0 where
    nil : Items
    cons : Json → Items → Items

  pub data Fields : Type 0 where
    end : Fields
    field : String → Json → Fields → Fields

-- payload.get(key)
unfoldable pub get : String → Fields → Option Json
get k end = none
get k (field j v rest) = if j == k then some v else get k rest

-- payload.get(key, default)
abbrev pub or_default : Option Json → Json → Json
or_default none d = d
or_default (some v) d = v

-- bool(value); the two zeros among the floats are false
unfoldable pub truth : Json → Bool
truth null = false
truth (bool b) = b
truth (int negative n) = not (eqb n 0)
truth (float bits) = not (eqb bits 0) && not (eqb bits (2 ^ 63))
truth (text s) = not (s == "")
truth (list nil) = false
truth (list (cons v rest)) = true
truth (dict end) = false
truth (dict (field k v rest)) = true

-- isinstance(value, (dict, list))
abbrev pub is_container : Json → Bool
is_container (list items) = true
is_container (dict fields) = true
is_container _ = false

-- json.loads (none for JSONDecodeError), json.dumps, str, and datetime.isoformat
pub record JsonLib : Type 0 where
  pub loads : String → Option Json
  pub dumps : Json → String
  pub str : Json → String
  pub isoformat : ℕ → String
