-- ===== src/Simulator/Profiles.antt =====
-- simulators/profiles/: the commands of the three families. Texts change case in ASCII only.
use secure_io_t_device_platf.Base.{
  ℕ, zero, suc, ◌-◌, String, true, false, not, ◌&&◌, ◌||◌, Option, none, some, List, [], ◌∷◌, map,
  length, leb, eqb, ◌==◌, if◌then◌else◌,
}
use secure_io_t_device_platf.Base.Text.{codes, strip, lower, same_codes, starts_with, contains}
use secure_io_t_device_platf.Json.{
  Json, null, bool, int, text, list, dict, Items, nil, cons, Fields, end, field, get, or_default,
}
use secure_io_t_device_platf.Profiles.{without_separators}
use secure_io_t_device_platf.Simulator.Levels.{
  Handled, done, value_error, other_error, Round, clamp_level, clamp_all, items_length, set_level,
}

pub data Light : Type 0 where
  cromaled area_lz7 : Light

-- The levels of a light in the order of its channels, or the last spectrum of a sensor.
pub data Profile : Type 0 where
  lighting : Light → List ℕ → Profile
  as7341 : List ℕ → Profile

-- CHANNELS
unfoldable pub channel_names : Light → List String
channel_names cromaled =
    "ROYAL_BLUE" ∷ "BLUE" ∷ "CYAN" ∷ "GREEN" ∷ "LIME" ∷ "LIME2" ∷ "AMBER" ∷ "AMBER2" ∷ "RED_ORANGE"
    ∷ "RED" ∷ "DEEP_RED" ∷ []
channel_names area_lz7 = "BLUE" ∷ "CYAN" ∷ "GREEN" ∷ "LIME" ∷ "AMBER" ∷ "RED" ∷ []

-- BANDS
abbrev pub bands : List String
bands = "F1" ∷ "F2" ∷ "F3" ∷ "F4" ∷ "F5" ∷ "F6" ∷ "F7" ∷ "F8" ∷ "NIR" ∷ "CLEAR" ∷ []

-- {name: level for name in names}
unfoldable pub each : ℕ → List String → List ℕ
each level [] = []
each level (name ∷ names) = level ∷ each level names

unfoldable pub create_of_key : List ℕ → Option Profile
create_of_key key =
    if contains (codes "cromaled") key || starts_with (codes "cled") key
    then some (lighting cromaled (each 0 (channel_names cromaled)))
    else if contains (codes "arealz7") key || starts_with (codes "area") key
    then some (lighting area_lz7 (each 0 (channel_names area_lz7)))
    else if contains (codes "as7341") key
    then some (as7341 (each 0 bands))
    else none

-- none is the ValueError of an unsupported family
unfoldable pub create_profile : String → Option Profile
create_profile family = create_of_key (without_separators (lower (strip family)))

-- str.upper and .replace(" ", "_").replace("-", "_") of one character
unfoldable pub upper_code : ℕ → ℕ
upper_code c =
    if leb b'a' c && leb c b'z' then c - 32 else if eqb c b' ' || eqb c b'-' then b'_' else c

abbrev pub normalized : String → List ℕ
normalized name = map upper_code (codes name)

-- The position of a channel among the names.
unfoldable pub position : List ℕ → List String → Option ℕ
position key [] = none
position key (name ∷ names) =
    let rest = position key names in
    if same_codes key (codes name)
    then some 0
    else elim rest [ none ↦ none | some i ↦ some (suc i) ]

unfoldable pub channel_by_name : Json → List String → Option ℕ
channel_by_name (text s) names = position (normalized (strip s)) names
channel_by_name _ names = none

-- isinstance(index, int) and 1 <= index <= len(CHANNELS)
unfoldable pub channel_by_index : Json → ℕ → Option ℕ
channel_by_index (bool b) count = if b && leb 1 count then some 0 else none
channel_by_index (int negative n) count =
    if not negative && leb 1 n && leb n count then some (n - 1) else none
channel_by_index _ count = none

unfoldable pub resolve_channel : Light → Fields → Option ℕ
resolve_channel light parameters =
    let channel = or_default (get "channel" parameters) null in
    elim (channel_by_name channel (channel_names light)) [
      | some i ↦ some i
      | none ↦
          channel_by_index (or_default (get "channel_index" parameters) channel)
            (length (channel_names light))
    ]

unfoldable pub no_channel : Light → String
no_channel cromaled = "channel must identify one of the 11 channels"
no_channel area_lz7 = "channel must identify one of the 6 channels"

unfoldable pub name_at : ℕ → List String → String
name_at i [] = ""
name_at zero (name ∷ names) = name
name_at (suc i) (name ∷ names) = name_at i names

unfoldable pub numbers : List ℕ → Items
numbers [] = nil
numbers (n ∷ ns) = cons (int false n) (numbers ns)

unfoldable pub named : List String → List ℕ → Fields
named (name ∷ names) (n ∷ ns) = field name (int false n) (named names ns)
named _ _ = end

-- The response and the levels after the command.
abbrev pub Handling : Type 0 → Type 0
Handling A = Handled Json × A

unfoldable pub set_channel : Round → Light → List ℕ → Fields → Handling (List ℕ)
set_channel round light levels parameters = elim (resolve_channel light parameters) [
  | none ↦ (value_error (no_channel light), levels)
  | some i ↦ elim (clamp_level round (or_default (get "level" parameters) null)) [
    | done level ↦ (
      done (
          dict (
            field "channel" (text (name_at i (channel_names light)))
              (field "level" (int false level) end))),
      set_level i level levels,
    )
    | value_error e ↦ (value_error e, levels)
    | other_error ↦ (other_error, levels)
  ]
]

-- `self.levels` is replaced once every value is clamped.
unfoldable pub set_list : Round → Light → List ℕ → Items → Handling (List ℕ)
set_list round light levels items = elim (clamp_all round items) [
  | done fresh ↦ (
    done (elim light [
      | cromaled ↦ dict (field "channels" (dict (named (channel_names cromaled) fresh)) end)
      | area_lz7 ↦ dict (field "channels" (list (numbers fresh)) end)
    ]),
    fresh,
  )
  | value_error e ↦ (value_error e, levels)
  | other_error ↦ (other_error, levels)
]

-- The loop over a name-keyed object writes each level before it looks at the next.
unfoldable pub set_named : Round → List ℕ → Fields → Handling (List ℕ)
set_named round levels end =
    (done (dict (field "channels" (dict (named (channel_names cromaled) levels)) end)), levels)
set_named round levels (field name v rest) =
    elim (position (normalized name) (channel_names cromaled)) [
      | none ↦ set_named round levels rest
      | some i ↦ elim (clamp_level round v) [
        | done level ↦ set_named round (set_level i level levels) rest
        | value_error e ↦ (value_error e, levels)
        | other_error ↦ (other_error, levels)
      ]
    ]

unfoldable pub set_channels : Round → Light → List ℕ → Json → Handling (List ℕ)
set_channels round light levels (list items) =
    if eqb (items_length items) (length (channel_names light))
    then set_list round light levels items
    else (
      value_error (elim light [
        | cromaled ↦ "channels must be a list of 11 values or a name-keyed object"
        | area_lz7 ↦ "channels must contain 6 levels"
      ]),
      levels,
    )
set_channels round cromaled levels (dict fields) = set_named round levels fields
set_channels round cromaled levels _ =
    (value_error "channels must be a list of 11 values or a name-keyed object", levels)
set_channels round area_lz7 levels _ = (value_error "channels must contain 6 levels", levels)

unfoldable pub set_all_channels : Round → Light → List ℕ → Fields → Handling (List ℕ)
set_all_channels round light levels parameters =
    elim (clamp_level round (or_default (get "level" parameters) null)) [
      | done level ↦ (
        done (
            dict (
              field "channels" (int false (length (channel_names light)))
                (field "level" (int false level) end))),
        each level (channel_names light),
      )
      | value_error e ↦ (value_error e, levels)
      | other_error ↦ (other_error, levels)
    ]

unfoldable pub light_command : Round → Light → List ℕ → String → Fields → Handling (List ℕ)
light_command round light levels command parameters =
    if command == "set_channel"
    then set_channel round light levels parameters
    else if command == "set_channels"
    then set_channels round light levels (or_default (get "channels" parameters) null)
    else if command == "set_all_channels"
    then set_all_channels round light levels parameters
    else if command == "off"
    then (done (dict (field "off" (bool true) end)), each 0 (channel_names light))
    else (value_error "unsupported", levels)

unfoldable pub handle_command : Round → Profile → String → Fields → Handling Profile
handle_command round (lighting light levels) command parameters =
    let (handled, fresh) = light_command round light levels command parameters in
    (handled, lighting light fresh)
handle_command round (as7341 spectrum) command parameters =
    if command == "read_spectrum"
    then (
      done (
          dict (field "gain" (int false 256) (field "spectrum" (dict (named bands spectrum)) end))),
      as7341 spectrum,
    )
    else (value_error "unsupported", as7341 spectrum)
