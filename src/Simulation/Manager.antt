-- ===== src/Simulation/Manager.antt =====
-- simulators/manager.py: the fleet of simulated devices. A process is a row with a flag that says
-- whether it runs. The directory names are matched with ASCII digits, and creating and deleting
-- directories does not fail.
use Prim.Native.Char.{Char}
use Prim.Native.String.{◌++◌ as text_append}
use secure_io_t_device_platf.Base.{
  ℕ, zero, suc, ◌+◌, ◌-◌, ◌*◌, ◌/◌, ◌%◌, String, Bool, true, false, not, ◌||◌, ◌&&◌, Option, none,
  some, List, [], ◌∷◌, map, length, leb, ltb, eqb, ◌==◌, if◌then◌else◌,
}
use secure_io_t_device_platf.Base.Text.{codes, starts_with}
use secure_io_t_device_platf.Table
use secure_io_t_device_platf.Table.{select}
use secure_io_t_device_platf.Env.{Reply, response, http_error}
use secure_io_t_device_platf.Pki.Serial.{digit_char}
use secure_io_t_device_platf.Simulation.Numbers.{add, next_numbers}

pub data FleetFamily : Type 0 where
  cromaled area_lz7 as7341 : FleetFamily

-- FAMILY_CONFIG
unfoldable pub family_name : FleetFamily → String
family_name cromaled = "CromaLED"
family_name area_lz7 = "AREA LZ7"
family_name as7341 = "AS7341"

unfoldable pub family_prefix : FleetFamily → String
family_prefix cromaled = "CLED-SIM"
family_prefix area_lz7 = "AREA-SIM"
family_prefix as7341 = "AS7341-SIM"

-- ManagedProcess
pub record Instance : Type 0 where
  pub device_id : String
  pub family : String
  pub running : Bool

-- An entry of STATE_ROOT.
pub record Entry : Type 0 where
  pub name : String
  pub is_dir : Bool

-- The state directory, `instances`, and `simulation_enabled`.
pub record Manager : Type 0 where
  pub state_root : List Entry
  pub instances : List Instance
  pub enabled : Bool

abbrev pub instance_key : Instance → String
instance_key i = i.device_id

abbrev pub entry_key : Entry → String
entry_key e = e.name

-- \d
abbrev pub is_digit : ℕ → Bool
is_digit c = leb b'0' c && leb c b'9'

-- (\d{4})$
unfoldable pub four_digits : List ℕ → Option ℕ
four_digits (a ∷ b ∷ c ∷ d ∷ []) =
    if is_digit a && is_digit b && is_digit c && is_digit d
    then some ((a - 48) * 1000 + (b - 48) * 100 + (c - 48) * 10 + (d - 48))
    else none
four_digits _ = none

-- pattern.match(name), with the number of the group
unfoldable pub match_number : List ℕ → List ℕ → Option ℕ
match_number [] [] = none
match_number [] (c ∷ cs) = if eqb c b'-' then four_digits cs else none
match_number (p ∷ ps) [] = none
match_number (p ∷ ps) (c ∷ cs) = if eqb p c then match_number ps cs else none

unfoldable pub existing_numbers : String → List Entry → List ℕ
existing_numbers prefix [] = []
existing_numbers prefix (child ∷ children) =
    let rest = existing_numbers prefix children in
    elim (match_number (codes prefix) (codes child.name)) [ none ↦ rest | some n ↦ add n rest ]

unfoldable pub running_numbers : String → List Instance → List ℕ
running_numbers prefix [] = []
running_numbers prefix (item ∷ items) =
    let rest = running_numbers prefix items in
    elim (match_number (codes prefix) (codes item.device_id)) [
      | none ↦ rest
      | some n ↦ if item.running then n ∷ rest else rest
    ]

unfoldable pub decimal : ℕ → ℕ → String → String
decimal zero n acc = acc
decimal (suc fuel) n acc =
    let rest = decimal fuel (n / 10) (String.◌∷◌ (digit_char (n % 10)) acc) in
    if ltb n 10 then String.◌∷◌ (digit_char n) acc else rest

abbrev four : Char → Char → Char → Char → String
four a b c d = String.◌∷◌ a (String.◌∷◌ b (String.◌∷◌ c (String.◌∷◌ d String.[])))

-- f"{number:04d}"
unfoldable pub format_04d : ℕ → String
format_04d n =
    if ltb n 10000
    then four (digit_char (n / 1000)) (digit_char (n / 100 % 10)) (digit_char (n / 10 % 10))
        (digit_char (n % 10))
    else decimal (suc n) n String.[]

-- f"{prefix}-{number:04d}"
unfoldable pub numbered_id : String → ℕ → String
numbered_id prefix n = text_append prefix (String.◌∷◌ "-" (format_04d n))

unfoldable pub next_ids : String → ℕ → Manager → List String
next_ids prefix count m =
    map (numbered_id prefix) (
      next_numbers (existing_numbers prefix m.state_root) (running_numbers prefix m.instances)
        count)

-- device_dir.mkdir(exist_ok=True); instances[device_id] = ManagedProcess(...)
unfoldable pub start_instance : String → String → Manager → Manager
start_instance device_id family m = record m {
  state_root = Table.save entry_key (record { name = device_id; is_dir = true }) m.state_root;
  instances =
      Table.save instance_key (record { device_id = device_id; family = family; running = true })
        m.instances;
}

unfoldable pub start_each : String → List String → Manager → Manager
start_each family [] m = m
start_each family (device_id ∷ ids) m = start_each family ids (start_instance device_id family m)

pub record Started : Type 0 where
  pub started : List String
  pub family : String

unfoldable pub start_fleet : String → FleetFamily → ℕ → Manager → Reply Started × Manager
start_fleet admin_password family count m =
    let ids = next_ids (family_prefix family) count m in
    if admin_password == ""
    then (http_error 500 "DASHBOARD_PASSWORD is not configured", m)
    else if not m.enabled
    then (http_error 409 "Simulation is disabled. Enable it from the dashboard first.", m)
    else (
      response (record { started = ids; family = family_name family }),
      start_each (family_name family) ids m,
    )

unfoldable pub stop_instance : Instance → Instance
stop_instance item = record item { running = false }

-- `_stop_all_locked`, with the number of processes that it stops
unfoldable pub stop_all_locked : Manager → ℕ × Manager
stop_all_locked m = (
  length (select (λ i. i.running) m.instances),
  record m { instances = map stop_instance m.instances },
)

-- child.is_dir() and child.name.startswith(prefixes)
unfoldable pub is_simulated_state : Entry → Bool
is_simulated_state child =
    child.is_dir
    && (starts_with (codes "CLED-SIM-") (codes child.name)
        || starts_with (codes "AREA-SIM-") (codes child.name)
        || starts_with (codes "AS7341-SIM-") (codes child.name))

unfoldable pub purge_simulated_state : Manager → ℕ × Manager
purge_simulated_state m = (
  length (select is_simulated_state m.state_root),
  record m { state_root = select (λ e. not (is_simulated_state e)) m.state_root },
)

unfoldable pub enable_simulation : String → Manager → Reply (Unit {0}) × Manager
enable_simulation admin_password m =
    if admin_password == ""
    then (http_error 500 "DASHBOARD_PASSWORD is not configured", m)
    else (response tt, record m { enabled = true })

-- The response is the number of stopped processes.
unfoldable pub disable_simulation : Manager → ℕ × Manager
disable_simulation m = stop_all_locked (record m { enabled = false })

-- The response counts the stopped processes and the removed directories.
unfoldable pub reset_simulation : Manager → (ℕ × ℕ) × Manager
reset_simulation m =
    let (stopped, halted) = stop_all_locked (record m { enabled = false }) in
    let (removed, purged) = purge_simulated_state halted in
    ((stopped, removed), record purged { instances = [] })

unfoldable pub running_count : Manager → ℕ
running_count m = length (select (λ i. i.running) m.instances)
