-- ===== src/Reset/Project.antt =====
-- server/app/project_reset.py: `reset_project`. What the two services answer is an argument.
use Prim.Native.String.{◌++◌ as text_append}
use secure_io_t_device_platf.Base.{
  ℕ, ◌≡◌, String, Bool, true, false, not, ◌||◌, Option, none, some, [], ◌==◌, if◌then◌else◌, All,
}
use secure_io_t_device_platf.Json.{Fields, bool, get, or_default, truth}
use secure_io_t_device_platf.Env.{Context, Try, ok}
use secure_io_t_device_platf.Models.{Server}
use secure_io_t_device_platf.Registry.Revocation.{Grows}
use secure_io_t_device_platf.Reset.{Cleared, clear_runtime_database}
use secure_io_t_device_platf.Reset.Kept.{Blocked}

-- `_json_request`: the object that a service answers, an `OptionalServiceUnavailable`, or another
-- `ProjectResetError`.
pub data Answer : Type 0 where
  answered : Fields → Answer
  unavailable : String → Answer
  refused : String → Answer

-- Whether the manufacturing agent was asked, and the warning if it could not be reached.
pub data Manufacturing : Type 0 where
  idle : Manufacturing
  absent : Option String → Manufacturing

pub data ProjectReset : Type 0 where
  reset_done : Fields → Manufacturing → Cleared → ProjectReset
  project_reset_error : String → ProjectReset
  failed : ProjectReset

abbrev pub in_progress : String
in_progress =
    "A manufacturing operation is currently in progress. Wait for it to finish before resetting project data."

-- Whether the reset may go on; `may_not` is the raised `ProjectResetError`.
pub data Idle : Type 0 where
  may_reset : Manufacturing → Idle
  may_not : String → Idle

unfoldable pub verify_manufacturing_idle : Bool → String → Answer → Idle
verify_manufacturing_idle enabled token (answered health) =
    if not enabled || token == ""
    then may_reset (absent none)
    else if truth (or_default (get "busy" health) (bool false))
    then may_not in_progress
    else may_reset idle
verify_manufacturing_idle enabled token (unavailable e) =
    if not enabled || token == "" then may_reset (absent none) else may_reset (absent (some e))
verify_manufacturing_idle enabled token (refused e) =
    if not enabled || token == "" then may_reset (absent none) else may_not e

unfoldable pub finish_project_reset :
    Fields → Manufacturing → Try Cleared × Server → ProjectReset × Server
finish_project_reset simulation manufacturing (ok counts, s) =
    (reset_done simulation manufacturing counts, s)
finish_project_reset simulation manufacturing (_, s) = (failed, s)

unfoldable pub reset_idle : Context → (String → ℕ) → Fields → Idle → Server → ProjectReset × Server
reset_idle c clock simulation (may_not e) s = (project_reset_error e, s)
reset_idle c clock simulation (may_reset manufacturing) s =
    finish_project_reset simulation manufacturing (clear_runtime_database c clock s)

abbrev pub unreachable : String → String
unreachable e = text_append "Simulation Manager must be reachable before reset: " e

unfoldable pub reset_project :
    Context → (String → ℕ) → Bool → String → Answer → Answer → Server → ProjectReset × Server
reset_project c clock enabled token (answered simulation) agent s =
    reset_idle c clock simulation (verify_manufacturing_idle enabled token agent) s
reset_project c clock enabled token (unavailable e) agent s =
    (project_reset_error (unreachable e), s)
reset_project c clock enabled token (refused e) agent s = (project_reset_error (unreachable e), s)

-- Whether the manufacturing agent, as it answers, leaves the reset alone: it says that it is not busy,
-- or it cannot be reached.
abbrev pub is_quiet : Answer → Bool
is_quiet (answered health) = elim (get "busy" health) [ none ↦ true | some busy ↦ not (truth busy) ]
is_quiet (unavailable e) = true
is_quiet (refused e) = false

-- The simulation manager has answered, and the manufacturing agent is not in use or quiet.
abbrev pub is_clear : Bool → String → Answer → Answer → Bool
is_clear enabled token (answered purged) agent = not enabled || token == "" || is_quiet agent
is_clear enabled token _ agent = false

abbrev pub is_refusal : ProjectReset → Bool
is_refusal (project_reset_error e) = true
is_refusal _ = false

-- The database after a reset: empty, with every certificate that it knew revoked.
pub record Emptied (s t : Server) : Type 0 where
  pub devices : t.devices ≡ []
  pub sessions : t.sessions ≡ []
  pub events : t.events ≡ []
  pub commands : t.commands ≡ []
  pub revoked : Grows s.revoked_certificates t.revoked_certificates
  pub blocked : All (Blocked t.revoked_certificates) s.devices

abbrev pub allows : Idle → Bool
allows (may_reset m) = true
allows (may_not e) = false

module _ (c : Context) (clock : String → ℕ) (s : Server) where
  -- What a reset does, by whether it is clear to go on.
  abbrev pub Guarded : Bool → ProjectReset × Server → Type 0
  Guarded true (outcome, t) = Emptied s t × (is_refusal outcome ≡ false)
  Guarded false (outcome, t) = (t ≡ s) × (is_refusal outcome ≡ true)
