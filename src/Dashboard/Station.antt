-- ===== src/Dashboard/Station.antt =====
-- server/app/routers/manufacturing.py: a programming job that is started from the dashboard. The request
-- goes to the manufacturing agent, whose handler is that of Manufacturing/Agent.
use Prim.Native.String.{◌++◌ as text_append}
use secure_io_t_device_platf.Base.{
  ℕ, String, Bool, false, not, ◌||◌, Option, none, some, List, length, ltb, if◌then◌else◌,
}
use secure_io_t_device_platf.Base.Text.{codes, strip, is_empty}
use secure_io_t_device_platf.Env.{Reply, response, http_error, uncaught}
use secure_io_t_device_platf.Json.{Json, null, bool, text, dict, field, end, JsonLib}
use secure_io_t_device_platf.Access.{WebSession, Login, require_admin, check_csrf}
use secure_io_t_device_platf.Simulator.Http.{Link, delivered, lost, unanswered, answered_by}
use secure_io_t_device_platf.Manufacturing.Products.{allowed_profile}
use secure_io_t_device_platf.Manufacturing.Agent.{Agent, Job}
use secure_io_t_device_platf.Manufacturing.Requests.{Post, do_post}

-- What the router knows of the station, and what the station finds at the request.
pub record StationLink : Type 0 where
  pub manufacturing_enabled : Bool
  pub manufacturing_agent_token : String
  pub link : Link
  pub agent_token : String
  pub ports : List String
  pub job_id : String
  pub now : ℕ

pub record ProgramForm : Type 0 where
  pub credentials : Option Login
  pub csrf_token : String
  pub profile : String
  pub port : String
  pub display_name : String
  pub reset_existing : Bool

-- display_name.strip() or None
unfoldable pub display_or_none : String → Option String
display_or_none s = let name = strip s in if is_empty name then none else some name

abbrev pub json_of : Option String → Json
json_of none = null
json_of (some s) = text s

unfoldable pub program_body : ProgramForm → Json
program_body form = dict (
    field "profile" (text form.profile) (
      field "port" (text form.port) (
        field "display_name" (json_of (display_or_none form.display_name))
          (field "reset_existing" (bool form.reset_existing) end))))

-- The request of `_json_request`; the text of `json.dumps` is ASCII.
unfoldable pub post_of : JsonLib → String → Json → Post
post_of lib token body = record {
  authorization = text_append "Bearer " token;
  path = "/program";
  content_length = some (false, length (codes (lib.dumps body)));
  body = some body;
}

-- The RuntimeError of an agent that refuses.
unfoldable pub rejected : Reply Job × Agent → Reply Job × Agent
rejected (response job, agent) = (response job, agent)
rejected (http_error status detail, agent) =
    (http_error 409 (text_append "Manufacturing Agent rejected the request: " detail), agent)
rejected (uncaught, agent) = (uncaught, agent)

abbrev pub unreachable : String
unreachable = "Manufacturing Agent is not reachable"

unfoldable pub json_request : JsonLib → StationLink → Json → Agent → Reply Job × Agent
json_request lib k body agent =
    let answer =
      do_post k.agent_token k.ports k.job_id k.now (post_of lib k.manufacturing_agent_token body)
        agent in
    elim k.link [
      | delivered ↦ rejected answer
      | lost ↦ (http_error 409 unreachable, agent)
      | unanswered ↦ (http_error 409 unreachable, answer.1)
      | answered_by status ↦ (http_error 409 "Manufacturing Agent rejected the request", agent)
    ]

unfoldable pub agent_request : JsonLib → StationLink → Json → Agent → Reply Job × Agent
agent_request lib k body agent =
    if not k.manufacturing_enabled
    then (http_error 409 "Manufacturing integration is not configured", agent)
    else if is_empty k.manufacturing_agent_token
    then (http_error 409 "Manufacturing Agent token is not configured", agent)
    else json_request lib k body agent

unfoldable pub start_program : JsonLib → StationLink → ProgramForm → Agent → Reply Job × Agent
start_program lib k form agent = elim (allowed_profile form.profile) [
  | none ↦ (http_error 409 "Invalid device profile", agent)
  | some product ↦
      if is_empty form.port || ltb 128 (length (codes form.port))
      then (http_error 409 "Invalid serial port", agent)
      else agent_request lib k (program_body form) agent
]

-- An exception of a check is the response.
unfoldable pub raised : {A : Type 0} → Reply A → Reply Job × Agent → Agent → Reply Job × Agent
raised (response x) rest agent = rest
raised (http_error status detail) rest agent = (http_error status detail, agent)
raised uncaught rest agent = (uncaught, agent)

-- `program_device_api` behind the router's `require_admin`. The 202 of a started job is its response, the
-- 409 of a RuntimeError an error.
unfoldable pub program_device_api :
    Login
    → JsonLib
    → StationLink
    → ProgramForm
    → WebSession
    → Agent
    → (Reply Job × Agent) × WebSession
program_device_api login lib k form session agent =
    let (admin, entered) = require_admin login form.credentials session in
    (
      raised admin
          (raised (check_csrf entered form.csrf_token) (start_program lib k form agent) agent)
          agent,
      entered,
    )
