-- ===== src/Manufacturing/Requests.antt =====
-- scripts/manufacturing_agent.py: `do_POST`, the request that starts a job.
use Prim.Native.String.{◌++◌ as text_append}
use secure_io_t_device_platf.Base.{
  ℕ, String, Bool, false, not, ◌&&◌, ◌||◌, Option, none, some, List, length, leb, ltb, ◌==◌,
  if◌then◌else◌,
}
use secure_io_t_device_platf.Base.Text.{codes, same_codes}
use secure_io_t_device_platf.Env.{Reply, response, http_error, uncaught}
use secure_io_t_device_platf.Json.{Json, null, bool, text, dict, Fields, get, or_default}
use secure_io_t_device_platf.Manufacturing.Products.{allowed_profile}
use secure_io_t_device_platf.Manufacturing.Agent.{
  Job, Agent, max_body_bytes, Program, start_program_job, value_error, runtime_error, programming,
}

-- Header and token are ASCII: header.startswith("Bearer ") and compare_digest(header[len("Bearer "):], token)
unfoldable pub is_authorized : String → String → Bool
is_authorized header token = same_codes (codes header) (codes (text_append "Bearer " token))

-- What `do_POST` reads: the path, the length (none where it is no number, with its sign), and the body
-- as JSON (none where it does not decode).
pub record Post : Type 0 where
  pub authorization : String
  pub path : String
  pub content_length : Option (Bool × ℕ)
  pub body : Option Json

unfoldable pub length_allowed : Bool → ℕ → Bool
length_allowed negative n = not negative && ltb 0 n && leb n max_body_bytes

unfoldable pub program_reply : Program × Agent → Reply Job × Agent
program_reply (value_error e, agent) = (http_error 400 e, agent)
program_reply (runtime_error e, agent) = (http_error 409 e, agent)
program_reply (programming job, agent) = (response job, agent)

-- The display name: none is null; the outer none is a value of another type.
unfoldable pub display_name_of : Json → Option (Option String)
display_name_of null = some none
display_name_of (text name) = some (some name)
display_name_of _ = none

unfoldable pub post_names :
    List String → String → ℕ → String → String → Json → Json → Agent → Reply Job × Agent
post_names ports job_id now profile port (bool reset_existing) display agent =
    elim (display_name_of display) [
      | none ↦ (http_error 400 "display_name must be a string", agent)
      | some display_name ↦
          program_reply
            (start_program_job ports job_id profile port reset_existing display_name now agent)
    ]
post_names ports job_id now profile port _ display agent =
    (http_error 400 "reset_existing must be boolean", agent)

unfoldable pub post_port :
    List String → String → ℕ → Fields → String → Json → Agent → Reply Job × Agent
post_port ports job_id now fields profile (text port) agent =
    if port == "" || ltb 128 (length (codes port))
    then (http_error 400 "Invalid serial port", agent)
    else post_names ports job_id now profile port
        (or_default (get "reset_existing" fields) (bool false))
        (or_default (get "display_name" fields) null) agent
post_port ports job_id now fields profile _ agent = (http_error 400 "Invalid serial port", agent)

unfoldable pub post_profile : List String → String → ℕ → Fields → Json → Agent → Reply Job × Agent
post_profile ports job_id now fields (text profile) agent = elim (allowed_profile profile) [
  | none ↦ (http_error 400 "Invalid device profile", agent)
  | some product ↦
      post_port ports job_id now fields profile (or_default (get "port" fields) null) agent
]
post_profile ports job_id now fields _ agent = (http_error 400 "Invalid device profile", agent)

-- A body that is no object has no `get`: the AttributeError ends the request without a response.
unfoldable pub post_body : List String → String → ℕ → Option Json → Agent → Reply Job × Agent
post_body ports job_id now (some (dict fields)) agent =
    post_profile ports job_id now fields (or_default (get "profile" fields) null) agent
post_body ports job_id now none agent = (http_error 400 "Invalid JSON body", agent)
post_body ports job_id now (some _) agent = (uncaught, agent)

unfoldable pub do_post : String → List String → String → ℕ → Post → Agent → Reply Job × Agent
do_post token ports job_id now request agent =
    if not (is_authorized request.authorization token)
    then (http_error 401 "Unauthorized", agent)
    else if not (request.path == "/program")
    then (http_error 404 "Not found", agent)
    else elim request.content_length [
      | none ↦ (http_error 400 "Invalid Content-Length", agent)
      | some (negative, n) ↦
          if not (length_allowed negative n)
          then (http_error 400 "Invalid request body size", agent)
          else post_body ports job_id now request.body agent
    ]
