-- ===== src/Dashboard/Programming.antt =====
-- The dashboard and the station together.
use Prim.Native.String.{◌++◌ as text_append}
use secure_io_t_device_platf.Base.{
  ◌≤◌, ◌<◌, ◌≡◌, refl, ap, arith, String, true, false, Option, none, some, length, ltb, ◌==◌,
  eq_iff, Bool-cases, inl, inr,
}
use secure_io_t_device_platf.Base.Text.{codes, is_empty}
use secure_io_t_device_platf.Env.{response}
use secure_io_t_device_platf.Json.{bool, text, Fields, field, end, get, JsonLib}
use secure_io_t_device_platf.Security.Proofs.{same_codes_iff}
use secure_io_t_device_platf.Access.{WebSession, Login, require_admin, check_csrf}
use secure_io_t_device_platf.Simulator.Http.{delivered}
use secure_io_t_device_platf.Manufacturing.Products.{Product, allowed_profile}
use secure_io_t_device_platf.Manufacturing.Agent.{
  Agent, Job, new_job, port_known, start_program_job, programming,
}
use secure_io_t_device_platf.Manufacturing.Requests.{
  is_authorized, length_allowed, program_reply, display_name_of, post_names, post_port,
  post_profile, post_body, do_post,
}
use secure_io_t_device_platf.Dashboard.Station.{
  StationLink, ProgramForm, display_or_none, json_of, program_body, post_of, rejected, json_request,
  agent_request, start_program, raised, program_device_api,
}

-- A station that is reachable, known and free, and a request that it can carry out.
pub record Programmable (lib : JsonLib) (k : StationLink) (form : ProgramForm) (agent : Agent)
    : Type 0 where
  pub enabled : k.manufacturing_enabled ≡ true
  pub configured : is_empty k.manufacturing_agent_token ≡ false
  pub same_token : k.manufacturing_agent_token ≡ k.agent_token
  pub reached : k.link ≡ delivered
  pub product : Product
  pub allowed : allowed_profile form.profile ≡ some product
  pub port_given : is_empty form.port ≡ false
  pub port_short : length (codes form.port) ≤ 128
  pub plugged : port_known k.ports form.port ≡ true
  pub free : agent.locked ≡ false
  pub body_given : 0 < length (codes (lib.dumps (program_body form)))
  pub body_short : length (codes (lib.dumps (program_body form))) ≤ 8192

display_name_of-json_of : (o : Option String) → display_name_of (json_of o) ≡ some o
unfolding display_name_of
display_name_of-json_of none = refl
display_name_of-json_of (some s) = refl

empty_text : (s : String) → is_empty s ≡ false → (s == "") ≡ false
empty_text s h = elim (Bool-cases (s == "")) [
  | inl e ↦
      let same : s ≡ "" = (eq_iff s "").0 e in
      let gone : is_empty s ≡ true = ap is_empty same in absurd (ground arith)
  | inr e ↦ e
]

module _ (lib : JsonLib) (k : StationLink) (form : ProgramForm) (agent : Agent)
    (p : Programmable lib k form agent) where
  job : Job
  job =
      new_job k.job_id p.product form.port form.reset_existing (display_or_none form.display_name)
        k.now

  started :
      start_program_job k.ports k.job_id form.profile form.port form.reset_existing
        (display_or_none form.display_name)
        k.now
        agent
      ≡ (programming job, record { locked = true; job = some job })
  unfolding start_program_job job
  started = rw (p.allowed, start_program_job, p.plugged, p.free) refl

  abbrev body_fields : Fields
  body_fields = field "profile" (text form.profile) (
      field "port" (text form.port) (
        field "display_name" (json_of (display_or_none form.display_name))
          (field "reset_existing" (bool form.reset_existing) end)))

  named :
      post_names k.ports k.job_id k.now form.profile form.port
        (bool form.reset_existing)
        (json_of (display_or_none form.display_name))
        agent
      ≡ (response job, record { locked = true; job = some job })
  unfolding post_names program_reply
  named = rw (display_name_of-json_of (display_or_none form.display_name), post_names, started) refl

  ported :
      post_port k.ports k.job_id k.now body_fields form.profile (text form.port) agent
      ≡ (response job, record { locked = true; job = some job })
  unfolding post_port get
  ported =
      let short : ltb 128 (length (codes form.port)) ≡ false = ground (arith, p.port_short) in
      rw (empty_text form.port p.port_given, post_port, short) named

  profiled :
      post_profile k.ports k.job_id k.now body_fields (text form.profile) agent
      ≡ (response job, record { locked = true; job = some job })
  unfolding post_profile get
  profiled = rw (p.allowed, post_profile) ported

  posted :
      do_post k.agent_token k.ports k.job_id k.now
        (post_of lib k.manufacturing_agent_token (program_body form))
        agent
      ≡ (response job, record { locked = true; job = some job })
  unfolding do_post post_of post_body program_body is_authorized length_allowed get
  posted =
      let known =
        (same_codes_iff (codes (text_append "Bearer " k.manufacturing_agent_token))
            (codes (text_append "Bearer " k.agent_token))).1
          (ap (λ t. codes (text_append "Bearer " t)) p.same_token) in
      let fits : length_allowed false (length (codes (lib.dumps (program_body form)))) ≡ true =
        ground (arith, p.body_given, p.body_short) in
      rw (known, do_post, fits) profiled

  requested :
      start_program lib k form agent ≡ (response job, record { locked = true; job = some job })
  unfolding start_program agent_request json_request rejected
  requested =
      let short : ltb 128 (length (codes form.port)) ≡ false = ground (arith, p.port_short) in
      rw
        (
          p.allowed, start_program, p.port_given, short, p.enabled, p.configured, p.reached,
          json_request, posted,
        )
        refl

-- An administrator whose request carries the CSRF token of the session starts a job at a station that is
-- configured, reachable and free, for a known product and a plugged port: the job is answered, it runs,
-- and the station is locked.
pub program_device_starts :
    (login : Login) (lib : JsonLib) (k : StationLink) (form : ProgramForm) (session : WebSession)
    (agent : Agent) (user : String)
    → (require_admin login form.credentials session).0 ≡ response user
    → check_csrf (require_admin login form.credentials session).1 form.csrf_token ≡ response tt
    → (p : Programmable lib k form agent)
    → (program_device_api login lib k form session agent).0 ≡ (
      response (
          new_job k.job_id p.product form.port form.reset_existing
            (display_or_none form.display_name)
            k.now),
      record {
        locked = true;
        job = some (
            new_job k.job_id p.product form.port form.reset_existing
              (display_or_none form.display_name)
              k.now);
      },
    )
unfolding program_device_api raised job
program_device_starts login lib k form session agent user admin token p =
    rw (admin, program_device_api, token) (requested lib k form agent p)
