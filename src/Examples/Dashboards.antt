-- ===== src/Examples/Dashboards.antt =====
-- Tests: requests to the dashboard.
use secure_io_t_device_platf.Base.{
  ◌≡◌, refl, arith, true, false, some, none, [], ◌∷◌, if◌then◌else◌,
}
use secure_io_t_device_platf.Base.Text.{same_codes}
use secure_io_t_device_platf.Env.{response}
use secure_io_t_device_platf.Security.{all_codes}
use secure_io_t_device_platf.Access.{WebSession, Login, require_admin, check_csrf, compare_digest}
use secure_io_t_device_platf.Dashboard.{Site, Quote, ChangeRequest, revokes, dashboard_request}
use secure_io_t_device_platf.Dashboard.Guarded.{is_entitled, effect, dashboard_request_exact}
use secure_io_t_device_platf.Dashboard.Station.{
  StationLink, ProgramForm, display_or_none, program_device_api,
}
use secure_io_t_device_platf.Dashboard.Programming.{Programmable, program_device_starts}
use secure_io_t_device_platf.Simulator.Http.{delivered}
use secure_io_t_device_platf.Manufacturing.Products.{allowed_profile, as7341}
use secure_io_t_device_platf.Manufacturing.Agent.{Agent, new_job}
use secure_io_t_device_platf.Examples.{context, json, server}

abbrev login : Login
login = record { username = "admin"; password = "password" }

abbrev browser : WebSession
browser = record {
  admin_authenticated = true;
  admin_user = some "admin";
  csrf_token = some "token";
}

abbrev quote : Quote
quote s = s

abbrev site : Site
site = record { session = browser; server = server }

abbrev revocation : ChangeRequest
revocation = record {
  credentials = none;
  csrf_token = "token";
  password = "password";
  change = revokes "sensor";
}

dashboard_request_exact_example :
    (dashboard_request login quote context revocation site).1.server ≡ (
      if is_entitled login revocation browser
      then effect context (revokes "sensor") server
      else server)
dashboard_request_exact_example = dashboard_request_exact login quote context revocation site

revocation_entitled : is_entitled login revocation browser ≡ true
unfolding compare_digest all_codes
revocation_entitled = refl

abbrev station : StationLink
station = record {
  manufacturing_enabled = true;
  manufacturing_agent_token = "agent";
  link = delivered;
  agent_token = "agent";
  ports = "COM3" ∷ [];
  job_id = "a1";
  now = 5;
}

abbrev form : ProgramForm
form = record {
  credentials = some login;
  csrf_token = "token";
  profile = "as7341";
  port = "COM3";
  display_name = " ";
  reset_existing = false;
}

abbrev free : Agent
free = record { locked = false; job = none }

form-Programmable : Programmable json station form free
unfolding allowed_profile same_codes
form-Programmable = record {
  enabled = refl;
  configured = refl;
  same_token = refl;
  reached = refl;
  product = as7341;
  allowed = refl;
  port_given = refl;
  port_short = omega arith;
  plugged = refl;
  free = refl;
  body_given = omega arith;
  body_short = omega arith;
}

program_device_starts_example : (program_device_api login json station form browser free).0 ≡ (
  response (new_job "a1" as7341 "COM3" false (display_or_none " ") 5),
  record { locked = true; job = some (new_job "a1" as7341 "COM3" false (display_or_none " ") 5) },
)
unfolding require_admin check_csrf compare_digest all_codes form-Programmable
program_device_starts_example =
    program_device_starts login json station form browser free "admin" refl refl form-Programmable
