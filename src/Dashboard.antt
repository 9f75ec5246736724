-- ===== src/Dashboard.antt =====
-- The requests of the dashboard that change something: `project_reset` and `revoke_from_dashboard` of
-- server/app/routers/dashboard.py. A page is the target of its redirect.
pub mod Station
pub mod Guarded
pub mod Programming
use Prim.Native.String.{◌++◌ as text_append}
use secure_io_t_device_platf.Base.{
  ℕ, String, Bool, true, false, not, Option, none, some, List, [], ◌∷◌, map, if◌then◌else◌,
}
use secure_io_t_device_platf.Env.{
  Context, Try, ok, security_error, crash, Reply, response, http_error, uncaught,
}
use secure_io_t_device_platf.Models.{Server, Device, find_device, present}
use secure_io_t_device_platf.Mqtt.Publish.{evict_device}
use secure_io_t_device_platf.Registry.{revoke_current_certificate}
use secure_io_t_device_platf.Reset.Project.{
  Answer, ProjectReset, reset_done, project_reset_error, failed, reset_project,
}
use secure_io_t_device_platf.Access.{
  WebSession, Login, require_admin, check_csrf, verify_dashboard_password,
}

pub record Site : Type 0 where
  pub session : WebSession
  pub server : Server

unfoldable pub evict_all : Context → List Device → Server → Server
evict_all c [] s = s
evict_all c (d ∷ devices) s = evict_all c devices (evict_device c d.device_id s)

-- What the reset service reads: whether the manufacturing agent is configured, and the two answers.
pub record Services : Type 0 where
  pub manufacturing_enabled : Bool
  pub agent_token : String
  pub simulation : Answer
  pub agent : Answer

-- A check that returns lets the handler go on; an exception of it is the response.
unfoldable pub checked : {A : Type 0} → Reply A → Reply String × Site → Site → Reply String × Site
checked (response x) rest site = rest
checked (http_error status detail) rest site = (http_error status detail, site)
checked uncaught rest site = (uncaught, site)

-- urllib.parse.quote
abbrev pub Quote : Type 0
Quote = String → String

module _ (login : Login) (quote : Quote) (c : Context) where
  -- The new token replaces that of the session.
  unfoldable pub after_reset : String → Site → ProjectReset × Server → Reply String × Site
  after_reset token site (reset_done simulation manufacturing counts, s) = (
    response "/?reset=done",
    record {
      session = record site.session { csrf_token = some token };
      server = evict_all c site.server.devices s;
    },
  )
  after_reset token site (project_reset_error e, s) =
      (response (text_append "/?reset_error=" (quote e)), record site { server = s })
  after_reset token site (failed, s) = (uncaught, record site { server = s })

  unfoldable pub project_reset :
      (String → ℕ) → Services → String → String → String → Site → Reply String × Site
  project_reset clock services token submitted password site =
      let result =
        reset_project c clock services.manufacturing_enabled services.agent_token
          services.simulation services.agent site.server in
      checked (check_csrf site.session submitted)
        (if verify_dashboard_password login password
          then after_reset token site result
          else (response "/?reset_error=Invalid+dashboard+password", site))
        site

  unfoldable pub after_revocation : String → Site → Try (Unit {0}) × Server → Reply String × Site
  after_revocation device_id site (ok u, s) = (
    response (text_append "/devices/" (text_append device_id "?revoked=1")),
    record site { server = evict_device c device_id s },
  )
  after_revocation device_id site (security_error e, s) = (uncaught, record site { server = s })
  after_revocation device_id site (crash, s) = (uncaught, record site { server = s })

  unfoldable pub revoke_checked : String → Site → Reply String × Site
  revoke_checked device_id site = elim (find_device site.server device_id) [
    | none ↦ (http_error 404 "device not found", site)
    | some device ↦ elim (present device.certificate_serial) [
      | none ↦ (http_error 409 "device does not have an operational certificate", site)
      | some serial ↦
          after_revocation device_id site
            (revoke_current_certificate c site.server device "key_compromise")
    ]
  ]

  unfoldable pub revoke_from_dashboard : String → String → String → Site → Reply String × Site
  revoke_from_dashboard device_id submitted password site =
      checked (check_csrf site.session submitted)
        (if verify_dashboard_password login password then revoke_checked device_id site else (
          response (
              text_append "/devices/"
                (text_append (quote device_id) "?revoke_error=Invalid+dashboard+password")),
          site,
        ))
        site

-- A request with its CSRF token and password.
pub data Change : Type 0 where
  resets : (String → ℕ) → Services → String → Change
  revokes : String → Change

pub record ChangeRequest : Type 0 where
  pub credentials : Option Login
  pub csrf_token : String
  pub password : String
  pub change : Change

module _ (login : Login) (quote : Quote) (c : Context) where
  unfoldable pub change_site : Change → String → String → Site → Reply String × Site
  change_site (resets clock services token) submitted password site =
      project_reset login quote c clock services token submitted password site
  change_site (revokes device_id) submitted password site =
      revoke_from_dashboard login quote c device_id submitted password site

  -- The router's dependency runs before the handler.
  unfoldable pub dashboard_request : ChangeRequest → Site → Reply String × Site
  dashboard_request r site =
      let (admin, session) = require_admin login r.credentials site.session in
      let entered = record site { session = session } in
      let changed = change_site r.change r.csrf_token r.password entered in
      checked admin changed entered
