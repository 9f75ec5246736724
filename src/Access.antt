-- ===== src/Access.antt =====
-- server/app/auth.py and the CSRF checks of the routers: who may ask for what. The session is the signed
-- cookie of one browser.
use secure_io_t_device_platf.Base.{
  String, Bool, true, ◌&&◌, Option, none, some, ltb, ◌==◌, if◌then◌else◌,
}
use secure_io_t_device_platf.Base.Text.{codes, is_empty}
use secure_io_t_device_platf.Env.{Reply, response, http_error, uncaught}
use secure_io_t_device_platf.Security.{all_codes}

pub record WebSession : Type 0 where
  pub admin_authenticated : Bool
  pub admin_user : Option String
  pub csrf_token : Option String

-- The dashboard's user name and password of the settings, or of a request.
pub record Login : Type 0 where
  pub username : String
  pub password : String

abbrev pub same_login : Login → Login → Bool
same_login expected given =
    given.username == expected.username && given.password == expected.password

unfoldable pub session_user : WebSession → Reply String × WebSession
session_user session =
    let user : String = elim session.admin_user [ none ↦ "admin" | some name ↦ name ] in
    if session.admin_authenticated
    then (response user, session)
    else (http_error 401 "Not authenticated", session)

unfoldable pub require_admin : Login → Option Login → WebSession → Reply String × WebSession
require_admin expected none session = session_user session
require_admin expected (some given) session =
    if same_login expected given
    then (
      response given.username,
      record session { admin_authenticated = true; admin_user = some given.username },
    )
    else session_user session

-- secrets.compare_digest on texts; a character outside ASCII raises TypeError.
unfoldable pub compare_digest : String → String → Option Bool
compare_digest a b =
    if all_codes (λ c. ltb c 128) (codes a) && all_codes (λ c. ltb c 128) (codes b)
    then some (a == b)
    else none

-- `_check_csrf` of the forms
unfoldable pub check_csrf : WebSession → String → Reply (Unit {0})
check_csrf session submitted = elim session.csrf_token [
  | none ↦ http_error 403 "Invalid CSRF token"
  | some expected ↦ elim (compare_digest expected submitted) [
    | none ↦ uncaught
    | some same ↦ if same then response tt else http_error 403 "Invalid CSRF token"
  ]
]

-- `_check_csrf` of the header
unfoldable pub check_csrf_header : WebSession → Option String → Reply (Unit {0})
check_csrf_header session none = http_error 403 "Invalid CSRF token"
check_csrf_header session (some submitted) =
    let checked = check_csrf session submitted in
    if is_empty submitted then http_error 403 "Invalid CSRF token" else checked

-- `_csrf_token`, with the token that is drawn where the session has none
unfoldable pub issue_csrf_token : String → WebSession → String × WebSession
issue_csrf_token drawn session = elim session.csrf_token [
  | none ↦ (drawn, record session { csrf_token = some drawn })
  | some token ↦ (token, session)
]

-- verify_dashboard_password
unfoldable pub verify_dashboard_password : Login → String → Bool
verify_dashboard_password expected password = password == expected.password
