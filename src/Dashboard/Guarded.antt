-- ===== src/Dashboard/Guarded.antt =====
-- Who can change the server through the dashboard.
use mathlib.Core.Path.{subst}
use secure_io_t_device_platf.Base.{
  ℕ, ◌≡◌, ◌⊎◌, inl, inr, refl, ◌∙◌, arith, String, Bool, false, ◌&&◌, ◌||◌, Option, none, some,
  ◌==◌, if◌then◌else◌, Bool-cases, Option-cases,
}
use secure_io_t_device_platf.Env.{
  Context, Reply, response, http_error, uncaught, Try, ok, security_error, crash,
}
use secure_io_t_device_platf.Models.{Server, find_device, present}
use secure_io_t_device_platf.Provisioning.Exclusive.{is_response}
use secure_io_t_device_platf.Reset.Project.{
  ProjectReset, reset_done, project_reset_error, failed, reset_project,
}
use secure_io_t_device_platf.Registry.{revoke_current_certificate}
use secure_io_t_device_platf.Admin.{revoke_device, revoke_response}
use secure_io_t_device_platf.Access.{
  WebSession, Login, same_login, session_user, require_admin, compare_digest, check_csrf,
  verify_dashboard_password,
}
use secure_io_t_device_platf.Dashboard.{
  checked, evict_all, after_reset, Site, Quote, Change, resets, revokes, ChangeRequest,
  project_reset, after_revocation, revoke_checked, revoke_from_dashboard, change_site,
  dashboard_request,
}

pub Reply-cases :
    {A : Type 0} (r : Reply A)
    → ((x : A) × (r ≡ response x))
      ⊎ ((n : ℕ) × (d : String) × (r ≡ http_error n d))
      ⊎ (r ≡ uncaught)
Reply-cases (response x) = inl (x, refl)
Reply-cases (http_error n d) = inr (inl (n, d, refl))
Reply-cases uncaught = inr (inr refl)

abbrev pub matches_login : Login → Option Login → Bool
matches_login expected none = false
matches_login expected (some given) = same_login expected given

abbrev pub holds_token : Option String → String → Bool
holds_token none submitted = false
holds_token (some expected) submitted = elim (compare_digest expected submitted) [
  | none ↦ false
  | some same ↦ same
]

-- The administrator's login or an authenticated session, the CSRF token of the session, and the password.
abbrev pub is_entitled : Login → ChangeRequest → WebSession → Bool
is_entitled login r session =
    (session.admin_authenticated || matches_login login r.credentials)
    && (holds_token session.csrf_token r.csrf_token && r.password == login.password)

-- What each change does to the server once it is allowed.
abbrev pub effect : Context → Change → Server → Server
effect c (revokes device_id) s = (revoke_device c device_id s).1
effect c (resets clock services token) s =
    let (outcome, cleared) =
      reset_project c clock services.manufacturing_enabled services.agent_token services.simulation
        services.agent s in
    elim outcome [
      | reset_done simulation manufacturing counts ↦ evict_all c s.devices cleared
      | project_reset_error e ↦ cleared
      | failed ↦ cleared
    ]

admin-entered :
    (login : Login) (given : Option Login) (session : WebSession)
    → (session.admin_authenticated || matches_login login given)
      ≡ is_response (require_admin login given session).0
unfolding require_admin session_user
admin-entered login none session = ground arith
admin-entered login (some given) session = ground arith

admin-token :
    (login : Login) (given : Option Login) (session : WebSession)
    → (require_admin login given session).1.csrf_token ≡ session.csrf_token
unfolding require_admin session_user
admin-token login none session = ground arith
admin-token login (some given) session = ground arith

checked-server :
    {A : Type 0} (r : Reply A) (rest : Reply String × Site) (site : Site)
    → (checked r rest site).1.server ≡ (if is_response r then rest.1.server else site.server)
unfolding checked
checked-server (response x) rest site = refl
checked-server (http_error n d) rest site = refl
checked-server uncaught rest site = refl

check_csrf-holds :
    (session : WebSession) (submitted : String)
    → is_response (check_csrf session submitted) ≡ holds_token session.csrf_token submitted
unfolding check_csrf
check_csrf-holds session submitted = ground arith

module _ (login : Login) (quote : Quote) (c : Context) where
  after_reset-effect :
      (token : String) (site : Site) (outcome : ProjectReset) (cleared : Server)
      → (after_reset login quote c token site (outcome, cleared)).1.server ≡ (elim outcome [
        | reset_done simulation manufacturing counts ↦ evict_all c site.server.devices cleared
        | project_reset_error e ↦ cleared
        | failed ↦ cleared
      ])
  unfolding after_reset
  after_reset-effect token site (reset_done simulation manufacturing counts) cleared = refl
  after_reset-effect token site (project_reset_error e) cleared = refl
  after_reset-effect token site failed cleared = refl

  after_revocation-effect :
      (id : String) (site : Site) (r : Try (Unit {0}) × Server)
      → (after_revocation login quote c id site r).1.server ≡ (revoke_response c id r).1
  unfolding after_revocation revoke_response
  after_revocation-effect id site (ok u, s) = refl
  after_revocation-effect id site (security_error e, s) = refl
  after_revocation-effect id site (crash, s) = refl

  revoke_checked-effect :
      (id : String) (site : Site)
      → (revoke_checked login quote c id site).1.server ≡ (revoke_device c id site.server).1
  unfolding revoke_checked revoke_device
  revoke_checked-effect id site = elim (Option-cases (find_device site.server id)) [
    | inl e ↦ rw (e, revoke_checked, revoke_device) refl
    | inr (d, e) ↦ elim (Option-cases (present d.certificate_serial)) [
      | inl k ↦ rw (e, revoke_checked, revoke_device, k) refl
      | inr (serial, k) ↦
          rw (e, revoke_checked, revoke_device, k)
            (after_revocation-effect id site
              (revoke_current_certificate c site.server d "key_compromise"))
    ]
  ]

  change_site-effect :
      (change : Change) (submitted password : String) (site : Site)
      → (change_site login quote c change submitted password site).1.server ≡ (
          if holds_token site.session.csrf_token submitted && password == login.password
          then effect c change site.server
          else site.server)
  unfolding change_site project_reset revoke_from_dashboard verify_dashboard_password
  change_site-effect (revokes id) submitted password site =
      checked-server (check_csrf site.session submitted) _ site
      ∙ ground (arith, check_csrf-holds site.session submitted, revoke_checked-effect id site)
  change_site-effect (resets clock services token) submitted password site =
      let result =
        reset_project c clock services.manufacturing_enabled services.agent_token
          services.simulation services.agent site.server in
      checked-server (check_csrf site.session submitted) _ site
      ∙ ground (
        arith,
        check_csrf-holds site.session submitted,
        after_reset-effect token site result.0 result.1,
      )

  -- A dashboard request changes the server exactly if it comes with the administrator's login or from a
  -- session that has given it, carries the CSRF token of the session, and repeats the password: then it
  -- does what the API's revocation does, or the reset of the project with the eviction of every device
  -- that was registered; otherwise the server stays as it was.
  pub dashboard_request_exact :
      (r : ChangeRequest) (site : Site)
      → (dashboard_request login quote c r site).1.server
        ≡ (if is_entitled login r site.session then effect c r.change site.server else site.server)
  unfolding dashboard_request
  dashboard_request_exact r site =
      let (admin, session) = require_admin login r.credentials site.session in
      let entered = record site { session = session } in
      let changed = change_site login quote c r.change r.csrf_token r.password entered in
      let as_entered =
        subst
          (λ t. changed.1.server ≡ (
            if holds_token t r.csrf_token && r.password == login.password
            then effect c r.change site.server
            else site.server))
          (admin-token login r.credentials site.session)
          (change_site-effect r.change r.csrf_token r.password entered) in
      let known = admin-entered login r.credentials site.session in
      checked-server admin changed entered ∙ elim (Bool-cases (is_response admin)) [
        | inl e ↦ rw (e, known ∙ e) as_entered
        | inr e ↦ rw (e, known ∙ e) refl
      ]
