-- ===== src/Platform/OneUse.antt =====
-- A challenge buys one certificate, whatever happens between its uses.
use secure_io_t_device_platf.Base.{ℕ, ◌≡◌, ◌∙◌, ◌⊎◌, ap, List, sym}
use secure_io_t_device_platf.Table
use secure_io_t_device_platf.Env.{Context, response, http_error}
use secure_io_t_device_platf.Json.{JsonLib}
use secure_io_t_device_platf.Models.{Server, session_key, find_session}
use secure_io_t_device_platf.Provisioning.Finish.{EnrollmentRequest, Enrollment}
use secure_io_t_device_platf.Provisioning.Enroll.{enroll_device}
use secure_io_t_device_platf.Provisioning.Success.{enroll-Checked}
use secure_io_t_device_platf.Provisioning.OneUse.{Checked-Installed, consumed_refused}
use secure_io_t_device_platf.Platform.{Event, run}
use secure_io_t_device_platf.Platform.Sessions.{consumed_forever}

-- After a successful enrollment, and any sequence of events after it, every enrollment that names the
-- same session is refused with 404 or 409 and changes nothing.
pub one_certificate_per_session :
    (lib : JsonLib) (c c' : Context) (serial serial' : ℕ) (payload payload' : EnrollmentRequest)
    (s after : Server) (e : Enrollment) (es : List Event)
    → enroll_device c serial payload s ≡ (response e, after)
    → payload'.session_id ≡ payload.session_id
    → (enroll_device c' serial' payload' (run lib es after)
        ≡ (http_error 404 "device is not registered, enabled, or authorized", run lib es after))
      ⊎ (enroll_device c' serial' payload' (run lib es after)
          ≡ (http_error 409 "challenge has already been used or invalidated", run lib es after))
one_certificate_per_session lib c c' serial serial' payload payload' s after e es h same =
    let i =
      Checked-Installed c serial payload s e after (enroll-Checked c serial e after payload s h) in
    let id =
      Table.find_key session_key payload.session_id after.sessions i.session i.found_session in
    consumed_refused c' serial' payload' (run lib es after) i.session
      (ap (find_session (run lib es after)) (same ∙ sym id)
        ∙ consumed_forever lib es after i.session (ap (find_session after) id ∙ i.found_session)
            i.consumed)
      i.consumed
