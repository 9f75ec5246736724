-- ===== src/Platform/Sessions.antt =====
-- The bootstrap sessions over the whole life of the server: whatever happens, in whatever order.
use secure_io_t_device_platf.Base.{ℕ, ◌≤◌, String, ◌≡◌, arith, some, List, [], ◌∷◌}
use secure_io_t_device_platf.Table
use secure_io_t_device_platf.Json.{JsonLib}
use secure_io_t_device_platf.Models.{Server, BootstrapSession, session_key, find_session}
use secure_io_t_device_platf.Provisioning.Moves.{
  Moves, stay, touch, opens, open_of, Moves-consumed, Moves-attempts, Moves-OneOpen,
}
use secure_io_t_device_platf.Provisioning.EnrollMoves.{enroll-Moves, challenge-Moves}
use secure_io_t_device_platf.Admin.Frame.{
  sessions-create_device, sessions-reset_device, sessions-revoke_device, sessions-send_command,
  sessions-set_enabled,
}
use secure_io_t_device_platf.Mqtt.Frame.{on_message-OnlyTraffic}
use secure_io_t_device_platf.Mqtt.Stale.{mark_stale_devices}
use secure_io_t_device_platf.Platform.{
  Event, creates, challenges, enrolls, resets, revokes, sends, enables, arrives, sweeps, init, step,
  run,
}

Moves-trans :
    {rows mid rows' : List BootstrapSession} → Moves rows mid → Moves mid rows' → Moves rows rows'
Moves-trans m stay = m
Moves-trans m (touch n old b found unused k) = touch (Moves-trans m n) old b found unused k
Moves-trans m (opens n b now found zero_ unused) = opens (Moves-trans m n) b now found zero_ unused

module _ (lib : JsonLib) where
  pub step-Moves : (e : Event) (s : Server) → Moves s.sessions (step lib e s).sessions
  unfolding step mark_stale_devices
  step-Moves (creates c seen payload secret) s =
      rw (sessions-create_device c seen payload secret s) stay
  step-Moves (challenges c device_id session_id nonce ip) s =
      challenge-Moves c device_id session_id nonce ip s
  step-Moves (enrolls c serial payload) s = enroll-Moves c serial payload s
  step-Moves (resets c device_id secret) s = rw (sessions-reset_device c device_id secret s) stay
  step-Moves (revokes c device_id) s = rw (sessions-revoke_device c device_id s) stay
  step-Moves (sends c client delivery command_id device_id command parameters) s =
      rw (sessions-send_command lib c client delivery command_id device_id command parameters s)
        stay
  step-Moves (enables enabled device_id) s = rw (sessions-set_enabled enabled device_id s) stay
  step-Moves (arrives topic payload_text now) s =
      rw ((on_message-OnlyTraffic lib topic payload_text now s).sessions) stay
  step-Moves (sweeps c) s = stay

  -- Any history refines the abstract life of the bootstrap sessions: their table changes by moves only. A
  -- move opens a new session with no attempt, closing the open ones of its device, or writes an open
  -- session, whose identity, device, nonce and expiry stay and whose attempts do not fall.
  pub run-Moves : (es : List Event) (s : Server) → Moves s.sessions (run lib es s).sessions
  unfolding run
  run-Moves [] s = stay
  run-Moves (e ∷ es) s = Moves-trans (step-Moves e s) (run-Moves es (step lib e s))

  -- After any sequence of requests, messages and timer rounds from an empty database, every device has
  -- at most one bootstrap session that is not consumed.
  pub one_open_session :
      (es : List Event) (device_id : String)
      → Table.total session_key (open_of device_id) (run lib es init).sessions ≤ 1
  unfolding Table.total
  one_open_session es device_id = Moves-OneOpen (run-Moves es init) (λ d. omega arith) device_id

  -- After any such sequence no bootstrap session counts more than five enrollment attempts.
  pub attempts_bounded :
      (es : List Event) (session_id : String) (b : BootstrapSession)
      → find_session (run lib es init) session_id ≡ some b
      → b.attempts ≤ 5
  attempts_bounded es session_id b h =
      Table.All-find session_key (λ r. r.attempts ≤ 5) session_id (run lib es init).sessions b
        (Moves-attempts (run-Moves es init) tt) h

  -- A consumed session keeps its row, unchanged, through any sequence of events.
  pub consumed_forever :
      (es : List Event) (s : Server) (b : BootstrapSession) {t : ℕ}
      → find_session s b.session_id ≡ some b
      → b.consumed_at ≡ some t
      → find_session (run lib es s) b.session_id ≡ some b
  consumed_forever es s b h k = Moves-consumed (run-Moves es s) b h k
